-- ===== src/Timer/Start.antt =====
-- Scheduling a timer.
use zhangxy.Base.{
  ℕ, ◌≡◌, refl, ap, ◌≢◌, ◌↔◌, ◌⊎◌, inl, inr, true, false, Option, arith, ◌==◌, Bool-cases,
}
use zhangxy.Time.{Time, time_add}
use zhangxy.Timer.{Node, Timers, write, value_of, schedule_entry}
use zhangxy.Timer.Api.{success, inval, invalid_op, removed, schedule, cancel, is_running, chosen_id}
use zhangxy.Timer.Valid.{IsValid, Holds}
use zhangxy.Timer.Frame.{relabel-IsValid}
use zhangxy.Timer.Root.{Holds-is_running}
use zhangxy.Timer.Schedule.{schedule_entry-IsValid}
use zhangxy.Timer.Cancel.{cancel_held}

abbrev labelled : Timers → ℕ → Option ℕ → ℕ → Node
labelled h p set_id g_lock = record (h.nodes p) {
  usr_id = chosen_id set_id (h.nodes p).usr_id;
  g_lock = g_lock;
}

schedule_step :
    (h : Timers) (p : ℕ) (delay now : Time) (set_id : Option ℕ) (g_lock : ℕ) (h1 : Timers)
    → (h.nodes p).handle ≢ 0
    → is_running h p ≡ false
    → schedule_entry h p (time_add now delay) ≡ (h1, true)
    → schedule h p delay now set_id g_lock
      ≡ (record h1 { nodes = write h1.nodes p (labelled h1 p set_id g_lock) }, success)
unfolding schedule
schedule_step h p delay now set_id g_lock h1 callable idle step =
    let test : ((h.nodes p).handle == 0) ≡ false = ground (arith, callable) in
    rw (test, idle, step) refl

-- Scheduling an entity that has a handle and is not running succeeds at a valid heap: the heap stays
-- valid, holds the entity too, at the time `delay` after `now`, and the other entities are not written.
pub schedule_lem :
    (h : Timers) (p : ℕ) (delay now : Time) (set_id : Option ℕ) (g_lock : ℕ)
    → IsValid h
    → (h.nodes p).handle ≢ 0
    → is_running h p ≡ false
    → (h' : Timers) × (schedule h p delay now set_id g_lock ≡ (h', success))
      × IsValid h'
      × ((q : ℕ) → Holds h' q ↔ (Holds h q ⊎ (q ≡ p)))
      × (value_of h' p ≡ time_add now delay)
      × ((q : ℕ) → q ≢ p → h'.nodes q ≡ h.nodes q)
schedule_lem h p delay now set_id g_lock v callable idle =
    let out = λ (e : Holds h p). let bad : ⊥ = ground (arith, Holds-is_running h p v e) in bad in
    let (h1, step, valid, holds, time, others) =
      schedule_entry-IsValid h p (time_add now delay) v out in
    (
      record h1 { nodes = write h1.nodes p (labelled h1 p set_id g_lock) },
      schedule_step h p delay now set_id g_lock h1 callable idle step,
      relabel-IsValid h1 (write h1.nodes p (labelled h1 p set_id g_lock)) valid
          (λ q e. ground arith) (λ q e. ground arith),
      holds,
      ground (arith, time),
      λ q ne. ground (arith, others q),
    )

-- An entity without a handle, or one that is running, is refused, and the heap is as before.
pub schedule_refused :
    (h : Timers) (p : ℕ) (delay now : Time) (set_id : Option ℕ) (g_lock : ℕ)
    → ((h.nodes p).handle ≡ 0) ⊎ (is_running h p ≡ true)
    → (schedule h p delay now set_id g_lock ≡ (h, inval))
      ⊎ (schedule h p delay now set_id g_lock ≡ (h, invalid_op))
unfolding schedule
schedule_refused h p delay now set_id g_lock why = elim (Bool-cases ((h.nodes p).handle == 0)) [
  | inl missing ↦ inl (rw missing refl)
  | inr there ↦ elim why [
    | inl no_handle ↦ absurd (ground (arith, no_handle, there))
    | inr running ↦ inr (rw (there, running) refl)
  ]
]

-- A timer that is scheduled at a valid heap and then cancelled is removed, and the heap holds what it
-- held before.
pub cancel-schedule :
    (h : Timers) (p : ℕ) (delay now : Time) (set_id : Option ℕ) (g_lock : ℕ)
    → IsValid h
    → (h.nodes p).handle ≢ 0
    → is_running h p ≡ false
    → (h' : Timers) × (cancel (schedule h p delay now set_id g_lock).0 p false ≡ removed h')
      × IsValid h'
      × ((q : ℕ) → Holds h' q ↔ Holds h q)
cancel-schedule h p delay now set_id g_lock v callable idle =
    let (h1, step, valid, holds, time, others) =
      schedule_lem h p delay now set_id g_lock v callable idle in
    let (h', stop, valid', kept, id, same) =
      cancel_held h1 p false valid ((holds p).1 (inr refl)) in
    (
      h',
      rw step stop,
      valid',
      λ q. (
        (λ e. elim ((holds q).0 ((kept q).0 e).0) [
          | inl old ↦ old
          | inr new ↦ absurd (((kept q).0 e).1 new)
        ]),
        (λ e. (kept q).1 (
          (holds q).1 (inl e),
          (λ new.
              let bad : ⊥ = ground (arith, Holds-is_running h q v e, ap (is_running h) new) in bad),
        )),
      ),
    )
