-- ===== src/Timer/Poll.antt =====
-- oslib/src/timer.c, the loop of `TIMER_HeapPoll`: what it does to the heap, and what it calls.
use zhangxy.Base.{
  ℕ, zero, suc, ◌+◌, ◌≤◌, ◌<◌, ◌≡◌, refl, ap, ◌∙◌, ◌↔◌, ◌⊎◌, inl, inr, Bool, true, false, ◌&&◌,
  Option, none, some, arith, ltb, ◌==◌, if◌then◌else◌, Bool-cases,
}
use zhangxy.Base.Int.{ℤ, pos, negsuc, pos_part}
use zhangxy.Time.{Time, time_lte}
use zhangxy.Timer.{Timers, value_of}
use zhangxy.Timer.Api.{is_due, fire, poll_loop, poll, delay_left}
use zhangxy.Timer.Valid.{IsValid, Holds}
use zhangxy.Timer.Root.{none_due}
use zhangxy.Timer.Fire.{KeepsValid, marked, fire-IsValid, due_filled}

-- What the loop of a poll ends with, when callbacks keep the heap valid and `poll_max`.
abbrev Polled : Timers → Time → Timers × ℕ → Type 0
Polled h now r = IsValid r.0 × (r.1 ≤ h.poll_max) × ((r.1 ≡ h.poll_max) ⊎ (is_due r.0 now ≡ false))

poll_loop_lem :
    (call : Timers → ℕ → Timers) (fuel : ℕ) (h : Timers) (now : Time) (count : ℕ)
    → KeepsValid call
    → IsValid h
    → count ≤ h.poll_max
    → h.poll_max < fuel + count
    → (r : Timers × ℕ) × (poll_loop call fuel h now count ≡ some r) × Polled h now r
unfolding poll_loop
poll_loop_lem call zero h now count keeps v low f = absurd (omega arith)
poll_loop_lem call (suc fuel) h now count keeps v low f =
    elim (Bool-cases (is_due h now && ltb count h.poll_max)) [
      | inr stop ↦ (
        (h, count),
        rw stop refl,
        (
          v,
          low,
          elim (Bool-cases (is_due h now)) [
            | inl due ↦ inl (ground (arith, stop, due, low))
            | inr early ↦ inr early
          ],
        ),
      )
      | inl go ↦
          let due : is_due h now ≡ true = ground (arith, go) in
          let under : count < h.poll_max = ground (arith, go) in
          let (valid, max) = fire-IsValid call h keeps v (due_filled h now due) in
          let (r, eq, rest) =
            poll_loop_lem call fuel (fire call h) now (count + 1) keeps valid (omega (arith, max))
              (omega (arith, max)) in
          let (valid', bound, why) = rest in
          (
            r,
            rw go eq,
            (
              valid',
              omega (arith, max),
              elim why [ inl full ↦ inl (full ∙ max) | inr stop ↦ inr stop ],
            ),
          )
    ]

-- A poll of a valid heap, with callbacks that keep a valid heap valid and keep `poll_max`, ends: fuel of
-- more than `poll_max` rounds is enough. It leaves a valid heap and has fired at most `poll_max` timers.
-- Unless it has fired `poll_max` timers, no timer in the heap is due afterwards.
pub poll-IsValid :
    (call : Timers → ℕ → Timers) (fuel : ℕ) (h : Timers) (now : Time) (wants_delay : Bool)
    → KeepsValid call
    → IsValid h
    → h.poll_max < fuel
    → (r : Timers × ℤ × Option Time) × (poll call fuel h now wants_delay ≡ some r)
      × IsValid r.0
      × (pos_part r.1 ≤ h.poll_max)
      × ((r.1 ≡ pos h.poll_max) ⊎ ((q : ℕ) → Holds r.0 q → time_lte (value_of r.0 q) now ≡ false))
unfolding poll
poll-IsValid call fuel h now wants_delay keeps v f =
    elim (Bool-cases (h.curr_size == 0 && wants_delay)) [
      | inl empty ↦ (
        (h, negsuc 0, some (delay_left call h now)),
        rw empty refl,
        v,
        omega arith,
        inr (λ q (i, a, e). absurd (ground (arith, empty))),
      )
      | inr polled ↦
          let ((h', count), eq, rest) =
            poll_loop_lem call fuel h now 0 keeps v (omega arith) (omega arith) in
          let (valid, bound, why) = rest in
          (
            (h', pos count, if wants_delay then some (delay_left call h' now) else none),
            rw (polled, eq) refl,
            valid,
            bound,
            elim why [
              | inl full ↦ inl (ap pos full)
              | inr stop ↦ inr (λ q e. none_due h' now q valid stop e)
            ],
          )
    ]

-- What a poll did when its callbacks mark the entities: the heap keeps the timers that are not due, and
-- exactly the entities that left it, if they have a callback, are marked, once each.
pub record Drained (mark : ℕ → ℕ) (h : Timers) (now : Time) (h' : Timers) : Type 0 where
  pub left_over : (q : ℕ) → Holds h' q ↔ (Holds h q × (time_lte (value_of h q) now ≡ false))
  pub fired :
      (q : ℕ)
      → Holds h q
      → time_lte (value_of h q) now ≡ true
      → (h'.nodes q).usr_id ≡ marked mark h q
  pub waiting :
      (q : ℕ)
      → Holds h q
      → time_lte (value_of h q) now ≡ false
      → (h'.nodes q).usr_id ≡ (h.nodes q).usr_id
  pub idle : (q : ℕ) → (Holds h q → ⊥) → (h'.nodes q).usr_id ≡ (h.nodes q).usr_id
