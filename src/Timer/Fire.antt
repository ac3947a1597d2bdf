-- ===== src/Timer/Fire.antt =====
-- oslib/src/timer.c, one round of `TIMER_HeapPoll`: the root is taken out and its callback runs.
use zhangxy.Base.{
  ℕ, ◌+◌, ◌<◌, ◌≡◌, refl, sym, ap, ◌∙◌, ◌≢◌, ◌↔◌, inl, inr, true, false, arith, ◌==◌, if◌then◌else◌,
  Bool-cases,
}
use zhangxy.Time.{Time}
use zhangxy.Timer.{Timers, Node, write, node_at, release_node, remove_node}
use zhangxy.Timer.Api.{is_due, fire}
use zhangxy.Timer.Valid.{IsValid, Holds}
use zhangxy.Timer.Frame.{relabel-IsValid}
use zhangxy.Timer.Remove.{remove_node-IsValid, remove_node_keeps}

-- A callback may change the heap, as long as a valid heap stays valid and the bound of a poll is kept.
abbrev pub KeepsValid : (Timers → ℕ → Timers) → Type 0
KeepsValid call =
    (h : Timers) (p : ℕ) → IsValid h → IsValid (call h p) × ((call h p).poll_max ≡ h.poll_max)

-- A heap after the root was taken out, before its callback.
pub record Taken (h h2 : Timers) : Type 0 where
  valid : IsValid h2
  kept : (q : ℕ) → Holds h2 q ↔ (Holds h q × (q ≢ node_at h 0))
  others : (q : ℕ) → q ≢ node_at h 0 → h2.nodes q ≡ h.nodes q
  handle : (h2.nodes (node_at h 0)).handle ≡ (h.nodes (node_at h 0)).handle
  usr_id : (h2.nodes (node_at h 0)).usr_id ≡ (h.nodes (node_at h 0)).usr_id
  count : h2.curr_size + 1 ≡ h.curr_size
  poll_max : h2.poll_max ≡ h.poll_max

abbrev unlocked : Timers → ℕ → Timers
unlocked h p = record h { nodes = write h.nodes p (record (h.nodes p) { g_lock = 0 }) }

released_root :
    (h : Timers) (p : ℕ)
    → (((release_node h p).nodes p).handle ≡ (h.nodes p).handle)
      × (((release_node h p).nodes p).usr_id ≡ (h.nodes p).usr_id)
unfolding release_node
released_root h p = (ground arith, ground arith)

take_root :
    (h : Timers)
    → IsValid h
    → 0 < h.curr_size
    → (h1 : Timers) × (remove_node h 0 ≡ (h1, node_at h 0)) × Taken h (unlocked h1 (node_at h 0))
take_root h v some_in =
    let p = node_at h 0 in
    let (h1, step, valid, kept, id, others, count) = remove_node-IsValid h 0 v some_in in
    let (nodes, max) = remove_node_keeps h 0 v some_in in
    let (kept_handle, kept_id) = released_root h p in
    let written : h1.nodes ≡ (release_node h p).nodes =
      ap (λ (r : Timers × ℕ). r.0.nodes) (sym step) ∙ nodes in
    let handle : (h1.nodes p).handle ≡ (h.nodes p).handle =
      ap (λ (f : ℕ → Node). (f p).handle) written ∙ kept_handle in
    let usr_id : (h1.nodes p).usr_id ≡ (h.nodes p).usr_id =
      ap (λ (f : ℕ → Node). (f p).usr_id) written ∙ kept_id in
    (
      h1,
      step,
      record {
        valid =
            relabel-IsValid h1 (write h1.nodes p (record (h1.nodes p) { g_lock = 0 })) valid
              (λ q e. ground arith) (λ q e. ground arith);
        kept = kept;
        others = λ q ne. let miss : (q == p) ≡ false = ground (arith, ne) in rw miss (others q ne);
        handle = ground (arith, handle);
        usr_id = ground (arith, usr_id);
        count = count;
        poll_max = ap (λ (r : Timers × ℕ). r.0.poll_max) (sym step) ∙ max;
      },
    )

fire_step :
    (call : Timers → ℕ → Timers) (h h1 : Timers) (p : ℕ)
    → remove_node h 0 ≡ (h1, p)
    → fire call h
      ≡ (if ((unlocked h1 p).nodes p).handle == 0 then unlocked h1 p else call (unlocked h1 p) p)
unfolding fire
fire_step call h h1 p step = rw step refl

pub fire-IsValid :
    (call : Timers → ℕ → Timers) (h : Timers)
    → KeepsValid call
    → IsValid h
    → 0 < h.curr_size
    → IsValid (fire call h) × ((fire call h).poll_max ≡ h.poll_max)
fire-IsValid call h keeps v some_in =
    let (h1, step, t) = take_root h v some_in in
    let h2 = unlocked h1 (node_at h 0) in
    let (valid, max) = keeps h2 (node_at h 0) t.valid in
    rw (fire_step call h h1 (node_at h 0) step)
      (elim (Bool-cases ((h2.nodes (node_at h 0)).handle == 0)) [
        | inl none_set ↦ rw none_set (t.valid, t.poll_max)
        | inr callable ↦ rw callable (valid, max ∙ t.poll_max)
      ])

pub due_filled : (h : Timers) (now : Time) → is_due h now ≡ true → 0 < h.curr_size
due_filled h now due = ground arith

-- The callbacks that change the id their caller gave the entity, and nothing else: what is called, and
-- how often, shows in these ids.
abbrev pub marking : (ℕ → ℕ) → Timers → ℕ → Timers
marking mark h p = record h {
  nodes = write h.nodes p (record (h.nodes p) { usr_id = mark (h.nodes p).usr_id });
}

-- The entity's id after one call of its callback, if it has one.
abbrev pub marked : (ℕ → ℕ) → Timers → ℕ → ℕ
marked mark h q = if (h.nodes q).handle == 0 then (h.nodes q).usr_id else mark (h.nodes q).usr_id

marking_here :
    (mark : ℕ → ℕ) (h : Timers) (p : ℕ)
    → ((marking mark h p).nodes p).usr_id ≡ mark (h.nodes p).usr_id
marking_here mark h p = ground arith

marking_other :
    (mark : ℕ → ℕ) (h : Timers) (p q : ℕ) → q ≢ p → (marking mark h p).nodes q ≡ h.nodes q
marking_other mark h p q ne = let miss : (q == p) ≡ false = ground (arith, ne) in rw miss refl

marking-IsValid : (mark : ℕ → ℕ) (h : Timers) (p : ℕ) → IsValid h → IsValid (marking mark h p)
marking-IsValid mark h p v =
    relabel-IsValid h (marking mark h p).nodes v (λ q e. ground arith) (λ q e. ground arith)

-- One round with such callbacks.
pub record Fired (mark : ℕ → ℕ) (h h2 : Timers) : Type 0 where
  pub valid : IsValid h2
  pub kept : (q : ℕ) → Holds h2 q ↔ (Holds h q × (q ≢ node_at h 0))
  pub others : (q : ℕ) → q ≢ node_at h 0 → h2.nodes q ≡ h.nodes q
  pub root : (h2.nodes (node_at h 0)).usr_id ≡ marked mark h (node_at h 0)
  pub count : h2.curr_size + 1 ≡ h.curr_size
  pub poll_max : h2.poll_max ≡ h.poll_max

pub fire-Fired :
    (mark : ℕ → ℕ) (h : Timers) → IsValid h → 0 < h.curr_size → Fired mark h (fire (marking mark) h)
fire-Fired mark h v some_in =
    let p = node_at h 0 in
    let (h1, step, t) = take_root h v some_in in
    let h2 = unlocked h1 p in
    rw (fire_step (marking mark) h h1 p step) (elim (Bool-cases ((h2.nodes p).handle == 0)) [
      | inl none_set ↦
          let idle : ((h.nodes p).handle == 0) ≡ true = rw (sym t.handle) none_set in
          rw none_set (record {
            valid = t.valid;
            kept = t.kept;
            others = t.others;
            root = rw idle t.usr_id;
            count = t.count;
            poll_max = t.poll_max;
          })
      | inr callable ↦
          let set_up : ((h.nodes p).handle == 0) ≡ false = rw (sym t.handle) callable in
          rw callable (record {
            valid = marking-IsValid mark h2 p t.valid;
            kept = t.kept;
            others = λ q ne. marking_other mark h2 p q ne ∙ t.others q ne;
            root = rw set_up (marking_here mark h2 p ∙ ap mark t.usr_id);
            count = t.count;
            poll_max = t.poll_max;
          })
    ])
