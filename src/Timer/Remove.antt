-- ===== src/Timer/Remove.antt =====
-- `remove_node` takes an entity out of the heap.
use zhangxy.Base.{
  ℕ, ◌+◌, ◌-◌, ◌<◌, ◌≡◌, refl, sym, ap, ◌∙◌, ◌≢◌, ◌↔◌, inl, inr, arith, ltb, ltb→lt, Bool-cases,
  get_or,
}
use mathlib.Core.Path.{subst}
use zhangxy.Base.Int.{pos, negsuc}
use zhangxy.Timer.{Node, Timers, node_at, id_of, release_node, refill_slot, remove_node}
use zhangxy.Timer.Holes.{In}
use zhangxy.Timer.Valid.{IsValid, Holds}
use zhangxy.Timer.Release.{release_node-Released, release_last-IsValid}
use zhangxy.Timer.Refill.{refill_slot-IsValid, refill_slot-poll_max}

-- The entities that are not at the slot are not the one there.
other_node :
    (h : Timers) (slot i : ℕ)
    → IsValid h
    → slot < h.curr_size
    → i < h.curr_size
    → i ≢ slot
    → node_at h i ≢ node_at h slot
other_node h slot i v inside a b e =
    let mine = v.placed.slot_of slot inside (omega arith) in
    let theirs = v.placed.slot_of i a (omega arith) in
    let same : pos i ≡ pos slot =
      sym theirs ∙ ap (λ p. get_or h.ids (id_of h p) (pos 0)) e ∙ mine in
    b (ground arith)

-- The heap `h'` is what is left of `h` without the entity at `slot`.
abbrev Removed : Timers → ℕ → Timers → Type 0
Removed h slot h' =
    IsValid h'
    × ((q : ℕ) → Holds h' q ↔ (Holds h q × (q ≢ node_at h slot)))
    × ((h'.nodes (node_at h slot)).timer_id ≡ negsuc 0)
    × ((q : ℕ) → q ≢ node_at h slot → h'.nodes q ≡ h.nodes q)
    × (h'.curr_size + 1 ≡ h.curr_size)

-- From what it keeps of the released heap.
Removed-of_kept :
    (h : Timers) (slot : ℕ) (h' : Timers)
    → IsValid h
    → slot < h.curr_size
    → IsValid h'
    → h'.nodes ≡ (release_node h (node_at h slot)).nodes
    → h'.curr_size ≡ h.curr_size - 1
    → ((q : ℕ) → Holds h' q ↔ In (release_node h (node_at h slot)) (h.curr_size - 1 + 1) slot q)
    → Removed h slot h'
unfolding release_node
Removed-of_kept h slot h' v inside valid nodes count kept =
    let p = node_at h slot in
    (
      valid,
      λ q. (
        λ e.
            let (i, a, b, c) = (kept q).0 e in
            ((i, omega arith, c), λ same. other_node h slot i v inside (omega arith) b (c ∙ same)),
        λ ((i, a, c), ne).
            (kept q).1 (i, omega arith, (λ same. ne (sym c ∙ ap (node_at h) same)), c),
      ),
      ap (λ (f : ℕ → Node). (f p).timer_id) nodes ∙ ground arith,
      λ q ne. ap (λ (f : ℕ → Node). f q) nodes ∙ ground arith,
      omega arith,
    )

-- `remove_node` of a slot of a valid heap returns the entity there, which gets the id -1, and leaves a
-- valid heap of the other entities, in which nothing else is written.
pub remove_node-IsValid :
    (h : Timers) (slot : ℕ)
    → IsValid h
    → slot < h.curr_size
    → (h' : Timers) × (remove_node h slot ≡ (h', node_at h slot))
      × IsValid h'
      × ((q : ℕ) → Holds h' q ↔ (Holds h q × (q ≢ node_at h slot)))
      × ((h'.nodes (node_at h slot)).timer_id ≡ negsuc 0)
      × ((q : ℕ) → q ≢ node_at h slot → h'.nodes q ≡ h.nodes q)
      × (h'.curr_size + 1 ≡ h.curr_size)
unfolding remove_node
remove_node-IsValid h slot v inside =
    let p = node_at h slot in
    let h1 = release_node h p in
    let r = release_node-Released h slot v inside in
    let size : h1.curr_size ≡ h.curr_size - 1 = unfold release_node in refl in
    elim (Bool-cases (ltb slot h1.curr_size)) [
      | inl front ↦
          let low = ltb→lt slot h1.curr_size front in
          let (valid, nodes, count, kept) = refill_slot-IsValid h1 slot r low in
          let (a, b, c, d, e) =
            Removed-of_kept h slot (refill_slot h1 slot) v inside valid nodes (count ∙ size) (λ q.
              subst (λ n. Holds (refill_slot h1 slot) q ↔ In h1 (n + 1) slot q) size (kept q)) in
          (refill_slot h1 slot, rw front refl, a, b, c, d, e)
      | inr last ↦
          let at_end : slot ≡ h1.curr_size = ground (arith, r.slot_in) in
          let (a, b, c, d, e) =
            Removed-of_kept h slot h1 v inside (release_last-IsValid h1 slot r at_end) refl size
              (λ q. (
                (λ (i, a, c). (i, omega arith, omega arith, c)),
                (λ (i, a, b, c). (i, omega arith, c)),
              )) in
          (h1, rw last refl, a, b, c, d, e)
    ]

-- `remove_node` writes no entity but the one that gives its id back, and leaves the bound of a poll.
pub remove_node_keeps :
    (h : Timers) (slot : ℕ)
    → IsValid h
    → slot < h.curr_size
    → ((remove_node h slot).0.nodes ≡ (release_node h (node_at h slot)).nodes)
      × ((remove_node h slot).0.poll_max ≡ h.poll_max)
unfolding remove_node
remove_node_keeps h slot v inside =
    let h1 = release_node h (node_at h slot) in
    let released : h1.poll_max ≡ h.poll_max = unfold release_node in refl in
    elim (Bool-cases (ltb slot h1.curr_size)) [
      | inl front ↦
          let r = release_node-Released h slot v inside in
          let low = ltb→lt slot h1.curr_size front in
          rw front
            ((refill_slot-IsValid h1 slot r low).1, refill_slot-poll_max h1 slot r low ∙ released)
      | inr last ↦ rw last (refl, released)
    ]
