-- ===== src/Timer/Cancel.antt =====
-- Cancelling a timer.
use zhangxy.Base.{
  ℕ, zero, suc, ◌≤◌, ◌<◌, ◌≡◌, refl, ap, ◌∙◌, ◌≢◌, ◌↔◌, Bool, true, false, none, some, List, [],
  ◌∷◌, arith, ltb, ◌==◌, length, get_elem?, get_or,
}
use mathlib.Core.Path.{subst, fun_ext}
use zhangxy.Base.Int.{pos, negsuc, ltz}
use zhangxy.Timer.{Timers, node_at, id_of}
use zhangxy.Timer.Api.{removed, inactive, out_of_bounds, cancel, clear_id}
use zhangxy.Timer.Valid.{IsValid, Holds}
use zhangxy.Timer.Remove.{remove_node-IsValid}

get_elem?-get_or {ℓ} :
    {A : Type ℓ} (xs : List A) (i : ℕ) (d : A)
    → i < length xs
    → get_elem? xs i ≡ some (get_or xs i d)
get_elem?-get_or [] i d h = absurd (omega arith)
get_elem?-get_or (x ∷ xs) zero d h = refl
get_elem?-get_or (x ∷ xs) (suc i) d h = get_elem?-get_or xs i d (omega arith)

past_end {ℓ} : {A : Type ℓ} (xs : List A) (i : ℕ) → length xs ≤ i → get_elem? xs i ≡ none
past_end [] i h = refl
past_end (x ∷ xs) zero h = absurd (omega arith)
past_end (x ∷ xs) (suc i) h = past_end xs i (omega arith)

-- Cancelling an entity of a valid heap removes it: it gets the id -1, the heap stays valid and holds
-- the other entities, which are not written.
pub cancel_held :
    (h : Timers) (p : ℕ) (dont_assert : Bool)
    → IsValid h
    → Holds h p
    → (h' : Timers) × (cancel h p dont_assert ≡ removed h')
      × IsValid h'
      × ((q : ℕ) → Holds h' q ↔ (Holds h q × (q ≢ p)))
      × ((h'.nodes p).timer_id ≡ negsuc 0)
      × ((q : ℕ) → q ≢ p → h'.nodes q ≡ h.nodes q)
unfolding cancel
cancel_held h p dont_assert v (i, a, e) =
    let (low, high) = v.placed.is_id i a (omega arith) in
    let (h', step, valid, kept, id, others, count) = remove_node-IsValid h i v a in
    let cell =
      get_elem?-get_or h.ids (id_of h (node_at h i)) (pos 0) (omega (arith, v.placed.ids_len)) in
    let slot = v.placed.slot_of i a (omega arith) in
    let negative : ltz (h.nodes p).timer_id (pos 0) ≡ false = rw (← e) (ground (arith, low)) in
    let past : ltb h.size (id_of h p) ≡ false = rw (← e) (ground (arith, high)) in
    let found : get_elem? h.ids (id_of h p) ≡ some (pos i) = rw (← e) (cell ∙ ap some slot) in
    let same : (p == node_at h i) ≡ true = ground (arith, e) in
    let used : ltz (pos i) (pos 0) ≡ false = ground arith in
    (
      h',
      rw (negative, past, found, used, same, step) refl,
      valid,
      subst (λ x. (q : ℕ) → Holds h' q ↔ (Holds h q × (q ≢ x))) e kept,
      subst (λ x. (h'.nodes x).timer_id ≡ negsuc 0) e id,
      subst (λ x. (q : ℕ) → q ≢ x → h'.nodes q ≡ h.nodes q) e others,
    )

-- Cancelling an entity whose id is -1, as it is after `TIMER_EntityInit`, changes nothing.
pub cancel_idle :
    (h : Timers) (p : ℕ) (dont_assert : Bool)
    → (h.nodes p).timer_id ≡ negsuc 0
    → cancel h p dont_assert ≡ inactive h
unfolding cancel
cancel_idle h p dont_assert e =
    let same : (clear_id h p).nodes ≡ h.nodes = fun_ext (λ q. ground (arith, e)) in
    rw e (ap (λ nodes. inactive (record h { nodes = nodes })) same)

-- Cancelling an entity of a valid heap twice removes it once: the second time nothing changes.
pub cancel_twice :
    (h : Timers) (p : ℕ) (dont_assert : Bool)
    → IsValid h
    → Holds h p
    → (h' : Timers) × (cancel h p dont_assert ≡ removed h')
      × (cancel h' p dont_assert ≡ inactive h')
cancel_twice h p dont_assert v held =
    let (h', step, valid, kept, id, others) = cancel_held h p dont_assert v held in
    (h', step, cancel_idle h' p dont_assert id)

-- Cancelling an entity whose id is the size of a valid heap reads behind the end of `ids`.
pub cancel_past_end :
    (h : Timers) (p : ℕ) (dont_assert : Bool)
    → IsValid h
    → (h.nodes p).timer_id ≡ pos h.size
    → cancel h p dont_assert ≡ out_of_bounds
unfolding cancel
cancel_past_end h p dont_assert v e =
    let cell : get_elem? h.ids h.size ≡ none =
      past_end h.ids h.size (omega (arith, v.placed.ids_len)) in
    let low : ltb h.size h.size ≡ false = ground arith in
    let used : ltz (pos h.size) (pos 0) ≡ false = ground arith in rw (e, used, low, cell) refl
