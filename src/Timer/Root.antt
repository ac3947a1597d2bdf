-- ===== src/Timer/Root.antt =====
-- The root of a valid heap is its earliest timer.
use zhangxy.Base.{
  ℕ, zero, suc, ◌≤◌, ◌<◌, ◌≡◌, refl, inl, inr, true, false, some, arith, ltb, ◌==◌, Bool-cases,
}
use zhangxy.Time.{Time, time_lte}
use zhangxy.Time.Order.{NoLater, NoLater-refl, NoLater-trans, time_lte_iff}
use zhangxy.Timer.{Timers, parent, node_at, value_of}
use zhangxy.Timer.Api.{is_running, is_due, earliest_time}
use zhangxy.Timer.Keys.{IsOrdered}
use zhangxy.Timer.Holes.{key_of}
use zhangxy.Timer.Valid.{IsValid, Holds}

root_first :
    (key : ℕ → Time) (n : ℕ)
    → IsOrdered key n
    → (depth i : ℕ) → i ≤ depth
    → i < n
    → NoLater (key 0) (key i)
root_first key n o depth zero d h = NoLater-refl (key 0)
root_first key n o zero (suc i) d h = absurd (omega arith)
root_first key n o (suc depth) (suc i) d h =
    NoLater-trans (key 0) (key (parent (suc i))) (key (suc i))
      (root_first key n o depth (parent (suc i)) (omega arith) (omega arith))
      (o (suc i) (omega arith) h)

pub root-NoLater :
    (h : Timers) (q : ℕ) → IsValid h → Holds h q → NoLater (key_of h 0) (value_of h q)
root-NoLater h q v (i, a, e) =
    rw (← e) (root_first (key_of h) h.curr_size v.ordered i i (omega arith) a)

-- The earliest time of a valid heap that is not empty is the time of an entity in it, and no entity in
-- it has an earlier one.
pub earliest_time_lem :
    (h : Timers)
    → IsValid h
    → 0 < h.curr_size
    → (p : ℕ) × Holds h p
      × (earliest_time h ≡ some (value_of h p))
      × ((q : ℕ) → Holds h q → NoLater (value_of h p) (value_of h q))
unfolding earliest_time
earliest_time_lem h v some_in =
    let test : (h.curr_size == 0) ≡ false = ground arith in
    (node_at h 0, (0, some_in, refl), rw test refl, λ q e. root-NoLater h q v e)

-- Once the root is not due, no entity is.
pub none_due :
    (h : Timers) (now : Time) (q : ℕ)
    → IsValid h
    → is_due h now ≡ false
    → Holds h q
    → time_lte (value_of h q) now ≡ false
none_due h now q v stop (i, a, e) = elim (Bool-cases (time_lte (value_of h q) now)) [
  | inr late ↦ late
  | inl due ↦
      let first = root-NoLater h q v (i, a, e) in
      let due' = (time_lte_iff (key_of h 0) now).1 (
        NoLater-trans (key_of h 0) (value_of h q) now first
          ((time_lte_iff (value_of h q) now).0 due)) in
      let filled : ltb 0 h.curr_size ≡ true = ground arith in
      absurd (ground (arith, stop, due', filled))
]

-- An entity in a valid heap is running.
pub Holds-is_running : (h : Timers) (p : ℕ) → IsValid h → Holds h p → is_running h p ≡ true
Holds-is_running h p v (i, a, e) = rw (← e) (ground (arith, v.placed.is_id i a (omega arith)))
