-- ===== src/Timer/Sift.antt =====
-- `reheap_up` and `reheap_down` put an entity into the heap: the order is restored, the ids lead to
-- the slots, and nothing else changes.
use zhangxy.Base.{
  ℕ, zero, suc, ◌+◌, ◌<◌, ◌≡◌, refl, sym, ap, ◌∙◌, ◌≢◌, ◌⊎◌, inl, inr, true, ◌&&◌, arith, ltb,
  Bool-cases, le_cases, length,
}
use mathlib.Core.Path.{subst}
use zhangxy.Base.Int.{pos_part}
use zhangxy.Time.{time_lt}
use zhangxy.Time.Order.{NoLater-refl, NoLater-of_lt}
use zhangxy.Timer.{
  Timers, node_at, value_of, id_of, parent, left, copy_node, smaller_child, up_loop, down_loop,
  reheap_up, reheap_down,
}
use zhangxy.Timer.Keys.{
  put, IsOrdered, Around, Below, Above, fill_hole, up-Around, up-Below, IsEarliest, down-Around,
  down-Above, settled-Below,
}
use zhangxy.Timer.Holes.{
  In, Placed, IsFresh, Keeps, key_of, key_of-copy_node, move-Placed, move-IsFresh, move-In,
  move-In_back, move-Keeps, fill-Placed, fill-In, fill-In_back, fill-Keeps,
}

-- `m` was put into the hole, and `h'` is a heap.
pub record Settled (h : Timers) (n hole m : ℕ) (h' : Timers) : Type 0 where
  pub placed : Placed h' n n
  pub ordered : IsOrdered (key_of h') n
  pub keeps : Keeps m h h'
  pub into : (p : ℕ) → In h n hole p ⊎ (p ≡ m) → In h' n n p
  pub back : (p : ℕ) → In h' n n p → In h n hole p ⊎ (p ≡ m)

Keeps-trans : (m : ℕ) (h h1 h2 : Timers) → Keeps m h h1 → Keeps m h1 h2 → Keeps m h h2
Keeps-trans m h h1 h2 k l =
    let nodes : h1.nodes ≡ h.nodes = ap (λ (t : Timers). t.nodes) k.same in
    let id : id_of h1 m ≡ id_of h m = ap (λ f. pos_part (f m).timer_id) nodes in
    record {
      same = ground (arith, k.same, l.same);
      free = λ j neg ne. let first = k.free j neg ne in l.free j (rw first neg) (rw id ne) ∙ first;
    }

-- Ready for an entity that goes to the hole.
pub record Open (h : Timers) (n hole m : ℕ) : Type 0 where
  pub placed : Placed h n hole
  pub fresh : IsFresh h n hole m
  pub hole_in : hole < n
  pub around : Around (key_of h) hole n

module _ (h : Timers) (n hole m : ℕ) (o : Open h n hole m) where
  hole_inside : hole < length h.heap
  hole_inside = omega (arith, o.hole_in, o.placed.room, o.placed.heap_len)

  -- The moved entity goes into the hole.
  fill-Settled :
      Below (key_of h) (value_of h m) hole n
      → Above (key_of h) (value_of h m) hole
      → Settled h n hole m (copy_node h hole m)
  fill-Settled below above = record {
    placed = fill-Placed h n hole m o.placed o.fresh o.hole_in;
    ordered =
        subst (λ k. IsOrdered k n) (sym (key_of-copy_node h hole m hole_inside))
          (fill_hole (key_of h) (value_of h m) hole n o.around below above);
    keeps = fill-Keeps h n hole m o.placed o.fresh o.hole_in;
    into = fill-In h n hole m o.placed o.fresh o.hole_in;
    back = fill-In_back h n hole m o.placed o.fresh o.hole_in;
  }

  -- Another one goes there, and leaves a hole behind.
  module _ (a : ℕ) (a_in : a < n) (apart : a ≢ hole) where
    move-Settled :
        (h' : Timers) → Settled (copy_node h hole (node_at h a)) n a m h' → Settled h n hole m h'
    move-Settled h' s = record {
      placed = s.placed;
      ordered = s.ordered;
      keeps =
          Keeps-trans m h (copy_node h hole (node_at h a)) h'
            (move-Keeps h n hole a m o.placed o.fresh o.hole_in a_in apart) s.keeps;
      into = λ p e. elim e [
        | inl i ↦ s.into p (inl (move-In h n hole a m o.placed o.fresh o.hole_in a_in apart p i))
        | inr same ↦ s.into p (inr same)
      ];
      back = λ p e. elim (s.back p e) [
        | inl i ↦ inl (move-In_back h n hole a m o.placed o.fresh o.hole_in a_in apart p i)
        | inr same ↦ inr same
      ];
    }

    move-Open :
        Around (put (key_of h) hole (key_of h a)) a n → Open (copy_node h hole (node_at h a)) n a m
    move-Open around = record {
      placed = move-Placed h n hole a m o.placed o.fresh o.hole_in a_in apart;
      fresh = move-IsFresh h n hole a m o.placed o.fresh o.hole_in a_in apart;
      hole_in = a_in;
      around =
          subst (λ k. Around k a n) (sym (key_of-copy_node h hole (node_at h a) hole_inside))
            around;
    }

value_of-copy_node : (h : Timers) (slot q m : ℕ) → value_of (copy_node h slot q) m ≡ value_of h m
unfolding copy_node
value_of-copy_node h slot q m = refl

up_loop-Settled :
    (fuel : ℕ) (h : Timers) (n hole m : ℕ)
    → hole < fuel
    → Open h n hole m
    → Below (key_of h) (value_of h m) hole n
    → Settled h n hole m (up_loop fuel h m hole (parent hole))
unfolding up_loop
up_loop-Settled zero h n hole m f o below = absurd (omega arith)
up_loop-Settled (suc fuel) h n hole m f o below =
    let a = parent hole in
    elim (Bool-cases (ltb 0 hole && time_lt (value_of h m) (value_of h (node_at h a)))) [
      | inr stop ↦ rw stop (fill-Settled h n hole m o below (λ p. ground arith))
      | inl rise ↦
          let low : 0 < hole = ground arith in
          let less : time_lt (value_of h m) (key_of h a) ≡ true = ground arith in
          let a_in : a < n = omega (arith, o.hole_in) in
          let apart : a ≢ hole = omega arith in
          let h1 = copy_node h hole (node_at h a) in
          let around = up-Around (key_of h) (value_of h m) hole n o.around low o.hole_in in
          let below' = up-Below (key_of h) (value_of h m) hole n o.around low o.hole_in less in
          let keys = key_of-copy_node h hole (node_at h a) (hole_inside h n hole m o) in
          rw rise (
            move-Settled h n hole m o a a_in apart _ (
              up_loop-Settled fuel h1 n a m (omega arith)
                (move-Open h n hole m o a a_in apart around)
                (subst (λ v. Below (key_of h1) v a n)
                  (sym (value_of-copy_node h hole (node_at h a) m))
                  (subst (λ k. Below k (value_of h m) a n) (sym keys) below'))))
    ]

pub reheap_up-Settled :
    (h : Timers) (n hole m : ℕ)
    → Open h n hole m
    → Below (key_of h) (value_of h m) hole n
    → Settled h n hole m (reheap_up h m hole (parent hole))
unfolding reheap_up
reheap_up-Settled h n hole m o below = up_loop-Settled (hole + 1) h n hole m (omega arith) o below

smaller_child-IsEarliest :
    (h : Timers) (hole : ℕ)
    → left hole < h.curr_size
    → IsEarliest (key_of h) hole h.curr_size (smaller_child h (left hole))
unfolding smaller_child
smaller_child-IsEarliest h hole inside =
    let l = left hole in
    elim (Bool-cases (ltb (l + 1) h.curr_size && time_lt (key_of h (l + 1)) (key_of h l))) [
      | inl right ↦
          let r_in : l + 1 < h.curr_size = ground arith in
          let less : time_lt (key_of h (l + 1)) (key_of h l) ≡ true = ground arith in
          rw right (record {
            inside = r_in;
            child = omega arith;
            positive = omega arith;
            least = λ c p q r.
                let two : (c ≡ l) ⊎ (c ≡ l + 1) = omega arith in
                elim two [
                  | inl e ↦ rw e (NoLater-of_lt (key_of h (l + 1)) (key_of h l) less)
                  | inr e ↦ rw e (NoLater-refl (key_of h (l + 1)))
                ];
          })
      | inr not_right ↦ rw not_right (record {
        inside = inside;
        child = omega arith;
        positive = omega arith;
        least = λ c p q r.
            let two : (c ≡ l) ⊎ (c ≡ l + 1) = omega arith in
            elim two [ inl e ↦ rw e (NoLater-refl (key_of h l)) | inr e ↦ rw e (ground arith) ];
      })
    ]

down_loop-Settled :
    (fuel : ℕ) (h : Timers) (hole m : ℕ)
    → h.curr_size < fuel + hole
    → Open h h.curr_size hole m
    → Above (key_of h) (value_of h m) hole
    → Settled h h.curr_size hole m (down_loop fuel h m hole (left hole))
unfolding down_loop
down_loop-Settled zero h hole m f o above = absurd (omega (arith, o.hole_in))
down_loop-Settled (suc fuel) h hole m f o above =
    let n = h.curr_size in
    let s = smaller_child h (left hole) in
    elim (Bool-cases (ltb (left hole) n && time_lt (value_of h (node_at h s)) (value_of h m))) [
      | inr stop ↦ rw stop (
          fill-Settled h n hole m o
            (elim (le_cases n (left hole)) [
              | inl leaf ↦ λ c p q r. absurd (omega arith)
              | inr inner ↦
                  let e = smaller_child-IsEarliest h hole inner in
                  settled-Below (key_of h) (value_of h m) hole n s o.around e (ground arith)
            ])
            above)
      | inl sink ↦
          let inner : left hole < n = ground arith in
          let less : time_lt (key_of h s) (value_of h m) ≡ true = ground arith in
          let e = smaller_child-IsEarliest h hole inner in
          let apart : s ≢ hole = omega (arith, e.child, e.positive) in
          let h1 = copy_node h hole (node_at h s) in
          let around = down-Around (key_of h) (value_of h m) hole n s o.around e in
          let above' = down-Above (key_of h) (value_of h m) hole n s o.around e less in
          let keys = key_of-copy_node h hole (node_at h s) (hole_inside h n hole m o) in
          rw sink (
            move-Settled h n hole m o s e.inside apart _ (
              down_loop-Settled fuel h1 s m (omega (arith, e.child, e.positive))
                (move-Open h n hole m o s e.inside apart around)
                (subst (λ v. Above (key_of h1) v s)
                  (sym (value_of-copy_node h hole (node_at h s) m))
                  (subst (λ k. Above k (value_of h m) s) (sym keys) above'))))
    ]

pub reheap_down-Settled :
    (h : Timers) (hole m : ℕ)
    → Open h h.curr_size hole m
    → Above (key_of h) (value_of h m) hole
    → Settled h h.curr_size hole m (reheap_down h m hole (left hole))
unfolding reheap_down
reheap_down-Settled h hole m o above =
    down_loop-Settled (h.curr_size + 1) h hole m (omega arith) o above
