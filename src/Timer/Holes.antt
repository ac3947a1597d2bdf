-- ===== src/Timer/Holes.antt =====
-- Which entities are in the heap, and where their ids say they are, while one slot is a hole.
use zhangxy.Base.{
  get_or-set, ℕ, ◌≤◌, ◌<◌, ◌≡◌, refl, ◌∙◌, ◌≢◌, ◌⊎◌, inl, inr, true, arith, ◌==◌, if◌then◌else◌,
  Bool-cases, length, get_or, length-set,
}
use mathlib.Core.Path.{fun_ext}
use zhangxy.Base.Int.{pos, ltz}
use zhangxy.Time.{Time}
use zhangxy.Timer.{Timers, node_at, value_of, id_of, copy_node}
use zhangxy.Timer.Keys.{put}

-- The entity `p` is in one of the first `n` slots, but not in the hole.
abbrev pub In : Timers → ℕ → ℕ → ℕ → Type 0
In h n hole p = (i : ℕ) × (i < n) × (i ≢ hole) × (node_at h i ≡ p)

abbrev pub IsId : Timers → ℕ → Type 0
IsId h id = (0 < id) × (id < h.size)

-- The arrays have their sizes, and each entity's id leads back to its slot.
pub record Placed (h : Timers) (n hole : ℕ) : Type 0 where
  pub room : n ≤ h.size
  pub heap_len : length h.heap ≡ h.size
  pub ids_len : length h.ids ≡ h.size
  pub is_id : (i : ℕ) → i < n → i ≢ hole → IsId h (id_of h (node_at h i))
  pub slot_of : (i : ℕ) → i < n → i ≢ hole → get_or h.ids (id_of h (node_at h i)) (pos 0) ≡ pos i

-- The entity `m` has an id that no entity in the heap has.
pub record IsFresh (h : Timers) (n hole m : ℕ) : Type 0 where
  pub is_id : IsId h (id_of h m)
  pub apart : (i : ℕ) → i < n → i ≢ hole → id_of h (node_at h i) ≢ id_of h m

-- From `h` to `h'` only the arrays change, and in `ids` no cell of a free id but that of `m`.
pub record Keeps (m : ℕ) (h h' : Timers) : Type 0 where
  pub same : h' ≡ record h { heap = h'.heap; ids = h'.ids }
  pub free :
      (j : ℕ)
      → ltz (get_or h.ids j (pos 0)) (pos 0) ≡ true
      → j ≢ id_of h m
      → get_or h'.ids j (pos 0) ≡ get_or h.ids j (pos 0)

abbrev pub key_of : Timers → ℕ → Time
key_of h i = value_of h (node_at h i)

pub node_at-copy_node :
    (h : Timers) (slot q j : ℕ)
    → slot < length h.heap
    → node_at (copy_node h slot q) j ≡ (if j == slot then q else node_at h j)
unfolding copy_node
node_at-copy_node h slot q j inside = get_or-set h.heap slot j q 0 inside

pub key_of-copy_node :
    (h : Timers) (slot q : ℕ)
    → slot < length h.heap
    → key_of (copy_node h slot q) ≡ put (key_of h) slot (value_of h q)
unfolding copy_node
key_of-copy_node h slot q inside =
    fun_ext (λ j. ground (arith, get_or-set h.heap slot j q 0 inside))

-- The hole moves from `hole` to `a`.
module _ (h : Timers) (n hole a m : ℕ) (v : Placed h n hole) (f : IsFresh h n hole m)
    (hole_in : hole < n) (a_in : a < n) (apart : a ≢ hole) where
  pub move-Placed : Placed (copy_node h hole (node_at h a)) n a
  unfolding copy_node
  move-Placed =
      let q = node_at h a in
      let at = λ (j : ℕ). get_or-set h.heap hole j q 0 (omega (arith, v.room, v.heap_len)) in
      let (low, high) = v.is_id a a_in apart in
      let ids_at = λ (j : ℕ).
        get_or-set h.ids (id_of h q) j (pos hole) (pos 0) (omega (arith, high, v.ids_len)) in
      record {
        room = v.room;
        heap_len = length-set h.heap hole q ∙ v.heap_len;
        ids_len = length-set h.ids (id_of h q) (pos hole) ∙ v.ids_len;
        is_id = λ i p r. ground (arith, at i, v.is_id i p, v.is_id a a_in apart);
        slot_of = λ i p r. ground (
          arith,
          at i,
          ids_at (id_of h q),
          ids_at (id_of h (node_at h i)),
          v.slot_of i p,
          v.slot_of a a_in apart,
        );
      }

  pub move-IsFresh : IsFresh (copy_node h hole (node_at h a)) n a m
  unfolding copy_node
  move-IsFresh =
      let q = node_at h a in
      let at = λ (j : ℕ). get_or-set h.heap hole j q 0 (omega (arith, v.room, v.heap_len)) in
      record {
        is_id = f.is_id;
        apart = λ i p r. ground (arith, at i, f.apart i p, f.apart a a_in apart);
      }

  pub move-In : (p : ℕ) → In h n hole p → In (copy_node h hole (node_at h a)) n a p
  unfolding copy_node
  move-In p (i, below, out, e) =
      let q = node_at h a in
      let at = λ (j : ℕ). get_or-set h.heap hole j q 0 (omega (arith, v.room, v.heap_len)) in
      elim (Bool-cases (i == a)) [
        | inl moved ↦ (hole, hole_in, ground arith, ground (arith, at hole))
        | inr stays ↦ (i, below, ground arith, ground (arith, at i))
      ]

  pub move-In_back : (p : ℕ) → In (copy_node h hole (node_at h a)) n a p → In h n hole p
  unfolding copy_node
  move-In_back p (i, below, out, e) =
      let q = node_at h a in
      let at = λ (j : ℕ). get_or-set h.heap hole j q 0 (omega (arith, v.room, v.heap_len)) in
      elim (Bool-cases (i == hole)) [
        | inl moved ↦ (a, a_in, apart, ground (arith, at i))
        | inr stays ↦ (i, below, ground arith, ground (arith, at i))
      ]

  pub move-Keeps : Keeps m h (copy_node h hole (node_at h a))
  unfolding copy_node
  move-Keeps =
      let q = node_at h a in
      let (low, high) = v.is_id a a_in apart in
      record {
        same = refl;
        free = λ j neg ne. ground (
          arith,
          get_or-set h.ids (id_of h q) j (pos hole) (pos 0) (omega (arith, high, v.ids_len)),
          v.slot_of a a_in apart,
        );
      }

-- `m` is put into the hole.
module _ (h : Timers) (n hole m : ℕ) (v : Placed h n hole) (f : IsFresh h n hole m)
    (hole_in : hole < n) where
  pub fill-Placed : Placed (copy_node h hole m) n n
  unfolding copy_node
  fill-Placed =
      let at = λ (j : ℕ). get_or-set h.heap hole j m 0 (omega (arith, v.room, v.heap_len)) in
      let (low, high) = f.is_id in
      let ids_at = λ (j : ℕ).
        get_or-set h.ids (id_of h m) j (pos hole) (pos 0) (omega (arith, high, v.ids_len)) in
      record {
        room = v.room;
        heap_len = length-set h.heap hole m ∙ v.heap_len;
        ids_len = length-set h.ids (id_of h m) (pos hole) ∙ v.ids_len;
        is_id = λ i p r. ground (arith, at i, v.is_id i p, f.is_id);
        slot_of = λ i p r. ground (
          arith,
          at i,
          ids_at (id_of h m),
          ids_at (id_of h (node_at h i)),
          v.slot_of i p,
          f.apart i p,
        );
      }

  pub fill-In : (p : ℕ) → In h n hole p ⊎ (p ≡ m) → In (copy_node h hole m) n n p
  unfolding copy_node
  fill-In p (inl (i, below, out, e)) =
      let at = get_or-set h.heap hole i m 0 (omega (arith, v.room, v.heap_len)) in
      (i, below, omega arith, ground (arith, at))
  fill-In p (inr e) =
      let at = get_or-set h.heap hole hole m 0 (omega (arith, v.room, v.heap_len)) in
      (hole, hole_in, omega arith, ground (arith, at))

  pub fill-In_back : (p : ℕ) → In (copy_node h hole m) n n p → In h n hole p ⊎ (p ≡ m)
  unfolding copy_node
  fill-In_back p (i, below, out, e) =
      let at = get_or-set h.heap hole i m 0 (omega (arith, v.room, v.heap_len)) in
      elim (Bool-cases (i == hole)) [
        | inl moved ↦ inr (ground (arith, at))
        | inr stays ↦ inl (i, below, ground arith, ground (arith, at))
      ]

  pub fill-Keeps : Keeps m h (copy_node h hole m)
  unfolding copy_node
  fill-Keeps =
      let (low, high) = f.is_id in
      record {
        same = refl;
        free = λ j neg ne. ground (
          arith,
          get_or-set h.ids (id_of h m) j (pos hole) (pos 0) (omega (arith, high, v.ids_len)),
        );
      }
