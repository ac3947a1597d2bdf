-- ===== src/Timer/Valid.antt =====
-- The invariant of the heap of timers.
use zhangxy.Base.{
  NotIn, Nodup, ℕ, zero, suc, ◌+◌, ◌-◌, ◌*◌, ◌≤◌, ◌<◌, ◌≡◌, refl, ap, ◌∙◌, List, [], ◌∷◌, ◌++◌,
  arith, length, get_or, replicate, length-append, length-replicate,
}
use zhangxy.Base.Int.{pos, sub_ℕ}
use zhangxy.Timer.{Node, Timers, parent, node_at, id_of, fresh_ids, grow_heap, create}
use zhangxy.Timer.Keys.{IsOrdered}
use zhangxy.Timer.Holes.{Placed, IsFresh, key_of}
use zhangxy.Timer.Free.{
  Links, NotIn-append, below-NotIn, range, Links-range, length-range, Nodup-range, Nodup-append,
  Links-same, Links-append, get_or-fresh_ids, length-fresh_ids,
}

-- The ids that are not in use, of which the free list leads through all.
pub record FreeList (h : Timers) (used : ℕ) : Type 0 where
  pub fl : List ℕ
  pub links : Links h.ids h.free_list fl h.size
  pub nodup : Nodup fl
  pub count : length fl + used + 1 ≡ h.size

-- Every entity's id leads to its slot, no entity is earlier than the one above it, the other ids are
-- free, and there is room for one more entity.
pub record IsValid (h : Timers) : Type 0 where
  pub placed : Placed h h.curr_size h.curr_size
  pub ordered : IsOrdered (key_of h) h.curr_size
  pub free : FreeList h h.curr_size
  pub room : h.curr_size + 2 ≤ h.size

-- The entity is in the heap.
abbrev pub Holds : Timers → ℕ → Type 0
Holds h p = (i : ℕ) × (i < h.curr_size) × (node_at h i ≡ p)

-- A new heap is valid and holds no entity.
pub create-IsValid :
    (nodes : ℕ → Node) (count : ℕ)
    → IsValid (create nodes count) × ((p : ℕ) → Holds (create nodes count) p → ⊥)
unfolding create
create-IsValid nodes count =
    let links =
      Links-range (fresh_ids 0 (count + 2)) 1 (count + 1) (count + 2) (omega arith) (omega arith)
        (λ j a b. get_or-fresh_ids 0 (count + 2) j b ∙ ap (λ k. sub_ℕ 0 k) (omega arith)) in
    (
      record {
        placed = record {
          room = omega arith;
          heap_len = length-replicate (count + 2) 0;
          ids_len = length-fresh_ids 0 (count + 2);
          is_id = λ i a b. absurd (omega arith);
          slot_of = λ i a b. absurd (omega arith);
        };
        ordered = λ c a b. absurd (omega arith);
        free = record {
          fl = range 1 (count + 1);
          links = links;
          nodup = Nodup-range 1 (count + 1);
          count = omega (arith, length-range 1 (count + 1));
        };
        room = omega arith;
      },
      λ p (i, a, e). absurd (omega arith),
    )

pub get_or-append_left {ℓ} :
    {A : Type ℓ} (xs ys : List A) (i : ℕ) (d : A)
    → i < length xs
    → get_or (xs ++ ys) i d ≡ get_or xs i d
get_or-append_left [] ys i d h = absurd (omega arith)
get_or-append_left (x ∷ xs) ys zero d h = refl
get_or-append_left (x ∷ xs) ys (suc i) d h = get_or-append_left xs ys i d (omega arith)

get_or-append_right {ℓ} :
    {A : Type ℓ} (xs ys : List A) (i : ℕ) (d : A)
    → length xs ≤ i
    → get_or (xs ++ ys) i d ≡ get_or ys (i - length xs) d
get_or-append_right [] ys i d h = ap (λ k. get_or ys k d) (omega arith)
get_or-append_right (x ∷ xs) ys zero d h = absurd (omega arith)
get_or-append_right (x ∷ xs) ys (suc i) d h =
    get_or-append_right xs ys i d (omega arith) ∙ ap (λ k. get_or ys k d) (omega arith)

-- The entity `p` has its id, but is not in the heap yet.
pub record Ready (h : Timers) (p : ℕ) : Type 0 where
  pub placed : Placed h h.curr_size h.curr_size
  pub fresh : IsFresh h h.curr_size h.curr_size p
  pub ordered : IsOrdered (key_of h) h.curr_size
  pub free : FreeList h (h.curr_size + 1)
  pub taken : NotIn (id_of h p) free.fl

-- Growing keeps all that, and doubles the room.
pub grow-Ready : (h : Timers) (p : ℕ) → Ready h p → Ready (grow_heap h) p
unfolding grow_heap
grow-Ready h p r =
    let n = h.curr_size in
    let old = λ (i : ℕ) (below : i < n).
      get_or-append_left h.heap (replicate h.size 0) i 0
        (omega (arith, r.placed.room, r.placed.heap_len)) in
    let cell = λ (j : ℕ) (below : j < h.size).
      get_or-append_left h.ids (fresh_ids h.size h.size) j (pos 0)
        (omega (arith, r.placed.ids_len)) in
    let new_links =
      Links-range (h.ids ++ fresh_ids h.size h.size) h.size h.size (h.size * 2)
        (omega (arith, r.free.count)) (omega arith)
        (λ j a b.
          get_or-append_right h.ids (fresh_ids h.size h.size) j (pos 0)
            (omega (arith, r.placed.ids_len))
          ∙ get_or-fresh_ids h.size h.size (j - length h.ids) (omega (arith, r.placed.ids_len))
          ∙ ap (λ k. sub_ℕ 0 k) (omega (arith, r.placed.ids_len))) in
    let old_links =
      Links-same h.ids (h.ids ++ fresh_ids h.size h.size) (id_of h p) h.free_list r.free.fl h.size
        h.size (λ j a b c. cell j a) r.taken r.free.links refl in
    record {
      placed = record {
        room = omega (arith, r.placed.room);
        heap_len = omega (
          arith,
          length-append h.heap (replicate h.size 0),
          length-replicate h.size (let z : ℕ = 0 in z),
          r.placed.heap_len,
        );
        ids_len = omega (
          arith,
          length-append h.ids (fresh_ids h.size h.size),
          length-fresh_ids h.size h.size,
          r.placed.ids_len,
        );
        is_id =
            λ i a b. rw (old i a) (let (low, high) = r.placed.is_id i a b in (low, omega arith));
        slot_of = λ i a b.
            let (low, high) = r.placed.is_id i a b in
            rw (old i a, cell (id_of h (node_at h i)) high) (r.placed.slot_of i a b);
      };
      fresh = record {
        is_id = (r.fresh.is_id.0, omega (arith, r.fresh.is_id.1));
        apart = λ i a b. rw (old i a) (r.fresh.apart i a b);
      };
      ordered = λ c a b. rw (old c b, old (parent c) (omega arith)) (r.ordered c a b);
      free = record {
        fl = r.free.fl ++ range h.size h.size;
        links =
            Links-append _ h.free_list r.free.fl h.size (range h.size h.size) (h.size * 2) old_links
              new_links (omega arith);
        nodup = Nodup-append h.ids h.free_list r.free.fl h.size h.size r.free.links r.free.nodup;
        count = omega (
          arith,
          length-append r.free.fl (range h.size h.size),
          length-range h.size h.size,
          r.free.count,
        );
      };
      taken =
          NotIn-append (id_of h p) r.free.fl (range h.size h.size) r.taken
            (below-NotIn (id_of h p) h.size h.size r.fresh.is_id.1);
    }
