-- ===== src/Timer/Release.antt =====
-- `release_node` gives the id of an entity back.
use zhangxy.Base.{
  get_or-set, ℕ, ◌+◌, ◌-◌, ◌≤◌, ◌<◌, ◌≡◌, refl, sym, ap, ◌∙◌, ◌≢◌, true, false, ◌∷◌, arith, ◌==◌,
  get_or, set, length-set,
}
use mathlib.Core.Path.{subst, fun_ext}
use zhangxy.Base.Int.{pos, neg_part, sub_ℕ, ltz}
use zhangxy.Time.Order.{NoLater}
use zhangxy.Timer.{Timers, parent, node_at, id_of, release_node}
use zhangxy.Timer.Keys.{IsOrdered}
use zhangxy.Timer.Holes.{Placed, key_of}
use zhangxy.Timer.Free.{Links-same, Links-positive, used-NotIn}
use zhangxy.Timer.Valid.{FreeList, IsValid}

-- The entity at `slot` has given its id back, but still stands there.
pub record Released (h : Timers) (slot : ℕ) : Type 0 where
  pub placed : Placed h (h.curr_size + 1) slot
  pub ordered : IsOrdered (key_of h) (h.curr_size + 1)
  pub free : FreeList h h.curr_size
  pub slot_in : slot < h.curr_size + 1
  pub room : h.curr_size + 2 ≤ h.size

pub release_node-Released :
    (h : Timers) (slot : ℕ)
    → IsValid h
    → slot < h.curr_size
    → Released (release_node h (node_at h slot)) slot
unfolding release_node
release_node-Released h slot v inside =
    let p = node_at h slot in
    let (low, high) = v.placed.is_id slot inside (omega arith) in
    let mine = v.placed.slot_of slot inside (omega arith) in
    let whole : h.curr_size - 1 + 1 ≡ h.curr_size = omega arith in
    let cell = λ (j : ℕ).
      get_or-set h.ids (id_of h p) j (sub_ℕ 0 h.free_list) (pos 0)
        (omega (arith, high, v.placed.ids_len)) in
    let other = λ (i : ℕ) (a : i < h.curr_size) (b : i ≢ slot).
      let ne : id_of h (node_at h i) ≢ id_of h p = (λ e.
        let theirs = v.placed.slot_of i a (omega arith) in
        let same : pos i ≡ pos slot = sym theirs ∙ ap (λ j. get_or h.ids j (pos 0)) e ∙ mine in
        b (ground arith)) in
      ne in
    let test = λ (i : ℕ) (a : i < h.curr_size) (b : i ≢ slot).
      let miss : (node_at h i == p) ≡ false = ground (arith, ap (id_of h), other i a b) in miss in
    let keys : key_of (release_node h p) ≡ key_of h = fun_ext (λ i. ground arith) in
    let first =
      Links-positive h.ids h.free_list v.free.fl h.size v.free.links (omega (arith, high)) in
    let absent =
      used-NotIn h.ids h.free_list v.free.fl h.size (id_of h p) v.free.links
        (rw mine (ground arith)) in
    let freed : get_or (set h.ids (id_of h p) (sub_ℕ 0 h.free_list)) (id_of h p) (pos 0)
        ≡ sub_ℕ 0 h.free_list =
      ground (arith, cell (id_of h p)) in
    let linked : ltz (sub_ℕ 0 h.free_list) (pos 0) ≡ true = ground arith in
    let back : h.free_list ≡ neg_part (sub_ℕ 0 h.free_list) = ground arith in
    let rest =
      Links-same h.ids (set h.ids (id_of h p) (sub_ℕ 0 h.free_list)) (id_of h p) h.free_list
        v.free.fl h.size h.size (λ j a b ne. ground (arith, cell j, ne)) absent v.free.links refl in
    record {
      placed = record {
        room = omega (arith, v.placed.room);
        heap_len = v.placed.heap_len;
        ids_len = length-set h.ids (id_of h p) _ ∙ v.placed.ids_len;
        is_id = λ i a b. rw (test i (omega arith) b) (v.placed.is_id i (omega arith) (omega arith));
        slot_of = λ i a b.
            let miss : (id_of h (node_at h i) == id_of h p) ≡ false =
              ground (arith, other i (omega arith) b) in
            rw (test i (omega arith) b, cell (id_of h (node_at h i)), miss)
              (v.placed.slot_of i (omega arith) (omega arith));
      };
      ordered = λ c a b.
          subst (λ k. NoLater (k (parent c)) (k c)) (sym keys) (v.ordered c a (omega arith));
      free = record {
        fl = id_of h p ∷ v.free.fl;
        links = (refl, low, high, rw freed linked, rw (freed, ← back) rest);
        nodup = (absent, v.free.nodup);
        count = omega (arith, v.free.count);
      };
      slot_in = omega arith;
      room = omega (arith, v.room);
    }

-- Without its last entity the heap is valid as it is.
pub release_last-IsValid :
    (h : Timers) (slot : ℕ) → Released h slot → slot ≡ h.curr_size → IsValid h
release_last-IsValid h slot r e = record {
  placed = record {
    room = omega (arith, r.placed.room);
    heap_len = r.placed.heap_len;
    ids_len = r.placed.ids_len;
    is_id = λ i a b. r.placed.is_id i (omega arith) (omega arith);
    slot_of = λ i a b. r.placed.slot_of i (omega arith) (omega arith);
  };
  ordered = λ c a b. r.ordered c a (omega arith);
  free = r.free;
  room = r.room;
}
