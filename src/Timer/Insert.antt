-- ===== src/Timer/Insert.antt =====
-- `take_id` and `insert_node` put an entity into the heap.
use zhangxy.Base.{
  NotIn, Nodup, ℕ, ◌+◌, ◌≤◌, ◌<◌, ◌≡◌, sym, ap, ◌∙◌, ◌≢◌, ◌⊎◌, inl, inr, true, false, List, [], ◌∷◌,
  arith, leb, ◌==◌, Bool-cases, length, get_or, replicate,
}
use zhangxy.Base.Int.{pos, neg_part}
use zhangxy.Time.{Time}
use zhangxy.Timer.{
  Timers, parent, node_at, value_of, id_of, take_id, grow_heap, insert_node, reheap_up,
}
use zhangxy.Timer.Keys.{Below}
use zhangxy.Timer.Holes.{In, key_of}
use zhangxy.Timer.Free.{Links, Links-same, is_link}
use zhangxy.Timer.Valid.{IsValid, Holds, Ready, grow-Ready, get_or-append_left}
use zhangxy.Timer.Sift.{Settled, Open, reheap_up-Settled}

-- A free id, and the list behind it.
record Popped (h : Timers) (used : ℕ) : Type 0 where
  fl : List ℕ
  positive : 0 < h.free_list
  inside : h.free_list < h.size
  is_free : is_link h.ids h.free_list ≡ true
  links : Links h.ids (neg_part (get_or h.ids h.free_list (pos 0))) fl h.size
  apart : NotIn h.free_list fl
  nodup : Nodup fl
  count : length fl + used + 2 ≡ h.size

pop_free :
    (h : Timers) (used : ℕ) (fl : List ℕ)
    → Links h.ids h.free_list fl h.size
    → Nodup fl
    → length fl + used + 1 ≡ h.size
    → used + 2 ≤ h.size
    → Popped h used
pop_free h used [] l d c r = absurd (omega arith)
pop_free h used (f ∷ fl) (e, p, q, link, l) d c r = record {
  fl = fl;
  positive = omega arith;
  inside = omega arith;
  is_free = rw e link;
  links = rw e l;
  apart = rw e d.0;
  nodup = d.1;
  count = omega arith;
}

pub take_id-Ready :
    (h : Timers) (p : ℕ) (time : Time) → IsValid h → (Holds h p → ⊥) → Ready (take_id h p time) p
unfolding take_id
take_id-Ready h p time v out =
    let n = h.curr_size in
    let pop = pop_free h n v.free.fl v.free.links v.free.nodup v.free.count v.room in
    let other =
      λ (i : ℕ) (below : i < n). let ne : node_at h i ≢ p = (λ e. out (i, below, e)) in ne in
    let test = λ (i : ℕ) (below : i < n).
      let miss : (node_at h i == p) ≡ false = ground (arith, other i below) in miss in
    let self : (p == p) ≡ true = ground arith in
    let same_key = λ (i : ℕ) (below : i < n).
      let e : key_of (take_id h p time) i ≡ key_of h i = ground (arith, test i below) in e in
    record {
      placed = record {
        room = v.placed.room;
        heap_len = v.placed.heap_len;
        ids_len = v.placed.ids_len;
        is_id = λ i a b. rw (test i a) (v.placed.is_id i a b);
        slot_of = λ i a b. rw (test i a) (v.placed.slot_of i a b);
      };
      fresh = record {
        is_id = rw self (pop.positive, pop.inside);
        apart = λ i a b.
            rw (test i a, self)
              (λ e. let used = v.placed.slot_of i a b in let link = pop.is_free in ground arith);
      };
      ordered = λ c a b. rw (same_key c b, same_key (parent c) (omega arith)) (v.ordered c a b);
      free = record {
        fl = pop.fl;
        links = pop.links;
        nodup = pop.nodup;
        count = omega (arith, pop.count);
      };
      taken = rw self pop.apart;
    }

-- Behind the last slot the order has nothing to say.
Ready-Open :
    (h : Timers) (p : ℕ)
    → Ready h p
    → Open h (h.curr_size + 1) h.curr_size p
      × Below (key_of h) (value_of h p) h.curr_size (h.curr_size + 1)
Ready-Open h p r =
    let n = h.curr_size in
    (
      record {
        placed = record {
          room = omega (arith, r.free.count);
          heap_len = r.placed.heap_len;
          ids_len = r.placed.ids_len;
          is_id = λ i a b. r.placed.is_id i (omega arith) b;
          slot_of = λ i a b. r.placed.slot_of i (omega arith) b;
        };
        fresh = record { is_id = r.fresh.is_id; apart = λ i a b. r.fresh.apart i (omega arith) b };
        hole_in = omega arith;
        around = record {
          edges = λ c a b s t. r.ordered c a (omega arith);
          bridge = λ c a b s t. absurd (omega arith);
        };
      },
      λ c a b s. absurd (omega arith),
    )

-- The heap `h'` is valid, and holds `p` and what `h` holds.
pub record Inserted (h : Timers) (p : ℕ) (h' : Timers) : Type 0 where
  pub valid : IsValid h'
  pub into : (q : ℕ) → Holds h q ⊎ (q ≡ p) → Holds h' q
  pub back : (q : ℕ) → Holds h' q → Holds h q ⊎ (q ≡ p)
  pub nodes : h'.nodes ≡ h.nodes
  pub count : h'.curr_size ≡ h.curr_size + 1

abbrev counted : Timers → Timers
counted h = record h { curr_size = h.curr_size + 1 }

settle_up :
    (h : Timers) (p : ℕ) (h2 : Timers)
    → Ready h p
    → h.curr_size + 3 ≤ h.size
    → Settled h (h.curr_size + 1) h.curr_size p h2
    → Inserted h p (counted h2)
settle_up h p h2 r room s =
    let size : h2.size ≡ h.size = ap (λ (t : Timers). t.size) s.keeps.same in
    let curr : h2.curr_size ≡ h.curr_size = ap (λ (t : Timers). t.curr_size) s.keeps.same in
    let list : h2.free_list ≡ h.free_list = ap (λ (t : Timers). t.free_list) s.keeps.same in
    let nodes : h2.nodes ≡ h.nodes = ap (λ (t : Timers). t.nodes) s.keeps.same in
    let grown : h2.curr_size + 1 ≡ h.curr_size + 1 = omega arith in
    record {
      valid = record {
        placed = record {
          room = omega (arith, s.placed.room);
          heap_len = s.placed.heap_len;
          ids_len = s.placed.ids_len;
          is_id = λ i a b. s.placed.is_id i (omega arith) (omega arith);
          slot_of = λ i a b. s.placed.slot_of i (omega arith) (omega arith);
        };
        ordered = λ c a b. s.ordered c a (omega arith);
        free = record {
          fl = r.free.fl;
          links = rw list (
              Links-same h.ids h2.ids (id_of h p) h.free_list r.free.fl h.size h2.size
                (λ j a b c. s.keeps.free j b c) r.taken r.free.links (sym size));
          nodup = r.free.nodup;
          count = omega (arith, r.free.count);
        };
        room = omega arith;
      };
      into = λ q e.
          let entry : In h (h.curr_size + 1) h.curr_size q ⊎ (q ≡ p) = elim e [
            | inl (i, a, b) ↦ inl (i, omega arith, omega arith, b)
            | inr same ↦ inr same
          ] in
          let (i, a, b, c) = s.into q entry in (i, omega arith, c);
      back = λ q (i, a, c). elim (s.back q (i, omega arith, omega arith, c)) [
        | inl (j, d, e, f) ↦ inl (j, omega arith, f)
        | inr same ↦ inr same
      ];
      nodes = nodes;
      count = grown;
    }

insert_Ready :
    (h : Timers) (p : ℕ)
    → Ready h p
    → h.curr_size + 3 ≤ h.size
    → Inserted h p (counted (reheap_up h p h.curr_size (parent h.curr_size)))
insert_Ready h p r room =
    let (o, below) = Ready-Open h p r in
    settle_up h p _ r room (reheap_up-Settled h (h.curr_size + 1) h.curr_size p o below)

-- The entities are where they were before the arrays grew.
grown-Inserted :
    (h : Timers) (p : ℕ) (h' : Timers) → Ready h p → Inserted (grow_heap h) p h' → Inserted h p h'
unfolding grow_heap
grown-Inserted h p h' r s =
    let old = λ (i : ℕ) (below : i < h.curr_size).
      get_or-append_left h.heap (replicate h.size 0) i 0
        (omega (arith, r.placed.room, r.placed.heap_len)) in
    record {
      valid = s.valid;
      into = λ q e.
          s.into q (elim e [ inl (i, a, c) ↦ inl (i, a, old i a ∙ c) | inr same ↦ inr same ]);
      back = λ q e. elim (s.back q e) [
        | inl (i, a, c) ↦ inl (i, a, sym (old i a) ∙ c)
        | inr same ↦ inr same
      ];
      nodes = s.nodes;
      count = s.count;
    }

grown_room :
    (h : Timers) → h.curr_size + 2 ≤ h.size → (grow_heap h).curr_size + 3 ≤ (grow_heap h).size
unfolding grow_heap
grown_room h room = omega arith

pub take_id_room :
    (h : Timers) (p : ℕ) (time : Time)
    → h.curr_size + 2 ≤ h.size
    → (take_id h p time).curr_size + 2 ≤ (take_id h p time).size
unfolding take_id
take_id_room h p time room = room

pub insert_node-Inserted :
    (h : Timers) (p : ℕ) → Ready h p → h.curr_size + 2 ≤ h.size → Inserted h p (insert_node h p)
unfolding insert_node
insert_node-Inserted h p r room = elim (Bool-cases (leb h.size (h.curr_size + 2))) [
  | inl tight ↦
      rw tight (
        grown-Inserted h p _ r
          (insert_Ready (grow_heap h) p (grow-Ready h p r) (grown_room h room)))
  | inr wide ↦ rw wide (insert_Ready h p r (ground arith))
]
