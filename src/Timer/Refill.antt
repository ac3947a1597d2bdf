-- ===== src/Timer/Refill.antt =====
-- `refill_slot` moves the last entity to the slot of the one that was released.
use zhangxy.Base.{
  get_or-set, ℕ, ◌+◌, ◌<◌, ◌≡◌, refl, sym, ap, ◌∙◌, ◌≢◌, ◌↔◌, ◌⊎◌, inl, inr, true, false, arith,
  Bool-cases, le_cases, get_or, length-set,
}
use mathlib.Core.Path.{subst}
use zhangxy.Base.Int.{pos, pos_part}
use zhangxy.Time.{time_gte, time_lt}
use zhangxy.Time.Order.{NoLater, NoLater-refl, NoLater-trans, NoLater-of_lt, time_gte_iff}
use zhangxy.Timer.{Node, Timers, parent, node_at, value_of, id_of, copy_node, refill_slot}
use zhangxy.Timer.Keys.{Around, Below}
use zhangxy.Timer.Holes.{In, key_of, key_of-copy_node}
use zhangxy.Timer.Free.{Links-same, is_link, used-NotIn}
use zhangxy.Timer.Valid.{IsValid, Holds}
use zhangxy.Timer.Sift.{Settled, Open, reheap_up-Settled, reheap_down-Settled}
use zhangxy.Timer.Release.{Released}

-- The last entity is copied over the one that was released.
module _ (h : Timers) (slot : ℕ) (r : Released h slot) (inside : slot < h.curr_size) where
  last_one : ℕ
  last_one = node_at h h.curr_size

  copied : Timers
  unfolding last_one
  copied = copy_node h slot last_one

  copied-Open : Open copied h.curr_size slot last_one
  unfolding copied copy_node
  copied-Open =
      let n = h.curr_size in
      let m = last_one in
      let at =
        λ (i : ℕ). get_or-set h.heap slot i m 0 (omega (arith, r.placed.room, r.placed.heap_len)) in
      let (low, high) = r.placed.is_id n (omega arith) (omega arith) in
      let last_slot = r.placed.slot_of n (omega arith) (omega arith) in
      let cell = λ (j : ℕ).
        get_or-set h.ids (id_of h m) j (pos slot) (pos 0) (omega (arith, high, r.placed.ids_len)) in
      let other = λ (i : ℕ) (a : i < n) (b : i ≢ slot).
        let ne : id_of h (node_at h i) ≢ id_of h m = (λ e.
          let theirs = r.placed.slot_of i (omega arith) b in
          let same : pos i ≡ pos n = sym theirs ∙ ap (λ j. get_or h.ids j (pos 0)) e ∙ last_slot in
          let eq : i ≡ n = ground arith in absurd (omega arith)) in
        ne in
      let keys = key_of-copy_node h slot m (omega (arith, r.placed.room, r.placed.heap_len)) in
      record {
        placed = record {
          room = omega (arith, r.placed.room);
          heap_len = length-set h.heap slot m ∙ r.placed.heap_len;
          ids_len = length-set h.ids (id_of h m) (pos slot) ∙ r.placed.ids_len;
          is_id = λ i a b. ground (arith, at i, r.placed.is_id i);
          slot_of = λ i a b.
              ground (arith, at i, cell (id_of h (node_at h i)), other i a b, r.placed.slot_of i);
        };
        fresh = record { is_id = (low, high); apart = λ i a b. ground (arith, at i, other i a b) };
        hole_in = inside;
        around =
            subst (λ k. Around k slot n) (sym keys)
              (record {
                edges = λ c a b p q. ground (arith, r.ordered c);
                bridge = λ c a b p q. ground (
                  arith,
                  r.ordered c,
                  r.ordered slot,
                  NoLater-trans (key_of h (parent slot)) (key_of h slot) (key_of h c),
                );
              });
      }

  Below-last_one :
      time_gte (value_of copied last_one) (key_of copied (parent slot)) ≡ false
      → Below (key_of copied) (value_of copied last_one) slot h.curr_size
  unfolding copied copy_node
  Below-last_one early c a b e =
      let m = last_one in
      let at =
        λ (i : ℕ). get_or-set h.heap slot i m 0 (omega (arith, r.placed.room, r.placed.heap_len)) in
      let less : time_lt (value_of h m) (key_of copied (parent slot)) ≡ true =
        unfold time_lt in rw early refl in
      let positive : 0 < slot = elim (le_cases slot 0) [
        | inr p ↦ p
        | inl root ↦
            let self : node_at copied (parent slot) ≡ m = ground (arith, at (parent slot)) in
            let gte =
              (time_gte_iff (value_of h m) (value_of h m)).1 (NoLater-refl (value_of h m)) in
            let early' = rw self at early in cc
      ] in
      let above : node_at copied (parent slot) ≡ node_at h (parent slot) =
        ground (arith, at (parent slot)) in
      let here : node_at copied c ≡ node_at h c = ground (arith, at c) in
      let up = NoLater-of_lt (value_of h m) (key_of h (parent slot)) (rw above at less) in
      let mid = r.ordered slot positive (omega arith) in
      let child : NoLater (key_of h slot) (key_of h c) = rw (← e) (r.ordered c a (omega arith)) in
      rw here (
        NoLater-trans (value_of h m) (key_of h (parent slot)) (key_of h c) up
          (NoLater-trans (key_of h (parent slot)) (key_of h slot) (key_of h c) mid child))

  refill_slot-Settled : Settled copied h.curr_size slot last_one (refill_slot h slot)
  unfolding refill_slot copied last_one
  refill_slot-Settled =
      let m = last_one in
      elim (Bool-cases (time_gte (value_of copied m) (key_of copied (parent slot)))) [
        | inl late ↦ rw late (
            reheap_down-Settled copied slot m copied-Open
              (λ p. (time_gte_iff (value_of copied m) (key_of copied (parent slot))).0 late))
        | inr early ↦
            rw early
              (reheap_up-Settled copied h.curr_size slot m copied-Open (Below-last_one early))
      ]

  copied-In : (q : ℕ) → In copied h.curr_size slot q → In h (h.curr_size + 1) slot q
  unfolding copied copy_node
  copied-In q (i, a, b, e) =
      let at =
        get_or-set h.heap slot i last_one 0 (omega (arith, r.placed.room, r.placed.heap_len)) in
      (i, omega arith, b, ground (arith, at))

  copied-In_back :
      (q : ℕ) → In h (h.curr_size + 1) slot q → In copied h.curr_size slot q ⊎ (q ≡ last_one)
  unfolding copied copy_node last_one
  copied-In_back q (i, a, b, e) =
      let at =
        get_or-set h.heap slot i last_one 0 (omega (arith, r.placed.room, r.placed.heap_len)) in
      elim (le_cases h.curr_size i) [
        | inl last ↦
            let same : i ≡ h.curr_size = omega arith in inr (sym e ∙ ap (λ j. node_at h j) same)
        | inr front ↦ inl (i, front, b, ground (arith, at))
      ]

  copied_cell :
      (j : ℕ)
      → is_link h.ids j ≡ true
      → j ≢ id_of h last_one
      → get_or copied.ids j (pos 0) ≡ get_or h.ids j (pos 0)
  unfolding copied copy_node
  copied_cell j link ne =
      let (low, high) = r.placed.is_id h.curr_size (omega arith) (omega arith) in
      ground (
        arith,
        get_or-set h.ids (id_of h last_one) j (pos slot) (pos 0)
            (omega (arith, high, r.placed.ids_len)),
      )

  -- What is left is valid again.
  pub refill_slot-IsValid :
      IsValid (refill_slot h slot)
      × ((refill_slot h slot).nodes ≡ h.nodes)
      × ((refill_slot h slot).curr_size ≡ h.curr_size)
      × ((q : ℕ) → Holds (refill_slot h slot) q ↔ In h (h.curr_size + 1) slot q)
  unfolding last_one
  refill_slot-IsValid =
      let h' = refill_slot h slot in
      let s = refill_slot-Settled in
      let fields : (copied.size ≡ h.size)
          × (copied.curr_size ≡ h.curr_size)
          × (copied.free_list ≡ h.free_list)
          × (copied.nodes ≡ h.nodes) =
        unfold copied copy_node in (refl, refl, refl, refl) in
      let size : h'.size ≡ h.size = ap (λ (t : Timers). t.size) s.keeps.same ∙ fields.0 in
      let curr : h'.curr_size ≡ h.curr_size =
        ap (λ (t : Timers). t.curr_size) s.keeps.same ∙ fields.1 in
      let list : h'.free_list ≡ h.free_list =
        ap (λ (t : Timers). t.free_list) s.keeps.same ∙ fields.2 in
      let nodes : h'.nodes ≡ h.nodes = ap (λ (t : Timers). t.nodes) s.keeps.same ∙ fields.3 in
      let last_cell = r.placed.slot_of h.curr_size (omega arith) (omega arith) in
      let absent =
        used-NotIn h.ids h.free_list r.free.fl h.size (id_of h last_one) r.free.links
          (rw last_cell (ground arith)) in
      let same_id : id_of copied last_one ≡ id_of h last_one =
        ap (λ (f : ℕ → Node). pos_part (f last_one).timer_id) fields.3 in
      (
        record {
          placed = record {
            room = omega (arith, s.placed.room);
            heap_len = s.placed.heap_len;
            ids_len = s.placed.ids_len;
            is_id = λ i a b. s.placed.is_id i (omega arith) (omega arith);
            slot_of = λ i a b. s.placed.slot_of i (omega arith) (omega arith);
          };
          ordered = λ c a b. s.ordered c a (omega arith);
          free = record {
            fl = r.free.fl;
            links = rw list (
                Links-same h.ids h'.ids (id_of h last_one) h.free_list r.free.fl h.size h'.size
                  (λ j a b ne.
                    let cell = copied_cell j b ne in
                    s.keeps.free j (rw cell b) (λ e. ne (e ∙ same_id)) ∙ cell)
                  absent r.free.links (sym size));
            nodup = r.free.nodup;
            count = omega (arith, r.free.count);
          };
          room = omega (arith, r.room);
        },
        nodes,
        curr,
        λ q. (
          λ (i, a, e). elim (s.back q (i, omega arith, omega arith, e)) [
            | inl left_over ↦ copied-In q left_over
            | inr last ↦ (h.curr_size, omega arith, omega arith, sym last)
          ],
          λ there. let (i, a, b, e) = s.into q (copied-In_back q there) in (i, omega arith, e),
        ),
      )

  pub refill_slot-poll_max : (refill_slot h slot).poll_max ≡ h.poll_max
  refill_slot-poll_max =
      let field : copied.poll_max ≡ h.poll_max = unfold copied copy_node in refl in
      ap (λ (t : Timers). t.poll_max) refill_slot-Settled.keeps.same ∙ field
