-- ===== src/Gki/Dealloc.antt =====
-- gki/src/gki_buffer.c, the pools at a shutdown: `gki_dealloc_free_queue`.
use zhangxy.Base.{
  ℕ, zero, suc, ◌+◌, ◌≤◌, ◌<◌, ◌≡◌, ◌≢◌, ◌⊎◌, refl, sym, ap, ◌∙◌, inl, inr, true, false, List, [],
  ◌∷◌, arith, ltb, ◌==◌, Bool-cases, le_cases,
}
use zhangxy.Gki.{Gki, FreeQueue, store, dealloc_from, dealloc_free_queue}

-- The pool has neither memory nor buffers any more.
pub record Cleared (g g' : Gki) (id : ℕ) : Type 0 where
  pub start : g'.pool_start id ≡ 0
  pub end_at : g'.pool_end id ≡ 0
  pub size : g'.pool_size id ≡ 0
  pub queue : g'.freeq id ≡ record (g.freeq id) { cur_cnt = 0; max_cnt = 0; first = 0; last = 0 }

-- The pool is as it was.
pub record Kept (g g' : Gki) (id : ℕ) : Type 0 where
  pub start : g'.pool_start id ≡ g.pool_start id
  pub end_at : g'.pool_end id ≡ g.pool_end id
  pub size : g'.pool_size id ≡ g.pool_size id
  pub queue : g'.freeq id ≡ g.freeq id

-- The memory of the pools from `i` on, `n` of them, from which a buffer was ever taken, in order.
pub data UsedMemory (g : Gki) : ℕ → ℕ → List ℕ → Type 0 where
  done : {i : ℕ} → UsedMemory g i 0 []
  used :
      {i n : ℕ} {freed : List ℕ}
      → 0 < (g.freeq i).max_cnt
      → UsedMemory g (i + 1) n freed
      → UsedMemory g i (suc n) (g.pool_start i ∷ freed)
  unused :
      {i n : ℕ} {freed : List ℕ}
      → (g.freeq i).max_cnt ≡ 0
      → UsedMemory g (i + 1) n freed
      → UsedMemory g i (suc n) freed

UsedMemory-same :
    (g g1 : Gki) {i n : ℕ} {freed : List ℕ}
    → ((j : ℕ) → i ≤ j → Kept g g1 j)
    → UsedMemory g1 i n freed
    → UsedMemory g i n freed
UsedMemory-same g g1 same done = done
UsedMemory-same g g1 {i} same (used low rest) =
    let k = same i (omega arith) in
    let low' : 0 < (g.freeq i).max_cnt = rw (sym k.queue) low in
    rw k.start (used low' (UsedMemory-same g g1 (λ j a. same j (omega arith)) rest))
UsedMemory-same g g1 {i} same (unused idle rest) =
    let k = same i (omega arith) in
    unused (ap (λ (q : FreeQueue). q.max_cnt) (sym k.queue) ∙ idle)
      (UsedMemory-same g g1 (λ j a. same j (omega arith)) rest)

abbrev clear_pool : Gki → ℕ → Gki
clear_pool g i = record g {
  freeq = store g.freeq i (record (g.freeq i) { cur_cnt = 0; max_cnt = 0; first = 0; last = 0 });
  pool_start = store g.pool_start i 0;
  pool_end = store g.pool_end i 0;
  pool_size = store g.pool_size i 0;
}

clear_pool-Kept : (g : Gki) (i j : ℕ) → j ≢ i → Kept g (clear_pool g i) j
clear_pool-Kept g i j ne =
    let miss : (j == i) ≡ false = ground (arith, ne) in
    record {
      start = rw miss refl;
      end_at = rw miss refl;
      size = rw miss refl;
      queue = rw miss refl;
    }

clear_pool-Cleared : (g : Gki) (i : ℕ) → Cleared g (clear_pool g i) i
clear_pool-Cleared g i =
    let hit : (i == i) ≡ true = ground arith in
    record { start = rw hit refl; end_at = rw hit refl; size = rw hit refl; queue = rw hit refl }

-- What the loop does to the pools from `i` on, `n` of them.
abbrev Dealloc : Gki → ℕ → ℕ → Gki → List ℕ → Type 0
Dealloc g i n g' freed =
    UsedMemory g i n freed
    × ((id : ℕ) → i ≤ id → id < i + n → 0 < (g.freeq id).max_cnt → Cleared g g' id)
    × ((id : ℕ) → ((g.freeq id).max_cnt ≡ 0) ⊎ ((id < i) ⊎ (i + n ≤ id)) → Kept g g' id)

Kept-trans : (g g1 g2 : Gki) (id : ℕ) → Kept g g1 id → Kept g1 g2 id → Kept g g2 id
Kept-trans g g1 g2 id a b = record {
  start = b.start ∙ a.start;
  end_at = b.end_at ∙ a.end_at;
  size = b.size ∙ a.size;
  queue = b.queue ∙ a.queue;
}

Cleared-Kept : (g g1 g2 : Gki) (id : ℕ) → Cleared g g1 id → Kept g1 g2 id → Cleared g g2 id
Cleared-Kept g g1 g2 id a b = record {
  start = b.start ∙ a.start;
  end_at = b.end_at ∙ a.end_at;
  size = b.size ∙ a.size;
  queue = b.queue ∙ a.queue;
}

Kept-Cleared : (g g1 g2 : Gki) (id : ℕ) → Kept g g1 id → Cleared g1 g2 id → Cleared g g2 id
Kept-Cleared g g1 g2 id a b = record {
  start = b.start;
  end_at = b.end_at;
  size = b.size;
  queue =
      b.queue
      ∙ ap (λ (q : FreeQueue). record q { cur_cnt = 0; max_cnt = 0; first = 0; last = 0 }) a.queue;
}

dealloc_from_lem : (n i : ℕ) (g : Gki) → Dealloc g i n (dealloc_from g i n).0 (dealloc_from g i n).1
unfolding dealloc_from
dealloc_from_lem zero i g = (
  done,
  λ id a b u. absurd (omega arith),
  λ id why. record { start = refl; end_at = refl; size = refl; queue = refl },
)
dealloc_from_lem (suc n) i g = elim (Bool-cases (ltb 0 (g.freeq i).max_cnt)) [
  | inr idle ↦
      let none_used : (g.freeq i).max_cnt ≡ 0 = ground (arith, idle) in
      let (taken, cleared, kept) = dealloc_from_lem n (i + 1) g in
      rw idle (
        unused none_used taken,
        λ id a b u. elim (le_cases (i + 1) id) [
          | inl later ↦ cleared id later (omega arith) u
          | inr here ↦
              let at : id ≡ i = omega arith in
              absurd (omega (arith, none_used, ap (λ j. (g.freeq j).max_cnt) at))
        ],
        λ id why. kept id (elim why [
          | inl never ↦ inl never
          | inr (inl before) ↦ inr (inl (omega arith))
          | inr (inr behind) ↦ inr (inr (omega arith))
        ]),
      )
  | inl test ↦
      let low : 0 < (g.freeq i).max_cnt = ground (arith, test) in
      let g1 = clear_pool g i in
      let (taken, cleared, kept) = dealloc_from_lem n (i + 1) g1 in
      let apart = λ (id : ℕ) (ne : id ≢ i). clear_pool-Kept g i id ne in
      rw test (
        used low (UsedMemory-same g g1 (λ j a. apart j (λ e. absurd (omega arith))) taken),
        λ id a b u. elim (le_cases (i + 1) id) [
          | inl later ↦
              let k = apart id (λ e. absurd (omega arith)) in
              let u1 : 0 < (g1.freeq id).max_cnt = rw k.queue u in
              Kept-Cleared g g1 _ id k (cleared id later (omega arith) u1)
          | inr here ↦
              let at : id ≡ i = omega arith in
              rw at
                (Cleared-Kept g g1 _ i (clear_pool-Cleared g i) (kept i (inr (inl (omega arith)))))
        ],
        λ id why.
            let ne : id ≢ i = (λ e. elim why [
              | inl never ↦ absurd (omega (arith, never, low, ap (λ j. (g.freeq j).max_cnt) e))
              | inr (inl before) ↦ absurd (omega arith)
              | inr (inr behind) ↦ absurd (omega arith)
            ]) in
            let k = apart id ne in
            Kept-trans g g1 _ id k (
              kept id (elim why [
                | inl never ↦ inl (ap (λ (q : FreeQueue). q.max_cnt) k.queue ∙ never)
                | inr (inl before) ↦ inr (inl (omega arith))
                | inr (inr behind) ↦ inr (inr (omega arith))
              ])),
      )
]

-- `gki_dealloc_free_queue` frees the memory of exactly those of the listed pools from which a buffer was
-- ever taken, in order, and clears these. A pool that was never used keeps its memory and its queue, as
-- does one behind the listed ones.
pub dealloc_lem :
    (g : Gki)
    → let r = dealloc_free_queue g in
      UsedMemory g 0 g.pools r.1
      × ((id : ℕ) → id < g.pools → 0 < (g.freeq id).max_cnt → Cleared g r.0 id)
      × ((id : ℕ) → ((g.freeq id).max_cnt ≡ 0) ⊎ (g.pools ≤ id) → Kept g r.0 id)
unfolding dealloc_free_queue
dealloc_lem g =
    let (taken, cleared, kept) = dealloc_from_lem g.pools 0 g in
    (
      taken,
      λ id b u. cleared id (omega arith) (omega arith) u,
      λ id why. kept id (elim why [ inl never ↦ inl never | inr behind ↦ inr (inr (omega arith)) ]),
    )
