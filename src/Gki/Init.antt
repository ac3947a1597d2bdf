-- ===== src/Gki/Init.antt =====
-- The pools after `gki_buffer_init`.
use zhangxy.Base.{
  ℕ, zero, suc, ◌+◌, ◌*◌, ◌%◌, ◌^◌, ◌≤◌, ◌<◌, ◌≡◌, refl, ◌≢◌, ◌⊎◌, inl, inr, true, false, List, [],
  ◌∷◌, arith, ◌==◌, le_cases, get_or,
}
use mathlib.Core.Path.{subst}
use zhangxy.Gki.{Gki, Header, store, align_pool, init_free_queue, clear_pools, buffer_init}
use zhangxy.Gki.Chain.{Chain, Pool}
use zhangxy.Gki.Laid.{
  buffers, end_of, start-le-end_of, buffers-Nodup, length-buffers, init_headers-Laid,
}

-- No header of the list lies from `lo` up to `hi`.
abbrev pub Outside : List ℕ → ℕ → ℕ → Type 0
Outside [] lo hi = Unit
Outside (f ∷ fs) lo hi = ((f < lo) ⊎ (hi ≤ f)) × Outside fs lo hi

Chain-outside :
    (hdrs hdrs' : ℕ → Header) (id a lo hi : ℕ) (fs : List ℕ)
    → ((q : ℕ) → (q < lo) ⊎ (hi ≤ q) → hdrs' q ≡ hdrs q)
    → Outside fs lo hi
    → Chain hdrs id a fs
    → Chain hdrs' id a fs
Chain-outside hdrs hdrs' id a lo hi [] same out c = c
Chain-outside hdrs hdrs' id a lo hi (f ∷ fs) same (far, out) (e, p, q, s, c) =
    rw (same f far) (e, p, q, s, Chain-outside hdrs hdrs' id _ lo hi fs same out c)

buffers-Outside :
    (n hdr act lo hi : ℕ)
    → (end_of n hdr act ≤ lo) ⊎ (hi ≤ hdr)
    → 0 < act
    → Outside (buffers n hdr act) lo hi
buffers-Outside zero hdr act lo hi far wide = record {}
buffers-Outside (suc n) hdr act lo hi far wide = elim far [
  | inl before ↦ (
    inl (omega (arith, before, start-le-end_of n (hdr + act) act)),
    buffers-Outside n (hdr + act) act lo hi (inl before) wide,
  )
  | inr behind ↦
      (inr behind, buffers-Outside n (hdr + act) act lo hi (inr (omega (arith, behind))) wide)
]

abbrev act_of : ℕ → ℕ
act_of size = (align_pool size + 12) % 2 ^ 16

init_free_queue-Pool :
    (g : Gki) (id size n mem : ℕ)
    → 0 < mem
    → 0 < act_of size
    → Pool (init_free_queue g id size (suc n) mem) id (buffers (suc n) mem (act_of size))
      × ((j : ℕ) (fs : List ℕ)
          → j ≢ id
          → Outside fs mem (end_of (suc n) mem (act_of size))
          → Pool g j fs
          → Pool (init_free_queue g id size (suc n) mem) j fs)
unfolding init_free_queue
init_free_queue-Pool g id size n mem pos wide =
    let test : (mem == 0) ≡ false = ground (arith, pos) in
    let self : (id == id) ≡ true = ground arith in
    let g1 = record g {
      pool_size = store g.pool_size id (act_of size);
      freeq = store g.freeq id (record (g.freeq id) {
        buf_size = align_pool size % 2 ^ 16;
        total = suc n;
        cur_cnt = 0;
        max_cnt = 0;
      });
      pool_start = store g.pool_start id mem;
      pool_end = store g.pool_end id (mem + act_of size * suc n);
    } in
    let laid = init_headers-Laid n g1 id (align_pool size) mem 0 pos wide in
    rw test (
      record {
        chain = rw self laid.chain;
        last = rw self laid.last;
        nodup = buffers-Nodup (suc n) mem (act_of size) wide;
        count = rw self (omega (arith, length-buffers (suc n) mem (act_of size)));
        peak = rw self (omega arith);
      },
      λ j fs ne out p.
          let miss : (j == id) ≡ false = ground (arith, ne) in
          record {
            chain =
                rw (miss, laid.queues, miss)
                  (Chain-outside g.hdrs _ j (g.freeq j).first mem _ fs laid.frame out p.chain);
            last = rw (miss, laid.queues, miss) p.last;
            nodup = p.nodup;
            count = rw (miss, laid.queues, miss) p.count;
            peak = rw (miss, laid.queues, miss) p.peak;
          },
    )

-- The first `k` pools have their ten buffers.
abbrev Built : (ℕ → ℕ) → ℕ → Gki → Type 0
Built mem k g = (j : ℕ) → j < k → Pool g j (buffers 10 (mem j) 212)

-- The six allocations succeed, and none overlaps another.
abbrev pub AreApart : (ℕ → ℕ) → Type 0
AreApart mem =
    ((i : ℕ) → i < 6 → 0 < mem i)
    × ((i j : ℕ) → i < 6 → j < 6 → i ≢ j → (mem i + 2120 ≤ mem j) ⊎ (mem j + 2120 ≤ mem i))

build_next :
    (mem : ℕ → ℕ) (k : ℕ) (g : Gki)
    → k < 6
    → AreApart mem
    → Built mem k g
    → Built mem (k + 1) (init_free_queue g k 200 10 (mem k))
build_next mem k g inside apart built j low =
    let (pool, others) = init_free_queue-Pool g k 200 9 (mem k) (apart.0 k inside) (omega arith) in
    elim (le_cases k j) [
      | inl same ↦
          let e : k ≡ j = omega arith in
          subst (λ x. Pool (init_free_queue g k 200 10 (mem k)) x (buffers 10 (mem x) 212)) e pool
      | inr old ↦
          others j (buffers 10 (mem j) 212) (omega arith)
            (buffers-Outside 10 (mem j) 212 (mem k) (end_of 10 (mem k) 212)
              (elim (apart.1 j k (omega arith) inside (omega arith)) [
                | inl front ↦ inl (omega (arith, front))
                | inr behind ↦ inr (omega (arith, behind))
              ])
              (omega arith))
            (built j old)
    ]

relist-Pool :
    (g : Gki) (id n : ℕ) (fs list : List ℕ)
    → Pool g id fs
    → Pool (record g { pool_list = list; pools = n }) id fs
relist-Pool g id n fs list p = record {
  chain = p.chain;
  last = p.last;
  nodup = p.nodup;
  count = p.count;
  peak = p.peak;
}

build_all :
    (mem : ℕ → ℕ) (g : Gki)
    → AreApart mem
    → let pool = λ (g : Gki) (id : ℕ). init_free_queue g id 200 10 (mem id) in
      Built mem 6 (pool (pool (pool (pool (pool (pool g 0) 1) 2) 3) 4) 5)
build_all mem g apart = build_next mem 5 _ (omega arith) apart (
    build_next mem 4 _ (omega arith) apart (
      build_next mem 3 _ (omega arith) apart (
        build_next mem 2 _ (omega arith) apart (
          build_next mem 1 _ (omega arith) apart
            (build_next mem 0 g (omega arith) apart (λ j low. absurd (omega arith)))))))

list_of_six : (id : ℕ) → id < 6 → get_or (0 ∷ 1 ∷ 2 ∷ 3 ∷ 4 ∷ 5 ∷ []) id 0 ≡ id
list_of_six zero h = refl
list_of_six (suc zero) h = refl
list_of_six (suc (suc zero)) h = refl
list_of_six (suc (suc (suc zero))) h = refl
list_of_six (suc (suc (suc (suc zero)))) h = refl
list_of_six (suc (suc (suc (suc (suc zero))))) h = refl
list_of_six (suc (suc (suc (suc (suc (suc id)))))) h = absurd (omega arith)

-- After `gki_buffer_init` each of the six pools has its ten buffers in its free queue, in the order of
-- their addresses, if the allocations succeed. The order of the list is that of the pools.
pub buffer_init_lem :
    (g : Gki) (mem : ℕ → ℕ)
    → AreApart mem
    → ((id : ℕ) → id < 6 → Pool (buffer_init g mem) id (buffers 10 (mem id) 212))
      × ((id : ℕ) → id < 6 → get_or (buffer_init g mem).pool_list id 0 ≡ id)
unfolding buffer_init
buffer_init_lem g mem apart =
    ((λ id low. relist-Pool _ id 6 _ _ (build_all mem (clear_pools g) apart id low)), list_of_six)
