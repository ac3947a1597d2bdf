-- ===== src/Gki/First.antt =====
-- Buffers of any pool: the first fit, and a buffer that is taken and given back.
use zhangxy.Base.{
  ℕ, zero, suc, ◌+◌, ◌-◌, ◌≤◌, ◌<◌, ◌≡◌, refl, ◌∙◌, ◌↔◌, ◌⊎◌, inl, inr, true, false, List, [], ◌∷◌,
  ◌++◌, arith, ◌==◌, Bool-cases, le_cases, get_or,
}
use zhangxy.Cis.{bit_at}
use zhangxy.Gki.{Gki}
use zhangxy.Gki.Chain.{Pool}
use zhangxy.Gki.Buffers.{
  getbuf, search, serves, getpoolbuf, freebuf, is_damaged, get_buf_size, has_free,
}
use zhangxy.Gki.Take.{Taken, take_from-Taken, getpoolbuf_lem}
use zhangxy.Gki.Give.{InUse, freebuf_lem}

damage_as_before :
    (g : Gki) (id a : ℕ) (fs : List ℕ) (g' : Gki)
    → (g.hdrs a).q_id ≡ id
    → Taken g id a fs g'
    → is_damaged g' (a + 8) ≡ is_damaged g (a + 8)
unfolding is_damaged get_buf_size
damage_as_before g id a fs g' own t =
    let back : a + 8 - 8 ≡ a = omega arith in rw (back, t.owner, own, t.sizes id, t.words) refl

-- A buffer that is taken from a pool and given back with its last word as it was is in the free queue
-- again, now as the last one.
pub freebuf-getpoolbuf :
    (g : Gki) (id a : ℕ) (fs : List ℕ) (mem : ℕ)
    → id < 6
    → Pool g id (a ∷ fs)
    → is_damaged g (a + 8) ≡ false
    → let r = getpoolbuf g id mem in Pool (freebuf r.0 r.1) id (fs ++ a ∷ [])
freebuf-getpoolbuf g id a fs mem inside p whole =
    let (t, addr) = getpoolbuf_lem g id a fs mem inside p in
    let u : InUse (getpoolbuf g id mem).0 id a = record {
      positive = p.chain.1;
      whole = damage_as_before g id a fs _ p.chain.2 t ∙ whole;
      status = t.in_use;
      owner = t.owner;
      known = inside;
      counted = omega (arith, t.counted);
    } in
    rw addr (freebuf_lem (getpoolbuf g id mem).0 id a fs u t.pool).0

-- The pool is public, has buffers of the size, and has one left.
abbrev pub CanServe : Gki → ℕ → ℕ → Type 0
CanServe g size id =
    (size ≤ (g.freeq id).buf_size)
    × (bit_at g.access_mask id ≡ false)
    × ((g.freeq id).cur_cnt < (g.freeq id).total)

serves_iff : (g : Gki) (size id : ℕ) → (serves g size id ≡ true) ↔ CanServe g size id
unfolding serves
serves_iff g size id = ground arith

cannot_serve : (g : Gki) (size id : ℕ) → serves g size id ≡ false → CanServe g size id → ⊥
cannot_serve g size id refused can = absurd (ground (arith, refused, (serves_iff g size id).1 can))

-- No pool from place `i` to `k` of the list serves the size.
abbrev pub NoneServes : Gki → ℕ → ℕ → ℕ → Type 0
NoneServes g size i k = (j : ℕ) → i ≤ j → j < k → CanServe g size (get_or g.pool_list j 0) → ⊥

-- Every pool of the list has its memory.
abbrev pub AllReady : Gki → Type 0
AllReady g = (j : ℕ) → j < g.pools → (fs : List ℕ) × Pool g (get_or g.pool_list j 0) fs

-- What a search from place `i` on ends with.
abbrev pub FirstFit : Gki → ℕ → ℕ → Gki × ℕ → Type 0
FirstFit g size i r =
    (NoneServes g size i g.pools × (r ≡ (g, 0)))
    ⊎ ((k : ℕ) × (k < g.pools)
        × NoneServes g size i k
        × CanServe g size (get_or g.pool_list k 0)
        × (a : ℕ) × (fs : List ℕ) × Pool g (get_or g.pool_list k 0) (a ∷ fs)
        × Taken g (get_or g.pool_list k 0) a fs r.0
        × (r.1 ≡ a + 8))

-- A pool that serves has a free buffer.
serving_first :
    (g : Gki) (size id : ℕ) (fs : List ℕ)
    → Pool g id fs
    → serves g size id ≡ true
    → (a : ℕ) × (ts : List ℕ) × Pool g id (a ∷ ts)
unfolding serves
serving_first g size id [] p fits =
    let none_left : has_free g id ≡ false = ground (arith, p.count) in
    absurd (ground (arith, none_left, fits))
serving_first g size id (a ∷ ts) p fits = (a, ts, p)

search_lem :
    (n : ℕ) (g : Gki) (size i mem : ℕ)
    → AllReady g
    → i + n ≡ g.pools
    → FirstFit g size i (search n g size i mem)
unfolding search
search_lem zero g size i mem ready e = inl ((λ j a b. absurd (omega arith)), refl)
search_lem (suc n) g size i mem ready e =
    elim (Bool-cases (serves g size (get_or g.pool_list i 0))) [
      | inl fits ↦
          let (gs, p) = ready i (omega arith) in
          let (a, fs, q) = serving_first g size (get_or g.pool_list i 0) gs p fits in
          let (taken, addr) = take_from-Taken g (get_or g.pool_list i 0) a fs i mem q in
          rw fits (
            inr (
              i,
              omega arith,
              (λ j a b. absurd (omega arith)),
              (serves_iff g size (get_or g.pool_list i 0)).0 fits,
              a,
              fs,
              q,
              taken,
              addr,
            ))
      | inr small ↦
          let here = λ (j : ℕ) (e : j ≡ i).
            let miss : CanServe g size (get_or g.pool_list j 0) → ⊥ =
              rw e (cannot_serve g size (get_or g.pool_list i 0) small) in
            miss in
          rw small (elim (search_lem n g size (i + 1) mem ready (omega arith)) [
            | inl (none_fits, same) ↦ inl (
              (λ j a b. elim (le_cases j i) [
                | inl low ↦ here j (omega arith)
                | inr high ↦ none_fits j (omega arith) (omega arith)
              ]),
              same,
            )
            | inr (k, inside, none_before, fits, a, fs, p, taken, addr) ↦ inr (
              k,
              inside,
              (λ j a b. elim (le_cases j i) [
                | inl low ↦ here j (omega arith)
                | inr high ↦ none_before j (omega arith) b
              ]),
              fits,
              a,
              fs,
              p,
              taken,
              addr,
            )
          ])
    ]

-- `GKI_getbuf` takes the first free buffer of the first pool in the list that is public, has buffers of
-- the size and has one left, and returns NULL only if there is no such pool. That holds when all pools
-- have their memory.
pub getbuf_lem :
    (g : Gki) (size mem : ℕ) → 0 < size → AllReady g → FirstFit g size 0 (getbuf g size mem)
unfolding getbuf
getbuf_lem g size mem positive ready =
    let some_size : (size == 0) ≡ false = ground arith in
    rw some_size (search_lem g.pools g size 0 mem ready (omega arith))
