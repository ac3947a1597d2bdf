-- ===== src/Pool/Reset.antt =====
-- oslib/src/pool.c: `PoolCreateInt`, `POOL_Reset` and `PoolDestroyInt`.
use zhangxy.Base.{
  ℕ, ◌+◌, ◌-◌, ◌%◌, ◌^◌, ◌≤◌, ◌<◌, ◌≡◌, refl, ap, ◌∙◌, ◌⊎◌, inl, inr, none, some, List, [], ◌∷◌,
  arith, ltb, ◌==◌, ==_iff, Bool-cases,
}
use mathlib.Core.Path.{subst}
use zhangxy.Pool.{
  BlockInfo, PoolInfo, magic_code, new_block, init_pool, create_pool, freed_blocks, reset_pool,
  get_used_size, used_of,
}
use zhangxy.Pool.Blocks.{free_size, total_size}
use zhangxy.Pool.Cases.{blocks_of, IsValid, new_block-IsBlock}
use zhangxy.Pool.Safe.{pristine}
use zhangxy.Pool.Run.{Allocs, Allocs-bytes}

-- The pool as its factory passes it on.
abbrev pub marked : PoolInfo → PoolInfo
marked p = record p { magic = magic_code }

created : ℕ → ℕ → ℕ → PoolInfo
created init inc mem = record {
  pool = mem;
  magic = 0;
  factory_data = 0;
  capacity = init;
  inc_size = inc;
  first = new_block (mem + 84) (init - 84);
  more = [];
  fails = [];
}

create_pool_cases :
    (init inc mem : ℕ)
    → ((create_pool init inc mem ≡ none) × ((init < 104) ⊎ (mem ≡ 0)))
      ⊎ ((create_pool init inc mem ≡ some (created init inc mem)) × (104 ≤ init) × (0 < mem))
unfolding create_pool created init_pool
create_pool_cases init inc mem = elim (Bool-cases (ltb init 104)) [
  | inl e ↦ inl (rw e refl, inl (ground (arith, e)))
  | inr e ↦ elim (Bool-cases (mem == 0)) [
    | inl e' ↦ inl (rw (e, e') refl, inr ((==_iff mem 0).0 e'))
    | inr e' ↦ inr (rw (e, e') refl, ground (arith, e), ground (arith, e'))
  ]
]

-- `PoolCreateInt` fails just where the size has no room for the two headers or the memory is refused.
-- Else the pool, with its mark, is valid; its capacity is the initial size, of which the headers are
-- used and the rest is free.
pub create_pool_lem :
    (init inc mem : ℕ)
    → mem % 4 ≡ 0
    → mem + init < 2 ^ 32
    → ((create_pool init inc mem ≡ none) × ((init < 104) ⊎ (mem ≡ 0)))
      ⊎ ((p : PoolInfo) × (create_pool init inc mem ≡ some p)
          × IsValid (marked p)
          × (p.capacity ≡ init)
          × (p.inc_size ≡ inc)
          × (get_used_size p ≡ 104)
          × (free_size (blocks_of p) ≡ init - 104)
          × (pristine (marked p) ≡ marked p))
unfolding created new_block total_size free_size get_used_size used_of pristine
create_pool_lem init inc mem h k = elim (create_pool_cases init inc mem) [
  | inl e ↦ inl e
  | inr (e, size, positive) ↦
      let (b, at) =
        new_block-IsBlock (mem + 84) (init - 84) (omega arith) (omega arith) (omega arith)
          (omega arith) in
      inr (
        created init inc mem,
        e,
        record { standard = refl; valid = (b, _); place = refl; total = omega arith },
        refl,
        refl,
        omega (arith, at),
        omega (arith, at),
        ap (λ c. record (marked (created init inc mem)) { capacity = c }) (omega arith),
      )
]

unfoldable pub freed_total : List (ℕ × ℕ) → ℕ
freed_total [] = 0
freed_total ((a, n) ∷ freed) = n + freed_total freed

pub freed_blocks-total :
    (bs : List BlockInfo) (freed : List (ℕ × ℕ))
    → freed_total (freed_blocks bs freed) ≡ total_size bs + freed_total freed
unfolding freed_total total_size
freed_blocks-total [] freed = omega arith
freed_blocks-total (b ∷ bs) freed =
    omega (arith, freed_blocks-total bs ((b.block, b.end_addr - b.block) ∷ freed))

pub reset_pool-grown :
    (p : PoolInfo) (b : BlockInfo) (bs : List BlockInfo)
    → p.more ≡ b ∷ bs
    → reset_pool p ≡ (record (pristine p) { fails = p.fails }, freed_blocks (b ∷ bs) [])
unfolding reset_pool pristine
reset_pool-grown p b bs h = rw h refl

created_facts :
    (init inc mem : ℕ) (p : PoolInfo)
    → mem % 4 ≡ 0
    → mem + init < 2 ^ 32
    → create_pool init inc mem ≡ some p
    → IsValid (marked p) × (p.capacity ≡ init) × (pristine (marked p) ≡ marked p)
created_facts init inc mem p h k e = elim (create_pool_lem init inc mem h k) [
  | inl (e', _) ↦ absurd cc
  | inr (q, e', v, capacity, _, _, _, same) ↦
      let is : q ≡ p = cc in
      subst (λ r. IsValid (marked r) × (r.capacity ≡ init) × (pristine (marked r) ≡ marked r)) is
        (v, capacity, same)
]

-- A pool that was created in aligned memory within the addresses, and has got another block by such
-- calls of `POOL_Alloc`, is reset to what it was when it was created, but for the record of failures; the
-- freed blocks make up for the capacity that it had more.
pub reset_pool-Allocs :
    (init inc mem : ℕ) (p p' : PoolInfo) (hs gs : List (ℕ × ℕ)) (b : BlockInfo)
    (bs : List BlockInfo)
    → mem % 4 ≡ 0
    → mem + init < 2 ^ 32
    → create_pool init inc mem ≡ some p
    → Allocs (marked p) hs gs p'
    → p'.more ≡ b ∷ bs
    → ((reset_pool p').0 ≡ record (marked p) { fails = p'.fails })
      × (freed_total (reset_pool p').1 + init ≡ p'.capacity)
unfolding pristine total_size freed_total
reset_pool-Allocs init inc mem p p' hs gs b bs h k e run grew =
    let (v, capacity, same) = created_facts init inc mem p h k e in
    let (v', kept, _) = Allocs-bytes (marked p) hs gs p' run v in
    let back : pristine p' ≡ marked p = kept ∙ same in
    let total : p'.capacity ≡ 84 + total_size (p'.first ∷ b ∷ bs) =
      v'.total ∙ ap (λ t. 84 + total_size (p'.first ∷ t)) grew in
    rw (reset_pool-grown p' b bs grew) (
      ap {A = PoolInfo} (λ r. record r { fails = p'.fails }) back,
      omega (
        arith,
        total,
        v'.place,
        ap (λ r. r.capacity) back,
        capacity,
        freed_blocks-total (b ∷ bs) [],
        v'.valid.0.start,
        v'.valid.0.begun,
        v'.valid.0.inside,
      ),
    )
