-- ===== src/Pool/Null.antt =====
-- oslib/src/pool.c: when `POOL_Alloc` returns NULL, and the sizes that wrap.
use zhangxy.Base.{
  ◌*◌, u32_add, lt→ltb, ◌/◌, ℕ, ◌+◌, ◌-◌, ◌/◌, ◌%◌, ◌^◌, ◌≤◌, ◌<◌, ◌≡◌, refl, sym, ap, ◌∙◌, ◌↔◌,
  ◌⊎◌, inl, inr, true, false, List, [], ◌∷◌, arith, ◌==◌, ==_iff,
}
use native.Mathlib.Nat.{div-eq_of_lt}
use zhangxy.Pool.{
  grown_size, BlockInfo, PoolInfo, magic_code, round_size, alloc_from_block, find_block, expand,
  allocate_find, alloc,
}
use zhangxy.Pool.Blocks.{IsBlock, AllBlocks, AllFull, alloc_from_block_cases}
use zhangxy.Pool.Cases.{blocks_of, IsValid, Granted, alloc_cases, expand_cases}

from_full_block :
    (b : BlockInfo) (size : ℕ)
    → IsBlock b
    → b.end_addr < b.cur_addr + round_size size
    → alloc_from_block b size ≡ (b, 0)
from_full_block b size v h = elim (alloc_from_block_cases b size v) [
  | inl (e, _) ↦ e
  | inr (_, room) ↦ absurd (omega arith)
]

find_block_full :
    (bs : List BlockInfo) (size : ℕ)
    → AllBlocks bs
    → AllFull bs (round_size size)
    → find_block bs size ≡ (bs, 0)
unfolding find_block
find_block_full [] size vs h = refl
find_block_full (b ∷ bs) size (v, vs) (h, hs) =
    rw (from_full_block b size v h, find_block_full bs size vs hs) refl

alloc_full :
    (p : PoolInfo) (size mem : ℕ)
    → IsValid p
    → AllFull (blocks_of p) (round_size size)
    → alloc p size mem ≡ expand p size mem
unfolding alloc allocate_find
alloc_full p size mem v (h, hs) =
    let standard : (p.magic == magic_code) ≡ true = (==_iff p.magic magic_code).1 v.standard in
    rw
      (standard, from_full_block p.first size v.valid.0 h, find_block_full p.more size v.valid.1 hs)
      refl

-- A call of `POOL_Alloc` on a valid pool, whose size with the growth and 24 bytes more is below 2 ^ 32,
-- with NULL or aligned memory within the addresses for a new block, returns NULL just when no block has room for the rounded size
-- and there is no new block: the pool does not grow, or its memory is NULL. Else the new block, whose
-- size the code computes, has room.
pub alloc_null :
    (p : PoolInfo) (size mem : ℕ)
    → IsValid p
    → size + p.inc_size + 24 < 2 ^ 32
    → Granted p size mem
    → ((alloc p size mem).1 ≡ 0)
      ↔ (AllFull (blocks_of p) (round_size size) × ((p.inc_size ≡ 0) ⊎ (mem ≡ 0)))
alloc_null p size mem v request g =
    let h : size ≤ 2 ^ 32 - 4 = omega arith in
    (
      (λ e. elim (alloc_cases p size mem v h) [
        | inl (b, bs, q, found, t) ↦
            absurd (omega (arith, t.positive, sym (ap (λ r. r.1) found) ∙ e))
        | inr (none_found, full) ↦ elim (expand_cases p size mem request g) [
          | inl (k, _, why) ↦ (full, why)
          | inr (new, _, _, _) ↦ absurd (omega (arith, sym (ap (λ r. r.1) (none_found ∙ new)) ∙ e))
        ]
      ]),
      (λ (full, why). elim (expand_cases p size mem request g) [
        | inl (k, fails, _) ↦ ap (λ r. r.1) (alloc_full p size mem v full ∙ fails)
        | inr (_, some_mem, some_inc, _) ↦ elim why [
          | inl e ↦ absurd (omega arith)
          | inr e ↦ absurd (omega arith)
        ]
      ]),
    )

round_size_wraps : (size : ℕ) → 2 ^ 32 - 4 < size → size < 2 ^ 32 → round_size size ≡ 0
unfolding round_size
round_size_wraps size h k =
    let odd : (size % 4 == 0) ≡ false = ground arith in
    let small : (size + 4) % 2 ^ 32 / 4 ≡ 0 = omega arith in rw (odd, small) refl

-- A size that is no more than three bytes below 2 ^ 32 is rounded up to 0: the call returns the address
-- of the first block's free part, and no byte is taken.
pub alloc_wraps :
    (p : PoolInfo) (size mem : ℕ)
    → IsValid p
    → 2 ^ 32 - 4 < size
    → size < 2 ^ 32
    → alloc p size mem ≡ (p, p.first.cur_addr)
unfolding alloc
alloc_wraps p size mem v h k =
    let standard : (p.magic == magic_code) ≡ true = (==_iff p.magic magic_code).1 v.standard in
    let zero : round_size size ≡ 0 = round_size_wraps size h k in
    let first = v.valid.0 in
    let positive : (p.first.cur_addr == 0) ≡ false =
      ground (arith, first.positive, first.start, first.begun) in
    elim (alloc_from_block_cases p.first size first) [
      | inl (_, full) ↦ absurd (omega (arith, full, zero, first.inside))
      | inr (e, _) ↦
          rw (standard, e, positive, zero)
            (ap (λ a. (record p { first = record p.first { cur_addr = a } }, p.first.cur_addr))
              (omega arith))
    ]

-- A size below 2 ^ 32 - 24 that with the growth passes 2 ^ 32 makes the computed size of the new block 0.
pub grown_size_wraps :
    (inc size : ℕ)
    → size + 24 < 2 ^ 32
    → inc < size + 24
    → 2 ^ 32 ≤ size + inc + 24
    → grown_size inc size ≡ 0
unfolding grown_size
grown_size_wraps inc size h k l =
    let a : u32_add size 24 ≡ size + 24 = omega arith in
    let small : u32_add (u32_add size inc) 24 < inc = omega arith in
    let none_fit : u32_add (u32_add size inc) 24 / inc ≡ 0 = div-eq_of_lt small in
    let none_left : 0 * inc % 2 ^ 32 ≡ 0 = omega arith in
    rw (a, lt→ltb inc (size + 24) k, none_fit, none_left) refl
