-- ===== src/Pool.antt =====
-- oslib/src/pool.c and pool.h, memory pools: a pool hands out parts of its blocks and gets a new block
-- when none has room. A pointer is an address of 32 bits, 0 for NULL; headers take the sizes they have
-- on the 32-bit targets. The policy's allocation is given by the address `mem` that it returns. Names
-- and output are left out.
pub mod Blocks
pub mod Cases
pub mod Safe
pub mod Run
pub mod Null
pub mod Reset
pub mod Caching
pub mod Destroy
mod Tests
use zhangxy.Base.{
  ℕ, zero, suc, ◌+◌, ◌-◌, ◌*◌, ◌/◌, ◌%◌, ◌^◌, ◌≤◌, ◌<◌, min, ◌≡◌, refl, sym, ap, ap₂, ◌∙◌, ◌≢◌, ◌↔◌,
  ◌⊎◌, inl, inr, Bool, true, false, not, ◌&&◌, ◌||◌, Option, none, some, List, [], ◌∷◌, ◌++◌, map,
  append-nil, append_assoc, arith, ltb, leb, ◌==◌, bool_eq, if◌then◌else◌, ltb→lt, lt→ltb, le→ltb,
  leb→le, ==_iff, Bool-cases, Option-cases, le_cases, u32_add, u32_sub, length, get_elem?, get_or,
  set, take, drop, replicate, length-append, length-take, length-drop, length-set, length-replicate,
  take-nil, drop-nil, take_all, drop_all, take-append-drop, take-append_le, take-append_ge,
  drop-append_le, take-append_self, drop-append_self, drop-append_ge, drop-take, take-take,
  drop-drop, overwrite, length-overwrite, get_or-set_self, get_or-set_ne, set-get_or, set-set,
  NotIn, Nodup, get_or-set,
}

-- `T_PoolBlockInfo`, with its own address.
pub record BlockInfo : Type 0 where
  pub block : ℕ
  pub start_addr : ℕ
  pub cur_addr : ℕ
  pub end_addr : ℕ

-- `T_PoolInfo`, with its own address. The first block stands in the pool's own memory and is always
-- there. `fails` are the sizes that the failure callback was called with, the last one first.
pub record PoolInfo : Type 0 where
  pub pool : ℕ
  pub magic : ℕ
  pub factory_data : ℕ
  pub capacity : ℕ
  pub inc_size : ℕ
  pub first : BlockInfo
  pub more : List BlockInfo
  pub fails : List ℕ

abbrev pub magic_code : ℕ
magic_code = 554627258

-- `sizeof(T_PoolBlockInfo)` and `sizeof(T_PoolInfo)`
abbrev pub block_size : ℕ
block_size = 20

abbrev pub pool_size : ℕ
pool_size = 84

-- `ALIGN_PTR` to four bytes.
unfoldable pub align_ptr : ℕ → ℕ
align_ptr a = a + (4 - a % 4) % 4

-- A size is rounded up to four bytes, in 32 bits.
unfoldable pub round_size : ℕ → ℕ
round_size size = if size % 4 == 0 then size else (size + 4) % 2 ^ 32 / 4 * 4

-- The header of a block at `mem`, which takes `size` bytes.
unfoldable pub new_block : ℕ → ℕ → BlockInfo
unfolding align_ptr
new_block mem size = record {
  block = mem;
  start_addr = mem + block_size;
  cur_addr = align_ptr (mem + block_size);
  end_addr = mem + size;
}

-- `pool_create_block`; `none` is NULL.
unfoldable pub create_block : PoolInfo → ℕ → ℕ → PoolInfo × Option BlockInfo
create_block p size mem = if mem == 0 then (record p { fails = size ∷ p.fails }, none) else (
  record p { capacity = u32_add p.capacity size; more = p.more ++ new_block mem size ∷ [] },
  some (new_block mem size),
)

-- `pool_alloc_from_block`
unfoldable pub alloc_from_block : BlockInfo → ℕ → BlockInfo × ℕ
unfolding round_size
alloc_from_block b size =
    let n = round_size size in
    if leb n (u32_sub b.end_addr b.cur_addr)
    then (record b { cur_addr = b.cur_addr + n }, b.cur_addr)
    else (b, 0)

-- The loop of `pool_allocate_find` over the blocks.
unfoldable pub find_block : List BlockInfo → ℕ → List BlockInfo × ℕ
unfolding alloc_from_block
find_block [] size = ([], 0)
find_block (b ∷ bs) size =
    let (b', p) = alloc_from_block b size in
    let (bs', q) = find_block bs size in if p == 0 then (b ∷ bs', q) else (b' ∷ bs, p)

-- The size of a new block.
unfoldable pub grown_size : ℕ → ℕ → ℕ
grown_size inc size =
    if ltb inc (u32_add size (block_size + 4))
    then u32_add (u32_add size inc) (block_size + 4) / inc * inc % 2 ^ 32
    else inc

-- The last block is replaced.
abbrev pub put_last : List BlockInfo → BlockInfo → List BlockInfo
put_last [] b = []
put_last (c ∷ []) b = b ∷ []
put_last (c ∷ d ∷ ds) b = c ∷ put_last (d ∷ ds) b

-- The bytes that are asked for, from the block that was created. The assertions, here that it
-- has room and before that it has a header, are left out: the program stops where they fail.
unfoldable pub alloc_created : PoolInfo × Option BlockInfo → ℕ → PoolInfo × ℕ
unfolding alloc_from_block
alloc_created (p, none) size = (p, 0)
alloc_created (p, some b) size =
    let (b', q) = alloc_from_block b size in (record p { more = put_last p.more b' }, q)

-- `pool_allocate_find` after its loop.
unfoldable pub expand : PoolInfo → ℕ → ℕ → PoolInfo × ℕ
unfolding create_block alloc_created grown_size
expand p size mem =
    if p.inc_size == 0
    then (record p { fails = size ∷ p.fails }, 0)
    else alloc_created (create_block p (grown_size p.inc_size size) mem) size

-- `pool_allocate_find`: the loop starts at the first block.
unfoldable pub allocate_find : PoolInfo → ℕ → ℕ → PoolInfo × ℕ
unfolding alloc_from_block find_block expand
allocate_find p size mem =
    let (b', q) = alloc_from_block p.first size in
    let (bs', r) = find_block p.more size in
    if not (q == 0)
    then (record p { first = b' }, q)
    else if not (r == 0)
    then (record p { more = bs' }, r)
    else expand p size mem

-- `POOL_Alloc`
unfoldable pub alloc : PoolInfo → ℕ → ℕ → PoolInfo × ℕ
unfolding alloc_from_block allocate_find
alloc p size mem =
    let (b', q) = alloc_from_block p.first size in
    if not (p.magic == magic_code)
    then (p, 0)
    else if q == 0
    then allocate_find p size mem
    else (record p { first = b' }, q)

-- `POOL_Calloc`: with the range of bytes that are set to 0.
unfoldable pub calloc : PoolInfo → ℕ → ℕ → ℕ → (PoolInfo × ℕ) × ℕ
unfolding alloc
calloc p count size mem =
    let n = size * count % 2 ^ 32 in let r = alloc p n mem in (r, if r.1 == 0 then 0 else n)

-- `POOL_GetUsedSize`
unfoldable pub used_of : List BlockInfo → ℕ
used_of [] = 0
used_of (b ∷ bs) = b.cur_addr - b.start_addr + block_size + used_of bs

unfoldable pub get_used_size : PoolInfo → ℕ
unfolding used_of
get_used_size p = pool_size + used_of (p.first ∷ p.more)

-- `PoolInitInt`
unfoldable pub init_pool : PoolInfo → ℕ → PoolInfo
init_pool p inc = record p { inc_size = inc }

-- `PoolCreateInt`, whose allocation returned `mem`.
unfoldable pub create_pool : ℕ → ℕ → ℕ → Option PoolInfo
unfolding init_pool new_block
create_pool init inc mem =
    if ltb init (pool_size + block_size)
    then none
    else if mem == 0
    then none
    else some (
        init_pool
          (record {
            pool = mem;
            magic = 0;
            factory_data = 0;
            capacity = init;
            inc_size = 0;
            first = new_block (mem + pool_size) (init - pool_size);
            more = [];
            fails = [];
          })
          inc)

abbrev pub freed_blocks : List BlockInfo → List (ℕ × ℕ) → List (ℕ × ℕ)
freed_blocks [] freed = freed
freed_blocks (b ∷ bs) freed = freed_blocks bs ((b.block, b.end_addr - b.block) ∷ freed)

-- `reset_pool`: with the blocks that are freed, the last one first, and their sizes.
unfoldable pub reset_pool : PoolInfo → PoolInfo × List (ℕ × ℕ)
unfolding align_ptr
reset_pool p = elim p.more [
  | [] ↦ (p, [])
  | b ∷ bs ↦ (
    record p {
      first = record p.first { cur_addr = align_ptr p.first.start_addr };
      more = [];
      capacity = p.first.end_addr - p.pool;
    },
    freed_blocks (b ∷ bs) [],
  )
]

-- `PoolDestroyInt`: what is freed; the pool itself is the last, which stands first.
unfoldable pub destroy_pool : PoolInfo → List (ℕ × ℕ)
unfolding reset_pool
destroy_pool p = (p.pool, p.first.end_addr - p.pool) ∷ (reset_pool p).1
