-- ===== src/Pool/Caching.antt =====
-- oslib/src/pool_caching.c, the factory of pools: pools that are released are kept for later, in lists by
-- their initial size, up to a maximum in all. The lock is left out; every operation holds it from
-- its start to its end. The policy's allocation is given by the address `mem` that it returns.
pub mod Index
pub mod Laws
pub mod Create
pub mod Never
use zhangxy.Base.{
  ℕ, zero, suc, ◌+◌, ◌-◌, ◌*◌, ◌/◌, ◌%◌, ◌^◌, ◌≤◌, ◌<◌, min, ◌≡◌, refl, sym, ap, ap₂, ◌∙◌, ◌≢◌, ◌↔◌,
  ◌⊎◌, inl, inr, Bool, true, false, not, ◌&&◌, ◌||◌, Option, none, some, List, [], ◌∷◌, ◌++◌, map,
  append-nil, append_assoc, arith, ltb, leb, ◌==◌, bool_eq, if◌then◌else◌, ltb→lt, lt→ltb, le→ltb,
  leb→le, ==_iff, Bool-cases, Option-cases, le_cases, u32_add, u32_sub, length, get_elem?, get_or,
  set, take, drop, replicate, length-append, length-take, length-drop, length-set, length-replicate,
  take-nil, drop-nil, take_all, drop_all, take-append-drop, take-append_le, take-append_ge,
  drop-append_le, take-append_self, drop-append_self, drop-append_ge, drop-take, take-take,
  drop-drop, overwrite, length-overwrite, get_or-set_self, get_or-set_ne, set-get_or, set-set,
  NotIn, Nodup, get_or-set,
}
use zhangxy.Pool.{BlockInfo, PoolInfo, magic_code, init_pool, create_pool, reset_pool, destroy_pool}

-- `POOL_CACHING_ARRAY_SIZE`, `pool_sizes` and `POOL_START_SIZE`
abbrev pub array_size : ℕ
array_size = 16

unfoldable pub pool_sizes : List ℕ
pool_sizes =
    256 ∷ 512 ∷ 1024 ∷ 2048 ∷ 4096 ∷ 8192 ∷ 12288 ∷ 16384 ∷ 20480 ∷ 24576 ∷ 28672 ∷ 32768 ∷ 40960
    ∷ 49152 ∷ 57344 ∷ 65536 ∷ []

abbrev pub start_size : ℕ
start_size = 5

unfoldable pub size_at : ℕ → ℕ
unfolding pool_sizes
size_at i = get_or pool_sizes i 0

-- `T_PoolCaching`. Used pools belong to the callers and stand here by their addresses.
pub record PoolCaching : Type 0 where
  pub capacity : ℕ
  pub capacity_max : ℕ
  pub used_cnt : ℕ
  pub used_size : ℕ
  pub peak_used_size : ℕ
  pub free_list : List (List PoolInfo)
  pub used_list : List ℕ

-- `POOL_CachingInit`
unfoldable pub init_caching : ℕ → PoolCaching
init_caching max = record {
  capacity = 0;
  capacity_max = max;
  used_cnt = 0;
  used_size = 0;
  peak_used_size = 0;
  free_list = replicate array_size [];
  used_list = [];
}

-- The loop from `n` - 1 down, with the increment behind it.
unfoldable pub index_down : ℕ → ℕ → ℕ
unfolding size_at
index_down zero size = 0
index_down (suc i) size =
    let rest = index_down i size in if leb size (size_at i) then rest else suc i

-- The loop up, with `left` indices to go.
unfoldable pub index_up : ℕ → ℕ → ℕ
unfolding size_at
index_up zero size = array_size
index_up (suc left) size =
    let rest = index_up left size in
    let i = array_size - suc left in if ltb (size_at i) size then rest else i

unfoldable pub pool_index : ℕ → ℕ
unfolding index_down index_up
pool_index size =
    if leb size (size_at start_size)
    then index_down start_size size
    else index_up (array_size - suc start_size) size

-- The end of `cpool_create_pool`: `local` is the address that is stored.
unfoldable pub hand_out : PoolCaching → PoolInfo → ℕ → PoolCaching × Option PoolInfo
hand_out c p local = (
  record c { used_list = p.pool ∷ c.used_list; used_cnt = u32_add c.used_cnt 1 },
  some (record p { factory_data = local; magic = magic_code }),
)

-- A pool is created.
unfoldable pub create_new : PoolCaching → Option PoolInfo → ℕ → PoolCaching × Option PoolInfo
unfolding hand_out
create_new c none local = (c, none)
create_new c (some p) local = hand_out c p local

-- The pools of a free list, or a new one.
unfoldable pub create_from :
    PoolCaching → List PoolInfo → ℕ → ℕ → ℕ → ℕ → ℕ → PoolCaching × Option PoolInfo
unfolding hand_out create_new create_pool init_pool
create_from c [] i init inc mem local =
    create_new c (create_pool (if ltb i array_size then size_at i else init) inc mem) local
create_from c (p ∷ ps) i init inc mem local =
    hand_out
      (record c {
        free_list = set c.free_list i ps;
        capacity = if ltb p.capacity c.capacity then u32_sub c.capacity p.capacity else 0;
      })
      (init_pool p inc) local

-- `cpool_create_pool`, where the local variable for the index stands at `local`.
unfoldable pub create : PoolCaching → ℕ → ℕ → ℕ → ℕ → PoolCaching × Option PoolInfo
unfolding pool_index create_from
create c init inc mem local =
    let i = pool_index init in
    let ps = if i == array_size then [] else get_or c.free_list i [] in
    create_from c ps i init inc mem local

-- The results of `cpool_release_pool`; a pool is freed, or kept without the
-- blocks that it had grown by; `aborted` is a failed assertion.
pub data Released : Type 0 where
  wrong_magic : Released
  unknown : Released
  destroyed : List (ℕ × ℕ) → Released
  aborted : Released
  kept : ℕ → List (ℕ × ℕ) → Released

abbrev pub is_used : List ℕ → ℕ → Bool
is_used [] a = false
is_used (b ∷ used) a = if b == a then true else is_used used a

abbrev pub remove_used : List ℕ → ℕ → List ℕ
remove_used [] a = []
remove_used (b ∷ used) a = if b == a then used else b ∷ remove_used used a

-- A pool that fits is reset and put in the list that its data name. Without an index the program
-- stops at the assertion, so that the code behind it is left out.
unfoldable pub recycle : PoolCaching → PoolInfo → PoolCaching × Released
unfolding reset_pool
recycle c p =
    let p' = (reset_pool p).0 in
    let i = p'.factory_data % 2 ^ 32 in
    if leb array_size i then (c, aborted) else (
      record c {
        free_list = set c.free_list i (p' ∷ get_or c.free_list i []);
        capacity = u32_add c.capacity p'.capacity;
      },
      kept i (reset_pool p).1,
    )

-- `cpool_release_pool`
unfoldable pub release : PoolCaching → PoolInfo → PoolCaching × Released
unfolding recycle destroy_pool
release c p =
    let c' = record c {
      used_list = remove_used c.used_list p.pool;
      used_cnt = u32_sub c.used_cnt 1;
    } in
    let too_much =
      ltb (size_at (array_size - 1)) p.capacity
      || ltb c.capacity_max (u32_add c.capacity p.capacity) in
    if not (p.magic == magic_code)
    then (c, wrong_magic)
    else if not (is_used c.used_list p.pool)
    then (c, unknown)
    else if too_much
    then (c', destroyed (destroy_pool p))
    else recycle c' p

-- `cpool_on_block_alloc` and `cpool_on_block_free`
unfoldable pub on_block_alloc : PoolCaching → ℕ → PoolCaching
on_block_alloc c size =
    let used = u32_add c.used_size size in
    record c {
      used_size = used;
      peak_used_size = if ltb c.peak_used_size used then used else c.peak_used_size;
    }

unfoldable pub on_block_free : PoolCaching → ℕ → PoolCaching
on_block_free c size = record c { used_size = u32_sub c.used_size size }

-- `POOL_CachingDeinit`: what is freed, the last first. `pools` are the pools at their addresses.
unfoldable pub destroy_all : List PoolInfo → List (ℕ × ℕ)
unfolding destroy_pool
destroy_all [] = []
destroy_all (p ∷ ps) = destroy_all ps ++ destroy_pool p

unfoldable pub destroy_lists : List (List PoolInfo) → List (ℕ × ℕ)
unfolding destroy_all
destroy_lists [] = []
destroy_lists (ps ∷ lists) = destroy_lists lists ++ destroy_all ps

unfoldable pub deinit_caching : PoolCaching → (ℕ → PoolInfo) → List (ℕ × ℕ)
unfolding destroy_all destroy_lists
deinit_caching c pools = destroy_all (map pools c.used_list) ++ destroy_lists c.free_list
