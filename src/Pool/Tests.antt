-- ===== src/Pool/Tests.antt =====
-- Pools at small inputs.
use zhangxy.Base.{
  ℕ, ◌+◌, ◌%◌, ◌^◌, inl, ◌≤◌, ◌<◌, ◌≡◌, refl, ◌↔◌, ◌⊎◌, true, false, some, [], ◌∷◌, arith, length,
  replicate,
}
use zhangxy.Pool.{
  BlockInfo, PoolInfo, magic_code, round_size, new_block, grown_size, alloc, init_pool, create_pool,
  reset_pool,
}
use zhangxy.Pool.Blocks.{AllFull, covers, free_count, total_size}
use zhangxy.Pool.Cases.{blocks_of, IsValid, Granted}
use zhangxy.Pool.Safe.{Accounts, alloc_lem}
use zhangxy.Pool.Run.{Allocs, stop, call, covered, handed_once}
use zhangxy.Pool.Null.{alloc_null}
use zhangxy.Pool.Reset.{marked, freed_total, reset_pool-Allocs}
use zhangxy.Pool.Caching.{
  PoolCaching, unknown, aborted, is_used, remove_used, release, size_at, pool_index, create,
  init_caching,
}
use zhangxy.Pool.Caching.Index.{pool_index_lem}
use zhangxy.Pool.Caching.Laws.{IsCaching, GivenBack, cached_total, release_lem}
use zhangxy.Pool.Caching.Create.{Created, create_lem}
use zhangxy.Pool.Caching.Never.{started, created, is_kept, is_aborted, never_kept}

-- A pool of 256 bytes at 4096 that grows by 512.
abbrev fresh : PoolInfo
fresh = record {
  pool = 4096;
  magic = 0;
  factory_data = 0;
  capacity = 256;
  inc_size = 512;
  first = record { block = 4180; start_addr = 4200; cur_addr = 4200; end_addr = 4352 };
  more = [];
  fails = [];
}

abbrev small : PoolInfo
small = marked fresh

small-IsValid : IsValid small
unfolding total_size
small-IsValid = record {
  standard = refl;
  valid = (
    record {
      start = refl;
      positive = omega arith;
      start_aligned = refl;
      begun = omega arith;
      inside = omega arith;
      bound = omega arith;
      aligned = refl;
    },
    _,
  );
  place = refl;
  total = refl;
}

ask-Granted : Granted small 600 8192
unfolding grown_size
ask-Granted = record { aligned = refl; bound = λ k. omega arith; capacity = λ k. omega arith }

alloc_lem_example : Accounts small ((alloc small 600 8192).0) 600 8192 ((alloc small 600 8192).1)
alloc_lem_example = alloc_lem small 600 8192 small-IsValid (omega arith) ask-Granted

-- One call that has room and one that has not.
abbrev after_one : PoolInfo
after_one = (alloc small 10 0).0

abbrev after_two : PoolInfo
after_two = (alloc after_one 600 8192).0

two_calls : Allocs small ((4200, 12) ∷ (8212, 600) ∷ []) ((20, 0) ∷ (8212, 1004) ∷ []) after_two
unfolding alloc new_block grown_size
two_calls =
    call small 10 0 ((8212, 600) ∷ []) ((8212, 1004) ∷ []) after_two (omega arith)
      record { aligned = refl; bound = λ k. omega arith; capacity = λ k. omega arith }
      (call after_one 600 8192 [] [] after_two (omega arith)
        record { aligned = refl; bound = λ k. omega arith; capacity = λ k. omega arith }
        (stop after_two))

handed_once_example :
    IsValid after_two
    × ((x : ℕ) → covered ((4200, 12) ∷ (8212, 600) ∷ []) x + free_count (blocks_of after_two) x ≤ 1)
unfolding free_count covered covers
handed_once_example =
    handed_once small ((4200, 12) ∷ (8212, 600) ∷ []) ((20, 0) ∷ (8212, 1004) ∷ []) after_two
      two_calls small-IsValid (λ x. ground arith)

refused-Granted : Granted small 600 0
unfolding grown_size
refused-Granted = record { aligned = refl; bound = λ k. omega arith; capacity = λ k. omega arith }

alloc_null_example :
    ((alloc small 600 0).1 ≡ 0)
    ↔ (AllFull (blocks_of small) (round_size 600) × ((small.inc_size ≡ 0) ⊎ (◌≡◌ {A = ℕ} 0 0)))
alloc_null_example = alloc_null small 600 0 small-IsValid (omega arith) refused-Granted

-- What is left of the new block.
abbrev second : BlockInfo
second = record { block = 8192; start_addr = 8212; cur_addr = 8812; end_addr = 9216 }

fresh_made : create_pool 256 512 4096 ≡ some fresh
unfolding create_pool init_pool new_block
fresh_made = refl

grew : after_two.more ≡ second ∷ []
unfolding alloc new_block
grew = refl

reset_pool-Allocs_example :
    ((reset_pool after_two).0 ≡ record (marked fresh) { fails = after_two.fails })
    × (freed_total (reset_pool after_two).1 + 256 ≡ after_two.capacity)
reset_pool-Allocs_example =
    reset_pool-Allocs 256 512 4096 fresh after_two ((4200, 12) ∷ (8212, 600) ∷ [])
      ((20, 0) ∷ (8212, 1004) ∷ []) second [] refl (omega arith) fresh_made two_calls grew

pool_index_lem_example :
    (pool_index 5000 ≤ 16)
    × ((j : ℕ) → j < pool_index 5000 → size_at j < 5000)
    × (pool_index 5000 < 16 → 5000 ≤ size_at (pool_index 5000))
pool_index_lem_example = pool_index_lem 5000

abbrev factory : PoolCaching
factory = init_caching 100000

factory-IsCaching : IsCaching factory
unfolding init_caching cached_total
factory-IsCaching = record {
  lists = refl;
  valid = _;
  total = refl;
  fits = omega arith;
  bound = omega arith;
  count = refl;
  count_bound = omega arith;
}

unused_yet : length factory.used_list + 1 < 2 ^ 32
unfolding init_caching
unused_yet = omega arith

create_lem_example : Created factory 1000 512 4096 70000 (create factory 1000 512 4096 70000)
create_lem_example =
    create_lem factory 1000 512 4096 70000 factory-IsCaching unused_yet refl (omega arith)

-- One pool is out.
abbrev one_used : PoolCaching
one_used = record {
  capacity = 0;
  capacity_max = 100000;
  used_cnt = 1;
  used_size = 0;
  peak_used_size = 0;
  free_list = replicate 16 [];
  used_list = 4096 ∷ [];
}

one_used-IsCaching : IsCaching one_used
unfolding cached_total
one_used-IsCaching = record {
  lists = refl;
  valid = _;
  total = refl;
  fits = omega arith;
  bound = omega arith;
  count = refl;
  count_bound = omega arith;
}

release_lem_example :
    ((is_used (4096 ∷ []) 4096 ≡ false) × (release one_used small ≡ (one_used, unknown)))
    ⊎ (((is_used (4096 ∷ []) 4096 ≡ true)
          × (small.capacity ≤ 65536)
          × (0 + small.capacity ≤ 100000)
          × (16 ≤ small.factory_data % 2 ^ 32)
          × ((release one_used small).1 ≡ aborted))
        ⊎ ((is_used (4096 ∷ []) 4096 ≡ true)
            × GivenBack one_used small
                (remove_used (4096 ∷ []) 4096)
                ((release one_used small).0)
                ((release one_used small).1)))
release_lem_example = release_lem one_used small one_used-IsCaching small-IsValid

-- The pool that the factory creates for 1000 bytes with a local variable at 70000, and the state
-- behind that.
abbrev out : PoolInfo
out = record {
  pool = 4096;
  magic = magic_code;
  factory_data = 70000;
  capacity = 1024;
  inc_size = 512;
  first = record { block = 4180; start_addr = 4200; cur_addr = 4200; end_addr = 5120 };
  more = [];
  fails = [];
}

abbrev first_out : PoolCaching
first_out = record {
  capacity = 0;
  capacity_max = 100000;
  used_cnt = 1;
  used_size = 0;
  peak_used_size = 0;
  free_list = replicate 16 [];
  used_list = 4096 ∷ [];
}

handed_over : create factory 1000 512 4096 70000 ≡ (first_out, some out)
unfolding create init_caching
handed_over = refl

never_kept_example :
    (first_out.free_list ≡ replicate 16 [])
    × (first_out.capacity ≡ 0)
    × (is_kept (release first_out out).1 ≡ false)
    × (is_aborted (release first_out out).1 ≡ true)
unfolding size_at
never_kept_example =
    never_kept 100000 first_out out (70000 ∷ [])
      (created factory first_out out [] 1000 512 4096 70000 started (omega arith) handed_over)
      (inl refl)
