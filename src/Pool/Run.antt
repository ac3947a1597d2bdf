-- ===== src/Pool/Run.antt =====
-- oslib/src/pool.c: any number of calls of `POOL_Alloc`.
use zhangxy.Base.{ℕ, ◌+◌, ◌^◌, ◌≤◌, ◌<◌, ◌≡◌, refl, ◌∙◌, List, [], ◌∷◌, arith}
use zhangxy.Pool.{PoolInfo, alloc, get_used_size}
use zhangxy.Pool.Blocks.{covers, free_count, free_size, used_of-free_size}
use zhangxy.Pool.Cases.{blocks_of, IsValid, Granted}
use zhangxy.Pool.Safe.{handed, gained, pristine, alloc_lem}

-- Calls that lead from one pool to another, with the parts that they hand out and the parts of new
-- memory that they are given, as addresses with sizes.
pub data Allocs : PoolInfo → List (ℕ × ℕ) → List (ℕ × ℕ) → PoolInfo → Type 0 where
  stop : (p : PoolInfo) → Allocs p [] [] p
  call :
      (p : PoolInfo) (size mem : ℕ) (hs gs : List (ℕ × ℕ)) (p' : PoolInfo)
      → size + p.inc_size + 24 < 2 ^ 32
      → Granted p size mem
      → Allocs ((alloc p size mem).0) hs gs p'
      → Allocs p
          (((alloc p size mem).1, handed ((alloc p size mem).1) size) ∷ hs)
          ((mem + 20, gained p ((alloc p size mem).0)) ∷ gs)
          p'

-- How many of the parts the byte `x` is in.
unfoldable pub covered : List (ℕ × ℕ) → ℕ → ℕ
covered [] x = 0
covered ((a, n) ∷ parts) x = covers a n x + covered parts x

pub Allocs-bytes :
    (p : PoolInfo) (hs gs : List (ℕ × ℕ)) (p' : PoolInfo)
    → Allocs p hs gs p'
    → IsValid p
    → IsValid p'
      × (pristine p' ≡ pristine p)
      × ((x : ℕ)
          → covered hs x + free_count (blocks_of p') x ≡ free_count (blocks_of p) x + covered gs x)
unfolding covered
Allocs-bytes p hs gs p' (stop q) v = (v, refl, (λ x. omega arith))
Allocs-bytes p hs gs p' (call _ size mem hs1 gs1 _ h g run) v =
    let one = alloc_lem p size mem v h g in
    let (v', kept, rest) = Allocs-bytes ((alloc p size mem).0) hs1 gs1 p' run one.valid in
    (v', kept ∙ one.kept, (λ x. omega (arith, one.bytes x, rest x)))

-- Any number of calls of `POOL_Alloc` on a valid pool, each with a size that with the growth and 24 bytes
-- more is below 2 ^ 32, and with NULL or aligned memory within the addresses, leaves a valid pool. Where no byte is in two of the free
-- parts and the new memory, no byte is handed out twice, and none that was handed out is free.
pub handed_once :
    (p : PoolInfo) (hs gs : List (ℕ × ℕ)) (p' : PoolInfo)
    → Allocs p hs gs p'
    → IsValid p
    → ((x : ℕ) → free_count (blocks_of p) x + covered gs x ≤ 1)
    → IsValid p' × ((x : ℕ) → covered hs x + free_count (blocks_of p') x ≤ 1)
handed_once p hs gs p' run v h =
    let (v', _, bytes) = Allocs-bytes p hs gs p' run v in (v', (λ x. omega (arith, bytes x, h x)))

-- The used size of a valid pool and the free bytes of its blocks make up its capacity.
pub get_used_size-free_size :
    (p : PoolInfo) → IsValid p → get_used_size p + free_size (blocks_of p) ≡ p.capacity
unfolding get_used_size
get_used_size-free_size p v = omega (arith, v.total, used_of-free_size (blocks_of p) v.valid)
