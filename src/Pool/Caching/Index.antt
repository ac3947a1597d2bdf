-- ===== src/Pool/Caching/Index.antt =====
-- oslib/src/pool_caching.c: the search for the size of a pool.
use zhangxy.Base.{
  ℕ, zero, suc, ◌+◌, ◌-◌, ◌≤◌, ◌<◌, ◌≡◌, refl, inl, inr, Bool, true, ◌&&◌, List, [], ◌∷◌, arith,
  ltb, leb, ltb→lt, Bool-cases, length, get_or,
}
use mathlib.Core.Path.{subst}
use zhangxy.Pool.Caching.{pool_sizes, size_at, index_down, index_up, pool_index}

-- Each size is larger than the one before.
is_increasing : List ℕ → Bool
is_increasing [] = true
is_increasing (a ∷ []) = true
is_increasing (a ∷ b ∷ bs) = ltb a b && is_increasing (b ∷ bs)

is_increasing_step :
    (xs : List ℕ) (i : ℕ)
    → is_increasing xs ≡ true
    → i + 1 < length xs
    → get_or xs i 0 < get_or xs (i + 1) 0
unfolding is_increasing
is_increasing_step [] i e h = absurd (omega arith)
is_increasing_step (a ∷ []) i e h = absurd (omega arith)
is_increasing_step (a ∷ b ∷ bs) zero e h = ground (arith, e)
is_increasing_step (a ∷ b ∷ bs) (suc i) e h =
    let rest : is_increasing (b ∷ bs) ≡ true = ground (arith, e) in
    let next : suc i + 1 ≡ suc (i + 1) = omega arith in
    rw next (is_increasing_step (b ∷ bs) i rest (omega arith))

size_at-step : (i : ℕ) → i + 1 < 16 → size_at i < size_at (i + 1)
unfolding size_at pool_sizes is_increasing
size_at-step i h = is_increasing_step pool_sizes i refl h

pub size_at_monotone : (i k : ℕ) → i + k < 16 → size_at i ≤ size_at (i + k)
size_at_monotone i zero h = (let same : i + 0 ≡ i = omega arith in rw same (omega arith))
size_at_monotone i (suc k) h =
    let next : i + suc k ≡ i + k + 1 = omega arith in
    rw next (omega (arith, size_at_monotone i k (omega arith), size_at-step (i + k) (omega arith)))

-- All sizes before `i` are too small, and that at `i` is not.
abbrev pub IsLeast : ℕ → ℕ → Type 0
IsLeast size i = (i ≤ 16) × ((j : ℕ) → j < i → size_at j < size) × (i < 16 → size ≤ size_at i)

below : (i j size : ℕ) → size_at i < size → i < 16 → j ≤ i → size_at j < size
below i j size h k l =
    let same : j + (i - j) ≡ i = omega arith in
    let up = size_at_monotone j (i - j) (omega arith) in
    omega (arith, subst (λ t. size_at j ≤ size_at t) same up)

index_down_lem : (n size : ℕ) → n < 16 → size ≤ size_at n → IsLeast size (index_down n size)
unfolding index_down
index_down_lem zero size h k = (omega arith, (λ j l. absurd (omega arith)), (λ _. k))
index_down_lem (suc n) size h k = elim (Bool-cases (leb size (size_at n))) [
  | inl e ↦ rw e (index_down_lem n size (omega arith) (ground (arith, e)))
  | inr e ↦ rw e (
    omega arith,
    (λ j l. below n j size (ground (arith, e)) (omega arith) (omega arith)),
    (λ _. k),
  )
]

index_up_lem :
    (left size : ℕ) → left < 16 → size_at (15 - left) < size → IsLeast size (index_up left size)
unfolding index_up
index_up_lem zero size h k = (
  omega arith,
  (λ j l. below 15 j size k (omega arith) (omega arith)),
  (λ l. absurd (omega arith)),
)
index_up_lem (suc left) size h k = elim (Bool-cases (ltb (size_at (16 - suc left)) size)) [
  | inl e ↦ rw e (
      index_up_lem left size (omega arith) (
        let at : 16 - suc left ≡ 15 - left = omega arith in
        ltb→lt (size_at (15 - left)) size (subst (λ t. ltb (size_at t) size ≡ true) at e)))
  | inr e ↦ rw e (
    omega arith,
    (λ j l. below (15 - suc left) j size k (omega arith) (omega arith)),
    (λ _. ground (arith, e)),
  )
]

-- The search finds the least index whose size is at least the one asked for, and 16 where there is none.
pub pool_index_lem :
    (size : ℕ)
    → (pool_index size ≤ 16)
      × ((j : ℕ) → j < pool_index size → size_at j < size)
      × (pool_index size < 16 → size ≤ size_at (pool_index size))
unfolding pool_index
pool_index_lem size = elim (Bool-cases (leb size (size_at 5))) [
  | inl e ↦ rw e (index_down_lem 5 size (omega arith) (ground (arith, e)))
  | inr e ↦ rw e (index_up_lem 10 size (omega arith) (ground (arith, e)))
]
