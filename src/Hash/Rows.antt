-- ===== src/Hash/Rows.antt =====
-- The rows of a table: the masked hash is in range, and a write to one row leaves the others.
use zhangxy.Base.{
  ℕ, zero, suc, ◌+◌, ◌/◌, ◌≤◌, ◌<◌, min, ◌≡◌, refl, List, [], ◌∷◌, arith, length, get_or, set,
  replicate,
}
use Prim.Native.Nat.{bit_and, digits, bit_and-bitwise}
use zhangxy.Hash.{Entry}

-- The lowest digit of `bit_and`, from the definition that the native operation stands for.
abbrev and_digits : ℕ → ℕ → ℕ → ℕ
and_digits n a b = digits (λ b. zero) min n a b

and_digits_le : (n a b : ℕ) → and_digits n a b ≤ b
and_digits_le zero a b = omega arith
and_digits_le (suc n) zero b = omega arith
and_digits_le (suc n) (suc a) b = omega (arith, and_digits_le n (suc a / 2) (b / 2))

pub bit_and-le : (a b : ℕ) → bit_and a b ≤ b
bit_and-le a b = omega (arith, bit_and-bitwise a b, and_digits_le a a b)

-- The entries of all chains.
pub total : List (List Entry) → ℕ
total [] = 0
total (c ∷ cs) = length c + total cs

pub total-set :
    (cs : List (List Entry)) (i : ℕ) (c : List Entry)
    → i < length cs
    → total (set cs i c) + length (get_or cs i []) ≡ total cs + length c
unfolding total
total-set [] i c h = elim h [ ]
total-set (x ∷ cs) zero c h = omega arith
total-set (x ∷ cs) (suc i) c h = omega (arith, total-set cs i c (omega arith))

pub total-replicate : (n : ℕ) → total (replicate n []) ≡ 0
unfolding total
total-replicate zero = refl
total-replicate (suc n) = omega (arith, total-replicate n)
