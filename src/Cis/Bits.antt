-- ===== src/Cis/Bits.antt =====
-- The bits of a word after one of them is set or cleared.
use zhangxy.Base.{ℕ, zero, suc, ◌+◌, ◌*◌, ◌/◌, ◌%◌, ◌≡◌, not, ◌&&◌, ◌||◌, arith, ◌==◌}
use zhangxy.Cis.{bit_at, set_bit, clear_bit}

pub bit_at-set_bit : (x i j : ℕ) → bit_at (set_bit x i) j ≡ (i == j || bit_at x j)
unfolding bit_at set_bit
bit_at-set_bit x zero zero = ground arith
bit_at-set_bit x zero (suc j) =
    let half : (x / 2 * 2 + 1) / 2 ≡ x / 2 = omega arith in rw half (ground arith)
bit_at-set_bit x (suc i) zero = ground arith
bit_at-set_bit x (suc i) (suc j) =
    let half : (set_bit (x / 2) i * 2 + x % 2) / 2 ≡ set_bit (x / 2) i = omega arith in
    rw half (ground (arith, bit_at-set_bit (x / 2) i j))

pub bit_at-clear_bit : (x i j : ℕ) → bit_at (clear_bit x i) j ≡ (not (i == j) && bit_at x j)
unfolding bit_at clear_bit
bit_at-clear_bit x zero zero = ground arith
bit_at-clear_bit x zero (suc j) =
    let half : x / 2 * 2 / 2 ≡ x / 2 = omega arith in rw half (ground arith)
bit_at-clear_bit x (suc i) zero = ground arith
bit_at-clear_bit x (suc i) (suc j) =
    let half : (clear_bit (x / 2) i * 2 + x % 2) / 2 ≡ clear_bit (x / 2) i = omega arith in
    rw half (ground (arith, bit_at-clear_bit (x / 2) i j))
