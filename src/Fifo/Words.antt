-- ===== src/Fifo/Words.antt =====
-- The `unsigned` in the buffer.
use zhangxy.Base.{
  ℕ, ◌+◌, ◌*◌, ◌/◌, ◌%◌, ◌^◌, ◌≤◌, ◌<◌, ◌≡◌, ◌∙◌, ◌⊎◌, List, arith, length, get_or, set, length-set,
  get_or-set_self, get_or-set_ne,
}
use zhangxy.Fifo.{word_at, put_word}

pub length-put_word : (mem : List ℕ) (p v : ℕ) → length (put_word mem p v) ≡ length mem
unfolding put_word
length-put_word mem p v =
    length-set _ (p + 3) _ ∙ length-set _ (p + 2) _ ∙ length-set _ (p + 1) _ ∙ length-set mem p _

-- A byte outside the word keeps its value.
byte_outside :
    (mem : List ℕ) (p v i : ℕ)
    → (i < p) ⊎ (p + 4 ≤ i)
    → get_or (put_word mem p v) i 0 ≡ get_or mem i 0
unfolding put_word
byte_outside mem p v i h =
    get_or-set_ne _ (p + 3) i _ 0 (omega arith)
    ∙ get_or-set_ne _ (p + 2) i _ 0 (omega arith)
    ∙ get_or-set_ne _ (p + 1) i _ 0 (omega arith)
    ∙ get_or-set_ne mem p i _ 0 (omega arith)

-- A word that does not overlap keeps its value.
pub word_at-put_word_ne :
    (mem : List ℕ) (p v q : ℕ)
    → (q + 4 ≤ p) ⊎ (p + 4 ≤ q)
    → word_at (put_word mem p v) q ≡ word_at mem q
unfolding word_at
word_at-put_word_ne mem p v q h = rw (
  byte_outside mem p v q (omega arith),
  byte_outside mem p v (q + 1) (omega arith),
  byte_outside mem p v (q + 2) (omega arith),
  byte_outside mem p v (q + 3) (omega arith),
)

-- The four bytes of the word.
bytes_inside :
    (mem : List ℕ) (p v : ℕ)
    → p + 4 ≤ length mem
    → (get_or (put_word mem p v) p 0 ≡ v % 2 ^ 8)
      × (get_or (put_word mem p v) (p + 1) 0 ≡ v / 2 ^ 8 % 2 ^ 8)
      × (get_or (put_word mem p v) (p + 2) 0 ≡ v / 2 ^ 16 % 2 ^ 8)
      × (get_or (put_word mem p v) (p + 3) 0 ≡ v / 2 ^ 24 % 2 ^ 8)
unfolding put_word
bytes_inside mem p v h =
    let m1 = set mem p (v % 2 ^ 8) in
    let m2 = set m1 (p + 1) (v / 2 ^ 8 % 2 ^ 8) in
    let m3 = set m2 (p + 2) (v / 2 ^ 16 % 2 ^ 8) in
    let l1 = length-set mem p (v % 2 ^ 8) in
    let l2 = length-set m1 (p + 1) (v / 2 ^ 8 % 2 ^ 8) in
    let l3 = length-set m2 (p + 2) (v / 2 ^ 16 % 2 ^ 8) in
    (
      get_or-set_ne m3 (p + 3) p _ 0 (omega arith)
          ∙ get_or-set_ne m2 (p + 2) p _ 0 (omega arith)
          ∙ get_or-set_ne m1 (p + 1) p _ 0 (omega arith)
          ∙ get_or-set_self mem p _ 0 (omega arith),
      get_or-set_ne m3 (p + 3) (p + 1) _ 0 (omega arith)
          ∙ get_or-set_ne m2 (p + 2) (p + 1) _ 0 (omega arith)
          ∙ get_or-set_self m1 (p + 1) _ 0 (omega arith),
      get_or-set_ne m3 (p + 3) (p + 2) _ 0 (omega arith)
          ∙ get_or-set_self m2 (p + 2) _ 0 (omega arith),
      get_or-set_self m3 (p + 3) _ 0 (omega arith),
    )

digits :
    (v : ℕ)
    → v < 2 ^ 32
    → v % 2 ^ 8
        + 2 ^ 8 * (v / 2 ^ 8 % 2 ^ 8)
        + 2 ^ 16 * (v / 2 ^ 16 % 2 ^ 8)
        + 2 ^ 24 * (v / 2 ^ 24 % 2 ^ 8)
      ≡ v
digits v h = omega arith

pub word_at-put_word :
    (mem : List ℕ) (p v : ℕ) → p + 4 ≤ length mem → v < 2 ^ 32 → word_at (put_word mem p v) p ≡ v
unfolding word_at
word_at-put_word mem p v h small =
    let (b0, b1, b2, b3) = bytes_inside mem p v h in rw (b0, b1, b2, b3) (digits v small)
