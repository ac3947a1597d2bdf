-- ===== src/Cis/Each.antt =====
-- The loops over all characters: `cis_add_cis`, `cis_invert`, `cis_dup`.
use zhangxy.Base.{
  ℕ, zero, suc, ◌+◌, ◌≤◌, ◌<◌, ◌≡◌, inl, inr, Bool, not, ◌&&◌, ◌||◌, arith, ltb, leb, ◌==◌,
  if◌then◌else◌, Bool-cases, length,
}
use zhangxy.Cis.{
  CisBuf, cis_is_set, range_from, add_one, invert_one, copy_one, for_each, cis_add_cis, cis_invert,
}
use zhangxy.Cis.Laws.{is_set-cis_set, is_set-cis_clear, length-cis_set, length-cis_clear}

-- A round that looks at one character in two sets and writes it in one of them.
pub record IsLocal (id other : ℕ) (f : Bool → Bool → Bool) (step : CisBuf → ℕ → CisBuf)
    : Type 0 where
  pub keeps : (b : CisBuf) (c : ℕ) → length (step b c).cells ≡ length b.cells
  pub writes :
      (b : CisBuf) (c id' c' : ℕ)
      → c < length b.cells
      → cis_is_set (step b c) id' c' ≡ (
          if id' == id && c' == c
          then f (cis_is_set b id c) (cis_is_set b other c)
          else cis_is_set b id' c')

module _ (id other : ℕ) (f : Bool → Bool → Bool) (step : CisBuf → ℕ → CisBuf)
    (is_local : IsLocal id other f step) where
  pub is_set-for_each :
      (n s : ℕ) (b : CisBuf) (id' c' : ℕ)
      → s + n ≤ length b.cells
      → cis_is_set (for_each step b (range_from s n)) id' c' ≡ (
          if id' == id && (leb s c' && ltb c' (s + n))
          then f (cis_is_set b id c') (cis_is_set b other c')
          else cis_is_set b id' c')
  unfolding for_each range_from
  is_set-for_each zero s b id' c' h = ground arith
  is_set-for_each (suc n) s b id' c' h =
      let inside : s < length b.cells = omega arith in
      ground (
        arith,
        is_set-for_each n (s + 1) (step b s) id' c' (rw (is_local.keeps b s) (omega arith)),
        is_local.writes b s id' c' inside,
        is_local.writes b s id c' inside,
        is_local.writes b s other c' inside,
      )

invert_one-IsLocal : (id : ℕ) → IsLocal id id (λ x y. not x) (invert_one id)
invert_one-IsLocal id = record {
  keeps = λ b c. elim (Bool-cases (cis_is_set b id c)) [
    | inl t ↦ rw t (length-cis_clear b id c)
    | inr t ↦ rw t (length-cis_set b id c)
  ];
  writes = λ b c id' c' h.
      ground (arith, is_set-cis_clear b id c id' c' h, is_set-cis_set b id c id' c' h);
}

add_one-IsLocal : (id rhs : ℕ) → IsLocal id rhs (λ x y. x || y) (add_one id rhs)
add_one-IsLocal id rhs = record {
  keeps = λ b c. elim (Bool-cases (cis_is_set b rhs c)) [
    | inl t ↦ rw t (length-cis_set b id c)
    | inr t ↦ rw t
  ];
  writes = λ b c id' c' h. ground (arith, is_set-cis_set b id c id' c' h);
}

pub copy_one-IsLocal : (id from : ℕ) → IsLocal id from (λ x y. y) (copy_one id from)
copy_one-IsLocal id from = record {
  keeps = λ b c. elim (Bool-cases (cis_is_set b from c)) [
    | inl t ↦ rw t (length-cis_set b id c)
    | inr t ↦ rw t (length-cis_clear b id c)
  ];
  writes = λ b c id' c' h.
      ground (arith, is_set-cis_clear b id c id' c' h, is_set-cis_set b id c id' c' h);
}

-- `cis_add_cis` makes a set the union of itself and another, and leaves the other sets alone.
pub is_set-cis_add_cis :
    (b : CisBuf) (id rhs id' c' : ℕ)
    → length b.cells ≡ 256
    → c' < 256
    → cis_is_set (cis_add_cis b id rhs) id' c'
      ≡ (id' == id && cis_is_set b rhs c' || cis_is_set b id' c')
unfolding cis_add_cis
is_set-cis_add_cis b id rhs id' c' h k = ground (
  arith,
  is_set-for_each id rhs (λ x y. x || y) (add_one id rhs) (add_one-IsLocal id rhs) 256 0 b id' c'
      (omega arith),
)

-- `cis_invert` turns membership round for every character but NUL, which keeps its own, and leaves
-- the other sets alone.
pub is_set-cis_invert :
    (b : CisBuf) (id id' c' : ℕ)
    → length b.cells ≡ 256
    → c' < 256
    → cis_is_set (cis_invert b id) id' c'
      ≡ (if id' == id && ltb 0 c' then not (cis_is_set b id' c') else cis_is_set b id' c')
unfolding cis_invert
is_set-cis_invert b id id' c' h k = ground (
  arith,
  is_set-for_each id id (λ x y. not x) (invert_one id) (invert_one-IsLocal id) 255 1 b id' c'
      (omega arith),
)
