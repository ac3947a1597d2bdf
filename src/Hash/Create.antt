-- ===== src/Hash/Create.antt =====
-- `HASH_Create`: the loop that sizes the table.
use zhangxy.Base.{
  ℕ, zero, suc, ◌+◌, ◌-◌, ◌*◌, ◌/◌, ◌%◌, ◌^◌, ◌≤◌, ◌<◌, ◌≡◌, refl, ap, ◌∙◌, ◌⊎◌, inl, inr, Bool,
  true, Option, none, some, List, [], arith, ltb, ltb→lt, lt→ltb, Bool-cases, le_cases, get_or,
  replicate, length-replicate,
}
use native.Mathlib.Nat.{pow-suc, pow-le-pow_right}
use zhangxy.Hash.{Entry, HashTable, grow, create, sized_table}
use zhangxy.Hash.Laws.{IsValid}
use zhangxy.Hash.Rows.{total-replicate}

abbrev pow2 : ℕ → ℕ
pow2 k = 2 ^ k

pow2-le : (j k : ℕ) → j ≤ k → pow2 j ≤ pow2 k
pow2-le j k h = pow-le-pow_right (omega arith) h

-- The sizes that the loop goes through are powers of 2.
doubled_lem : (k : ℕ) → k < 31 → pow2 k * 2 % 2 ^ 32 ≡ pow2 (suc k)
doubled_lem k h = omega (arith, pow-suc 2 k, pow2-le k 30 (omega arith))

-- The power of 2 that the loop stops at, started at `2 ^ k`.
record Sized (k size : ℕ) (out : Option ℕ) : Type 0 where
  exponent : ℕ
  result : out ≡ some (pow2 exponent)
  larger : k < exponent
  small : exponent ≤ 31
  enough : size ≤ pow2 exponent
  tight : pow2 exponent < size * 2 ⊎ (exponent ≡ suc k)

Sized-suc :
    (k size : ℕ) (out : Option ℕ) → pow2 (suc k) < size → Sized (suc k) size out → Sized k size out
Sized-suc k size out more r = record {
  exponent = r.exponent;
  result = r.result;
  larger = omega (arith, r.larger);
  small = r.small;
  enough = r.enough;
  tight = elim r.tight [ inl t ↦ inl t | inr e ↦ inl (rw e (omega (arith, pow-suc 2 (suc k)))) ];
}

grow-Sized :
    (fuel k size : ℕ)
    → size ≤ 2 ^ 31
    → k < 31
    → 31 ≤ fuel + k
    → Sized k size (grow fuel (pow2 k) size)
unfolding grow
grow-Sized zero k size s h f = absurd (omega arith)
grow-Sized (suc fuel) k size s h f =
    rw (doubled_lem k h) (elim (Bool-cases (ltb (pow2 (suc k)) size)) [
      | inl more ↦
          let below = ltb→lt (pow2 (suc k)) size more in
          let next : suc k < 31 = elim (le_cases 31 (suc k)) [
            | inl far ↦ absurd (omega (arith, pow2-le 31 (suc k) far))
            | inr near ↦ near
          ] in
          rw more (Sized-suc k size _ below (grow-Sized fuel (suc k) size s next (omega arith)))
      | inr done ↦ rw done (record {
        exponent = suc k;
        result = refl;
        larger = omega arith;
        small = h;
        enough = ground arith;
        tight = inr refl;
      })
    ])

few_rows : (k size : ℕ) → size ≤ 2 ^ 29 → (pow2 k < size * 2) ⊎ (k ≡ 4) → k ≤ 29
few_rows k size h (inr e) = omega arith
few_rows k size h (inl tight) = elim (le_cases 30 k) [
  | inl many ↦ absurd (omega (arith, pow2-le 30 k many))
  | inr few ↦ omega arith
]

-- A table of `2 ^ k` empty rows.
abbrev pub empty_table : ℕ → HashTable
empty_table k = record { table = replicate (pow2 k) []; count = 0; rows = pow2 k - 1 }

get_or-replicate : (n i : ℕ) → get_or {A = List Entry} (replicate n []) i [] ≡ []
get_or-replicate zero i = refl
get_or-replicate (suc n) zero = refl
get_or-replicate (suc n) (suc i) = get_or-replicate n i

-- Such a table is valid in either mode.
pub empty_table-IsValid :
    (strnicmp_eq : List ℕ → List ℕ → Bool) (lower : Bool) (k : ℕ)
    → IsValid strnicmp_eq lower (empty_table k)
empty_table-IsValid strnicmp_eq lower k = record {
  sized =
      omega (arith, length-replicate {0} {A = List Entry} (pow2 k) [], pow2-le 0 k (omega arith));
  distinct = λ i. rw (get_or-replicate (pow2 k) i) tt;
  counted = rw (total-replicate (pow2 k));
}

sized_table_lem : (k : ℕ) → pow2 k * 4 % 2 ^ 32 / 4 ≡ pow2 k → sized_table (pow2 k) ≡ empty_table k
unfolding sized_table
sized_table_lem k h =
    ap {B = HashTable} (λ n. record { table = replicate n []; count = 0; rows = pow2 k - 1 }) h

-- For a size of at most 2 ^ 29 the loop ends within 28 rounds, and makes a valid, empty table with
-- `2 ^ k` rows: the least power of 2 that is at least `size`, and at least 16.
pub create_total :
    (strnicmp_eq : List ℕ → List ℕ → Bool) (lower : Bool) (size : ℕ)
    → size ≤ 2 ^ 29
    → (k : ℕ) × (create 28 size ≡ some (empty_table k))
      × (size ≤ 2 ^ k)
      × (2 ^ k < size * 2 ⊎ (k ≡ 4))
      × (4 ≤ k)
      × IsValid strnicmp_eq lower (empty_table k)
unfolding create
create_total strnicmp_eq lower size h =
    let r = grow-Sized 28 3 size (omega arith) (omega arith) (omega arith) in
    let k = r.exponent in
    let few : k ≤ 29 = few_rows k size h r.tight in
    let whole : pow2 k * 4 % 2 ^ 32 / 4 ≡ pow2 k = omega (arith, pow2-le k 29 few) in
    let made : create 28 size ≡ some (sized_table (pow2 k)) = rw (r.result, create) in
    (
      k,
      made ∙ ap some (sized_table_lem k whole),
      r.enough,
      r.tight,
      r.larger,
      empty_table-IsValid strnicmp_eq lower r.exponent,
    )

grow-zero : (fuel size : ℕ) → 0 < size → grow fuel 0 size ≡ none
unfolding grow
grow-zero zero size h = refl
grow-zero (suc fuel) size h = rw (lt→ltb 0 size h) (grow-zero fuel size h)

grow-none : (fuel k size : ℕ) → 2 ^ 31 < size → k ≤ 31 → grow fuel (pow2 k) size ≡ none
unfolding grow
grow-none zero k size h s = refl
grow-none (suc fuel) k size h s = elim (le_cases 31 k) [
  | inl far ↦
      let last : k ≡ 31 = omega arith in
      rw (last, lt→ltb 0 size (omega arith)) (grow-zero fuel size (omega arith))
  | inr near ↦
      let more : ltb (pow2 (suc k)) size ≡ true =
        lt→ltb (pow2 (suc k)) size (omega (arith, pow2-le (suc k) 31 near)) in
      rw (doubled_lem k near, more) (grow-none fuel (suc k) size h near)
]

-- For a size above 2 ^ 31 the loop does not end: the doubled `unsigned` wraps to 0 and stays there,
-- so no amount of fuel gives a table.
pub create_diverges : (size : ℕ) → 2 ^ 31 < size → (fuel : ℕ) → create fuel size ≡ none
unfolding create
create_diverges size h fuel = rw (grow-none fuel 3 size h (omega arith), create)
