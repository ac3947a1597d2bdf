-- ===== src/Cis/Init.antt =====
-- The allocation of a set's number, and the copy of a set.
use zhangxy.Base.{
  ℕ, zero, suc, ◌+◌, ◌≤◌, ◌<◌, ◌≡◌, refl, ap, ◌≢◌, ◌↔◌, inl, inr, true, false, ◌||◌, Option, none,
  some, arith, ◌==◌, if◌then◌else◌, Bool-cases, Option-cases, le_cases, length,
}
use zhangxy.Cis.{
  CisBuf, bit_at, set_bit, cis_is_set, find_free, copy_one, for_each, range_from, cis_init, cis_dup,
}
use zhangxy.Cis.Bits.{bit_at-set_bit}
use zhangxy.Cis.Each.{is_set-for_each, copy_one-IsLocal}
use mathlib.Core.Path.{subst}

-- What the search from `i` on over `left` numbers finds.
Finds : ℕ → ℕ → ℕ → Option ℕ → Type 0
Finds left i mask none = (j : ℕ) → i ≤ j → j < i + left → bit_at mask j ≡ true
Finds left i mask (some id) =
    (i ≤ id)
    × (id < i + left)
    × (bit_at mask id ≡ false)
    × ((j : ℕ) → i ≤ j → j < id → bit_at mask j ≡ true)

-- One number more in front of the search.
Finds-later :
    (left i mask : ℕ) (out : Option ℕ)
    → bit_at mask i ≡ true
    → Finds left (i + 1) mask out
    → Finds (suc left) i mask out
unfolding Finds
Finds-later left i mask none t h = λ j a b. elim (le_cases j i) [
  | inl below ↦ let e : j ≡ i = omega arith in rw e t
  | inr above ↦ h j (omega arith) (omega arith)
]
Finds-later left i mask (some id) t (a, b, c, d) = (
  omega arith,
  omega arith,
  c,
  λ j p q. elim (le_cases j i) [
    | inl below ↦ let e : j ≡ i = omega arith in rw e t
    | inr above ↦ d j (omega arith) q
  ],
)

find_free-Finds : (left i mask : ℕ) → Finds left i mask (find_free left i mask)
unfolding find_free Finds
find_free-Finds zero i mask = λ j a b. absurd (omega arith)
find_free-Finds (suc left) i mask = elim (Bool-cases (bit_at mask i)) [
  | inr free ↦ rw free (omega arith, omega arith, free, λ j a b. absurd (omega arith))
  | inl taken ↦ rw taken (
      Finds-later left i mask (find_free left (i + 1) mask) taken
        (find_free-Finds left (i + 1) mask))
]

found_none :
    (left i mask : ℕ)
    → find_free left i mask ≡ none
    → (j : ℕ) → i ≤ j
    → j < i + left
    → bit_at mask j ≡ true
unfolding Finds
found_none left i mask e = subst (Finds left i mask) e (find_free-Finds left i mask)

found_some :
    (left i mask id : ℕ)
    → find_free left i mask ≡ some id
    → (i ≤ id)
      × (id < i + left)
      × (bit_at mask id ≡ false)
      × ((j : ℕ) → i ≤ j → j < id → bit_at mask j ≡ true)
unfolding Finds
found_some left i mask id e = subst (Finds left i mask) e (find_free-Finds left i mask)

abbrev mark : CisBuf → ℕ → CisBuf
mark b id = record b { use_mask = set_bit b.use_mask id }

cis_init-none : (b : CisBuf) → find_free 32 0 b.use_mask ≡ none → cis_init b ≡ (b, none)
unfolding cis_init
cis_init-none b e = rw (e, cis_init)

cis_init-some :
    (b : CisBuf) (id : ℕ) → find_free 32 0 b.use_mask ≡ some id → cis_init b ≡ (mark b id, some id)
unfolding cis_init
cis_init-some b id e = rw (e, cis_init)

-- A success comes from the search.
cis_init_found :
    (b : CisBuf) (id : ℕ) → (cis_init b).1 ≡ some id → find_free 32 0 b.use_mask ≡ some id
cis_init_found b id h = elim (Option-cases (find_free 32 0 b.use_mask)) [
  | inl e ↦ let failed = cis_init-none b e in cc
  | inr (id', e) ↦ let made = cis_init-some b id' e in cc
]

-- `cis_init` gives the lowest number that is not in use, marks this number and no other as used, and
-- leaves the cells alone.
pub cis_init_lem :
    (b : CisBuf) (id : ℕ)
    → (cis_init b).1 ≡ some id
    → (id < 32)
      × (bit_at b.use_mask id ≡ false)
      × ((j : ℕ) → j < id → bit_at b.use_mask j ≡ true)
      × ((j : ℕ) → bit_at (cis_init b).0.use_mask j ≡ (j == id || bit_at b.use_mask j))
      × ((cis_init b).0.cells ≡ b.cells)
cis_init_lem b id h =
    let e = cis_init_found b id h in
    let (a, inside, free, lower) = found_some 32 0 b.use_mask id e in
    rw (cis_init-some b id e) (
      inside,
      free,
      λ j p. lower j (omega arith) p,
      λ j. ground (arith, bit_at-set_bit b.use_mask id j),
      refl,
    )

-- `cis_init` fails, and then changes nothing, exactly if all 32 numbers are in use.
pub cis_init_full :
    (b : CisBuf)
    → (((cis_init b).1 ≡ none) ↔ ((j : ℕ) → j < 32 → bit_at b.use_mask j ≡ true))
      × ((cis_init b).1 ≡ none → (cis_init b).0 ≡ b)
cis_init_full b = elim (Option-cases (find_free 32 0 b.use_mask)) [
  | inl e ↦
      let failed = cis_init-none b e in
      rw failed ((λ _ j p. found_none 32 0 b.use_mask e j (omega arith) p, λ _. refl), λ _. refl)
  | inr (id, e) ↦
      let made = cis_init-some b id e in
      let (a, inside, free, lower) = found_some 32 0 b.use_mask id e in
      rw made ((λ h. cc, λ all. let used = all id inside in cc), λ h. cc)
]

dup_none : (b : CisBuf) (existing : ℕ) → (cis_init b).1 ≡ none → (cis_dup b existing).1 ≡ none
unfolding cis_dup
dup_none b existing e = rw (e, cis_dup)

dup_some :
    (b : CisBuf) (existing id : ℕ)
    → cis_init b ≡ (mark b id, some id)
    → cis_dup b existing ≡ (for_each (copy_one id existing) (mark b id) (range_from 0 256), some id)
unfolding cis_dup
dup_some b existing id e = rw (e, cis_dup) (rw e)

dup_found :
    (b : CisBuf) (existing id : ℕ)
    → (cis_dup b existing).1 ≡ some id
    → find_free 32 0 b.use_mask ≡ some id
dup_found b existing id h = elim (Option-cases (find_free 32 0 b.use_mask)) [
  | inl e ↦
      let failed = dup_none b existing (ap (λ (p : CisBuf × Option ℕ). p.1) (cis_init-none b e)) in
      cc
  | inr (id', e) ↦ let made = dup_some b existing id' (cis_init-some b id' e) in cc
]

-- `cis_is_set` does not look at the numbers in use.
is_set-mark : (b : CisBuf) (id id' c : ℕ) → cis_is_set (mark b id) id' c ≡ cis_is_set b id' c
unfolding cis_is_set
is_set-mark b id id' c = refl

copied :
    (b : CisBuf) (existing id id' c : ℕ)
    → length b.cells ≡ 256
    → c < 256
    → cis_is_set (for_each (copy_one id existing) (mark b id) (range_from 0 256)) id' c
      ≡ (if id' == id then cis_is_set b existing c else cis_is_set b id' c)
copied b existing id id' c sized k = ground (
  arith,
  is_set-for_each id existing (λ x y. y) (copy_one id existing) (copy_one-IsLocal id existing) 256 0
      (mark b id) id' c (omega arith),
  is_set-mark b id existing c,
  is_set-mark b id id' c,
)

-- A copy that succeeds has a new number, the characters of the set that it is of, and leaves every
-- other set alone, if the array has its 256 cells and the copied set is in use.
pub cis_dup_lem :
    (b : CisBuf) (existing id : ℕ)
    → length b.cells ≡ 256
    → bit_at b.use_mask existing ≡ true
    → (cis_dup b existing).1 ≡ some id
    → (id ≢ existing)
      × ((id' c : ℕ)
          → c < 256
          → cis_is_set (cis_dup b existing).0 id' c
            ≡ (if id' == id then cis_is_set b existing c else cis_is_set b id' c))
cis_dup_lem b existing id sized used h =
    let e = dup_found b existing id h in
    let (a, inside, free, lower) = found_some 32 0 b.use_mask id e in
    rw (dup_some b existing id (cis_init-some b id e)) (
      λ same. let taken = ap (bit_at b.use_mask) same in cc,
      λ id' c k. copied b existing id id' c sized k,
    )
