-- ===== src/Text/Print.antt =====
-- Printing a number, and parsing it back.
use zhangxy.Base.{
  ℕ, zero, suc, ◌+◌, ◌-◌, ◌*◌, ◌/◌, ◌%◌, ◌^◌, ◌<◌, ◌≡◌, refl, sym, ap, ◌∙◌, inl, inr, true, List,
  [], ◌∷◌, ◌++◌, append-nil, append_assoc, arith, ltb, ltb→lt, Bool-cases, length, replicate,
  length-append,
}
use zhangxy.Number.{is_digit, strtoul, strtoul_from}
use zhangxy.Text.{digits, utoa_pad}
use zhangxy.Text.Swap.{rev, length-rev, swap_loop-rev}

-- Every byte is a decimal digit.
abbrev pub AllDigits : List ℕ → Type 0
AllDigits [] = Unit
AllDigits (c ∷ cs) = (is_digit c ≡ true) × AllDigits cs

AllDigits-append : (xs ys : List ℕ) → AllDigits xs → AllDigits ys → AllDigits (xs ++ ys)
AllDigits-append [] ys p q = q
AllDigits-append (x ∷ xs) ys (d, p) q = (d, AllDigits-append xs ys p q)

AllDigits-rev : (xs : List ℕ) → AllDigits xs → AllDigits (rev xs)
AllDigits-rev [] p = record {}
AllDigits-rev (x ∷ xs) (d, p) =
    AllDigits-append (rev xs) (x ∷ []) (AllDigits-rev xs p) (d, record {})

digit_of : (v : ℕ) → (is_digit (v % 10 + 48) ≡ true) × (v % 10 + 48 - 48 ≡ v % 10)
digit_of v = (ground arith, omega arith)

-- The last digit counts as itself, the ones in front of it ten times.
strtoul_from-snoc :
    (value : ℕ) (xs : List ℕ) (c : ℕ)
    → AllDigits xs
    → is_digit c ≡ true
    → strtoul_from value (xs ++ c ∷ []) ≡ (strtoul_from value xs * 10 + (c - 48)) % 2 ^ 32
unfolding strtoul_from
strtoul_from-snoc value [] c p d = rw d refl
strtoul_from-snoc value (x ∷ xs) c (e, p) d =
    rw e (strtoul_from-snoc ((value * 10 + (x - 48)) % 2 ^ 32) xs c p d)

-- What the first loop leaves, last digit first.
digits_lem :
    (fuel val : ℕ)
    → val < fuel
    → val < 2 ^ 32
    → AllDigits (digits fuel val)
      × (0 < length (digits fuel val))
      × (strtoul_from 0 (rev (digits fuel val)) ≡ val)
unfolding digits
digits_lem zero val h b = absurd (omega arith)
digits_lem (suc fuel) val h b = elim (Bool-cases (ltb 0 (val / 10))) [
  | inl more ↦
      let large : 0 < val / 10 = ltb→lt 0 (val / 10) more in
      let (all, some_digits, value) = digits_lem fuel (val / 10) (omega arith) (omega arith) in
      let (d, back) = digit_of val in
      rw more (
        (d, all),
        omega arith,
        strtoul_from-snoc 0 (rev (digits fuel (val / 10))) (val % 10 + 48)
              (AllDigits-rev (digits fuel (val / 10)) all) d
            ∙ rw (value, back) (omega arith),
      )
  | inr done ↦
      let (d, back) = digit_of val in
      let small : val < 10 = ground (arith, done) in
      rw done (
        (d, record {}),
        omega arith,
        strtoul_from-snoc 0 [] (val % 10 + 48) (record {}) d
            ∙ unfold strtoul_from in rw back (omega arith),
      )
]

rev-append : (xs ys : List ℕ) → rev (xs ++ ys) ≡ rev ys ++ rev xs
rev-append [] ys = sym (append-nil (rev ys))
rev-append (x ∷ xs) ys =
    ap (λ zs. zs ++ x ∷ []) (rev-append xs ys) ∙ append_assoc (rev ys) (rev xs) (x ∷ [])

replicate_back : (n c : ℕ) → replicate n c ++ c ∷ [] ≡ c ∷ replicate n c
replicate_back zero c = refl
replicate_back (suc n) c = ap (λ zs. c ∷ zs) (replicate_back n c)

rev-replicate : (n c : ℕ) → rev (replicate n c) ≡ replicate n c
rev-replicate zero c = refl
rev-replicate (suc n) c = ap (λ zs. zs ++ c ∷ []) (rev-replicate n c) ∙ replicate_back n c

-- Zeros in front do not count.
strtoul_from-zeros :
    (n : ℕ) (xs : List ℕ) → strtoul_from 0 (replicate n 48 ++ xs) ≡ strtoul_from 0 xs
unfolding strtoul_from
strtoul_from-zeros zero xs = refl
strtoul_from-zeros (suc n) xs = strtoul_from-zeros n xs

-- `c_utoa_pad` writes the digits of the number, the first one first, behind as many padding bytes as
-- there are missing to `min_dig`.
pub utoa_pad_lem :
    (val min_dig pad : ℕ)
    → val < 2 ^ 32
    → (ds : List ℕ) × (utoa_pad val min_dig pad ≡ replicate (min_dig - length ds) pad ++ ds)
      × AllDigits ds
      × (0 < length ds)
      × (strtoul ds ≡ val)
unfolding utoa_pad strtoul
utoa_pad_lem val min_dig pad b =
    let (all, some_digits, value) = digits_lem (val + 1) val (omega arith) b in
    let ds = digits (val + 1) val in
    let pads = replicate (min_dig - length ds) pad in
    let size : length (rev ds) ≡ length ds = length-rev ds in
    (
      rev ds,
      swap_loop-rev (ds ++ pads) (omega (arith, length-append ds pads))
          ∙ rev-append ds pads
          ∙ rw size (ap (λ zs. zs ++ rev ds) (rev-replicate (min_dig - length ds) pad)),
      AllDigits-rev ds all,
      omega (arith, size),
      value,
    )

-- A number of 32 bits that `c_utoa_pad` prints, padded with zeros to any width, is the one that
-- `c_strtoul` parses.
pub strtoul-utoa_pad : (val min_dig : ℕ) → val < 2 ^ 32 → strtoul (utoa_pad val min_dig 48) ≡ val
unfolding strtoul
strtoul-utoa_pad val min_dig b =
    let (ds, bytes, all, some_digits, value) = utoa_pad_lem val min_dig 48 b in
    rw bytes (strtoul_from-zeros (min_dig - length ds) ds ∙ value)
