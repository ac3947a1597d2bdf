-- ===== src/Number/Parse.antt =====
-- What `c_strtoul3` and `c_strtol2` return, next to the number that the text stands for.
use zhangxy.Base.{
  ℕ, ◌+◌, ◌-◌, ◌*◌, ◌%◌, ◌^◌, ◌≤◌, ◌<◌, leb→le, ◌≡◌, refl, inl, inr, Bool, true, false, not, ◌||◌,
  none, some, List, [], ◌∷◌, arith, ltb, leb, ◌==◌, if◌then◌else◌, Bool-cases, get_or, drop,
}
use zhangxy.Scan.Unescape.{is_xdigit, hex_digit_to_val}
use zhangxy.Number.{
  max_ulong, max_long, min_long, Parsed, invalid, parsed, too_big, too_small, is_digit, ltrim,
  add_digit, small_digits, starts_number, strtoul3, with_sign, signed, strtol2, hex_digits,
}

-- The number that the decimal digits at the start of the text continue, without a bound.
unfoldable pub number : ℕ → List ℕ → ℕ
number value [] = value
number value (c ∷ cs) =
    let rest = number (value * 10 + (c - b'0')) cs in if is_digit c then rest else value

number-le : (value : ℕ) (cs : List ℕ) → value ≤ number value cs
unfolding number
number-le value [] = omega arith
number-le value (c ∷ cs) = ground (arith, number-le (value * 10 + (c - b'0')) cs)

-- The same for hexadecimal digits.
unfoldable pub hex_number : ℕ → List ℕ → ℕ
hex_number value [] = value
hex_number value (c ∷ cs) =
    let rest = hex_number (value * 16 + hex_digit_to_val c) cs in
    if is_xdigit c then rest else value

hex_number-le : (value : ℕ) (cs : List ℕ) → value ≤ hex_number value cs
unfolding hex_number
hex_number-le value [] = omega arith
hex_number-le value (c ∷ cs) = elim (Bool-cases (is_xdigit c)) [
  | inl digit ↦ rw digit (omega (arith, hex_number-le (value * 16 + hex_digit_to_val c) cs))
  | inr other ↦ rw other (omega arith)
]

-- A number, if it fits an `unsigned long`.
abbrev pub fits_ulong : ℕ → Parsed
fits_ulong n = if leb n max_ulong then parsed n else too_big max_ulong

small_digits_lem :
    (value : ℕ) (cs : List ℕ)
    → value ≤ max_ulong
    → small_digits 10 value cs ≡ fits_ulong (number value cs)
unfolding small_digits number
small_digits_lem value [] h = let fits : leb value max_ulong ≡ true = ground arith in rw fits
small_digits_lem value (c ∷ cs) h =
    let next = value * 10 + (c - b'0') in
    let more = number-le next cs in
    let stop_eq : (ltb c b'0' || ltb (b'0' - 1 + 10) c) ≡ not (is_digit c) = ground arith in
    elim (Bool-cases (is_digit c)) [
      | inr other ↦
          let fits : leb value max_ulong ≡ true = ground arith in rw (stop_eq, other, fits) refl
      | inl digit ↦ elim (Bool-cases (leb next max_ulong)) [
        | inl room ↦
            let add : add_digit 10 value (c - b'0') ≡ some next = ground arith in
            rw (stop_eq, digit, add) (small_digits_lem next cs (ground arith))
        | inr over ↦
            let add : add_digit 10 value (c - b'0') ≡ none = ground arith in
            let big : leb (number next cs) max_ulong ≡ false = ground arith in
            rw (stop_eq, digit, add, big) refl
      ]
    ]

add_hex_digit :
    (value d : ℕ)
    → d < 16
    → add_digit 16 value d
      ≡ (if leb (value * 16 + d) max_ulong then some (value * 16 + d) else none)
add_hex_digit value d h = elim (Bool-cases (leb (value * 16 + d) max_ulong)) [
  | inl room ↦ rw room (ground arith)
  | inr over ↦ rw over (ground arith)
]

hex_digit_small : (c : ℕ) → hex_digit_to_val c < 16
hex_digit_small c = ground arith

hex_digits_lem :
    (value : ℕ) (cs : List ℕ)
    → value ≤ max_ulong
    → hex_digits value cs ≡ fits_ulong (hex_number value cs)
unfolding hex_digits hex_number
hex_digits_lem value [] h = let fits : leb value max_ulong ≡ true = ground arith in rw fits
hex_digits_lem value (c ∷ cs) h =
    let next = value * 16 + hex_digit_to_val c in
    let more = hex_number-le next cs in
    let add = add_hex_digit value (hex_digit_to_val c) (hex_digit_small c) in
    elim (Bool-cases (is_xdigit c)) [
      | inr other ↦ let fits : leb value max_ulong ≡ true = ground arith in rw (other, fits) refl
      | inl digit ↦ elim (Bool-cases (leb next max_ulong)) [
        | inl room ↦ rw (digit, add, room) (hex_digits_lem next cs (leb→le next max_ulong room))
        | inr over ↦
            let big : leb (hex_number next cs) max_ulong ≡ false = ground (arith, more, over) in
            rw (digit, add, over, big) refl
      ]
    ]

starts_decimal : (t : List ℕ) → starts_number 10 t ≡ is_digit (get_or t 0 0)
starts_decimal [] = refl
starts_decimal (c ∷ cs) = ground arith

starts_hex : (t : List ℕ) → starts_number 16 t ≡ is_xdigit (get_or t 0 0)
starts_hex [] = refl
starts_hex (c ∷ cs) = ground arith

strtoul3_decimal :
    (s : List ℕ)
    → strtoul3 s 10
      ≡ (if is_digit (get_or (ltrim s) 0 0) then fits_ulong (number 0 (ltrim s)) else invalid)
unfolding strtoul3
strtoul3_decimal s = elim (Bool-cases (is_digit (get_or (ltrim s) 0 0))) [
  | inl digit ↦ rw (starts_decimal (ltrim s), digit) (small_digits_lem 0 (ltrim s) (omega arith))
  | inr other ↦ rw (starts_decimal (ltrim s), other) refl
]

strtoul3_hex :
    (s : List ℕ)
    → strtoul3 s 16
      ≡ (if is_xdigit (get_or (ltrim s) 0 0) then fits_ulong (hex_number 0 (ltrim s)) else invalid)
unfolding strtoul3
strtoul3_hex s = elim (Bool-cases (is_xdigit (get_or (ltrim s) 0 0))) [
  | inl digit ↦ rw (starts_hex (ltrim s), digit) (hex_digits_lem 0 (ltrim s) (omega arith))
  | inr other ↦ rw (starts_hex (ltrim s), other) refl
]

-- `c_strtoul3` in the bases 10 and 16 skips white space, refuses what does not begin with a digit of
-- the base then, and else returns the number of all such digits up to the next other byte, or
-- EO_TOOBIG exactly if that is more than an `unsigned long` holds.
pub strtoul3_lem :
    (s : List ℕ)
    → (strtoul3 s 10
        ≡ (if is_digit (get_or (ltrim s) 0 0) then fits_ulong (number 0 (ltrim s)) else invalid))
      × (strtoul3 s 16 ≡ (
          if is_xdigit (get_or (ltrim s) 0 0)
          then fits_ulong (hex_number 0 (ltrim s))
          else invalid))
strtoul3_lem s = (strtoul3_decimal s, strtoul3_hex s)

-- A signed number, if it fits a `long`.
abbrev pub fits_long : Bool → ℕ → Parsed
fits_long negative n =
    if negative
    then (if leb n (max_long + 1) then parsed ((2 ^ 32 - n) % 2 ^ 32) else too_small min_long)
    else if leb n max_long
    then parsed n
    else too_big max_long

with_sign-fits_ulong :
    (negative : Bool) (n : ℕ) → with_sign negative (fits_ulong n) ≡ fits_long negative n
unfolding with_sign
with_sign-fits_ulong true n = elim (Bool-cases (leb n max_ulong)) [
  | inl fits ↦ rw fits (ground arith)
  | inr over ↦ let far : leb n (max_long + 1) ≡ false = ground arith in rw (over, far) refl
]
with_sign-fits_ulong false n = elim (Bool-cases (leb n max_ulong)) [
  | inl fits ↦ rw fits (ground arith)
  | inr over ↦ let far : leb n max_long ≡ false = ground arith in rw (over, far) refl
]

-- What the text behind the sign stands for.
abbrev pub unsigned_part : Bool → List ℕ → Parsed
unsigned_part negative u =
    if is_digit (get_or (ltrim u) 0 0) then fits_long negative (number 0 (ltrim u)) else invalid

with_sign-strtoul3 :
    (negative : Bool) (u : List ℕ) → with_sign negative (strtoul3 u 10) ≡ unsigned_part negative u
unfolding with_sign
with_sign-strtoul3 negative u = elim (Bool-cases (is_digit (get_or (ltrim u) 0 0))) [
  | inl digit ↦ rw (strtoul3_decimal u, digit) (with_sign-fits_ulong negative (number 0 (ltrim u)))
  | inr other ↦ rw (strtoul3_decimal u, other) refl
]

signed_lem :
    (t : List ℕ)
    → signed t ≡ (
        if get_or t 0 0 == b'+' || get_or t 0 0 == b'-'
        then unsigned_part (get_or t 0 0 == b'-') (drop 1 t)
        else unsigned_part false t)
unfolding signed ltrim
signed_lem [] = refl
signed_lem (c ∷ cs) = elim (Bool-cases (c == b'+' || c == b'-')) [
  | inl sign ↦ rw sign (with_sign-strtoul3 (c == b'-') cs)
  | inr plain ↦ rw plain (with_sign-strtoul3 false (c ∷ cs))
]

-- `c_strtol2` skips white space, takes one sign, and skips white space again. Then it refuses what
-- does not begin with a digit, and else returns the signed number of the decimal digits, or exactly
-- if that does not fit a `long` the nearest `long` with EO_TOOBIG or EO_TOOSMALL.
pub strtol2_lem :
    (s : List ℕ)
    → strtol2 s ≡ (
        let t = ltrim s in
        if get_or t 0 0 == b'+' || get_or t 0 0 == b'-'
        then unsigned_part (get_or t 0 0 == b'-') (drop 1 t)
        else unsigned_part false t)
unfolding strtol2
strtol2_lem s = signed_lem (ltrim s)
