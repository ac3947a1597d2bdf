-- ===== src/Number/Tests.antt =====
-- Numbers in small texts.
use zhangxy.Base.{ℕ, ◌≡◌, refl, false, ◌||◌, List, [], ◌∷◌, ◌==◌, if◌then◌else◌, get_or, drop}
use zhangxy.Number.{
  invalid, parsed, is_digit, ltrim, small_digits, hex_digits, strtoul3, with_sign, signed, strtol2,
}
use zhangxy.Scan.Unescape.{is_xdigit}
use zhangxy.Number.Parse.{fits_ulong, hex_number, number, unsigned_part, strtoul3_lem, strtol2_lem}

-- ` -42x`
abbrev minus_42 : List ℕ
minus_42 = b' ' ∷ b'-' ∷ b'4' ∷ b'2' ∷ b'x' ∷ []

-- `4294967296`
abbrev two_to_32 : List ℕ
two_to_32 = b'4' ∷ b'2' ∷ b'9' ∷ b'4' ∷ b'9' ∷ b'6' ∷ b'7' ∷ b'2' ∷ b'9' ∷ b'6' ∷ []

parsed_minus_42 : strtol2 minus_42 ≡ parsed 4294967254
unfolding strtol2 signed strtoul3 ltrim small_digits with_sign
parsed_minus_42 = refl

hex_ff : strtoul3 (b'f' ∷ b'F' ∷ []) 16 ≡ parsed 255
unfolding strtoul3 ltrim hex_digits
hex_ff = refl

strtoul3_lem_example :
    (strtoul3 two_to_32 10 ≡ (
      if is_digit (get_or (ltrim two_to_32) 0 0)
      then fits_ulong (number 0 (ltrim two_to_32))
      else invalid))
    × (strtoul3 two_to_32 16 ≡ (
        if is_xdigit (get_or (ltrim two_to_32) 0 0)
        then fits_ulong (hex_number 0 (ltrim two_to_32))
        else invalid))
strtoul3_lem_example = strtoul3_lem two_to_32

strtol2_lem_example : strtol2 minus_42 ≡ (
    let t = ltrim minus_42 in
    if get_or t 0 0 == b'+' || get_or t 0 0 == b'-'
    then unsigned_part (get_or t 0 0 == b'-') (drop 1 t)
    else unsigned_part false t)
strtol2_lem_example = strtol2_lem minus_42
