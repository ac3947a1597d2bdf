-- ===== src/Number.antt =====
-- oslib/src/cstring.c, the numbers: `c_strltrim`, `c_strtoul`, `c_strtoul3` and `c_strtol2`. A string
-- is the list of its bytes, `char` is unsigned, and `long` has 32 bits, as on ARM. A `long` result is
-- given by its bits. The arguments are not null.
pub mod Parse
mod Tests
use zhangxy.Base.{
  ℕ, zero, suc, ◌+◌, ◌-◌, ◌*◌, ◌/◌, ◌%◌, ◌^◌, ◌≤◌, ◌<◌, min, ◌≡◌, refl, sym, ap, ap₂, ◌∙◌, ◌≢◌, ◌↔◌,
  ◌⊎◌, inl, inr, Bool, true, false, not, ◌&&◌, ◌||◌, Option, none, some, List, [], ◌∷◌, ◌++◌, map,
  append-nil, append_assoc, arith, ltb, leb, ◌==◌, bool_eq, if◌then◌else◌, ltb→lt, lt→ltb, le→ltb,
  leb→le, ==_iff, Bool-cases, Option-cases, le_cases, u32_add, u32_sub, length, get_elem?, get_or,
  set, take, drop, replicate, length-append, length-take, length-drop, length-set, length-replicate,
  take-nil, drop-nil, take_all, drop_all, take-append-drop, take-append_le, take-append_ge,
  drop-append_le, take-append_self, drop-append_self, drop-append_ge, drop-take, take-take,
  drop-drop, overwrite, length-overwrite, get_or-set_self, get_or-set_ne, set-get_or, set-set,
}
use zhangxy.Scan.Unescape.{is_xdigit, hex_digit_to_val}

abbrev pub max_ulong : ℕ
max_ulong = 4294967295

abbrev pub max_long : ℕ
max_long = 2147483647

-- The bits of `C_MINLONG`.
abbrev pub min_long : ℕ
min_long = 2147483648

-- The status with what is stored in `*value`; with EO_INVAL that does not count.
pub data Parsed : Type 0 where
  invalid : Parsed
  parsed : ℕ → Parsed
  too_big : ℕ → Parsed
  too_small : ℕ → Parsed

abbrev pub is_white : ℕ → Bool
is_white c = c == b' ' || (c == 9 || (c == 10 || (c == 13 || c == 11)))

abbrev pub is_digit : ℕ → Bool
is_digit c = leb b'0' c && leb c b'9'

-- `c_strltrim`
unfoldable pub ltrim : List ℕ → List ℕ
ltrim [] = []
ltrim (c ∷ cs) = if is_white c then ltrim cs else c ∷ cs

-- The loop of `c_strtoul`, which does not look for an overflow.
unfoldable pub strtoul_from : ℕ → List ℕ → ℕ
strtoul_from value [] = value
strtoul_from value (c ∷ cs) =
    let rest = strtoul_from ((value * 10 + (c - b'0')) % 2 ^ 32) cs in
    if not (is_digit c) then value else rest

unfoldable pub strtoul : List ℕ → ℕ
strtoul s = strtoul_from 0 s

-- One character of the loops of `c_strtoul3`: `c` is its value, `none` the overflow.
abbrev pub add_digit : ℕ → ℕ → ℕ → Option ℕ
add_digit base value c =
    if ltb (max_ulong / base) value
    then none
    else if ltb (max_ulong - value * base) c
    then none
    else some (value * base + c)

-- The loops of `c_strtoul3`, for a base up to 10 and for 16.
unfoldable pub small_digits : ℕ → ℕ → List ℕ → Parsed
small_digits base value [] = parsed value
small_digits base value (c ∷ cs) =
    let rest = small_digits base (value * base + (c - b'0')) cs in
    if ltb c b'0' || ltb (b'0' - 1 + base) c
    then parsed value
    else elim (add_digit base value (c - b'0')) [ none ↦ too_big max_ulong | some _ ↦ rest ]

unfoldable pub hex_digits : ℕ → List ℕ → Parsed
hex_digits value [] = parsed value
hex_digits value (c ∷ cs) =
    let rest = hex_digits (value * 16 + hex_digit_to_val c) cs in
    if not (is_xdigit c)
    then parsed value
    else elim (add_digit 16 value (hex_digit_to_val c)) [ none ↦ too_big max_ulong | some _ ↦ rest ]

-- The test on the first character that is no space.
abbrev pub starts_number : ℕ → List ℕ → Bool
starts_number base [] = false
starts_number base (c ∷ cs) =
    not (ltb c b'0' || (leb base 10 && ltb (b'0' - 1 + base) c || base == 16 && not (is_xdigit c)))

unfoldable pub strtoul3 : List ℕ → ℕ → Parsed
unfolding ltrim small_digits hex_digits
strtoul3 s base =
    let t = ltrim s in
    if not (starts_number base t)
    then invalid
    else if leb base 10
    then small_digits base 0 t
    else if base == 16
    then hex_digits 0 t
    else invalid

-- `c_strtol2` after the sign, on what `c_strtoul3` returned.
unfoldable pub with_sign : Bool → Parsed → Parsed
with_sign negative invalid = invalid
with_sign negative (too_big v) = if negative then too_small min_long else too_big max_long
with_sign negative (too_small v) = if negative then too_small min_long else too_big max_long
with_sign negative (parsed v) =
    if ltb max_long v && not negative
    then too_big max_long
    else if ltb (max_long + 1) v && negative
    then too_small min_long
    else parsed (if negative then (2 ^ 32 - v) % 2 ^ 32 else v)

unfoldable pub signed : List ℕ → Parsed
unfolding strtoul3 with_sign
signed [] = invalid
signed (c ∷ cs) =
    if c == b'+' || c == b'-'
    then with_sign (c == b'-') (strtoul3 cs 10)
    else with_sign false (strtoul3 (c ∷ cs) 10)

unfoldable pub strtol2 : List ℕ → Parsed
unfolding ltrim signed
strtol2 s = signed (ltrim s)
