-- ===== src/Text.antt =====
-- oslib/src/cstring.c, the strings apart from the parsers of numbers: spans and tokens, trimming and
-- the printing of numbers. A string is the list of its bytes; a part of it is given by its place.
pub mod Span
pub mod Swap
pub mod Print
pub mod Compare
pub mod Caseless
mod Tests
use zhangxy.Base.{
  ℕ, zero, suc, ◌+◌, ◌-◌, ◌*◌, ◌/◌, ◌%◌, ◌^◌, ◌≤◌, ◌<◌, min, ◌≡◌, refl, sym, ap, ap₂, ◌∙◌, ◌≢◌, ◌↔◌,
  ◌⊎◌, inl, inr, Bool, true, false, not, ◌&&◌, ◌||◌, Option, none, some, List, [], ◌∷◌, ◌++◌, map,
  append-nil, append_assoc, arith, ltb, leb, ◌==◌, bool_eq, if◌then◌else◌, ltb→lt, lt→ltb, le→ltb,
  leb→le, ==_iff, Bool-cases, Option-cases, le_cases, u32_add, u32_sub, length, get_elem?, get_or,
  set, take, drop, replicate, length-append, length-take, length-drop, length-set, length-replicate,
  take-nil, drop-nil, take_all, drop_all, take-append-drop, take-append_le, take-append_ge,
  drop-append_le, take-append_self, drop-append_self, drop-append_ge, drop-take, take-take,
  drop-drop, overwrite, length-overwrite, get_or-set_self, get_or-set_ne, set-get_or, set-set,
  NotIn, Nodup, get_or-set,
}
use zhangxy.Number.{is_white, ltrim, strtoul}

-- The inner loop of `c_strspn`: each byte of the set that is the character counts.
unfoldable pub count_in : List ℕ → ℕ → ℕ
count_in [] c = 0
count_in (s ∷ ss) c = if c == s then count_in ss c + 1 else count_in ss c

-- `c_strspn` and `c_strspn2`, from place `i` on.
unfoldable pub span_from : List ℕ → ℕ → ℕ → List ℕ → ℕ
unfolding count_in
span_from [] i count set_char = count
span_from (c ∷ cs) i count set_char =
    let rest = span_from cs (i + 1) (count + count_in set_char c) set_char in
    if count == i then rest else count

unfoldable pub strspn : List ℕ → List ℕ → ℕ
unfolding span_from
strspn str set_char = span_from str 0 0 set_char

-- `c_strcspn` and `c_strcspn2`, whose inner loop stops at the first match.
unfoldable pub is_in : List ℕ → ℕ → Bool
is_in [] c = false
is_in (s ∷ ss) c = if c == s then true else is_in ss c

unfoldable pub strcspn : List ℕ → List ℕ → ℕ
unfolding is_in
strcspn [] set_char = 0
strcspn (c ∷ cs) set_char =
    let rest = strcspn cs set_char in if is_in set_char c then 0 else rest + 1

-- `c_strtok` and `c_strtok2`: the result, and `tok`.
unfoldable pub strtok : List ℕ → List ℕ → ℕ → ℕ × List ℕ
unfolding strspn strcspn
strtok str delim start =
    if length str == 0 || ltb (length str) start
    then (length str, [])
    else let tok = drop start str in
      let skip = strspn tok delim in
      if start + skip == length str
      then (length str, tok)
      else let tok' = drop skip tok in (start + skip, take (strcspn tok' delim) tok')

-- `c_strrtrim`, whose pointer starts behind the last byte.
unfoldable pub trimmed_length : List ℕ → ℕ → ℕ
trimmed_length str zero = 0
trimmed_length str (suc n) =
    let rest = trimmed_length str n in if is_white (get_or str n 0) then rest else suc n

unfoldable pub rtrim : List ℕ → List ℕ
unfolding trimmed_length
rtrim str = take (trimmed_length str (length str)) str

-- `c_strtrim`
pub trim : List ℕ → List ℕ
unfolding rtrim ltrim
trim str = rtrim (ltrim str)

-- `c_strtol`; the result is given by its bits.
pub strtol : List ℕ → ℕ
strtol [] = strtoul []
strtol (c ∷ cs) =
    if c == b'-'
    then (2 ^ 32 - strtoul cs) % 2 ^ 32
    else if c == b'+'
    then strtoul cs
    else strtoul (c ∷ cs)

-- The first loop of `c_utoa_pad`: the digits, the last one first. `fuel` is more than `val`.
unfoldable pub digits : ℕ → ℕ → List ℕ
digits zero val = []
digits (suc fuel) val =
    let rest = digits fuel (val / 10) in (val % 10 + b'0') ∷ (if ltb 0 (val / 10) then rest else [])

-- Its last loop, which exchanges the bytes at both ends.
unfoldable pub swap : List ℕ → ℕ → ℕ → List ℕ
swap buf i j = set (set buf j (get_or buf i 0)) i (get_or buf j 0)

unfoldable pub swap_loop : ℕ → List ℕ → ℕ → ℕ → List ℕ
unfolding swap
swap_loop zero buf i j = swap buf i j
swap_loop (suc fuel) buf i j =
    let again = swap_loop fuel (swap buf i j) (i + 1) (j - 1) in
    if ltb (i + 1) (j - 1) then again else swap buf i j

-- `c_utoa_pad`: the bytes in front of the NUL, as many as its result.
unfoldable pub utoa_pad : ℕ → ℕ → ℕ → List ℕ
unfolding digits swap_loop
utoa_pad val min_dig pad =
    let ds = digits (val + 1) val in
    let buf = ds ++ replicate (min_dig - length ds) pad in
    swap_loop (length buf) buf 0 (length buf - 1)

-- `c_utoa`
unfoldable pub utoa : ℕ → List ℕ
unfolding utoa_pad
utoa val = utoa_pad val 0 0
