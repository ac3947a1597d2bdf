-- ===== src/Scan/Unescape.antt =====
-- `scan_get_unescape`: a token in which `%` and two hexadecimal digits stand for a byte. It decodes
-- in place: `dst` runs behind `s` in the same buffer.
use zhangxy.Base.{
  ℕ, zero, suc, ◌+◌, ◌-◌, ◌*◌, ◌%◌, ◌^◌, ◌≡◌, refl, Bool, true, false, not, ◌&&◌, ◌||◌, Option,
  none, some, arith, leb, ◌==◌, if◌then◌else◌, ==_iff, set, take, drop, overwrite,
}
use zhangxy.Scan.{Scanner, Str, end_of, byte_at, skip_while, str_to, after_token, is_probably_space}

-- `c_isxdigit` and `c_hex_digit_to_val`
abbrev pub is_xdigit : ℕ → Bool
is_xdigit c = leb b'0' c && leb c b'9' || leb b'A' c && leb c b'F' || leb b'a' c && leb c b'f'

abbrev pub hex_digit_to_val : ℕ → ℕ
hex_digit_to_val c =
    if leb c b'9'
    then (c + 2 ^ 32 - b'0') % 16
    else if leb c b'F'
    then (c + 2 ^ 32 - b'A' + 10) % 16
    else (c + 2 ^ 32 - b'a' + 10) % 16

-- The two pointers, and the scanner, for its text.
pub record Cursor : Type 0 where
  pub sc : Scanner
  pub src : ℕ
  pub dst : ℕ

abbrev pub put_byte : Scanner → ℕ → ℕ → Scanner
put_byte sc i c = record sc { text = set sc.text i c }

abbrev pub at_escape : Cursor → Bool
at_escape cur =
    leb (cur.src + 3) (end_of cur.sc)
    && is_xdigit (byte_at cur.sc (cur.src + 1))
    && is_xdigit (byte_at cur.sc (cur.src + 2))

abbrev pub take_escape : Cursor → Cursor
take_escape cur =
    let value =
      (hex_digit_to_val (byte_at cur.sc (cur.src + 1)) * 16
        + hex_digit_to_val (byte_at cur.sc (cur.src + 2)))
      % 256 in
    record { sc = put_byte cur.sc cur.dst value; src = cur.src + 3; dst = cur.dst + 1 }

-- `*dst++ = *s++; *dst++ = *s++;`
abbrev pub copy_two : Cursor → Cursor
copy_two cur =
    let sc1 = put_byte cur.sc cur.dst (byte_at cur.sc cur.src) in
    record {
      sc = put_byte sc1 (cur.dst + 1) (byte_at sc1 (cur.src + 1));
      src = cur.src + 2;
      dst = cur.dst + 2;
    }

-- The inner loop, and the `memmove` of what it found.
abbrev pub take_run : (ℕ → Bool) → Cursor → Cursor
take_run spec cur =
    let s = skip_while spec cur.sc cur.src in
    let run = take (s - cur.src) (drop cur.src cur.sc.text) in
    let text = if cur.dst == cur.src then cur.sc.text else overwrite cur.sc.text cur.dst run in
    record { sc = record cur.sc { text = text }; src = s; dst = cur.dst + (s - cur.src) }

-- The `do … while (*s == '%')`; `none` when the fuel runs out.
unfoldable pub unescape : ℕ → (ℕ → Bool) → Cursor → Option Cursor
unescape zero spec cur = none
unescape (suc fuel) spec cur =
    let percent = byte_at cur.sc cur.src == b'%' in
    let cur1 = take_run spec (if percent then take_escape cur else cur) in
    let again = unescape fuel spec cur1 in
    if percent && not (at_escape cur)
    then some (copy_two cur)
    else if byte_at cur1.sc cur1.src == b'%'
    then again
    else some cur1

-- The outer option is the fuel, the inner one the reported error.
unfoldable pub get_unescape : ℕ → Scanner → (ℕ → Bool) → Option (Option (Str × Scanner))
unfolding unescape
get_unescape fuel sc spec =
    if not (spec (byte_at sc sc.curptr)) && not (byte_at sc sc.curptr == b'%')
    then some none
    else elim (unescape fuel spec (record { sc = sc; src = sc.curptr; dst = sc.curptr })) [
      | none ↦ none
      | some cur ↦
          some (some (str_to sc.curptr cur.dst, after_token (record cur.sc { curptr = cur.src })))
    ]

unescape_bad :
    (fuel : ℕ) (spec : ℕ → Bool) (cur : Cursor)
    → (byte_at cur.sc cur.src == b'%') ≡ true
    → at_escape cur ≡ false
    → unescape (suc fuel) spec cur ≡ some (copy_two cur)
unfolding unescape
unescape_bad fuel spec cur h k = rw (h, k)

-- At a `%` that is the last byte of the buffer the two bytes that are copied are the `%` and the NUL
-- behind the end: the token has length 2, and the scanner stands behind the end of its buffer.
pub unescape_past_end :
    (fuel : ℕ) (sc : Scanner) (spec : ℕ → Bool)
    → sc.curptr + 1 ≡ end_of sc
    → byte_at sc sc.curptr ≡ b'%'
    → sc.skip_ws ≡ 0
    → (sc' : Scanner) × (get_unescape (suc fuel) sc spec
        ≡ some (some (record { ptr = sc.curptr; slen = 2 }, sc')))
      × (sc'.curptr ≡ end_of sc + 1)
unfolding get_unescape after_token
unescape_past_end fuel sc spec last percent plain =
    let cur : Cursor = record { sc = sc; src = sc.curptr; dst = sc.curptr } in
    let is_percent : (byte_at sc sc.curptr == b'%') ≡ true =
      (==_iff (byte_at sc sc.curptr) b'%').1 percent in
    let short : at_escape cur ≡ false = ground arith in
    let two : sc.curptr + 2 - sc.curptr ≡ 2 = omega arith in
    let after = record (copy_two cur).sc { curptr = sc.curptr + 2 } in
    let off : is_probably_space (byte_at after after.curptr) && not (sc.skip_ws == 0) ≡ false =
      ground arith in
    let hit : not (spec (byte_at sc sc.curptr)) && not (byte_at sc sc.curptr == b'%') ≡ false =
      ground arith in
    (after, rw (hit, unescape_bad fuel spec cur is_percent short, off, two) refl, omega arith)
