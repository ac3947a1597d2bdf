-- ===== src/Scan.antt =====
-- oslib/src/scanner.c, the scanner. A pointer into the buffer is its offset, and `text` is the
-- buffer, which the caller ends with a NUL: a byte at or behind the end reads as 0. A loop over
-- characters that stops at that NUL is a recursion over the bytes that are left. `char` is unsigned,
-- as on ARM; a set of characters (`spec`) is its membership test, `cis_match`. The error callback
-- returns to the caller: a call that reports an error gives `none`. `scan_get_unescape` and
-- `scan_get_quotes` stand in children of their own.
pub mod Spans
pub mod Newlines
pub mod Tokens
pub mod Bounds
pub mod Lines
pub mod Header
pub mod Unescape
pub mod Decode
pub mod Quotes
mod Tests
use zhangxy.Base.{
  ℕ, zero, suc, ◌+◌, ◌-◌, ◌*◌, ◌/◌, ◌%◌, ◌^◌, ◌≤◌, ◌<◌, min, ◌≡◌, refl, sym, ap, ap₂, ◌∙◌, ◌≢◌, ◌↔◌,
  ◌⊎◌, inl, inr, Bool, true, false, not, ◌&&◌, ◌||◌, Option, none, some, List, [], ◌∷◌, ◌++◌, map,
  append-nil, append_assoc, arith, ltb, leb, ◌==◌, bool_eq, if◌then◌else◌, ltb→lt, lt→ltb, le→ltb,
  leb→le, ==_iff, Bool-cases, Option-cases, le_cases, u32_add, u32_sub, length, get_elem?, get_or,
  set, take, drop, replicate, length-append, length-take, length-drop, length-set, length-replicate,
  take-nil, drop-nil, take_all, drop_all, take-append-drop, take-append_le, take-append_ge,
  drop-append_le, take-append_self, drop-append_self, drop-append_ge, drop-take, take-take,
  drop-drop, overwrite, length-overwrite, get_or-set_self, get_or-set_ne, set-get_or, set-set,
}

pub record Scanner : Type 0 where
  pub text : List ℕ
  pub curptr : ℕ
  pub line : ℕ
  pub start_line : ℕ
  pub skip_ws : ℕ

-- `str_t`
pub record Str : Type 0 where
  pub ptr : ℕ
  pub slen : ℕ

-- The bytes that a `str_t` stands for.
abbrev pub bytes_of : List ℕ → Str → List ℕ
bytes_of text str = take str.slen (drop str.ptr text)

abbrev pub end_of : Scanner → ℕ
end_of sc = length sc.text

abbrev pub byte_at : Scanner → ℕ → ℕ
byte_at sc i = get_or sc.text i 0

abbrev pub is_space : ℕ → Bool
is_space c = c == b' ' || c == b'\t'

abbrev pub is_newline : ℕ → Bool
is_newline c = c == b'\r' || c == b'\n'

abbrev pub is_probably_space : ℕ → Bool
is_probably_space c = leb c 32

-- The tests of the bits of `skip_ws`.
abbrev pub autoskip_newline : ℕ → Bool
autoskip_newline flags = flags / 4 % 2 == 1

abbrev pub autoskip_header : ℕ → Bool
autoskip_header flags = flags % 4 == 3

-- `while (p(*s)) ++s`, over the bytes from `s` on: the number of steps.
unfoldable pub run_while : (ℕ → Bool) → List ℕ → ℕ
run_while p [] = 0
run_while p (c ∷ cs) = let more = suc (run_while p cs) in if p c then more else 0

abbrev pub skip_while : (ℕ → Bool) → Scanner → ℕ → ℕ
skip_while p sc s = s + run_while p (drop s sc.text)

-- Where the newline loop stands: `s` and the fields that it writes.
pub record LineState : Type 0 where
  pub at : ℕ
  pub cur : ℕ
  pub lines : ℕ
  pub start : ℕ

abbrev pub next_line : LineState → ℕ → LineState
next_line st s = record { at = s; cur = s; lines = st.lines + 1; start = s }

-- The `for (;;)` of `scan_skip_whitespace` over the bytes that are left. Its inner loop over spaces
-- is one round for each space here.
unfoldable pub skip_newlines : List ℕ → LineState → LineState
skip_newlines [] st = st
skip_newlines (c ∷ []) st =
    if is_newline c
    then next_line st (st.at + 1)
    else if is_space c
    then record st { at = st.at + 1 }
    else st
skip_newlines (c ∷ d ∷ cs) st =
    let after_pair = skip_newlines cs (next_line st (st.at + 2)) in
    let after_one = skip_newlines (d ∷ cs) (next_line st (st.at + 1)) in
    let after_space = skip_newlines (d ∷ cs) (record st { at = st.at + 1 }) in
    if c == b'\r' && d == b'\n'
    then after_pair
    else if is_newline c
    then after_one
    else if is_space c
    then after_space
    else st

-- The first half of `scan_skip_whitespace`: the scanner, and `s`.
unfoldable pub skip_blanks : Scanner → Scanner × ℕ
unfolding run_while skip_newlines
skip_blanks sc =
    let s = skip_while is_space sc sc.curptr in
    if is_newline (byte_at sc s) && autoskip_newline sc.skip_ws
    then (let st =
          skip_newlines (drop s sc.text)
            (record { at = s; cur = sc.curptr; lines = sc.line; start = sc.start_line }) in
        (record sc { curptr = st.cur; line = st.lines; start_line = st.start }, st.at))
    else (sc, s)

-- `if (*s == '\r') ++s; if (*s == '\n') ++s;`
abbrev pub line_end : Scanner → ℕ → ℕ
line_end sc s =
    let s1 = if byte_at sc s == b'\r' then s + 1 else s in
    if byte_at sc s1 == b'\n' then s1 + 1 else s1

-- The second half: a header that goes on in the next line.
unfoldable pub skip_header : Scanner → ℕ → Scanner
unfolding run_while
skip_header sc s =
    if is_newline (byte_at sc s) && autoskip_header sc.skip_ws
    then (let s2 = line_end sc s in
        if is_space (byte_at sc s2)
        then record sc { start_line = s2; line = sc.line + 1; curptr = skip_while is_space sc s2 }
        else record sc { start_line = s2; curptr = s })
    else record sc { curptr = s }

unfoldable pub skip_whitespace : Scanner → Scanner
unfolding skip_blanks skip_header
skip_whitespace sc = let (sc', s) = skip_blanks sc in skip_header sc' s

-- What every reading function ends with.
unfoldable pub after_token : Scanner → Scanner
unfolding skip_whitespace
after_token sc =
    if is_probably_space (byte_at sc sc.curptr) && not (sc.skip_ws == 0)
    then skip_whitespace sc
    else sc

pub init : List ℕ → ℕ → Scanner
init text options =
    let sc : Scanner = record {
      text = text;
      curptr = 0;
      line = 1;
      start_line = 0;
      skip_ws = options;
    } in
    if not (options == 0) then skip_whitespace sc else sc

pub is_eof : Scanner → Bool
is_eof sc = leb (end_of sc) sc.curptr

-- `strchr` stops at the first NUL.
pub skip_line : Scanner → Scanner
skip_line sc =
    let s = skip_while (λ c. not (c == b'\n') && not (c == 0)) sc sc.curptr in
    if byte_at sc s == b'\n'
    then record sc { curptr = s + 1; start_line = s + 1; line = sc.line + 1 }
    else record sc { curptr = end_of sc }

abbrev pub str_to : ℕ → ℕ → Str
str_to from to = record { ptr = from; slen = to - from }

unfoldable pub peek : Scanner → (ℕ → Bool) → Option (Str × ℕ)
peek sc spec =
    if leb (end_of sc) sc.curptr
    then none
    else let s = skip_while spec sc sc.curptr in some (str_to sc.curptr s, byte_at sc s)

unfoldable pub peek_n : Scanner → ℕ → Option (Str × ℕ)
peek_n sc n =
    if ltb (end_of sc) (sc.curptr + n)
    then none
    else some (record { ptr = sc.curptr; slen = n }, byte_at sc (sc.curptr + n))

unfoldable pub peek_until : Scanner → (ℕ → Bool) → Option (Str × ℕ)
peek_until sc spec =
    if leb (end_of sc) sc.curptr
    then none
    else let s = skip_while (λ c. not (spec c)) sc sc.curptr in
      some (str_to sc.curptr s, byte_at sc s)

unfoldable pub get : Scanner → (ℕ → Bool) → Option (Str × Scanner)
get sc spec =
    if not (spec (byte_at sc sc.curptr))
    then none
    else let s = skip_while spec sc (sc.curptr + 1) in
      some (str_to sc.curptr s, after_token (record sc { curptr = s }))

unfoldable pub get_n : Scanner → ℕ → Option (Str × Scanner)
get_n sc n =
    if ltb (end_of sc) (sc.curptr + n)
    then none
    else some
        (record { ptr = sc.curptr; slen = n }, after_token (record sc { curptr = sc.curptr + n }))

unfoldable pub get_char : Scanner → Option (ℕ × Scanner)
get_char sc =
    let chr = byte_at sc sc.curptr in
    if chr == 0 then none else some (chr, after_token (record sc { curptr = sc.curptr + 1 }))

unfoldable pub get_newline : Scanner → Option Scanner
get_newline sc =
    if not (is_newline (byte_at sc sc.curptr))
    then none
    else let s2 = line_end sc sc.curptr in
      some (record sc { curptr = s2; line = sc.line + 1; start_line = s2 })

-- `scan_get_until`, `scan_get_until_ch` and `scan_get_until_chr` differ in the test that stops them.
unfoldable pub get_until : Scanner → (ℕ → Bool) → Option (Str × Scanner)
get_until sc stops =
    if leb (end_of sc) sc.curptr
    then none
    else let s = skip_while (λ c. not (stops c)) sc sc.curptr in
      some (str_to sc.curptr s, after_token (record sc { curptr = s }))

pub get_until_ch : Scanner → ℕ → Option (Str × Scanner)
get_until_ch sc until_char = get_until sc (λ c. c == until_char)

-- `memchr(until_spec, c, speclen)`
pub mem_chr : List ℕ → ℕ → Bool
mem_chr [] c = false
mem_chr (x ∷ xs) c = x == c || mem_chr xs c

pub get_until_chr : Scanner → List ℕ → Option (Str × Scanner)
get_until_chr sc until_spec = get_until sc (mem_chr until_spec)

unfoldable pub advance_n : Scanner → ℕ → Bool → Option Scanner
advance_n sc n skip =
    if ltb (end_of sc) (sc.curptr + n)
    then none
    else let sc' = record sc { curptr = sc.curptr + n } in
      some (if is_probably_space (byte_at sc' sc'.curptr) && skip then skip_whitespace sc' else sc')

-- `scan_state`, with `scan_save_state` and `scan_restore_state`
pub record ScanState : Type 0 where
  pub curptr : ℕ
  pub line : ℕ
  pub start_line : ℕ

pub save_state : Scanner → ScanState
save_state sc = record { curptr = sc.curptr; line = sc.line; start_line = sc.start_line }

pub restore_state : Scanner → ScanState → Scanner
restore_state sc state = record sc {
  curptr = state.curptr;
  line = state.line;
  start_line = state.start_line;
}

-- `(int)(curptr - start_line)`, as the bits of the `int`.
pub get_col : Scanner → ℕ
get_col sc = (sc.curptr + 2 ^ 32 - sc.start_line) % 2 ^ 32
