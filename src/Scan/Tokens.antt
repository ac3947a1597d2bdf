-- ===== src/Scan/Tokens.antt =====
-- The functions that read a token: what they return, and where they leave the scanner.
use zhangxy.Base.{
  ℕ, ◌+◌, ◌-◌, ◌≤◌, ◌<◌, ◌≡◌, refl, ◌↔◌, ◌⊎◌, inl, inr, Bool, true, false, not, none, some, arith,
  ltb, leb, ◌==◌, ltb→lt, leb→le, ==_iff, Bool-cases, le_cases,
}
use zhangxy.Scan.{
  Scanner, Str, end_of, byte_at, is_newline, skip_while, after_token, str_to, peek, get, get_n,
  get_char, get_newline, get_until, save_state, restore_state, line_end,
}
use zhangxy.Scan.Spans.{
  skip_while-le, skip_while_inside, skip_while_stops, skip_while_end, skip_while_step,
}
use zhangxy.Scan.Bounds.{InBounds, Advances, inside_of_byte, after_token-Advances}

Advances-from :
    (sc sc' : Scanner) (s : ℕ) → Advances s (record sc { curptr = s }) sc' → Advances s sc sc'
Advances-from sc sc' s a = record {
  same_text = a.same_text;
  same_options = a.same_options;
  forward = a.forward;
  inside = a.inside;
}

-- A token that starts at the scanner's place, is not empty where `least` is 1, holds only bytes that
-- pass the test, and ends at the end of the buffer or at a byte that fails it.
pub record Token (p : ℕ → Bool) (least : ℕ) (sc : Scanner) (str : Str) (sc' : Scanner)
    : Type 0 where
  pub starts : str.ptr ≡ sc.curptr
  pub long : least ≤ str.slen
  pub inside : str.ptr + str.slen ≤ end_of sc
  pub pass : (i : ℕ) → str.ptr ≤ i → i < str.ptr + str.slen → p (byte_at sc i) ≡ true
  pub ends : (str.ptr + str.slen ≡ end_of sc) ⊎ (p (byte_at sc (str.ptr + str.slen)) ≡ false)
  pub advances : Advances (str.ptr + str.slen) sc sc'

Token-to :
    (p : ℕ → Bool) (least : ℕ) (sc : Scanner) (s : ℕ)
    → sc.curptr + least ≤ s
    → s ≤ end_of sc
    → ((i : ℕ) → sc.curptr ≤ i → i < s → p (byte_at sc i) ≡ true)
    → (s ≡ end_of sc) ⊎ (p (byte_at sc s) ≡ false)
    → Token p least sc (str_to sc.curptr s) (after_token (record sc { curptr = s }))
Token-to p least sc s h k pass ends =
    let sum : sc.curptr + (s - sc.curptr) ≡ s = omega arith in
    record {
      starts = refl;
      long = omega arith;
      inside = omega arith;
      pass = λ i a b. pass i a (omega arith);
      ends = rw sum ends;
      advances = rw sum (Advances-from sc _ s (after_token-Advances (record sc { curptr = s }) k));
    }

-- `scan_get` from a place inside the buffer, with a set that has no NUL: an error exactly if the next
-- byte is not in the set, and else the longest token of the set, with the scanner behind it.
pub get_lem :
    (sc : Scanner) (spec : ℕ → Bool)
    → InBounds sc
    → spec 0 ≡ false
    → (spec (byte_at sc sc.curptr) ≡ false) × (get sc spec ≡ none)
      ⊎ ((str : Str) × (sc' : Scanner) × (get sc spec ≡ some (str, sc')) × Token spec 1 sc str sc')
unfolding get
get_lem sc spec h z = elim (Bool-cases (spec (byte_at sc sc.curptr))) [
  | inr miss ↦ inl (miss, rw miss)
  | inl hit ↦
      let within : sc.curptr < end_of sc =
        inside_of_byte sc sc.curptr (λ e. let hit0 = rw e at hit in cc) in
      let s = skip_while spec sc (sc.curptr + 1) in
      inr (
        str_to sc.curptr s,
        after_token (record sc { curptr = s }),
        rw hit,
        Token-to spec 1 sc s (omega arith) (skip_while-le spec sc (sc.curptr + 1) (omega arith))
            (λ i a b. elim (le_cases (sc.curptr + 1) i) [
              | inl later ↦ skip_while_inside spec sc (sc.curptr + 1) i later b
              | inr first ↦ let e : i ≡ sc.curptr = omega arith in rw e hit
            ])
            (inr (skip_while_stops spec sc (sc.curptr + 1) z)),
      )
]

-- `scan_get_until` (and `_ch`, `_chr`, by their tests): an error exactly at the end of the buffer,
-- and else the bytes up to the first one that the test stops at, or up to the end.
pub get_until_lem :
    (sc : Scanner) (stops : ℕ → Bool)
    → InBounds sc
    → (sc.curptr ≡ end_of sc) × (get_until sc stops ≡ none)
      ⊎ ((str : Str) × (sc' : Scanner) × (get_until sc stops ≡ some (str, sc'))
          × (sc.curptr < end_of sc)
          × Token (λ c. not (stops c)) 0 sc str sc')
unfolding get_until
get_until_lem sc stops h = elim (Bool-cases (leb (end_of sc) sc.curptr)) [
  | inl eof ↦ inl (omega (arith, leb→le (end_of sc) sc.curptr eof), rw eof)
  | inr more ↦
      let p : ℕ → Bool = λ c. not (stops c) in
      let s = skip_while p sc sc.curptr in
      let s_in = skip_while-le p sc sc.curptr h in
      let within : sc.curptr < end_of sc = ground arith in
      inr (
        str_to sc.curptr s,
        after_token (record sc { curptr = s }),
        rw more,
        within,
        Token-to p 0 sc s (omega arith) s_in (λ i a b. skip_while_inside p sc sc.curptr i a b)
            (elim (le_cases (end_of sc) s) [
              | inl whole ↦ inl (omega arith)
              | inr part ↦ inr (skip_while_end p sc sc.curptr part)
            ]),
      )
]

-- Where `scan_get` returns a token, `scan_peek` returns the same token and the byte behind it.
pub peek-get :
    (sc : Scanner) (spec : ℕ → Bool) (str : Str) (sc' : Scanner)
    → spec 0 ≡ false
    → get sc spec ≡ some (str, sc')
    → peek sc spec ≡ some (str, byte_at sc (str.ptr + str.slen))
unfolding get peek
peek-get sc spec str sc' z h = elim (Bool-cases (spec (byte_at sc sc.curptr))) [
  | inr miss ↦ let failed : get sc spec ≡ none = rw (miss, get) in cc
  | inl hit ↦
      let within : sc.curptr < end_of sc =
        inside_of_byte sc sc.curptr (λ e. let hit0 = rw e at hit in cc) in
      let s = skip_while spec sc (sc.curptr + 1) in
      let step = skip_while_step spec sc sc.curptr within hit in
      let got : get sc spec ≡ some (str_to sc.curptr s, after_token (record sc { curptr = s })) =
        rw (hit, get) in
      let same : str_to sc.curptr s ≡ str = cc in
      let more : leb (end_of sc) sc.curptr ≡ false = ground arith in
      let sum : sc.curptr + (s - sc.curptr) ≡ s = omega arith in rw (← same, more, step, sum)
]

-- `scan_get_n` and `scan_advance_n`: an error exactly if fewer than `n` bytes are left, and else
-- `n` bytes further.
pub get_n_lem :
    (sc : Scanner) (n : ℕ)
    → (end_of sc < sc.curptr + n) × (get_n sc n ≡ none)
      ⊎ ((sc' : Scanner) × (get_n sc n ≡ some (record { ptr = sc.curptr; slen = n }, sc'))
          × Advances (sc.curptr + n) sc sc')
unfolding get_n
get_n_lem sc n = elim (Bool-cases (ltb (end_of sc) (sc.curptr + n))) [
  | inl short ↦ inl (ltb→lt (end_of sc) (sc.curptr + n) short, rw short)
  | inr fits ↦ inr (
    after_token (record sc { curptr = sc.curptr + n }),
    rw fits,
    Advances-from sc _ (sc.curptr + n)
        (after_token-Advances (record sc { curptr = sc.curptr + n }) (ground arith)),
  )
]

-- `scan_get_newline` takes one line break, CR, LF or CR LF, counts it, and starts the line behind it;
-- on any other byte it reports an error.
pub get_newline_lem :
    (sc : Scanner)
    → (is_newline (byte_at sc sc.curptr) ≡ false) × (get_newline sc ≡ none)
      ⊎ ((sc' : Scanner) × (get_newline sc ≡ some sc')
          × (sc'.line ≡ sc.line + 1)
          × (sc'.start_line ≡ sc'.curptr)
          × (sc.curptr < sc'.curptr)
          × (sc'.curptr ≤ sc.curptr + 2)
          × ((sc'.curptr ≡ sc.curptr + 2)
              ↔ ((byte_at sc sc.curptr ≡ b'\r') × (byte_at sc (sc.curptr + 1) ≡ b'\n'))))
unfolding get_newline
get_newline_lem sc = elim (Bool-cases (is_newline (byte_at sc sc.curptr))) [
  | inr other ↦ inl (other, rw other)
  | inl brk ↦
      let s = line_end sc sc.curptr in
      inr (
        record sc { curptr = s; line = sc.line + 1; start_line = s },
        rw brk,
        refl,
        refl,
        ground arith,
        ground arith,
        (ground arith, ground arith),
      )
]

-- `scan_get_char` reports an error at a NUL, so at the end too, and else returns the next byte.
pub get_char_lem :
    (sc : Scanner)
    → InBounds sc
    → (byte_at sc sc.curptr ≡ 0) × (get_char sc ≡ none)
      ⊎ ((sc' : Scanner) × (get_char sc ≡ some (byte_at sc sc.curptr, sc'))
          × (sc.curptr < end_of sc)
          × Advances (sc.curptr + 1) sc sc')
unfolding get_char
get_char_lem sc h = elim (Bool-cases (byte_at sc sc.curptr == 0)) [
  | inl z ↦ inl ((==_iff (byte_at sc sc.curptr) 0).0 z, rw z)
  | inr n ↦
      let within : sc.curptr < end_of sc = inside_of_byte sc sc.curptr (ground arith) in
      inr (
        after_token (record sc { curptr = sc.curptr + 1 }),
        rw n,
        within,
        Advances-from sc _ (sc.curptr + 1)
            (after_token-Advances (record sc { curptr = sc.curptr + 1 }) (omega arith)),
      )
]

-- Restoring the state saved before a `scan_get` that read a token gives the scanner back as it was.
pub restore_after_get :
    (sc : Scanner) (spec : ℕ → Bool) (str : Str) (sc' : Scanner)
    → InBounds sc
    → spec 0 ≡ false
    → get sc spec ≡ some (str, sc')
    → restore_state sc' (save_state sc) ≡ sc
unfolding restore_state save_state
restore_after_get sc spec str sc' h z e = elim (get_lem sc spec h z) [
  | inl (miss, failed) ↦ cc
  | inr (str2, sc2, got, t) ↦
      let same : sc2 ≡ sc' = cc in
      let text : sc'.text ≡ sc.text = rw (← same) t.advances.same_text in
      let options : sc'.skip_ws ≡ sc.skip_ws = rw (← same) t.advances.same_options in ground arith
]
