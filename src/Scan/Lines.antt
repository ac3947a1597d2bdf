-- ===== src/Scan/Lines.antt =====
-- `scan_skip_whitespace` where it skips newlines: what it skips, and the line counter.
use zhangxy.Base.{
  ℕ, ◌+◌, ◌≡◌, refl, sym, ap, ◌∙◌, inl, inr, true, false, ◌&&◌, List, [], ◌∷◌, ◌++◌, append-nil,
  append_assoc, arith, ◌==◌, Bool-cases, length, get_or, take, drop, length-append, length-take,
  take-append-drop, drop-drop,
}
use zhangxy.Scan.{
  Scanner, LineState, byte_at, is_space, is_newline, autoskip_newline, run_while, skip_newlines,
  skip_blanks, skip_header, skip_whitespace,
}
use zhangxy.Scan.Spans.{run_while-le, skip_while_stops, get_or-drop}
use zhangxy.Scan.Newlines.{is_blank, breaks, AllBlank, skip_newlines-Read}

-- From `sc` to `sc'` a text `pre` of blanks is read, with its line breaks counted, up to `suf`, which
-- does not begin with a blank.
pub record Skipped (sc sc' : Scanner) : Type 0 where
  pub pre : List ℕ
  pub suf : List ℕ
  pub splits : drop sc.curptr sc.text ≡ pre ++ suf
  pub cur_is : sc'.curptr ≡ sc.curptr + length pre
  pub line_is : sc'.line ≡ sc.line + breaks pre
  pub blanks : AllBlank pre
  pub stops : is_blank (get_or suf 0 0) ≡ false

breaks_space : (c : ℕ) (xs : List ℕ) → is_space c ≡ true → breaks (c ∷ xs) ≡ breaks xs
unfolding breaks
breaks_space c [] h = ground arith
breaks_space c (d ∷ xs) h =
    let not_cr : (c == b'\r' && d == b'\n') ≡ false = ground arith in
    let no_break : is_newline c ≡ false = ground arith in rw (not_cr, no_break) (omega arith)

abbrev spaces : List ℕ → List ℕ
spaces xs = take (run_while is_space xs) xs

breaks-spaces : (xs ys : List ℕ) → breaks (spaces xs ++ ys) ≡ breaks ys
unfolding run_while
breaks-spaces [] ys = refl
breaks-spaces (c ∷ xs) ys = elim (Bool-cases (is_space c)) [
  | inl s ↦ rw s (breaks_space c (spaces xs ++ ys) s ∙ breaks-spaces xs ys)
  | inr n ↦ rw n
]

AllBlank-append : (xs ys : List ℕ) → AllBlank xs → AllBlank ys → AllBlank (xs ++ ys)
AllBlank-append [] ys h k = k
AllBlank-append (x ∷ xs) ys h k = (h.0, AllBlank-append xs ys h.1 k)

AllBlank-spaces : (xs : List ℕ) → AllBlank (spaces xs)
unfolding run_while
AllBlank-spaces [] = tt
AllBlank-spaces (c ∷ xs) = elim (Bool-cases (is_space c)) [
  | inl s ↦ rw s (rw s refl, AllBlank-spaces xs)
  | inr n ↦ rw n tt
]

length-spaces : (xs : List ℕ) → length (spaces xs) ≡ run_while is_space xs
length-spaces xs = omega (arith, length-take (run_while is_space xs) xs, run_while-le is_space xs)

breaks-spaces_only : (xs : List ℕ) → breaks (spaces xs) ≡ 0
unfolding breaks
breaks-spaces_only xs = rw append-nil at (breaks-spaces xs [])

get_or-append : (pre suf : List ℕ) → get_or (pre ++ suf) (length pre) 0 ≡ get_or suf 0 0
get_or-append [] suf = refl
get_or-append (x ∷ pre) suf = get_or-append pre suf

-- A byte that is no newline ends the skipping.
skip_header_plain :
    (sc : Scanner) (s : ℕ)
    → is_newline (byte_at sc s) ≡ false
    → skip_header sc s ≡ record sc { curptr = s }
unfolding skip_header
skip_header_plain sc s h = rw h

-- With newlines skipped, `scan_skip_whitespace` ends, has read blanks alone, stands at the next byte
-- that is no blank or at the end, and has counted the line breaks that it read, CR LF as one.
pub skip_whitespace-Skipped :
    (sc : Scanner) → autoskip_newline sc.skip_ws ≡ true → Skipped sc (skip_whitespace sc)
unfolding skip_whitespace skip_blanks
skip_whitespace-Skipped sc on =
    let left = drop sc.curptr sc.text in
    let k = run_while is_space left in
    let s = sc.curptr + k in
    let no_space = skip_while_stops is_space sc sc.curptr refl in
    let here : drop s sc.text ≡ drop k left = sym (drop-drop k sc.curptr s sc.text (omega arith)) in
    let byte_eq : get_or (drop k left) 0 0 ≡ byte_at sc s =
      rw (← here) (get_or-drop sc.text s 0 0 ∙ ap (λ i. get_or sc.text i 0) (omega arith)) in
    elim (Bool-cases (is_newline (byte_at sc s))) [
      | inr flat ↦
          rw (flat, skip_header_plain sc s flat)
            (record {
              pre = spaces left;
              suf = drop k left;
              splits = sym (take-append-drop k left);
              cur_is = omega (arith, length-spaces left);
              line_is = omega (arith, breaks-spaces_only left);
              blanks = AllBlank-spaces left;
              stops = rw byte_eq (ground arith);
            })
      | inl more ↦
          let st : LineState = record {
            at = s;
            cur = sc.curptr;
            lines = sc.line;
            start = sc.start_line;
          } in
          let r = skip_newlines-Read (drop s sc.text) st in
          let st' = skip_newlines (drop s sc.text) st in
          let mid : Scanner = record sc {
            curptr = st'.cur;
            line = st'.lines;
            start_line = st'.start;
          } in
          let at_end : get_or sc.text st'.at 0 ≡ get_or r.suf 0 0 =
            rw (r.at_is, ← get_or-append r.pre r.suf, ← r.splits)
              (sym (get_or-drop sc.text s (length r.pre) 0)) in
          let flat : is_newline (byte_at mid st'.at) ≡ false =
            rw at_end (ground (arith, r.stops)) in
          rw (more, on, skip_header_plain mid st'.at flat)
            (record {
              pre = spaces left ++ r.pre;
              suf = r.suf;
              splits = rw (append_assoc, ← r.splits, here) (sym (take-append-drop k left));
              cur_is =
                  omega (arith, r.at_is, length-append (spaces left) r.pre, length-spaces left);
              line_is = rw (breaks-spaces left r.pre) r.lines_is;
              blanks = AllBlank-append (spaces left) r.pre (AllBlank-spaces left) r.blanks;
              stops = r.stops;
            })
    ]
