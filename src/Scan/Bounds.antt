-- ===== src/Scan/Bounds.antt =====
-- What `scan_skip_whitespace` skips, and that it stays inside the buffer.
use zhangxy.Base.{
  ℕ, ◌+◌, ◌≤◌, ◌<◌, ◌≡◌, refl, sym, ap, ◌∙◌, ◌≢◌, inl, inr, true, not, ◌&&◌, List, ◌++◌, arith,
  ◌==◌, if◌then◌else◌, ==_iff, Bool-cases, le_cases, length, drop, length-append, length-drop,
}
use zhangxy.Scan.{
  Scanner, LineState, end_of, byte_at, is_space, is_newline, autoskip_newline, autoskip_header,
  skip_while, skip_blanks, skip_header, skip_whitespace, is_probably_space, after_token,
}
use zhangxy.Scan.Spans.{skip_while-le, get_or_end}
use zhangxy.Scan.Newlines.{skip_newlines-Read}

-- The scanner's place is inside the buffer, its end included.
abbrev pub InBounds : Scanner → Type 0
InBounds sc = sc.curptr ≤ end_of sc

-- A call that leaves the buffer and the options alone, and does not go back before `from`.
pub record Advances (from : ℕ) (sc sc' : Scanner) : Type 0 where
  pub same_text : sc'.text ≡ sc.text
  pub same_options : sc'.skip_ws ≡ sc.skip_ws
  pub forward : from ≤ sc'.curptr
  pub inside : sc'.curptr ≤ end_of sc

pub inside_of_byte : (sc : Scanner) (i : ℕ) → byte_at sc i ≢ 0 → i < end_of sc
inside_of_byte sc i h = elim (le_cases (end_of sc) i) [
  | inl out ↦ absurd (h (get_or_end sc.text i 0 out))
  | inr within ↦ within
]

newline_ne_zero : (c : ℕ) → is_newline c ≡ true → c ≢ 0
newline_ne_zero c h z = ground arith

-- Where the first half stands: the fields of the scanner may be those of an inner line.
record Blanks (sc : Scanner) (out : Scanner × ℕ) : Type 0 where
  same_text : out.0.text ≡ sc.text
  same_options : out.0.skip_ws ≡ sc.skip_ws
  forward : sc.curptr ≤ out.1
  inside : out.1 ≤ end_of sc

length-split :
    (sc : Scanner) (s : ℕ) (pre suf : List ℕ)
    → s ≤ end_of sc
    → drop s sc.text ≡ pre ++ suf
    → s + length pre ≤ end_of sc
length-split sc s pre suf h e =
    let sum = ap length e in omega (arith, length-drop s sc.text, length-append pre suf, sum)

skip_blanks-Blanks : (sc : Scanner) → InBounds sc → Blanks sc (skip_blanks sc)
unfolding skip_blanks
skip_blanks-Blanks sc h =
    let s = skip_while is_space sc sc.curptr in
    let s_in = skip_while-le is_space sc sc.curptr h in
    elim (Bool-cases (is_newline (byte_at sc s) && autoskip_newline sc.skip_ws)) [
      | inr off ↦
          rw off
            (record { same_text = refl; same_options = refl; forward = omega arith; inside = s_in })
      | inl go ↦
          let st : LineState = record {
            at = s;
            cur = sc.curptr;
            lines = sc.line;
            start = sc.start_line;
          } in
          let r = skip_newlines-Read (drop s sc.text) st in
          rw go (record {
            same_text = refl;
            same_options = refl;
            forward = omega (arith, r.at_is);
            inside = omega (arith, r.at_is, length-split sc s r.pre r.suf s_in r.splits);
          })
    ]

header_step :
    (sc : Scanner) (i c : ℕ)
    → c ≢ 0
    → i ≤ end_of sc
    → (if byte_at sc i == c then i + 1 else i) ≤ end_of sc
header_step sc i c n h = elim (Bool-cases (byte_at sc i == c)) [
  | inl e ↦
      let same = (==_iff (byte_at sc i) c).0 e in
      let within : i < end_of sc = inside_of_byte sc i (λ z. n (sym same ∙ z)) in rw e (omega arith)
  | inr m ↦ rw m h
]

skip_header-Advances : (sc : Scanner) (s : ℕ) → s ≤ end_of sc → Advances s sc (skip_header sc s)
unfolding skip_header
skip_header-Advances sc s h =
    elim (Bool-cases (is_newline (byte_at sc s) && autoskip_header sc.skip_ws)) [
      | inr off ↦
          rw off
            (record { same_text = refl; same_options = refl; forward = omega arith; inside = h })
      | inl on ↦
          let s1 = if byte_at sc s == b'\r' then s + 1 else s in
          let s2 = if byte_at sc s1 == b'\n' then s1 + 1 else s1 in
          let s1_in : s1 ≤ end_of sc = header_step sc s b'\r' (omega arith) h in
          let s2_in : s2 ≤ end_of sc = header_step sc s1 b'\n' (omega arith) s1_in in
          let s1_from : s ≤ s1 = ground arith in
          let s2_from : s1 ≤ s2 = ground arith in
          elim (Bool-cases (is_space (byte_at sc s2))) [
            | inl folded ↦
                rw (on, folded)
                  (record {
                    same_text = refl;
                    same_options = refl;
                    forward = omega arith;
                    inside = skip_while-le is_space sc s2 s2_in;
                  })
            | inr flat ↦
                rw (on, flat)
                  (record {
                    same_text = refl;
                    same_options = refl;
                    forward = omega arith;
                    inside = h;
                  })
          ]
    ]

Advances-trans :
    (from s : ℕ) (sc mid sc' : Scanner)
    → from ≤ s
    → mid.text ≡ sc.text
    → mid.skip_ws ≡ sc.skip_ws
    → Advances s mid sc'
    → Advances from sc sc'
Advances-trans from s sc mid sc' h t o a = record {
  same_text = a.same_text ∙ t;
  same_options = a.same_options ∙ o;
  forward = omega (arith, a.forward);
  inside = rw (← t) a.inside;
}

-- From a place inside the buffer, `scan_skip_whitespace` goes forward and stays inside, in every
-- mode, and leaves the text and the options alone.
pub skip_whitespace-Advances :
    (sc : Scanner) → InBounds sc → Advances sc.curptr sc (skip_whitespace sc)
unfolding skip_whitespace
skip_whitespace-Advances sc h =
    let b = skip_blanks-Blanks sc h in
    let (mid, s) = skip_blanks sc in
    Advances-trans sc.curptr s sc mid (skip_header mid s) b.forward b.same_text b.same_options
      (skip_header-Advances mid s (rw b.same_text b.inside))

pub after_token-Advances : (sc : Scanner) → InBounds sc → Advances sc.curptr sc (after_token sc)
unfolding after_token
after_token-Advances sc h =
    elim (Bool-cases (is_probably_space (byte_at sc sc.curptr) && not (sc.skip_ws == 0))) [
      | inl skip ↦ rw skip (skip_whitespace-Advances sc h)
      | inr keep ↦
          rw keep
            (record { same_text = refl; same_options = refl; forward = omega arith; inside = h })
    ]
