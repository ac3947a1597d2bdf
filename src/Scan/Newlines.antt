-- ===== src/Scan/Newlines.antt =====
-- The newline loop: where it stops, and how many lines it counts.
use zhangxy.Base.{
  ℕ, ◌+◌, ◌≡◌, refl, ap, inl, inr, Bool, true, false, ◌&&◌, ◌||◌, List, [], ◌∷◌, ◌++◌, arith, ◌==◌,
  if◌then◌else◌, Bool-cases, length, get_or,
}
use zhangxy.Scan.{LineState, next_line, is_space, is_newline, skip_newlines}

abbrev pub is_blank : ℕ → Bool
is_blank c = is_space c || is_newline c

-- Line breaks in a text: CR LF is one.
unfoldable pub breaks : List ℕ → ℕ
breaks [] = 0
breaks (c ∷ []) = if is_newline c then 1 else 0
breaks (c ∷ d ∷ cs) =
    let after_pair = 1 + breaks cs in
    let after_one = (if is_newline c then 1 else 0) + breaks (d ∷ cs) in
    if c == b'\r' && d == b'\n' then after_pair else after_one

breaks-cons :
    (c : ℕ) (pre suf : List ℕ) {d : ℕ} {cs : List ℕ}
    → d ∷ cs ≡ pre ++ suf
    → (c == b'\r' && d == b'\n') ≡ false
    → breaks (c ∷ pre) ≡ (if is_newline c then 1 else 0) + breaks pre
unfolding breaks
breaks-cons c [] suf e h = omega arith
breaks-cons c (x ∷ pre) suf {d} e h =
    let same : d ≡ x = cc in
    let apart : (c == b'\r' && x == b'\n') ≡ false = rw (← same) h in rw apart

abbrev pub AllBlank : List ℕ → Type 0
AllBlank [] = Unit
AllBlank (c ∷ cs) = (is_blank c ≡ true) × AllBlank cs

-- The loop reads `pre`, which is blank, and stops at `suf`.
pub record Read (rest : List ℕ) (st st' : LineState) : Type 0 where
  pub pre : List ℕ
  pub suf : List ℕ
  pub splits : rest ≡ pre ++ suf
  pub at_is : st'.at ≡ st.at + length pre
  pub lines_is : st'.lines ≡ st.lines + breaks pre
  pub blanks : AllBlank pre
  pub stops : is_blank (get_or suf 0 0) ≡ false

Read-nil : (rest : List ℕ) (st : LineState) → is_blank (get_or rest 0 0) ≡ false → Read rest st st
unfolding breaks
Read-nil rest st h = record {
  pre = [];
  suf = rest;
  splits = refl;
  at_is = omega arith;
  lines_is = omega arith;
  blanks = tt;
  stops = h;
}

-- A single byte, before what the loop goes on to read.
Read-cons :
    (c d : ℕ) (cs : List ℕ) (st mid st' : LineState)
    → (c == b'\r' && d == b'\n') ≡ false
    → is_blank c ≡ true
    → mid.at ≡ st.at + 1
    → mid.lines ≡ st.lines + (if is_newline c then 1 else 0)
    → Read (d ∷ cs) mid st'
    → Read (c ∷ d ∷ cs) st st'
Read-cons c d cs st mid st' h b p q r = record {
  pre = c ∷ r.pre;
  suf = r.suf;
  splits = ap (◌∷◌ c) r.splits;
  at_is = omega (arith, r.at_is);
  lines_is = omega (arith, r.lines_is, breaks-cons c r.pre r.suf r.splits h);
  blanks = (b, r.blanks);
  stops = r.stops;
}

Read-pair :
    (c d : ℕ) (cs : List ℕ) (st st' : LineState)
    → (c == b'\r' && d == b'\n') ≡ true
    → Read cs (next_line st (st.at + 2)) st'
    → Read (c ∷ d ∷ cs) st st'
unfolding breaks
Read-pair c d cs st st' h r = record {
  pre = c ∷ d ∷ r.pre;
  suf = r.suf;
  splits = ap (λ t. c ∷ d ∷ t) r.splits;
  at_is = omega (arith, r.at_is);
  lines_is = rw h (omega (arith, r.lines_is));
  blanks = (ground arith, (ground arith, r.blanks));
  stops = r.stops;
}

Read-last :
    (c : ℕ) (st st' : LineState)
    → is_blank c ≡ true
    → st'.at ≡ st.at + 1
    → st'.lines ≡ st.lines + (if is_newline c then 1 else 0)
    → Read (c ∷ []) st st'
unfolding breaks
Read-last c st st' b p q = record {
  pre = c ∷ [];
  suf = [];
  splits = refl;
  at_is = p;
  lines_is = q;
  blanks = (b, tt);
  stops = refl;
}

pub skip_newlines-Read : (rest : List ℕ) (st : LineState) → Read rest st (skip_newlines rest st)
unfolding skip_newlines
skip_newlines-Read [] st = Read-nil [] st refl
skip_newlines-Read (c ∷ []) st = elim (Bool-cases (is_newline c)) [
  | inl n ↦ rw n (Read-last c st (next_line st (st.at + 1)) (ground arith) refl (rw n))
  | inr m ↦ elim (Bool-cases (is_space c)) [
    | inl s ↦
        rw (m, s)
          (Read-last c st (record st { at = st.at + 1 }) (ground arith) refl (rw m (omega arith)))
    | inr t ↦ rw (m, t) (Read-nil (c ∷ []) st (rw (t, m)))
  ]
]
skip_newlines-Read (c ∷ d ∷ cs) st = elim (Bool-cases (c == b'\r' && d == b'\n')) [
  | inl p ↦ rw p (Read-pair c d cs st _ p (skip_newlines-Read cs (next_line st (st.at + 2))))
  | inr q ↦ elim (Bool-cases (is_newline c)) [
    | inl n ↦
        rw (q, n)
          (Read-cons c d cs st (next_line st (st.at + 1)) _ q (ground arith) refl (rw n)
            (skip_newlines-Read (d ∷ cs) (next_line st (st.at + 1))))
    | inr m ↦ elim (Bool-cases (is_space c)) [
      | inl s ↦
          rw (q, m, s)
            (Read-cons c d cs st (record st { at = st.at + 1 }) _ q (ground arith) refl
              (rw m (omega arith)) (skip_newlines-Read (d ∷ cs) (record st { at = st.at + 1 })))
      | inr t ↦ rw (q, m, t) (Read-nil (c ∷ d ∷ cs) st (rw (t, m)))
    ]
  ]
]
