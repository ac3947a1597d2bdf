-- ===== src/Text/Span.antt =====
-- Spans and tokens.
use zhangxy.Base.{
  ℕ, suc, ◌+◌, ◌-◌, ◌≤◌, ◌<◌, ◌≡◌, refl, sym, ap, ◌∙◌, ◌≢◌, ◌⊎◌, inl, inr, Bool, true, false, ◌||◌,
  List, [], ◌∷◌, ◌++◌, arith, ltb, ◌==◌, if◌then◌else◌, Bool-cases, length, get_or, take, drop,
  length-take, length-drop, drop-nil, take_all, take-append-drop, NotIn, Nodup,
}
use mathlib.Core.Path.{subst}
use zhangxy.Text.{count_in, span_from, strspn, is_in, strcspn, strtok}

-- Every byte is in the set, or none is.
abbrev pub AllIn : List ℕ → List ℕ → Type 0
AllIn set_char [] = Unit
AllIn set_char (c ∷ cs) = (is_in set_char c ≡ true) × AllIn set_char cs

abbrev pub NoneIn : List ℕ → List ℕ → Type 0
NoneIn set_char [] = Unit
NoneIn set_char (c ∷ cs) = (is_in set_char c ≡ false) × NoneIn set_char cs

-- A string that is empty, or whose first byte is in the set or not, as `b` says.
abbrev pub Starts : Bool → List ℕ → List ℕ → Type 0
Starts b set_char s = (s ≡ []) ⊎ ((c : ℕ) × (cs : List ℕ) × (s ≡ c ∷ cs) × (is_in set_char c ≡ b))

count_in-NotIn : (set_char : List ℕ) (c : ℕ) → NotIn c set_char → count_in set_char c ≡ 0
unfolding count_in
count_in-NotIn [] c out = refl
count_in-NotIn (s ∷ ss) c (ne, out) =
    let miss : (c == s) ≡ false = ground (arith, ne) in rw miss (count_in-NotIn ss c out)

-- In a set without repetitions a byte counts once.
count_in-Nodup :
    (set_char : List ℕ) (c : ℕ)
    → Nodup set_char
    → count_in set_char c ≡ (if is_in set_char c then 1 else 0)
unfolding count_in is_in
count_in-Nodup [] c d = refl
count_in-Nodup (s ∷ ss) c (out, d) = elim (Bool-cases (c == s)) [
  | inl hit ↦
      let e : c ≡ s = ground arith in
      let zero_more : count_in ss c ≡ 0 = rw e (count_in-NotIn ss s out) in
      rw hit (omega (arith, zero_more))
  | inr miss ↦ rw miss (count_in-Nodup ss c d)
]

-- The longest prefix of bytes in the set.
run : List ℕ → List ℕ → ℕ
run set_char [] = 0
run set_char (c ∷ cs) = if is_in set_char c then run set_char cs + 1 else 0

span_from_over :
    (s : List ℕ) (i count : ℕ) (set_char : List ℕ)
    → count ≢ i
    → span_from s i count set_char ≡ count
unfolding span_from
span_from_over [] i count set_char h = refl
span_from_over (c ∷ cs) i count set_char h =
    let miss : (count == i) ≡ false = ground (arith, h) in rw miss refl

span_from_lem :
    (s : List ℕ) (i : ℕ) (set_char : List ℕ)
    → Nodup set_char
    → span_from s i i set_char ≡ i + run set_char s
unfolding span_from run
span_from_lem [] i set_char d = omega arith
span_from_lem (c ∷ cs) i set_char d =
    let here : (i == i) ≡ true = ground arith in
    elim (Bool-cases (is_in set_char c)) [
      | inl hit ↦
          rw (here, count_in-Nodup set_char c d, hit)
            (span_from_lem cs (i + 1) set_char d ∙ omega arith)
      | inr miss ↦
          rw (here, count_in-Nodup set_char c d, miss)
            (span_from_over cs (i + 1) (i + 0) set_char (λ e. absurd (omega arith)) ∙ omega arith)
    ]

run_lem :
    (s set_char : List ℕ)
    → (run set_char s ≤ length s)
      × AllIn set_char (take (run set_char s) s)
      × Starts false set_char (drop (run set_char s) s)
unfolding run
run_lem [] set_char = (omega arith, record {}, inl refl)
run_lem (c ∷ cs) set_char = elim (Bool-cases (is_in set_char c)) [
  | inl hit ↦
      let (low, all, stop) = run_lem cs set_char in
      let more : run set_char cs + 1 ≡ suc (run set_char cs) = omega arith in
      rw (hit, more) (omega arith, (hit, all), stop)
  | inr miss ↦ rw miss (omega arith, record {}, inr (c, cs, refl, miss))
]

-- Without repetitions in the set `c_strspn` is the length of the longest prefix of bytes in it.
pub strspn_lem :
    (s set_char : List ℕ)
    → Nodup set_char
    → (strspn s set_char ≤ length s)
      × AllIn set_char (take (strspn s set_char) s)
      × Starts false set_char (drop (strspn s set_char) s)
unfolding strspn
strspn_lem s set_char d =
    let e : span_from s 0 0 set_char ≡ run set_char s =
      span_from_lem s 0 set_char d ∙ omega arith in
    rw e (run_lem s set_char)

-- `c_strcspn` is the length of the longest prefix of bytes that are not in the set.
pub strcspn_lem :
    (s set_char : List ℕ)
    → (strcspn s set_char ≤ length s)
      × NoneIn set_char (take (strcspn s set_char) s)
      × Starts true set_char (drop (strcspn s set_char) s)
unfolding strcspn
strcspn_lem [] set_char = (omega arith, record {}, inl refl)
strcspn_lem (c ∷ cs) set_char = elim (Bool-cases (is_in set_char c)) [
  | inl hit ↦ rw hit (omega arith, record {}, inr (c, cs, refl, hit))
  | inr miss ↦
      let (low, none_in, stop) = strcspn_lem cs set_char in
      let more : strcspn cs set_char + 1 ≡ suc (strcspn cs set_char) = omega arith in
      rw (miss, more) (omega arith, (miss, none_in), stop)
]

-- With a set that lists a byte twice `c_strspn` of a string that starts with the byte is 2, whatever
-- follows it, and also if nothing does.
pub strspn_repeated : (c : ℕ) (s : List ℕ) → strspn (c ∷ s) (c ∷ c ∷ []) ≡ 2
unfolding strspn span_from count_in
strspn_repeated c s =
    let self : (c == c) ≡ true = ground arith in
    rw self (span_from_over s 1 2 (c ∷ c ∷ []) (λ e. absurd (omega arith)))

none_left : (s delim : List ℕ) (start : ℕ) → length s ≡ 0 → AllIn delim (drop start s)
none_left [] delim start e = subst (AllIn delim) (sym (drop-nil start)) (record {})
none_left (c ∷ cs) delim start e = absurd (omega arith)

token_filled :
    (t delim : List ℕ) → 0 < length t → Starts false delim t → 0 < length (take (strcspn t delim) t)
unfolding strcspn
token_filled [] delim h st = absurd (omega arith)
token_filled (c ∷ cs) delim h (inl e) = absurd (omega (arith, ap (λ (x : List ℕ). length x) e))
token_filled (c ∷ cs) delim h (inr (a, b, e, miss)) =
    let same : c ≡ a = ap (λ (x : List ℕ). get_or x 0 0) e in
    let miss' : is_in delim c ≡ false = rw same miss in
    let more : strcspn cs delim + 1 ≡ suc (strcspn cs delim) = omega arith in
    rw (miss', more) (omega arith)

-- What a search for a token at `start` finds: nothing but bytes of the set, or some of these in front of
-- a token of other bytes, which ends at a byte of the set or at the end.
abbrev pub TokenAt : List ℕ → List ℕ → ℕ → ℕ × List ℕ → Type 0
TokenAt s delim start r =
    ((r.0 ≡ length s) × AllIn delim (drop start s))
    ⊎ ((seps : List ℕ) × (rest : List ℕ) × (drop start s ≡ seps ++ (r.1 ++ rest))
        × (r.0 ≡ start + length seps)
        × AllIn delim seps
        × NoneIn delim r.1
        × (0 < length r.1)
        × Starts true delim rest)

-- `c_strtok` with a set of delimiters that lists no byte twice, from a place inside the string or at its
-- end, returns the next token and its place, or the length of the string if there is none.
pub strtok_lem :
    (s delim : List ℕ) (start : ℕ)
    → Nodup delim
    → start ≤ length s
    → TokenAt s delim start (strtok s delim start)
unfolding strtok
strtok_lem s delim start d inside = elim (Bool-cases (length s == 0 || ltb (length s) start)) [
  | inl empty ↦ rw empty (inl (refl, none_left s delim start (ground (arith, empty))))
  | inr filled ↦
      let tok = drop start s in
      let skip = strspn tok delim in
      let (low, all, stop) = strspn_lem tok delim d in
      let size : length tok ≡ length s - start = length-drop start s in
      elim (Bool-cases (start + skip == length s)) [
        | inl over ↦
            let whole : length tok ≤ skip = ground (arith, over) in
            rw (filled, over) (inl (refl, subst (AllIn delim) (take_all skip tok whole) all))
        | inr more ↦
            let tok' = drop skip tok in
            let (low', none_in, stop') = strcspn_lem tok' delim in
            let long : skip < length tok = ground (arith, more, low) in
            rw (filled, more)
              (inr (
                take skip tok,
                drop (strcspn tok' delim) tok',
                sym (take-append-drop skip tok)
                    ∙ ap (λ ys. take skip tok ++ ys)
                        (sym (take-append-drop (strcspn tok' delim) tok')),
                omega (arith, length-take skip tok),
                all,
                none_in,
                token_filled tok' delim (omega (arith, length-drop skip tok)) stop,
                stop',
              ))
      ]
]
