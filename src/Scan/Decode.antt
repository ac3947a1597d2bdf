-- ===== src/Scan/Decode.antt =====
-- `scan_get_unescape` ends, and `dst` stays behind `s`.
use zhangxy.Base.{
  ℕ, zero, suc, ◌+◌, ◌-◌, ◌≤◌, ◌<◌, ◌≡◌, refl, ◌∙◌, ◌⊎◌, inl, inr, Bool, true, false, not, ◌&&◌,
  ◌||◌, none, some, arith, ◌==◌, if◌then◌else◌, Bool-cases, length, take, drop, length-take,
  length-set, overwrite, length-overwrite,
}
use zhangxy.Scan.{Scanner, Str, end_of, byte_at, skip_while, str_to, after_token}
use zhangxy.Scan.Spans.{skip_while-le, skip_while-ge}
use zhangxy.Scan.Bounds.{InBounds, inside_of_byte}
use zhangxy.Scan.Unescape.{
  Cursor, at_escape, take_escape, copy_two, take_run, unescape, get_unescape,
}

-- From `cur` to `cur'` in the same buffer: `dst` behind `s`, and `s` at most at `bound`.
record Decodes (bound : ℕ) (cur cur' : Cursor) : Type 0 where
  same_end : end_of cur'.sc ≡ end_of cur.sc
  same_options : cur'.sc.skip_ws ≡ cur.sc.skip_ws
  behind : cur'.dst ≤ cur'.src
  grows : cur.dst ≤ cur'.dst
  forward : cur.src ≤ cur'.src
  inside : cur'.src ≤ bound

Decodes-trans :
    (bound bound' : ℕ) (a b c : Cursor)
    → Decodes bound a b
    → Decodes bound' b c
    → Decodes bound' a c
Decodes-trans bound bound' a b c p q = record {
  same_end = q.same_end ∙ p.same_end;
  same_options = q.same_options ∙ p.same_options;
  behind = q.behind;
  grows = omega (arith, p.grows, q.grows);
  forward = omega (arith, p.forward, q.forward);
  inside = q.inside;
}

take_run-Decodes :
    (spec : ℕ → Bool) (cur : Cursor)
    → cur.dst ≤ cur.src
    → cur.src ≤ end_of cur.sc
    → Decodes (end_of cur.sc) cur (take_run spec cur)
take_run-Decodes spec cur h k =
    let s = skip_while spec cur.sc cur.src in
    let s_in = skip_while-le spec cur.sc cur.src k in
    let s_ge = skip_while-ge spec cur.sc cur.src in
    let run = take (s - cur.src) (drop cur.src cur.sc.text) in
    let run_length : length run ≤ s - cur.src =
      omega (arith, length-take (s - cur.src) (drop cur.src cur.sc.text)) in
    let written : length (overwrite cur.sc.text cur.dst run) ≡ end_of cur.sc =
      length-overwrite cur.sc.text cur.dst run (omega arith) in
    record {
      same_end = elim (Bool-cases (cur.dst == cur.src)) [
        | inl same ↦ rw same
        | inr apart ↦ rw apart written
      ];
      same_options = refl;
      behind = omega arith;
      grows = omega arith;
      forward = s_ge;
      inside = s_in;
    }

take_escape-Decodes :
    (cur : Cursor)
    → cur.dst ≤ cur.src
    → at_escape cur ≡ true
    → Decodes (end_of cur.sc) cur (take_escape cur)
take_escape-Decodes cur h k = record {
  same_end = length-set cur.sc.text cur.dst _;
  same_options = refl;
  behind = omega arith;
  grows = omega arith;
  forward = omega arith;
  inside = ground arith;
}

copy_two-Decodes :
    (cur : Cursor)
    → cur.dst ≤ cur.src
    → cur.src < end_of cur.sc
    → Decodes (end_of cur.sc + 1) cur (copy_two cur)
copy_two-Decodes cur h k = record {
  same_end = length-set _ (cur.dst + 1) _ ∙ length-set cur.sc.text cur.dst _;
  same_options = refl;
  behind = omega arith;
  grows = omega arith;
  forward = omega arith;
  inside = omega arith;
}

-- A result of the loop.
abbrev Result : ℕ → (ℕ → Bool) → Cursor → Type 0
Result fuel spec cur =
    (cur' : Cursor) × (unescape fuel spec cur ≡ some cur') × Decodes (end_of cur.sc + 1) cur cur'

Decodes-le :
    (bound bound' : ℕ) (a b : Cursor) → bound ≤ bound' → Decodes bound a b → Decodes bound' a b
Decodes-le bound bound' a b h p = record {
  same_end = p.same_end;
  same_options = p.same_options;
  behind = p.behind;
  grows = p.grows;
  forward = p.forward;
  inside = omega (arith, h, p.inside);
}

-- A round that starts at a `%` and two digits.
escape_round :
    (spec : ℕ → Bool) (cur : Cursor)
    → cur.dst ≤ cur.src
    → at_escape cur ≡ true
    → Decodes (end_of cur.sc) cur (take_run spec (take_escape cur))
      × (cur.src < (take_run spec (take_escape cur)).src)
escape_round spec cur h good =
    let mid = take_escape cur in
    let d1 = take_escape-Decodes cur h good in
    let d2 = take_run-Decodes spec mid d1.behind (omega (arith, d1.inside, d1.same_end)) in
    (
      Decodes-le _ _ cur _ (omega (arith, d1.same_end)) (Decodes-trans _ _ cur mid _ d1 d2),
      omega (arith, d2.forward),
    )

-- What a round that stops or goes on returns, if the next one does.
Result-after :
    (fuel : ℕ) (spec : ℕ → Bool) (cur cur1 : Cursor)
    → Decodes (end_of cur.sc) cur cur1
    → ((byte_at cur1.sc cur1.src == b'%') ≡ true → Result fuel spec cur1)
    → (cur' : Cursor) × ((if byte_at cur1.sc cur1.src == b'%'
          then unescape fuel spec cur1
          else some cur1)
        ≡ some cur')
      × Decodes (end_of cur.sc + 1) cur cur'
Result-after fuel spec cur cur1 d next = elim (Bool-cases (byte_at cur1.sc cur1.src == b'%')) [
  | inr done ↦ (cur1, rw done, Decodes-le _ _ cur cur1 (omega arith) d)
  | inl more ↦
      let (cur2, eq, d3) = next more in
      (
        cur2,
        rw more eq,
        Decodes-le _ _ cur cur2 (omega (arith, d.same_end)) (Decodes-trans _ _ cur cur1 cur2 d d3),
      )
]

Result-percent :
    (fuel : ℕ) (spec : ℕ → Bool) (cur : Cursor)
    → cur.dst ≤ cur.src
    → cur.src ≤ end_of cur.sc
    → (byte_at cur.sc cur.src == b'%') ≡ true
    → end_of cur.sc - cur.src < fuel
    → Result fuel spec cur
unfolding unescape
Result-percent zero spec cur h k pc f = absurd (omega arith)
Result-percent (suc fuel) spec cur h k pc f =
    let within : cur.src < end_of cur.sc = inside_of_byte cur.sc cur.src (ground arith) in
    elim (Bool-cases (at_escape cur)) [
      | inr bad ↦ (copy_two cur, rw (pc, bad), copy_two-Decodes cur h within)
      | inl good ↦
          let cur1 = take_run spec (take_escape cur) in
          let (d, less) = escape_round spec cur h good in
          rw (pc, good)
            (Result-after fuel spec cur cur1 d (λ more.
              Result-percent fuel spec cur1 d.behind (omega (arith, d.inside, d.same_end)) more
                (omega (arith, d.same_end, d.inside))))
    ]

Result-any :
    (fuel : ℕ) (spec : ℕ → Bool) (cur : Cursor)
    → cur.dst ≤ cur.src
    → cur.src ≤ end_of cur.sc
    → end_of cur.sc - cur.src < fuel
    → Result (suc fuel) spec cur
unfolding unescape
Result-any fuel spec cur h k f = elim (Bool-cases (byte_at cur.sc cur.src == b'%')) [
  | inl pc ↦ Result-percent (suc fuel) spec cur h k pc (omega arith)
  | inr other ↦
      let cur1 = take_run spec cur in
      let d = take_run-Decodes spec cur h k in
      rw other (
        Result-after fuel spec cur cur1 d (λ more.
          Result-percent fuel spec cur1 d.behind (omega (arith, d.inside, d.same_end)) more
            (omega (arith, d.same_end, d.forward))))
]

-- `scan_get_unescape` from a place inside the buffer ends, within two rounds more than there are bytes
-- left: an error exactly if the next byte is neither `%` nor in the set, and else a token that
-- starts at the scanner's place, in a buffer of the same size. Its `dst` is never ahead of what was
-- read, and reading ends at most one byte behind the end.
pub get_unescape-total :
    (fuel : ℕ) (sc : Scanner) (spec : ℕ → Bool)
    → InBounds sc
    → end_of sc - sc.curptr < fuel
    → (spec (byte_at sc sc.curptr) || byte_at sc sc.curptr == b'%' ≡ false)
        × (get_unescape (suc fuel) sc spec ≡ some none)
      ⊎ ((str : Str) × (sc1 : Scanner) × (get_unescape (suc fuel) sc spec
            ≡ some (some (str, after_token sc1)))
          × (str.ptr ≡ sc.curptr)
          × (str.ptr + str.slen ≤ sc1.curptr)
          × (sc1.curptr ≤ end_of sc + 1)
          × (end_of sc1 ≡ end_of sc))
unfolding get_unescape
get_unescape-total fuel sc spec h f =
    let c = byte_at sc sc.curptr in
    let cur : Cursor = record { sc = sc; src = sc.curptr; dst = sc.curptr } in
    elim (Bool-cases (spec c || c == b'%')) [
      | inr miss ↦
          let test : not (spec c) && not (c == b'%') ≡ true = ground arith in inl (miss, rw test)
      | inl hit ↦
          let test : not (spec c) && not (c == b'%') ≡ false = ground arith in
          let (cur', eq, d) = Result-any fuel spec cur (omega arith) h f in
          inr (
            str_to sc.curptr cur'.dst,
            record cur'.sc { curptr = cur'.src },
            rw (test, eq) refl,
            refl,
            omega (arith, d.behind, d.grows),
            d.inside,
            d.same_end,
          )
    ]
