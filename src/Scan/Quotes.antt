-- ===== src/Scan/Quotes.antt =====
-- `scan_get_quotes` and `scan_get_quote`: a quoted token, in which a backslash escapes. The pairs of
-- quotes are a list, which the assertion keeps from being empty. The run of backslashes stops at the
-- begin of the buffer; that it stops at the begin quote holds if that is no backslash.
use zhangxy.Base.{
  ℕ, zero, suc, ◌+◌, ◌-◌, ◌%◌, ◌≤◌, ◌<◌, ◌≡◌, refl, sym, ◌∙◌, ◌≢◌, ◌⊎◌, inl, inr, Bool, true, false,
  not, ◌&&◌, Option, none, some, List, [], ◌∷◌, arith, ◌==◌, if◌then◌else◌, ==_iff, Bool-cases,
  Option-cases, le_cases, length,
}
use zhangxy.Scan.{Scanner, Str, end_of, byte_at, skip_while, str_to, after_token}
use zhangxy.Scan.Spans.{skip_while-le, skip_while-ge, skip_while_inside, skip_while_end}
use zhangxy.Scan.Bounds.{inside_of_byte}

-- The end quote of the first pair that begins with `c`.
unfoldable pub find_pair : List (ℕ × ℕ) → ℕ → Option ℕ
find_pair [] c = none
find_pair ((b, e) ∷ pairs) c = if c == b then some e else find_pair pairs c

-- `while (r != begin && *r == '\\') --r`: the steps from `r` down.
unfoldable pub back_run : Scanner → ℕ → ℕ
back_run sc zero = 0
back_run sc (suc r) =
    let more = suc (back_run sc r) in if byte_at sc (suc r) == b'\\' then more else 0

-- The tests on an end quote at `s`.
abbrev pub escaped : Scanner → ℕ → Bool
escaped sc s = byte_at sc (s - 1) == b'\\' && not (back_run sc (s - 2) % 2 == 1)

-- The `do … while (1)`: where it breaks off, `none` when the fuel runs out.
unfoldable pub find_quote : ℕ → Scanner → ℕ → ℕ → Option ℕ
find_quote zero sc e s = none
find_quote (suc fuel) sc e s =
    let s1 = skip_while (λ c. not (c == b'\n') && not (c == e)) sc s in
    let again = find_quote fuel sc e (s1 + 1) in
    if byte_at sc s1 == e && escaped sc s1 then again else some s1

-- The outer option is the fuel, the inner one the reported error.
unfoldable pub get_quotes : ℕ → Scanner → List (ℕ × ℕ) → Option (Option (Str × Scanner))
get_quotes fuel sc pairs = elim (find_pair pairs (byte_at sc sc.curptr)) [
  | none ↦ some none
  | some e ↦ elim (find_quote fuel sc e (sc.curptr + 1)) [
    | none ↦ none
    | some s ↦ some (
        if byte_at sc s == e
        then some (str_to sc.curptr (s + 1), after_token (record sc { curptr = s + 1 }))
        else none)
  ]
]

abbrev pub get_quote : ℕ → Scanner → ℕ → ℕ → Option (Option (Str × Scanner))
get_quote fuel sc b e = get_quotes fuel sc ((b, e) ∷ [])

-- The byte that is `n` places behind `start` is escaped, reading forward from `start`: a backslash that
-- is not escaped itself stands in front of it.
unfoldable pub is_escaped : Scanner → ℕ → ℕ → Bool
is_escaped sc start zero = false
is_escaped sc start (suc n) = byte_at sc (start + n) == b'\\' && not (is_escaped sc start n)

-- An end quote that is not escaped, or the end of the line, stops a token whose text is from `start`.
abbrev pub stops_quote : Scanner → ℕ → ℕ → ℕ → Bool
stops_quote sc e start i =
    if byte_at sc i == e then not (is_escaped sc start (i - start)) else byte_at sc i == b'\n'

-- `s` is the first place from `from` on that stops the token, or the end of the buffer.
pub record QuoteEnd (sc : Scanner) (e start from_place s : ℕ) : Type 0 where
  pub from : from_place ≤ s
  pub inside : s ≤ end_of sc
  pub before : (i : ℕ) → from_place ≤ i → i < s → stops_quote sc e start i ≡ false
  pub stops : (s ≡ end_of sc) ⊎ (stops_quote sc e start s ≡ true)

flip_parity : (n : ℕ) → (suc n % 2 == 1) ≡ not (n % 2 == 1)
flip_parity n = ground arith

run_at_quote : (sc : Scanner) (i : ℕ) → (byte_at sc i == b'\\') ≡ false → back_run sc i ≡ 0
unfolding back_run
run_at_quote sc zero h = refl
run_at_quote sc (suc i) h = rw h refl

-- The backslashes up to `i`, counted backward, against the forward reading from behind the quote.
back_run-is_escaped :
    (sc : Scanner) (quote n i : ℕ)
    → (byte_at sc quote == b'\\') ≡ false
    → i ≡ quote + n
    → (back_run sc i % 2 == 1) ≡ is_escaped sc (quote + 1) n
unfolding back_run is_escaped
back_run-is_escaped sc quote zero i h e =
    let at : i ≡ quote = omega arith in rw (at, run_at_quote sc quote h) refl
back_run-is_escaped sc quote (suc n) zero h e = absurd (omega arith)
back_run-is_escaped sc quote (suc n) (suc i) h e =
    let at : quote + 1 + n ≡ suc i = omega arith in
    let less = back_run-is_escaped sc quote n i h (omega arith) in
    elim (Bool-cases (byte_at sc (suc i) == b'\\')) [
      | inr other ↦ rw (at, other) refl
      | inl slash ↦ rw (at, slash, ← less) (flip_parity (back_run sc i))
    ]

-- The code's test on an end quote is the forward reading.
escaped-is_escaped :
    (sc : Scanner) (quote s : ℕ)
    → (byte_at sc quote == b'\\') ≡ false
    → quote + 1 ≤ s
    → escaped sc s ≡ is_escaped sc (quote + 1) (s - (quote + 1))
unfolding is_escaped
escaped-is_escaped sc quote s h a = elim (le_cases s (quote + 1)) [
  | inl first ↦
      let at : s - 1 ≡ quote = omega arith in
      let none_left : s - (quote + 1) ≡ 0 = omega arith in rw (at, h, none_left) refl
  | inr later ↦
      let n = s - (quote + 2) in
      let length : s - (quote + 1) ≡ suc n = omega arith in
      let at : s - 1 ≡ quote + 1 + n = omega arith in
      rw (length, at, back_run-is_escaped sc quote n (s - 2) h (omega arith)) refl
]

-- The bytes that the inner loop passes do not stop the token.
plain_byte :
    (sc : Scanner) (e start i : ℕ)
    → not (byte_at sc i == b'\n') && not (byte_at sc i == e) ≡ true
    → stops_quote sc e start i ≡ false
plain_byte sc e start i h = elim (Bool-cases (byte_at sc i == e)) [
  | inl y ↦ ground arith
  | inr n ↦ rw n (ground arith)
]

-- A byte at which the inner loop ends stops the token, or is an escaped end quote.
stop_byte :
    (sc : Scanner) (e start i : ℕ)
    → not (byte_at sc i == b'\n') && not (byte_at sc i == e) ≡ false
    → byte_at sc i == e && is_escaped sc start (i - start) ≡ false
    → stops_quote sc e start i ≡ true
stop_byte sc e start i h k = elim (Bool-cases (byte_at sc i == e)) [
  | inl y ↦ rw y (ground arith)
  | inr n ↦ rw n (ground arith)
]

escaped_byte :
    (sc : Scanner) (e start i : ℕ)
    → byte_at sc i == e && is_escaped sc start (i - start) ≡ true
    → stops_quote sc e start i ≡ false
escaped_byte sc e start i h = elim (Bool-cases (byte_at sc i == e)) [
  | inl y ↦ rw y (ground arith)
  | inr n ↦ absurd (ground arith)
]

find_quote-QuoteEnd :
    (fuel : ℕ) (sc : Scanner) (e quote s : ℕ)
    → e ≢ 0
    → (byte_at sc quote == b'\\') ≡ false
    → quote + 1 ≤ s
    → s ≤ end_of sc
    → end_of sc - s < fuel
    → (s' : ℕ) × (find_quote fuel sc e s ≡ some s') × QuoteEnd sc e (quote + 1) s s'
unfolding find_quote
find_quote-QuoteEnd zero sc e quote s z no_slash q h f = absurd (omega arith)
find_quote-QuoteEnd (suc fuel) sc e quote s z no_slash q h f =
    let p : ℕ → Bool = λ c. not (c == b'\n') && not (c == e) in
    let start = quote + 1 in
    let s1 = skip_while p sc s in
    let s1_le = skip_while-le p sc s h in
    let s1_ge = skip_while-ge p sc s in
    let plain : (i : ℕ) → s ≤ i → i < s1 → stops_quote sc e start i ≡ false =
      λ i a b. plain_byte sc e start i (skip_while_inside p sc s i a b) in
    let read = escaped-is_escaped sc quote s1 no_slash (omega arith) in
    elim (Bool-cases (byte_at sc s1 == e && is_escaped sc start (s1 - start))) [
      | inr stay ↦ (
        s1,
        rw (read, stay) refl,
        record {
          from = s1_ge;
          inside = s1_le;
          before = plain;
          stops = elim (le_cases (end_of sc) s1) [
            | inl whole ↦ inl (omega arith)
            | inr part ↦ inr (stop_byte sc e start s1 (skip_while_end p sc s part) stay)
          ];
        },
      )
      | inl go ↦
          let hit : (byte_at sc s1 == e) ≡ true = ground (arith, go) in
          let within : s1 < end_of sc =
            inside_of_byte sc s1 (λ q. z (sym ((==_iff (byte_at sc s1) e).0 hit) ∙ q)) in
          let (s', eq, r) =
            find_quote-QuoteEnd fuel sc e quote (s1 + 1) z no_slash (omega arith) (omega arith)
              (omega arith) in
          (
            s',
            rw (read, go) eq,
            record {
              from = omega (arith, r.from);
              inside = r.inside;
              before = λ i a b. elim (le_cases (s1 + 1) i) [
                | inl later ↦ r.before i later b
                | inr first ↦ elim (le_cases s1 i) [
                  | inl same ↦
                      let here : i ≡ s1 = omega arith in rw here (escaped_byte sc e start s1 go)
                  | inr earlier ↦ plain i a earlier
                ]
              ];
              stops = r.stops;
            },
          )
    ]

-- `scan_get_quotes` with at least one pair, from a place inside the buffer at which no backslash stands,
-- with end quotes that are not NUL, ends within as many rounds as bytes are left. It reports an error
-- exactly if no pair begins with the next byte, or if the line or the buffer ends first; else the token
-- goes from the quote at the scanner's place through the first end quote that is not escaped, reading
-- forward, and lies in the buffer.
pub get_quotes-total :
    (fuel : ℕ) (sc : Scanner) (pairs : List (ℕ × ℕ))
    → sc.curptr < end_of sc
    → end_of sc - sc.curptr ≤ fuel
    → 0 < length pairs
    → (byte_at sc sc.curptr == b'\\') ≡ false
    → ((e : ℕ) → find_pair pairs (byte_at sc sc.curptr) ≡ some e → e ≢ 0)
    → (find_pair pairs (byte_at sc sc.curptr) ≡ none) × (get_quotes fuel sc pairs ≡ some none)
      ⊎ ((e s : ℕ) × (find_pair pairs (byte_at sc sc.curptr) ≡ some e)
          × QuoteEnd sc e (sc.curptr + 1) (sc.curptr + 1) s
          × ((byte_at sc s ≢ e) × (get_quotes fuel sc pairs ≡ some none)
              ⊎ ((byte_at sc s ≡ e)
                  × (s < end_of sc)
                  × (get_quotes fuel sc pairs
                      ≡ some (
                          some (
                            str_to sc.curptr (s + 1),
                            after_token (record sc { curptr = s + 1 }),
                          ))))))
unfolding get_quotes
get_quotes-total fuel sc pairs h f some_pair no_slash nz =
    elim (Option-cases (find_pair pairs (byte_at sc sc.curptr))) [
      | inl no_pair ↦ inl (no_pair, rw (no_pair, get_quotes))
      | inr (e, pair) ↦
          let (s, eq, q) =
            find_quote-QuoteEnd fuel sc e sc.curptr (sc.curptr + 1) (nz e pair) no_slash
              (omega arith) (omega arith) (omega arith) in
          inr (
            e,
            s,
            pair,
            q,
            elim (Bool-cases (byte_at sc s == e)) [
              | inr differs ↦ inl (ground (arith, differs), rw (pair, eq, differs, get_quotes))
              | inl same ↦
                  let is_e = (==_iff (byte_at sc s) e).0 same in
                  inr (
                    is_e,
                    inside_of_byte sc s (λ z. nz e pair (sym is_e ∙ z)),
                    rw (pair, eq, same, get_quotes),
                  )
            ],
          )
    ]
