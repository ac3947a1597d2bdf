-- ===== src/Scan/Tests.antt =====
-- The scanner at small inputs.
use zhangxy.Base.{
  ℕ, ◌+◌, ◌<◌, ◌≡◌, refl, ◌≢◌, ◌⊎◌, Bool, false, ◌&&◌, none, some, List, [], ◌∷◌, arith, leb,
}
use zhangxy.Scan.{
  Scanner, Str, end_of, byte_at, run_while, skip_blanks, skip_header, skip_whitespace, after_token,
  str_to, get,
}
use zhangxy.Scan.Lines.{Skipped, skip_whitespace-Skipped}
use zhangxy.Scan.Tokens.{Token, get_lem}
use zhangxy.Scan.Unescape.{get_unescape, unescape}
use zhangxy.Scan.Quotes.{find_pair, get_quotes, find_quote, back_run, QuoteEnd, get_quotes-total}

-- `ab  cd`
abbrev words : Scanner
words = record {
  text = b'a' ∷ b'b' ∷ b' ' ∷ b' ' ∷ b'c' ∷ b'd' ∷ [];
  curptr = 0;
  line = 1;
  start_line = 0;
  skip_ws = 1;
}

-- A line break, a blank, CR LF, and a letter.
abbrev broken : Scanner
broken = record {
  text = b'\n' ∷ b' ' ∷ b'\r' ∷ b'\n' ∷ b'x' ∷ [];
  curptr = 0;
  line = 1;
  start_line = 0;
  skip_ws = 4;
}

-- The end of a header: CR LF, and a letter.
abbrev headed : Scanner
headed = record {
  text = b'\r' ∷ b'\n' ∷ b'x' ∷ [];
  curptr = 0;
  line = 1;
  start_line = 0;
  skip_ws = 3;
}

-- `a%`, at the `%`.
abbrev percent_last : Scanner
percent_last = record { text = b'a' ∷ b'%' ∷ []; curptr = 1; line = 1; start_line = 0; skip_ws = 0 }

-- `%41b`
abbrev percent_first : Scanner
percent_first = record {
  text = b'%' ∷ b'4' ∷ b'1' ∷ b'b' ∷ [];
  curptr = 0;
  line = 1;
  start_line = 0;
  skip_ws = 0;
}

-- `"a\"b"`
abbrev quoted : Scanner
quoted = record {
  text = b'"' ∷ b'a' ∷ b'\\' ∷ b'"' ∷ b'b' ∷ b'"' ∷ [];
  curptr = 0;
  line = 1;
  start_line = 0;
  skip_ws = 0;
}

abbrev is_letter : ℕ → Bool
is_letter c = leb b'a' c && leb c b'z'

abbrev double_quotes : List (ℕ × ℕ)
double_quotes = (b'"', b'"') ∷ []

abbrev after_ab : Scanner
after_ab = record words { curptr = 4 }

got_ab : get words is_letter ≡ some (record { ptr = 0; slen = 2 }, after_ab)
unfolding get run_while skip_whitespace skip_blanks skip_header after_token
got_ab = refl

unescaped :
    get_unescape 5 percent_first is_letter
    ≡ some (
        some (
          record { ptr = 0; slen = 2 },
          record percent_first { text = b'A' ∷ b'b' ∷ b'1' ∷ b'b' ∷ []; curptr = 4 },
        ))
unfolding get_unescape unescape run_while after_token
unescaped = refl

whole_quote :
    get_quotes 9 quoted double_quotes
    ≡ some (some (record { ptr = 0; slen = 6 }, record quoted { curptr = 6 }))
unfolding get_quotes find_pair find_quote back_run run_while after_token
whole_quote = refl

skip_whitespace-Skipped_example : Skipped broken (skip_whitespace broken)
skip_whitespace-Skipped_example = skip_whitespace-Skipped broken refl

get_lem_example :
    (is_letter (byte_at words 0) ≡ false) × (get words is_letter ≡ none)
    ⊎ ((str : Str) × (sc' : Scanner) × (get words is_letter ≡ some (str, sc'))
        × Token is_letter 1 words str sc')
get_lem_example = get_lem words is_letter (omega arith) refl

quotes_not_nul : (e : ℕ) → find_pair double_quotes b'"' ≡ some e → e ≢ 0
unfolding find_pair
quotes_not_nul e h z = cc

get_quotes-total_example :
    (find_pair double_quotes (byte_at quoted 0) ≡ none)
      × (get_quotes 7 quoted double_quotes ≡ some none)
    ⊎ ((e s : ℕ) × (find_pair double_quotes (byte_at quoted 0) ≡ some e)
        × QuoteEnd quoted e (0 + 1) (0 + 1) s
        × ((byte_at quoted s ≢ e) × (get_quotes 7 quoted double_quotes ≡ some none)
            ⊎ ((byte_at quoted s ≡ e)
                × (s < end_of quoted)
                × (get_quotes 7 quoted double_quotes
                    ≡ some (
                        some (str_to 0 (s + 1), after_token (record quoted { curptr = s + 1 })))))))
get_quotes-total_example =
    get_quotes-total 7 quoted double_quotes (omega arith) (omega arith) (omega arith) refl
      quotes_not_nul
