-- ===== src/Text/Tests.antt =====
-- Strings at small inputs.
use zhangxy.Base.{ℕ, ◌≡◌, refl, List, [], ◌∷◌, arith}
use zhangxy.Number.{strtoul}
use zhangxy.Text.{
  count_in, span_from, strspn, is_in, strcspn, strtok, digits, swap, swap_loop, utoa_pad, rtrim,
  trimmed_length,
}
use zhangxy.Hash.{to_lower}
use zhangxy.Text.Compare.{below, stricmp, strnicmp_bytes, by_length}
use zhangxy.Text.Print.{strtoul-utoa_pad}

-- "  ab,c" with the delimiters " ,".
abbrev two_words : List ℕ
two_words = b' ' ∷ b' ' ∷ b'a' ∷ b'b' ∷ b',' ∷ b'c' ∷ []

abbrev blank_comma : List ℕ
blank_comma = b' ' ∷ b',' ∷ []

first_word : strtok two_words blank_comma 0 ≡ (2, b'a' ∷ b'b' ∷ [])
unfolding strtok strspn span_from count_in strcspn is_in
first_word = refl

padded : utoa_pad 305 5 b'0' ≡ b'0' ∷ b'0' ∷ b'3' ∷ b'0' ∷ b'5' ∷ []
unfolding utoa_pad digits swap_loop swap
padded = refl

no_blanks : rtrim (b'a' ∷ b' ' ∷ b' ' ∷ []) ≡ b'a' ∷ []
unfolding rtrim trimmed_length
no_blanks = refl

strtoul-utoa_pad_example : strtoul (utoa_pad 305 5 48) ≡ 305
strtoul-utoa_pad_example = strtoul-utoa_pad 305 5 (omega arith)

before_in_dictionary : stricmp (b'A' ∷ b'b' ∷ []) (b'a' ∷ b'C' ∷ []) ≡ below
unfolding stricmp strnicmp_bytes by_length to_lower
before_in_dictionary = refl
