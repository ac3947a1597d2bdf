-- ===== src/Hash/Tests.antt =====
-- The hash table at small inputs.
use zhangxy.Base.{
  ℕ, ◌+◌, ◌-◌, ◌*◌, ◌^◌, ◌≤◌, ◌<◌, ◌≡◌, refl, ◌⊎◌, true, false, some, List, [], ◌∷◌, arith,
  if◌then◌else◌,
}
use zhangxy.Hash.{
  HashTable, hash_bytes, key_bytes, calc, settle, memcmp_eq, matches, find_depth, find_entry,
  hash_set, create, get, set_value, it_first,
}
use zhangxy.Hash.Same.{same}
use zhangxy.Hash.Laws.{IsValid, set_value-IsValid, get-set_value}
use zhangxy.Hash.Iterate.{all_values, visit, visit_lem}
use zhangxy.Text.Caseless.{strnicmp_eq, strnicmp_eq-IsEquivalence}
use zhangxy.Hash.Create.{empty_table, empty_table-IsValid, create_total}

abbrev key_ab : List ℕ
key_ab = b'a' ∷ b'b' ∷ []

abbrev key_b : List ℕ
key_b = b'b' ∷ []

abbrev key_upper : List ℕ
key_upper = b'A' ∷ b'B' ∷ []

abbrev start : HashTable
start = empty_table 4

start-IsValid : IsValid strnicmp_eq false start
start-IsValid = empty_table-IsValid strnicmp_eq false 4

start-IsValid_lower : IsValid strnicmp_eq true start
start-IsValid_lower = empty_table-IsValid strnicmp_eq true 4

calc_ab : calc 0 key_ab 2 ≡ 97 * 33 + 98
unfolding calc key_bytes hash_bytes
calc_ab = refl

settle_string : settle (b'a' ∷ b'b' ∷ 0 ∷ b'c' ∷ []) (2 ^ 32 - 1) 0 false ≡ settle key_ab 2 0 false
unfolding settle hash_bytes key_bytes
settle_string = refl

set_then_get : get strnicmp_eq (set_value strnicmp_eq start key_ab 2 0 7 false) key_ab 2 0 false ≡ 7
unfolding get set_value hash_set find_entry find_depth matches settle key_bytes hash_bytes memcmp_eq
set_then_get = refl

set_value-IsValid_example :
    IsValid strnicmp_eq false (set_value strnicmp_eq start key_ab 2 0 7 false)
set_value-IsValid_example =
    set_value-IsValid strnicmp_eq strnicmp_eq-IsEquivalence start false key_ab 2 0 7 start-IsValid

get-set_value_example :
    get strnicmp_eq (set_value strnicmp_eq start key_ab 2 0 7 true) key_upper 2 0 true ≡ (
      if same strnicmp_eq strnicmp_eq-IsEquivalence true
        (settle key_upper 2 0 true)
        (settle key_ab 2 0 true)
      then 7
      else get strnicmp_eq start key_upper 2 0 true)
get-set_value_example =
    get-set_value strnicmp_eq strnicmp_eq-IsEquivalence start true key_ab key_upper 2 2 0 0 7
      start-IsValid_lower

-- Three entries in two of four rows.
abbrev filled : HashTable
filled = record {
  table =
      []
      ∷ (record { key = key_ab; hash = 1; keylen = 2; value = 7 }
          ∷ record { key = key_b; hash = 5; keylen = 1; value = 8 }
          ∷ [])
      ∷ []
      ∷ (record { key = key_b; hash = 3; keylen = 1; value = 9 } ∷ [])
      ∷ [];
  count = 3;
  rows = 3;
}

visit_lem_example : visit 3 filled (it_first filled) ≡ 7 ∷ 8 ∷ 9 ∷ []
unfolding all_values
visit_lem_example = visit_lem filled 3 refl (omega arith)

create_total_example :
    (k : ℕ) × (create 28 20 ≡ some (empty_table k))
    × (20 ≤ 2 ^ k)
    × (2 ^ k < 20 * 2 ⊎ (k ≡ 4))
    × (4 ≤ k)
    × IsValid strnicmp_eq false (empty_table k)
create_total_example = create_total strnicmp_eq false 20 (omega arith)
