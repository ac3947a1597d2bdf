-- ===== src/Hash/Calc.antt =====
-- The hash functions, and the hash that a caller works out in advance.
use zhangxy.Base.{
  ℕ, ◌+◌, ◌-◌, ◌^◌, ◌<◌, ◌≡◌, refl, inl, inr, Bool, true, false, List, [], ◌∷◌, ◌++◌, map, arith,
  ◌==◌, Bool-cases, length, length-append, take_all,
}
use zhangxy.Hash.{
  hash_step, hash_bytes, key_bytes, to_lower, calc, calc_to_lower, settle, HashTable, get,
  set_value,
}

hash_bytes-append : (h : ℕ) (a b : List ℕ) → hash_bytes h (a ++ b) ≡ hash_bytes (hash_bytes h a) b
unfolding hash_bytes
hash_bytes-append h [] b = refl
hash_bytes-append h (c ∷ cs) b = hash_bytes-append (hash_step h c) cs b

-- `HASH_Calc` of two parts, one after the other, is that of the whole, for a length that is not
-- `HASH_KEY_TYPE_STRING`.
pub calc-append :
    (h : ℕ) (a b : List ℕ)
    → length a + length b < 2 ^ 32 - 1
    → calc h (a ++ b) (length a + length b) ≡ calc (calc h a (length a)) b (length b)
unfolding calc key_bytes
calc-append h a b short =
    let sized : (xs : List ℕ) → length xs < 2 ^ 32 - 1 → key_bytes xs (length xs) ≡ xs =
      λ xs s. ground (arith, take_all (length xs) xs) in
    let both = length-append a b in
    let whole : key_bytes (a ++ b) (length a + length b) ≡ a ++ b =
      rw (← both) (sized (a ++ b) (omega arith)) in
    rw (whole, sized a (omega arith), sized b (omega arith)) (hash_bytes-append h a b)

-- `HASH_CalcToLower` hashes the key in lower case, and copies it out in lower case.
pub calc_to_lower_lem :
    (h : ℕ) (cs : List ℕ) → calc_to_lower h cs ≡ (hash_bytes h (map to_lower cs), map to_lower cs)
unfolding calc_to_lower hash_bytes
calc_to_lower_lem h [] = refl
calc_to_lower_lem h (c ∷ cs) = rw (calc_to_lower_lem (hash_step h (to_lower c)) cs)

settle-calc :
    (mem : List ℕ) (keylen : ℕ)
    → settle mem keylen (calc 0 mem keylen) false ≡ settle mem keylen 0 false
unfolding settle calc
settle-calc mem keylen = elim (Bool-cases (hash_bytes 0 (key_bytes mem keylen) == 0)) [
  | inl z ↦ rw z
  | inr n ↦ rw n
]

settle-calc_to_lower :
    (mem : List ℕ) (keylen : ℕ)
    → settle mem keylen (calc_to_lower 0 (key_bytes mem keylen)).0 true ≡ settle mem keylen 0 true
unfolding settle
settle-calc_to_lower mem keylen =
    rw (calc_to_lower_lem 0 (key_bytes mem keylen))
      (elim (Bool-cases (hash_bytes 0 (map to_lower (key_bytes mem keylen)) == 0)) [
        | inl z ↦ rw z
        | inr n ↦ rw n
      ])

-- A lookup and a write with the hash that `HASH_Calc` (for the lower-case calls, `HASH_CalcToLower`)
-- gives for the key do what they do with no hash, a hash of 0 included.
pub calc_in_advance :
    (strnicmp_eq : List ℕ → List ℕ → Bool) (ht : HashTable) (mem : List ℕ) (keylen value : ℕ)
    → let exact = calc 0 mem keylen in
      let lowered = (calc_to_lower 0 (key_bytes mem keylen)).0 in
      (get strnicmp_eq ht mem keylen exact false ≡ get strnicmp_eq ht mem keylen 0 false)
      × (set_value strnicmp_eq ht mem keylen exact value false
          ≡ set_value strnicmp_eq ht mem keylen 0 value false)
      × (get strnicmp_eq ht mem keylen lowered true ≡ get strnicmp_eq ht mem keylen 0 true)
      × (set_value strnicmp_eq ht mem keylen lowered value true
          ≡ set_value strnicmp_eq ht mem keylen 0 value true)
unfolding get set_value
calc_in_advance strnicmp_eq ht mem keylen value = (
  rw (settle-calc mem keylen, get),
  rw (settle-calc mem keylen),
  rw (settle-calc_to_lower mem keylen, get),
  rw (settle-calc_to_lower mem keylen),
)
