-- ===== src/Hash/Laws.antt =====
-- The table as a map from keys to values: what a write does to every later lookup.
use zhangxy.Base.{
  ℕ, ◌+◌, ◌%◌, ◌^◌, ◌<◌, ◌≡◌, sym, ap, ◌∙◌, ◌≢◌, inl, inr, Bool, true, false, List, [], arith, ◌==◌,
  if◌then◌else◌, ==_iff, Bool-cases, length, get_or, set, length-set,
}
use Prim.Native.Nat.{bit_and}
use zhangxy.Hash.{Query, HashTable, settle, matches, chain_at, get, hash_set, set_value}
use zhangxy.Hash.Same.{IsEquivalence, same}
use zhangxy.Hash.Chain.{present, chain_get, chain_put, Distinct}
use zhangxy.Hash.Chain.Keys.{chain_get-chain_put, chain_put-Distinct, length-chain_put}
use zhangxy.Hash.Link.{new_count, hash_set_eq, get_eq}
use zhangxy.Hash.Rows.{bit_and-le, total, total-set}
use zhangxy.Base.{get_or-set_self, get_or-set_ne}

-- The count stays the number of entries, as `unsigned`, where one row changes.
new_count_lem :
    (was null : Bool) (count t t' n n' : ℕ)
    → count ≡ t % 2 ^ 32
    → t' + n ≡ t + n'
    → n' + (if was then 1 else 0) ≡ n + (if null then 0 else 1)
    → new_count was null count ≡ t' % 2 ^ 32
new_count_lem true true count t t' n n' h k l = omega arith
new_count_lem true false count t t' n n' h k l = omega arith
new_count_lem false true count t t' n n' h k l = omega arith
new_count_lem false false count t t' n n' h k l = omega arith

module _ (strnicmp_eq : List ℕ → List ℕ → Bool) where
  -- One row for each value of the mask, keys that differ, and the number of entries.
  pub record IsValid (lower : Bool) (ht : HashTable) : Type 0 where
    pub sized : length ht.table ≡ ht.rows + 1
    pub distinct : (i : ℕ) → Distinct strnicmp_eq lower (get_or ht.table i [])
    pub counted : ht.count ≡ total ht.table % 2 ^ 32

  row_inside :
      (lower : Bool) (ht : HashTable) (q : Query)
      → IsValid lower ht
      → bit_and q.hash ht.rows < length ht.table
  row_inside lower ht q v = omega (arith, bit_and-le q.hash ht.rows, v.sized)

module _ (strnicmp_eq : List ℕ → List ℕ → Bool) (laws : IsEquivalence strnicmp_eq) (lower : Bool)
    (ht : HashTable) (valid : IsValid strnicmp_eq lower ht) where
  -- Queries for one entry have one hash, so one row.
  same_hash : (q q' : Query) → same strnicmp_eq laws lower q' q ≡ true → q'.hash ≡ q.hash
  unfolding matches
  same_hash q q' h = ground arith

  module _ (q : Query) (value : ℕ) where
    hash_set-IsValid : IsValid strnicmp_eq lower (hash_set strnicmp_eq ht q lower value)
    unfolding chain_at
    hash_set-IsValid =
        let row = bit_and q.hash ht.rows in
        let inside = row_inside strnicmp_eq lower ht q valid in
        let c = get_or ht.table row [] in
        let c' = chain_put strnicmp_eq lower q value c in
        rw (hash_set_eq strnicmp_eq lower ht q inside value) (record {
          sized = length-set ht.table row c' ∙ valid.sized;
          distinct = λ i. elim (Bool-cases (row == i)) [
            | inl e ↦
                rw (← (==_iff row i).0 e, get_or-set_self ht.table row c' [] inside)
                  (chain_put-Distinct strnicmp_eq laws lower q value c (valid.distinct row))
            | inr n ↦
                let apart : row ≢ i = ground arith in
                rw (get_or-set_ne ht.table row i c' [] apart) (valid.distinct i)
          ];
          counted =
              new_count_lem (present strnicmp_eq lower q c) (value == 0) ht.count (total ht.table)
                (total (set ht.table row c')) (length c) (length c') valid.counted
                (total-set ht.table row c' inside)
                (length-chain_put strnicmp_eq laws lower q value c);
        })

    chain_get-hash_set :
        (q' : Query)
        → chain_get strnicmp_eq lower q'
            (chain_at strnicmp_eq (hash_set strnicmp_eq ht q lower value) q')
          ≡ (if same strnicmp_eq laws lower q' q
              then value
              else chain_get strnicmp_eq lower q' (chain_at strnicmp_eq ht q'))
    unfolding chain_at
    chain_get-hash_set q' =
        let row = bit_and q.hash ht.rows in
        let row' = bit_and q'.hash ht.rows in
        let inside = row_inside strnicmp_eq lower ht q valid in
        let c = get_or ht.table row [] in
        let c' = chain_put strnicmp_eq lower q value c in
        rw (hash_set_eq strnicmp_eq lower ht q inside value) (elim (Bool-cases (row == row')) [
          | inl e ↦
              rw (← (==_iff row row').0 e, get_or-set_self ht.table row c' [] inside)
                (chain_get-chain_put strnicmp_eq laws lower q q' value c (valid.distinct row))
          | inr n ↦
              let apart : row ≢ row' = ground arith in
              let differ : same strnicmp_eq laws lower q' q ≡ false =
                elim (Bool-cases (same strnicmp_eq laws lower q' q)) [
                  | inl one ↦
                      absurd (apart (ap (λ h. bit_and h ht.rows) (sym (same_hash q q' one))))
                  | inr two ↦ two
                ] in
              rw (get_or-set_ne ht.table row row' c' [] apart, differ)
        ])

-- Lookups and writes with whole keys.
module _ (strnicmp_eq : List ℕ → List ℕ → Bool) (laws : IsEquivalence strnicmp_eq) where
  -- A write keeps a table valid: its keys distinct, and its count the number of its entries.
  pub set_value-IsValid :
      (ht : HashTable) (lower : Bool) (mem : List ℕ) (keylen hval value : ℕ)
      → IsValid strnicmp_eq lower ht
      → IsValid strnicmp_eq lower (set_value strnicmp_eq ht mem keylen hval value lower)
  unfolding set_value
  set_value-IsValid ht lower mem keylen hval value v =
      hash_set-IsValid strnicmp_eq laws lower ht v (settle mem keylen hval lower) value

  -- After `HASH_Set(key, value)` in a valid table, `HASH_Get` returns `value` for the keys that are
  -- the same as `key` (NULL if `value` is NULL), and for every other key what it returned before.
  pub get-set_value :
      (ht : HashTable) (lower : Bool) (mem mem' : List ℕ) (keylen keylen' hval hval' value : ℕ)
      → IsValid strnicmp_eq lower ht
      → let ht' = set_value strnicmp_eq ht mem keylen hval value lower in
        get strnicmp_eq ht' mem' keylen' hval' lower ≡ (
          if same strnicmp_eq laws lower
            (settle mem' keylen' hval' lower)
            (settle mem keylen hval lower)
          then value
          else get strnicmp_eq ht mem' keylen' hval' lower)
  unfolding set_value
  get-set_value ht lower mem mem' keylen keylen' hval hval' value v =
      let q = settle mem keylen hval lower in
      rw
        (
          get_eq strnicmp_eq lower (hash_set strnicmp_eq ht q lower value) mem' keylen' hval',
          get_eq strnicmp_eq lower ht mem' keylen' hval',
        )
        (chain_get-hash_set strnicmp_eq laws lower ht v q value (settle mem' keylen' hval' lower))
