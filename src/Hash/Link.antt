-- ===== src/Hash/Link.antt =====
-- `find_entry` returns a link; what `HASH_Get` and `hash_set` do through it is a search in the
-- query's chain and a write to it.
use zhangxy.Base.{
  ℕ, ◌+◌, ◌<◌, ◌≡◌, refl, sym, ap, ◌∙◌, ◌≢◌, inl, inr, Bool, true, false, none, some, List, [], ◌∷◌,
  ◌++◌, arith, ◌==◌, if◌then◌else◌, ==_iff, Bool-cases, u32_add, u32_sub, length, get_elem?, set,
  take, drop, take_all,
}
use Prim.Native.Nat.{bit_and}
use zhangxy.Hash.{
  Entry, Query, HashTable, settle, find_depth, chain_at, put_chain, find_entry, get, hash_set,
}
use zhangxy.Hash.Same.{entry_of}
use zhangxy.Hash.Chain.{
  present, chain_get, chain_put, chain_put_absent, chain_get_absent, find_depth-absent,
  find_depth-present, get_elem?-length, Found,
}
use zhangxy.Base.{get_or-set_self, set-get_or, set-set}

-- The count after a write, by whether the key was present and whether the value is NULL.
abbrev pub new_count : Bool → Bool → ℕ → ℕ
new_count was null count =
    if was
    then (if null then u32_sub count 1 else count)
    else (if null then count else u32_add count 1)

set_end : (c : List Entry) (e : Entry) → set (c ++ (e ∷ [])) (length c) e ≡ c ++ (e ∷ [])
set_end [] e = refl
set_end (x ∷ c) e = ap (◌∷◌ x) (set_end c e)

get_elem?_end : (c : List Entry) (e : Entry) → get_elem? (c ++ (e ∷ [])) (length c) ≡ some e
get_elem?_end [] e = refl
get_elem?_end (x ∷ c) e = get_elem?_end c e

module _ (strnicmp_eq : List ℕ → List ℕ → Bool) where
  module _ (lower : Bool) (ht : HashTable) (q : Query) where
    -- The query's chain, and the depth of the link that the search stops at.
    abbrev chain : List Entry
    chain = chain_at strnicmp_eq ht q

    abbrev depth : ℕ
    depth = find_depth strnicmp_eq lower q chain

    find_entry_found :
        (val : ℕ) (e : Entry)
        → get_elem? chain depth ≡ some e
        → find_entry strnicmp_eq ht q lower val ≡ (ht, depth)
    unfolding find_entry
    find_entry_found val e h = ground arith

    find_entry_missing :
        get_elem? chain depth ≡ none → find_entry strnicmp_eq ht q lower 0 ≡ (ht, depth)
    unfolding find_entry
    find_entry_missing h = ground arith

    find_entry_added :
        (val : ℕ)
        → val ≢ 0
        → get_elem? chain depth ≡ none
        → find_entry strnicmp_eq ht q lower val ≡ (
          put_chain strnicmp_eq ht q
              (take depth chain ++ (entry_of q val ∷ []))
              (u32_add ht.count 1),
          depth,
        )
    unfolding find_entry
    find_entry_added val n h = ground arith

    -- `hash_set` on a row in range writes one chain, and keeps the count.
    module _ (inside : bit_and q.hash ht.rows < length ht.table) (value : ℕ) where
      hash_set_removes :
          (f : Found strnicmp_eq lower q chain depth)
          → value ≡ 0
          → hash_set strnicmp_eq ht q lower value
            ≡ put_chain strnicmp_eq ht q
                (take depth chain ++ drop (depth + 1) chain)
                (u32_sub ht.count 1)
      unfolding hash_set
      hash_set_removes f z = ground (arith, find_entry_found value f.entry f.at)

      hash_set_stores :
          (f : Found strnicmp_eq lower q chain depth)
          → value ≢ 0
          → hash_set strnicmp_eq ht q lower value
            ≡ put_chain strnicmp_eq ht q
                (set chain depth (record f.entry { value = value }))
                ht.count
      unfolding hash_set
      hash_set_stores f n = ground (arith, find_entry_found value f.entry f.at)

      hash_set_nothing :
          value ≡ 0 → get_elem? chain depth ≡ none → hash_set strnicmp_eq ht q lower value ≡ ht
      unfolding hash_set
      hash_set_nothing z h = ground (arith, find_entry_missing h)

      abbrev added : HashTable
      added =
          put_chain strnicmp_eq ht q (take depth chain ++ (entry_of q value ∷ []))
            (u32_add ht.count 1)

      chain_at-added : chain_at strnicmp_eq added q ≡ take depth chain ++ (entry_of q value ∷ [])
      unfolding chain_at
      chain_at-added = get_or-set_self ht.table (bit_and q.hash ht.rows) _ [] inside

      hash_set_adds :
          value ≢ 0
          → get_elem? chain depth ≡ none
          → get_elem? (take depth chain ++ (entry_of q value ∷ [])) depth ≡ some (entry_of q value)
          → hash_set strnicmp_eq ht q lower value
            ≡ put_chain strnicmp_eq added q
                (set (take depth chain ++ (entry_of q value ∷ [])) depth (entry_of q value))
                added.count
      unfolding hash_set
      hash_set_adds n h g = ground (arith, find_entry_added value n h, chain_at-added)

      hash_set-present :
          present strnicmp_eq lower q chain ≡ true
          → hash_set strnicmp_eq ht q lower value
            ≡ put_chain strnicmp_eq ht q
                (chain_put strnicmp_eq lower q value chain)
                (new_count true (value == 0) ht.count)
      hash_set-present p =
          let f = find_depth-present strnicmp_eq lower q chain p in
          elim (Bool-cases (value == 0)) [
            | inl z ↦
                let null = (==_iff value 0).0 z in
                rw (z, f.removed value null) (hash_set_removes f null)
            | inr n ↦
                let full : value ≢ 0 = ground arith in
                rw (n, f.stored value full) (hash_set_stores f full)
          ]

      hash_set-absent :
          present strnicmp_eq lower q chain ≡ false
          → hash_set strnicmp_eq ht q lower value
            ≡ put_chain strnicmp_eq ht q
                (chain_put strnicmp_eq lower q value chain)
                (new_count false (value == 0) ht.count)
      unfolding chain_at
      hash_set-absent a =
          let row = bit_and q.hash ht.rows in
          let at_end = find_depth-absent strnicmp_eq lower q chain a in
          let nothing : get_elem? chain depth ≡ none =
            rw at_end (get_elem?-length strnicmp_eq chain) in
          let put = chain_put_absent strnicmp_eq lower q value chain a in
          elim (Bool-cases (value == 0)) [
            | inl z ↦
                rw (put, z)
                  (hash_set_nothing ((==_iff value 0).0 z) nothing
                    ∙ ap (λ (t : List (List Entry)). record ht { table = t })
                        (sym (set-get_or ht.table row [])))
            | inr n ↦
                let full : value ≢ 0 = ground arith in
                let whole : take depth chain ≡ chain = take_all depth chain (omega arith) in
                let at : get_elem? (take depth chain ++ (entry_of q value ∷ [])) depth
                    ≡ some (entry_of q value) =
                  rw (whole, at_end) (get_elem?_end chain (entry_of q value)) in
                rw (put, n)
                  (hash_set_adds full nothing at
                    ∙ rw (whole, at_end, set_end chain (entry_of q value), set-set ht.table row))
          ]

      -- On either branch: one chain, and the count.
      pub hash_set_eq :
          hash_set strnicmp_eq ht q lower value
          ≡ put_chain strnicmp_eq ht q
              (chain_put strnicmp_eq lower q value chain)
              (new_count (present strnicmp_eq lower q chain) (value == 0) ht.count)
      hash_set_eq = elim (Bool-cases (present strnicmp_eq lower q chain)) [
        | inl p ↦ rw p (hash_set-present p)
        | inr a ↦ rw a (hash_set-absent a)
      ]

  -- A lookup is a search in the chain of its query.
  pub get_eq :
      (lower : Bool) (ht : HashTable) (mem : List ℕ) (keylen hval : ℕ)
      → let q = settle mem keylen hval lower in
        get strnicmp_eq ht mem keylen hval lower
        ≡ chain_get strnicmp_eq lower q (chain_at strnicmp_eq ht q)
  unfolding get
  get_eq lower ht mem keylen hval =
      let q = settle mem keylen hval lower in
      let c = chain_at strnicmp_eq ht q in
      elim (Bool-cases (present strnicmp_eq lower q c)) [
        | inl p ↦
            let f = find_depth-present strnicmp_eq lower q c p in
            ground (arith, find_entry_found lower ht q 0 f.entry f.at, f.at, f.value_at)
        | inr a ↦
            let at_end = find_depth-absent strnicmp_eq lower q c a in
            let nothing : get_elem? c (find_depth strnicmp_eq lower q c) ≡ none =
              rw at_end (get_elem?-length strnicmp_eq c) in
            ground (
              arith,
              find_entry_missing lower ht q nothing,
              nothing,
              chain_get_absent strnicmp_eq lower q c a,
            )
      ]
