-- ===== src/Hash/Chain/Keys.antt =====
-- What a write to a chain of distinct keys does to a later search.
use zhangxy.Base.{
  ℕ, ◌+◌, ◌≡◌, refl, sym, ◌∙◌, inl, inr, Bool, true, false, not, List, [], ◌∷◌, arith, ◌==◌,
  if◌then◌else◌, Bool-cases, length,
}
use zhangxy.Hash.{Entry, Query, matches}
use zhangxy.Hash.Same.{
  IsEquivalence, query_of, entry_of, same, matches_symm, matches_alike, matches_self, matches_value,
}
use zhangxy.Hash.Chain.{present, chain_get, chain_put, chain_get_absent, Distinct}

module _ (strnicmp_eq : List ℕ → List ℕ → Bool) (laws : IsEquivalence strnicmp_eq) where
  -- Whether a key is present turns on what it is the same as.
  pub present_alike :
      (lower : Bool) (q q' : Query) (c : List Entry)
      → same strnicmp_eq laws lower q' q ≡ true
      → present strnicmp_eq lower q' c ≡ present strnicmp_eq lower q c
  unfolding present
  present_alike lower q q' [] h = refl
  present_alike lower q q' (e ∷ c) h =
      let ih = present_alike lower q q' c h in
      elim (Bool-cases (matches strnicmp_eq lower q e)) [
        | inl hit ↦ rw (hit, matches_alike strnicmp_eq laws lower q q' e hit, h)
        | inr miss ↦ elim (Bool-cases (matches strnicmp_eq lower q' e)) [
          | inl hit' ↦
              let back = matches_symm strnicmp_eq laws lower q' (entry_of q 0) h in
              ground (arith, matches_alike strnicmp_eq laws lower q' q e hit')
          | inr miss' ↦ rw (miss, miss') ih
        ]
      ]

  -- A query that hits the first entry hits no later one.
  pub present_behind :
      (lower : Bool) (q : Query) (e : Entry) (c : List Entry)
      → Distinct strnicmp_eq lower (e ∷ c)
      → matches strnicmp_eq lower q e ≡ true
      → present strnicmp_eq lower q c ≡ false
  present_behind lower q e c d hit =
      let self = matches_self strnicmp_eq laws lower e in
      let alike = matches_alike strnicmp_eq laws lower (query_of e) q e self in
      present_alike lower (query_of e) q c (sym alike ∙ hit) ∙ d.0

  pub chain_get-chain_put :
      (lower : Bool) (q q' : Query) (v : ℕ) (c : List Entry)
      → Distinct strnicmp_eq lower c
      → chain_get strnicmp_eq lower q' (chain_put strnicmp_eq lower q v c)
        ≡ (if same strnicmp_eq laws lower q' q then v else chain_get strnicmp_eq lower q' c)
  unfolding chain_get chain_put
  chain_get-chain_put lower q q' v [] d =
      ground (arith, matches_value strnicmp_eq laws lower q' (entry_of q 0) v)
  chain_get-chain_put lower q q' v (e ∷ c) d = elim (Bool-cases (matches strnicmp_eq lower q e)) [
    | inl hit ↦ ground (
      arith,
      matches_alike strnicmp_eq laws lower q q' e hit,
      matches_value strnicmp_eq laws lower q' e v,
      present_behind lower q' e c d,
      chain_get_absent strnicmp_eq lower q' c,
    )
    | inr miss ↦ ground (
      arith,
      chain_get-chain_put lower q q' v c d.1,
      matches_alike strnicmp_eq laws lower q' q e,
      matches_symm strnicmp_eq laws lower q' (entry_of q 0),
    )
  ]

  pub present-chain_put :
      (lower : Bool) (q q' : Query) (v : ℕ) (c : List Entry)
      → Distinct strnicmp_eq lower c
      → present strnicmp_eq lower q' (chain_put strnicmp_eq lower q v c) ≡ (
          if same strnicmp_eq laws lower q' q then not (v == 0) else present strnicmp_eq lower q' c)
  unfolding present chain_put
  present-chain_put lower q q' v [] d =
      ground (arith, matches_value strnicmp_eq laws lower q' (entry_of q 0) v)
  present-chain_put lower q q' v (e ∷ c) d = elim (Bool-cases (matches strnicmp_eq lower q e)) [
    | inl hit ↦ ground (
      arith,
      matches_alike strnicmp_eq laws lower q q' e hit,
      matches_value strnicmp_eq laws lower q' e v,
      present_behind lower q' e c d,
    )
    | inr miss ↦ ground (
      arith,
      present-chain_put lower q q' v c d.1,
      matches_alike strnicmp_eq laws lower q' q e,
      matches_symm strnicmp_eq laws lower q' (entry_of q 0),
    )
  ]

  -- A write keeps the keys of a chain distinct.
  pub chain_put-Distinct :
      (lower : Bool) (q : Query) (v : ℕ) (c : List Entry)
      → Distinct strnicmp_eq lower c
      → Distinct strnicmp_eq lower (chain_put strnicmp_eq lower q v c)
  unfolding chain_put present
  chain_put-Distinct lower q v [] d = elim (Bool-cases (v == 0)) [
    | inl z ↦ rw z tt
    | inr n ↦ rw n (refl, tt)
  ]
  chain_put-Distinct lower q v (e ∷ c) d = elim (Bool-cases (matches strnicmp_eq lower q e)) [
    | inl hit ↦ elim (Bool-cases (v == 0)) [ inl z ↦ rw (hit, z) d.1 | inr n ↦ rw (hit, n) d ]
    | inr miss ↦
        let apart : same strnicmp_eq laws lower (query_of e) q ≡ false = ground (
          arith,
          matches_symm strnicmp_eq laws lower (query_of e) (entry_of q 0),
          matches_value strnicmp_eq laws lower q e 0,
        ) in
        rw miss (
          present-chain_put lower q (query_of e) v c d.1 ∙ rw apart d.0,
          chain_put-Distinct lower q v c d.1,
        )
  ]

  -- The length changes by the one entry that is added or taken away.
  pub length-chain_put :
      (lower : Bool) (q : Query) (v : ℕ) (c : List Entry)
      → length (chain_put strnicmp_eq lower q v c)
          + (if present strnicmp_eq lower q c then 1 else 0)
        ≡ length c + (if v == 0 then 0 else 1)
  unfolding chain_put present
  length-chain_put lower q v [] = ground arith
  length-chain_put lower q v (e ∷ c) = ground (arith, length-chain_put lower q v c)
