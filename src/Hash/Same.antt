-- ===== src/Hash/Same.antt =====
-- When two keys are the same to the table, in either mode.
use zhangxy.Base.{
  ℕ, ◌≡◌, refl, sym, ◌∙◌, ◌↔◌, inl, inr, Bool, true, List, [], ◌∷◌, arith, ==_iff, Bool-cases,
}
use zhangxy.Hash.{Entry, Query, memcmp_eq, matches}

-- What the table needs of `strnicmp(a, b, n) == 0`, for keys of one length.
pub record IsEquivalence (eq : List ℕ → List ℕ → Bool) : Type 0 where
  pub reflexive : (a : List ℕ) → eq a a ≡ true
  pub symmetric : (a b : List ℕ) → eq a b ≡ true → eq b a ≡ true
  pub transitive : (a b c : List ℕ) → eq a b ≡ true → eq b c ≡ true → eq a c ≡ true

pub memcmp_eq_iff : (a b : List ℕ) → (memcmp_eq a b ≡ true) ↔ (a ≡ b)
unfolding memcmp_eq
memcmp_eq_iff [] [] = ground arith
memcmp_eq_iff [] (y ∷ ys) = ground arith
memcmp_eq_iff (x ∷ xs) [] = ground arith
memcmp_eq_iff (x ∷ xs) (y ∷ ys) = ground (arith, memcmp_eq_iff xs ys)

-- The query that an entry answers, and the entry that a query would add.
abbrev pub query_of : Entry → Query
query_of e = record { key = e.key; hash = e.hash; keylen = e.keylen }

abbrev pub entry_of : Query → ℕ → Entry
entry_of q v = record { key = q.key; hash = q.hash; keylen = q.keylen; value = v }

module _ (strnicmp_eq : List ℕ → List ℕ → Bool) (laws : IsEquivalence strnicmp_eq) where
  -- Whether two queries are for one entry.
  abbrev pub same : Bool → Query → Query → Bool
  same lower q q' = matches strnicmp_eq lower q (entry_of q' 0)

  pub same_refl : (lower : Bool) (q : Query) → same lower q q ≡ true
  unfolding matches
  same_refl lower q = ground (
    arith,
    laws.reflexive q.key,
    memcmp_eq_iff q.key q.key,
    (==_iff q.hash q.hash).1 refl,
    (==_iff q.keylen q.keylen).1 refl,
  )

  pub matches_symm :
      (lower : Bool) (q : Query) (e : Entry)
      → matches strnicmp_eq lower q e ≡ true
      → matches strnicmp_eq lower (query_of e) (entry_of q 0) ≡ true
  unfolding matches
  matches_symm lower q e h =
      ground
        (arith, laws.symmetric e.key q.key, memcmp_eq_iff e.key q.key, memcmp_eq_iff q.key e.key)

  pub matches_trans :
      (lower : Bool) (q q' : Query) (e : Entry)
      → matches strnicmp_eq lower q e ≡ true
      → matches strnicmp_eq lower q' (entry_of q 0) ≡ true
      → matches strnicmp_eq lower q' e ≡ true
  unfolding matches
  matches_trans lower q q' e h k = ground (
    arith,
    laws.transitive e.key q.key q'.key,
    memcmp_eq_iff e.key q.key,
    memcmp_eq_iff q.key q'.key,
    memcmp_eq_iff e.key q'.key,
  )

  matches_trans_back :
      (lower : Bool) (q q' : Query) (e : Entry)
      → matches strnicmp_eq lower q e ≡ true
      → matches strnicmp_eq lower q' e ≡ true
      → matches strnicmp_eq lower q' (entry_of q 0) ≡ true
  unfolding matches
  matches_trans_back lower q q' e h k = ground (
    arith,
    laws.transitive q.key e.key q'.key,
    laws.symmetric e.key q.key,
    memcmp_eq_iff e.key q.key,
    memcmp_eq_iff e.key q'.key,
    memcmp_eq_iff q.key q'.key,
  )

  -- The queries that an entry answers are those that are the same as one of them.
  pub matches_alike :
      (lower : Bool) (q q' : Query) (e : Entry)
      → matches strnicmp_eq lower q e ≡ true
      → matches strnicmp_eq lower q' e ≡ same lower q' q
  matches_alike lower q q' e h = elim (Bool-cases (matches strnicmp_eq lower q' e)) [
    | inl yes_e ↦ yes_e ∙ sym (matches_trans_back lower q q' e h yes_e)
    | inr no_e ↦ elim (Bool-cases (same lower q' q)) [
      | inl yes_q ↦ matches_trans lower q q' e h yes_q ∙ sym yes_q
      | inr no_q ↦ no_e ∙ sym no_q
    ]
  ]

  pub matches_self : (lower : Bool) (e : Entry) → matches strnicmp_eq lower (query_of e) e ≡ true
  unfolding matches
  matches_self lower e = ground (
    arith,
    laws.reflexive e.key,
    memcmp_eq_iff e.key e.key,
    (==_iff e.hash e.hash).1 refl,
    (==_iff e.keylen e.keylen).1 refl,
  )

  -- A search sees the key of an entry, not its value.
  pub matches_value :
      (lower : Bool) (q : Query) (e : Entry) (v : ℕ)
      → matches strnicmp_eq lower q (record e { value = v }) ≡ matches strnicmp_eq lower q e
  unfolding matches
  matches_value lower q e v = refl
