-- ===== src/Hash/Chain.antt =====
-- The calls of `HASH_Get` and `HASH_Set` on one chain, as recursive functions.
pub mod Keys
use zhangxy.Base.{
  ℕ, zero, suc, ◌+◌, ◌-◌, ◌*◌, ◌/◌, ◌%◌, ◌^◌, ◌≤◌, ◌<◌, min, ◌≡◌, refl, sym, ap, ap₂, ◌∙◌, ◌≢◌, ◌↔◌,
  ◌⊎◌, inl, inr, Bool, true, false, not, ◌&&◌, ◌||◌, Option, none, some, List, [], ◌∷◌, ◌++◌, map,
  append-nil, append_assoc, arith, ltb, leb, ◌==◌, bool_eq, if◌then◌else◌, ltb→lt, lt→ltb, le→ltb,
  leb→le, ==_iff, Bool-cases, Option-cases, le_cases, u32_add, u32_sub, length, get_elem?, get_or,
  set, take, drop, replicate, length-append, length-take, length-drop, length-set, length-replicate,
  take-nil, drop-nil, take_all, drop_all, take-append-drop, take-append_le, take-append_ge,
  drop-append_le, take-append_self, drop-append_self, drop-append_ge, drop-take, take-take,
  drop-drop, overwrite, length-overwrite,
}
use zhangxy.Hash.{Entry, Query, matches, find_depth}
use zhangxy.Hash.Same.{
  IsEquivalence, query_of, entry_of, same, same_refl, matches_symm, matches_alike, matches_self,
  matches_value,
}

module _ (strnicmp_eq : List ℕ → List ℕ → Bool) where
  pub present : Bool → Query → List Entry → Bool
  present lower q [] = false
  present lower q (e ∷ c) = matches strnicmp_eq lower q e || present lower q c

  pub chain_get : Bool → Query → List Entry → ℕ
  chain_get lower q [] = 0
  chain_get lower q (e ∷ c) = if matches strnicmp_eq lower q e then e.value else chain_get lower q c

  pub chain_put : Bool → Query → ℕ → List Entry → List Entry
  chain_put lower q v [] = if v == 0 then [] else entry_of q v ∷ []
  chain_put lower q v (e ∷ c) =
      if matches strnicmp_eq lower q e
      then (if v == 0 then c else record e { value = v } ∷ c)
      else e ∷ chain_put lower q v c

  -- What the search loop finds.
  pub find_depth-absent :
      (lower : Bool) (q : Query) (c : List Entry)
      → present lower q c ≡ false
      → find_depth strnicmp_eq lower q c ≡ length c
  unfolding present find_depth
  find_depth-absent lower q [] h = refl
  find_depth-absent lower q (e ∷ c) h = ground (arith, find_depth-absent lower q c)

  pub get_elem?-length : (c : List Entry) → get_elem? c (length c) ≡ none
  get_elem?-length [] = refl
  get_elem?-length (e ∷ c) = get_elem?-length c

  pub chain_put_absent :
      (lower : Bool) (q : Query) (v : ℕ) (c : List Entry)
      → present lower q c ≡ false
      → chain_put lower q v c ≡ (if v == 0 then c else c ++ (entry_of q v ∷ []))
  unfolding present chain_put
  chain_put_absent lower q v [] h = ground arith
  chain_put_absent lower q v (e ∷ c) h = ground (arith, chain_put_absent lower q v c)

  pub chain_get_absent :
      (lower : Bool) (q : Query) (c : List Entry)
      → present lower q c ≡ false
      → chain_get lower q c ≡ 0
  unfolding present chain_get
  chain_get_absent lower q [] h = refl
  chain_get_absent lower q (e ∷ c) h = ground (arith, chain_get_absent lower q c)

  -- The link that the search stops at, where the chain has the key.
  pub record Found (lower : Bool) (q : Query) (c : List Entry) (d : ℕ) : Type 0 where
    pub entry : Entry
    pub at : get_elem? c d ≡ some entry
    pub value_at : chain_get lower q c ≡ entry.value
    pub removed : (v : ℕ) → v ≡ 0 → chain_put lower q v c ≡ take d c ++ drop (d + 1) c
    pub stored : (v : ℕ) → v ≢ 0 → chain_put lower q v c ≡ set c d (record entry { value = v })

  find_depth_here :
      (lower : Bool) (q : Query) (e : Entry) (c : List Entry)
      → matches strnicmp_eq lower q e ≡ true
      → Found lower q (e ∷ c) 0
  unfolding chain_get chain_put
  find_depth_here lower q e c h = record {
    entry = e;
    at = refl;
    value_at = rw h;
    removed = λ v z. rw (h, (==_iff v 0).1 z);
    stored = λ v n. rw h (ground arith);
  }

  find_depth_further :
      (lower : Bool) (q : Query) (e : Entry) (c : List Entry) (d : ℕ)
      → matches strnicmp_eq lower q e ≡ false
      → Found lower q c d
      → Found lower q (e ∷ c) (suc d)
  unfolding chain_get chain_put
  find_depth_further lower q e c d h f =
      let next : suc d + 1 ≡ suc (d + 1) = omega arith in
      record {
        entry = f.entry;
        at = f.at;
        value_at = rw h f.value_at;
        removed = λ v z. rw (h, next) (ap (◌∷◌ e) (f.removed v z));
        stored = λ v n. rw h (ap (◌∷◌ e) (f.stored v n));
      }

  pub find_depth-present :
      (lower : Bool) (q : Query) (c : List Entry)
      → present lower q c ≡ true
      → Found lower q c (find_depth strnicmp_eq lower q c)
  unfolding present find_depth
  find_depth-present lower q [] h = cc
  find_depth-present lower q (e ∷ c) h = elim (Bool-cases (matches strnicmp_eq lower q e)) [
    | inl here ↦ rw here (find_depth_here lower q e c here)
    | inr there ↦
        let later : present lower q c ≡ true = ground arith in
        rw there (find_depth_further lower q e c _ there (find_depth-present lower q c later))
  ]

  -- No two entries of the chain have the same key.
  abbrev pub Distinct : Bool → List Entry → Type 0
  Distinct lower [] = Unit
  Distinct lower (e ∷ c) = (present lower (query_of e) c ≡ false) × Distinct lower c
