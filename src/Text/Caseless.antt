-- ===== src/Text/Caseless.antt =====
-- oslib/src/cstring.c, `strnicmp` as the comparison of keys of oslib/src/hash.c.
use zhangxy.Base.{
  ℕ, zero, suc, ◌≡◌, ◌≢◌, ◌↔◌, ◌⊎◌, refl, sym, ◌∙◌, inl, inr, Bool, true, false, ◌&&◌, List, [],
  ◌∷◌, arith, ltb, ◌==◌, ==_iff, Bool-cases, length,
}
use zhangxy.Hash.{to_lower}
use zhangxy.Hash.Same.{IsEquivalence}
use zhangxy.Text.Compare.{Sign, strnicmp_bytes}

abbrev is_same : Sign → Bool
is_same Sign.below = false
is_same Sign.same = true
is_same Sign.above = false

abbrev agree : ℕ → List ℕ → List ℕ → Bool
agree n a b = is_same (strnicmp_bytes n a b)

-- `strnicmp(a, b, n) == 0` for two keys of `n` bytes each.
abbrev pub strnicmp_eq : List ℕ → List ℕ → Bool
strnicmp_eq a b = length a == length b && agree (length a) a b

-- A NUL is like a NUL only.
lower_zero : (x y : ℕ) → to_lower x ≡ to_lower y → x ≡ 0 → y ≡ 0
unfolding to_lower
lower_zero x y h z = ground arith

differ_ne :
    (n x y : ℕ) (xs ys : List ℕ)
    → (to_lower x == to_lower y) ≡ false
    → agree (suc n) (x ∷ xs) (y ∷ ys) ≢ true
unfolding strnicmp_bytes
differ_ne n x y xs ys differ h = elim (Bool-cases (ltb (to_lower x) (to_lower y))) [
  | inl low ↦ let no = rw (differ, low) at h in absurd (ground (arith, no))
  | inr high ↦ let no = rw (differ, high) at h in absurd (ground (arith, no))
]

agree_cons :
    (n x y : ℕ) (xs ys : List ℕ)
    → (agree (suc n) (x ∷ xs) (y ∷ ys) ≡ true)
      ↔ ((to_lower x ≡ to_lower y) × ((x ≡ 0) ⊎ (agree n xs ys ≡ true)))
unfolding strnicmp_bytes
agree_cons n x y xs ys = elim (Bool-cases (to_lower x == to_lower y)) [
  | inr differ ↦ (
    (λ h. absurd (differ_ne n x y xs ys differ h)),
    (λ (e, w). absurd (ground (arith, differ, e))),
  )
  | inl alike ↦
      let e : to_lower x ≡ to_lower y = (==_iff (to_lower x) (to_lower y)).0 alike in
      elim (Bool-cases (x == 0)) [
        | inl nul ↦ ((λ h. (e, inl ((==_iff x 0).0 nul))), (λ w. rw (alike, nul) refl))
        | inr other ↦ (
          (λ h. (e, inr (rw (alike, other) at h))),
          (λ (e', w).
              rw (alike, other) (elim w [ inl z ↦ absurd (ground (arith, other, z)) | inr r ↦ r ])),
        )
      ]
]

agree_refl : (n : ℕ) (a : List ℕ) → agree n a a ≡ true
unfolding strnicmp_bytes
agree_refl zero a = refl
agree_refl (suc n) [] = refl
agree_refl (suc n) (x ∷ xs) = (agree_cons n x x xs xs).1 (refl, inr (agree_refl n xs))

agree_symm : (n : ℕ) (a b : List ℕ) → agree n a b ≡ true → agree n b a ≡ true
unfolding strnicmp_bytes
agree_symm zero a b h = refl
agree_symm (suc n) [] [] h = refl
agree_symm (suc n) [] (y ∷ ys) h = refl
agree_symm (suc n) (x ∷ xs) [] h = refl
agree_symm (suc n) (x ∷ xs) (y ∷ ys) h =
    let (e, w) = (agree_cons n x y xs ys).0 h in
    (agree_cons n y x ys xs).1
      (sym e, elim w [ inl z ↦ inl (lower_zero x y e z) | inr r ↦ inr (agree_symm n xs ys r) ])

agree_trans :
    (n : ℕ) (a b c : List ℕ)
    → length a ≡ length b
    → length b ≡ length c
    → agree n a b ≡ true
    → agree n b c ≡ true
    → agree n a c ≡ true
unfolding strnicmp_bytes
agree_trans zero a b c l m h k = refl
agree_trans (suc n) [] b c l m h k = refl
agree_trans (suc n) (x ∷ xs) b [] l m h k = refl
agree_trans (suc n) (x ∷ xs) [] (z ∷ zs) l m h k = absurd (omega arith)
agree_trans (suc n) (x ∷ xs) (y ∷ ys) (z ∷ zs) l m h k =
    let (e, w) = (agree_cons n x y xs ys).0 h in
    let (e', w') = (agree_cons n y z ys zs).0 k in
    (agree_cons n x z xs zs).1 (
      e ∙ e',
      elim w [
        | inl nul ↦ inl nul
        | inr r ↦ elim w' [
          | inl nul ↦ inl (lower_zero y x (sym e) nul)
          | inr r' ↦ inr (agree_trans n xs ys zs (omega arith) (omega arith) r r')
        ]
      ],
    )

parts :
    (a b : List ℕ) → strnicmp_eq a b ≡ true → (length a ≡ length b) × (agree (length a) a b ≡ true)
parts a b h = elim (Bool-cases (length a == length b)) [
  | inr differ ↦ absurd (ground (arith, differ, h))
  | inl alike ↦ ((==_iff (length a) (length b)).0 alike, rw alike at h)
]

-- The table's condition on the comparison holds for `strnicmp` of the repository.
pub strnicmp_eq-IsEquivalence : IsEquivalence strnicmp_eq
strnicmp_eq-IsEquivalence = record {
  reflexive = λ a. let r = agree_refl (length a) a in ground arith;
  symmetric = λ a b h.
      let (l, g) = parts a b h in
      let len : (length b == length a) ≡ true = ground (arith, l) in
      rw (len, ← l) (agree_symm (length a) a b g);
  transitive = λ a b c h k.
      let (l, g) = parts a b h in
      let (m, g') = parts b c k in
      let len : (length a == length c) ≡ true = ground (arith, l, m) in
      rw len (agree_trans (length a) a b c l m g (rw l g'));
}
