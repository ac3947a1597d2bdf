-- ===== src/Text/Compare.antt =====
-- oslib/src/cstring.c, the comparisons of strings. `memcmp` is that of the C library, by its sign.
use zhangxy.Base.{
  ℕ, zero, suc, ◌<◌, min, ◌≡◌, refl, sym, ◌∙◌, inl, inr, false, List, [], ◌∷◌, map, arith, ltb,
  ◌==◌, if◌then◌else◌, Bool-cases, length, take, take_all,
}
use zhangxy.Hash.{to_lower}

pub data Sign : Type 0 where
  below : Sign
  same : Sign
  above : Sign

abbrev pub sign_of : ℕ → ℕ → Sign
sign_of a b = if ltb a b then below else if a == b then same else above

-- `memcmp` of the first `n` bytes of two strings that have as many.
unfoldable pub memcmp : ℕ → List ℕ → List ℕ → Sign
memcmp zero a b = same
memcmp (suc n) [] b = same
memcmp (suc n) (x ∷ xs) [] = same
memcmp (suc n) (x ∷ xs) (y ∷ ys) =
    let rest = memcmp n xs ys in if x == y then rest else if ltb x y then below else above

-- `strnicmp`, at pointers to strings of `n` bytes at least: it ends early at a NUL.
unfoldable pub strnicmp_bytes : ℕ → List ℕ → List ℕ → Sign
strnicmp_bytes zero a b = same
strnicmp_bytes (suc n) [] b = same
strnicmp_bytes (suc n) (x ∷ xs) [] = same
strnicmp_bytes (suc n) (x ∷ xs) (y ∷ ys) =
    let rest = strnicmp_bytes n xs ys in
    if to_lower x == to_lower y
    then if x == 0 then same else rest
    else if ltb (to_lower x) (to_lower y)
    then below
    else above

-- What `c_strcmp` and `c_stricmp` make of the comparison of the common length.
unfoldable pub by_length : List ℕ → List ℕ → Sign → Sign
by_length a b below = below
by_length a b same = sign_of (length a) (length b)
by_length a b above = above

-- `c_strcmp` and `c_strcmp2`
unfoldable pub strcmp : List ℕ → List ℕ → Sign
unfolding memcmp by_length
strcmp [] [] = same
strcmp [] (y ∷ ys) = below
strcmp (x ∷ xs) [] = above
strcmp (x ∷ xs) (y ∷ ys) =
    by_length (x ∷ xs) (y ∷ ys) (memcmp (min (length (x ∷ xs)) (length (y ∷ ys))) (x ∷ xs) (y ∷ ys))

-- `c_strncmp` and `c_strncmp2`
pub strncmp : List ℕ → List ℕ → ℕ → Sign
unfolding strcmp
strncmp a b len =
    strcmp (if ltb len (length a) then take len a else a)
      (if ltb len (length b) then take len b else b)

-- `c_stricmp` and `c_stricmp2`
unfoldable pub stricmp : List ℕ → List ℕ → Sign
unfolding strnicmp_bytes by_length
stricmp [] [] = same
stricmp [] (y ∷ ys) = below
stricmp (x ∷ xs) [] = above
stricmp (x ∷ xs) (y ∷ ys) =
    by_length (x ∷ xs) (y ∷ ys)
      (strnicmp_bytes (min (length (x ∷ xs)) (length (y ∷ ys))) (x ∷ xs) (y ∷ ys))

-- `c_strnicmp` and `c_strnicmp2`
pub strnicmp : List ℕ → List ℕ → ℕ → Sign
unfolding stricmp
strnicmp a b len =
    stricmp (if ltb len (length a) then take len a else a)
      (if ltb len (length b) then take len b else b)

-- The order of the dictionary.
unfoldable pub lexicographic : List ℕ → List ℕ → Sign
lexicographic [] [] = same
lexicographic [] (y ∷ ys) = below
lexicographic (x ∷ xs) [] = above
lexicographic (x ∷ xs) (y ∷ ys) =
    let rest = lexicographic xs ys in if x == y then rest else if ltb x y then below else above

by_length-suc :
    (x y : ℕ) (xs ys : List ℕ) (r : Sign) → by_length (x ∷ xs) (y ∷ ys) r ≡ by_length xs ys r
unfolding by_length
by_length-suc x y xs ys below = refl
by_length-suc x y xs ys same = ground arith
by_length-suc x y xs ys above = refl

memcmp_lem :
    (a b : List ℕ) → by_length a b (memcmp (min (length a) (length b)) a b) ≡ lexicographic a b
unfolding memcmp by_length lexicographic
memcmp_lem [] [] = refl
memcmp_lem [] (y ∷ ys) =
    let none_shared : min 0 (suc (length ys)) ≡ 0 = omega arith in rw none_shared (ground arith)
memcmp_lem (x ∷ xs) [] =
    let none_shared : min (suc (length xs)) 0 ≡ 0 = omega arith in rw none_shared (ground arith)
memcmp_lem (x ∷ xs) (y ∷ ys) =
    let more : min (suc (length xs)) (suc (length ys)) ≡ suc (min (length xs) (length ys)) =
      omega arith in
    rw more (
      by_length-suc x y xs ys _ ∙ elim (Bool-cases (x == y)) [
        | inl equal ↦ rw equal (memcmp_lem xs ys)
        | inr differs ↦ elim (Bool-cases (ltb x y)) [
          | inl less ↦ rw (differs, less) refl
          | inr more ↦ rw (differs, more) refl
        ]
      ])

strcmp-lexicographic : (a b : List ℕ) → strcmp a b ≡ lexicographic a b
unfolding strcmp
strcmp-lexicographic [] [] = unfold lexicographic in refl
strcmp-lexicographic [] (y ∷ ys) = unfold lexicographic in refl
strcmp-lexicographic (x ∷ xs) [] = unfold lexicographic in refl
strcmp-lexicographic (x ∷ xs) (y ∷ ys) = memcmp_lem (x ∷ xs) (y ∷ ys)

shortened : (a : List ℕ) (len : ℕ) → (if ltb len (length a) then take len a else a) ≡ take len a
shortened a len = elim (Bool-cases (ltb len (length a))) [
  | inl longer ↦ rw longer refl
  | inr short ↦ rw short (sym (take_all len a (ground (arith, short))))
]

-- `c_strcmp` is the order of the dictionary, and `c_strncmp` that of the first `len` bytes.
pub strncmp_lem :
    (a b : List ℕ) (len : ℕ)
    → (strcmp a b ≡ lexicographic a b) × (strncmp a b len ≡ lexicographic (take len a) (take len b))
unfolding strncmp
strncmp_lem a b len = (
  strcmp-lexicographic a b,
  rw (shortened a len, shortened b len) (strcmp-lexicographic (take len a) (take len b)),
)

-- No byte is NUL.
abbrev pub HasNoNul : List ℕ → Type 0
HasNoNul [] = Unit
HasNoNul (c ∷ cs) = (0 < c) × HasNoNul cs

strnicmp_bytes_lem :
    (a b : List ℕ)
    → HasNoNul a
    → by_length a b (strnicmp_bytes (min (length a) (length b)) a b)
      ≡ lexicographic (map to_lower a) (map to_lower b)
unfolding strnicmp_bytes by_length lexicographic
strnicmp_bytes_lem [] [] h = refl
strnicmp_bytes_lem [] (y ∷ ys) h =
    let none_shared : min 0 (suc (length ys)) ≡ 0 = omega arith in rw none_shared (ground arith)
strnicmp_bytes_lem (x ∷ xs) [] h =
    let none_shared : min (suc (length xs)) 0 ≡ 0 = omega arith in rw none_shared (ground arith)
strnicmp_bytes_lem (x ∷ xs) (y ∷ ys) (pos, h) =
    let more : min (suc (length xs)) (suc (length ys)) ≡ suc (min (length xs) (length ys)) =
      omega arith in
    let not_nul : (x == 0) ≡ false = ground arith in
    rw more (
      by_length-suc x y xs ys _ ∙ elim (Bool-cases (to_lower x == to_lower y)) [
        | inl equal ↦ rw (equal, not_nul) (strnicmp_bytes_lem xs ys h)
        | inr differs ↦ elim (Bool-cases (ltb (to_lower x) (to_lower y))) [
          | inl less ↦ rw (differs, less) refl
          | inr more ↦ rw (differs, more) refl
        ]
      ])

stricmp-lexicographic :
    (a b : List ℕ) → HasNoNul a → stricmp a b ≡ lexicographic (map to_lower a) (map to_lower b)
unfolding stricmp
stricmp-lexicographic [] [] h = unfold lexicographic in refl
stricmp-lexicographic [] (y ∷ ys) h = unfold lexicographic in refl
stricmp-lexicographic (x ∷ xs) [] h = unfold lexicographic in refl
stricmp-lexicographic (x ∷ xs) (y ∷ ys) h = strnicmp_bytes_lem (x ∷ xs) (y ∷ ys) h

HasNoNul-take : (a : List ℕ) (len : ℕ) → HasNoNul a → HasNoNul (take len a)
HasNoNul-take a zero h = record {}
HasNoNul-take [] (suc len) h = record {}
HasNoNul-take (c ∷ cs) (suc len) (pos, h) = (pos, HasNoNul-take cs len h)

-- On strings of which the first has no NUL, `c_stricmp` is the order of the dictionary of the lowered
-- strings, and `c_strnicmp` that of their first `len` bytes.
pub strnicmp_lem :
    (a b : List ℕ) (len : ℕ)
    → HasNoNul a
    → (stricmp a b ≡ lexicographic (map to_lower a) (map to_lower b))
      × (strnicmp a b len ≡ lexicographic (map to_lower (take len a)) (map to_lower (take len b)))
unfolding strnicmp
strnicmp_lem a b len h = (
  stricmp-lexicographic a b h,
  rw (shortened a len, shortened b len)
      (stricmp-lexicographic (take len a) (take len b) (HasNoNul-take a len h)),
)
