-- ===== src/Scan/Spans.antt =====
-- The loops over characters that satisfy a test.
use zhangxy.Base.{
  ℕ, zero, suc, ◌+◌, ◌-◌, ◌≤◌, ◌<◌, ◌≡◌, refl, ap, inl, inr, Bool, true, false, List, [], ◌∷◌,
  arith, Bool-cases, length, get_or, drop, length-drop,
}
use zhangxy.Scan.{run_while, Scanner, end_of, byte_at, skip_while}

pub run_while-le : (p : ℕ → Bool) (xs : List ℕ) → run_while p xs ≤ length xs
unfolding run_while
run_while-le p [] = omega arith
run_while-le p (c ∷ cs) = ground (arith, run_while-le p cs)

-- All bytes of a span pass the test, and the byte behind it does not.
pub run_while_inside :
    (p : ℕ → Bool) (xs : List ℕ) (i : ℕ) → i < run_while p xs → p (get_or xs i 0) ≡ true
unfolding run_while
run_while_inside p [] i h = absurd (omega arith)
run_while_inside p (c ∷ cs) zero h = ground arith
run_while_inside p (c ∷ cs) (suc i) h = ground (arith, run_while_inside p cs i)

pub run_while_stops :
    (p : ℕ → Bool) (xs : List ℕ) → p 0 ≡ false → p (get_or xs (run_while p xs) 0) ≡ false
unfolding run_while
run_while_stops p [] h = h
run_while_stops p (c ∷ cs) h = elim (Bool-cases (p c)) [
  | inl more ↦ rw more (run_while_stops p cs h)
  | inr stop ↦ rw (stop, stop)
]

-- A span that is not the rest of the bytes ends at a byte that fails the test.
pub run_while_end :
    (p : ℕ → Bool) (xs : List ℕ)
    → run_while p xs < length xs
    → p (get_or xs (run_while p xs) 0) ≡ false
unfolding run_while
run_while_end p [] h = absurd (omega arith)
run_while_end p (c ∷ cs) h = elim (Bool-cases (p c)) [
  | inl more ↦ rw more (run_while_end p cs (ground arith))
  | inr stop ↦ rw (stop, stop)
]

pub get_or-drop {ℓ} :
    {A : Type ℓ} (xs : List A) (n i : ℕ) (d : A) → get_or (drop n xs) i d ≡ get_or xs (n + i) d
get_or-drop xs zero i d = ap (λ k. get_or xs k d) (omega arith)
get_or-drop [] (suc n) i d = refl
get_or-drop (x ∷ xs) (suc n) i d =
    let e : suc n + i ≡ suc (n + i) = omega arith in rw e (get_or-drop xs n i d)

pub get_or_end {ℓ} : {A : Type ℓ} (xs : List A) (i : ℕ) (d : A) → length xs ≤ i → get_or xs i d ≡ d
get_or_end [] i d h = refl
get_or_end (x ∷ xs) zero d h = absurd (omega arith)
get_or_end (x ∷ xs) (suc i) d h = get_or_end xs i d (omega arith)

module _ (p : ℕ → Bool) (sc : Scanner) (s : ℕ) where
  pub skip_while-le : s ≤ end_of sc → skip_while p sc s ≤ end_of sc
  skip_while-le h = omega (arith, run_while-le p (drop s sc.text), length-drop s sc.text)

  pub skip_while-ge : s ≤ skip_while p sc s
  skip_while-ge = omega arith

  pub skip_while_inside : (i : ℕ) → s ≤ i → i < skip_while p sc s → p (byte_at sc i) ≡ true
  skip_while_inside i h k =
      let e : s + (i - s) ≡ i = omega arith in
      rw e at (rw get_or-drop at (run_while_inside p (drop s sc.text) (i - s) (omega arith)))

  pub skip_while_stops : p 0 ≡ false → p (byte_at sc (skip_while p sc s)) ≡ false
  skip_while_stops h = rw get_or-drop at (run_while_stops p (drop s sc.text) h)

  pub skip_while_end : skip_while p sc s < end_of sc → p (byte_at sc (skip_while p sc s)) ≡ false
  skip_while_end h =
      rw get_or-drop at (run_while_end p (drop s sc.text) (omega (arith, length-drop s sc.text)))

drop-cons : (xs : List ℕ) (s : ℕ) → s < length xs → drop s xs ≡ get_or xs s 0 ∷ drop (s + 1) xs
drop-cons [] s h = elim h [ ]
drop-cons (x ∷ xs) zero h = refl
drop-cons (x ∷ xs) (suc s) h =
    let next : suc s + 1 ≡ suc (s + 1) = omega arith in rw next (drop-cons xs s (omega arith))

-- A byte that passes is one step of the loop.
pub skip_while_step :
    (p : ℕ → Bool) (sc : Scanner) (s : ℕ)
    → s < end_of sc
    → p (byte_at sc s) ≡ true
    → skip_while p sc s ≡ skip_while p sc (s + 1)
unfolding run_while
skip_while_step p sc s h k = rw (drop-cons sc.text s h, k) (omega arith)
