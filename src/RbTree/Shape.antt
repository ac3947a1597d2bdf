-- ===== src/RbTree/Shape.antt =====
-- oslib/src/rbtree.c: the tree that the pointers of the nodes make up.
use zhangxy.Base.{
  ℕ, suc, ◌≤◌, ◌<◌, ◌≡◌, refl, ◌≢◌, inl, inr, false, List, [], ◌∷◌, ◌++◌, arith, ltb, ◌==◌,
  if◌then◌else◌, Bool-cases,
}
use zhangxy.Base.Int.{ℤ, pos, ltz, eqz}
use Prim.Native.Nat.{max}
use zhangxy.RbTree.{RbTree}

-- A tree of addresses.
pub data Tree : Type 0 where
  leaf : Tree
  node : Tree → ℕ → Tree → Tree

abbrev pub inorder : Tree → List ℕ
inorder leaf = []
inorder (node l a r) = inorder l ++ a ∷ inorder r

abbrev pub depth : Tree → ℕ
depth leaf = 0
depth (node l a r) = suc (max (depth l) (depth r))

-- Below `up`, the pointers from `x` on make up the tree.
abbrev pub Shape : RbTree → ℕ → ℕ → Tree → Type 0
Shape t up x leaf = x ≡ t.null
Shape t up x (node l a r) =
    (x ≡ a) × (a ≢ t.null) × (t.parent a ≡ up) × Shape t a (t.left a) l × Shape t a (t.right a) r

-- The comparison is that of the ranks of the keys.
pub record Compares (comp : ℕ → ℕ → ℤ) (rank : ℕ → ℕ) : Type 0 where
  pub less : (a b : ℕ) → ltz (comp a b) (pos 0) ≡ ltb (rank a) (rank b)
  pub same : (a b : ℕ) → eqz (comp a b) (pos 0) ≡ (rank a == rank b)

-- Each rank is less than, or greater than, `n`.
abbrev pub AllLess : (ℕ → ℕ) → List ℕ → ℕ → Type 0
AllLess rank [] n = Unit
AllLess rank (a ∷ rest) n = (rank a < n) × AllLess rank rest n

abbrev pub AllMore : (ℕ → ℕ) → List ℕ → ℕ → Type 0
AllMore rank [] n = Unit
AllMore rank (a ∷ rest) n = (n < rank a) × AllMore rank rest n

-- The ranks of the nodes grow from left to right.
abbrev pub IsSorted : (ℕ → ℕ) → List ℕ → Type 0
IsSorted rank [] = Unit
IsSorted rank (a ∷ rest) = AllMore rank rest (rank a) × IsSorted rank rest

-- The first node of the rank, or NULL.
abbrev pub seek : (ℕ → ℕ) → ℕ → List ℕ → ℕ
seek rank n [] = 0
seek rank n (a ∷ rest) = let later = seek rank n rest in if rank a == n then a else later

pub AllMore-append :
    (rank : ℕ → ℕ) (xs ys : List ℕ) (n : ℕ)
    → AllMore rank (xs ++ ys) n
    → AllMore rank xs n × AllMore rank ys n
AllMore-append rank [] ys n h = (_, h)
AllMore-append rank (x ∷ xs) ys n (h, hs) =
    let (k, ks) = AllMore-append rank xs ys n hs in ((h, k), ks)

-- A sorted list with a node in its midst.
pub IsSorted-mid :
    (rank : ℕ → ℕ) (xs : List ℕ) (a : ℕ) (ys : List ℕ)
    → IsSorted rank (xs ++ a ∷ ys)
    → IsSorted rank xs × AllLess rank xs (rank a) × AllMore rank ys (rank a) × IsSorted rank ys
IsSorted-mid rank [] a ys (h, hs) = (_, _, h, hs)
IsSorted-mid rank (x ∷ xs) a ys (h, hs) =
    let (s, l, m, r) = IsSorted-mid rank xs a ys hs in
    let (front, (above, back)) = AllMore-append rank xs (a ∷ ys) (rank x) h in
    ((front, s), (above, l), m, r)

pub seek-append :
    (rank : ℕ → ℕ) (n : ℕ) (xs ys : List ℕ)
    → AllLess rank xs n
    → seek rank n (xs ++ ys) ≡ seek rank n ys
seek-append rank n [] ys h = refl
seek-append rank n (x ∷ xs) ys (h, hs) =
    let miss : (rank x == n) ≡ false = ground (arith, h) in rw miss (seek-append rank n xs ys hs)

pub seek-more : (rank : ℕ → ℕ) (n : ℕ) (xs : List ℕ) → AllMore rank xs n → seek rank n xs ≡ 0
seek-more rank n [] h = refl
seek-more rank n (x ∷ xs) (h, hs) =
    let miss : (rank x == n) ≡ false = ground (arith, h) in rw miss (seek-more rank n xs hs)

pub seek-front :
    (rank : ℕ → ℕ) (n : ℕ) (xs ys : List ℕ)
    → AllMore rank ys n
    → seek rank n (xs ++ ys) ≡ seek rank n xs
seek-front rank n [] ys h = seek-more rank n ys h
seek-front rank n (x ∷ xs) ys h = elim (Bool-cases (rank x == n)) [
  | inl e ↦ rw e refl
  | inr e ↦ rw e (seek-front rank n xs ys h)
]

-- Bounds are passed on.
pub AllLess-mono :
    (rank : ℕ → ℕ) (xs : List ℕ) (m n : ℕ) → AllLess rank xs m → m ≤ n → AllLess rank xs n
AllLess-mono rank [] m n h k = _
AllLess-mono rank (x ∷ xs) m n (h, hs) k = (omega arith, AllLess-mono rank xs m n hs k)

pub AllMore-mono :
    (rank : ℕ → ℕ) (xs : List ℕ) (m n : ℕ) → AllMore rank xs m → n ≤ m → AllMore rank xs n
AllMore-mono rank [] m n h k = _
AllMore-mono rank (x ∷ xs) m n (h, hs) k = (omega arith, AllMore-mono rank xs m n hs k)
