-- ===== src/RbTree/Zipper.antt =====
-- oslib/src/rbtree.c: a node of a tree with the way up from it.
use zhangxy.Base.{
  ℕ, ◌+◌, ◌<◌, ◌≡◌, refl, sym, ap, ◌∙◌, ◌≢◌, ◌⊎◌, inl, inr, false, List, [], ◌∷◌, ◌++◌, arith, ◌==◌,
  if◌then◌else◌,
}
use mathlib.Core.Path.{subst}
use zhangxy.RbTree.{RbTree}
use zhangxy.RbTree.Shape.{Tree, leaf, node, inorder, Shape}

-- A step up from a left child, with the right one; or from a right child, with the left one.
pub data Step : Type 0 where
  from_left : ℕ → Tree → Step
  from_right : Tree → ℕ → Step

unfoldable pub plug : List Step → Tree → Tree
plug [] s = s
plug (from_left a r ∷ c) s = plug c (node s a r)
plug (from_right l a ∷ c) s = plug c (node l a s)

-- How often an address is in a tree.
unfoldable pub count : Tree → ℕ → ℕ
count leaf y = 0
count (node l a r) y = count l y + (if y == a then 1 else 0) + count r y

unfoldable pub count_up : List Step → ℕ → ℕ
unfolding count
count_up [] y = 0
count_up (from_left a r ∷ c) y = (if y == a then 1 else 0) + count r y + count_up c y
count_up (from_right l a ∷ c) y = (if y == a then 1 else 0) + count l y + count_up c y

pub count-plug : (c : List Step) (s : Tree) (y : ℕ) → count (plug c s) y ≡ count_up c y + count s y
unfolding plug count count_up
count-plug [] s y = omega arith
count-plug (from_left a r ∷ c) s y = omega (arith, count-plug c (node s a r) y)
count-plug (from_right l a ∷ c) s y = omega (arith, count-plug c (node l a s) y)

-- Trees with the same order in a place are in the same order as a whole.
pub inorder-plug :
    (c : List Step) (s s' : Tree)
    → inorder s ≡ inorder s'
    → inorder (plug c s) ≡ inorder (plug c s')
unfolding plug
inorder-plug [] s s' h = h
inorder-plug (from_left a r ∷ c) s s' h =
    inorder-plug c (node s a r) (node s' a r) (ap (λ xs. xs ++ a ∷ inorder r) h)
inorder-plug (from_right l a ∷ c) s s' h =
    inorder-plug c (node l a s) (node l a s') (ap (λ xs. inorder l ++ a ∷ xs) h)

-- The pointers around the place `x` below `up`.
abbrev pub Above : RbTree → ℕ → ℕ → List Step → Type 0
Above t up x [] = (up ≡ t.null) × (x ≡ t.root)
Above t up x (from_left a r ∷ c) =
    (up ≡ a) × (a ≢ t.null) × (t.left a ≡ x) × Shape t a (t.right a) r × Above t (t.parent a) a c
Above t up x (from_right l a ∷ c) =
    (up ≡ a) × (a ≢ t.null) × (t.right a ≡ x) × Shape t a (t.left a) l × Above t (t.parent a) a c

pub Shape-open :
    (t : RbTree) (c : List Step) (s : Tree)
    → Shape t t.null t.root (plug c s)
    → (up : ℕ) × (x : ℕ) × Above t up x c × Shape t up x s
unfolding plug
Shape-open t [] s h = (t.null, t.root, (refl, refl), h)
Shape-open t (from_left a r ∷ c) s h =
    let (up, x, above, (e, some_a, e', hs, hr)) = Shape-open t c (node s a r) h in
    (a, t.left a, (refl, some_a, refl, hr, rw e' (subst (λ z. Above t up z c) e above)), hs)
Shape-open t (from_right l a ∷ c) s h =
    let (up, x, above, (e, some_a, e', hl, hs)) = Shape-open t c (node l a s) h in
    (a, t.right a, (refl, some_a, refl, hl, rw e' (subst (λ z. Above t up z c) e above)), hs)

pub Shape-close :
    (t : RbTree) (c : List Step) (s : Tree) (up x : ℕ)
    → Above t up x c
    → Shape t up x s
    → Shape t t.null t.root (plug c s)
unfolding plug
Shape-close t [] s up x (e, e') h =
    subst (λ z. Shape t t.null z s) e' (subst (λ z. Shape t z x s) e h)
Shape-close t (from_left a r ∷ c) s up x (e, some_a, e', hr, above) h =
    Shape-close t c (node s a r) (t.parent a) a above
      (refl, some_a, refl, rw e' (subst (λ z. Shape t z x s) e h), hr)
Shape-close t (from_right l a ∷ c) s up x (e, some_a, e', hl, above) h =
    Shape-close t c (node l a s) (t.parent a) a above
      (refl, some_a, refl, hl, rw e' (subst (λ z. Shape t z x s) e h))

-- Of a node that a change of the pointers leaves alone.
abbrev pub Same : RbTree → RbTree → ℕ → Type 0
Same t t' y = (t'.parent y ≡ t.parent y) × (t'.left y ≡ t.left y) × (t'.right y ≡ t.right y)

pub Shape-frame :
    (t t' : RbTree) (s : Tree) (up x : ℕ)
    → t'.null ≡ t.null
    → ((y : ℕ) → 0 < count s y → Same t t' y)
    → Shape t up x s
    → Shape t' up x s
unfolding count
Shape-frame t t' leaf up x n h k = rw n k
Shape-frame t t' (node l a r) up x n h (e, some_a, e', hl, hr) =
    let (p, q, u) = h a (ground arith) in
    (
      e,
      rw n some_a,
      p ∙ e',
      rw q (Shape-frame t t' l a (t.left a) n (λ y k. h y (omega arith)) hl),
      rw u (Shape-frame t t' r a (t.right a) n (λ y k. h y (omega arith)) hr),
    )

pub Above-frame :
    (t t' : RbTree) (c : List Step) (up x : ℕ)
    → t'.null ≡ t.null
    → t'.root ≡ t.root
    → ((y : ℕ) → 0 < count_up c y → Same t t' y)
    → Above t up x c
    → Above t' up x c
unfolding count_up
Above-frame t t' [] up x n m h (e, e') = (e ∙ sym n, e' ∙ sym m)
Above-frame t t' (from_left a r ∷ c) up x n m h (e, some_a, e', hr, above) =
    let (p, q, u) = h a (ground arith) in
    (
      e,
      rw n some_a,
      q ∙ e',
      rw u (Shape-frame t t' r a (t.right a) n (λ y k. h y (omega arith)) hr),
      rw p (Above-frame t t' c (t.parent a) a n m (λ y k. h y (omega arith)) above),
    )
Above-frame t t' (from_right l a ∷ c) up x n m h (e, some_a, e', hl, above) =
    let (p, q, u) = h a (ground arith) in
    (
      e,
      rw n some_a,
      u ∙ e',
      rw q (Shape-frame t t' l a (t.left a) n (λ y k. h y (omega arith)) hl),
      rw p (Above-frame t t' c (t.parent a) a n m (λ y k. h y (omega arith)) above),
    )

-- A place is null or is a node.
pub Shape-place :
    (t : RbTree) (s : Tree) (up x : ℕ) → Shape t up x s → (x ≡ t.null) ⊎ (0 < count s x)
unfolding count
Shape-place t leaf up x h = inl h
Shape-place t (node l a r) up x h = let e = h.0 in inr (ground (arith, e))

pub Above-place :
    (t : RbTree) (c : List Step) (up x : ℕ) → Above t up x c → (up ≡ t.null) ⊎ (0 < count_up c up)
unfolding count_up
Above-place t [] up x (e, _) = inl e
Above-place t (from_left a r ∷ c) up x h = let e = h.0 in inr (ground (arith, e))
Above-place t (from_right l a ∷ c) up x h = let e = h.0 in inr (ground (arith, e))

-- The null node is in no tree.
pub Shape-null : (t : RbTree) (s : Tree) (up x : ℕ) → Shape t up x s → count s t.null ≡ 0
unfolding count
Shape-null t leaf up x h = refl
Shape-null t (node l a r) up x (e, some_a, _, hl, hr) =
    let other : (t.null == a) ≡ false = ground (arith, some_a) in
    rw (Shape-null t l a (t.left a) hl, Shape-null t r a (t.right a) hr, other) refl
