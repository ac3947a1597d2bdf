-- ===== src/RbTree/Rotate.antt =====
-- oslib/src/rbtree.c: the pointers behind `left_rotate` and `right_rotate`.
use zhangxy.Base.{ℕ, ◌≡◌, refl, inl, inr, false, not, ◌&&◌, ◌==◌, if◌then◌else◌, Bool-cases}
use zhangxy.RbTree.{RbTree, relink, left_rotate}

-- The nodes around a rotation of `n` to the left: its right child `r`, the left child `b` of that,
-- and its parent `p`.
pub record Around (t : RbTree) (n r b p : ℕ) : Type 0 where
  pub child : t.right n ≡ r
  pub inner : t.left r ≡ b
  pub above : t.parent n ≡ p
  pub some_child : (r == t.null) ≡ false
  pub apart : (n == b) ≡ false

-- What the fields are behind it.
abbrev pub Turned : RbTree → RbTree → ℕ → ℕ → ℕ → ℕ → Type 0
Turned t t' n r b p =
    ((y : ℕ)
      → t'.parent y ≡ (
          if y == n
          then r
          else if y == r
          then p
          else if not (b == t.null) && y == b
          then n
          else t.parent y))
    × ((y : ℕ)
        → t'.left y ≡ (
            if y == r
            then n
            else if not (p == t.null) && (t.left p == n && y == p)
            then r
            else t.left y))
    × ((y : ℕ)
        → t'.right y ≡ (
            if not (p == t.null) && (not (t.left p == n) && y == p)
            then r
            else if y == n
            then b
            else t.right y))
    × (t'.root ≡ (if p == t.null then r else t.root))
    × (t'.null ≡ t.null)

pub left_rotate-Turned :
    (t : RbTree) (n r b p : ℕ) → Around t n r b p → Turned t (left_rotate t n) n r b p
unfolding left_rotate relink
left_rotate-Turned t n r b p h = elim (Bool-cases (b == t.null)) [
  | inl e ↦ elim (Bool-cases (p == t.null)) [
    | inl f ↦
        rw (h.child, h.some_child, h.inner, e, h.above, f)
          ((λ y. refl), (λ y. refl), (λ y. refl), refl, refl)
    | inr f ↦ elim (Bool-cases (t.left p == n)) [
      | inl g ↦
          rw (h.child, h.some_child, h.inner, e, h.above, f, g)
            ((λ y. refl), (λ y. refl), (λ y. refl), refl, refl)
      | inr g ↦
          rw (h.child, h.some_child, h.inner, e, h.above, f, g)
            ((λ y. refl), (λ y. refl), (λ y. refl), refl, refl)
    ]
  ]
  | inr e ↦ elim (Bool-cases (p == t.null)) [
    | inl f ↦
        rw (h.child, h.some_child, h.inner, e, h.above, h.apart, f)
          ((λ y. refl), (λ y. refl), (λ y. refl), refl, refl)
    | inr f ↦ elim (Bool-cases (t.left p == n)) [
      | inl g ↦
          rw (h.child, h.some_child, h.inner, e, h.above, h.apart, f, g)
            ((λ y. refl), (λ y. refl), (λ y. refl), refl, refl)
      | inr g ↦
          rw (h.child, h.some_child, h.inner, e, h.above, h.apart, f, g)
            ((λ y. refl), (λ y. refl), (λ y. refl), refl, refl)
    ]
  ]
]
