-- ===== src/RbTree/Mirror.antt =====
-- oslib/src/rbtree.c: `right_rotate`, as `left_rotate` in the mirror.
use zhangxy.Base.{
  ℕ, ◌≡◌, refl, ◌≢◌, inl, inr, true, false, not, List, [], ◌∷◌, arith, ◌==◌, ==_iff, Bool-cases,
}
use zhangxy.RbTree.{RbTree, relink, right_rotate}
use zhangxy.RbTree.Shape.{Tree, leaf, node, Shape}
use zhangxy.RbTree.Rotate.{Around, Turned}
use zhangxy.RbTree.Zipper.{Step, from_left, from_right, plug, count, count_up, Above, Shape-place}
use zhangxy.RbTree.Turn.{differ}

unfoldable pub mirror : RbTree → RbTree
mirror t = record t { left = t.right; right = t.left }

unfoldable pub flip : Tree → Tree
flip leaf = leaf
flip (node l a r) = node (flip r) a (flip l)

unfoldable pub flip_up : List Step → List Step
unfolding flip
flip_up [] = []
flip_up (from_left a r ∷ c) = from_right (flip r) a ∷ flip_up c
flip_up (from_right l a ∷ c) = from_left a (flip l) ∷ flip_up c

pub flip-flip : (s : Tree) → flip (flip s) ≡ s
unfolding flip
flip-flip leaf = refl
flip-flip (node l a r) = rw (flip-flip l, flip-flip r) refl

pub flip-plug : (c : List Step) (s : Tree) → flip (plug c s) ≡ plug (flip_up c) (flip s)
unfolding flip flip_up plug
flip-plug [] s = refl
flip-plug (from_left a r ∷ c) s = flip-plug c (node s a r)
flip-plug (from_right l a ∷ c) s = flip-plug c (node l a s)

pub count-flip : (s : Tree) (y : ℕ) → count (flip s) y ≡ count s y
unfolding flip count
count-flip leaf y = refl
count-flip (node l a r) y = omega (arith, count-flip l y, count-flip r y)

pub Shape-mirror :
    (t : RbTree) (s : Tree) (up x : ℕ) → Shape t up x s → Shape (mirror t) up x (flip s)
unfolding mirror flip
Shape-mirror t leaf up x h = h
Shape-mirror t (node l a r) up x (e, some_a, e', hl, hr) =
    (e, some_a, e', Shape-mirror t r a (t.right a) hr, Shape-mirror t l a (t.left a) hl)

-- A node below another is just one of its children.
pub one_child :
    (t : RbTree) (c : List Step) (p n : ℕ)
    → Above t p n c
    → n ≢ t.null
    → count_up c n ≡ 0
    → (p == t.null) ≡ false
    → (t.left p == n) ≡ not (t.right p == n)
unfolding count_up
one_child t [] p n (e, _) h k m = absurd (ground arith)
one_child t (from_left a s ∷ c) p n (e, some_a, e', hs, _) h k m =
    let hit : (t.left a == n) ≡ true = (==_iff (t.left a) n).1 e' in
    let empty : count s n ≡ 0 = omega (arith, k) in
    let miss : (t.right a == n) ≡ false = elim (Shape-place t s a (t.right a) hs) [
      | inl z ↦ ground (arith, z, h)
      | inr z ↦ differ (count s) (t.right a) n z empty
    ] in
    rw (e, hit, miss) refl
one_child t (from_right s a ∷ c) p n (e, some_a, e', hs, _) h k m =
    let hit : (t.right a == n) ≡ true = (==_iff (t.right a) n).1 e' in
    let empty : count s n ≡ 0 = omega (arith, k) in
    let miss : (t.left a == n) ≡ false = elim (Shape-place t s a (t.left a) hs) [
      | inl z ↦ ground (arith, z, h)
      | inr z ↦ differ (count s) (t.left a) n z empty
    ] in
    rw (e, hit, miss) refl

-- In the mirror, a right rotation does what a left one does.
pub right_rotate-Turned :
    (t : RbTree) (n r b p : ℕ)
    → Around (mirror t) n r b p
    → (n == p) ≡ false
    → ((p == t.null) ≡ false → (t.left p == n) ≡ not (t.right p == n))
    → Turned (mirror t) (mirror (right_rotate t n)) n r b p
unfolding right_rotate relink mirror
right_rotate-Turned t n r b p h np one =
    let pn : (p == n) ≡ false = ground (arith, np) in
    elim (Bool-cases (b == t.null)) [
      | inl e ↦ elim (Bool-cases (p == t.null)) [
        | inl f ↦
            rw (h.child, h.some_child, h.inner, e, h.above, f)
              ((λ y. refl), (λ y. refl), (λ y. refl), refl, refl)
        | inr f ↦ elim (Bool-cases (t.right p == n)) [
          | inl g ↦
              rw (h.child, h.some_child, h.inner, e, h.above, f, pn, one f, g)
                ((λ y. refl), (λ y. refl), (λ y. refl), refl, refl)
          | inr g ↦
              rw (h.child, h.some_child, h.inner, e, h.above, f, pn, one f, g)
                ((λ y. refl), (λ y. refl), (λ y. refl), refl, refl)
        ]
      ]
      | inr e ↦ elim (Bool-cases (p == t.null)) [
        | inl f ↦
            rw (h.child, h.some_child, h.inner, e, h.above, h.apart, f)
              ((λ y. refl), (λ y. refl), (λ y. refl), refl, refl)
        | inr f ↦ elim (Bool-cases (t.right p == n)) [
          | inl g ↦
              rw (h.child, h.some_child, h.inner, e, h.above, h.apart, f, pn, one f, g)
                ((λ y. refl), (λ y. refl), (λ y. refl), refl, refl)
          | inr g ↦
              rw (h.child, h.some_child, h.inner, e, h.above, h.apart, f, pn, one f, g)
                ((λ y. refl), (λ y. refl), (λ y. refl), refl, refl)
        ]
      ]
    ]
