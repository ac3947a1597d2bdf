-- ===== src/RbTree/Right.antt =====
-- oslib/src/rbtree.c: `right_rotate` of a node of a tree.
use zhangxy.Base.{
  ℕ, ◌≤◌, ◌≡◌, refl, sym, ap, ◌∙◌, ◌≢◌, Bool, true, false, not, List, ◌∷◌, append_assoc, arith,
  ◌==◌,
}
use mathlib.Core.Path.{subst}
use zhangxy.RbTree.{RbTree, right_rotate}
use zhangxy.RbTree.Shape.{Tree, node, inorder, Shape}
use zhangxy.RbTree.Zipper.{Step, plug, count, count_up, inorder-plug, Above}
use zhangxy.RbTree.Rotate.{Around, Turned}
use zhangxy.RbTree.Left.{turned_lem}
use zhangxy.RbTree.Mirror.{
  mirror, flip, flip_up, flip-flip, flip-plug, count-flip, Shape-mirror, one_child,
  right_rotate-Turned,
}

not_swap : (x y : Bool) → x ≡ not y → y ≡ not x
not_swap true true h = h
not_swap true false h = refl
not_swap false true h = refl
not_swap false false h = h

mirrored_turn :
    (t : RbTree) (c : List Step) (n r p : ℕ)
    → Around (mirror t) n r ((mirror t).left r) p
    → Above (mirror t) p n c
    → n ≢ t.null
    → count_up c n ≡ 0
    → (n == p) ≡ false
    → Turned (mirror t) (mirror (right_rotate t n)) n r ((mirror t).left r) p
unfolding mirror
mirrored_turn t c n r p around above some_n cn np =
    right_rotate-Turned t n r (t.right r) p around np (λ h.
      not_swap (t.right p == n) (t.left p == n) (one_child (mirror t) c p n above some_n cn h))

-- A right rotation of a node with a left child, anywhere in a tree whose nodes are distinct, leaves the
-- pointers of the rotated tree, which has the nodes in the same order.
pub right_rotate_lem :
    (t : RbTree) (c : List Step) (sa : Tree) (l : ℕ) (sb : Tree) (n : ℕ) (sc : Tree)
    → Shape t t.null t.root (plug c (node (node sa l sb) n sc))
    → ((y : ℕ) → count (plug c (node (node sa l sb) n sc)) y ≤ 1)
    → Shape
        (right_rotate t n)
        ((right_rotate t n).null)
        ((right_rotate t n).root)
        (plug c (node sa l (node sb n sc)))
      × (inorder (plug c (node sa l (node sb n sc))) ≡ inorder (plug c (node (node sa l sb) n sc)))
unfolding mirror flip
right_rotate_lem t c sa l sb n sc h once =
    let s = node (node sa l sb) n sc in
    let s' = node sa l (node sb n sc) in
    let t' = right_rotate t n in
    let there =
      subst (Shape (mirror t) t.null t.root) (flip-plug c s)
        (Shape-mirror t (plug c s) t.null t.root h) in
    let once' : (y : ℕ) → count (plug (flip_up c) (flip s)) y ≤ 1 = λ y.
      subst (λ z. count z y ≤ 1) (flip-plug c s) (omega (arith, count-flip (plug c s) y, once y)) in
    let turned =
      turned_lem (mirror t) (mirror t') (flip_up c) (flip sc) n (flip sb) l (flip sa) there once'
        (λ p around above some_n cn np.
          mirrored_turn t (flip_up c) n l p around above some_n cn np) in
    let back = Shape-mirror (mirror t') (plug (flip_up c) (flip s')) t'.null t'.root turned in
    let same : flip (plug (flip_up c) (flip s')) ≡ plug c s' =
      ap flip (sym (flip-plug c s')) ∙ flip-flip (plug c s') in
    (
      subst (Shape t' t'.null t'.root) same back,
      inorder-plug c s' s (sym (append_assoc (inorder sa) (l ∷ inorder sb) (n ∷ inorder sc))),
    )
