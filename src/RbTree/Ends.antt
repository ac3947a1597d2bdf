-- ===== src/RbTree/Ends.antt =====
-- oslib/src/rbtree.c: the first and the last node.
use zhangxy.Base.{
  ℕ, zero, suc, ◌≤◌, ◌<◌, ◌≡◌, refl, ap, ◌∙◌, ◌≢◌, true, false, some, List, [], ◌∷◌, ◌++◌, arith,
  ◌==◌, ==_iff,
}
use zhangxy.RbTree.{RbTree, leftmost, rightmost, or_null, first_node, last_node}
use zhangxy.RbTree.Shape.{Tree, leaf, node, inorder, depth, Shape}

-- The first and the last of a list, 0 where there is none.
abbrev pub head_of : List ℕ → ℕ
head_of [] = 0
head_of (x ∷ xs) = x

abbrev pub last_of : List ℕ → ℕ
last_of [] = 0
last_of (x ∷ []) = x
last_of (x ∷ y ∷ ys) = last_of (y ∷ ys)

head_of-mid :
    (xs : List ℕ) (a : ℕ) (ys zs : List ℕ) → head_of ((xs ++ a ∷ ys) ++ zs) ≡ head_of (xs ++ a ∷ ys)
head_of-mid [] a ys zs = refl
head_of-mid (x ∷ xs) a ys zs = refl

last_of-mid : (xs : List ℕ) (a : ℕ) (ys : List ℕ) → last_of (xs ++ a ∷ ys) ≡ last_of (a ∷ ys)
last_of-mid [] a ys = refl
last_of-mid (x ∷ []) a ys = refl
last_of-mid (x ∷ y ∷ xs) a ys = last_of-mid (y ∷ xs) a ys

leftmost_lem :
    (fuel : ℕ) (t : RbTree) (up x : ℕ) (l : Tree) (a : ℕ) (r : Tree)
    → Shape t up x (node l a r)
    → depth (node l a r) ≤ fuel
    → (leftmost fuel t x ≡ some (head_of (inorder (node l a r))))
      × (head_of (inorder (node l a r)) ≢ t.null)
unfolding leftmost
leftmost_lem zero t up x l a r h d = absurd (omega arith)
leftmost_lem (suc fuel) t up x leaf a r (e, some_a, _, hl, hr) d =
    let here : (t.left a == t.null) ≡ true = (==_iff (t.left a) t.null).1 hl in
    (rw (e, here) refl, some_a)
leftmost_lem (suc fuel) t up x (node ll b lr) a r (e, some_a, _, hl, hr) d =
    let on : (t.left a == t.null) ≡ false = ground (arith, hl.0, hl.1) in
    let (rest, some_rest) = leftmost_lem fuel t a (t.left a) ll b lr hl (omega arith) in
    let same = head_of-mid (inorder ll) b (inorder lr) (a ∷ inorder r) in
    (rw (e, on, same) rest, rw same some_rest)

rightmost_lem :
    (fuel : ℕ) (t : RbTree) (up x : ℕ) (l : Tree) (a : ℕ) (r : Tree)
    → Shape t up x (node l a r)
    → depth (node l a r) ≤ fuel
    → (rightmost fuel t x ≡ some (last_of (a ∷ inorder r))) × (last_of (a ∷ inorder r) ≢ t.null)
unfolding rightmost
rightmost_lem zero t up x l a r h d = absurd (omega arith)
rightmost_lem (suc fuel) t up x l a leaf (e, some_a, _, hl, hr) d =
    let here : (t.right a == t.null) ≡ true = (==_iff (t.right a) t.null).1 hr in
    (rw (e, here) refl, some_a)
rightmost_lem (suc fuel) t up x l a (node rl b rr) (e, some_a, _, hl, hr) d =
    let on : (t.right a == t.null) ≡ false = ground (arith, hr.0, hr.1) in
    let (rest, some_rest) = rightmost_lem fuel t a (t.right a) rl b rr hr (omega arith) in
    let same : last_of (a ∷ (inorder rl ++ b ∷ inorder rr)) ≡ last_of (b ∷ inorder rr) =
      last_of-mid (a ∷ inorder rl) b (inorder rr) in
    (rw (e, on, same) rest, rw same some_rest)

-- `RBTREE_First` and `RBTREE_Last` of a tree, whose null node has itself as its children, end with more fuel
-- than the tree is deep, and return the first and the last node of the order, or NULL for the empty
-- tree.
pub ends_lem :
    (fuel : ℕ) (t : RbTree) (s : Tree)
    → t.left t.null ≡ t.null
    → t.right t.null ≡ t.null
    → Shape t t.null t.root s
    → depth s < fuel
    → (first_node fuel t ≡ some (head_of (inorder s)))
      × (last_node fuel t ≡ some (last_of (inorder s)))
unfolding first_node last_node or_null leftmost rightmost
ends_lem zero t s hl hr h d = absurd (omega arith)
ends_lem (suc fuel) t leaf hl hr h d =
    let at_l : (t.left t.null == t.null) ≡ true = (==_iff (t.left t.null) t.null).1 hl in
    let at_r : (t.right t.null == t.null) ≡ true = (==_iff (t.right t.null) t.null).1 hr in
    let here : (t.null == t.null) ≡ true = ground arith in
    (rw (h, at_l) (rw here refl), rw (h, at_r) (rw here refl))
ends_lem (suc fuel) t (node l a r) hl hr h d =
    let (first, some_first) = leftmost_lem (suc fuel) t t.null t.root l a r h (omega arith) in
    let (last, some_last) = rightmost_lem (suc fuel) t t.null t.root l a r h (omega arith) in
    let on_first : (head_of (inorder (node l a r)) == t.null) ≡ false =
      ground (arith, some_first) in
    let on_last : (last_of (a ∷ inorder r) == t.null) ≡ false = ground (arith, some_last) in
    let same = last_of-mid (inorder l) a (inorder r) in
    (ap (or_null t) first ∙ rw on_first refl, ap (or_null t) last ∙ rw (on_last, same) refl)
