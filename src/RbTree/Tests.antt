-- ===== src/RbTree/Tests.antt =====
-- A red-black tree at small inputs.
use zhangxy.Base.{ℕ, ◌≤◌, ◌≡◌, refl, some, List, [], ◌∷◌, arith, ◌==◌, if◌then◌else◌}
use zhangxy.Base.Int.{ℤ, sub_ℕ}
use zhangxy.RbTree.{black, red, RbTree, left_rotate, right_rotate, find, first_node, last_node}
use zhangxy.RbTree.Shape.{Tree, leaf, node, inorder, Shape, Compares}
use zhangxy.RbTree.Zipper.{Step, from_right, plug, count}
use zhangxy.RbTree.Find.{find_lem}
use zhangxy.RbTree.Ends.{ends_lem}
use zhangxy.RbTree.Left.{left_rotate_lem}
use zhangxy.RbTree.Right.{right_rotate_lem}

abbrev field : ℕ → ℕ → ℕ → ℕ → ℕ → ℕ
field at10 at20 at25 at30 a =
    if a == 10
    then at10
    else if a == 20
    then at20
    else if a == 25
    then at25
    else if a == 30
    then at30
    else 1

-- 20 with the children 10 and 30, and 25 to the left of 30. Each node's key is its address.
abbrev small : RbTree
small = record {
  parent = field 20 1 30 20;
  left = field 1 10 1 25;
  right = field 1 30 1 1;
  key = λ a. a;
  color = λ a. if a == 25 then red else black;
  null = 1;
  root = 20;
  size = 4;
}

abbrev single : ℕ → Tree
single a = node leaf a leaf

abbrev shape : Tree
shape = node (single 10) 20 (node (single 25) 30 leaf)

small-Shape : Shape small 1 20 shape
small-Shape = (
  refl,
  (λ e. absurd (omega arith)),
  refl,
  (refl, (λ e. absurd (omega arith)), refl, refl, refl),
  (
    refl,
    (λ e. absurd (omega arith)),
    refl,
    (refl, (λ e. absurd (omega arith)), refl, refl, refl),
    refl,
  ),
)

ends_lem_example : (first_node 5 small ≡ some 10) × (last_node 5 small ≡ some 30)
ends_lem_example = ends_lem 5 small shape refl refl small-Shape (omega arith)

difference : ℕ → ℕ → ℤ
difference a b = sub_ℕ a b

difference-Compares : Compares difference (λ k. k)
unfolding difference
difference-Compares = record { less = (λ a b. ground arith); same = (λ a b. ground arith) }

find_lem_example : find difference 5 small 25 ≡ some 25
find_lem_example =
    find_lem difference (λ k. k) 5 small 25 shape difference-Compares small-Shape
      (
        (omega arith, (omega arith, (omega arith, _))),
        ((omega arith, (omega arith, _)), ((omega arith, _), (_, _))),
      )
      (omega arith)

once : (y : ℕ) → count (plug [] (node (single 10) 20 (node (single 25) 30 leaf))) y ≤ 1
unfolding count plug
once y = ground arith

left_rotate_lem_example :
    Shape (left_rotate small 20) 1 30 (plug [] (node (node (single 10) 20 (single 25)) 30 leaf))
    × (inorder (plug [] (node (node (single 10) 20 (single 25)) 30 leaf)) ≡ inorder (plug [] shape))
unfolding left_rotate plug
left_rotate_lem_example =
    left_rotate_lem small [] (single 10) 20 (single 25) 30 leaf small-Shape once

-- The right child of the root, with its left child.
abbrev below_root : List Step
below_root = from_right (single 10) 20 ∷ []

right_rotate_lem_example :
    Shape (right_rotate small 30) 1 20 (plug below_root (node leaf 25 (single 30)))
    × (inorder (plug below_root (node leaf 25 (single 30)))
        ≡ inorder (plug below_root (node (single 25) 30 leaf)))
unfolding right_rotate plug count
right_rotate_lem_example =
    right_rotate_lem small below_root leaf 25 leaf 30 leaf small-Shape (λ y. ground arith)
