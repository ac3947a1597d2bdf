-- ===== src/RbTree/Update.antt =====
-- oslib/src/rbtree.c: insertion, removal and the heights.
use zhangxy.Base.{
  ℕ, zero, suc, Bool, true, false, not, ◌&&◌, Option, none, some, ◌==◌, if◌then◌else◌, u32_add,
}
use zhangxy.Base.Int.{ℤ, pos, ltz, eqz}
use zhangxy.RbTree.{
  black, red, is_red, RbTree, set_parent, set_left, set_right, paint, left_rotate, right_rotate,
}

-- The two halves of the loop of `insert_fixup`, which differ in the side of the parent, with the node
-- to go on with.
unfoldable pub fixup_left : RbTree → ℕ → RbTree × ℕ
unfolding left_rotate right_rotate
fixup_left t node =
    let parent = t.parent node in
    let above = t.parent parent in
    let temp = t.right above in
    let (t1, n1) = if node == t.right parent then (left_rotate t parent, parent) else (t, node) in
    let p1 = t1.parent n1 in
    let t2 = paint t1 p1 black in
    let g = t2.parent p1 in
    if is_red (t.color temp)
    then (paint (paint (paint t temp black) parent black) above red, above)
    else (right_rotate (paint t2 g red) g, n1)

unfoldable pub fixup_right : RbTree → ℕ → RbTree × ℕ
unfolding left_rotate right_rotate
fixup_right t node =
    let parent = t.parent node in
    let above = t.parent parent in
    let temp = t.left above in
    let (t1, n1) = if node == t.left parent then (right_rotate t parent, parent) else (t, node) in
    let p1 = t1.parent n1 in
    let t2 = paint t1 p1 black in
    let g = t2.parent p1 in
    if is_red (t.color temp)
    then (paint (paint (paint t temp black) parent black) above red, above)
    else (left_rotate (paint t2 g red) g, n1)

-- `insert_fixup`
unfoldable pub insert_fixup : ℕ → RbTree → ℕ → Option RbTree
unfolding fixup_left fixup_right
insert_fixup zero t node = none
insert_fixup (suc fuel) t node =
    let parent = t.parent node in
    let (t1, n1) =
      if parent == t.left (t.parent parent) then fixup_left t node else fixup_right t node in
    let rest = insert_fixup fuel t1 n1 in
    if not (node == t.root) && is_red (t.color parent) then rest else some (paint t t.root black)

-- The search of `RBTREE_Insert`: an equal key, or the last node with the last comparison.
pub data Place : Type 0 where
  equal : Place
  below : ℕ → ℤ → Place

unfoldable pub find_place : (ℕ → ℕ → ℤ) → ℕ → RbTree → ℕ → ℕ → ℕ → ℤ → Option Place
find_place comp zero t key node parent rv = none
find_place comp (suc fuel) t key node parent rv =
    let rv' = comp key (t.key node) in
    let rest =
      find_place comp fuel t key (if ltz rv' (pos 0) then t.left node else t.right node) node rv' in
    if node == t.null then some (below parent rv) else if eqz rv' (pos 0) then some equal else rest

-- A node is hung below its parent, without the fixup.
unfoldable pub hang : RbTree → ℕ → ℕ → ℤ → RbTree
hang t element parent rv =
    let t1 = set_right (set_left (paint t element red) element t.null) element t.null in
    let t2 = set_parent t1 element parent in
    if ltz rv (pos 0) then set_left t2 parent element else set_right t2 parent element

-- The first node of a tree.
unfoldable pub plant : RbTree → ℕ → RbTree
plant t element =
    let t1 = set_right (set_left t element t.null) element t.null in
    paint (set_parent (record t1 { root = element }) element t.null) element black

unfoldable pub counted : Option RbTree → Option (RbTree × Bool)
counted none = none
counted (some t) = some (record t { size = u32_add t.size 1 }, true)

unfoldable pub insert_at : ℕ → RbTree → ℕ → Option Place → Option (RbTree × Bool)
unfolding insert_fixup hang plant counted
insert_at fuel t element none = none
insert_at fuel t element (some equal) = some (t, false)
insert_at fuel t element (some (below parent rv)) = counted (
    if parent == t.null
    then some (plant t element)
    else insert_fixup fuel (hang t element parent rv) element)

-- `RBTREE_Insert`: `false` is -1, that the key is there.
unfoldable pub insert : (ℕ → ℕ → ℤ) → ℕ → RbTree → ℕ → Option (RbTree × Bool)
unfolding find_place insert_at
insert comp fuel t element =
    insert_at fuel t element (find_place comp fuel t (t.key element) t.root t.null (pos 0))

-- The two halves of the loop of `delete_fixup`.
unfoldable pub shrink_left : RbTree → ℕ → RbTree × ℕ
unfolding left_rotate right_rotate
shrink_left t node =
    let parent = t.parent node in
    let temp0 = t.right parent in
    let t1 =
      if is_red (t.color temp0)
      then left_rotate (paint (paint t temp0 black) parent red) parent
      else t in
    let temp = t1.right (t1.parent node) in
    let t2 =
      if is_red (t1.color (t1.right temp))
      then t1
      else right_rotate (paint (paint t1 (t1.left temp) black) temp red) temp in
    let temp2 = t2.right (t2.parent node) in
    let t3 = paint t2 temp2 (t2.color (t2.parent node)) in
    let t4 = paint (paint t3 (t3.right temp2) black) (t3.parent node) black in
    let t5 = left_rotate t4 (t4.parent node) in
    if not (is_red (t1.color (t1.left temp))) && not (is_red (t1.color (t1.right temp)))
    then (paint t1 temp red, t1.parent node)
    else (t5, t5.root)

unfoldable pub shrink_right : RbTree → ℕ → RbTree × ℕ
unfolding left_rotate right_rotate
shrink_right t node =
    let parent = t.parent node in
    let temp0 = t.left parent in
    let t1 =
      if is_red (t.color temp0)
      then right_rotate (paint (paint t temp0 black) parent red) parent
      else t in
    let temp = t1.left (t1.parent node) in
    let t2 =
      if is_red (t1.color (t1.left temp))
      then t1
      else left_rotate (paint (paint t1 (t1.right temp) black) temp red) temp in
    let temp2 = t2.left (t2.parent node) in
    let t3 = paint t2 temp2 (t2.color (t2.parent node)) in
    let t4 = paint (paint t3 (t3.parent node) black) (t3.left temp2) black in
    let t5 = right_rotate t4 (t4.parent node) in
    if not (is_red (t1.color (t1.right temp))) && not (is_red (t1.color (t1.left temp)))
    then (paint t1 temp red, t1.parent node)
    else (t5, t5.root)

-- `delete_fixup`
unfoldable pub delete_fixup : ℕ → RbTree → ℕ → Option RbTree
unfolding shrink_left shrink_right
delete_fixup zero t node = none
delete_fixup (suc fuel) t node =
    let (t1, n1) =
      if t.left (t.parent node) == node then shrink_left t node else shrink_right t node in
    let rest = delete_fixup fuel t1 n1 in
    if not (node == t.root) && not (is_red (t.color node)) then rest else some (paint t node black)
