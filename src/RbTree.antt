-- ===== src/RbTree.antt =====
-- oslib/src/rbtree.c and rbtree.h, red-black trees of nodes that belong to the caller. A node is its
-- address, and the fields of all nodes are maps from addresses; `null` is the address of the tree's
-- null node, and a result that is NULL is 0. The key comparison is a parameter. Loops run on fuel,
-- `none` is that it does not last.
pub mod Update
pub mod Remove
pub mod Shape
pub mod Find
pub mod Ends
pub mod Rotate
pub mod Zipper
pub mod Turn
pub mod Left
pub mod Mirror
pub mod Right
mod Tests
use zhangxy.Base.{
  ℕ, zero, suc, ◌+◌, ◌-◌, ◌*◌, ◌/◌, ◌%◌, ◌^◌, ◌≤◌, ◌<◌, min, ◌≡◌, refl, sym, ap, ap₂, ◌∙◌, ◌≢◌, ◌↔◌,
  ◌⊎◌, inl, inr, Bool, true, false, not, ◌&&◌, ◌||◌, Option, none, some, List, [], ◌∷◌, ◌++◌, map,
  append-nil, append_assoc, arith, ltb, leb, ◌==◌, bool_eq, if◌then◌else◌, ltb→lt, lt→ltb, le→ltb,
  leb→le, ==_iff, Bool-cases, Option-cases, le_cases, u32_add, u32_sub, length, get_elem?, get_or,
  set, take, drop, replicate, length-append, length-take, length-drop, length-set, length-replicate,
  take-nil, drop-nil, take_all, drop_all, take-append-drop, take-append_le, take-append_ge,
  drop-append_le, take-append_self, drop-append_self, drop-append_ge, drop-take, take-take,
  drop-drop, overwrite, length-overwrite, get_or-set_self, get_or-set_ne, set-get_or, set-set,
  NotIn, Nodup, get_or-set,
}
use zhangxy.Base.Int.{ℤ, pos, ltz, eqz}

-- `RBCOLOR_BLACK` and `RBCOLOR_RED`
pub data Color : Type 0 where
  black : Color
  red : Color

abbrev pub is_red : Color → Bool
is_red black = false
is_red red = true

-- `T_RBTree` with the fields of its `T_RBTreeNode`s.
pub record RbTree : Type 0 where
  pub parent : ℕ → ℕ
  pub left : ℕ → ℕ
  pub right : ℕ → ℕ
  pub key : ℕ → ℕ
  pub color : ℕ → Color
  pub null : ℕ
  pub root : ℕ
  pub size : ℕ

abbrev pub put {ℓ} : {A : Type ℓ} → (ℕ → A) → ℕ → A → ℕ → A
put f a v x = if x == a then v else f x

abbrev pub set_parent : RbTree → ℕ → ℕ → RbTree
set_parent t a v = record t { parent = put t.parent a v }

abbrev pub set_left : RbTree → ℕ → ℕ → RbTree
set_left t a v = record t { left = put t.left a v }

abbrev pub set_right : RbTree → ℕ → ℕ → RbTree
set_right t a v = record t { right = put t.right a v }

abbrev pub paint : RbTree → ℕ → Color → RbTree
paint t a v = record t { color = put t.color a v }

-- The child of `parent` that is `node` becomes `new`.
unfoldable pub relink : RbTree → ℕ → ℕ → ℕ → RbTree
relink t parent node new =
    if t.left parent == node then set_left t parent new else set_right t parent new

-- `left_rotate`
unfoldable pub left_rotate : RbTree → ℕ → RbTree
unfolding relink
left_rotate t node =
    let rnode = t.right node in
    let t1 = set_right t node (t.left rnode) in
    let t2 = if t1.left rnode == t.null then t1 else set_parent t1 (t1.left rnode) node in
    let parent = t2.parent node in
    let t3 = set_parent t2 rnode parent in
    let t4 = if parent == t.null then record t3 { root = rnode } else relink t3 parent node rnode in
    if rnode == t.null then t else set_parent (set_left t4 rnode node) node rnode

-- `right_rotate`
unfoldable pub right_rotate : RbTree → ℕ → RbTree
unfolding relink
right_rotate t node =
    let lnode = t.left node in
    let t1 = set_left t node (t.right lnode) in
    let t2 = if t1.right lnode == t.null then t1 else set_parent t1 (t1.right lnode) node in
    let parent = t2.parent node in
    let t3 = set_parent t2 lnode parent in
    let t4 = if parent == t.null then record t3 { root = lnode } else relink t3 parent node lnode in
    if lnode == t.null then t else set_parent (set_right t4 lnode node) node lnode

-- `RBTREE_Init`
unfoldable pub init_tree : RbTree → RbTree
init_tree t = record t {
  root = t.null;
  key = put t.key t.null 0;
  size = 0;
  left = put t.left t.null t.null;
  right = put t.right t.null t.null;
  parent = put t.parent t.null t.null;
  color = put t.color t.null black;
}

-- A node that is not the null node, or NULL.
unfoldable pub or_null : RbTree → Option ℕ → Option ℕ
or_null t none = none
or_null t (some node) = some (if node == t.null then 0 else node)

unfoldable pub leftmost : ℕ → RbTree → ℕ → Option ℕ
leftmost zero t node = none
leftmost (suc fuel) t node =
    let rest = leftmost fuel t (t.left node) in if t.left node == t.null then some node else rest

unfoldable pub rightmost : ℕ → RbTree → ℕ → Option ℕ
rightmost zero t node = none
rightmost (suc fuel) t node =
    let rest = rightmost fuel t (t.right node) in if t.right node == t.null then some node else rest

-- `RBTREE_First` and `RBTREE_Last`
unfoldable pub first_node : ℕ → RbTree → Option ℕ
unfolding leftmost or_null
first_node fuel t = or_null t (leftmost fuel t t.root)

unfoldable pub last_node : ℕ → RbTree → Option ℕ
unfolding rightmost or_null
last_node fuel t = or_null t (rightmost fuel t t.root)

-- The loops up of `RBTREE_Next` and `RBTREE_Prev`
unfoldable pub climb_right : ℕ → RbTree → ℕ → ℕ → Option ℕ
climb_right zero t node temp = none
climb_right (suc fuel) t node temp =
    let rest = climb_right fuel t temp (t.parent temp) in
    if not (temp == t.null) && t.right temp == node then rest else some temp

unfoldable pub climb_left : ℕ → RbTree → ℕ → ℕ → Option ℕ
climb_left zero t node temp = none
climb_left (suc fuel) t node temp =
    let rest = climb_left fuel t temp (t.parent temp) in
    if not (temp == t.null) && t.left temp == node then rest else some temp

-- `RBTREE_Next` and `RBTREE_Prev`
unfoldable pub next_node : ℕ → RbTree → ℕ → Option ℕ
unfolding climb_right leftmost or_null
next_node fuel t node = or_null t (
    if t.right node == t.null
    then climb_right fuel t node (t.parent node)
    else leftmost fuel t (t.right node))

unfoldable pub prev_node : ℕ → RbTree → ℕ → Option ℕ
unfolding climb_left rightmost or_null
prev_node fuel t node = or_null t (
    if t.left node == t.null
    then climb_left fuel t node (t.parent node)
    else rightmost fuel t (t.left node))

-- `RBTREE_Find` from `node` on.
unfoldable pub find_from : (ℕ → ℕ → ℤ) → ℕ → RbTree → ℕ → ℕ → Option ℕ
find_from comp zero t key node = none
find_from comp (suc fuel) t key node =
    let rv = comp key (t.key node) in
    let rest = find_from comp fuel t key (if ltz rv (pos 0) then t.left node else t.right node) in
    if node == t.null then some 0 else if eqz rv (pos 0) then some node else rest

unfoldable pub find : (ℕ → ℕ → ℤ) → ℕ → RbTree → ℕ → Option ℕ
unfolding find_from
find comp fuel t key = find_from comp fuel t key t.root
