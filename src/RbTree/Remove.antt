-- ===== src/RbTree/Remove.antt =====
-- oslib/src/rbtree.c: removal and the heights.
use zhangxy.Base.{ℕ, zero, suc, ◌+◌, ◌||◌, Option, none, some, ltb, ◌==◌, if◌then◌else◌, u32_sub}
use zhangxy.RbTree.{black, is_red, RbTree, set_parent, set_left, set_right, paint, relink, leftmost}
use zhangxy.RbTree.Update.{delete_fixup}

-- `succ` takes the place of `node`.
unfoldable pub take_place : RbTree → ℕ → ℕ → RbTree
unfolding relink
take_place t node succ =
    let t1 =
      set_right (set_left (set_parent t succ (t.parent node)) succ (t.left node)) succ
        (t.right node) in
    let t2 = paint t1 succ (t1.color node) in
    let parent = t2.parent node in
    let t3 = if parent == t.null then t2 else relink t2 parent node succ in
    let t4 = if t3.left node == t.null then t3 else set_parent t3 (t3.left node) succ in
    let t5 = if t4.right node == t.null then t4 else set_parent t4 (t4.right node) succ in
    if t5.root == node then record t5 { root = succ } else t5

unfoldable pub uncounted : Option RbTree → Option RbTree
uncounted none = none
uncounted (some t) = some (record t { size = u32_sub t.size 1 })

-- The colors are mended where the test of the color of `succ` says so.
unfoldable pub mend : ℕ → RbTree → ℕ → ℕ → Option RbTree
unfolding delete_fixup
mend fuel t succ child =
    let mended = if child == t.null then some t else delete_fixup fuel t child in
    if is_red (t.color succ)
    then some t
    else elim mended [ none ↦ none | some t1 ↦ some (paint t1 t1.null black) ]

unfoldable pub erase_succ : ℕ → RbTree → ℕ → Option ℕ → Option RbTree
unfolding relink take_place mend uncounted
erase_succ fuel t node none = none
erase_succ fuel t node (some succ) =
    let child = if t.left succ == t.null then t.right succ else t.left succ in
    let parent = t.parent succ in
    let t1 = set_parent t child parent in
    let t2 = if parent == t.null then record t1 { root = child } else relink t1 parent succ child in
    let t3 = if succ == node then t2 else take_place t2 node succ in
    uncounted (mend fuel t3 succ child)

-- `RBTREE_Erase`
unfoldable pub erase : ℕ → RbTree → ℕ → Option RbTree
unfolding leftmost erase_succ
erase fuel t node = erase_succ fuel t node (
    if t.left node == t.null || t.right node == t.null
    then some node
    else leftmost fuel t (t.right node))

-- `RBTREE_HeightMax` and `RBTREE_HeightMin`
unfoldable pub height_max : ℕ → RbTree → ℕ → ℕ
height_max zero t node = 0
height_max (suc fuel) t node =
    let n = if node == 0 then t.root else node in
    let below_l = height_max fuel t (t.left n) in
    let below_r = height_max fuel t (t.right n) in
    let l = if t.left n == t.null then 0 else below_l + 1 in
    let r = if t.right n == t.null then 0 else below_r + 1 in if ltb r l then l else r

unfoldable pub height_min : ℕ → RbTree → ℕ → ℕ
unfolding height_max
height_min fuel t node =
    let n = if node == 0 then t.root else node in
    let l = if t.left n == t.null then 0 else height_max fuel t (t.left n) + 1 in
    let r = if t.right n == t.null then 0 else height_max fuel t (t.right n) + 1 in
    if ltb r l then r else l
