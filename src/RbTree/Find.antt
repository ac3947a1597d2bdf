-- ===== src/RbTree/Find.antt =====
-- oslib/src/rbtree.c: `RBTREE_Find`.
use zhangxy.Base.{
  ℕ, zero, suc, ◌<◌, ◌≡◌, refl, inl, inr, true, false, some, ◌∷◌, arith, ltb, ◌==◌, ltb→lt, ==_iff,
  Bool-cases,
}
use zhangxy.Base.Int.{ℤ}
use zhangxy.RbTree.{RbTree, find_from, find}
use zhangxy.RbTree.Shape.{
  Tree, leaf, node, inorder, depth, Shape, Compares, AllMore, IsSorted, seek, IsSorted-mid,
  seek-append, seek-front, AllLess-mono, AllMore-mono,
}

-- The rank of a node's key.
abbrev pub rank_of : RbTree → (ℕ → ℕ) → ℕ → ℕ
rank_of t rank a = rank (t.key a)

find_from_lem :
    (comp : ℕ → ℕ → ℤ) (rank : ℕ → ℕ) (fuel : ℕ) (t : RbTree) (key up x : ℕ) (s : Tree)
    → Compares comp rank
    → Shape t up x s
    → IsSorted (rank_of t rank) (inorder s)
    → depth s < fuel
    → find_from comp fuel t key x ≡ some (seek (rank_of t rank) (rank key) (inorder s))
unfolding find_from
find_from_lem comp rank zero t key up x s c h o d = absurd (omega arith)
find_from_lem comp rank (suc fuel) t key up x leaf c h o d =
    let here : (x == t.null) ≡ true = (==_iff x t.null).1 h in rw here refl
find_from_lem comp rank (suc fuel) t key up x (node l a r) c (e, some_node, _, hl, hr) o d =
    let rk = rank_of t rank in
    let n = rank key in
    let (ol, less, more, or) = IsSorted-mid rk (inorder l) a (inorder r) o in
    let here : (a == t.null) ≡ false = ground (arith, some_node) in
    let shallow_l : depth l < fuel = omega arith in
    let shallow_r : depth r < fuel = omega arith in
    elim (Bool-cases (n == rk a)) [
      | inl same ↦
          let at : n ≡ rk a = (==_iff n (rk a)).0 same in
          let hit : (rk a == n) ≡ true = ground arith in
          rw
            (
              e,
              here,
              c.same key (t.key a),
              same,
              seek-append rk n (inorder l) (a ∷ inorder r)
                  (AllLess-mono rk (inorder l) (rk a) n less (omega arith)),
              hit,
            )
            refl
      | inr other ↦
          let miss : (rk a == n) ≡ false = ground (arith, other) in
          elim (Bool-cases (ltb n (rk a))) [
            | inl low ↦
                let up_from : AllMore rk (a ∷ inorder r) n = (
                  ltb→lt n (rk a) low,
                  AllMore-mono rk (inorder r) (rk a) n more (omega (arith, ltb→lt n (rk a) low)),
                ) in
                rw
                  (
                    e,
                    here,
                    c.same key (t.key a),
                    other,
                    c.less key (t.key a),
                    low,
                    seek-front rk n (inorder l) (a ∷ inorder r) up_from,
                  )
                  (find_from_lem comp rank fuel t key a (t.left a) l c hl ol shallow_l)
            | inr high ↦
                let above : rk a < n = ground (arith, high, other) in
                rw
                  (
                    e,
                    here,
                    c.same key (t.key a),
                    other,
                    c.less key (t.key a),
                    high,
                    seek-append rk n (inorder l) (a ∷ inorder r)
                        (AllLess-mono rk (inorder l) (rk a) n less (omega arith)),
                    miss,
                  )
                  (find_from_lem comp rank fuel t key a (t.right a) r c hr or shallow_r)
          ]
    ]

-- `RBTREE_Find` in a search tree, for a comparison by ranks, ends with more fuel than the tree is deep, and
-- finds the node that a search of all nodes in their order finds, or NULL where no node has the key.
pub find_lem :
    (comp : ℕ → ℕ → ℤ) (rank : ℕ → ℕ) (fuel : ℕ) (t : RbTree) (key : ℕ) (s : Tree)
    → Compares comp rank
    → Shape t t.null t.root s
    → IsSorted (rank_of t rank) (inorder s)
    → depth s < fuel
    → find comp fuel t key ≡ some (seek (rank_of t rank) (rank key) (inorder s))
unfolding find
find_lem comp rank fuel t key s c h o d = find_from_lem comp rank fuel t key t.null t.root s c h o d
