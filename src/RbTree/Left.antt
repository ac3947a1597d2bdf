-- ===== src/RbTree/Left.antt =====
-- oslib/src/rbtree.c: `left_rotate` of a node of a tree.
use zhangxy.Base.{
  ℕ, ◌+◌, ◌≤◌, ◌<◌, ◌≡◌, refl, ap, ◌∙◌, ◌≢◌, ◌⊎◌, inl, inr, true, false, not, List, ◌∷◌,
  append_assoc, arith, ◌==◌, if◌then◌else◌,
}
use mathlib.Core.Path.{subst}
use zhangxy.RbTree.{RbTree, left_rotate}
use zhangxy.RbTree.Shape.{Tree, node, inorder, Shape}
use zhangxy.RbTree.Rotate.{Around, Turned, left_rotate-Turned}
use zhangxy.RbTree.Zipper.{
  Step, plug, count, count_up, count-plug, inorder-plug, Above, Shape-open, Shape-close,
  Shape-frame, Shape-place, Above-place, Shape-null,
}
use zhangxy.RbTree.Turn.{Clear, differ, Turned-Same, Turned-inner, Turned-Above, off_twice}

-- A part of a tree without the place of another part.
apart_from :
    (f g : ℕ → ℕ) (x null : ℕ) → (x ≡ null) ⊎ (0 < g x) → f null ≡ 0 → f x + g x ≤ 1 → f x ≡ 0
apart_from f g x null (inl e) h k = ap f e ∙ h
apart_from f g x null (inr e) h k = omega arith

-- The pointers of the rotated part.
Turned-part :
    (t t' : RbTree) (n r b p : ℕ) (sa sb sc : Tree)
    → Turned t t' n r b p
    → Clear (count sa) n r b p
    → Clear (count sc) n r b p
    → (n == r) ≡ false
    → (n == p) ≡ false
    → (r == p) ≡ false
    → r ≢ t.null
    → n ≢ t.null
    → Shape t n (t.left n) sa
    → Shape t' n b sb
    → Shape t r (t.right r) sc
    → Shape t' p r (node (node sa n sb) r sc)
Turned-part t t' n r b p sa sb sc h ca cc nr np rp some_r some_n ha hb hc =
    let (parent, left, right, root, null) = h in
    let rn : (r == n) ≡ false = ground (arith, nr) in
    let nn : (n == n) ≡ true = ground arith in
    let rr : (r == r) ≡ true = ground arith in
    let left_n : t'.left n ≡ t.left n =
      rw (left n, nr, np) (off_twice (not (p == t.null)) (t.left p == n) r (t.left n)) in
    let right_r : t'.right r ≡ t.right r =
      rw (right r, rp, rn) (off_twice (not (p == t.null)) (not (t.left p == n)) r (t.right r)) in
    let right_n : t'.right n ≡ b =
      rw (right n, np, nn) (off_twice (not (p == t.null)) (not (t.left p == n)) r b) in
    let left_r : t'.left r ≡ n = rw (left r, rr) refl in
    (
      refl,
      rw null some_r,
      rw (parent r, rn, rr) refl,
      (
        left_r,
        rw null some_n,
        rw (parent n, nn) refl,
        rw left_n
            (Shape-frame t t' sa n (t.left n) null (Turned-Same t t' n r b p (count sa) h ca) ha),
        rw right_n hb,
      ),
      rw right_r
          (Shape-frame t t' sc r (t.right r) null (Turned-Same t t' n r b p (count sc) h cc) hc),
    )

Clear-part :
    (f inner above : ℕ → ℕ) (n r b p null : ℕ)
    → f n ≡ 0
    → f r ≡ 0
    → f null ≡ 0
    → (b ≡ null) ⊎ (0 < inner b)
    → (p ≡ null) ⊎ (0 < above p)
    → ((y : ℕ) → f y + inner y ≤ 1)
    → ((y : ℕ) → f y + above y ≤ 1)
    → Clear f n r b p
Clear-part f inner above n r b p null hn hr h0 hb hp ob op = record {
  node = hn;
  child = hr;
  inner = apart_from f inner b null hb h0 (ob b);
  above = apart_from f above p null hp h0 (op p);
}

not_there :
    (f : ℕ → ℕ) (n x null : ℕ) → n ≢ null → (x ≡ null) ⊎ (0 < f x) → f n ≡ 0 → (n == x) ≡ false
not_there f n x null h (inl e) k = ground (arith, h, e)
not_there f n x null h (inr e) k = let other = differ f x n e k in ground (arith, other)

-- Each address is in one part at most, and the null node in none.
record Parts (c sa sb sc : ℕ → ℕ) (n r null : ℕ) : Type 0 where
  once :
      (y : ℕ) → c y + sa y + sb y + sc y + (if y == n then 1 else 0) + (if y == r then 1 else 0) ≤ 1
  no_null : c null + sa null + sb null + sc null ≡ 0

Turned-all :
    (t t' : RbTree) (c : List Step) (sa : Tree) (n : ℕ) (sb : Tree) (r : ℕ) (sc : Tree) (p b : ℕ)
    → Parts (count_up c) (count sa) (count sb) (count sc) n r t.null
    → (count_up c n ≡ 0 → (n == p) ≡ false → (n == b) ≡ false → Turned t t' n r b p)
    → Above t p n c
    → n ≢ t.null
    → r ≢ t.null
    → Shape t n (t.left n) sa
    → Shape t r b sb
    → Shape t r (t.right r) sc
    → Shape t' t'.null t'.root (plug c (node (node sa n sb) r sc))
Turned-all t t' c sa n sb r sc p b parts turn above some_n some_r ha hb hc =
    let at_n = parts.once n in
    let at_r = parts.once r in
    let zero = parts.no_null in
    let pb = Shape-place t sb r b hb in
    let pp = Above-place t c p n above in
    let c_n : count_up c n ≡ 0 = ground arith in
    let c_r : count_up c r ≡ 0 = ground arith in
    let b_n : count sb n ≡ 0 = ground arith in
    let b_r : count sb r ≡ 0 = ground arith in
    let nr : (n == r) ≡ false = ground arith in
    let nb = not_there (count sb) n b t.null some_n pb b_n in
    let np = not_there (count_up c) n p t.null some_n pp c_n in
    let rp = not_there (count_up c) r p t.null some_r pp c_r in
    let h = turn c_n np nb in
    let ca =
      Clear-part (count sa) (count sb) (count_up c) n r b p t.null (ground arith) (ground arith)
        (omega arith) pb pp (λ y. let o = parts.once y in ground (arith, o))
        (λ y. let o = parts.once y in ground (arith, o)) in
    let clear_c =
      Clear-part (count sc) (count sb) (count_up c) n r b p t.null (ground arith) (ground arith)
        (omega arith) pb pp (λ y. let o = parts.once y in ground (arith, o))
        (λ y. let o = parts.once y in ground (arith, o)) in
    let b_p =
      apart_from (count sb) (count_up c) p t.null pp (omega arith)
        (let o = parts.once p in ground (arith, o)) in
    let c_b =
      apart_from (count_up c) (count sb) b t.null pb (omega arith)
        (let o = parts.once b in ground (arith, o)) in
    let inner =
      Turned-inner t t' n r b p sb h (λ y. let o = parts.once y in ground (arith, o)) b_n b_r b_p
        hb in
    let part = Turned-part t t' n r b p sa sb sc h ca clear_c nr np rp some_r some_n ha inner hc in
    let up =
      Turned-Above t t' n r b p c h some_n (λ y. let o = parts.once y in ground (arith, o)) c_n c_r
        c_b above in
    Shape-close t' c (node (node sa n sb) r sc) p r up part

Parts-of :
    (t : RbTree) (c : List Step) (sa : Tree) (n : ℕ) (sb : Tree) (r : ℕ) (sc : Tree)
    → Shape t t.null t.root (plug c (node sa n (node sb r sc)))
    → ((y : ℕ) → count (plug c (node sa n (node sb r sc))) y ≤ 1)
    → Parts (count_up c) (count sa) (count sb) (count sc) n r t.null
unfolding count
Parts-of t c sa n sb r sc h once =
    let s = node sa n (node sb r sc) in
    let none_null = Shape-null t (plug c s) t.null t.root h in
    record {
      once = (λ y. omega (arith, once y, count-plug c s y));
      no_null = omega (arith, none_null, count-plug c s t.null);
    }

pub turned_lem :
    (t t' : RbTree) (c : List Step) (sa : Tree) (n : ℕ) (sb : Tree) (r : ℕ) (sc : Tree)
    → Shape t t.null t.root (plug c (node sa n (node sb r sc)))
    → ((y : ℕ) → count (plug c (node sa n (node sb r sc))) y ≤ 1)
    → ((p : ℕ)
        → Around t n r (t.left r) p
        → Above t p n c
        → n ≢ t.null
        → count_up c n ≡ 0
        → (n == p) ≡ false
        → Turned t t' n r (t.left r) p)
    → Shape t' t'.null t'.root (plug c (node (node sa n sb) r sc))
turned_lem t t' c sa n sb r sc h once turn =
    let s = node sa n (node sb r sc) in
    let (p, x, above, (e, some_n, up, ha, (e', some_r, up', hb, hc))) = Shape-open t c s h in
    let at = subst (λ z. Above t p z c) e above in
    let parts = Parts-of t c sa n sb r sc h once in
    let around : (n == t.left r) ≡ false → Around t n r (t.left r) p = λ nb. record {
      child = e';
      inner = refl;
      above = up;
      some_child = ground (arith, some_r);
      apart = nb;
    } in
    Turned-all t t' c sa n sb r sc p (t.left r) parts
      (λ cn np nb. turn p (around nb) at some_n cn np) at some_n some_r ha hb hc

-- A left rotation of a node with a right child, anywhere in a tree whose nodes are distinct, leaves the
-- pointers of the rotated tree, which has the nodes in the same order.
pub left_rotate_lem :
    (t : RbTree) (c : List Step) (sa : Tree) (n : ℕ) (sb : Tree) (r : ℕ) (sc : Tree)
    → Shape t t.null t.root (plug c (node sa n (node sb r sc)))
    → ((y : ℕ) → count (plug c (node sa n (node sb r sc))) y ≤ 1)
    → Shape
        (left_rotate t n)
        ((left_rotate t n).null)
        ((left_rotate t n).root)
        (plug c (node (node sa n sb) r sc))
      × (inorder (plug c (node (node sa n sb) r sc)) ≡ inorder (plug c (node sa n (node sb r sc))))
left_rotate_lem t c sa n sb r sc h once = (
  turned_lem t (left_rotate t n) c sa n sb r sc h once
      (λ p around _ _ _ _. left_rotate-Turned t n r (t.left r) p around),
  inorder-plug c (node (node sa n sb) r sc) (node sa n (node sb r sc))
      (append_assoc (inorder sa) (n ∷ inorder sb) (r ∷ inorder sc)),
)
