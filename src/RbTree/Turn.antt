-- ===== src/RbTree/Turn.antt =====
-- oslib/src/rbtree.c: `left_rotate` in a tree.
use zhangxy.Base.{
  ℕ, ◌≤◌, ◌<◌, ◌≡◌, refl, sym, ap, ◌∙◌, ◌≢◌, inl, inr, Bool, true, false, not, ◌&&◌, List, [], ◌∷◌,
  arith, ◌==◌, if◌then◌else◌, ==_iff, Bool-cases,
}
use mathlib.Core.Path.{subst}
use zhangxy.RbTree.{RbTree}
use zhangxy.RbTree.Shape.{Tree, leaf, node, Shape}
use zhangxy.RbTree.Rotate.{Turned}
use zhangxy.RbTree.Zipper.{
  Step, from_left, from_right, count, count_up, Above, Same, Shape-frame, Above-frame, Shape-place,
}

-- None of the nodes around the rotation is in the part that `f` counts.
pub record Clear (f : ℕ → ℕ) (n r b p : ℕ) : Type 0 where
  pub node : f n ≡ 0
  pub child : f r ≡ 0
  pub inner : f b ≡ 0
  pub above : f p ≡ 0

pub differ : (f : ℕ → ℕ) (y z : ℕ) → 0 < f y → f z ≡ 0 → (y == z) ≡ false
differ f y z h k = elim (Bool-cases (y == z)) [
  | inl e ↦ let same : f y ≡ f z = ap f ((==_iff y z).0 e) in absurd (omega arith)
  | inr e ↦ e
]

pub off : (x : Bool) (u v : ℕ) → (if x && false then u else v) ≡ v
off true u v = refl
off false u v = refl

pub off_twice : (x z : Bool) (u v : ℕ) → (if x && (z && false) then u else v) ≡ v
off_twice true z u v = off z u v
off_twice false z u v = refl

pub Turned-Same :
    (t t' : RbTree) (n r b p : ℕ) (f : ℕ → ℕ)
    → Turned t t' n r b p
    → Clear f n r b p
    → (y : ℕ) → 0 < f y
    → Same t t' y
Turned-Same t t' n r b p f (parent, left, right, _, _) c y h =
    let yn = differ f y n h c.node in
    let yr = differ f y r h c.child in
    let yb = differ f y b h c.inner in
    let yp = differ f y p h c.above in
    (
      rw (parent y, yn, yr, yb) (off (not (b == t.null)) n (t.parent y)),
      rw (left y, yr, yp) (off_twice (not (p == t.null)) (t.left p == n) r (t.left y)),
      rw (right y, yp, yn) (off_twice (not (p == t.null)) (not (t.left p == n)) r (t.right y)),
    )

-- The inner subtree has the rotated node as its parent.
pub Turned-inner :
    (t t' : RbTree) (n r b p : ℕ) (s : Tree)
    → Turned t t' n r b p
    → ((y : ℕ) → count s y ≤ 1)
    → count s n ≡ 0
    → count s r ≡ 0
    → count s p ≡ 0
    → Shape t r b s
    → Shape t' n b s
unfolding count
Turned-inner t t' n r b p leaf h once cn cr cp k = k ∙ sym (h.4)
Turned-inner t t' n r b p (node l a s) h once cn cr cp (e, some_a, _, hl, hs) =
    let (parent, left, right, _, null) = h in
    let an : (a == n) ≡ false = ground (arith, cn) in
    let ar : (a == r) ≡ false = ground (arith, cr) in
    let at_p : (a == p) ≡ false = ground (arith, cp) in
    let ab : (a == b) ≡ true = ground (arith, e) in
    let here : (a == a) ≡ true = ground arith in
    let twice = once a in
    let nullb : (b == t.null) ≡ false = ground (arith, some_a, e) in
    let clear_l : Clear (count l) n r b p = record {
      node = omega (arith, cn);
      child = omega (arith, cr);
      above = omega (arith, cp);
      inner = ground (arith, once b, e);
    } in
    let clear_s : Clear (count s) n r b p = record {
      node = omega (arith, cn);
      child = omega (arith, cr);
      above = omega (arith, cp);
      inner = ground (arith, once b, e);
    } in
    (
      e,
      rw null some_a,
      rw (parent a, an, ar, nullb, ab) refl,
      rw (left a, ar, at_p)
          (rw (off_twice (not (p == t.null)) (t.left p == n) r (t.left a)) (
            Shape-frame t t' l a (t.left a) null (Turned-Same t t' n r b p (count l) h clear_l)
              hl)),
      rw (right a, at_p, an)
          (rw (off_twice (not (p == t.null)) (not (t.left p == n)) r (t.right a)) (
            Shape-frame t t' s a (t.right a) null (Turned-Same t t' n r b p (count s) h clear_s)
              hs)),
    )

-- What is above the place has the former child in it.
pub Turned-Above :
    (t t' : RbTree) (n r b p : ℕ) (c : List Step)
    → Turned t t' n r b p
    → n ≢ t.null
    → ((y : ℕ) → count_up c y ≤ 1)
    → count_up c n ≡ 0
    → count_up c r ≡ 0
    → count_up c b ≡ 0
    → Above t p n c
    → Above t' p r c
unfolding count_up
Turned-Above t t' n r b p [] h some_n once cn cr cb (e, e') =
    let (_, _, _, root, null) = h in
    let top : (p == t.null) ≡ true = ground (arith, e) in (e ∙ sym null, rw (root, top) refl)
Turned-Above t t' n r b p (from_left a s ∷ c) h some_n once cn cr cb (e, some_a, e', hs, above) =
    let (parent, left, right, root, null) = h in
    let an : (a == n) ≡ false = ground (arith, cn) in
    let ar : (a == r) ≡ false = ground (arith, cr) in
    let ab : (a == b) ≡ false = ground (arith, cb) in
    let at_p : (a == p) ≡ true = ground (arith, e) in
    let some_p : (p == t.null) ≡ false = ground (arith, some_a, e) in
    let child : t.left p ≡ n = ap t.left e ∙ e' in
    let is_left : (t.left p == n) ≡ true = (==_iff (t.left p) n).1 child in
    let same_root : t'.root ≡ t.root = rw (root, some_p) refl in
    let clear_s : Clear (count s) n r b p = record {
      node = omega (arith, cn);
      child = omega (arith, cr);
      inner = omega (arith, cb);
      above = ground (arith, once p, e);
    } in
    let clear_c : Clear (count_up c) n r b p = record {
      node = omega (arith, cn);
      child = omega (arith, cr);
      inner = omega (arith, cb);
      above = ground (arith, once p, e);
    } in
    (
      e,
      rw null some_a,
      rw (left a, ar, some_p, is_left, at_p) refl,
      rw (right a, some_p, is_left, an)
          (Shape-frame t t' s a (t.right a) null (Turned-Same t t' n r b p (count s) h clear_s) hs),
      rw (parent a, an, ar, ab)
          (rw (off (not (b == t.null)) n (t.parent a)) (
            Above-frame t t' c (t.parent a) a null same_root
              (Turned-Same t t' n r b p (count_up c) h clear_c) above)),
    )
Turned-Above t t' n r b p (from_right s a ∷ c) h some_n once cn cr cb (e, some_a, e', hs, above) =
    let (parent, left, right, root, null) = h in
    let an : (a == n) ≡ false = ground (arith, cn) in
    let ar : (a == r) ≡ false = ground (arith, cr) in
    let ab : (a == b) ≡ false = ground (arith, cb) in
    let at_p : (a == p) ≡ true = ground (arith, e) in
    let some_p : (p == t.null) ≡ false = ground (arith, some_a, e) in
    let not_s : count s n ≡ 0 = omega (arith, cn) in
    let other : (t.left a == n) ≡ false = elim (Shape-place t s a (t.left a) hs) [
      | inl k ↦ ground (arith, k, some_n)
      | inr k ↦ differ (count s) (t.left a) n k not_s
    ] in
    let is_right : (t.left p == n) ≡ false = subst (λ z. (t.left z == n) ≡ false) (sym e) other in
    let same_root : t'.root ≡ t.root = rw (root, some_p) refl in
    let clear_s : Clear (count s) n r b p = record {
      node = omega (arith, cn);
      child = omega (arith, cr);
      inner = omega (arith, cb);
      above = ground (arith, once p, e);
    } in
    let clear_c : Clear (count_up c) n r b p = record {
      node = omega (arith, cn);
      child = omega (arith, cr);
      inner = omega (arith, cb);
      above = ground (arith, once p, e);
    } in
    (
      e,
      rw null some_a,
      rw (right a, some_p, is_right, at_p) refl,
      rw (left a, some_p, is_right, ar)
          (Shape-frame t t' s a (t.left a) null (Turned-Same t t' n r b p (count s) h clear_s) hs),
      rw (parent a, an, ar, ab)
          (rw (off (not (b == t.null)) n (t.parent a)) (
            Above-frame t t' c (t.parent a) a null same_root
              (Turned-Same t t' n r b p (count_up c) h clear_c) above)),
    )
