-- ===== src/Timer/Free.antt =====
-- The free ids: each cell of one holds the next, negated.
use zhangxy.Base.{
  ℕ, zero, suc, ◌+◌, ◌≤◌, ◌<◌, ◌≡◌, refl, sym, ap, ◌∙◌, ◌≢◌, Bool, true, false, List, [], ◌∷◌, ◌++◌,
  arith, length, get_or, NotIn, Nodup,
}
use zhangxy.Base.Int.{ℤ, pos, neg_part, sub_ℕ, ltz}
use zhangxy.Timer.{fresh_ids}

abbrev pub is_link : List ℤ → ℕ → Bool
is_link ids j = ltz (get_or ids j (pos 0)) (pos 0)

-- From `a` the links lead through the ids `fl` to `stop`, which is not an id any more.
abbrev pub Links : List ℤ → ℕ → List ℕ → ℕ → Type 0
Links ids a [] stop = a ≡ stop
Links ids a (f ∷ fl) stop =
    (a ≡ f)
    × (0 < f)
    × (f < stop)
    × (is_link ids f ≡ true)
    × Links ids (neg_part (get_or ids f (pos 0))) fl stop

-- The cell of an id in use is no link.
pub used-NotIn :
    (ids : List ℤ) (a : ℕ) (fl : List ℕ) (stop x : ℕ)
    → Links ids a fl stop
    → is_link ids x ≡ false
    → NotIn x fl
used-NotIn ids a [] stop x l u = tt
used-NotIn ids a (f ∷ fl) stop x (e, p, q, link, l) u = (
  (λ same. let other = rw same at u in cc),
  used-NotIn ids (neg_part (get_or ids f (pos 0))) fl stop x l u,
)

pub Links-positive :
    (ids : List ℤ) (a : ℕ) (fl : List ℕ) (stop : ℕ) → Links ids a fl stop → 0 < stop → 0 < a
Links-positive ids a [] stop l h = omega arith
Links-positive ids a (f ∷ fl) stop (e, p, q, link, l) h = omega arith

-- Links whose cells are the same in another array.
pub Links-same :
    (ids ids' : List ℤ) (x a : ℕ) (fl : List ℕ) (stop stop' : ℕ)
    → ((j : ℕ)
        → j < stop
        → is_link ids j ≡ true
        → j ≢ x
        → get_or ids' j (pos 0) ≡ get_or ids j (pos 0))
    → NotIn x fl
    → Links ids a fl stop
    → stop ≡ stop'
    → Links ids' a fl stop'
Links-same ids ids' x a [] stop stop' same n l e = l ∙ e
Links-same ids ids' x a (f ∷ fl) stop stop' same n (e0, p, q, link, l) e =
    let cell = same f q link (λ z. n.0 (sym z)) in
    (
      e0,
      p,
      omega arith,
      rw cell link,
      rw cell (Links-same ids ids' x (neg_part (get_or ids f (pos 0))) fl stop stop' same n.1 l e),
    )

pub Links-append :
    (ids : List ℤ) (a : ℕ) (fl : List ℕ) (b : ℕ) (gl : List ℕ) (c : ℕ)
    → Links ids a fl b
    → Links ids b gl c
    → b ≤ c
    → Links ids a (fl ++ gl) c
Links-append ids a [] b gl c l k le = rw l k
Links-append ids a (f ∷ fl) b gl c (e, p, q, link, l) k le =
    (e, p, omega arith, link, Links-append ids (neg_part (get_or ids f (pos 0))) fl b gl c l k le)

-- The ids from `i` on, `n` of them.
unfoldable pub range : ℕ → ℕ → List ℕ
range i zero = []
range i (suc n) = i ∷ range (i + 1) n

pub Links-range :
    (ids : List ℤ) (i n stop : ℕ)
    → 0 < i
    → i + n ≡ stop
    → ((j : ℕ) → i ≤ j → j < stop → get_or ids j (pos 0) ≡ sub_ℕ 0 (j + 1))
    → Links ids i (range i n) stop
unfolding range
Links-range ids i zero stop p e h = omega arith
Links-range ids i (suc n) stop p e h =
    let cell = h i (omega arith) (omega arith) in
    let next : neg_part (sub_ℕ 0 (i + 1)) ≡ i + 1 = ground arith in
    (
      refl,
      p,
      omega arith,
      rw cell (ground arith),
      rw (cell, next)
          (Links-range ids (i + 1) n stop (omega arith) (omega arith)
            (λ j a b. h j (omega arith) b)),
    )

pub length-range : (i n : ℕ) → length (range i n) ≡ n
unfolding range
length-range i zero = refl
length-range i (suc n) = ap suc (length-range (i + 1) n)

pub below-NotIn : (x i n : ℕ) → x < i → NotIn x (range i n)
unfolding range
below-NotIn x i zero h = tt
below-NotIn x i (suc n) h = (omega arith, below-NotIn x (i + 1) n (omega arith))

pub Nodup-range : (i n : ℕ) → Nodup (range i n)
unfolding range
Nodup-range i zero = tt
Nodup-range i (suc n) = (below-NotIn i (i + 1) n (omega arith), Nodup-range (i + 1) n)

pub NotIn-append : (x : ℕ) (fl gl : List ℕ) → NotIn x fl → NotIn x gl → NotIn x (fl ++ gl)
NotIn-append x [] gl n m = m
NotIn-append x (f ∷ fl) gl n m = (n.0, NotIn-append x fl gl n.1 m)

-- Ids below the end of their links, and those from there on.
pub Nodup-append :
    (ids : List ℤ) (a : ℕ) (fl : List ℕ) (stop n : ℕ)
    → Links ids a fl stop
    → Nodup fl
    → Nodup (fl ++ range stop n)
Nodup-append ids a [] stop n l d = Nodup-range stop n
Nodup-append ids a (f ∷ fl) stop n (e, p, q, link, l) d = (
  NotIn-append f fl (range stop n) d.0 (below-NotIn f stop n q),
  Nodup-append ids (neg_part (get_or ids f (pos 0))) fl stop n l d.1,
)

pub get_or-fresh_ids : (i n j : ℕ) → j < n → get_or (fresh_ids i n) j (pos 0) ≡ sub_ℕ 0 (i + j + 1)
unfolding fresh_ids
get_or-fresh_ids i zero j h = absurd (omega arith)
get_or-fresh_ids i (suc n) zero h = ap (λ k. sub_ℕ 0 k) (omega arith)
get_or-fresh_ids i (suc n) (suc j) h =
    let e : i + 1 + j + 1 ≡ i + suc j + 1 = omega arith in
    get_or-fresh_ids (i + 1) n j (omega arith) ∙ ap (λ k. sub_ℕ 0 k) e

pub length-fresh_ids : (i n : ℕ) → length (fresh_ids i n) ≡ n
unfolding fresh_ids
length-fresh_ids i zero = refl
length-fresh_ids i (suc n) = ap suc (length-fresh_ids (i + 1) n)
