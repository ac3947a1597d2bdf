-- ===== src/Gki/Chain.antt =====
-- The free queue of a pool, as the list of its headers.
use zhangxy.Base.{
  ℕ, ◌+◌, ◌≤◌, ◌<◌, ◌≡◌, refl, sym, ap, ◌∙◌, ◌≢◌, ◌⊎◌, inl, inr, List, [], ◌∷◌, ◌++◌, length, NotIn,
  Nodup,
}
use zhangxy.Gki.{Gki, Header}

-- From `a` the headers `fs` are linked, up to NULL; they are free and of pool `id`.
abbrev pub Chain : (ℕ → Header) → ℕ → ℕ → List ℕ → Type 0
Chain hdrs id a [] = a ≡ 0
Chain hdrs id a (f ∷ fs) =
    (a ≡ f)
    × (0 < f)
    × ((hdrs f).q_id ≡ id)
    × ((hdrs f).status ≡ 0)
    × Chain hdrs id (hdrs f).next fs

-- The last of a list, or NULL.
abbrev pub last_of : List ℕ → ℕ
last_of [] = 0
last_of (f ∷ []) = f
last_of (f ∷ g ∷ fs) = last_of (g ∷ fs)

pub NotIn-last_of : (x f : ℕ) (fs : List ℕ) → NotIn x (f ∷ fs) → x ≢ last_of (f ∷ fs)
NotIn-last_of x f [] (ne, out) = ne
NotIn-last_of x f (g ∷ fs) (ne, out) = NotIn-last_of x g fs out

-- A chain is where it was if its headers are as they were.
pub Chain-same :
    (hdrs hdrs' : ℕ → Header) (id a x : ℕ) (fs : List ℕ)
    → ((q : ℕ) → q ≢ x → hdrs' q ≡ hdrs q)
    → NotIn x fs
    → Chain hdrs id a fs
    → Chain hdrs' id a fs
Chain-same hdrs hdrs' id a x [] same out c = c
Chain-same hdrs hdrs' id a x (f ∷ fs) same (ne, out) (e, p, q, s, c) =
    rw (same f (λ e. ne (sym e))) (e, p, q, s, Chain-same hdrs hdrs' id _ x fs same out c)

-- A header that is of another pool, or not free, is not in the chain.
pub other-NotIn :
    (hdrs : ℕ → Header) (id a x : ℕ) (fs : List ℕ)
    → ((hdrs x).q_id ≢ id) ⊎ ((hdrs x).status ≢ 0)
    → Chain hdrs id a fs
    → NotIn x fs
other-NotIn hdrs id a x [] why c = record {}
other-NotIn hdrs id a x (f ∷ fs) why (e, p, q, s, c) = (
  (λ same. elim why [
    | inl pool ↦ pool (ap (λ y. (hdrs y).q_id) same ∙ q)
    | inr busy ↦ busy (ap (λ y. (hdrs y).status) same ∙ s)
  ]),
  other-NotIn hdrs id _ x fs why c,
)

-- The header `p` is linked behind the last one.
pub Chain-append :
    (hdrs hdrs' : ℕ → Header) (id a p f : ℕ) (fs : List ℕ)
    → ((q : ℕ) → q ≢ p → q ≢ last_of (f ∷ fs) → hdrs' q ≡ hdrs q)
    → (hdrs' (last_of (f ∷ fs)) ≡ record (hdrs (last_of (f ∷ fs))) { next = p })
    → (0 < p) × ((hdrs' p).q_id ≡ id) × ((hdrs' p).status ≡ 0) × ((hdrs' p).next ≡ 0)
    → Nodup (f ∷ fs)
    → NotIn p (f ∷ fs)
    → Chain hdrs id a (f ∷ fs)
    → Chain hdrs' id a (f ∷ fs ++ p ∷ [])
Chain-append hdrs hdrs' id a p f [] same tail (pos, q', s', n') d out (e, k, q, s, c) =
    (e, k, rw tail q, rw tail s, rw tail (refl, pos, q', s', n'))
Chain-append hdrs hdrs' id a p f (g ∷ fs) same tail new (d, ds) (ne, out) (e, k, q, s, c) =
    let mid = same f (λ e. ne (sym e)) (NotIn-last_of f g fs d) in
    (
      e,
      k,
      rw mid q,
      rw mid s,
      rw mid (Chain-append hdrs hdrs' id (hdrs f).next p g fs same tail new ds out c),
    )

pub last_of-append : (f p : ℕ) (fs : List ℕ) → last_of (f ∷ fs ++ p ∷ []) ≡ p
last_of-append f p [] = refl
last_of-append f p (g ∷ fs) = last_of-append g p fs

pub NotIn-snoc : (x p : ℕ) (fs : List ℕ) → NotIn x fs → x ≢ p → NotIn x (fs ++ p ∷ [])
NotIn-snoc x p [] out ne = (ne, record {})
NotIn-snoc x p (f ∷ fs) (a, out) ne = (a, NotIn-snoc x p fs out ne)

pub Nodup-snoc : (p : ℕ) (fs : List ℕ) → Nodup fs → NotIn p fs → Nodup (fs ++ p ∷ [])
Nodup-snoc p [] d out = (record {}, record {})
Nodup-snoc p (f ∷ fs) (a, d) (ne, out) =
    (NotIn-snoc f p fs a (λ e. ne (sym e)), Nodup-snoc p fs d out)

-- Pool `id` has its memory, and its free queue is `fs`: a buffer that is not in use is in it.
pub record Pool (g : Gki) (id : ℕ) (fs : List ℕ) : Type 0 where
  pub chain : Chain g.hdrs id (g.freeq id).first fs
  pub last : (g.freeq id).last ≡ last_of fs
  pub nodup : Nodup fs
  pub count : (g.freeq id).cur_cnt + length fs ≡ (g.freeq id).total
  pub peak : (g.freeq id).cur_cnt ≤ (g.freeq id).max_cnt
