-- ===== src/Fifo/Unalloc.antt =====
-- `FIFO_Unalloc`
use zhangxy.Base.{
  ℕ, ◌+◌, ◌-◌, ◌≤◌, ◌<◌, ◌≡◌, refl, sym, ap, ◌∙◌, ◌⊎◌, inl, inr, true, false, not, List, [], ◌∷◌,
  ◌++◌, append-nil, append_assoc, arith, ◌==◌, if◌then◌else◌, ==_iff, Bool-cases,
}
use zhangxy.Fifo.{Fifo, word_at, p_end, unalloc}
use mathlib.Core.Path.{subst}
use zhangxy.Fifo.Blocks.{Block, Chain, Straight, Wrapped, Holds}

snoc_cases :
    (bs : List Block) → (bs ≡ []) ⊎ ((front : List Block) × (y : Block) × (bs ≡ front ++ (y ∷ [])))
snoc_cases [] = inl refl
snoc_cases (x ∷ bs) = elim (snoc_cases bs) [
  | inl e ↦ inr ([], x, ap (◌∷◌ x) e)
  | inr (front, y, e) ↦ inr (x ∷ front, y, ap (◌∷◌ x) e)
]

snoc_same :
    (xs ys : List Block) (x y : Block) → xs ++ (x ∷ []) ≡ ys ++ (y ∷ []) → (xs ≡ ys) × (x ≡ y)
snoc_same [] [] x y h = (refl, cc)
snoc_same [] (z ∷ []) x y h = absurd (ground arith)
snoc_same [] (z ∷ w ∷ ys) x y h = absurd (ground arith)
snoc_same (z ∷ []) [] x y h = absurd (ground arith)
snoc_same (z ∷ w ∷ xs) [] x y h = absurd (ground arith)
snoc_same (a ∷ xs) (b ∷ ys) x y h =
    let head : a ≡ b = cc in
    let tail : xs ++ (x ∷ []) ≡ ys ++ (y ∷ []) = cc in
    let (p, q) = snoc_same xs ys x y tail in (rw (head, p) refl, q)

-- The last block of a chain.
record Last (mem : List ℕ) (a : ℕ) (bs : List Block) (x : Block) (b : ℕ) : Type 0 where
  front : Chain mem a bs x.at
  size : 4 ≤ x.total
  word : word_at mem x.at ≡ x.total
  stop : x.at + x.total ≡ b

Chain-Last :
    (mem : List ℕ) (a : ℕ) (bs : List Block) (x : Block) (b : ℕ)
    → Chain mem a (bs ++ (x ∷ [])) b
    → Last mem a bs x b
Chain-Last mem a [] x b (e, q, r, h) = record {
  front = sym e;
  size = q;
  word = rw e r;
  stop = rw e h;
}
Chain-Last mem a (y ∷ bs) x b (e, q, r, h) =
    let last = Chain-Last mem (a + y.total) bs x b h in
    record { front = (e, q, r, last.front); size = last.size; word = last.word; stop = last.stop }

abbrev undone : Fifo → ℕ → Fifo
undone f p = record f { p_write = p; is_full = false }

-- The block ends where the data does.
unalloc_accepts :
    (f : Fifo) (p total : ℕ)
    → word_at f.mem p ≡ total
    → p + total ≡ (if f.p_write == 0 then p_end f else f.p_write)
    → unalloc f (p + 4) ≡ (undone f p, true)
unfolding unalloc
unalloc_accepts f p total e k =
    let back : p + 4 - 4 ≡ p = omega arith in
    let hit : not (p + total == (if f.p_write == 0 then p_end f else f.p_write)) ≡ false =
      ground arith in
    rw (back, e, hit) refl

abbrev Undone : Fifo → Block → List Block → Type 0
Undone f x bs =
    ((f' : Fifo) × (unalloc f (x.at + 4) ≡ (f', true)) × Holds f' bs × (f'.mem ≡ f.mem))
    ⊎ ((unalloc f (x.at + 4) ≡ (f, false)) × (f.p_write ≡ 0) × (x.at + x.total < p_end f))

unalloc-Straight :
    (f : Fifo) (x : Block) (bs : List Block) → Straight f (bs ++ (x ∷ [])) → Undone f x bs
unalloc-Straight f x bs s =
    let last = Chain-Last f.mem f.p_read bs x f.p_write s.chain in
    let positive : (f.p_write == 0) ≡ false = ground (arith, last.stop, last.size) in
    inl (
      undone f x.at,
      unalloc_accepts f x.at x.total last.word (rw positive last.stop),
      inl (record {
        chain = last.front;
        not_full = refl;
        inside = omega (arith, s.inside, last.stop, last.size);
      }),
      refl,
    )

-- The newest block lies at the start of the buffer or behind it there.
unalloc_newer :
    (f : Fifo) (x : Block) (old new : List Block) (gap : ℕ)
    → Wrapped f old (new ++ (x ∷ [])) gap
    → Undone f x (old ++ new)
unalloc_newer f x old new gap w =
    let last = Chain-Last f.mem 0 new x f.p_write w.newer in
    let positive : (f.p_write == 0) ≡ false = ground (arith, last.stop, last.size) in
    let below : x.at < f.p_read = omega (arith, w.behind, last.stop, last.size) in
    inl (
      undone f x.at,
      unalloc_accepts f x.at x.total last.word (rw positive last.stop),
      inr (
        old,
        new,
        gap,
        refl,
        record {
          older = w.older;
          newer = last.front;
          behind = omega arith;
          full = ((λ e. cc), (λ e. absurd (omega arith)));
          inside = w.inside;
          read_inside = w.read_inside;
        },
      ),
      refl,
    )

-- No block is left at the start of the buffer.
unalloc_older :
    (f : Fifo) (x : Block) (bs : List Block) (gap : ℕ)
    → Wrapped f (bs ++ (x ∷ [])) [] gap
    → Undone f x bs
unfolding unalloc
unalloc_older f x bs gap w =
    let last = Chain-Last f.mem f.p_read bs x gap w.older in
    let zero : (f.p_write == 0) ≡ true = ground (arith, w.newer) in
    elim (Bool-cases (gap == p_end f)) [
      | inl whole ↦
          let at_end = (==_iff gap (p_end f)).0 whole in
          inl (
            undone f x.at,
            unalloc_accepts f x.at x.total last.word (rw zero (last.stop ∙ at_end)),
            inl (record {
              chain = last.front;
              not_full = refl;
              inside = omega (arith, last.stop, last.size);
            }),
            refl,
          )
      | inr part ↦
          let back : x.at + 4 - 4 ≡ x.at = omega arith in
          let miss : not (x.at + x.total == p_end f) ≡ true = ground (arith, last.stop) in
          inr (
            rw (back, last.word, zero, miss) refl,
            sym w.newer,
            ground (arith, last.stop, w.inside),
          )
    ]

-- `FIFO_Unalloc` of the newest block succeeds, and leaves the other blocks as they are, unless the
-- write pointer stands at the start of the buffer and the block does not reach its end: then it is
-- refused, and nothing changes.
pub unalloc_newest :
    (f : Fifo) (x : Block) (bs : List Block)
    → Holds f (bs ++ (x ∷ []))
    → ((f' : Fifo) × (unalloc f (x.at + 4) ≡ (f', true)) × Holds f' bs × (f'.mem ≡ f.mem))
      ⊎ ((unalloc f (x.at + 4) ≡ (f, false)) × (f.p_write ≡ 0) × (x.at + x.total < p_end f))
unalloc_newest f x bs (inl s) = unalloc-Straight f x bs s
unalloc_newest f x bs (inr (old, new, gap, e, w)) = elim (snoc_cases new) [
  | inl none_new ↦
      let all_old : bs ++ (x ∷ []) ≡ old = e ∙ ap (λ t. old ++ t) none_new ∙ append-nil old in
      unalloc_older f x bs gap (
        subst (λ t. Wrapped f t [] gap) (sym all_old) (subst (λ t. Wrapped f old t gap) none_new w))
  | inr (front, y, is_snoc) ↦
      let joined : bs ++ (x ∷ []) ≡ (old ++ front) ++ (y ∷ []) =
        e ∙ ap (λ t. old ++ t) is_snoc ∙ sym (append_assoc old front (y ∷ [])) in
      let (same_bs, same_x) = snoc_same bs (old ++ front) x y joined in
      rw (same_bs, same_x)
        (unalloc_newer f y old front gap (subst (λ t. Wrapped f old t gap) is_snoc w))
]
