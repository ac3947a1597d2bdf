-- ===== src/Fifo/Blocks.antt =====
-- Which blocks are allocated: the order of their allocation is the order in the buffer, from the
-- read pointer round to the write pointer.
use zhangxy.Base.{
  ℕ, ◌+◌, ◌^◌, ◌≤◌, ◌<◌, ◌≡◌, refl, sym, ap, ◌∙◌, ◌↔◌, ◌⊎◌, inl, true, false, List, [], ◌∷◌, ◌++◌,
  arith, length,
}
use zhangxy.Fifo.{Fifo, word_at, put_word, p_end, init}
use zhangxy.Fifo.Words.{word_at-put_word_ne, word_at-put_word}

-- Where its header stands, and its size with the header.
pub record Block : Type 0 where
  pub at : ℕ
  pub total : ℕ

-- The blocks `bs` follow one another from `a` to `b`.
abbrev pub Chain : List ℕ → ℕ → List Block → ℕ → Type 0
Chain mem a [] b = a ≡ b
Chain mem a (x ∷ bs) b =
    (x.at ≡ a) × (4 ≤ x.total) × (word_at mem a ≡ x.total) × Chain mem (a + x.total) bs b

pub Chain-le : (mem : List ℕ) (a : ℕ) (bs : List Block) (b : ℕ) → Chain mem a bs b → a ≤ b
Chain-le mem a [] b h = omega arith
Chain-le mem a (x ∷ bs) b (p, q, r, h) = omega (arith, Chain-le mem (a + x.total) bs b h)

-- A word written outside leaves a chain as it is.
pub Chain-put_word :
    (mem : List ℕ) (a : ℕ) (bs : List Block) (b p v : ℕ)
    → (b ≤ p) ⊎ (p + 4 ≤ a)
    → Chain mem a bs b
    → Chain (put_word mem p v) a bs b
Chain-put_word mem a [] b p v out h = h
Chain-put_word mem a (x ∷ bs) b p v out (e, q, r, h) =
    let le = Chain-le mem (a + x.total) bs b h in
    (
      e,
      q,
      word_at-put_word_ne mem p v a (omega arith) ∙ r,
      Chain-put_word mem (a + x.total) bs b p v (omega arith) h,
    )

pub Chain-snoc :
    (mem : List ℕ) (a : ℕ) (bs : List Block) (b total : ℕ)
    → Chain mem a bs b
    → 4 ≤ total
    → word_at mem b ≡ total
    → Chain mem a (bs ++ (record { at = b; total = total } ∷ [])) (b + total)
Chain-snoc mem a [] b total h q r = (sym h, q, rw h r, ap (λ i. i + total) h)
Chain-snoc mem a (x ∷ bs) b total (e, q', r', h) q r =
    (e, q', r', Chain-snoc mem (a + x.total) bs b total h q r)

-- A new block behind a chain.
pub Chain-place :
    (mem : List ℕ) (a : ℕ) (bs : List Block) (b total : ℕ)
    → Chain mem a bs b
    → 4 ≤ total
    → total < 2 ^ 32
    → b + total ≤ length mem
    → Chain (put_word mem b total) a (bs ++ (record { at = b; total = total } ∷ [])) (b + total)
Chain-place mem a bs b total h q small room =
    Chain-snoc (put_word mem b total) a bs b total
      (Chain-put_word mem a bs b b total (inl (omega arith)) h) q
      (word_at-put_word mem b total (omega arith) small)

-- All blocks lie in one piece.
pub record Straight (f : Fifo) (bs : List Block) : Type 0 where
  pub chain : Chain f.mem f.p_read bs f.p_write
  pub not_full : f.is_full ≡ false
  pub inside : f.p_write < p_end f

-- The older blocks lie from the read pointer to `gap`, behind which the rest of the buffer is not
-- used, and the newer ones from the start to the write pointer.
pub record Wrapped (f : Fifo) (old new : List Block) (gap : ℕ) : Type 0 where
  pub older : Chain f.mem f.p_read old gap
  pub newer : Chain f.mem 0 new f.p_write
  pub behind : f.p_write ≤ f.p_read
  pub full : (f.is_full ≡ true) ↔ (f.p_write ≡ f.p_read)
  pub inside : gap ≤ p_end f
  pub read_inside : f.p_read < p_end f

-- The allocator holds the blocks `bs`, the oldest first.
abbrev pub Holds : Fifo → List Block → Type 0
Holds f bs =
    Straight f bs ⊎ ((old new : List Block) × (gap : ℕ) × (bs ≡ old ++ new) × Wrapped f old new gap)

-- A new allocator over a buffer that is not empty holds no block.
pub init-Holds : (mem : List ℕ) → 0 < length mem → Holds (init mem) []
unfolding init
init-Holds mem h = inl (record { chain = refl; not_full = refl; inside = h })
