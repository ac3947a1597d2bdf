-- ===== src/Fifo/Free.antt =====
-- `FIFO_Free`
use zhangxy.Base.{
  ℕ, ◌+◌, ◌-◌, ◌≤◌, ◌<◌, ◌≡◌, refl, sym, ◌⊎◌, inl, inr, true, false, not, ◌&&◌, ◌||◌, List, [], ◌∷◌,
  ◌++◌, arith, ltb, leb, ◌==◌, if◌then◌else◌, ==_iff, Bool-cases,
}
use zhangxy.Fifo.{Fifo, word_at, p_end, free, settle_read}
use zhangxy.Fifo.Blocks.{Block, Chain, Chain-le, Straight, Wrapped, Holds}

-- A chain from a place to itself has no block.
Chain-empty : (mem : List ℕ) (a : ℕ) (bs : List Block) (b : ℕ) → b ≡ a → Chain mem a bs b → bs ≡ []
Chain-empty mem a [] b e h = refl
Chain-empty mem a (x ∷ bs) b e (p, q, r, h) =
    let le = Chain-le mem (a + x.total) bs b h in absurd (omega arith)

-- A block that stands where one is to be freed, and ends in front of what stops it.
free_accepts :
    (f : Fifo) (p total : ℕ)
    → p < p_end f
    → (p ≡ f.p_read) ⊎ (p ≡ 0)
    → word_at f.mem p ≡ total
    → p + total ≤ (if ltb f.p_read f.p_write then f.p_write else p_end f)
    → free f (p + 4) ≡ (settle_read f (p + total), true)
unfolding free
free_accepts f p total h place e k =
    let back : p + 4 - 4 ≡ p = omega arith in
    let inside : ltb (p + 4) 4 || leb (p_end f) p ≡ false = ground arith in
    let in_turn : not (p == f.p_read) && not (p == 0) ≡ false = ground arith in
    let fits : ltb (if ltb f.p_read f.p_write then f.p_write else p_end f) (p + total) ≡ false =
      ground arith in
    rw (back, inside, in_turn, e, fits) refl

abbrev Reset : Fifo → Fifo
Reset f = record f { p_read = 0; p_write = 0; is_full = false }

Reset-Holds : (f : Fifo) (bs : List Block) → 0 < p_end f → bs ≡ [] → Holds (Reset f) bs
Reset-Holds f bs h e = inl (record { chain = rw e refl; not_full = refl; inside = h })

-- The read pointer moves to `a`, from which one piece of blocks is left.
settle_read-Straight :
    (f : Fifo) (bs : List Block) (a : ℕ)
    → Chain f.mem a bs f.p_write
    → f.p_write < p_end f
    → Holds (settle_read f a) bs
settle_read-Straight f bs a h k =
    let le = Chain-le f.mem a bs f.p_write h in
    let within : (a == p_end f) ≡ false = ground arith in
    elim (Bool-cases (a == f.p_write)) [
      | inl last ↦
          let same = (==_iff a f.p_write).0 last in
          rw (within, last)
            (Reset-Holds f bs (omega arith) (Chain-empty f.mem a bs f.p_write (sym same) h))
      | inr more ↦ rw (within, more) (inl (record { chain = h; not_full = refl; inside = k }))
    ]

settle_read-Wrapped :
    (f : Fifo) (old new : List Block) (gap a : ℕ)
    → Chain f.mem a old gap
    → Chain f.mem 0 new f.p_write
    → f.p_write < a
    → gap ≤ p_end f
    → f.p_write < p_end f
    → Holds (settle_read f a) (old ++ new)
settle_read-Wrapped f old new gap a h k below inside w =
    let le = Chain-le f.mem a old gap h in
    elim (Bool-cases (a == p_end f)) [
      | inl last ↦
          let at_end = (==_iff a (p_end f)).0 last in
          let none_old = Chain-empty f.mem a old gap (omega arith) h in
          elim (Bool-cases (0 == f.p_write)) [
            | inl all ↦
                let start = (==_iff 0 f.p_write).0 all in
                let none_new = Chain-empty f.mem 0 new f.p_write (sym start) k in
                rw (last, all)
                  (Reset-Holds f (old ++ new) (omega arith) (rw (none_old, none_new) refl))
            | inr more ↦
                rw (last, more, none_old) (inl (record { chain = k; not_full = refl; inside = w }))
          ]
      | inr within ↦
          let differ : (a == f.p_write) ≡ false = ground arith in
          rw (within, differ)
            (inr (
              old,
              new,
              gap,
              refl,
              record {
                older = h;
                newer = k;
                behind = omega arith;
                full = ((λ e. cc), (λ e. absurd (omega arith)));
                inside = inside;
                read_inside = ground arith;
              },
            ))
    ]

abbrev Freed : Fifo → ℕ → List Block → Type 0
Freed f p bs = (f' : Fifo) × (free f (p + 4) ≡ (f', true)) × Holds f' bs × (f'.mem ≡ f.mem)

settle_read-mem : (f : Fifo) (a : ℕ) → (settle_read f a).mem ≡ f.mem
settle_read-mem f a = ground arith

free-Straight : (f : Fifo) (x : Block) (bs : List Block) → Straight f (x ∷ bs) → Freed f x.at bs
free-Straight f x bs s =
    let (e, q, r, h) = s.chain in
    let le = Chain-le f.mem (f.p_read + x.total) bs f.p_write h in
    let ahead : ltb f.p_read f.p_write ≡ true = ground arith in
    rw e (
      settle_read f (f.p_read + x.total),
      free_accepts f f.p_read x.total (omega (arith, s.inside)) (inl refl) r (rw ahead le),
      settle_read-Straight f bs (f.p_read + x.total) h s.inside,
      settle_read-mem f (f.p_read + x.total),
    )

free-Wrapped_old :
    (f : Fifo) (x : Block) (old new : List Block) (gap : ℕ)
    → Wrapped f (x ∷ old) new gap
    → Freed f x.at (old ++ new)
free-Wrapped_old f x old new gap w =
    let (e, q, r, h) = w.older in
    let le = Chain-le f.mem (f.p_read + x.total) old gap h in
    let behind : ltb f.p_read f.p_write ≡ false = ground (arith, w.behind) in
    rw e (
      settle_read f (f.p_read + x.total),
      free_accepts f f.p_read x.total w.read_inside (inl refl) r
          (rw behind (omega (arith, w.inside))),
      settle_read-Wrapped f old new gap (f.p_read + x.total) h w.newer (omega (arith, w.behind))
          w.inside (omega (arith, w.behind, w.read_inside)),
      settle_read-mem f (f.p_read + x.total),
    )

-- `FIFO_Free` of the block at the start of the buffer succeeds too while older blocks lie up to the
-- end: with it, all older blocks are given up, though they are not freed.
pub free_out_of_turn :
    (f : Fifo) (x : Block) (old new : List Block) (gap : ℕ)
    → Wrapped f old (x ∷ new) gap
    → (f' : Fifo) × (free f (x.at + 4) ≡ (f', true)) × Holds f' new × (f'.mem ≡ f.mem)
free_out_of_turn f x old new gap w =
    let (e, q, r, h) = w.newer in
    let le = Chain-le f.mem (0 + x.total) new f.p_write h in
    let behind : ltb f.p_read f.p_write ≡ false = ground (arith, w.behind) in
    rw e (
      settle_read f (0 + x.total),
      free_accepts f 0 x.total (omega (arith, w.read_inside)) (inr refl) r
          (rw behind (omega (arith, w.behind, w.read_inside))),
      settle_read-Straight f new (0 + x.total) h (omega (arith, w.behind, w.read_inside)),
      settle_read-mem f (0 + x.total),
    )

-- `FIFO_Free` of the oldest block succeeds, and leaves the other blocks as they are.
pub free_oldest :
    (f : Fifo) (x : Block) (bs : List Block)
    → Holds f (x ∷ bs)
    → (f' : Fifo) × (free f (x.at + 4) ≡ (f', true)) × Holds f' bs × (f'.mem ≡ f.mem)
free_oldest f x bs (inl s) = free-Straight f x bs s
free_oldest f x bs (inr ([], [], gap, e, w)) = absurd (ground arith)
free_oldest f x bs (inr (y ∷ old, new, gap, e, w)) =
    let head : x ≡ y = cc in
    let tail : bs ≡ old ++ new = cc in rw (head, tail) (free-Wrapped_old f y old new gap w)
free_oldest f x bs (inr ([], y ∷ new, gap, e, w)) =
    let head : x ≡ y = cc in
    let tail : bs ≡ new = cc in rw (head, tail) (free_out_of_turn f y [] new gap w)
