-- ===== src/Fifo/Alloc.antt =====
-- `FIFO_Alloc`
use zhangxy.Base.{
  ℕ, ◌+◌, ◌-◌, ◌^◌, ◌≤◌, ◌<◌, ◌≡◌, refl, sym, ◌≢◌, ◌⊎◌, inl, inr, true, false, none, some, List, [],
  ◌∷◌, ◌++◌, append-nil, append_assoc, arith, leb, ◌==◌, if◌then◌else◌, ==_iff, Bool-cases, u32_add,
}
use zhangxy.Fifo.{Fifo, p_end, place, alloc, alloc_tail, alloc_front, get_max_size}
use zhangxy.Fifo.Words.{length-put_word}
use zhangxy.Fifo.Blocks.{Block, Chain-le, Chain-put_word, Chain-place, Straight, Wrapped, Holds}

abbrev block : ℕ → ℕ → Block
block at total = record { at = at; total = total }

-- Behind the data of one piece.
alloc_tail-Holds :
    (f : Fifo) (bs : List Block) (total : ℕ)
    → Straight f bs
    → 4 ≤ total
    → total < 2 ^ 32
    → f.p_write + total ≤ p_end f
    → Holds (alloc_tail f total) (bs ++ (block f.p_write total ∷ []))
unfolding alloc_tail
alloc_tail-Holds f bs total s big small room =
    let stop = f.p_write + total in
    let chain = Chain-place f.mem f.p_read bs f.p_write total s.chain big small room in
    let same = length-put_word f.mem f.p_write total in
    let from = Chain-le f.mem f.p_read bs f.p_write s.chain in
    elim (Bool-cases (stop == p_end f)) [
      | inl last ↦
          let at_end = (==_iff stop (p_end f)).0 last in
          rw last (
            inr (
              bs ++ (block f.p_write total ∷ []),
              [],
              stop,
              sym (append-nil (bs ++ (block f.p_write total ∷ []))),
              record {
                older = chain;
                newer = refl;
                behind = omega arith;
                full = ==_iff 0 f.p_read;
                inside = omega (arith, same);
                read_inside = omega (arith, same, s.inside);
              },
            ))
      | inr within ↦
          rw within
            (inl (record { chain = chain; not_full = ground arith; inside = ground (arith, same) }))
    ]

-- In front of data of one piece.
place_start-Holds :
    (f : Fifo) (bs : List Block) (total : ℕ)
    → Straight f bs
    → 4 ≤ total
    → total < 2 ^ 32
    → total ≤ f.p_read
    → Holds (place f 0 (0 + total) total) (bs ++ (block 0 total ∷ []))
place_start-Holds f bs total s big small room =
    let same = length-put_word f.mem 0 total in
    let from = Chain-le f.mem f.p_read bs f.p_write s.chain in
    inr (
      bs,
      block 0 total ∷ [],
      f.p_write,
      refl,
      record {
        older = Chain-put_word f.mem f.p_read bs f.p_write 0 total (inr (omega arith)) s.chain;
        newer = Chain-place f.mem 0 [] 0 total refl big small (omega (arith, s.inside));
        behind = omega arith;
        full = ==_iff (0 + total) f.p_read;
        inside = omega (arith, same, s.inside);
        read_inside = omega (arith, same, s.inside);
      },
    )

-- Between the two pieces.
place_between-Holds :
    (f : Fifo) (old new : List Block) (gap total : ℕ)
    → Wrapped f old new gap
    → 4 ≤ total
    → total < 2 ^ 32
    → f.p_write + total ≤ f.p_read
    → Holds
        (place f f.p_write (f.p_write + total) total)
        ((old ++ new) ++ (block f.p_write total ∷ []))
place_between-Holds f old new gap total w big small room =
    let same = length-put_word f.mem f.p_write total in
    inr (
      old,
      new ++ (block f.p_write total ∷ []),
      gap,
      append_assoc old new (block f.p_write total ∷ []),
      record {
        older = Chain-put_word f.mem f.p_read old gap f.p_write total (inr (omega arith)) w.older;
        newer =
            Chain-place f.mem 0 new f.p_write total w.newer big small
              (omega (arith, w.read_inside));
        behind = room;
        full = ==_iff (f.p_write + total) f.p_read;
        inside = omega (arith, same, w.inside);
        read_inside = omega (arith, same, w.read_inside);
      },
    )

-- A block of `total` bytes was allocated at `p`.
abbrev Allocated : Fifo → List Block → ℕ → Type 0
Allocated f bs size =
    (f' : Fifo) × (p : ℕ) × (alloc f size ≡ (f', some (p + 4)))
    × Holds f' (bs ++ (record { at = p; total = size + 4 } ∷ []))
    × (p_end f' ≡ p_end f)

-- Why none was.
abbrev NoRoom : Fifo → ℕ → Type 0
NoRoom f size =
    (f.is_full ≡ true)
    ⊎ ((get_max_size f < size + 4) ⊎ ((f.p_read ≡ f.p_write) × (p_end f < f.p_write + size + 4)))

alloc-Straight :
    (f : Fifo) (bs : List Block) (size : ℕ)
    → Straight f bs
    → size + 4 < 2 ^ 32
    → (alloc f size ≡ (f, none)) × NoRoom f size ⊎ Allocated f bs size
unfolding alloc alloc_tail alloc_front get_max_size
alloc-Straight f bs size s small =
    let total : u32_add size 4 ≡ size + 4 = omega arith in
    let from = Chain-le f.mem f.p_read bs f.p_write s.chain in
    let ahead : leb f.p_read f.p_write ≡ true = ground arith in
    let start = if leb f.p_write f.p_read then f.p_write else 0 in
    elim (Bool-cases (leb (size + 4) (p_end f - f.p_write))) [
      | inl tail ↦ inr (
        alloc_tail f (size + 4),
        f.p_write,
        rw (total, s.not_full, ahead, tail) refl,
        alloc_tail-Holds f bs (size + 4) s (omega arith) small (ground (arith, s.inside)),
        length-put_word f.mem f.p_write (size + 4),
      )
      | inr no_tail ↦ elim (Bool-cases (leb f.p_write f.p_read)) [
        | inl empty ↦
            let none_left : leb (size + 4) (f.p_read - f.p_write) ≡ false = ground arith in
            inl (
              rw (total, s.not_full, ahead, no_tail, empty, none_left) refl,
              inr (inr (ground arith, ground arith)),
            )
        | inr some_data ↦ elim (Bool-cases (leb (size + 4) (f.p_read - 0))) [
          | inl front ↦ inr (
            place f 0 (0 + (size + 4)) (size + 4),
            0,
            rw (total, s.not_full, ahead, no_tail, some_data, front) refl,
            place_start-Holds f bs (size + 4) s (omega arith) small (ground arith),
            length-put_word f.mem 0 (size + 4),
          )
          | inr no_front ↦ inl (
            rw (total, s.not_full, ahead, no_tail, some_data, no_front) refl,
            inr (inl (ground arith)),
          )
        ]
      ]
    ]

alloc-Wrapped :
    (f : Fifo) (old new : List Block) (gap size : ℕ)
    → Wrapped f old new gap
    → size + 4 < 2 ^ 32
    → (alloc f size ≡ (f, none)) × NoRoom f size ⊎ Allocated f (old ++ new) size
unfolding alloc alloc_front get_max_size
alloc-Wrapped f old new gap size w small =
    let total : u32_add size 4 ≡ size + 4 = omega arith in
    elim (Bool-cases f.is_full) [
      | inl full ↦ inl (rw full, inl full)
      | inr free ↦
          let apart : f.p_write ≢ f.p_read = λ e. let full = w.full.1 e in cc in
          let below : f.p_write < f.p_read = omega (arith, w.behind, apart) in
          let not_ahead : leb f.p_read f.p_write ≡ false = ground arith in
          let behind : leb f.p_write f.p_read ≡ true = ground arith in
          elim (Bool-cases (leb (size + 4) (f.p_read - f.p_write))) [
            | inl room ↦ inr (
              place f f.p_write (f.p_write + (size + 4)) (size + 4),
              f.p_write,
              rw (total, free, not_ahead, behind, room) refl,
              place_between-Holds f old new gap (size + 4) w (omega arith) small (ground arith),
              length-put_word f.mem f.p_write (size + 4),
            )
            | inr no_room ↦
                inl (rw (total, free, not_ahead, behind, no_room) refl, inr (inl (ground arith)))
          ]
    ]

-- `FIFO_Alloc` of a size that with the header is below 2 ^ 32, in an allocator that holds the blocks
-- `bs`, makes one more block, the newest, and leaves
-- the others as they are. It returns NULL only if the buffer is full, if `FIFO_GetMaxSize` is less
-- than the size with its header, or if both pointers are at one place too close to the end.
pub alloc_appends :
    (f : Fifo) (bs : List Block) (size : ℕ)
    → Holds f bs
    → size + 4 < 2 ^ 32
    → ((alloc f size ≡ (f, none))
        × ((f.is_full ≡ true)
            ⊎ ((get_max_size f < size + 4)
                ⊎ ((f.p_read ≡ f.p_write) × (p_end f < f.p_write + size + 4)))))
      ⊎ ((f' : Fifo) × (p : ℕ) × (alloc f size ≡ (f', some (p + 4)))
          × Holds f' (bs ++ (record { at = p; total = size + 4 } ∷ []))
          × (p_end f' ≡ p_end f))
alloc_appends f bs size (inl s) small = alloc-Straight f bs size s small
alloc_appends f bs size (inr (old, new, gap, e, w)) small =
    rw e (alloc-Wrapped f old new gap size w small)
