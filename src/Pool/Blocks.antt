-- ===== src/Pool/Blocks.antt =====
-- oslib/src/pool.c: what holds of the blocks of a pool, and the search for room in them.
use zhangxy.Base.{
  ℕ, ◌+◌, ◌-◌, ◌%◌, ◌^◌, ◌≤◌, ◌<◌, ◌≡◌, refl, ap, ◌⊎◌, inl, inr, false, ◌&&◌, List, [], ◌∷◌, ◌++◌,
  map, arith, ltb, leb, ◌==◌, if◌then◌else◌, ==_iff, Bool-cases, u32_sub,
}
use zhangxy.Pool.{BlockInfo, round_size, alloc_from_block, find_block, used_of}

-- The header stands at the start of the block; what is handed out lies behind it.
pub record IsBlock (b : BlockInfo) : Type 0 where
  pub start : b.start_addr ≡ b.block + 20
  pub positive : 0 < b.block
  pub start_aligned : b.start_addr % 4 ≡ 0
  pub begun : b.start_addr ≤ b.cur_addr
  pub inside : b.cur_addr ≤ b.end_addr
  pub bound : b.end_addr < 2 ^ 32
  pub aligned : b.cur_addr % 4 ≡ 0

abbrev pub AllBlocks : List BlockInfo → Type 0
AllBlocks [] = Unit
AllBlocks (b ∷ bs) = IsBlock b × AllBlocks bs

-- 1 where the byte `x` is one of the `n` from `a` on.
unfoldable pub covers : ℕ → ℕ → ℕ → ℕ
covers a n x = if leb a x && ltb x (a + n) then 1 else 0

-- How often the byte `x` is free.
unfoldable pub free_count : List BlockInfo → ℕ → ℕ
unfolding covers
free_count [] x = 0
free_count (b ∷ bs) x = covers b.cur_addr (b.end_addr - b.cur_addr) x + free_count bs x

unfoldable pub free_size : List BlockInfo → ℕ
free_size [] = 0
free_size (b ∷ bs) = b.end_addr - b.cur_addr + free_size bs

unfoldable pub total_size : List BlockInfo → ℕ
total_size [] = 0
total_size (b ∷ bs) = b.end_addr - b.block + total_size bs

-- No block has room for `n` bytes.
abbrev pub AllFull : List BlockInfo → ℕ → Type 0
AllFull [] n = Unit
AllFull (b ∷ bs) n = (b.end_addr < b.cur_addr + n) × AllFull bs n

pub round_size_lem :
    (size : ℕ)
    → size ≤ 2 ^ 32 - 4
    → (size ≤ round_size size) × (round_size size < size + 4) × (round_size size % 4 ≡ 0)
unfolding round_size
round_size_lem size h = elim (Bool-cases (size % 4 == 0)) [
  | inl e ↦ rw e (omega arith, omega arith, (==_iff (size % 4) 0).0 e)
  | inr e ↦
      let part : 0 < size % 4 = ground arith in
      let top : 2 ^ 32 ≡ 4294967296 = refl in
      let small : (size + 4) % 2 ^ 32 ≡ size + 4 = omega arith in
      rw (e, small) (omega arith, omega arith, omega arith)
]

abbrev pub advance : BlockInfo → ℕ → BlockInfo
advance b n = record b { cur_addr = b.cur_addr + n }

pub alloc_from_block_cases :
    (b : BlockInfo) (size : ℕ)
    → IsBlock b
    → ((alloc_from_block b size ≡ (b, 0)) × (b.end_addr < b.cur_addr + round_size size))
      ⊎ ((alloc_from_block b size ≡ (advance b (round_size size), b.cur_addr))
          × (b.cur_addr + round_size size ≤ b.end_addr))
unfolding alloc_from_block
alloc_from_block_cases b size v =
    let room : u32_sub b.end_addr b.cur_addr ≡ b.end_addr - b.cur_addr =
      ground (arith, v.inside, v.bound) in
    elim (Bool-cases (leb (round_size size) (b.end_addr - b.cur_addr))) [
      | inl e ↦ inr (rw (room, e) refl, ground (arith, v.inside))
      | inr e ↦ inl (rw (room, e) refl, ground (arith, v.inside))
    ]

-- Of a block that `n` bytes are taken from.
pub advance_lem :
    (b : BlockInfo) (n : ℕ)
    → IsBlock b
    → n % 4 ≡ 0
    → b.cur_addr + n ≤ b.end_addr
    → IsBlock (advance b n)
      × ((x : ℕ)
          → covers (b.cur_addr + n) (b.end_addr - (b.cur_addr + n)) x + covers b.cur_addr n x
            ≡ covers b.cur_addr (b.end_addr - b.cur_addr) x)
unfolding covers
advance_lem b n v e h = (
  record {
    start = v.start;
    positive = v.positive;
    start_aligned = v.start_aligned;
    begun = omega (arith, v.begun);
    inside = h;
    bound = v.bound;
    aligned = omega (arith, v.aligned);
  },
  (λ x. ground (arith, v.inside)),
)

-- A block without how much of it is used.
abbrev pub frame : BlockInfo → BlockInfo
frame b = record b { cur_addr = 0 }

-- The search takes the `n` bytes at `q`.
pub record Taken (bs bs' : List BlockInfo) (n q : ℕ) : Type 0 where
  pub positive : 0 < q
  pub aligned : q % 4 ≡ 0
  pub valid : AllBlocks bs'
  pub bytes : (x : ℕ) → free_count bs' x + covers q n x ≡ free_count bs x
  pub total : total_size bs' ≡ total_size bs
  pub used : used_of bs' ≡ used_of bs + n
  pub frames : map frame bs' ≡ map frame bs

pub Taken-here :
    (b : BlockInfo) (bs : List BlockInfo) (n : ℕ)
    → AllBlocks (b ∷ bs)
    → n % 4 ≡ 0
    → b.cur_addr + n ≤ b.end_addr
    → Taken (b ∷ bs) (advance b n ∷ bs) n b.cur_addr
unfolding free_count total_size used_of
Taken-here b bs n (v, vs) e h =
    let (v', bytes) = advance_lem b n v e h in
    record {
      positive = omega (arith, v.positive, v.start, v.begun);
      aligned = v.aligned;
      valid = (v', vs);
      bytes = (λ x. omega (arith, bytes x));
      total = refl;
      used = omega (arith, v.begun);
      frames = refl;
    }

pub Taken-later :
    (b : BlockInfo) (bs bs' : List BlockInfo) (n q : ℕ)
    → IsBlock b
    → Taken bs bs' n q
    → Taken (b ∷ bs) (b ∷ bs') n q
unfolding free_count total_size used_of
Taken-later b bs bs' n q v t = record {
  positive = t.positive;
  aligned = t.aligned;
  valid = (v, t.valid);
  bytes = (λ x. omega (arith, t.bytes x));
  total = omega (arith, t.total);
  used = omega (arith, t.used);
  frames = ap (◌∷◌ (frame b)) t.frames;
}

abbrev pub Search : List BlockInfo → ℕ → Type 0
Search bs size =
    ((find_block bs size ≡ (bs, 0)) × AllFull bs (round_size size))
    ⊎ ((bs' : List BlockInfo) × (q : ℕ) × (find_block bs size ≡ (bs', q))
        × Taken bs bs' (round_size size) q)

pub find_block_lem :
    (bs : List BlockInfo) (size : ℕ) → AllBlocks bs → size ≤ 2 ^ 32 - 4 → Search bs size
unfolding find_block
find_block_lem [] size vs h = inl (refl, _)
find_block_lem (b ∷ bs) size (v, vs) h = elim (alloc_from_block_cases b size v) [
  | inr (e, room) ↦
      let positive : (b.cur_addr == 0) ≡ false = ground (arith, v.positive, v.start, v.begun) in
      inr (
        advance b (round_size size) ∷ bs,
        b.cur_addr,
        rw (e, positive) refl,
        Taken-here b bs (round_size size) (v, vs) ((round_size_lem size h).2) room,
      )
  | inl (e, full) ↦ elim (find_block_lem bs size vs h) [
    | inl (e', fulls) ↦ inl (rw (e, e') refl, (full, fulls))
    | inr (bs', q, e', t) ↦
        inr (b ∷ bs', q, rw (e, e') refl, Taken-later b bs bs' (round_size size) q v t)
  ]
]

pub AllBlocks-append :
    (bs : List BlockInfo) (b : BlockInfo) → AllBlocks bs → IsBlock b → AllBlocks (bs ++ b ∷ [])
AllBlocks-append [] b vs v = (v, vs)
AllBlocks-append (c ∷ cs) b (v', vs) v = (v', AllBlocks-append cs b vs v)

pub total_size-append :
    (bs : List BlockInfo) (b : BlockInfo)
    → total_size (bs ++ b ∷ []) ≡ total_size bs + (b.end_addr - b.block)
unfolding total_size
total_size-append [] b = omega arith
total_size-append (c ∷ cs) b = omega (arith, total_size-append cs b)

pub free_count-append :
    (bs : List BlockInfo) (b : BlockInfo) (x : ℕ)
    → free_count (bs ++ b ∷ []) x ≡ free_count bs x + covers b.cur_addr (b.end_addr - b.cur_addr) x
unfolding free_count
free_count-append [] b x = omega arith
free_count-append (c ∷ cs) b x = omega (arith, free_count-append cs b x)

-- What is used and what is free make up the blocks.
pub used_of-free_size :
    (bs : List BlockInfo) → AllBlocks bs → used_of bs + free_size bs ≡ total_size bs
unfolding used_of free_size total_size
used_of-free_size [] vs = refl
used_of-free_size (b ∷ bs) (v, vs) =
    omega (arith, used_of-free_size bs vs, v.start, v.begun, v.inside)
