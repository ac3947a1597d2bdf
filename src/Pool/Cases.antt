-- ===== src/Pool/Cases.antt =====
-- oslib/src/pool.c: the two ways that `POOL_Alloc` takes, and what is valid.
use zhangxy.Base.{
  ℕ, ◌+◌, ◌-◌, ◌*◌, ◌/◌, ◌%◌, ◌^◌, ◌≤◌, ◌<◌, ◌≡◌, refl, ap, ◌∙◌, ◌⊎◌, inl, inr, true, false, none,
  some, List, [], ◌∷◌, ◌++◌, arith, ltb, ◌==◌, ==_iff, Bool-cases, u32_add,
}
use native.Mathlib.Nat.{div-add-mod', mod-lt}
use zhangxy.Pool.{
  BlockInfo, PoolInfo, magic_code, align_ptr, round_size, new_block, create_block, alloc_from_block,
  find_block, grown_size, put_last, expand, alloc_created, allocate_find, alloc,
}
use zhangxy.Pool.Blocks.{
  IsBlock, AllBlocks, total_size, AllFull, round_size_lem, advance, alloc_from_block_cases, Taken,
  Taken-here, Taken-later, find_block_lem,
}

abbrev pub blocks_of : PoolInfo → List BlockInfo
blocks_of p = p.first ∷ p.more

pub record IsValid (p : PoolInfo) : Type 0 where
  pub standard : p.magic ≡ magic_code
  pub valid : AllBlocks (blocks_of p)
  pub place : p.first.block ≡ p.pool + 84
  pub total : p.capacity ≡ 84 + total_size (blocks_of p)

-- `mem` is 0, or is the aligned address of as many bytes as are asked for, which neither end past the
-- addresses nor make the capacity wrap.
pub record Granted (p : PoolInfo) (size mem : ℕ) : Type 0 where
  pub aligned : mem % 4 ≡ 0
  pub bound : 0 < mem → mem + grown_size p.inc_size size < 2 ^ 32
  pub capacity : 0 < mem → p.capacity + grown_size p.inc_size size < 2 ^ 32

-- What `POOL_Alloc` does: the search over the blocks, and a new block where it fails.
pub alloc_cases :
    (p : PoolInfo) (size mem : ℕ)
    → IsValid p
    → size ≤ 2 ^ 32 - 4
    → ((b : BlockInfo) × (bs : List BlockInfo) × (q : ℕ) × (alloc p size mem
          ≡ (record p { first = b; more = bs }, q))
        × Taken (blocks_of p) (b ∷ bs) (round_size size) q)
      ⊎ ((alloc p size mem ≡ expand p size mem) × AllFull (blocks_of p) (round_size size))
unfolding alloc allocate_find find_block
alloc_cases p size mem v h =
    let standard : (p.magic == magic_code) ≡ true = (==_iff p.magic magic_code).1 v.standard in
    let (b, bs) = v.valid in
    let positive : (p.first.cur_addr == 0) ≡ false = ground (arith, b.positive, b.start, b.begun) in
    elim (alloc_from_block_cases p.first size b) [
      | inr (e, room) ↦ inl (
        advance p.first (round_size size),
        p.more,
        p.first.cur_addr,
        (rw (standard, e, positive) refl),
        Taken-here p.first p.more (round_size size) (b, bs) ((round_size_lem size h).2) room,
      )
      | inl (e, full) ↦ elim (find_block_lem p.more size bs h) [
        | inl (e', fulls) ↦ inr (rw (standard, e, e') refl, (full, fulls))
        | inr (bs', q, e', t) ↦
            let found : (q == 0) ≡ false = ground (arith, t.positive) in
            inl (
              p.first,
              bs',
              q,
              (rw (standard, e, e', found) refl),
              Taken-later p.first p.more bs' (round_size size) q b t,
            )
      ]
    ]

-- The new block has room for what is asked.
pub grown_size_lem :
    (inc size : ℕ)
    → 0 < inc
    → size + inc + 24 < 2 ^ 32
    → (size + 24 ≤ grown_size inc size) × (grown_size inc size ≤ size + inc + 24)
unfolding grown_size
grown_size_lem inc size h k =
    let t = size + inc + 24 in
    let a : u32_add size 24 ≡ size + 24 = omega arith in
    let b : u32_add (u32_add size inc) 24 ≡ t = omega arith in
    elim (Bool-cases (ltb inc (size + 24))) [
      | inr e ↦ rw (a, e) (ground (arith, e))
      | inl e ↦
          let parts : t / inc * inc + t % inc ≡ t = div-add-mod' t inc in
          let rest : t % inc < inc = mod-lt t h in
          let whole : t / inc * inc % 2 ^ 32 ≡ t / inc * inc = omega arith in
          rw (a, e, b, whole) (omega arith)
    ]

put_last_lem : (bs : List BlockInfo) (b c : BlockInfo) → put_last (bs ++ b ∷ []) c ≡ bs ++ c ∷ []
put_last_lem [] b c = refl
put_last_lem (d ∷ []) b c = refl
put_last_lem (d ∷ e ∷ ds) b c = ap (◌∷◌ d) (put_last_lem (e ∷ ds) b c)

pub new_block-IsBlock :
    (mem g : ℕ)
    → 0 < mem
    → mem % 4 ≡ 0
    → 20 ≤ g
    → mem + g < 2 ^ 32
    → IsBlock (new_block mem g) × ((new_block mem g).cur_addr ≡ mem + 20)
unfolding new_block align_ptr
new_block-IsBlock mem g h k l m = (
  record {
    start = refl;
    positive = h;
    start_aligned = omega arith;
    begun = omega arith;
    inside = omega arith;
    bound = m;
    aligned = omega arith;
  },
  omega arith,
)

new_block_takes :
    (mem g size : ℕ)
    → size ≤ 2 ^ 32 - 4
    → 0 < mem
    → mem % 4 ≡ 0
    → size + 24 ≤ g
    → mem + g < 2 ^ 32
    → (alloc_from_block (new_block mem g) size
        ≡ (advance (new_block mem g) (round_size size), mem + 20))
      × (round_size size + 20 ≤ g)
unfolding new_block
new_block_takes mem g size h positive k l m =
    let (b, at) = new_block-IsBlock mem g positive k (omega arith) m in
    let (up, near, fits) = round_size_lem size h in
    elim (alloc_from_block_cases (new_block mem g) size b) [
      | inl (_, full) ↦ absurd (omega (arith, full, at))
      | inr (taken, fit) ↦ (
        taken ∙ ap (λ a. (advance (new_block mem g) (round_size size), a)) at,
        omega (arith, near),
      )
    ]

-- The pool with a new last block, of which `n` bytes are taken.
abbrev pub grown : PoolInfo → ℕ → ℕ → ℕ → PoolInfo
grown p mem g n = record p {
  capacity = p.capacity + g;
  more = p.more ++ advance (new_block mem g) n ∷ [];
}

create_block_refused :
    (p : PoolInfo) (g mem : ℕ)
    → (mem == 0) ≡ true
    → create_block p g mem ≡ (record p { fails = g ∷ p.fails }, none)
unfolding create_block
create_block_refused p g mem h = rw h refl

create_block_adds :
    (p : PoolInfo) (g mem : ℕ)
    → (mem == 0) ≡ false
    → p.capacity + g < 2 ^ 32
    → create_block p g mem ≡ (
      record p { capacity = p.capacity + g; more = p.more ++ new_block mem g ∷ [] },
      some (new_block mem g),
    )
unfolding create_block
create_block_adds p g mem h k =
    let sum : u32_add p.capacity g ≡ p.capacity + g = omega arith in rw (h, sum) refl

pub expand_cases :
    (p : PoolInfo) (size mem : ℕ)
    → size + p.inc_size + 24 < 2 ^ 32
    → Granted p size mem
    → ((k : ℕ) × (expand p size mem ≡ (record p { fails = k ∷ p.fails }, 0))
        × ((p.inc_size ≡ 0) ⊎ (mem ≡ 0)))
      ⊎ ((expand p size mem
            ≡ (grown p mem (grown_size p.inc_size size) (round_size size), mem + 20))
          × (0 < mem)
          × (0 < p.inc_size)
          × (round_size size + 20 ≤ grown_size p.inc_size size))
unfolding expand alloc_created
expand_cases p size mem request g = elim (Bool-cases (p.inc_size == 0)) [
  | inl e ↦ inl (size, rw e refl, inl ((==_iff p.inc_size 0).0 e))
  | inr e ↦ elim (Bool-cases (mem == 0)) [
    | inl e' ↦ inl (
      grown_size p.inc_size size,
      rw (e, create_block_refused p (grown_size p.inc_size size) mem e') refl,
      inr ((==_iff mem 0).0 e'),
    )
    | inr e' ↦
        let m = grown_size p.inc_size size in
        let (room, small) = grown_size_lem p.inc_size size (ground (arith, e)) request in
        let positive : 0 < mem = ground (arith, e') in
        let h : size ≤ 2 ^ 32 - 4 = omega arith in
        let (taken, fit) =
          new_block_takes mem m size h positive g.aligned room (g.bound positive) in
        let last =
          put_last_lem p.more (new_block mem m) (advance (new_block mem m) (round_size size)) in
        inr (
          rw (e, create_block_adds p m mem e' (g.capacity positive), taken, last) refl,
          positive,
          ground (arith, e),
          fit,
        )
  ]
]
