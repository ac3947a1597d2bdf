-- ===== src/Pool/Safe.antt =====
-- oslib/src/pool.c: what `POOL_Alloc` hands out.
use zhangxy.Base.{
  ℕ, ◌+◌, ◌-◌, ◌%◌, ◌^◌, ◌≤◌, ◌<◌, ◌≡◌, refl, sym, ap, ◌∙◌, inl, inr, false, List, [], ◌∷◌, arith,
  ◌==◌, if◌then◌else◌,
}
use zhangxy.Pool.{BlockInfo, PoolInfo, align_ptr, round_size, new_block, grown_size, alloc}
use zhangxy.Pool.Blocks.{
  covers, free_count, total_size, round_size_lem, advance, frame, Taken, advance_lem,
  AllBlocks-append, total_size-append, free_count-append,
}
use zhangxy.Pool.Cases.{
  blocks_of, IsValid, Granted, alloc_cases, grown, new_block-IsBlock, expand_cases,
}

-- The bytes that a call hands out: none where it returns NULL.
abbrev pub handed : ℕ → ℕ → ℕ
handed q size = if q == 0 then 0 else round_size size

-- The bytes of a new block behind its header: none where the capacity has not grown.
abbrev pub gained : PoolInfo → PoolInfo → ℕ
gained p p' = p'.capacity - p.capacity - 20

-- A pool as it was when it was created.
unfoldable pub pristine : PoolInfo → PoolInfo
pristine p = record p {
  capacity = p.first.end_addr - p.pool;
  first = record p.first { cur_addr = align_ptr p.first.start_addr };
  more = [];
  fails = [];
}

-- A call on `p` that leaves `p'` and returns `q`.
pub record Accounts (p p' : PoolInfo) (size mem q : ℕ) : Type 0 where
  pub valid : IsValid p'
  pub enough : size ≤ round_size size
  pub aligned : q % 4 ≡ 0
  pub kept : pristine p' ≡ pristine p
  pub capacity : p.capacity ≤ p'.capacity
  pub bytes :
      (x : ℕ)
      → free_count (blocks_of p') x + covers q (handed q size) x
        ≡ free_count (blocks_of p) x + covers (mem + 20) (gained p p') x

covers-none : (a x : ℕ) → covers a 0 x ≡ 0
unfolding covers
covers-none a x = ground arith

alloc-Taken :
    (p : PoolInfo) (b : BlockInfo) (bs : List BlockInfo) (size mem q : ℕ)
    → IsValid p
    → size ≤ 2 ^ 32 - 4
    → Taken (blocks_of p) (b ∷ bs) (round_size size) q
    → Accounts p (record p { first = b; more = bs }) size mem q
unfolding pristine
alloc-Taken p b bs size mem q v h t =
    let some : (q == 0) ≡ false = ground (arith, t.positive) in
    let none : p.capacity - p.capacity - 20 ≡ 0 = omega arith in
    let same : frame b ≡ frame p.first = cc in
    record {
      valid = record {
        standard = v.standard;
        valid = t.valid;
        place = ap (λ f. f.block) same ∙ v.place;
        total = v.total ∙ ap (λ n. 84 + n) (sym t.total);
      };
      enough = (round_size_lem size h).0;
      aligned = t.aligned;
      kept = ap (λ f. pristine (record p { first = f })) same;
      capacity = omega arith;
      bytes = (λ x. rw (some, none, covers-none (mem + 20) x) (omega (arith, t.bytes x)));
    }

alloc-fails :
    (p : PoolInfo) (k size mem : ℕ)
    → IsValid p
    → size ≤ 2 ^ 32 - 4
    → Accounts p (record p { fails = k ∷ p.fails }) size mem 0
unfolding pristine
alloc-fails p k size mem v h =
    let none : p.capacity - p.capacity - 20 ≡ 0 = omega arith in
    record {
      valid = record { standard = v.standard; valid = v.valid; place = v.place; total = v.total };
      enough = (round_size_lem size h).0;
      aligned = refl;
      kept = refl;
      capacity = omega arith;
      bytes = (λ x. rw (none, covers-none (mem + 20) x, covers-none 0 x) refl);
    }

alloc-grown :
    (p : PoolInfo) (size mem g : ℕ)
    → IsValid p
    → size ≤ 2 ^ 32 - 4
    → 0 < mem
    → mem % 4 ≡ 0
    → mem + g < 2 ^ 32
    → round_size size + 20 ≤ g
    → Accounts p (grown p mem g (round_size size)) size mem (mem + 20)
unfolding pristine new_block free_count total_size
alloc-grown p size mem g v h k l m fit =
    let n = round_size size in
    let c = new_block mem g in
    let (b, at) = new_block-IsBlock mem g k l (omega arith) m in
    let (b', bytes) = advance_lem c n b ((round_size_lem size h).2) (omega arith) in
    let some : (mem + 20 == 0) ≡ false = ground arith in
    let more : p.capacity + g - p.capacity - 20 ≡ g - 20 = omega arith in
    let end : mem + g - (mem + 20) ≡ g - 20 = omega arith in
    record {
      valid = record {
        standard = v.standard;
        valid = (v.valid.0, AllBlocks-append p.more (advance c n) v.valid.1 b');
        place = v.place;
        total = omega (arith, v.total, total_size-append p.more (advance c n));
      };
      enough = (round_size_lem size h).0;
      aligned = omega arith;
      kept = refl;
      capacity = omega arith;
      bytes = (λ x.
          let taken : covers c.cur_addr n x ≡ covers (mem + 20) n x = ap (λ a. covers a n x) at in
          let whole : covers c.cur_addr (c.end_addr - c.cur_addr) x ≡ covers (mem + 20) (g - 20) x =
            ap (λ a. covers a (mem + g - a) x) at ∙ ap (λ r. covers (mem + 20) r x) end in
          rw (some, more)
            (omega (arith, taken, whole, bytes x, free_count-append p.more (advance c n) x)));
    }

-- A call of `POOL_Alloc` on a valid pool, whose size with the growth and 24 bytes more is below 2 ^ 32,
-- with NULL or aligned memory within the addresses for a new block, leaves a valid pool and returns an aligned address, or NULL. The
-- size is rounded up. Each byte that is handed out was free or is in the new block, and is no longer
-- free; no other byte changes.
pub alloc_lem :
    (p : PoolInfo) (size mem : ℕ)
    → IsValid p
    → size + p.inc_size + 24 < 2 ^ 32
    → Granted p size mem
    → Accounts p ((alloc p size mem).0) size mem ((alloc p size mem).1)
alloc_lem p size mem v request g =
    let h : size ≤ 2 ^ 32 - 4 = omega arith in
    elim (alloc_cases p size mem v h) [
      | inl (b, bs, q, e, t) ↦ rw e (alloc-Taken p b bs size mem q v h t)
      | inr (e, full) ↦ elim (expand_cases p size mem request g) [
        | inl (k, e', why) ↦ rw (e, e') (alloc-fails p k size mem v h)
        | inr (e', positive, _, fit) ↦
            rw (e, e')
              (alloc-grown p size mem (grown_size p.inc_size size) v h positive g.aligned
                (g.bound positive) fit)
      ]
    ]
