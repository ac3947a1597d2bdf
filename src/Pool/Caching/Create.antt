-- ===== src/Pool/Caching/Create.antt =====
-- oslib/src/pool_caching.c: `cpool_create_pool`.
use zhangxy.Base.{
  ℕ, ◌+◌, ◌-◌, ◌%◌, ◌^◌, ◌≤◌, ◌<◌, ◌≡◌, refl, ap, ◌∙◌, ◌⊎◌, inl, inr, false, Option, none, some,
  List, [], ◌∷◌, arith, ltb, ◌==◌, if◌then◌else◌, ltb→lt, Bool-cases, u32_add, u32_sub, length,
  get_or, set, length-set,
}
use mathlib.Core.Path.{subst}
use zhangxy.Pool.{PoolInfo, magic_code, init_pool, create_pool, get_used_size, used_of}
use zhangxy.Pool.Cases.{IsValid}
use zhangxy.Pool.Destroy.{List-cases}
use zhangxy.Pool.Reset.{marked, create_pool_lem}
use zhangxy.Pool.Caching.{
  PoolCaching, size_at, pool_sizes, pool_index, hand_out, create_new, create_from, create,
}
use zhangxy.Pool.Caching.Index.{pool_index_lem, size_at_monotone}
use zhangxy.Pool.Caching.Laws.{
  AllPools, AllLists-get, AllLists-set, cached_total-set, list_total, IsCaching,
}

-- A pool is handed out, and `c` becomes `c'`.
pub record HandsOut (c c' : PoolCaching) (inc local : ℕ) (p : PoolInfo) : Type 0 where
  pub valid : IsCaching c'
  pub pool : IsValid p
  pub list : c'.used_list ≡ p.pool ∷ c.used_list
  pub increment : p.inc_size ≡ inc
  pub index : p.factory_data ≡ local

marked-IsValid :
    (p : PoolInfo) (inc local : ℕ)
    → IsValid (marked p)
    → IsValid (record p { inc_size = inc; factory_data = local; magic = magic_code })
marked-IsValid p inc local v = record {
  standard = refl;
  valid = v.valid;
  place = v.place;
  total = v.total;
}

-- The last steps of a creation keep the factory valid.
hand_out-IsCaching :
    (c : PoolCaching) (a : ℕ)
    → IsCaching c
    → length c.used_list + 1 < 2 ^ 32
    → IsCaching (record c { used_list = a ∷ c.used_list; used_cnt = u32_add c.used_cnt 1 })
hand_out-IsCaching c a v h = record {
  lists = v.lists;
  valid = v.valid;
  total = v.total;
  fits = v.fits;
  bound = v.bound;
  count = omega (arith, v.count);
  count_bound = omega arith;
}

-- The first pool of a list is taken out.
abbrev taken : PoolCaching → ℕ → PoolInfo → List PoolInfo → PoolCaching
taken c i p ps = record c {
  free_list = set c.free_list i ps;
  capacity = if ltb p.capacity c.capacity then u32_sub c.capacity p.capacity else 0;
}

taken_lem :
    (c : PoolCaching) (i : ℕ) (p : PoolInfo) (ps : List PoolInfo)
    → IsCaching c
    → i < 16
    → get_or c.free_list i [] ≡ p ∷ ps
    → IsCaching (taken c i p ps) × IsValid p × ((taken c i p ps).capacity + p.capacity ≡ c.capacity)
unfolding list_total
taken_lem c i p ps v h e =
    let (w, ws) = subst AllPools e (AllLists-get c.free_list i v.valid) in
    let list : list_total (get_or c.free_list i []) ≡ p.capacity + list_total ps =
      ap list_total e in
    let out = cached_total-set c.free_list i ps (omega (arith, v.lists)) in
    let less : (if ltb p.capacity c.capacity then u32_sub c.capacity p.capacity else 0) + p.capacity
        ≡ c.capacity =
      ground (arith, v.total, v.fits, v.bound, list, out) in
    (
      record {
        lists = length-set c.free_list i ps ∙ v.lists;
        valid = AllLists-set c.free_list i ps v.valid ws;
        total = omega (arith, v.total, list, out, less);
        fits = omega (arith, less, v.fits);
        bound = v.bound;
        count = v.count;
        count_bound = v.count_bound;
      },
      w,
      less,
    )

size_bounds : (i : ℕ) → i < 16 → (256 ≤ size_at i) × (size_at i ≤ 65536)
unfolding size_at pool_sizes
size_bounds i h =
    let zero : 0 + i ≡ i = omega arith in
    let top : i + (15 - i) ≡ 15 = omega arith in
    let low : 256 ≤ size_at (0 + i) = size_at_monotone 0 i (omega arith) in
    let high = size_at_monotone i (15 - i) (omega arith) in
    (subst (λ j. 256 ≤ size_at j) zero low, subst (λ j. size_at i ≤ size_at j) top high)

-- The size that a new pool is created with.
abbrev pub new_size : ℕ → ℕ
new_size init = if ltb (pool_index init) 16 then size_at (pool_index init) else init

pub new_size_lem :
    (init : ℕ) → (init ≤ new_size init) × (104 ≤ new_size init) × (new_size init ≤ init + 65536)
new_size_lem init =
    let i = pool_index init in
    let (_, least, fits) = pool_index_lem init in
    elim (Bool-cases (ltb i 16)) [
      | inl e ↦
          let h : i < 16 = ltb→lt i 16 e in
          let (low, high) = size_bounds i h in rw e (fits h, omega arith, omega arith)
      | inr e ↦
          let past = least 15 (ground (arith, e)) in
          let (low, _) = size_bounds 15 (omega arith) in
          rw e (omega arith, omega arith, omega arith)
    ]

index_below : {i : ℕ} → i ≤ 16 → (i == 16) ≡ false → i < 16
index_below h e = ground (arith, e)

create_cases :
    (c : PoolCaching) (init inc mem local : ℕ)
    → (create c init inc mem local ≡ create_new c (create_pool (new_size init) inc mem) local)
      ⊎ ((p : PoolInfo) × (ps : List PoolInfo) × (create c init inc mem local
            ≡ hand_out (taken c (pool_index init) p ps) (init_pool p inc) local)
          × (pool_index init < 16)
          × (get_or c.free_list (pool_index init) [] ≡ p ∷ ps))
unfolding create create_from
create_cases c init inc mem local =
    let i = pool_index init in
    elim (Bool-cases (i == 16)) [
      | inl e ↦ inl (rw e refl)
      | inr e ↦ elim (List-cases (get_or c.free_list i [])) [
        | inl e' ↦ inl (rw (e, e') refl)
        | inr (p, ps, e') ↦ inr (p, ps, rw (e, e') refl, index_below (pool_index_lem init).0 e, e')
      ]
    ]

abbrev pub Created : PoolCaching → ℕ → ℕ → ℕ → ℕ → PoolCaching × Option PoolInfo → Type 0
Created c init inc mem local r =
    ((r ≡ (c, none)) × (mem ≡ 0))
    ⊎ ((c' : PoolCaching) × (p : PoolInfo) × (r ≡ (c', some p))
        × HandsOut c c' inc local p
        × (((c'.capacity ≡ c.capacity) × (init ≤ p.capacity) × (get_used_size p ≡ 104))
            ⊎ (c'.capacity + p.capacity ≡ c.capacity)))

create_new_lem :
    (c : PoolCaching) (init size inc mem local : ℕ)
    → IsCaching c
    → length c.used_list + 1 < 2 ^ 32
    → mem % 4 ≡ 0
    → mem + size < 2 ^ 32
    → 104 ≤ size
    → init ≤ size
    → Created c init inc mem local (create_new c (create_pool size inc mem) local)
unfolding create_new hand_out get_used_size used_of
create_new_lem c init size inc mem local v h k l m n = elim (create_pool_lem size inc mem k l) [
  | inl (e, inl small) ↦ absurd (omega arith)
  | inl (e, inr null) ↦ rw e (inl (refl, null))
  | inr (p, e, w, capacity, has_inc, used, _, _) ↦ rw e (
      inr (
        record c { used_list = p.pool ∷ c.used_list; used_cnt = u32_add c.used_cnt 1 },
        record p { factory_data = local; magic = magic_code },
        refl,
        record {
          valid = hand_out-IsCaching c p.pool v h;
          pool = marked-IsValid p p.inc_size local w;
          list = refl;
          increment = has_inc;
          index = refl;
        },
        inl (refl, omega arith, used),
      ))
]

create_again :
    (c : PoolCaching) (init inc mem local i : ℕ) (p : PoolInfo) (ps : List PoolInfo)
    → IsCaching c
    → length c.used_list + 1 < 2 ^ 32
    → i < 16
    → get_or c.free_list i [] ≡ p ∷ ps
    → Created c init inc mem local (hand_out (taken c i p ps) (init_pool p inc) local)
unfolding hand_out init_pool
create_again c init inc mem local i p ps v h k e =
    let (v', w, bytes) = taken_lem c i p ps v k e in
    inr (
      record (taken c i p ps) { used_list = p.pool ∷ c.used_list; used_cnt = u32_add c.used_cnt 1 },
      record p { inc_size = inc; factory_data = local; magic = magic_code },
      refl,
      record {
        valid = hand_out-IsCaching (taken c i p ps) p.pool v' h;
        pool =
            marked-IsValid p inc local
              record { standard = refl; valid = w.valid; place = w.place; total = w.total };
        list = refl;
        increment = refl;
        index = refl;
      },
      inr bytes,
    )

-- `cpool_create_pool` in a valid factory, with room to count the pool and with NULL or aligned memory within
-- the addresses, fails only where that is NULL. Else the pool that it hands out is valid and stands in
-- the used list: a new one, whose capacity is at least the initial size that is asked for, or one that
-- was kept, which is no longer among those kept.
pub create_lem :
    (c : PoolCaching) (init inc mem local : ℕ)
    → IsCaching c
    → length c.used_list + 1 < 2 ^ 32
    → mem % 4 ≡ 0
    → mem + init + 65536 < 2 ^ 32
    → Created c init inc mem local (create c init inc mem local)
create_lem c init inc mem local v h k l = elim (create_cases c init inc mem local) [
  | inl e ↦
      let (large, room, most) = new_size_lem init in
      rw e (create_new_lem c init (new_size init) inc mem local v h k (omega arith) room large)
  | inr (p, ps, e, small, e') ↦
      rw e (create_again c init inc mem local (pool_index init) p ps v h small e')
]
