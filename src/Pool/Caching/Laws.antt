-- ===== src/Pool/Caching/Laws.antt =====
-- oslib/src/pool_caching.c: what every operation keeps.
use zhangxy.Base.{
  le_cases, ℕ, zero, suc, ◌+◌, ◌%◌, ◌^◌, ◌≤◌, ◌<◌, ◌≡◌, refl, ◌∙◌, ◌⊎◌, inl, inr, true, false, ◌||◌,
  List, [], ◌∷◌, ◌++◌, arith, ltb, leb, ◌==◌, ==_iff, Bool-cases, u32_add, u32_sub, length, get_or,
  set, length-set,
}
use zhangxy.Pool.{PoolInfo, magic_code, reset_pool}
use zhangxy.Pool.Cases.{IsValid}
use zhangxy.Pool.Reset.{freed_total}
use zhangxy.Pool.Destroy.{reset_pool_lem, destroy_pool_lem}
use zhangxy.Pool.Caching.{
  PoolCaching, Released, wrong_magic, unknown, destroyed, aborted, kept, is_used, remove_used,
  recycle, release, size_at, pool_sizes,
}

abbrev pub AllPools : List PoolInfo → Type 0
AllPools [] = Unit
AllPools (p ∷ ps) = IsValid p × AllPools ps

abbrev pub AllLists : List (List PoolInfo) → Type 0
AllLists [] = Unit
AllLists (ps ∷ lists) = AllPools ps × AllLists lists

unfoldable pub list_total : List PoolInfo → ℕ
list_total [] = 0
list_total (p ∷ ps) = p.capacity + list_total ps

unfoldable pub cached_total : List (List PoolInfo) → ℕ
unfolding list_total
cached_total [] = 0
cached_total (ps ∷ lists) = list_total ps + cached_total lists

pub record IsCaching (c : PoolCaching) : Type 0 where
  pub lists : length c.free_list ≡ 16
  pub valid : AllLists c.free_list
  pub total : c.capacity ≡ cached_total c.free_list
  pub fits : c.capacity ≤ c.capacity_max
  pub bound : c.capacity_max + 65536 < 2 ^ 32
  pub count : c.used_cnt ≡ length c.used_list
  pub count_bound : length c.used_list < 2 ^ 32

pub AllLists-get :
    (lists : List (List PoolInfo)) (i : ℕ) → AllLists lists → AllPools (get_or lists i [])
AllLists-get [] i h = _
AllLists-get (ps ∷ lists) zero (h, hs) = h
AllLists-get (ps ∷ lists) (suc i) (h, hs) = AllLists-get lists i hs

pub AllLists-set :
    (lists : List (List PoolInfo)) (i : ℕ) (ps : List PoolInfo)
    → AllLists lists
    → AllPools ps
    → AllLists (set lists i ps)
AllLists-set [] i ps h k = _
AllLists-set (qs ∷ lists) zero ps (h, hs) k = (k, hs)
AllLists-set (qs ∷ lists) (suc i) ps (h, hs) k = (h, AllLists-set lists i ps hs k)

pub cached_total-set :
    (lists : List (List PoolInfo)) (i : ℕ) (ps : List PoolInfo)
    → i < length lists
    → cached_total (set lists i ps) + list_total (get_or lists i [])
      ≡ cached_total lists + list_total ps
unfolding cached_total
cached_total-set [] i ps h = absurd (omega arith)
cached_total-set (qs ∷ lists) zero ps h = omega arith
cached_total-set (qs ∷ lists) (suc i) ps h =
    omega (arith, cached_total-set lists i ps (omega arith))

length-remove_used :
    (used : List ℕ) (a : ℕ) → is_used used a ≡ true → length (remove_used used a) + 1 ≡ length used
length-remove_used [] a h = absurd cc
length-remove_used (b ∷ used) a h = elim (Bool-cases (b == a)) [
  | inl e ↦ rw e (omega arith)
  | inr e ↦
      let rest : is_used used a ≡ true = rw e at h in
      rw e (omega (arith, length-remove_used used a rest))
]

unfoldable pub freed_by : Released → ℕ
unfolding freed_total
freed_by wrong_magic = 0
freed_by unknown = 0
freed_by (destroyed freed) = freed_total freed
freed_by aborted = 0
freed_by (kept i freed) = freed_total freed

-- The pool is out of the used list.
abbrev unused : PoolCaching → ℕ → PoolCaching
unused c a = record c { used_list = remove_used c.used_list a; used_cnt = u32_sub c.used_cnt 1 }

unused-IsCaching :
    (c : PoolCaching) (a : ℕ) → IsCaching c → is_used c.used_list a ≡ true → IsCaching (unused c a)
unused-IsCaching c a v h =
    let fewer = length-remove_used c.used_list a h in
    record {
      lists = v.lists;
      valid = v.valid;
      total = v.total;
      fits = v.fits;
      bound = v.bound;
      count = omega (arith, v.count, v.count_bound);
      count_bound = omega (arith, v.count_bound);
    }

freed_total-append :
    (xs ys : List (ℕ × ℕ)) → freed_total (xs ++ ys) ≡ freed_total xs + freed_total ys
unfolding freed_total
freed_total-append [] ys = omega arith
freed_total-append ((a, n) ∷ xs) ys = omega (arith, freed_total-append xs ys)

-- The pool is given back: the factory is left as `c'` with the result `r`.
pub record GivenBack (c : PoolCaching) (p : PoolInfo) (used : List ℕ) (c' : PoolCaching)
    (r : Released) : Type 0 where
  pub valid : IsCaching c'
  pub list : c'.used_list ≡ used
  pub bytes : freed_by r + c'.capacity ≡ c.capacity + p.capacity

cached :
    (c : PoolCaching) (p : PoolInfo) (i : ℕ)
    → IsCaching c
    → IsValid p
    → i < 16
    → c.capacity + p.capacity ≤ c.capacity_max
    → IsCaching (record c {
      capacity = c.capacity + p.capacity;
      free_list = set c.free_list i (p ∷ get_or c.free_list i []);
    })
unfolding list_total
cached c p i v w h k =
    let ps = get_or c.free_list i [] in
    record {
      lists = length-set c.free_list i (p ∷ ps) ∙ v.lists;
      valid = AllLists-set c.free_list i (p ∷ ps) v.valid (w, AllLists-get c.free_list i v.valid);
      total =
          omega (arith, v.total, cached_total-set c.free_list i (p ∷ ps) (omega (arith, v.lists)));
      fits = k;
      bound = v.bound;
      count = v.count;
      count_bound = v.count_bound;
    }

plus : (n : ℕ) {a b : ℕ} → a ≡ b → a + n ≡ n + b
plus n h = omega arith

recycle_lem :
    (c : PoolCaching) (p : PoolInfo)
    → IsCaching c
    → IsValid p
    → p.factory_data % 2 ^ 32 < 16
    → c.capacity + p.capacity ≤ c.capacity_max
    → GivenBack c p c.used_list ((recycle c p).0) ((recycle c p).1)
unfolding recycle freed_by
recycle_lem c p v w index h =
    let r = reset_pool_lem p w in
    let p' = (reset_pool p).0 in
    let i = p'.factory_data % 2 ^ 32 in
    let low : i < 16 = rw r.index index in
    let fewer : p'.capacity ≤ p.capacity = omega (arith, r.total) in
    let sum : u32_add c.capacity p'.capacity ≡ c.capacity + p'.capacity = omega (arith, v.bound) in
    let test : leb 16 i ≡ false = ground (arith, low) in
    rw (test, sum)
      record {
        valid = cached c p' i v r.valid low (omega arith);
        list = refl;
        bytes = omega (arith, r.total);
      }

recycle_aborts :
    (c : PoolCaching) (p : PoolInfo)
    → IsValid p
    → 16 ≤ p.factory_data % 2 ^ 32
    → recycle c p ≡ (c, aborted)
unfolding recycle
recycle_aborts c p w h =
    let r = reset_pool_lem p w in
    let test : leb 16 ((reset_pool p).0.factory_data % 2 ^ 32) ≡ true = rw r.index (ground arith) in
    rw test refl

largest : size_at 15 ≡ 65536
unfolding size_at pool_sizes
largest = refl

fits_in :
    (a max n : ℕ)
    → (ltb (size_at 15) n || ltb max (u32_add a n)) ≡ false
    → a ≤ max
    → max + 65536 < 2 ^ 32
    → (n ≤ 65536) × (a + n ≤ max)
fits_in a max n e h k =
    let e' : (ltb 65536 n || ltb max (u32_add a n)) ≡ false = rw largest at e in
    (ground (arith, e'), ground (arith, e'))

-- `cpool_release_pool` of a valid pool in a valid factory: one that is not in the used list is refused and
-- nothing changes. One that fits under both maxima, and whose data are no index, runs into the
-- assertion. Any other leaves the list, and the bytes that are freed and those that are kept for later
-- make up its capacity, within the maximum.
pub release_lem :
    (c : PoolCaching) (p : PoolInfo)
    → IsCaching c
    → IsValid p
    → ((is_used c.used_list p.pool ≡ false) × (release c p ≡ (c, unknown)))
      ⊎ (((is_used c.used_list p.pool ≡ true)
            × (p.capacity ≤ 65536)
            × (c.capacity + p.capacity ≤ c.capacity_max)
            × (16 ≤ p.factory_data % 2 ^ 32)
            × ((release c p).1 ≡ aborted))
          ⊎ ((is_used c.used_list p.pool ≡ true)
              × GivenBack c p (remove_used c.used_list p.pool) ((release c p).0) ((release c p).1)))
unfolding release freed_by
release_lem c p v w =
    let standard : (p.magic == magic_code) ≡ true = (==_iff p.magic magic_code).1 w.standard in
    elim (Bool-cases (is_used c.used_list p.pool)) [
      | inr e ↦ inl (e, rw (standard, e) refl)
      | inl e ↦
          let v' = unused-IsCaching c p.pool v e in
          elim (Bool-cases
            (ltb (size_at 15) p.capacity || ltb c.capacity_max (u32_add c.capacity p.capacity))) [
              | inl much ↦ inr (
                  inr (
                    e,
                    rw (standard, e, much)
                        record {
                          valid = v';
                          list = refl;
                          bytes = plus c.capacity (destroy_pool_lem p w);
                        },
                  ))
              | inr fits ↦
                  let (low, room) =
                    fits_in c.capacity c.capacity_max p.capacity fits v.fits v.bound in
                  elim (le_cases 16 (p.factory_data % 2 ^ 32)) [
                    | inl high ↦ inr (
                        inl (
                          e,
                          low,
                          room,
                          high,
                          rw (standard, e, fits, recycle_aborts (unused c p.pool) p w high) refl,
                        ))
                    | inr index ↦
                        let given = recycle_lem (unused c p.pool) p v' w index room in
                        inr (
                          inr (
                            e,
                            rw (standard, e, fits)
                                record {
                                  valid = given.valid;
                                  list = given.list;
                                  bytes = given.bytes;
                                },
                          ))
                  ]
            ]
    ]
