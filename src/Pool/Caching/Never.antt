-- ===== src/Pool/Caching/Never.antt =====
-- oslib/src/pool_caching.c: what the address of a local variable in place of an index does.
use zhangxy.Base.{
  ℕ, zero, suc, ◌%◌, ◌^◌, ◌≤◌, ◌≡◌, refl, ap, ◌∙◌, inl, inr, Bool, true, false, not, ◌&&◌, ◌||◌,
  sym, ◌⊎◌, ◌∷◌, Option, none, some, List, [], arith, ltb, leb, ◌==◌, Bool-cases, u32_add, get_or,
  replicate,
}
use mathlib.Core.Path.{subst}
use zhangxy.Pool.{PoolInfo, magic_code, reset_pool}
use zhangxy.Pool.Destroy.{List-cases, reset_pool-first}
use zhangxy.Pool.Reset.{reset_pool-grown}
use zhangxy.Pool.Safe.{pristine}
use zhangxy.Pool.Caching.{
  PoolCaching, Released, wrong_magic, unknown, destroyed, aborted, kept, is_used, recycle, release,
  size_at, hand_out, create_new, create_from, create, pool_index, init_caching, on_block_alloc,
  on_block_free,
}

abbrev pub StoredIn : ℕ → List ℕ → Type 0
StoredIn d [] = ⊥
StoredIn d (x ∷ xs) = (d ≡ x) ⊎ StoredIn d xs

-- The states of a factory, from its start, with the data of the pools that it handed out. The address
-- of the local variable is no less than 16 in its low 32 bits; a pool comes back with data that it
-- was handed out with.
pub data Reaches (max : ℕ) : PoolCaching → List ℕ → Type 0 where
  started : Reaches max (init_caching max) []
  created :
      (c c' : PoolCaching) (p : PoolInfo) (stored : List ℕ) (init inc mem local : ℕ)
      → Reaches max c stored
      → 16 ≤ local % 2 ^ 32
      → create c init inc mem local ≡ (c', some p)
      → Reaches max c' (p.factory_data ∷ stored)
  released :
      (c : PoolCaching) (p : PoolInfo) (stored : List ℕ)
      → Reaches max c stored
      → StoredIn p.factory_data stored
      → Reaches max ((release c p).0) stored
  allocated :
      (c : PoolCaching) (stored : List ℕ) (size : ℕ)
      → Reaches max c stored
      → Reaches max (on_block_alloc c size) stored
  freed :
      (c : PoolCaching) (stored : List ℕ) (size : ℕ)
      → Reaches max c stored
      → Reaches max (on_block_free c size) stored

-- The data of a pool, if there is one.
abbrev data_or : ℕ → Option PoolInfo → ℕ
data_or d none = d
data_or d (some p) = p.factory_data

create_new-data_or :
    (c : PoolCaching) (made : Option PoolInfo) (local : ℕ)
    → data_or local (create_new c made local).1 ≡ local
unfolding create_new hand_out
create_new-data_or c none local = refl
create_new-data_or c (some p) local = refl

create_from-data_or :
    (c : PoolCaching) (ps : List PoolInfo) (i init inc mem local : ℕ)
    → data_or local (create_from c ps i init inc mem local).1 ≡ local
unfolding create_from hand_out
create_from-data_or c [] i init inc mem local = create_new-data_or c _ local
create_from-data_or c (p ∷ ps) i init inc mem local = refl

create-data_or :
    (c : PoolCaching) (init inc mem local : ℕ)
    → data_or local (create c init inc mem local).1 ≡ local
unfolding create
create-data_or c init inc mem local = create_from-data_or c _ (pool_index init) init inc mem local

-- What is stored is the address, not an index.
Reaches-StoredIn :
    (max : ℕ) (c : PoolCaching) (stored : List ℕ) (d : ℕ)
    → Reaches max c stored
    → StoredIn d stored
    → 16 ≤ d % 2 ^ 32
Reaches-StoredIn max c stored d started h = absurd h
Reaches-StoredIn max c stored d (created c1 _ p rest init inc mem local r low e) (inl here) =
    let is_local : p.factory_data ≡ local =
      sym (ap (λ x. data_or local x.1) e) ∙ create-data_or c1 init inc mem local in
    rw (here, is_local) low
Reaches-StoredIn max c stored d (created c1 _ p rest init inc mem local r low e) (inr later) =
    Reaches-StoredIn max c1 rest d r later
Reaches-StoredIn max c stored d (released c1 p _ r k) h = Reaches-StoredIn max c1 stored d r h
Reaches-StoredIn max c stored d (allocated c1 _ size r) h = Reaches-StoredIn max c1 stored d r h
Reaches-StoredIn max c stored d (freed c1 _ size r) h = Reaches-StoredIn max c1 stored d r h

get_or-empty {ℓ} : {A : Type ℓ} (n i : ℕ) → get_or {A = List A} (replicate n []) i [] ≡ []
get_or-empty zero i = refl
get_or-empty (suc n) zero = refl
get_or-empty (suc n) (suc i) = get_or-empty n i

abbrev NoneKept : PoolCaching → Type 0
NoneKept c = (c.free_list ≡ replicate 16 []) × (c.capacity ≡ 0)

create_new-NoneKept :
    (c : PoolCaching) (made : Option PoolInfo) (local : ℕ)
    → NoneKept c
    → NoneKept ((create_new c made local).0)
unfolding create_new hand_out
create_new-NoneKept c none local h = h
create_new-NoneKept c (some p) local h = h

create-NoneKept :
    (c : PoolCaching) (init inc mem local : ℕ)
    → NoneKept c
    → NoneKept ((create c init inc mem local).0)
unfolding create create_from
create-NoneKept c init inc mem local (h, z) =
    let i = pool_index init in
    let empty : get_or c.free_list i [] ≡ [] = ap (λ t. get_or t i []) h ∙ get_or-empty 16 i in
    elim (Bool-cases (i == 16)) [
      | inl e ↦ rw e (create_new-NoneKept c _ local (h, z))
      | inr e ↦ rw (e, empty) (create_new-NoneKept c _ local (h, z))
    ]

reset_pool-factory_data : (p : PoolInfo) → (reset_pool p).0.factory_data ≡ p.factory_data
unfolding pristine
reset_pool-factory_data p = elim (List-cases p.more) [
  | inl h ↦ rw (reset_pool-first p h) refl
  | inr (b, bs, h) ↦ rw (reset_pool-grown p b bs h) refl
]

abbrev pub is_aborted : Released → Bool
is_aborted wrong_magic = false
is_aborted unknown = false
is_aborted (destroyed blocks) = false
is_aborted aborted = true
is_aborted (kept i blocks) = false

abbrev pub is_kept : Released → Bool
is_kept wrong_magic = false
is_kept unknown = false
is_kept (destroyed blocks) = false
is_kept aborted = false
is_kept (kept i blocks) = true

-- The pool fits under the maxima of one pool and of all.
abbrev pub fits : PoolCaching → PoolInfo → Bool
fits c p = not (ltb (size_at 15) p.capacity || ltb c.capacity_max (u32_add c.capacity p.capacity))

recycle_none :
    (c : PoolCaching) (p : PoolInfo) → 16 ≤ p.factory_data % 2 ^ 32 → recycle c p ≡ (c, aborted)
unfolding recycle
recycle_none c p k =
    let same : leb 16 ((reset_pool p).0.factory_data % 2 ^ 32) ≡ true =
      rw (reset_pool-factory_data p) (ground arith) in
    rw same refl

abbrev Lost : PoolCaching → PoolInfo → Type 0
Lost c p =
    NoneKept ((release c p).0)
    × (is_kept ((release c p).1) ≡ false)
    × (is_aborted ((release c p).1)
        ≡ (p.magic == magic_code && (is_used c.used_list p.pool && fits c p)))

release-Lost :
    (c : PoolCaching) (p : PoolInfo) → NoneKept c → 16 ≤ p.factory_data % 2 ^ 32 → Lost c p
unfolding release
release-Lost c p h k = elim (Bool-cases (p.magic == magic_code)) [
  | inr e ↦ rw e (h, refl, refl)
  | inl e ↦ elim (Bool-cases (is_used c.used_list p.pool)) [
    | inr e' ↦ rw (e, e') (h, refl, refl)
    | inl e' ↦
        elim (Bool-cases
          (ltb (size_at 15) p.capacity || ltb c.capacity_max (u32_add c.capacity p.capacity))) [
            | inl much ↦ rw (e, e', much) (h, refl, refl)
            | inr room ↦ rw (e, e', room, recycle_none _ p k) (h, refl, refl)
          ]
  ]
]

Reaches-NoneKept : (max : ℕ) (c : PoolCaching) (stored : List ℕ) → Reaches max c stored → NoneKept c
unfolding init_caching on_block_alloc on_block_free
Reaches-NoneKept max c stored started = (refl, refl)
Reaches-NoneKept max c stored (created c1 _ p rest init inc mem local r low e) =
    subst (λ x. NoneKept x.0) e
      (create-NoneKept c1 init inc mem local (Reaches-NoneKept max c1 rest r))
Reaches-NoneKept max c stored (released c1 p _ r h) =
    (release-Lost c1 p (Reaches-NoneKept max c1 stored r)
      (Reaches-StoredIn max c1 stored p.factory_data r h)).0
Reaches-NoneKept max c stored (allocated c1 _ size r) = Reaches-NoneKept max c1 stored r
Reaches-NoneKept max c stored (freed c1 _ size r) = Reaches-NoneKept max c1 stored r

-- A factory that stores the address of its local variable, 16 or more in the low 32 bits, in each pool
-- that it hands out: in no state that it reaches is a pool kept for later, and releasing a pool with
-- the data that it was handed out with never keeps it. The release stops at the assertion just where
-- the pool has its mark, is in use and fits, which is where it is to be kept.
pub never_kept :
    (max : ℕ) (c : PoolCaching) (p : PoolInfo) (stored : List ℕ)
    → Reaches max c stored
    → StoredIn p.factory_data stored
    → (c.free_list ≡ replicate 16 [])
      × (c.capacity ≡ 0)
      × (is_kept ((release c p).1) ≡ false)
      × (is_aborted ((release c p).1)
          ≡ (p.magic == magic_code && (is_used c.used_list p.pool && fits c p)))
never_kept max c p stored r h =
    let (lists, empty) = Reaches-NoneKept max c stored r in
    let (_, unkept, stops) =
      release-Lost c p (lists, empty) (Reaches-StoredIn max c stored p.factory_data r h) in
    (lists, empty, unkept, stops)
