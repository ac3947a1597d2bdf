-- ===== src/Gki/Find.antt =====
-- The start of a buffer, and the permission of a pool.
use zhangxy.Base.{
  ℕ, zero, suc, ◌+◌, ◌-◌, ◌*◌, ◌/◌, ◌≤◌, ◌<◌, ◌≡◌, refl, ◌≢◌, ◌⊎◌, inl, inr, true, false, not, ◌&&◌,
  arith, ltb, leb, ◌==◌, if◌then◌else◌, lt→ltb, le_cases,
}
use native.Mathlib.Nat.{div-add-mod', mod-lt}
use zhangxy.Cis.{bit_at, set_bit, clear_bit}
use zhangxy.Cis.Bits.{bit_at-set_bit, bit_at-clear_bit}
use zhangxy.Gki.{Gki}
use zhangxy.Gki.Buffers.{find_from, find_buf_start, set_pool_permission, serves, has_free}

-- The address is behind the first byte of the pool and in front of its end.
abbrev pub IsInside : Gki → ℕ → ℕ → Type 0
IsInside g area i = (g.pool_start i < area) × (area < g.pool_end i)

abbrev pub start_in : Gki → ℕ → ℕ → ℕ
start_in g area i = g.pool_start i + (area - g.pool_start i) / g.pool_size i * g.pool_size i + 8

find_from_lem :
    (n i id : ℕ) (g : Gki) (area : ℕ)
    → i ≤ id
    → id < i + n
    → IsInside g area id
    → ((j : ℕ) → j < id → (area ≤ g.pool_start j) ⊎ (g.pool_end j ≤ area))
    → find_from n g area i ≡ start_in g area id
unfolding find_from
find_from_lem zero i id g area low high inside out = absurd (omega arith)
find_from_lem (suc n) i id g area low high inside out = elim (le_cases id i) [
  | inl here ↦
      let same : i ≡ id = omega arith in
      rw same (
        let a = lt→ltb (g.pool_start id) area inside.0 in
        let b = lt→ltb area (g.pool_end id) inside.1 in rw (a, b) refl)
  | inr later ↦
      let miss : (ltb (g.pool_start i) area && ltb area (g.pool_end i)) ≡ false =
        elim (out i later) [
          | inl before ↦ ground (arith, before)
          | inr behind ↦ ground (arith, behind)
        ] in
      rw miss (find_from_lem n (i + 1) id g area (omega arith) (omega arith) inside out)
]

-- `GKI_find_buf_start` of an address inside a pool, and in no pool in front of it, is the start of a
-- buffer behind its header, and the address is in that buffer or its header.
pub find_buf_start_lem :
    (g : Gki) (area id : ℕ)
    → id < 6
    → 0 < g.pool_size id
    → IsInside g area id
    → ((j : ℕ) → j < id → (area ≤ g.pool_start j) ⊎ (g.pool_end j ≤ area))
    → (k : ℕ) × (find_buf_start g area ≡ g.pool_start id + k * g.pool_size id + 8)
      × (g.pool_start id + k * g.pool_size id ≤ area)
      × (area < g.pool_start id + k * g.pool_size id + g.pool_size id)
unfolding find_buf_start
find_buf_start_lem g area id known positive inside out =
    let off = area - g.pool_start id in
    let whole = div-add-mod' off (g.pool_size id) in
    let rest = mod-lt off positive in
    (
      off / g.pool_size id,
      find_from_lem 6 0 id g area (omega arith) known inside out,
      omega (arith, inside),
      omega (arith, inside),
    )

-- `GKI_set_pool_permission` of a pool that exists restricts it or makes it public, and changes that of
-- no other pool: a restricted pool serves no size.
pub set_pool_permission_lem :
    (g : Gki) (id permission size : ℕ)
    → id < 6
    → let r = set_pool_permission g id permission in
      (r.1 ≡ 0)
      × ((j : ℕ)
          → bit_at r.0.access_mask j
            ≡ (if id == j then permission == 1 else bit_at g.access_mask j))
      × (serves r.0 size id
          ≡ (leb size (g.freeq id).buf_size && not (permission == 1) && has_free g id))
      × ((j : ℕ) → j ≢ id → serves r.0 size j ≡ serves g size j)
unfolding set_pool_permission serves
set_pool_permission_lem g id permission size inside =
    let known = lt→ltb id 6 inside in
    let mask = λ (j : ℕ).
      let bit : bit_at
            (if permission == 1 then set_bit g.access_mask id else clear_bit g.access_mask id) j
          ≡ (if id == j then permission == 1 else bit_at g.access_mask j) =
        ground (arith, bit_at-set_bit g.access_mask id j, bit_at-clear_bit g.access_mask id j) in
      bit in
    let self : (id == id) ≡ true = ground arith in
    rw known (
      refl,
      mask,
      rw (mask id, self) refl,
      (λ j ne. let other : (id == j) ≡ false = ground (arith, ne) in rw (mask j, other) refl),
    )
