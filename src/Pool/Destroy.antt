-- ===== src/Pool/Destroy.antt =====
-- oslib/src/pool.c: what `POOL_Reset` and `PoolDestroyInt` free.
use zhangxy.Base.{ℕ, ◌+◌, ◌-◌, ◌%◌, ◌≡◌, refl, ap, ◌∙◌, ◌⊎◌, inl, inr, List, [], ◌∷◌, arith}
use zhangxy.Pool.{PoolInfo, align_ptr, reset_pool, destroy_pool}
use zhangxy.Pool.Blocks.{total_size}
use zhangxy.Pool.Cases.{IsValid}
use zhangxy.Pool.Safe.{pristine}
use zhangxy.Pool.Reset.{freed_total, freed_blocks-total, reset_pool-grown}

pub List-cases {ℓ} :
    {A : Type ℓ} (xs : List A) → (xs ≡ []) ⊎ ((y : A) × (ys : List A) × (xs ≡ y ∷ ys))
List-cases [] = inl refl
List-cases (y ∷ ys) = inr (y, ys, refl)

pub reset_pool-first : (p : PoolInfo) → p.more ≡ [] → reset_pool p ≡ (p, [])
unfolding reset_pool
reset_pool-first p h = rw h refl

pristine-IsValid :
    (p : PoolInfo) (fails : List ℕ) → IsValid p → IsValid (record (pristine p) { fails = fails })
unfolding pristine align_ptr total_size
pristine-IsValid p fails v =
    let b = v.valid.0 in
    let at : p.first.start_addr + (4 - p.first.start_addr % 4) % 4 ≡ p.first.start_addr =
      omega (arith, b.start_aligned) in
    record {
      standard = v.standard;
      valid = (
        record {
          start = b.start;
          positive = b.positive;
          start_aligned = b.start_aligned;
          begun = omega arith;
          inside = omega (arith, at, b.begun, b.inside);
          bound = b.bound;
          aligned = omega (arith, at, b.start_aligned);
        },
        _,
      );
      place = v.place;
      total = omega (arith, v.place, b.start, b.begun, b.inside);
    }

pub record Reset (p p' : PoolInfo) (freed : List (ℕ × ℕ)) : Type 0 where
  pub valid : IsValid p'
  pub total : freed_total freed + p'.capacity ≡ p.capacity
  pub rest : p'.capacity ≡ p.first.end_addr - p.pool
  pub alone : p'.more ≡ []
  pub same : p'.pool ≡ p.pool
  pub index : p'.factory_data ≡ p.factory_data

-- `POOL_Reset` of a valid pool leaves a valid pool with its first block alone. The sizes of the blocks
-- that it frees make up for the capacity that is lost.
pub reset_pool_lem : (p : PoolInfo) → IsValid p → Reset p ((reset_pool p).0) ((reset_pool p).1)
unfolding pristine total_size freed_total
reset_pool_lem p v = elim (List-cases p.more) [
  | inl h ↦
      let total : p.capacity ≡ 84 + total_size (p.first ∷ []) =
        v.total ∙ ap (λ t. 84 + total_size (p.first ∷ t)) h in
      rw (reset_pool-first p h) record {
        valid = v;
        total = omega arith;
        rest = omega (arith, total, v.place, v.valid.0.start, v.valid.0.begun, v.valid.0.inside);
        alone = h;
        same = refl;
        index = refl;
      }
  | inr (b, bs, h) ↦
      let total : p.capacity ≡ 84 + total_size (p.first ∷ b ∷ bs) =
        v.total ∙ ap (λ t. 84 + total_size (p.first ∷ t)) h in
      rw (reset_pool-grown p b bs h) record {
        valid = pristine-IsValid p p.fails v;
        total = omega (
          arith,
          total,
          freed_blocks-total (b ∷ bs) [],
          v.place,
          v.valid.0.start,
          v.valid.0.begun,
          v.valid.0.inside,
        );
        rest = refl;
        alone = refl;
        same = refl;
        index = refl;
      }
]

-- `PoolDestroyInt` of a valid pool frees as much as its capacity.
pub destroy_pool_lem : (p : PoolInfo) → IsValid p → freed_total (destroy_pool p) ≡ p.capacity
unfolding destroy_pool freed_total
destroy_pool_lem p v = let r = reset_pool_lem p v in omega (arith, r.total, r.rest)
