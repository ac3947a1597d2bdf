-- ===== src/Time/Normal.antt =====
-- `TIME_Normalize`, and the comparison of normal times.
use zhangxy.Base.{
  ℕ, zero, suc, ◌+◌, ◌-◌, ◌*◌, ◌/◌, ◌≤◌, ◌<◌, ◌≡◌, refl, inl, inr, ◌&&◌, arith, ltb, leb, leb→le,
  Bool-cases,
}
use zhangxy.Base.Int.{
  ℤ, pos, pos_part, neg_part, sub_ℕ, ◌+ℤ◌, ◌-ℤ◌, +ℤ_parts, -ℤ_parts, sub_ℕ_parts, parts_apart,
}
use zhangxy.Time.{Time, borrow, carry, align, normalize, time_gt}

-- What a time has above and below zero, in milliseconds.
abbrev pub ms_above : Time → ℕ
ms_above t = 1000 * pos_part t.sec + pos_part t.msec

abbrev pub ms_below : Time → ℕ
ms_below t = 1000 * neg_part t.sec + neg_part t.msec

-- Two times are the same number of milliseconds.
abbrev pub SameMs : Time → Time → Type 0
SameMs a b = ms_above a + ms_below b ≡ ms_above b + ms_below a

-- Less than a second of milliseconds, with the sign of the seconds.
pub record IsNormal (t : Time) : Type 0 where
  pub above : pos_part t.msec < 1000
  pub below : neg_part t.msec < 1000
  pub up : 0 < pos_part t.sec → neg_part t.msec ≡ 0
  pub down : 0 < neg_part t.sec → pos_part t.msec ≡ 0

-- After the first half.
record IsSmall (t : Time) : Type 0 where
  above : pos_part t.msec < 1000
  below : neg_part t.msec < 1000

borrow_lem :
    (fuel : ℕ) (sec : ℤ) (m : ℕ)
    → m ≤ fuel
    → IsSmall (borrow fuel sec m)
      × SameMs (borrow fuel sec m) (record { sec = sec; msec = sub_ℕ 0 m })
unfolding borrow
borrow_lem zero sec m h = (ground arith, refl)
borrow_lem (suc fuel) sec m h = elim (Bool-cases (leb 1000 m)) [
  | inr done ↦ rw done (ground arith, refl)
  | inl more ↦
      let large : 1000 ≤ m = leb→le 1000 m more in
      let (small, same) = borrow_lem fuel (sec -ℤ pos 1) (m - 1000) (omega arith) in
      rw more (
        small,
        omega (arith, same, -ℤ_parts sec (pos 1), sub_ℕ_parts 0 m, sub_ℕ_parts 0 (m - 1000)),
      )
]

carry_lem : (t : Time) → IsSmall (carry t) × SameMs (carry t) t
unfolding carry
carry_lem t = elim (Bool-cases (leb 1000 (pos_part t.msec))) [
  | inl high ↦
      let large : 1000 ≤ pos_part t.msec = leb→le 1000 (pos_part t.msec) high in
      let only = parts_apart t.msec (omega arith) in
      rw high (
        record { above = omega arith; below = omega arith },
        omega (arith, +ℤ_parts t.sec (pos (pos_part t.msec / 1000))),
      )
  | inr low ↦ elim (Bool-cases (leb 1000 (neg_part t.msec))) [
    | inl deep ↦
        let large : 1000 ≤ neg_part t.msec = leb→le 1000 (neg_part t.msec) deep in
        let (small, same) = borrow_lem (neg_part t.msec) t.sec (neg_part t.msec) (omega arith) in
        let only : pos_part t.msec ≡ 0 = ground (arith, parts_apart t.msec) in
        rw (low, deep) (small, omega (arith, same, sub_ℕ_parts 0 (neg_part t.msec)))
    | inr flat ↦ rw (low, flat) (record { above = ground arith; below = ground arith }, refl)
  ]
]

align_lem : (t : Time) → IsSmall t → IsNormal (align t) × SameMs (align t) t
unfolding align
align_lem t s = elim (Bool-cases (leb 1 (pos_part t.sec) && leb 1 (neg_part t.msec))) [
  | inl over ↦
      let signs : (1 ≤ pos_part t.sec) × (1 ≤ neg_part t.msec) = ground arith in
      let no_sec = parts_apart t.sec signs.0 in
      let no_msec : pos_part t.msec ≡ 0 = ground (arith, parts_apart t.msec) in
      let sec' = -ℤ_parts t.sec (pos 1) in
      let msec' = +ℤ_parts t.msec (pos 1000) in
      let apart = parts_apart (t.msec +ℤ pos 1000) (omega arith) in
      let sec_apart = parts_apart (t.sec -ℤ pos 1) in
      rw over (
        record {
          above = omega arith;
          below = omega arith;
          up = λ h. apart;
          down = λ h. absurd (ground arith);
        },
        omega arith,
      )
  | inr level ↦ elim (Bool-cases (leb 1 (neg_part t.sec) && leb 1 (pos_part t.msec))) [
    | inl under ↦
        let signs : (1 ≤ neg_part t.sec) × (1 ≤ pos_part t.msec) = ground arith in
        let no_sec : pos_part t.sec ≡ 0 = ground (arith, parts_apart t.sec) in
        let no_msec = parts_apart t.msec signs.1 in
        let sec' = +ℤ_parts t.sec (pos 1) in
        let msec' = -ℤ_parts t.msec (pos 1000) in
        let apart : pos_part (t.msec -ℤ pos 1000) ≡ 0 =
          ground (arith, parts_apart (t.msec -ℤ pos 1000)) in
        let sec_apart : pos_part (t.sec +ℤ pos 1) ≡ 0 =
          ground (arith, parts_apart (t.sec +ℤ pos 1)) in
        rw (level, under)
          (
            record {
              above = omega arith;
              below = omega arith;
              up = λ h. absurd (omega arith);
              down = λ h. apart;
            },
            omega arith,
          )
    | inr one_sign ↦
        rw (level, one_sign)
          (
            record {
              above = s.above;
              below = s.below;
              up = λ h. ground arith;
              down = λ h. ground arith;
            },
            refl,
          )
  ]
]

-- `TIME_Normalize` ends, keeps the number of milliseconds, and leaves less than a second of them, with
-- the sign of the seconds.
pub normalize-IsNormal : (t : Time) → IsNormal (normalize t) × SameMs (normalize t) t
unfolding normalize
normalize-IsNormal t =
    let (small, same) = carry_lem t in
    let (normal, same') = align_lem (carry t) small in (normal, omega (arith, same, same'))

-- On normal times the comparison by seconds and then milliseconds is that of milliseconds.
pub time_gt_ms :
    (a b : Time)
    → IsNormal a
    → IsNormal b
    → time_gt a b ≡ ltb (ms_above b + ms_below a) (ms_above a + ms_below b)
time_gt_ms a b p q =
    ground (arith, parts_apart a.sec, parts_apart b.sec, parts_apart a.msec, parts_apart b.msec)
