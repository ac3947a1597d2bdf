-- ===== src/Time/Order.antt =====
-- The order of the times.
use zhangxy.Base.{◌≡◌, ◌↔◌, true, false, arith}
use zhangxy.Time.{Time, time_gte, time_lt, time_lte}

-- `a` is no later than `b`.
abbrev pub NoLater : Time → Time → Type 0
NoLater a b = time_lt b a ≡ false

pub NoLater-refl : (a : Time) → NoLater a a
unfolding time_lt
NoLater-refl a = ground arith

pub NoLater-trans : (a b c : Time) → NoLater a b → NoLater b c → NoLater a c
unfolding time_lt
NoLater-trans a b c h k = ground arith

pub NoLater-of_lt : (a b : Time) → time_lt a b ≡ true → NoLater a b
unfolding time_lt
NoLater-of_lt a b h = ground arith

pub time_lte_iff : (a b : Time) → (time_lte a b ≡ true) ↔ NoLater a b
unfolding time_lt time_lte
time_lte_iff a b = ground arith

pub time_gte_iff : (a b : Time) → (time_gte a b ≡ true) ↔ NoLater b a
unfolding time_lt
time_gte_iff a b = ground arith
