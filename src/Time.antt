-- ===== src/Time.antt =====
-- oslib/src/timestamp.h and timestamp.c, the time values: seconds and milliseconds, both signed. An
-- overflow of `long` is left out.
pub mod Normal
pub mod Order
mod Tests
use zhangxy.Base.{
  ℕ, zero, suc, ◌+◌, ◌-◌, ◌*◌, ◌/◌, ◌%◌, ◌^◌, ◌≤◌, ◌<◌, min, ◌≡◌, refl, sym, ap, ap₂, ◌∙◌, ◌≢◌, ◌↔◌,
  ◌⊎◌, inl, inr, Bool, true, false, not, ◌&&◌, ◌||◌, Option, none, some, List, [], ◌∷◌, ◌++◌, map,
  append-nil, append_assoc, arith, ltb, leb, ◌==◌, bool_eq, if◌then◌else◌, ltb→lt, lt→ltb, le→ltb,
  leb→le, ==_iff, Bool-cases, Option-cases, le_cases, u32_add, u32_sub, length, get_elem?, get_or,
  set, take, drop, replicate, length-append, length-take, length-drop, length-set, length-replicate,
  take-nil, drop-nil, take_all, drop_all, take-append-drop, take-append_le, take-append_ge,
  drop-append_le, take-append_self, drop-append_self, drop-append_ge, drop-take, take-take,
  drop-drop, overwrite, length-overwrite, get_or-set_self, get_or-set_ne, set-get_or, set-set,
}
use zhangxy.Base.Int.{ℤ, pos, negsuc, pos_part, neg_part, sub_ℕ, ◌+ℤ◌, ◌-ℤ◌, ltz, eqz}

-- `T_Timevalue`
pub record Time : Type 0 where
  pub sec : ℤ
  pub msec : ℤ

abbrev pub zero_time : Time
zero_time = record { sec = pos 0; msec = pos 0 }

-- `TIME_VAL_GT`, `_EQ`, `_GTE`, `_LT` and `_LTE`
abbrev pub time_gt : Time → Time → Bool
time_gt a b = ltz b.sec a.sec || eqz a.sec b.sec && ltz b.msec a.msec

abbrev pub time_eq : Time → Time → Bool
time_eq a b = eqz a.sec b.sec && eqz a.msec b.msec

unfoldable pub time_gte : Time → Time → Bool
time_gte a b = time_gt a b || time_eq a b

unfoldable pub time_lt : Time → Time → Bool
unfolding time_gte
time_lt a b = not (time_gte a b)

unfoldable pub time_lte : Time → Time → Bool
time_lte a b = not (time_gt a b)

-- The `do … while (msec <= -1000)` at -`m` milliseconds.
unfoldable pub borrow : ℕ → ℤ → ℕ → Time
unfolding ◌-ℤ◌
borrow zero sec m = record { sec = sec; msec = sub_ℕ 0 m }
borrow (suc fuel) sec m =
    let again = borrow fuel (sec -ℤ pos 1) (m - 1000) in
    if leb 1000 m then again else record { sec = sec; msec = sub_ℕ 0 m }

-- The first half of `TIME_Normalize`.
unfoldable pub carry : Time → Time
unfolding ◌+ℤ◌ borrow
carry t =
    if leb 1000 (pos_part t.msec)
    then record { sec = t.sec +ℤ pos (pos_part t.msec / 1000); msec = pos (pos_part t.msec % 1000) }
    else if leb 1000 (neg_part t.msec)
    then borrow (neg_part t.msec) t.sec (neg_part t.msec)
    else t

-- Its second half: both parts get one sign.
unfoldable pub align : Time → Time
unfolding ◌+ℤ◌ ◌-ℤ◌
align t =
    if leb 1 (pos_part t.sec) && leb 1 (neg_part t.msec)
    then record { sec = t.sec -ℤ pos 1; msec = t.msec +ℤ pos 1000 }
    else if leb 1 (neg_part t.sec) && leb 1 (pos_part t.msec)
    then record { sec = t.sec +ℤ pos 1; msec = t.msec -ℤ pos 1000 }
    else t

unfoldable pub normalize : Time → Time
unfolding carry align
normalize t = align (carry t)

unfoldable pub time_add : Time → Time → Time
unfolding normalize ◌+ℤ◌
time_add a b = normalize (record { sec = a.sec +ℤ b.sec; msec = a.msec +ℤ b.msec })

unfoldable pub time_sub : Time → Time → Time
unfolding normalize ◌-ℤ◌
time_sub a b = normalize (record { sec = a.sec -ℤ b.sec; msec = a.msec -ℤ b.msec })
