-- ===== src/Time/Tests.antt =====
-- Time values at small inputs.
use zhangxy.Base.{◌≡◌, refl}
use zhangxy.Base.Int.{pos, negsuc, ◌-ℤ◌, ◌+ℤ◌}
use zhangxy.Time.{Time, normalize, carry, align, borrow}

-- 1 second less 1500 milliseconds.
abbrev mixed : Time
mixed = record { sec = pos 1; msec = negsuc 1499 }

mixed_normal : normalize mixed ≡ record { sec = pos 0; msec = negsuc 499 }
unfolding normalize carry align borrow ◌+ℤ◌ ◌-ℤ◌
mixed_normal = refl

abbrev one_and_half : Time
one_and_half = record { sec = pos 1; msec = pos 500 }

abbrev minus_half : Time
minus_half = record { sec = pos 0; msec = negsuc 499 }
