-- ===== src/Cis/Tests.antt =====
-- Character sets at small inputs.
use zhangxy.Base.{◌≡◌, refl, true, not, ◌&&◌, ◌||◌, some, arith, ltb, leb, ◌==◌, replicate}
use zhangxy.Cis.{
  CisBuf, bit_at, cis_is_set, cis_init, cis_dup, cis_add_range, cis_del_range, cis_add_num,
  find_free,
}
use zhangxy.Cis.Laws.{is_set_range}

abbrev blank : CisBuf
blank = record { cells = replicate 256 0; use_mask = 1 }

digits_in : cis_is_set (cis_add_num blank 0) 0 b'7' ≡ true
unfolding cis_add_num cis_add_range cis_is_set
digits_in = refl

next_number : (cis_init blank).1 ≡ some 1
unfolding cis_init find_free bit_at
next_number = refl

is_set_range_example :
    let within = 0 == 0 && (leb b'0' b'5' && ltb b'5' 58) in
    (cis_is_set (cis_add_range blank 0 b'0' 58) 0 b'5' ≡ (within || cis_is_set blank 0 b'5'))
    × (cis_is_set (cis_del_range blank 0 b'0' 58) 0 b'5' ≡ (not within && cis_is_set blank 0 b'5'))
is_set_range_example =
    is_set_range blank 0 b'0' 58 0 b'5' (omega arith) (omega arith) (omega arith) (omega arith)
      (omega arith)

dup_number : (cis_dup blank 0).1 ≡ some 1
unfolding cis_dup cis_init find_free bit_at
dup_number = refl
