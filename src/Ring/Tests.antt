-- ===== src/Ring/Tests.antt =====
-- The ring at small inputs.
use zhangxy.Base.{ℕ, ◌≡◌, refl, true, false, List, [], ◌∷◌, arith}
use zhangxy.Ring.{
  Ring, get_data_len, get_space_len, write, write_straight, write_around, read, read_some,
}
use zhangxy.Ring.Contents.{IsValid, contents}
use zhangxy.Ring.Write.{write_appends}
use zhangxy.Ring.Read.{read_lem}
use zhangxy.Ring.Overrun.{overrun_keeps_newest, overrun_loses_all}

abbrev storage : List ℕ
storage = 0 ∷ 0 ∷ 0 ∷ 0 ∷ []

-- 7 and 8 at the end of the buffer, 9 at its front.
abbrev turned : Ring
turned = record {
  buffer = 9 ∷ 0 ∷ 7 ∷ 8 ∷ [];
  max_size = 4;
  read_index = 2;
  read_mirror = false;
  write_index = 1;
  write_mirror = true;
}

abbrev settled : Ring
settled = record {
  buffer = 0 ∷ 5 ∷ 6 ∷ 0 ∷ [];
  max_size = 4;
  read_index = 1;
  read_mirror = true;
  write_index = 3;
  write_mirror = true;
}

turned-IsValid : IsValid turned
turned-IsValid = record {
  storage = refl;
  small = omega arith;
  read_in = omega arith;
  write_in = omega arith;
  same_lap = λ h. cc;
  next_lap = λ _. omega arith;
}

settled-IsValid : IsValid settled
settled-IsValid = record {
  storage = refl;
  small = omega arith;
  read_in = omega arith;
  write_in = omega arith;
  same_lap = λ _. omega arith;
  next_lap = λ h. cc;
}

contents-turned : contents turned ≡ 7 ∷ 8 ∷ 9 ∷ []
contents-turned = refl

write_then_read : (read (write settled (1 ∷ 2 ∷ [])) 3).0 ≡ 5 ∷ 6 ∷ 1 ∷ []
unfolding read write get_space_len get_data_len read_some write_straight write_around
write_then_read = refl

write_appends_example :
    IsValid (write settled (1 ∷ 2 ∷ []))
    × (contents (write settled (1 ∷ 2 ∷ [])) ≡ 5 ∷ 6 ∷ 1 ∷ 2 ∷ [])
unfolding get_space_len get_data_len
write_appends_example = write_appends settled (1 ∷ 2 ∷ []) settled-IsValid (omega arith)

read_lem_example :
    ((read turned 2).0 ≡ 7 ∷ 8 ∷ [])
    × (contents (read turned 2).1 ≡ 9 ∷ [])
    × IsValid (read turned 2).1
read_lem_example = read_lem turned 2 turned-IsValid

overrun_keeps_newest_example :
    IsValid (write turned (1 ∷ 2 ∷ []))
    × (contents (write turned (1 ∷ 2 ∷ [])) ≡ 8 ∷ 9 ∷ 1 ∷ 2 ∷ [])
unfolding get_space_len get_data_len
overrun_keeps_newest_example =
    overrun_keeps_newest turned (1 ∷ 2 ∷ []) turned-IsValid refl (omega arith) (omega arith)

overrun_loses_all_example :
    (get_data_len (write settled (1 ∷ 2 ∷ 3 ∷ [])) ≡ 0)
    × (contents (write settled (1 ∷ 2 ∷ 3 ∷ [])) ≡ [])
unfolding get_space_len get_data_len
overrun_loses_all_example =
    overrun_loses_all settled (1 ∷ 2 ∷ 3 ∷ []) settled-IsValid refl (omega arith) (omega arith)
