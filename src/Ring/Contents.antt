-- ===== src/Ring/Contents.antt =====
-- The invariant of a ring, and the bytes that it holds, oldest first.
use zhangxy.Base.{
  ℕ, ◌+◌, ◌-◌, ◌^◌, ◌≤◌, ◌<◌, Bool, true, false, List, ◌++◌, ◌≡◌, arith, bool_eq, if◌then◌else◌,
  length, take, drop,
}
use zhangxy.Ring.{Ring, get_data_len}

-- With equal mirrors the data lies between the indices; with different ones it goes round the end.
pub record IsValid (r : Ring) : Type 0 where
  pub storage : length r.buffer ≡ r.max_size
  pub small : r.max_size < 2 ^ 31
  pub read_in : r.read_index < r.max_size
  pub write_in : r.write_index < r.max_size
  pub same_lap : bool_eq r.read_mirror r.write_mirror ≡ true → r.read_index ≤ r.write_index
  pub next_lap : bool_eq r.read_mirror r.write_mirror ≡ false → r.write_index ≤ r.read_index

abbrev pub lies_straight : Ring → Bool
lies_straight r = bool_eq r.read_mirror r.write_mirror

-- The bytes between the indices, and those that go round the end.
abbrev pub straight : Ring → List ℕ
straight r = take (r.write_index - r.read_index) (drop r.read_index r.buffer)

abbrev pub around : Ring → List ℕ
around r = drop r.read_index r.buffer ++ take r.write_index r.buffer

abbrev pub contents : Ring → List ℕ
contents r = if lies_straight r then straight r else around r

-- What `RING_GetDataLen` computes, without the wrap of `unsigned`.
pub get_data_len_straight :
    (r : Ring) → IsValid r → lies_straight r ≡ true → get_data_len r ≡ r.write_index - r.read_index
unfolding get_data_len
get_data_len_straight r v h = ground (arith, v.same_lap h)

pub get_data_len_around :
    (r : Ring)
    → IsValid r
    → lies_straight r ≡ false
    → get_data_len r ≡ r.max_size + r.write_index - r.read_index
unfolding get_data_len
get_data_len_around r v h = ground (arith, v.next_lap h)
