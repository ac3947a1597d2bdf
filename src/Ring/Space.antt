-- ===== src/Ring/Space.antt =====
-- How much a ring holds and how much room is left.
use zhangxy.Base.{
  ℕ, ◌+◌, ◌-◌, ◌^◌, ◌≤◌, ◌<◌, ◌≡◌, refl, inl, inr, true, false, List, [], arith, Bool-cases, length,
  take, drop, length-append, length-take, length-drop,
}
use zhangxy.Ring.{Ring, init, get_data_len, get_space_len}
use zhangxy.Ring.Contents.{
  IsValid, lies_straight, straight, around, contents, get_data_len_straight, get_data_len_around,
}

length-straight : (r : Ring) → IsValid r → length (straight r) ≡ r.write_index - r.read_index
length-straight r v = omega (
  arith,
  length-take (r.write_index - r.read_index) (drop r.read_index r.buffer),
  length-drop r.read_index r.buffer,
  v.storage,
)

length-around :
    (r : Ring) → IsValid r → length (around r) ≡ r.max_size + r.write_index - r.read_index
length-around r v = omega (
  arith,
  length-append (drop r.read_index r.buffer) (take r.write_index r.buffer),
  length-take r.write_index r.buffer,
  length-drop r.read_index r.buffer,
  v.storage,
)

pub length-contents_straight :
    (r : Ring) → IsValid r → lies_straight r ≡ true → length (contents r) ≡ get_data_len r
length-contents_straight r v h = rw (h, get_data_len_straight r v h) (length-straight r v)

pub length-contents_around :
    (r : Ring) → IsValid r → lies_straight r ≡ false → length (contents r) ≡ get_data_len r
length-contents_around r v h = rw (h, get_data_len_around r v h) (length-around r v)

-- `RING_GetDataLen` returns the number of bytes that a valid ring holds.
pub length-contents : (r : Ring) → IsValid r → length (contents r) ≡ get_data_len r
length-contents r v = elim (Bool-cases (lies_straight r)) [
  | inl h ↦ length-contents_straight r v h
  | inr h ↦ length-contents_around r v h
]

pub get_data_len-le : (r : Ring) → IsValid r → get_data_len r ≤ r.max_size
get_data_len-le r v = elim (Bool-cases (lies_straight r)) [
  | inl h ↦ omega (arith, get_data_len_straight r v h)
  | inr h ↦ omega (arith, get_data_len_around r v h, v.next_lap h)
]

-- The data and the space of a valid ring make up its size, with no wrap of `unsigned`.
pub space_and_data : (r : Ring) → IsValid r → get_data_len r + get_space_len r ≡ r.max_size
unfolding get_space_len
space_and_data r v = omega (arith, get_data_len-le r v)

-- A new ring over `size` bytes is valid and empty, if the size is positive and fits 31 bits.
pub init-IsValid :
    (buffer : List ℕ) (size : ℕ)
    → length buffer ≡ size
    → 0 < size
    → size < 2 ^ 31
    → IsValid (init buffer size) × (contents (init buffer size) ≡ [])
unfolding init
init-IsValid buffer size e p q = (
  record {
    storage = e;
    small = q;
    read_in = p;
    write_in = p;
    same_lap = λ _. omega arith;
    next_lap = λ h. cc;
  },
  refl,
)
