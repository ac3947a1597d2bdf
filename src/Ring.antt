-- ===== src/Ring.antt =====
-- oslib/src/ringbuf.c: a byte ring over a buffer of the caller, with a mirror bit for each index
-- that tells a full ring from an empty one. A function that updates `*_pThis` returns the new ring
-- beside its result. `int` and `unsigned` arithmetic wraps at 2 ^ 32, and an index is a bit-field
-- of 31 bits.
pub mod Contents
pub mod Space
pub mod Slices
pub mod Write
pub mod Read
pub mod Overrun
mod Tests
use zhangxy.Base.{
  ℕ, ◌+◌, ◌-◌, ◌%◌, ◌^◌, Bool, true, false, not, List, [], ◌++◌, ltb, ◌==◌, bool_eq, if◌then◌else◌,
  u32_add, u32_sub, length, take, drop, overwrite,
}

pub record Ring : Type 0 where
  pub buffer : List ℕ
  pub max_size : ℕ
  pub read_index : ℕ
  pub read_mirror : Bool
  pub write_index : ℕ
  pub write_mirror : Bool

-- A value stored in a bit-field of 31 bits.
abbrev pub index31 : ℕ → ℕ
index31 a = a % 2 ^ 31

pub init : List ℕ → ℕ → Ring
init buffer size = record {
  buffer = buffer;
  max_size = size;
  read_index = 0;
  read_mirror = false;
  write_index = 0;
  write_mirror = false;
}

pub get_max_size : Ring → ℕ
get_max_size r = r.max_size

pub get_data_len : Ring → ℕ
get_data_len r =
    if r.read_index == r.write_index
    then (if bool_eq r.read_mirror r.write_mirror then 0 else r.max_size)
    else if ltb r.write_index r.read_index
    then u32_sub r.max_size (u32_sub r.read_index r.write_index)
    else u32_sub r.write_index r.read_index

pub get_space_len : Ring → ℕ
get_space_len r = u32_sub r.max_size (get_data_len r)

-- The bytes from the index on to the end of the buffer.
abbrev pub tail_room : Ring → ℕ → ℕ
tail_room r index = u32_sub r.max_size index

-- `RING_Write` where the bytes end before the end of the buffer.
unfoldable pub write_straight : Ring → List ℕ → ℕ → Ring
write_straight r src free_space =
    let write' = index31 (u32_add r.write_index (length src)) in
    record r {
      buffer = overwrite r.buffer r.write_index src;
      read_index = if ltb free_space (length src) then write' else r.read_index;
      write_index = write';
    }

-- `RING_Write` where they reach the end, and the rest goes to the front.
unfoldable pub write_around : Ring → List ℕ → ℕ → Ring
write_around r src free_space =
    let room = tail_room r r.write_index in
    let write' = index31 (u32_sub (length src) room) in
    let overrun = ltb free_space (length src) in
    record r {
      buffer = overwrite (overwrite r.buffer r.write_index (take room src)) 0 (drop room src);
      read_index = if overrun then write' else r.read_index;
      read_mirror = if overrun then not r.read_mirror else r.read_mirror;
      write_index = write';
      write_mirror = not r.write_mirror;
    }

pub write : Ring → List ℕ → Ring
write r src =
    let free_space = get_space_len r in
    if ltb (length src) (tail_room r r.write_index)
    then write_straight r src free_space
    else write_around r src free_space

-- The `n` bytes that `RING_Read` copies out, once `n` is cut down to the data length.
unfoldable pub read_straight : Ring → ℕ → List ℕ × Ring
read_straight r n = (
  take n (drop r.read_index r.buffer),
  record r { read_index = index31 (u32_add r.read_index n) },
)

unfoldable pub read_around : Ring → ℕ → List ℕ × Ring
read_around r n =
    let room = tail_room r r.read_index in
    (
      take room (drop r.read_index r.buffer) ++ take (u32_sub n room) r.buffer,
      record r { read_index = index31 (u32_sub n room); read_mirror = not r.read_mirror },
    )

unfoldable pub read_some : Ring → ℕ → List ℕ × Ring
unfolding read_straight read_around
read_some r n = if ltb n (tail_room r r.read_index) then read_straight r n else read_around r n

pub read : Ring → ℕ → List ℕ × Ring
read r n =
    let data_len = get_data_len r in
    if data_len == 0 then ([], r) else read_some r (if ltb data_len n then data_len else n)
