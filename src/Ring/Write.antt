-- ===== src/Ring/Write.antt =====
-- `RING_Write` of what fits.
use zhangxy.Base.{
  ℕ, ◌+◌, ◌-◌, ◌≤◌, ◌<◌, ◌≡◌, sym, inl, inr, Bool, true, false, not, List, ◌++◌, append_assoc,
  arith, bool_eq, lt→ltb, le→ltb, Bool-cases, le_cases, u32_add, u32_sub, length, take, drop,
  length-take, length-drop, take-append-drop, overwrite, length-overwrite,
}
use zhangxy.Ring.{Ring, index31, tail_room, get_space_len, write_straight, write_around, write}
use zhangxy.Ring.Contents.{
  IsValid, lies_straight, contents, get_data_len_straight, get_data_len_around,
}
use zhangxy.Ring.Space.{space_and_data}
use zhangxy.Ring.Slices.{
  take-overwrite, drop-overwrite_above, slice-overwrite, take-overwrite_front, drop-overwrite_front,
}

-- The branch that `RING_Write` takes.
pub write_goes_straight :
    (r : Ring) (src : List ℕ)
    → IsValid r
    → r.write_index + length src < r.max_size
    → write r src ≡ write_straight r src (get_space_len r)
unfolding write
write_goes_straight r src v h = rw (lt→ltb (length src) (tail_room r r.write_index) (omega arith))

pub write_goes_around :
    (r : Ring) (src : List ℕ)
    → IsValid r
    → r.max_size ≤ r.write_index + length src
    → write r src ≡ write_around r src (get_space_len r)
unfolding write
write_goes_around r src v h = rw (le→ltb (length src) (tail_room r r.write_index) (omega arith))

-- What `RING_Write` leaves behind on each of its branches.
pub write_straight_eq :
    (r : Ring) (src : List ℕ) (free : ℕ)
    → IsValid r
    → r.write_index + length src < r.max_size
    → length src ≤ free
    → write_straight r src free ≡ record r {
      buffer = overwrite r.buffer r.write_index src;
      write_index = r.write_index + length src;
    }
unfolding write_straight
write_straight_eq r src free v h k =
    let at : index31 (u32_add r.write_index (length src)) ≡ r.write_index + length src =
      omega arith in
    rw (le→ltb free (length src) k, at)

pub write_around_eq :
    (r : Ring) (src : List ℕ) (free : ℕ)
    → IsValid r
    → r.max_size ≤ r.write_index + length src
    → length src ≤ r.max_size
    → length src ≤ free
    → let room = r.max_size - r.write_index in
      write_around r src free ≡ record r {
        buffer = overwrite (overwrite r.buffer r.write_index (take room src)) 0 (drop room src);
        write_index = length src - room;
        write_mirror = not r.write_mirror;
      }
unfolding write_around
write_around_eq r src free v h s k =
    let room_eq : tail_room r r.write_index ≡ r.max_size - r.write_index = omega arith in
    let at : index31 (u32_sub (length src) (r.max_size - r.write_index))
        ≡ length src - (r.max_size - r.write_index) =
      omega arith in
    rw (le→ltb free (length src) k, room_eq, at)

-- What a write does to a valid ring that has the room.
record Appended (r : Ring) (src : List ℕ) (r' : Ring) : Type 0 where
  valid : IsValid r'
  bytes : contents r' ≡ contents r ++ src

straight_straight :
    (r : Ring) (src : List ℕ)
    → IsValid r
    → lies_straight r ≡ true
    → r.write_index + length src < r.max_size
    → Appended r src (record r {
      buffer = overwrite r.buffer r.write_index src;
      write_index = r.write_index + length src;
    })
straight_straight r src v h k = record {
  valid = record {
    storage =
        omega (
          arith,
          length-overwrite r.buffer r.write_index src (omega (arith, v.storage)),
          v.storage,
        );
    small = v.small;
    read_in = v.read_in;
    write_in = k;
    same_lap = λ _. omega (arith, v.same_lap h);
    next_lap = λ e. cc;
  };
  bytes = rw h (
      slice-overwrite r.buffer src r.write_index (omega (arith, v.storage)) r.read_index
        (v.same_lap h));
}

around_straight :
    (r : Ring) (src : List ℕ)
    → IsValid r
    → lies_straight r ≡ false
    → r.write_index + length src ≤ r.read_index
    → Appended r src (record r {
      buffer = overwrite r.buffer r.write_index src;
      write_index = r.write_index + length src;
    })
around_straight r src v h k = record {
  valid = record {
    storage =
        omega (
          arith,
          length-overwrite r.buffer r.write_index src (omega (arith, v.storage)),
          v.storage,
        );
    small = v.small;
    read_in = v.read_in;
    write_in = omega (arith, v.read_in);
    same_lap = λ e. cc;
    next_lap = λ _. k;
  };
  bytes =
      rw
        (
          h,
          drop-overwrite_above r.buffer src r.write_index (omega (arith, v.storage)) r.read_index k,
          take-overwrite r.buffer src r.write_index (omega (arith, v.storage)),
        )
        (sym (append_assoc (drop r.read_index r.buffer) (take r.write_index r.buffer) src));
}

bool_eq-not : (a b : Bool) → bool_eq a b ≡ true → bool_eq a (not b) ≡ false
bool_eq-not a b h = ground arith

straight_around :
    (r : Ring) (src : List ℕ)
    → IsValid r
    → lies_straight r ≡ true
    → r.max_size ≤ r.write_index + length src
    → length src ≤ r.max_size + r.read_index - r.write_index
    → let room = r.max_size - r.write_index in
      Appended r src (record r {
        buffer = overwrite (overwrite r.buffer r.write_index (take room src)) 0 (drop room src);
        write_index = length src - room;
        write_mirror = not r.write_mirror;
      })
straight_around r src v h k fits =
    let room = r.max_size - r.write_index in
    let filled : r.write_index + length (take room src) ≡ length r.buffer =
      omega (arith, length-take room src, v.storage) in
    let rest : length (drop room src) ≡ length src - room = length-drop room src in
    let first : length (overwrite r.buffer r.write_index (take room src)) ≡ length r.buffer =
      length-overwrite r.buffer r.write_index (take room src) (omega arith) in
    let short : length (drop room src) ≤ length r.buffer = omega (arith, v.storage, v.same_lap h) in
    let turned : bool_eq r.read_mirror (not r.write_mirror) ≡ false =
      bool_eq-not r.read_mirror r.write_mirror h in
    record {
      valid = record {
        storage = omega (
          arith,
          length-overwrite (overwrite r.buffer r.write_index (take room src)) 0 (drop room src)
              (omega arith),
          v.storage,
        );
        small = v.small;
        read_in = v.read_in;
        write_in = omega (arith, v.same_lap h, v.read_in);
        same_lap = λ e. cc;
        next_lap = λ _. omega (arith, v.same_lap h);
      };
      bytes = rw (
        turned,
        h,
        drop-overwrite_front r.buffer (take room src) (drop room src) r.write_index filled short
            r.read_index (omega (arith, v.same_lap h)) (v.same_lap h),
        ← rest,
        take-overwrite_front r.buffer (take room src) (drop room src) r.write_index filled short,
        append_assoc,
        take-append-drop,
      );
    }

write-Appended :
    (r : Ring) (src : List ℕ)
    → IsValid r
    → length src ≤ get_space_len r
    → Appended r src (write r src)
write-Appended r src v fits = elim (Bool-cases (lies_straight r)) [
  | inl h ↦
      let len = get_data_len_straight r v h in
      let room : length src ≤ r.max_size + r.read_index - r.write_index =
        omega (arith, space_and_data r v, v.same_lap h) in
      elim (le_cases r.max_size (r.write_index + length src)) [
        | inl far ↦
            rw
              (
                write_goes_around r src v far,
                write_around_eq r src (get_space_len r) v far (omega (arith, space_and_data r v))
                    fits,
              )
              (straight_around r src v h far room)
        | inr near ↦
            rw
              (
                write_goes_straight r src v near,
                write_straight_eq r src (get_space_len r) v near fits,
              )
              (straight_straight r src v h near)
      ]
  | inr h ↦
      let len = get_data_len_around r v h in
      let near : r.write_index + length src ≤ r.read_index =
        omega (arith, space_and_data r v, v.next_lap h) in
      let inside : r.write_index + length src < r.max_size = omega (arith, v.read_in) in
      rw
        (
          write_goes_straight r src v inside,
          write_straight_eq r src (get_space_len r) v inside fits,
        )
        (around_straight r src v h near)
]

-- A write of at most `RING_GetSpaceLen` bytes to a valid ring appends exactly these bytes and leaves
-- the ring valid.
pub write_appends :
    (r : Ring) (src : List ℕ)
    → IsValid r
    → length src ≤ get_space_len r
    → IsValid (write r src) × (contents (write r src) ≡ contents r ++ src)
write_appends r src v fits = let done = write-Appended r src v fits in (done.valid, done.bytes)
