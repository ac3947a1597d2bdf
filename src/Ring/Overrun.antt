-- ===== src/Ring/Overrun.antt =====
-- `RING_Write` of more bytes than there is room for: the write overruns the oldest bytes.
use zhangxy.Base.{
  ℕ, ◌+◌, ◌-◌, ◌≤◌, ◌<◌, ◌≡◌, refl, ◌∙◌, inl, inr, Bool, true, false, not, List, [], ◌++◌,
  append_assoc, arith, bool_eq, lt→ltb, ==_iff, le_cases, u32_add, u32_sub, length, take, drop,
  length-take, length-drop, take-append-drop, drop-append_le, drop-append_ge, drop-take, drop-drop,
  overwrite, length-overwrite,
}
use zhangxy.Ring.{
  Ring, index31, tail_room, get_data_len, get_space_len, write_straight, write_around, write,
}
use zhangxy.Ring.Contents.{
  IsValid, lies_straight, contents, get_data_len_straight, get_data_len_around,
}
use zhangxy.Ring.Space.{length-contents, space_and_data}
use zhangxy.Ring.Slices.{
  take-overwrite, drop-overwrite_above, take-overwrite_front, drop-overwrite_front,
}
use zhangxy.Ring.Write.{write_goes_straight, write_goes_around}

-- What the two branches leave behind where the write overruns.
overrun_straight_eq :
    (r : Ring) (src : List ℕ) (free : ℕ)
    → IsValid r
    → r.write_index + length src < r.max_size
    → free < length src
    → write_straight r src free ≡ record r {
      buffer = overwrite r.buffer r.write_index src;
      read_index = r.write_index + length src;
      write_index = r.write_index + length src;
    }
unfolding write_straight
overrun_straight_eq r src free v h k =
    let at : index31 (u32_add r.write_index (length src)) ≡ r.write_index + length src =
      omega arith in
    rw (lt→ltb free (length src) k, at)

overrun_around_eq :
    (r : Ring) (src : List ℕ) (free : ℕ)
    → IsValid r
    → r.max_size ≤ r.write_index + length src
    → length src ≤ r.max_size
    → free < length src
    → let room = r.max_size - r.write_index in
      write_around r src free ≡ record r {
        buffer = overwrite (overwrite r.buffer r.write_index (take room src)) 0 (drop room src);
        read_index = length src - room;
        read_mirror = not r.read_mirror;
        write_index = length src - room;
        write_mirror = not r.write_mirror;
      }
unfolding write_around
overrun_around_eq r src free v h s k =
    let room_eq : tail_room r r.write_index ≡ r.max_size - r.write_index = omega arith in
    let at : index31 (u32_sub (length src) (r.max_size - r.write_index))
        ≡ length src - (r.max_size - r.write_index) =
      omega arith in
    rw (lt→ltb free (length src) k, room_eq, at)

-- The ring is full of the newest bytes of the old contents and `src`.
record Newest (r : Ring) (src : List ℕ) (r' : Ring) : Type 0 where
  valid : IsValid r'
  bytes : contents r' ≡ drop (length (contents r) + length src - r.max_size) (contents r ++ src)

around_length :
    (r : Ring)
    → IsValid r
    → lies_straight r ≡ false
    → length (contents r) ≡ r.max_size + r.write_index - r.read_index
around_length r v h = length-contents r v ∙ get_data_len_around r v h

overrun_near :
    (r : Ring) (src : List ℕ)
    → IsValid r
    → lies_straight r ≡ false
    → r.write_index + length src < r.max_size
    → r.read_index < r.write_index + length src
    → Newest r src (record r {
      buffer = overwrite r.buffer r.write_index src;
      read_index = r.write_index + length src;
      write_index = r.write_index + length src;
    })
overrun_near r src v h near past =
    let w' = r.write_index + length src in
    let fits : r.write_index + length src ≤ length r.buffer = omega (arith, v.storage) in
    let lost : length (contents r) + length src - r.max_size ≡ w' - r.read_index =
      omega (arith, around_length r v h, v.next_lap h) in
    record {
      valid = record {
        storage = omega (arith, length-overwrite r.buffer r.write_index src fits, v.storage);
        small = v.small;
        read_in = near;
        write_in = near;
        same_lap = λ e. cc;
        next_lap = λ _. omega arith;
      };
      bytes = rw (
        lost,
        h,
        drop-overwrite_above r.buffer src r.write_index fits w' (omega arith),
        take-overwrite r.buffer src r.write_index fits,
        append_assoc,
        drop-append_le (w' - r.read_index) (drop r.read_index r.buffer)
            (take r.write_index r.buffer ++ src)
            (omega (arith, length-drop r.read_index r.buffer, v.storage)),
        drop-drop (w' - r.read_index) r.read_index w' r.buffer (omega arith),
      );
    }

not-bool_eq-not : (a b : Bool) → bool_eq (not a) (not b) ≡ bool_eq a b
not-bool_eq-not a b = ground arith

overrun_far :
    (r : Ring) (src : List ℕ)
    → IsValid r
    → lies_straight r ≡ false
    → r.max_size ≤ r.write_index + length src
    → length src ≤ r.max_size
    → let room = r.max_size - r.write_index in
      Newest r src (record r {
        buffer = overwrite (overwrite r.buffer r.write_index (take room src)) 0 (drop room src);
        read_index = length src - room;
        read_mirror = not r.read_mirror;
        write_index = length src - room;
        write_mirror = not r.write_mirror;
      })
overrun_far r src v h far most =
    let room = r.max_size - r.write_index in
    let d1 = take room src in
    let d2 = drop room src in
    let w' = length src - room in
    let filled : r.write_index + length d1 ≡ length r.buffer =
      omega (arith, length-take room src, v.storage) in
    let rest : length d2 ≡ w' = length-drop room src in
    let first : length (overwrite r.buffer r.write_index d1) ≡ length r.buffer =
      length-overwrite r.buffer r.write_index d1 (omega arith) in
    let short : length d2 ≤ length r.buffer = omega (arith, v.storage) in
    let turned : bool_eq (not r.read_mirror) (not r.write_mirror) ≡ false =
      not-bool_eq-not r.read_mirror r.write_mirror ∙ h in
    let lost : length (contents r) + length src - r.max_size ≡ r.max_size - r.read_index + w' =
      omega (arith, around_length r v h, v.next_lap h) in
    record {
      valid = record {
        storage = omega (
          arith,
          length-overwrite (overwrite r.buffer r.write_index d1) 0 d2 (omega arith),
          v.storage,
        );
        small = v.small;
        read_in = omega (arith, v.write_in);
        write_in = omega (arith, v.write_in);
        same_lap = λ e. cc;
        next_lap = λ _. omega arith;
      };
      bytes = rw (
        lost,
        h,
        turned,
        drop-overwrite_front r.buffer d1 d2 r.write_index filled short w' (omega arith)
            (omega arith),
        ← rest,
        take-overwrite_front r.buffer d1 d2 r.write_index filled short,
        append_assoc,
        append_assoc,
        take-append-drop,
        drop-append_ge (r.max_size - r.read_index + length d2) (length d2)
            (drop r.read_index r.buffer) (take r.write_index r.buffer ++ src)
            (omega (arith, length-drop r.read_index r.buffer, v.storage)),
        drop-append_le (length d2) (take r.write_index r.buffer) src
            (omega (arith, length-take r.write_index r.buffer, v.storage)),
        drop-take (length d2) r.write_index r.buffer,
      );
    }

write-Newest :
    (r : Ring) (src : List ℕ)
    → IsValid r
    → lies_straight r ≡ false
    → get_space_len r < length src
    → length src ≤ r.max_size
    → Newest r src (write r src)
write-Newest r src v h over most =
    let len = get_data_len_around r v h in
    let past : r.read_index < r.write_index + length src =
      omega (arith, space_and_data r v, v.next_lap h) in
    elim (le_cases r.max_size (r.write_index + length src)) [
      | inl far ↦
          rw
            (
              write_goes_around r src v far,
              overrun_around_eq r src (get_space_len r) v far most over,
            )
            (overrun_far r src v h far most)
      | inr near ↦
          rw
            (
              write_goes_straight r src v near,
              overrun_straight_eq r src (get_space_len r) v near over,
            )
            (overrun_near r src v h near past)
    ]

-- A write with no room, of at most the ring's size, to a valid ring whose data goes round the end:
-- the ring stays valid and holds the newest bytes of the old contents and the new ones, as many as
-- its size.
pub overrun_keeps_newest :
    (r : Ring) (src : List ℕ)
    → IsValid r
    → lies_straight r ≡ false
    → get_space_len r < length src
    → length src ≤ r.max_size
    → IsValid (write r src)
      × (contents (write r src)
          ≡ drop (length (contents r) + length src - r.max_size) (contents r ++ src))
overrun_keeps_newest r src v h over most =
    let done = write-Newest r src v h over most in (done.valid, done.bytes)

-- A write with no room, of at most the ring's size, to a valid ring whose data lies straight (an
-- empty ring too): `RING_GetDataLen` is 0 afterwards, and all bytes are lost, the new ones too.
pub overrun_loses_all :
    (r : Ring) (src : List ℕ)
    → IsValid r
    → lies_straight r ≡ true
    → get_space_len r < length src
    → length src ≤ r.max_size
    → (get_data_len (write r src) ≡ 0) × (contents (write r src) ≡ [])
unfolding get_data_len
overrun_loses_all r src v h over most =
    let len = get_data_len_straight r v h in
    let far : r.max_size ≤ r.write_index + length src =
      omega (arith, space_and_data r v, v.same_lap h) in
    let turned : bool_eq (not r.read_mirror) (not r.write_mirror) ≡ true =
      not-bool_eq-not r.read_mirror r.write_mirror ∙ h in
    let w' = length src - (r.max_size - r.write_index) in
    let nothing : w' - w' ≡ 0 = omega arith in
    rw
      (
        write_goes_around r src v far,
        overrun_around_eq r src (get_space_len r) v far most over,
        turned,
        (==_iff w' w').1 refl,
        nothing,
      )
      (refl, refl)
