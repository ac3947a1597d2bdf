-- ===== src/Ring/Read.antt =====
-- `RING_Read`.
use zhangxy.Base.{
  ℕ, ◌+◌, ◌-◌, ◌≤◌, ◌<◌, ◌≡◌, sym, ◌∙◌, inl, inr, Bool, true, false, not, List, [], arith, ◌==◌,
  bool_eq, lt→ltb, le→ltb, ==_iff, Bool-cases, le_cases, u32_add, u32_sub, length, take, drop,
  length-drop, take-nil, drop-nil, take_all, drop_all, take-append_le, take-append_ge,
  drop-append_le, drop-append_ge, drop-take, take-take, drop-drop,
}
use zhangxy.Ring.{Ring, index31, tail_room, get_data_len, read_some, read}
use zhangxy.Ring.Contents.{
  IsValid, lies_straight, contents, get_data_len_straight, get_data_len_around,
}
use zhangxy.Ring.Space.{length-contents}

-- What a read of `n` bytes does to a valid ring that holds as many.
record Removed (r : Ring) (n : ℕ) (out : List ℕ × Ring) : Type 0 where
  valid : IsValid out.1
  taken : out.0 ≡ take n (contents r)
  left : contents out.1 ≡ drop n (contents r)

read_some_straight :
    (r : Ring) (n : ℕ)
    → IsValid r
    → lies_straight r ≡ true
    → n ≤ r.write_index - r.read_index
    → Removed r n (read_some r n)
unfolding read_some
read_some_straight r n v h k =
    let near : n < tail_room r r.read_index = omega (arith, v.same_lap h) in
    let at : index31 (u32_add r.read_index n) ≡ r.read_index + n = omega arith in
    let ahead : r.read_index + n ≤ r.write_index = omega (arith, v.same_lap h) in
    rw (lt→ltb n (tail_room r r.read_index) near, at)
      (record {
        valid = record {
          storage = v.storage;
          small = v.small;
          read_in = omega (arith, v.write_in);
          write_in = v.write_in;
          same_lap = λ _. ahead;
          next_lap = λ e. cc;
        };
        taken = rw (h, take-take n (r.write_index - r.read_index) (drop r.read_index r.buffer) k);
        left =
            let gone : r.write_index - (r.read_index + n) ≡ r.write_index - r.read_index - n =
              omega arith in
            rw (
              h,
              drop-take n (r.write_index - r.read_index) (drop r.read_index r.buffer),
              drop-drop n r.read_index (r.read_index + n) r.buffer (omega arith),
              gone,
            );
      })

read_some_around_near :
    (r : Ring) (n : ℕ)
    → IsValid r
    → lies_straight r ≡ false
    → r.read_index + n < r.max_size
    → Removed r n (read_some r n)
unfolding read_some
read_some_around_near r n v h k =
    let near : n < tail_room r r.read_index = omega arith in
    let at : index31 (u32_add r.read_index n) ≡ r.read_index + n = omega arith in
    let inside : n ≤ length (drop r.read_index r.buffer) =
      omega (arith, length-drop r.read_index r.buffer, v.storage) in
    rw (lt→ltb n (tail_room r r.read_index) near, at)
      (record {
        valid = record {
          storage = v.storage;
          small = v.small;
          read_in = k;
          write_in = v.write_in;
          same_lap = λ e. cc;
          next_lap = λ _. omega (arith, v.next_lap h);
        };
        taken =
            rw (
              h,
              take-append_le n (drop r.read_index r.buffer) (take r.write_index r.buffer) inside,
            );
        left = rw (
          h,
          drop-append_le n (drop r.read_index r.buffer) (take r.write_index r.buffer) inside,
          drop-drop n r.read_index (r.read_index + n) r.buffer (omega arith),
        );
      })

not-bool_eq : (a b : Bool) → bool_eq a b ≡ false → bool_eq (not a) b ≡ true
not-bool_eq a b h = ground arith

read_some_around_far :
    (r : Ring) (n : ℕ)
    → IsValid r
    → lies_straight r ≡ false
    → r.max_size ≤ r.read_index + n
    → n ≤ r.max_size + r.write_index - r.read_index
    → Removed r n (read_some r n)
unfolding read_some
read_some_around_far r n v h k fits =
    let room = r.max_size - r.read_index in
    let far : tail_room r r.read_index ≤ n = omega arith in
    let room_eq : tail_room r r.read_index ≡ room = omega arith in
    let more_eq : u32_sub n room ≡ n - room = omega arith in
    let at : index31 (n - room) ≡ n - room = omega arith in
    let behind : length (drop r.read_index r.buffer) ≡ room =
      omega (arith, length-drop r.read_index r.buffer, v.storage) in
    let turned : bool_eq (not r.read_mirror) r.write_mirror ≡ true =
      not-bool_eq r.read_mirror r.write_mirror h in
    rw (le→ltb n (tail_room r r.read_index) far, room_eq, more_eq, at)
      (record {
        valid = record {
          storage = v.storage;
          small = v.small;
          read_in = omega (arith, v.write_in);
          write_in = v.write_in;
          same_lap = λ _. omega arith;
          next_lap = λ e. cc;
        };
        taken = rw (
          h,
          take-append_ge n (n - room) (drop r.read_index r.buffer) (take r.write_index r.buffer)
              (omega arith),
          take-take (n - room) r.write_index r.buffer (omega arith),
          take_all room (drop r.read_index r.buffer) (omega arith),
        );
        left = rw (
          h,
          turned,
          drop-append_ge n (n - room) (drop r.read_index r.buffer) (take r.write_index r.buffer)
              (omega arith),
          drop-take (n - room) r.write_index r.buffer,
        );
      })

read_some-Removed :
    (r : Ring) (n : ℕ) → IsValid r → n ≤ get_data_len r → Removed r n (read_some r n)
read_some-Removed r n v fits = elim (Bool-cases (lies_straight r)) [
  | inl h ↦ read_some_straight r n v h (omega (arith, get_data_len_straight r v h))
  | inr h ↦
      let len = get_data_len_around r v h in
      elim (le_cases r.max_size (r.read_index + n)) [
        | inl far ↦ read_some_around_far r n v h far (omega arith)
        | inr near ↦ read_some_around_near r n v h near
      ]
]

read-Removed : (r : Ring) (n : ℕ) → IsValid r → Removed r n (read r n)
unfolding read
read-Removed r n v = elim (Bool-cases (get_data_len r == 0)) [
  | inl empty ↦
      let nothing : length (contents r) ≡ 0 =
        length-contents r v ∙ (==_iff (get_data_len r) 0).0 empty in
      let gone : contents r ≡ [] = ground arith in
      rw empty (record { valid = v; taken = rw (gone, take-nil n); left = rw (gone, drop-nil n) })
  | inr more ↦ elim (le_cases n (get_data_len r)) [
    | inl fits ↦ rw (more, le→ltb (get_data_len r) n fits) (read_some-Removed r n v fits)
    | inr over ↦
        let done = read_some-Removed r (get_data_len r) v (omega arith) in
        let whole : length (contents r) ≡ get_data_len r = length-contents r v in
        rw (more, lt→ltb (get_data_len r) n over)
          (record {
            valid = done.valid;
            taken =
                done.taken
                ∙ take_all (get_data_len r) (contents r) (omega arith)
                ∙ sym (take_all n (contents r) (omega arith));
            left =
                done.left
                ∙ drop_all (get_data_len r) (contents r) (omega arith)
                ∙ sym (drop_all n (contents r) (omega arith));
          })
  ]
]

-- A read of `n` bytes from a valid ring returns its oldest `n` bytes, or all of them if it holds
-- fewer, and leaves a valid ring that holds the others.
pub read_lem :
    (r : Ring) (n : ℕ)
    → IsValid r
    → ((read r n).0 ≡ take n (contents r))
      × (contents (read r n).1 ≡ drop n (contents r))
      × IsValid (read r n).1
read_lem r n v = let done = read-Removed r n v in (done.taken, done.left, done.valid)
