-- ===== src/Cis/Laws.antt =====
-- What each operation does to the membership of every character in every set of the array.
use zhangxy.Base.{
  ℕ, zero, suc, ◌+◌, ◌-◌, ◌≤◌, ◌<◌, ◌≡◌, refl, ◌∙◌, Bool, false, not, ◌&&◌, ◌||◌, List, [], ◌∷◌,
  arith, ltb, leb, ◌==◌, length, get_or, length-set, get_or-set_self, get_or-set_ne,
}
use zhangxy.Cis.{
  CisBuf, set_bit, clear_bit, cis_set, cis_clear, cis_is_set, range_from, cis_add_str, cis_del_str,
  cis_add_range, cis_del_range, cis_add_alpha, cis_add_num,
}
use zhangxy.Cis.Bits.{bit_at-set_bit, bit_at-clear_bit}

-- `CIS_SET` and `CIS_CLR` inside the array.
pub is_set-cis_set :
    (b : CisBuf) (id c id' c' : ℕ)
    → c < length b.cells
    → cis_is_set (cis_set b id c) id' c' ≡ (id' == id && c' == c || cis_is_set b id' c')
unfolding cis_set cis_is_set
is_set-cis_set b id c id' c' h = ground (
  arith,
  get_or-set_self b.cells c (set_bit (get_or b.cells c 0) id) 0 h,
  get_or-set_ne b.cells c c' (set_bit (get_or b.cells c 0) id) 0,
  bit_at-set_bit (get_or b.cells c 0) id id',
)

pub is_set-cis_clear :
    (b : CisBuf) (id c id' c' : ℕ)
    → c < length b.cells
    → cis_is_set (cis_clear b id c) id' c' ≡ (not (id' == id && c' == c) && cis_is_set b id' c')
unfolding cis_clear cis_is_set
is_set-cis_clear b id c id' c' h = ground (
  arith,
  get_or-set_self b.cells c (clear_bit (get_or b.cells c 0) id) 0 h,
  get_or-set_ne b.cells c c' (clear_bit (get_or b.cells c 0) id) 0,
  bit_at-clear_bit (get_or b.cells c 0) id id',
)

pub length-cis_set : (b : CisBuf) (id c : ℕ) → length (cis_set b id c).cells ≡ length b.cells
unfolding cis_set
length-cis_set b id c = length-set b.cells c _

pub length-cis_clear : (b : CisBuf) (id c : ℕ) → length (cis_clear b id c).cells ≡ length b.cells
unfolding cis_clear
length-cis_clear b id c = length-set b.cells c _

-- Whether a character is in a list.
unfoldable pub elem : ℕ → List ℕ → Bool
elem c [] = false
elem c (x ∷ xs) = c == x || elem c xs

abbrev pub AllIn : List ℕ → ℕ → Type 0
AllIn [] n = Unit
AllIn (c ∷ cs) n = (c < n) × AllIn cs n

pub length-cis_add_str :
    (cs : List ℕ) (b : CisBuf) (id : ℕ) → length (cis_add_str b id cs).cells ≡ length b.cells
unfolding cis_add_str
length-cis_add_str [] b id = refl
length-cis_add_str (c ∷ cs) b id = length-cis_add_str cs (cis_set b id c) id ∙ length-cis_set b id c

pub is_set-cis_add_str :
    (cs : List ℕ) (b : CisBuf) (id id' c' : ℕ)
    → AllIn cs (length b.cells)
    → cis_is_set (cis_add_str b id cs) id' c' ≡ (id' == id && elem c' cs || cis_is_set b id' c')
unfolding cis_add_str elem
is_set-cis_add_str [] b id id' c' h = ground arith
is_set-cis_add_str (c ∷ cs) b id id' c' h = ground (
  arith,
  is_set-cis_add_str cs (cis_set b id c) id id' c' (rw (length-cis_set b id c) h.1),
  is_set-cis_set b id c id' c' h.0,
)

pub is_set-cis_del_str :
    (cs : List ℕ) (b : CisBuf) (id id' c' : ℕ)
    → AllIn cs (length b.cells)
    → cis_is_set (cis_del_str b id cs) id' c'
      ≡ (not (id' == id && elem c' cs) && cis_is_set b id' c')
unfolding cis_del_str elem
is_set-cis_del_str [] b id id' c' h = ground arith
is_set-cis_del_str (c ∷ cs) b id id' c' h = ground (
  arith,
  is_set-cis_del_str cs (cis_clear b id c) id id' c' (rw (length-cis_clear b id c) h.1),
  is_set-cis_clear b id c id' c' h.0,
)

elem-range_from : (n s c : ℕ) → elem c (range_from s n) ≡ (leb s c && ltb c (s + n))
unfolding elem range_from
elem-range_from zero s c = ground arith
elem-range_from (suc n) s c = ground (arith, elem-range_from n (s + 1) c)

AllIn-range_from : (n s k : ℕ) → s + n ≤ k → AllIn (range_from s n) k
unfolding range_from
AllIn-range_from zero s k h = tt
AllIn-range_from (suc n) s k h = (omega arith, AllIn-range_from n (s + 1) k (omega arith))

pub length-cis_add_range :
    (b : CisBuf) (id start stop : ℕ) → length (cis_add_range b id start stop).cells ≡ length b.cells
unfolding cis_add_range
length-cis_add_range b id start stop = length-cis_add_str (range_from start (stop - start)) b id

-- For one of the 32 sets of the array and a range inside it that does not begin with 0, `cis_add_range`
-- and `cis_del_range` put the characters from `start` up to, not including, `stop` into the set or take
-- them out, and change no other character and no other set.
pub is_set_range :
    (b : CisBuf) (id start stop id' c' : ℕ)
    → id < 32
    → id' < 32
    → 0 < start
    → start ≤ stop
    → stop ≤ length b.cells
    → let within = id' == id && (leb start c' && ltb c' stop) in
      (cis_is_set (cis_add_range b id start stop) id' c' ≡ (within || cis_is_set b id' c'))
      × (cis_is_set (cis_del_range b id start stop) id' c' ≡ (not within && cis_is_set b id' c'))
unfolding cis_add_range cis_del_range
is_set_range b id start stop id' c' one_of other_of begun h k =
    let cs = range_from start (stop - start) in
    let inside = AllIn-range_from (stop - start) start (length b.cells) (omega arith) in
    let sum : start + (stop - start) ≡ stop = omega arith in
    let hit : elem c' cs ≡ (leb start c' && ltb c' stop) =
      rw (elem-range_from (stop - start) start c', sum) in
    (
      rw (is_set-cis_add_str cs b id id' c' inside, hit),
      rw (is_set-cis_del_str cs b id id' c' inside, hit),
    )

-- `cis_add_alpha` and `cis_add_num` put the ASCII letters and the decimal digits into the set, and
-- change no other character and no other set.
pub is_set_classes :
    (b : CisBuf) (id id' c' : ℕ)
    → id < 32
    → id' < 32
    → length b.cells ≡ 256
    → let letter = leb b'a' c' && leb c' b'z' || leb b'A' c' && leb c' b'Z' in
      let digit = leb b'0' c' && leb c' b'9' in
      (cis_is_set (cis_add_alpha b id) id' c' ≡ (id' == id && letter || cis_is_set b id' c'))
      × (cis_is_set (cis_add_num b id) id' c' ≡ (id' == id && digit || cis_is_set b id' c'))
unfolding cis_add_alpha cis_add_num
is_set_classes b id id' c' one_of other_of h =
    let small = cis_add_range b id b'a' (b'z' + 1) in
    let kept = length-cis_add_range b id b'a' (b'z' + 1) in
    let low =
      (is_set_range b id b'a' (b'z' + 1) id' c' one_of other_of (omega arith) (omega arith)
        (omega arith)).0 in
    let high =
      (is_set_range small id b'A' (b'Z' + 1) id' c' one_of other_of (omega arith) (omega arith)
        (omega arith)).0 in
    let num =
      (is_set_range b id b'0' (b'9' + 1) id' c' one_of other_of (omega arith) (omega arith)
        (omega arith)).0 in
    (ground arith, ground arith)
