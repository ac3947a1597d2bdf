-- ===== src/Cis.antt =====
-- oslib/src/scanner.c, character sets: up to 32 sets of characters share one array of 256 words,
-- and set number `id` has bit `id` of each word. A set is its number; the array is passed along. A
-- C string is the list of its characters, without the NUL; `char` is unsigned, as on ARM.
pub mod Bits
pub mod Laws
pub mod Each
pub mod Init
mod Tests
use zhangxy.Base.{
  ℕ, zero, suc, ◌+◌, ◌-◌, ◌*◌, ◌/◌, ◌%◌, ◌^◌, ◌≤◌, ◌<◌, min, ◌≡◌, refl, sym, ap, ap₂, ◌∙◌, ◌≢◌, ◌↔◌,
  ◌⊎◌, inl, inr, Bool, true, false, not, ◌&&◌, ◌||◌, Option, none, some, List, [], ◌∷◌, ◌++◌, map,
  append-nil, append_assoc, arith, ltb, leb, ◌==◌, bool_eq, if◌then◌else◌, ltb→lt, lt→ltb, le→ltb,
  leb→le, ==_iff, Bool-cases, Option-cases, le_cases, u32_add, u32_sub, length, get_elem?, get_or,
  set, take, drop, replicate, length-append, length-take, length-drop, length-set, length-replicate,
  take-nil, drop-nil, take_all, drop_all, take-append-drop, take-append_le, take-append_ge,
  drop-append_le, take-append_self, drop-append_self, drop-append_ge, drop-take, take-take,
  drop-drop, overwrite, length-overwrite,
}

-- `x & (1 << i)`, `x | (1 << i)` and `x & ~(1 << i)` on a `uint32_t`, digit by digit.
unfoldable pub bit_at : ℕ → ℕ → Bool
bit_at x zero = x % 2 == 1
bit_at x (suc i) = bit_at (x / 2) i

pub set_bit : ℕ → ℕ → ℕ
set_bit x zero = x / 2 * 2 + 1
set_bit x (suc i) = set_bit (x / 2) i * 2 + x % 2

pub clear_bit : ℕ → ℕ → ℕ
clear_bit x zero = x / 2 * 2
clear_bit x (suc i) = clear_bit (x / 2) i * 2 + x % 2

-- `CIS_MAX_INDEX`
abbrev pub max_index : ℕ
max_index = 32

-- `cis_buf_t`
pub record CisBuf : Type 0 where
  pub cells : List ℕ
  pub use_mask : ℕ

unfoldable pub cis_set : CisBuf → ℕ → ℕ → CisBuf
unfolding set_bit
cis_set b id c = record b { cells = set b.cells c (set_bit (get_or b.cells c 0) id) }

unfoldable pub cis_clear : CisBuf → ℕ → ℕ → CisBuf
unfolding clear_bit
cis_clear b id c = record b { cells = set b.cells c (clear_bit (get_or b.cells c 0) id) }

-- `CIS_ISSET` and `cis_match`
unfoldable pub cis_is_set : CisBuf → ℕ → ℕ → Bool
unfolding bit_at
cis_is_set b id c = bit_at (get_or b.cells c 0) id

pub buf_init : CisBuf
buf_init = record { cells = replicate 256 0; use_mask = 0 }

-- The loop of `cis_init` over the numbers from `i` on, of which `left` are left; `none` is
-- EO_TOOMANY.
pub find_free : ℕ → ℕ → ℕ → Option ℕ
find_free zero i mask = none
find_free (suc left) i mask =
    let further = find_free left (i + 1) mask in if bit_at mask i then further else some i

pub cis_init : CisBuf → CisBuf × Option ℕ
cis_init b = elim (find_free max_index 0 b.use_mask) [
  | none ↦ (b, none)
  | some id ↦ (record b { use_mask = set_bit b.use_mask id }, some id)
]

-- The characters from `c` on, `n` of them: what the counting loops go through.
unfoldable pub range_from : ℕ → ℕ → List ℕ
range_from c zero = []
range_from c (suc n) = c ∷ range_from (c + 1) n

-- `cis_add_str`, and the loops that call `CIS_SET` on one character after the other.
unfoldable pub cis_add_str : CisBuf → ℕ → List ℕ → CisBuf
unfolding cis_set
cis_add_str b id [] = b
cis_add_str b id (c ∷ cs) = cis_add_str (cis_set b id c) id cs

unfoldable pub cis_del_str : CisBuf → ℕ → List ℕ → CisBuf
unfolding cis_clear
cis_del_str b id [] = b
cis_del_str b id (c ∷ cs) = cis_del_str (cis_clear b id c) id cs

-- For `start ≤ stop`: the loop of the source runs until the two are equal.
unfoldable pub cis_add_range : CisBuf → ℕ → ℕ → ℕ → CisBuf
unfolding cis_add_str range_from
cis_add_range b id start stop = cis_add_str b id (range_from start (stop - start))

unfoldable pub cis_del_range : CisBuf → ℕ → ℕ → ℕ → CisBuf
unfolding cis_del_str range_from
cis_del_range b id start stop = cis_del_str b id (range_from start (stop - start))

pub cis_add_alpha : CisBuf → ℕ → CisBuf
cis_add_alpha b id = cis_add_range (cis_add_range b id b'a' (b'z' + 1)) id b'A' (b'Z' + 1)

pub cis_add_num : CisBuf → ℕ → CisBuf
cis_add_num b id = cis_add_range b id b'0' (b'9' + 1)

-- One round of the loops of `cis_add_cis`, `cis_invert` and `cis_dup`, on character `i`.
abbrev pub add_one : ℕ → ℕ → CisBuf → ℕ → CisBuf
add_one id rhs b i = if cis_is_set b rhs i then cis_set b id i else b

abbrev pub invert_one : ℕ → CisBuf → ℕ → CisBuf
invert_one id b i = if cis_is_set b id i then cis_clear b id i else cis_set b id i

abbrev pub copy_one : ℕ → ℕ → CisBuf → ℕ → CisBuf
copy_one id from b i = if cis_is_set b from i then cis_set b id i else cis_clear b id i

-- `for (i = first; i < 256; ++i)`
unfoldable pub for_each : (CisBuf → ℕ → CisBuf) → CisBuf → List ℕ → CisBuf
for_each step b [] = b
for_each step b (i ∷ is) = for_each step (step b i) is

-- For two sets of one array.
pub cis_add_cis : CisBuf → ℕ → ℕ → CisBuf
cis_add_cis b id rhs = for_each (add_one id rhs) b (range_from 0 256)

pub cis_invert : CisBuf → ℕ → CisBuf
cis_invert b id = for_each (invert_one id) b (range_from 1 255)

pub cis_dup : CisBuf → ℕ → CisBuf × Option ℕ
cis_dup b existing =
    let (b', made) = cis_init b in
    elim made [
      | none ↦ (b', none)
      | some id ↦ (for_each (copy_one id existing) b' (range_from 0 256), some id)
    ]
