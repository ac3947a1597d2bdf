-- ===== src/Fifo.antt =====
-- oslib/src/fifobuf.c: an allocator of blocks that are freed in the order of their allocation, in a
-- buffer that is used round and round. A pointer is its offset from `m_pStart`, and `mem` is the
-- buffer, whose length is `m_pEnd`. In front of a block stands its size with this header, an
-- `unsigned` of four bytes, low byte first. `none` is a null pointer; the logging is left out.
pub mod Words
pub mod Blocks
pub mod Alloc
pub mod Free
pub mod Unalloc
mod Tests
use zhangxy.Base.{
  ℕ, zero, suc, ◌+◌, ◌-◌, ◌*◌, ◌/◌, ◌%◌, ◌^◌, ◌≤◌, ◌<◌, min, ◌≡◌, refl, sym, ap, ap₂, ◌∙◌, ◌≢◌, ◌↔◌,
  ◌⊎◌, inl, inr, Bool, true, false, not, ◌&&◌, ◌||◌, Option, none, some, List, [], ◌∷◌, ◌++◌, map,
  append-nil, append_assoc, arith, ltb, leb, ◌==◌, bool_eq, if◌then◌else◌, ltb→lt, lt→ltb, le→ltb,
  leb→le, ==_iff, Bool-cases, Option-cases, le_cases, u32_add, u32_sub, length, get_elem?, get_or,
  set, take, drop, replicate, length-append, length-take, length-drop, length-set, length-replicate,
  take-nil, drop-nil, take_all, drop_all, take-append-drop, take-append_le, take-append_ge,
  drop-append_le, take-append_self, drop-append_self, drop-append_ge, drop-take, take-take,
  drop-drop, overwrite, length-overwrite, get_or-set_self, get_or-set_ne, set-get_or, set-set,
}

-- `*(unsigned*)ptr`
unfoldable pub word_at : List ℕ → ℕ → ℕ
word_at mem p =
    get_or mem p 0
    + 2 ^ 8 * get_or mem (p + 1) 0
    + 2 ^ 16 * get_or mem (p + 2) 0
    + 2 ^ 24 * get_or mem (p + 3) 0

unfoldable pub put_word : List ℕ → ℕ → ℕ → List ℕ
put_word mem p v =
    set (set (set (set mem p (v % 2 ^ 8)) (p + 1) (v / 2 ^ 8 % 2 ^ 8)) (p + 2) (v / 2 ^ 16 % 2 ^ 8))
      (p + 3) (v / 2 ^ 24 % 2 ^ 8)

-- `SZ`
abbrev pub header : ℕ
header = 4

-- `T_Fifobuf`, with the buffer.
pub record Fifo : Type 0 where
  pub mem : List ℕ
  pub p_read : ℕ
  pub p_write : ℕ
  pub is_full : Bool

abbrev pub p_end : Fifo → ℕ
p_end f = length f.mem

pub init : List ℕ → Fifo
init mem = record { mem = mem; p_read = 0; p_write = 0; is_full = false }

unfoldable pub get_max_size : Fifo → ℕ
get_max_size f =
    if leb f.p_read f.p_write
    then (let s1 = p_end f - f.p_write in let s2 = f.p_read in if ltb s1 s2 then s2 else s1)
    else f.p_read - f.p_write

-- A block at `w`, after which the data ends at `stop`.
abbrev pub place : Fifo → ℕ → ℕ → ℕ → Fifo
place f w stop total = record {
  mem = put_word f.mem w total;
  p_read = f.p_read;
  p_write = stop;
  is_full = stop == f.p_read;
}

-- The first try, behind the data up to the end of the buffer.
unfoldable pub alloc_tail : Fifo → ℕ → Fifo
alloc_tail f total =
    let stop = f.p_write + total in place f f.p_write (if stop == p_end f then 0 else stop) total

-- The second try: in front of the data, or between its two parts.
unfoldable pub alloc_front : Fifo → ℕ → Fifo × Option ℕ
alloc_front f total =
    let start = if leb f.p_write f.p_read then f.p_write else 0 in
    if leb total (f.p_read - start)
    then (place f start (start + total) total, some (start + header))
    else (f, none)

unfoldable pub alloc : Fifo → ℕ → Fifo × Option ℕ
unfolding alloc_tail alloc_front
alloc f size =
    let total = u32_add size header in
    if f.is_full
    then (f, none)
    else if leb f.p_read f.p_write && leb total (p_end f - f.p_write)
    then (alloc_tail f total, some (f.p_write + header))
    else alloc_front f total

-- `false` is EO_INVAL.
unfoldable pub unalloc : Fifo → ℕ → Fifo × Bool
unfolding word_at
unalloc f buffer =
    let ptr = buffer - header in
    let end_ptr = if f.p_write == 0 then p_end f else f.p_write in
    if not (ptr + word_at f.mem ptr == end_ptr)
    then (f, false)
    else (record f { p_write = ptr; is_full = false }, true)

-- What `FIFO_Free` leaves after it has moved `m_pRead` behind the block.
abbrev pub settle_read : Fifo → ℕ → Fifo
settle_read f stop =
    let read' = if stop == p_end f then 0 else stop in
    if read' == f.p_write
    then record f { p_read = 0; p_write = 0; is_full = false }
    else record f { p_read = read'; is_full = false }

unfoldable pub free : Fifo → ℕ → Fifo × Bool
unfolding word_at
free f buffer =
    let ptr = buffer - header in
    let stop = if ltb f.p_read f.p_write then f.p_write else p_end f in
    if ltb buffer header || leb (p_end f) ptr
    then (f, false)
    else if not (ptr == f.p_read) && not (ptr == 0)
    then (f, false)
    else if ltb stop (ptr + word_at f.mem ptr)
    then (f, false)
    else (settle_read f (ptr + word_at f.mem ptr), true)
