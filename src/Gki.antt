-- ===== src/Gki.antt =====
-- gki/src/gki_buffer.c and gki_buffer.h, pools of buffers. A buffer starts with a header, of 8 bytes on
-- the 32-bit targets, and ends with a word that shows whether it was written past its end. A pointer
-- is an address, 0 for NULL; `hdrs` is the memory as headers and `words` as words: no header and no
-- such word share bytes. `GKI_disable` and `GKI_enable` are empty macros, and output is left out.
pub mod Buffers
pub mod Chain
pub mod Give
pub mod Take
pub mod First
pub mod Find
pub mod Laid
pub mod Init
pub mod Dealloc
mod Tests
use zhangxy.Base.{
  ℕ, zero, suc, ◌+◌, ◌-◌, ◌*◌, ◌/◌, ◌%◌, ◌^◌, ◌≤◌, ◌<◌, min, ◌≡◌, refl, sym, ap, ap₂, ◌∙◌, ◌≢◌, ◌↔◌,
  ◌⊎◌, inl, inr, Bool, true, false, not, ◌&&◌, ◌||◌, Option, none, some, List, [], ◌∷◌, ◌++◌, map,
  append-nil, append_assoc, arith, ltb, leb, ◌==◌, bool_eq, if◌then◌else◌, ltb→lt, lt→ltb, le→ltb,
  leb→le, ==_iff, Bool-cases, Option-cases, le_cases, u32_add, u32_sub, length, get_elem?, get_or,
  set, take, drop, replicate, length-append, length-take, length-drop, length-set, length-replicate,
  take-nil, drop-nil, take_all, drop_all, take-append-drop, take-append_le, take-append_ge,
  drop-append_le, take-append_self, drop-append_self, drop-append_ge, drop-take, take-take,
  drop-drop, overwrite, length-overwrite, get_or-set_self, get_or-set_ne, set-get_or, set-set,
}

-- `BUFFER_HDR_T`
pub record Header : Type 0 where
  pub next : ℕ
  pub q_id : ℕ
  pub task_id : ℕ
  pub status : ℕ
  pub kind : ℕ

-- `FREE_QUEUE_T`
pub record FreeQueue : Type 0 where
  pub first : ℕ
  pub last : ℕ
  pub buf_size : ℕ
  pub total : ℕ
  pub cur_cnt : ℕ
  pub max_cnt : ℕ

-- `tGKI_COM_CB`, without the members that nothing reads.
pub record Gki : Type 0 where
  pub freeq : ℕ → FreeQueue
  pub pool_start : ℕ → ℕ
  pub pool_end : ℕ → ℕ
  pub pool_size : ℕ → ℕ
  pub access_mask : ℕ
  pub pool_list : List ℕ
  pub pools : ℕ
  pub hdrs : ℕ → Header
  pub words : ℕ → ℕ

-- A store into an array or through a pointer.
abbrev pub store {ℓ} : {A : Type ℓ} → (ℕ → A) → ℕ → A → ℕ → A
store f i v j = if j == i then v else f j

-- `ALIGN_POOL`
abbrev pub align_pool : ℕ → ℕ
align_pool size = (size + 3) / 4 * 4

abbrev pub free_status : ℕ
free_status = 0

abbrev pub unlinked : ℕ
unlinked = 1

abbrev pub magic_no : ℕ
magic_no = 3720011194

-- The loop of `gki_init_free_queue`, with the header that it ends at.
unfoldable pub init_headers : ℕ → Gki → ℕ → ℕ → ℕ → ℕ → Gki × ℕ
init_headers zero g id size hdr before = (g, before)
init_headers (suc n) g id size hdr before =
    let act = (size + 12) % 2 ^ 16 in
    init_headers n
      (record g {
        hdrs = store g.hdrs hdr (record (g.hdrs hdr) {
          task_id = 240;
          q_id = id;
          status = free_status;
          next = hdr + act;
        });
        words = store g.words (hdr + 8 + size) magic_no;
      })
      id size (hdr + act) hdr

-- `gki_init_free_queue`
unfoldable pub init_free_queue : Gki → ℕ → ℕ → ℕ → ℕ → Gki
unfolding init_headers
init_free_queue g id size total mem =
    let temp = align_pool size in
    let act = (temp + 12) % 2 ^ 16 in
    let queue = record (g.freeq id) {
      buf_size = temp % 2 ^ 16;
      total = total;
      cur_cnt = 0;
      max_cnt = 0;
    } in
    let g1 = record g { pool_size = store g.pool_size id act; freeq = store g.freeq id queue } in
    if mem == 0
    then g1
    else let (g2, before) =
        init_headers total
          (record g1 {
            pool_start = store g.pool_start id mem;
            pool_end = store g.pool_end id (mem + act * total);
          })
          id temp mem 0 in
      record g2 {
        hdrs = store g2.hdrs before (record (g2.hdrs before) { next = 0 });
        freeq = store g2.freeq id (record queue { first = mem; last = before });
      }

-- `gki_alloc_free_queue` of a place in the list; `mem` is what the allocation returns.
unfoldable pub alloc_free_queue : Gki → ℕ → ℕ → Gki × Bool
alloc_free_queue g i mem =
    let queue = g.freeq (get_or g.pool_list i 0) in
    if queue.first == 0 && not (mem == 0)
    then (init_free_queue g i queue.buf_size queue.total mem, true)
    else (g, false)

-- `gki_dealloc_free_queue` for `n` pools from `i` on, with the memory that it frees.
unfoldable pub dealloc_from : Gki → ℕ → ℕ → Gki × List ℕ
dealloc_from g i zero = (g, [])
dealloc_from g i (suc n) =
    let queue = g.freeq i in
    let used = ltb 0 queue.max_cnt in
    let g1 =
      if used
      then record g {
        freeq = store g.freeq i (record queue { cur_cnt = 0; max_cnt = 0; first = 0; last = 0 });
        pool_start = store g.pool_start i 0;
        pool_end = store g.pool_end i 0;
        pool_size = store g.pool_size i 0;
      }
      else g in
    let (g2, freed) = dealloc_from g1 (i + 1) n in
    (g2, if used then g.pool_start i ∷ freed else freed)

unfoldable pub dealloc_free_queue : Gki → Gki × List ℕ
unfolding dealloc_from
dealloc_free_queue g = dealloc_from g 0 g.pools

-- The first loop of `gki_buffer_init`, and the mask.
unfoldable pub clear_pools : Gki → Gki
clear_pools g = record g {
  freeq = λ i. record { first = 0; last = 0; buf_size = 0; total = 0; cur_cnt = 0; max_cnt = 0 };
  pool_start = λ i. 0;
  pool_end = λ i. 0;
  pool_size = λ i. 0;
  access_mask = 64992;
}

-- `gki_buffer_init`: `mem` are the addresses that the allocations of the six pools return.
unfoldable pub buffer_init : Gki → (ℕ → ℕ) → Gki
unfolding init_free_queue clear_pools
buffer_init g mem =
    let pool = λ (g : Gki) (id : ℕ). init_free_queue g id 200 10 (mem id) in
    record (pool (pool (pool (pool (pool (pool (clear_pools g) 0) 1) 2) 3) 4) 5) {
      pool_list = 0 ∷ 1 ∷ 2 ∷ 3 ∷ 4 ∷ 5 ∷ [];
      pools = 6;
    }
