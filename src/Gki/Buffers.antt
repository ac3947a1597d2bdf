-- ===== src/Gki/Buffers.antt =====
-- gki/src/gki_buffer.c, what the pools offer: taking a buffer, giving it back, and questions.
use zhangxy.Base.{
  ℕ, zero, suc, ◌+◌, ◌-◌, ◌*◌, ◌/◌, ◌%◌, ◌^◌, Bool, not, ◌&&◌, ◌||◌, ltb, leb, ◌==◌, if◌then◌else◌,
  get_or,
}
use zhangxy.Cis.{bit_at, set_bit, clear_bit}
use zhangxy.Gki.{Gki, store, alloc_free_queue, free_status, unlinked, magic_no}

-- `GKI_get_buf_size`
unfoldable pub get_buf_size : Gki → ℕ → ℕ
get_buf_size g buf =
    let id = (g.hdrs (buf - 8)).q_id in if ltb id 6 then (g.freeq id).buf_size else 0

-- `gki_chk_buf_damage`
unfoldable pub is_damaged : Gki → ℕ → Bool
unfolding get_buf_size
is_damaged g buf =
    let magic = buf + get_buf_size g buf in magic % 2 == 1 || not (g.words magic == magic_no)

-- `GKI_find_buf_start`, from pool `i` on.
unfoldable pub find_from : ℕ → Gki → ℕ → ℕ → ℕ
find_from zero g area i = 0
find_from (suc n) g area i =
    let again = find_from n g area (i + 1) in
    if ltb (g.pool_start i) area && ltb area (g.pool_end i)
    then g.pool_start i + (area - g.pool_start i) / g.pool_size i * g.pool_size i + 8
    else again

unfoldable pub find_buf_start : Gki → ℕ → ℕ
unfolding find_from
find_buf_start g area = find_from 6 g area 0

-- `GKI_set_pool_permission`
unfoldable pub set_pool_permission : Gki → ℕ → ℕ → Gki × ℕ
set_pool_permission g id permission =
    if ltb id 6
    then (
      record g {
        access_mask =
            if permission == 1 then set_bit g.access_mask id else clear_bit g.access_mask id;
      },
      0,
    )
    else (g, 255)

-- The first buffer of a pool leaves its free queue. A count below `total` does not wrap.
unfoldable pub take_first : Gki → ℕ → Gki × ℕ
take_first g id =
    let queue = g.freeq id in
    let hdr = queue.first in
    let next = (g.hdrs hdr).next in
    let cnt = queue.cur_cnt + 1 in
    (
      record g {
        freeq = store g.freeq id (record queue {
          first = next;
          last = if next == 0 then 0 else queue.last;
          cur_cnt = cnt;
          max_cnt = if ltb queue.max_cnt cnt then cnt else queue.max_cnt;
        });
        hdrs =
            store g.hdrs hdr
              (record (g.hdrs hdr) { task_id = 1; status = unlinked; next = 0; kind = 0 });
      },
      hdr + 8,
    )

-- The same, where the memory of the pool may have to be allocated, which `place` is passed to.
unfoldable pub take_from : Gki → ℕ → ℕ → ℕ → Gki × ℕ
unfolding take_first
take_from g id place mem =
    if (g.freeq id).first == 0
    then (let (g1, ok) = alloc_free_queue g place mem in if ok then take_first g1 id else (g1, 0))
    else take_first g id

abbrev pub has_free : Gki → ℕ → Bool
has_free g id = ltb (g.freeq id).cur_cnt (g.freeq id).total

-- The pool that the loop of `GKI_getbuf_raw` takes a buffer from.
unfoldable pub serves : Gki → ℕ → ℕ → Bool
serves g size id = leb size (g.freeq id).buf_size && not (bit_at g.access_mask id) && has_free g id

unfoldable pub search : ℕ → Gki → ℕ → ℕ → ℕ → Gki × ℕ
unfolding serves take_from
search zero g size i mem = (g, 0)
search (suc n) g size i mem =
    let id = get_or g.pool_list i 0 in
    let again = search n g size (i + 1) mem in
    if serves g size id then take_from g id i mem else again

-- `GKI_getbuf_raw`; `mem` is what an allocation returns, of which there is one at most.
unfoldable pub getbuf : Gki → ℕ → ℕ → Gki × ℕ
unfolding search
getbuf g size mem = if size == 0 then (g, 0) else search g.pools g size 0 mem

-- `GKI_getpoolbuf_raw`
unfoldable pub getpoolbuf : Gki → ℕ → ℕ → Gki × ℕ
unfolding getbuf take_from
getpoolbuf g id mem =
    if leb 6 id
    then (g, 0)
    else if has_free g id
    then take_from g id id mem
    else getbuf g (g.freeq id).buf_size mem

-- The end of `GKI_freebuf_raw`.
unfoldable pub give_back : Gki → ℕ → Gki
give_back g hdr =
    let id = (g.hdrs hdr).q_id in
    let queue = g.freeq id in
    let linked =
      if queue.last == 0
      then g.hdrs
      else store g.hdrs queue.last (record (g.hdrs queue.last) { next = hdr }) in
    record g {
      hdrs =
          store linked hdr (record (linked hdr) { next = 0; status = free_status; task_id = 240 });
      freeq = store g.freeq id (record queue {
        first = if queue.last == 0 then hdr else queue.first;
        last = hdr;
        cur_cnt = queue.cur_cnt - 1;
      });
    }

-- `GKI_freebuf_raw`
unfoldable pub freebuf : Gki → ℕ → Gki
unfolding is_damaged give_back
freebuf g buf =
    if buf == 0 || is_damaged g buf
    then g
    else if not ((g.hdrs (buf - 8)).status == unlinked)
    then g
    else if leb 6 (g.hdrs (buf - 8)).q_id
    then g
    else give_back g (buf - 8)

-- `GKI_poolcount` and `GKI_poolfreecount`
pub poolcount : Gki → ℕ → ℕ
poolcount g id = if leb 6 id then 0 else (g.freeq id).total

unfoldable pub poolfreecount : Gki → ℕ → ℕ
poolfreecount g id =
    if leb 6 id then 0 else ((g.freeq id).total + 2 ^ 16 - (g.freeq id).cur_cnt) % 2 ^ 16
