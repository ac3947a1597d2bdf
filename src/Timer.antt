-- ===== src/Timer.antt =====
-- oslib/src/timer.c, the heap of timers. The entities are the caller's: a pointer to one is a number,
-- and `nodes` is the memory they live in. A cell of `ids` is the slot of a timer in use, or the
-- negated number of the next free id. An allocation succeeds, and its cells start as 0. Loops are on
-- fuel that their callers set to more than the rounds they make.
pub mod Api
pub mod Keys
pub mod Holes
pub mod Sift
pub mod Free
pub mod Valid
pub mod Insert
pub mod Schedule
pub mod Release
pub mod Refill
pub mod Remove
pub mod Root
pub mod Frame
pub mod Cancel
pub mod Start
pub mod Fire
pub mod Poll
mod Tests
use zhangxy.Base.{
  ℕ, zero, suc, ◌+◌, ◌-◌, ◌*◌, ◌/◌, ◌%◌, ◌^◌, ◌≤◌, ◌<◌, min, ◌≡◌, refl, sym, ap, ap₂, ◌∙◌, ◌≢◌, ◌↔◌,
  ◌⊎◌, inl, inr, Bool, true, false, not, ◌&&◌, ◌||◌, Option, none, some, List, [], ◌∷◌, ◌++◌, map,
  append-nil, append_assoc, arith, ltb, leb, ◌==◌, bool_eq, if◌then◌else◌, ltb→lt, lt→ltb, le→ltb,
  leb→le, ==_iff, Bool-cases, Option-cases, le_cases, u32_add, u32_sub, length, get_elem?, get_or,
  set, take, drop, replicate, length-append, length-take, length-drop, length-set, length-replicate,
  take-nil, drop-nil, take_all, drop_all, take-append-drop, take-append_le, take-append_ge,
  drop-append_le, take-append_self, drop-append_self, drop-append_ge, drop-take, take-take,
  drop-drop, overwrite, length-overwrite, get_or-set_self, get_or-set_ne, set-get_or, set-set,
}
use zhangxy.Base.Int.{ℤ, pos, negsuc, pos_part, neg_part, sub_ℕ}
use zhangxy.Time.{Time, time_lt, time_gte}

-- `T_TimerEntity`; `handle` and `g_lock` are 0 for NULL.
pub record Node : Type 0 where
  pub usr_id : ℕ
  pub handle : ℕ
  pub timer_id : ℤ
  pub value : Time
  pub g_lock : ℕ

-- `T_TimerHeap`
pub record Timers : Type 0 where
  pub size : ℕ
  pub curr_size : ℕ
  pub poll_max : ℕ
  pub heap : List ℕ
  pub ids : List ℤ
  pub free_list : ℕ
  pub nodes : ℕ → Node

-- A store through a pointer.
abbrev pub write : (ℕ → Node) → ℕ → Node → ℕ → Node
write nodes p v q = if q == p then v else nodes q

-- `HEAP_PARENT` and `HEAP_LEFT`
abbrev pub parent : ℕ → ℕ
parent x = (x - 1) / 2

abbrev pub left : ℕ → ℕ
left x = x + x + 1

abbrev pub node_at : Timers → ℕ → ℕ
node_at h i = get_or h.heap i 0

abbrev pub value_of : Timers → ℕ → Time
value_of h p = (h.nodes p).value

-- An id as an index of `ids`.
abbrev pub id_of : Timers → ℕ → ℕ
id_of h p = pos_part (h.nodes p).timer_id

unfoldable pub copy_node : Timers → ℕ → ℕ → Timers
copy_node h slot moved = record h {
  heap = set h.heap slot moved;
  ids = set h.ids (id_of h moved) (pos slot);
}

unfoldable pub pop_freelist : Timers → Timers × ℕ
pop_freelist h = (record h { free_list = neg_part (get_or h.ids h.free_list (pos 0)) }, h.free_list)

unfoldable pub push_freelist : Timers → ℕ → Timers
push_freelist h old_id = record h {
  ids = set h.ids old_id (sub_ℕ 0 h.free_list);
  free_list = old_id;
}

-- The child that `reheap_down` looks at.
unfoldable pub smaller_child : Timers → ℕ → ℕ
smaller_child h child =
    if ltb (child + 1) h.curr_size
      && time_lt (value_of h (node_at h (child + 1))) (value_of h (node_at h child))
    then child + 1
    else child

unfoldable pub down_loop : ℕ → Timers → ℕ → ℕ → ℕ → Timers
unfolding copy_node smaller_child
down_loop zero h moved slot child = copy_node h slot moved
down_loop (suc fuel) h moved slot child =
    let c = smaller_child h child in
    let again = down_loop fuel (copy_node h slot (node_at h c)) moved c (left c) in
    if ltb child h.curr_size && time_lt (value_of h (node_at h c)) (value_of h moved)
    then again
    else copy_node h slot moved

unfoldable pub reheap_down : Timers → ℕ → ℕ → ℕ → Timers
unfolding down_loop
reheap_down h moved slot child = down_loop (h.curr_size + 1) h moved slot child

unfoldable pub up_loop : ℕ → Timers → ℕ → ℕ → ℕ → Timers
unfolding copy_node
up_loop zero h moved slot above = copy_node h slot moved
up_loop (suc fuel) h moved slot above =
    let again = up_loop fuel (copy_node h slot (node_at h above)) moved above (parent above) in
    if ltb 0 slot && time_lt (value_of h moved) (value_of h (node_at h above))
    then again
    else copy_node h slot moved

unfoldable pub reheap_up : Timers → ℕ → ℕ → ℕ → Timers
unfolding up_loop
reheap_up h moved slot above = up_loop (slot + 1) h moved slot above

-- What `remove_node` does before it fills the slot.
unfoldable pub release_node : Timers → ℕ → Timers
unfolding push_freelist
release_node h p =
    let h1 = push_freelist h (id_of h p) in
    record h1 {
      curr_size = h.curr_size - 1;
      nodes = write h.nodes p (record (h.nodes p) { timer_id = negsuc 0 });
    }

-- The last entity moves to the slot that became free.
unfoldable pub refill_slot : Timers → ℕ → Timers
unfolding copy_node reheap_down reheap_up
refill_slot h slot =
    let moved = node_at h h.curr_size in
    let h1 = copy_node h slot moved in
    if time_gte (value_of h1 moved) (value_of h1 (node_at h1 (parent slot)))
    then reheap_down h1 moved slot (left slot)
    else reheap_up h1 moved slot (parent slot)

unfoldable pub remove_node : Timers → ℕ → Timers × ℕ
unfolding release_node refill_slot
remove_node h slot =
    let p = node_at h slot in
    let h1 = release_node h p in (if ltb slot h1.curr_size then refill_slot h1 slot else h1, p)

-- The links of the ids from `i` on, `n` of them, each to the next.
unfoldable pub fresh_ids : ℕ → ℕ → List ℤ
fresh_ids i zero = []
fresh_ids i (suc n) = sub_ℕ 0 (i + 1) ∷ fresh_ids (i + 1) n

unfoldable pub grow_heap : Timers → Timers
unfolding fresh_ids
grow_heap h = record h {
  size = h.size * 2;
  heap = h.heap ++ replicate h.size 0;
  ids = h.ids ++ fresh_ids h.size h.size;
}

unfoldable pub insert_node : Timers → ℕ → Timers
unfolding grow_heap reheap_up
insert_node h p =
    let h1 = if leb h.size (h.curr_size + 2) then grow_heap h else h in
    let h2 = reheap_up h1 p h1.curr_size (parent h1.curr_size) in
    record h2 { curr_size = h2.curr_size + 1 }

-- The id and the time that `schedule_entry` gives the entity.
unfoldable pub take_id : Timers → ℕ → Time → Timers
unfolding pop_freelist
take_id h p time =
    let (h1, new_id) = pop_freelist h in
    record h1 {
      nodes = write h.nodes p (record (h.nodes p) { timer_id = pos new_id; value = time });
    }

-- `true` is success, `false` the result -1.
unfoldable pub schedule_entry : Timers → ℕ → Time → Timers × Bool
unfolding take_id insert_node
schedule_entry h p time =
    if ltb h.curr_size h.size then (insert_node (take_id h p time) p, true) else (h, false)

-- `TIMER_HeapCreate`
pub create : (ℕ → Node) → ℕ → Timers
create nodes count = record {
  size = count + 2;
  curr_size = 0;
  poll_max = 64;
  heap = replicate (count + 2) 0;
  ids = fresh_ids 0 (count + 2);
  free_list = 1;
  nodes = nodes;
}
