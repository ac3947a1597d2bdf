-- ===== src/Timer/Api.antt =====
-- oslib/src/timer.c, what the heap of timers offers: scheduling, cancelling and polling. The clock is
-- an argument, `now`; locks are left out. No pointer is NULL but where a handle is tested. The loop
-- of a poll reads `poll_max` in each round, and is on fuel, since a callback may set it.
use zhangxy.Base.{
  ℕ, zero, suc, ◌+◌, Bool, true, false, not, ◌&&◌, ◌||◌, Option, none, some, ltb, leb, ◌==◌,
  if◌then◌else◌, get_elem?,
}
use zhangxy.Base.Int.{ℤ, pos, negsuc, pos_part, ltz}
use zhangxy.Time.{Time, zero_time, time_lte, time_add, time_sub}
use zhangxy.Timer.{Timers, write, node_at, value_of, id_of, remove_node, schedule_entry}

pub data Status : Type 0 where
  success : Status
  failed : Status
  inval : Status
  invalid_op : Status

-- `TIMER_EntityInit`
pub init_node : Timers → ℕ → ℕ → ℕ → Timers
init_node h p id handle = record h {
  nodes =
      write h.nodes p
        (record (h.nodes p) { timer_id = negsuc 0; usr_id = id; handle = handle; g_lock = 0 });
}

-- `TIMER_IsEntityRunning`
abbrev pub is_running : Timers → ℕ → Bool
is_running h p = leb 1 (pos_part (h.nodes p).timer_id)

-- `if (_u8SetId) _pNode->m_u32UsrId = _u32Id`
abbrev pub chosen_id : Option ℕ → ℕ → ℕ
chosen_id none old = old
chosen_id (some id) old = id

-- `schedule_w_grp_lock`, for both of its callers: `set_id` is the id to set, if any.
unfoldable pub schedule : Timers → ℕ → Time → Time → Option ℕ → ℕ → Timers × Status
schedule h p delay now set_id g_lock =
    if (h.nodes p).handle == 0
    then (h, Status.inval)
    else if is_running h p
    then (h, Status.invalid_op)
    else let (h1, scheduled) = schedule_entry h p (time_add now delay) in
      if scheduled
      then (
        record h1 {
          nodes = write h1.nodes p (record (h1.nodes p) {
            usr_id = chosen_id set_id (h1.nodes p).usr_id;
            g_lock = g_lock;
          });
        },
        Status.success,
      )
      else (h1, Status.failed)

-- What `cancel` does: it ends with the count 1 or 0, is stopped by its assertion, or reads behind the
-- end of `ids`.
pub data Outcome : Type 0 where
  removed : Timers → Outcome
  inactive : Timers → Outcome
  asserted : Outcome
  out_of_bounds : Outcome

abbrev pub clear_id : Timers → ℕ → Timers
clear_id h p = record h { nodes = write h.nodes p (record (h.nodes p) { timer_id = negsuc 0 }) }

-- `cancel` with F_DONT_CALL, which all its callers set.
unfoldable pub cancel : Timers → ℕ → Bool → Outcome
cancel h p dont_assert =
    if ltz (h.nodes p).timer_id (pos 0) || ltb h.size (id_of h p)
    then inactive (clear_id h p)
    else elim (get_elem? h.ids (id_of h p)) [
      | none ↦ out_of_bounds
      | some slot ↦
          if ltz slot (pos 0)
          then inactive (clear_id h p)
          else if not (p == node_at h (pos_part slot))
          then (if dont_assert then inactive (clear_id h p) else asserted)
          else removed (remove_node h (pos_part slot)).0
    ]

abbrev pub map_outcome : (Timers → Timers) → Outcome → Outcome
map_outcome f (removed h) = removed (f h)
map_outcome f (inactive h) = inactive (f h)
map_outcome f asserted = asserted
map_outcome f out_of_bounds = out_of_bounds

-- `TIMER_EntityCancel`
pub entity_cancel : Timers → ℕ → Outcome
entity_cancel h p = cancel h p false

-- `TIMER_EntityCancelIfActive`
pub cancel_if_active : Timers → ℕ → ℕ → Outcome
cancel_if_active h p id =
    map_outcome (λ h'. record h' { nodes = write h'.nodes p (record (h'.nodes p) { usr_id = id }) })
      (cancel h p true)

-- `TIMER_HeapSetPollMax`
pub set_poll_max : Timers → ℕ → Timers × ℕ
set_poll_max h count = (record h { poll_max = count }, h.poll_max)

-- The entity at the root is due.
abbrev pub is_due : Timers → Time → Bool
is_due h now = ltb 0 h.curr_size && time_lte (value_of h (node_at h 0)) now

-- The callbacks are what they do to the heap: `call h p` is the state after the handle of `p` ran.
module _ (call : Timers → ℕ → Timers) where
  -- One round of the loop of `TIMER_HeapPoll`.
  unfoldable pub fire : Timers → Timers
  fire h =
      let (h1, p) = remove_node h 0 in
      let h2 = record h1 { nodes = write h1.nodes p (record (h1.nodes p) { g_lock = 0 }) } in
      if (h2.nodes p).handle == 0 then h2 else call h2 p

  -- The loop; `none` when the fuel runs out.
  unfoldable pub poll_loop : ℕ → Timers → Time → ℕ → Option (Timers × ℕ)
  unfolding fire
  poll_loop zero h now count = none
  poll_loop (suc fuel) h now count =
      let again = poll_loop fuel (fire h) now (count + 1) in
      if is_due h now && ltb count h.poll_max then again else some (h, count)

  unfoldable pub delay_left : Timers → Time → Time
  delay_left h now =
      if ltb 0 h.curr_size
      then (let left = time_sub (value_of h (node_at h 0)) now in
          if ltz left.sec (pos 0) || ltz left.msec (pos 0) then zero_time else left)
      else record { sec = pos 2147483647; msec = pos 2147483647 }

  -- The new heap, the result, and `*next_delay` if it is wanted; the outer option is the fuel.
  unfoldable pub poll : ℕ → Timers → Time → Bool → Option (Timers × ℤ × Option Time)
  unfolding poll_loop
  poll fuel h now wants_delay =
      if h.curr_size == 0 && wants_delay
      then some (h, negsuc 0, some (delay_left h now))
      else elim (poll_loop fuel h now 0) [
        | none ↦ none
        | some (h', count) ↦
            some (h', pos count, if wants_delay then some (delay_left h' now) else none)
      ]

-- `TIMER_HeapEarliestTime`; `none` is EO_NOTFOUND.
unfoldable pub earliest_time : Timers → Option Time
earliest_time h = if h.curr_size == 0 then none else some (value_of h (node_at h 0))
