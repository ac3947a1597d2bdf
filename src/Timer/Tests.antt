-- ===== src/Timer/Tests.antt =====
-- The heap of timers at small inputs.
use zhangxy.Base.{
  ℕ, zero, suc, ◌+◌, ◌-◌, ◌/◌, ◌≤◌, ◌<◌, ◌≡◌, refl, ◌≢◌, ◌↔◌, ◌⊎◌, true, false, Option, none, some,
  [], ◌∷◌, arith, ◌==◌, if◌then◌else◌, get_or,
}
use zhangxy.Base.Int.{ℤ, pos, negsuc, pos_part}
use zhangxy.Time.{Time, zero_time, time_gte, time_lt, time_lte, time_add}
use zhangxy.Timer.{
  Node, Timers, node_at, value_of, remove_node, release_node, refill_slot, push_freelist, copy_node,
  reheap_up, reheap_down, up_loop, down_loop, smaller_child,
}
use zhangxy.Timer.Api.{removed, success, schedule, cancel, poll, poll_loop, fire, earliest_time}
use zhangxy.Timer.Valid.{IsValid, Holds}
use zhangxy.Timer.Remove.{remove_node-IsValid}
use zhangxy.Timer.Cancel.{cancel_held}
use zhangxy.Timer.Start.{schedule_lem}
use zhangxy.Timer.Poll.{poll-IsValid}

abbrev at_sec : ℕ → Time
at_sec n = record { sec = pos n; msec = pos 0 }

-- Entity 5 has the id 1 and is due at 3, entity 7 the id 2 at 4, the others are idle.
abbrev some_nodes : ℕ → Node
some_nodes p =
    if p == 5
    then record { usr_id = 0; handle = 1; timer_id = pos 1; value = at_sec 3; g_lock = 0 }
    else if p == 7
    then record { usr_id = 0; handle = 1; timer_id = pos 2; value = at_sec 4; g_lock = 0 }
    else if p == 9
    then record { usr_id = 0; handle = 1; timer_id = pos 5; value = at_sec 4; g_lock = 0 }
    else record { usr_id = 0; handle = 1; timer_id = negsuc 0; value = zero_time; g_lock = 0 }

abbrev two_timers : Timers
two_timers = record {
  size = 5;
  curr_size = 2;
  poll_max = 64;
  heap = 5 ∷ 7 ∷ 0 ∷ 0 ∷ 0 ∷ [];
  ids = negsuc 0 ∷ pos 0 ∷ pos 1 ∷ negsuc 3 ∷ negsuc 4 ∷ [];
  free_list = 3;
  nodes = some_nodes;
}

first_two {ℓ} : (P : ℕ → Type ℓ) → P 0 → P 1 → (i : ℕ) → i < 2 → P i
first_two P a b zero h = a
first_two P a b (suc zero) h = b
first_two P a b (suc (suc i)) h = absurd (omega arith)

two_timers-IsValid : IsValid two_timers
unfolding time_lt
two_timers-IsValid = record {
  placed = record {
    room = omega arith;
    heap_len = refl;
    ids_len = refl;
    is_id = λ i a b.
        first_two
          (λ i.
            (0 < pos_part (some_nodes (node_at two_timers i)).timer_id)
            × (pos_part (some_nodes (node_at two_timers i)).timer_id < 5))
          (omega arith, omega arith) (omega arith, omega arith) i a;
    slot_of = λ i a b.
        first_two
          (λ i.
            get_or two_timers.ids (pos_part (some_nodes (node_at two_timers i)).timer_id) (pos 0)
            ≡ pos i)
          refl refl i a;
  };
  ordered = λ c a b.
      first_two
        (λ c.
          0 < c
          → time_lt (value_of two_timers (node_at two_timers c))
              (value_of two_timers (node_at two_timers ((c - 1) / 2)))
            ≡ false)
        (λ h. absurd (omega arith)) (λ h. refl) c b a;
  free = record {
    fl = 3 ∷ 4 ∷ [];
    links = (refl, omega arith, omega arith, refl, (refl, omega arith, omega arith, refl, refl));
    nodup = (((λ e. absurd (omega arith)), record {}), (record {}, record {}));
    count = refl;
  };
  room = omega arith;
}

unfoldable ends_poll : Option (Timers × ℤ × Option Time) → ℕ
ends_poll none = 0
ends_poll (some r) = r.0.curr_size

fires_first : ends_poll (poll (λ h p. h) 9 two_timers (at_sec 3) false) ≡ 1
unfolding ends_poll poll poll_loop fire remove_node release_node refill_slot reheap_up reheap_down
    up_loop down_loop push_freelist copy_node smaller_child time_lt time_gte time_lte
fires_first = refl

earliest_is_3 : earliest_time two_timers ≡ some (at_sec 3)
unfolding earliest_time
earliest_is_3 = refl

remove_node-IsValid_example :
    (h' : Timers) × (remove_node two_timers 0 ≡ (h', 5))
    × IsValid h'
    × ((q : ℕ) → Holds h' q ↔ (Holds two_timers q × (q ≢ 5)))
    × ((h'.nodes 5).timer_id ≡ negsuc 0)
    × ((q : ℕ) → q ≢ 5 → h'.nodes q ≡ some_nodes q)
    × (h'.curr_size + 1 ≡ 2)
remove_node-IsValid_example = remove_node-IsValid two_timers 0 two_timers-IsValid (omega arith)

cancel_held_example :
    (h' : Timers) × (cancel two_timers 7 false ≡ removed h')
    × IsValid h'
    × ((q : ℕ) → Holds h' q ↔ (Holds two_timers q × (q ≢ 7)))
    × ((h'.nodes 7).timer_id ≡ negsuc 0)
    × ((q : ℕ) → q ≢ 7 → h'.nodes q ≡ some_nodes q)
cancel_held_example = cancel_held two_timers 7 false two_timers-IsValid (1, omega arith, refl)

schedule_lem_example :
    (h' : Timers) × (schedule two_timers 1 (at_sec 1) (at_sec 2) none 0 ≡ (h', success))
    × IsValid h'
    × ((q : ℕ) → Holds h' q ↔ (Holds two_timers q ⊎ (q ≡ 1)))
    × (value_of h' 1 ≡ time_add (at_sec 2) (at_sec 1))
    × ((q : ℕ) → q ≢ 1 → h'.nodes q ≡ some_nodes q)
schedule_lem_example =
    schedule_lem two_timers 1 (at_sec 1) (at_sec 2) none 0 two_timers-IsValid
      (λ e. absurd (omega arith)) refl

-- A callback that leaves the heap alone.
abbrev quiet : Timers → ℕ → Timers
quiet h p = h

poll-IsValid_example :
    (r : Timers × ℤ × Option Time) × (poll quiet 65 two_timers (at_sec 3) true ≡ some r)
    × IsValid r.0
    × (pos_part r.1 ≤ 64)
    × ((r.1 ≡ pos 64) ⊎ ((q : ℕ) → Holds r.0 q → time_lte (value_of r.0 q) (at_sec 3) ≡ false))
poll-IsValid_example =
    poll-IsValid quiet 65 two_timers (at_sec 3) true (λ h p v. (v, refl)) two_timers-IsValid
      (omega arith)
