-- ===== src/Timer/Frame.antt =====
-- Writes to the entities that leave the ids and times in the heap alone.
use zhangxy.Base.{ℕ, ◌<◌, ◌≡◌, refl, arith}
use zhangxy.Timer.{Node, Timers, parent, node_at}
use zhangxy.Timer.Valid.{IsValid, Holds}

abbrev pub relabel : Timers → (ℕ → Node) → Timers
relabel h nodes = record h { nodes = nodes }

-- A heap is valid as long as its entities keep their ids and times.
pub relabel-IsValid :
    (h : Timers) (nodes : ℕ → Node)
    → IsValid h
    → ((q : ℕ) → Holds h q → (nodes q).timer_id ≡ (h.nodes q).timer_id)
    → ((q : ℕ) → Holds h q → (nodes q).value ≡ (h.nodes q).value)
    → IsValid (relabel h nodes)
relabel-IsValid h nodes v ids times =
    let held =
      λ (i : ℕ) (a : i < h.curr_size). let there : Holds h (node_at h i) = (i, a, refl) in there in
    record {
      placed = record {
        room = v.placed.room;
        heap_len = v.placed.heap_len;
        ids_len = v.placed.ids_len;
        is_id = λ i a b. rw (ids (node_at h i) (held i a)) (v.placed.is_id i a b);
        slot_of = λ i a b. rw (ids (node_at h i) (held i a)) (v.placed.slot_of i a b);
      };
      ordered = λ c a b.
          rw
            (
              times (node_at h c) (held c b),
              times (node_at h (parent c)) (held (parent c) (omega arith)),
            )
            (v.ordered c a b);
      free = record {
        fl = v.free.fl;
        links = v.free.links;
        nodup = v.free.nodup;
        count = v.free.count;
      };
      room = v.room;
    }
