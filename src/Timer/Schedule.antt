-- ===== src/Timer/Schedule.antt =====
-- `schedule_entry` puts an entity into the heap.
use zhangxy.Base.{ℕ, ◌≡◌, refl, ap, ◌∙◌, ◌≢◌, ◌↔◌, ◌⊎◌, true, arith, ltb}
use zhangxy.Time.{Time}
use zhangxy.Timer.{Node, Timers, value_of, take_id, insert_node, schedule_entry}
use zhangxy.Timer.Valid.{IsValid, Holds}
use zhangxy.Timer.Insert.{take_id-Ready, take_id_room, insert_node-Inserted}

take_id_value : (h : Timers) (p : ℕ) (time : Time) → value_of (take_id h p time) p ≡ time
unfolding take_id
take_id_value h p time = ground arith

take_id_other :
    (h : Timers) (p : ℕ) (time : Time) (q : ℕ) → q ≢ p → (take_id h p time).nodes q ≡ h.nodes q
unfolding take_id
take_id_other h p time q ne = ground arith

take_id-Holds :
    (h : Timers) (p : ℕ) (time : Time) (q : ℕ) (h' : Timers)
    → (Holds (take_id h p time) q ⊎ (q ≡ p) → Holds h' q)
    → Holds h q ⊎ (q ≡ p)
    → Holds h' q
unfolding take_id
take_id-Holds h p time q h' f = f

take_id-Holds_back :
    (h : Timers) (p : ℕ) (time : Time) (q : ℕ) (h' : Timers)
    → (Holds h' q → Holds (take_id h p time) q ⊎ (q ≡ p))
    → Holds h' q
    → Holds h q ⊎ (q ≡ p)
unfolding take_id
take_id-Holds_back h p time q h' f = f

-- `schedule_entry` of an entity that is not in a valid heap succeeds, also when the arrays are full,
-- and leaves a valid heap: it holds the same entities and the new one, which has its time, and no
-- other entity is written.
pub schedule_entry-IsValid :
    (h : Timers) (p : ℕ) (time : Time)
    → IsValid h
    → (Holds h p → ⊥)
    → (h' : Timers) × (schedule_entry h p time ≡ (h', true))
      × IsValid h'
      × ((q : ℕ) → Holds h' q ↔ (Holds h q ⊎ (q ≡ p)))
      × (value_of h' p ≡ time)
      × ((q : ℕ) → q ≢ p → h'.nodes q ≡ h.nodes q)
unfolding schedule_entry
schedule_entry-IsValid h p time v out =
    let test : ltb h.curr_size h.size ≡ true = ground (arith, v.room) in
    let h1 = take_id h p time in
    let s =
      insert_node-Inserted h1 p (take_id-Ready h p time v out) (take_id_room h p time v.room) in
    (
      insert_node h1 p,
      rw test refl,
      s.valid,
      λ q. (
        take_id-Holds_back h p time q (insert_node h1 p) (s.back q),
        take_id-Holds h p time q (insert_node h1 p) (s.into q),
      ),
      ap (λ (f : ℕ → Node). (f p).value) s.nodes ∙ take_id_value h p time,
      λ q ne. ap (λ (f : ℕ → Node). f q) s.nodes ∙ take_id_other h p time q ne,
    )
