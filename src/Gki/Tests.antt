-- ===== src/Gki/Tests.antt =====
-- The pools at small inputs.
use zhangxy.Base.{
  ℕ, zero, suc, ◌+◌, ◌*◌, ◌<◌, ◌≤◌, ◌≡◌, ◌⊎◌, refl, ◌≢◌, inl, inr, false, List, [], ◌∷◌, arith,
  ◌==◌, if◌then◌else◌, le_cases, get_or,
}
use zhangxy.Cis.{bit_at}
use zhangxy.Gki.{Gki, Header, buffer_init, dealloc_free_queue}
use zhangxy.Gki.Chain.{Pool}
use zhangxy.Gki.Buffers.{
  getbuf, getpoolbuf, freebuf, is_damaged, get_buf_size, serves, take_from, take_first,
  poolfreecount, search,
}
use zhangxy.Gki.Give.{InUse, freebuf_lem}
use zhangxy.Gki.First.{AllReady, FirstFit, getbuf_lem, freebuf-getpoolbuf}
use zhangxy.Gki.Init.{AreApart, buffer_init_lem}
use zhangxy.Gki.Laid.{buffers}
use zhangxy.Gki.Dealloc.{UsedMemory, Cleared, Kept, dealloc_lem}

-- One pool of three buffers, at 100, 312 and 524, of which the first is in use.
abbrev some_hdrs : ℕ → Header
some_hdrs p =
    if p == 100
    then record { next = 0; q_id = 0; task_id = 1; status = 1; kind = 0 }
    else if p == 312
    then record { next = 524; q_id = 0; task_id = 240; status = 0; kind = 0 }
    else record { next = 0; q_id = 0; task_id = 240; status = 0; kind = 0 }

abbrev one_used : Gki
one_used = record {
  freeq =
      λ i. record { first = 312; last = 524; buf_size = 200; total = 3; cur_cnt = 1; max_cnt = 2 };
  pool_start = λ i. 100;
  pool_end = λ i. 736;
  pool_size = λ i. 212;
  access_mask = 64992;
  pool_list = 0 ∷ [];
  pools = 1;
  hdrs = some_hdrs;
  words = λ p. 3720011194;
}

one_used-Pool : Pool one_used 0 (312 ∷ 524 ∷ [])
one_used-Pool = record {
  chain = (refl, omega arith, refl, refl, (refl, omega arith, refl, refl, refl));
  last = refl;
  nodup = (((λ e. absurd (omega arith)), record {}), (record {}, record {}));
  count = refl;
  peak = omega arith;
}

whole_buffer : is_damaged one_used 108 ≡ false
unfolding is_damaged get_buf_size
whole_buffer = refl

one_used-InUse : InUse one_used 0 100
one_used-InUse = record {
  positive = omega arith;
  whole = whole_buffer;
  status = refl;
  owner = refl;
  known = omega arith;
  counted = omega arith;
}

takes_312 : (getbuf one_used 50 0).1 ≡ 320
unfolding getbuf search serves take_from take_first bit_at
takes_312 = refl

two_left : poolfreecount one_used 0 ≡ 2
unfolding poolfreecount
two_left = refl

freebuf_lem_example :
    let g' = freebuf one_used 108 in
    Pool g' 0 (312 ∷ 524 ∷ 100 ∷ [])
    × ((j : ℕ) (gs : List ℕ) → j ≢ 0 → Pool one_used j gs → Pool g' j gs)
    × (freebuf g' 108 ≡ g')
freebuf_lem_example = freebuf_lem one_used 0 100 (312 ∷ 524 ∷ []) one_used-InUse one_used-Pool

free_whole : is_damaged one_used 320 ≡ false
unfolding is_damaged get_buf_size
free_whole = refl

freebuf-getpoolbuf_example :
    let r = getpoolbuf one_used 0 0 in Pool (freebuf r.0 r.1) 0 (524 ∷ 312 ∷ [])
freebuf-getpoolbuf_example =
    freebuf-getpoolbuf one_used 0 312 (524 ∷ []) 0 (omega arith) one_used-Pool free_whole

only_pool : AllReady one_used
only_pool zero h = (312 ∷ 524 ∷ [], one_used-Pool)
only_pool (suc j) h = absurd (omega arith)

getbuf_lem_example : FirstFit one_used 50 0 (getbuf one_used 50 0)
getbuf_lem_example = getbuf_lem one_used 50 0 (omega arith) only_pool

abbrev far_apart : ℕ → ℕ
far_apart i = 10000 + 3000 * i

far_apart-AreApart : AreApart far_apart
far_apart-AreApart = (
  (λ i h. omega arith),
  (λ i j h k ne. elim (le_cases i j) [
    | inl low ↦ inl (omega arith)
    | inr high ↦ inr (omega arith)
  ]),
)

buffer_init_lem_example :
    ((id : ℕ) → id < 6 → Pool (buffer_init one_used far_apart) id (buffers 10 (far_apart id) 212))
    × ((id : ℕ) → id < 6 → get_or (buffer_init one_used far_apart).pool_list id 0 ≡ id)
buffer_init_lem_example = buffer_init_lem one_used far_apart far_apart-AreApart

dealloc_lem_example :
    let r = dealloc_free_queue one_used in
    UsedMemory one_used 0 1 r.1
    × ((id : ℕ) → id < 1 → 0 < (one_used.freeq id).max_cnt → Cleared one_used r.0 id)
    × ((id : ℕ) → ((one_used.freeq id).max_cnt ≡ 0) ⊎ (1 ≤ id) → Kept one_used r.0 id)
dealloc_lem_example = dealloc_lem one_used
