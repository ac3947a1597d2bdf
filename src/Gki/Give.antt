-- ===== src/Gki/Give.antt =====
-- Giving a buffer back.
use zhangxy.Base.{
  ℕ, ◌+◌, ◌-◌, ◌<◌, ◌≡◌, refl, sym, ap, ◌∙◌, ◌≢◌, ◌⊎◌, inl, inr, true, false, ◌||◌, List, [], ◌∷◌,
  ◌++◌, arith, leb, ◌==◌, if◌then◌else◌, Bool-cases, length, length-append,
}
use mathlib.Core.Path.{subst}
use zhangxy.Gki.{Gki, Header, store, unlinked}
use zhangxy.Gki.Chain.{
  Chain, last_of, Chain-same, Chain-append, NotIn-last_of, last_of-append, Nodup-snoc, other-NotIn,
  Pool,
}
use zhangxy.Gki.Buffers.{give_back, freebuf, is_damaged}

-- The buffer at `a` is in use: it belongs to pool `id`, and what the code tests holds.
pub record InUse (g : Gki) (id a : ℕ) : Type 0 where
  pub positive : 0 < a
  pub whole : is_damaged g (a + 8) ≡ false
  pub status : (g.hdrs a).status ≡ unlinked
  pub owner : (g.hdrs a).q_id ≡ id
  pub known : id < 6
  pub counted : 0 < (g.freeq id).cur_cnt

abbrev freed_header : Header → Header
freed_header h = record h { next = 0; status = 0; task_id = 240 }

length-snoc : (fs : List ℕ) (a : ℕ) → length (fs ++ a ∷ []) ≡ length fs + 1
length-snoc fs a = length-append fs (a ∷ [])

give_back-empty :
    (g : Gki) (id a : ℕ) → InUse g id a → Pool g id [] → Pool (give_back g a) id (a ∷ [])
unfolding give_back
give_back-empty g id a u p =
    let self : (id == id) ≡ true = ground arith in
    let here : (a == a) ≡ true = ground arith in
    let none_left : ((g.freeq id).last == 0) ≡ true = ground (arith, p.last) in
    record {
      chain = rw (u.owner, self, none_left, here) (refl, u.positive, u.owner, refl, refl);
      last = rw (u.owner, self) refl;
      nodup = (record {}, record {});
      count = rw (u.owner, self) (omega (arith, p.count, u.counted));
      peak = rw (u.owner, self) (omega (arith, p.peak));
    }

last_positive :
    (hdrs : ℕ → Header) (id a f : ℕ) (fs : List ℕ) → Chain hdrs id a (f ∷ fs) → 0 < last_of (f ∷ fs)
last_positive hdrs id a f [] c = c.1
last_positive hdrs id a f (g ∷ fs) c = last_positive hdrs id _ g fs c.4

give_back-append :
    (g : Gki) (id a f : ℕ) (fs : List ℕ)
    → InUse g id a
    → Pool g id (f ∷ fs)
    → Pool (give_back g a) id (f ∷ fs ++ a ∷ [])
unfolding give_back
give_back-append g id a f fs u p =
    let self : (id == id) ≡ true = ground arith in
    let here : (a == a) ≡ true = ground arith in
    let l = last_of (f ∷ fs) in
    let out =
      other-NotIn g.hdrs id (g.freeq id).first a (f ∷ fs)
        (inr (λ s. absurd (omega (arith, u.status)))) p.chain in
    let apart : a ≢ l = NotIn-last_of a f fs out in
    let some_left : ((g.freeq id).last == 0) ≡ false =
      rw p.last (ground (arith, last_positive g.hdrs id (g.freeq id).first f fs p.chain)) in
    let off_l : (a == l) ≡ false = ground (arith, apart) in
    let off_a : (l == a) ≡ false = ground (arith, apart) in
    let self_l : (l == l) ≡ true = ground arith in
    let g' = give_back g a in
    let first : (g'.freeq id).first ≡ (g.freeq id).first = rw (u.owner, self, some_left) refl in
    let chain' =
      Chain-append g.hdrs g'.hdrs id (g.freeq id).first a f fs
        (λ q n m.
          let test : (q == a) ≡ false = ground (arith, n) in
          let test' : (q == l) ≡ false = ground (arith, m) in
          rw (u.owner, test, some_left, p.last, test') refl)
        (rw (off_a, u.owner, some_left, p.last, self_l) refl)
        (
          u.positive,
          rw (here, u.owner, some_left, p.last, off_l) u.owner,
          rw here refl,
          rw here refl,
        )
        p.nodup out p.chain in
    record {
      chain = subst (λ x. Chain g'.hdrs id x (f ∷ fs ++ a ∷ [])) (sym first) chain';
      last = rw (u.owner, self) (sym (last_of-append f a fs));
      nodup = Nodup-snoc a (f ∷ fs) p.nodup out;
      count = rw (u.owner, self) (omega (arith, p.count, u.counted, length-snoc fs a));
      peak = rw (u.owner, self) (omega (arith, p.peak));
    }

give_back-Pool :
    (g : Gki) (id a : ℕ) (fs : List ℕ)
    → InUse g id a
    → Pool g id fs
    → Pool (give_back g a) id (fs ++ a ∷ [])
give_back-Pool g id a [] u p = give_back-empty g id a u p
give_back-Pool g id a (f ∷ fs) u p = give_back-append g id a f fs u p

last_owner :
    (hdrs : ℕ → Header) (id a f : ℕ) (fs : List ℕ)
    → Chain hdrs id a (f ∷ fs)
    → (hdrs (last_of (f ∷ fs))).q_id ≡ id
last_owner hdrs id a f [] c = c.2
last_owner hdrs id a f (g ∷ fs) c = last_owner hdrs id _ g fs c.4

list_cases {ℓ} : {A : Type ℓ} (xs : List A) → (xs ≡ []) ⊎ ((x : A) × (ys : List A) × (xs ≡ x ∷ ys))
list_cases [] = inl refl
list_cases (x ∷ xs) = inr (x, xs, refl)

-- The chain of another pool, from which neither the last header nor the new one is.
give_back-others :
    (g : Gki) (id a : ℕ) (fs : List ℕ) (j : ℕ) (gs : List ℕ)
    → InUse g id a
    → Pool g id fs
    → j ≢ id
    → Pool g j gs
    → Pool (give_back g a) j gs
unfolding give_back
give_back-others g id a fs j gs u p ne r =
    let test : (j == id) ≡ false = ground (arith, ne) in
    let q = (g.freeq id).last in
    let g' = give_back g a in
    let linked = if q == 0 then g.hdrs else store g.hdrs q (record (g.hdrs q) { next = a }) in
    let first_id : (g.freeq j).first ≡ (g'.freeq j).first = rw (u.owner, test) refl in
    let chain1 : Chain linked j (g.freeq j).first gs = elim (list_cases fs) [
      | inl empty ↦
          (let none_left : (q == 0) ≡ true = rw (p.last, empty) refl in rw none_left r.chain)
      | inr (f, ts, some_in) ↦
          let at_end : q ≡ last_of (f ∷ ts) = p.last ∙ ap last_of some_in in
          let pool = subst (Chain g.hdrs id (g.freeq id).first) some_in p.chain in
          let owner = last_owner g.hdrs id (g.freeq id).first f ts pool in
          let some_left : (q == 0) ≡ false =
            rw at_end (ground (arith, last_positive g.hdrs id (g.freeq id).first f ts pool)) in
          rw some_left (
            Chain-same g.hdrs (store g.hdrs q (record (g.hdrs q) { next = a })) j (g.freeq j).first
              q gs (λ x n. ground (arith, n))
              (other-NotIn g.hdrs j (g.freeq j).first q gs
                (inl (λ e. ne (sym e ∙ ap (λ x. (g.hdrs x).q_id) at_end ∙ owner))) r.chain)
              r.chain)
    ] in
    let out =
      other-NotIn g.hdrs j (g.freeq j).first a gs (inl (λ e. ne (sym e ∙ u.owner))) r.chain in
    record {
      chain =
          subst (λ x. Chain g'.hdrs j x gs) first_id
            (Chain-same linked g'.hdrs j (g.freeq j).first a gs
              (λ x n. let miss : (x == a) ≡ false = ground (arith, n) in rw (miss, u.owner) refl)
              out chain1);
      last = rw (u.owner, test) r.last;
      nodup = r.nodup;
      count = rw (u.owner, test) r.count;
      peak = rw (u.owner, test) r.peak;
    }

freebuf_step : (g : Gki) (id a : ℕ) → InUse g id a → freebuf g (a + 8) ≡ give_back g a
unfolding freebuf
freebuf_step g id a u =
    let there : (a + 8 == 0) ≡ false = ground arith in
    let back : a + 8 - 8 ≡ a = omega arith in
    let known : leb 6 id ≡ false = ground (arith, u.known) in
    let busy : (unlinked == unlinked) ≡ true = refl in
    rw (there, u.whole, back, u.status, u.owner, known) refl

give_back-status : (g : Gki) (a : ℕ) → ((give_back g a).hdrs a).status ≡ 0
unfolding give_back
give_back-status g a = let here : (a == a) ≡ true = ground arith in rw here refl

-- A buffer that is not in use is refused.
freebuf_refused : (g : Gki) (a : ℕ) → (g.hdrs a).status ≡ 0 → freebuf g (a + 8) ≡ g
unfolding freebuf
freebuf_refused g a free =
    let back : a + 8 - 8 ≡ a = omega arith in
    elim (Bool-cases (a + 8 == 0 || is_damaged g (a + 8))) [
      | inl bad ↦ rw bad refl
      | inr good ↦ rw (good, back, free) refl
    ]

-- `GKI_freebuf` appends a buffer in use to the free queue of its pool, and leaves those of the other
-- pools as they are; giving it back once more changes nothing.
pub freebuf_lem :
    (g : Gki) (id a : ℕ) (fs : List ℕ)
    → InUse g id a
    → Pool g id fs
    → let g' = freebuf g (a + 8) in
      Pool g' id (fs ++ a ∷ [])
      × ((j : ℕ) (gs : List ℕ) → j ≢ id → Pool g j gs → Pool g' j gs)
      × (freebuf g' (a + 8) ≡ g')
freebuf_lem g id a fs u p = rw (freebuf_step g id a u) (
  give_back-Pool g id a fs u p,
  (λ j gs ne r. give_back-others g id a fs j gs u p ne r),
  freebuf_refused (give_back g a) a (give_back-status g a),
)
