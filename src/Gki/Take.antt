-- ===== src/Gki/Take.antt =====
-- Taking a buffer from a pool.
use zhangxy.Base.{
  ℕ, ◌+◌, ◌<◌, ◌≡◌, refl, sym, ap, ◌∙◌, ◌≢◌, inl, true, false, List, [], ◌∷◌, arith, leb, ◌==◌,
  if◌then◌else◌,
}
use zhangxy.Gki.{Gki, Header, store, unlinked}
use zhangxy.Gki.Chain.{last_of, Chain-same, other-NotIn, Pool}
use zhangxy.Gki.Buffers.{take_first, take_from, getpoolbuf, has_free}

-- From `g` to `g'` the buffer at `a` was taken out of pool `id`, which is left with `fs`.
pub record Taken (g : Gki) (id a : ℕ) (fs : List ℕ) (g' : Gki) : Type 0 where
  pub pool : Pool g' id fs
  pub others : (j : ℕ) (gs : List ℕ) → j ≢ id → Pool g j gs → Pool g' j gs
  pub in_use : (g'.hdrs a).status ≡ unlinked
  pub owner : (g'.hdrs a).q_id ≡ id
  pub frame : (q : ℕ) → q ≢ a → g'.hdrs q ≡ g.hdrs q
  pub words : g'.words ≡ g.words
  pub sizes : (j : ℕ) → (g'.freeq j).buf_size ≡ (g.freeq j).buf_size
  pub counted : (g'.freeq id).cur_cnt ≡ (g.freeq id).cur_cnt + 1

store-other {ℓ} : {A : Type ℓ} (f : ℕ → A) (x : ℕ) (v : A) (q : ℕ) → q ≢ x → store f x v q ≡ f q
store-other f x v q ne = let test : (q == x) ≡ false = ground (arith, ne) in rw test refl

abbrev used_header : Header → Header
used_header h = record h { task_id = 1; status = unlinked; next = 0; kind = 0 }

-- The last header stays the last, unless it was taken.
after_first :
    (g : Gki) (id a : ℕ) (fs : List ℕ)
    → Pool g id (a ∷ fs)
    → (if (g.hdrs a).next == 0 then 0 else (g.freeq id).last) ≡ last_of fs
after_first g id a [] p = rw (p.chain.4) refl
after_first g id a (f ∷ fs) p =
    let (e, pos, q, s, (e', pos', q', s', c)) = p.chain in
    let test : ((g.hdrs a).next == 0) ≡ false = ground (arith, e', pos') in rw test p.last

pub take_first-Taken :
    (g : Gki) (id a : ℕ) (fs : List ℕ)
    → Pool g id (a ∷ fs)
    → Taken g id a fs (take_first g id).0 × ((take_first g id).1 ≡ a + 8)
unfolding take_first
take_first-Taken g id a fs p =
    let (e, pos, q, s, c) = p.chain in
    let used = store g.hdrs a (used_header (g.hdrs a)) in
    let self : (id == id) ≡ true = ground arith in
    let here : (a == a) ≡ true = ground arith in
    let frame = λ (x : ℕ) (ne : x ≢ a).
      let same : (take_first g id).0.hdrs x ≡ g.hdrs x = rw e (ground (arith, ne)) in same in
    (
      record {
        pool = record {
          chain =
              rw (self, e)
                (Chain-same g.hdrs used id (g.hdrs a).next a fs
                  (store-other g.hdrs a (used_header (g.hdrs a))) p.nodup.0 c);
          last = rw (self, e) (after_first g id a fs p);
          nodup = p.nodup.1;
          count = rw self (omega (arith, p.count));
          peak = rw self (ground (arith, p.peak));
        };
        others = λ j gs ne r.
            let test : (j == id) ≡ false = ground (arith, ne) in
            record {
              chain =
                  rw (test, e)
                    (Chain-same g.hdrs used j (g.freeq j).first a gs
                      (store-other g.hdrs a (used_header (g.hdrs a)))
                      (other-NotIn g.hdrs j (g.freeq j).first a gs (inl (λ w. ne (sym w ∙ q)))
                        r.chain)
                      r.chain);
              last = rw test r.last;
              nodup = r.nodup;
              count = rw test r.count;
              peak = rw test r.peak;
            };
        in_use = rw (e, here) refl;
        owner = rw (e, here) q;
        frame = frame;
        words = refl;
        sizes = λ j. ground arith;
        counted = rw self refl;
      },
      ap (λ x. x + 8) e,
    )

pub take_from-Taken :
    (g : Gki) (id a : ℕ) (fs : List ℕ) (place mem : ℕ)
    → Pool g id (a ∷ fs)
    → Taken g id a fs (take_from g id place mem).0 × ((take_from g id place mem).1 ≡ a + 8)
unfolding take_from
take_from-Taken g id a fs place mem p =
    let test : ((g.freeq id).first == 0) ≡ false = ground (arith, p.chain.0, p.chain.1) in
    rw test (take_first-Taken g id a fs p)

-- `GKI_getpoolbuf` takes the first free buffer of the pool, which loses just that one: the free queues of
-- the other pools stay as they are.
pub getpoolbuf_lem :
    (g : Gki) (id a : ℕ) (fs : List ℕ) (mem : ℕ)
    → id < 6
    → Pool g id (a ∷ fs)
    → Taken g id a fs (getpoolbuf g id mem).0 × ((getpoolbuf g id mem).1 ≡ a + 8)
unfolding getpoolbuf
getpoolbuf_lem g id a fs mem inside p =
    let known : leb 6 id ≡ false = ground arith in
    let free : has_free g id ≡ true = ground (arith, p.count) in
    rw (known, free) (take_from-Taken g id a fs id mem p)
