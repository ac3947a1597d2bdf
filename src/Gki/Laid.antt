-- ===== src/Gki/Laid.antt =====
-- The loop that links the headers of a new pool.
use zhangxy.Base.{
  ℕ, zero, suc, ◌+◌, ◌%◌, ◌^◌, ◌≤◌, ◌<◌, ◌≡◌, refl, ◌∙◌, ◌⊎◌, inl, inr, true, false, List, [], ◌∷◌,
  arith, ◌==◌, length, NotIn, Nodup,
}
use zhangxy.Gki.{Gki, Header, store, init_headers}
use zhangxy.Gki.Chain.{Chain, last_of}

-- The headers of `n` buffers that take `act` bytes each, and the address behind them.
abbrev pub buffers : ℕ → ℕ → ℕ → List ℕ
buffers zero hdr act = []
buffers (suc n) hdr act = hdr ∷ buffers n (hdr + act) act

abbrev pub end_of : ℕ → ℕ → ℕ → ℕ
end_of zero hdr act = hdr
end_of (suc n) hdr act = end_of n (hdr + act) act

pub start-le-end_of : (n hdr act : ℕ) → hdr ≤ end_of n hdr act
start-le-end_of zero hdr act = omega arith
start-le-end_of (suc n) hdr act = omega (arith, start-le-end_of n (hdr + act) act)

buffers-NotIn : (n hdr act x : ℕ) → x < hdr → NotIn x (buffers n hdr act)
buffers-NotIn zero hdr act x h = record {}
buffers-NotIn (suc n) hdr act x h =
    ((λ e. absurd (omega arith)), buffers-NotIn n (hdr + act) act x (omega arith))

pub buffers-Nodup : (n hdr act : ℕ) → 0 < act → Nodup (buffers n hdr act)
buffers-Nodup zero hdr act h = record {}
buffers-Nodup (suc n) hdr act h =
    (buffers-NotIn n (hdr + act) act hdr (omega arith), buffers-Nodup n (hdr + act) act h)

pub length-buffers : (n hdr act : ℕ) → length (buffers n hdr act) ≡ n
length-buffers zero hdr act = refl
length-buffers (suc n) hdr act = omega (arith, length-buffers n (hdr + act) act)

-- The headers after the loop and the store of NULL behind it.
abbrev pub sealed : Gki × ℕ → ℕ → Header
sealed r = store r.0.hdrs r.1 (record (r.0.hdrs r.1) { next = 0 })

pub record Laid (g : Gki) (id hdr act n : ℕ) (r : Gki × ℕ) : Type 0 where
  pub chain : Chain (sealed r) id hdr (buffers n hdr act)
  pub frame : (q : ℕ) → (q < hdr) ⊎ (end_of n hdr act ≤ q) → sealed r q ≡ g.hdrs q
  pub last : r.1 ≡ last_of (buffers n hdr act)
  pub queues : r.0.freeq ≡ g.freeq

pub init_headers-Laid :
    (n : ℕ) (g : Gki) (id size hdr before : ℕ)
    → 0 < hdr
    → 0 < (size + 12) % 2 ^ 16
    → Laid g id hdr ((size + 12) % 2 ^ 16) (suc n) (init_headers (suc n) g id size hdr before)
unfolding init_headers
init_headers-Laid zero g id size hdr before pos wide =
    let here : (hdr == hdr) ≡ true = ground arith in
    record {
      chain = (refl, pos, rw here refl, rw here refl, rw here refl);
      frame = λ q out.
          let miss : (q == hdr) ≡ false = (elim out [
            | inl low ↦ ground (arith, low)
            | inr high ↦ ground (arith, high)
          ]) in
          rw miss refl;
      last = refl;
      queues = refl;
    }
init_headers-Laid (suc n) g id size hdr before pos wide =
    let act = (size + 12) % 2 ^ 16 in
    let g1 = record g {
      hdrs =
          store g.hdrs hdr
            (record (g.hdrs hdr) { task_id = 240; q_id = id; status = 0; next = hdr + act });
      words = store g.words (hdr + 8 + size) 3720011194;
    } in
    let rest = init_headers-Laid n g1 id size (hdr + act) hdr (omega arith) wide in
    let here : (hdr == hdr) ≡ true = ground arith in
    let mid = rest.frame hdr (inl (omega arith)) in
    record {
      chain = (refl, pos, rw (mid, here) refl, rw (mid, here) refl, rw (mid, here) rest.chain);
      frame = λ q out.
          let far : (q < hdr + act) ⊎ (end_of (suc n) (hdr + act) act ≤ q) = (elim out [
            | inl low ↦ inl (omega arith)
            | inr high ↦ inr high
          ]) in
          let miss : (q == hdr) ≡ false = (elim out [
            | inl low ↦ ground (arith, low)
            | inr high ↦ ground (arith, high, start-le-end_of (suc n) (hdr + act) act)
          ]) in
          rest.frame q far ∙ rw miss refl;
      last = rest.last;
      queues = rest.queues;
    }
