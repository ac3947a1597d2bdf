-- ===== src/Ring/Slices.antt =====
-- Slices of a buffer that has been written to, as `RING_Write` writes it.
use zhangxy.Base.{
  ℕ, ◌+◌, ◌-◌, ◌≤◌, ◌≡◌, ap, ◌∙◌, List, ◌++◌, append-nil, arith, length, take, drop, length-take,
  length-drop, drop_all, take-append_ge, drop-append_le, take-append_self, drop-append_ge,
  drop-take, drop-drop, overwrite, length-overwrite,
}

module _ {ℓ} {A : Type ℓ} (buf src : List A) (w : ℕ) (fits : w + length src ≤ length buf) where
  length-take_w : length (take w buf) ≡ w
  length-take_w = omega (arith, length-take w buf)

  -- Up to the end of what is written.
  pub take-overwrite : take (w + length src) (overwrite buf w src) ≡ take w buf ++ src
  take-overwrite =
      take-append_ge (w + length src) (length src) (take w buf) _ (omega (arith, length-take_w))
      ∙ ap (◌++◌ (take w buf)) (take-append_self src (drop (w + length src) buf))

  -- From an index before what is written.
  pub drop-overwrite_below :
      (r : ℕ)
      → r ≤ w
      → drop r (overwrite buf w src)
        ≡ take (w - r) (drop r buf) ++ (src ++ drop (w + length src) buf)
  drop-overwrite_below r h = rw (
    drop-append_le r (take w buf) (src ++ drop (w + length src) buf) (omega (arith, length-take_w)),
    drop-take r w buf,
  )

  -- From an index behind what is written.
  pub drop-overwrite_above :
      (r : ℕ) → w + length src ≤ r → drop r (overwrite buf w src) ≡ drop r buf
  drop-overwrite_above r h =
      drop-append_ge r (r - w) (take w buf) _ (omega (arith, length-take_w))
      ∙ drop-append_ge (r - w) (r - (w + length src)) src _ (omega arith)
      ∙ drop-drop (r - (w + length src)) (w + length src) r buf (omega arith)

  -- Between two indices on both sides of the write, up to its end.
  pub slice-overwrite :
      (r : ℕ)
      → r ≤ w
      → take (w + length src - r) (drop r (overwrite buf w src)) ≡ take (w - r) (drop r buf) ++ src
  slice-overwrite r h = rw (drop-overwrite_below r h) (
      take-append_ge (w + length src - r) (length src) (take (w - r) (drop r buf)) _
        (omega (arith, length-take (w - r) (drop r buf), length-drop r buf))
      ∙ ap (◌++◌ (take (w - r) (drop r buf))) (take-append_self src (drop (w + length src) buf)))

-- A write that goes round the end: `d1` fills the buffer from `w` on, `d2` goes to the front.
module _ {ℓ} {A : Type ℓ} (buf d1 d2 : List A) (w : ℕ) (filled : w + length d1 ≡ length buf)
    (short : length d2 ≤ length buf) where
  pub take-overwrite_front : take (length d2) (overwrite (overwrite buf w d1) 0 d2) ≡ d2
  take-overwrite_front = take-append_self d2 _

  pub drop-overwrite_front :
      (r : ℕ)
      → length d2 ≤ r
      → r ≤ w
      → drop r (overwrite (overwrite buf w d1) 0 d2) ≡ take (w - r) (drop r buf) ++ d1
  drop-overwrite_front r h k =
      drop-overwrite_above (overwrite buf w d1) d2 0
        (omega (arith, length-overwrite buf w d1 (omega arith))) r (omega arith)
      ∙ drop-overwrite_below buf d1 w (omega arith) r k
      ∙ rw (drop_all (w + length d1) buf (omega arith), append-nil)
