-- ===== src/Text/Swap.antt =====
-- The loop that exchanges the ends of a buffer reverses it.
use zhangxy.Base.{
  ℕ, zero, suc, ◌+◌, ◌-◌, ◌≤◌, ◌<◌, ◌≡◌, refl, sym, ap, ap₂, ◌∙◌, inl, inr, true, false, ◌&&◌, List,
  [], ◌∷◌, ◌++◌, arith, ltb, leb, ◌==◌, if◌then◌else◌, ltb→lt, Bool-cases, le_cases, length, get_or,
  set, length-append, length-set, get_or-set,
}
use zhangxy.Text.{swap, swap_loop}

-- A list turned round.
abbrev pub rev : List ℕ → List ℕ
rev [] = []
rev (x ∷ xs) = rev xs ++ x ∷ []

pub length-rev : (xs : List ℕ) → length (rev xs) ≡ length xs
length-rev [] = refl
length-rev (x ∷ xs) = omega (arith, length-append (rev xs) (x ∷ []), length-rev xs)

get_or-append :
    (xs ys : List ℕ) (k : ℕ)
    → get_or (xs ++ ys) k 0
      ≡ (if ltb k (length xs) then get_or xs k 0 else get_or ys (k - length xs) 0)
get_or-append [] ys k = ground arith
get_or-append (x ∷ xs) ys zero = ground arith
get_or-append (x ∷ xs) ys (suc k) = ground (arith, get_or-append xs ys k)

get_or-rev :
    (xs : List ℕ) (k : ℕ) → k < length xs → get_or (rev xs) k 0 ≡ get_or xs (length xs - 1 - k) 0
get_or-rev [] k h = absurd (omega arith)
get_or-rev (x ∷ xs) k h = elim (le_cases (length xs) k) [
  | inl last ↦
      let e : k ≡ length xs = omega arith in
      let miss : ltb k (length (rev xs)) ≡ false = ground (arith, length-rev xs) in
      let here : k - length (rev xs) ≡ 0 = omega (arith, length-rev xs) in
      let first : 0 ≡ suc (length xs) - 1 - k = omega arith in
      get_or-append (rev xs) (x ∷ []) k ∙ rw (miss, here) (ap (λ j. get_or (x ∷ xs) j 0) first)
  | inr front ↦
      let hit : ltb k (length (rev xs)) ≡ true = ground (arith, length-rev xs) in
      let more : suc (length xs) - 1 - k ≡ suc (length xs - 1 - k) = omega arith in
      get_or-append (rev xs) (x ∷ []) k ∙ rw (hit, more) (get_or-rev xs k front)
]

pub get_or-ext :
    (xs ys : List ℕ)
    → length xs ≡ length ys
    → ((k : ℕ) → k < length xs → get_or xs k 0 ≡ get_or ys k 0)
    → xs ≡ ys
get_or-ext [] [] e same = refl
get_or-ext [] (y ∷ ys) e same = absurd (omega arith)
get_or-ext (x ∷ xs) [] e same = absurd (omega arith)
get_or-ext (x ∷ xs) (y ∷ ys) e same =
    ap₂ (λ z zs. z ∷ zs) (same 0 (omega arith))
      (get_or-ext xs ys (omega arith) (λ k h. same (suc k) (omega arith)))

length-swap : (buf : List ℕ) (i j : ℕ) → length (swap buf i j) ≡ length buf
unfolding swap
length-swap buf i j =
    length-set (set buf j (get_or buf i 0)) i (get_or buf j 0) ∙ length-set buf j (get_or buf i 0)

get_or-swap :
    (buf : List ℕ) (i j k : ℕ)
    → i < length buf
    → j < length buf
    → get_or (swap buf i j) k 0
      ≡ (if k == i then get_or buf j 0 else if k == j then get_or buf i 0 else get_or buf k 0)
unfolding swap
get_or-swap buf i j k a b =
    let inner = get_or-set buf j k (get_or buf i 0) 0 b in
    get_or-set (set buf j (get_or buf i 0)) i k (get_or buf j 0) 0
      (omega (arith, length-set buf j (get_or buf i 0)))
    ∙ rw inner refl

-- Of at most three bytes the exchange leaves none in its old place but the middle one.
swapped :
    (buf : List ℕ) (i j k : ℕ)
    → j ≤ i + 2
    → i ≤ j
    → (if k == i then get_or buf j 0 else if k == j then get_or buf i 0 else get_or buf k 0)
      ≡ (if leb i k && leb k j then get_or buf (i + j - k) 0 else get_or buf k 0)
swapped buf i j k near h = grind arith

inner :
    (buf : List ℕ) (i j k : ℕ)
    → i + 1 < j - 1
    → let m = i + 1 + (j - 1) - k in
      (if leb (i + 1) k && leb k (j - 1)
        then (if m == i then get_or buf j 0 else if m == j then get_or buf i 0 else get_or buf m 0)
        else (if k == i then get_or buf j 0 else if k == j then get_or buf i 0 else get_or buf k 0))
      ≡ (if leb i k && leb k j then get_or buf (i + j - k) 0 else get_or buf k 0)
inner buf i j k inside = grind arith

-- The loop, with fuel for the rest of the buffer.
swap_loop_lem :
    (fuel : ℕ) (buf : List ℕ) (i j : ℕ)
    → i ≤ j
    → j ≤ i + fuel
    → i < length buf
    → j < length buf
    → (length (swap_loop fuel buf i j) ≡ length buf)
      × ((k : ℕ)
          → get_or (swap_loop fuel buf i j) k 0
            ≡ (if leb i k && leb k j then get_or buf (i + j - k) 0 else get_or buf k 0))
unfolding swap_loop
swap_loop_lem zero buf i j h e a b = (
  length-swap buf i j,
  λ k.
      let same : i ≡ j = omega arith in
      get_or-swap buf i j k a b ∙ swapped buf i j k (omega arith) h,
)
swap_loop_lem (suc fuel) buf i j h e a b = elim (Bool-cases (ltb (i + 1) (j - 1))) [
  | inr stop ↦ rw stop (
    length-swap buf i j,
    λ k. get_or-swap buf i j k a b ∙ swapped buf i j k (ground (arith, stop)) h,
  )
  | inl more ↦
      let inside = ltb→lt (i + 1) (j - 1) more in
      let (len, rest) =
        swap_loop_lem fuel (swap buf i j) (i + 1) (j - 1) (omega arith) (omega arith)
          (omega (arith, length-swap buf i j)) (omega (arith, length-swap buf i j)) in
      rw more (
        len ∙ length-swap buf i j,
        λ k.
            rest k
            ∙ rw (get_or-swap buf i j k a b, get_or-swap buf i j (i + 1 + (j - 1) - k) a b)
                (inner buf i j k inside),
      )
]

-- `c_utoa_pad`'s exchange of the ends reverses a buffer that is not empty.
pub swap_loop-rev :
    (buf : List ℕ) → 0 < length buf → swap_loop (length buf) buf 0 (length buf - 1) ≡ rev buf
swap_loop-rev buf h =
    let (len, cells) =
      swap_loop_lem (length buf) buf 0 (length buf - 1) (omega arith) (omega arith) h
        (omega arith) in
    get_or-ext _ (rev buf) (len ∙ sym (length-rev buf)) (λ k low.
      let below : k < length buf = omega (arith, low, len) in
      let all : (leb 0 k && leb k (length buf - 1)) ≡ true = ground (arith, below) in
      let from_end : 0 + (length buf - 1) - k ≡ length buf - 1 - k = omega arith in
      cells k ∙ rw (all, from_end) (sym (get_or-rev buf k below)))
