-- ===== src/Timer/Keys.antt =====
-- The heap order, on the times in the slots: with a hole at one slot, it is kept as the hole moves up
-- or down, and complete once the moved time is put there.
use zhangxy.Base.{ℕ, ◌<◌, ◌≡◌, ◌≢◌, true, false, arith, ◌==◌, if◌then◌else◌}
use zhangxy.Time.{Time, time_lt}
use zhangxy.Time.Order.{NoLater, NoLater-trans, NoLater-of_lt}
use zhangxy.Timer.{parent}

abbrev pub put : (ℕ → Time) → ℕ → Time → ℕ → Time
put key i v j = if j == i then v else key j

-- Every slot but the root is no earlier than the one above.
abbrev pub IsOrdered : (ℕ → Time) → ℕ → Type 0
IsOrdered key n = (c : ℕ) → 0 < c → c < n → NoLater (key (parent c)) (key c)

-- What holds round a hole, whether it moves up or down.
pub record Around (key : ℕ → Time) (hole n : ℕ) : Type 0 where
  pub edges :
      (c : ℕ) → 0 < c → c < n → c ≢ hole → parent c ≢ hole → NoLater (key (parent c)) (key c)
  pub bridge :
      (c : ℕ) → 0 < c → c < n → parent c ≡ hole → 0 < hole → NoLater (key (parent hole)) (key c)

-- The moved time is no later than what lies below, or no earlier than what lies above.
abbrev pub Below : (ℕ → Time) → Time → ℕ → ℕ → Type 0
Below key m hole n = (c : ℕ) → 0 < c → c < n → parent c ≡ hole → NoLater m (key c)

abbrev pub Above : (ℕ → Time) → Time → ℕ → Type 0
Above key m hole = 0 < hole → NoLater (key (parent hole)) m

pub fill_hole :
    (key : ℕ → Time) (m : Time) (hole n : ℕ)
    → Around key hole n
    → Below key m hole n
    → Above key m hole
    → IsOrdered (put key hole m) n
fill_hole key m hole n a b t c p q = ground (arith, a.edges c, b c)

module _ (key : ℕ → Time) (m : Time) (hole n : ℕ) (a : Around key hole n) (pos : 0 < hole)
    (inside : hole < n) where
  pub up-Around : Around (put key hole (key (parent hole))) (parent hole) n
  up-Around = record {
    edges = λ c p q r s. ground (arith, a.edges c, a.bridge c);
    bridge = λ c p q r s. ground (
      arith,
      a.edges c,
      a.edges (parent hole),
      NoLater-trans (key (parent (parent hole))) (key (parent hole)) (key c),
    );
  }

  pub up-Below :
      time_lt m (key (parent hole)) ≡ true
      → Below (put key hole (key (parent hole))) m (parent hole) n
  up-Below less = λ c p q r. ground (
    arith,
    a.edges c,
    NoLater-of_lt m (key (parent hole)),
    NoLater-trans m (key (parent hole)) (key c),
  )

-- `s` is a child of the hole with the earliest time.
pub record IsEarliest (key : ℕ → Time) (hole n s : ℕ) : Type 0 where
  pub inside : s < n
  pub child : parent s ≡ hole
  pub positive : 0 < s
  pub least : (c : ℕ) → 0 < c → c < n → parent c ≡ hole → NoLater (key s) (key c)

module _ (key : ℕ → Time) (m : Time) (hole n s : ℕ) (a : Around key hole n)
    (e : IsEarliest key hole n s) where
  pub down-Around : Around (put key hole (key s)) s n
  down-Around = record {
    edges = λ c p q r t. ground (arith, a.edges c, a.bridge s, e.least c);
    bridge = λ c p q r t. ground (arith, a.edges c);
  }

  pub down-Above : time_lt (key s) m ≡ true → Above (put key hole (key s)) m s
  down-Above less = λ p. ground (arith, NoLater-of_lt (key s) m)

  pub settled-Below : time_lt (key s) m ≡ false → Below key m hole n
  settled-Below stop = λ c p q r. ground (arith, e.least c, NoLater-trans m (key s) (key c))
