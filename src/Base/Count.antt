-- ===== src/Base/Count.antt =====
-- How many of the first `n` places of a Boolean array are clear.
use Prim.Native.Nat.{ℕ, zero, suc, ◌+◌, ◌≤◌, ◌<◌}
use mathlib.Core.Path.{◌≡◌, refl}
use mathlib.Core.Logic.{◌≢◌}
use mathlib.Core.Bool.{Bool, true, false}
use native.Mathlib.Omega.{arith}
use native.Mathlib.Decide.{dec_lt}

abbrev pub weight : Bool → ℕ
weight true = 0
weight false = 1

pub clear_count : (ℕ → Bool) → ℕ → ℕ
clear_count f zero = 0
clear_count f (suc n) = clear_count f n + weight (f n)

pub clear_count-le : (f : ℕ → Bool) (n : ℕ) → clear_count f n ≤ n
unfolding clear_count
clear_count-le f zero = omega arith
clear_count-le f (suc n) = ground (arith, clear_count-le f n)

pub clear_count-same :
    (f g : ℕ → Bool) (n : ℕ) → ((j : ℕ) → j < n → g j ≡ f j) → clear_count g n ≡ clear_count f n
unfolding clear_count
clear_count-same f g zero h = refl
clear_count-same f g (suc n) h =
    ground (arith, h n (omega arith), clear_count-same f g n (λ j p. h j (omega arith)))

-- A change at one place below `n` changes the count by the change of its weight.
pub clear_count-update :
    (f g : ℕ → Bool) (i n : ℕ)
    → ((j : ℕ) → j ≢ i → g j ≡ f j)
    → i < n
    → clear_count g n + weight (f i) ≡ clear_count f n + weight (g i)
unfolding clear_count
clear_count-update f g i zero h lt = absurd (omega arith)
clear_count-update f g i (suc n) h lt = elim (dec_lt i n) [
  | yes below ↦ ground (arith, h n (omega arith), clear_count-update f g i n h below)
  | no last ↦ ground (arith, clear_count-same f g n (λ j p. h j (omega arith)))
]

-- All places set: nothing is clear.
pub clear_count-full : (f : ℕ → Bool) (n : ℕ) → ((j : ℕ) → j < n → f j ≡ true) → clear_count f n ≡ 0
unfolding clear_count
clear_count-full f zero h = refl
clear_count-full f (suc n) h =
    ground (arith, h n (omega arith), clear_count-full f n (λ j p. h j (omega arith)))
