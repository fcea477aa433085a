-- ===== src/Base/Bits.antt =====
-- `bit_and` at variables by its lowest digit, and laws of small numbers that are checked one by one.
use Prim.Native.Nat.{
  ℕ, zero, suc, ◌+◌, ◌*◌, ◌/◌, ◌%◌, ◌≤◌, ◌<◌, min, bit_and, digits, bit_and-bitwise,
}
use mathlib.Core.Path.{◌≡◌}
use mathlib.Core.Bool.{Bool, true, ◌&&◌}
use native.Mathlib.Omega.{arith}
use native.Mathlib.Decide.{dec_lt}

-- The test passes at 0, 1, …, `bound - 1`.
abbrev pub passes_below : ℕ → (ℕ → Bool) → Bool
passes_below zero test = true
passes_below (suc bound) test = passes_below bound test && test bound

pub passes_below_at :
    (bound : ℕ) (test : ℕ → Bool)
    → passes_below bound test ≡ true
    → (k : ℕ) → k < bound
    → test k ≡ true
passes_below_at (suc bound) test all k lt = elim (dec_lt k bound) [
  | yes low ↦ passes_below_at bound test (ground arith) k low
  | no top ↦ let e : k ≡ bound = omega arith in rw e (ground arith)
]
passes_below_at zero test all k lt = elim lt [ ]

-- The recursion on digits that `bit_and` stands for, with any fuel from its first argument on.
with_fuel :
    (limit fuel a b : ℕ) → fuel ≤ limit → a ≤ fuel → digits (λ _. 0) min fuel a b ≡ bit_and a b
with_fuel limit zero zero b le small = omega (arith, bit_and-bitwise 0 b)
with_fuel limit (suc fuel) zero b le small = omega (arith, bit_and-bitwise 0 b)
with_fuel limit zero (suc a) b le small = elim small [ ]
with_fuel zero (suc fuel) (suc a) b le small = elim le [ ]
with_fuel (suc limit) (suc fuel) (suc a) b le small =
    let here = with_fuel limit fuel (suc a / 2) (b / 2) (omega arith) (omega arith) in
    let there = with_fuel limit a (suc a / 2) (b / 2) (omega arith) (omega arith) in
    omega (arith, here, there, bit_and-bitwise (suc a) b)

-- The lowest digit of a conjunction, and the rest of it.
pub bit_and_step : (a b : ℕ) → bit_and a b ≡ bit_and (a / 2) (b / 2) * 2 + min (a % 2) (b % 2)
bit_and_step zero b = omega (arith, bit_and-bitwise 0 b, bit_and-bitwise 0 (b / 2))
bit_and_step (suc a) b =
    let rest = with_fuel a a (suc a / 2) (b / 2) (omega arith) (omega arith) in
    omega (arith, rest, bit_and-bitwise (suc a) b)

self_below : (limit a : ℕ) → a < limit → bit_and a a ≡ a
self_below (suc limit) zero lt = omega (arith, bit_and-bitwise 0 0)
self_below (suc limit) (suc a) lt =
    let half = self_below limit (suc a / 2) (omega arith) in
    omega (arith, half, bit_and_step (suc a) (suc a))
self_below zero a lt = elim lt [ ]

pub bit_and_self : (a : ℕ) → bit_and a a ≡ a
bit_and_self a = self_below (suc a) a (omega arith)
