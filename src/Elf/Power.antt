-- ===== src/Elf/Power.antt =====
-- `m11_is_power_of_two_u64` accepts exactly the powers of two.
use m4_trio.Base.{
  ℕ, zero, suc, ◌+◌, ◌-◌, ◌*◌, ◌/◌, ◌%◌, ◌^◌, ◌<◌, ◌≤◌, ◌≡◌, refl, subst, ◌↔◌, bit_and,
  bit_and_step, bit_and_self, true, sub64, u64_mod, arith,
}
use m4_trio.Elf.{is_power_of_two_u64}
use native.Mathlib.Nat.{pow-suc}
use mathlib.Core.Path.{ap₂}
use native.Mathlib.Decide.{ℕ_discrete}

-- One bit set: halving keeps the test.
bit_and-pred_double : (u : ℕ) → 0 < u → bit_and (u * 2) (u * 2 - 1) ≡ bit_and u (u - 1) * 2
bit_and-pred_double u h = ground (
  arith,
  bit_and_step (u * 2) (u * 2 - 1),
  ap₂ bit_and {x = u * 2 / 2} {y = u} {u = (u * 2 - 1) / 2} {v = u - 1} (omega arith) (omega arith),
)

bit_and-pred_odd : (u : ℕ) → bit_and (u * 2 + 1) (u * 2 + 1 - 1) ≡ u * 2
bit_and-pred_odd u = ground (
  arith,
  bit_and_step (u * 2 + 1) (u * 2 + 1 - 1),
  ap₂ bit_and {x = (u * 2 + 1) / 2} {y = u} {u = (u * 2 + 1 - 1) / 2} {v = u} (omega arith)
      (omega arith),
  bit_and_self u,
)

pow-pos : (k : ℕ) → 0 < 2 ^ k
pow-pos zero = omega arith
pow-pos (suc k) = omega (arith, pow-pos k, pow-suc 2 k)

bit_and-pow : (k : ℕ) → bit_and (2 ^ k) (2 ^ k - 1) ≡ 0
bit_and-pow zero = refl
bit_and-pow (suc k) =
    let e : 2 ^ suc k ≡ 2 ^ k * 2 = omega (arith, pow-suc 2 k) in
    rw (e, bit_and-pred_double (2 ^ k) (pow-pos k), bit_and-pow k)

power_fuel : (n v : ℕ) → v ≤ n → 0 < v → bit_and v (v - 1) ≡ 0 → (k : ℕ) × (v ≡ 2 ^ k)
power_fuel zero v le pos h = absurd (omega arith)
power_fuel (suc n) v le pos h = elim (ℕ_discrete (v % 2) 0) [
  | yes even ↦
      let e : v ≡ v / 2 * 2 = omega arith in
      let h' : bit_and (v / 2 * 2) (v / 2 * 2 - 1) ≡ 0 = subst (λ w. bit_and w (w - 1) ≡ 0) e h in
      let (k, p) =
        power_fuel n (v / 2) (omega arith) (omega arith)
          (omega (arith, bit_and-pred_double (v / 2) (omega arith))) in
      (suc k, omega (arith, pow-suc 2 k))
  | no odd ↦
      let e : v ≡ v / 2 * 2 + 1 = omega arith in
      let h' : bit_and (v / 2 * 2 + 1) (v / 2 * 2 + 1 - 1) ≡ 0 =
        subst (λ w. bit_and w (w - 1) ≡ 0) e h in
      (0, omega (arith, bit_and-pred_odd (v / 2)))
]

sub64-one : (v : ℕ) → 0 < v → v < u64_mod → sub64 v 1 ≡ v - 1
sub64-one v pos lt = omega arith

-- For a 64-bit value the test `v != 0 && (v & (v - 1)) == 0` accepts exactly the powers of two.
pub is_power_of_two_iff :
    (v : ℕ) → v < u64_mod → (is_power_of_two_u64 v ≡ true) ↔ ((k : ℕ) × (v ≡ 2 ^ k))
unfolding is_power_of_two_u64
is_power_of_two_iff v lt = (
  (λ h.
      let pos : 0 < v = ground arith in
      power_fuel v v (omega arith) pos (ground (arith, sub64-one v pos lt))),
  (λ p.
      let (k, e) = p in
      let pos : 0 < v = omega (arith, pow-pos k) in
      ground (arith, sub64-one v pos lt, bit_and-pow k, e)),
)
