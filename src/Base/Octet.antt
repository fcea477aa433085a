-- ===== src/Base/Octet.antt =====
-- The eight bits of a byte: what a set and a clear of one of them change.
use Prim.Native.Nat.{ℕ, ◌-◌, ◌%◌, ◌^◌, ◌<◌, bit_and, bit_or}
use mathlib.Core.Path.{◌≡◌, refl}
use mathlib.Core.Bool.{Bool, true, false, not}
use native.Mathlib.Omega.{arith}
use m4_trio.Base.Tests.{◌==◌, if◌then◌else◌}
use m4_trio.Base.Bits.{passes_below, passes_below_at}

unfoldable pub byte_test : ℕ → ℕ → Bool
byte_test b j = not (bit_and b (2 ^ j) == 0)

unfoldable pub byte_set : ℕ → ℕ → ℕ
byte_set b k = bit_or b (2 ^ k) % 256

unfoldable pub byte_clear : ℕ → ℕ → ℕ
byte_clear b k = bit_and b (255 - 2 ^ k) % 256

bool_eq : Bool → Bool → Bool
bool_eq true b = b
bool_eq false b = not b

bool_eq_sound : (a b : Bool) → bool_eq a b ≡ true → a ≡ b
unfolding bool_eq
bool_eq_sound true b h = ground arith
bool_eq_sound false b h = ground arith

-- A law of one byte and two bit numbers, checked at every value.
everywhere : (ℕ → ℕ → ℕ → Bool) → Bool
everywhere law = passes_below 256 (λ b. passes_below 8 (λ k. passes_below 8 (λ j. law b k j)))

everywhere_sound :
    (law : ℕ → ℕ → ℕ → Bool)
    → everywhere law ≡ true
    → (b k j : ℕ) → b < 256
    → k < 8
    → j < 8
    → law b k j ≡ true
unfolding everywhere
everywhere_sound law h b k j hb hk hj =
    passes_below_at 8 (λ j. law b k j)
      (passes_below_at 8 (λ k. passes_below 8 (λ j. law b k j))
        (passes_below_at 256 (λ b. passes_below 8 (λ k. passes_below 8 (λ j. law b k j))) h b hb) k
        hk)
      j hj

abbrev set_law : ℕ → ℕ → ℕ → Bool
set_law b k j = bool_eq (byte_test (byte_set b k) j) (if k == j then true else byte_test b j)

abbrev clear_law : ℕ → ℕ → ℕ → Bool
clear_law b k j = bool_eq (byte_test (byte_clear b k) j) (if k == j then false else byte_test b j)

set_table : everywhere set_law ≡ true
unfolding everywhere bool_eq byte_test byte_set
set_table = refl

clear_table : everywhere clear_law ≡ true
unfolding everywhere bool_eq byte_test byte_clear
clear_table = refl

pub byte_test-set :
    (b k j : ℕ)
    → b < 256
    → k < 8
    → j < 8
    → byte_test (byte_set b k) j ≡ (if k == j then true else byte_test b j)
byte_test-set b k j hb hk hj = bool_eq_sound _ _ (everywhere_sound set_law set_table b k j hb hk hj)

pub byte_test-clear :
    (b k j : ℕ)
    → b < 256
    → k < 8
    → j < 8
    → byte_test (byte_clear b k) j ≡ (if k == j then false else byte_test b j)
byte_test-clear b k j hb hk hj =
    bool_eq_sound _ _ (everywhere_sound clear_law clear_table b k j hb hk hj)

pub small_masks : passes_below 8 (λ k. 2 ^ k % 256 == 2 ^ k) ≡ true
small_masks = refl

pub ones : passes_below 8 (λ j. byte_test 255 j) ≡ true
unfolding byte_test
ones = refl
