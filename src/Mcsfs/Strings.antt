-- ===== src/Mcsfs/Strings.antt =====
-- fs/mcsfs1/mcsfs1.c: the strings that names are.
use m4_trio.Base.{
  ℕ, zero, suc, ◌+◌, ◌≤◌, ◌<◌, ◌≡◌, ◌≢◌, refl, sym, ap, ◌∙◌, true, ==_self, ne→==, arith,
}
use m4_trio.Mcsfs.{Bytes, ok}
use m4_trio.Mcsfs.Memory.{strlen_bound, mem_equal, valid_name}
use native.Mathlib.Decide.{ℕ_discrete, dec_lt}

-- A string of `n` bytes at `at`, with its terminator.
pub record IsString (s : Bytes) (at n : ℕ) : Type 0 where
  pub letters : (k : ℕ) → k < n → s (at + k) ≢ 0
  pub ends : s (at + n) ≡ 0

strlen_skip :
    (left : ℕ) (s : Bytes) (at m : ℕ)
    → s (at + m) ≢ 0
    → strlen_bound (suc left) s at m ≡ strlen_bound left s at (m + 1)
unfolding strlen_bound
strlen_skip left s at m ne = rw (ne→== (s (at + m)) 0 ne) refl

strlen_bound-from :
    (left : ℕ) (s : Bytes) (at m n : ℕ)
    → ((k : ℕ) → k < n → s (at + k) ≢ 0)
    → s (at + n) ≡ 0
    → m ≤ n
    → n < m + left
    → strlen_bound left s at m ≡ n
unfolding strlen_bound
strlen_bound-from zero s at m n letters ends low high = absurd (omega arith)
strlen_bound-from (suc left) s at m n letters ends low high = elim (dec_lt m n) [
  | yes more ↦
      strlen_skip left s at m (letters m more)
      ∙ strlen_bound-from left s at (m + 1) n letters ends (omega arith) (omega arith)
  | no done ↦
      let e : m ≡ n = omega arith in
      let stop : s (at + m) ≡ 0 = ap (λ x. s (at + x)) e ∙ ends in rw stop e
]

-- The length of a string is found.
pub strlen-IsString : {s : Bytes} {at n : ℕ} → IsString s at n → n ≤ 27 → strlen_bound 28 s at 0 ≡ n
strlen-IsString {s} {at} {n} v le =
    strlen_bound-from 28 s at 0 n v.letters v.ends (omega arith) (omega arith)

-- What a length says of the bytes from `m` on.
strlen_bound-facts :
    (left : ℕ) (s : Bytes) (at m n : ℕ)
    → strlen_bound left s at m ≡ n
    → (m ≤ n) × ((k : ℕ) → m ≤ k → k < n → s (at + k) ≢ 0) × (n < m + left → s (at + n) ≡ 0)
unfolding strlen_bound
strlen_bound-facts zero s at m n e =
    (omega arith, λ k low high. absurd (omega arith), λ lt. absurd (omega arith))
strlen_bound-facts (suc left) s at m n e = elim (ℕ_discrete (s (at + m)) 0) [
  | yes stop ↦
      let here : m ≡ n = ground arith in
      (
        omega arith,
        λ k low high. absurd (omega arith),
        λ lt. ap (λ x. s (at + x)) (sym here) ∙ stop,
      )
  | no more ↦
      let rest = strlen_bound-facts left s at (m + 1) n (sym (strlen_skip left s at m more) ∙ e) in
      (
        omega (arith, rest.0),
        λ k low high. elim (ℕ_discrete k m) [
          | yes same ↦ λ z. more (ap (λ x. s (at + x)) (sym same) ∙ z)
          | no ne ↦ rest.1 k (omega arith) high
        ],
        λ lt. rest.2 (omega arith),
      )
]

pub IsString-strlen : {s : Bytes} {at n : ℕ} → strlen_bound 28 s at 0 ≡ n → n ≤ 27 → IsString s at n
IsString-strlen {s} {at} {n} e le =
    let v = strlen_bound-facts 28 s at 0 n e in
    record { letters = λ k lt. v.1 k (omega arith) lt; ends = v.2 (omega arith) }

-- A valid name is a string of one to 27 bytes.
pub valid_name-IsString :
    (name : Bytes) (n : ℕ) → valid_name name ≡ ok n → IsString name 0 n × (n ≢ 0) × (n ≤ 27)
unfolding valid_name
valid_name-IsString name n e =
    let len : strlen_bound 28 name 0 0 ≡ n = ground arith in
    let le : n ≤ 27 = ground arith in (IsString-strlen len le, ground arith, le)

pub mem_equal_sound :
    (n : ℕ) (a : Bytes) (at : ℕ) (b : Bytes) (from : ℕ)
    → mem_equal n a at b from ≡ true
    → (k : ℕ) → k < n
    → a (at + k) ≡ b (from + k)
unfolding mem_equal
mem_equal_sound zero a at b from e k lt = absurd (omega arith)
mem_equal_sound (suc n) a at b from e zero lt =
    let here : a at ≡ b from = ground arith in
    let p : at + 0 ≡ at = omega arith in
    let q : from ≡ from + 0 = omega arith in ap a p ∙ here ∙ ap b q
mem_equal_sound (suc n) a at b from e (suc k) lt =
    let rest : mem_equal n a (at + 1) b (from + 1) ≡ true = ground arith in
    let p : at + suc k ≡ at + 1 + k = omega arith in
    let q : from + 1 + k ≡ from + suc k = omega arith in
    ap a p ∙ mem_equal_sound n a (at + 1) b (from + 1) rest k (omega arith) ∙ ap b q

pub mem_equal_complete :
    (n : ℕ) (a : Bytes) (at : ℕ) (b : Bytes) (from : ℕ)
    → ((k : ℕ) → k < n → a (at + k) ≡ b (from + k))
    → mem_equal n a at b from ≡ true
unfolding mem_equal
mem_equal_complete zero a at b from h = refl
mem_equal_complete (suc n) a at b from h =
    let p : at ≡ at + 0 = omega arith in
    let q : from + 0 ≡ from = omega arith in
    let here : a at ≡ b from = ap a p ∙ h 0 (omega arith) ∙ ap b q in
    let rest = mem_equal_complete n a (at + 1) b (from + 1) λ k lt.
      let p' : at + 1 + k ≡ at + suc k = omega arith in
      let q' : from + suc k ≡ from + 1 + k = omega arith in
      ap a p' ∙ h (suc k) (omega arith) ∙ ap b q' in
    rw here (rw (==_self (b from)) rest)
