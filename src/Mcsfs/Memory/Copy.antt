-- ===== src/Mcsfs/Memory/Copy.antt =====
-- What a fill, a copy and a search of memory leave or find at each offset.
use m4_trio.Base.{
  ℕ, zero, suc, ◌+◌, ◌-◌, ◌%◌, ◌≤◌, ◌<◌, ◌≡◌, ◌≢◌, ◌⊎◌, inl, refl, ap, ◌∙◌, true, false, ==_self,
  ne→==, none, some, arith,
}
use native.Mathlib.Decide.{dec_lt}
use m4_trio.Mcsfs.{Bytes}
use m4_trio.Mcsfs.Memory.{store8, memset, memcpy, first_clear, bit_test}

pub store8_self : (b : Bytes) (at v : ℕ) → store8 b at v at ≡ v
store8_self b at v = rw (==_self at) refl

pub store8_ne : (b : Bytes) (at v k : ℕ) → k ≢ at → store8 b at v k ≡ b k
store8_ne b at v k ne = rw (ne→== k at ne) refl

pub memcpy_outside :
    (n : ℕ) (dst : Bytes) (at : ℕ) (src : Bytes) (from k : ℕ)
    → (k < at) ⊎ (at + n ≤ k)
    → memcpy n dst at src from k ≡ dst k
unfolding memcpy
memcpy_outside zero dst at src from k h = refl
memcpy_outside (suc n) dst at src from k h =
    memcpy_outside n (store8 dst at (src from)) (at + 1) src (from + 1) k (ground arith)
    ∙ store8_ne dst at (src from) k (ground arith)

pub memcpy_inside :
    (n : ℕ) (dst : Bytes) (at : ℕ) (src : Bytes) (from k : ℕ)
    → k < n
    → memcpy n dst at src from (at + k) ≡ src (from + k)
unfolding memcpy
memcpy_inside zero dst at src from k lt = elim lt [ ]
memcpy_inside (suc n) dst at src from zero lt =
    let to : at + 0 ≡ at = omega arith in
    let start : from + 0 ≡ from = omega arith in
    rw to (
      rw start (
        memcpy_outside n (store8 dst at (src from)) (at + 1) src (from + 1) at (inl (omega arith))
        ∙ store8_self dst at (src from)))
memcpy_inside (suc n) dst at src from (suc k) lt =
    let to : at + suc k ≡ at + 1 + k = omega arith in
    let start : from + suc k ≡ from + 1 + k = omega arith in
    rw to (
      rw start (memcpy_inside n (store8 dst at (src from)) (at + 1) src (from + 1) k (omega arith)))

pub memset_outside :
    (n : ℕ) (dst : Bytes) (at c k : ℕ) → (k < at) ⊎ (at + n ≤ k) → memset n dst at c k ≡ dst k
unfolding memset
memset_outside zero dst at c k h = refl
memset_outside (suc n) dst at c k h =
    memset_outside n (store8 dst at (c % 256)) (at + 1) c k (ground arith)
    ∙ store8_ne dst at (c % 256) k (ground arith)

pub memset_inside :
    (n : ℕ) (dst : Bytes) (at c k : ℕ) → at ≤ k → k < at + n → memset n dst at c k ≡ c % 256
unfolding memset
memset_inside zero dst at c k low high = absurd (omega arith)
memset_inside (suc n) dst at c k low high = elim (dec_lt at k) [
  | yes above ↦ memset_inside n (store8 dst at (c % 256)) (at + 1) c k (omega arith) (omega arith)
  | no same ↦
      let e : k ≡ at = omega arith in
      memset_outside n (store8 dst at (c % 256)) (at + 1) c k (inl (omega arith))
      ∙ ap (store8 dst at (c % 256)) e
      ∙ store8_self dst at (c % 256)
]

-- A search answers a clear bit in its range, or every bit of the range is set.
pub first_clear-some :
    (n i : ℕ) (b : Bytes) (k : ℕ)
    → first_clear n i b ≡ some k
    → (i ≤ k) × (k < i + n) × (bit_test b k ≡ false)
unfolding first_clear
first_clear-some zero i b k e = ground arith
first_clear-some (suc n) i b k e = ground (arith, first_clear-some n (i + 1) b k)

pub first_clear-none :
    (n i : ℕ) (b : Bytes)
    → first_clear n i b ≡ none
    → (k : ℕ) → i ≤ k
    → k < i + n
    → bit_test b k ≡ true
unfolding first_clear
first_clear-none zero i b e k low high = absurd (omega arith)
first_clear-none (suc n) i b e k low high = elim (dec_lt i k) [
  | yes above ↦ first_clear-none n (i + 1) b (ground arith) k (omega arith) (omega arith)
  | no same ↦ let at : k ≡ i = omega arith in rw at (ground arith)
]

-- The same with the offset in the whole, when one end of the copy is 0.
pub memcpy_to_start :
    (n : ℕ) (dst : Bytes) (src : Bytes) (from k : ℕ)
    → k < n
    → memcpy n dst 0 src from k ≡ src (from + k)
memcpy_to_start n dst src from k lt =
    let e : k ≡ 0 + k = omega arith in
    ap (memcpy n dst 0 src from) e ∙ memcpy_inside n dst 0 src from k lt

pub memcpy_from_start :
    (n : ℕ) (dst : Bytes) (at : ℕ) (src : Bytes) (k : ℕ)
    → at ≤ k
    → k < at + n
    → memcpy n dst at src 0 k ≡ src (k - at)
memcpy_from_start n dst at src k low high =
    let e : k ≡ at + (k - at) = omega arith in
    let e' : 0 + (k - at) ≡ k - at = omega arith in
    ap (memcpy n dst at src 0) e ∙ memcpy_inside n dst at src 0 (k - at) (omega arith) ∙ ap src e'
