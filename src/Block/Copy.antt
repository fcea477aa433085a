-- ===== src/Block/Copy.antt =====
-- What a copy leaves at each index.
use m4_trio.Base.{
  ℕ, zero, suc, ◌+◌, ◌≤◌, ◌<◌, ◌⊎◌, inl, List, length, get_or, set, length-set, get_or-set_self,
  get_or-set_ne, ◌≡◌, refl, subst, ◌∙◌, arith,
}
use m4_trio.Block.{copy}

pub length-copy :
    (n : ℕ) (dst : List ℕ) (at : ℕ) (src : List ℕ) (from : ℕ)
    → length (copy n dst at src from) ≡ length dst
unfolding copy
length-copy zero dst at src from = refl
length-copy (suc n) dst at src from =
    length-copy n (set dst at (get_or src from 0)) (at + 1) src (from + 1)
    ∙ length-set dst at (get_or src from 0)

pub copy_outside :
    (n : ℕ) (dst : List ℕ) (at : ℕ) (src : List ℕ) (from k : ℕ)
    → (k < at) ⊎ (at + n ≤ k)
    → get_or (copy n dst at src from) k 0 ≡ get_or dst k 0
unfolding copy
copy_outside zero dst at src from k h = refl
copy_outside (suc n) dst at src from k h =
    copy_outside n (set dst at (get_or src from 0)) (at + 1) src (from + 1) k (ground arith)
    ∙ get_or-set_ne dst at k (get_or src from 0) 0 (ground arith)

pub copy_inside :
    (n : ℕ) (dst : List ℕ) (at : ℕ) (src : List ℕ) (from k : ℕ)
    → at + n ≤ length dst
    → k < n
    → get_or (copy n dst at src from) (at + k) 0 ≡ get_or src (from + k) 0
unfolding copy
copy_inside (suc n) dst at src from zero fits lt =
    let to : at + 0 ≡ at = omega arith in
    let start : from + 0 ≡ from = omega arith in
    rw to (
      rw start (
        copy_outside n (set dst at (get_or src from 0)) (at + 1) src (from + 1) at
          (inl (omega arith))
        ∙ get_or-set_self dst at (get_or src from 0) 0 (omega arith)))
copy_inside (suc n) dst at src from (suc k) fits lt =
    let to : at + suc k ≡ at + 1 + k = omega arith in
    let start : from + suc k ≡ from + 1 + k = omega arith in
    rw to (
      rw start (
        copy_inside n (set dst at (get_or src from 0)) (at + 1) src (from + 1) k
          (omega (arith, length-set dst at (get_or src from 0))) (omega arith)))
copy_inside zero dst at src from k fits lt = elim lt [ ]

-- A copy from start to start.
pub copy_start :
    (n : ℕ) (dst src : List ℕ) (k : ℕ)
    → n ≤ length dst
    → k < n
    → get_or (copy n dst 0 src 0) k 0 ≡ get_or src k 0
copy_start n dst src k fits lt =
    let e : 0 + k ≡ k = omega arith in
    subst (λ x. get_or (copy n dst 0 src 0) x 0 ≡ get_or src x 0) e
      (copy_inside n dst 0 src 0 k (omega (arith, fits)) lt)
