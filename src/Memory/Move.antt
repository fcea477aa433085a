-- ===== src/Memory/Move.antt =====
-- kernel/lib/memory.c: what a copy leaves, when the two ranges overlap as well.
use m4_trio.Base.{
  ℕ, zero, suc, ◌+◌, ◌≤◌, ◌<◌, ◌≡◌, ◌≢◌, ◌⊎◌, inl, inr, refl, sym, ap, ◌∙◌, ==_self, ne→==, lt→ltb,
  le→ltb, arith,
}
use m4_trio.Memory.{Bytes, store, memcpy, copy_down, memmove}
use native.Mathlib.Decide.{ℕ_discrete, dec_lt}

store_self : (mem : Bytes) (at v : ℕ) → store mem at v at ≡ v
store_self mem at v = rw (==_self at) refl

store_ne : (mem : Bytes) (at v k : ℕ) → k ≢ at → store mem at v k ≡ mem k
store_ne mem at v k ne = rw (ne→== k at ne) refl

-- The range at `dest` has what was at `src`, and no other byte has changed.
pub record Moved (dest src count : ℕ) (mem mem' : Bytes) : Type 0 where
  pub inside : (k : ℕ) → k < count → mem' (dest + k) ≡ mem (src + k)
  pub outside : (at : ℕ) → (at < dest) ⊎ (dest + count ≤ at) → mem' at ≡ mem at

memcpy_outside :
    (dest src count : ℕ) (mem : Bytes) (at : ℕ)
    → (at < dest) ⊎ (dest + count ≤ at)
    → memcpy dest src count mem at ≡ mem at
unfolding memcpy
memcpy_outside dest src zero mem at out = refl
memcpy_outside dest src (suc count) mem at out =
    memcpy_outside (dest + 1) (src + 1) count (store mem dest (mem src)) at (ground arith)
    ∙ store_ne mem dest (mem src) at (ground arith)

memcpy_inside :
    (dest src count : ℕ) (mem : Bytes) (k : ℕ)
    → dest < src
    → k < count
    → memcpy dest src count mem (dest + k) ≡ mem (src + k)
unfolding memcpy
memcpy_inside dest src zero mem k below lt = absurd (omega arith)
memcpy_inside dest src (suc count) mem zero below lt =
    let next = store mem dest (mem src) in
    let to : dest + 0 ≡ dest = omega arith in
    let start : src ≡ src + 0 = omega arith in
    ap (memcpy (dest + 1) (src + 1) count next) to
    ∙ memcpy_outside (dest + 1) (src + 1) count next dest (inl (omega arith))
    ∙ store_self mem dest (mem src)
    ∙ ap mem start
memcpy_inside dest src (suc count) mem (suc k) below lt =
    let next = store mem dest (mem src) in
    let to : dest + suc k ≡ dest + 1 + k = omega arith in
    let start : src + 1 + k ≡ src + suc k = omega arith in
    ap (memcpy (dest + 1) (src + 1) count next) to
    ∙ memcpy_inside (dest + 1) (src + 1) count next k (omega arith) (omega arith)
    ∙ store_ne mem dest (mem src) (src + 1 + k) (λ e. omega (arith, e, below))
    ∙ ap mem start

copy_down_outside :
    (dest src count : ℕ) (mem : Bytes) (at : ℕ)
    → (at < dest) ⊎ (dest + count ≤ at)
    → copy_down dest src count mem at ≡ mem at
unfolding copy_down
copy_down_outside dest src zero mem at out = refl
copy_down_outside dest src (suc count) mem at out =
    copy_down_outside dest src count (store mem (dest + count) (mem (src + count))) at
      (ground arith)
    ∙ store_ne mem (dest + count) (mem (src + count)) at (ground arith)

copy_down_inside :
    (dest src count : ℕ) (mem : Bytes) (k : ℕ)
    → src < dest
    → k < count
    → copy_down dest src count mem (dest + k) ≡ mem (src + k)
unfolding copy_down
copy_down_inside dest src zero mem k above lt = absurd (omega arith)
copy_down_inside dest src (suc count) mem k above lt =
    let next = store mem (dest + count) (mem (src + count)) in
    elim (ℕ_discrete k count) [
      | yes e ↦
          ap (λ x. copy_down dest src count next (dest + x)) e
          ∙ copy_down_outside dest src count next (dest + count) (inr (omega arith))
          ∙ store_self mem (dest + count) (mem (src + count))
          ∙ ap (λ x. mem (src + x)) (sym e)
      | no ne ↦
          copy_down_inside dest src count next k above (omega arith)
          ∙ store_ne mem (dest + count) (mem (src + count)) (src + k)
              (λ e. omega (arith, e, above, lt, ne))
    ]

-- A memmove leaves in the range at `dest` what was in the range at `src` before, whether the two
-- overlap or not, and changes no other byte.
pub memmove-Moved :
    (dest src count : ℕ) (mem : Bytes) → Moved dest src count mem (memmove dest src count mem)
unfolding memmove
memmove-Moved dest src count mem = elim (ℕ_discrete dest src) [
  | yes same ↦
      rw (memmove, same)
        (rw (==_self src) (record { inside = λ k lt. refl; outside = λ at out. refl }))
  | no ne ↦ elim (ℕ_discrete count 0) [
    | yes z ↦
        rw (memmove, ne→== dest src ne)
          (rw z (record { inside = λ k lt. absurd (omega arith); outside = λ at out. refl }))
    | no some_byte ↦ elim (dec_lt dest src) [
      | yes below ↦
          rw (memmove, ne→== dest src ne)
            (rw (ne→== count 0 some_byte) (
              rw (lt→ltb dest src below) (record {
                inside = λ k lt. memcpy_inside dest src count mem k below lt;
                outside = memcpy_outside dest src count mem;
              })))
      | no above ↦
          rw (memmove, ne→== dest src ne)
            (rw (ne→== count 0 some_byte) (
              rw (le→ltb dest src (omega arith)) (record {
                inside =
                    λ k lt. copy_down_inside dest src count mem k (omega (arith, above, ne)) lt;
                outside = copy_down_outside dest src count mem;
              })))
    ]
  ]
]
