-- ===== src/Vfs/Copy.antt =====
-- kernel/vfs/fd.c: what the loops that copy bytes leave at each place.
use m4_trio.Base.{
  ℕ, zero, suc, lt→ltb, some, ◌+◌, ◌≤◌, ◌<◌, ◌≡◌, ◌≢◌, ◌⊎◌, inl, refl, sym, ap, ◌∙◌, ==_self, ne→==,
  add64, u64_mod, arith,
}
use m4_trio.Vfs.{Bytes, set, data_bytes, store_bytes, fetch_bytes}
use mathlib.Core.Option.{some-injective}
use native.Mathlib.Decide.{ℕ_discrete}

pub set_self : {A : Type 0} (f : ℕ → A) (at : ℕ) (a : A) → set f at a at ≡ a
set_self f at a = rw (==_self at) refl

pub set_ne : {A : Type 0} (f : ℕ → A) (at : ℕ) (a : A) (k : ℕ) → k ≢ at → set f at a k ≡ f k
set_ne f at a k ne = rw (ne→== k at ne) refl

-- The loops where every access is inside the array.
unfoldable pub poke : ℕ → ℕ → Bytes → ℕ → Bytes → Bytes
poke zero i dst at src = dst
poke (suc left) i dst at src = poke left (i + 1) (set dst (add64 at i) (src i)) at src

unfoldable pub peek : ℕ → ℕ → Bytes → ℕ → Bytes → Bytes
peek zero i dst at src = dst
peek (suc left) i dst at src = peek left (i + 1) (set dst i (src (add64 at i))) at src

pub store_bytes_fits :
    (left i : ℕ) (dst : Bytes) (at : ℕ) (src : Bytes)
    → at + (i + left) ≤ data_bytes
    → store_bytes left i dst at src ≡ some (poke left i dst at src)
unfolding store_bytes poke
store_bytes_fits zero i dst at src fits = refl
store_bytes_fits (suc left) i dst at src fits =
    rw (lt→ltb (add64 at i) data_bytes (omega arith))
      (store_bytes_fits left (i + 1) (set dst (add64 at i) (src i)) at src (omega arith))

pub store_bytes-some :
    (left i : ℕ) (dst : Bytes) (at : ℕ) (src out : Bytes)
    → store_bytes left i dst at src ≡ some out
    → out ≡ poke left i dst at src
unfolding store_bytes poke
store_bytes-some zero i dst at src out e = sym (some-injective _ _ e)
store_bytes-some (suc left) i dst at src out e =
    ground (arith, store_bytes-some left (i + 1) (set dst (add64 at i) (src i)) at src out)

pub fetch_bytes_fits :
    (left i : ℕ) (dst : Bytes) (at : ℕ) (src : Bytes)
    → at + (i + left) ≤ data_bytes
    → fetch_bytes left i dst at src ≡ some (peek left i dst at src)
unfolding fetch_bytes peek
fetch_bytes_fits zero i dst at src fits = refl
fetch_bytes_fits (suc left) i dst at src fits =
    rw (lt→ltb (add64 at i) data_bytes (omega arith))
      (fetch_bytes_fits left (i + 1) (set dst i (src (add64 at i))) at src (omega arith))

pub poke_outside :
    (left i : ℕ) (dst : Bytes) (at : ℕ) (src : Bytes) (k : ℕ)
    → at + (i + left) ≤ u64_mod
    → (k < at + i) ⊎ (at + (i + left) ≤ k)
    → poke left i dst at src k ≡ dst k
unfolding poke
poke_outside zero i dst at src k fits out = refl
poke_outside (suc left) i dst at src k fits out =
    poke_outside left (i + 1) (set dst (add64 at i) (src i)) at src k (omega arith) (ground arith)
    ∙ set_ne dst (add64 at i) (src i) k (ground arith)

pub poke_inside :
    (left i : ℕ) (dst : Bytes) (at : ℕ) (src : Bytes) (j : ℕ)
    → at + (i + left) ≤ u64_mod
    → i ≤ j
    → j < i + left
    → poke left i dst at src (at + j) ≡ src j
unfolding poke
poke_inside zero i dst at src j fits low high = absurd (omega arith)
poke_inside (suc left) i dst at src j fits low high =
    let next = set dst (add64 at i) (src i) in
    elim (ℕ_discrete j i) [
      | no ne ↦ poke_inside left (i + 1) next at src j (omega arith) (omega arith) (omega arith)
      | yes e ↦
          let to : at + j ≡ add64 at i = omega (arith, e, fits) in
          poke_outside left (i + 1) next at src (at + j) (omega arith) (inl (omega (arith, e)))
          ∙ ap next to
          ∙ set_self dst (add64 at i) (src i)
          ∙ ap src (sym e)
    ]

pub peek_outside :
    (left i : ℕ) (dst : Bytes) (at : ℕ) (src : Bytes) (k : ℕ)
    → (k < i) ⊎ (i + left ≤ k)
    → peek left i dst at src k ≡ dst k
unfolding peek
peek_outside zero i dst at src k out = refl
peek_outside (suc left) i dst at src k out =
    peek_outside left (i + 1) (set dst i (src (add64 at i))) at src k (ground arith)
    ∙ set_ne dst i (src (add64 at i)) k (ground arith)

pub peek_inside :
    (left i : ℕ) (dst : Bytes) (at : ℕ) (src : Bytes) (j : ℕ)
    → at + (i + left) ≤ u64_mod
    → i ≤ j
    → j < i + left
    → peek left i dst at src j ≡ src (at + j)
unfolding peek
peek_inside zero i dst at src j fits low high = absurd (omega arith)
peek_inside (suc left) i dst at src j fits low high =
    let next = set dst i (src (add64 at i)) in
    elim (ℕ_discrete j i) [
      | no ne ↦ peek_inside left (i + 1) next at src j (omega arith) (omega arith) (omega arith)
      | yes e ↦
          let to : add64 at i ≡ at + j = omega (arith, e, fits) in
          peek_outside left (i + 1) next at src j (inl (omega (arith, e)))
          ∙ ap next e
          ∙ set_self dst i (src (add64 at i))
          ∙ ap src to
    ]
