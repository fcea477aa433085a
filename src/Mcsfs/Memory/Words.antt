-- ===== src/Mcsfs/Memory/Words.antt =====
-- Fields of structures: what a store leaves in them, and in the others.
use m4_trio.Base.{ℕ, ◌+◌, ◌≤◌, ◌<◌, ◌≡◌, ◌⊎◌, sym, ap, ◌∙◌, arith}
use m4_trio.Mcsfs.{Bytes}
use m4_trio.Mcsfs.Memory.{memcpy, load16, load32, store32}
use m4_trio.Mcsfs.Memory.Copy.{memcpy_inside, memcpy_outside}

-- Two stretches of bytes have no byte in common.
abbrev pub Beside : ℕ → ℕ → ℕ → ℕ → Type 0
Beside a m b n = (a + m ≤ b) ⊎ (b + n ≤ a)

pub load32-at :
    (a b : Bytes) (at to : ℕ)
    → ((k : ℕ) → k < 4 → a (at + k) ≡ b (to + k))
    → load32 a at ≡ load32 b to
unfolding load32
load32-at a b at to e =
    let e0 : a at ≡ b to = same (omega arith) (omega arith) (e 0 (omega arith)) in
    omega (arith, e0, e 1 (omega arith), e 2 (omega arith), e 3 (omega arith))
  where
    same : {i j m n : ℕ} → i ≡ m → j ≡ n → a m ≡ b n → a i ≡ b j
    same p q h = ap a p ∙ h ∙ ap b (sym q)

pub store32_outside : (b : Bytes) (at v k : ℕ) → (k < at) ⊎ (at + 4 ≤ k) → store32 b at v k ≡ b k
unfolding store32
store32_outside b at v k h = ground arith

pub load32-store32 : (b : Bytes) (at v : ℕ) → v < 4294967296 → load32 (store32 b at v) at ≡ v
unfolding load32 store32
load32-store32 b at v lt = ground arith

pub load32-store32-Beside :
    (b : Bytes) (at v to : ℕ) → Beside at 4 to 4 → load32 (store32 b at v) to ≡ load32 b to
load32-store32-Beside b at v to h =
    load32-at (store32 b at v) b to to λ k lt. store32_outside b at v (to + k) (ground arith)

pub load16-store32-Beside :
    (b : Bytes) (at v to : ℕ) → Beside at 4 to 2 → load16 (store32 b at v) to ≡ load16 b to
unfolding load16
load16-store32-Beside b at v to h = omega (
  arith,
  store32_outside b at v to (ground arith),
  store32_outside b at v (to + 1) (ground arith),
)

-- A field of an object that was copied whole.
pub load32-memcpy :
    (n : ℕ) (dst : Bytes) (at : ℕ) (src : Bytes) (from k : ℕ)
    → k + 4 ≤ n
    → load32 (memcpy n dst at src from) (at + k) ≡ load32 src (from + k)
load32-memcpy n dst at src from k fits =
    load32-at (memcpy n dst at src from) src (at + k) (from + k) λ j lt.
      let p : at + k + j ≡ at + (k + j) = omega arith in
      let q : from + (k + j) ≡ from + k + j = omega arith in
      ap (memcpy n dst at src from) p
      ∙ memcpy_inside n dst at src from (k + j) (omega arith)
      ∙ ap src q

pub load32-memcpy-Beside :
    (n : ℕ) (dst : Bytes) (at : ℕ) (src : Bytes) (from k : ℕ)
    → Beside at n k 4
    → load32 (memcpy n dst at src from) k ≡ load32 dst k
load32-memcpy-Beside n dst at src from k h =
    load32-at (memcpy n dst at src from) dst k k
      λ j lt. memcpy_outside n dst at src from (k + j) (ground arith)

pub load16-at :
    (a b : Bytes) (at : ℕ) → ((k : ℕ) → k < 2 → a (at + k) ≡ b (at + k)) → load16 a at ≡ load16 b at
unfolding load16
load16-at a b at e =
    let to : at ≡ at + 0 = omega arith in
    let e0 : a at ≡ b at = ap a to ∙ e 0 (omega arith) ∙ ap b (sym to) in
    omega (arith, e0, e 1 (omega arith))
