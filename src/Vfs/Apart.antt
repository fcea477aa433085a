-- ===== src/Vfs/Apart.antt =====
-- kernel/vfs/fd.c: what a write leaves alone.
use m4_trio.Base.{
  ℕ, ◌+◌, ◌-◌, ◌*◌, ◌≤◌, ◌<◌, ◌≡◌, ◌≢◌, ◌⊎◌, inl, inr, ap, subst, ◌∙◌, Option, none, some,
  Option-cases, add64, arith,
}
use m4_trio.Vfs.{ℤ, Result, ok, Bytes, World}
use m4_trio.Vfs.Calls.{fd_get, stored, write_bytes, sys_write, to_long}
use m4_trio.Vfs.Copy.{set_self, set_ne, poke, poke_outside, store_bytes_fits, store_bytes-some}
use m4_trio.Vfs.Layout.{IsSound}
use m4_trio.Vfs.Invariant.{fd_get-some}
use m4_trio.Vfs.Run.{too_far}
use m4_trio.Vfs.Access.{written, sys_write-ok, sys_write-none}
use native.Mathlib.Decide.{dec_lt}

-- The bytes of two files do not meet.
apart :
    {a b : ℕ} (n m j offset len : ℕ)
    → a ≡ 256 * (n - 1)
    → b ≡ 256 * (m - 1)
    → n < 64
    → n ≢ 0
    → m ≢ 0
    → m ≢ n
    → j < 256
    → offset + len ≤ 256
    → (b + j < add64 a offset + 0) ⊎ (add64 a offset + (0 + len) ≤ b + j)
apart {a} {b} n m j offset len own theirs bound real some_file ne small fits =
    let start : add64 a offset ≡ a + offset = omega arith in
    elim (dec_lt m n) [
      | yes before ↦ inl (omega (arith, start))
      | no behind ↦ inr (omega (arith, start))
    ]

-- What a write through an open file, of the n-th file, does to byte `j` of the m-th.
pub data Kept (at n m j len : ℕ) (w : World) (out : Option (Result ℤ × World)) : Type 0 where
  behind : 32 < n → out ≡ none → Kept at n m j len w out
  kept :
      (w' : World)
      → out ≡ some (ok (to_long len), w')
      → (w'.filesystems at).nodes m ≡ (w.filesystems at).nodes m
      → (w'.filesystems at).bytes (((w.filesystems at).nodes m).data_offset + j)
        ≡ (w.filesystems at).bytes (((w.filesystems at).nodes m).data_offset + j)
      → Kept at n m j len w out

-- On a file system that is laid out, with every open file a node of it: a write through an open file
-- that is not the root's, and that ends within the file's 256 bytes, answers the number of bytes and
-- changes no byte, no size and no place of any other file. Only for a file behind the first 32, whose
-- bytes are behind the file system's array, may the write be undefined, and then nothing is said of
-- it.
pub write_apart :
    (at : ℕ) (w : World) (fd : ℤ) (k : ℕ) (buf : Bytes) (len : ℕ)
    → IsSound at w
    → fd_get w fd ≡ some k
    → (w.files k).node ≢ 0
    → (w.files k).offset + len ≤ 256
    → (m j : ℕ) → m ≢ 0
    → m < (w.filesystems at).node_count
    → m ≢ (w.files k).node
    → j < 256
    → Kept at (w.files k).node m j len w (sys_write w fd buf len)
unfolding stored write_bytes
write_apart at w fd k buf len v found real fits m j some_file lt ne small =
    let f = w.files k in
    let fs = w.filesystems at in
    let (k_lt, in_use) = fd_get-some w fd k found in
    let here = v.here k k_lt in_use in
    let low = v.node k k_lt in_use in
    let own = v.laid.place f.node real low in
    let theirs = v.laid.place m some_file lt in
    let bound = v.laid.bound in
    let start = add64 (fs.nodes f.node).data_offset f.offset in
    let poked = poke len 0 fs.bytes start buf in
    let stays =
      poke_outside len 0 fs.bytes start buf ((fs.nodes m).data_offset + j)
        (omega (arith, own, low, bound, fits))
        (apart f.node m j f.offset len own theirs (omega (arith, low, bound)) real some_file ne
          small fits) in
    elim (Option-cases (write_bytes (w.filesystems f.fs) f buf len)) [
      | inl e ↦
          let far =
            too_far _ poked (start + len)
              (λ le. store_bytes_fits len 0 fs.bytes start buf (omega (arith, le)))
              (subst (λ x. write_bytes (w.filesystems x) f buf len ≡ none) here e) in
          behind (omega (arith, far, own, low, bound, fits, real))
            (sys_write-none w fd k found buf len e)
      | inr (b, e) ↦
          let same : b ≡ poked =
            store_bytes-some len 0 fs.bytes start buf b
              (subst (λ x. write_bytes (w.filesystems x) f buf len ≡ some b) here e) in
          let now : (written w fd k found len b).filesystems at ≡ stored fs f len b =
            subst
              (λ x. (written w fd k found len b).filesystems x ≡ stored (w.filesystems x) f len b)
              here (set_self w.filesystems f.fs _) in
          kept (written w fd k found len b) (sys_write-ok w fd k found buf len b e)
            (ap (λ x. x.nodes m) now ∙ set_ne fs.nodes f.node _ m ne)
            (ap (λ x. x.bytes ((fs.nodes m).data_offset + j)) now
              ∙ ap (λ x. x ((fs.nodes m).data_offset + j)) same
              ∙ stays)
    ]
