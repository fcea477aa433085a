-- ===== src/Vfs/Access.antt =====
-- kernel/vfs/fd.c: what a write stores, and what a read answers after it.
use m4_trio.Base.{
  ℕ, ◌+◌, ◌≤◌, ◌<◌, ◌≡◌, inr, refl, ap, ◌∙◌, false, Option, none, some, Option-cases, inl, ltb, leb,
  ◌==◌, ◌||◌, if◌then◌else◌, add64, u64_mod, arith,
}
use mathlib.Core.Option
use m4_trio.Vfs.{
  ℤ, pos, negsuc, Result, ok, Bytes, Node, Ramfs, File, World, set, data_bytes, fetch_bytes,
}
use m4_trio.Vfs.Calls.{
  fd_get, stored, write_bytes, sys_read, sys_write, sys_lseek, seek_to, to_size, to_long, to_int,
  node_of, read_length,
}
use m4_trio.Vfs.Copy.{
  set_self, poke, peek, poke_inside, peek_inside, peek_outside, store_bytes_fits, fetch_bytes_fits,
}
use m4_trio.Vfs.Invariant.{fd_get-some}

fd_get-again :
    (w w' : World) (fd : ℤ) (k : ℕ)
    → fd_get w fd ≡ some k
    → (w'.files k).used ≡ (w.files k).used
    → fd_get w' fd ≡ some k
unfolding fd_get
fd_get-again w w' (negsuc n) k e same = ground arith
fd_get-again w w' (pos n) k e same =
    let at : n ≡ k = ground arith in
    let (lt, in_use) = fd_get-some w (pos n) k e in
    let test : (leb 16 k || (w'.files k).used == 0) ≡ false = ground (arith, lt, in_use, same) in
    rw (fd_get, at, test) refl

module _ (w : World) (fd : ℤ) (k : ℕ) (found : fd_get w fd ≡ some k) where
  abbrev file : File
  file = w.files k

  abbrev ramfs : Ramfs
  ramfs = w.filesystems file.fs

  -- The world after a write that leaves the bytes `b`.
  abbrev pub written : ℕ → Bytes → World
  written len b = record w {
    filesystems = set w.filesystems file.fs (stored ramfs file len b);
    files = set w.files k (record file { offset = add64 file.offset len });
  }

  pub sys_write-ok :
      (buf : Bytes) (len : ℕ) (b : Bytes)
      → write_bytes ramfs file buf len ≡ some b
      → sys_write w fd buf len ≡ some (ok (to_long len), written len b)
  unfolding sys_write
  sys_write-ok buf len b e = rw (sys_write, found) (rw e refl)

  pub sys_write-none :
      (buf : Bytes) (len : ℕ)
      → write_bytes ramfs file buf len ≡ none
      → sys_write w fd buf len ≡ none
  unfolding sys_write
  sys_write-none buf len e = rw (sys_write, found) (rw e refl)

  sys_lseek-ok :
      (to : ℕ)
      → sys_lseek w fd (pos to) (pos 0)
        ≡ (ok (to_int to), record w { files = set w.files k (record file { offset = to }) })
  unfolding sys_lseek seek_to to_size
  sys_lseek-ok to = rw (sys_lseek, found) refl

-- What a read answers, by the file system and the open file.
abbrev answer_of : Ramfs → File → Bytes → ℕ → Option (Result (ℤ × Bytes))
answer_of fs f buf len =
    let node = fs.nodes f.node in
    let n = read_length node f len in
    Option.map (λ b. ok (to_long n, b))
      (fetch_bytes n 0 buf (add64 node.data_offset f.offset) fs.bytes)

sys_read-ok :
    (w : World) (fd : ℤ) (k : ℕ)
    → fd_get w fd ≡ some k
    → (buf : Bytes) (len : ℕ)
    → Option.map (λ p. p.0) (sys_read w fd buf len)
      ≡ answer_of (w.filesystems (w.files k).fs) (w.files k) buf len
unfolding sys_read
sys_read-ok w fd k found buf len =
    let f = w.files k in
    let n = read_length (node_of w f) f len in
    let at = add64 (node_of w f).data_offset f.offset in
    elim (Option-cases (fetch_bytes n 0 buf at (w.filesystems f.fs).bytes)) [
      | inl e ↦ rw (sys_read, found) (rw e refl)
      | inr (b, e) ↦ rw (sys_read, found) (rw e refl)
    ]

module _ (fs : Ramfs) (f : File) (len : ℕ) (b : Bytes) where
  abbrev old : Node
  old = fs.nodes f.node

  abbrev new : Node
  new = (stored fs f len b).nodes f.node

  new_offset : new.data_offset ≡ old.data_offset
  unfolding stored
  new_offset = ap (λ x. x.data_offset) (set_self fs.nodes f.node _)

  new_size : new.size ≡ (if ltb old.size (add64 f.offset len) then add64 f.offset len else old.size)
  unfolding stored
  new_size = ap (λ x. x.size) (set_self fs.nodes f.node _)

  new_length : old.size < u64_mod → f.offset + len < u64_mod → read_length new f len ≡ len
  unfolding read_length
  new_length size fits =
      let end : add64 f.offset len ≡ f.offset + len = omega arith in
      let low : f.offset + len ≤ new.size = ground (arith, new_size, end) in
      let high : new.size < u64_mod = ground (arith, new_size, end, size, fits) in
      ground (arith, low, high)

  stored_answer :
      (buf0 : Bytes)
      → old.size < u64_mod
      → f.offset + len < u64_mod
      → answer_of (stored fs f len b) f buf0 len
        ≡ Option.map
            (λ x. ok (to_long len, x))
            (fetch_bytes len 0 buf0 (add64 old.data_offset f.offset) b)
  unfolding stored
  stored_answer buf0 size fits =
      ap
        (λ n.
          Option.map (λ x. ok (to_long n, x))
            (fetch_bytes n 0 buf0 (add64 new.data_offset f.offset) b))
        (new_length size fits)
      ∙ ap
          (λ o. Option.map (λ x. ok (to_long len, x)) (fetch_bytes len 0 buf0 (add64 o f.offset) b))
          new_offset

module _ (w : World) (fd : ℤ) (k : ℕ) (found : fd_get w fd ≡ some k) (len : ℕ) (b : Bytes) where
  -- The worlds after the write, and after the seek back.
  abbrev after : World
  after = written w fd k found len b

  abbrev back : World
  back = (sys_lseek after fd (pos (w.files k).offset) (pos 0)).1

  after_file : after.files k ≡ record (w.files k) { offset = add64 (w.files k).offset len }
  after_file = set_self w.files k _

  after_found : fd_get after fd ≡ some k
  after_found = fd_get-again w after fd k found (ap (λ x. x.used) after_file)

  back-sought : back ≡ record after {
    files = set after.files k (record (after.files k) { offset = (w.files k).offset });
  }
  back-sought = ap (λ p. p.1) (sys_lseek-ok after fd k after_found (w.files k).offset)

  back_file : back.files k ≡ w.files k
  back_file =
      ap (λ x. x.files k) back-sought
      ∙ set_self after.files k _
      ∙ ap {A = File} (λ f. record f { offset = (w.files k).offset }) after_file

  back_fs :
      back.filesystems (w.files k).fs ≡ stored (w.filesystems (w.files k).fs) (w.files k) len b
  back_fs =
      ap (λ x. x.filesystems (w.files k).fs) back-sought ∙ set_self w.filesystems (w.files k).fs _

  back_found : fd_get back fd ≡ some k
  back_found = fd_get-again w back fd k found (ap (λ x. x.used) back_file)

  back_answer :
      (buf0 : Bytes)
      → Option.map (λ p. p.0) (sys_read back fd buf0 len)
        ≡ answer_of (stored (w.filesystems (w.files k).fs) (w.files k) len b) (w.files k) buf0 len
  back_answer buf0 =
      sys_read-ok back fd k back_found buf0 len
      ∙ ap (λ f. answer_of (back.filesystems f.fs) f buf0 len) back_file
      ∙ ap (λ fs. answer_of fs (w.files k) buf0 len) back_fs

-- What a read answers: the bytes, and what was in the buffer behind them.
pub record Filled (buf buf0 : Bytes) (len : ℕ) (out : Option (Result (ℤ × Bytes) × World))
    : Type 0 where
  pub filled : Bytes
  pub answer : Option.map (λ p. p.0) out ≡ some (ok (to_long len, filled))
  pub inside : (j : ℕ) → j < len → filled j ≡ buf j
  pub outside : (j : ℕ) → len ≤ j → filled j ≡ buf0 j

-- Through an open file, where the bytes that are written end inside the file system's 8192 bytes:
-- the write answers their number. A read of as many, after a seek back to where the write began,
-- answers their number and these bytes, and leaves the rest of the buffer alone. The file's size is
-- a word.
pub write_seek_read :
    (w : World) (fd : ℤ) (k : ℕ) (buf buf0 : Bytes) (len : ℕ)
    → fd_get w fd ≡ some k
    → (node_of w (w.files k)).size < u64_mod
    → (node_of w (w.files k)).data_offset + (w.files k).offset + len ≤ data_bytes
    → (w' : World) × (sys_write w fd buf len ≡ some (ok (to_long len), w'))
      × Filled buf buf0 len
          (sys_read (sys_lseek w' fd (pos (w.files k).offset) (pos 0)).1 fd buf0 len)
unfolding write_bytes
write_seek_read w fd k buf buf0 len found size fits =
    let f = w.files k in
    let fs = w.filesystems f.fs in
    let at = add64 (node_of w f).data_offset f.offset in
    let near : at + (0 + len) ≤ data_bytes = omega (arith, fits) in
    let b = poke len 0 fs.bytes at buf in
    (
      written w fd k found len b,
      sys_write-ok w fd k found buf len b (store_bytes_fits len 0 fs.bytes at buf near),
      record {
        filled = peek len 0 buf0 at b;
        answer =
            back_answer w fd k found len b buf0
            ∙ stored_answer fs f len b buf0 size (omega (arith, fits))
            ∙ ap (Option.map (λ x. ok (to_long len, x))) (fetch_bytes_fits len 0 buf0 at b near);
        inside = λ j lt.
            peek_inside len 0 buf0 at b j (omega (arith, near)) (omega arith) (omega (arith, lt))
            ∙ poke_inside len 0 fs.bytes at buf j (omega (arith, near)) (omega arith)
                (omega (arith, lt));
        outside = λ j ge. peek_outside len 0 buf0 at b j (inr (omega (arith, ge)));
      },
    )
