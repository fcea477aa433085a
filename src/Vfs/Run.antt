-- ===== src/Vfs/Run.antt =====
-- kernel/vfs/fd.c: sequences of calls, and how far the file system's layout holds through them.
use m4_trio.Base.{
  ℕ, ◌+◌, ◌≤◌, ◌<◌, ◌≡◌, ◌≢◌, inl, inr, refl, sym, ap, ◌∙◌, Option, none, some, List, [], ◌∷◌, ◌++◌,
  Option-cases, add64, arith,
}
use mathlib.Core.Option
use m4_trio.Vfs.{ℤ, Bytes, World, set, data_bytes, store_bytes, fetch_bytes}
use m4_trio.Vfs.Calls.{
  fd_get, sys_open, sys_read, read_length, write_bytes, sys_write, sys_close, sys_lseek, node_of,
}
use m4_trio.Vfs.Copy.{poke, peek, store_bytes_fits, fetch_bytes_fits}
use m4_trio.Vfs.Layout.{IsSound}
use m4_trio.Vfs.Invariant.{
  sys_open-IsSound, moved-IsSound, sys_close-IsSound, sys_lseek-IsSound, written-IsSound,
}
use native.Mathlib.Decide.{dec_lt}

-- A call of a process on one file system.
pub data Call : Type 0 where
  open_file : Option Bytes → ℕ → Call
  read_file write_file : ℤ → Bytes → ℕ → Call
  close_file : ℤ → Call
  seek_file : ℤ → ℤ → ℤ → Call

-- The world after a call, or `none` when it reaches behind the file system's bytes.
unfoldable pub call : ℕ → World → Call → Option World
call at w (open_file path flags) = some (sys_open w at path flags).1
call at w (read_file fd buf len) = Option.map (λ p. p.1) (sys_read w fd buf len)
call at w (write_file fd buf len) = Option.map (λ p. p.1) (sys_write w fd buf len)
call at w (close_file fd) = some (sys_close w fd).1
call at w (seek_file fd offset whence) = some (sys_lseek w fd offset whence).1

unfoldable pub run : ℕ → World → List Call → Option World
run at w [] = some w
run at w (c ∷ cs) = elim (call at w c) [ none ↦ none | some w' ↦ run at w' cs ]

-- The place in the file system's bytes where a read or a write of an open file begins.
abbrev pub place_of : World → ℕ → ℕ
place_of w k = add64 (node_of w (w.files k)).data_offset (w.files k).offset

-- The call reads or writes behind the file system's bytes.
pub data Leaves (w : World) : Call → Type 0 where
  read_leaves :
      (fd : ℤ) (k : ℕ) (buf : Bytes) (len : ℕ)
      → fd_get w fd ≡ some k
      → data_bytes < place_of w k + read_length (node_of w (w.files k)) (w.files k) len
      → Leaves w (read_file fd buf len)
  write_leaves :
      (fd : ℤ) (k : ℕ) (buf : Bytes) (len : ℕ)
      → fd_get w fd ≡ some k
      → data_bytes < place_of w k + len
      → Leaves w (write_file fd buf len)

data Stepped (at : ℕ) (w : World) (c : Call) : Type 0 where
  steps : (w' : World) → call at w c ≡ some w' → IsSound at w' → Stepped at w c
  leaves : Leaves w c → call at w c ≡ none → Stepped at w c

-- A copy that ends in the array goes through.
pub too_far :
    {A : Type 0} (o : Option A) (a : A) (far : ℕ)
    → (far ≤ data_bytes → o ≡ some a)
    → o ≡ none
    → data_bytes < far
too_far {A} o a far fits e = elim (dec_lt data_bytes far) [
  | yes lt ↦ lt
  | no near ↦ absurd (split (sym e ∙ fits (omega arith)))
]
  where
    split : ◌≢◌ {A = Option A} none (some a)
    split h = cc

read-Stepped :
    {at : ℕ} {w : World} (fd : ℤ) (buf : Bytes) (len : ℕ)
    → IsSound at w
    → Stepped at w (read_file fd buf len)
unfolding call sys_read
read-Stepped {at} {w} fd buf len v = elim (Option-cases (fd_get w fd)) [
  | inl e ↦ steps w (rw (call, sys_read, e) refl) v
  | inr (k, e) ↦
      let f = w.files k in
      let n = read_length (node_of w f) f len in
      let bytes = (w.filesystems f.fs).bytes in
      elim (Option-cases (fetch_bytes n 0 buf (place_of w k) bytes)) [
        | inl x ↦
            leaves
              (read_leaves fd k buf len e (
                too_far _ (peek n 0 buf (place_of w k) bytes) (place_of w k + n)
                  (λ le. fetch_bytes_fits n 0 buf (place_of w k) bytes (omega (arith, le))) x))
              (rw (call, sys_read, e) (rw x refl))
        | inr (b, x) ↦
            steps (record w { files = set w.files k (record f { offset = add64 f.offset n }) })
              (rw (call, sys_read, e) (rw x refl)) (moved-IsSound v fd k _ e refl refl)
      ]
]

write-Stepped :
    {at : ℕ} {w : World} (fd : ℤ) (buf : Bytes) (len : ℕ)
    → IsSound at w
    → Stepped at w (write_file fd buf len)
unfolding call sys_write write_bytes
write-Stepped {at} {w} fd buf len v = elim (Option-cases (fd_get w fd)) [
  | inl e ↦ steps w (rw (call, sys_write, e) refl) v
  | inr (k, e) ↦
      let f = w.files k in
      let bytes = (w.filesystems f.fs).bytes in
      elim (Option-cases (store_bytes len 0 bytes (place_of w k) buf)) [
        | inl x ↦
            leaves
              (write_leaves fd k buf len e (
                too_far _ (poke len 0 bytes (place_of w k) buf) (place_of w k + len)
                  (λ le. store_bytes_fits len 0 bytes (place_of w k) buf (omega (arith, le))) x))
              (rw (call, sys_write, e) (rw x refl))
        | inr (b, x) ↦
            steps _ (rw (call, sys_write, e) (rw x refl)) (written-IsSound v fd k len b e)
      ]
]

call-Stepped : {at : ℕ} {w : World} (c : Call) → IsSound at w → Stepped at w c
unfolding call
call-Stepped (open_file path flags) v = steps _ refl (sys_open-IsSound v path flags)
call-Stepped (read_file fd buf len) v = read-Stepped fd buf len v
call-Stepped (write_file fd buf len) v = write-Stepped fd buf len v
call-Stepped (close_file fd) v = steps _ refl (sys_close-IsSound v fd)
call-Stepped (seek_file fd offset whence) v = steps _ refl (sys_lseek-IsSound v fd offset whence)

-- What a sequence of calls comes to.
pub data Ran (at : ℕ) (w : World) (cs : List Call) : Type 0 where
  ends : (w' : World) → run at w cs ≡ some w' → IsSound at w' → Ran at w cs
  stops :
      (before : List Call) (w' : World) (c : Call) (behind : List Call)
      → cs ≡ before ++ c ∷ behind
      → run at w before ≡ some w'
      → IsSound at w'
      → Leaves w' c
      → run at w cs ≡ none
      → Ran at w cs

-- Every sequence of calls of a process on one file system, whatever their arguments, either ends or
-- comes to a first read or write that reaches behind the file system's 8192 bytes, where C says
-- nothing of what happens. At its end, or before that call, the file system is laid out as at the
-- start: it has at most 64 nodes, the place of the n-th file is byte 256 * (n - 1), which is inside
-- the 8192 bytes for the first 32 files, and every open file is a node of it.
pub run-Ran : (at : ℕ) (w : World) (cs : List Call) → IsSound at w → Ran at w cs
unfolding run
run-Ran at w [] v = ends w refl v
run-Ran at w (c ∷ cs) v = elim (call-Stepped c v) [
  | leaves l e ↦ stops [] w c cs refl refl v l (rw (run, e) refl)
  | steps w1 e v1 ↦ elim (run-Ran at w1 cs v1) [
    | ends w2 f v2 ↦ ends w2 (rw (run, e) f) v2
    | stops before w2 d behind split f v2 l g ↦
        stops (c ∷ before) w2 d behind (ap (λ x. c ∷ x) split) (rw (run, e) f) v2 l (rw (run, e) g)
  ]
]
