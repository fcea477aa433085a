-- ===== src/Vfs/Invariant.antt =====
-- kernel/vfs/fd.c: the calls of a process keep the file system laid out and its files in place.
use m4_trio.Base.{
  ℕ, ◌≤◌, ◌<◌, ◌≡◌, ◌≢◌, inl, inr, refl, sym, ap, subst, ◌∙◌, Option, none, some, Bool-cases,
  Option-cases, not, ◌==◌, add64, arith,
}
use m4_trio.Vfs.{ℤ, pos, negsuc, Result, ok, err, Bytes, Ramfs, File, World, set}
use m4_trio.Vfs.Nodes.{lookup}
use m4_trio.Vfs.Calls.{fd_get, fd_alloc, attach, open_at, sys_open, stored, sys_close, sys_lseek}
use m4_trio.Vfs.Copy.{set_self, set_ne}
use m4_trio.Vfs.Layout.{IsLaid, IsSound}
use m4_trio.Vfs.Resolve.{lookup-some, Resolved, resolve-Resolved}
use native.Mathlib.Decide.{ℕ_discrete}

-- A file is changed to one that is in place.
file-IsSound :
    {at : ℕ} {w : World} (k : ℕ) (f : File)
    → IsSound at w
    → (f.used ≢ 0 → (f.fs ≡ at) × (f.node < (w.filesystems at).node_count))
    → IsSound at (record w { files = set w.files k f })
file-IsSound {at} {w} k f v good = record {
  laid = v.laid;
  here = λ j lt in_use. elim (ℕ_discrete j k) [
    | yes e ↦
        let same = ap (set w.files k f) e ∙ set_self w.files k f in
        ap (λ x. x.fs) same ∙ (good (subst (λ x. x.used ≢ 0) same in_use)).0
    | no ne ↦
        let same = set_ne w.files k f j ne in
        ap (λ x. x.fs) same ∙ v.here j lt (subst (λ x. x.used ≢ 0) same in_use)
  ];
  node = λ j lt in_use. elim (ℕ_discrete j k) [
    | yes e ↦
        let same = ap (set w.files k f) e ∙ set_self w.files k f in
        subst (λ x. x.node < (w.filesystems at).node_count) (sym same)
          (good (subst (λ x. x.used ≢ 0) same in_use)).1
    | no ne ↦
        let same = set_ne w.files k f j ne in
        subst (λ x. x.node < (w.filesystems at).node_count) (sym same)
          (v.node j lt (subst (λ x. x.used ≢ 0) same in_use))
  ];
}

-- The file system is changed to one with no fewer nodes.
fs-IsSound :
    {at : ℕ} {w : World} (fs : Ramfs)
    → IsSound at w
    → IsLaid fs
    → (w.filesystems at).node_count ≤ fs.node_count
    → IsSound at (record w { filesystems = set w.filesystems at fs })
fs-IsSound {at} {w} fs v laid more =
    let same = set_self w.filesystems at fs in
    record {
      laid = subst IsLaid (sym same) laid;
      here = v.here;
      node = λ k lt in_use.
          subst (λ x. (w.files k).node < x.node_count) (sym same)
            (omega (arith, v.node k lt in_use, more));
    }

stored-IsLaid :
    (fs : Ramfs) (f : File) (len : ℕ) (b : Bytes) → IsLaid fs → IsLaid (stored fs f len b)
unfolding stored
stored-IsLaid fs f len b v = record {
  some_node = v.some_node;
  bound = v.bound;
  used = v.used;
  place = λ n ne lt. elim (ℕ_discrete n f.node) [
    | yes e ↦
        ap (λ x. x.data_offset) (ap (set fs.nodes f.node _) e ∙ set_self fs.nodes f.node _)
        ∙ ap (λ k. (fs.nodes k).data_offset) (sym e)
        ∙ v.place n ne lt
    | no away ↦ ap (λ x. x.data_offset) (set_ne fs.nodes f.node _ n away) ∙ v.place n ne lt
  ];
  capacity = λ n ne lt. elim (ℕ_discrete n f.node) [
    | yes e ↦
        ap (λ x. x.data_capacity) (ap (set fs.nodes f.node _) e ∙ set_self fs.nodes f.node _)
        ∙ ap (λ k. (fs.nodes k).data_capacity) (sym e)
        ∙ v.capacity n ne lt
    | no away ↦ ap (λ x. x.data_capacity) (set_ne fs.nodes f.node _ n away) ∙ v.capacity n ne lt
  ];
}

stored-count :
    (fs : Ramfs) (f : File) (len : ℕ) (b : Bytes) → (stored fs f len b).node_count ≡ fs.node_count
unfolding stored
stored-count fs f len b = refl

-- What the place of an open file says.
pub fd_get-some :
    (w : World) (fd : ℤ) (k : ℕ) → fd_get w fd ≡ some k → (k < 16) × ((w.files k).used ≢ 0)
unfolding fd_get
fd_get-some w (negsuc n) k e = ground arith
fd_get-some w (pos n) k e = ground arith

module _ {at : ℕ} {w : World} (v : IsSound at w) where
  attach-IsSound :
      (flags fd : ℕ) (out : Result ℕ × Ramfs)
      → Resolved (w.filesystems at) out
      → IsSound at (attach w at flags fd out).1
  unfolding attach
  attach-IsSound flags fd (ok n, fs) r =
      let same = set_self w.filesystems at fs in
      file-IsSound fd _ (fs-IsSound fs v r.laid r.more)
        (λ in_use. (refl, subst (λ x. n < x.node_count) (sym same) (r.found n refl)))
  attach-IsSound flags fd (err e, fs) r =
      file-IsSound fd _ (fs-IsSound fs v r.laid r.more) (λ in_use. absurd (in_use refl))

  open_at-IsSound :
      (path : Bytes) (flags : ℕ) (place : Option ℕ) → IsSound at (open_at w at path flags place).1
  unfolding open_at
  open_at-IsSound path flags none = v
  open_at-IsSound path flags (some fd) = attach-IsSound flags fd _ (
      resolve-Resolved (lookup (w.filesystems at) path) (w.filesystems at) path flags v.laid
        (λ n. lookup-some (w.filesystems at) path n v.laid.some_node))

  pub sys_open-IsSound : (path : Option Bytes) (flags : ℕ) → IsSound at (sys_open w at path flags).1
  unfolding sys_open
  sys_open-IsSound none flags = v
  sys_open-IsSound (some path) flags = elim (Bool-cases (not (path 0 == 47))) [
    | inl e ↦ rw e v
    | inr e ↦ rw e (open_at-IsSound path flags (fd_alloc 16 0 w.files))
  ]

  -- A change of an open file that leaves its node alone.
  pub moved-IsSound :
      (fd : ℤ) (k : ℕ) (f : File)
      → fd_get w fd ≡ some k
      → f.fs ≡ (w.files k).fs
      → f.node ≡ (w.files k).node
      → IsSound at (record w { files = set w.files k f })
  moved-IsSound fd k f e same_fs same_node =
      let (lt, in_use) = fd_get-some w fd k e in
      file-IsSound k f v (λ now. (
        same_fs ∙ v.here k lt in_use,
        subst (λ x. x < (w.filesystems at).node_count) (sym same_node) (v.node k lt in_use),
      ))

  pub sys_close-IsSound : (fd : ℤ) → IsSound at (sys_close w fd).1
  unfolding sys_close
  sys_close-IsSound fd = elim (Option-cases (fd_get w fd)) [
    | inl e ↦ rw (sys_close, e) v
    | inr (k, e) ↦ rw (sys_close, e) (moved-IsSound fd k _ e refl refl)
  ]

  pub sys_lseek-IsSound : (fd offset whence : ℤ) → IsSound at (sys_lseek w fd offset whence).1
  unfolding sys_lseek
  sys_lseek-IsSound fd offset whence = elim (Option-cases (fd_get w fd)) [
    | inl e ↦ rw (sys_lseek, e) v
    | inr (k, e) ↦ rw (sys_lseek, e) (moved-IsSound fd k _ e refl refl)
  ]

  pub written-IsSound :
      (fd : ℤ) (k len : ℕ) (b : Bytes)
      → fd_get w fd ≡ some k
      → IsSound at (record w {
        filesystems =
            set w.filesystems
              (w.files k).fs
              (stored (w.filesystems (w.files k).fs) (w.files k) len b);
        files = set w.files k (record (w.files k) { offset = add64 (w.files k).offset len });
      })
  written-IsSound fd k len b e =
      let (lt, in_use) = fd_get-some w fd k e in
      let f = w.files k in
      let here = v.here k lt in_use in
      let fs = stored (w.filesystems at) f len b in
      let count = stored-count (w.filesystems at) f len b in
      let w1 = record w { filesystems = set w.filesystems at fs } in
      let v1 =
        fs-IsSound fs v (stored-IsLaid (w.filesystems at) f len b v.laid) (omega (arith, count)) in
      subst
        (λ x. IsSound at (record w {
          filesystems = set w.filesystems x (stored (w.filesystems x) f len b);
          files = set w.files k (record f { offset = add64 f.offset len });
        }))
        (sym here)
        (file-IsSound k (record f { offset = add64 f.offset len }) v1
          (λ now. (
            here,
            subst (λ x. f.node < x.node_count) (sym (set_self w.filesystems at fs))
                (omega (arith, v.node k lt in_use, count)),
          )))
