-- ===== src/Vfs/Layout.antt =====
-- kernel/vfs: where the nodes have their bytes, and that every call keeps it.
use m4_trio.Base.{
  ℕ, ◌+◌, ◌-◌, ◌*◌, ◌≤◌, ◌<◌, ◌≡◌, ◌≢◌, ◌⊎◌, inl, inr, refl, sym, ap, subst, ◌∙◌, Bool-cases, leb,
  add64, arith,
}
use m4_trio.Vfs.{ok, err, enospc, Bytes, Ramfs, World, set}
use m4_trio.Vfs.Nodes.{ramfs_init, create_file, new_node}
use m4_trio.Vfs.Copy.{set_self, set_ne}
use native.Mathlib.Decide.{ℕ_discrete}

-- The node of the n-th file is given byte 256 * (n - 1) and the 255 behind it, whether the file
-- system's array has them or not.
pub record IsLaid (fs : Ramfs) : Type 0 where
  pub some_node : fs.node_count ≢ 0
  pub bound : fs.node_count ≤ 64
  pub used : fs.data_used ≡ 256 * (fs.node_count - 1)
  pub place : (n : ℕ) → n ≢ 0 → n < fs.node_count → (fs.nodes n).data_offset ≡ 256 * (n - 1)
  pub capacity : (n : ℕ) → n ≢ 0 → n < fs.node_count → (fs.nodes n).data_capacity ≡ 256

-- The file system is laid out, and every open file is a node of it.
pub record IsSound (at : ℕ) (w : World) : Type 0 where
  pub laid : IsLaid (w.filesystems at)
  pub here : (k : ℕ) → k < 16 → (w.files k).used ≢ 0 → (w.files k).fs ≡ at
  pub node :
      (k : ℕ) → k < 16 → (w.files k).used ≢ 0 → (w.files k).node < (w.filesystems at).node_count

pub ramfs_init-IsLaid : (fs : Ramfs) → IsLaid (ramfs_init fs)
unfolding ramfs_init
ramfs_init-IsLaid fs = record {
  some_node = omega arith;
  bound = omega arith;
  used = refl;
  place = λ n ne lt. absurd (omega arith);
  capacity = λ n ne lt. absurd (omega arith);
}

-- What a create leaves, or what it answers when the table is full.
pub create_file-cases :
    (fs : Ramfs) (path : Bytes)
    → (create_file fs path ≡ (err enospc, fs))
      ⊎ ((create_file fs path ≡ (ok fs.node_count, (create_file fs path).1))
          × (fs.node_count < 64)
          × ((create_file fs path).1.node_count ≡ fs.node_count + 1)
          × ((create_file fs path).1.data_used ≡ add64 fs.data_used 256)
          × ((create_file fs path).1.nodes ≡ set fs.nodes fs.node_count (new_node fs path)))
unfolding create_file
create_file-cases fs path = elim (Bool-cases (leb 64 fs.node_count)) [
  | inl e ↦ inl (rw e refl)
  | inr e ↦ inr (rw e refl, ground arith, rw e refl, rw e refl, rw e refl)
]

pub create_file-IsLaid : (fs : Ramfs) (path : Bytes) → IsLaid fs → IsLaid (create_file fs path).1
unfolding new_node
create_file-IsLaid fs path v = elim (create_file-cases fs path) [
  | inl e ↦ subst IsLaid (ap (λ p. p.1) (sym e)) v
  | inr (e, room, count, used, nodes) ↦
      let offset : (n : ℕ)
          → n ≢ 0
          → n < fs.node_count + 1
          → (set fs.nodes fs.node_count (new_node fs path) n).data_offset ≡ 256 * (n - 1) =
        λ n ne lt. elim (ℕ_discrete n fs.node_count) [
          | yes last ↦
              ap (λ x. x.data_offset)
                (ap (set fs.nodes fs.node_count (new_node fs path)) last
                  ∙ set_self fs.nodes fs.node_count (new_node fs path))
              ∙ v.used
              ∙ ap (λ x. 256 * (x - 1)) (sym last)
          | no old ↦
              ap (λ x. x.data_offset) (set_ne fs.nodes fs.node_count (new_node fs path) n old)
              ∙ v.place n ne (omega arith)
        ] in
      let room_of : (n : ℕ)
          → n ≢ 0
          → n < fs.node_count + 1
          → (set fs.nodes fs.node_count (new_node fs path) n).data_capacity ≡ 256 =
        λ n ne lt. elim (ℕ_discrete n fs.node_count) [
          | yes last ↦
              ap (λ x. x.data_capacity)
                (ap (set fs.nodes fs.node_count (new_node fs path)) last
                  ∙ set_self fs.nodes fs.node_count (new_node fs path))
          | no old ↦
              ap (λ x. x.data_capacity) (set_ne fs.nodes fs.node_count (new_node fs path) n old)
              ∙ v.capacity n ne (omega arith)
        ] in
      record {
        some_node = λ z. omega (arith, z, count);
        bound = omega (arith, count, room);
        used = omega (arith, used, count, v.used, v.some_node, v.bound);
        place =
            λ n ne lt. ap (λ f. (f n).data_offset) nodes ∙ offset n ne (omega (arith, lt, count));
        capacity = λ n ne lt.
            ap (λ f. (f n).data_capacity) nodes ∙ room_of n ne (omega (arith, lt, count));
      }
]
