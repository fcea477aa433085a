-- ===== src/Vfs/Resolve.antt =====
-- kernel/vfs/fd.c: the node of a path that is opened.
use m4_trio.Base.{
  ℕ, zero, suc, ◌+◌, ◌-◌, ◌≤◌, ◌<◌, ◌≡◌, ◌≢◌, inl, inr, refl, ap, subst, Option, none, some,
  Bool-cases, ◌==◌, bit_and, arith,
}
use m4_trio.Vfs.{Result, ok, err, enoent, Bytes, Ramfs}
use m4_trio.Vfs.Nodes.{create_file, lookup, find_node, base_name}
use m4_trio.Vfs.Calls.{created, resolve}
use m4_trio.Vfs.Layout.{IsLaid, create_file-cases, create_file-IsLaid}

find_node-some :
    (left i : ℕ) (fs : Ramfs) (name : Bytes) (n : ℕ)
    → find_node left i fs name ≡ some n
    → n < i + left
unfolding find_node
find_node-some zero i fs name n e = ground arith
find_node-some (suc left) i fs name n e = ground (arith, find_node-some left (i + 1) fs name n)

pub lookup-some :
    (fs : Ramfs) (path : Bytes) (n : ℕ)
    → fs.node_count ≢ 0
    → lookup fs path ≡ some n
    → n < fs.node_count
unfolding lookup
lookup-some fs path n ne e =
    ground (arith, find_node-some (fs.node_count - 1) 1 fs (base_name path) n)

-- What the search of a path leaves.
pub record Resolved (fs : Ramfs) (out : Result ℕ × Ramfs) : Type 0 where
  pub laid : IsLaid out.1
  pub more : fs.node_count ≤ out.1.node_count
  pub found : (n : ℕ) → out.0 ≡ ok n → n < out.1.node_count

ok_value : ℕ → Result ℕ → ℕ
ok_value d (ok n) = n
ok_value d (err e) = d

ok_injective : {m n : ℕ} → ◌≡◌ {A = Result ℕ} (ok m) (ok n) → m ≡ n
unfolding ok_value
ok_injective e = ap (ok_value 0) e

err_ne_ok : {n : ℕ} → ◌≢◌ {A = Result ℕ} (err enoent) (ok n)
err_ne_ok e = cc

created-Resolved :
    (fs : Ramfs) (path : Bytes) → IsLaid fs → Resolved fs (created (create_file fs path))
unfolding created
created-Resolved fs path v = elim (create_file-cases fs path) [
  | inl e ↦ rw e (record { laid = v; more = omega arith; found = λ n z. absurd (err_ne_ok z) })
  | inr (e, room, count, used, nodes) ↦
      let laid = create_file-IsLaid fs path v in
      rw e (record {
        laid = laid;
        more = omega (arith, count);
        found = λ n z. omega (arith, ok_injective z, count);
      })
]

pub resolve-Resolved :
    (found : Option ℕ) (fs : Ramfs) (path : Bytes) (flags : ℕ)
    → IsLaid fs
    → ((n : ℕ) → found ≡ some n → n < fs.node_count)
    → Resolved fs (resolve found fs path flags)
unfolding resolve
resolve-Resolved (some m) fs path flags v low = record {
  laid = v;
  more = omega arith;
  found = λ n z. subst (λ x. x < fs.node_count) (ok_injective z) (low m refl);
}
resolve-Resolved none fs path flags v low = elim (Bool-cases (bit_and flags 256 == 0)) [
  | inl e ↦ rw e (record { laid = v; more = omega arith; found = λ n z. absurd (err_ne_ok z) })
  | inr e ↦ rw e (created-Resolved fs path v)
]
