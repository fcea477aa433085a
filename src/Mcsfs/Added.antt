-- ===== src/Mcsfs/Added.antt =====
-- fs/mcsfs1/mcsfs1.c: the directory with a new entry.
use m4_trio.Base.{
  ℕ, ◌+◌, ◌≤◌, ◌<◌, ◌≡◌, ◌≢◌, inl, inr, refl, sym, ap, ◌∙◌, true, false, Bool-cases, arith,
}
use m4_trio.Mcsfs.{Bytes, ok, err, enoent}
use m4_trio.Mcsfs.Memory.{load32}
use m4_trio.Mcsfs.Memory.Words.{load32-at}
use m4_trio.Mcsfs.Table.{dirent_at, scan, names}
use m4_trio.Mcsfs.Calls.{add_dirent}
use m4_trio.Mcsfs.Alloc.{not_both}
use m4_trio.Mcsfs.Directory.{
  names-Matches, Matches-names, Matches-Same, Same, names-same, scan-first, scan-same, none-scan,
}
use m4_trio.Mcsfs.Strings.{IsString}
use m4_trio.Mcsfs.Entry.{add_dirent_outside, load32-add_dirent, add_dirent-Matches}
use native.Mathlib.Decide.{ℕ_discrete}

pub free_names :
    (block : Bytes) (slot : ℕ) (other : Bytes) (m : ℕ)
    → load32 block (dirent_at slot) ≡ 0
    → names block slot other m ≡ false
unfolding names
free_names block slot other m free = rw free refl

-- The directory with a new entry in a free slot.
module _ (block name : Bytes) (n slot ino : ℕ) (v : IsString name 0 n) (le : n ≤ 26)
    (real : ino ≢ 0) (fits : ino ≤ 32) (fresh : slot < 16) where
  abbrev added : Bytes
  added = add_dirent block slot ino name n

  entry_outside :
      (j : ℕ) → j ≢ slot → (k : ℕ) → k < 32 → added (dirent_at j + k) ≡ block (dirent_at j + k)
  entry_outside j ne k lt =
      add_dirent_outside block slot ino name n (dirent_at j + k) (omega (arith, le)) (ground arith)

  pub added_elsewhere :
      (other : Bytes) (m : ℕ)
      → IsString other 0 m
      → m ≤ 26
      → (j : ℕ) → j ≢ slot
      → names added j other m ≡ names block j other m
  added_elsewhere other m w m_le j ne = names-same added block j (entry_outside j ne) w m_le

  added_load : (j : ℕ) → j ≢ slot → load32 added (dirent_at j) ≡ load32 block (dirent_at j)
  added_load j ne =
      load32-at added block (dirent_at j) (dirent_at j) λ k lt. entry_outside j ne k (omega arith)

  added_here : names added slot name n ≡ true
  added_here =
      Matches-names v (omega (arith, le)) (add_dirent-Matches block slot ino name n le real fits)

  added_other :
      (other : Bytes) (m : ℕ)
      → IsString other 0 m
      → m ≤ 26
      → ¬ Same other m name n
      → names added slot other m ≡ false
  added_other other m w m_le differs = elim (Bool-cases (names added slot other m)) [
    | inr e ↦ e
    | inl e ↦ absurd (
        differs (
          Matches-Same w (omega (arith, m_le)) v (omega (arith, le))
            (names-Matches added slot other m (omega (arith, m_le)) e)
            (add_dirent-Matches block slot ino name n le real fits)))
  ]

  pub scan-added : scan 16 0 block name n ≡ err enoent → scan 16 0 added name n ≡ ok (slot, ino)
  scan-added absent =
      scan-first 16 0 slot added name n (omega arith) (omega (arith, fresh)) added_here (λ j low lt.
        added_elsewhere name n v le j (λ e. omega (arith, e, lt))
        ∙ none-scan 16 0 block name n absent j low (omega (arith, fresh, lt)))
      ∙ ap (λ x. ok (slot, x)) (load32-add_dirent block slot ino name n (omega (arith, le)) fits)

  pub scan-added_other :
      (other : Bytes) (m : ℕ)
      → IsString other 0 m
      → m ≤ 26
      → ¬ Same other m name n
      → load32 block (dirent_at slot) ≡ 0
      → scan 16 0 added other m ≡ scan 16 0 block other m
  scan-added_other other m w m_le differs free =
      scan-same 16 0 added block other m
        (λ j low high. elim (ℕ_discrete j slot) [
          | no ne ↦ added_elsewhere other m w m_le j ne
          | yes e ↦
              ap (λ x. names added x other m) e
              ∙ added_other other m w m_le differs
              ∙ sym (free_names block slot other m free)
              ∙ ap (λ x. names block x other m) (sym e)
        ])
        λ j low high in_use. elim (ℕ_discrete j slot) [
          | no ne ↦ added_load j ne
          | yes e ↦ absurd (
              not_both in_use
                (ap (λ x. names block x other m) e ∙ free_names block slot other m free))
        ]
