-- ===== src/Mcsfs/Create.antt =====
-- fs/mcsfs1/mcsfs1.c: a new file.
use m4_trio.Base.{
  ℕ, ◌-◌, ◌≤◌, ◌≡◌, ◌≢◌, ◌⊎◌, inl, inr, refl, sym, ap, subst, ◌∙◌, none, some, Option-cases, arith,
}
use m4_trio.Mcsfs.{Error, Bytes, Result, ok, err, enospc, eexist, enoent, Device}
use m4_trio.Mcsfs.Memory.{first_clear, valid_name}
use m4_trio.Mcsfs.Memory.Bits.{AreOctets}
use m4_trio.Mcsfs.Table.{free_slot}
use m4_trio.Mcsfs.Calls.{create, missing, add_dirent, file_inode}
use m4_trio.Mcsfs.Disk.{
  IsReliable, lookup, search, find_dirent-lookup, dev_read-ok, dev_write-ok, dev_flush-ok,
  write_inode-ok, alloc_inode_block-ok, alloc_inode_block-full,
}
use m4_trio.Mcsfs.Directory.{scan-cases}
use m4_trio.Mcsfs.Made.{Made, with_maps, with_inode, last, last-Made}

pub err_ne : (x : Error) → ◌≢◌ {A = Result (Unit {0})} (err x) (ok tt)
err_ne x h = cc

module _ {S : Type 0} (dev : Device S) (content : S → ℕ → Bytes) where
  -- What a create answers.
  pub data Created (s : S) (name : Bytes) (n : ℕ) (r : Result (Unit {0}) × S) : Type 0 where
    exists :
        (slot ino : ℕ)
        → lookup content s name ≡ ok (slot, ino)
        → r ≡ (err eexist, s)
        → Created s name n r
    full :
        lookup content s name ≡ err enoent
        → (free_slot 16 0 (content s 7) ≡ none)
          ⊎ (first_clear 31 2 (content s 1) ≡ none)
          ⊎ (first_clear (dev.block_count - 8) 8 (content s 2) ≡ none)
        → r ≡ (err enospc, s)
        → Created s name n r
    created :
        (s' : S) (slot ino : ℕ)
        → lookup content s name ≡ err enoent
        → r ≡ (ok tt, s')
        → Made dev content s name n slot ino s'
        → Created s name n r

module _ {S : Type 0} {dev : Device S} {content : S → ℕ → Bytes} (r : IsReliable dev content)
    (large : 16 ≤ dev.block_count) (small : dev.block_count ≤ 4096) where
  create_exists :
      (s : S) (name : Bytes) (n slot ino : ℕ)
      → valid_name name ≡ ok n
      → lookup content s name ≡ ok (slot, ino)
      → create dev name s ≡ (err eexist, s)
  unfolding create missing
  create_exists s name n slot ino v e = rw v (rw (find_dirent-lookup r large s name) (rw e refl))

  create_no_slot :
      (s : S) (name : Bytes) (n : ℕ)
      → valid_name name ≡ ok n
      → lookup content s name ≡ err enoent
      → free_slot 16 0 (content s 7) ≡ none
      → create dev name s ≡ (err enospc, s)
  unfolding create missing
  create_no_slot s name n v e f = rw v (
      rw (find_dirent-lookup r large s name)
        (rw e (rw (dev_read-ok r large s 7 (omega (arith, large))) (rw f refl))))

  create_no_inode :
      (s : S) (name : Bytes) (n slot : ℕ)
      → valid_name name ≡ ok n
      → lookup content s name ≡ err enoent
      → free_slot 16 0 (content s 7) ≡ some slot
      → (first_clear 31 2 (content s 1) ≡ none)
        ⊎ ((ino : ℕ) × (first_clear 31 2 (content s 1) ≡ some ino)
            × (first_clear (dev.block_count - 8) 8 (content s 2) ≡ none))
      → create dev name s ≡ (err enospc, s)
  unfolding create missing
  create_no_inode s name n slot v e f none_left = rw v (
      rw (find_dirent-lookup r large s name) (
        rw e (
          rw (dev_read-ok r large s 7 (omega (arith, large)))
            (rw f (rw (alloc_inode_block-full r large s none_left) refl)))))

  create_makes :
      (s : S) (name : Bytes) (n slot ino lba : ℕ)
      → valid_name name ≡ ok n
      → lookup content s name ≡ err enoent
      → free_slot 16 0 (content s 7) ≡ some slot
      → first_clear 31 2 (content s 1) ≡ some ino
      → first_clear (dev.block_count - 8) 8 (content s 2) ≡ some lba
      → ino ≢ 0
      → ino ≤ 32
      → create dev name s ≡ (ok tt, last r large small s name n slot ino lba)
  unfolding create missing
  create_makes s name n slot ino lba v e f g h real fits = rw v (
      rw (find_dirent-lookup r large s name) (
        rw e (
          rw (dev_read-ok r large s 7 (omega (arith, large))) (
            rw f (
              rw (alloc_inode_block-ok r large s ino lba g h) (
                rw
                  (write_inode-ok r large (with_maps r large small s name n slot ino lba) ino
                    (file_inode lba) real fits)
                  (rw
                    (dev_write-ok r large (with_inode r large small s name n slot ino lba) 7
                      (add_dirent (content s 7) slot ino name n) (omega (arith, large)))
                    (dev_flush-ok r large _))))))))

  -- On a working device of 16 to 4096 blocks, under bitmaps of bytes, a create of a valid name of
  -- at most 26 bytes answers EEXIST and changes nothing when the directory has the name; it answers
  -- ENOSPC and changes nothing when it does not and there is no free entry, inode or block; and else
  -- it answers 0.
  -- Then the directory has the name, in one entry, for an empty file with one block of its own; the
  -- entry, the inode and the block were free, and of the bits in the bitmaps exactly those two are
  -- set; the directory answers as before for every other name of at most 26 bytes; and every other
  -- inode and every data block is as it was.
  pub create-Created :
      (s : S) (name : Bytes) (n : ℕ)
      → valid_name name ≡ ok n
      → n ≤ 26
      → AreOctets (content s 1) × AreOctets (content s 2)
      → Created dev content s name n (create dev name s)
  unfolding search
  create-Created s name n e le oct = elim (scan-cases 16 0 (content s 7) name n) [
    | inl (k, i, found) ↦
        let there : lookup content s name ≡ ok (k, i) = rw (search, e) found in
        exists k i there (create_exists s name n k i e there)
    | inr gone ↦
        let absent : lookup content s name ≡ err enoent = rw (search, e) gone in
        elim (Option-cases (free_slot 16 0 (content s 7))) [
          | inl f ↦ full absent (inl f) (create_no_slot s name n e absent f)
          | inr (slot, f) ↦ elim (Option-cases (first_clear 31 2 (content s 1))) [
            | inl g ↦ full absent (inr (inl g)) (create_no_inode s name n slot e absent f (inl g))
            | inr (ino, g) ↦
                elim (Option-cases (first_clear (dev.block_count - 8) 8 (content s 2))) [
                  | inl h ↦
                      full absent (inr (inr h))
                        (create_no_inode s name n slot e absent f (inr (ino, g, h)))
                  | inr (lba, h) ↦
                      let made =
                        last-Made r large small s name n slot ino lba e le absent f g h oct in
                      created (last r large small s name n slot ino lba) slot ino absent
                        (create_makes s name n slot ino lba e absent f g h made.file.real
                          made.file.in_table)
                        made
                ]
          ]
        ]
  ]

  -- What a create that answered 0 has done.
  pub Created-ok :
      {s s' : S} {name : Bytes} {n : ℕ} {out : Result (Unit {0}) × S}
      → Created dev content s name n out
      → out ≡ (ok tt, s')
      → (slot ino : ℕ) × (lookup content s name ≡ err enoent)
        × Made dev content s name n slot ino s'
  Created-ok (exists slot ino found e) good = absurd (err_ne eexist (ap (λ t. t.0) (sym e ∙ good)))
  Created-ok (full absent why e) good = absurd (err_ne enospc (ap (λ t. t.0) (sym e ∙ good)))
  Created-ok {s} {name = name} {n} (created s2 slot ino absent e m) good = (
    slot,
    ino,
    absent,
    subst (Made dev content s name n slot ino) (ap (λ t. t.1) (sym e ∙ good)) m,
  )
