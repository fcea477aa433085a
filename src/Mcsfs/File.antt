-- ===== src/Mcsfs/File.antt =====
-- fs/mcsfs1/mcsfs1.c: a write to a file, and what a read answers after it.
use m4_trio.Base.{ℕ, ◌≤◌, ◌<◌, ◌≡◌, ◌≢◌, inl, inr, refl, sym, ap, subst, ◌∙◌, true, le→ltb, arith}
use m4_trio.Mcsfs.{Bytes, Result, ok, err, enospc, Device}
use m4_trio.Mcsfs.Memory.{load16, load32, store32, bit_test}
use m4_trio.Mcsfs.Memory.Bits.{AreOctets}
use m4_trio.Mcsfs.Memory.Words.{load32-store32, load32-store32-Beside, load16-store32-Beside}
use m4_trio.Mcsfs.Table.{inode_lba, direct_at}
use m4_trio.Mcsfs.Calls.{
  block_span, at_least_one, alloc_blocks, write_blocks, open_file, write, mode_file,
}
use m4_trio.Mcsfs.Disk.{
  IsReliable, inode_of, lookup, search, find_dirent-lookup, read_inode-ok, write_inode-ok,
  dev_flush-ok,
}
use m4_trio.Mcsfs.Alloc.{
  direct, IsUsed, Owned, Filled, Exhausted, Outcome, done, ran_out, alloc_blocks-Outcome, not_both,
}
use m4_trio.Mcsfs.Blocks.{Spread, padded, Stored, write_blocks-Stored}
use m4_trio.Mcsfs.Inode.{
  Alike, Alike-load32, Alike-mode, Alike-direct, put_inode, inode_of-same, inode_of-put,
  inode_of-put_other,
}
use native.Mathlib.Decide.{ℕ_discrete}

module _ {S : Type 0} (dev : Device S) (content : S → ℕ → Bytes) where
  -- The directory has the name, for an inode that is a file with blocks of its own.
  pub record IsFile (s : S) (name : Bytes) (slot ino : ℕ) : Type 0 where
    pub found : lookup content s name ≡ ok (slot, ino)
    pub real : ino ≢ 0
    pub in_table : ino ≤ 32
    pub mode : load16 (inode_of content s ino) 0 ≡ mode_file
    pub owned : Owned dev content s (inode_of content s ino)

  abbrev pub needed : ℕ → ℕ
  needed len = at_least_one (block_span len)

  -- What a write leaves, when it answers 0.
  pub record Wrote (s : S) (name : Bytes) (slot ino : ℕ) (buf : Bytes) (len : ℕ) (s' : S)
      : Type 0 where
    pub file : IsFile s' name slot ino
    pub octets : AreOctets (content s' 2)
    pub size : load32 (inode_of content s' ino) 4 ≡ len
    pub blocks : Spread (inode_of content s' ino) dev.block_count (needed len)
    pub bytes :
        (j k : ℕ)
        → j < needed len
        → k < 512
        → content s' (direct (inode_of content s' ino) j) k ≡ padded buf len j k
    pub directory : content s' 7 ≡ content s 7
    pub other_blocks :
        (lba : ℕ)
        → 8 ≤ lba
        → bit_test (content s 2) lba ≡ true
        → ((j : ℕ) → j < 8 → lba ≢ direct (inode_of content s ino) j)
        → content s' lba ≡ content s lba
    pub other_inodes :
        (other : ℕ)
        → other ≢ 0
        → other ≤ 32
        → other ≢ ino
        → Alike (inode_of content s' other) (inode_of content s other)

  pub data Written (s : S) (name : Bytes) (slot ino : ℕ) (buf : Bytes) (len : ℕ)
      (r : Result (Unit {0}) × S) : Type 0 where
    stored :
        (s' : S)
        → r ≡ (ok tt, s')
        → Wrote s name slot ino buf len s'
        → Written s name slot ino buf len r
    no_space :
        (s' : S)
        → r ≡ (err enospc, s')
        → Exhausted dev content s s'
        → Written s name slot ino buf len r

needed_small : (len : ℕ) → len ≤ 4096 → at_least_one (block_span len) ≤ 8
unfolding block_span
needed_small len le = ground arith

module _ {S : Type 0} {dev : Device S} {content : S → ℕ → Bytes} (r : IsReliable dev content)
    (large : 16 ≤ dev.block_count) (small : dev.block_count ≤ 4096) where
  pub open_file-ok :
      {s : S} {name : Bytes} {slot ino : ℕ}
      → IsFile dev content s name slot ino
      → open_file dev name s ≡ (ok (slot, ino, inode_of content s ino), s)
  unfolding open_file
  open_file-ok {s} {name} {slot} {ino} f =
      rw (find_dirent-lookup r large s name)
        (rw f.found (rw (read_inode-ok r large s ino f.real f.in_table) (rw f.mode refl)))

  -- The places that the loop filled.
  spread :
      {s s1 : S} {inode inode1 : Bytes} (n : ℕ)
      → n ≤ 8
      → Filled dev content s inode n 0 s1 inode1
      → Spread inode1 dev.block_count n
  spread {inode1 = inode1} n le a =
      let some_block : (j : ℕ) → j < n → direct inode1 j ≢ 0 =
        λ j lt. a.full j (omega arith) (omega arith) in
      record {
        low = λ j lt. (a.owned.used j (omega arith) (some_block j lt)).low;
        high = λ j lt. (a.owned.used j (omega arith) (some_block j lt)).high;
        apart =
            λ j k j_lt k_lt e. a.owned.apart j k (omega arith) (omega arith) (some_block j j_lt) e;
      }

  -- From the loops' states to the state after the write.
  module _ {s s1 s2 : S} {inode1 : Bytes} {name : Bytes} {slot ino n : ℕ} (buf : Bytes) (len : ℕ)
      (f : IsFile dev content s name slot ino) (le : n ≤ 8)
      (a : Filled dev content s (inode_of content s ino) n 0 s1 inode1)
      (p : Stored r large s1 inode1 buf len 0 n s2) where
    abbrev new : Bytes
    new = store32 inode1 4 len

    abbrev last : S
    last = (dev.flush (put_inode r large s2 ino new)).1

    new-direct : (j : ℕ) → direct new j ≡ direct inode1 j
    new-direct j = load32-store32-Beside inode1 4 len (direct_at j) (inl (omega arith))

    below_data : (lba : ℕ) → lba < 8 → (j : ℕ) → j < n → lba ≢ direct inode1 j
    below_data lba lt j j_lt e = omega (arith, lt, e, (spread n le a).low j j_lt)

    last_keeps :
        (lba : ℕ)
        → lba ≢ inode_lba ino
        → ((j : ℕ) → j < n → lba ≢ direct inode1 j)
        → content last lba ≡ content s1 lba
    last_keeps lba ne away =
        r.flush_same (put_inode r large s2 ino new) lba
        ∙ r.write_there s2 (inode_lba ino) lba _ ne
        ∙ p.others lba λ j low high. away j high

    last_inode : Alike (inode_of content last ino) new
    last_inode k lt =
        inode_of-same r large ino (r.flush_same (put_inode r large s2 ino new) (inode_lba ino)) k lt
        ∙ inode_of-put r large s2 ino new k lt

    last-direct : (j : ℕ) → j < 8 → direct (inode_of content last ino) j ≡ direct inode1 j
    last-direct j lt = Alike-direct j lt last_inode ∙ new-direct j

    last_map : content last 2 ≡ content s1 2
    last_map = last_keeps 2 (λ e. omega (arith, e)) (below_data 2 (omega arith))

    last_directory : content last 7 ≡ content s 7
    last_directory =
        last_keeps 7 (λ e. omega (arith, e, f.in_table)) (below_data 7 (omega arith))
        ∙ a.others 7 (omega arith)

    last-Owned : Owned dev content last (inode_of content last ino)
    last-Owned = record {
      used = λ i lt some_block.
          let d = last-direct i lt in
          let u = a.owned.used i lt (subst (λ x. x ≢ 0) d some_block) in
          subst (IsUsed dev content last) (sym d) (record {
            low = u.low;
            high = u.high;
            bit = ap (λ b. bit_test b (direct inode1 i)) last_map ∙ u.bit;
          });
      apart = λ i j i_lt j_lt some_block e.
          a.owned.apart i j i_lt j_lt (subst (λ x. x ≢ 0) (last-direct i i_lt) some_block)
            (sym (last-direct i i_lt) ∙ e ∙ last-direct j j_lt);
    }

    last-IsFile : IsFile dev content last name slot ino
    last-IsFile = record {
      found = ap (λ b. search b name) last_directory ∙ f.found;
      real = f.real;
      in_table = f.in_table;
      mode =
          Alike-mode last_inode
          ∙ load16-store32-Beside inode1 4 len 0 (inr (omega arith))
          ∙ a.mode
          ∙ f.mode;
      owned = last-Owned;
    }

    last_bytes :
        (j k : ℕ)
        → j < n
        → k < 512
        → content last (direct (inode_of content last ino) j) k ≡ padded buf len j k
    last_bytes j k lt k_lt =
        let low = (spread n le a).low j lt in
        ap (λ x. content last x k) (last-direct j (omega (arith, le)))
        ∙ ap (λ b. b k)
            (r.flush_same (put_inode r large s2 ino new) (direct inode1 j)
              ∙ r.write_there s2 (inode_lba ino) (direct inode1 j) _
                  (λ e. omega (arith, e, low, f.in_table)))
        ∙ p.here j k (omega arith) lt k_lt

    -- A block in use that is none of the file's was not taken.
    not_taken :
        (lba : ℕ)
        → bit_test (content s 2) lba ≡ true
        → ((j : ℕ) → j < 8 → lba ≢ direct (inode_of content s ino) j)
        → (j : ℕ) → j < n
        → lba ≢ direct inode1 j
    not_taken lba bit away j lt e =
        let some_block = a.full j (omega arith) (omega arith) in
        elim (ℕ_discrete (direct (inode_of content s ino) j) 0) [
          | no old ↦ away j (omega arith) (e ∙ a.kept j (omega arith) old)
          | yes none_yet ↦
              not_both bit
                (ap (bit_test (content s 2)) e ∙ a.fresh j (omega arith) none_yet some_block)
        ]

    last_inodes :
        (other : ℕ)
        → other ≢ 0
        → other ≤ 32
        → other ≢ ino
        → Alike (inode_of content last other) (inode_of content s other)
    last_inodes other some_inode fits ne k lt =
        let lba = inode_lba other in
        let low : lba < 8 = omega arith in
        inode_of-same r large other (r.flush_same (put_inode r large s2 ino new) lba) k lt
        ∙ inode_of-put_other r large s2 ino other new f.real some_inode ne k lt
        ∙ inode_of-same r large other (p.others lba (λ j _ high. below_data lba low j high)) k lt
        ∙ inode_of-same r large other (a.others lba (λ e. omega (arith, e))) k lt

    last-Wrote :
        n ≡ needed dev content len → len ≤ 4096 → Wrote dev content s name slot ino buf len last
    last-Wrote e short = record {
      file = last-IsFile;
      octets = subst AreOctets (sym last_map) a.octets;
      size =
          Alike-load32 4 (omega arith) last_inode
          ∙ load32-store32 inode1 4 len (omega (arith, short));
      blocks = subst (Spread (inode_of content last ino) dev.block_count) e (record {
        low = λ j lt.
            subst (λ x. 8 ≤ x) (sym (last-direct j (omega (arith, le)))) ((spread n le a).low j lt);
        high = λ j lt.
            subst (λ x. x < dev.block_count) (sym (last-direct j (omega (arith, le))))
              ((spread n le a).high j lt);
        apart = λ j k j_lt k_lt both.
            (spread n le a).apart j k j_lt k_lt
              (sym (last-direct j (omega (arith, le))) ∙ both ∙ last-direct k (omega (arith, le)));
      });
      bytes =
          subst
            (λ m.
              (j k : ℕ)
              → j < m
              → k < 512
              → content last (direct (inode_of content last ino) j) k ≡ padded buf len j k)
            e last_bytes;
      directory = last_directory;
      other_blocks = λ lba low bit away.
          last_keeps lba (λ e2. omega (arith, e2, low, f.in_table)) (not_taken lba bit away)
          ∙ a.others lba (λ e2. omega (arith, e2, low));
      other_inodes = last_inodes;
    }

  write_stores :
      {s s1 s2 : S} {inode1 : Bytes} (name : Bytes) {slot ino : ℕ} (buf : Bytes) (len : ℕ)
      → len ≤ 4096
      → IsFile dev content s name slot ino
      → alloc_blocks dev (needed dev content len) 0 (inode_of content s ino) s ≡ (ok inode1, s1)
      → write_blocks dev (needed dev content len) 0 0 inode1 buf len s1 ≡ (ok tt, s2)
      → write dev name buf len s
        ≡ (ok tt, (dev.flush (put_inode r large s2 ino (store32 inode1 4 len))).1)
  unfolding write
  write_stores {s} {s1} {s2} {inode1} name {slot} {ino} buf len short f a b =
      rw (le→ltb 4096 len short) (
        rw (open_file-ok f) (
          rw a (
            rw b (
              rw (write_inode-ok r large s2 ino (store32 inode1 4 len) f.real f.in_table)
                (dev_flush-ok r large (put_inode r large s2 ino (store32 inode1 4 len)))))))

  write_fails :
      {s s1 : S} (name : Bytes) {slot ino : ℕ} (buf : Bytes) (len : ℕ)
      → len ≤ 4096
      → IsFile dev content s name slot ino
      → alloc_blocks dev (needed dev content len) 0 (inode_of content s ino) s ≡ (err enospc, s1)
      → write dev name buf len s ≡ (err enospc, s1)
  unfolding write
  write_fails name buf len short f a = rw (le→ltb 4096 len short) (rw (open_file-ok f) (rw a refl))

  write_split :
      {s : S} (name : Bytes) {slot ino : ℕ} (buf : Bytes) (len : ℕ)
      → len ≤ 4096
      → IsFile dev content s name slot ino
      → Outcome dev content s
          (inode_of content s ino)
          (needed dev content len)
          0
          (alloc_blocks dev (needed dev content len) 0 (inode_of content s ino) s)
      → Written dev content s name slot ino buf len (write dev name buf len s)
  write_split name buf len short f (ran_out s1 e x) =
      no_space s1 (write_fails name buf len short f e) x
  write_split {s} name {slot} {ino} buf len short f (done inode1 s1 e a) =
      let n = needed dev content len in
      let fits = needed_small len short in
      let blocks =
        write_blocks-Stored r large n 0 inode1 buf len s1 (spread n fits a) (omega arith)
          (inl (omega arith, omega arith)) in
      stored (dev.flush (put_inode r large blocks.0 ino (store32 inode1 4 len))).1
        (write_stores name buf len short f e blocks.1)
        (last-Wrote buf len f fits a blocks.2 refl short)

  -- On a working device of 16 to 4096 blocks: a write of at most 4096 bytes to a file whose blocks
  -- are in use and its own, under a bitmap of bytes, either answers ENOSPC, and then every data
  -- block is in use and only the bitmap of blocks may have changed, or it answers 0. Then the file
  -- is still there under its name, has that size, and its blocks hold the bytes, zero past the
  -- end; the directory, every other inode, and every block in use that was not the file's are as
  -- they were.
  pub write-Written :
      {s : S} (name : Bytes) {slot ino : ℕ} (buf : Bytes) (len : ℕ)
      → len ≤ 4096
      → AreOctets (content s 2)
      → IsFile dev content s name slot ino
      → Written dev content s name slot ino buf len (write dev name buf len s)
  write-Written name buf len short oct f = write_split name buf len short f (
      alloc_blocks-Outcome r large small (needed dev content len) 0 f.owned oct
        (omega (arith, needed_small len short)))
