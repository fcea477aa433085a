-- ===== src/Mcsfs/ReadBack.antt =====
-- fs/mcsfs1/mcsfs1.c: what a read answers after a write.
use m4_trio.Base.{
  ℕ, ◌+◌, ◌*◌, ◌/◌, ◌%◌, ◌≤◌, ◌<◌, ◌≡◌, ◌≢◌, inl, inr, refl, sym, ap, subst, ◌∙◌, le→ltb, lt→ltb,
  arith,
}
use m4_trio.Mcsfs.{Bytes, Result, ok, err, enospc, Device, Mount}
use m4_trio.Mcsfs.Memory.{load32}
use m4_trio.Mcsfs.Memory.Bits.{AreOctets}
use m4_trio.Mcsfs.Calls.{block_span, at_least_one, write, read_blocks, read}
use m4_trio.Mcsfs.Disk.{IsReliable, inode_of}
use m4_trio.Mcsfs.Blocks.{Spread, padded, read_blocks-Gathered}
use m4_trio.Mcsfs.File.{IsFile, Wrote, Written, stored, no_space, open_file-ok, write-Written}

span_covers : (len : ℕ) → len ≤ 4096 → len ≤ 512 * block_span len
unfolding block_span
span_covers len le = ground arith

span_needed : (len : ℕ) → block_span len ≤ at_least_one (block_span len)
span_needed len = ground arith

Spread-below :
    {inode : Bytes} {block_count n : ℕ} (m : ℕ)
    → m ≤ n
    → Spread inode block_count n
    → Spread inode block_count m
Spread-below m le v = record {
  low = λ j lt. v.low j (omega (arith, le));
  high = λ j lt. v.high j (omega (arith, le));
  apart = λ j k j_lt k_lt. v.apart j k (omega (arith, le)) (omega (arith, le));
}

padded-whole : (buf : Bytes) (len k : ℕ) → k < len → padded buf len (k / 512) (k % 512) ≡ buf k
padded-whole buf len k lt =
    let e : 512 * (k / 512) + k % 512 ≡ k = omega arith in rw e (rw (lt→ltb k len lt) refl)

module _ {S : Type 0} {dev : Device S} {content : S → ℕ → Bytes} (r : IsReliable dev content)
    (large : 16 ≤ dev.block_count) (small : dev.block_count ≤ 4096) where
  -- What a read answers.
  pub record Read (s : S) (name buf0 buf : Bytes) (len : ℕ) (out : Result (Bytes × ℕ) × S)
      : Type 0 where
    pub filled : Bytes
    pub answer : out ≡ (ok (filled, len), s)
    pub inside : (k : ℕ) → k < len → filled k ≡ buf k
    pub outside : (k : ℕ) → len ≤ k → filled k ≡ buf0 k

  read_answers :
      {s : S} (mnt : Mount) (name buf : Bytes) (cap : ℕ) {slot ino len : ℕ} {filled : Bytes}
      → IsFile dev content s name slot ino
      → load32 (inode_of content s ino) 4 ≡ len
      → len ≤ cap
      → read_blocks dev (block_span len) 0 0 mnt (inode_of content s ino) len buf s ≡ (ok filled, s)
      → read dev mnt name buf cap s ≡ (ok (filled, len), s)
  unfolding read
  read_answers mnt name buf cap f size room e =
      rw (open_file-ok r large small f) (rw size (rw (le→ltb cap _ room) (rw e refl)))

  -- What a read answers in the state that a write leaves.
  pub Wrote-Read :
      {s s' : S} {name buf : Bytes} {slot ino len : ℕ} (mnt : Mount) (buf0 : Bytes) (cap : ℕ)
      → Wrote dev content s name slot ino buf len s'
      → mnt.block_count ≡ dev.block_count
      → len ≤ 4096
      → len ≤ cap
      → Read s' name buf0 buf len (read dev mnt name buf0 cap s')
  Wrote-Read {s} {s'} {name} {buf} {slot} {ino} {len} mnt buf0 cap w bc short room =
      let n = block_span len in
      let inode = inode_of content s' ino in
      let got =
        read_blocks-Gathered r large n 0 mnt inode len buf0 s' bc
          (Spread-below n (span_needed len) w.blocks) (omega arith)
          (inl (omega arith, omega arith)) in
      record {
        filled = got.0;
        answer = read_answers mnt name buf0 cap w.file w.size room got.1;
        inside = λ k lt.
            got.2.inside k (omega arith) lt (omega (arith, span_covers len short))
            ∙ w.bytes (k / 512) (k % 512) (omega (arith, span_needed len, span_covers len short))
                (omega arith)
            ∙ padded-whole buf len k lt;
        outside = λ k high. got.2.outside k (inr high);
      }

  answered :
      {s s' : S} {name buf : Bytes} {slot ino len : ℕ} {out : Result (Unit {0}) × S}
      → Written dev content s name slot ino buf len out
      → out ≡ (ok tt, s')
      → Wrote dev content s name slot ino buf len s'
  answered {s} {name = name} {buf} {slot} {ino} {len} (stored s2 e w) good =
      subst (Wrote dev content s name slot ino buf len) (ap (λ t. t.1) (sym e ∙ good)) w
  answered (no_space s2 e x) good = absurd (failed (ap (λ t. t.0) (sym e ∙ good)))
    where
      failed : ◌≢◌ {A = Result (Unit {0})} (err enospc) (ok tt)
      failed h = cc

  -- On a working device of 16 to 4096 blocks: after a write that answers 0, of at most 4096 bytes,
  -- to a file whose blocks are in use and its own, under a bitmap of bytes, a read of that name
  -- into a buffer with room answers that length, fills the buffer with the bytes that were
  -- written, leaves the rest of the buffer alone, and changes nothing on the disk.
  pub read_back :
      {s s' : S} (mnt : Mount) (name : Bytes) {slot ino : ℕ} (buf buf0 : Bytes) (len cap : ℕ)
      → len ≤ 4096
      → AreOctets (content s 2)
      → IsFile dev content s name slot ino
      → mnt.block_count ≡ dev.block_count
      → len ≤ cap
      → write dev name buf len s ≡ (ok tt, s')
      → Read s' name buf0 buf len (read dev mnt name buf0 cap s')
  read_back mnt name buf buf0 len cap short oct f bc room good =
      Wrote-Read mnt buf0 cap (answered (write-Written r large small name buf len short oct f) good)
        bc short room
