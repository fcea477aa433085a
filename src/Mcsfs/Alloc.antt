-- ===== src/Mcsfs/Alloc.antt =====
-- fs/mcsfs1/mcsfs1.c: the blocks of an inode, and the loop of a write that gives it more.
use m4_trio.Base.{
  ℕ, zero, suc, ◌+◌, ◌-◌, ◌≤◌, ◌<◌, ◌≡◌, ◌≢◌, inl, inr, refl, sym, ap, subst, ◌∙◌, Bool, true,
  false, none, some, Bool-cases, Option-cases, ◌==◌, arith,
}
use m4_trio.Mcsfs.{Bytes, Result, ok, err, enospc, Device}
use m4_trio.Mcsfs.Memory.{load16, load32, store32, bit_set, bit_test, first_clear}
use m4_trio.Mcsfs.Memory.Bits.{
  AreOctets, bit_test-bit_set_old, bit_test-bit_set_new, bit_set-AreOctets,
}
use m4_trio.Mcsfs.Memory.Copy.{first_clear-some}
use m4_trio.Mcsfs.Memory.Words.{load32-store32, load32-store32-Beside, load16-store32-Beside}
use m4_trio.Mcsfs.Table.{direct_at}
use m4_trio.Mcsfs.Calls.{alloc_blocks}
use m4_trio.Mcsfs.Disk.{IsReliable, put, alloc_data_block-ok, alloc_data_block-full}
use native.Mathlib.Decide.{ℕ_discrete}

pub not_both : {b : Bool} → b ≡ true → b ≢ false
not_both t f = ground (arith, t, f)

abbrev pub direct : Bytes → ℕ → ℕ
direct inode i = load32 inode (direct_at i)

module _ {S : Type 0} (dev : Device S) (content : S → ℕ → Bytes) where
  -- A block that holds data: its bit is set.
  pub record IsUsed (s : S) (lba : ℕ) : Type 0 where
    pub low : 8 ≤ lba
    pub high : lba < dev.block_count
    pub bit : bit_test (content s 2) lba ≡ true

  -- The blocks of an inode are data blocks in use, each at one place.
  pub record Owned (s : S) (inode : Bytes) : Type 0 where
    pub used : (i : ℕ) → i < 8 → direct inode i ≢ 0 → IsUsed s (direct inode i)
    pub apart :
        (i j : ℕ) → i < 8 → j < 8 → direct inode i ≢ 0 → direct inode i ≡ direct inode j → i ≡ j

  -- What the loop leaves when it gives the `left` places from `i` on a block each.
  pub record Filled (s : S) (inode : Bytes) (left i : ℕ) (s' : S) (inode' : Bytes) : Type 0 where
    pub others : (lba : ℕ) → lba ≢ 2 → content s' lba ≡ content s lba
    pub octets : AreOctets (content s' 2)
    pub grows : (lba : ℕ) → bit_test (content s 2) lba ≡ true → bit_test (content s' 2) lba ≡ true
    pub owned : Owned s' inode'
    pub full : (j : ℕ) → i ≤ j → j < i + left → direct inode' j ≢ 0
    pub kept : (j : ℕ) → j < 8 → direct inode j ≢ 0 → direct inode' j ≡ direct inode j
    pub fresh :
        (j : ℕ)
        → j < 8
        → direct inode j ≡ 0
        → direct inode' j ≢ 0
        → bit_test (content s 2) (direct inode' j) ≡ false
    pub mode : load16 inode' 0 ≡ load16 inode 0

  -- What it leaves when the data blocks run out.
  pub record Exhausted (s s' : S) : Type 0 where
    pub others : (lba : ℕ) → lba ≢ 2 → content s' lba ≡ content s lba
    pub none_left : first_clear (dev.block_count - 8) 8 (content s' 2) ≡ none

  pub data Outcome (s : S) (inode : Bytes) (left i : ℕ) (r : Result Bytes × S) : Type 0 where
    done :
        (inode' : Bytes) (s' : S)
        → r ≡ (ok inode', s')
        → Filled s inode left i s' inode'
        → Outcome s inode left i r
    ran_out : (s' : S) → r ≡ (err enospc, s') → Exhausted s s' → Outcome s inode left i r

module _ {S : Type 0} {dev : Device S} {content : S → ℕ → Bytes} (r : IsReliable dev content)
    (large : 16 ≤ dev.block_count) (small : dev.block_count ≤ 4096) where
  -- The state after a data block was taken.
  abbrev taken : S → ℕ → S
  taken s lba = put dev (put dev s 1 (content s 1)) 2 (bit_set (content s 2) lba)

  taken_others : (s : S) (lba other : ℕ) → other ≢ 2 → content (taken s lba) other ≡ content s other
  taken_others s lba other ne =
      r.write_there (put dev s 1 (content s 1)) 2 other (bit_set (content s 2) lba) ne
      ∙ elim (ℕ_discrete other 1) [
        | yes e ↦
            ap (content (put dev s 1 (content s 1))) e
            ∙ r.write_here s 1 (content s 1)
            ∙ ap (content s) (sym e)
        | no other_ne ↦ r.write_there s 1 other (content s 1) other_ne
      ]

  taken_map : (s : S) (lba : ℕ) → content (taken s lba) 2 ≡ bit_set (content s 2) lba
  taken_map s lba = r.write_here (put dev s 1 (content s 1)) 2 (bit_set (content s 2) lba)

  alloc_skip :
      (left i : ℕ) (inode : Bytes) (s : S)
      → (direct inode i == 0) ≡ false
      → alloc_blocks dev (suc left) i inode s ≡ alloc_blocks dev left (i + 1) inode s
  unfolding alloc_blocks
  alloc_skip left i inode s e = rw (alloc_blocks, e) refl

  alloc_take :
      (left i : ℕ) (inode : Bytes) (s : S) (lba : ℕ)
      → (direct inode i == 0) ≡ true
      → first_clear (dev.block_count - 8) 8 (content s 2) ≡ some lba
      → alloc_blocks dev (suc left) i inode s
        ≡ alloc_blocks dev left (i + 1) (store32 inode (direct_at i) lba) (taken s lba)
  unfolding alloc_blocks
  alloc_take left i inode s lba e f =
      rw (alloc_blocks, e) (rw (alloc_data_block-ok r large s lba f) refl)

  alloc_fail :
      (left i : ℕ) (inode : Bytes) (s : S)
      → (direct inode i == 0) ≡ true
      → first_clear (dev.block_count - 8) 8 (content s 2) ≡ none
      → alloc_blocks dev (suc left) i inode s ≡ (err enospc, s)
  unfolding alloc_blocks
  alloc_fail left i inode s e f = rw (alloc_blocks, e) (rw (alloc_data_block-full r large s f) refl)

  -- A block that is taken was in no place of the inode.
  no_clash :
      {s : S} {inode : Bytes} {k lba : ℕ}
      → Owned dev content s inode
      → k < 8
      → first_clear (dev.block_count - 8) 8 (content s 2) ≡ some lba
      → direct inode k ≢ lba
  no_clash {s} {inode} {k} {lba} o lt e same =
      let found = first_clear-some (dev.block_count - 8) 8 (content s 2) lba e in
      let u = o.used k lt (λ z. omega (arith, found.0, z, same)) in
      not_both (ap (bit_test (content s 2)) (sym same) ∙ u.bit) found.2

  -- One place gets a block.
  taken-Filled :
      {s : S} {inode : Bytes} {i lba : ℕ}
      → Owned dev content s inode
      → AreOctets (content s 2)
      → i < 8
      → direct inode i ≡ 0
      → first_clear (dev.block_count - 8) 8 (content s 2) ≡ some lba
      → Filled dev content s inode 1 i (taken s lba) (store32 inode (direct_at i) lba)
  taken-Filled {s} {inode} {i} {lba} o oct lt none_yet e =
      let found = first_clear-some (dev.block_count - 8) 8 (content s 2) lba e in
      let map = taken_map s lba in
      let new = store32 inode (direct_at i) lba in
      let here : direct new i ≡ lba =
        load32-store32 inode (direct_at i) lba (omega (arith, found.1, small)) in
      let there : (j : ℕ) → j ≢ i → direct new j ≡ direct inode j =
        λ j ne. load32-store32-Beside inode (direct_at i) lba (direct_at j) (ground arith) in
      let grows : (d : ℕ)
          → bit_test (content s 2) d ≡ true
          → bit_test (content (taken s lba) 2) d ≡ true =
        λ d was. ap (λ b. bit_test b d) map ∙ bit_test-bit_set_old (content s 2) lba d oct was in
      let mine : IsUsed dev content (taken s lba) lba = record {
        low = found.0;
        high = omega (arith, found.1, large);
        bit = ap (λ b. bit_test b lba) map ∙ bit_test-bit_set_new (content s 2) lba oct;
      } in
      record {
        others = taken_others s lba;
        octets = subst AreOctets (sym map) (bit_set-AreOctets (content s 2) lba oct);
        grows = grows;
        owned = record {
          used = λ j j_lt some_block. elim (ℕ_discrete j i) [
            | yes same ↦
                subst (IsUsed dev content (taken s lba)) (sym (ap (direct new) same ∙ here)) mine
            | no ne ↦
                let u = o.used j j_lt (subst (λ x. x ≢ 0) (there j ne) some_block) in
                subst (IsUsed dev content (taken s lba)) (sym (there j ne))
                  (record { low = u.low; high = u.high; bit = grows (direct inode j) u.bit })
          ];
          apart = λ a b a_lt b_lt some_block both. elim (ℕ_discrete a i) [
            | yes a_same ↦ elim (ℕ_discrete b i) [
              | yes b_same ↦ a_same ∙ sym b_same
              | no b_ne ↦ absurd (
                  no_clash o b_lt e (sym (there b b_ne) ∙ sym both ∙ ap (direct new) a_same ∙ here))
            ]
            | no a_ne ↦ elim (ℕ_discrete b i) [
              | yes b_same ↦
                  absurd
                    (no_clash o a_lt e (sym (there a a_ne) ∙ both ∙ ap (direct new) b_same ∙ here))
              | no b_ne ↦
                  o.apart a b a_lt b_lt (subst (λ x. x ≢ 0) (there a a_ne) some_block)
                    (sym (there a a_ne) ∙ both ∙ there b b_ne)
            ]
          ];
        };
        full = λ j low high e0.
            let same : j ≡ i = omega arith in
            let zero_block : lba ≡ 0 = sym here ∙ ap (direct new) (sym same) ∙ e0 in
            omega (arith, found.0, zero_block);
        kept = λ j j_lt some_block. elim (ℕ_discrete j i) [
          | yes same ↦ absurd (some_block (ap (direct inode) same ∙ none_yet))
          | no ne ↦ there j ne
        ];
        fresh = λ j j_lt was now. elim (ℕ_discrete j i) [
          | yes same ↦ ap (bit_test (content s 2)) (ap (direct new) same ∙ here) ∙ found.2
          | no ne ↦ absurd (now (there j ne ∙ was))
        ];
        mode = load16-store32-Beside inode (direct_at i) lba 0 (ground arith);
      }

  Filled-join :
      {s s1 s2 : S} {inode inode1 inode2 : Bytes} (left i : ℕ)
      → i < 8
      → Filled dev content s inode 1 i s1 inode1
      → Filled dev content s1 inode1 left (i + 1) s2 inode2
      → Filled dev content s inode (suc left) i s2 inode2
  Filled-join {s} {s1} {s2} {inode} {inode1} {inode2} left i lt a b = record {
    others = λ lba ne. b.others lba ne ∙ a.others lba ne;
    octets = b.octets;
    grows = λ lba was. b.grows lba (a.grows lba was);
    owned = b.owned;
    full = λ j low high. elim (ℕ_discrete j i) [
      | no ne ↦ b.full j (omega arith) (omega arith)
      | yes same ↦ λ e.
          let some_block = a.full i (omega arith) (omega arith) in
          some_block (sym (b.kept i lt some_block) ∙ ap (direct inode2) (sym same) ∙ e)
    ];
    kept = λ j j_lt some_block.
        let e = a.kept j j_lt some_block in b.kept j j_lt (λ z. some_block (sym e ∙ z)) ∙ e;
    fresh = λ j j_lt was now. elim (ℕ_discrete (direct inode1 j) 0) [
      | no taken_first ↦
          ap (bit_test (content s 2)) (b.kept j j_lt taken_first) ∙ a.fresh j j_lt was taken_first
      | yes still ↦ elim (Bool-cases (bit_test (content s 2) (direct inode2 j))) [
        | inr clear ↦ clear
        | inl set_before ↦
            absurd (not_both (a.grows (direct inode2 j) set_before) (b.fresh j j_lt still now))
      ]
    ];
    mode = b.mode ∙ a.mode;
  }

  -- A place that has a block already.
  skipped-Filled :
      {s : S} {inode : Bytes} {i : ℕ}
      → Owned dev content s inode
      → AreOctets (content s 2)
      → direct inode i ≢ 0
      → Filled dev content s inode 1 i s inode
  skipped-Filled {s} {inode} {i} o oct some_block = record {
    others = λ lba ne. refl;
    octets = oct;
    grows = λ lba was. was;
    owned = o;
    full = λ j low high e.
        let same : j ≡ i = omega arith in some_block (ap (direct inode) (sym same) ∙ e);
    kept = λ j j_lt there. refl;
    fresh = λ j j_lt was now. absurd (now was);
    mode = refl;
  }

  -- What follows a place that was served.
  extend :
      {s s1 : S} {inode inode1 : Bytes} (left i : ℕ) {q p : Result Bytes × S}
      → i < 8
      → p ≡ q
      → Filled dev content s inode 1 i s1 inode1
      → Outcome dev content s1 inode1 left (i + 1) q
      → Outcome dev content s inode (suc left) i p
  extend left i lt same a (done inode2 s2 e b) =
      done inode2 s2 (same ∙ e) (Filled-join left i lt a b)
  extend left i lt same a (ran_out s2 e b) =
      ran_out s2 (same ∙ e)
        (record { others = λ lba ne. b.others lba ne ∙ a.others lba ne; none_left = b.none_left })

  -- The loop gives each of its places a block, or answers that there is none left.
  pub alloc_blocks-Outcome :
      (left i : ℕ) {s : S} {inode : Bytes}
      → Owned dev content s inode
      → AreOctets (content s 2)
      → i + left ≤ 8
      → Outcome dev content s inode left i (alloc_blocks dev left i inode s)
  unfolding alloc_blocks
  alloc_blocks-Outcome zero i {s} {inode} o oct le = done inode s refl (record {
    others = λ lba ne. refl;
    octets = oct;
    grows = λ lba was. was;
    owned = o;
    full = λ j low high. absurd (omega arith);
    kept = λ j j_lt there. refl;
    fresh = λ j j_lt was now. absurd (now was);
    mode = refl;
  })
  alloc_blocks-Outcome (suc left) i {s} {inode} o oct le = elim (Bool-cases (direct inode i == 0)) [
    | inr some_block ↦
        let ne : direct inode i ≢ 0 = ground arith in
        extend left i (omega arith) (alloc_skip left i inode s some_block) (skipped-Filled o oct ne)
          (alloc_blocks-Outcome left (i + 1) o oct (omega arith))
    | inl no_block ↦ elim (Option-cases (first_clear (dev.block_count - 8) 8 (content s 2))) [
      | inl none_left ↦
          ran_out s (alloc_fail left i inode s no_block none_left)
            (record { others = λ lba ne. refl; none_left = none_left })
      | inr (lba, e) ↦
          let zero_block : direct inode i ≡ 0 = ground arith in
          let one = taken-Filled o oct (omega arith) zero_block e in
          extend left i (omega arith) (alloc_take left i inode s lba no_block e) one
            (alloc_blocks-Outcome left (i + 1) one.owned one.octets (omega arith))
    ]
  ]
