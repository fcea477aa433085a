-- ===== src/Mcsfs/Directory.antt =====
-- fs/mcsfs1/mcsfs1.c: what the search of the directory finds.
use m4_trio.Base.{
  ℕ, zero, suc, ◌+◌, ◌≤◌, ◌<◌, ◌≡◌, ◌≢◌, ◌⊎◌, inl, inr, refl, sym, ap, ◌∙◌, Bool, true, false,
  ==_self, ne→==, Bool-cases, arith,
}
use m4_trio.Mcsfs.{Bytes, Result, ok, err, enoent}
use m4_trio.Mcsfs.Memory.{strlen_bound, mem_equal, load32}
use m4_trio.Mcsfs.Memory.Words.{load32-at}
use m4_trio.Mcsfs.Table.{dirent_at, name_at, names, scan}
use m4_trio.Mcsfs.Strings.{
  IsString, strlen-IsString, IsString-strlen, mem_equal_sound, mem_equal_complete,
}
use native.Mathlib.Decide.{ℕ_discrete}

-- Entry `slot` is in use and holds the name, with a terminator.
pub record Matches (block : Bytes) (slot : ℕ) (name : Bytes) (n : ℕ) : Type 0 where
  pub in_use : load32 block (dirent_at slot) ≢ 0
  pub letters : (k : ℕ) → k < n → block (name_at slot + k) ≡ name k
  pub ends : block (name_at slot + n) ≡ 0

pub names-Matches :
    (block : Bytes) (slot : ℕ) (name : Bytes) (n : ℕ)
    → n ≤ 27
    → names block slot name n ≡ true
    → Matches block slot name n
unfolding names
names-Matches block slot name n le e =
    let len : strlen_bound 28 block (name_at slot) 0 ≡ n = ground arith in
    let same : mem_equal n block (name_at slot) name 0 ≡ true = ground arith in
    let v = IsString-strlen len le in
    record {
      in_use = ground arith;
      letters = λ k lt.
          let q : 0 + k ≡ k = omega arith in
          mem_equal_sound n block (name_at slot) name 0 same k lt ∙ ap name q;
      ends = v.ends;
    }

pub Matches-names :
    {block : Bytes} {slot : ℕ} {name : Bytes} {n : ℕ}
    → IsString name 0 n
    → n ≤ 27
    → Matches block slot name n
    → names block slot name n ≡ true
unfolding names
Matches-names {block} {slot} {name} {n} v le m =
    let len =
      strlen-IsString {s = block} {at = name_at slot} {n = n}
        (record {
          letters = λ k lt z.
              let q : 0 + k ≡ k = omega arith in
              v.letters k lt (ap name q ∙ sym (m.letters k lt) ∙ z);
          ends = m.ends;
        })
        le in
    let same =
      mem_equal_complete n block (name_at slot) name 0
        (λ k lt. let q : k ≡ 0 + k = omega arith in m.letters k lt ∙ ap name q) in
    rw (ne→== (load32 block (dirent_at slot)) 0 m.in_use) (rw len (rw (==_self n) same))

Bool-iff : (a b : Bool) → (a ≡ true → b ≡ true) → (b ≡ true → a ≡ true) → a ≡ b
Bool-iff true b f g = sym (f refl)
Bool-iff false true f g = g refl
Bool-iff false false f g = refl

-- Two blocks with the same entry in a slot, where the name has at most 26 bytes: the search does
-- not look past the entry.
pub names-same :
    (a b : Bytes) (slot : ℕ) {name : Bytes} {n : ℕ}
    → ((k : ℕ) → k < 32 → a (dirent_at slot + k) ≡ b (dirent_at slot + k))
    → IsString name 0 n
    → n ≤ 26
    → names a slot name n ≡ names b slot name n
names-same a b slot {name} {n} same v le =
    Bool-iff (names a slot name n) (names b slot name n)
      (λ e.
        Matches-names v (omega arith)
          (moved a b (names-Matches a slot name n (omega arith) e) same))
      (λ e.
        Matches-names v (omega arith)
          (moved b a (names-Matches b slot name n (omega arith) e) λ k lt. sym (same k lt)))
  where
    name_byte :
        (x y : Bytes)
        → ((k : ℕ) → k < 32 → x (dirent_at slot + k) ≡ y (dirent_at slot + k))
        → (k : ℕ) → k < 27
        → x (name_at slot + k) ≡ y (name_at slot + k)
    name_byte x y h k lt =
        let q : name_at slot + k ≡ dirent_at slot + (5 + k) = omega arith in
        ap x q ∙ h (5 + k) (omega arith) ∙ ap y (sym q)

    moved :
        (x y : Bytes)
        → Matches x slot name n
        → ((k : ℕ) → k < 32 → x (dirent_at slot + k) ≡ y (dirent_at slot + k))
        → Matches y slot name n
    moved x y m h = record {
      in_use = λ z.
          m.in_use
            (load32-at x y (dirent_at slot) (dirent_at slot) (λ k lt. h k (omega arith)) ∙ z);
      letters = λ k lt. sym (name_byte x y h k (omega arith)) ∙ m.letters k lt;
      ends = sym (name_byte x y h n (omega arith)) ∙ m.ends;
    }

-- The search looks at the entries in order.
pub scan-first :
    (left slot k : ℕ) (block name : Bytes) (n : ℕ)
    → slot ≤ k
    → k < slot + left
    → names block k name n ≡ true
    → ((j : ℕ) → slot ≤ j → j < k → names block j name n ≡ false)
    → scan left slot block name n ≡ ok (k, load32 block (dirent_at k))
unfolding scan
scan-first zero slot k block name n low high e before = absurd (omega arith)
scan-first (suc left) slot k block name n low high e before = elim (ℕ_discrete slot k) [
  | yes same ↦
      let here : names block slot name n ≡ true = ap (λ x. names block x name n) same ∙ e in
      rw (scan, here) (ap (λ x. ok (x, load32 block (dirent_at x))) same)
  | no ne ↦
      rw (scan, before slot (omega arith) (omega arith))
        (scan-first left (slot + 1) k block name n (omega arith) (omega arith) e
          λ j j_low. before j (omega arith))
]

pub scan-none :
    (left slot : ℕ) (block name : Bytes) (n : ℕ)
    → ((j : ℕ) → slot ≤ j → j < slot + left → names block j name n ≡ false)
    → scan left slot block name n ≡ err enoent
unfolding scan
scan-none zero slot block name n all = refl
scan-none (suc left) slot block name n all =
    rw (scan, all slot (omega arith) (omega arith))
      (scan-none left (slot + 1) block name n λ j low high. all j (omega arith) (omega arith))

-- Two blocks in which the same slots have the name, for the same inodes.
pub scan-same :
    (left slot : ℕ) (a b name : Bytes) (n : ℕ)
    → ((j : ℕ) → slot ≤ j → j < slot + left → names a j name n ≡ names b j name n)
    → ((j : ℕ)
        → slot ≤ j
        → j < slot + left
        → names b j name n ≡ true
        → load32 a (dirent_at j) ≡ load32 b (dirent_at j))
    → scan left slot a name n ≡ scan left slot b name n
unfolding scan
scan-same zero slot a b name n same load = refl
scan-same (suc left) slot a b name n same load = elim (Bool-cases (names b slot name n)) [
  | inl e ↦
      rw (scan, same slot (omega arith) (omega arith), e)
        (ap (λ x. ok (slot, x)) (load slot (omega arith) (omega arith) e))
  | inr e ↦
      rw (scan, same slot (omega arith) (omega arith), e)
        (scan-same left (slot + 1) a b name n (λ j low high. same j (omega arith) (omega arith))
          λ j low high. load j (omega arith) (omega arith))
]

-- What an unsuccessful search says.
pub none-scan :
    (left slot : ℕ) (block name : Bytes) (n : ℕ)
    → scan left slot block name n ≡ err enoent
    → (j : ℕ) → slot ≤ j
    → j < slot + left
    → names block j name n ≡ false
unfolding scan
none-scan zero slot block name n e j low high = absurd (omega arith)
none-scan (suc left) slot block name n e j low high = elim (ℕ_discrete j slot) [
  | yes same ↦ ap (λ x. names block x name n) same ∙ ground arith
  | no ne ↦ none-scan left (slot + 1) block name n (ground arith) j (omega arith) (omega arith)
]

pub scan-cases :
    (left slot : ℕ) (block name : Bytes) (n : ℕ)
    → ((k i : ℕ) × (scan left slot block name n ≡ ok (k, i)))
      ⊎ (scan left slot block name n ≡ err enoent)
unfolding scan
scan-cases zero slot block name n = inr refl
scan-cases (suc left) slot block name n = elim (Bool-cases (names block slot name n)) [
  | inl e ↦ inl (slot, load32 block (dirent_at slot), rw (scan, e) refl)
  | inr e ↦ rw (scan, e) (scan-cases left (slot + 1) block name n)
]

-- Two names with the same bytes.
pub record Same (a : Bytes) (m : ℕ) (b : Bytes) (n : ℕ) : Type 0 where
  pub length : m ≡ n
  pub bytes : (k : ℕ) → k < n → a k ≡ b k

Matches-IsString :
    {block : Bytes} {slot : ℕ} {name : Bytes} {n : ℕ}
    → IsString name 0 n
    → Matches block slot name n
    → IsString block (name_at slot) n
Matches-IsString {name = name} v m = record {
  letters = λ k lt z.
      let q : 0 + k ≡ k = omega arith in v.letters k lt (ap name q ∙ sym (m.letters k lt) ∙ z);
  ends = m.ends;
}

-- An entry holds one name.
pub Matches-Same :
    {block : Bytes} {slot : ℕ} {a b : Bytes} {m n : ℕ}
    → IsString a 0 m
    → m ≤ 27
    → IsString b 0 n
    → n ≤ 27
    → Matches block slot a m
    → Matches block slot b n
    → Same a m b n
Matches-Same {block} {slot} {a} {b} {m} {n} va a_le vb b_le x y =
    let length : m ≡ n =
      sym (strlen-IsString (Matches-IsString va x) a_le)
      ∙ strlen-IsString (Matches-IsString vb y) b_le in
    record {
      length = length;
      bytes = λ k lt. sym (x.letters k (omega (arith, length))) ∙ y.letters k lt;
    }

-- A successful search answers an entry that has the name.
pub scan-names :
    (left slot : ℕ) (block name : Bytes) (n k i : ℕ)
    → scan left slot block name n ≡ ok (k, i)
    → (k < slot + left) × (names block k name n ≡ true)
unfolding scan
scan-names zero slot block name n k i e = absurd (ground arith)
scan-names (suc left) slot block name n k i e = elim (Bool-cases (names block slot name n)) [
  | inl here ↦
      let at : ◌≡◌ {A = Result (ℕ × ℕ)} (ok (slot, load32 block (dirent_at slot))) (ok (k, i)) =
        sym (rw (scan, here) refl) ∙ e in
      let same : slot ≡ k = ap (slot_of slot) at in
      (omega arith, ap (λ x. names block x name n) (sym same) ∙ here)
  | inr away ↦
      let rest = scan-names left (slot + 1) block name n k i (sym (rw (scan, away) refl) ∙ e) in
      (omega (arith, rest.0), rest.1)
]
  where
    slot_of : ℕ → Result (ℕ × ℕ) → ℕ
    slot_of d (ok p) = p.0
    slot_of d (err x) = d
