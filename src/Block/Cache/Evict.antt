-- ===== src/Block/Cache/Evict.antt =====
-- kernel/block/bcache.c: writing an entry's block back to its disk.
use m4_trio.Base.{
  ℕ, zero, suc, ◌+◌, ◌*◌, ◌≤◌, ◌<◌, ◌≡◌, ◌≢◌, ◌⊎◌, refl, sym, ap, subst, ◌∙◌, true, false, Option,
  some, List, [], ◌∷◌, length, get_or, set, length-set, get_or-set_self, get_or-set_ne, Bool-cases,
  inl, inr, arith,
}
use m4_trio.Block.{World, Status, ok}
use m4_trio.Block.Blk.{blk_write}
use m4_trio.Block.Disk.{byte, ram_of, IsDisk, InRange, Wrote, blk_write-Wrote}
use m4_trio.Block.Cache.{Entry, no_entry, holds, flush_entry, written_back}
use m4_trio.Block.Cache.View.{
  at, Home, Agrees, IsStore, view, Held-holds, view-hit, view-miss, hit, miss, look,
}
use m4_trio.Block.Cache.Place.{not_both}
use native.Mathlib.Decide.{ℕ_discrete, dec_lt}
use native.Mathlib.Nat.{mul-le-mul_right}

-- The devices are the same but for the bytes on them.
pub record Keeps (w w' : World) (d : ℕ) : Type 0 where
  pub block_size : (w' d).block_size ≡ (w d).block_size
  pub block_count : (w' d).block_count ≡ (w d).block_count
  pub disk : IsDisk (w d) → IsDisk (w' d)

-- One block was written and no other.
record Stored (w w' : World) (size dev lba : ℕ) (bytes : List ℕ) : Type 0 where
  keeps : (d : ℕ) → Keeps w w' d
  here : (j : ℕ) → j < size → byte w' dev (lba * size + j) ≡ get_or bytes j 0
  there :
      (d l j : ℕ)
      → j < size
      → (d ≡ dev → l ≢ lba)
      → byte w' d (l * size + j) ≡ byte w d (l * size + j)

-- A byte of another block lies before or after the block.
beside :
    {l lba j : ℕ} (size : ℕ)
    → j < size
    → l ≢ lba
    → (l * size + j < lba * size) ⊎ (lba * size + 1 * size ≤ l * size + j)
beside {l} {lba} size lt ne = elim (dec_lt l lba) [
  | yes low ↦ let le : l + 1 ≤ lba = omega arith in inl (omega (arith, mul-le-mul_right size le))
  | no high ↦ let le : lba + 1 ≤ l = ground arith in inr (omega (arith, mul-le-mul_right size le))
]

Wrote-Stored :
    {w : World} {dev lba : ℕ} {bytes : List ℕ} {r : Status × World × Option (List ℕ)}
    → Wrote w dev lba 1 bytes r
    → Stored w r.1 (w dev).block_size dev lba bytes
Wrote-Stored {w} {dev} {lba} {bytes} {r} wrote = record {
  keeps = λ d. elim (ℕ_discrete d dev) [
    | yes same ↦ subst (Keeps w r.1) (sym same) (record {
      block_size = wrote.block_size;
      block_count = wrote.block_count;
      disk = λ was. wrote.disk;
    })
    | no ne ↦
        let e = wrote.elsewhere d ne in
        record {
          block_size = ap (λ x. x.block_size) e;
          block_count = ap (λ x. x.block_count) e;
          disk = λ was. subst IsDisk (sym e) was;
        }
  ];
  here = λ j lt. wrote.inside j (omega arith);
  there = λ d l j lt other. elim (ℕ_discrete d dev) [
    | no ne ↦
        ap (λ x. get_or (ram_of x).storage (l * (w dev).block_size + j) 0) (wrote.elsewhere d ne)
    | yes same ↦
        let size = (w dev).block_size in
        subst (λ x. byte r.1 x (l * size + j) ≡ byte w x (l * size + j)) (sym same)
          (wrote.outside (l * size + j) (beside size lt (other same)))
  ];
}

blk_write-Stored :
    {w : World} {size : ℕ} (e : Entry)
    → Home w size e.dev e.lba
    → let r = blk_write w e.dev e.lba 1 (some e.bytes) in
      (r.0 ≡ ok) × Stored w r.1 size e.dev e.lba e.bytes
blk_write-Stored {w} {size} e home =
    let range : InRange w e.dev e.lba 1 = record {
      device = home.device;
      some_blocks = omega arith;
      fits = omega (arith, home.in_range);
    } in
    let wrote = blk_write-Wrote e.bytes home.disk range in
    (
      wrote.answer,
      subst (λ x. Stored w (blk_write w e.dev e.lba 1 (some e.bytes)).1 x e.dev e.lba e.bytes)
          home.block_size (Wrote-Stored wrote),
    )

pub keep_Home :
    {w w' : World} {size dev lba : ℕ} → Keeps w w' dev → Home w size dev lba → Home w' size dev lba
keep_Home k home = record {
  device = home.device;
  disk = k.disk home.disk;
  block_size = k.block_size ∙ home.block_size;
  in_range = omega (arith, home.in_range, k.block_count);
}

-- An entry was written back: what is seen of every block is the same, and the entry may go.
pub record Flushed (w : World) (n size : ℕ) (entries : List Entry) (i : ℕ)
    (r : Status × World × Entry) : Type 0 where
  pub answer : r.0 ≡ ok
  pub keeps : (d : ℕ) → Keeps w r.1 d
  pub store : IsStore r.1 n size (set entries i r.2)
  pub same :
      (d l j : ℕ)
      → j < size
      → view r.1 n size (set entries i r.2) d l j ≡ view w n size entries d l j
  pub held : (d l k : ℕ) → holds (at (set entries i r.2) k) d l ≡ holds (at entries k) d l
  pub rinsed : r.2.valid ≡ true → r.2.dirty ≡ false

module _ {w : World} {n size : ℕ} {entries : List Entry} {i : ℕ} (s : IsStore w n size entries)
    (lt : i < n) (valid : (at entries i).valid ≡ true) where
  abbrev new : List Entry
  new = set entries i (record (at entries i) { dirty = false })

  -- The entry after the write differs in its flag only.
  alike {κ} :
      {A : Type κ} (f : Entry → A)
      → f (record (at entries i) { dirty = false }) ≡ f (at entries i)
      → (k : ℕ) → f (at new k) ≡ f (at entries k)
  alike f e k = elim (ℕ_discrete k i) [
    | yes same ↦
        subst (λ x. f (at new x) ≡ f (at entries x)) (sym same)
          (ap f (
              get_or-set_self entries i (record (at entries i) { dirty = false }) no_entry
                (omega (arith, s.sized, lt)))
            ∙ e)
    | no ne ↦ ap f (
        get_or-set_ne entries i k (record (at entries i) { dirty = false }) no_entry
          λ x. ne (sym x))
  ]

  alike_holds : (d l k : ℕ) → holds (at new k) d l ≡ holds (at entries k) d l
  unfolding holds
  alike_holds d l k = alike (λ x. holds x d l) refl k

  -- What holds at the new entry and at each other one, holds at each.
  across {κ} :
      (P : Entry → Type κ)
      → P (record (at entries i) { dirty = false })
      → ((k : ℕ) → k < n → k ≢ i → P (at entries k))
      → (k : ℕ) → k < n
      → P (at new k)
  across P fresh old k k_lt = elim (ℕ_discrete k i) [
    | yes same ↦
        subst (λ x. P (at new x)) (sym same)
          (subst P
            (sym (
              get_or-set_self entries i (record (at entries i) { dirty = false }) no_entry
                (omega (arith, s.sized, lt))))
            fresh)
    | no ne ↦
        subst P
          (sym (
            get_or-set_ne entries i k (record (at entries i) { dirty = false }) no_entry
              λ x. ne (sym x)))
          (old k k_lt ne)
  ]

  module _ {w' : World}
      (p : Stored w w' size (at entries i).dev (at entries i).lba (at entries i).bytes) where
    still_clean :
        (k : ℕ)
        → k < n
        → k ≢ i
        → (at entries k).valid ≡ true
        → (at entries k).dirty ≡ false
        → Agrees w' size (at entries k)
    still_clean k k_lt ne v dry j j_lt =
        s.clean k k_lt v dry j j_lt
        ∙ sym (
            p.there (at entries k).dev (at entries k).lba j j_lt λ ed el. ne (
              s.apart k i (at entries i).dev (at entries i).lba k_lt lt
                (Held-holds (record { valid = v; dev = ed; lba = el }))
                (Held-holds (record { valid = valid; dev = refl; lba = refl }))))

    stored-IsStore : IsStore w' n size new
    stored-IsStore = record {
      sized = length-set entries i (record (at entries i) { dirty = false }) ∙ s.sized;
      nonempty = s.nonempty;
      shaped = λ k k_lt. alike (λ x. length x.bytes) refl k ∙ s.shaped k k_lt;
      placed =
          across (λ x. x.valid ≡ true → Home w' size x.dev x.lba)
            (λ v. keep_Home (p.keeps (at entries i).dev) (s.placed i lt v))
            (λ k k_lt ne v. keep_Home (p.keeps (at entries k).dev) (s.placed k k_lt v));
      clean =
          across (λ x. x.valid ≡ true → x.dirty ≡ false → Agrees w' size x)
            (λ v dry j j_lt. sym (p.here j j_lt)) still_clean;
      apart = λ k m d l k_lt m_lt k_held m_held.
          s.apart k m d l k_lt m_lt (sym (alike_holds d l k) ∙ k_held)
            (sym (alike_holds d l m) ∙ m_held);
    }

    stored_same : (d l j : ℕ) → j < size → view w' n size new d l j ≡ view w n size entries d l j
    stored_same d l j j_lt = elim (look n entries d l) [
      | hit k k_lt held ↦
          view-hit k d l j stored-IsStore k_lt (alike_holds d l k ∙ held)
          ∙ alike (λ x. get_or x.bytes j 0) refl k
          ∙ sym (view-hit k d l j s k_lt held)
      | miss free ↦
          view-miss w' n size new d l j (λ m m_lt. alike_holds d l m ∙ free m m_lt)
          ∙ p.there d l j j_lt (λ ed el.
            not_both (Held-holds (record { valid = valid; dev = sym ed; lba = sym el }))
              (free i lt))
          ∙ sym (view-miss w n size entries d l j free)
    ]

set-at : (entries : List Entry) (i : ℕ) → set entries i (at entries i) ≡ entries
set-at [] i = refl
set-at (e ∷ entries) zero = refl
set-at (e ∷ entries) (suc i) = ap (λ x. e ∷ x) (set-at entries i)

-- An entry that is free or clean is left as it is.
flush_idle :
    {w : World} {n size : ℕ} {entries : List Entry} {i : ℕ}
    → IsStore w n size entries
    → ((at entries i).valid ≡ true → (at entries i).dirty ≡ false)
    → Flushed w n size entries i (ok, w, at entries i)
flush_idle {w} {n} {size} {entries} {i} s idle = record {
  answer = refl;
  keeps = λ d. record { block_size = refl; block_count = refl; disk = λ was. was };
  store = subst (IsStore w n size) (sym (set-at entries i)) s;
  same = λ d l j lt. ap (λ x. view w n size x d l j) (set-at entries i);
  held = λ d l k. ap (λ x. holds (at x k) d l) (set-at entries i);
  rinsed = idle;
}

written_back-ok :
    (r : Status × World × Option (List ℕ)) (e : Entry)
    → r.0 ≡ ok
    → written_back r e ≡ (ok, r.1, record e { dirty = false })
unfolding written_back
written_back-ok r e good = ap (λ st. written_back (st, r.1, r.2) e) good

flush_free : (w : World) (e : Entry) → e.valid ≡ false → flush_entry w e ≡ (ok, w, e)
unfolding flush_entry
flush_free w e free = ground arith

flush_dry :
    (w : World) (e : Entry) → e.valid ≡ true → e.dirty ≡ false → flush_entry w e ≡ (ok, w, e)
unfolding flush_entry
flush_dry w e valid dry = ground arith

flush_dirty :
    {w : World} {n size : ℕ} {entries : List Entry} {i : ℕ}
    → IsStore w n size entries
    → i < n
    → (at entries i).valid ≡ true
    → (at entries i).dirty ≡ true
    → Flushed w n size entries i (flush_entry w (at entries i))
unfolding flush_entry
flush_dirty {w} {n} {size} {entries} {i} s lt valid dirty =
    let e = at entries i in
    let p = blk_write-Stored e (s.placed i lt valid) in
    let r = blk_write w e.dev e.lba 1 (some e.bytes) in
    rw valid (
      rw dirty (
        rw (written_back-ok r e p.0) (record {
          answer = refl;
          keeps = λ d. p.1.keeps d;
          store = stored-IsStore s lt valid p.1;
          same = stored_same s lt valid p.1;
          held = alike_holds s lt valid;
          rinsed = λ v. refl;
        })))

-- Writing back an entry of a valid cache succeeds, and what is seen of every block is the same.
pub flush_entry-Flushed :
    {w : World} {n size : ℕ} {entries : List Entry} {i : ℕ}
    → IsStore w n size entries
    → i < n
    → Flushed w n size entries i (flush_entry w (at entries i))
flush_entry-Flushed {w} {n} {size} {entries} {i} s lt = elim (Bool-cases (at entries i).valid) [
  | inr free ↦
      subst (Flushed w n size entries i) (sym (flush_free w (at entries i) free))
        (flush_idle s λ v. absurd (not_both v free))
  | inl valid ↦ elim (Bool-cases (at entries i).dirty) [
    | inl dirty ↦ flush_dirty s lt valid dirty
    | inr dry ↦
        subst (Flushed w n size entries i) (sym (flush_dry w (at entries i) valid dry))
          (flush_idle s λ v. dry)
  ]
]
