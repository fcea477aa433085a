-- ===== src/Block/Cache/View.antt =====
-- kernel/block/bcache.c: the blocks as a caller sees them through the cache, and the invariant.
use m4_trio.Base.{
  ℕ, zero, suc, ◌+◌, ◌*◌, ◌≤◌, ◌<◌, ◌≡◌, ◌≢◌, refl, ap, true, false, Option, none, some, List,
  length, get_or, Option-cases, inl, inr, arith,
}
use m4_trio.Block.{World}
use m4_trio.Block.Disk.{IsDisk, byte}
use m4_trio.Block.Cache.{Entry, Cache, no_entry, holds, find_from}
use native.Mathlib.Decide.{ℕ_discrete}

abbrev pub at : List Entry → ℕ → Entry
at entries i = get_or entries i no_entry

-- The block lies on a disk with blocks of the cache's size.
pub record Home (w : World) (size dev lba : ℕ) : Type 0 where
  pub device : dev ≢ 0
  pub disk : IsDisk (w dev)
  pub block_size : (w dev).block_size ≡ size
  pub in_range : lba < (w dev).block_count

-- The entry's bytes are those of the disk.
abbrev pub Agrees : World → ℕ → Entry → Type 0
Agrees w size e = (j : ℕ) → j < size → get_or e.bytes j 0 ≡ byte w e.dev (e.lba * size + j)

-- What every operation keeps, for `n` entries with blocks of `size` bytes.
pub record IsStore (w : World) (n size : ℕ) (entries : List Entry) : Type 0 where
  pub sized : length entries ≡ n
  pub nonempty : n ≢ 0
  pub shaped : (i : ℕ) → i < n → length (at entries i).bytes ≡ size
  pub placed :
      (i : ℕ)
      → i < n
      → (at entries i).valid ≡ true
      → Home w size (at entries i).dev (at entries i).lba
  pub clean :
      (i : ℕ)
      → i < n
      → (at entries i).valid ≡ true
      → (at entries i).dirty ≡ false
      → Agrees w size (at entries i)
  pub apart :
      (i j d l : ℕ)
      → i < n
      → j < n
      → holds (at entries i) d l ≡ true
      → holds (at entries j) d l ≡ true
      → i ≡ j

abbrev pub IsCached : World → Cache → Type 0
IsCached w c = IsStore w c.entry_count c.block_size c.entries

-- Byte `j` of block `l` of device `d`: the cached one, or else the disk's.
pub seen : Option ℕ → World → ℕ → List Entry → ℕ → ℕ → ℕ → ℕ
seen (some i) w size entries d l j = get_or (at entries i).bytes j 0
seen none w size entries d l j = byte w d (l * size + j)

abbrev pub view : World → ℕ → ℕ → List Entry → ℕ → ℕ → ℕ → ℕ
view w n size entries d l j = seen (find_from n 0 entries d l) w size entries d l j

abbrev pub content : World → Cache → ℕ → ℕ → ℕ → ℕ
content w c d l j = view w c.entry_count c.block_size c.entries d l j

pub record Held (e : Entry) (d l : ℕ) : Type 0 where
  pub valid : e.valid ≡ true
  pub dev : e.dev ≡ d
  pub lba : e.lba ≡ l

pub holds-Held : (e : Entry) (d l : ℕ) → holds e d l ≡ true → Held e d l
unfolding holds
holds-Held e d l h = record { valid = ground arith; dev = ground arith; lba = ground arith }

pub Held-holds : {e : Entry} {d l : ℕ} → Held e d l → holds e d l ≡ true
unfolding holds
Held-holds h = ground (arith, h.valid, h.dev, h.lba)

pub find_from-some :
    (n i : ℕ) (entries : List Entry) (d l k : ℕ)
    → find_from n i entries d l ≡ some k
    → (k < i + n) × (holds (at entries k) d l ≡ true)
unfolding find_from
find_from-some zero i entries d l k e = ground arith
find_from-some (suc n) i entries d l k e = ground (arith, find_from-some n (i + 1) entries d l k)

pub find_from-none :
    (n i : ℕ) (entries : List Entry) (d l : ℕ)
    → find_from n i entries d l ≡ none
    → (k : ℕ) → i ≤ k
    → k < i + n
    → holds (at entries k) d l ≡ false
unfolding find_from
find_from-none zero i entries d l e k low high = absurd (omega arith)
find_from-none (suc n) i entries d l e k low high = elim (ℕ_discrete k i) [
  | yes same ↦ rw same (ground arith)
  | no ne ↦ find_from-none n (i + 1) entries d l (ground arith) k (omega arith) (omega arith)
]

-- A cached block is seen in its entry.
pub view-hit :
    {w : World} {n size : ℕ} {entries : List Entry} (i d l j : ℕ)
    → IsStore w n size entries
    → i < n
    → holds (at entries i) d l ≡ true
    → view w n size entries d l j ≡ get_or (at entries i).bytes j 0
unfolding seen
view-hit {w} {n} {size} {entries} i d l j s lt held =
    elim (Option-cases (find_from n 0 entries d l)) [
      | inl missed ↦
          absurd
            (ground (arith, find_from-none n 0 entries d l missed i (omega arith) (omega arith)))
      | inr (k, e) ↦
          let found = find_from-some n 0 entries d l k e in
          rw e (
            ap (λ x. get_or (at entries x).bytes j 0)
              (s.apart k i d l (omega (arith, found.0)) lt found.1 held))
    ]

-- A block that no entry holds is seen on the disk.
pub view-miss :
    (w : World) (n size : ℕ) (entries : List Entry) (d l j : ℕ)
    → ((i : ℕ) → i < n → holds (at entries i) d l ≡ false)
    → view w n size entries d l j ≡ byte w d (l * size + j)
unfolding seen
view-miss w n size entries d l j missed = elim (Option-cases (find_from n 0 entries d l)) [
  | inl e ↦ rw e refl
  | inr (k, e) ↦
      let found = find_from-some n 0 entries d l k e in
      absurd (ground (arith, missed k (omega (arith, found.0)), found.1))
]

-- Either some entry holds the block, or none does.
pub data Lookup (n : ℕ) (entries : List Entry) (d l : ℕ) : Type 0 where
  hit : (i : ℕ) → i < n → holds (at entries i) d l ≡ true → Lookup n entries d l
  miss : ((i : ℕ) → i < n → holds (at entries i) d l ≡ false) → Lookup n entries d l

pub look : (n : ℕ) (entries : List Entry) (d l : ℕ) → Lookup n entries d l
look n entries d l = elim (Option-cases (find_from n 0 entries d l)) [
  | inl e ↦ miss λ i lt. find_from-none n 0 entries d l e i (omega arith) (omega arith)
  | inr (k, e) ↦
      let found = find_from-some n 0 entries d l k e in hit k (omega (arith, found.0)) found.1
]
