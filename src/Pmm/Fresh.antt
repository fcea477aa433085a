-- ===== src/Pmm/Fresh.antt =====
-- The first half of `pmm_init_from_map`: the bitmap of ones and the counters that go with it.
use m4_trio.Base.{
  ℕ, zero, suc, ◌+◌, ◌*◌, ◌/◌, ◌%◌, ◌<◌, ◌≤◌, ◌≡◌, refl, sym, ap, true, ◌&&◌, List, length, get_or,
  set, All-set, length-set, get_or-set_self, get_or-set_ne, ltb, leb, if◌then◌else◌,
  clear_count-full, u64_mod, add64, arith,
}
use native.Mathlib.Decide.{ℕ_discrete}
use m4_trio.Pmm.{page_size, bitmap_test, fill_ones, fresh}
use m4_trio.Pmm.Bitmap.{AreBytes, bitmap_test-ones}
use m4_trio.Pmm.Marks.{IsValid}

length-fill_ones : (n i : ℕ) (bm : List ℕ) → length (fill_ones n i bm) ≡ length bm
unfolding fill_ones
length-fill_ones zero i bm = refl
length-fill_ones (suc n) i bm =
    omega (arith, length-fill_ones n (i + 1) (set bm i 255), length-set bm i 255)

fill_ones-AreBytes : (n i : ℕ) (bm : List ℕ) → AreBytes bm → AreBytes (fill_ones n i bm)
unfolding fill_ones
fill_ones-AreBytes zero i bm h = h
fill_ones-AreBytes (suc n) i bm h =
    fill_ones-AreBytes n (i + 1) (set bm i 255) (All-set (λ b. b < 256) bm i 255 h (omega arith))

get_or-fill_ones :
    (n i k : ℕ) (bm : List ℕ)
    → i + n ≤ length bm
    → get_or (fill_ones n i bm) k 0 ≡ (if leb i k && ltb k (i + n) then 255 else get_or bm k 0)
unfolding fill_ones
get_or-fill_ones zero i k bm h = ground arith
get_or-fill_ones (suc n) i k bm h = elim (ℕ_discrete i k) [
  | yes e ↦ ground (
    arith,
    get_or-fill_ones n (i + 1) k (set bm i 255) (omega (arith, length-set bm i 255)),
    ap (λ j. get_or (set bm i 255) j 0) e,
    get_or-set_self bm i 255 0 (omega arith),
  )
  | no ne ↦ ground (
    arith,
    get_or-fill_ones n (i + 1) k (set bm i 255) (omega (arith, length-set bm i 255)),
    get_or-set_ne bm i k 255 0 ne,
  )
]

-- The memory behind `bitmap_storage`, and a size that the code accepts.
pub record Accepted (storage : List ℕ) (max_phys : ℕ) : Type 0 where
  pub whole : max_phys % page_size ≡ 0
  pub word : max_phys < u64_mod
  pub bytes : AreBytes storage
  pub room : max_phys / page_size ≤ 8 * length storage

module _ {storage : List ℕ} {max_phys : ℕ} (acc : Accepted storage max_phys) where
  pub fresh_bits :
      (j : ℕ) → j < max_phys / page_size → bitmap_test (fresh storage max_phys).bitmap j ≡ true
  unfolding fresh
  fresh_bits j lt = bitmap_test-ones _ j (
      ground (
        arith,
        acc.word,
        acc.room,
        get_or-fill_ones (add64 (max_phys / page_size) 7 / 8) 0 (j / 8) storage
            (omega (arith, acc.room, acc.word)),
      ))

  pub fresh-IsValid : IsValid (fresh storage max_phys)
  unfolding fresh
  fresh-IsValid = record {
    pages = omega (arith, acc.whole);
    small = acc.word;
    room = omega (arith, acc.room, length-fill_ones (add64 (max_phys / page_size) 7 / 8) 0 storage);
    bytes = fill_ones-AreBytes _ 0 storage acc.bytes;
    counted = sym (clear_count-full _ _ fresh_bits);
    sums = omega arith;
    hint = omega arith;
    below = λ f h. elim h [ ];
  }
