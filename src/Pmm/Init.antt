-- ===== src/Pmm/Init.antt =====
-- `pmm_init_from_map`: the state that it builds is valid, and its bitmap is what the memory map says.
use m4_trio.Base.{
  ℕ, ◌*◌, ◌/◌, ◌<◌, ◌≤◌, ◌≡◌, ◌≢◌, refl, ◌∙◌, Bool, true, false, not, ◌&&◌, ◌||◌, Option, none,
  some, List, [], ◌∷◌, All, ◌==◌, if◌then◌else◌, arith,
}
use m4_trio.Pmm.{
  Pmm, Region, page_size, boot_mem_usable, bitmap_test, mark_range_used, free_usable,
  reserve_unusable, fresh, build, init_from_map,
}
use m4_trio.Pmm.Marks.{IsValid, Keeps}
use m4_trio.Pmm.Ranges.{Keeps-trans}
use m4_trio.Pmm.Coverage.{
  covers, touches, Fits, Painted, Painted-none, Painted-trans, mark_range_free-Painted,
  mark_range_used-Painted,
}
use m4_trio.Pmm.Fresh.{Accepted, fresh_bits, fresh-IsValid}

-- What the memory map says of a frame: some usable region covers it whole.
pub usable_covers : List Region → ℕ → Bool
usable_covers [] f = false
usable_covers (r ∷ rs) f =
    (r.type == boot_mem_usable && covers r.base r.length f) || usable_covers rs f

-- Some region of another type touches it.
pub reserved_touches : List Region → ℕ → Bool
reserved_touches [] f = false
reserved_touches (r ∷ rs) f =
    (not (r.type == boot_mem_usable) && touches r.base r.length f) || reserved_touches rs f

-- No region comes near 2 ^ 64.
abbrev pub AllFit : List Region → Type 0
AllFit = All (λ r. Fits r.base r.length)

Painted-if :
    (b c : Bool) (sel : ℕ → Bool) {p q : Pmm}
    → IsValid p
    → Painted b sel p q
    → Painted b (λ j. c && sel j) p (if c then q else p)
Painted-if b true sel v m = record { valid = m.valid; keeps = m.keeps; bits = m.bits }
Painted-if b false sel v m = Painted-none b v

free_usable-Painted :
    (rs : List Region) {p : Pmm}
    → AllFit rs
    → IsValid p
    → Painted false (usable_covers rs) p (free_usable rs p)
unfolding free_usable usable_covers
free_usable-Painted [] h v = Painted-none false v
free_usable-Painted (r ∷ rs) h v =
    let m =
      Painted-if false (r.type == boot_mem_usable) (covers r.base r.length) v
        (mark_range_free-Painted r.base r.length v h.0) in
    Painted-trans false _ (usable_covers rs) m (free_usable-Painted rs h.1 m.valid)

Painted-unless :
    (b c : Bool) (sel : ℕ → Bool) {p q : Pmm}
    → IsValid p
    → Painted b sel p q
    → Painted b (λ j. not c && sel j) p (if c then p else q)
Painted-unless b true sel v m = Painted-none b v
Painted-unless b false sel v m = record { valid = m.valid; keeps = m.keeps; bits = m.bits }

reserve_unusable-Painted :
    (rs : List Region) {p : Pmm}
    → AllFit rs
    → IsValid p
    → Painted true (reserved_touches rs) p (reserve_unusable rs p)
unfolding reserve_unusable reserved_touches
reserve_unusable-Painted [] h v = Painted-none true v
reserve_unusable-Painted (r ∷ rs) h v =
    let m =
      Painted-unless true (r.type == boot_mem_usable) (touches r.base r.length) v
        (mark_range_used-Painted r.base r.length v h.0) in
    Painted-trans true _ (reserved_touches rs) m (reserve_unusable-Painted rs h.1 m.valid)

-- A frame of the map is free at the start: a usable region covers it, it is not frame 0, and no
-- other region touches it.
pub free_at_start : List Region → ℕ → Bool
free_at_start rs f = usable_covers rs f && not (f == 0) && not (reserved_touches rs f)

pub record Built (rs : List Region) (max_phys : ℕ) (q : Pmm) : Type 0 where
  pub valid : IsValid q
  pub ready : q.initialized ≡ true
  pub size : q.max_phys ≡ max_phys
  pub map : (f : ℕ) → f < q.frame_count → bitmap_test q.bitmap f ≡ not (free_at_start rs f)

started-IsValid : {p : Pmm} → IsValid p → IsValid (record p { initialized = true })
started-IsValid v = record {
  pages = v.pages;
  small = v.small;
  room = v.room;
  bytes = v.bytes;
  counted = v.counted;
  sums = v.sums;
  hint = v.hint;
  below = v.below;
}

module _ (rs : List Region) {storage : List ℕ} {max_phys : ℕ} (acc : Accepted storage max_phys)
    (fit : AllFit rs) where
  freed :
      Painted false
        (usable_covers rs)
        (fresh storage max_phys)
        (free_usable rs (fresh storage max_phys))
  freed = free_usable-Painted rs fit (fresh-IsValid acc)

  zeroed :
      Painted true
        (touches 0 page_size)
        (free_usable rs (fresh storage max_phys))
        (mark_range_used (free_usable rs (fresh storage max_phys)) 0 page_size)
  zeroed = mark_range_used-Painted 0 page_size freed.valid (omega arith)

  filled :
      Painted true
        (reserved_touches rs)
        (mark_range_used (free_usable rs (fresh storage max_phys)) 0 page_size)
        (reserve_unusable rs
          (mark_range_used (free_usable rs (fresh storage max_phys)) 0 page_size))
  filled = reserve_unusable-Painted rs fit zeroed.valid

  built :
      Keeps (fresh storage max_phys) (
        reserve_unusable rs (mark_range_used (free_usable rs (fresh storage max_phys)) 0 page_size))
  built = Keeps-trans freed.keeps (Keeps-trans zeroed.keeps filled.keeps)

  fresh_frames : (fresh storage max_phys).frame_count ≡ max_phys / page_size
  unfolding fresh
  fresh_frames = refl

  fresh_size : (fresh storage max_phys).max_phys ≡ max_phys
  unfolding fresh
  fresh_size = refl

  pub build-Built : Built rs max_phys (build rs storage max_phys)
  unfolding build free_at_start
  build-Built = record {
    valid = started-IsValid filled.valid;
    ready = refl;
    size = built.max_phys ∙ fresh_size;
    map = λ f lt. ground (
      arith,
      filled.bits f,
      zeroed.bits f,
      freed.bits f,
      fresh_bits acc f,
      fresh_frames,
      built.frame_count,
      zeroed.keeps.frame_count,
      freed.keeps.frame_count,
    );
  }

-- On a non-empty memory map whose regions stay a page below 2 ^ 64, a byte storage with a bit
-- for each frame, and a non-zero page-aligned size below 2 ^ 64, `pmm_init_from_map` returns
-- true. The state that it leaves is initialized, satisfies the invariant, has that size, and
-- marks a frame free exactly when a usable region covers it whole, it is not frame 0, and no
-- other region touches it.
pub init_from_map-Built :
    (p : Pmm) (r : Region) (rs : List Region) {storage : List ℕ} (storage_bytes : ℕ) {max_phys : ℕ}
    → Accepted storage max_phys
    → AllFit (r ∷ rs)
    → max_phys ≢ 0
    → max_phys / page_size ≤ 8 * storage_bytes
    → (q : Pmm) × (init_from_map (some p) (some (r ∷ rs)) (some storage) storage_bytes max_phys
        ≡ (true, some q))
      × Built (r ∷ rs) max_phys q
unfolding init_from_map
init_from_map-Built p r rs {storage} storage_bytes {max_phys} acc fit ne enough = (
  build (r ∷ rs) storage max_phys,
  ground (arith, acc.whole, acc.word),
  build-Built (r ∷ rs) acc fit,
)

-- A call that fails leaves the state as it was.
pub init_from_map_failed :
    (p : Pmm) (regions : Option (List Region)) (storage : Option (List ℕ))
    (storage_bytes max_phys : ℕ)
    → (init_from_map (some p) regions storage storage_bytes max_phys).0 ≡ false
    → (init_from_map (some p) regions storage storage_bytes max_phys).1 ≡ some p
unfolding init_from_map
init_from_map_failed p none storage storage_bytes max_phys h = refl
init_from_map_failed p (some rs) none storage_bytes max_phys h = refl
init_from_map_failed p (some []) (some bytes) storage_bytes max_phys h = refl
init_from_map_failed p (some (r ∷ rs)) (some bytes) storage_bytes max_phys h = ground arith
