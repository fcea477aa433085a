-- ===== src/Pmm.antt =====
-- src/pmm.c and include/pmm.h: the physical frame allocator, a bitmap with one bit for a frame
-- (set: used) and counters beside it. `struct pmm_state *` is `Option Pmm`, and the NULL that the
-- code tests for is `none`; the state after the call is returned beside its result.
mod Bitmap
mod Marks
mod Ranges
mod Coverage
mod Alloc
mod Free
mod Ownership
mod Fresh
mod Init
mod Tests
use m4_trio.Base.{
  ℕ, zero, suc, ◌+◌, ◌-◌, ◌*◌, ◌/◌, ◌%◌, ◌^◌, bit_and, bit_or, Bool, true, false, not, ◌||◌, Option,
  none, some, List, [], ◌∷◌, get_or, set, ltb, leb, ◌==◌, if◌then◌else◌, u64_mod, add64, mul64,
}

abbrev pub page_size : ℕ
page_size = 4096

abbrev pub invalid_frame : ℕ
invalid_frame = 0xffff_ffff_ffff_ffff

-- `enum boot_mem_type` is a number: the code compares it with BOOT_MEM_USABLE only.
abbrev pub boot_mem_usable : ℕ
boot_mem_usable = 1

-- `struct boot_mem_region`
pub record Region : Type 0 where
  pub base : ℕ
  pub length : ℕ
  pub type : ℕ

-- `struct pmm_state`. `bitmap` is the memory behind the pointer, a byte a number below 256; the
-- NULL of a zeroed state is the empty list.
pub record Pmm : Type 0 where
  pub bitmap : List ℕ
  pub bitmap_bytes : ℕ
  pub max_phys : ℕ
  pub frame_count : ℕ
  pub free_frames : ℕ
  pub used_frames : ℕ
  pub reserved_frames : ℕ
  pub ignored_frames : ℕ
  pub next_hint : ℕ
  pub initialized : Bool

-- `align` is a power of two at each call, so `& ~(align - 1)` rounds down to a multiple of it.
abbrev pub align_down : ℕ → ℕ → ℕ
align_down value align = value / align * align

abbrev pub align_up : ℕ → ℕ → ℕ
align_up value align = (add64 value (align - 1)) / align * align

-- The sum, unless it overflows.
abbrev pub checked_add_u64 : ℕ → ℕ → Option ℕ
checked_add_u64 a b = if ltb (u64_mod - 1 - a) b then none else some (add64 a b)

-- `(uint8_t)(1U << (index & 7U))`
abbrev pub bit_mask : ℕ → ℕ
bit_mask index = 2 ^ (index % 8) % 256

pub bitmap_set : List ℕ → ℕ → List ℕ
bitmap_set bitmap index =
    set bitmap (index / 8) (bit_or (get_or bitmap (index / 8) 0) (bit_mask index) % 256)

pub bitmap_clear : List ℕ → ℕ → List ℕ
bitmap_clear bitmap index =
    set bitmap (index / 8) (bit_and (get_or bitmap (index / 8) 0) (255 - bit_mask index) % 256)

pub bitmap_test : List ℕ → ℕ → Bool
bitmap_test bitmap index = not (bit_and (get_or bitmap (index / 8) 0) (bit_mask index) == 0)

pub mark_frame_free : Pmm → ℕ → Pmm
mark_frame_free p frame =
    if leb p.frame_count frame
    then p
    else if bitmap_test p.bitmap frame
    then record p {
      bitmap = bitmap_clear p.bitmap frame;
      free_frames = add64 p.free_frames 1;
      used_frames = if ltb 0 p.used_frames then p.used_frames - 1 else p.used_frames;
      next_hint = if ltb frame p.next_hint then frame else p.next_hint;
    }
    else p

pub mark_frame_used : Pmm → ℕ → Pmm
mark_frame_used p frame =
    if leb p.frame_count frame
    then p
    else if not (bitmap_test p.bitmap frame)
    then record p {
      bitmap = bitmap_set p.bitmap frame;
      free_frames = if ltb 0 p.free_frames then p.free_frames - 1 else p.free_frames;
      used_frames = add64 p.used_frames 1;
    }
    else p

-- `for (addr = start; addr < stop; addr += PMM_PAGE_SIZE)`, on fuel.
pub free_pages : ℕ → ℕ → ℕ → Pmm → Pmm
free_pages zero addr stop p = p
free_pages (suc fuel) addr stop p =
    let rest = free_pages fuel (add64 addr page_size) stop (mark_frame_free p (addr / page_size)) in
    if ltb addr stop then rest else p

-- One round of the loop of `mark_range_used`.
pub reserve_frame : Pmm → ℕ → Pmm
reserve_frame p frame =
    let was_free = not (bitmap_test p.bitmap frame) in
    let q = mark_frame_used p frame in
    if was_free then record q { reserved_frames = add64 q.reserved_frames 1 } else q

pub reserve_pages : ℕ → ℕ → ℕ → Pmm → Pmm
reserve_pages zero addr stop p = p
reserve_pages (suc fuel) addr stop p =
    let rest =
      reserve_pages fuel (add64 addr page_size) stop (reserve_frame p (addr / page_size)) in
    if ltb addr stop then rest else p

-- The body of `mark_range_free` once `end` is known.
pub free_span : Pmm → ℕ → ℕ → Pmm
free_span p start full_stop =
    if leb full_stop start
    then p
    else if leb p.max_phys start
    then p
    else if ltb p.max_phys full_stop
    then free_pages p.frame_count start p.max_phys (record p {
      ignored_frames = add64 p.ignored_frames ((full_stop - p.max_phys) / page_size);
    })
    else free_pages p.frame_count start full_stop p

pub mark_range_free : Pmm → ℕ → ℕ → Pmm
mark_range_free p base length = if length == 0 then p else elim (checked_add_u64 base length) [
  | none ↦ p
  | some end ↦ free_span p (align_up base page_size) (align_down end page_size)
]

pub reserve_span : Pmm → ℕ → ℕ → Pmm
reserve_span p start full_stop =
    if leb full_stop start
    then p
    else if leb p.max_phys start
    then p
    else reserve_pages p.frame_count start
        (if ltb p.max_phys full_stop then p.max_phys else full_stop) p

pub mark_range_used : Pmm → ℕ → ℕ → Pmm
mark_range_used p base length = if length == 0 then p else elim (checked_add_u64 base length) [
  | none ↦ p
  | some end ↦ reserve_span p (align_down base page_size) (align_up end page_size)
]

pub zero_state : Option Pmm → Option Pmm
zero_state none = none
zero_state (some p) = some (record {
  bitmap = [];
  bitmap_bytes = 0;
  max_phys = 0;
  frame_count = 0;
  free_frames = 0;
  used_frames = 0;
  reserved_frames = 0;
  ignored_frames = 0;
  next_hint = 0;
  initialized = false;
})

-- `for (i = 0; i < required_bitmap_bytes; i++) bitmap_storage[i] = 0xffU`, by the rounds left.
pub fill_ones : ℕ → ℕ → List ℕ → List ℕ
fill_ones zero i storage = storage
fill_ones (suc n) i storage = fill_ones n (i + 1) (set storage i 255)

pub free_usable : List Region → Pmm → Pmm
free_usable [] p = p
free_usable (r ∷ rs) p =
    free_usable rs (if r.type == boot_mem_usable then mark_range_free p r.base r.length else p)

pub reserve_unusable : List Region → Pmm → Pmm
reserve_unusable [] p = p
reserve_unusable (r ∷ rs) p =
    reserve_unusable rs (if r.type == boot_mem_usable then p else mark_range_used p r.base r.length)

-- The state before the regions are read: every frame is used.
pub fresh : List ℕ → ℕ → Pmm
fresh storage max_phys =
    let frame_count = max_phys / page_size in
    let required = add64 frame_count 7 / 8 in
    record {
      bitmap = fill_ones required 0 storage;
      bitmap_bytes = required;
      max_phys = max_phys;
      frame_count = frame_count;
      free_frames = 0;
      used_frames = frame_count;
      reserved_frames = 0;
      ignored_frames = 0;
      next_hint = 0;
      initialized = false;
    }

-- Both passes over the memory map, with frame 0 taken away between them.
pub build : List Region → List ℕ → ℕ → Pmm
build regions storage max_phys =
    let freed = free_usable regions (fresh storage max_phys) in
    record (reserve_unusable regions (mark_range_used freed 0 page_size)) { initialized = true }

-- `regions` holds the `region_count` elements that the code reads.
pub init_from_map : Option Pmm → Option (List Region) → Option (List ℕ) → ℕ → ℕ → Bool × Option Pmm
init_from_map none regions storage storage_bytes max_phys = (false, none)
init_from_map (some p) none storage storage_bytes max_phys = (false, some p)
init_from_map (some p) (some rs) none storage_bytes max_phys = (false, some p)
init_from_map (some p) (some []) (some bytes) storage_bytes max_phys = (false, some p)
init_from_map (some p) (some (r ∷ rs)) (some bytes) storage_bytes max_phys =
    if max_phys == 0 || not (max_phys % page_size == 0)
    then (false, some p)
    else if ltb storage_bytes (add64 (max_phys / page_size) 7 / 8)
    then (false, some p)
    else (true, some (build (r ∷ rs) bytes max_phys))

-- `for (frame = from; frame < limit; frame++)` until a clear bit is met, by the rounds left.
pub find_free : List ℕ → ℕ → ℕ → Option ℕ
find_free bitmap zero frame = none
find_free bitmap (suc n) frame =
    let rest = find_free bitmap n (frame + 1) in
    if bitmap_test bitmap frame then rest else some frame

pub take_frame : Pmm → ℕ → ℕ × Pmm
take_frame p frame =
    (mul64 frame page_size, record (mark_frame_used p frame) { next_hint = add64 frame 1 })

-- The search from the hint to the end, then from 0 to the hint.
pub alloc : Pmm → ℕ × Pmm
alloc p =
    if not p.initialized || p.free_frames == 0
    then (invalid_frame, p)
    else elim (find_free p.bitmap (p.frame_count - p.next_hint) p.next_hint) [
      | some frame ↦ take_frame p frame
      | none ↦ elim (find_free p.bitmap p.next_hint 0) [
        | some frame ↦ take_frame p frame
        | none ↦ (invalid_frame, p)
      ]
    ]

pub alloc_frame : Option Pmm → ℕ × Option Pmm
alloc_frame none = (invalid_frame, none)
alloc_frame (some p) = let (addr, q) = alloc p in (addr, some q)

pub free_addr : Pmm → ℕ → Bool × Pmm
free_addr p phys_addr =
    if not p.initialized
    then (false, p)
    else if not (phys_addr % page_size == 0) || phys_addr == 0 || leb p.max_phys phys_addr
    then (false, p)
    else if not (bitmap_test p.bitmap (phys_addr / page_size))
    then (false, p)
    else (true, mark_frame_free p (phys_addr / page_size))

pub free_frame : Option Pmm → ℕ → Bool × Option Pmm
free_frame none phys_addr = (false, none)
free_frame (some p) phys_addr = let (done, q) = free_addr p phys_addr in (done, some q)

pub reserve : Pmm → ℕ → ℕ → Bool × Pmm
reserve p base length =
    if not p.initialized || length == 0 then (false, p) else (true, mark_range_used p base length)

pub reserve_range : Option Pmm → ℕ → ℕ → Bool × Option Pmm
reserve_range none base length = (false, none)
reserve_range (some p) base length = let (done, q) = reserve p base length in (done, some q)

pub is_frame_free : Option Pmm → ℕ → Bool
is_frame_free none phys_addr = false
is_frame_free (some p) phys_addr =
    if not p.initialized
    then false
    else if not (phys_addr % page_size == 0) || leb p.max_phys phys_addr
    then false
    else not (bitmap_test p.bitmap (phys_addr / page_size))

pub free_count : Option Pmm → ℕ
free_count none = 0
free_count (some p) = p.free_frames

pub used_count : Option Pmm → ℕ
used_count none = 0
used_count (some p) = p.used_frames

pub frame_total : Option Pmm → ℕ
frame_total none = 0
frame_total (some p) = p.frame_count
