-- ===== src/Elf/Bounds.antt =====
-- What each check of the loader lets through.
use m4_trio.Base.{ℕ, suc, ◌+◌, ◌*◌, ◌%◌, ◌^◌, ◌<◌, ◌≤◌, ◌≡◌, ◌↔◌, ◌⊎◌, true, false, u64_mod, arith}
use m4_trio.Elf.{
  ok, Phdr, Ehdr, UserRegion, Segment, sizeof_phdr, pf_w, pf_x, bad_flags, has_flag,
  is_power_of_two_u64, validate_user_range, validate_phdr_bounds, validate_align,
  validate_file_range, validate_load_segment, segment_of,
}
use m4_trio.Elf.Power.{is_power_of_two_iff}

-- `len` bytes from `base`, at least one, inside the region.
pub record InRegion (region : UserRegion) (base len : ℕ) : Type 0 where
  pub some_bytes : 0 < len
  pub above : region.base ≤ base
  pub below : base + len ≤ region.limit

-- For 64-bit arguments `m11_validate_user_range` accepts exactly the non-empty ranges that lie
-- inside the region, wrap-around included.
pub validate_user_range_iff :
    (region : UserRegion) (base len : ℕ)
    → base < u64_mod
    → len < u64_mod
    → region.limit < u64_mod
    → (validate_user_range region base len ≡ ok) ↔ InRegion region base len
unfolding validate_user_range
validate_user_range_iff region base len hb hl hr = (
  (λ h. record { some_bytes = ground arith; above = ground arith; below = ground arith }),
  (λ i. ground (arith, i.some_bytes, i.above, i.below)),
)

-- Past the check of the program header table, every header of the table lies inside the image.
pub validate_phdr_bounds_in_image :
    (eh : Ehdr) (image_size : ℕ)
    → eh.e_phoff < u64_mod
    → eh.e_phnum < 2 ^ 16
    → validate_phdr_bounds eh image_size ≡ ok
    → (0 < eh.e_phnum) × ((i : ℕ) → i < eh.e_phnum → eh.e_phoff + suc i * sizeof_phdr ≤ image_size)
unfolding validate_phdr_bounds
validate_phdr_bounds_in_image eh image_size ho hn h =
    let e : eh.e_phentsize ≡ sizeof_phdr = ground arith in
    let n : 0 < eh.e_phnum = ground arith in (n, λ i lt. ground arith)

-- What a segment must be for the loader to accept it.
pub record IsSafe (image_size : ℕ) (region : UserRegion) (s : Segment) : Type 0 where
  pub in_region : InRegion region s.vaddr s.memsz
  pub in_file : s.file_offset + s.filesz ≤ image_size
  pub fits : s.filesz ≤ s.memsz
  pub known_flags : s.flags < 8
  pub write_xor_execute : (has_flag s.flags pf_w ≡ false) ⊎ (has_flag s.flags pf_x ≡ false)
  pub power : (1 < s.align) → (k : ℕ) × (s.align ≡ 2 ^ k)
  pub congruent : (1 < s.align) → s.vaddr % s.align ≡ s.file_offset % s.align

-- The fields of a program header are words.
pub record IsPhdr (ph : Phdr) : Type 0 where
  pub offset : ph.p_offset < u64_mod
  pub vaddr : ph.p_vaddr < u64_mod
  pub filesz : ph.p_filesz < u64_mod
  pub memsz : ph.p_memsz < u64_mod
  pub align : ph.p_align < u64_mod

validate_file_range_ok :
    (ph : Phdr) (image_size : ℕ)
    → IsPhdr ph
    → validate_file_range ph image_size ≡ ok
    → ph.p_offset + ph.p_filesz ≤ image_size
unfolding validate_file_range
validate_file_range_ok ph image_size w h = ground (arith, w.offset, w.filesz)

validate_align_ok :
    (ph : Phdr)
    → validate_align ph ≡ ok
    → 1 < ph.p_align
    → (is_power_of_two_u64 ph.p_align ≡ true) × (ph.p_vaddr % ph.p_align ≡ ph.p_offset % ph.p_align)
unfolding validate_align
validate_align_ok ph h big = ground arith

-- The parts of a passed check.
record Passed (ph : Phdr) (image_size : ℕ) (region : UserRegion) : Type 0 where
  flags_known : bad_flags ph.p_flags ≡ false
  one_right : (has_flag ph.p_flags pf_w ≡ false) ⊎ (has_flag ph.p_flags pf_x ≡ false)
  sizes : ph.p_filesz ≤ ph.p_memsz
  aligned : validate_align ph ≡ ok
  file : validate_file_range ph image_size ≡ ok
  user : validate_user_range region ph.p_vaddr ph.p_memsz ≡ ok

validate_load_segment-Passed :
    (ph : Phdr) (image_size : ℕ) (region : UserRegion)
    → validate_load_segment ph image_size region ≡ ok
    → Passed ph image_size region
unfolding validate_load_segment
validate_load_segment-Passed ph image_size region h = record {
  flags_known = ground arith;
  one_right = ground arith;
  sizes = ground arith;
  aligned = ground arith;
  file = ground arith;
  user = ground arith;
}

-- A segment that passes is safe.
pub validate_load_segment-IsSafe :
    (ph : Phdr) (image_size : ℕ) (region : UserRegion)
    → IsPhdr ph
    → region.limit < u64_mod
    → validate_load_segment ph image_size region ≡ ok
    → IsSafe image_size region (segment_of ph)
validate_load_segment-IsSafe ph image_size region w hr h =
    let p = validate_load_segment-Passed ph image_size region h in
    record {
      in_region =
          (validate_user_range_iff region ph.p_vaddr ph.p_memsz w.vaddr w.memsz hr).0 p.user;
      in_file = validate_file_range_ok ph image_size w p.file;
      fits = p.sizes;
      known_flags = ground (arith, p.flags_known);
      write_xor_execute = p.one_right;
      power =
          λ big. (is_power_of_two_iff ph.p_align w.align).0 (validate_align_ok ph p.aligned big).0;
      congruent = λ big. (validate_align_ok ph p.aligned big).1;
    }
