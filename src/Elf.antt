-- ===== src/Elf.antt =====
-- kernel/user/m11_elf_loader.c and its header: the checks of an ELF64 image, and the plan of the
-- segments that it loads. The image is the list of its bytes, and a header is what a little-endian
-- machine reads through the pointer that the code casts.
mod Bounds
mod Plan
mod Power
mod Words
mod Load
mod Tests
use m4_trio.Base.{
  ℕ, zero, suc, ◌+◌, ◌-◌, ◌*◌, ◌/◌, ◌%◌, bit_and, Bool, true, false, not, ◌&&◌, ◌||◌, Option, none,
  some, List, [], ◌∷◌, get_or, set, replicate, ltb, leb, ◌==◌, if◌then◌else◌, add64, add32, sub64,
  mul64,
}

-- The results M11_OK and M11_ERR_*; `null` to `flags` are -1 to -17.
pub data Code : Type 0 where
  ok null size magic class endian version type machine ehsize phentsize phbounds align : Code
  segbounds segrange segcount entry flags : Code

-- `n` bytes from offset `at`, least significant first.
pub le_bytes : List ℕ → ℕ → ℕ → ℕ
le_bytes image zero at = 0
le_bytes image (suc n) at = get_or image at 0 + 256 * le_bytes image n (at + 1)

-- `struct m11_elf64_ehdr`, without the fields that the code never reads.
pub record Ehdr : Type 0 where
  pub e_ident : ℕ → ℕ
  pub e_type : ℕ
  pub e_machine : ℕ
  pub e_version : ℕ
  pub e_entry : ℕ
  pub e_phoff : ℕ
  pub e_ehsize : ℕ
  pub e_phentsize : ℕ
  pub e_phnum : ℕ

abbrev pub sizeof_ehdr : ℕ
sizeof_ehdr = 64

pub read_ehdr : List ℕ → Ehdr
read_ehdr image = record {
  e_ident = λ i. get_or image i 0;
  e_type = le_bytes image 2 16;
  e_machine = le_bytes image 2 18;
  e_version = le_bytes image 4 20;
  e_entry = le_bytes image 8 24;
  e_phoff = le_bytes image 8 32;
  e_ehsize = le_bytes image 2 52;
  e_phentsize = le_bytes image 2 54;
  e_phnum = le_bytes image 2 56;
}

-- `struct m11_elf64_phdr`, without `p_paddr`, which the code never reads.
pub record Phdr : Type 0 where
  pub p_type : ℕ
  pub p_flags : ℕ
  pub p_offset : ℕ
  pub p_vaddr : ℕ
  pub p_filesz : ℕ
  pub p_memsz : ℕ
  pub p_align : ℕ

abbrev pub sizeof_phdr : ℕ
sizeof_phdr = 56

pub read_phdr : List ℕ → ℕ → Phdr
read_phdr image at = record {
  p_type = le_bytes image 4 at;
  p_flags = le_bytes image 4 (at + 4);
  p_offset = le_bytes image 8 (at + 8);
  p_vaddr = le_bytes image 8 (at + 16);
  p_filesz = le_bytes image 8 (at + 32);
  p_memsz = le_bytes image 8 (at + 40);
  p_align = le_bytes image 8 (at + 48);
}

pub record UserRegion : Type 0 where
  pub base : ℕ
  pub limit : ℕ

-- `struct m11_segment_plan`
pub record Segment : Type 0 where
  pub file_offset : ℕ
  pub vaddr : ℕ
  pub filesz : ℕ
  pub memsz : ℕ
  pub align : ℕ
  pub flags : ℕ

-- `struct m11_process_image_plan`, with its array of eight segments.
pub record ImagePlan : Type 0 where
  pub entry : ℕ
  pub segment_count : ℕ
  pub segments : List Segment

abbrev pub max_load_segments : ℕ
max_load_segments = 8

abbrev pub pt_load : ℕ
pt_load = 1

abbrev pub pf_x : ℕ
pf_x = 1

abbrev pub pf_w : ℕ
pf_w = 2

abbrev pub zero_segment : Segment
zero_segment = record { file_offset = 0; vaddr = 0; filesz = 0; memsz = 0; align = 0; flags = 0 }

abbrev pub zero_plan : ImagePlan
zero_plan = record {
  entry = 0;
  segment_count = 0;
  segments = replicate max_load_segments zero_segment;
}

-- The sum, unless it overflows (`r < a`).
abbrev pub add_overflow_u64 : ℕ → ℕ → Option ℕ
add_overflow_u64 a b = if ltb (add64 a b) a then none else some (add64 a b)

pub is_power_of_two_u64 : ℕ → Bool
is_power_of_two_u64 v = not (v == 0) && bit_and v (sub64 v 1) == 0

pub validate_user_range : UserRegion → ℕ → ℕ → Code
validate_user_range region base len =
    if leb region.limit region.base
    then segrange
    else if len == 0
    then segrange
    else elim (add_overflow_u64 base len) [
      | none ↦ segrange
      | some end ↦
          if ltb base region.base || ltb region.limit end || leb end base then segrange else ok
    ]

pub validate_ident : Ehdr → Code
validate_ident eh =
    if not (eh.e_ident 0 == 0x7f)
      || not (eh.e_ident 1 == b'E')
      || not (eh.e_ident 2 == b'L')
      || not (eh.e_ident 3 == b'F')
    then magic
    else if not (eh.e_ident 4 == 2)
    then class
    else if not (eh.e_ident 5 == 1)
    then endian
    else if not (eh.e_ident 6 == 1) || not (eh.e_version == 1)
    then version
    else ok

pub validate_phdr_bounds : Ehdr → ℕ → Code
validate_phdr_bounds eh image_size =
    let ph_table_bytes = mul64 eh.e_phentsize eh.e_phnum in
    if eh.e_phnum == 0
    then phbounds
    else if not (eh.e_phentsize == sizeof_phdr)
    then phentsize
    else if not (eh.e_phnum == 0) && not (ph_table_bytes / eh.e_phnum == eh.e_phentsize)
    then phbounds
    else elim (add_overflow_u64 eh.e_phoff ph_table_bytes) [
      | none ↦ phbounds
      | some ph_end ↦ if ltb image_size ph_end || ltb image_size eh.e_phoff then phbounds else ok
    ]

-- The flag tests: `p_flags & ~(R | W | X)` is what is left above the low three bits.
abbrev pub bad_flags : ℕ → Bool
bad_flags bits = not (bits / 8 == 0)

abbrev pub has_flag : ℕ → ℕ → Bool
has_flag bits bit = not (bits / bit % 2 == 0)

pub validate_align : Phdr → Code
validate_align ph =
    if not (ph.p_align == 0) && not (ph.p_align == 1)
    then if not (is_power_of_two_u64 ph.p_align)
      then align
      else if not (ph.p_vaddr % ph.p_align == ph.p_offset % ph.p_align)
      then align
      else ok
    else ok

pub validate_file_range : Phdr → ℕ → Code
validate_file_range ph image_size = elim (add_overflow_u64 ph.p_offset ph.p_filesz) [
  | none ↦ segbounds
  | some file_end ↦ if ltb image_size file_end || ltb image_size ph.p_offset then segbounds else ok
]

-- The next check, if this one passes.
infixr 5 ◌then_check◌
abbrev pub ◌then_check◌ : Code → Code → Code
ok then_check d = d
c then_check d = c

pub validate_load_segment : Phdr → ℕ → UserRegion → Code
validate_load_segment ph image_size region =
    if bad_flags ph.p_flags
    then flags
    else if has_flag ph.p_flags pf_w && has_flag ph.p_flags pf_x
    then flags
    else if ltb ph.p_memsz ph.p_filesz
    then segbounds
    else (validate_align ph
        then_check validate_file_range ph image_size
        then_check validate_user_range region ph.p_vaddr ph.p_memsz)

abbrev pub segment_of : Phdr → Segment
segment_of ph = record {
  file_offset = ph.p_offset;
  vaddr = ph.p_vaddr;
  filesz = ph.p_filesz;
  memsz = ph.p_memsz;
  align = ph.p_align;
  flags = ph.p_flags;
}

abbrev pub add_segment : ImagePlan → Phdr → ImagePlan
add_segment plan ph = record plan {
  segments = set plan.segments plan.segment_count (segment_of ph);
  segment_count = add32 plan.segment_count 1;
}

-- The loop over the program headers, by the headers left, with the offset of the next one.
pub plan_segments : ℕ → ℕ → List ℕ → ℕ → UserRegion → ImagePlan → Code × ImagePlan
plan_segments zero at image image_size region plan = (ok, plan)
plan_segments (suc n) at image image_size region plan =
    let ph = read_phdr image at in
    let skip = plan_segments n (at + sizeof_phdr) image image_size region plan in
    let added = plan_segments n (at + sizeof_phdr) image image_size region (add_segment plan ph) in
    if not (ph.p_type == pt_load)
    then skip
    else if leb max_load_segments plan.segment_count
    then (segcount, zero_plan)
    else elim (validate_load_segment ph image_size region) [ ok ↦ added | c ↦ (c, zero_plan) ]

-- The checks of the ELF header, in the order of the code.
pub validate_header : Ehdr → ℕ → UserRegion → Code
validate_header eh image_size region =
    validate_ident eh
    then_check (if not (eh.e_type == 2) && not (eh.e_type == 3) then type else ok)
    then_check (if not (eh.e_machine == 62) then machine else ok)
    then_check (if not (eh.e_ehsize == sizeof_ehdr) then ehsize else ok)
    then_check validate_phdr_bounds eh image_size
    then_check elim (validate_user_range region eh.e_entry 1) [ ok ↦ ok | _ ↦ entry ]

-- After the loop: an image with no segment to load is refused.
abbrev pub finish_plan : Code × ImagePlan → Code × ImagePlan
finish_plan (ok, plan) = if plan.segment_count == 0 then (segcount, plan) else (ok, plan)
finish_plan (c, plan) = (c, plan)

pub plan_image : List ℕ → ℕ → UserRegion → Code × ImagePlan
plan_image image image_size region =
    let eh = read_ehdr image in
    let planned =
      plan_segments eh.e_phnum eh.e_phoff image image_size region
        (record zero_plan { entry = eh.e_entry }) in
    if ltb image_size sizeof_ehdr
    then (size, zero_plan)
    else elim (validate_header eh image_size region) [
      | ok ↦ finish_plan planned
      | c ↦ (c, zero_plan)
    ]

-- With the NULL tests: the plan behind `out_plan` is returned, as the call leaves it.
pub plan_load : Option (List ℕ) → ℕ → UserRegion → Option ImagePlan → Code × Option ImagePlan
plan_load none image_size region out_plan = (null, out_plan)
plan_load (some image) image_size region none = (null, none)
plan_load (some image) image_size region (some old) =
    let (code, plan) = plan_image image image_size region in (code, some plan)
