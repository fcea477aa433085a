-- ===== src/Elf/Tests.antt =====
-- Two images of one program header, and the theorems of the loader at them.
use m4_trio.Base.{ℕ, ◌^◌, ◌<◌, ◌≡◌, ◌≢◌, refl, ◌↔◌, some, true, List, [], ◌∷◌, All, arith}
use m4_trio.Elf.{
  ok, segcount, UserRegion, ImagePlan, zero_plan, read_ehdr, read_phdr, le_bytes,
  is_power_of_two_u64, add_segment, validate_user_range, validate_ident, validate_phdr_bounds,
  validate_align, validate_file_range, validate_load_segment, validate_header, plan_segments,
  plan_image, plan_load,
}
use m4_trio.Elf.Power.{is_power_of_two_iff}
use m4_trio.Elf.Plan.{loads}
use m4_trio.Elf.Load.{
  IsLoadable, plan_image-IsLoadable, Refused, plan_load_failed, plan_image_no_loads,
}

-- An executable with one segment of type PT_LOAD, readable and executable.
abbrev program : List ℕ
program =
    127 ∷ 69 ∷ 76 ∷ 70 ∷ 2 ∷ 1 ∷ 1 ∷ 0 ∷ 0 ∷ 0 ∷ 0 ∷ 0 ∷ 0 ∷ 0 ∷ 0 ∷ 0 ∷ 2 ∷ 0 ∷ 62 ∷ 0 ∷ 1 ∷ 0 ∷ 0
    ∷ 0 ∷ 0 ∷ 16 ∷ 64 ∷ 0 ∷ 0 ∷ 0 ∷ 0 ∷ 0 ∷ 64 ∷ 0 ∷ 0 ∷ 0 ∷ 0 ∷ 0 ∷ 0 ∷ 0 ∷ 0 ∷ 0 ∷ 0 ∷ 0 ∷ 0 ∷ 0
    ∷ 0 ∷ 0 ∷ 0 ∷ 0 ∷ 0 ∷ 0 ∷ 64 ∷ 0 ∷ 56 ∷ 0 ∷ 1 ∷ 0 ∷ 0 ∷ 0 ∷ 0 ∷ 0 ∷ 0 ∷ 0 ∷ 1 ∷ 0 ∷ 0 ∷ 0 ∷ 5
    ∷ 0 ∷ 0 ∷ 0 ∷ 0 ∷ 0 ∷ 0 ∷ 0 ∷ 0 ∷ 0 ∷ 0 ∷ 0 ∷ 0 ∷ 16 ∷ 64 ∷ 0 ∷ 0 ∷ 0 ∷ 0 ∷ 0 ∷ 0 ∷ 0 ∷ 0 ∷ 0
    ∷ 0 ∷ 0 ∷ 0 ∷ 0 ∷ 96 ∷ 0 ∷ 0 ∷ 0 ∷ 0 ∷ 0 ∷ 0 ∷ 0 ∷ 128 ∷ 0 ∷ 0 ∷ 0 ∷ 0 ∷ 0 ∷ 0 ∷ 0 ∷ 0 ∷ 16 ∷ 0
    ∷ 0 ∷ 0 ∷ 0 ∷ 0 ∷ 0 ∷ []

-- The same, with a header of type PT_NOTE.
abbrev notes : List ℕ
notes =
    127 ∷ 69 ∷ 76 ∷ 70 ∷ 2 ∷ 1 ∷ 1 ∷ 0 ∷ 0 ∷ 0 ∷ 0 ∷ 0 ∷ 0 ∷ 0 ∷ 0 ∷ 0 ∷ 2 ∷ 0 ∷ 62 ∷ 0 ∷ 1 ∷ 0 ∷ 0
    ∷ 0 ∷ 0 ∷ 16 ∷ 64 ∷ 0 ∷ 0 ∷ 0 ∷ 0 ∷ 0 ∷ 64 ∷ 0 ∷ 0 ∷ 0 ∷ 0 ∷ 0 ∷ 0 ∷ 0 ∷ 0 ∷ 0 ∷ 0 ∷ 0 ∷ 0 ∷ 0
    ∷ 0 ∷ 0 ∷ 0 ∷ 0 ∷ 0 ∷ 0 ∷ 64 ∷ 0 ∷ 56 ∷ 0 ∷ 1 ∷ 0 ∷ 0 ∷ 0 ∷ 0 ∷ 0 ∷ 0 ∷ 0 ∷ 4 ∷ 0 ∷ 0 ∷ 0 ∷ 5
    ∷ 0 ∷ 0 ∷ 0 ∷ 0 ∷ 0 ∷ 0 ∷ 0 ∷ 0 ∷ 0 ∷ 0 ∷ 0 ∷ 0 ∷ 16 ∷ 64 ∷ 0 ∷ 0 ∷ 0 ∷ 0 ∷ 0 ∷ 0 ∷ 0 ∷ 0 ∷ 0
    ∷ 0 ∷ 0 ∷ 0 ∷ 0 ∷ 96 ∷ 0 ∷ 0 ∷ 0 ∷ 0 ∷ 0 ∷ 0 ∷ 0 ∷ 128 ∷ 0 ∷ 0 ∷ 0 ∷ 0 ∷ 0 ∷ 0 ∷ 0 ∷ 0 ∷ 16 ∷ 0
    ∷ 0 ∷ 0 ∷ 0 ∷ 0 ∷ 0 ∷ []

abbrev region : UserRegion
region = record { base = 0x400000; limit = 0x800000 }

abbrev plan : ImagePlan
plan =
    add_segment (record zero_plan { entry = 0x401000 })
      (record {
        p_type = 1;
        p_flags = 5;
        p_offset = 0;
        p_vaddr = 0x401000;
        p_filesz = 0x60;
        p_memsz = 0x80;
        p_align = 0x1000;
      })

program_bytes : All (λ b. b < 256) program
program_bytes = omega arith

plan_of_program : plan_image program 120 region ≡ (ok, plan)
unfolding plan_image read_ehdr read_phdr le_bytes validate_header validate_ident
    validate_phdr_bounds validate_user_range plan_segments validate_load_segment validate_align
    validate_file_range is_power_of_two_u64
plan_of_program = refl

notes_header : validate_header (read_ehdr notes) 120 region ≡ ok
unfolding read_ehdr le_bytes validate_header validate_ident validate_phdr_bounds validate_user_range
notes_header = refl

notes-loads : loads (read_ehdr notes).e_phnum (read_ehdr notes).e_phoff notes ≡ []
unfolding loads read_ehdr read_phdr le_bytes
notes-loads = refl

plan_image-IsLoadable_example : IsLoadable program 120 region plan
plan_image-IsLoadable_example =
    plan_image-IsLoadable program 120 region (omega arith) program_bytes plan plan_of_program

plan_image_no_loads_example :
    plan_image notes 120 region ≡ (segcount, record zero_plan { entry = (read_ehdr notes).e_entry })
plan_image_no_loads_example =
    plan_image_no_loads notes 120 region (omega arith) notes_header notes-loads

notes_fail : (plan_image notes 120 region).0 ≢ ok
notes_fail h =
    let e : segcount ≡ ok =
      rw (plan_image_no_loads notes 120 region (omega arith) notes_header notes-loads) at h in
    cc

notes_refused : (plan_load (some notes) 120 region (some zero_plan)).0 ≢ ok
unfolding plan_load
notes_refused = notes_fail

plan_load_failed_example :
    Refused (some notes) (some zero_plan) (plan_load (some notes) 120 region (some zero_plan))
plan_load_failed_example = plan_load_failed (some notes) 120 region (some zero_plan) notes_refused

is_power_of_two_iff_example : (is_power_of_two_u64 4096 ≡ true) ↔ ((k : ℕ) × (4096 ≡ 2 ^ k))
is_power_of_two_iff_example = is_power_of_two_iff 4096 (omega arith)
