-- ===== src/Elf/Load.antt =====
-- `m11_elf64_plan_load` as a whole: what its results mean.
use m4_trio.Base.{
  ℕ, zero, suc, ◌+◌, ◌*◌, ◌<◌, ◌≤◌, ◌≡◌, ◌≢◌, refl, ap, Option, none, some, ◌⊎◌, inl, inr, List, [],
  ◌∷◌, map, All, u64_mod, arith,
}
use m4_trio.Elf.{
  Code, ok, null, segcount, Ehdr, UserRegion, ImagePlan, sizeof_phdr, sizeof_ehdr,
  max_load_segments, zero_plan, read_ehdr, read_phdr, segment_of, add_segment, validate_user_range,
  validate_phdr_bounds, validate_header, plan_segments, plan_image, plan_load,
}
use m4_trio.Elf.Bounds.{InRegion, IsSafe, validate_user_range_iff, validate_phdr_bounds_in_image}
use m4_trio.Elf.Words.{read_ehdr-IsEhdr}
use m4_trio.Elf.Plan.{loads, planned, Added, plan_segments-Added}

header_checks :
    (eh : Ehdr) (image_size : ℕ) (region : UserRegion)
    → validate_header eh image_size region ≡ ok
    → (validate_phdr_bounds eh image_size ≡ ok) × (validate_user_range region eh.e_entry 1 ≡ ok)
unfolding validate_header
header_checks eh image_size region h = (ground arith, ground arith)

-- What a plan that is returned with M11_OK promises.
pub record IsLoadable (image : List ℕ) (image_size : ℕ) (region : UserRegion) (plan : ImagePlan)
    : Type 0 where
  pub entry : InRegion region plan.entry 1
  pub some_segment : 0 < plan.segment_count
  pub count : plan.segment_count ≤ max_load_segments
  pub segments :
      planned plan
      ≡ map segment_of (loads (read_ehdr image).e_phnum (read_ehdr image).e_phoff image)
  pub safe : All (IsSafe image_size region) (planned plan)
  pub table :
      (i : ℕ)
      → i < (read_ehdr image).e_phnum
      → (read_ehdr image).e_phoff + suc i * sizeof_phdr ≤ image_size

All-map :
    {A B : Type 0} (P : B → Type 0) (f : A → B) (xs : List A)
    → All (λ x. P (f x)) xs
    → All P (map f xs)
All-map P f [] h = h
All-map P f (x ∷ xs) h = (h.0, All-map P f xs h.1)

module _ (image : List ℕ) (image_size : ℕ) (region : UserRegion) where
  abbrev eh : Ehdr
  eh = read_ehdr image

  abbrev started : ImagePlan
  started = record zero_plan { entry = eh.e_entry }

  abbrev loop : Code × ImagePlan
  loop = plan_segments eh.e_phnum eh.e_phoff image image_size region started

  image_ok :
      (plan : ImagePlan)
      → plan_image image image_size region ≡ (ok, plan)
      → (validate_header eh image_size region ≡ ok) × (loop ≡ (ok, plan)) × (plan.segment_count ≢ 0)
  unfolding plan_image
  image_ok plan h = (ground arith, ground arith, ground arith)

  module _ (hr : region.limit < u64_mod) (bytes : All (λ b. b < 256) image) where
    looped :
        (plan : ImagePlan)
        → loop ≡ (ok, plan)
        → Added eh.e_phnum eh.e_phoff image image_size region started plan
    looped plan h =
        plan_segments-Added image image_size region hr bytes eh.e_phnum eh.e_phoff started plan
          (record { slots = refl; count = omega arith }) h

    -- For an image of bytes and a user region whose limit is a word: if the call returns
    -- M11_OK, the entry point lies in the region, the plan has one to eight segments, they
    -- are the PT_LOAD headers of the table in order, every one is safe (its memory in the
    -- region, its file bytes in the image, no more file than memory, known flags, not both
    -- writable and executable, an alignment that is 0, 1 or a power of two with congruent
    -- addresses), and every program header that was read lies in the image.
    pub plan_image-IsLoadable :
        (plan : ImagePlan)
        → plan_image image image_size region ≡ (ok, plan)
        → IsLoadable image image_size region plan
    plan_image-IsLoadable plan h =
        let (header, loop_ok, non_zero) = image_ok plan h in
        let (table_ok, entry_ok) = header_checks eh image_size region header in
        let w = read_ehdr-IsEhdr image bytes in
        let m = looped plan loop_ok in
        record {
          entry =
              rw m.entry
                ((validate_user_range_iff region eh.e_entry 1 w.entry (omega arith) hr).0 entry_ok);
          some_segment = omega arith;
          count = m.count;
          segments = m.appended;
          safe = rw m.appended (All-map (IsSafe image_size region) segment_of _ m.safe);
          table = (validate_phdr_bounds_in_image eh image_size w.phoff w.phnum table_ok).1;
        }

-- A loop that fails leaves the zeroed plan.
plan_segments_failed :
    (n at : ℕ) (image : List ℕ) (image_size : ℕ) (region : UserRegion) (before : ImagePlan)
    → (plan_segments n at image image_size region before).0 ≢ ok
    → (plan_segments n at image image_size region before).1 ≡ zero_plan
unfolding plan_segments
plan_segments_failed zero at image image_size region before h = absurd (h refl)
plan_segments_failed (suc n) at image image_size region before h = ground (
  arith,
  plan_segments_failed n (at + sizeof_phdr) image image_size region before,
  plan_segments_failed n (at + sizeof_phdr) image image_size region
      (add_segment before (read_phdr image at)),
)

plan_image_failed :
    (image : List ℕ) (image_size : ℕ) (region : UserRegion)
    → (plan_image image image_size region).0 ≢ ok
    → ((plan_image image image_size region).1.segment_count ≡ 0)
      × (((plan_image image image_size region).0 ≡ segcount)
          ⊎ ((plan_image image image_size region).1 ≡ zero_plan))
unfolding plan_image
plan_image_failed image image_size region h =
    let e = read_ehdr image in
    let f =
      plan_segments_failed e.e_phnum e.e_phoff image image_size region
        (record zero_plan { entry = e.e_entry }) in
    (ground (arith, f), ground (arith, f))

-- What a refused call leaves behind `out_plan`.
pub data Refused (image : Option (List ℕ)) (old : Option ImagePlan) (out : Code × Option ImagePlan)
    : Type 0 where
  untouched : (image ≡ none) ⊎ (old ≡ none) → out ≡ (null, old) → Refused image old out
  zeroed : image ≢ none → old ≢ none → out ≡ (out.0, some zero_plan) → Refused image old out
  no_segments :
      (plan : ImagePlan)
      → image ≢ none
      → old ≢ none
      → plan.segment_count ≡ 0
      → out ≡ (segcount, some plan)
      → Refused image old out

-- A call that returns an error and has no image or no plan to fill returns M11_ERR_NULL and leaves
-- the old plan as it was. With both, the plan counts no segment after the error, and unless the
-- error is M11_ERR_SEGCOUNT it is all zero.
pub plan_load_failed :
    (image : Option (List ℕ)) (image_size : ℕ) (region : UserRegion) (old : Option ImagePlan)
    → (plan_load image image_size region old).0 ≢ ok
    → Refused image old (plan_load image image_size region old)
unfolding plan_load
plan_load_failed none image_size region old h = untouched (inl refl) refl
plan_load_failed (some image) image_size region none h = untouched (inr refl) refl
plan_load_failed (some image) image_size region (some old) h =
    let (count, why) = plan_image_failed image image_size region h in
    elim why [
      | inl e ↦
          no_segments (plan_image image image_size region).1 (λ x. cc) (λ x. cc) count
            (ap (λ c. (c, some (plan_image image image_size region).1)) e)
      | inr e ↦
          zeroed (λ x. cc) (λ x. cc) (ap (λ p. ((plan_image image image_size region).0, some p)) e)
    ]

plan_segments_idle :
    (n at : ℕ) (image : List ℕ) (image_size : ℕ) (region : UserRegion) (before : ImagePlan)
    → loads n at image ≡ []
    → plan_segments n at image image_size region before ≡ (ok, before)
unfolding plan_segments loads
plan_segments_idle zero at image image_size region before h = refl
plan_segments_idle (suc n) at image image_size region before h =
    ground (arith, plan_segments_idle n (at + sizeof_phdr) image image_size region before)

-- An image whose header passes and whose table has no PT_LOAD header is refused with
-- M11_ERR_SEGCOUNT, and the plan is zero but for the entry point, which stays set.
pub plan_image_no_loads :
    (image : List ℕ) (image_size : ℕ) (region : UserRegion)
    → sizeof_ehdr ≤ image_size
    → validate_header (read_ehdr image) image_size region ≡ ok
    → loads (read_ehdr image).e_phnum (read_ehdr image).e_phoff image ≡ []
    → plan_image image image_size region
      ≡ (segcount, record zero_plan { entry = (read_ehdr image).e_entry })
unfolding plan_image
plan_image_no_loads image image_size region big header h =
    let e = read_ehdr image in
    ground (
      arith,
      plan_segments_idle e.e_phnum e.e_phoff image image_size region
          (record zero_plan { entry = e.e_entry }) h,
    )
