-- ===== src/Elf/Plan.antt =====
-- `m11_elf64_plan_load`: the plan that it leaves, on success and on every failure.
use m4_trio.Base.{
  ℕ, zero, suc, ◌+◌, ◌<◌, ◌≤◌, ◌≡◌, refl, ap, sym, subst, ◌∙◌, inl, inr, true, false, List, [], ◌∷◌,
  ◌++◌, map, length, set, take, All, length-set, ◌==◌, if◌then◌else◌, Bool-cases, u64_mod, add32,
  arith,
}
use mathlib.Core.List.{append_assoc, append-nil}
use m4_trio.Elf.{
  Code, ok, Phdr, UserRegion, Segment, ImagePlan, sizeof_phdr, pt_load, max_load_segments,
  read_phdr, segment_of, add_segment, validate_load_segment, plan_segments,
}
use m4_trio.Elf.Bounds.{IsSafe, validate_load_segment-IsSafe}
use m4_trio.Elf.Words.{read_phdr-IsPhdr}

-- The program headers of type PT_LOAD, in the order of the table.
unfoldable pub loads : ℕ → ℕ → List ℕ → List Phdr
loads zero at image = []
loads (suc n) at image =
    let rest = loads n (at + sizeof_phdr) image in
    if (read_phdr image at).p_type == pt_load then read_phdr image at ∷ rest else rest

-- The segments of a plan that are in use.
abbrev pub planned : ImagePlan → List Segment
planned plan = take plan.segment_count plan.segments

-- The plan holds the segments that its counter says.
pub record Room (plan : ImagePlan) : Type 0 where
  pub slots : length plan.segments ≡ max_load_segments
  pub count : plan.segment_count ≤ max_load_segments

take-set :
    {A : Type 0} (n : ℕ) (xs : List A) (v : A)
    → n < length xs
    → take (suc n) (set xs n v) ≡ take n xs ++ (v ∷ [])
take-set n [] v h = absurd (omega arith)
take-set zero (x ∷ xs) v h = refl
take-set (suc n) (x ∷ xs) v h = ap (λ l. x ∷ l) (take-set n xs v (omega arith))

add_segment-Room :
    {plan : ImagePlan} (ph : Phdr)
    → Room plan
    → plan.segment_count < max_load_segments
    → Room (add_segment plan ph)
add_segment-Room {plan} ph r lt = record {
  slots = length-set plan.segments plan.segment_count (segment_of ph) ∙ r.slots;
  count = omega arith;
}

planned-add_segment :
    (plan : ImagePlan) (ph : Phdr)
    → Room plan
    → plan.segment_count < max_load_segments
    → planned (add_segment plan ph) ≡ planned plan ++ (segment_of ph ∷ [])
planned-add_segment plan ph r lt =
    let e : add32 plan.segment_count 1 ≡ suc plan.segment_count = omega arith in
    ap (λ n. take n (set plan.segments plan.segment_count (segment_of ph))) e
    ∙ take-set plan.segment_count plan.segments (segment_of ph) (omega (arith, r.slots))

-- What the loop has done when it succeeds.
pub record Added (n at : ℕ) (image : List ℕ) (image_size : ℕ) (region : UserRegion)
    (before after : ImagePlan) : Type 0 where
  pub entry : after.entry ≡ before.entry
  pub count : after.segment_count ≤ max_load_segments
  pub appended : planned after ≡ planned before ++ map segment_of (loads n at image)
  pub counted : after.segment_count ≡ before.segment_count + length (loads n at image)
  pub safe : All (λ ph. IsSafe image_size region (segment_of ph)) (loads n at image)

-- A round on a header that is not PT_LOAD, and one on a header that is.
loads_skip :
    (n at : ℕ) (image : List ℕ)
    → (read_phdr image at).p_type == pt_load ≡ false
    → loads (suc n) at image ≡ loads n (at + sizeof_phdr) image
unfolding loads
loads_skip n at image h = rw h

loads_take :
    (n at : ℕ) (image : List ℕ)
    → (read_phdr image at).p_type == pt_load ≡ true
    → loads (suc n) at image ≡ read_phdr image at ∷ loads n (at + sizeof_phdr) image
unfolding loads
loads_take n at image h = rw h

module _ (image : List ℕ) (image_size : ℕ) (region : UserRegion) where
  abbrev round : ℕ → ℕ → ImagePlan → Code × ImagePlan
  round n at plan = plan_segments n at image image_size region plan

  pub round_skip :
      (n at : ℕ) (plan : ImagePlan)
      → (read_phdr image at).p_type == pt_load ≡ false
      → round (suc n) at plan ≡ round n (at + sizeof_phdr) plan
  unfolding plan_segments
  round_skip n at plan h = rw h

  round_take :
      (n at : ℕ) (plan after : ImagePlan)
      → (read_phdr image at).p_type == pt_load ≡ true
      → round (suc n) at plan ≡ (ok, after)
      → (plan.segment_count < max_load_segments)
        × (validate_load_segment (read_phdr image at) image_size region ≡ ok)
        × (round n (at + sizeof_phdr) (add_segment plan (read_phdr image at)) ≡ (ok, after))
  unfolding plan_segments
  round_take n at plan after load h = (ground arith, ground arith, ground arith)

  module _ (hr : region.limit < u64_mod) (bytes : All (λ b. b < 256) image) where
    pub plan_segments-Added :
        (n at : ℕ) (before after : ImagePlan)
        → Room before
        → round n at before ≡ (ok, after)
        → Added n at image image_size region before after
    unfolding plan_segments loads
    plan_segments-Added zero at before after r h =
        let e : before ≡ after = cc in
        subst (λ a. Added 0 at image image_size region before a) e
          (record {
            entry = refl;
            count = r.count;
            appended = sym (append-nil (planned before));
            counted = omega arith;
            safe = tt;
          })
    plan_segments-Added (suc n) at before after r h =
        elim (Bool-cases ((read_phdr image at).p_type == pt_load)) [
          | inr other ↦ skip other (
              plan_segments-Added n (at + sizeof_phdr) before after r
                (sym (round_skip n at before other) ∙ h))
          | inl load ↦
              let (room, passed, rest) = round_take n at before after load h in
              added load room passed (
                plan_segments-Added n (at + sizeof_phdr) (add_segment before (read_phdr image at))
                  after (add_segment-Room (read_phdr image at) r room) rest)
        ]
      where
        skip :
            (read_phdr image at).p_type == pt_load ≡ false
            → Added n (at + sizeof_phdr) image image_size region before after
            → Added (suc n) at image image_size region before after
        skip other m =
            let e = loads_skip n at image other in
            record {
              entry = m.entry;
              count = m.count;
              appended = rw e m.appended;
              counted = rw e m.counted;
              safe = rw e m.safe;
            }

        added :
            (read_phdr image at).p_type == pt_load ≡ true
            → before.segment_count < max_load_segments
            → validate_load_segment (read_phdr image at) image_size region ≡ ok
            → Added n
                (at + sizeof_phdr)
                image
                image_size
                region
                (add_segment before (read_phdr image at))
                after
            → Added (suc n) at image image_size region before after
        added load room passed m =
            let e = loads_take n at image load in
            let ph = read_phdr image at in
            record {
              entry = m.entry;
              count = m.count;
              appended =
                  rw (e, m.appended, planned-add_segment before ph r room)
                    (append_assoc (planned before) (segment_of ph ∷ []) _);
              counted = rw e (omega (arith, m.counted));
              safe = rw e (
                validate_load_segment-IsSafe ph image_size region (read_phdr-IsPhdr image at bytes)
                    hr passed,
                m.safe,
              );
            }
