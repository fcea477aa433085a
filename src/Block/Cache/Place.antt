-- ===== src/Block/Cache/Place.antt =====
-- kernel/block/bcache.c: an entry that is written over, as a load and a store of a block do.
use m4_trio.Base.{
  ℕ, ◌+◌, ◌*◌, ◌<◌, ◌≡◌, ◌≢◌, ◌⊎◌, refl, sym, ap, subst, ◌∙◌, Bool, true, false, List, length,
  get_or, set, length-set, get_or-set_self, get_or-set_ne, Bool-cases, inl, inr, arith,
}
use m4_trio.Block.{World}
use m4_trio.Block.Disk.{byte}
use m4_trio.Block.Cache.{Entry, no_entry, holds}
use m4_trio.Block.Cache.View.{
  at, Home, Agrees, IsStore, view, holds-Held, Held-holds, view-hit, view-miss, hit, miss, look,
}
use native.Mathlib.Decide.{ℕ_discrete}

pub not_both : {b : Bool} → b ≡ true → b ≢ false
not_both t f = ground (arith, t, f)

-- Entry `e` may be put at index `i`: it holds a block that no other entry holds, and what it
-- writes over is that block, or is not needed.
pub record Fits (w : World) (n size : ℕ) (entries : List Entry) (i : ℕ) (e : Entry) : Type 0 where
  pub index : i < n
  pub shaped : length e.bytes ≡ size
  pub valid : e.valid ≡ true
  pub home : Home w size e.dev e.lba
  pub clean : e.dirty ≡ false → Agrees w size e
  pub alone : (k : ℕ) → k < n → k ≢ i → holds (at entries k) e.dev e.lba ≡ false
  pub spare :
      (holds (at entries i) e.dev e.lba ≡ true)
      ⊎ ((at entries i).valid ≡ true → (at entries i).dirty ≡ false)

module _ {w : World} {n size : ℕ} {entries : List Entry} {i : ℕ} {e : Entry}
    (s : IsStore w n size entries) (f : Fits w n size entries i e) where
  at_self : at (set entries i e) i ≡ e
  at_self = get_or-set_self entries i e no_entry (omega (arith, s.sized, f.index))

  at_ne : (k : ℕ) → k ≢ i → at (set entries i e) k ≡ at entries k
  at_ne k ne = get_or-set_ne entries i k e no_entry λ same. ne (sym same)

  own : holds e e.dev e.lba ≡ true
  own = Held-holds (record { valid = f.valid; dev = refl; lba = refl })

  pub own_at : holds (at (set entries i e) i) e.dev e.lba ≡ true
  own_at = rw at_self own

  -- What holds at the new entry and at each old one, holds at each.
  pub each {κ} :
      (P : Entry → Type κ)
      → P e
      → ((k : ℕ) → k < n → P (at entries k))
      → (k : ℕ) → k < n
      → P (at (set entries i e) k)
  each P new old k lt = elim (ℕ_discrete k i) [
    | yes same ↦ subst (λ x. P (at (set entries i e) x)) (sym same) (subst P (sym at_self) new)
    | no ne ↦ subst P (sym (at_ne k ne)) (old k lt)
  ]

  -- Another entry that holds a block does not hold the new entry's block.
  no_clash :
      (k d l : ℕ) → k < n → k ≢ i → holds (at (set entries i e) k) d l ≡ true → holds e d l ≡ false
  no_clash k d l lt ne held = elim (Bool-cases (holds e d l)) [
    | inr no_hold ↦ no_hold
    | inl yes_hold ↦
        let h = holds-Held e d l yes_hold in
        let here : holds (at entries k) d l ≡ true =
          ap (λ x. holds x d l) (sym (at_ne k ne)) ∙ held in
        absurd (
          not_both here (
            subst (λ x. holds (at entries k) x l ≡ false) h.dev
              (subst (λ x. holds (at entries k) e.dev x ≡ false) h.lba (f.alone k lt ne))))
  ]

  new_apart :
      (k m d l : ℕ)
      → k < n
      → m < n
      → holds (at (set entries i e) k) d l ≡ true
      → holds (at (set entries i e) m) d l ≡ true
      → k ≡ m
  new_apart k m d l k_lt m_lt k_held m_held = elim (ℕ_discrete k i) [
    | yes k_same ↦ elim (ℕ_discrete m i) [
      | yes m_same ↦ k_same ∙ sym m_same
      | no m_ne ↦ absurd (
          not_both
            (ap (λ x. holds x d l) (sym at_self)
              ∙ subst (λ x. holds (at (set entries i e) x) d l ≡ true) k_same k_held)
            (no_clash m d l m_lt m_ne m_held))
    ]
    | no k_ne ↦ elim (ℕ_discrete m i) [
      | yes m_same ↦ absurd (
          not_both
            (ap (λ x. holds x d l) (sym at_self)
              ∙ subst (λ x. holds (at (set entries i e) x) d l ≡ true) m_same m_held)
            (no_clash k d l k_lt k_ne k_held))
      | no m_ne ↦
          s.apart k m d l k_lt m_lt (ap (λ x. holds x d l) (sym (at_ne k k_ne)) ∙ k_held)
            (ap (λ x. holds x d l) (sym (at_ne m m_ne)) ∙ m_held)
    ]
  ]

  pub place-IsStore : IsStore w n size (set entries i e)
  place-IsStore = record {
    sized = length-set entries i e ∙ s.sized;
    nonempty = s.nonempty;
    shaped = each (λ x. length x.bytes ≡ size) f.shaped s.shaped;
    placed = each (λ x. x.valid ≡ true → Home w size x.dev x.lba) (λ v. f.home) s.placed;
    clean = each (λ x. x.valid ≡ true → x.dirty ≡ false → Agrees w size x) (λ v. f.clean) s.clean;
    apart = new_apart;
  }

  pub place-view_self : (j : ℕ) → view w n size (set entries i e) e.dev e.lba j ≡ get_or e.bytes j 0
  place-view_self j =
      view-hit i e.dev e.lba j place-IsStore f.index own_at ∙ ap (λ x. get_or x.bytes j 0) at_self

  -- The old entry at the index held no other block, or one that the disk has too.
  spare_seen :
      (d l j : ℕ)
      → j < size
      → holds e d l ≡ false
      → holds (at entries i) d l ≡ true
      → get_or (at entries i).bytes j 0 ≡ byte w d (l * size + j)
  spare_seen d l j lt other held =
      let h = holds-Held (at entries i) d l held in
      elim f.spare [
        | inl same ↦
            let hs = holds-Held (at entries i) e.dev e.lba same in
            absurd (
              not_both
                (Held-holds
                  (record { valid = f.valid; dev = sym hs.dev ∙ h.dev; lba = sym hs.lba ∙ h.lba }))
                other)
        | inr unused ↦
            s.clean i f.index h.valid (unused h.valid) j lt
            ∙ ap (λ x. byte w x ((at entries i).lba * size + j)) h.dev
            ∙ ap (λ x. byte w d (x * size + j)) h.lba
      ]

  evicted :
      (d l : ℕ)
      → holds e d l ≡ false
      → holds (at entries i) d l ≡ true
      → (k : ℕ) → k < n
      → holds (at (set entries i e) k) d l ≡ false
  evicted d l other held k lt = elim (ℕ_discrete k i) [
    | yes same ↦
        subst (λ x. holds (at (set entries i e) x) d l ≡ false) (sym same) (rw at_self other)
    | no ne ↦ rw (at_ne k ne) (elim (Bool-cases (holds (at entries k) d l)) [
      | inr no_hold ↦ no_hold
      | inl yes_hold ↦ absurd (ne (s.apart k i d l lt f.index yes_hold held))
    ])
  ]

  pub place-view_other :
      (d l j : ℕ)
      → j < size
      → holds e d l ≡ false
      → view w n size (set entries i e) d l j ≡ view w n size entries d l j
  place-view_other d l j lt other = elim (look n entries d l) [
    | hit k k_lt held ↦ elim (ℕ_discrete k i) [
      | yes same ↦
          let here = subst (λ x. holds (at entries x) d l ≡ true) same held in
          view-miss w n size (set entries i e) d l j (evicted d l other here)
          ∙ sym (spare_seen d l j lt other here)
          ∙ sym (view-hit i d l j s f.index here)
      | no ne ↦
          view-hit k d l j place-IsStore k_lt (rw (at_ne k ne) held)
          ∙ ap (λ x. get_or x.bytes j 0) (at_ne k ne)
          ∙ sym (view-hit k d l j s k_lt held)
    ]
    | miss free ↦
        view-miss w n size (set entries i e) d l j (each (λ x. holds x d l ≡ false) other free)
        ∙ sym (view-miss w n size entries d l j free)
  ]
