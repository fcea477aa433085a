-- ===== src/Sync/Lockdep/Release.antt =====
-- kernel/sync/lockdep.c: what a release does, and which classes are held.
use m4_trio.Base.{
  ℕ, suc, ◌-◌, ◌<◌, ◌≡◌, ◌≢◌, ap, ◌∙◌, ◌↔◌, ◌⊎◌, inl, inr, true, some, List, get_or, set,
  length-set, get_or-set_self, get_or-set_ne, ltb, ◌==◌, if◌then◌else◌, Bool-cases, arith,
}
use native.Mathlib.Decide.{ℕ_discrete}
use m4_trio.Sync.{Code-discrete, ok}
use m4_trio.Sync.Lockdep.{Lockdep, max_held, found, acquire, release, violated, is_held}
use m4_trio.Sync.Lockdep.Order.{
  IsOrdered, acquire-Pushed, acquire_ok, class_at, found-false, found-true, violated-IsOrdered,
}

-- A release is accepted exactly for the class on top.
pub release_iff :
    (s : Lockdep) (class_id : ℕ)
    → ((release s class_id).0 ≡ ok)
      ↔ ((class_id ≢ 0) × (s.depth ≢ 0) × (class_at s (s.depth - 1) ≡ class_id))
unfolding release
release_iff s class_id =
    ((λ h. (ground arith, ground arith, ground arith)), (λ p. ground (arith, p.0, p.1, p.2)))

-- What an accepted release leaves: the top slot cleared, the others as before.
pub record Popped (s s' : Lockdep) : Type 0 where
  pub ordered : IsOrdered s'
  pub shallower : suc s'.depth ≡ s.depth
  pub classes : (i : ℕ) → class_at s' i ≡ (if s'.depth == i then 0 else class_at s i)

module _ {s : Lockdep} (o : IsOrdered s) (some_held : s.depth ≢ 0) where
  abbrev popped : List ℕ
  popped = set s.held_class (s.depth - 1) 0

  popped_at : (i : ℕ) → get_or popped i 0 ≡ (if s.depth - 1 == i then 0 else class_at s i)
  popped_at i = elim (ℕ_discrete (s.depth - 1) i) [
    | yes e ↦ ground (
      arith,
      ap (λ k. get_or popped k 0) e,
      get_or-set_self s.held_class (s.depth - 1) 0 0 (omega (arith, o.slots, o.shallow)),
    )
    | no ne ↦ ground (arith, get_or-set_ne s.held_class (s.depth - 1) i 0 0 ne)
  ]

  popped-IsOrdered :
      (names : List ℕ)
      → IsOrdered (record s { held_class = popped; held_name = names; depth = s.depth - 1 })
  popped-IsOrdered names = record {
    slots = length-set s.held_class (s.depth - 1) 0 ∙ o.slots;
    shallow = omega (arith, o.shallow);
    named = λ i lt. ground (arith, popped_at i, o.named i);
    cleared = λ i le. ground (arith, popped_at i, o.cleared i);
    increasing = λ i j lt lt'. ground (arith, popped_at i, popped_at j, o.increasing i j);
  }

release_value :
    (s : Lockdep) (class_id : ℕ)
    → (release s class_id).0 ≡ ok
    → (release s class_id).1 ≡ record s {
      held_class = set s.held_class (s.depth - 1) 0;
      held_name = set s.held_name (s.depth - 1) 0;
      depth = s.depth - 1;
    }
unfolding release
release_value s class_id h = ground arith

-- In an ordered state an accepted release clears the top slot, leaves the other slots alone, and
-- keeps the held classes strictly increasing.
pub release-Popped :
    {s : Lockdep} (class_id : ℕ)
    → IsOrdered s
    → (release s class_id).0 ≡ ok
    → Popped s (release s class_id).1
release-Popped {s} class_id o h =
    let some_held = ((release_iff s class_id).0 h).1 in
    rw (release_value s class_id h) (record {
      ordered = popped-IsOrdered o some_held (set s.held_name (s.depth - 1) 0);
      shallower = omega arith;
      classes = popped_at o some_held;
    })

-- A refused release changes the count of violations at most.
release_refused :
    (s : Lockdep) (class_id : ℕ)
    → (release s class_id).0 ≢ ok
    → ((release s class_id).1 ≡ s) ⊎ ((release s class_id).1 ≡ violated s)
unfolding release
release_refused s class_id h = ground arith

pub release-IsOrdered :
    {s : Lockdep} (class_id : ℕ) → IsOrdered s → IsOrdered (release s class_id).1
release-IsOrdered {s} class_id o = elim (Code-discrete (release s class_id).0 ok) [
  | yes h ↦ (release-Popped class_id o h).ordered
  | no h ↦ elim (release_refused s class_id h) [
    | inl same ↦ rw same o
    | inr counted ↦ rw counted (violated-IsOrdered o)
  ]
]

-- In an ordered state, releasing the class whose acquisition was just accepted is accepted, and
-- gives the depth and every slot back.
pub release-acquire :
    {s : Lockdep} (class_id name : ℕ)
    → IsOrdered s
    → (acquire s class_id name).0 ≡ ok
    → ((release (acquire s class_id name).1 class_id).0 ≡ ok)
      × ((release (acquire s class_id name).1 class_id).1.depth ≡ s.depth)
      × ((i : ℕ) → class_at (release (acquire s class_id name).1 class_id).1 i ≡ class_at s i)
release-acquire {s} class_id name o h =
    let a = acquire_ok class_id name o h in
    let m = acquire-Pushed class_id name o h in
    let e : (acquire s class_id name).1.depth - 1 ≡ s.depth = omega (arith, m.deeper) in
    let accepted =
      (release_iff (acquire s class_id name).1 class_id).1
        (a.real, omega (arith, m.deeper), rw e m.top) in
    let r = release-Popped class_id m.ordered accepted in
    (
      accepted,
      omega (arith, r.shallower, m.deeper),
      λ i. elim (ℕ_discrete s.depth i) [
        | yes same ↦ ground (arith, r.classes i, r.shallower, m.deeper, o.cleared i)
        | no other ↦ ground (arith, r.classes i, r.shallower, m.deeper, m.others i)
      ],
    )

-- In an ordered state `mcs_lockdep_is_held` answers true for exactly the classes other than 0
-- that stand on the stack.
pub is_held_iff :
    {s : Lockdep} (class_id : ℕ)
    → IsOrdered s
    → (is_held (some s) class_id ≡ true)
      ↔ ((class_id ≢ 0) × ((i : ℕ) × (i < s.depth) × (class_at s i ≡ class_id)))
unfolding is_held
is_held_iff {s} class_id o =
    let e : (if ltb s.depth max_held then s.depth else max_held) ≡ s.depth =
      ground (arith, o.shallow) in
    rw e (
      (λ h.
          let hit : found s.held_class s.depth 0 class_id ≡ true = ground arith in
          let (i, lo, hi, same) = found-true s.held_class s.depth 0 class_id hit in
          (ground arith, (i, omega arith, same))),
      (λ p.
          let real = p.0 in
          let (i, lt, same) = p.1 in
          elim (Bool-cases (found s.held_class s.depth 0 class_id)) [
            | inl hit ↦ ground arith
            | inr miss ↦ absurd (
                found-false s.held_class s.depth 0 class_id miss i (omega arith) (omega arith) same)
          ]),
    )
