-- ===== src/Sync/Lockdep/Order.antt =====
-- The checker keeps the held classes strictly increasing, and accepts exactly what keeps them so.
use m4_trio.Base.{
  ℕ, zero, suc, ◌+◌, ◌-◌, ◌<◌, ◌≤◌, ◌≡◌, ◌≢◌, refl, ap, subst, replicate, get_or-replicate, ◌∙◌,
  ◌↔◌, ◌⊎◌, inl, inr, true, false, some, List, length, get_or, set, length-set, get_or-set_self,
  get_or-set_ne, ◌==◌, if◌then◌else◌, Bool-cases, add32, arith,
}
use native.Mathlib.Decide.{ℕ_discrete, dec_lt}
use m4_trio.Sync.{Code-discrete, ok, einval}
use m4_trio.Sync.Lockdep.{Lockdep, max_held, found, init, acquire, violated}

-- The class in slot `i`.
abbrev pub class_at : Lockdep → ℕ → ℕ
class_at s i = get_or s.held_class i 0

pub record IsOrdered (s : Lockdep) : Type 0 where
  pub slots : length s.held_class ≡ max_held
  pub shallow : s.depth ≤ max_held
  pub named : (i : ℕ) → i < s.depth → 0 < class_at s i
  pub cleared : (i : ℕ) → s.depth ≤ i → class_at s i ≡ 0
  pub increasing : (i j : ℕ) → i < j → j < s.depth → class_at s i < class_at s j

-- The state that `mcs_lockdep_init` writes is ordered.
pub init-IsOrdered : (s : Lockdep) {s' : Lockdep} → init (some s) ≡ some s' → IsOrdered s'
unfolding init
init-IsOrdered s {s'} h =
    let e : cleared_state ≡ s' = cc in
    subst IsOrdered e (record {
      slots = refl;
      shallow = omega arith;
      named = λ i lt. elim lt [ ];
      cleared = λ i le. get_or-replicate max_held i 0;
      increasing = λ i j lt lt'. elim lt' [ ];
    })
  where
    cleared_state : Lockdep
    cleared_state = record {
      held_class = replicate max_held 0;
      held_name = replicate max_held 0;
      depth = 0;
      violation_count = 0;
    }

pub found-false :
    (classes : List ℕ) (n from class_id : ℕ)
    → found classes n from class_id ≡ false
    → (i : ℕ) → from ≤ i
    → i < from + n
    → get_or classes i 0 ≢ class_id
unfolding found
found-false classes zero from class_id h i lo hi = absurd (omega arith)
found-false classes (suc n) from class_id h i lo hi = elim (ℕ_discrete from i) [
  | yes e ↦ λ same. ground (arith, ap (λ k. get_or classes k 0) e)
  | no ne ↦ found-false classes n (from + 1) class_id (ground arith) i (omega arith) (omega arith)
]

pub found-true :
    (classes : List ℕ) (n from class_id : ℕ)
    → found classes n from class_id ≡ true
    → (i : ℕ) × (from ≤ i) × (i < from + n) × (get_or classes i 0 ≡ class_id)
unfolding found
found-true classes zero from class_id h = cc
found-true classes (suc n) from class_id h = elim (Bool-cases (get_or classes from 0 == class_id)) [
  | inl here ↦ (from, omega arith, omega arith, ground arith)
  | inr later ↦
      let (i, lo, hi, e) = found-true classes n (from + 1) class_id (ground arith) in
      (i, omega arith, omega arith, e)
]

-- Every class that is held is below the new one.
abbrev pub Above : Lockdep → ℕ → Type 0
Above s class_id = (i : ℕ) → i < s.depth → class_at s i < class_id

pub record Accepts (s : Lockdep) (class_id : ℕ) : Type 0 where
  pub real : class_id ≢ 0
  pub space : s.depth < max_held
  pub above : Above s class_id

-- In an ordered state the top is the largest.
le-top :
    {s : Lockdep} → IsOrdered s → (i : ℕ) → i < s.depth → class_at s i ≤ class_at s (s.depth - 1)
le-top {s} o i lt = elim (dec_lt i (s.depth - 1)) [
  | yes below ↦ omega (arith, o.increasing i (s.depth - 1) below (omega arith))
  | no top ↦ let e : i ≡ s.depth - 1 = omega arith in ground (arith, ap (class_at s) e)
]

pub acquire_ok :
    {s : Lockdep} (class_id name : ℕ)
    → IsOrdered s
    → (acquire s class_id name).0 ≡ ok
    → Accepts s class_id
unfolding acquire
acquire_ok {s} class_id name o h = record {
  real = ground arith;
  space = ground arith;
  above = λ i lt.
      let absent : found s.held_class s.depth 0 class_id ≡ false = ground arith in
      ground (
        arith,
        found-false s.held_class s.depth 0 class_id absent (s.depth - 1) (omega arith)
            (omega arith),
        le-top o i lt,
      );
}

acquire-Accepts :
    {s : Lockdep} (class_id name : ℕ)
    → IsOrdered s
    → Accepts s class_id
    → (acquire s class_id name).0 ≡ ok
unfolding acquire
acquire-Accepts {s} class_id name o a = elim (Bool-cases (found s.held_class s.depth 0 class_id)) [
  | inl hit ↦
      let (i, lo, hi, e) = found-true s.held_class s.depth 0 class_id hit in
      absurd (omega (arith, a.above i (omega arith)))
  | inr miss ↦ ground (arith, a.real, a.space, a.above (s.depth - 1))
]

-- In an ordered state an acquisition is accepted exactly when the class is not 0, fewer than
-- sixteen classes are held, and every class held is below the new one.
pub acquire_iff :
    {s : Lockdep} (class_id name : ℕ)
    → IsOrdered s
    → ((acquire s class_id name).0 ≡ ok)
      ↔ ((class_id ≢ 0) × (s.depth < max_held) × Above s class_id)
acquire_iff class_id name o = (
  (λ h. let a = acquire_ok class_id name o h in (a.real, a.space, a.above)),
  (λ p. acquire-Accepts class_id name o (record { real = p.0; space = p.1; above = p.2 })),
)

-- What an accepted acquisition leaves: the new class on top, the others as before.
pub record Pushed (s : Lockdep) (class_id : ℕ) (s' : Lockdep) : Type 0 where
  pub ordered : IsOrdered s'
  pub deeper : s'.depth ≡ suc s.depth
  pub top : class_at s' s.depth ≡ class_id
  pub others : (i : ℕ) → i ≢ s.depth → class_at s' i ≡ class_at s i
  pub quiet : s'.violation_count ≡ s.violation_count

module _ {s : Lockdep} (class_id : ℕ) (o : IsOrdered s) (a : Accepts s class_id) where
  abbrev pushed : List ℕ
  pushed = set s.held_class s.depth class_id

  pushed_at : (i : ℕ) → get_or pushed i 0 ≡ (if s.depth == i then class_id else class_at s i)
  pushed_at i = elim (ℕ_discrete s.depth i) [
    | yes e ↦ ground (
      arith,
      ap (λ k. get_or pushed k 0) e,
      get_or-set_self s.held_class s.depth class_id 0 (omega (arith, o.slots, a.space)),
    )
    | no ne ↦ ground (arith, get_or-set_ne s.held_class s.depth i class_id 0 ne)
  ]

  pushed-IsOrdered :
      (names : List ℕ)
      → IsOrdered (record s { held_class = pushed; held_name = names; depth = add32 s.depth 1 })
  pushed-IsOrdered names = record {
    slots = length-set s.held_class s.depth class_id ∙ o.slots;
    shallow = omega (arith, a.space);
    named = λ i lt. ground (arith, pushed_at i, a.real, a.space, o.named i);
    cleared = λ i le. ground (arith, pushed_at i, a.space, o.cleared i);
    increasing = λ i j lt lt'.
        ground (arith, pushed_at i, pushed_at j, a.space, a.above i, o.increasing i j);
  }

acquire_value :
    (s : Lockdep) (class_id name : ℕ)
    → (acquire s class_id name).0 ≡ ok
    → (acquire s class_id name).1 ≡ record s {
      held_class = set s.held_class s.depth class_id;
      held_name = set s.held_name s.depth name;
      depth = add32 s.depth 1;
    }
unfolding acquire
acquire_value s class_id name h = ground arith

-- In an ordered state an accepted acquisition puts the class on top, leaves the other slots and
-- the count of violations alone, and keeps the held classes strictly increasing.
pub acquire-Pushed :
    {s : Lockdep} (class_id name : ℕ)
    → IsOrdered s
    → (acquire s class_id name).0 ≡ ok
    → Pushed s class_id (acquire s class_id name).1
acquire-Pushed {s} class_id name o h =
    let a = acquire_ok class_id name o h in
    rw (acquire_value s class_id name h) (record {
      ordered = pushed-IsOrdered class_id o a (set s.held_name s.depth name);
      deeper = omega (arith, a.space);
      top = ground (arith, pushed_at class_id o a s.depth);
      others = λ i ne. ground (arith, pushed_at class_id o a i);
      quiet = refl;
    })

pub violated-IsOrdered : {s : Lockdep} → IsOrdered s → IsOrdered (violated s)
violated-IsOrdered o = record {
  slots = o.slots;
  shallow = o.shallow;
  named = o.named;
  cleared = o.cleared;
  increasing = o.increasing;
}

-- A refused acquisition either had class 0 and changes nothing, or is counted as one violation
-- and changes nothing else.
pub acquire_refused :
    (s : Lockdep) (class_id name : ℕ)
    → (acquire s class_id name).0 ≢ ok
    → (((acquire s class_id name).0 ≡ einval) × ((acquire s class_id name).1 ≡ s))
      ⊎ (((acquire s class_id name).0 ≢ einval) × ((acquire s class_id name).1 ≡ violated s))
unfolding acquire
acquire_refused s class_id name h = elim (Bool-cases (class_id == 0)) [
  | inl zero_class ↦ inl (ground arith, ground arith)
  | inr real ↦ inr (ground arith, ground arith)
]

-- Every call keeps the order.
pub acquire-IsOrdered :
    {s : Lockdep} (class_id name : ℕ) → IsOrdered s → IsOrdered (acquire s class_id name).1
acquire-IsOrdered {s} class_id name o = elim (Code-discrete (acquire s class_id name).0 ok) [
  | yes h ↦ (acquire-Pushed class_id name o h).ordered
  | no h ↦ elim (acquire_refused s class_id name h) [
    | inl same ↦ rw same.1 o
    | inr counted ↦ rw counted.1 (violated-IsOrdered o)
  ]
]
