-- ===== src/Sync/Lockdep.antt =====
-- kernel/sync/lockdep.c: the stack of the lock classes that are held, and the order that it
-- enforces. `mcs_lockdep_state_t *` is an option, NULL is `none`; a name is the pointer, a number.
mod Order
mod Release
mod Tests
use m4_trio.Base.{
  ℕ, zero, suc, ◌+◌, ◌-◌, ◌*◌, ◌%◌, Bool, true, false, not, ◌&&◌, ◌||◌, Option, none, some, List,
  [], ◌∷◌, get_or, set, replicate, ltb, leb, ◌==◌, if◌then◌else◌, add32,
}
use m4_trio.Sync.{Code, ok, einval, eperm, edeadlk, eoverflow}

abbrev pub max_held : ℕ
max_held = 16

-- `mcs_lockdep_state_t`
pub record Lockdep : Type 0 where
  pub held_class : List ℕ
  pub held_name : List ℕ
  pub depth : ℕ
  pub violation_count : ℕ

pub init : Option Lockdep → Option Lockdep
init none = none
init (some s) = some (record {
  held_class = replicate max_held 0;
  held_name = replicate max_held 0;
  depth = 0;
  violation_count = 0;
})

-- `for (i = from; i < from + rounds; i++) if (held_class[i] == class_id)`
pub found : List ℕ → ℕ → ℕ → ℕ → Bool
found classes zero from class_id = false
found classes (suc n) from class_id =
    let rest = found classes n (from + 1) class_id in
    if get_or classes from 0 == class_id then true else rest

pub is_held : Option Lockdep → ℕ → Bool
is_held none class_id = false
is_held (some s) class_id =
    if class_id == 0
    then false
    else found s.held_class (if ltb s.depth max_held then s.depth else max_held) 0 class_id

abbrev pub violated : Lockdep → Lockdep
violated s = record s { violation_count = add32 s.violation_count 1 }

pub acquire : Lockdep → ℕ → ℕ → Code × Lockdep
acquire s class_id name =
    if class_id == 0
    then (einval, s)
    else if leb max_held s.depth
    then (eoverflow, violated s)
    else if found s.held_class s.depth 0 class_id
    then (edeadlk, violated s)
    else if ltb 0 s.depth && ltb class_id (get_or s.held_class (s.depth - 1) 0)
    then (edeadlk, violated s)
    else (
      ok,
      record s {
        held_class = set s.held_class s.depth class_id;
        held_name = set s.held_name s.depth name;
        depth = add32 s.depth 1;
      },
    )

pub before_acquire : Option Lockdep → ℕ → ℕ → Code × Option Lockdep
before_acquire none class_id name = (einval, none)
before_acquire (some s) class_id name = let (c, s') = acquire s class_id name in (c, some s')

pub release : Lockdep → ℕ → Code × Lockdep
release s class_id =
    if class_id == 0
    then (einval, s)
    else if s.depth == 0
    then (eperm, violated s)
    else if not (get_or s.held_class (s.depth - 1) 0 == class_id)
    then (edeadlk, violated s)
    else (
      ok,
      record s {
        held_class = set s.held_class (s.depth - 1) 0;
        held_name = set s.held_name (s.depth - 1) 0;
        depth = s.depth - 1;
      },
    )

pub after_release : Option Lockdep → ℕ → ℕ → Code × Option Lockdep
after_release none class_id name = (einval, none)
after_release (some s) class_id name = let (c, s') = release s class_id in (c, some s')
