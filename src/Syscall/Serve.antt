-- ===== src/Syscall/Serve.antt =====
-- kernel/syscall/syscall.c: which ranges a system call hands to the serial output.
use m4_trio.Base.{
  ℕ, ◌≤◌, ◌<◌, ◌≡◌, ◌≢◌, ◌⊎◌, inl, inr, refl, Bool-cases, ltb, ne→==, u64_mod, arith,
}
use m4_trio.Syscall.{Handlers, Region, user_check_range, sys_write_serial, dispatch}
use m4_trio.Syscall.Range.{InRegion, user_check_range_iff}
use native.Mathlib.Decide.{ℕ_discrete}

-- A range that the serial output may be given.
pub record MayEmit (r : Region) (ptr len : ℕ) : Type 0 where
  pub real : ptr ≢ 0
  pub short : len ≤ 4096
  pub inside : (len ≡ 0) ⊎ ((r.base ≢ 0) × InRegion r ptr len)

module _ {S : Type 0} (ops : Handlers S) (r : Region) (other : ℕ → ℕ → S → ℕ × S) where
  -- The same operations with another serial output.
  abbrev pub replaced : Handlers S
  replaced = record ops { write_serial = other }

  sys_write_serial-same :
      (ptr len : ℕ) (s : S)
      → r.limit < u64_mod
      → ptr < u64_mod
      → ((ptr len : ℕ) (s : S) → MayEmit r ptr len → ops.write_serial ptr len s ≡ other ptr len s)
      → sys_write_serial ops r ptr len s ≡ sys_write_serial replaced r ptr len s
  unfolding sys_write_serial
  sys_write_serial-same ptr len s limit_word ptr_word agree = elim (ℕ_discrete ptr 0) [
    | yes z ↦ rw (sys_write_serial, z) refl
    | no real ↦ elim (Bool-cases (ltb 4096 len)) [
      | inl e ↦ rw (sys_write_serial, ne→== ptr 0 real) (rw e refl)
      | inr e ↦
          let short : len ≤ 4096 = ground (arith, e) in
          elim (Bool-cases (user_check_range r ptr len)) [
            | inr f ↦ rw (sys_write_serial, ne→== ptr 0 real) (rw e (rw f refl))
            | inl f ↦
                let may : MayEmit r ptr len = record {
                  real = real;
                  short = short;
                  inside =
                      (user_check_range_iff r ptr len limit_word ptr_word (omega (arith, short))).0
                        f;
                } in
                rw (sys_write_serial, ne→== ptr 0 real)
                  (rw e (rw f (rw (agree ptr len s may) refl)))
          ]
    ]
  ]

  -- Every system call answers and does the same with two serial outputs that agree on the ranges of
  -- at most 4096 bytes that do not start at 0 and are empty or lie in the user's region, where that
  -- does not start at 0: a call hands no other range to the serial output. The address and the
  -- region's limit are words.
  pub dispatch_confined :
      (nr arg0 arg1 : ℕ) (s : S)
      → r.limit < u64_mod
      → arg0 < u64_mod
      → ((ptr len : ℕ) (s : S) → MayEmit r ptr len → ops.write_serial ptr len s ≡ other ptr len s)
      → dispatch ops r nr arg0 arg1 s ≡ dispatch replaced r nr arg0 arg1 s
  unfolding dispatch
  dispatch_confined nr arg0 arg1 s limit_word word agree = elim (ℕ_discrete nr 2) [
    | yes e ↦ rw (dispatch, e) (sys_write_serial-same arg0 arg1 s limit_word word agree)
    | no ne ↦ rw (dispatch, ne→== nr 2 ne) refl
  ]
