-- ===== src/Syscall.antt =====
-- kernel/syscall/syscall.c, include/mcsos/syscall.h: the dispatch of system calls and the checks of
-- user memory. What the other parts of the kernel do when a call reaches them is a parameter: an
-- effect on their state `S`. A value of 64 bits stands for the `int64_t` with these bits.
mod Range
mod Serve
mod Tests
use m4_trio.Base.{
  ℕ, zero, suc, ◌+◌, ◌-◌, ◌%◌, ◌^◌, Bool, true, false, ◌||◌, not, Option, none, some, ltb, leb,
  ◌==◌, if◌then◌else◌, add64, sub64,
}

-- `mcsos_syscall_status_t`, less the 0.
pub data Status : Type 0 where
  einval enosys efault eperm ebusy : Status

pub data Answer : Type 0 where
  value : ℕ → Answer
  failed : Status → Answer

-- `mcsos_syscall_ops_t`: `none` is NULL.
pub record Ops (S : Type 0) : Type 0 where
  pub get_ticks : Option (S → ℕ × S)
  pub yield_current : Option (S → S)
  pub exit_current : Option (ℕ → S → S)
  pub write_serial : Option (ℕ → ℕ → S → ℕ × S)

pub record Region : Type 0 where
  pub base : ℕ
  pub limit : ℕ

-- `mcsos_syscall_frame_t`
pub record Frame : Type 0 where
  pub nr : ℕ
  pub arg0 : ℕ
  pub arg1 : ℕ
  pub arg2 : ℕ
  pub arg3 : ℕ
  pub arg4 : ℕ
  pub arg5 : ℕ
  pub ret : Answer

abbrev pub Bytes : Type 0
Bytes = ℕ → ℕ

unfoldable pub user_check_range : Region → ℕ → ℕ → Bool
user_check_range r addr len =
    let last = sub64 (add64 addr len) 1 in
    if len == 0
    then true
    else if r.base == 0 || leb r.limit r.base
    then false
    else if ltb addr r.base
    then false
    else if ltb r.limit addr
    then false
    else if ltb last addr
    then false
    else if leb r.limit last
    then false
    else true

-- The loop that copies: `dst` at `i` on has what memory has at `src + i` on.
unfoldable pub copy : ℕ → ℕ → Bytes → ℕ → Bytes → Bytes
copy zero i dst src mem = dst
copy (suc left) i dst src mem =
    copy left (i + 1) (λ k. if k == i then mem (src + i) else dst k) src mem

-- The kernel's buffer is not NULL when it is `some`.
unfoldable pub copy_from_user : Region → Option Bytes → ℕ → ℕ → Bytes → Answer × Option Bytes
copy_from_user r none src len mem = (if len == 0 then value 0 else failed einval, none)
copy_from_user r (some dst) src len mem =
    if len == 0
    then (value 0, some dst)
    else if src == 0
    then (failed einval, some dst)
    else if not (user_check_range r src len)
    then (failed efault, some dst)
    else (value 0, some (copy len 0 dst src mem))

-- The operations that are kept: the serial output is never NULL after an init.
pub record Handlers (S : Type 0) : Type 0 where
  pub get_ticks : Option (S → ℕ × S)
  pub yield_current : Option (S → S)
  pub exit_current : Option (ℕ → S → S)
  pub write_serial : ℕ → ℕ → S → ℕ × S

module _ {S : Type 0} where
  unfoldable pub default_write_serial : ℕ → ℕ → S → ℕ × S
  default_write_serial buf len s = (len, s)

  unfoldable pub or_default : Option (ℕ → ℕ → S → ℕ × S) → ℕ → ℕ → S → ℕ × S
  or_default none = default_write_serial
  or_default (some f) = f

  unfoldable pub init : Option (Ops S) → Handlers S
  init none = record {
    get_ticks = none;
    yield_current = none;
    exit_current = none;
    write_serial = default_write_serial;
  }
  init (some ops) = record {
    get_ticks = ops.get_ticks;
    yield_current = ops.yield_current;
    exit_current = ops.exit_current;
    write_serial = or_default ops.write_serial;
  }

  unfoldable pub sys_ping : S → Answer × S
  sys_ping s = (value 0x2605020A, s)

  unfoldable pub sys_get_ticks : Option (S → ℕ × S) → S → Answer × S
  sys_get_ticks none s = (failed ebusy, s)
  sys_get_ticks (some f) s = (value (f s).0, (f s).1)

  unfoldable pub sys_write_serial : Handlers S → Region → ℕ → ℕ → S → Answer × S
  sys_write_serial ops r ptr len s =
      if ptr == 0
      then (failed einval, s)
      else if ltb 4096 len
      then (failed einval, s)
      else if not (user_check_range r ptr len)
      then (failed efault, s)
      else (let out = ops.write_serial ptr len s in (value out.0, out.1))

  unfoldable pub sys_yield : Option (S → S) → S → Answer × S
  sys_yield none s = (failed ebusy, s)
  sys_yield (some f) s = (value 0, f s)

  unfoldable pub sys_exit_thread : Option (ℕ → S → S) → ℕ → S → Answer × S
  sys_exit_thread none code s = (failed ebusy, s)
  sys_exit_thread (some f) code s = (value 0, f (code % 2 ^ 32) s)

  -- The table has an entry for each number below 5.
  unfoldable pub dispatch : Handlers S → Region → ℕ → ℕ → ℕ → S → Answer × S
  dispatch ops r nr arg0 arg1 s =
      if leb 5 nr
      then (failed enosys, s)
      else if nr == 0
      then sys_ping s
      else if nr == 1
      then sys_get_ticks ops.get_ticks s
      else if nr == 2
      then sys_write_serial ops r arg0 arg1 s
      else if nr == 3
      then sys_yield ops.yield_current s
      else sys_exit_thread ops.exit_current arg0 s

  unfoldable pub dispatch_frame : Handlers S → Region → Frame → S → Frame × S
  dispatch_frame ops r f s =
      let out = dispatch ops r f.nr f.arg0 f.arg1 s in (record f { ret = out.0 }, out.1)
