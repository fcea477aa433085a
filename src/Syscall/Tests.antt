-- ===== src/Syscall/Tests.antt =====
-- A region of user memory, and a serial output that counts the bytes it is given.
use m4_trio.Base.{
  ℕ, ◌+◌, ◌≡◌, ◌≢◌, ◌↔◌, ◌⊎◌, refl, true, none, some, if◌then◌else◌, ltb, le→ltb, arith,
}
use m4_trio.Syscall.{Handlers, Region, Bytes, user_check_range, copy_from_user, dispatch}
use m4_trio.Syscall.Range.{InRegion, user_check_range_iff, Copied, copy_from_user-Copied}
use m4_trio.Syscall.Serve.{MayEmit, replaced, dispatch_confined}

abbrev user : Region
user = record { base = 0x1000; limit = 0x3000 }

abbrev sixteen : ℕ
sixteen = 16

user_check_range_iff_example :
    (user_check_range user 0x2ff0 0x10 ≡ true)
    ↔ ((sixteen ≡ 0) ⊎ ((user.base ≢ 0) × InRegion user 0x2ff0 0x10))
user_check_range_iff_example =
    user_check_range_iff user 0x2ff0 0x10 (omega arith) (omega arith) (omega arith)

abbrev page : Bytes
page k = k

copy_from_user-Copied_example :
    Copied user page 0x1800 0x20 page (copy_from_user user (some page) 0x1800 0x20 page)
copy_from_user-Copied_example =
    copy_from_user-Copied user page 0x1800 0x20 page (omega arith) (omega arith) (omega arith)

-- The state is the number of bytes that were put out.
abbrev counting : ℕ → ℕ → ℕ → ℕ × ℕ
counting ptr len s = (len, s + len)

abbrev guarded : ℕ → ℕ → ℕ → ℕ × ℕ
guarded ptr len s = if ltb 4096 len then (0, 0) else (len, s + len)

abbrev handlers : Handlers ℕ
handlers = record {
  get_ticks = none;
  yield_current = none;
  exit_current = none;
  write_serial = counting;
}

agree : (ptr len s : ℕ) → MayEmit user ptr len → counting ptr len s ≡ guarded ptr len s
agree ptr len s v = rw (le→ltb 4096 len v.short) refl

dispatch_confined_example :
    dispatch handlers user 2 0x1800 0x20 7
    ≡ dispatch (replaced handlers user guarded) user 2 0x1800 0x20 7
dispatch_confined_example =
    dispatch_confined handlers user guarded 2 0x1800 0x20 7 (omega arith) (omega arith) agree
