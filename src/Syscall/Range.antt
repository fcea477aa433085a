-- ===== src/Syscall/Range.antt =====
-- kernel/syscall/syscall.c: what the check of a user range accepts, and the copy behind it.
use m4_trio.Base.{
  ℕ, zero, suc, ◌+◌, ◌≤◌, ◌<◌, ◌≡◌, ◌≢◌, ◌⊎◌, ◌↔◌, inl, inr, refl, ◌∙◌, Bool, true, false, Option,
  some, Bool-cases, ==_self, ne→==, u64_mod, arith,
}
use m4_trio.Syscall.{
  Answer, value, failed, einval, efault, Region, Bytes, user_check_range, copy, copy_from_user,
}
use native.Mathlib.Decide.{ℕ_discrete}

-- The bytes from `addr` on lie in the region.
pub record InRegion (r : Region) (addr len : ℕ) : Type 0 where
  pub low : r.base ≤ addr
  pub high : addr + len ≤ r.limit

-- For words: the check accepts exactly the empty ranges and, when the region does not start at 0,
-- the ranges that lie in the region without reaching around the end of the address space. For a
-- region that starts at 0 it accepts the empty ranges alone.
pub user_check_range_iff :
    (r : Region) (addr len : ℕ)
    → r.limit < u64_mod
    → addr < u64_mod
    → len < u64_mod
    → (user_check_range r addr len ≡ true) ↔ ((len ≡ 0) ⊎ ((r.base ≢ 0) × InRegion r addr len))
unfolding user_check_range
user_check_range_iff r addr len limit_word addr_word len_word = elim (ℕ_discrete len 0) [
  | yes z ↦ ((λ e. inl z), λ h. rw (user_check_range, z) refl)
  | no some_byte ↦ (
    (λ e. inr (
      ground (arith, e, some_byte),
      record { low = ground (arith, e, some_byte); high = ground (arith, e, some_byte) },
    )),
    (λ h. elim h [
      | inl z ↦ absurd (some_byte z)
      | inr (base, v) ↦
          let low = v.low in let high = v.high in ground (arith, base, low, high, some_byte)
    ]),
  )
]

copy_outside :
    (left i : ℕ) (dst : Bytes) (src : ℕ) (mem : Bytes) (k : ℕ)
    → (k < i) ⊎ (i + left ≤ k)
    → copy left i dst src mem k ≡ dst k
unfolding copy
copy_outside zero i dst src mem k out = refl
copy_outside (suc left) i dst src mem k out =
    let ne : k ≢ i = λ e. ground (arith, e, out) in
    copy_outside left (i + 1) _ src mem k (ground arith) ∙ rw (ne→== k i ne) refl

copy_inside :
    (left i : ℕ) (dst : Bytes) (src : ℕ) (mem : Bytes) (k : ℕ)
    → i ≤ k
    → k < i + left
    → copy left i dst src mem k ≡ mem (src + k)
unfolding copy
copy_inside zero i dst src mem k low high = absurd (omega arith)
copy_inside (suc left) i dst src mem k low high = elim (ℕ_discrete k i) [
  | no ne ↦ copy_inside left (i + 1) _ src mem k (omega arith) (omega arith)
  | yes e ↦ copy_outside left (i + 1) _ src mem k (inl (omega arith)) ∙ rw e (rw (==_self i) refl)
]

-- What a copy from user memory answers.
pub data Copied (r : Region) (dst : Bytes) (src len : ℕ) (mem : Bytes) (out : Answer × Option Bytes)
    : Type 0 where
  nothing : len ≡ 0 → out ≡ (value 0, some dst) → Copied r dst src len mem out
  null : len ≢ 0 → src ≡ 0 → out ≡ (failed einval, some dst) → Copied r dst src len mem out
  fault :
      len ≢ 0
      → src ≢ 0
      → ¬ ((r.base ≢ 0) × InRegion r src len)
      → out ≡ (failed efault, some dst)
      → Copied r dst src len mem out
  copied :
      (dst' : Bytes)
      → len ≢ 0
      → src ≢ 0
      → r.base ≢ 0
      → InRegion r src len
      → out ≡ (value 0, some dst')
      → ((k : ℕ) → k < len → dst' k ≡ mem (src + k))
      → ((k : ℕ) → len ≤ k → dst' k ≡ dst k)
      → Copied r dst src len mem out

-- For words: a copy from user memory into a buffer answers 0 for no bytes, and for some bytes EINVAL
-- when the address is 0, and EFAULT when it is not but the range is not in the region or the region
-- starts at 0, and leaves the buffer alone in these cases; and else it answers 0, and the buffer has
-- the bytes of the range, and behind them what it had.
pub copy_from_user-Copied :
    (r : Region) (dst : Bytes) (src len : ℕ) (mem : Bytes)
    → r.limit < u64_mod
    → src < u64_mod
    → len < u64_mod
    → Copied r dst src len mem (copy_from_user r (some dst) src len mem)
unfolding copy_from_user
copy_from_user-Copied r dst src len mem limit_word src_word len_word = elim (ℕ_discrete len 0) [
  | yes z ↦ nothing z (rw (copy_from_user, z) refl)
  | no some_byte ↦
      let test = user_check_range_iff r src len limit_word src_word len_word in
      elim (ℕ_discrete src 0) [
        | yes z ↦ null some_byte z (rw (copy_from_user, ne→== len 0 some_byte) (rw z refl))
        | no real ↦ elim (Bool-cases (user_check_range r src len)) [
          | inr e ↦
              fault some_byte real (λ v. differ e (test.1 (inr v)))
                (rw (copy_from_user, ne→== len 0 some_byte) (rw (ne→== src 0 real) (rw e refl)))
          | inl e ↦
              let (base, v) = in_region some_byte (test.0 e) in
              copied (copy len 0 dst src mem) some_byte real base v
                (rw (copy_from_user, ne→== len 0 some_byte) (rw (ne→== src 0 real) (rw e refl)))
                (λ k lt. copy_inside len 0 dst src mem k (omega arith) (omega arith))
                (λ k ge. copy_outside len 0 dst src mem k (inr (omega arith)))
        ]
      ]
]
  where
    differ : {b : Bool} → b ≡ false → b ≢ true
    differ f t = ground (arith, f, t)

    in_region :
        len ≢ 0
        → (len ≡ 0) ⊎ ((r.base ≢ 0) × InRegion r src len)
        → (r.base ≢ 0) × InRegion r src len
    in_region some_byte (inl z) = absurd (some_byte z)
    in_region some_byte (inr v) = v
