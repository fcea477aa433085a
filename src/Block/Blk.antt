-- ===== src/Block/Blk.antt =====
-- kernel/block/blk.c: the registry of devices, and access to a device behind a check of the range.
use m4_trio.Base.{
  ℕ, ◌+◌, ◌-◌, Bool, true, false, ◌||◌, Option, none, some, List, get_or, set, leb, ltb, ◌==◌,
  if◌then◌else◌,
}
use m4_trio.Block.{Status, ok, einval, erange, efull, World, ramblk_rw}

-- `g_blk_devices` and `g_blk_count`.
pub record Registry : Type 0 where
  pub devices : List ℕ
  pub count : ℕ

unfoldable pub max_devices : ℕ
max_devices = 8

pub registry_reset : Registry → Registry
registry_reset r = record r { count = 0 }

unfoldable pub register : Registry → ℕ → Status × Registry
register r dev =
    if leb max_devices r.count
    then (efull, r)
    else (ok, record { devices = set r.devices r.count dev; count = r.count + 1 })

unfoldable pub get : Registry → ℕ → ℕ
get r index = if leb r.count index then 0 else get_or r.devices index 0

unfoldable pub is_null {ℓ} : {A : Type ℓ} → Option A → Bool
is_null none = true
is_null (some a) = false

unfoldable pub validate_range : World → ℕ → ℕ → ℕ → Option (List ℕ) → Status
validate_range w dev lba count buffer =
    if (dev == 0) || is_null buffer || (count == 0) || is_null (w dev).ops
    then einval
    else if leb (w dev).block_count lba || ltb ((w dev).block_count - lba) count
    then erange
    else ok

-- The call through `dev->ops`, after the range was found good.
unfoldable pub dispatch :
    Status → World → ℕ → ℕ → ℕ → Option (List ℕ) → Bool → Status × World × Option (List ℕ)
dispatch ok w dev lba count buffer is_write = ramblk_rw w dev lba count buffer is_write
dispatch st w dev lba count buffer is_write = (st, w, buffer)

unfoldable pub blk_read : World → ℕ → ℕ → ℕ → Option (List ℕ) → Status × World × Option (List ℕ)
blk_read w dev lba count buffer =
    dispatch (validate_range w dev lba count buffer) w dev lba count buffer false

unfoldable pub blk_write : World → ℕ → ℕ → ℕ → Option (List ℕ) → Status × World × Option (List ℕ)
blk_write w dev lba count buffer =
    dispatch (validate_range w dev lba count buffer) w dev lba count buffer true

-- The RAM disk's own flush does nothing and succeeds.
pub blk_flush : World → ℕ → Status
blk_flush w dev = if (dev == 0) || is_null (w dev).ops then einval else ok
