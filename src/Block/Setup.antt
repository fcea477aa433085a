-- ===== src/Block/Setup.antt =====
-- kernel/block/ramblk.c and kernel/block/blk.c: setting up a RAM disk, and registering it.
use m4_trio.Base.{
  ℕ, ◌+◌, ◌*◌, ◌/◌, ◌%◌, ◌≤◌, ◌<◌, ◌≡◌, refl, sym, ◌∙◌, true, List, length, set, length-set,
  get_or-set_self, get_or-set_ne, lt→leb, some, u64_mod, arith,
}
use m4_trio.Block.{
  Status, ok, efull, Device, ramblk_init, ramblk_ops, copy_name, is_power_of_two_u32,
}
use m4_trio.Block.Blk.{Registry, max_devices, register, get}
use m4_trio.Block.Disk.{IsDisk}
use native.Mathlib.Decide.{dec_lt}
use native.Mathlib.Nat.{div-add-mod'}

-- The arguments that `ramblk_init` takes.
pub record Suits (size storage_size : ℕ) : Type 0 where
  pub sector : 512 ≤ size
  pub power : is_power_of_two_u32 size ≡ true
  pub room : size ≤ storage_size
  pub whole : storage_size % size ≡ 0

-- What an accepted initialization leaves.
pub record Fresh (size : ℕ) (storage : List ℕ) (r : Status × Device) : Type 0 where
  pub suits : Suits size (length storage)
  pub disk : IsDisk r.1
  pub block_size : r.1.block_size ≡ size
  pub tiled : r.1.block_count * size ≡ length storage

suited :
    (d : Device) (name storage : List ℕ) (size : ℕ)
    → (ramblk_init d name storage (length storage) size).0 ≡ ok
    → Suits size (length storage)
unfolding ramblk_init
suited d name storage size good = record {
  sector = ground arith;
  power = ground arith;
  room = ground arith;
  whole = ground arith;
}

tiles : (a b : ℕ) → a % b ≡ 0 → a / b * b ≡ a
tiles a b e = omega (arith, div-add-mod' a b)

ramblk_init-ok :
    (d : Device) (name storage : List ℕ) (size : ℕ)
    → Suits size (length storage)
    → ramblk_init d name storage (length storage) size ≡ (
      ok,
      record {
        name = copy_name 15 d.name 0 name;
        block_size = size;
        block_count = length storage / size;
        flags = 0;
        ops = some ramblk_ops;
        driver_data = some (record { storage = storage; storage_size = length storage });
      },
    )
unfolding ramblk_init
ramblk_init-ok d name storage size s = ground (arith, s.sector, s.power, s.room, s.whole)

-- An initialization that answers ok was given a power of two of at least 512 as block size, and a
-- storage of at least one block and of whole blocks only; the device that it leaves is a RAM disk
-- whose blocks tile the storage, when the storage is shorter than 2^64.
pub ramblk_init-Fresh :
    (d : Device) (name storage : List ℕ) (size : ℕ)
    → length storage < u64_mod
    → (ramblk_init d name storage (length storage) size).0 ≡ ok
    → Fresh size storage (ramblk_init d name storage (length storage) size)
ramblk_init-Fresh d name storage size small good =
    let s = suited d name storage size good in
    let whole = tiles (length storage) size s.whole in
    rw (ramblk_init-ok d name storage size s) (record {
      suits = s;
      disk = record {
        driver = refl;
        medium = refl;
        tiled = sym whole;
        stored = refl;
        small = small;
      };
      block_size = refl;
      tiled = whole;
    })

-- The array has a place for each device, and the count stays in it.
pub record IsRegistry (r : Registry) : Type 0 where
  pub places : length r.devices ≡ 8
  pub bound : r.count ≤ 8

-- What registering a device answers and leaves.
pub record Registered (r : Registry) (dev : ℕ) (out : Status × Registry) : Type 0 where
  pub valid : IsRegistry out.1
  pub full : r.count ≡ 8 → out ≡ (efull, r)
  pub answer : r.count < 8 → out.0 ≡ ok
  pub grown : r.count < 8 → out.1.count ≡ r.count + 1
  pub found : r.count < 8 → get out.1 r.count ≡ dev
  pub kept : (i : ℕ) → i < r.count → get out.1 i ≡ get r i

register_full : (r : Registry) (dev : ℕ) → r.count ≡ 8 → register r dev ≡ (efull, r)
unfolding register max_devices
register_full r dev e = ground arith

register_open :
    (r : Registry) (dev : ℕ)
    → r.count < 8
    → register r dev ≡ (ok, record { devices = set r.devices r.count dev; count = r.count + 1 })
unfolding register max_devices
register_open r dev lt = ground arith

register_full-Registered :
    {r : Registry} (dev : ℕ) → IsRegistry r → r.count ≡ 8 → Registered r dev (register r dev)
register_full-Registered {r} dev v e = rw (register_full r dev e) (record {
  valid = v;
  full = λ same. refl;
  answer = λ lt. absurd (omega arith);
  grown = λ lt. absurd (omega arith);
  found = λ lt. absurd (omega arith);
  kept = λ i lt. refl;
})

-- Registering a device in a table of eight places: a full table answers so and stays as it is; or
-- else the device is found at the index that was the count, the count goes up by one, and each
-- device that was registered before keeps its index. The count never leaves the table.
pub register-Registered :
    {r : Registry} (dev : ℕ) → IsRegistry r → Registered r dev (register r dev)
unfolding get
register-Registered {r} dev v = elim (dec_lt r.count 8) [
  | no full ↦ register_full-Registered dev v (ground (arith, v.bound))
  | yes lt ↦ rw (register_open r dev lt) (record {
    valid = record { places = length-set r.devices r.count dev ∙ v.places; bound = omega arith };
    full = λ e. absurd (omega arith);
    answer = λ _. refl;
    grown = λ _. refl;
    found = λ _.
        rw (lt→leb (r.count + 1) r.count (omega arith))
          (get_or-set_self r.devices r.count dev 0 (omega (arith, v.places)));
    kept = λ i i_lt.
        rw (lt→leb (r.count + 1) i (omega arith)) (
          rw (lt→leb r.count i i_lt) (get_or-set_ne r.devices r.count i dev 0 (λ e. ground arith)));
  })
]
