-- ===== src/Sync/Lockdep/Tests.antt =====
-- Two classes taken in order, and the theorems of the lock order checker at that state.
use m4_trio.Base.{ℕ, ◌<◌, ◌≡◌, ◌≢◌, refl, ◌↔◌, replicate}
use m4_trio.Sync.{ok}
use m4_trio.Sync.Lockdep.{Lockdep, max_held, init, found, acquire, release}
use m4_trio.Sync.Lockdep.Order.{
  IsOrdered, Above, class_at, init-IsOrdered, acquire_iff, acquire-IsOrdered,
}

abbrev none_held : Lockdep
none_held = record {
  held_class = replicate max_held 0;
  held_name = replicate max_held 0;
  depth = 0;
  violation_count = 0;
}

none_held-IsOrdered : IsOrdered none_held
unfolding init
none_held-IsOrdered = init-IsOrdered none_held refl

-- Classes 10 and 20 are held.
abbrev two_held : Lockdep
two_held = (acquire (acquire none_held 10 1).1 20 2).1

two_held-IsOrdered : IsOrdered two_held
two_held-IsOrdered = acquire-IsOrdered 20 2 (acquire-IsOrdered 10 1 none_held-IsOrdered)

classes_held : (class_at two_held 0 ≡ 10) × (class_at two_held 1 ≡ 20) × (two_held.depth ≡ 2)
unfolding acquire found
classes_held = (refl, refl, refl)

takes_30 : (acquire two_held 30 3).0 ≡ ok
unfolding acquire found
takes_30 = refl

refuses_15 : (acquire two_held 15 3).0 ≢ ok
unfolding acquire found
refuses_15 = λ e. cc

drops_20 : (release two_held 20).0 ≡ ok
unfolding acquire found release
drops_20 = refl

acquire_iff_example :
    ((acquire two_held 30 3).0 ≡ ok)
    ↔ (◌≢◌ {A = ℕ} 30 0 × (two_held.depth < max_held) × Above two_held 30)
acquire_iff_example = acquire_iff 30 3 two_held-IsOrdered
