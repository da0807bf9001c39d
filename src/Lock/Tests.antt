-- ===== src/Lock/Tests.antt =====
-- A lock that the processor 3 takes.
use kernix_os.Base.{ℕ, ◌≡◌, refl, true, false}
use kernix_os.Lock.{spinlock_init, spinlock_try_acquire, Machine, enter, tries, start, next}
use kernix_os.Lock.Exclusion.{Reachable-one_inside}

abbrev at_start : Machine
at_start = record { lock = spinlock_init; inside = λ i. false }

abbrev taken : Machine
taken = enter 3 (spinlock_try_acquire spinlock_init) at_start

three_inside : taken.inside 3 ≡ true
unfolding enter spinlock_try_acquire spinlock_init
three_inside = refl

Reachable-one_inside_example : ◌≡◌ {A = ℕ} 3 3
Reachable-one_inside_example =
    Reachable-one_inside taken 3 3 (next at_start taken start (tries 3 at_start refl)) three_inside
      three_inside
