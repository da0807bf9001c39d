-- ===== src/Lock.antt =====
-- The spin lock of core/kernel/cpu/spinlock.c. A compare-and-swap is one step, as the processor does it;
-- the fences order other accesses and are not modelled.
pub mod Exclusion
mod Tests
use kernix_os.Base.{ℕ, Bool, true, false, not, ◌≡◌, ◌==◌, if◌then◌else◌}

pub record Spinlock : Type 0 where
  pub locked : ℕ

pub spinlock_init : Spinlock
spinlock_init = record { locked = 0 }

-- `__sync_bool_compare_and_swap(&lock->locked, 0, 1)`, and with it `spinlock_try_acquire` and one round
-- of `spinlock_acquire`
pub spinlock_try_acquire : Spinlock → Bool × Spinlock
spinlock_try_acquire lock =
    if lock.locked == 0 then (true, record { locked = 1 }) else (false, lock)

pub spinlock_release : Spinlock → Spinlock
spinlock_release lock = record { locked = 0 }

pub spinlock_is_locked : Spinlock → Bool
spinlock_is_locked lock = not (lock.locked == 0)

-- The lock, and which processors are between `spinlock_acquire` and `spinlock_release`
pub record Machine : Type 0 where
  pub lock : Spinlock
  pub inside : ℕ → Bool

pub enter : ℕ → Bool × Spinlock → Machine → Machine
enter cpu (true, lock) m = record {
  lock = lock;
  inside = λ i. if i == cpu then true else m.inside i;
}
enter cpu (false, lock) m = record m { lock = lock }

-- A round of the loop of `spinlock_acquire` on a processor that waits, or a release by one that is inside
pub data Step : Machine → Machine → Type 0 where
  tries :
      (cpu : ℕ) (m : Machine)
      → m.inside cpu ≡ false
      → Step m (enter cpu (spinlock_try_acquire m.lock) m)
  leaves :
      (cpu : ℕ) (m : Machine)
      → m.inside cpu ≡ true
      → Step m (record {
        lock = spinlock_release m.lock;
        inside = λ i. if i == cpu then false else m.inside i;
      })

-- The states that processors reach from a new lock
pub data Reachable : Machine → Type 0 where
  start : Reachable (record { lock = spinlock_init; inside = λ i. false })
  next : (m n : Machine) → Reachable m → Step m n → Reachable n
