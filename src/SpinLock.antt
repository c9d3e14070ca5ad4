-- ===== src/SpinLock.antt =====
-- `atomic_spin_lock`, granary/spin_lock.h: `acquire`, `try_acquire` and `release` as the atomic
-- accesses that they make of `is_locked`, one access at a time.
pub mod Steps
pub mod Exclusion
pub mod Entry
mod Tests
use granary.Common.{ℕ, Bool, true, false, if◌then◌else◌}

-- The access that a processor makes next.
pub data Pc : Type 0 where
  outside acquire_load acquire_exchange try_load try_exchange inside : Pc

-- One access, and the lock behind it. A processor that is inside releases the lock; one that is
-- outside makes no access until it calls `acquire` or `try_acquire`.
unfoldable pub act : Pc → Bool → Pc × Bool
act outside is_locked = (outside, is_locked)
act acquire_load is_locked = (if is_locked then acquire_load else acquire_exchange, is_locked)
act acquire_exchange is_locked = (if is_locked then acquire_load else inside, true)
act try_load is_locked = (if is_locked then outside else try_exchange, is_locked)
act try_exchange is_locked = (if is_locked then outside else inside, true)
act inside is_locked = (outside, false)
