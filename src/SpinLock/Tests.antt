-- ===== src/SpinLock/Tests.antt =====
-- Two processors at one spin lock (granary/spin_lock.h).
use granary.Common.{ℕ, false, ◌≤◌, ◌≡◌, ◌⊎◌, refl}
use granary.SpinLock.Exclusion.{inside_alone}
use granary.SpinLock.Entry.{IsWaiting, accessed, accesses, acquire_enters}
use granary.SpinLock.Steps.{
  System, Step, calls_acquire, calls_try, acts, unlocked, Steps, stays, goes,
}
use granary.SpinLock.{inside, act}

-- The second one comes in by `try_acquire` between the load and the exchange of the first.
abbrev overtaken : (s : System) × Steps unlocked s
overtaken =
    let a = goes stays (calls_acquire 1 refl) in
    let b = goes a (acts 1) in
    let c = goes b (calls_try 2 refl) in
    let d = goes c (acts 2) in let e = goes d (acts 2) in (_, goes e (acts 1))

inside_alone_example : ◌≡◌ {A = ℕ} 2 2
unfolding act
inside_alone_example = inside_alone overtaken.0 2 2 overtaken.1 refl refl

acquire_enters_example :
    ((((overtaken.0).is_locked ≡ false)
        × (n : ℕ) × (n ≤ 2)
        × ((accesses n 1 overtaken.0).pc 1 ≡ inside))
      ⊎ ((h : ℕ) × ((overtaken.0).pc h ≡ inside)
          × (n : ℕ) × (n ≤ 2)
          × ((accesses n 1 (accessed h overtaken.0)).pc 1 ≡ inside)))
    × ((u : System) → Step overtaken.0 u → IsWaiting (u.pc 1) ⊎ (u.pc 1 ≡ inside))
unfolding act
acquire_enters_example = acquire_enters overtaken.0 1 overtaken.1 tt
