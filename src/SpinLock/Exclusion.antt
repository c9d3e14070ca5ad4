-- ===== src/SpinLock/Exclusion.antt =====
-- At most one processor is inside of the lock (granary/spin_lock.h).
use granary.Common.{update, update_one, ℕ, ◌≡◌, refl, sym, ◌∙◌, Bool, true, false, if◌then◌else◌}
use granary.SpinLock.Steps.{
  System, Step, calls_acquire, calls_try, acts, unlocked, Steps, stays, goes,
}
use granary.SpinLock.{
  Pc, outside, acquire_load, acquire_exchange, try_load, try_exchange, inside, act,
}
use mathlib.Core.Path.{subst}

abbrev pub IsInside : Pc → Type 0
IsInside inside = Unit {0}
IsInside _ = ⊥

-- The lock is free and nobody is inside, or it is taken and one processor is.
pub data IsLock (s : System) : Type 0 where
  free : s.is_locked ≡ false → ((i : ℕ) → IsInside (s.pc i) → ⊥) → IsLock s
  taken :
      (h : ℕ)
      → s.is_locked ≡ true
      → IsInside (s.pc h)
      → ((i : ℕ) → IsInside (s.pc i) → i ≡ h)
      → IsLock s

-- A processor that was not inside, and is not after.
moves-IsLock :
    (s : System) (i : ℕ) (p : Pc)
    → (IsInside (s.pc i) → ⊥)
    → (IsInside p → ⊥)
    → IsLock s
    → IsLock (record s { pc = update s.pc i p })
moves-IsLock s i p before after (free e none) =
    free e (λ j. update_one (λ q. IsInside q → ⊥) s.pc i p j (λ _. after) (λ _. none j))
moves-IsLock s i p before after (taken h e at only) =
    taken h e
      (update_one IsInside s.pc i p h
        (λ same. absurd (before (subst (λ x. IsInside (s.pc x)) same at))) (λ _. at))
      (λ j. update_one (λ q. IsInside q → j ≡ h) s.pc i p j (λ _ x. absurd (after x)) (λ _. only j))

abbrev acted : System → ℕ → Pc → System
acted s i p = record { is_locked = (act p s.is_locked).1; pc = update s.pc i (act p s.is_locked).0 }

-- The exchange of a processor that tried: it is inside where the lock was free.
exchange-IsLock :
    (s : System) (i : ℕ) (p : Pc)
    → (IsInside (s.pc i) → ⊥)
    → (IsInside p → ⊥)
    → IsLock s
    → IsLock (record { is_locked = true; pc = update s.pc i (if s.is_locked then p else inside) })
exchange-IsLock s i p before other (free e none) =
    subst (λ b. IsLock (record { is_locked = true; pc = update s.pc i (if b then p else inside) }))
      (sym e)
      (taken i refl (update_one IsInside s.pc i inside i (λ _. tt) (λ ne. absurd (ne refl))) (λ j.
        update_one (λ q. IsInside q → j ≡ i) s.pc i inside j (λ same _. same)
          (λ _ at. absurd (none j at))))
exchange-IsLock s i p before other (taken h e at only) =
    subst (λ b. IsLock (record { is_locked = true; pc = update s.pc i (if b then p else inside) }))
      (sym e)
      (moves-IsLock (record { is_locked = true; pc = s.pc }) i p before other
        (taken h refl at only))

-- A release: nobody is left inside.
release-IsLock :
    (s : System) (i : ℕ)
    → IsInside (s.pc i)
    → IsLock s
    → IsLock (record { is_locked = false; pc = update s.pc i outside })
release-IsLock s i at (free e none) = absurd (none i at)
release-IsLock s i at (taken h e held only) = free refl (λ j.
    update_one (λ q. IsInside q → ⊥) s.pc i outside j (λ _ x. x)
      (λ ne at'. ne (only j at' ∙ sym (only i at))))

load_outside :
    (b : Bool) (p q : Pc) → (IsInside p → ⊥) → (IsInside q → ⊥) → IsInside (if b then p else q) → ⊥
load_outside true p q a b = a
load_outside false p q a b = b

acts-IsLock : (s : System) (i : ℕ) (p : Pc) → s.pc i ≡ p → IsLock s → IsLock (acted s i p)
unfolding act
acts-IsLock s i outside e v = moves-IsLock s i outside (subst IsInside e) (λ x. x) v
acts-IsLock s i acquire_load e v =
    moves-IsLock s i _ (subst IsInside e) (load_outside s.is_locked _ _ (λ x. x) (λ x. x)) v
acts-IsLock s i acquire_exchange e v =
    exchange-IsLock s i acquire_load (subst IsInside e) (λ x. x) v
acts-IsLock s i try_load e v =
    moves-IsLock s i _ (subst IsInside e) (load_outside s.is_locked _ _ (λ x. x) (λ x. x)) v
acts-IsLock s i try_exchange e v = exchange-IsLock s i outside (subst IsInside e) (λ x. x) v
acts-IsLock s i inside e v = release-IsLock s i (subst IsInside (sym e) tt) v

Step-IsLock : (s t : System) → Step s t → IsLock s → IsLock t
Step-IsLock s t (calls_acquire i e) v = moves-IsLock s i acquire_load (subst IsInside e) (λ x. x) v
Step-IsLock s t (calls_try i e) v = moves-IsLock s i try_load (subst IsInside e) (λ x. x) v
Step-IsLock s t (acts i) v = acts-IsLock s i (s.pc i) refl v

pub Steps-IsLock : (s t : System) → Steps s t → IsLock s → IsLock t
Steps-IsLock s t stays v = v
Steps-IsLock s t (goes {t = b} r x) v = Step-IsLock b t x (Steps-IsLock s b r v)

pub unlocked-IsLock : IsLock unlocked
unlocked-IsLock = free refl (λ i x. x)

-- From an unlocked lock, however the accesses of the processors are interleaved, at most one processor
-- is inside at any time, whether it came in by `acquire` or by `try_acquire`.
pub inside_alone :
    (s : System) (i j : ℕ) → Steps unlocked s → s.pc i ≡ inside → s.pc j ≡ inside → i ≡ j
inside_alone s i j r e e' = elim (Steps-IsLock unlocked s r unlocked-IsLock) [
  | free _ none ↦ absurd (none i (subst IsInside (sym e) tt))
  | taken h _ _ only ↦
      only i (subst IsInside (sym e) tt) ∙ sym (only j (subst IsInside (sym e') tt))
]
