-- ===== src/SpinLock/Entry.antt =====
-- Whoever waits for the lock can get in (granary/spin_lock.h).
use granary.Common.{
  update, update_one, update_at, update_off, ℕ, zero, suc, ◌≤◌, ◌≡◌, ◌≢◌, arith, ◌⊎◌, inl, inr,
  refl, ap, ◌∙◌, Bool, true, false,
}
use granary.SpinLock.Exclusion.{IsInside, free, taken, Steps-IsLock, unlocked-IsLock}
use granary.SpinLock.Steps.{System, Step, calls_acquire, calls_try, acts, unlocked, Steps}
use granary.SpinLock.{
  Pc, outside, acquire_load, acquire_exchange, try_load, try_exchange, inside, act,
}
use mathlib.Core.Path.{subst}

-- Between the two accesses of a round of `acquire`, or before the first.
abbrev pub IsWaiting : Pc → Type 0
IsWaiting acquire_load = Unit {0}
IsWaiting acquire_exchange = Unit {0}
IsWaiting _ = ⊥

-- The system behind the next access of a processor.
abbrev pub accessed : ℕ → System → System
accessed i s = record {
  is_locked = (act (s.pc i) s.is_locked).1;
  pc = update s.pc i (act (s.pc i) s.is_locked).0;
}

-- So many accesses of one processor, nobody else's in between.
abbrev pub accesses : ℕ → ℕ → System → System
accesses zero i s = s
accesses (suc n) i s = accesses n i (accessed i s)

accessed_pc :
    (s : System) (i : ℕ) (p : Pc) (b : Bool)
    → s.pc i ≡ p
    → s.is_locked ≡ b
    → (accessed i s).pc i ≡ (act p b).0
accessed_pc s i p b e e' =
    update_at s.pc i (act (s.pc i) s.is_locked).0
    ∙ ap (λ q. (act q s.is_locked).0) e
    ∙ ap (λ c. (act p c).0) e'

accessed_lock :
    (s : System) (i : ℕ) (p : Pc) (b : Bool)
    → s.pc i ≡ p
    → s.is_locked ≡ b
    → (accessed i s).is_locked ≡ (act p b).1
accessed_lock s i p b e e' = ap (λ q. (act q s.is_locked).1) e ∙ ap (λ c. (act p c).1) e'

-- A lock that is free is at most two accesses away.
pub enters :
    (s : System) (i : ℕ) (p : Pc)
    → s.pc i ≡ p
    → IsWaiting p
    → s.is_locked ≡ false
    → (n : ℕ) × (n ≤ 2) × ((accesses n i s).pc i ≡ inside)
unfolding act
enters s i acquire_load e w open_ = (
  2,
  omega arith,
  accessed_pc (accessed i s) i acquire_exchange false (accessed_pc s i acquire_load false e open_)
      (accessed_lock s i acquire_load false e open_),
)
enters s i acquire_exchange e w open_ =
    (1, omega arith, accessed_pc s i acquire_exchange false e open_)
enters s i outside e w open_ = absurd w
enters s i try_load e w open_ = absurd w
enters s i try_exchange e w open_ = absurd w
enters s i inside e w open_ = absurd w

-- Nobody who waits gives up.
abbrev Persists : Pc → Type 0
Persists p = IsWaiting p ⊎ (p ≡ inside)

persists : (p : Pc) (b : Bool) → IsWaiting p → Persists (act p b).0
unfolding act
persists acquire_load true w = inl tt
persists acquire_load false w = inl tt
persists acquire_exchange true w = inl tt
persists acquire_exchange false w = inr refl
persists outside b w = absurd w
persists try_load b w = absurd w
persists try_exchange b w = absurd w
persists inside b w = absurd w

is_inside : (p : Pc) → IsInside p → p ≡ inside
is_inside inside _ = refl
is_inside outside x = absurd x
is_inside acquire_load x = absurd x
is_inside acquire_exchange x = absurd x
is_inside try_load x = absurd x
is_inside try_exchange x = absurd x

kept-IsWaiting :
    (s u : System) (i : ℕ) → IsWaiting (s.pc i) → Step s u → IsWaiting (u.pc i) ⊎ (u.pc i ≡ inside)
kept-IsWaiting s u i w (calls_acquire j e) =
    update_one Persists s.pc j acquire_load i (λ _. inl tt) (λ _. inl w)
kept-IsWaiting s u i w (calls_try j e) =
    update_one Persists s.pc j try_load i (λ same. absurd (subst IsWaiting (ap s.pc same ∙ e) w))
      (λ _. inl w)
kept-IsWaiting s u i w (acts j) =
    update_one Persists s.pc j (act (s.pc j) s.is_locked).0 i
      (λ same. persists (s.pc j) s.is_locked (subst (λ k. IsWaiting (s.pc k)) same w)) (λ _. inl w)

-- No processor that is inside waits.
apart : (s : System) (h i : ℕ) → IsInside (s.pc h) → IsWaiting (s.pc i) → i ≢ h
apart s h i at w same = subst IsWaiting (ap s.pc same ∙ is_inside (s.pc h) at) w

-- No deadlock: in every state that an unlocked lock can come to, let a processor be in a call of
-- `acquire`, before its load or before its exchange. If the lock is free, or else once the one
-- inside has released it, at most two accesses of the processor, nobody else's in between, bring
-- it inside. And whatever step anybody takes, the processor is still in `acquire`, or inside.
pub acquire_enters :
    (s : System) (i : ℕ)
    → Steps unlocked s
    → IsWaiting (s.pc i)
    → (((s.is_locked ≡ false) × (n : ℕ) × (n ≤ 2) × ((accesses n i s).pc i ≡ inside))
        ⊎ ((h : ℕ) × (s.pc h ≡ inside)
            × (n : ℕ) × (n ≤ 2)
            × ((accesses n i (accessed h s)).pc i ≡ inside)))
      × ((u : System) → Step s u → IsWaiting (u.pc i) ⊎ (u.pc i ≡ inside))
acquire_enters s i r w = (
  elim (Steps-IsLock unlocked s r unlocked-IsLock) [
    | free open_ _ ↦ let r = enters s i (s.pc i) refl w open_ in inl (open_, r.0, r.1, r.2)
    | taken h locked at _ ↦
        let held = is_inside (s.pc h) at in
        let same : (accessed h s).pc i ≡ s.pc i =
          update_off s.pc h (act (s.pc h) s.is_locked).0 i (apart s h i at w) in
        let r =
          enters (accessed h s) i (s.pc i) same w
            (accessed_lock s h inside true held locked ∙ unfold act in refl) in
        inr (h, held, r.0, r.1, r.2)
  ],
  λ u x. kept-IsWaiting s u i w x,
)
