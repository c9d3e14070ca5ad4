-- ===== src/SpinLock/Steps.antt =====
-- Any number of processors that use one spin lock (granary/spin_lock.h).
use granary.Common.{update, ℕ, ◌≡◌, Bool, false}
use granary.SpinLock.{Pc, outside, acquire_load, try_load, act}

pub record System : Type 0 where
  pub is_locked : Bool
  pub pc : ℕ → Pc

pub data Step (s : System) : System → Type 0 where
  calls_acquire : (i : ℕ) → s.pc i ≡ outside → Step s (record s { pc = update s.pc i acquire_load })
  calls_try : (i : ℕ) → s.pc i ≡ outside → Step s (record s { pc = update s.pc i try_load })
  acts :
      (i : ℕ)
      → Step s (record {
        is_locked = (act (s.pc i) s.is_locked).1;
        pc = update s.pc i (act (s.pc i) s.is_locked).0;
      })

abbrev pub unlocked : System
unlocked = record { is_locked = false; pc = λ i. outside }

pub data Steps (s : System) : System → Type 0 where
  stays : Steps s s
  goes : {t u : System} → Steps s t → Step t u → Steps s u
