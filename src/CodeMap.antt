-- ===== src/CodeMap.antt =====
-- What the users of a hash table (granary/hash_table.h) see of it: an interface with the calls `load`
-- and `store`, and the partial map that they read and write.
pub mod Table
use granary.Common.{ℕ, suc, ◌≡◌, ◌≢◌, Bool, not, Option, some, ◌==◌, if◌then◌else◌}
use granary.HashTable.Store.{written}
use granary.HashTable.Valid.{or_default}
use granary.Probe.Slots.{kept}

-- The calls, and their laws. `Fits n` says that the table is valid and has room for `n` more
-- stores.
pub record CodeMap (T : Type 0) : Type 1 where
  pub load : T → ℕ → Option (Bool × ℕ)
  pub store : T → ℕ → ℕ → Bool → Option (Bool × T)
  pub view : T → ℕ → Option ℕ
  pub Fits : ℕ → T → Type 0
  pub fewer : (n : ℕ) (t : T) → Fits (suc n) t → Fits n t
  pub load_view :
      (n : ℕ) (t : T) (k : ℕ)
      → Fits n t
      → k ≢ 0
      → load t k ≡ some (not (0 == or_default (view t k)), or_default (view t k))
  pub store_view :
      (n : ℕ) (t : T) (k v : ℕ) (update : Bool)
      → Fits (suc n) t
      → k ≢ 0
      → (t' : T) × (store t k v update ≡ some (written update (view t k), t'))
        × Fits n t'
        × ((q : ℕ)
            → q ≢ 0
            → view t' q ≡ (if q == k then some (kept update v (view t k)) else view t q))
