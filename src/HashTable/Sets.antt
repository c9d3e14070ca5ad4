-- ===== src/HashTable/Sets.antt =====
-- `hash_set` of granary/hash_table.h, a table from keys to Booleans (0 and 1); and `load`.
use granary.Common.{
  ℕ, ◌≤◌, ◌≡◌, ◌≢◌, refl, Bool, true, false, not, Option, none, some, arith, ◌==◌, if◌then◌else◌,
  ◌>>=◌, ==-true,
}
use granary.HashTable.{HashTable, find, load, store}
use granary.HashTable.Laws.{store-find}
use granary.HashTable.Store.{view}
use granary.HashTable.Valid.{IsTable}
use granary.Probe.Slots.{kept}

module _ (hash : ℕ → ℕ) where
  -- `table.store(key, true)`, by the default policy of overwriting.
  unfoldable pub add : HashTable → ℕ → Option HashTable
  add t key = store hash t key 1 true >>= λ r. some r.1

  unfoldable pub remove : HashTable → ℕ → Option HashTable
  remove t key = store hash t key 0 true >>= λ r. some r.1

  unfoldable pub contains : HashTable → ℕ → Option Bool
  contains t key = find hash t key >>= λ v. some (not (v == 0))

  kept-update : (v : ℕ) (o : Option ℕ) → kept true v o ≡ v
  kept-update v none = refl
  kept-update v (some x) = refl

  module _ (s : ℕ) (t : HashTable) (k : ℕ) (valid : IsTable hash s t) (small : s ≤ 29)
      (key : k ≢ 0) where
    -- In a valid set of at most 2 ^ 29 slots, and for a key that is not the default one: `add` and
    -- `remove` return, an added key is in the set, a removed one is not, and neither call changes
    -- whether any other key is in it.
    pub contains-add-remove :
        (a b : HashTable) × (add t k ≡ some a)
        × (remove t k ≡ some b)
        × ((q : ℕ) → q ≢ 0 → contains a q ≡ (if q == k then some true else contains t q))
        × ((q : ℕ) → q ≢ 0 → contains b q ≡ (if q == k then some false else contains t q))
    unfolding add remove contains
    contains-add-remove =
        let a = store-find hash s t k 1 true valid small key in
        let b = store-find hash s t k 0 true valid small key in
        (
          (a.0).1,
          (b.0).1,
          rw a.1,
          rw b.1,
          λ q q0. rw (a.2 q q0, kept-update 1 (view hash s t k)) (ground arith),
          λ q q0. rw (b.2 q q0, kept-update 0 (view hash s t k)) (ground arith),
        )

    -- On a valid table of at most 2 ^ 29 slots, `load` after an overwriting `store` of a value
    -- other than `V()`, under a key that is not the default one, finds that value.
    pub load-store :
        (v : ℕ)
        → v ≢ 0
        → (r : Bool × HashTable) × (store hash t k v true ≡ some r)
          × (load hash r.1 k ≡ some (true, v))
    unfolding load
    load-store v v0 =
        let a = store-find hash s t k v true valid small key in
        (a.0, a.1, rw (a.2 k key, ==-true k k refl, kept-update v (view hash s t k)) (ground arith))
