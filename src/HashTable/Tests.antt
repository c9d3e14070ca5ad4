-- ===== src/HashTable/Tests.antt =====
-- Runs of the hash table, and its theorems at a small table, with the identity for the hash.
use granary.Common.{
  ℕ, ◌≡◌, ◌≢◌, refl, Bool, true, false, Option, some, List, [], ◌∷◌, arith, ◌==◌, if◌then◌else◌,
  ◌>>=◌,
}
use granary.HashTable.Entries.{at_most_one, for_each_entry_lem, values_for}
use granary.HashTable.Laws.{store-Stores, store-find}
use granary.HashTable.Store.{Stores, view, written}
use granary.HashTable.Valid.{new_table-IsTable}
use granary.HashTable.{
  HashTable, new_table, max_size, insert, store_entry, store, find, for_each_entry,
}
use granary.Probe.{insert_into, walk, place}
use granary.Probe.Slots.{kept}

abbrev hash : ℕ → ℕ
hash k = k

stores : List (ℕ × ℕ × Bool) → HashTable → Option HashTable
unfolding store new_table find for_each_entry max_size store_entry insert insert_into walk place
stores [] t = some t
stores ((k, v, update) ∷ calls) t = store hash t k v update >>= λ r. stores calls r.1

abbrev two_calls : List (ℕ × ℕ × Bool)
two_calls = (21, 9, true) ∷ (5, 7, true) ∷ []

-- Two keys that collide.
two_stored : (stores two_calls new_table >>= λ t. find hash t 5) ≡ some 7
unfolding stores
two_stored = refl

kept_stored : (stores ((5, 7, true) ∷ (5, 9, false) ∷ []) new_table >>= λ t. find hash t 5) ≡ some 7
unfolding stores
kept_stored = refl

-- The traversal meets them in the order of their slots.
traversal :
    (stores two_calls new_table >>= λ t. some (for_each_entry t.entries))
    ≡ some ((21, 9) ∷ (5, 7) ∷ [])
unfolding stores
traversal = refl

store-Stores_example :
    (t' : HashTable) × (s' : ℕ) × (store hash new_table 5 7 true
      ≡ some (written true (view hash 4 new_table 5), t'))
    × Stores hash 2 4 new_table 5 7 true s' t'
store-Stores_example =
    store-Stores hash 4 new_table 5 7 true (new_table-IsTable hash) (omega arith) (omega arith)

store-find_example :
    (r : Bool × HashTable) × (store hash new_table 5 7 true ≡ some r)
    × ((q : ℕ)
        → q ≢ 0
        → find hash r.1 q ≡ (
            if q == 5 then some (kept true 7 (view hash 4 new_table 5)) else find hash new_table q))
store-find_example =
    store-find hash 4 new_table 5 7 true (new_table-IsTable hash) (omega arith) (omega arith)

for_each_entry_lem_example :
    values_for 3 (for_each_entry new_table.entries) ≡ at_most_one (view hash 4 new_table 3)
for_each_entry_lem_example =
    for_each_entry_lem hash 4 new_table (new_table-IsTable hash) 3 (omega arith)
