-- ===== src/CpuCodeCache/Tests.antt =====
-- Runs of the CPU-private code cache, and its theorems at small caches. The nine addresses below
-- all have the hash 0 below the mask of a new cache.
use granary.Common.{
  ℕ, zero, suc, ◌+◌, ◌^◌, ◌<◌, ◌≡◌, ◌≢◌, ◌⊎◌, refl, Bool, true, false, Option, none, some, List, [],
  ◌∷◌, arith, ◌==◌, if◌then◌else◌, ◌>>=◌, ◌++◌, replicate,
}
use granary.CpuCodeCache.Find.{IsCache, view, full_walk}
use granary.CpuCodeCache.Laws.{
  cache_store-Stores, store-find_sound, store-find-lost, store_diverges,
}
use granary.CpuCodeCache.Store.{Stores}
use granary.CpuCodeCache.{
  Cache, no_entries, allocated, is_written, store, insert, probe, find, fmix, grow,
}
use granary.HashTable.Valid.{or_default}
use granary.Probe.Slots.{kept, state_of, occupied}
use granary.Probe.Transfer.{replicate-IsPlaced, occupied-replicate}
use granary.Probe.{Entry, empty, key_at, insert_into, walk, place, transfer}

stores : List ℕ → Cache → Option Cache
unfolding store insert probe find fmix insert_into walk place transfer grow
stores [] c = some c
stores (k ∷ ks) c = store c k (k + 1) true >>= λ r. stores ks r.1

abbrev colliding : List ℕ
colliding = 170 ∷ 422 ∷ 568 ∷ 577 ∷ 1221 ∷ 1256 ∷ 1282 ∷ 1337 ∷ []

-- The first eight are found again; the ninth, 1612, is stored and then missed.
eighth_found : (stores colliding no_entries >>= λ t. some (find t 1337)) ≡ some 1338
unfolding stores
eighth_found = refl

ninth_lost : (stores (colliding ++ 1612 ∷ []) no_entries >>= λ t. some (find t 1612)) ≡ some 0
unfolding stores
ninth_lost = refl

-- The tenth makes the cache grow, which brings the ninth back.
tenth_grows :
    (stores (colliding ++ 1612 ∷ 2101 ∷ []) no_entries >>= λ t. some (find t 1612)) ≡ some 1613
unfolding stores
tenth_grows = refl

abbrev entry : ℕ → Entry
entry k = record { key = k; value = k + 1 }

abbrev entries_of : List ℕ → List Entry
entries_of [] = replicate 120 empty
entries_of (k ∷ ks) = entry k ∷ entries_of ks

abbrev eight_taken : Cache
eight_taken = record { bit_mask = 127; entries = entries_of colliding; growing = false }

eight_stored : stores colliding no_entries ≡ some eight_taken
unfolding stores
eight_stored = refl

ninth_walk : full_walk eight_taken 1612 ≡ some (record { index = 8; scan = 8 })
unfolding walk fmix
ninth_walk = refl

first-IsCache : IsCache 7 (allocated no_entries)
first-IsCache = record {
  least = omega arith;
  whole = omega arith;
  placed = replicate-IsPlaced fmix 128;
  idle = refl;
}

first_room : occupied (allocated no_entries).entries < 2 ^ 7
first_room = omega (arith, occupied-replicate fmix 128)

cache_store-Stores_example :
    (t' : Cache) × (s' : ℕ) × (store no_entries 170 171 true
      ≡ some (is_written (state_of true (view 7 (allocated no_entries) 170)), t'))
    × Stores 7 (allocated no_entries) 170 171 true s' t'
cache_store-Stores_example =
    cache_store-Stores 7 no_entries 170 171 true first-IsCache (omega arith) first_room
      (omega arith)

store-find_sound_example :
    (r : Bool × Cache) × (store no_entries 170 171 true ≡ some r)
    × ((q : ℕ)
        → q ≢ 0
        → (find r.1 q ≡ 0)
          ⊎ (find r.1 q
              ≡ or_default (
                  if q == 170
                  then some (kept true 171 (view 7 (allocated no_entries) 170))
                  else view 7 (allocated no_entries) q)))
store-find_sound_example =
    store-find_sound 7 no_entries 170 171 true first-IsCache (omega arith) first_room (omega arith)

store-find-lost_example :
    (t' : Cache) × (store eight_taken 1612 1613 true ≡ some (true, t'))
    × (t'.bit_mask ≡ 127)
    × (find t' 1612 ≡ 0)
store-find-lost_example =
    store-find-lost eight_taken 1612 1613 true (record { index = 8; scan = 8 }) ninth_walk refl refl
      (omega arith) (omega arith)

-- A cache of two entries, both taken.
abbrev full : Cache
full = record { bit_mask = 1; entries = entry 170 ∷ entry 422 ∷ []; growing = false }

full_keys : (i : ℕ) → i < 2 ^ 1 → (key_at full.entries i ≢ 0) × (key_at full.entries i ≢ 568)
full_keys zero lt = (omega arith, omega arith)
full_keys (suc zero) lt = (omega arith, omega arith)
full_keys (suc (suc i)) lt = absurd (omega arith)

store_diverges_example :
    ((rounds : ℕ) → walk rounds 64 full.entries 1 568 (fmix 568) 0 ≡ none)
    × (store full 568 569 true ≡ none)
store_diverges_example = store_diverges 1 full 568 569 true (omega arith) (omega arith) full_keys
