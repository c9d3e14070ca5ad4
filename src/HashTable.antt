-- ===== src/HashTable.antt =====
-- The unshared hash table of granary/hash_table.h, `hash_table<K, V, meta_type>`, for keys and
-- values that are words, with the load limits of granary/hash_table.cc. The hash function of
-- `meta_type` (MurmurHash3, third-party code) is the parameter `hash`. An operation returns
-- `none` where the code would loop for ever or read outside `HASH_TABLE_MAX_SIZES`.

pub mod Valid
pub mod Store
pub mod Laws
pub mod Sets
pub mod Entries
mod Tests
use granary.Common.{
  ℕ, zero, suc, ◌+◌, ◌-◌, ◌*◌, ◌/◌, ◌%◌, ◌^◌, Bool, true, false, not, ◌&&◌, Option, none, some,
  List, [], ◌∷◌, ◌==◌, ltb, if◌then◌else◌, ◌>>=◌, replicate,
}
use granary.Common.Words.{u32}
use granary.Probe.{
  Entry, empty, key_at, walk, insert_into, transfer, Inserted, StoreState, stored_new, skipped,
}
use granary.Probe.Slots.{value_at}

pub record HashTable : Type 0 where
  pub num_entries : ℕ
  pub scaling_factor : ℕ
  pub mask : ℕ
  pub entries : List Entry
  pub growing : Bool

abbrev pub default_scale_factor : ℕ
default_scale_factor = 4

abbrev pub max_scan_scale_factor : ℕ
max_scan_scale_factor = 16

-- The load factor is 0.75; the product is exact in a double, and the cast truncates.
abbrev pub load_for : ℕ → ℕ
load_for size = size * 3 / 4

-- `HASH_TABLE_MAX_SIZES[scale]`, an array of 32 numbers.
unfoldable pub max_size : ℕ → Option ℕ
max_size scale = if ltb scale 32 then some (load_for (2 ^ scale)) else none

-- The constructor.
unfoldable pub new_table : HashTable
new_table = record {
  num_entries = 0;
  scaling_factor = default_scale_factor;
  mask = 2 ^ default_scale_factor - 1;
  entries = replicate (2 ^ default_scale_factor) empty;
  growing = false;
}

abbrev pub is_new : StoreState → Bool
is_new stored_new = true
is_new _ = false

abbrev pub is_skipped : StoreState → Bool
is_skipped skipped = true
is_skipped _ = false

module _ (hash : ℕ → ℕ) where
  unfoldable pub grow : HashTable → Option HashTable
  grow t =
      let num_old_slots = u32 (t.mask + 1) in
      let num_new_slots = u32 (num_old_slots * 2) in
      let mask = u32 (num_new_slots + 2 ^ 32 - 1) in
      transfer 32 hash t.entries mask (replicate num_new_slots empty) >>= λ es.
      some (record t { mask = mask; entries = es; scaling_factor = t.scaling_factor + 1 })

  -- `growing_ = true; grow(); growing_ = false;`
  unfoldable pub guarded_grow : HashTable → Option HashTable
  guarded_grow t = grow (record t { growing = true }) >>= λ g. some (record g { growing = false })

  unfoldable pub insert : HashTable → ℕ → ℕ → Bool → Option (StoreState × HashTable)
  insert t key value update = insert_into 32 hash t.entries t.mask key value update >>= λ r.
      let t' = record t { entries = r.entries } in
      if ltb max_scan_scale_factor r.scan && not t.growing
      then guarded_grow t' >>= (λ g. some (r.state, g))
      else some (r.state, t')

  -- `find`; the value of a default key is `V()`, which is 0.
  unfoldable pub find : HashTable → ℕ → Option ℕ
  find t key = walk (t.mask + 1) 32 t.entries t.mask key (hash key) 0 >>= λ s.
      if key_at t.entries s.index == 0 then some 0 else some (value_at t.entries s.index)

  -- `load`: the value, and whether it differs from `V()`.
  unfoldable pub load : HashTable → ℕ → Option (Bool × ℕ)
  load t key = find t key >>= λ value. some (not (0 == value), value)

  -- The part of `store` behind the test of the load.
  unfoldable pub store_entry : HashTable → ℕ → ℕ → Bool → Option (Bool × HashTable)
  store_entry t key value update = insert t key value update >>= λ r.
      if is_new r.0
      then some (true, record (r.1) { num_entries = u32 ((r.1).num_entries + 1) })
      else some (not (is_skipped r.0), r.1)

  -- `update` is `HASH_OVERWRITE_PREV_ENTRY == policy`.
  unfoldable pub store : HashTable → ℕ → ℕ → Bool → Option (Bool × HashTable)
  store t key value update = max_size t.scaling_factor >>= λ max_num_entries.
      if ltb max_num_entries t.num_entries
      then guarded_grow t >>= (λ g. store_entry g key value update)
      else store_entry t key value update

-- The calls that `for_each_entry` makes, in order.
unfoldable pub for_each_entry : List Entry → List (ℕ × ℕ)
for_each_entry [] = []
for_each_entry (e ∷ es) =
    if e.key == 0 then for_each_entry es else (e.key, e.value) ∷ for_each_entry es
