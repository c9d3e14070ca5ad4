-- ===== src/Probe.antt =====
-- Linear probing, as both hash tables do it (granary/hash_table.h, granary/cpu_code_cache.cc):
-- the loop that walks the entry slots from the hash of a key, wrapping round by the mask.
pub mod Seek
pub mod Slots
pub mod Insert
pub mod Fuel
pub mod Transfer
use granary.Common.Words
use granary.Common.{
  ℕ, zero, suc, ◌+◌, ◌%◌, ◌^◌, bit_and, Bool, true, false, ◌||◌, Option, none, some, List, ◌==◌,
  if◌then◌else◌, get_or, set, [], ◌∷◌, ◌>>=◌,
}

-- An entry of the slots; the key 0 is the default key, which marks an empty slot.
pub record Entry : Type 0 where
  pub key : ℕ
  pub value : ℕ

abbrev pub empty : Entry
empty = record { key = 0; value = 0 }

abbrev pub key_at : List Entry → ℕ → ℕ
key_at es i = (get_or es i empty).key

-- The slot is empty or holds the key: the loop ends here.
abbrev pub halts : List Entry → ℕ → ℕ → Bool
halts es key i = (key_at es i == 0) || (key_at es i == key)

-- Where the walk ended, and how many slots it passed.
pub record Stop : Type 0 where
  pub index : ℕ
  pub scan : ℕ

-- The loop: `base &= mask`, the two tests, then `++scan, base += 1` in words of `width` bits.
-- It has no bound of its own, so it is given fuel; `none` means that the fuel ran out.
unfoldable pub walk : ℕ → ℕ → List Entry → ℕ → ℕ → ℕ → ℕ → Option Stop
walk zero width es mask key base scan = none
walk (suc fuel) width es mask key base scan =
    let i = bit_and base mask in
    let rest = walk fuel width es mask key ((i + 1) % 2 ^ width) (scan + 1) in
    if halts es key i then some (record { index = i; scan = scan }) else rest

-- What `insert` reports.
pub data StoreState : Type 0 where
  stored_new stored_overwrite skipped : StoreState

pub record Inserted : Type 0 where
  pub state : StoreState
  pub scan : ℕ
  pub entries : List Entry

-- What the loop of `insert` does with the slot where it ends.
unfoldable pub place : List Entry → ℕ → ℕ → Bool → Stop → Inserted
place es key value update s =
    if key_at es s.index == 0
    then record {
      state = stored_new;
      scan = s.scan;
      entries = set es s.index (record { key = key; value = value });
    }
    else if update
    then record {
      state = stored_overwrite;
      scan = s.scan;
      entries = set es s.index (record { key = key_at es s.index; value = value });
    }
    else record { state = skipped; scan = s.scan; entries = es }

-- The loop of `insert` and what it writes, from the hash of the key on.
unfoldable pub insert_into : ℕ → (ℕ → ℕ) → List Entry → ℕ → ℕ → ℕ → Bool → Option Inserted
insert_into width hash es mask key value update =
    walk (mask + 1) width es mask key (hash key) 0 >>= λ s. some (place es key value update s)

-- The loop of `grow`: every entry that is in use goes into the new slots. `insert` runs here with
-- its `growing` flag set, so it does not grow in turn.
unfoldable pub transfer : ℕ → (ℕ → ℕ) → List Entry → ℕ → List Entry → Option (List Entry)
transfer width hash [] mask es = some es
transfer width hash (e ∷ old) mask es =
    let skip = transfer width hash old mask es in
    let move = insert_into width hash es mask e.key e.value true >>= λ r.
    transfer width hash old mask r.entries in
    if e.key == 0 then skip else move
