-- ===== src/CpuCodeCache/Laws.antt =====
-- `store` and `find` of the CPU-private code cache together: what they guarantee, and the two ways
-- in which a stored entry or the call itself can be lost.
use granary.Common.Words.{bit_and-mask}
use granary.Common.{
  ℕ, ◌+◌, ◌-◌, ◌%◌, ◌^◌, ◌≤◌, ◌<◌, bit_and, ◌≡◌, ◌≢◌, refl, sym, ◌∙◌, ap, Bool, true, Option, none,
  some, List, [], ◌∷◌, arith, ◌==◌, if◌then◌else◌, ◌>>=◌, Option-cases, inl, inr, ◌⊎◌, some_inj,
  length, set, ==-true, le→ltb,
}
use granary.CpuCodeCache.Find.{IsCache, view, full_walk, find_sound}
use granary.CpuCodeCache.Store.{Stores, insert-Stores}
use granary.CpuCodeCache.{
  Cache, max_scan, fmix, find, probe, read_stop, if_entries, insert, allocate_first, allocated,
  store, is_written,
}
use granary.HashTable.Valid.{or_default}
use granary.Probe.Fuel.{walk_more, walk_scan, walk-none, walk-set}
use granary.Probe.Slots.{occupied, kept, state_of}
use granary.Probe.{Entry, key_at, Stop, walk, place, insert_into, stored_new}
use native.Mathlib.Nat.{mod-lt, one-le-pow}

module _ (s : ℕ) (t : Cache) (k v : ℕ) (update : Bool) where
  -- `store` under an address that is not null, into a cache (allocated at the first call) of at
  -- most 2 ^ 62 entries of which one is free, always returns: it says whether the entry was
  -- written, leaves a valid cache, doubled at most once, and stores the value at its key alone.
  pub cache_store-Stores :
      IsCache s (allocated t)
      → s ≤ 62
      → occupied (allocated t).entries < 2 ^ s
      → k ≢ 0
      → (t' : Cache) × (s' : ℕ) × (store t k v update
          ≡ some (is_written (state_of update (view s (allocated t) k)), t'))
        × Stores s (allocated t) k v update s' t'
  unfolding store
  cache_store-Stores valid small room key =
      let r = insert-Stores s (allocated t) k v update valid small room key in
      (r.0, r.1, rw r.2, r.3)

  -- After a `store` under an address that is not null, into a cache of at most 2 ^ 62 entries of
  -- which one is free, a `find` of that address gives null or what it is mapped to now, and a
  -- `find` of any other address that is not null gives null or what that address was mapped to
  -- before.
  pub store-find_sound :
      IsCache s (allocated t)
      → s ≤ 62
      → occupied (allocated t).entries < 2 ^ s
      → k ≢ 0
      → (r : Bool × Cache) × (store t k v update ≡ some r)
        × ((q : ℕ)
            → q ≢ 0
            → (find r.1 q ≡ 0)
              ⊎ (find r.1 q
                  ≡ or_default (
                      if q == k
                      then some (kept update v (view s (allocated t) k))
                      else view s (allocated t) q)))
  store-find_sound valid small room key =
      let r = cache_store-Stores valid small room key in
      (
        (is_written (state_of update (view s (allocated t) k)), r.0),
        r.2,
        λ q q0. elim (find_sound r.1 r.0 q (r.3).valid (omega (arith, (r.3).bounded)) q0) [
          | inl miss ↦ inl miss
          | inr hit ↦ inr (hit ∙ ap or_default ((r.3).reads q q0))
        ],
      )

no_answer : (es : List Entry) → if_entries es 0 ≡ 0
no_answer [] = refl
no_answer (e ∷ es) = refl

read_none : (t : Cache) (q : ℕ) → probe t q ≡ none → find t q ≡ 0
unfolding find
read_none t q e =
    ap (λ (o : Option Stop). if_entries t.entries (read_stop t o)) e ∙ no_answer t.entries

already : (es : List Entry) (t : Cache) {n : ℕ} → n < length es → allocate_first es t ≡ t
already [] t h = absurd (omega arith)
already (e ∷ es) t h = refl

-- A new entry that the walk placed within `max_scan` does not grow the cache.
insert-near :
    (t : Cache) (k v : ℕ) (update : Bool) (r : Stop)
    → full_walk t k ≡ some r
    → r.scan ≤ max_scan
    → key_at t.entries r.index ≡ 0
    → insert t k v update
      ≡ some
          (stored_new, record t { entries = set t.entries r.index (record { key = k; value = v }) })
unfolding insert insert_into place
insert-near t k v update r run near free =
    rw (run, ◌>>=◌, ==-true (key_at t.entries r.index) 0 free, le→ltb max_scan r.scan near)

-- Where the walk of a new key passes exactly eight taken slots, `store` reports success without
-- growing the cache, and the `find` that follows misses the entry whatever its value: `insert`
-- grows only beyond eight slots, and `find` looks at the first eight alone.
pub store-find-lost :
    (t : Cache) (k v : ℕ) (update : Bool) (r : Stop)
    → full_walk t k ≡ some r
    → r.scan ≡ max_scan
    → key_at t.entries r.index ≡ 0
    → r.index < length t.entries
    → max_scan ≤ t.bit_mask + 1
    → (t' : Cache) × (store t k v update ≡ some (true, t'))
      × (t'.bit_mask ≡ t.bit_mask)
      × (find t' k ≡ 0)
unfolding store probe
store-find-lost t k v update r run far free lt wide =
    let es' = set t.entries r.index (record { key = k; value = v }) in
    let t' : Cache = record t { entries = es' } in
    let again : walk (t.bit_mask + 1) 64 es' t.bit_mask k (fmix k) 0 ≡ some r =
      walk-set 64 t.entries t.bit_mask k v (t.bit_mask + 1) (fmix k) 0 r run lt free in
    (
      t',
      rw (already t.entries t lt, insert-near t k v update r run (omega arith) free),
      refl,
      read_none t' k (elim (Option-cases (probe t' k)) [
        | inl e ↦ e
        | inr (u, e) ↦
            let same : u ≡ r = some_inj u r (
              sym (walk_more 64 es' t.bit_mask k max_scan (t.bit_mask + 1) (fmix k) 0 u e wide)
              ∙ again) in
            absurd (
              omega (
                arith,
                (walk_scan 64 es' t.bit_mask k max_scan (fmix k) 0 u e).0,
                ap (λ (x : Stop). x.scan) same,
              ))
      ]),
    )

-- `insert` grows by the length of its walk alone, not by the load. Once every entry of a cache is
-- taken, a `store` of an address that is not among them never returns: its walk goes on however
-- many rounds it is given.
pub store_diverges :
    (s : ℕ) (t : Cache) (k v : ℕ) (update : Bool)
    → t.bit_mask + 1 ≡ 2 ^ s
    → length t.entries ≡ 2 ^ s
    → ((i : ℕ) → i < 2 ^ s → (key_at t.entries i ≢ 0) × (key_at t.entries i ≢ k))
    → ((rounds : ℕ) → walk rounds 64 t.entries t.bit_mask k (fmix k) 0 ≡ none)
      × (store t k v update ≡ none)
unfolding store insert insert_into
store_diverges s t k v update whole width full =
    let pos : 0 < 2 ^ s = one-le-pow s 2 (omega arith) in
    let endless : (rounds : ℕ) → walk rounds 64 t.entries t.bit_mask k (fmix k) 0 ≡ none = λ rounds.
      walk-none 64 t.entries t.bit_mask k
        (λ i.
          let m : t.bit_mask ≡ 2 ^ s - 1 = omega arith in
          let slot = full (i % 2 ^ s) (mod-lt i pos) in
          let at : bit_and i t.bit_mask ≡ i % 2 ^ s = rw m (bit_and-mask s i) in
          rw at (ground (arith, slot.0, slot.1)))
        rounds (fmix k) 0 in
    (endless, rw (already t.entries t {n = 0} (omega arith), endless (t.bit_mask + 1)))
