-- ===== src/HashTable/Laws.antt =====
-- `store`, `find`, `load` and `for_each_entry` together: a table is a partial map.
use granary.Common.{
  ℕ, suc, ◌^◌, ◌≤◌, ◌<◌, ◌≡◌, ◌≢◌, sym, ◌∙◌, ap, Bool, Option, some, arith, ◌==◌, ltb,
  if◌then◌else◌, ◌>>=◌, Bool-cases, inl, inr, ==-true, ==-false, eq-cases, lt→ltb, ltb→le,
}
use granary.HashTable.{HashTable, load_for, max_size, find, store_entry, store}
use granary.HashTable.Store.{Stores, store_entry-Stores, view, written}
use granary.HashTable.Valid.{IsTable, Grown, guarded_grow-Grown, find-lookup, or_default, roomy}
use granary.Probe.Slots.{kept}
use native.Mathlib.Nat.{pow-suc, pow-le-pow_right}

max_size-some : (s : ℕ) → s < 32 → max_size s ≡ some (load_for (2 ^ s))
unfolding max_size
max_size-some s h = rw (lt→ltb s 32 h)

module _ (hash : ℕ → ℕ) where
  Grown-IsTable :
      (s : ℕ) (t g : HashTable)
      → IsTable hash s t
      → Grown hash s t g
      → IsTable hash (suc s) g × (g.num_entries ≤ load_for (2 ^ suc s))
  Grown-IsTable s t g v up =
      let big = pow-le-pow_right {n = 2} (omega arith) v.least in
      let double = pow-suc 2 s in
      (
        record {
          scale = omega (arith, up.scale, v.scale);
          least = omega (arith, v.least);
          whole = up.whole;
          placed = up.placed;
          count = omega (arith, up.count, up.entries, v.count);
          loaded = omega (arith, up.entries, v.loaded);
          idle = up.idle;
        },
        omega (arith, up.entries, v.loaded),
      )

  module _ (s : ℕ) (t : HashTable) (k v : ℕ) (update : Bool) where
    -- `store` on a valid table of at most 2 ^ 29 slots, under a key that is not the default one,
    -- always returns. The table that it leaves is valid, of at most four times the slots; it maps
    -- the key to the new value, or to the old one where previous entries are kept, and every
    -- other key to what it was; and the result says whether the entry was written.
    pub store-Stores :
        IsTable hash s t
        → s ≤ 29
        → k ≢ 0
        → (t' : HashTable) × (s' : ℕ) × (store hash t k v update
            ≡ some (written update (view hash s t k), t'))
          × Stores hash 2 s t k v update s' t'
    unfolding store
    store-Stores valid small key =
        let cap : max_size t.scaling_factor ≡ some (load_for (2 ^ s)) =
          ap max_size valid.scale ∙ max_size-some s (omega arith) in
        elim (Bool-cases (ltb (load_for (2 ^ s)) t.num_entries)) [
          | inr light ↦
              let r =
                store_entry-Stores hash s t k v update key valid (ltb→le _ _ light) (omega arith) in
              (r.0, r.1, rw (cap, ◌>>=◌, light) r.2, widen r.1 r.0 r.3)
          | inl heavy ↦
              let g =
                guarded_grow-Grown hash s t valid.whole (omega arith) valid.placed
                  (omega (arith, roomy hash s t valid)) in
              let r = grown_first g.0 g.2 in (r.0, r.1, rw (cap, ◌>>=◌, heavy, g.1) r.2, r.3)
        ]
      where
        widen :
            (s' : ℕ) (t' : HashTable)
            → Stores hash 1 s t k v update s' t'
            → Stores hash 2 s t k v update s' t'
        widen s' t' r = record {
          wider = r.wider;
          bounded = omega (arith, r.bounded);
          valid = r.valid;
          reads = r.reads;
        }

        grown_first :
            (g : HashTable)
            → Grown hash s t g
            → (t' : HashTable) × (s' : ℕ) × (store_entry hash g k v update
                ≡ some (written update (view hash s t k), t'))
              × Stores hash 2 s t k v update s' t'
        grown_first g up =
            let ok = Grown-IsTable s t g valid up in
            let r = store_entry-Stores hash (suc s) g k v update key ok.0 ok.1 (omega arith) in
            let same = up.reads k key in
            (
              r.0,
              r.1,
              r.2 ∙ ap (λ (o : Option ℕ). some (written update o, r.0)) same,
              record {
                wider = omega (arith, (r.3).wider);
                bounded = omega (arith, (r.3).bounded);
                valid = (r.3).valid;
                reads = λ q q0. (r.3).reads q q0 ∙ rw (same, up.reads q q0);
              },
            )

    -- After a `store` on a valid table of at most 2 ^ 29 slots, under a key that is not the
    -- default one, a `find` of that key gives what was stored, or the previous value where
    -- previous entries are kept; a `find` of any other key that is not the default one gives what
    -- it gave before.
    pub store-find :
        IsTable hash s t
        → s ≤ 29
        → k ≢ 0
        → (r : Bool × HashTable) × (store hash t k v update ≡ some r)
          × ((q : ℕ)
              → q ≢ 0
              → find hash r.1 q
                ≡ (if q == k then some (kept update v (view hash s t k)) else find hash t q))
    store-find valid small key =
        let r = store-Stores valid small key in
        (
          (written update (view hash s t k), r.0),
          r.2,
          λ q q0.
              find-lookup hash r.1 r.0 q (r.3).valid (omega (arith, (r.3).bounded)) q0
              ∙ ap (λ (o : Option ℕ). some (or_default o)) ((r.3).reads q q0)
              ∙ elim (eq-cases q k) [
                | inl e ↦ rw (==-true q k e)
                | inr ne ↦
                    rw (==-false q k ne) (sym (find-lookup hash s t q valid (omega arith) q0))
              ],
        )
