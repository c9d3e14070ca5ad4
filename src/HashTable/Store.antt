-- ===== src/HashTable/Store.antt =====
-- `store` over a valid table: it ends, keeps the table valid, and updates the partial map at its
-- key alone, through up to two doublings of the slots.
use granary.Common.Words.{u32}
use granary.Common.{
  ℕ, suc, ◌+◌, ◌^◌, ◌≤◌, ◌<◌, ◌≡◌, ◌≢◌, refl, ◌∙◌, Bool, true, false, not, ◌&&◌, Option, none, some,
  arith, ◌==◌, ltb, if◌then◌else◌, ◌>>=◌, Bool-cases, inl, inr,
}
use granary.HashTable.{
  HashTable, load_for, insert, store_entry, is_new, is_skipped, max_scan_scale_factor,
}
use granary.Probe.Insert.{insert_into-Placed}
use granary.HashTable.Valid.{IsTable, Grown, guarded_grow-Grown, roomy}
use granary.Probe.{insert_into, Inserted, StoreState, stored_new, skipped}
use granary.Probe.Slots.{IsPlaced, Placed, occupied, lookup, kept, newly, state_of}
use native.Mathlib.Nat.{pow-le-pow_right}

-- What `store` returns.
abbrev pub written : Bool → Option ℕ → Bool
written update o = not (is_skipped (state_of update o))

load_for_mono : (s s' : ℕ) → s ≤ s' → load_for (2 ^ s) ≤ load_for (2 ^ s')
load_for_mono s s' h = omega (arith, pow-le-pow_right {n = 2} (omega arith) h)

newly_le : (o : Option ℕ) → newly o ≤ 1
newly_le none = omega arith
newly_le (some x) = omega arith

counted_new : (update : Bool) (o : Option ℕ) → is_new (state_of update o) ≡ true → newly o ≡ 1
counted_new update none h = refl
counted_new true (some x) h = cc
counted_new false (some x) h = cc

counted_old : (update : Bool) (o : Option ℕ) → is_new (state_of update o) ≡ false → newly o ≡ 0
counted_old update none h = cc
counted_old update (some x) h = refl

new_written : (st : StoreState) → is_new st ≡ true → is_skipped st ≡ false
new_written stored_new h = refl
new_written skipped h = cc
new_written _ h = refl

module _ (hash : ℕ → ℕ) where
  abbrev pub view : ℕ → HashTable → ℕ → Option ℕ
  view s t q = lookup hash (2 ^ s) t.entries q

  -- The slots of `t'` hold what those of `t` held, with `v` stored under `k`.
  pub record Update (s : ℕ) (t : HashTable) (k v : ℕ) (update : Bool) (s' : ℕ) (t' : HashTable)
      : Type 0 where
    pub wider : s ≤ s'
    pub bounded : s' ≤ suc s
    pub whole : t'.mask + 1 ≡ 2 ^ s'
    pub scale : t'.scaling_factor + s ≡ t.scaling_factor + s'
    pub entries : t'.num_entries ≡ t.num_entries
    pub placed : IsPlaced hash (2 ^ s') t'.entries
    pub count : occupied t'.entries ≤ occupied t.entries + newly (view s t k)
    pub idle : t'.growing ≡ false
    pub reads :
        (q : ℕ)
        → q ≢ 0
        → view s' t' q ≡ (if q == k then some (kept update v (view s t k)) else view s t q)

  module _ (s : ℕ) (t : HashTable) (k v : ℕ) (update : Bool) (key : k ≢ 0)
      (whole : t.mask + 1 ≡ 2 ^ s) (small : s ≤ 30) (idle : t.growing ≡ false) where
    abbrev after : Inserted → HashTable
    after r = record t { entries = r.entries }

    insert-stays :
        (r : Inserted)
        → Placed hash (2 ^ s) t.entries k v update r
        → Update s t k v update s (after r)
    insert-stays r placed = record {
      wider = omega arith;
      bounded = omega arith;
      whole = whole;
      scale = refl;
      entries = refl;
      placed = placed.placed;
      count = omega (arith, placed.count);
      idle = idle;
      reads = placed.reads;
    }

    insert-grows :
        (r : Inserted) (g : HashTable)
        → Placed hash (2 ^ s) t.entries k v update r
        → Grown hash s (after r) g
        → Update s t k v update (suc s) g
    insert-grows r g placed grown = record {
      wider = omega arith;
      bounded = omega arith;
      whole = grown.whole;
      scale = omega (arith, grown.scale);
      entries = grown.entries;
      placed = grown.placed;
      count = omega (arith, placed.count, grown.count);
      idle = grown.idle;
      reads = λ q q0. grown.reads q q0 ∙ placed.reads q q0;
    }

    module _ (p : IsPlaced hash (2 ^ s) t.entries) (room : occupied t.entries < 2 ^ s) where
      pub insert-Update :
          (t' : HashTable) × (s' : ℕ) × (insert hash t k v update
            ≡ some (state_of update (view s t k), t'))
          × Update s t k v update s' t'
      unfolding insert
      insert-Update =
          let one =
            insert_into-Placed 32 hash s (omega arith) t.entries t.mask whole p room k v update
              key in
          finish one.0 one.1 one.2
        where
          finish :
              (r : Inserted)
              → insert_into 32 hash t.entries t.mask k v update ≡ some r
              → Placed hash (2 ^ s) t.entries k v update r
              → (t' : HashTable) × (s' : ℕ) × (insert hash t k v update
                  ≡ some (state_of update (view s t k), t'))
                × Update s t k v update s' t'
          finish r run placed =
              elim (Bool-cases (ltb max_scan_scale_factor r.scan && not t.growing)) [
                | inr stay ↦
                    (after r, s, rw (run, ◌>>=◌, stay, placed.state), insert-stays r placed)
                | inl far ↦
                    let g =
                      guarded_grow-Grown hash s (after r) whole small placed.placed
                        (omega (arith, placed.count, newly_le (view s t k))) in
                    (
                      g.0,
                      suc s,
                      rw (run, ◌>>=◌, far, g.1, placed.state),
                      insert-grows r g.0 placed g.2,
                    )
              ]

  -- What a call of `store` leaves: at most `d` doublings, a valid table, and the map updated.
  pub record Stores (d s : ℕ) (t : HashTable) (k v : ℕ) (update : Bool) (s' : ℕ) (t' : HashTable)
      : Type 0 where
    pub wider : s ≤ s'
    pub bounded : s' ≤ s + d
    pub valid : IsTable hash s' t'
    pub reads :
        (q : ℕ)
        → q ≢ 0
        → view s' t' q ≡ (if q == k then some (kept update v (view s t k)) else view s t q)

  module _ (s : ℕ) (t : HashTable) (k v : ℕ) (update : Bool) (key : k ≢ 0)
      (valid : IsTable hash s t) (light : t.num_entries ≤ load_for (2 ^ s)) (small : s ≤ 30) where
    recount :
        (n s' : ℕ) (u : HashTable)
        → Update s t k v update s' u
        → occupied u.entries ≤ n
        → n ≤ t.num_entries + 1
        → Stores 1 s t k v update s' (record u { num_entries = n })
    recount n s' u up fits step = record {
      wider = up.wider;
      bounded = omega (arith, up.bounded);
      valid = record {
        scale = omega (arith, up.scale, valid.scale);
        least = omega (arith, up.wider, valid.least);
        whole = up.whole;
        placed = up.placed;
        count = fits;
        loaded = omega (arith, load_for_mono s s' up.wider);
        idle = up.idle;
      };
      reads = up.reads;
    }

    pub store_entry-Stores :
        (t' : HashTable) × (s' : ℕ) × (store_entry hash t k v update
          ≡ some (written update (view s t k), t'))
        × Stores 1 s t k v update s' t'
    unfolding store_entry
    store_entry-Stores =
        let one =
          insert-Update s t k v update key valid.whole small valid.idle valid.placed
            (roomy hash s t valid) in
        finish one.0 one.1 one.2 one.3
      where
        finish :
            (u : HashTable) (s' : ℕ)
            → insert hash t k v update ≡ some (state_of update (view s t k), u)
            → Update s t k v update s' u
            → (t' : HashTable) × (s' : ℕ) × (store_entry hash t k v update
                ≡ some (written update (view s t k), t'))
              × Stores 1 s t k v update s' t'
        finish u s' run up = elim (Bool-cases (is_new (state_of update (view s t k)))) [
          | inl new ↦
              let full : u32 (u.num_entries + 1) ≡ t.num_entries + 1 =
                omega (arith, up.entries, pow-le-pow_right {n = 2} (omega arith) small) in
              (
                record u { num_entries = u32 (u.num_entries + 1) },
                s',
                rw (run, ◌>>=◌, new, new_written (state_of update (view s t k)) new),
                rw full (
                    recount (t.num_entries + 1) s' u up
                      (omega (arith, up.count, valid.count, counted_new update (view s t k) new))
                      (omega arith)),
              )
          | inr old ↦ (
            u,
            s',
            rw (run, ◌>>=◌, old),
            recount u.num_entries s' u up
                (omega
                  (arith, up.count, valid.count, up.entries, counted_old update (view s t k) old))
                (omega (arith, up.entries)),
          )
        ]
