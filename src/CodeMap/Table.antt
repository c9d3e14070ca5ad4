-- ===== src/CodeMap/Table.antt =====
-- The hash table (granary/hash_table.h) as a map.
use mathlib.Core.Path.{refl, subst}
use granary.Common.{
  ℕ, suc, ◌+◌, ◌*◌, ◌≤◌, ◌≡◌, ◌≢◌, ap, ◌∙◌, sym, Bool, not, Option, some, ◌==◌, if◌then◌else◌,
  arith,
}
use granary.CodeMap.{CodeMap}
use granary.HashTable.{HashTable, load, store, find}
use granary.HashTable.Laws.{store-Stores}
use granary.HashTable.Store.{written, view}
use granary.HashTable.Valid.{IsTable, or_default, find-lookup}
use granary.Probe.Slots.{kept}

module _ (hash : ℕ → ℕ) where
  -- A table is valid at its own size, and each store makes it four times as large at most.
  abbrev pub Fits : ℕ → HashTable → Type 0
  Fits n t = IsTable hash t.scaling_factor t × (t.scaling_factor + 2 * n ≤ 31)

  abbrev pub table_view : HashTable → ℕ → Option ℕ
  table_view t q = view hash t.scaling_factor t q

  pub load_view :
      (n : ℕ) (t : HashTable) (k : ℕ)
      → Fits n t
      → k ≢ 0
      → load hash t k ≡ some (not (0 == or_default (table_view t k)), or_default (table_view t k))
  unfolding load
  load_view n t k f key =
      let e : find hash t k ≡ some (or_default (table_view t k)) =
        find-lookup hash t.scaling_factor t k f.0 (omega (arith, f.1)) key in
      rw e refl

  pub store_view :
      (n : ℕ) (t : HashTable) (k v : ℕ) (update : Bool)
      → Fits (suc n) t
      → k ≢ 0
      → (t' : HashTable) × (store hash t k v update ≡ some (written update (table_view t k), t'))
        × Fits n t'
        × ((q : ℕ)
            → q ≢ 0
            → table_view t' q
              ≡ (if q == k then some (kept update v (table_view t k)) else table_view t q))
  store_view n t k v update f key =
      let r = store-Stores hash t.scaling_factor t k v update f.0 (omega (arith, f.1)) key in
      let valid = (r.3).valid in
      let same : (r.0).scaling_factor ≡ r.1 = valid.scale in
      (
        r.0,
        r.2,
        (
          subst (λ (s : ℕ). IsTable hash s r.0) (sym same) valid,
          omega (arith, same, (r.3).bounded, f.1),
        ),
        λ q q0. ap (λ (s : ℕ). view hash s r.0 q) same ∙ (r.3).reads q q0,
      )

  abbrev pub table_map : CodeMap HashTable
  table_map = record {
    load = load hash;
    store = store hash;
    view = table_view;
    Fits = Fits;
    fewer = λ n t f. (f.0, omega (arith, f.1));
    load_view = load_view;
    store_view = store_view;
  }
