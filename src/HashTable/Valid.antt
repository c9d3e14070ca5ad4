-- ===== src/HashTable/Valid.antt =====
-- What a valid table is; the constructor, `find` and the doubling of the slots.
use granary.Common.{
  ℕ, suc, ◌+◌, ◌-◌, ◌*◌, ◌^◌, ◌≤◌, ◌<◌, ◌≡◌, ◌≢◌, refl, ◌∙◌, ap, false, Option, none, some, List,
  arith, replicate,
}
use granary.Common.Words.{u32}
use granary.HashTable.{HashTable, load_for, new_table, grow, guarded_grow, find}
use granary.Probe.Transfer.{
  transfer-Moved, Moved, override, override-lookup, replicate-IsPlaced, occupied-replicate,
  lookup-replicate,
}
use granary.Probe.Insert.{walk-ends}
use granary.Probe.{transfer, Entry, empty}
use granary.Probe.Slots.{IsPlaced, occupied, lookup}
use native.Mathlib.Nat.{pow-suc, pow-le-pow_right, one-le-pow}

-- What `find` answers for an entry that may be missing: `V()` is 0.
abbrev pub or_default : Option ℕ → ℕ
or_default none = 0
or_default (some v) = v

module _ (hash : ℕ → ℕ) where
  -- A table of `2 ^ s` slots, between two calls.
  pub record IsTable (s : ℕ) (t : HashTable) : Type 0 where
    pub scale : t.scaling_factor ≡ s
    pub least : 4 ≤ s
    pub whole : t.mask + 1 ≡ 2 ^ s
    pub placed : IsPlaced hash (2 ^ s) t.entries
    pub count : occupied t.entries ≤ t.num_entries
    pub loaded : t.num_entries ≤ load_for (2 ^ s) + 1
    pub idle : t.growing ≡ false

  sixteen : (s : ℕ) → 4 ≤ s → 16 ≤ 2 ^ s
  sixteen s h = pow-le-pow_right {n = 2} (omega arith) h

  pub roomy : (s : ℕ) (t : HashTable) → IsTable s t → occupied t.entries < 2 ^ s
  roomy s t v = omega (arith, sixteen s v.least, v.count, v.loaded)

  -- The constructor builds an empty table.
  pub new_table-IsTable : IsTable 4 new_table
  unfolding new_table
  new_table-IsTable = record {
    scale = refl;
    least = omega arith;
    whole = refl;
    placed = replicate-IsPlaced hash 16;
    count = omega (arith, occupied-replicate hash 16);
    loaded = omega arith;
    idle = refl;
  }

  -- In a valid table of at most 2 ^ 32 slots `find` always returns, for every key that is not the
  -- default one: the value of the first slot behind the key's hash that has the key, with no empty
  -- slot between them, or `V()` where no such slot is.
  pub find-lookup :
      (s : ℕ) (t : HashTable) (q : ℕ)
      → IsTable s t
      → s ≤ 32
      → q ≢ 0
      → find hash t q ≡ some (or_default (lookup hash (2 ^ s) t.entries q))
  unfolding find lookup
  find-lookup s t q v small q0 =
      let w = walk-ends 32 hash s small t.entries t.mask v.whole v.placed (roomy s t v) q in
      rw (w.1, w.2) (ground arith)

  -- Doubling the slots keeps the map; `growing_` is clear again.
  pub record Grown (s : ℕ) (t t' : HashTable) : Type 0 where
    pub whole : t'.mask + 1 ≡ 2 ^ suc s
    pub scale : t'.scaling_factor ≡ t.scaling_factor + 1
    pub entries : t'.num_entries ≡ t.num_entries
    pub placed : IsPlaced hash (2 ^ suc s) t'.entries
    pub count : occupied t'.entries ≤ occupied t.entries
    pub idle : t'.growing ≡ false
    pub reads :
        (q : ℕ) → q ≢ 0 → lookup hash (2 ^ suc s) t'.entries q ≡ lookup hash (2 ^ s) t.entries q

  -- The mask that `grow` computes.
  abbrev grown_mask : ℕ → ℕ
  grown_mask s = u32 (2 ^ suc s + 2 ^ 32 - 1)

  module _ (s : ℕ) (t : HashTable) (whole : t.mask + 1 ≡ 2 ^ s) (small : s ≤ 30) where
    low : 1 ≤ 2 ^ s
    low = one-le-pow s 2 (omega arith)

    high : 2 ^ s ≤ 2 ^ 30
    high = pow-le-pow_right {n = 2} (omega arith) small

    slots : u32 (u32 (t.mask + 1) * 2) ≡ 2 ^ suc s
    slots = omega (arith, pow-suc 2 s, low, high)

    whole' : grown_mask s + 1 ≡ 2 ^ suc s
    whole' = omega (arith, pow-suc 2 s, low, high)

    module _ (p : IsPlaced hash (2 ^ s) t.entries) where
      grown :
          (es : List Entry)
          → transfer 32 hash t.entries (grown_mask s) (replicate (2 ^ suc s) empty) ≡ some es
          → Moved hash (suc s) t.entries (replicate (2 ^ suc s) empty) es
          → (t' : HashTable) × (guarded_grow hash t ≡ some t') × Grown s t t'
      unfolding guarded_grow grow
      grown es run moved = (
        record {
          num_entries = t.num_entries;
          scaling_factor = t.scaling_factor + 1;
          mask = grown_mask s;
          entries = es;
          growing = false;
        },
        rw (slots, run),
        record {
          whole = whole';
          scale = refl;
          entries = refl;
          placed = moved.placed;
          count = omega (arith, moved.count, occupied-replicate hash (2 ^ suc s));
          idle = refl;
          reads = λ q q0.
              moved.reads q q0
              ∙ ap (override t.entries q)
                  (lookup-replicate hash (2 ^ suc s) q q0 (omega (arith, pow-suc 2 s, low)))
              ∙ override-lookup hash (2 ^ s) t.entries q low p q0;
        },
      )

      pub guarded_grow-Grown :
          occupied t.entries ≤ 2 ^ s
          → (t' : HashTable) × (guarded_grow hash t ≡ some t') × Grown s t t'
      guarded_grow-Grown fits =
          let m =
            transfer-Moved hash 32 (suc s) (omega arith) (grown_mask s) whole' t.entries
              (replicate (2 ^ suc s) empty) (replicate-IsPlaced hash (2 ^ suc s))
              (omega (arith, occupied-replicate hash (2 ^ suc s), pow-suc 2 s, low)) in
          grown m.0 m.1 m.2
