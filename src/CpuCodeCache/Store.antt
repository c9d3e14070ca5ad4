-- ===== src/CpuCodeCache/Store.antt =====
-- `store` of the CPU-private code cache: what it guarantees, and where it does not.
use granary.Common.Words.{u64}
use granary.Common.{
  ℕ, suc, ◌+◌, ◌-◌, ◌*◌, ◌^◌, ◌≤◌, ◌<◌, ◌≡◌, ◌≢◌, refl, ◌∙◌, ap, Bool, true, false, not, ◌&&◌,
  Option, none, some, List, arith, ◌==◌, ltb, if◌then◌else◌, ◌>>=◌, Bool-cases, inl, inr, replicate,
}
use granary.CpuCodeCache.Find.{IsCache, view}
use granary.CpuCodeCache.{Cache, max_scan, fmix, grow, insert}
use granary.Probe.Insert.{insert_into-Placed}
use granary.Probe.Transfer.{
  transfer-Moved, Moved, override, override-lookup, replicate-IsPlaced, occupied-replicate,
  lookup-replicate,
}
use granary.Probe.Slots.{Placed, occupied, kept, newly, state_of}
use granary.Probe.{Entry, empty, insert_into, transfer, Inserted}
use native.Mathlib.Nat.{pow-suc, pow-le-pow_right, one-le-pow}

abbrev grown_mask : ℕ → ℕ
grown_mask s = u64 (2 ^ suc s + 2 ^ 64 - 1)

-- What a call of `store` leaves: the entries, doubled at most once, with the key's value stored.
pub record Stores (s : ℕ) (t : Cache) (k v : ℕ) (update : Bool) (s' : ℕ) (t' : Cache) : Type 0 where
  pub wider : s ≤ s'
  pub bounded : s' ≤ suc s
  pub valid : IsCache s' t'
  pub count : occupied t'.entries ≤ occupied t.entries + 1
  pub reads :
      (q : ℕ)
      → q ≢ 0
      → view s' t' q ≡ (if q == k then some (kept update v (view s t k)) else view s t q)

newly-le-one : (o : Option ℕ) → newly o ≤ 1
newly-le-one none = omega arith
newly-le-one (some x) = omega arith

module _ (s : ℕ) (small : s ≤ 62) where
  low : 1 ≤ 2 ^ s
  low = one-le-pow s 2 (omega arith)

  high : 2 ^ s ≤ 2 ^ 62
  high = pow-le-pow_right {n = 2} (omega arith) small

  slots : (m : ℕ) → m + 1 ≡ 2 ^ s → u64 (u64 (m + 1) * 2 ^ 1) ≡ 2 ^ suc s
  slots m whole = omega (arith, pow-suc 2 s, low, high)

  whole' : grown_mask s + 1 ≡ 2 ^ suc s
  whole' = omega (arith, pow-suc 2 s, low, high)

  module _ (t : Cache) (k v : ℕ) (update : Bool) (valid : IsCache s t) (r : Inserted)
      (placed : Placed fmix (2 ^ s) t.entries k v update r)
      (room : occupied t.entries < 2 ^ s) where
    abbrev after : Cache
    after = record t { entries = r.entries }

    stays : Stores s t k v update s after
    stays = record {
      wider = omega arith;
      bounded = omega arith;
      valid = record {
        least = valid.least;
        whole = valid.whole;
        placed = placed.placed;
        idle = valid.idle;
      };
      count = omega (arith, placed.count, newly-le-one (view s t k));
      reads = placed.reads;
    }

    grown :
        (es : List Entry)
        → transfer 64 fmix r.entries (grown_mask s) (replicate (2 ^ suc s) empty) ≡ some es
        → Moved fmix (suc s) r.entries (replicate (2 ^ suc s) empty) es
        → (g : Cache) × (grow (record after { growing = true }) ≡ some g)
          × Stores s t k v update (suc s) (record g { growing = false })
    unfolding grow
    grown es run moved = (
      record { bit_mask = grown_mask s; entries = es; growing = false },
      rw (slots t.bit_mask valid.whole, run),
      record {
        wider = omega arith;
        bounded = omega arith;
        valid = record {
          least = omega (arith, valid.least);
          whole = whole';
          placed = moved.placed;
          idle = refl;
        };
        count = omega (
          arith,
          moved.count,
          occupied-replicate fmix (2 ^ suc s),
          placed.count,
          newly-le-one (view s t k),
        );
        reads = λ q q0.
            moved.reads q q0
            ∙ ap (override r.entries q)
                (lookup-replicate fmix (2 ^ suc s) q q0 (omega (arith, pow-suc 2 s, low)))
            ∙ override-lookup fmix (2 ^ s) r.entries q low placed.placed q0
            ∙ placed.reads q q0;
      },
    )

    grows :
        (g : Cache) × (grow (record after { growing = true }) ≡ some g)
        × Stores s t k v update (suc s) (record g { growing = false })
    grows =
        let m =
          transfer-Moved fmix 64 (suc s) (omega arith) (grown_mask s) whole' r.entries
            (replicate (2 ^ suc s) empty) (replicate-IsPlaced fmix (2 ^ suc s))
            (omega (
              arith,
              occupied-replicate fmix (2 ^ suc s),
              pow-suc 2 s,
              low,
              placed.count,
              newly-le-one (view s t k),
            )) in
        grown m.0 m.1 m.2

-- `insert` into a valid cache with a free entry, under a key that is not null, returns.
pub insert-Stores :
    (s : ℕ) (t : Cache) (k v : ℕ) (update : Bool)
    → IsCache s t
    → s ≤ 62
    → occupied t.entries < 2 ^ s
    → k ≢ 0
    → (t' : Cache) × (s' : ℕ) × (insert t k v update ≡ some (state_of update (view s t k), t'))
      × Stores s t k v update s' t'
unfolding insert
insert-Stores s t k v update valid small room key =
    let one =
      insert_into-Placed 64 fmix s (omega arith) t.entries t.bit_mask valid.whole valid.placed room
        k v update key in
    finish one.0 one.1 one.2
  where
    finish :
        (r : Inserted)
        → insert_into 64 fmix t.entries t.bit_mask k v update ≡ some r
        → Placed fmix (2 ^ s) t.entries k v update r
        → (t' : Cache) × (s' : ℕ) × (insert t k v update ≡ some (state_of update (view s t k), t'))
          × Stores s t k v update s' t'
    finish r run placed = elim (Bool-cases (ltb max_scan r.scan && not t.growing)) [
      | inr stay ↦ (
        record t { entries = r.entries },
        s,
        rw (run, ◌>>=◌, stay, placed.state),
        stays s small t k v update valid r placed room,
      )
      | inl far ↦
          let g = grows s small t k v update valid r placed room in
          (record (g.0) { growing = false }, suc s, rw (run, ◌>>=◌, far, g.1, placed.state), g.2)
    ]
