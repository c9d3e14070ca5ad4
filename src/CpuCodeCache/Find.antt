-- ===== src/CpuCodeCache/Find.antt =====
-- What `find` of the CPU-private code cache can see: the map, as far as eight slots reach.
use granary.Common.{
  ℕ, ◌+◌, ◌^◌, ◌≤◌, ◌<◌, ◌≡◌, ◌≢◌, refl, sym, ◌∙◌, ap, false, Option, some, List, [], ◌∷◌, arith,
  Option-cases, inl, inr, ◌⊎◌, length,
}
use granary.CpuCodeCache.{Cache, max_scan, fmix, probe, read_stop, if_entries, find}
use granary.HashTable.Valid.{or_default}
use granary.Probe.Fuel.{walk_more, walk_fewer, walk_scan}
use granary.Probe.Insert.{walk-home}
use granary.Probe.Slots.{IsPlaced, lookup}
use granary.Probe.{Entry, Stop, walk}
use native.Mathlib.Nat.{pow-le-pow_right}

-- A cache with `2 ^ s` entries, between two calls.
pub record IsCache (s : ℕ) (t : Cache) : Type 0 where
  pub least : 7 ≤ s
  pub whole : t.bit_mask + 1 ≡ 2 ^ s
  pub placed : IsPlaced fmix (2 ^ s) t.entries
  pub idle : t.growing ≡ false

-- The partial map of the entries.
abbrev pub view : ℕ → Cache → ℕ → Option ℕ
view s t q = lookup fmix (2 ^ s) t.entries q

-- The walk with no bound on its rounds but the number of entries.
abbrev pub full_walk : Cache → ℕ → Option Stop
full_walk t q = walk (t.bit_mask + 1) 64 t.entries t.bit_mask q (fmix q) 0

entries_there : (es : List Entry) {n : ℕ} → 0 < length es → if_entries es n ≡ n
entries_there [] h = absurd (omega arith)
entries_there (e ∷ es) h = refl

module _ (s : ℕ) (t : Cache) (q : ℕ) (valid : IsCache s t) (small : s ≤ 64) where
  many : 128 ≤ 2 ^ s
  many = pow-le-pow_right {n = 2} (omega arith) valid.least

  find-probe : find t q ≡ read_stop t (probe t q)
  unfolding find
  find-probe = entries_there t.entries (omega (arith, valid.placed.width, many))

  view-stop :
      (r : Stop) → full_walk t q ≡ some r → q ≢ 0 → or_default (view s t q) ≡ read_stop t (some r)
  unfolding lookup
  view-stop r run q0 =
      let ends = walk_scan 64 t.entries t.bit_mask q (t.bit_mask + 1) (fmix q) 0 r run in
      rw (walk-home 64 fmix s t.entries t.bit_mask q r small valid.whole run) (ground arith)

  -- `find` gives what the map holds wherever the walk of the key passes fewer than eight slots.
  pub find-near :
      (r : Stop)
      → full_walk t q ≡ some r
      → r.scan < max_scan
      → q ≢ 0
      → find t q ≡ or_default (view s t q)
  unfolding probe
  find-near r run near q0 =
      find-probe
      ∙ ap (read_stop t)
          (walk_fewer 64 t.entries t.bit_mask q (t.bit_mask + 1) max_scan (fmix q) 0 r run near)
      ∙ sym (view-stop r run q0)

  -- `find` never gives anything else: a miss, or what the map holds.
  pub find_sound : q ≢ 0 → (find t q ≡ 0) ⊎ (find t q ≡ or_default (view s t q))
  unfolding probe
  find_sound q0 = elim (Option-cases (probe t q)) [
    | inl e ↦ inl (find-probe ∙ ap (read_stop t) e)
    | inr (r, e) ↦ inr (
        find-probe
        ∙ ap (read_stop t) e
        ∙ sym (
            view-stop r
              (walk_more 64 t.entries t.bit_mask q max_scan (t.bit_mask + 1) (fmix q) 0 r e
                (omega (arith, valid.whole, many)))
              q0))
  ]
