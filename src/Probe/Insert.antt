-- ===== src/Probe/Insert.antt =====
-- The insertion loop over well-placed slots: it ends, and its effect on the partial map.
use granary.Common.{
  ℕ, ◌+◌, ◌-◌, ◌^◌, ◌≤◌, ◌<◌, ◌≡◌, ◌≢◌, sym, ◌∙◌, ap, Bool, true, some, List, arith, Option-cases,
  inl, inr, some_inj,
}
use granary.Probe.{insert_into, Entry, halts, walk, place, Stop, Inserted}
use granary.Probe.Seek.{walk-seek, stop_index}
use granary.Probe.Slots.{IsPlaced, Placed, place-Placed, occupied, seek_home, seek_home-total}
use mathlib.Core.Path.{subst}
use native.Mathlib.Nat.{pow-le-pow_right}

module _ (w : ℕ) (hash : ℕ → ℕ) (s : ℕ) (small : s ≤ w) (es : List Entry) (mask : ℕ)
    (whole : mask + 1 ≡ 2 ^ s) (p : IsPlaced hash (2 ^ s) es) (room : occupied es < 2 ^ s) where
  -- The loop of the code stops where the walk over the indices does.
  pub walk-ends :
      (q : ℕ)
      → (r : Stop) × (walk (mask + 1) w es mask q (hash q) 0 ≡ some r)
        × (seek_home hash (2 ^ s) es q ≡ some r.index)
        × (halts es q r.index ≡ true)
  walk-ends q =
      let e = seek_home-total hash (2 ^ s) es q p room in
      let m : mask ≡ 2 ^ s - 1 = omega arith in
      let stops : stop_index (walk (mask + 1) w es mask q (hash q) 0) ≡ some e.0 =
        rw (whole, m)
          (walk-seek (2 ^ s) w s es q (hash q) 0 (pow-le-pow_right (omega arith) small) ∙ e.1) in
      elim (Option-cases (walk (mask + 1) w es mask q (hash q) 0)) [
        | inl stuck ↦ absurd (ground arith)
        | inr (r, run) ↦
            let same : some e.0 ≡ some r.index = sym stops ∙ ap stop_index run in
            (r, run, e.1 ∙ same, subst (λ j. halts es q j ≡ true) (some_inj e.0 r.index same) e.3)
      ]

  pub insert_into-Placed :
      (k v : ℕ) (update : Bool)
      → k ≢ 0
      → (r : Inserted) × (insert_into w hash es mask k v update ≡ some r)
        × Placed hash (2 ^ s) es k v update r
  unfolding insert_into
  insert_into-Placed k v update key =
      let e = walk-ends k in
      (place es k v update e.0, rw e.1, place-Placed hash (2 ^ s) es k v update e.0 p room key e.2)

-- Wherever the loop of the code stops, the walk over the indices does too.
pub walk-home :
    (w : ℕ) (hash : ℕ → ℕ) (s : ℕ) (es : List Entry) (mask q : ℕ) (r : Stop)
    → s ≤ w
    → mask + 1 ≡ 2 ^ s
    → walk (mask + 1) w es mask q (hash q) 0 ≡ some r
    → seek_home hash (2 ^ s) es q ≡ some r.index
walk-home w hash s es mask q r small whole run =
    let m : 2 ^ s - 1 ≡ mask = omega arith in
    sym (walk-seek (2 ^ s) w s es q (hash q) 0 (pow-le-pow_right (omega arith) small))
    ∙ ap (λ (x : ℕ). stop_index (walk x w es (2 ^ s - 1) q (hash q) 0)) (sym whole)
    ∙ ap (λ (x : ℕ). stop_index (walk (mask + 1) w es x q (hash q) 0)) m
    ∙ ap stop_index run
