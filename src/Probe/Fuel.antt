-- ===== src/Probe/Fuel.antt =====
-- The walk under different bounds on its rounds, and how far it went.
use granary.Common.{
  ℕ, zero, suc, ◌+◌, ◌%◌, ◌^◌, ◌≤◌, ◌<◌, bit_and, ◌≡◌, refl, sym, ap, true, false, none, some, List,
  arith, length, set, Bool-cases, inl, inr, get_or-set_self, get_or-set_ne, eq-cases,
}
use granary.Probe.{Entry, empty, key_at, halts, Stop, walk}

module _ (w : ℕ) (es : List Entry) (mask key : ℕ) where
  pub walk_scan :
      (f base scan : ℕ) (r : Stop)
      → walk f w es mask key base scan ≡ some r
      → (r.scan < scan + f) × (halts es key r.index ≡ true)
  unfolding walk
  walk_scan zero base scan r h = absurd (cc)
  walk_scan (suc f) base scan r h = elim (Bool-cases (halts es key (bit_and base mask))) [
    | inl here ↦ ground arith
    | inr on ↦
        let ih = walk_scan f ((bit_and base mask + 1) % 2 ^ w) (scan + 1) r (rw on at h) in
        (omega arith, ih.1)
  ]

  walk_least :
      (f base scan : ℕ) (r : Stop) → walk f w es mask key base scan ≡ some r → scan ≤ r.scan
  unfolding walk
  walk_least zero base scan r h = absurd (cc)
  walk_least (suc f) base scan r h = elim (Bool-cases (halts es key (bit_and base mask))) [
    | inl here ↦ ground arith
    | inr on ↦
        omega (arith, walk_least f ((bit_and base mask + 1) % 2 ^ w) (scan + 1) r (rw on at h))
  ]

  -- More rounds do not change where the walk ends.
  pub walk_more :
      (f g base scan : ℕ) (r : Stop)
      → walk f w es mask key base scan ≡ some r
      → f ≤ g
      → walk g w es mask key base scan ≡ some r
  unfolding walk
  walk_more zero g base scan r h le = absurd (cc)
  walk_more (suc f) zero base scan r h le = absurd (omega arith)
  walk_more (suc f) (suc g) base scan r h le =
      elim (Bool-cases (halts es key (bit_and base mask))) [
        | inl here ↦ rw here (rw here at h)
        | inr on ↦ rw on (
            walk_more f g ((bit_and base mask + 1) % 2 ^ w) (scan + 1) r (rw on at h) (omega arith))
      ]

  -- Fewer rounds do, only if the walk went too far.
  pub walk_fewer :
      (g f base scan : ℕ) (r : Stop)
      → walk g w es mask key base scan ≡ some r
      → r.scan < scan + f
      → walk f w es mask key base scan ≡ some r
  unfolding walk
  walk_fewer zero f base scan r h lt = absurd (cc)
  walk_fewer (suc g) zero base scan r h lt = elim (Bool-cases (halts es key (bit_and base mask))) [
    | inl here ↦ absurd (ground arith)
    | inr on ↦
        absurd
          (omega (arith, walk_least g ((bit_and base mask + 1) % 2 ^ w) (scan + 1) r (rw on at h)))
  ]
  walk_fewer (suc g) (suc f) base scan r h lt =
      elim (Bool-cases (halts es key (bit_and base mask))) [
        | inl here ↦ rw here (rw here at h)
        | inr on ↦ rw on (
            walk_fewer g f ((bit_and base mask + 1) % 2 ^ w) (scan + 1) r (rw on at h)
              (omega arith))
      ]

  -- With no slot to halt at, the walk goes on for ever.
  pub walk-none :
      ((i : ℕ) → halts es key (bit_and i mask) ≡ false)
      → (f base scan : ℕ) → walk f w es mask key base scan ≡ none
  unfolding walk
  walk-none never zero base scan = refl
  walk-none never (suc f) base scan =
      rw (never base) (walk-none never f ((bit_and base mask + 1) % 2 ^ w) (scan + 1))

-- Once the free slot where it ended is filled with its key, the walk of the key ends there again,
-- as far from its start.
pub walk-set :
    (w : ℕ) (es : List Entry) (mask k v f base scan : ℕ) (r : Stop)
    → walk f w es mask k base scan ≡ some r
    → r.index < length es
    → key_at es r.index ≡ 0
    → walk f w (set es r.index (record { key = k; value = v })) mask k base scan ≡ some r
unfolding walk
walk-set w es mask k v zero base scan r h lt free = absurd (cc)
walk-set w es mask k v (suc f) base scan r h lt free = elim (eq-cases (bit_and base mask) r.index) [
  | inl e ↦
      let here : halts es k (bit_and base mask) ≡ true = rw (e, free) in
      let key : key_at (set es r.index (record { key = k; value = v })) r.index ≡ k =
        ap (λ (x : Entry). x.key)
          (get_or-set_self es r.index (record { key = k; value = v }) empty lt) in
      let now : halts (set es r.index (record { key = k; value = v })) k (bit_and base mask)
          ≡ true =
        rw (e, key) (ground arith) in
      rw now (rw here at h)
  | inr ne ↦
      let same : key_at (set es r.index (record { key = k; value = v })) (bit_and base mask)
          ≡ key_at es (bit_and base mask) =
        ap (λ (x : Entry). x.key)
          (get_or-set_ne es r.index (bit_and base mask) (record { key = k; value = v }) empty
            (λ e. ne (sym e))) in
      elim (Bool-cases (halts es k (bit_and base mask))) [
        | inl here ↦ absurd (ground arith)
        | inr on ↦
            rw (same, on)
              (walk-set w es mask k v f ((bit_and base mask + 1) % 2 ^ w) (scan + 1) r (rw on at h)
                lt free)
      ]
]
