-- ===== src/HashTable/Entries.antt =====
-- The traversal `for_each_entry` of granary/hash_table.h, against the partial map of the table.
use granary.Common.{
  ℕ, zero, suc, ◌^◌, ◌<◌, ◌≡◌, ◌≢◌, refl, sym, ◌∙◌, ap, Option, none, some, List, [], ◌∷◌, arith,
  ◌==◌, if◌then◌else◌, length, Option-cases, inl, inr, some_inj,
}
use granary.HashTable.Store.{view}
use granary.HashTable.Valid.{IsTable}
use granary.HashTable.{HashTable, for_each_entry}
use granary.Probe.Slots.{lookup-placed, lookup-slot, seek_home, value_at}
use granary.Probe.{Entry, key_at}
use native.Mathlib.Nat.{one-le-pow}

-- The values that the calls of the callback pass for a key, in order.
abbrev pub values_for : ℕ → List (ℕ × ℕ) → List ℕ
values_for q [] = []
values_for q ((k, v) ∷ calls) = if k == q then v ∷ values_for q calls else values_for q calls

abbrev pub at_most_one : Option ℕ → List ℕ
at_most_one none = []
at_most_one (some v) = v ∷ []

values-none :
    (es : List Entry) (q : ℕ)
    → ((i : ℕ) → i < length es → key_at es i ≢ q)
    → values_for q (for_each_entry es) ≡ []
unfolding for_each_entry
values-none [] q h = refl
values-none (e ∷ es) q h = ground (arith, h 0, values-none es q (λ i lt. h (suc i) (omega arith)))

values-one :
    (es : List Entry) (q j : ℕ)
    → q ≢ 0
    → j < length es
    → key_at es j ≡ q
    → ((i : ℕ) → i < length es → key_at es i ≡ q → i ≡ j)
    → values_for q (for_each_entry es) ≡ value_at es j ∷ []
unfolding for_each_entry
values-one [] q j q0 lt at only = absurd (omega arith)
values-one (e ∷ es) q zero q0 lt at only =
    ground (
      arith,
      values-none es q (λ i lt' at'. absurd (omega (arith, only (suc i) (omega arith) at'))),
    )
values-one (e ∷ es) q (suc j) q0 lt at only = ground (
  arith,
  only 0,
  values-one es q j q0 (omega arith) at
      (λ i lt' at'. omega (arith, only (suc i) (omega arith) at')),
)

module _ (hash : ℕ → ℕ) (s : ℕ) (t : HashTable) (valid : IsTable hash s t) where
  slots : 0 < 2 ^ s
  slots = one-le-pow s 2 (omega arith)

  home :
      (i : ℕ) {q : ℕ}
      → i < 2 ^ s
      → key_at t.entries i ≡ q
      → q ≢ 0
      → seek_home hash (2 ^ s) t.entries q ≡ some i
  home i lt at q0 =
      ap (seek_home hash (2 ^ s) t.entries) (sym at)
      ∙ (valid.placed).placed i lt (λ z. q0 (sym at ∙ z))

  -- Over a valid table, and for each key that is not the default one, `for_each_entry` calls its
  -- callback once if the table maps the key, with the value that it is mapped to, and never
  -- otherwise.
  pub for_each_entry_lem :
      (q : ℕ) → q ≢ 0 → values_for q (for_each_entry t.entries) ≡ at_most_one (view hash s t q)
  for_each_entry_lem q q0 = elim (Option-cases (view hash s t q)) [
    | inl missing ↦ rw missing (
        values-none t.entries q λ i lt at. cc (
          lookup-placed hash (2 ^ s) t.entries i valid.placed (omega (arith, (valid.placed).width))
              (λ z. q0 (sym at ∙ z)),
          ap (view hash s t) at,
          missing,
        ))
    | inr (x, found) ↦
        let j = lookup-slot hash (2 ^ s) t.entries q x slots found in
        rw (found, ← j.3)
          (values-one t.entries q j.0 q0 (omega (arith, j.1, (valid.placed).width)) j.2 λ i lt at.
            some_inj i j.0
              (sym (home i (omega (arith, (valid.placed).width)) at q0) ∙ home j.0 j.1 j.2 q0))
  ]
