-- ===== src/Probe/Transfer.antt =====
-- Growing: every entry of the old slots is found again in the new ones.
use granary.Common.{
  ℕ, zero, suc, ◌+◌, ◌^◌, ◌≤◌, ◌<◌, ◌≡◌, ◌≢◌, refl, sym, ◌∙◌, ap, true, Option, none, some, List,
  [], ◌∷◌, arith, ◌==◌, if◌then◌else◌, ◌>>=◌, Option-cases, inl, inr, some_inj, length, eq-cases,
  ==-true, ==-false, ◌⊎◌, replicate, length-replicate, get_or-replicate,
}
use granary.Probe.Insert.{insert_into-Placed}
use granary.Probe.{transfer, Entry, empty, key_at}
use granary.Probe.Slots.{IsPlaced, occupied, lookup, lookup-placed, lookup-slot, value_at, kept}

-- The entries of `old` that are in use, written one after the other over a partial map.
abbrev pub override : List Entry → ℕ → Option ℕ → Option ℕ
override [] q o = o
override (e ∷ old) q o =
    override old q (if e.key == 0 then o else if q == e.key then some e.value else o)

override-none :
    (es : List Entry) (q : ℕ) (o : Option ℕ)
    → q ≢ 0
    → ((i : ℕ) → i < length es → key_at es i ≢ q)
    → override es q o ≡ o
override-none [] q o q0 h = refl
override-none (e ∷ es) q o q0 h =
    ground (arith, h 0, override-none es q o q0 (λ i lt. h (suc i) (omega arith)))

override-some :
    (es : List Entry) (q x : ℕ) (o : Option ℕ)
    → q ≢ 0
    → ((i : ℕ) → i < length es → key_at es i ≡ q → value_at es i ≡ x)
    → (o ≡ some x) ⊎ ((i : ℕ) × (i < length es) × (key_at es i ≡ q))
    → override es q o ≡ some x
override-some [] q x o q0 all (inl h) = h
override-some [] q x o q0 all (inr h) = absurd (omega arith)
override-some (e ∷ es) q x o q0 all (inl h) =
    override-some es q x _ q0 (λ i lt at. all (suc i) (omega arith) at)
      (inl (ground (arith, all 0)))
override-some (e ∷ es) q x o q0 all (inr (zero, lt, at)) =
    override-some es q x _ q0 (λ i lt at. all (suc i) (omega arith) at)
      (inl (ground (arith, all 0)))
override-some (e ∷ es) q x o q0 all (inr (suc i, lt, at)) =
    override-some es q x _ q0 (λ i lt at. all (suc i) (omega arith) at) (inr (i, omega arith, at))

false_of : (a : ℕ) → some a ≡ none → ⊥
false_of a h = cc

kept-true : (v : ℕ) (o : Option ℕ) → kept true v o ≡ v
kept-true v none = refl
kept-true v (some x) = refl

module _ (hash : ℕ → ℕ) where
  -- Over well-placed slots that is the partial map of the slots.
  pub override-lookup :
      (n : ℕ) (es : List Entry) (q : ℕ)
      → 0 < n
      → IsPlaced hash n es
      → q ≢ 0
      → override es q none ≡ lookup hash n es q
  override-lookup n es q pos p q0 = elim (Option-cases (lookup hash n es q)) [
    | inl absent ↦
        override-none es q none q0 (λ i lt at. false_of (value_at es i) (
          sym (lookup-placed hash n es i p (omega (arith, p.width)) (λ z. q0 (sym at ∙ z)))
          ∙ ap (lookup hash n es) at
          ∙ absent))
        ∙ sym absent
    | inr (x, found) ↦
        let slot = lookup-slot hash n es q x pos found in
        override-some es q x none q0
          (λ i lt at. some_inj (value_at es i) x (
            sym (lookup-placed hash n es i p (omega (arith, p.width)) (λ z. q0 (sym at ∙ z)))
            ∙ ap (lookup hash n es) at
            ∙ found))
          (inr (slot.0, omega (arith, p.width), slot.2))
        ∙ sym found
  ]

  -- The fresh slots hold nothing.
  pub occupied-replicate : (n : ℕ) → occupied (replicate n empty) ≡ 0
  unfolding occupied
  occupied-replicate zero = refl
  occupied-replicate (suc n) = omega (arith, occupied-replicate n)

  pub replicate-IsPlaced : (n : ℕ) → IsPlaced hash n (replicate n empty)
  replicate-IsPlaced n = record {
    width = length-replicate n empty;
    placed = λ i lt taken. absurd (taken (ap (λ (x : Entry). x.key) (get_or-replicate n i empty)));
  }

  pub lookup-replicate : (n q : ℕ) → q ≢ 0 → 0 < n → lookup hash n (replicate n empty) q ≡ none
  lookup-replicate n q q0 pos = elim (Option-cases (lookup hash n (replicate n empty) q)) [
    | inl e ↦ e
    | inr (x, e) ↦
        let slot = lookup-slot hash n (replicate n empty) q x pos e in
        absurd (q0 (sym slot.2 ∙ ap (λ (y : Entry). y.key) (get_or-replicate n slot.0 empty)))
  ]

  -- What the slots are after the entries of `old` were moved into `es`.
  pub record Moved (s : ℕ) (old es es' : List Entry) : Type 0 where
    pub placed : IsPlaced hash (2 ^ s) es'
    pub count : occupied es' ≤ occupied es + occupied old
    pub reads :
        (q : ℕ) → q ≢ 0 → lookup hash (2 ^ s) es' q ≡ override old q (lookup hash (2 ^ s) es q)

  module _ (w s : ℕ) (small : s ≤ w) (mask : ℕ) (whole : mask + 1 ≡ 2 ^ s) where
    pub transfer-Moved :
        (old es : List Entry)
        → IsPlaced hash (2 ^ s) es
        → occupied es + occupied old < 2 ^ s
        → (es' : List Entry) × (transfer w hash old mask es ≡ some es') × Moved s old es es'
    unfolding transfer occupied
    transfer-Moved [] es p room =
        (es, refl, record { placed = p; count = omega arith; reads = λ q q0. refl })
    transfer-Moved (e ∷ old) es p room = elim (eq-cases e.key 0) [
      | inl free ↦
          let rest = transfer-Moved old es p (ground arith) in
          (
            rest.0,
            rw (==-true e.key 0 free) rest.1,
            record {
              placed = rest.2.placed;
              count = ground (arith, rest.2.count);
              reads = λ q q0. rest.2.reads q q0 ∙ rw (==-true e.key 0 free);
            },
          )
      | inr key ↦
          let one =
            insert_into-Placed w hash s small es mask whole p (ground arith) e.key e.value true
              key in
          let fit : occupied (one.0).entries ≤ occupied es + 1 = ground (arith, one.2.count) in
          let rest = transfer-Moved old (one.0).entries one.2.placed (ground arith) in
          (
            rest.0,
            rw (==-false e.key 0 key, one.1, ◌>>=◌) rest.1,
            record {
              placed = rest.2.placed;
              count = ground (arith, rest.2.count);
              reads = λ q q0.
                  rest.2.reads q q0
                  ∙ ap (override old q) (
                      one.2.reads q q0
                      ∙ rw
                          (==-false e.key 0 key, kept-true e.value (lookup hash (2 ^ s) es e.key)));
            },
          )
    ]
