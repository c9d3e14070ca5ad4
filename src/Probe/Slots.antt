-- ===== src/Probe/Slots.antt =====
-- What the slots mean: a partial map from keys to values. Every key stands where the walk from
-- its hash leads, which fixes the slot of each key and keeps the keys apart.
use granary.Common.{
  ℕ, zero, suc, ◌+◌, ◌%◌, ◌<◌, ◌≡◌, ◌≢◌, refl, sym, ◌∙◌, ap, Bool, true, false, Option, none, some,
  List, [], ◌∷◌, arith, ◌==◌, if◌then◌else◌, length, get_or, set, Bool-cases, Option-cases, inl,
  inr, ◌⊎◌, get_or-set_self, get_or-set_ne, length-set, eq-cases, ==-true, ==-false, eq_of_==,
  some_inj,
}
use granary.Probe.{
  Entry, empty, key_at, halts, Stop, place, Inserted, StoreState, stored_new, stored_overwrite,
  skipped,
}
use granary.Probe.Seek.{seek, seek-total, seek-halts, seek_congr, seek-set}
use native.Mathlib.Nat.{mod-lt}
use mathlib.Core.Path.{subst}

abbrev pub value_at : List Entry → ℕ → ℕ
value_at es i = (get_or es i empty).value

abbrev pub used : ℕ → ℕ
used k = if k == 0 then 0 else 1

-- The number of slots in use.
unfoldable pub occupied : List Entry → ℕ
occupied [] = 0
occupied (e ∷ es) = used e.key + occupied es

pub free_slot :
    (es : List Entry) → occupied es < length es → (e : ℕ) × (e < length es) × (key_at es e ≡ 0)
unfolding occupied
free_slot [] h = absurd (omega arith)
free_slot (x ∷ es) h = elim (Bool-cases (x.key == 0)) [
  | inl free ↦ (0, omega arith, ground arith)
  | inr taken ↦ let rest = free_slot es (ground arith) in (suc rest.0, omega arith, rest.2)
]

pub occupied-set :
    (es : List Entry) (p : ℕ) (x : Entry)
    → p < length es
    → occupied (set es p x) + used (key_at es p) ≡ occupied es + used x.key
unfolding occupied
occupied-set [] p x h = absurd (omega arith)
occupied-set (y ∷ es) zero x h = ground arith
occupied-set (y ∷ es) (suc p) x h = omega (arith, occupied-set es p x (omega arith))

-- The value that a store leaves at its key, given what was there.
abbrev pub kept : Bool → ℕ → Option ℕ → ℕ
kept update v none = v
kept update v (some old) = if update then v else old

abbrev pub state_of : Bool → Option ℕ → StoreState
state_of update none = stored_new
state_of update (some old) = if update then stored_overwrite else skipped

abbrev pub newly : Option ℕ → ℕ
newly none = 1
newly (some _) = 0

abbrev read : List Entry → ℕ → Option ℕ → Option ℕ
read es q none = none
read es q (some j) = if key_at es j == q then some (value_at es j) else none

module _ (hash : ℕ → ℕ) (n : ℕ) where
  abbrev pub seek_home : List Entry → ℕ → Option ℕ
  seek_home es q = seek n es n q (hash q % n)

  -- The partial map.
  unfoldable pub lookup : List Entry → ℕ → Option ℕ
  lookup es q = read es q (seek_home es q)

  pub record IsPlaced (es : List Entry) : Type 0 where
    pub width : length es ≡ n
    pub placed : (i : ℕ) → i < n → key_at es i ≢ 0 → seek_home es (key_at es i) ≡ some i

  -- With a free slot every walk ends.
  pub seek_home-total :
      (es : List Entry) (q : ℕ)
      → IsPlaced es
      → occupied es < n
      → (j : ℕ) × (seek_home es q ≡ some j) × (j < n) × (halts es q j ≡ true)
  seek_home-total es q p room =
      let free = free_slot es (omega arith) in
      let lt : hash q % n < n = mod-lt (hash q) (omega arith) in
      let found =
        seek-total n es n q (hash q % n) free.0 lt (omega arith) (ground arith) (ground arith) in
      let ends = seek-halts n es n q (hash q % n) found.0 found.1 lt in
      (found.0, found.1, ends.0, ends.1)

  -- An entry that is anywhere in the slots is the one that its key leads to.
  pub lookup-placed :
      (es : List Entry) (i : ℕ)
      → IsPlaced es
      → i < n
      → key_at es i ≢ 0
      → lookup es (key_at es i) ≡ some (value_at es i)
  unfolding lookup
  lookup-placed es i p hi used_slot = rw (p.placed i hi used_slot) (ground arith)

  lookup-stop :
      (es : List Entry) (q j : ℕ)
      → seek_home es q ≡ some j
      → lookup es q ≡ (if key_at es j == q then some (value_at es j) else none)
  unfolding lookup
  lookup-stop es q j h = rw h

  -- What the map holds stands in some slot.
  pub lookup-slot :
      (es : List Entry) (q x : ℕ)
      → 0 < n
      → lookup es q ≡ some x
      → (j : ℕ) × (j < n) × (key_at es j ≡ q) × (value_at es j ≡ x)
  unfolding lookup
  lookup-slot es q x pos h = elim (Option-cases (seek_home es q)) [
    | inl e ↦ absurd (ground arith)
    | inr (j, e) ↦
        let lt = (seek-halts n es n q (hash q % n) j e (mod-lt (hash q) pos)).0 in
        (j, lt, ground arith, ground arith)
  ]

  lookup-miss :
      (es : List Entry) (q j : ℕ) → seek_home es q ≡ some j → key_at es j ≢ q → lookup es q ≡ none
  lookup-miss es q j h ne = lookup-stop es q j h ∙ rw (==-false (key_at es j) q ne)

  -- The slots after the loop of `insert` ended at `j`.
  pub record Placed (es : List Entry) (k v : ℕ) (update : Bool) (r : Inserted) : Type 0 where
    pub state : r.state ≡ state_of update (lookup es k)
    pub placed : IsPlaced r.entries
    pub count : occupied r.entries ≡ occupied es + newly (lookup es k)
    pub reads :
        (q : ℕ)
        → q ≢ 0
        → lookup r.entries q ≡ (if q == k then some (kept update v (lookup es k)) else lookup es q)

  module _ (es : List Entry) (k v j : ℕ) (p : IsPlaced es) (key : k ≢ 0)
      (ends : seek_home es k ≡ some j) (lt : j < n) where
    abbrev es' : List Entry
    es' = set es j (record { key = k; value = v })

    self : get_or es' j empty ≡ record { key = k; value = v }
    self = get_or-set_self es j (record { key = k; value = v }) empty (omega (arith, p.width))

    self_key : key_at es' j ≡ k
    self_key = ap (λ (x : Entry). x.key) self

    self_value : value_at es' j ≡ v
    self_value = ap (λ (x : Entry). x.value) self

    other : (i : ℕ) → i ≢ j → get_or es' i empty ≡ get_or es i empty
    other i ne = get_or-set_ne es j i (record { key = k; value = v }) empty (λ e. ne (sym e))

    other_key : (i : ℕ) → i ≢ j → key_at es' i ≡ key_at es i
    other_key i ne = ap (λ (x : Entry). x.key) (other i ne)

    other_value : (i : ℕ) → i ≢ j → value_at es' i ≡ value_at es i
    other_value i ne = ap (λ (x : Entry). x.value) (other i ne)

    wide : j < length es
    wide = omega (arith, p.width)

    width' : length es' ≡ n
    width' = length-set es j (record { key = k; value = v }) ∙ p.width

    -- A walk of another key that ends elsewhere reads the same as before.
    reads_other :
        (q i : ℕ)
        → q ≢ k
        → i ≢ j
        → seek_home es q ≡ some i
        → seek_home es' q ≡ some i
        → lookup es' q ≡ lookup es q
    reads_other q i qk ne old new =
        lookup-stop es' q i new
        ∙ (rw (other_key i ne, other_value i ne) refl)
        ∙ sym (lookup-stop es q i old)

    reads_self : seek_home es' k ≡ some j → lookup es' k ≡ some v
    reads_self new = lookup-stop es' k j new ∙ ground (arith, self_key, self_value)

    module _ (free : key_at es j ≡ 0) where
      fill-seek : (q i : ℕ) → seek_home es q ≡ some i → (i ≢ j) ⊎ (q ≡ k) → seek_home es' q ≡ some i
      fill-seek q i h why = seek-set n es n q (hash q % n) i j k v h wide free why

      fill-absent : lookup es k ≡ none
      fill-absent = lookup-stop es k j ends ∙ ground arith

      pub fill-IsPlaced : IsPlaced es'
      fill-IsPlaced = record {
        width = width';
        placed = λ i hi taken. elim (eq-cases i j) [
          | inl e ↦ rw (e, self_key) (fill-seek k j ends (inr refl))
          | inr ne ↦
              rw (other_key i ne) (
                fill-seek (key_at es i) i (p.placed i hi (λ z. taken (other_key i ne ∙ z)))
                  (inl ne))
        ];
      }

      -- The walk of another key that ended at the free slot finds nothing there, nor behind it.
      fill-none :
          (q : ℕ)
          → q ≢ 0
          → q ≢ k
          → seek_home es q ≡ some j
          → (o : Option ℕ) → seek_home es' q ≡ o
          → lookup es' q ≡ none
      unfolding lookup
      fill-none q q0 qk h none e = rw e
      fill-none q q0 qk h (some i) e = elim (Bool-cases (key_at es' i == q)) [
        | inr miss ↦ rw (e, miss)
        | inl hit ↦
            let at : key_at es' i ≡ q = eq_of_== (key_at es' i) q hit in
            let hi : i < n =
              (seek-halts n es' n q (hash q % n) i e (mod-lt (hash q) (omega arith))).0 in
            let ne : i ≢ j = (λ (x : i ≡ j). qk (sym at ∙ ap (key_at es') x ∙ self_key)) in
            let old : key_at es i ≡ q = sym (other_key i ne) ∙ at in
            let there : seek_home es q ≡ some i =
              subst (λ t. seek_home es t ≡ some i) old (p.placed i hi (λ z. q0 (sym old ∙ z))) in
            absurd (ne (some_inj i j (sym there ∙ h)))
      ]

      fill-reads :
          (q : ℕ)
          → q ≢ 0
          → occupied es < n
          → lookup es' q ≡ (if q == k then some v else lookup es q)
      fill-reads q q0 room = elim (eq-cases q k) [
        | inl e ↦ rw (e, ==-true k k refl) (reads_self (fill-seek k j ends (inr refl)))
        | inr qk ↦
            let w = seek_home-total es q p room in
            rw (==-false q k qk) (elim (eq-cases w.0 j) [
              | inl e ↦
                  let h : seek_home es q ≡ some j = w.1 ∙ ap some e in
                  fill-none q q0 qk h (seek_home es' q) refl
                  ∙ sym (lookup-miss es q j h (λ z. q0 (sym z ∙ free)))
              | inr ne ↦ reads_other q w.0 qk ne w.1 (fill-seek q w.0 w.1 (inl ne))
            ])
      ]

    module _ (taken : key_at es j ≡ k) where
      same_keys : (i : ℕ) → key_at es i ≡ key_at es' i
      same_keys i = elim (eq-cases i j) [
        | inl e ↦ rw e (taken ∙ sym self_key)
        | inr ne ↦ sym (other_key i ne)
      ]

      same-seek : (q : ℕ) → seek_home es' q ≡ seek_home es q
      same-seek q = sym (seek_congr n es es' n q (hash q % n) same_keys)

      taken-present : lookup es k ≡ some (value_at es j)
      taken-present = lookup-stop es k j ends ∙ ground arith

      overwrite-IsPlaced : IsPlaced es'
      overwrite-IsPlaced = record {
        width = width';
        placed = λ i hi some_key.
            rw (← same_keys i)
              (same-seek (key_at es i) ∙ p.placed i hi (λ z. some_key (sym (same_keys i) ∙ z)));
      }

      overwrite-reads :
          (q : ℕ) → occupied es < n → lookup es' q ≡ (if q == k then some v else lookup es q)
      overwrite-reads q room = elim (eq-cases q k) [
        | inl e ↦ rw (e, ==-true k k refl) (reads_self (same-seek k ∙ ends))
        | inr qk ↦
            let w = seek_home-total es q p room in
            rw (==-false q k qk) (elim (eq-cases w.0 j) [
              | inl e ↦
                  let h : seek_home es q ≡ some j = w.1 ∙ ap some e in
                  lookup-miss es' q j (same-seek q ∙ h) (λ z. qk (sym z ∙ self_key))
                  ∙ sym (lookup-miss es q j h (λ z. qk (sym z ∙ taken)))
              | inr ne ↦ reads_other q w.0 qk ne w.1 (same-seek q ∙ w.1)
            ])
      ]

  module _ (es : List Entry) (k v : ℕ) (key : k ≢ 0) (p : IsPlaced es) (room : occupied es < n)
      (s : Stop) (ends : seek_home es k ≡ some s.index) (lt : s.index < n) where
    abbrev put_entry : List Entry
    put_entry = set es s.index (record { key = k; value = v })

    fill-Placed :
        (update : Bool)
        → key_at es s.index ≡ 0
        → Placed es k v update (record { state = stored_new; scan = s.scan; entries = put_entry })
    fill-Placed update free =
        let absent = fill-absent es k v s.index p key ends lt free in
        record {
          state = rw absent;
          placed = fill-IsPlaced es k v s.index p key ends lt free;
          count =
              rw absent
                (ground (arith, occupied-set es s.index (record { key = k; value = v }), p.width));
          reads = λ q q0. rw absent (fill-reads es k v s.index p key ends lt free q q0 room);
        }

    overwrite-Placed :
        key_at es s.index ≡ k
        → Placed es k v true
            (record { state = stored_overwrite; scan = s.scan; entries = put_entry })
    overwrite-Placed taken =
        let present = taken-present es k v s.index p key ends lt taken in
        record {
          state = rw present;
          placed = overwrite-IsPlaced es k v s.index p key ends lt taken;
          count =
              rw present
                (ground (arith, occupied-set es s.index (record { key = k; value = v }), p.width));
          reads = λ q q0. rw present (overwrite-reads es k v s.index p key ends lt taken q room);
        }

    skip-Placed :
        key_at es s.index ≡ k
        → Placed es k v false (record { state = skipped; scan = s.scan; entries = es })
    skip-Placed taken =
        let present = taken-present es k v s.index p key ends lt taken in
        record {
          state = rw present;
          placed = p;
          count = rw present (omega arith);
          reads = λ q q0. rw present (elim (eq-cases q k) [
            | inl e ↦ rw (e, ==-true k k refl) present
            | inr ne ↦ rw (==-false q k ne)
          ]);
        }

  -- What `place` leaves, on each of its three branches.
  pub place-Placed :
      (es : List Entry) (k v : ℕ) (update : Bool) (s : Stop)
      → IsPlaced es
      → occupied es < n
      → k ≢ 0
      → seek_home es k ≡ some s.index
      → Placed es k v update (place es k v update s)
  unfolding place
  place-Placed es k v update s p room key ends =
      let w = seek_home-total es k p room in
      let same : w.0 ≡ s.index = some_inj w.0 s.index (sym w.1 ∙ ends) in
      let lt : s.index < n = omega arith in
      let stop : halts es k s.index ≡ true = subst (λ i. halts es k i ≡ true) same w.3 in
      elim (eq-cases (key_at es s.index) 0) [
        | inl free ↦
            rw (==-true (key_at es s.index) 0 free)
              (fill-Placed es k v key p room s ends lt update free)
        | inr ne ↦
            let taken : key_at es s.index ≡ k = ground arith in
            rw (==-false (key_at es s.index) 0 ne) (elim (Bool-cases update) [
              | inl u ↦ rw (u, taken) (overwrite-Placed es k v key p room s ends lt taken)
              | inr u ↦ rw u (skip-Placed es k v key p room s ends lt taken)
            ])
      ]
