-- ===== src/Probe/Seek.antt =====
-- The walk over indices below the number of slots: it ends wherever a slot is empty, and it
-- does not depend on what stands behind the slot where it ends.
use granary.Common.Words.{bit_and-mask}
use granary.Common.{
  ℕ, zero, suc, ◌+◌, ◌-◌, ◌%◌, ◌^◌, ◌≤◌, ◌<◌, ◌≡◌, ◌≢◌, refl, sym, ◌∙◌, ap, true, Option, none,
  some, List, arith, ◌==◌, leb, if◌then◌else◌, length, set, Bool-cases, inl, inr, ◌⊎◌,
  get_or-set_self, get_or-set_ne, eq-cases,
}
use granary.Probe.{Entry, empty, key_at, halts, Stop, walk}
use native.Mathlib.Nat.{mod_self, mod-eq_of_lt, one-le-pow, mod-lt}

abbrev pub next : ℕ → ℕ → ℕ
next n i = if i + 1 == n then 0 else i + 1

-- The walk on indices, with no words and no scan.
unfoldable pub seek : ℕ → List Entry → ℕ → ℕ → ℕ → Option ℕ
seek zero es n key i = none
seek (suc fuel) es n key i =
    let rest = seek fuel es n key (next n i) in if halts es key i then some i else rest

abbrev gap : ℕ → ℕ → ℕ → ℕ
gap n i e = if leb i e then e - i else e + n - i

-- The walk from `i` stops, at or before a slot where it halts.
pub seek-total :
    (f : ℕ) (es : List Entry) (n key i e : ℕ)
    → i < n
    → e < n
    → halts es key e ≡ true
    → gap n i e < f
    → (j : ℕ) × (seek f es n key i ≡ some j)
unfolding seek
seek-total zero es n key i e hi he stop fuel = absurd (omega arith)
seek-total (suc f) es n key i e hi he stop fuel = elim (Bool-cases (halts es key i)) [
  | inl here ↦ (i, rw here)
  | inr on ↦
      let apart : i ≢ e = (λ (p : i ≡ e). ground arith) in
      let rest = seek-total f es n key (next n i) e (ground arith) he stop (ground arith) in
      (rest.0, rw on rest.1)
]

pub seek-halts :
    (f : ℕ) (es : List Entry) (n key i j : ℕ)
    → seek f es n key i ≡ some j
    → i < n
    → (j < n) × (halts es key j ≡ true)
unfolding seek
seek-halts zero es n key i j h hi = cc
seek-halts (suc f) es n key i j h hi = elim (Bool-cases (halts es key i)) [
  | inl here ↦ ground arith
  | inr on ↦ seek-halts f es n key (next n i) j (rw on at h) (ground arith)
]

-- Only the keys matter.
pub seek_congr :
    (f : ℕ) (es es' : List Entry) (n key i : ℕ)
    → ((j : ℕ) → key_at es j ≡ key_at es' j)
    → seek f es n key i ≡ seek f es' n key i
unfolding seek
seek_congr zero es es' n key i same = refl
seek_congr (suc f) es es' n key i same = rw (same i, seek_congr f es es' n key (next n i) same)

-- Filling an empty slot does not move a walk that ended elsewhere, nor that of the new key.
pub seek-set :
    (f : ℕ) (es : List Entry) (n q i j p k v : ℕ)
    → seek f es n q i ≡ some j
    → p < length es
    → key_at es p ≡ 0
    → (j ≢ p) ⊎ (q ≡ k)
    → seek f (set es p (record { key = k; value = v })) n q i ≡ some j
unfolding seek
seek-set zero es n q i j p k v h hp free why = cc
seek-set (suc f) es n q i j p k v h hp free why = elim (eq-cases i p) [
  | inl e ↦
      let here : halts es q i ≡ true = rw (e, free) in
      let j_eq : i ≡ j = ground arith in
      let now : key_at (set es p (record { key = k; value = v })) i ≡ k = rw e (
        ap (λ (x : Entry). x.key)
          (get_or-set_self es p (record { key = k; value = v }) empty hp)) in
      ground arith
  | inr ne ↦
      let same : key_at (set es p (record { key = k; value = v })) i ≡ key_at es i =
        ap (λ (x : Entry). x.key)
          (get_or-set_ne es p i (record { key = k; value = v }) empty (λ e. ne (sym e))) in
      elim (Bool-cases (halts es q i)) [
        | inl here ↦ ground arith
        | inr on ↦ rw (same, on) (seek-set f es n q (next n i) j p k v (rw on at h) hp free why)
      ]
]

wraps : (w n i : ℕ) → i < n → n ≤ w → (i + 1) % w % n ≡ next n i
wraps w n i hi hw = elim (eq-cases (i + 1) n) [
  | inl e ↦ elim (eq-cases n w) [
    | inl e' ↦ rw (e, e', mod_self w) (ground arith)
    | inr ne ↦ ground (arith, mod-eq_of_lt {n = i + 1} {m = w}, mod_self n)
  ]
  | inr ne ↦ ground (arith, mod-eq_of_lt {n = i + 1} {m = w}, mod-eq_of_lt {n = i + 1} {m = n})
]

abbrev pub stop_index : Option Stop → Option ℕ
stop_index none = none
stop_index (some s) = some s.index

-- The loop of the code is that walk: a mask of `s` ones is the remainder by the `2 ^ s` slots.
pub walk-seek :
    (f w s : ℕ) (es : List Entry) (key base scan : ℕ)
    → 2 ^ s ≤ 2 ^ w
    → stop_index (walk f w es (2 ^ s - 1) key base scan) ≡ seek f es (2 ^ s) key (base % 2 ^ s)
unfolding walk seek
walk-seek zero w s es key base scan h = refl
walk-seek (suc f) w s es key base scan h =
    let pos : 0 < 2 ^ s = one-le-pow s 2 (omega arith) in
    let lt : base % 2 ^ s < 2 ^ s = mod-lt base pos in
    let i = base % 2 ^ s in
    let ih : stop_index (walk f w es (2 ^ s - 1) key ((i + 1) % 2 ^ w) (scan + 1))
        ≡ seek f es (2 ^ s) key (next (2 ^ s) i) =
      walk-seek f w s es key ((i + 1) % 2 ^ w) (scan + 1) h
      ∙ ap (seek f es (2 ^ s) key) (wraps (2 ^ w) (2 ^ s) i lt h) in
    rw (bit_and-mask s base)
      (elim (Bool-cases (halts es key i)) [ inl here ↦ rw here | inr on ↦ rw on ih ])
