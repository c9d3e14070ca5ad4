-- ===== src/BumpAllocator/Search.antt =====
-- `slab_search` is a best fit: it takes out of the list a smallest slab that is big enough.
use granary.Common.{
  ℕ, zero, suc, ◌+◌, ◌≤◌, ◌<◌, ◌≡◌, ◌≢◌, refl, ap, true, false, ◌&&◌, Option, none, some, List, [],
  ◌∷◌, arith, ◌==◌, ltb, ◌>>=◌, Bool-cases, Option-cases, inl, inr, ◌⊎◌,
}
use mathlib.Core.Path.{subst}
use granary.BumpAllocator.{Slab, better, scan_slabs, unlink, slab_search}
use mathlib.Core.List.Perm
use mathlib.Core.List.{Perm}

abbrev pub All {ℓ} : {A : Type ℓ} → (A → Type 0) → List A → Type 0
All P [] = Unit {0}
All P (x ∷ xs) = P x × All P xs

-- No slab of the list that is big enough is smaller than `n`.
abbrev pub Least : ℕ → ℕ → List Slab → Type 0
Least size n slabs = All (λ (t : Slab). size ≤ t.size → n ≤ t.size) slabs

-- Every slab of the list is too small.
abbrev pub Small : ℕ → List Slab → Type 0
Small size slabs = All (λ (t : Slab). t.size < size) slabs

-- The slab at place `k` is `s`.
abbrev pub At : List Slab → ℕ → Slab → Type 0
At [] k s = ⊥
At (t ∷ slabs) zero s = t ≡ s
At (t ∷ slabs) (suc k) s = At slabs k s

-- What the loop may have found before: a slab that is too big.
abbrev Bigger : ℕ → Option (ℕ × ℕ) → Type 0
Bigger size none = Unit {0}
Bigger size (some (j, n)) = size < n

abbrev NoMore : ℕ → Option (ℕ × ℕ) → Type 0
NoMore n none = Unit {0}
NoMore n (some (j, m)) = n ≤ m

record Scanned (size : ℕ) (slabs : List Slab) (i : ℕ) (best : Option (ℕ × ℕ)) (j n : ℕ)
    : Type 0 where
  enough : size ≤ n
  least : Least size n slabs
  no_more : NoMore n best
  place : (best ≡ some (j, n)) ⊎ ((k : ℕ) × (s : Slab) × (j ≡ i + k) × At slabs k s × (s.size ≡ n))

Least-any : (size : ℕ) (slabs : List Slab) → Least size size slabs
Least-any size [] = tt
Least-any size (s ∷ slabs) = ((λ h. h), Least-any size slabs)

Least-any-of : (size n : ℕ) (slabs : List Slab) → n ≡ size → Least size n slabs
Least-any-of size n slabs e = rw e (Least-any size slabs)

NoMore-exact : (size n : ℕ) (best : Option (ℕ × ℕ)) → Bigger size best → n ≡ size → NoMore n best
NoMore-exact size n none b e = tt
NoMore-exact size n (some (j, m)) b e = omega arith

NoMore-better : (x n : ℕ) (best : Option (ℕ × ℕ)) → better best x ≡ true → n ≤ x → NoMore n best
NoMore-better x n none b le = tt
NoMore-better x n (some (j, m)) b le = ground arith

NoMore-worse : (x n : ℕ) (best : Option (ℕ × ℕ)) → better best x ≡ false → NoMore n best → n ≤ x
NoMore-worse x n none b h = absurd (cc)
NoMore-worse x n (some (j, m)) b h = ground arith

pair_inj : (a b c d : ℕ) → ◌≡◌ {A = Option (ℕ × ℕ)} (some (a, b)) (some (c, d)) → (a ≡ c) × (b ≡ d)
pair_inj a b c d h = (cc, cc)

here :
    (s : Slab) (slabs : List Slab) (i j n : ℕ)
    → ◌≡◌ {A = Option (ℕ × ℕ)} (some (i, s.size)) (some (j, n))
    → (k : ℕ) × (t : Slab) × (j ≡ i + k) × At (s ∷ slabs) k t × (t.size ≡ n)
here s slabs i j n h = let e = pair_inj i s.size j n h in (0, s, omega arith, refl, e.1)

there :
    (s : Slab) (slabs : List Slab) (i j n : ℕ)
    → (k : ℕ) × (t : Slab) × (j ≡ i + 1 + k) × At slabs k t × (t.size ≡ n)
    → (k : ℕ) × (t : Slab) × (j ≡ i + k) × At (s ∷ slabs) k t × (t.size ≡ n)
there s slabs i j n (k, t, e, at, size) = (suc k, t, omega arith, at, size)

skipped :
    (size : ℕ) (s : Slab) (slabs : List Slab) (i : ℕ) (best : Option (ℕ × ℕ)) (j n : ℕ)
    → s.size ≢ size
    → (ltb size s.size && better best s.size) ≡ false
    → Scanned size slabs (i + 1) best j n
    → Scanned size (s ∷ slabs) i best j n
skipped size s slabs i best j n other test r = record {
  enough = r.enough;
  least = ((λ fits. NoMore-worse s.size n best (ground arith) r.no_more), r.least);
  no_more = r.no_more;
  place = elim r.place [ inl e ↦ inl e | inr at ↦ inr (there s slabs i j n at) ];
}

taken :
    (size : ℕ) (s : Slab) (slabs : List Slab) (i : ℕ) (best : Option (ℕ × ℕ)) (j n : ℕ)
    → better best s.size ≡ true
    → Scanned size slabs (i + 1) (some (i, s.size)) j n
    → Scanned size (s ∷ slabs) i best j n
taken size s slabs i best j n test r = record {
  enough = r.enough;
  least = ((λ fits. r.no_more), r.least);
  no_more = NoMore-better s.size n best test r.no_more;
  place = elim r.place [
    | inl e ↦ inr (here s slabs i j n e)
    | inr at ↦ inr (there s slabs i j n at)
  ];
}

scan-Scanned :
    (size : ℕ) (slabs : List Slab) (i : ℕ) (best : Option (ℕ × ℕ)) (j n : ℕ)
    → Bigger size best
    → scan_slabs size slabs i best ≡ some (j, n)
    → Scanned size slabs i best j n
unfolding scan_slabs
scan-Scanned size [] i none j n b h = absurd (cc)
scan-Scanned size [] i (some (j', n')) j n b h =
    let e = pair_inj j' n' j n h in
    record { enough = omega arith; least = tt; no_more = omega arith; place = inl h }
scan-Scanned size (s ∷ slabs) i best j n b h = elim (Bool-cases (s.size == size)) [
  | inl exact ↦
      let h' : ◌≡◌ {A = Option (ℕ × ℕ)} (some (i, s.size)) (some (j, n)) = rw exact at h in
      let e = pair_inj i s.size j n h' in
      let same : n ≡ size = ground arith in
      record {
        enough = omega arith;
        least = ((λ fits. omega arith), Least-any-of size n slabs same);
        no_more = NoMore-exact size n best b same;
        place = inr (here s slabs i j n h');
      }
  | inr other ↦ elim (Bool-cases (ltb size s.size && better best s.size)) [
    | inr worse ↦
        skipped size s slabs i best j n (ground arith) worse
          (scan-Scanned size slabs (i + 1) best j n b (rw worse at (rw other at h)))
    | inl first ↦ taken size s slabs i best j n (ground arith) (
        scan-Scanned size slabs (i + 1) (some (i, s.size)) j n (ground arith)
          (rw first at (rw other at h)))
  ]
]

-- The loop finds nothing only if nothing was found before and every slab is too small.
scan-none :
    (size : ℕ) (slabs : List Slab) (i : ℕ) (best : Option (ℕ × ℕ))
    → scan_slabs size slabs i best ≡ none
    → (best ≡ none) × Small size slabs
unfolding scan_slabs
scan-none size [] i best h = (h, tt)
scan-none size (s ∷ slabs) i best h = elim (Bool-cases (s.size == size)) [
  | inl exact ↦ absurd (ground arith)
  | inr other ↦ elim (Bool-cases (ltb size s.size && better best s.size)) [
    | inr worse ↦
        let ih = scan-none size slabs (i + 1) best (rw worse at (rw other at h)) in
        (ih.0, (ground arith, ih.1))
    | inl first ↦
        let ih = scan-none size slabs (i + 1) (some (i, s.size)) (rw first at (rw other at h)) in
        absurd (ground arith)
  ]
]

unlink-At :
    (k : ℕ) (slabs : List Slab) (s : Slab)
    → At slabs k s
    → (rest : List Slab) × (unlink k slabs ≡ some (s, rest)) × Perm (s ∷ rest) slabs
unfolding unlink
unlink-At k [] s at = elim at [ ]
unlink-At zero (t ∷ slabs) s at =
    (slabs, ap (λ (x : Slab). some (x, slabs)) at, rw at (Perm.refl (s ∷ slabs)))
unlink-At (suc k) (t ∷ slabs) s at =
    let ih = unlink-At k slabs s at in
    (t ∷ ih.0, rw ih.1, Perm.trans (Perm.swap t s ih.0) (Perm.cons t ih.2))

unlink-All :
    (P : Slab → Type 0) (k : ℕ) (slabs rest : List Slab) (s : Slab)
    → unlink k slabs ≡ some (s, rest)
    → All P slabs
    → P s × All P rest
unfolding unlink
unlink-All P k [] rest s e all = absurd (cc)
unlink-All P zero (t ∷ slabs) rest s e (p, all) =
    let head : t ≡ s = cc in
    let tail : slabs ≡ rest = cc in (subst P head p, subst (All P) tail all)
unlink-All P (suc k) (t ∷ slabs) rest s e (p, all) = elim (Option-cases (unlink k slabs)) [
  | inl out ↦ absurd (ground arith)
  | inr ((s', rest'), found) ↦
      let ih = unlink-All P k slabs rest' s' found all in
      let e' : ◌≡◌ {A = Option (Slab × List Slab)} (some (s', t ∷ rest')) (some (s, rest)) =
        rw (found, ◌>>=◌) at e in
      let head : s' ≡ s = cc in
      let tail : t ∷ rest' ≡ rest = cc in (subst P head ih.0, subst (All P) tail (p, ih.1))
]

-- What holds of every slab of the list holds of the slab that is found and of those left.
pub slab_search-All :
    (P : Slab → Type 0) (slabs rest : List Slab) (size : ℕ) (s : Slab)
    → slab_search slabs size ≡ some (s, rest)
    → All P slabs
    → P s × All P rest
unfolding slab_search
slab_search-All P slabs rest size s e all = elim (Option-cases (scan_slabs size slabs 0 none)) [
  | inl out ↦ absurd (ground arith)
  | inr (found, at) ↦ unlink-All P found.0 slabs rest s (rw (at, ◌>>=◌) at e) all
]

-- A search for a size either finds every slab of the list too small, or takes out of the list a
-- slab that is big enough and leaves the others: and no slab of the list that is big enough is
-- smaller than that one.
pub slab_search_lem :
    (slabs : List Slab) (size : ℕ)
    → ((slab_search slabs size ≡ none) × Small size slabs)
      ⊎ ((s : Slab) × (rest : List Slab) × (slab_search slabs size ≡ some (s, rest))
          × Perm (s ∷ rest) slabs
          × (size ≤ s.size)
          × Least size s.size slabs)
unfolding slab_search
slab_search_lem slabs size = elim (Option-cases (scan_slabs size slabs 0 none)) [
  | inl e ↦ inl (rw e, (scan-none size slabs 0 none e).1)
  | inr ((j, n), e) ↦
      let r = scan-Scanned size slabs 0 none j n tt e in
      elim r.place [
        | inl never ↦ absurd (cc)
        | inr (k, s, at_j, at, fits) ↦
            let u = unlink-At k slabs s at in
            let same : j ≡ k = omega arith in
            inr (s, u.0, rw (e, ◌>>=◌, same) u.1, u.2, omega (arith, r.enough), rw fits r.least)
      ]
]
