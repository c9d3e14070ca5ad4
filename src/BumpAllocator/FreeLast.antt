-- ===== src/BumpAllocator/FreeLast.antt =====
-- `free_last`: it takes back the last allocation.
use granary.BumpAllocator.Allocate.{allocate_bare-Served, round}
use granary.BumpAllocator.Invariant.{IsSlab, IsAllocator, IsRequest, IsFirst, IsFirst-head}
use granary.BumpAllocator.Search.{All}
use granary.BumpAllocator.{
  Slab, Config, Input, Allocator, align_to, allocate_loop, allocate_bare, free_last, free_from,
  try_share_free, release, forget_last, is_last,
}
use granary.Common.{
  ℕ, ◌+◌, ◌-◌, ◌%◌, ◌≤◌, ◌<◌, ◌≡◌, refl, sym, ◌∙◌, ◌⊎◌, ap, Bool, true, false, not, ◌&&◌, Option,
  none, some, List, [], ◌∷◌, ◌++◌, arith, ◌==◌, Bool-cases, inl, inr, le→ltb, ==-true, ==-false,
}
use mathlib.Core.Path.{subst}

-- What was last allocated, if it is still in the slab at the head of the list, is within what was
-- handed out of that slab.
abbrev pub LastFits : List Slab → Allocator → Type 0
LastFits [] a = Unit {0}
LastFits (s ∷ slabs) a = is_last a s ≡ true → a.last_allocation_size ≤ s.index

All-append : (P : Slab → Type 0) (xs ys : List Slab) → All P xs → All P ys → All P (xs ++ ys)
All-append P [] ys h k = k
All-append P (x ∷ xs) ys (p, h) k = (p, All-append P xs ys h k)

module _ (big : ℕ) (c : Config) (i : Input) (hint : Bool) where
  share-IsAllocator : (a : Allocator) → IsAllocator big a → IsAllocator big (try_share_free i a)
  unfolding try_share_free
  share-IsAllocator a v = elim (Bool-cases i.lock_acquired) [
    | inr held ↦ rw held v
    | inl taken ↦ rw taken (record {
      curr = v.curr;
      free = tt;
      global_free = All-append (IsSlab big) a.free a.global_free v.free v.global_free;
    })
  ]

  release-IsAllocator :
      (s : Slab) (slabs : List Slab) (a : Allocator)
      → IsSlab big s
      → All (IsSlab big) slabs
      → IsAllocator big a
      → IsAllocator big (release c i hint s slabs a)
  release-IsAllocator s slabs a v vs va = elim (Bool-cases (hint && c.share_dead_slabs)) [
    | inr keep ↦ rw keep (record { curr = (v, vs); free = va.free; global_free = va.global_free })
    | inl give ↦ rw give (elim (Bool-cases (s.index == 0)) [
      | inr alive ↦
          rw alive (record { curr = (v, vs); free = va.free; global_free = va.global_free })
      | inl dead ↦ rw dead (
          share-IsAllocator (record a { curr = slabs; free = s ∷ a.free })
            (record { curr = vs; free = (v, va.free); global_free = va.global_free }))
    ])
  ]

  free_from-IsAllocator :
      (a : Allocator) (xs : List Slab)
      → IsAllocator big a
      → All (IsSlab big) xs
      → LastFits xs a
      → IsAllocator big (free_from xs c i hint a)
  free_from-IsAllocator a [] v vs fits = v
  free_from-IsAllocator a (s ∷ slabs) v vs fits =
      elim (Bool-cases (not (a.last_allocation_size == 0) && is_last a s)) [
        | inr other ↦ rw other v
        | inl last ↦
            let within : a.last_allocation_size ≤ s.index = fits (ground arith) in
            let shrunk : Slab = record s {
              index = s.index - a.last_allocation_size;
              remaining = s.remaining + a.last_allocation_size;
            } in
            let vs' : IsSlab big shrunk = record {
              split = omega (arith, (vs.0).split);
              aligned = (vs.0).aligned;
              small = (vs.0).small;
            } in
            rw last (release-IsAllocator shrunk slabs a vs' vs.1 v)
      ]

  share_first : (a : Allocator) → (try_share_free i a).first ≡ a.first
  unfolding try_share_free
  share_first a = elim (Bool-cases i.lock_acquired) [
    | inr held ↦ rw held refl
    | inl taken ↦ rw taken refl
  ]

  share_curr : (a : Allocator) → (try_share_free i a).curr ≡ a.curr
  unfolding try_share_free
  share_curr a = elim (Bool-cases i.lock_acquired) [
    | inr held ↦ rw held refl
    | inl taken ↦ rw taken refl
  ]

  -- What becomes of `first`.
  record FirstKept (a b : Allocator) : Type 0 where
    pub kept : b.first ≡ a.first
    pub last : IsFirst a.first a.curr → IsFirst a.first b.curr ⊎ (b.curr ≡ [])

  IsFirst-tail :
      (first : Option ℕ) (s : Slab) (slabs : List Slab)
      → IsFirst first (s ∷ slabs)
      → IsFirst first slabs ⊎ (slabs ≡ [])
  IsFirst-tail first s [] h = inr refl
  IsFirst-tail none s (t ∷ slabs) h = absurd (cc)
  IsFirst-tail (some memory) s (t ∷ slabs) h = inl h

  release-First :
      (s t : Slab) (slabs : List Slab) (a : Allocator)
      → a.curr ≡ s ∷ slabs
      → t.memory ≡ s.memory
      → FirstKept a (release c i hint t slabs a)
  release-First s t slabs a e same =
      let stays : IsFirst a.first a.curr → IsFirst a.first (t ∷ slabs) ⊎ ((t ∷ slabs) ≡ []) = λ h.
        inl (
          IsFirst-head a.first s t slabs same
            (subst (λ (xs : List Slab). IsFirst a.first xs) e h)) in
      elim (Bool-cases (hint && c.share_dead_slabs)) [
        | inr keep ↦ rw keep (record { kept = refl; last = stays })
        | inl give ↦ rw give (elim (Bool-cases (t.index == 0)) [
          | inr alive ↦ rw alive (record { kept = refl; last = stays })
          | inl dead ↦ rw dead (
              let b = record a { curr = slabs; free = t ∷ a.free } in
              record {
                kept = share_first b;
                last = λ h.
                    subst (λ (xs : List Slab). IsFirst a.first xs ⊎ (xs ≡ [])) (sym (share_curr b))
                      (IsFirst-tail a.first s slabs
                        (subst (λ (xs : List Slab). IsFirst a.first xs) e h));
              })
        ])
      ]

  free_from-First :
      (a : Allocator) (xs : List Slab) → a.curr ≡ xs → FirstKept a (free_from xs c i hint a)
  free_from-First a [] e = record { kept = refl; last = λ h. inl h }
  free_from-First a (s ∷ slabs) e =
      elim (Bool-cases (not (a.last_allocation_size == 0) && is_last a s)) [
        | inr other ↦ rw other (record { kept = refl; last = λ h. inl h })
        | inl last ↦ rw last (
            release-First s
              (record s {
                index = s.index - a.last_allocation_size;
                remaining = s.remaining + a.last_allocation_size;
              })
              slabs a e refl)
      ]

  -- Undoing the last allocation of a valid allocator, where a last allocation that is recorded for
  -- the current slab is no longer than its used part, leaves slab lists that are valid, whatever the
  -- hint and the state of the lock of the global free list; undoing once more changes nothing. The
  -- pointer `first` does not move: where it was the last slab in use it still is, unless no slab in
  -- use is left; then it is not reset, and stands for a slab that was given up.
  pub free_last-IsAllocator :
      (a : Allocator)
      → IsAllocator big a
      → LastFits a.curr a
      → IsAllocator big (free_last c i hint a)
        × (free_last c i hint (free_last c i hint a) ≡ free_last c i hint a)
        × ((free_last c i hint a).first ≡ a.first)
        × (IsFirst a.first a.curr
            → IsFirst a.first (free_last c i hint a).curr ⊎ ((free_last c i hint a).curr ≡ []))
  unfolding free_last
  free_last-IsAllocator a v fits =
      let r = free_from-IsAllocator a a.curr v v.curr fits in
      (
        record { curr = r.curr; free = r.free; global_free = r.global_free },
        twice (free_from a.curr c i hint a) (free_from a.curr c i hint a).curr,
        (free_from-First a a.curr refl).kept,
        (free_from-First a a.curr refl).last,
      )
    where
      twice :
          (b : Allocator) (xs : List Slab)
          → forget_last (free_from xs c i hint (forget_last b)) ≡ forget_last b
      twice b [] = refl
      twice b (s ∷ slabs) = refl

bare-loop :
    (c : Config) (k : Input) (align size : ℕ) (a : Allocator)
    → allocate_bare c k a align size ≡ allocate_loop 3 c k (forget_last a) align size
unfolding allocate_bare
bare-loop c k align size a = refl

at_address :
    (x : Option (ℕ × Allocator)) (p : ℕ × Allocator) (addr : ℕ)
    → x ≡ some p
    → p.0 ≡ addr
    → (a : Allocator) × (x ≡ some (addr, a))
at_address x p addr h e = (p.1, h ∙ ap (λ (y : ℕ). some (y, p.1)) e)

module _ (c : Config) (j k : Input) (big align size : ℕ) (req : IsRequest c k big align size)
    (pos : 0 < size) (a : Allocator) (s : Slab) (slabs : List Slab) (v : IsSlab big s)
    (va : IsAllocator big a) (head : a.curr ≡ s ∷ slabs) (last : a.last_allocation_size ≡ size)
    (from : a.last_allocation_slab ≡ some s.memory) (within : size ≤ s.index) where
  abbrev shrunk : Slab
  shrunk = record s { index = s.index - size; remaining = s.remaining + size }

  abbrev freed : Allocator
  freed = forget_last (record a { curr = shrunk ∷ slabs })

  is_last-some :
      (m : Option ℕ) → m ≡ some s.memory → elim m [ none ↦ false | some x ↦ x == s.memory ] ≡ true
  is_last-some m e = ground arith

  free_last-freed : free_last c j false a ≡ freed
  unfolding free_last
  free_last-freed =
      ap (λ (xs : List Slab). forget_last (free_from xs c j false a)) head
      ∙ rw (last, ==-false size 0 (omega arith), is_last-some a.last_allocation_slab from)

  shrunk-aligned :
      (s.memory + (s.index - size)) % align ≡ 0 → align_to (s.memory + (s.index - size)) align ≡ 0
  shrunk-aligned e = rw (==-true ((s.memory + (s.index - size)) % align) 0 e)

  given_again :
      (s.memory + (s.index - size)) % align ≡ 0
      → (a'' : Allocator) × (allocate_bare c k (free_last c j false a) align size
          ≡ some (s.memory + (s.index - size), a''))
  given_again e =
      let off = shrunk-aligned e in
      let vs : All (IsSlab big) (s ∷ slabs) = subst (All (IsSlab big)) head va.curr in
      let v' : IsSlab big shrunk = record {
        split = omega (arith, v.split);
        aligned = v.aligned;
        small = v.small;
      } in
      let fits : size + align_to (s.memory + (s.index - size)) align ≤ s.remaining + size =
        omega arith in
      let r =
        round c k big align size req pos freed freed shrunk slabs v' vs.1 (va.free, va.global_free)
          fits 2 (rw (le→ltb (s.remaining + size) size (omega arith))) in
      let found = at_address _ _ (s.memory + (s.index - size)) r (omega (arith, off)) in
      (
        found.0,
        ap (λ (b : Allocator). allocate_bare c k b align size) free_last-freed
            ∙ (bare-loop c k align size freed ∙ found.1),
      )

-- In a valid allocator, under requests that a new slab can serve, allocating a block, giving it
-- back while keeping its slab, and allocating as much again with the same alignment gives the same
-- address, whatever the surroundings answer in the meantime.
pub allocate-free_last :
    (c : Config) (i j k : Input) (big align size : ℕ) (a : Allocator)
    → IsAllocator big a
    → IsRequest c i big align size
    → IsRequest c k big align size
    → 0 < size
    → (addr : ℕ) × (a' a'' : Allocator) × (allocate_bare c i a align size ≡ some (addr, a'))
      × (allocate_bare c k (free_last c j false a') align size ≡ some (addr, a''))
allocate-free_last c i j k big align size a v req req' pos =
    let r = allocate_bare-Served c i big align size a v req pos in
    let sv = r.3 in
    let vs : All (IsSlab big) (sv.slab ∷ sv.others) =
      subst (All (IsSlab big)) sv.curr (sv.valid).curr in
    let at : (sv.slab).memory + ((sv.slab).index - size) ≡ r.0 =
      omega (arith, sv.block, sv.inside) in
    let again =
      given_again c j k big align size req' pos r.1 sv.slab sv.others vs.0 sv.valid sv.curr
        (sv.last).1 (sv.last).2 (omega (arith, sv.block, sv.inside)) (rw at sv.aligned) in
    (r.0, r.1, again.0, r.2, again.1 ∙ ap (λ (x : ℕ). some (x, again.0)) at)
