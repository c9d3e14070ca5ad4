-- ===== src/BumpAllocator/NewSlab.antt =====
-- `allocate_slab`: a slab with nothing allocated in it, from a free list or new.
use granary.BumpAllocator.Invariant.{IsSlab, IsAllocator}
use granary.BumpAllocator.Owned.{memories, owned, perm_back}
use granary.BumpAllocator.Search.{slab_search_lem, slab_search-All}
use granary.BumpAllocator.{
  Slab, Config, Input, Allocator, initialise, search_global, allocate_slab, slab_size_for,
}
use granary.Common.{
  ℕ, ◌+◌, ◌%◌, ◌^◌, ◌≤◌, ◌<◌, ◌≡◌, refl, ◌&&◌, Option, none, some, List, ◌∷◌, ◌++◌, arith,
  Bool-cases, inl, inr, ◌⊎◌, ltb, ltb→lt, ltb→le,
}
use mathlib.Core.List.Perm
use mathlib.Core.List.{Perm}
use native.Mathlib.Nat.{mod-lt, mod-eq_of_lt}

-- The slab and the allocator that is left, which has its other state unchanged.
pub record NewSlab (fresh big n : ℕ) (a : Allocator) (r : Slab × Allocator) : Type 0 where
  pub unused : (r.0).index ≡ 0
  pub enough : n ≤ (r.0).size
  pub slab : IsSlab big r.0
  pub rest : IsAllocator big r.1
  pub curr : (r.1).curr ≡ a.curr
  pub first : (r.1).first ≡ a.first
  pub owns :
      Perm ((r.0).memory ∷ owned r.1) (owned a) ⊎ (((r.0).memory ≡ fresh) × (owned r.1 ≡ owned a))

module _ (c : Config) (i : Input) (a : Allocator) (big n : ℕ) (v : IsAllocator big a)
    (fresh : i.fresh % big ≡ 0) (small : n < 2 ^ 31) where
  initialised : (s : Slab) → IsSlab big s → IsSlab big (initialise s)
  initialised s v' = record { split = omega arith; aligned = v'.aligned; small = v'.small }

  reused :
      (s : Slab) (a' : Allocator)
      → n ≤ s.size
      → IsSlab big s
      → IsAllocator big a'
      → a'.curr ≡ a.curr
      → a'.first ≡ a.first
      → Perm (s.memory ∷ owned a') (owned a)
      → NewSlab i.fresh big n a (initialise s, a')
  reused s a' enough slab rest curr first perm = record {
    unused = refl;
    enough = enough;
    slab = initialised s slab;
    rest = rest;
    curr = curr;
    first = first;
    owns = inl perm;
  }

  created :
      NewSlab i.fresh big n a (record { memory = i.fresh; index = 0; remaining = n; size = n }, a)
  created = record {
    unused = refl;
    enough = omega arith;
    slab = record { split = omega arith; aligned = fresh; small = small };
    rest = v;
    curr = refl;
    first = refl;
    owns = inr (refl, refl);
  }

  abbrev or_new : Option (Slab × List Slab) → Slab × Allocator
  or_new found = elim found [
    | some (s, global_free) ↦ (initialise s, record a { global_free = global_free })
    | none ↦ (record { memory = i.fresh; index = 0; remaining = n; size = n }, a)
  ]

  from_global : NewSlab i.fresh big n a (or_new (search_global c i a n))
  unfolding search_global
  from_global = elim (Bool-cases (c.share_dead_slabs && i.lock_acquired)) [
    | inr closed ↦ rw closed created
    | inl open_ ↦ rw open_ (elim (slab_search_lem a.global_free n) [
      | inl (e, none_fits) ↦ rw e created
      | inr (s, rest, e, perm, enough, least) ↦
          let parts = slab_search-All (IsSlab big) a.global_free rest n s e v.global_free in
          rw e (
            reused s (record a { global_free = rest }) enough parts.0
              (record { curr = v.curr; free = v.free; global_free = parts.1 }) refl refl
              (perm_back s.memory (memories a.curr) (memories a.free ++ memories a.global_free)
                (memories a.free ++ memories rest)
                (perm_back s.memory (memories a.free) (memories a.global_free) (memories rest)
                  (Perm.map _ perm))))
    ])
  ]

  pub allocate_slab-NewSlab : NewSlab i.fresh big n a (allocate_slab c i a n)
  unfolding allocate_slab
  allocate_slab-NewSlab = elim (slab_search_lem a.free n) [
    | inl (e, none_fits) ↦ rw (e, allocate_slab) from_global
    | inr (s, rest, e, perm, enough, least) ↦
        let parts = slab_search-All (IsSlab big) a.free rest n s e v.free in
        rw (e, allocate_slab)
          (reused s (record a { free = rest }) enough parts.0
            (record { curr = v.curr; free = parts.1; global_free = v.global_free }) refl refl
            (perm_back s.memory (memories a.curr) (memories a.free ++ memories a.global_free)
              (memories rest ++ memories a.global_free)
              (Perm.append_right (memories a.global_free) (Perm.map _ perm))))
  ]

-- The size that is asked for is big enough, and small enough for a slab.
pub slab_size_for_bounds :
    (c : Config) (size : ℕ)
    → 0 < c.slab_size
    → size + c.slab_size < 2 ^ 31
    → (size ≤ slab_size_for c size)
      × (c.slab_size ≤ slab_size_for c size)
      × (slab_size_for c size < 2 ^ 31)
unfolding slab_size_for
slab_size_for_bounds c size pos fits =
    let lt = mod-lt size pos in
    (
      grind arith,
      elim (Bool-cases (ltb size c.slab_size)) [
        | inl small ↦ grind (arith, mod-eq_of_lt (ltb→lt size c.slab_size small))
        | inr large ↦ grind (arith, ltb→le size c.slab_size large)
      ],
      grind arith,
    )
