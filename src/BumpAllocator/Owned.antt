-- ===== src/BumpAllocator/Owned.antt =====
-- The slabs that an allocator has, in use or free, by the addresses of their memory: none is lost
-- and none is in two places.
use granary.BumpAllocator.{
  Slab, Config, Input, Allocator, free_last, free_from, free_curr, try_share_free, release, is_last,
}
use granary.Common.{
  ℕ, ◌+◌, ◌-◌, ◌≡◌, refl, sym, ap, Bool, true, not, ◌&&◌, ◌||◌, List, [], ◌∷◌, ◌++◌, ◌==◌,
  Bool-cases, inl, inr, ◌⊎◌,
}
use mathlib.Core.List.Perm
use mathlib.Core.List.{Perm, map, map-append, perm_middle}
use mathlib.Core.Path.{subst}

abbrev pub memories : List Slab → List ℕ
memories = map (λ (s : Slab). s.memory)

abbrev pub owned : Allocator → List ℕ
owned a = memories a.curr ++ (memories a.free ++ memories a.global_free)

-- At most the new slab came in between.
abbrev pub Owns : ℕ → Allocator → Allocator → Type 0
Owns fresh a a' = Perm (owned a') (owned a) ⊎ Perm (owned a') (fresh ∷ owned a)

pub Perm_of_eq : {xs ys : List ℕ} → xs ≡ ys → Perm xs ys
Perm_of_eq {xs} {ys} e = subst (Perm xs) e (Perm.refl xs)

-- One of the two lists behind gives up an element, which goes to the front.
pub perm_back : (x : ℕ) (xs ys ys' : List ℕ) → Perm (x ∷ ys') ys → Perm (x ∷ (xs ++ ys')) (xs ++ ys)
perm_back x xs ys ys' p = Perm.trans (Perm.symm (perm_middle xs ys')) (Perm.append_left xs p)

pub try_share_free-owned : (i : Input) (a : Allocator) → owned (try_share_free i a) ≡ owned a
unfolding try_share_free
try_share_free-owned i a = elim (Bool-cases i.lock_acquired) [
  | inl free ↦
      rw free (ap (λ (xs : List ℕ). memories a.curr ++ xs) (map-append _ a.free a.global_free))
  | inr held ↦ rw held
]

pub free_curr-owned :
    (s : Slab) (slabs : List Slab) (a : Allocator) (had_slab : Bool)
    → Perm
        (owned (free_curr s slabs a had_slab).0)
        (memories (s ∷ slabs) ++ (memories a.free ++ memories a.global_free))
free_curr-owned s slabs a had_slab = elim (Bool-cases (not had_slab || s.index == 0)) [
  | inl dead ↦ rw dead (perm_middle (memories slabs) (memories a.free ++ memories a.global_free))
  | inr alive ↦ rw alive (Perm.refl _)
]

release-owned :
    (c : Config) (i : Input) (hint : Bool) (s : Slab) (slabs : List Slab) (a : Allocator)
    → Perm
        (owned (release c i hint s slabs a))
        (memories (s ∷ slabs) ++ (memories a.free ++ memories a.global_free))
release-owned c i hint s slabs a = elim (Bool-cases (hint && c.share_dead_slabs)) [
  | inr keep ↦ rw keep (Perm.refl _)
  | inl give ↦
      let r = free_curr s slabs a true in
      rw give (elim (Bool-cases r.1) [
        | inr alive ↦ rw alive (free_curr-owned s slabs a true)
        | inl dead ↦
            rw dead (
              Perm.trans (Perm_of_eq (try_share_free-owned i r.0)) (free_curr-owned s slabs a true))
      ])
]

free_from-owned :
    (c : Config) (i : Input) (hint : Bool) (a : Allocator) (xs : List Slab)
    → a.curr ≡ xs
    → Perm (owned (free_from xs c i hint a)) (owned a)
free_from-owned c i hint a [] e = Perm.refl (owned a)
free_from-owned c i hint a (s ∷ slabs) e =
    elim (Bool-cases (not (a.last_allocation_size == 0) && is_last a s)) [
      | inr other ↦ rw other (Perm.refl (owned a))
      | inl last ↦
          let shrunk : Slab = record s {
            index = s.index - a.last_allocation_size;
            remaining = s.remaining + a.last_allocation_size;
          } in
          rw last (
            Perm.trans (release-owned c i hint shrunk slabs a) (
              Perm_of_eq (
                ap (λ (xs : List Slab). memories xs ++ (memories a.free ++ memories a.global_free))
                  (sym e))))
    ]

-- Undoing the last allocation neither loses a slab nor duplicates one, whatever the hint and the
-- state of the lock of the global free list: the slabs in use, free and globally free are the
-- same as before, in another order at most.
pub free_last-owned :
    (c : Config) (i : Input) (hint : Bool) (a : Allocator)
    → Perm (owned (free_last c i hint a)) (owned a)
unfolding free_last
free_last-owned c i hint a = free_from-owned c i hint a a.curr refl
