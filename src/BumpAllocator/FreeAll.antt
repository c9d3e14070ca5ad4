-- ===== src/BumpAllocator/FreeAll.antt =====
-- `allocate_staged` and `free_all`.
use granary.BumpAllocator.Invariant.{IsFirst}
use granary.BumpAllocator.Owned.{memories, owned, try_share_free-owned}
use granary.BumpAllocator.{
  Slab, Config, Input, Allocator, free_all, reclaim, share_freed, try_share_free, forget_last,
}
use granary.Common.{
  ℕ, ◌≡◌, refl, ◌∙◌, true, false, Option, none, some, List, [], ◌∷◌, ◌++◌, Bool-cases, inl, inr,
}
use mathlib.Core.List.{map-append, append_assoc}

reclaim_first :
    (first : Option ℕ) (curr free : List Slab)
    → IsFirst first curr
    → reclaim first curr free ≡ some (curr ++ free)
reclaim_first none [] free h = refl
reclaim_first none (s ∷ curr) free h = absurd (cc)
reclaim_first (some first) curr free h = rw h

try_share_free-kept :
    (i : Input) (a : Allocator)
    → ((try_share_free i a).curr ≡ a.curr) × ((try_share_free i a).first ≡ a.first)
unfolding try_share_free
try_share_free-kept i a = elim (Bool-cases i.lock_acquired) [
  | inl taken ↦ rw taken (refl, refl)
  | inr held ↦ rw held (refl, refl)
]

share_freed-owned :
    (c : Config) (i : Input) (a : Allocator)
    → (owned (share_freed c i a) ≡ owned a)
      × ((share_freed c i a).curr ≡ a.curr)
      × ((share_freed c i a).first ≡ a.first)
share_freed-owned c i a = elim (Bool-cases c.share_dead_slabs) [
  | inr alone ↦ rw alone (refl, refl, refl)
  | inl shares ↦ let k = try_share_free-kept i a in rw shares (try_share_free-owned i a, k.0, k.1)
]

null_first : (a : Allocator) → a.curr ≡ [] → a.first ≡ none → IsFirst a.first a.curr
null_first a empty null = rw (null, empty)

-- Freeing all of a transient allocator that is not shared, whose `first` is the last of its slabs
-- in use, always succeeds. No slab stays in use, none is lost or duplicated, and `first` is null,
-- as it has to be with no slab in use.
pub free_all-owned :
    (c : Config) (i : Input) (a : Allocator)
    → c.transient ≡ true
    → c.shared ≡ false
    → IsFirst a.first a.curr
    → (a' : Allocator) × (free_all c i a ≡ some a')
      × (a'.curr ≡ [])
      × IsFirst a'.first a'.curr
      × (owned a' ≡ owned a)
unfolding free_all
free_all-owned c i a transient own first =
    let pooled : Allocator = record (forget_last a) {
      curr = [];
      first = none;
      free = a.curr ++ a.free;
    } in
    let r = share_freed-owned c i pooled in
    (
      share_freed c i pooled,
      rw (transient, own, reclaim_first a.first a.curr a.free first),
      r.1,
      null_first (share_freed c i pooled) r.1 r.2,
      r.0
          ∙ rw (map-append (λ (s : Slab). s.memory) a.curr a.free)
              (append_assoc (memories a.curr) (memories a.free) (memories a.global_free)),
    )
