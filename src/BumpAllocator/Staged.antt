-- ===== src/BumpAllocator/Staged.antt =====
-- `allocate_staged`: the address where the next allocation may go, for code that is encoded there
-- on trial.
use granary.BumpAllocator.Owned.{Owns}
use granary.BumpAllocator.{Slab, Config, Input, Allocator, lacks, refill}
use granary.Common.{ℕ, ◌+◌, ◌%◌, ◌^◌, ◌<◌, true, ◌⊎◌, ◌≡◌, List, [], ◌∷◌, if◌then◌else◌}
use mathlib.Core.List.Perm
use mathlib.Core.List.{Perm}

-- What a staged allocation answers, and what it leaves. The address is where the next allocation may
-- go in the slab at the head of the list, or at the start of a slab just taken if there was none.
-- The slabs in use are those that were, none of them moved on, and that one; where dead slabs are
-- shared, it is given up again if nothing is allocated in it.
pub record Staging (c : Config) (fresh : ℕ) (a : Allocator) (addr : ℕ) (a' : Allocator)
    : Type 0 where
  pub slab : Slab
  pub others : List Slab
  pub current : (a.curr ≡ slab ∷ others) ⊎ ((a.curr ≡ []) × (slab.index ≡ 0) × (others ≡ []))
  pub address : addr ≡ slab.memory + slab.index
  pub after :
      (a'.curr ≡ slab ∷ others)
      ⊎ ((a'.curr ≡ others) × (slab.index ≡ 0) × (c.share_dead_slabs ≡ true))
  pub owns : Owns fresh a a'

-- The slab that a staged allocation looks at.
record Current (a b : Allocator) : Type 0 where
  slab : Slab
  others : List Slab
  curr : b.curr ≡ slab ∷ others
  from : (a.curr ≡ slab ∷ others) ⊎ ((a.curr ≡ []) × (slab.index ≡ 0) × (others ≡ []))

module _ (c : Config) (i : Input) (big : ℕ) (pos : 0 < c.slab_size) (small : c.slab_size < 2 ^ 31)
    (fresh : i.fresh % big ≡ 0) where
  -- Only the first slab can be missing for a staged allocation.
  abbrev refilled : Allocator → Allocator
  refilled a = if lacks a.curr 0 then refill c i a 0 else a
