-- ===== src/BumpAllocator/Tests.antt =====
-- Runs of the bump-pointer allocator, and the theorems about it at a small allocator.
use granary.BumpAllocator.Allocate.{Served, allocate_bare-Served}
use granary.BumpAllocator.FreeAll.{free_all-owned}
use granary.BumpAllocator.FreeLast.{free_last-IsAllocator, allocate-free_last}
use granary.BumpAllocator.Invariant.{IsAllocator, IsFirst, IsRequest}
use granary.BumpAllocator.Owned.{owned}
use granary.BumpAllocator.Search.{Small, Least, slab_search_lem}
use granary.BumpAllocator.{
  Slab, Config, Input, Allocator, slab_search, scan_slabs, unlink, search_global, allocate_slab,
  slab_size_for, allocate_bare, free_last, free_all,
}
use granary.Common.{
  ℕ, ◌-◌, ◌≤◌, ◌≡◌, ◌⊎◌, refl, true, false, Option, none, some, List, [], ◌∷◌, arith, ◌>>=◌,
}
use mathlib.Core.List.{Perm}

-- The transient allocator, and a machine whose next slab is at 0x2000.
abbrev config : Config
config = record {
  slab_size = 4096;
  min_align = 1;
  transient = true;
  shared = false;
  share_dead_slabs = true;
}

abbrev input : Input
input = record { fresh = 0x2000; lock_acquired = true }

abbrev slab : ℕ → ℕ → ℕ → Slab
slab memory index size = record {
  memory = memory;
  index = index;
  remaining = size - index;
  size = size;
}

-- A slab with five bytes handed out, and one in the free list.
abbrev busy : Allocator
busy = record {
  curr = slab 0x1000 5 4096 ∷ [];
  first = some 0x1000;
  free = slab 0x8000 7 8192 ∷ [];
  global_free = [];
  last_allocation_size = 5;
  last_allocation = 0x1000;
  last_allocation_slab = some 0x1000;
}

busy-IsAllocator : IsAllocator 16 busy
busy-IsAllocator = record {
  curr = (record { split = omega arith; aligned = refl; small = omega arith }, tt);
  free = (record { split = omega arith; aligned = refl; small = omega arith }, tt);
  global_free = tt;
}

ten_bytes : IsRequest config input 16 16 10
ten_bytes = record {
  aligns = omega arith;
  some_align = omega arith;
  divides = refl;
  fits = omega arith;
  slab = omega arith;
  fresh = refl;
}

address : Option (ℕ × Allocator) → Option ℕ
unfolding allocate_bare allocate_slab search_global slab_search scan_slabs unlink slab_size_for
address r = r >>= λ p. some p.0

-- The block is aligned behind the five bytes; a block too big for the slab goes to the free one,
-- and one that is too big for both to a new slab.
same_slab : address (allocate_bare config input busy 16 10) ≡ some 0x1010
unfolding address
same_slab = refl

free_slab : address (allocate_bare config input busy 16 5000) ≡ some 0x8000
unfolding address
free_slab = refl

new_slab : address (allocate_bare config input busy 16 9000) ≡ some 0x2000
unfolding address
new_slab = refl

slab_search_lem_example :
    ((slab_search busy.free 4096 ≡ none) × Small 4096 busy.free)
    ⊎ ((s : Slab) × (rest : List Slab) × (slab_search busy.free 4096 ≡ some (s, rest))
        × Perm (s ∷ rest) busy.free
        × (4096 ≤ s.size)
        × Least 4096 s.size busy.free)
slab_search_lem_example = slab_search_lem busy.free 4096

allocate_bare-Served_example :
    (addr : ℕ) × (a' : Allocator) × (allocate_bare config input busy 16 10 ≡ some (addr, a'))
    × Served 0x2000 16 16 10 busy addr a'
allocate_bare-Served_example =
    allocate_bare-Served config input 16 16 10 busy busy-IsAllocator ten_bytes (omega arith)

free_last-IsAllocator_example :
    IsAllocator 16 (free_last config input true busy)
    × (free_last config input true (free_last config input true busy)
        ≡ free_last config input true busy)
    × ((free_last config input true busy).first ≡ busy.first)
    × (IsFirst busy.first busy.curr
        → IsFirst busy.first (free_last config input true busy).curr
          ⊎ ((free_last config input true busy).curr ≡ []))
free_last-IsAllocator_example =
    free_last-IsAllocator 16 config input true busy busy-IsAllocator (λ last. omega arith)

allocate-free_last_example :
    (addr : ℕ) × (a' a'' : Allocator) × (allocate_bare config input busy 16 10 ≡ some (addr, a'))
    × (allocate_bare config input (free_last config input false a') 16 10 ≡ some (addr, a''))
allocate-free_last_example =
    allocate-free_last config input input input 16 16 10 busy busy-IsAllocator ten_bytes ten_bytes
      (omega arith)

free_all-owned_example :
    (a' : Allocator) × (free_all config input busy ≡ some a')
    × (a'.curr ≡ [])
    × IsFirst a'.first a'.curr
    × (owned a' ≡ owned busy)
free_all-owned_example = free_all-owned config input busy refl refl refl
