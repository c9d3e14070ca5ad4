-- ===== src/BumpAllocator/Invariant.antt =====
-- What a slab and an allocator promise between two calls.
use granary.BumpAllocator.Search.{All}
use granary.BumpAllocator.{Slab, Config, Input, Allocator, ends_in, or_first}
use granary.Common.{ℕ, ◌+◌, ◌%◌, ◌^◌, ◌<◌, ◌≡◌, true, Option, none, some, List, [], ◌∷◌, arith}

-- `size == (index + remaining)`, and the memory is aligned to `big`, the alignment that the memory
-- of every slab has.
pub record IsSlab (big : ℕ) (s : Slab) : Type 0 where
  pub split : s.index + s.remaining ≡ s.size
  pub aligned : s.memory % big ≡ 0
  pub small : s.size < 2 ^ 31

pub record IsAllocator (big : ℕ) (a : Allocator) : Type 0 where
  pub curr : All (IsSlab big) a.curr
  pub free : All (IsSlab big) a.free
  pub global_free : All (IsSlab big) a.global_free

-- `first` is the last of the slabs in use, or null if there are none.
abbrev pub IsFirst : Option ℕ → List Slab → Type 0
IsFirst none slabs = slabs ≡ []
IsFirst (some memory) slabs = ends_in memory slabs ≡ true

pub IsFirst-head :
    (first : Option ℕ) (s t : Slab) (slabs : List Slab)
    → t.memory ≡ s.memory
    → IsFirst first (s ∷ slabs)
    → IsFirst first (t ∷ slabs)
IsFirst-head none s t slabs e h = absurd (cc)
IsFirst-head (some memory) s t [] e h = ground arith
IsFirst-head (some memory) s t (u ∷ slabs) e h = h

pub IsFirst-cons :
    (first : Option ℕ) (s : Slab) (slabs : List Slab)
    → IsFirst first slabs
    → IsFirst (or_first first s.memory) (s ∷ slabs)
IsFirst-cons none s slabs h = rw h (ground arith)
IsFirst-cons (some memory) s [] h = absurd (cc)
IsFirst-cons (some memory) s (t ∷ slabs) h = h

-- A request that a new slab can serve.
pub record IsRequest (c : Config) (i : Input) (big align size : ℕ) : Type 0 where
  pub aligns : 0 < align
  pub some_align : align < 2 ^ 31
  pub divides : big % align ≡ 0
  pub fits : size + c.slab_size < 2 ^ 31
  pub slab : 0 < c.slab_size
  pub fresh : i.fresh % big ≡ 0
