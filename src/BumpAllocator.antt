-- ===== src/BumpAllocator.antt =====
-- The bump-pointer allocator of granary/bump_allocator.h, `bump_pointer_allocator<Config>`. Slab
-- lists are lists, a slab is known by the address of its memory, and addresses are numbers. What
-- memory holds, the debug assertions and the locks of a shared allocator are not modelled; the
-- memory of a new slab and the outcome of `global_free_lock.try_acquire()` are inputs.
pub mod Search
pub mod Invariant
pub mod Owned
pub mod NewSlab
pub mod Allocate
pub mod FreeLast
pub mod FreeAll
pub mod Staged
mod Tests
use granary.Common.Words.{u32}
use granary.Common.{
  ℕ, zero, suc, ◌+◌, ◌-◌, ◌*◌, ◌%◌, ◌^◌, ◌<◌, Bool, true, false, not, ◌&&◌, ◌||◌, Option, none,
  some, List, [], ◌∷◌, ◌++◌, ◌==◌, ltb, leb, if◌then◌else◌, ◌>>=◌,
}

pub record Slab : Type 0 where
  pub memory : ℕ
  pub index : ℕ
  pub remaining : ℕ
  pub size : ℕ

-- The options; `share_dead_slabs` is `SHARE_DEAD_SLABS`, which an allocator that is shared never
-- has.
pub record Config : Type 0 where
  pub slab_size : ℕ
  pub min_align : ℕ
  pub transient : Bool
  pub shared : Bool
  pub share_dead_slabs : Bool

-- `curr` heads the list of the slabs in use; `first` and `last_allocation_slab` may be null.
pub record Allocator : Type 0 where
  pub curr : List Slab
  pub first : Option ℕ
  pub free : List Slab
  pub global_free : List Slab
  pub last_allocation_size : ℕ
  pub last_allocation : ℕ
  pub last_allocation_slab : Option ℕ

-- What the surroundings answer during a call.
pub record Input : Type 0 where
  pub fresh : ℕ
  pub lock_acquired : Bool

abbrev pub new_allocator : Allocator
new_allocator = record {
  curr = [];
  first = none;
  free = [];
  global_free = [];
  last_allocation_size = 0;
  last_allocation = 0;
  last_allocation_slab = none;
}

-- The macro `ALIGN_TO` of granary/pp.h: how far a value is below the next multiple.
abbrev pub align_to : ℕ → ℕ → ℕ
align_to lval align = if lval % align == 0 then 0 else align - lval % align

-- The loop of `slab_search`: the slab of exactly the size, or else the smallest of the bigger
-- ones, the first of these. A slab is named by its place in the list; `best` is `bigger_found`.
abbrev pub better : Option (ℕ × ℕ) → ℕ → Bool
better none size = true
better (some (_, found)) size = ltb size found

unfoldable pub scan_slabs : ℕ → List Slab → ℕ → Option (ℕ × ℕ) → Option (ℕ × ℕ)
scan_slabs size [] i best = best
scan_slabs size (s ∷ slabs) i best =
    let rest =
      scan_slabs size slabs (i + 1)
        (if ltb size s.size && better best s.size then some (i, s.size) else best) in
    if s.size == size then some (i, s.size) else rest

-- `*unlink_ptr = found->next` at that place.
unfoldable pub unlink : ℕ → List Slab → Option (Slab × List Slab)
unlink i [] = none
unlink zero (s ∷ slabs) = some (s, slabs)
unlink (suc i) (s ∷ slabs) = unlink i slabs >>= λ r. some (r.0, s ∷ r.1)

unfoldable pub slab_search : List Slab → ℕ → Option (Slab × List Slab)
slab_search slabs size = scan_slabs size slabs 0 none >>= λ found. unlink found.0 slabs

-- The label `initialise`.
abbrev pub initialise : Slab → Slab
initialise s = record s { index = 0; remaining = s.size }

-- The search of the global free list, if it is allowed, not empty and its lock is free.
unfoldable pub search_global : Config → Input → Allocator → ℕ → Option (Slab × List Slab)
search_global c i a size =
    if c.share_dead_slabs && i.lock_acquired then slab_search a.global_free size else none

unfoldable pub allocate_slab : Config → Input → Allocator → ℕ → Slab × Allocator
allocate_slab c i a size = elim (slab_search a.free size) [
  | some (s, free) ↦ (initialise s, record a { free = free })
  | none ↦ elim (search_global c i a size) [
    | some (s, global_free) ↦ (initialise s, record a { global_free = global_free })
    | none ↦ (record { memory = i.fresh; index = 0; remaining = size; size = size }, a)
  ]
]

-- The size of a slab that is asked for.
unfoldable pub slab_size_for : Config → ℕ → ℕ
slab_size_for c size =
    let n = u32 (size + align_to size c.slab_size) in if n == 0 then c.slab_size else n

-- Does the current slab have to be replaced?
abbrev pub lacks : List Slab → ℕ → Bool
lacks [] size = true
lacks (s ∷ slabs) size = ltb s.remaining size

abbrev pub or_first : Option ℕ → ℕ → Option ℕ
or_first none memory = some memory
or_first (some first) memory = some first

abbrev pub refill : Config → Input → Allocator → ℕ → Allocator
refill c i a size =
    let (s, a') = allocate_slab c i a (slab_size_for c size) in
    record a' { curr = s ∷ a'.curr; first = or_first a'.first s.memory }

-- The end of `allocate_bare`, behind the loop.
abbrev pub take_from : Slab → List Slab → Allocator → ℕ → ℕ × Allocator
take_from s slabs a size = (
  s.memory + s.index,
  record a {
    curr = record s { index = s.index + size; remaining = s.remaining - size } ∷ slabs;
    last_allocation_size = size;
    last_allocation = s.memory + s.index;
    last_allocation_slab = some s.memory;
  },
)

-- One round of the loop on the current slab: an address, or the slab made unusable.
abbrev pub try_slab : List Slab → Allocator → ℕ → ℕ → Option (ℕ × Allocator)
try_slab [] a align size = none
try_slab (s ∷ slabs) a align size =
    let offset = align_to (s.memory + s.index) align in
    if leb (u32 (size + offset)) s.remaining
    then some (
        take_from (record s { index = s.index + offset; remaining = s.remaining - offset }) slabs a
          size)
    else none

abbrev pub exhaust : List Slab → List Slab
exhaust [] = []
exhaust (s ∷ slabs) = record s { index = s.size; remaining = 0 } ∷ slabs

abbrev pub staged : List Slab → ℕ
staged [] = 0
staged (s ∷ slabs) = s.memory + s.index

-- The rest of a round: a staged allocation, an address, or what the rounds to come give.
abbrev pub finish : Allocator → ℕ → ℕ → Option (ℕ × Allocator) → Option (ℕ × Allocator)
finish a align size rest =
    if size == 0
    then some (staged a.curr, a)
    else elim (try_slab a.curr a align size) [ some r ↦ some r | none ↦ rest ]

-- The loop of `allocate_bare`. It has no bound outside test builds, so it is given fuel.
unfoldable pub allocate_loop : ℕ → Config → Input → Allocator → ℕ → ℕ → Option (ℕ × Allocator)
allocate_loop zero c i a align size = none
allocate_loop (suc fuel) c i a align size =
    let a' = if lacks a.curr size then refill c i a size else a in
    let rest = allocate_loop fuel c i (record a' { curr = exhaust a'.curr }) align size in
    finish a' align size rest

abbrev pub forget_last : Allocator → Allocator
forget_last a = record a {
  last_allocation_size = 0;
  last_allocation = 0;
  last_allocation_slab = none;
}

-- Three rounds, as many as the test builds allow, are enough.
unfoldable pub allocate_bare : Config → Input → Allocator → ℕ → ℕ → Option (ℕ × Allocator)
unfolding allocate_loop
allocate_bare c i a align size = allocate_loop 3 c i (forget_last a) align size

abbrev pub is_last : Allocator → Slab → Bool
is_last a s = elim a.last_allocation_slab [ none ↦ false | some m ↦ m == s.memory ]

-- `try_free_curr`: a slab that was only just taken, or is unused, goes to the free list.
abbrev pub free_curr : Slab → List Slab → Allocator → Bool → Allocator × Bool
free_curr s slabs a had_slab =
    if not had_slab || s.index == 0
    then (record a { curr = slabs; free = s ∷ a.free }, true)
    else (record a { curr = s ∷ slabs }, false)

-- `try_share_free`: the free list goes in front of the global one, if the lock is free.
unfoldable pub try_share_free : Input → Allocator → Allocator
try_share_free i a =
    if i.lock_acquired then record a { global_free = a.free ++ a.global_free; free = [] } else a

abbrev pub release : Config → Input → Bool → Slab → List Slab → Allocator → Allocator
release c i try_free_slab s slabs a =
    if try_free_slab && c.share_dead_slabs
    then (let (a', freed) = free_curr s slabs a true in if freed then try_share_free i a' else a')
    else record a { curr = s ∷ slabs }

-- `free_last`; the hint says whether to give up a slab that becomes empty.
abbrev pub free_from : List Slab → Config → Input → Bool → Allocator → Allocator
free_from [] c i try_free_slab a = a
free_from (s ∷ slabs) c i try_free_slab a =
    if not (a.last_allocation_size == 0) && is_last a s
    then release c i try_free_slab
        (record s {
          index = s.index - a.last_allocation_size;
          remaining = s.remaining + a.last_allocation_size;
        })
        slabs a
    else a

unfoldable pub free_last : Config → Input → Bool → Allocator → Allocator
free_last c i try_free_slab a = forget_last (free_from a.curr c i try_free_slab a)

-- The end of `allocate_staged`.
abbrev pub free_staged : Config → Input → Bool → List Slab → Allocator → Allocator
free_staged c i had_slab [] a = a
free_staged c i had_slab (s ∷ slabs) a =
    if c.share_dead_slabs
    then (let (a', freed) = free_curr s slabs a had_slab in
        if freed then try_share_free i a' else a')
    else a

abbrev pub has_slab : List Slab → Bool
has_slab [] = false
has_slab (s ∷ slabs) = true

unfoldable pub allocate_staged : Config → Input → Allocator → Option (ℕ × Allocator)
unfolding allocate_bare try_share_free
allocate_staged c i a = allocate_bare c i a c.min_align 0 >>= λ r.
    some (r.0, free_staged c i (has_slab a.curr) (r.1).curr r.1)

-- Is this slab the last one of the list?
abbrev pub ends_in : ℕ → List Slab → Bool
ends_in memory [] = false
ends_in memory (s ∷ []) = s.memory == memory
ends_in memory (s ∷ t ∷ slabs) = ends_in memory (t ∷ slabs)

-- `first->next = free`, then `free = curr`, where each pointer is not null. A `first` that is not
-- the last slab in use would splice the lists elsewhere: that is outside of the model.
abbrev pub reclaim : Option ℕ → List Slab → List Slab → Option (List Slab)
reclaim none [] free = some free
reclaim none (s ∷ slabs) free = some (s ∷ slabs)
reclaim (some first) curr free = if ends_in first curr then some (curr ++ free) else none

abbrev pub share_freed : Config → Input → Allocator → Allocator
share_freed c i a = if c.share_dead_slabs then try_share_free i a else a

-- `free_all`; a fault for an allocator that is not transient, or shared.
unfoldable pub free_all : Config → Input → Allocator → Option Allocator
unfolding try_share_free
free_all c i a =
    if not c.transient || c.shared
    then none
    else (reclaim a.first a.curr a.free >>= λ free.
        some (share_freed c i (record (forget_last a) { curr = []; first = none; free = free })))
