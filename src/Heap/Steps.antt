-- ===== src/Heap/Steps.antt =====
-- What the users of the heap (granary/allocator.cc) do with it.
use granary.Common.Words.{u32}
use granary.Common.{◌⊎◌, update, ℕ, ◌+◌, ◌^◌, ◌≤◌, ◌<◌, ◌≡◌, Option, some, none}
use granary.Heap.{bump, GlobalHeap, global_allocate, global_free, allocation_size, scale_of}

-- The allocator, and the size that was asked for at each address that is in use.
pub record System : Type 0 where
  pub state : GlobalHeap
  pub held : ℕ → Option ℕ

-- The words outside of an object are what they were.
abbrev pub WritesIn : ℕ → ℕ → (ℕ → ℕ) → (ℕ → ℕ) → Type 0
WritesIn a size words words' = (p : ℕ) → (a ≤ p → p < a + size → ⊥) → words' p ≡ words p

-- A call that gives an object: in one step, or after a look at a free list that was empty then.
abbrev pub Gives : ℕ → ℕ → GlobalHeap → ℕ → GlobalHeap → Type 0
Gives heap size s a next =
    (global_allocate heap size s ≡ (some a, next))
    ⊎ (bump heap (allocation_size size) s ≡ (some a, next))

-- Users ask for memory, write anything into what they hold, and give it back with a size of the
-- same class, as `delete` does. A request that faults, which is always at a new object, has moved
-- `HEAP_INDEX` for all others; here it does not wrap around at 2 ^ 32.
pub data Step (heap : ℕ) (s : System) : System → Type 0 where
  allocates :
      (size a : ℕ) (next : GlobalHeap)
      → size ≤ 2 ^ 63
      → Gives heap size s.state a next
      → Step heap s (record { state = next; held = update s.held a (some size) })
  faults :
      (size : ℕ) (next : GlobalHeap)
      → (s.state).heap_index + u32 (allocation_size size) < 2 ^ 32
      → bump heap (allocation_size size) s.state ≡ (none, next)
      → Step heap s (record s { state = next })
  frees :
      (size size' a : ℕ)
      → s.held a ≡ some size
      → scale_of size' ≡ scale_of size
      → Step heap s
          (record { state = global_free heap a size' s.state; held = update s.held a none })
  writes :
      (size a : ℕ) (words : ℕ → ℕ)
      → s.held a ≡ some size
      → WritesIn a (allocation_size size) (s.state).words words
      → Step heap s (record s { state = record (s.state) { words = words } })

abbrev pub boot : System
boot = record {
  state = record { heap_index = 0; heads = λ k. 0; words = λ p. 0 };
  held = λ a. none;
}

pub data Reach (heap : ℕ) : System → Type 0 where
  booted : Reach heap boot
  stepped : {s t : System} → Reach heap s → Step heap s t → Reach heap t
