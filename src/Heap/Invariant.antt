-- ===== src/Heap/Invariant.antt =====
-- The invariant of the heap (granary/allocator.cc): the objects cut off so far, the free lists, and
-- that each object is in use or free.
use granary.Common.{Chain, Each, Apart, ℕ, ◌+◌, ◌^◌, ◌≤◌, ◌<◌, ◌≡◌, Option, some, none, List}
use granary.Heap.{heap_size, min_scale, scale_of}
use granary.Heap.Size.{SizeClass}
use granary.Heap.Steps.{System}

-- The objects: the scale of the one that starts at an address, and the addresses that are free.
pub record IsHeap (heap : ℕ) (s : System) (scales : ℕ → Option ℕ) (frees : ℕ → List ℕ)
    : Type 0 where
  pub bound : (s.state).heap_index < 2 ^ 32
  pub inside :
      (a k : ℕ)
      → scales a ≡ some k
      → (heap ≤ a)
        × (a + 2 ^ (k + min_scale) ≤ heap + (s.state).heap_index)
        × (a + 2 ^ (k + min_scale) ≤ heap + heap_size)
  pub apart :
      (a b j k : ℕ) → scales a ≡ some j → scales b ≡ some k → a < b → a + 2 ^ (j + min_scale) ≤ b
  pub chain : (k : ℕ) → Chain (s.state).words ((s.state).heads k) (frees k)
  pub free : (k : ℕ) → Each (λ a. (scales a ≡ some k) × (s.held a ≡ none)) (frees k)
  pub distinct : (k : ℕ) → Apart (frees k)
  pub used :
      (a size : ℕ) → s.held a ≡ some size → (scales a ≡ some (scale_of size)) × SizeClass size

pub record HeapState (heap : ℕ) (s : System) : Type 0 where
  pub scales : ℕ → Option ℕ
  pub frees : ℕ → List ℕ
  pub valid : IsHeap heap s scales frees
