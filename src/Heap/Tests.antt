-- ===== src/Heap/Tests.antt =====
-- Runs of the heap (granary/allocator.cc).
use granary.Common.{ℕ, ◌^◌, ◌≡◌, ◌≢◌, inl, inr, refl, some, arith}
use granary.Heap.{
  GlobalHeap, global_allocate, global_free, bump, allocation_size, log_base_2, next_power_of_2,
  is_heap_address,
}
use granary.Heap.Safety.{global_allocate-Fresh, global_free-global_allocate, Fresh}
use granary.Heap.Size.{SizeClass, allocation_size_lem}
use granary.Heap.Steps.{System, allocates, faults, frees, Reach, booted, stepped}

sizes : allocation_size 24 ≡ 32
unfolding allocation_size next_power_of_2
sizes = refl

power_kept : next_power_of_2 16 ≡ 16
unfolding next_power_of_2
power_kept = refl

allocation_size_lem_example : SizeClass 24
allocation_size_lem_example = allocation_size_lem 24 (omega arith)

-- One object of 24 bytes is given back, and one of 100 bytes is in use; a request of 2 ^ 30 bytes
-- has faulted.
abbrev busy : (s : System) × Reach 4096 s
unfolding global_allocate bump allocation_size log_base_2 next_power_of_2 global_free
    is_heap_address
busy =
    let a = stepped booted (allocates 24 4096 _ (omega arith) (inl refl)) in
    let b = stepped a (allocates 100 4128 _ (omega arith) (inr refl)) in
    let c = stepped b (faults (2 ^ 30) _ (omega arith) refl) in
    (_, stepped c (frees 24 20 4096 refl refl))

global_allocate-Fresh_example : Fresh 4096 (allocation_size 30) busy.0 4096
unfolding global_allocate bump allocation_size log_base_2 next_power_of_2 global_free
    is_heap_address
global_allocate-Fresh_example =
    global_allocate-Fresh 4096 30 4096 busy.0 _ (omega arith) busy.1 (omega arith) (inl refl)

global_free-global_allocate_example :
    (next : GlobalHeap) × (global_allocate 4096 65 (global_free 4096 4128 128 (busy.0).state)
      ≡ (some 4128, next))
    × (next.heap_index ≡ ((busy.0).state).heap_index)
    × ((k : ℕ) → next.heads k ≡ ((busy.0).state).heads k)
    × ((p : ℕ) → p ≢ 4128 → next.words p ≡ ((busy.0).state).words p)
unfolding global_allocate bump allocation_size log_base_2 next_power_of_2 global_free
    is_heap_address
global_free-global_allocate_example =
    global_free-global_allocate 4096 100 128 65 4128 busy.0 (omega arith) busy.1 refl refl refl
