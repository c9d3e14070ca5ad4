-- ===== src/Heap.antt =====
-- The heap, granary/allocator.cc: objects whose sizes are powers of two, cut off the front of `HEAP`
-- and kept in a free list for each size once they are freed. A free object holds the address of the
-- next one in its first word.
pub mod Size
pub mod Steps
pub mod Invariant
pub mod Allocate
pub mod Free
pub mod Safety
mod Tests
use granary.Common.Words.{u32, u64}
use granary.Common.{
  update, ℕ, zero, suc, ◌+◌, ◌-◌, ◌*◌, ◌/◌, ◌^◌, ◌==◌, Bool, not, ◌&&◌, Option, some, none, ltb,
  leb, if◌then◌else◌,
}

abbrev pub heap_size : ℕ
heap_size = 1048576 * 256

abbrev pub min_scale : ℕ
min_scale = 3

abbrev pub unsigned_long_num_bits : ℕ
unsigned_long_num_bits = 64

abbrev pub min_object_size : ℕ
min_object_size = 2 ^ min_scale

abbrev pub num_free_lists : ℕ
num_free_lists = 64 - min_scale

-- How many bits a number takes, up to a bound.
abbrev pub bit_width : ℕ → ℕ → ℕ
bit_width zero x = 0
bit_width (suc n) x = let rest = bit_width n (x / 2) in if x == 0 then 0 else suc rest

-- `__builtin_clzl`, the zeros in front of the first one among 64 bits.
abbrev pub clzl : ℕ → ℕ
clzl x = 64 - bit_width 64 x

unfoldable pub log_base_2 : ℕ → ℕ
log_base_2 x = (unsigned_long_num_bits - 1) - clzl x

unfoldable pub next_power_of_2 : ℕ → ℕ
next_power_of_2 x = 2 ^ (unsigned_long_num_bits - clzl (x - 1))

unfoldable pub allocation_size : ℕ → ℕ
unfolding next_power_of_2
allocation_size size =
    if ltb size min_object_size
    then min_object_size
    else (let high_power = next_power_of_2 size in
        let low_power = high_power / 2 in if leb size low_power then low_power else high_power)

-- `HEAP_INDEX`, the heads of `FREE_LISTS`, and the words of memory by their address.
pub record GlobalHeap : Type 0 where
  pub heap_index : ℕ
  pub heads : ℕ → ℕ
  pub words : ℕ → ℕ

-- `heap` is the address of `HEAP`.
unfoldable pub is_heap_address : ℕ → ℕ → Bool
is_heap_address heap ptr = leb heap ptr && ltb ptr (heap + heap_size)

abbrev pub scale_of : ℕ → ℕ
scale_of size = log_base_2 (allocation_size size) - min_scale

-- A new object: `HEAP_INDEX`, of 32 bits, moves on first, and `none` is the fault of `FAULT_IF` where
-- the heap is used up.
unfoldable pub bump : ℕ → ℕ → GlobalHeap → Option ℕ × GlobalHeap
bump heap size s =
    let next_heap_index = u64 (s.heap_index + size) in
    (
      if leb heap_size next_heap_index then none else some (heap + s.heap_index),
      record s { heap_index = u32 (s.heap_index + size) },
    )

-- The lock of a free list makes the load and the store of its head one step; a new object is cut off
-- without a lock.
unfoldable pub global_allocate : ℕ → ℕ → GlobalHeap → Option ℕ × GlobalHeap
unfolding bump
global_allocate heap size s =
    let object = s.heads (scale_of size) in
    if object == 0
    then bump heap (allocation_size size) s
    else (some object, record s { heads = update s.heads (scale_of size) (s.words object) })

unfoldable pub global_free : ℕ → ℕ → ℕ → GlobalHeap → GlobalHeap
unfolding is_heap_address
global_free heap addr size s = if not (is_heap_address heap addr) then s else record s {
  words = update s.words addr (s.heads (scale_of size));
  heads = update s.heads (scale_of size) addr;
}
