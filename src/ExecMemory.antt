-- ===== src/ExecMemory.antt =====
-- The executable memory, granary/allocator.cc: one area from which code cache pages are taken at
-- the front, generated code in front of the last megabyte, downwards, and wrappers inside of it. Each
-- allocation is an atomic update of a bound and a check against another bound, which other
-- processors may have moved in between.
pub mod Steps
pub mod Invariant
pub mod Kept
pub mod Safety
pub mod Whole
mod Tests
use granary.Common.Words.{u32, u64}
use granary.Common.{
  ℕ, ◌+◌, ◌-◌, ◌*◌, ◌/◌, ◌^◌, Bool, true, false, not, ◌&&◌, Option, some, none, ltb, leb,
  if◌then◌else◌,
}

abbrev pub one_mb : ℕ
one_mb = 1048576

abbrev pub code_cache_size : ℕ
code_cache_size = 100 * one_mb

abbrev pub fragment_cache_max_size : ℕ
fragment_cache_max_size = code_cache_size - one_mb

-- `executable_memory_kind`, and any other number.
pub data MemoryKind : Type 0 where
  exec_code_cache exec_gen_code exec_wrapper exec_unknown : MemoryKind

-- The bounds; the first two are set once, by `init_code_cache`.
pub record ExecMemory : Type 0 where
  pub exec_start : ℕ
  pub exec_end : ℕ
  pub code_cache_end : ℕ
  pub gen_code_start : ℕ
  pub wrapper_start : ℕ
  pub wrapper_end : ℕ

-- `area` is the address of `EXECUTABLE_AREA`.
unfoldable pub init_code_cache : ℕ → ExecMemory
init_code_cache area = record {
  exec_start = area;
  exec_end = area + code_cache_size;
  code_cache_end = area;
  gen_code_start = area + code_cache_size - one_mb;
  wrapper_start = area + code_cache_size - one_mb;
  wrapper_end = area + code_cache_size - one_mb;
}

-- The atomic update: the address that it gives, and the bounds behind it.
unfoldable pub reserve : MemoryKind → ℕ → ExecMemory → ℕ × ExecMemory
reserve exec_code_cache size m =
    (m.code_cache_end, record m { code_cache_end = u64 (m.code_cache_end + size) })
reserve exec_gen_code size m =
    let mem = u64 (m.gen_code_start + 2 ^ 64 - size) in (mem, record m { gen_code_start = mem })
reserve exec_wrapper size m = (m.wrapper_end, record m { wrapper_end = u64 (m.wrapper_end + size) })
reserve exec_unknown size m = (0, m)

-- The check behind it; where it fails, `granary_fault` stops the processor.
unfoldable pub passes : MemoryKind → ℕ → ℕ → ExecMemory → Bool
passes exec_code_cache mem size m = not (ltb m.gen_code_start (u64 (mem + size)))
passes exec_gen_code mem size m = not (ltb mem m.code_cache_end)
passes exec_wrapper mem size m = not (ltb m.exec_end (u64 (mem + size)))
passes exec_unknown mem size m = false

-- The whole of it, with nothing in between.
unfoldable pub global_allocate_executable : ℕ → MemoryKind → ExecMemory → Option (ℕ × ExecMemory)
unfolding reserve passes
global_allocate_executable size kind m =
    let r = reserve kind size m in if passes kind r.0 size r.1 then some r else none

unfoldable pub is_code_cache_address : ExecMemory → ℕ → Bool
is_code_cache_address m addr = leb m.exec_start addr && ltb addr m.code_cache_end

unfoldable pub is_wrapper_address : ExecMemory → ℕ → Bool
is_wrapper_address m addr = leb m.wrapper_start addr && ltb addr m.wrapper_end

unfoldable pub is_gencode_address : ExecMemory → ℕ → Bool
is_gencode_address m addr = leb m.gen_code_start addr && ltb addr m.wrapper_start

-- The slab of a fragment, by its index in `FRAGMENT_SLABS`, for slabs of a given size.
unfoldable pub granary_find_fragment_slab : ℕ → ExecMemory → ℕ → ℕ
granary_find_fragment_slab slab_size m addr = u32 (u64 (addr + 2 ^ 64 - m.exec_start) / slab_size)

abbrev pub max_num_fragment_slabs : ℕ → ℕ
max_num_fragment_slabs slab_size = fragment_cache_max_size / slab_size
