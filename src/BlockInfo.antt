-- ===== src/BlockInfo.antt =====
-- The table of the basic blocks in a slab of translated code, granary/basic_block_info.cc: a sorted
-- array of fragments, each a basic block or a trace of several.
pub mod Search
pub mod Blocks
mod Tests
use granary.Common.{
  ℕ, zero, suc, ◌+◌, ◌-◌, ◌/◌, Bool, ◌&&◌, Option, some, none, List, [], ◌∷◌, ◌++◌, ltb, leb,
  if◌then◌else◌, get_or, length, false, ◌>>=◌,
}

pub record BasicBlockInfo : Type 0 where
  pub start_pc : ℕ
  pub num_bytes : ℕ

pub record TraceInfo : Type 0 where
  pub start_pc : ℕ
  pub num_bytes : ℕ
  pub blocks : List BasicBlockInfo

-- `generic_info_ptr`, a pointer with its low bit as a tag.
pub data Fragment : Type 0 where
  block : BasicBlockInfo → Fragment
  trace : TraceInfo → Fragment

-- The entries beyond those in use are null.
abbrev pub null_fragment : Fragment
null_fragment = block (record { start_pc = 0; num_bytes = 0 })

abbrev pub start_pc : Fragment → ℕ
start_pc (block b) = b.start_pc
start_pc (trace t) = t.start_pc

abbrev pub end_pc : Fragment → ℕ
end_pc (block b) = b.start_pc + b.num_bytes
end_pc (trace t) = t.start_pc + t.num_bytes

abbrev pub is_in : ℕ → BasicBlockInfo → Bool
is_in pc b = leb b.start_pc pc && ltb pc (b.start_pc + b.num_bytes)

abbrev pub first_block : ℕ → List BasicBlockInfo → Option BasicBlockInfo
first_block pc [] = none
first_block pc (b ∷ bs) = if is_in pc b then some b else first_block pc bs

-- `none` is the null pointer.
unfoldable pub get_block : Fragment → ℕ → Option BasicBlockInfo
get_block (block b) pc = some b
get_block (trace t) pc = first_block pc t.blocks

abbrev pub fragment_at : List Fragment → ℕ → Fragment
fragment_at fs i = get_or fs i null_fragment

-- The loop of `search_basic_block_info`. It keeps `last + 1`, since `last` can become negative, and
-- is given fuel: the outer `none` means that the fuel ran out.
unfoldable pub search_loop : ℕ → List Fragment → ℕ → ℕ → ℕ → Option (Option BasicBlockInfo)
search_loop zero fs first beyond pc = none
search_loop (suc fuel) fs first beyond pc =
    let middle = (first + beyond - 1) / 2 in
    let f = fragment_at fs middle in
    let higher = search_loop fuel fs (middle + 1) beyond pc in
    let lower = search_loop fuel fs first middle pc in
    if leb first middle && ltb middle beyond
    then (if leb (start_pc f) pc
        then (if ltb pc (end_pc f) then some (get_block f pc) else higher)
        else lower)
    else some none

unfoldable pub search_basic_block_info : List Fragment → ℕ → Option (Option BasicBlockInfo)
search_basic_block_info fs pc = search_loop (length fs + 1) fs 0 (length fs) pc

-- `SLAB_SIZE / BB_ALIGN + 1`, for pages of 4096 bytes and cache lines of 64.
abbrev pub max_bbs_per_slab : ℕ
max_bbs_per_slab = 4096 / 64 + 1

-- What is stored for a trace: a trace of a single block is stored as that block.
abbrev pub fragment_of : TraceInfo → List BasicBlockInfo → Fragment
fragment_of t (b ∷ []) = block b
fragment_of t bs = trace t

-- `store_trace_meta_info`, within one slab; `none` where an assertion fails.
unfoldable pub store_trace_meta_info : TraceInfo → List Fragment → Option (List Fragment)
store_trace_meta_info t fs =
    if ltb 0 (length t.blocks) && ltb (length fs) max_bbs_per_slab
    then some (fs ++ (fragment_of t t.blocks ∷ []))
    else none

-- What `remove_basic_block_info` asserts of the last fragment, which is not null.
abbrev pub is_removable : Fragment → ℕ → Bool
is_removable (block b) pc = leb b.start_pc pc
is_removable (trace t) pc = false

-- `remove_basic_block_info`: the last fragment goes; `none` where an assertion fails.
unfoldable pub remove_basic_block_info : ℕ → List Fragment → Option (List Fragment)
remove_basic_block_info pc [] = none
remove_basic_block_info pc (f ∷ []) = if is_removable f pc then some [] else none
remove_basic_block_info pc (f ∷ g ∷ fs) =
    remove_basic_block_info pc (g ∷ fs) >>= λ rest. some (f ∷ rest)
