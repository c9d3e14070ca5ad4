-- ===== src/BlockInfo/Tests.antt =====
-- A small table of fragments, and the theorems about it.
use granary.BlockInfo.{
  BasicBlockInfo, TraceInfo, Fragment, block, trace, get_block, search_basic_block_info,
  search_loop, max_bbs_per_slab, store_trace_meta_info, remove_basic_block_info,
}
use granary.BlockInfo.Blocks.{AllWhole, IsTrace, Has, store-search-remove}
use granary.BlockInfo.Search.{Sorted, Searched, search_basic_block_info_lem}
use granary.Common.{
  ℕ, ◌+◌, ◌<◌, ◌≤◌, ◌≡◌, refl, some, none, List, [], ◌∷◌, arith, ◌>>=◌, ◌==◌, length, if◌then◌else◌,
}

abbrev first : BasicBlockInfo
first = record { start_pc = 0x1000; num_bytes = 0x20 }

abbrev second : BasicBlockInfo
second = record { start_pc = 0x1040; num_bytes = 0x10 }

abbrev third : BasicBlockInfo
third = record { start_pc = 0x1050; num_bytes = 0x30 }

abbrev pair : TraceInfo
pair = record { start_pc = 0x1040; num_bytes = 0x40; blocks = second ∷ third ∷ [] }

abbrev table : List Fragment
table = block first ∷ trace pair ∷ []

found : search_basic_block_info table 0x1060 ≡ some (some third)
unfolding search_basic_block_info search_loop get_block
found = refl

gap : search_basic_block_info table 0x1030 ≡ some none
unfolding search_basic_block_info search_loop get_block
gap = refl

table-Sorted : Sorted 0x1000 table
table-Sorted = (omega arith, omega arith, (omega arith, omega arith, tt))

pair-IsTrace : IsTrace pair
pair-IsTrace = (refl, (refl, refl))

search_basic_block_info_lem_example : Searched table 0x1060 (search_basic_block_info table 0x1060)
search_basic_block_info_lem_example = search_basic_block_info_lem 0x1000 table 0x1060 table-Sorted

abbrev one : TraceInfo
one = record { start_pc = 0x1040; num_bytes = 0x10; blocks = second ∷ [] }

single_removed :
    (store_trace_meta_info one (block first ∷ []) >>= remove_basic_block_info 0x1048)
    ≡ some (block first ∷ [])
unfolding store_trace_meta_info remove_basic_block_info
single_removed = refl

store-search-remove_example :
    (fs' : List Fragment) × (store_trace_meta_info pair (block first ∷ []) ≡ some fs')
    × Sorted 0x1000 fs'
    × AllWhole fs'
    × ((pc : ℕ)
        → 0x1040 ≤ pc
        → pc < 0x1040 + 0x40
        → (b : BasicBlockInfo) × (search_basic_block_info fs' pc ≡ some (some b)) × Has pc b)
    × ((pc : ℕ)
        → 0x1040 ≤ pc
        → pc < 0x1040 + 0x40
        → remove_basic_block_info pc fs'
          ≡ (if length pair.blocks == 1 then some (block first ∷ []) else none))
    × ((full : List Fragment)
        → max_bbs_per_slab ≤ length full
        → store_trace_meta_info pair full ≡ none)
store-search-remove_example =
    store-search-remove 0x1000 (block first ∷ []) pair (omega arith, omega arith, tt) (tt, tt)
      pair-IsTrace (omega arith) (omega arith) (omega arith)
