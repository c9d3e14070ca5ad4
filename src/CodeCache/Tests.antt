-- ===== src/CodeCache/Tests.antt =====
-- A run of the code cache over a hash table, and the theorems about it there.
use granary.CodeCache.{
  State, Environment, add_block, discard_basic_block, remove_basic_block_info, free_last_fragment,
  free_last_stub, free_last_block,
}
use granary.CodeCache.Find.{Stored, stored, kept_true, NoNull, Left, add_block-race}
use granary.CodeMap.Table.{table_map, Fits}
use granary.Common.{
  ℕ, ap, replicate, get_or-replicate, ◌+◌, ◌*◌, ◌%◌, ◌^◌, ◌≡◌, sym, ◌∙◌, true, false, some, [], ◌∷◌,
  arith,
}
use granary.CpuCodeCache.{no_entries}
use granary.HashTable.{HashTable, new_table}
use granary.HashTable.Valid.{new_table-IsTable}
use granary.Probe.{Entry, empty}
use granary.Probe.Slots.{lookup-slot}

abbrev hash : ℕ → ℕ
hash k = k % 2 ^ 32

-- User code, a translator of single blocks that go 0x4000 behind the code, and one exit stub.
abbrev env : Environment HashTable
env = record {
  kernel = false;
  instrument_host = false;
  is_internal = λ addr. false;
  is_host_address = λ addr. false;
  detach_tables = record { app = no_entries; host = no_entries };
  translator = λ policy addr t. record { target = addr + 0x4000; blocks = 1; cache = t };
  ibl_exit_routine = λ addr target. 0x9000;
}

abbrev start : State HashTable
start = record { cache = new_table; log = [] }

new_table-Fits : Fits hash 2 new_table
unfolding new_table
new_table-Fits = (new_table-IsTable hash, omega arith)

empty-NoNull : NoNull (table_map hash) new_table
unfolding new_table
empty-NoNull q q0 e =
    let slot = lookup-slot hash 16 (replicate 16 empty) q 0 (omega arith) e in
    q0 (sym slot.2 ∙ ap (λ (x : Entry). x.key) (get_or-replicate 16 slot.0 empty))

-- The address 0x1000 under the policy 5.
abbrev addr : ℕ
addr = 0x500 * 2 ^ 48 + 0x1000

-- Another processor was faster: 0x7000 is there already.
faster : (t : HashTable) × Stored (table_map hash) 1 new_table 0x5000000001000 0x7000 true t
faster =
    stored (table_map hash) 1 new_table 0x5000000001000 0x7000 true new_table-Fits empty-NoNull
      (λ e. absurd (omega (arith, e))) (λ e. absurd (omega (arith, e)))

abbrev won : State HashTable
won = record { cache = faster.0; log = [] }

add_block-race_example :
    (st' : State HashTable) × (add_block (table_map hash) env 0x5000000001000 0x5000 won
      ≡ some (0x7000, st'))
    × Left (table_map hash) 0 0x7000 st'
    × ((table_map hash).view st'.cache 0x5000000001000 ≡ some 0x7000)
    × (st'.log
        ≡ free_last_block
          ∷ free_last_stub
          ∷ free_last_fragment
          ∷ remove_basic_block_info 0x5000
          ∷ discard_basic_block 0x5000
          ∷ [])
add_block-race_example =
    add_block-race (table_map hash) env 0 0x5000000001000 0x5000 0x7000 won (faster.1).fits
      (faster.1).no_null (λ e. absurd (omega (arith, e))) (λ e. absurd (omega (arith, e)))
      ((faster.1).maps
        ∙ ap some (kept_true 0x7000 ((table_map hash).view new_table 0x5000000001000)))
