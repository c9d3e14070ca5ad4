-- ===== src/ExecMemory/Steps.antt =====
-- Processors that allocate executable memory at the same time (granary/allocator.cc), an atomic
-- access at a time.
use granary.Common.{update, ℕ, suc, ◌+◌, ◌^◌, ◌<◌, ◌≤◌, ◌≡◌, Bool, true, false}
use granary.ExecMemory.{
  MemoryKind, exec_code_cache, exec_gen_code, exec_wrapper, exec_unknown, ExecMemory,
  init_code_cache, reserve, passes,
}

-- A call of `global_allocate_executable` behind its update; `granted` once its check has passed.
pub record Request : Type 0 where
  pub kind : MemoryKind
  pub mem : ℕ
  pub size : ℕ
  pub granted : Bool

-- All requests so far, by their number.
pub record System : Type 0 where
  pub bounds : ExecMemory
  pub count : ℕ
  pub requests : ℕ → Request

-- No bound leaves the 64-bit addresses.
abbrev pub NoWrap : MemoryKind → ℕ → ExecMemory → Type 0
NoWrap exec_code_cache size m = m.code_cache_end + size < 2 ^ 64
NoWrap exec_gen_code size m = size ≤ m.gen_code_start
NoWrap exec_wrapper size m = m.wrapper_end + size < 2 ^ 64
NoWrap exec_unknown size m = Unit {0}

pub data Step (s : System) : System → Type 0 where
  reserves :
      (kind : MemoryKind) (size : ℕ)
      → NoWrap kind size s.bounds
      → Step s (record {
        bounds = (reserve kind size s.bounds).1;
        count = suc s.count;
        requests = update s.requests s.count (record {
          kind = kind;
          mem = (reserve kind size s.bounds).0;
          size = size;
          granted = false;
        });
      })
  grants :
      (i : ℕ)
      → i < s.count
      → passes (s.requests i).kind (s.requests i).mem (s.requests i).size s.bounds ≡ true
      → Step s
          (record s { requests = update s.requests i (record (s.requests i) { granted = true }) })

abbrev pub no_request : Request
no_request = record { kind = exec_unknown; mem = 0; size = 0; granted = false }

abbrev pub boot : ℕ → System
boot area = record { bounds = init_code_cache area; count = 0; requests = λ i. no_request }

pub data Reach (area : ℕ) : System → Type 0 where
  booted : Reach area (boot area)
  stepped : {s t : System} → Reach area s → Step s t → Reach area t
