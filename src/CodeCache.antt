-- ===== src/CodeCache.antt =====
-- Lookup and translation, `code_cache::find` (granary/code_cache.cc) and `find_detach_target`
-- (granary/detach.cc). The global code cache is any map of the interface; the translator, the
-- generator of exit stubs and the tests of an address are answers of the surroundings.
pub mod Find
pub mod Resolve
pub mod Answer
mod Tests
use granary.CodeMap.{CodeMap}
use granary.Common.{
  ℕ, Bool, true, false, not, ◌&&◌, ◌||◌, Option, some, none, List, [], ◌∷◌, ◌==◌, if◌then◌else◌,
  ◌>>=◌,
}
use granary.CpuCodeCache.{Cache}
use granary.Policy.{
  Policy, RuntimeContext, running_as_app, running_as_host, context, base_policy, in_host_context,
  is_in_host_context, can_detach, is_indirect_cti_target, is_return_target, mangle, policy_of,
  unmangled_address,
}

-- The two tables of detach points, one for each context.
pub record DetachTables : Type 0 where
  pub app : Cache
  pub host : Cache

-- `DETACH_HASH_TABLE[context]`
abbrev pub table_for : RuntimeContext → DetachTables → Cache
table_for running_as_app tables = tables.app
table_for running_as_host tables = tables.host

abbrev pub is_app : RuntimeContext → Bool
is_app running_as_app = true
is_app running_as_host = false

unfoldable pub add_detach_target : ℕ → ℕ → RuntimeContext → DetachTables → Option DetachTables
add_detach_target detach_addr redirect_addr running_as_app tables =
    granary.CpuCodeCache.store tables.app detach_addr redirect_addr true >>= λ r.
    some (record tables { app = r.1 })
add_detach_target detach_addr redirect_addr running_as_host tables =
    granary.CpuCodeCache.store tables.host detach_addr redirect_addr true >>= λ r.
    some (record tables { host = r.1 })

-- The second argument is `is_host_address` of the address; a null address is 0.
unfoldable pub find_detach_target : Bool → Bool → DetachTables → ℕ → RuntimeContext → ℕ
find_detach_target kernel is_host tables detach_addr ctx =
    let found = granary.CpuCodeCache.load (table_for ctx tables) detach_addr in
    if kernel && (is_app ctx && not is_host) then 0 else if found.0 then found.1 else 0

-- What `find` calls, in its order: the newest call comes first.
pub data Event : Type 0 where
  lock_coarse unlock_coarse ibl_lock ibl_unlock : Event
  translate discard_basic_block remove_basic_block_info commit_to_basic_block : ℕ → Event
  free_last_fragment free_last_stub free_last_block : Event

pub record State (T : Type 0) : Type 0 where
  pub cache : T
  pub log : List Event

-- A translation: its address, the number of basic blocks, and the code cache behind it, where the
-- translator and other processors may have stored entries.
pub record Translation (T : Type 0) : Type 0 where
  pub target : ℕ
  pub blocks : ℕ
  pub cache : T

-- The build (`CONFIG_ENV_KERNEL`, `CONFIG_FEATURE_INSTRUMENT_HOST`) and the surroundings.
-- `is_internal` is a code cache, wrapper or gencode address.
pub record Environment (T : Type 0) : Type 0 where
  pub kernel : Bool
  pub instrument_host : Bool
  pub is_internal : ℕ → Bool
  pub is_host_address : ℕ → Bool
  pub detach_tables : DetachTables
  pub translator : Policy → ℕ → T → Translation T
  pub ibl_exit_routine : ℕ → ℕ → ℕ

abbrev pub logged : {T : Type 0} → Event → State T → State T
logged e st = record st { log = e ∷ st.log }

module _ {T : Type 0} (c : CodeMap T) (env : Environment T) where
  -- The address and the policy that a mangled address carries, the policy in its right context,
  -- and the mangled address of its base policy.
  abbrev pub app_target : ℕ → ℕ
  app_target addr = unmangled_address env.kernel addr

  abbrev pub right_policy : ℕ → Policy
  right_policy addr =
      in_host_context (if env.kernel then env.is_host_address (app_target addr) else false)
        (policy_of addr)

  abbrev pub base_addr : ℕ → ℕ
  base_addr addr = mangle (app_target addr) (base_policy (right_policy addr))

  -- `load`, whose out-parameter is the target address.
  abbrev pub load_target : T → ℕ → Option ℕ
  load_target t addr = c.load t addr >>= λ r. some r.1

  -- Detaching: to a detach point, or to host code that is newly entered and not instrumented.
  unfoldable pub detach_to : ℕ → ℕ
  detach_to addr =
      let p = right_policy addr in
      let target =
        find_detach_target env.kernel (env.is_host_address (app_target addr)) env.detach_tables
          (app_target addr) (context p) in
      if (target == 0)
        && (not env.instrument_host
            && (not (is_in_host_context (policy_of addr)) && is_in_host_context p))
      then app_target addr
      else target

  abbrev pub or_detach : ℕ → ℕ → ℕ
  or_detach addr target =
      if (target == 0) && can_detach (right_policy addr) then detach_to addr else target

  -- An address in translated code stands for itself.
  abbrev pub internal_target : ℕ → ℕ
  internal_target addr = if env.is_internal (app_target addr) then app_target addr else 0

  -- All that may answer without a translation, behind the first lookup; 0 if nothing does.
  unfoldable pub resolve : T → ℕ → Option ℕ
  resolve t addr =
      if (internal_target addr == 0) && not (base_addr addr == addr)
      then (load_target t (base_addr addr) >>= λ target. some (or_detach addr target))
      else some (or_detach addr (internal_target addr))

  -- A single basic block gives way to what is in the code cache already.
  unfoldable pub add_block : ℕ → ℕ → State T → Option (ℕ × State T)
  add_block base target st = c.store st.cache base target false >>= λ w.
      if w.0
      then some (target, logged (commit_to_basic_block target) (record st { cache = w.1 }))
      else (load_target w.1 base >>= λ previous. some (
        previous,
        logged free_last_block (
            logged free_last_stub (
              logged free_last_fragment (
                logged (remove_basic_block_info target)
                  (logged (discard_basic_block target) (record st { cache = w.1 }))))),
      ))

  -- A trace replaces what is there.
  unfoldable pub add_trace : ℕ → ℕ → State T → Option (ℕ × State T)
  add_trace base target st = c.store st.cache base target true >>= λ w.
      some (target, logged (commit_to_basic_block target) (record st { cache = w.1 }))

  unfoldable pub translate_missing : ℕ → State T → Option (ℕ × State T)
  translate_missing addr st =
      let r = env.translator (base_policy (right_policy addr)) (app_target addr) st.cache in
      let st' = logged (translate (app_target addr)) (record st { cache = r.cache }) in
      if r.blocks == 1
      then add_block (base_addr addr) r.target st'
      else add_trace (base_addr addr) r.target st'

  -- The exit stub of an indirect jump or call, or of a return.
  unfoldable pub add_exit_stub : ℕ → ℕ → State T → Option (ℕ × State T)
  add_exit_stub addr target st =
      let stub = env.ibl_exit_routine addr target in
      c.store st.cache addr stub false >>= λ w.
      let st' = logged ibl_unlock (logged ibl_lock (record st { cache = w.1 })) in
      if w.0 then some (stub, st') else (load_target w.1 addr >>= λ previous. some (previous, st'))

  abbrev pub wants_stub : ℕ → Bool
  wants_stub addr =
      is_indirect_cti_target (right_policy addr) || is_return_target (right_policy addr)

  abbrev pub finish : ℕ → ℕ → State T → Option (ℕ × State T)
  finish addr target st =
      if wants_stub addr
      then add_exit_stub addr target (logged unlock_coarse st)
      else some (target, logged unlock_coarse st)

  -- The part of `find` behind the lookups, given what they resolved to.
  unfoldable pub find_missing : ℕ → ℕ → State T → Option (ℕ × State T)
  find_missing addr target st =
      let found = finish addr target (logged lock_coarse st) in
      let made = translate_missing addr (logged lock_coarse st) >>= (λ r. finish addr r.0 r.1) in
      if target == 0 then made else found

  unfoldable pub find : ℕ → State T → Option (ℕ × State T)
  find addr st = c.load st.cache addr >>= λ hit.
      if hit.0
      then some (hit.1, st)
      else (resolve st.cache addr >>= λ target. find_missing addr target st)
