-- ===== src/CpuCodeCache.antt =====
-- The CPU-private code cache, granary/cpu_code_cache.h and granary/cpu_code_cache.cc: a table from
-- application addresses to code-cache addresses whose `find` looks at eight slots at most. A null
-- `entries` is the empty list. An operation returns `none` where the code would loop for ever.
pub mod Find
mod Tests
pub mod Store
pub mod Laws
use granary.Common.Words.{u64, ◌<<◌, ◌>>◌}
use granary.Common.{
  ℕ, zero, suc, ◌+◌, ◌-◌, ◌*◌, ◌%◌, ◌^◌, bit_and, bit_xor, Bool, true, false, not, ◌&&◌, Option,
  none, some, List, [], ◌∷◌, ◌==◌, ltb, if◌then◌else◌, ◌>>=◌, replicate,
}
use granary.Probe.{
  Entry, empty, key_at, walk, insert_into, transfer, Stop, Inserted, StoreState, skipped,
}
use granary.Probe.Slots.{value_at}

pub record Cache : Type 0 where
  pub bit_mask : ℕ
  pub entries : List Entry
  pub growing : Bool

abbrev pub max_scan : ℕ
max_scan = 8

abbrev pub min_default_entries : ℕ
min_default_entries = 128

-- The static initial state: all fields zero.
abbrev pub no_entries : Cache
no_entries = record { bit_mask = 0; entries = []; growing = false }

-- The mix of MurmurHash3, on 64-bit words.
unfoldable pub fmix : ℕ → ℕ
fmix k =
    let a = bit_xor k (k >> 33) in
    let b = u64 (a * 0xff51afd7ed558ccd) in
    let c = bit_xor b (b >> 33) in let d = u64 (c * 0xc4ceb9fe1a85ec53) in bit_xor d (d >> 33)

-- The slot where the loop of `find` ended; it gives up after `max_scan` rounds.
unfoldable pub probe : Cache → ℕ → Option Stop
probe t key = walk max_scan 64 t.entries t.bit_mask key (fmix key) 0

-- A null pointer is 0.
abbrev pub read_stop : Cache → Option Stop → ℕ
read_stop t none = 0
read_stop t (some s) = if key_at t.entries s.index == 0 then 0 else value_at t.entries s.index

-- The first test of `find`: without entries the answer is null.
abbrev pub if_entries : List Entry → ℕ → ℕ
if_entries [] answer = 0
if_entries (e ∷ es) answer = answer

unfoldable pub find : Cache → ℕ → ℕ
unfolding probe
find t key = if_entries t.entries (read_stop t (probe t key))

unfoldable pub load : Cache → ℕ → Bool × ℕ
load t key = (not (find t key == 0), find t key)

unfoldable pub grow : Cache → Option Cache
grow t =
    let old_num_entries = u64 (t.bit_mask + 1) in
    let new_num_entries = u64 (old_num_entries << 1) in
    let mask = u64 (new_num_entries + 2 ^ 64 - 1) in
    transfer 64 fmix t.entries mask (replicate new_num_entries empty) >>= λ es.
    some (record { bit_mask = mask; entries = es; growing = false })

unfoldable pub insert : Cache → ℕ → ℕ → Bool → Option (StoreState × Cache)
insert t key value update = insert_into 64 fmix t.entries t.bit_mask key value update >>= λ r.
    let t' = record t { entries = r.entries } in
    if ltb max_scan r.scan && not t.growing
    then grow (record t' { growing = true }) >>= (λ g. some (r.state, record g { growing = false }))
    else some (r.state, t')

-- The lazy allocation of the first entries.
abbrev pub allocate_first : List Entry → Cache → Cache
allocate_first [] t = record t {
  entries = replicate min_default_entries empty;
  bit_mask = min_default_entries - 1;
}
allocate_first (e ∷ es) t = t

abbrev pub allocated : Cache → Cache
allocated t = allocate_first t.entries t

abbrev pub is_written : StoreState → Bool
is_written skipped = false
is_written _ = true

unfoldable pub store : Cache → ℕ → ℕ → Bool → Option (Bool × Cache)
store t key value update = insert (allocated t) key value update >>= λ r. some (is_written r.0, r.1)
