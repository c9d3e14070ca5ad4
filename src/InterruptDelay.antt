-- ===== src/InterruptDelay.antt =====
-- Interrupt delay regions, granary/basic_block.cc: sequences of instructions that an interrupt must
-- not split. Two bits for each byte of a basic block tell where it lies in such a region.
pub mod Packed
pub mod Fill
pub mod Region
pub mod Layout
pub mod Range
mod Tests
use granary.Common.Words.{u32}
use granary.Common.{
  ℕ, zero, suc, ◌+◌, ◌-◌, ◌*◌, ◌/◌, ◌%◌, ◌^◌, bit_and, bit_or, ◌==◌, Bool, true, false, not, ◌&&◌,
  ◌||◌, leb, ltb, if◌then◌else◌, List, [], ◌∷◌, get_or, set, Option, some, none,
}

abbrev pub bb_byte_states_per_byte : ℕ
bb_byte_states_per_byte = 4

-- `code_cache_byte_state`.
pub data ByteState : Type 0 where
  native delay_begin delay_cont delay_end : ByteState

-- The two bits of a state, as in `state_to_mask`, and back.
abbrev pub state_to_mask : ByteState → ℕ
state_to_mask native = 0
state_to_mask delay_begin = 1
state_to_mask delay_cont = 2
state_to_mask delay_end = 3

abbrev pub state_of_mask : ℕ → ByteState
state_of_mask zero = native
state_of_mask (suc zero) = delay_begin
state_of_mask (suc (suc zero)) = delay_cont
state_of_mask (suc (suc (suc n))) = delay_end

-- The states in one byte: `k` is twice the place.
abbrev pub get_bits : ℕ → ℕ → ℕ
get_bits byte k = bit_and (byte / 2 ^ k) 3

abbrev pub set_bits : ℕ → ℕ → ℕ → ℕ
set_bits byte k mask = bit_or (bit_and byte (255 - 3 * 2 ^ k)) (mask * 2 ^ k)

unfoldable pub get_state : List ℕ → ℕ → ByteState
get_state states i =
    state_of_mask
      (get_bits (get_or states (i / bb_byte_states_per_byte) 0) (2 * (i % bb_byte_states_per_byte)))

unfoldable pub set_state : List ℕ → ℕ → ByteState → List ℕ
set_state states i state =
    let j = i / bb_byte_states_per_byte in
    set states j
      (set_bits (get_or states j 0) (2 * (i % bb_byte_states_per_byte)) (state_to_mask state))

-- What an instruction says of delay regions, and its size when it is encoded.
pub record Instruction : Type 0 where
  pub begins_delay_region : Bool
  pub ends_delay_region : Bool
  pub encoded_size : ℕ

abbrev pub is_native : ByteState → Bool
is_native native = true
is_native delay_begin = false
is_native delay_cont = false
is_native delay_end = false

abbrev pub continues : ByteState → ByteState
continues native = native
continues delay_begin = delay_cont
continues delay_cont = delay_cont
continues delay_end = native

unfoldable pub get_instruction_state : Instruction → ByteState → ByteState
get_instruction_state i prev_state =
    if i.begins_delay_region && i.ends_delay_region
    then native
    else if i.begins_delay_region
    then delay_begin
    else if i.ends_delay_region
    then delay_end
    else continues prev_state

unfoldable pub requires_state_bytes : List Instruction → Bool
requires_state_bytes [] = false
requires_state_bytes (i ∷ is) =
    let rest = requires_state_bytes is in
    if i.begins_delay_region || i.ends_delay_region then true else rest

-- A loop that sets so many states from an offset on.
abbrev pub fill : ℕ → List ℕ → ℕ → ByteState → List ℕ
fill zero states i state = states
fill (suc n) states i state = fill n (set_state states i state) (suc i) state

-- The locals of `initialise_state_bytes`.
pub record Scan : Type 0 where
  pub bytes : List ℕ
  pub byte_offset : ℕ
  pub prev_byte_offset : ℕ
  pub prev_state : ByteState
  pub num_delayed : ℕ
  pub prev_num_delayed : ℕ

-- Byte accuracy at the two ends of a region.
abbrev pub mark : ByteState → List ℕ → ℕ → ℕ → List ℕ
mark native states offset size = states
mark delay_begin states offset size = set_state states offset delay_begin
mark delay_cont states offset size = states
mark delay_end states offset size = set_state states (u32 (offset + size + 2 ^ 32 - 1)) delay_end

-- An instruction of a state and a size.
unfoldable pub visit_state : ByteState → ℕ → Scan → Scan
visit_state state size s =
    let stored_state = if is_native state then native else delay_cont in
    let prev_num = if is_native state then s.num_delayed else s.prev_num_delayed in
    let num =
      if is_native state then 0 else if size == 0 then s.num_delayed else s.num_delayed + 1 in
    let cleared =
      if prev_num == 1
      then fill (s.byte_offset - s.prev_byte_offset) s.bytes s.prev_byte_offset native
      else s.bytes in
    record {
      bytes = mark state (fill size cleared s.byte_offset stored_state) s.byte_offset size;
      byte_offset = s.byte_offset + size;
      prev_byte_offset = s.byte_offset;
      prev_state = state;
      num_delayed = num;
      prev_num_delayed = prev_num;
    }

unfoldable pub visit : Instruction → Scan → Scan
unfolding get_instruction_state visit_state
visit i s = visit_state (get_instruction_state i s.prev_state) i.encoded_size s

unfoldable pub visit_all : List Instruction → Scan → Scan
unfolding visit
visit_all [] s = s
visit_all (i ∷ is) s = visit_all is (visit i s)

-- `memset` of so many bytes to 0.
abbrev pub zero_bytes : ℕ → List ℕ → List ℕ
zero_bytes zero states = states
zero_bytes (suc n) [] = []
zero_bytes (suc n) (x ∷ states) = 0 ∷ zero_bytes n states

abbrev pub align_to : ℕ → ℕ → ℕ
align_to lval const_align = if lval % const_align == 0 then 0 else const_align - lval % const_align

unfoldable pub num_state_bytes_for : ℕ → ℕ
num_state_bytes_for num_bytes = let bits = num_bytes * 2 in (bits + align_to bits 64) / 8

unfoldable pub initialise_state_bytes : List Instruction → List ℕ → ℕ → List ℕ
unfolding num_state_bytes_for visit_all
initialise_state_bytes is bytes num_bytes =
    let s = visit_all is (record {
      bytes = zero_bytes (num_state_bytes_for num_bytes) bytes;
      byte_offset = 0;
      prev_byte_offset = 0;
      prev_state = native;
      num_delayed = 0;
      prev_num_delayed = 0;
    }) in
    s.bytes

abbrev pub is_safe : ByteState → Bool
is_safe native = true
is_safe delay_begin = true
is_safe delay_cont = false
is_safe delay_end = false

abbrev pub is_end : ByteState → Bool
is_end native = false
is_end delay_begin = false
is_end delay_cont = false
is_end delay_end = true

-- The loop for `end`, over so many bytes from an offset on.
unfoldable pub find_end : ℕ → List ℕ → ℕ → ℕ → ℕ
unfolding get_state
find_end zero states start i = 0
find_end (suc n) states start i =
    let later = find_end n states start (suc i) in
    if is_end (get_state states i) then start + i + 1 else later

-- The loop for `begin`, over so many bytes from an offset on; the last one counts.
unfoldable pub find_begin : ℕ → List ℕ → ℕ → ℕ → ℕ → ℕ
unfolding get_state
find_begin zero states start i begin = begin
find_begin (suc n) states start i begin =
    find_begin n states start (suc i) (if is_safe (get_state states i) then start + i else begin)

pub record DelayRange : Type 0 where
  pub must_delay : Bool
  pub begin : ℕ
  pub end : ℕ

abbrev pub no_range : DelayRange
no_range = record { must_delay = false; begin = 0; end = 0 }

-- `start` is `cache_pc_start`, and `offset` how far `cache_pc_current` is behind it; both addresses of
-- the range are null pointers before.
unfoldable pub get_interrupt_delay_range : Option (List ℕ) → ℕ → ℕ → ℕ → DelayRange
unfolding get_state find_end find_begin
get_interrupt_delay_range none num_bytes start offset = no_range
get_interrupt_delay_range (some delay_states) num_bytes start offset =
    if (offset == 0) || is_safe (get_state delay_states offset)
    then no_range
    else (let end = find_end (num_bytes - offset) delay_states start offset in
        let begin = find_begin offset delay_states start 0 0 in
        record { must_delay = not (end == 0) && not (begin == 0); begin = begin; end = end })
