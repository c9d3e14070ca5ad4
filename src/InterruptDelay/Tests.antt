-- ===== src/InterruptDelay/Tests.antt =====
-- Blocks with delay regions (granary/basic_block.cc).
use granary.Common.{
  ℕ, zero, suc, ◌≡◌, refl, Bool, true, false, List, [], ◌∷◌, ◌++◌, some, arith, ◌==◌, if◌then◌else◌,
}
use granary.InterruptDelay.Region.{Piece, plain, region, instructions}
use granary.InterruptDelay.Packed.{IsBytes, get_state-set_state}
use granary.InterruptDelay.Range.{delay_range_lem, no_delay_range_lem}
use granary.InterruptDelay.{
  native, delay_cont, get_state, set_state, Instruction, get_instruction_state, visit_state, visit,
  visit_all, initialise_state_bytes, num_state_bytes_for, get_interrupt_delay_range, no_range,
}

abbrev stale : List ℕ
stale = 255 ∷ 255 ∷ 255 ∷ 255 ∷ []

stale-IsBytes : IsBytes stale
stale-IsBytes zero = omega arith
stale-IsBytes (suc zero) = omega arith
stale-IsBytes (suc (suc zero)) = omega arith
stale-IsBytes (suc (suc (suc zero))) = omega arith
stale-IsBytes (suc (suc (suc (suc j)))) = omega arith

get_state-set_state_example :
    get_state (set_state stale 5 delay_cont) 5 ≡ (if 5 == 5 then delay_cont else get_state stale 5)
get_state-set_state_example = get_state-set_state stale 5 5 delay_cont stale-IsBytes (omega arith)

-- Bytes 3 to 9 are a region.
abbrev before : List Piece
before = plain false 1 ∷ plain true 2 ∷ []

abbrev after : List Piece
after = plain false 2 ∷ region 0 [] 1 ∷ []

delay_range_lem_example :
    get_interrupt_delay_range
      (some
        (initialise_state_bytes (instructions (before ++ region 1 (3 ∷ []) 1 ∷ after)) stale 16))
      15
      100
      6
    ≡ record { must_delay = true; begin = 103; end = 110 }
delay_range_lem_example =
    delay_range_lem before 1 (3 ∷ []) 1 after stale 16 100 6 stale-IsBytes (omega arith)
      (omega arith) (omega arith) (omega arith) (omega arith)

no_delay_range_lem_example :
    get_interrupt_delay_range
      (some
        (initialise_state_bytes (instructions (before ++ region 1 (3 ∷ []) 1 ∷ after)) stale 16))
      15
      100
      3
    ≡ no_range
no_delay_range_lem_example =
    no_delay_range_lem before (region 1 (3 ∷ []) 1) after stale 16 100 3 stale-IsBytes (omega arith)
      (omega arith) refl

abbrev one_byte : Bool → Bool → Instruction
one_byte begins ends = record {
  begins_delay_region = begins;
  ends_delay_region = ends;
  encoded_size = 1;
}

-- Behind a region of one instruction, the count of which is never reset before the next native one,
-- the first instruction of the next region is taken for native.
begin_lost :
    get_state
      (initialise_state_bytes
        (one_byte true false ∷ one_byte true true ∷ one_byte true false ∷ one_byte false true ∷ [])
        stale
        4)
      2
    ≡ native
unfolding get_state initialise_state_bytes num_state_bytes_for visit_all visit get_instruction_state
    visit_state set_state
begin_lost = refl
