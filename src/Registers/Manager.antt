-- ===== src/Registers/Manager.antt =====
-- `register_manager`, granary/register.h and granary/register.cc: the registers that may still be
-- read (live) and those that are lent out (undead), as words with one bit for each register. Of an
-- instruction it uses what the decoder says of it: the opcode, the two lists of operands, and
-- whether it is a no-op or a control transfer.
use granary.Common.Words.{u32, ◌<<◌, ◌>>◌}
use granary.Common.{
  ℕ, zero, suc, ◌+◌, ◌-◌, ◌^◌, bit_and, bit_or, Bool, true, false, not, ◌&&◌, ◌||◌, Option, none,
  some, List, [], ◌∷◌, ltb, leb, ◌==◌, if◌then◌else◌,
}
use granary.Registers.{
  reg64, reg32, reg_rsp, reg_rcx, reg_rsi, reg_rdi, reg_mm0, reg_xmm0, reg_xmm15,
}

pub record RegisterManager : Type 0 where
  pub live : ℕ
  pub undead : ℕ
  pub live_xmm : ℕ
  pub undead_xmm : ℕ

-- `~0` in 16 bits.
abbrev pub all_ones : ℕ
all_ones = 2 ^ 16 - 1

abbrev pub force_live : ℕ
force_live = 2 ^ (reg_rsp - 1)

-- `word & ~mask` and `word | mask`, where the mask has bit `i` alone.
unfoldable pub cleared : ℕ → ℕ → ℕ
cleared i word = bit_and word (2 ^ 16 - 1 - 2 ^ i)

unfoldable pub raised : ℕ → ℕ → ℕ
raised i word = bit_or word (2 ^ i)

-- The constructor.
abbrev pub new_manager : RegisterManager
new_manager = record { live = all_ones; undead = 0; live_xmm = all_ones; undead_xmm = 0 }

unfoldable pub kill_all : RegisterManager → RegisterManager
kill_all m = record { live = force_live; undead = 0; live_xmm = 0; undead_xmm = 0 }

unfoldable pub kill_all_live : RegisterManager → RegisterManager
kill_all_live m = record m { live = force_live; live_xmm = 0 }

unfoldable pub revive_all : RegisterManager → RegisterManager
revive_all m = record { live = all_ones; undead = 0; live_xmm = all_ones; undead_xmm = 0 }

unfoldable pub revive_all_xmm : RegisterManager → RegisterManager
revive_all_xmm m = record m { live_xmm = all_ones; undead_xmm = 0 }

-- `revive_all(that)`
unfoldable pub revive_union : RegisterManager → RegisterManager → RegisterManager
revive_union m that = record {
  live = bit_or m.live that.live;
  undead = bit_or m.undead that.undead;
  live_xmm = bit_or m.live_xmm that.live_xmm;
  undead_xmm = bit_or m.undead_xmm that.undead_xmm;
}

-- Does a write to the register replace all of its 64 bits?
abbrev pub is_wide : ℕ → Bool
is_wide reg = not (reg64 reg == 0) && ((reg64 reg == reg) || (reg32 reg == reg))

unfoldable pub kill_64 : ℕ → RegisterManager → RegisterManager
kill_64 reg m =
    if is_wide reg
    then record m {
      undead = cleared (reg64 reg - 1) m.undead;
      live = bit_or (cleared (reg64 reg - 1) m.live) force_live;
    }
    else m

unfoldable pub revive_64 : ℕ → RegisterManager → RegisterManager
revive_64 reg m = if reg64 reg == 0 then m else record m {
  undead = cleared (reg64 reg - 1) m.undead;
  live = raised (reg64 reg - 1) m.live;
}

-- An XMM register in the range from 1 to 16, or 0.
unfoldable pub reg_to_xmm : ℕ → ℕ
reg_to_xmm reg = if leb reg_xmm0 reg && leb reg reg_xmm15 then reg - reg_xmm0 + 1 else 0

unfoldable pub kill_xmm : ℕ → RegisterManager → RegisterManager
kill_xmm reg m = if reg_to_xmm reg == 0 then m else record m {
  undead_xmm = cleared (reg_to_xmm reg - 1) m.undead_xmm;
  live_xmm = cleared (reg_to_xmm reg - 1) m.live_xmm;
}

unfoldable pub revive_xmm : ℕ → RegisterManager → RegisterManager
revive_xmm reg m = if reg_to_xmm reg == 0 then m else record m {
  undead_xmm = cleared (reg_to_xmm reg - 1) m.undead_xmm;
  live_xmm = raised (reg_to_xmm reg - 1) m.live_xmm;
}

unfoldable pub kill_reg : ℕ → RegisterManager → RegisterManager
kill_reg reg m = if leb reg_mm0 reg then kill_xmm reg m else kill_64 reg m

unfoldable pub revive_reg : ℕ → RegisterManager → RegisterManager
revive_reg reg m = if leb reg_mm0 reg then revive_xmm reg m else revive_64 reg m

-- An operand, by its kind.
pub data Operand : Type 0 where
  reg_kind : ℕ → Operand
  base_disp_kind : ℕ → ℕ → Operand
  other_kind : Operand

unfoldable pub kill_operand : Operand → RegisterManager → RegisterManager
kill_operand (reg_kind reg) m = kill_reg reg m
kill_operand (base_disp_kind base index) m = kill_64 index (kill_64 base m)
kill_operand other_kind m = m

unfoldable pub revive_operand : Operand → RegisterManager → RegisterManager
revive_operand (reg_kind reg) m = revive_reg reg m
revive_operand (base_disp_kind base index) m = revive_64 index (revive_64 base m)
revive_operand other_kind m = m

-- The loops over a class of operands.
unfoldable pub kill_operands : List Operand → RegisterManager → RegisterManager
kill_operands [] m = m
kill_operands (op ∷ ops) m = kill_operands ops (kill_operand op m)

unfoldable pub revive_operands : List Operand → RegisterManager → RegisterManager
revive_operands [] m = m
revive_operands (op ∷ ops) m = revive_operands ops (revive_operand op m)

-- The opcodes that `visit_dests` tells apart, and all others.
pub data Opcode : Type 0 where
  op_bsr op_bsf op_rep_ins op_rep_stos op_rep_scas op_repne_scas op_rep_outs op_rep_lods : Opcode
  op_rep_movs op_rep_cmps op_repne_cmps op_other : Opcode

pub record Instruction : Type 0 where
  pub opcode : Opcode
  pub is_nop : Bool
  pub is_cti : Bool
  pub dsts : List Operand
  pub srcs : List Operand

-- `OP_bsr` and `OP_bsf` leave their destination as it is when the source is 0.
abbrev pub is_bit_scan : Opcode → Bool
is_bit_scan op_bsr = true
is_bit_scan op_bsf = true
is_bit_scan _ = false

-- The state of the loop of `visit_dests`: the manager, and `must_live`.
pub record Visited : Type 0 where
  pub manager : RegisterManager
  pub must_live : ℕ

-- One round of the loop. For an address it notes the two registers in `must_live` alone.
unfoldable pub visit_dest : Bool → Operand → Visited → Visited
visit_dest bit_scan (reg_kind reg) v = record v {
  manager =
      if bit_scan
      then revive_operand (reg_kind reg) v.manager
      else kill_operand (reg_kind reg) v.manager;
}
visit_dest bit_scan (base_disp_kind base index) v =
    let used = revive_64 index (revive_64 base (record (v.manager) { live = 0 })) in
    record {
      manager = record used { live = (v.manager).live };
      must_live = bit_or v.must_live used.live;
    }
visit_dest bit_scan other_kind v = v

unfoldable pub visit_each_dest : Bool → List Operand → Visited → Visited
visit_each_dest bit_scan [] v = v
visit_each_dest bit_scan (op ∷ ops) v = visit_each_dest bit_scan ops (visit_dest bit_scan op v)

-- The registers that a repeated instruction counts and steps by.
abbrev pub repeated_regs : Opcode → List ℕ
repeated_regs op_rep_ins = reg_rdi ∷ reg_rcx ∷ []
repeated_regs op_rep_stos = reg_rdi ∷ reg_rcx ∷ []
repeated_regs op_rep_scas = reg_rdi ∷ reg_rcx ∷ []
repeated_regs op_repne_scas = reg_rdi ∷ reg_rcx ∷ []
repeated_regs op_rep_outs = reg_rsi ∷ reg_rcx ∷ []
repeated_regs op_rep_lods = reg_rsi ∷ reg_rcx ∷ []
repeated_regs op_rep_movs = reg_rsi ∷ reg_rdi ∷ reg_rcx ∷ []
repeated_regs op_rep_cmps = reg_rsi ∷ reg_rdi ∷ reg_rcx ∷ []
repeated_regs op_repne_cmps = reg_rsi ∷ reg_rdi ∷ reg_rcx ∷ []
repeated_regs _ = []

unfoldable pub revive_each : List ℕ → RegisterManager → RegisterManager
revive_each [] m = m
revive_each (reg ∷ regs) m = revive_each regs (revive_64 reg m)

abbrev pub start_visit : RegisterManager → Visited
start_visit m = record { manager = m; must_live = force_live }

-- `live |= must_live`
abbrev pub end_visit : Visited → RegisterManager
end_visit v = record (v.manager) { live = bit_or (v.manager).live v.must_live }

unfoldable pub visit_dests : Instruction → RegisterManager → RegisterManager
visit_dests ins m =
    if ins.is_nop
    then m
    else revive_each (repeated_regs ins.opcode)
        (end_visit (visit_each_dest (is_bit_scan ins.opcode) ins.dsts (start_visit m)))

unfoldable pub visit_sources : Instruction → RegisterManager → RegisterManager
visit_sources ins m = if ins.is_nop then m else revive_operands ins.srcs m

unfoldable pub visit : Instruction → RegisterManager → RegisterManager
visit ins m =
    if ins.is_nop
    then m
    else if ins.is_cti
    then revive_all m
    else revive_operands ins.srcs (visit_dests ins m)

-- `kill` and `revive` of a whole instruction.
unfoldable pub kill : Instruction → RegisterManager → RegisterManager
kill ins m = if ins.is_nop then m else kill_operands ins.srcs (kill_operands ins.dsts m)

unfoldable pub revive : Instruction → RegisterManager → RegisterManager
revive ins m = if ins.is_nop then m else revive_operands ins.srcs (revive_operands ins.dsts m)

-- The first of the next `n` bits, from `pos` on, that is not set.
unfoldable pub first_clear : ℕ → ℕ → ℕ → Option ℕ
first_clear zero pos word = none
first_clear (suc n) pos word =
    let rest = first_clear n (pos + 1) word in
    if bit_and (2 ^ pos) word == 0 then some pos else rest

-- `get_zombie`: the register, or `DR_REG_NULL`, and the manager that has lent it out.
unfoldable pub get_zombie : RegisterManager → ℕ × RegisterManager
get_zombie m = elim (first_clear 16 0 (bit_or m.live m.undead)) [
  | none ↦ (0, m)
  | some pos ↦ (pos + 1, record m { undead = raised pos m.undead })
]

unfoldable pub get_xmm_zombie : RegisterManager → ℕ × RegisterManager
get_xmm_zombie m = elim (first_clear 16 0 (bit_or m.live_xmm m.undead_xmm)) [
  | none ↦ (0, m)
  | some pos ↦ (pos + reg_xmm0, record m { undead_xmm = raised pos m.undead_xmm })
]

-- A test of the bit of a register in one of two words: the one for XMM registers, or the other.
-- `none` is the fault for all further registers, and the read beyond the table for the MMX ones.
abbrev pub test_of : ℕ → ℕ → ℕ → Option Bool
test_of reg gpr_word xmm_word =
    if leb reg_xmm0 reg && leb reg reg_xmm15
    then some (not (bit_and (2 ^ (reg_to_xmm reg - 1)) xmm_word == 0))
    else if ltb reg reg_mm0
    then some (not (reg64 reg == 0) && not (bit_and (2 ^ (reg64 reg - 1)) gpr_word == 0))
    else none

unfoldable pub is_live : ℕ → RegisterManager → Option Bool
is_live reg m = test_of reg m.live m.live_xmm

unfoldable pub is_dead : ℕ → RegisterManager → Option Bool
is_dead reg m = test_of reg (2 ^ 16 - 1 - m.live) (2 ^ 16 - 1 - m.live_xmm)

-- The word for XMM registers is the one that the code reads: `undead`, not `undead_xmm`.
unfoldable pub is_undead : ℕ → RegisterManager → Option Bool
is_undead reg m = test_of reg (bit_or m.live m.undead) (bit_or m.live_xmm m.undead)

unfoldable pub encode : RegisterManager → ℕ
encode m = bit_or (u32 (m.live_xmm << 16)) m.live

-- The masks are those of the code, of eight bits.
unfoldable pub decode : ℕ → RegisterManager → RegisterManager
decode bitmask m = record {
  undead = 0;
  undead_xmm = 0;
  live = bit_or (bit_and bitmask 0xFF) force_live;
  live_xmm = bit_and (bitmask >> 16) 0xFF;
}
