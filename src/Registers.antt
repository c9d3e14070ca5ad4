-- ===== src/Registers.antt =====
-- Register identifiers, granary/register.cc: the numbers of the DynamoRIO enumeration
-- (deps/dr/x86/instr.h), the four tables that change the size of a general purpose register, and
-- the slot of a register in the saved machine state.
pub mod Scale
pub mod Manager
pub mod Bits
pub mod Effect
pub mod Visit
pub mod Invariant
pub mod Reach
pub mod Calls
pub mod Liveness
pub mod Zombie
pub mod Codec
mod Tests
use granary.Common.{
  ℕ, zero, suc, ◌+◌, ◌-◌, Bool, true, false, List, [], ◌∷◌, ◌++◌, ltb, leb, if◌then◌else◌, get_or,
}

abbrev pub reg_rax : ℕ
reg_rax = 1

abbrev pub reg_rcx : ℕ
reg_rcx = 2

abbrev pub reg_rsp : ℕ
reg_rsp = 5

abbrev pub reg_rsi : ℕ
reg_rsi = 7

abbrev pub reg_rdi : ℕ
reg_rdi = 8

abbrev pub reg_r8 : ℕ
reg_r8 = 9

abbrev pub reg_eax : ℕ
reg_eax = 17

abbrev pub reg_ax : ℕ
reg_ax = 33

abbrev pub reg_al : ℕ
reg_al = 49

abbrev pub reg_ah : ℕ
reg_ah = 53

abbrev pub reg_r8l : ℕ
reg_r8l = 57

abbrev pub reg_spl : ℕ
reg_spl = 65

abbrev pub reg_mm0 : ℕ
reg_mm0 = 69

abbrev pub reg_xmm0 : ℕ
reg_xmm0 = 77

abbrev pub reg_xmm15 : ℕ
reg_xmm15 = 92

abbrev pub reg_st0 : ℕ
reg_st0 = 93

-- `n` identifiers in the order of the enumeration, from `first` on.
abbrev pub regs_from : ℕ → ℕ → List ℕ
regs_from zero first = []
regs_from (suc n) first = first ∷ regs_from n (suc first)

-- A table: the identifiers of 64, 32 and 16 bits in `wide`, then the 8-bit ones, of which AH, CH,
-- DH and BH are in `high`, and SPL to DIL are at the end.
abbrev pub reg_table : List ℕ → List ℕ → List ℕ → List ℕ
reg_table wide narrow high = 0 ∷ wide ++ (wide ++ (wide ++ (narrow ++ high)))

abbrev pub reg_to_reg64 : List ℕ
reg_to_reg64 =
    reg_table (regs_from 16 reg_rax) (regs_from 4 reg_rax)
      (regs_from 4 reg_rax ++ (regs_from 8 reg_r8 ++ regs_from 4 reg_rsp))

abbrev pub reg_to_reg32 : List ℕ
reg_to_reg32 =
    reg_table (regs_from 16 reg_eax) (regs_from 4 reg_eax)
      (regs_from 4 reg_eax ++ (regs_from 8 25 ++ regs_from 4 21))

abbrev pub reg_to_reg16 : List ℕ
reg_to_reg16 =
    reg_table (regs_from 16 reg_ax) (regs_from 4 reg_ax)
      (regs_from 4 reg_ax ++ (regs_from 8 41 ++ regs_from 4 37))

abbrev pub reg_to_reg8 : List ℕ
reg_to_reg8 =
    reg_table (regs_from 4 reg_al ++ (regs_from 4 reg_spl ++ regs_from 8 reg_r8l))
      (regs_from 4 reg_al) (regs_from 4 reg_ah ++ (regs_from 8 reg_r8l ++ regs_from 4 reg_spl))

-- Reads of the tables. They have 69 entries; beyond them, where the code reads other memory, the
-- answer is `DR_REG_NULL`.
unfoldable pub reg64 : ℕ → ℕ
reg64 reg = get_or reg_to_reg64 reg 0

unfoldable pub reg32 : ℕ → ℕ
reg32 reg = get_or reg_to_reg32 reg 0

unfoldable pub reg16 : ℕ → ℕ
reg16 reg = get_or reg_to_reg16 reg 0

unfoldable pub reg8 : ℕ → ℕ
reg8 reg = get_or reg_to_reg8 reg 0

pub data RegisterScale : Type 0 where
  scale_8 scale_16 scale_32 scale_64 : RegisterScale

abbrev pub scaled : ℕ → RegisterScale → ℕ
scaled reg scale_8 = reg8 reg
scaled reg scale_16 = reg16 reg
scaled reg scale_32 = reg32 reg
scaled reg scale_64 = reg64 reg

unfoldable pub scale : ℕ → RegisterScale → ℕ
scale reg size = if leb reg_mm0 reg then 0 else scaled reg size

-- `simple_machine_state::operator[]`: where the state of a register is saved.
unfoldable pub slot_of : ℕ → ℕ
slot_of reg = let r = scale reg scale_64 in 15 - (if ltb reg_rsp r then r - 1 else r)
