-- ===== src/Registers/Invariant.antt =====
-- What holds of every register manager, whatever is called on it (granary/register.cc).
use granary.Common.Bits.{bit_and-lt, bit_or-lt}
use granary.Common.{
  ℕ, ◌-◌, ◌^◌, ◌<◌, Bool, true, false, List, [], ◌∷◌, arith, if◌then◌else◌, leb, ◌==◌,
}
use granary.Registers.{reg64, reg_mm0}
use granary.Registers.Bits.{small}
use granary.Registers.Scale.{reg64_bounds}
use granary.Registers.Manager.{
  RegisterManager, Operand, reg_kind, base_disp_kind, other_kind, kill_64, revive_64, kill_xmm,
  revive_xmm, kill_reg, revive_reg, kill_operand, revive_operand, kill_operands, revive_operands,
  cleared, raised, force_live, revive_each, reg_to_xmm, is_wide,
}

-- The four words fit 16 bits.
pub record Fits (m : RegisterManager) : Type 0 where
  pub live : m.live < 2 ^ 16
  pub undead : m.undead < 2 ^ 16
  pub live_xmm : m.live_xmm < 2 ^ 16
  pub undead_xmm : m.undead_xmm < 2 ^ 16

cleared-lt : (i word : ℕ) → word < 2 ^ 16 → cleared i word < 2 ^ 16
unfolding cleared
cleared-lt i word h = bit_and-lt 16 word (2 ^ 16 - 1 - 2 ^ i) h

pub raised-lt : (i word : ℕ) → i < 16 → word < 2 ^ 16 → raised i word < 2 ^ 16
unfolding raised
raised-lt i word lt h = bit_or-lt 16 word (2 ^ i) h (small i lt)

-- Both ways of an `if` fit.
pub Fits-if : (b : Bool) (m n : RegisterManager) → Fits m → Fits n → Fits (if b then m else n)
Fits-if true m n f g = f
Fits-if false m n f g = g

xmm_bounds : (reg : ℕ) → reg_to_xmm reg - 1 < 16
unfolding reg_to_xmm
xmm_bounds reg = ground arith

pub kill_64-Fits : (reg : ℕ) (m : RegisterManager) → Fits m → Fits (kill_64 reg m)
unfolding kill_64
kill_64-Fits reg m f =
    Fits-if (is_wide reg) _ m
      (record {
        live = bit_or-lt 16 _ force_live (cleared-lt (reg64 reg - 1) m.live f.live) (omega arith);
        undead = cleared-lt (reg64 reg - 1) m.undead f.undead;
        live_xmm = f.live_xmm;
        undead_xmm = f.undead_xmm;
      })
      f

pub revive_64-Fits : (reg : ℕ) (m : RegisterManager) → Fits m → Fits (revive_64 reg m)
unfolding revive_64
revive_64-Fits reg m f = Fits-if (reg64 reg == 0) m _ f (record {
  live = raised-lt (reg64 reg - 1) m.live (omega (arith, reg64_bounds reg)) f.live;
  undead = cleared-lt (reg64 reg - 1) m.undead f.undead;
  live_xmm = f.live_xmm;
  undead_xmm = f.undead_xmm;
})

pub kill_xmm-Fits : (reg : ℕ) (m : RegisterManager) → Fits m → Fits (kill_xmm reg m)
unfolding kill_xmm
kill_xmm-Fits reg m f = Fits-if (reg_to_xmm reg == 0) m _ f (record {
  live = f.live;
  undead = f.undead;
  live_xmm = cleared-lt (reg_to_xmm reg - 1) m.live_xmm f.live_xmm;
  undead_xmm = cleared-lt (reg_to_xmm reg - 1) m.undead_xmm f.undead_xmm;
})

pub revive_xmm-Fits : (reg : ℕ) (m : RegisterManager) → Fits m → Fits (revive_xmm reg m)
unfolding revive_xmm
revive_xmm-Fits reg m f = Fits-if (reg_to_xmm reg == 0) m _ f (record {
  live = f.live;
  undead = f.undead;
  live_xmm = raised-lt (reg_to_xmm reg - 1) m.live_xmm (xmm_bounds reg) f.live_xmm;
  undead_xmm = cleared-lt (reg_to_xmm reg - 1) m.undead_xmm f.undead_xmm;
})

pub kill_operand-Fits : (op : Operand) (m : RegisterManager) → Fits m → Fits (kill_operand op m)
unfolding kill_operand kill_reg
kill_operand-Fits (reg_kind reg) m f =
    Fits-if (leb reg_mm0 reg) _ _ (kill_xmm-Fits reg m f) (kill_64-Fits reg m f)
kill_operand-Fits (base_disp_kind base index) m f =
    kill_64-Fits index (kill_64 base m) (kill_64-Fits base m f)
kill_operand-Fits other_kind m f = f

pub revive_operand-Fits : (op : Operand) (m : RegisterManager) → Fits m → Fits (revive_operand op m)
unfolding revive_operand revive_reg
revive_operand-Fits (reg_kind reg) m f =
    Fits-if (leb reg_mm0 reg) _ _ (revive_xmm-Fits reg m f) (revive_64-Fits reg m f)
revive_operand-Fits (base_disp_kind base index) m f =
    revive_64-Fits index (revive_64 base m) (revive_64-Fits base m f)
revive_operand-Fits other_kind m f = f

pub kill_operands-Fits :
    (ops : List Operand) (m : RegisterManager) → Fits m → Fits (kill_operands ops m)
unfolding kill_operands
kill_operands-Fits [] m f = f
kill_operands-Fits (op ∷ ops) m f =
    kill_operands-Fits ops (kill_operand op m) (kill_operand-Fits op m f)

pub revive_operands-Fits :
    (ops : List Operand) (m : RegisterManager) → Fits m → Fits (revive_operands ops m)
unfolding revive_operands
revive_operands-Fits [] m f = f
revive_operands-Fits (op ∷ ops) m f =
    revive_operands-Fits ops (revive_operand op m) (revive_operand-Fits op m f)

pub revive_each-Fits : (regs : List ℕ) (m : RegisterManager) → Fits m → Fits (revive_each regs m)
unfolding revive_each
revive_each-Fits [] m f = f
revive_each-Fits (reg ∷ regs) m f = revive_each-Fits regs (revive_64 reg m) (revive_64-Fits reg m f)
