-- ===== src/Registers/Reach.antt =====
-- The register managers that calls can reach, from a new one on (granary/register.h,
-- granary/register.cc): every call, and what holds after any sequence of them.
use granary.Common.Bits.{bit, bit-bit_or, bit_or-lt}
use granary.Common.{
  ℕ, ◌-◌, ◌^◌, ◌<◌, ◌≡◌, refl, ap, ◌∙◌, Bool, true, false, ◌||◌, List, [], ◌∷◌, arith,
  if◌then◌else◌, leb,
}
use granary.Registers.{reg64, reg_mm0}
use granary.Registers.Bits.{bit-forced}
use granary.Registers.Effect.{
  names, any_of, reads, kill_xmm-live, revive_operands-live, revive_operand-live, revive_each-live,
}
use granary.Registers.Invariant.{
  Fits, revive_64-Fits, kill_operand-Fits, revive_operand-Fits, kill_operands-Fits,
  revive_operands-Fits, revive_each-Fits,
}
use granary.Registers.Manager.{
  RegisterManager, Operand, reg_kind, base_disp_kind, other_kind, kill_64, revive_64, kill_reg,
  kill_operand, revive_operand, kill_operands, revive_operands, cleared, revive_each, is_wide,
  Visited, visit_dest, visit_each_dest, visit_dests, visit, Instruction, is_bit_scan, repeated_regs,
  revive_all, start_visit, end_visit,
}

-- The words fit 16 bits and the stack pointer is live.
pub record IsManager (m : RegisterManager) : Type 0 where
  pub fits : Fits m
  pub stack : bit 4 m.live ≡ true

pub or_true : (b : Bool) → (b || true) ≡ true
or_true true = refl
or_true false = refl

-- The stack pointer stays live.
abbrev StackLive : RegisterManager → Type 0
StackLive m = bit 4 m.live ≡ true

stack_if :
    (b : Bool) (m n : RegisterManager) → StackLive m → StackLive n → StackLive (if b then m else n)
stack_if true m n s t = s
stack_if false m n s t = t

kill_64-stack : (reg : ℕ) (m : RegisterManager) → StackLive m → StackLive (kill_64 reg m)
unfolding kill_64
kill_64-stack reg m s =
    stack_if (is_wide reg) _ m
      (bit-forced 4 (cleared (reg64 reg - 1) m.live)
        ∙ or_true (bit 4 (cleared (reg64 reg - 1) m.live)))
      s

kill_operand-stack :
    (op : Operand) (m : RegisterManager) → StackLive m → StackLive (kill_operand op m)
unfolding kill_operand kill_reg
kill_operand-stack (reg_kind reg) m s =
    stack_if (leb reg_mm0 reg) _ _ (ap (bit 4) (kill_xmm-live reg m) ∙ s) (kill_64-stack reg m s)
kill_operand-stack (base_disp_kind base index) m s =
    kill_64-stack index (kill_64 base m) (kill_64-stack base m s)
kill_operand-stack other_kind m s = s

kill_operands-stack :
    (ops : List Operand) (m : RegisterManager) → StackLive m → StackLive (kill_operands ops m)
unfolding kill_operands
kill_operands-stack [] m s = s
kill_operands-stack (op ∷ ops) m s =
    kill_operands-stack ops (kill_operand op m) (kill_operand-stack op m s)

revive_operand-stack :
    (op : Operand) (m : RegisterManager) → StackLive m → StackLive (revive_operand op m)
revive_operand-stack op m s =
    revive_operand-live 4 (omega arith) op m ∙ ap (λ (b : Bool). b || reads 4 op) s

revive_operands-stack :
    (ops : List Operand) (m : RegisterManager) → StackLive m → StackLive (revive_operands ops m)
revive_operands-stack ops m s =
    revive_operands-live 4 (omega arith) ops m ∙ ap (λ (b : Bool). b || any_of (reads 4) ops) s

revive_each-stack :
    (regs : List ℕ) (m : RegisterManager) → StackLive m → StackLive (revive_each regs m)
revive_each-stack regs m s =
    revive_each-live 4 (omega arith) regs m ∙ ap (λ (b : Bool). b || any_of (names 4) regs) s

pub kill_operands-IsManager :
    (ops : List Operand) (m : RegisterManager) → IsManager m → IsManager (kill_operands ops m)
kill_operands-IsManager ops m v = record {
  fits = kill_operands-Fits ops m v.fits;
  stack = kill_operands-stack ops m v.stack;
}

pub revive_operands-IsManager :
    (ops : List Operand) (m : RegisterManager) → IsManager m → IsManager (revive_operands ops m)
revive_operands-IsManager ops m v = record {
  fits = revive_operands-Fits ops m v.fits;
  stack = revive_operands-stack ops m v.stack;
}

-- The loop of `visit_dests`.
record IsVisited (v : Visited) : Type 0 where
  manager : IsManager v.manager
  must_live : v.must_live < 2 ^ 16

visit_dest-IsVisited :
    (bit_scan : Bool) (op : Operand) (v : Visited)
    → IsVisited v
    → IsVisited (visit_dest bit_scan op v)
unfolding visit_dest
visit_dest-IsVisited true (reg_kind reg) v h = record {
  manager = record {
    fits = revive_operand-Fits (reg_kind reg) v.manager (h.manager).fits;
    stack = revive_operand-stack (reg_kind reg) v.manager (h.manager).stack;
  };
  must_live = h.must_live;
}
visit_dest-IsVisited false (reg_kind reg) v h = record {
  manager = record {
    fits = kill_operand-Fits (reg_kind reg) v.manager (h.manager).fits;
    stack = kill_operand-stack (reg_kind reg) v.manager (h.manager).stack;
  };
  must_live = h.must_live;
}
visit_dest-IsVisited bit_scan (base_disp_kind base index) v h =
    let start : RegisterManager = record (v.manager) { live = 0 } in
    let f = (h.manager).fits in
    let used : Fits (revive_64 index (revive_64 base start)) =
      revive_64-Fits index (revive_64 base start) (
        revive_64-Fits base start (record {
          live = omega arith;
          undead = f.undead;
          live_xmm = f.live_xmm;
          undead_xmm = f.undead_xmm;
        })) in
    record {
      manager = record {
        fits = record {
          live = f.live;
          undead = used.undead;
          live_xmm = used.live_xmm;
          undead_xmm = used.undead_xmm;
        };
        stack = (h.manager).stack;
      };
      must_live = bit_or-lt 16 v.must_live _ h.must_live used.live;
    }
visit_dest-IsVisited bit_scan other_kind v h = h

each-IsVisited :
    (bit_scan : Bool) (ops : List Operand) (v : Visited)
    → IsVisited v
    → IsVisited (visit_each_dest bit_scan ops v)
unfolding visit_each_dest
each-IsVisited bit_scan [] v h = h
each-IsVisited bit_scan (op ∷ ops) v h =
    each-IsVisited bit_scan ops (visit_dest bit_scan op v) (visit_dest-IsVisited bit_scan op v h)

pub either :
    (b : Bool) (m n : RegisterManager) → IsManager m → IsManager n → IsManager (if b then m else n)
either true m n v w = v
either false m n v w = w

pub visit_dests-IsManager :
    (ins : Instruction) (m : RegisterManager) → IsManager m → IsManager (visit_dests ins m)
unfolding visit_dests
visit_dests-IsManager ins m v =
    let scan = is_bit_scan ins.opcode in
    let w = visit_each_dest scan ins.dsts (start_visit m) in
    let h =
      each-IsVisited scan ins.dsts (start_visit m)
        (record { manager = v; must_live = omega arith }) in
    let f = (h.manager).fits in
    let fits : Fits (end_visit w) = record {
      live = bit_or-lt 16 (w.manager).live w.must_live f.live h.must_live;
      undead = f.undead;
      live_xmm = f.live_xmm;
      undead_xmm = f.undead_xmm;
    } in
    let stack : StackLive (end_visit w) =
      bit-bit_or 4 (w.manager).live w.must_live
      ∙ ap (λ (b : Bool). b || bit 4 w.must_live) (h.manager).stack in
    either ins.is_nop m _ v (record {
      fits = revive_each-Fits (repeated_regs ins.opcode) (end_visit w) fits;
      stack = revive_each-stack (repeated_regs ins.opcode) (end_visit w) stack;
    })

pub full-IsManager : (m : RegisterManager) → IsManager (revive_all m)
unfolding revive_all bit
full-IsManager m = record {
  fits = record {
    live = omega arith;
    undead = omega arith;
    live_xmm = omega arith;
    undead_xmm = omega arith;
  };
  stack = refl;
}

pub visit-IsManager :
    (ins : Instruction) (m : RegisterManager) → IsManager m → IsManager (visit ins m)
unfolding visit
visit-IsManager ins m v = either ins.is_nop m _ v (
    either ins.is_cti (revive_all m) _ (full-IsManager m)
      (revive_operands-IsManager ins.srcs (visit_dests ins m) (visit_dests-IsManager ins m v)))
