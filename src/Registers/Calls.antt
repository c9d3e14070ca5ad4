-- ===== src/Registers/Calls.antt =====
-- Every call on a register manager (granary/register.h, granary/register.cc), the managers that
-- sequences of calls reach, and what holds of all of them.
use granary.Common.Bits.{bit, bit-bit_or, bit_or-lt}
use granary.Common.Words.{bit_and-mask}
use granary.Common.{
  ◌∷◌, [], ℕ, ◌^◌, ◌/◌, ◌<◌, refl, ap, ◌∙◌, Bool, ◌||◌, arith, inl, inr, bit_and, bit_or,
}
use granary.Registers.Bits.{bit-forced}
use granary.Registers.Invariant.{raised-lt}
use granary.Registers.Manager.{
  RegisterManager, Operand, reg_kind, kill_reg, revive_reg, kill_operand, revive_operand,
  kill_operands, revive_operands, force_live, visit_dests, visit, visit_sources, Instruction,
  revive_all, new_manager, kill_all, kill_all_live, revive_all_xmm, revive_union, kill, revive,
  get_zombie, get_xmm_zombie, decode,
}
use granary.Registers.Reach.{
  IsManager, or_true, either, kill_operands-IsManager, revive_operands-IsManager,
  visit_dests-IsManager, visit-IsManager, full-IsManager,
}
use granary.Registers.Zombie.{first_clear_lem}

-- A call, with its arguments.
pub data Call : Type 0 where
  call_visit call_visit_dests call_visit_sources call_kill call_revive : Instruction → Call
  call_kill_operand call_revive_operand : Operand → Call
  call_kill_reg call_revive_reg : ℕ → Call
  call_kill_all call_kill_all_live call_revive_all call_revive_all_xmm : Call
  call_get_zombie call_get_xmm_zombie : Call
  call_decode : ℕ → Call

abbrev pub after_call : Call → RegisterManager → RegisterManager
after_call (call_visit ins) m = visit ins m
after_call (call_visit_dests ins) m = visit_dests ins m
after_call (call_visit_sources ins) m = visit_sources ins m
after_call (call_kill ins) m = kill ins m
after_call (call_revive ins) m = revive ins m
after_call (call_kill_operand op) m = kill_operand op m
after_call (call_revive_operand op) m = revive_operand op m
after_call (call_kill_reg reg) m = kill_reg reg m
after_call (call_revive_reg reg) m = revive_reg reg m
after_call call_kill_all m = kill_all m
after_call call_kill_all_live m = kill_all_live m
after_call call_revive_all m = revive_all m
after_call call_revive_all_xmm m = revive_all_xmm m
after_call call_get_zombie m = (get_zombie m).1
after_call call_get_xmm_zombie m = (get_xmm_zombie m).1
after_call (call_decode bitmask) m = decode bitmask m

-- The managers that are reached from new ones, by calls and by the union of two of them.
pub data Reachable : RegisterManager → Type 0 where
  fresh : Reachable new_manager
  called : {m : RegisterManager} → Reachable m → (c : Call) → Reachable (after_call c m)
  joined :
      {m that : RegisterManager} → Reachable m → Reachable that → Reachable (revive_union m that)

kill-IsManager : (ins : Instruction) (m : RegisterManager) → IsManager m → IsManager (kill ins m)
unfolding kill
kill-IsManager ins m v = either ins.is_nop m _ v (
    kill_operands-IsManager ins.srcs (kill_operands ins.dsts m)
      (kill_operands-IsManager ins.dsts m v))

revive-IsManager :
    (ins : Instruction) (m : RegisterManager) → IsManager m → IsManager (revive ins m)
unfolding revive
revive-IsManager ins m v = either ins.is_nop m _ v (
    revive_operands-IsManager ins.srcs (revive_operands ins.dsts m)
      (revive_operands-IsManager ins.dsts m v))

kill_all-IsManager : (m : RegisterManager) → IsManager (kill_all m)
unfolding kill_all bit
kill_all-IsManager m = record {
  fits = record {
    live = omega arith;
    undead = omega arith;
    live_xmm = omega arith;
    undead_xmm = omega arith;
  };
  stack = refl;
}

kill_all_live-IsManager : (m : RegisterManager) → IsManager m → IsManager (kill_all_live m)
unfolding kill_all_live bit
kill_all_live-IsManager m v = record {
  fits = record {
    live = omega arith;
    undead = (v.fits).undead;
    live_xmm = omega arith;
    undead_xmm = (v.fits).undead_xmm;
  };
  stack = refl;
}

revive_all_xmm-IsManager : (m : RegisterManager) → IsManager m → IsManager (revive_all_xmm m)
unfolding revive_all_xmm
revive_all_xmm-IsManager m v = record {
  fits = record {
    live = (v.fits).live;
    undead = (v.fits).undead;
    live_xmm = omega arith;
    undead_xmm = omega arith;
  };
  stack = v.stack;
}

get_zombie-IsManager : (m : RegisterManager) → IsManager m → IsManager (get_zombie m).1
unfolding get_zombie
get_zombie-IsManager m v = elim (first_clear_lem 16 0 (bit_or m.live m.undead)) [
  | inl (gone, full) ↦ rw (gone, get_zombie) v
  | inr (p, found, lt, free, full) ↦
      rw (found, get_zombie)
        (record {
          fits = record {
            live = (v.fits).live;
            undead = raised-lt p m.undead lt (v.fits).undead;
            live_xmm = (v.fits).live_xmm;
            undead_xmm = (v.fits).undead_xmm;
          };
          stack = v.stack;
        })
]

get_xmm_zombie-IsManager : (m : RegisterManager) → IsManager m → IsManager (get_xmm_zombie m).1
unfolding get_xmm_zombie
get_xmm_zombie-IsManager m v = elim (first_clear_lem 16 0 (bit_or m.live_xmm m.undead_xmm)) [
  | inl (gone, full) ↦ rw (gone, get_xmm_zombie) v
  | inr (p, found, lt, free, full) ↦
      rw (found, get_xmm_zombie)
        (record {
          fits = record {
            live = (v.fits).live;
            undead = (v.fits).undead;
            live_xmm = (v.fits).live_xmm;
            undead_xmm = raised-lt p m.undead_xmm lt (v.fits).undead_xmm;
          };
          stack = v.stack;
        })
]

low : (word : ℕ) → bit_and word 0xFF < 2 ^ 16
low word = omega (arith, bit_and-mask 8 word)

decode-IsManager : (bitmask : ℕ) (m : RegisterManager) → IsManager (decode bitmask m)
unfolding decode
decode-IsManager bitmask m = record {
  fits = record {
    live = bit_or-lt 16 _ force_live (low bitmask) (omega arith);
    undead = omega arith;
    live_xmm = low (bitmask / 2 ^ 16);
    undead_xmm = omega arith;
  };
  stack = bit-forced 4 (bit_and bitmask 0xFF) ∙ or_true (bit 4 (bit_and bitmask 0xFF));
}

union-IsManager :
    (m that : RegisterManager) → IsManager m → IsManager that → IsManager (revive_union m that)
unfolding revive_union
union-IsManager m that v w = record {
  fits = record {
    live = bit_or-lt 16 m.live that.live (v.fits).live (w.fits).live;
    undead = bit_or-lt 16 m.undead that.undead (v.fits).undead (w.fits).undead;
    live_xmm = bit_or-lt 16 m.live_xmm that.live_xmm (v.fits).live_xmm (w.fits).live_xmm;
    undead_xmm = bit_or-lt 16 m.undead_xmm that.undead_xmm (v.fits).undead_xmm (w.fits).undead_xmm;
  };
  stack = bit-bit_or 4 m.live that.live ∙ ap (λ (b : Bool). b || bit 4 that.live) v.stack;
}

kill_reg-IsManager : (reg : ℕ) (m : RegisterManager) → IsManager m → IsManager (kill_reg reg m)
unfolding kill_operand kill_operands
kill_reg-IsManager reg m v = kill_operands-IsManager (reg_kind reg ∷ []) m v

revive_reg-IsManager : (reg : ℕ) (m : RegisterManager) → IsManager m → IsManager (revive_reg reg m)
unfolding revive_operand revive_operands
revive_reg-IsManager reg m v = revive_operands-IsManager (reg_kind reg ∷ []) m v

after_call-IsManager : (c : Call) (m : RegisterManager) → IsManager m → IsManager (after_call c m)
unfolding visit_sources kill_operand kill_operands revive_operands
after_call-IsManager (call_visit ins) m v = visit-IsManager ins m v
after_call-IsManager (call_visit_dests ins) m v = visit_dests-IsManager ins m v
after_call-IsManager (call_visit_sources ins) m v =
    either ins.is_nop m _ v (revive_operands-IsManager ins.srcs m v)
after_call-IsManager (call_kill ins) m v = kill-IsManager ins m v
after_call-IsManager (call_revive ins) m v = revive-IsManager ins m v
after_call-IsManager (call_kill_operand op) m v = kill_operands-IsManager (op ∷ []) m v
after_call-IsManager (call_revive_operand op) m v = revive_operands-IsManager (op ∷ []) m v
after_call-IsManager (call_kill_reg reg) m v = kill_reg-IsManager reg m v
after_call-IsManager (call_revive_reg reg) m v = revive_reg-IsManager reg m v
after_call-IsManager call_kill_all m v = kill_all-IsManager m
after_call-IsManager call_kill_all_live m v = kill_all_live-IsManager m v
after_call-IsManager call_revive_all m v = full-IsManager m
after_call-IsManager call_revive_all_xmm m v = revive_all_xmm-IsManager m v
after_call-IsManager call_get_zombie m v = get_zombie-IsManager m v
after_call-IsManager call_get_xmm_zombie m v = get_xmm_zombie-IsManager m v
after_call-IsManager (call_decode bitmask) m v = decode-IsManager bitmask m

-- Whatever is called, and in whatever order, the four words fit their 16 bits and the stack pointer
-- is never taken for dead.
pub Reachable-IsManager : (m : RegisterManager) → Reachable m → IsManager m
unfolding bit
Reachable-IsManager m fresh = record {
  fits = record {
    live = omega arith;
    undead = omega arith;
    live_xmm = omega arith;
    undead_xmm = omega arith;
  };
  stack = refl;
}
Reachable-IsManager m (called {m = before} r c) =
    after_call-IsManager c before (Reachable-IsManager before r)
Reachable-IsManager m (joined {m = a} {that = b} r r') =
    union-IsManager a b (Reachable-IsManager a r) (Reachable-IsManager b r')
