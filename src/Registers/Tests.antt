-- ===== src/Registers/Tests.antt =====
-- Runs of the register manager, and the theorems about it at a small block.
use granary.Common.Bits.{bit}
use granary.Common.{
  ℕ, zero, suc, ◌+◌, ◌-◌, ◌<◌, ◌≤◌, ◌≡◌, ◌≢◌, refl, ap, ◌∙◌, Bool, true, false, ◌&&◌, ◌||◌, List,
  [], ◌∷◌, arith, if◌then◌else◌, ltb, ◌==◌, ◌⊎◌, inl, inr, sym, if_false, ==-false, eq-cases,
}
use granary.Registers.{scale, slot_of, scale_8, scale_64, reg64, reg32, reg_rsp}
use granary.Registers.Calls.{
  fresh, called, call_visit, call_get_zombie, after_call, Reachable-IsManager,
}
use granary.Registers.Codec.{decode-encode}
use granary.Registers.Liveness.{
  visit_block, uses, defines, Machine, run, Respects, AllRespect, Agree, overwrite,
  visit_block-Agree, get_zombie-visit_block,
}
use granary.Registers.Manager.{
  RegisterManager, Instruction, reg_kind, base_disp_kind, op_other, new_manager, get_zombie, visit,
  encode, decode, visit_dests, visit_each_dest, visit_dest, revive_operands, revive_operand,
  revive_reg, revive_64, kill_operand, kill_reg, kill_64, revive_each, cleared, raised, first_clear,
}
use granary.Registers.Reach.{IsManager}
use granary.Registers.Scale.{scale-scale, slot_of_lem, is_high_byte, is_8}
use granary.Registers.Visit.{visit-live, live_before}
use granary.Registers.Zombie.{get_zombie_lem, taken, lend}
use mathlib.Core.Bool.{true≢false}

-- `mov rax, rbx`
abbrev copy : Instruction
copy = record {
  opcode = op_other;
  is_nop = false;
  is_cti = false;
  dsts = reg_kind 1 ∷ [];
  srcs = reg_kind 4 ∷ [];
}

-- `mov rcx, [rax + rsi]`
abbrev read : Instruction
read = record {
  opcode = op_other;
  is_nop = false;
  is_cti = false;
  dsts = reg_kind 2 ∷ [];
  srcs = base_disp_kind 1 7 ∷ [];
}

abbrev block : List Instruction
block = copy ∷ read ∷ []

-- Before the block RAX and RCX are dead.
block_live : (visit_block block new_manager).live ≡ 0xFFFC
unfolding visit_block visit visit_dests visit_each_dest visit_dest revive_operands revive_operand
    revive_reg revive_64 kill_operand kill_reg kill_64 revive_each cleared raised reg64 reg32
block_live = refl

block_zombie : (get_zombie (visit_block block new_manager)).0 ≡ 1
unfolding visit_block visit visit_dests visit_each_dest visit_dest revive_operands revive_operand
    revive_reg revive_64 kill_operand kill_reg kill_64 revive_each cleared raised reg64 reg32
    get_zombie first_clear
block_zombie = refl

scale_up : scale 53 scale_64 ≡ 1
unfolding scale reg64
scale_up = refl

new-IsManager : IsManager new_manager
new-IsManager = Reachable-IsManager new_manager fresh

-- A processor that writes the sum of all registers that an instruction reads and of a counter, which
-- is the rest of its state, and adds that sum to the counter.
abbrev total : ℕ → Instruction → (ℕ → ℕ) → ℕ
total zero ins f = 0
total (suc n) ins f = (if uses ins n then f n else 0) + total n ins f

abbrev processor : Instruction → Machine ℕ → Machine ℕ
processor ins s =
    let sum = total 16 ins s.registers + s.rest in
    record { registers = λ i. if defines ins i then sum else s.registers i; rest = sum + s.rest }

if_same :
    (b : Bool) (x y z z' : ℕ)
    → (b ≡ true → x ≡ y)
    → z ≡ z'
    → (if b then x else 0) + z ≡ (if b then y else 0) + z'
if_same true x y z z' h e = omega (arith, h refl, e)
if_same false x y z z' h e = omega (arith, e)

total-same :
    (n : ℕ) (ins : Instruction) (f g : ℕ → ℕ)
    → n ≤ 16
    → ((j : ℕ) → j < 16 → uses ins j ≡ true → f j ≡ g j)
    → total n ins f ≡ total n ins g
total-same zero ins f g le same = refl
total-same (suc n) ins f g le same =
    if_same (uses ins n) (f n) (g n) (total n ins f) (total n ins g) (same n (omega arith))
      (total-same n ins f g (omega arith) same)

choose :
    (b : Bool) (x x' y y' : ℕ)
    → x ≡ x'
    → (b ≡ true) ⊎ (y ≡ y')
    → (if b then x else y) ≡ (if b then x' else y')
choose true x x' y y' e h = e
choose false x x' y y' e (inl h) = absurd (true≢false (sym h))
choose false x x' y y' e (inr h) = h

processor-Respects : (ins : Instruction) → Respects processor ins
processor-Respects ins s t rest same =
    let sum = total-same 16 ins s.registers t.registers (omega arith) same in
    (
      omega (arith, rest, sum),
      λ i lt kept.
          choose (defines ins i) (total 16 ins s.registers + s.rest)
            (total 16 ins t.registers + t.rest) (s.registers i) (t.registers i)
            (omega (arith, rest, sum)) kept,
    )

block-AllRespect : AllRespect processor block
block-AllRespect = (processor-Respects copy, (processor-Respects read, tt))

abbrev counting : Machine ℕ
counting = record { registers = λ i. i + 100; rest = 5 }

rcx_dead : bit 1 (visit_block block new_manager).live ≡ false
unfolding bit
rcx_dead = ap (bit 1) block_live

-- Two states that differ in RCX.
apart : Agree (visit_block block new_manager) (overwrite counting 1 7) counting
apart = record {
  rest = refl;
  live = λ i lt live. elim (eq-cases i 1) [
    | inl e ↦ absurd (
        true≢false
          (sym live ∙ ap (λ (k : ℕ). bit k (visit_block block new_manager).live) e ∙ rcx_dead))
    | inr ne ↦ if_false (i == 1) 7 (counting.registers i) (==-false i 1 ne)
  ];
}

visit_block-Agree_example :
    Agree new_manager (run processor block (overwrite counting 1 7)) (run processor block counting)
visit_block-Agree_example =
    visit_block-Agree processor block new_manager (overwrite counting 1 7) counting block-AllRespect
      new-IsManager apart

lent : (get_zombie (visit_block block new_manager)).0 ≢ 0
lent e = absurd (omega (arith, block_zombie, e))

get_zombie-visit_block_example :
    Agree new_manager
      (run processor block
        (overwrite counting ((get_zombie (visit_block block new_manager)).0 - 1) 7))
      (run processor block counting)
get_zombie-visit_block_example =
    get_zombie-visit_block processor block new_manager counting 7 block-AllRespect new-IsManager
      lent

Reachable-IsManager_example :
    IsManager (after_call call_get_zombie (after_call (call_visit copy) new_manager))
Reachable-IsManager_example =
    Reachable-IsManager (after_call call_get_zombie (after_call (call_visit copy) new_manager))
      (called (called fresh (call_visit copy)) call_get_zombie)

visit-live_example :
    bit 0 (visit copy new_manager).live ≡ live_before copy 0 (bit 0 new_manager.live)
visit-live_example = visit-live copy new_manager 0 (omega arith) (λ e. absurd (omega (arith, e)))

get_zombie_lem_example :
    ((get_zombie new_manager ≡ (0, new_manager)) × ((i : ℕ) → i < 16 → taken i new_manager ≡ true))
    ⊎ ((i : ℕ) × (get_zombie new_manager ≡ (i + 1, lend i new_manager))
        × (i < 16)
        × (taken i new_manager ≡ false)
        × ((j : ℕ) → j < i → taken j new_manager ≡ true))
get_zombie_lem_example = get_zombie_lem new_manager

-- A manager where the stack pointer alone is live.
abbrev quiet : RegisterManager
quiet = record { live = 16; undead = 0; live_xmm = 0; undead_xmm = 0 }

quiet-IsManager : IsManager quiet
unfolding bit
quiet-IsManager = record {
  fits = record {
    live = omega arith;
    undead = omega arith;
    live_xmm = omega arith;
    undead_xmm = omega arith;
  };
  stack = refl;
}

quiet_zombie : (get_zombie quiet).0 ≢ 0
unfolding get_zombie first_clear
quiet_zombie e = absurd (omega (arith, e))

decode-encode_example :
    (bit 9 (decode (encode new_manager) quiet).live
      ≡ ((ltb 9 8 && bit 9 new_manager.live) || (9 == 4)))
    × (bit 9 (decode (encode new_manager) quiet).live_xmm ≡ (ltb 9 8 && bit 9 new_manager.live_xmm))
decode-encode_example = decode-encode new_manager quiet new-IsManager.fits 9 (omega arith)

scale-scale_example : scale (scale 34 scale_8) scale_64 ≡ scale 34 scale_64
unfolding is_high_byte is_8
scale-scale_example = scale-scale 34 scale_8 scale_64 refl

real : scale 17 scale_64 ≢ 0
unfolding scale reg64
real e = absurd (omega (arith, e))

real' : scale 35 scale_64 ≢ 0
unfolding scale reg64
real' e = absurd (omega (arith, e))

free : scale 17 scale_64 ≢ reg_rsp
unfolding scale reg64
free e = absurd (omega (arith, e))

free' : scale 35 scale_64 ≢ reg_rsp
unfolding scale reg64
free' e = absurd (omega (arith, e))

slot_of_lem_example :
    (slot_of 17 < 15) × (slot_of 17 ≡ slot_of 35 → scale 17 scale_64 ≡ scale 35 scale_64)
slot_of_lem_example = slot_of_lem 17 35 real real' free free'
