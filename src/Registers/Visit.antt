-- ===== src/Registers/Visit.antt =====
-- `visit_dests` and `visit` (granary/register.cc), and the bit of one register in `live` after them.
use granary.Common.Bits.{bit, bit-bit_or, bit-zero, bit-pow}
use granary.Common.{
  all_below, all_below_lem, ℕ, ◌<◌, ◌≡◌, ◌≢◌, refl, ap, sym, ◌∙◌, Bool, true, false, not, ◌&&◌,
  ◌||◌, List, [], ◌∷◌, Bool-cases, if_true, if_false, ==-false, inl, inr, if◌then◌else◌, ◌==◌,
}
use granary.Registers.Effect.{
  agrees, agrees_lem, names, overwrites, reads, any_of, or_assoc, or_false, and_true,
  revive_64-live, kill_reg-live, revive_reg-live, revive_each-live, revive_operands-live,
}
use granary.Registers.Manager.{
  RegisterManager, Operand, reg_kind, base_disp_kind, other_kind, revive_64, kill_operand,
  revive_operand, Visited, visit_dest, visit_each_dest, visit_dests, visit, Instruction, Opcode,
  op_bsr, op_bsf, op_rep_ins, op_rep_stos, op_rep_scas, op_repne_scas, op_rep_outs, op_rep_lods,
  op_rep_movs, op_rep_cmps, op_repne_cmps, op_other, is_bit_scan, repeated_regs, revive_all,
  start_visit, end_visit, all_ones,
}

-- Is the destination register `i`, or a part of it?
abbrev pub is_dest : ℕ → Operand → Bool
is_dest i (reg_kind reg) = names i reg
is_dest i _ = false

-- Does writing the destination replace register `i`?
abbrev pub replaces : ℕ → Operand → Bool
replaces i (reg_kind reg) = overwrites i reg
replaces i _ = false

-- Is register `i` part of the address of the destination?
abbrev pub addresses : ℕ → Operand → Bool
addresses i (base_disp_kind base index) = names i base || names i index
addresses i _ = false

-- `BSR` and `BSF` leave their destination as it is if their source is 0.
abbrev pub keeps_dest : Opcode → Bool
keeps_dest op_bsr = true
keeps_dest op_bsf = true
keeps_dest _ = false

-- Is it a string instruction that is repeated, RCX times, does it step RSI through a source, and
-- does it step RDI through a destination (or through the second source of a comparison)?
abbrev pub is_repeated : Opcode → Bool
is_repeated op_bsr = false
is_repeated op_bsf = false
is_repeated op_other = false
is_repeated _ = true

abbrev pub steps_source : Opcode → Bool
steps_source op_rep_movs = true
steps_source op_rep_cmps = true
steps_source op_repne_cmps = true
steps_source op_rep_outs = true
steps_source op_rep_lods = true
steps_source _ = false

abbrev pub steps_dest : Opcode → Bool
steps_dest op_rep_movs = true
steps_dest op_rep_cmps = true
steps_dest op_repne_cmps = true
steps_dest op_rep_scas = true
steps_dest op_repne_scas = true
steps_dest op_rep_ins = true
steps_dest op_rep_stos = true
steps_dest _ = false

-- RCX is register 1, RSI 6 and RDI 7.
abbrev pub repeats : Opcode → ℕ → Bool
repeats opcode i =
    (is_repeated opcode && (i == 1))
    || (steps_source opcode && (i == 6))
    || (steps_dest opcode && (i == 7))

is_bit_scan-keeps_dest : (opcode : Opcode) → is_bit_scan opcode ≡ keeps_dest opcode
is_bit_scan-keeps_dest op_bsr = refl
is_bit_scan-keeps_dest op_bsf = refl
is_bit_scan-keeps_dest op_rep_ins = refl
is_bit_scan-keeps_dest op_rep_stos = refl
is_bit_scan-keeps_dest op_rep_scas = refl
is_bit_scan-keeps_dest op_repne_scas = refl
is_bit_scan-keeps_dest op_rep_outs = refl
is_bit_scan-keeps_dest op_rep_lods = refl
is_bit_scan-keeps_dest op_rep_movs = refl
is_bit_scan-keeps_dest op_rep_cmps = refl
is_bit_scan-keeps_dest op_repne_cmps = refl
is_bit_scan-keeps_dest op_other = refl

all_repeats :
    (opcode : Opcode)
    → all_below 16 (λ i. agrees (any_of (names i) (repeated_regs opcode)) (repeats opcode i)) ≡ true
unfolding all_below any_of names
all_repeats op_bsr = refl
all_repeats op_bsf = refl
all_repeats op_rep_ins = refl
all_repeats op_rep_stos = refl
all_repeats op_rep_scas = refl
all_repeats op_repne_scas = refl
all_repeats op_rep_outs = refl
all_repeats op_rep_lods = refl
all_repeats op_rep_movs = refl
all_repeats op_rep_cmps = refl
all_repeats op_repne_cmps = refl
all_repeats op_other = refl

repeated_regs-repeats :
    (opcode : Opcode) (i : ℕ) → i < 16 → any_of (names i) (repeated_regs opcode) ≡ repeats opcode i
repeated_regs-repeats opcode i lt = agrees_lem _ _ (
    all_below_lem 16 (λ k. agrees (any_of (names k) (repeated_regs opcode)) (repeats opcode k))
      (all_repeats opcode) i lt)

-- Does an instruction need register `i` to write its destinations, given whether what follows
-- needs it? One that may leave its destination as it is does, whatever follows.
abbrev pub needs_dests : Bool → ℕ → List Operand → Bool → Bool
needs_dests keeps i ops after =
    if keeps then after || any_of (is_dest i) ops else after && not (any_of (replaces i) ops)

not_or : (a b c : Bool) → ((a && not b) && not c) ≡ (a && not (b || c))
not_or true true c = refl
not_or true false c = refl
not_or false b c = refl

module _ (i : ℕ) (in_word : i < 16) (ne : i ≢ 4) where
  each-live :
      (bit_scan : Bool) (ops : List Operand) (v : Visited)
      → bit i ((visit_each_dest bit_scan ops v).manager).live
        ≡ needs_dests bit_scan i ops (bit i (v.manager).live)
  unfolding visit_each_dest visit_dest any_of kill_operand revive_operand
  each-live true [] v = or_false (bit i (v.manager).live)
  each-live false [] v = and_true (bit i (v.manager).live)
  each-live true (reg_kind reg ∷ ops) v =
      each-live true ops (visit_dest true (reg_kind reg) v)
      ∙ ap (λ (b : Bool). b || any_of (is_dest i) ops) (revive_reg-live i in_word reg v.manager)
      ∙ or_assoc (bit i (v.manager).live) (names i reg) (any_of (is_dest i) ops)
  each-live false (reg_kind reg ∷ ops) v =
      each-live false ops (visit_dest false (reg_kind reg) v)
      ∙ ap (λ (b : Bool). b && not (any_of (replaces i) ops))
          (kill_reg-live i in_word reg v.manager ne)
      ∙ not_or (bit i (v.manager).live) (overwrites i reg) (any_of (replaces i) ops)
  each-live true (base_disp_kind base index ∷ ops) v =
      each-live true ops (visit_dest true (base_disp_kind base index) v)
  each-live false (base_disp_kind base index ∷ ops) v =
      each-live false ops (visit_dest false (base_disp_kind base index) v)
  each-live true (other_kind ∷ ops) v = each-live true ops v
  each-live false (other_kind ∷ ops) v = each-live false ops v

  address-live :
      (base index : ℕ) (m : RegisterManager)
      → bit i (revive_64 index (revive_64 base (record m { live = 0 }))).live
        ≡ (names i base || names i index)
  address-live base index m =
      revive_64-live i in_word index (revive_64 base (record m { live = 0 }))
      ∙ ap (λ (b : Bool). b || names i index)
          (revive_64-live i in_word base (record m { live = 0 })
            ∙ ap (λ (b : Bool). b || names i base) (bit-zero i))

  each-must :
      (bit_scan : Bool) (ops : List Operand) (v : Visited)
      → bit i (visit_each_dest bit_scan ops v).must_live
        ≡ (bit i v.must_live || any_of (addresses i) ops)
  unfolding visit_each_dest visit_dest any_of
  each-must bit_scan [] v = or_false (bit i v.must_live)
  each-must bit_scan (reg_kind reg ∷ ops) v =
      each-must bit_scan ops (visit_dest bit_scan (reg_kind reg) v)
  each-must bit_scan (base_disp_kind base index ∷ ops) v =
      each-must bit_scan ops (visit_dest bit_scan (base_disp_kind base index) v)
      ∙ ap (λ (b : Bool). b || any_of (addresses i) ops)
          (bit-bit_or i v.must_live
              (revive_64 index (revive_64 base (record (v.manager) { live = 0 }))).live
            ∙ ap (λ (b : Bool). bit i v.must_live || b) (address-live base index v.manager))
      ∙ or_assoc (bit i v.must_live) (names i base || names i index) (any_of (addresses i) ops)
  each-must bit_scan (other_kind ∷ ops) v = each-must bit_scan ops v

  -- Which registers other than the stack pointer are live before the destinations of an
  -- instruction are written: those of the addresses, those that a repeated instruction counts and
  -- steps by, and of the live ones those that no destination replaces, or for a bit scan all of
  -- them and the destinations too. The order of the destinations does not matter.
  pub visit_dests-live :
      (ins : Instruction) (m : RegisterManager)
      → ins.is_nop ≡ false
      → bit i (visit_dests ins m).live ≡ (
          (needs_dests (is_bit_scan ins.opcode) i ins.dsts (bit i m.live)
            || any_of (addresses i) ins.dsts)
          || any_of (names i) (repeated_regs ins.opcode))
  unfolding visit_dests
  visit_dests-live ins m real =
      let v = visit_each_dest (is_bit_scan ins.opcode) ins.dsts (start_visit m) in
      rw real (
        revive_each-live i in_word (repeated_regs ins.opcode) (end_visit v)
        ∙ ap (λ (b : Bool). b || any_of (names i) (repeated_regs ins.opcode))
            (bit-bit_or i (v.manager).live v.must_live
              ∙ ap (λ (b : Bool). b || bit i v.must_live)
                  (each-live (is_bit_scan ins.opcode) ins.dsts (start_visit m))
              ∙ ap
                  (λ (b : Bool).
                    needs_dests (is_bit_scan ins.opcode) i ins.dsts (bit i m.live) || b)
                  (each-must (is_bit_scan ins.opcode) ins.dsts (start_visit m)
                    ∙ ap (λ (b : Bool). b || any_of (addresses i) ins.dsts)
                        (bit-pow i 4 ∙ ==-false i 4 ne))))

-- The liveness of register `i` before an instruction, by its liveness behind it.
abbrev pub live_before : Instruction → ℕ → Bool → Bool
live_before ins i after =
    if ins.is_nop
    then after
    else if ins.is_cti
    then true
    else ((needs_dests (keeps_dest ins.opcode) i ins.dsts after || any_of (addresses i) ins.dsts)
        || repeats ins.opcode i)
      || any_of (reads i) ins.srcs

all_ones-bit : (i : ℕ) → i < 16 → bit i all_ones ≡ true
unfolding bit all_below
all_ones-bit i lt = all_below_lem 16 (λ i. bit i all_ones) refl i lt

-- For each register but the stack pointer `visit` is the transfer function of the liveness
-- analysis, computed backwards: a no-op changes nothing, and before a control transfer every
-- register is live. Before any other instruction those are live that it reads in its sources or in
-- the addresses of its destinations, RCX if it is repeated with RSI and RDI as the string instruction
-- steps them, and the live ones that it does not replace. A write of 64 or of 32 bits replaces a
-- register, one of 8 or 16 bits does not. A bit scan replaces none, and its destinations are live.
pub visit-live :
    (ins : Instruction) (m : RegisterManager) (i : ℕ)
    → i < 16
    → i ≢ 4
    → bit i (visit ins m).live ≡ live_before ins i (bit i m.live)
unfolding visit revive_all
visit-live ins m i lt ne = elim (Bool-cases ins.is_nop) [
  | inl nop ↦ rw nop refl
  | inr real ↦ elim (Bool-cases ins.is_cti) [
    | inl cti ↦
        ap (λ (n : RegisterManager). bit i n.live) (if_false ins.is_nop _ _ real)
        ∙ ap (λ (n : RegisterManager). bit i n.live) (if_true ins.is_cti _ _ cti)
        ∙ all_ones-bit i lt
        ∙ sym (if_false ins.is_nop _ _ real ∙ if_true ins.is_cti _ _ cti)
    | inr plain ↦
        ap (λ (n : RegisterManager). bit i n.live) (if_false ins.is_nop _ _ real)
        ∙ ap (λ (n : RegisterManager). bit i n.live) (if_false ins.is_cti _ _ plain)
        ∙ revive_operands-live i lt ins.srcs (visit_dests ins m)
        ∙ ap (λ (b : Bool). b || any_of (reads i) ins.srcs)
            (visit_dests-live i lt ne ins m real
              ∙ ap
                  (λ (keeps : Bool).
                    (needs_dests keeps i ins.dsts (bit i m.live) || any_of (addresses i) ins.dsts)
                    || any_of (names i) (repeated_regs ins.opcode))
                  (is_bit_scan-keeps_dest ins.opcode)
              ∙ ap
                  (λ (counts : Bool).
                    (needs_dests (keeps_dest ins.opcode) i ins.dsts (bit i m.live)
                      || any_of (addresses i) ins.dsts)
                    || counts)
                  (repeated_regs-repeats ins.opcode i lt))
        ∙ sym (if_false ins.is_nop _ _ real ∙ if_false ins.is_cti _ _ plain)
  ]
]
