-- ===== src/Registers/Liveness.antt =====
-- The liveness analysis that clients run with a register manager: it visits the instructions of a
-- block from the last to the first (granary/register.h, granary/register.cc). What an instruction
-- does to the registers is the processor's, a parameter.
use granary.Common.Bits.{bit}
use granary.Common.{
  ℕ, ◌<◌, ◌≡◌, ◌≢◌, refl, ap, sym, ◌∙◌, Bool, true, false, not, ◌&&◌, ◌||◌, List, [], ◌∷◌, arith,
  Bool-cases, ==-false, if_true, if_false, ◌+◌, ◌-◌, eq-cases, ◌==◌, ◌⊎◌, inl, inr, if◌then◌else◌,
}
use mathlib.Core.Bool.{true≢false}
use granary.Registers.Zombie.{get_zombie_lem, taken}
use granary.Registers.Reach.{IsManager, visit-IsManager}
use granary.Registers.Effect.{reads, any_of}
use granary.Registers.Manager.{RegisterManager, visit, get_zombie, Instruction}
use granary.Registers.Visit.{
  live_before, visit-live, addresses, replaces, is_dest, keeps_dest, repeats,
}

-- The block, visited backwards.
unfoldable pub visit_block : List Instruction → RegisterManager → RegisterManager
visit_block [] m = m
visit_block (ins ∷ block) m = visit ins (visit_block block m)

-- What an instruction may read: its sources, its addresses, the registers of a repetition, and
-- always the stack pointer. A control transfer may read all registers and a no-op none.
abbrev pub uses : Instruction → ℕ → Bool
uses ins i =
    if ins.is_nop
    then false
    else if ins.is_cti
    then true
    else (i == 4)
      || ((any_of (addresses i) ins.dsts || repeats ins.opcode i) || any_of (reads i) ins.srcs)

-- Which registers it surely replaces as a whole.
abbrev pub defines : Instruction → ℕ → Bool
defines ins i = if ins.is_nop || keeps_dest ins.opcode then false else any_of (replaces i) ins.dsts

-- The state of a processor: the registers, by number (RAX is 0 and RSP is 4), and all the rest,
-- memory and flags and what else there is.
pub record Machine (Rest : Type 0) : Type 0 where
  pub registers : ℕ → ℕ
  pub rest : Rest

abbrev pub run :
    {Rest : Type 0}
    → (Instruction → Machine Rest → Machine Rest)
    → List Instruction
    → Machine Rest
    → Machine Rest
run execute [] s = s
run execute (ins ∷ block) s = run execute block (execute ins s)

-- What is asked of the processor for an instruction: all that it does depends on the registers
-- that the instruction reads and on the rest of the state; and what it leaves in a register that it
-- does not replace may depend on that register too.
abbrev pub Respects :
    {Rest : Type 0} → (Instruction → Machine Rest → Machine Rest) → Instruction → Type 0
Respects {Rest} execute ins =
    (s t : Machine Rest)
    → s.rest ≡ t.rest
    → ((j : ℕ) → j < 16 → uses ins j ≡ true → s.registers j ≡ t.registers j)
    → ((execute ins s).rest ≡ (execute ins t).rest)
      × ((i : ℕ)
          → i < 16
          → (defines ins i ≡ true) ⊎ (s.registers i ≡ t.registers i)
          → (execute ins s).registers i ≡ (execute ins t).registers i)

abbrev pub AllRespect :
    {Rest : Type 0} → (Instruction → Machine Rest → Machine Rest) → List Instruction → Type 0
AllRespect execute [] = Unit {0}
AllRespect execute (ins ∷ block) = Respects execute ins × AllRespect execute block

-- Two states that differ at most in registers that are not live.
pub record Agree {Rest : Type 0} (m : RegisterManager) (s t : Machine Rest) : Type 0 where
  pub rest : s.rest ≡ t.rest
  pub live : (i : ℕ) → i < 16 → bit i m.live ≡ true → s.registers i ≡ t.registers i

uses_before :
    (scan after dst repl addr rep src : Bool)
    → ((addr || rep) || src) ≡ true
    → ((((if scan then after || dst else after && not repl) || addr) || rep) || src) ≡ true
uses_before scan after dst repl addr rep src h = ground arith

kept_before :
    (scan dst repl addr rep src : Bool)
    → (if scan then false else repl) ≡ false
    → ((((if scan then true || dst else true && not repl) || addr) || rep) || src) ≡ true
kept_before scan dst repl addr rep src h = ground arith

-- What an instruction reads other than the stack pointer.
abbrev more : Instruction → ℕ → Bool
more ins i = (any_of (addresses i) ins.dsts || repeats ins.opcode i) || any_of (reads i) ins.srcs

-- One register overwritten.
abbrev pub overwrite : {Rest : Type 0} → Machine Rest → ℕ → ℕ → Machine Rest
overwrite s i value = record s { registers = λ j. if j == i then value else s.registers j }

used-live :
    (ins : Instruction) (i : ℕ) (after : Bool)
    → i ≢ 4
    → uses ins i ≡ true
    → live_before ins i after ≡ true
used-live ins i after ne u = elim (Bool-cases ins.is_nop) [
  | inl nop ↦ absurd (true≢false (sym u ∙ if_true ins.is_nop _ _ nop))
  | inr real ↦ elim (Bool-cases ins.is_cti) [
    | inl cti ↦ if_false ins.is_nop _ _ real ∙ if_true ins.is_cti _ _ cti
    | inr plain ↦
        let rest = sym (if_false ins.is_nop _ _ real ∙ if_false ins.is_cti _ _ plain) ∙ u in
        if_false ins.is_nop _ _ real
        ∙ if_false ins.is_cti _ _ plain
        ∙ uses_before (keeps_dest ins.opcode) after (any_of (is_dest i) ins.dsts)
            (any_of (replaces i) ins.dsts) (any_of (addresses i) ins.dsts) (repeats ins.opcode i)
            (any_of (reads i) ins.srcs)
            (sym (ap (λ (b : Bool). b || more ins i) (==-false i 4 ne)) ∙ rest)
  ]
]

kept-live : (ins : Instruction) (i : ℕ) → defines ins i ≡ false → live_before ins i true ≡ true
kept-live ins i d = elim (Bool-cases ins.is_nop) [
  | inl nop ↦ if_true ins.is_nop _ _ nop
  | inr real ↦ elim (Bool-cases ins.is_cti) [
    | inl cti ↦ if_false ins.is_nop _ _ real ∙ if_true ins.is_cti _ _ cti
    | inr plain ↦
        if_false ins.is_nop _ _ real
        ∙ if_false ins.is_cti _ _ plain
        ∙ kept_before (keeps_dest ins.opcode) (any_of (is_dest i) ins.dsts)
            (any_of (replaces i) ins.dsts) (any_of (addresses i) ins.dsts) (repeats ins.opcode i)
            (any_of (reads i) ins.srcs)
            (sym (
                ap
                  (λ (b : Bool).
                    if b || keeps_dest ins.opcode then false else any_of (replaces i) ins.dsts)
                  real)
              ∙ d)
  ]
]

pub block-IsManager :
    (block : List Instruction) (m : RegisterManager) → IsManager m → IsManager (visit_block block m)
unfolding visit_block
block-IsManager [] m v = v
block-IsManager (ins ∷ block) m v =
    visit-IsManager ins (visit_block block m) (block-IsManager block m v)

module _ {Rest : Type 0} (execute : Instruction → Machine Rest → Machine Rest) where
  -- One instruction: what no live register before it tells apart, none behind it does.
  visit-Agree :
      (ins : Instruction) (m : RegisterManager) (s t : Machine Rest)
      → Respects execute ins
      → IsManager m
      → Agree (visit ins m) s t
      → Agree m (execute ins s) (execute ins t)
  visit-Agree ins m s t respects v same =
      let stack = (visit-IsManager ins m v).stack in
      let used : (j : ℕ) → j < 16 → uses ins j ≡ true → s.registers j ≡ t.registers j = λ j lt' u.
        same.live j lt' (elim (eq-cases j 4) [
          | inl e ↦ ap (λ (k : ℕ). bit k (visit ins m).live) e ∙ stack
          | inr ne ↦ visit-live ins m j lt' ne ∙ used-live ins j (bit j m.live) ne u
        ]) in
      let answer = respects s t same.rest used in
      record {
        rest = answer.0;
        live = λ i lt live. answer.1 i lt (elim (Bool-cases (defines ins i)) [
          | inl d ↦ inl d
          | inr kept ↦ inr (
              same.live i lt (elim (eq-cases i 4) [
                | inl e ↦ ap (λ (k : ℕ). bit k (visit ins m).live) e ∙ stack
                | inr ne ↦
                    visit-live ins m i lt ne ∙ ap (live_before ins i) live ∙ kept-live ins i kept
              ]))
        ]);
      }

  -- The analysis of a block is right, where the processor respects the operands of each instruction
  -- of the block and runs them one after the other: all that an instruction does, to memory and flags
  -- too, depends on the registers that it reads and on the rest of the state, and on a register only
  -- where it does not replace it. That is not so for an instruction, other than a bit scan, that may
  -- leave its destination as it is and does not read it: a repeated LODS with a count of 0, or LAR or
  -- LSL of a bad selector. For a manager whose words fit 16 bits and where the stack pointer is live:
  -- two states that agree on the registers that are live before the block and on the rest agree
  -- behind it on the rest and on the registers that are live there.
  pub visit_block-Agree :
      (block : List Instruction) (m : RegisterManager) (s t : Machine Rest)
      → AllRespect execute block
      → IsManager m
      → Agree (visit_block block m) s t
      → Agree m (run execute block s) (run execute block t)
  unfolding visit_block
  visit_block-Agree [] m s t respects v same = same
  visit_block-Agree (ins ∷ block) m s t respects v same =
      visit_block-Agree block m (execute ins s) (execute ins t) respects.1 v
        (visit-Agree ins (visit_block block m) s t respects.0 (block-IsManager block m v) same)

  -- For such a block, processor and manager, a register that `get_zombie` lends out in front of the
  -- block may be overwritten there with anything: behind the block the rest of the state is the same,
  -- memory and flags too, and no live register differs by it. The processor respects the operands of
  -- each instruction of the block, as above, so none may leave a destination as it is that it does
  -- not read, but a bit scan; the words of the manager fit 16 bits and its stack pointer is live.
  pub get_zombie-visit_block :
      (block : List Instruction) (m : RegisterManager) (s : Machine Rest) (value : ℕ)
      → AllRespect execute block
      → IsManager m
      → (get_zombie (visit_block block m)).0 ≢ 0
      → Agree m
          (run execute block (overwrite s ((get_zombie (visit_block block m)).0 - 1) value))
          (run execute block s)
  get_zombie-visit_block block m s value respects v lent =
      visit_block-Agree block m _ s respects v (record {
        rest = refl;
        live = λ i lt live. elim (get_zombie_lem (visit_block block m)) [
          | inl (gone, full) ↦ absurd (lent (ap (λ r. r.0) gone))
          | inr (j, found, lt', free, below) ↦
              let reg = (get_zombie (visit_block block m)).0 in
              let named : reg ≡ j + 1 = ap (λ r. r.0) found in
              if_false (i == reg - 1) value (s.registers i) (
                ==-false i (reg - 1) (λ e. true≢false (
                  sym (ap (λ (b : Bool). b || bit i (visit_block block m).undead) live)
                  ∙ ap (λ (k : ℕ). taken k (visit_block block m)) (omega (arith, e, named))
                  ∙ free)))
        ];
      })
