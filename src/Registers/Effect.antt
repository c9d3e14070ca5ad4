-- ===== src/Registers/Effect.antt =====
-- What killing and reviving registers and operands does to the bit of one register in `live`.
use granary.Common.Bits.{bit}
use granary.Common.{
  ℕ, ◌-◌, ◌<◌, ◌≤◌, ◌≡◌, ◌≢◌, refl, ap, sym, ◌∙◌, Bool, true, false, not, ◌&&◌, ◌||◌, List, [], ◌∷◌,
  arith, Bool-cases, leb→le, ==-false, leb, ◌==◌, inl, inr, ltb, ◌+◌, all_below, all_below_lem,
  ltb→lt, ltb→le,
}
use granary.Registers.{reg64, reg32, reg_mm0}
use granary.Registers.Scale.{reg64_bounds, beyond}
use granary.Registers.Bits.{bit-cleared, bit-raised, bit-forced}
use granary.Registers.Manager.{
  RegisterManager, Operand, reg_kind, base_disp_kind, other_kind, is_wide, kill_64, revive_64,
  kill_xmm, revive_xmm, reg_to_xmm, kill_reg, revive_reg, revive_operand, revive_operands, cleared,
  revive_each,
}

-- Is `reg` register `i` (RAX is 0, RSP 4 and R15 15) or a part of it? In the order of the
-- identifiers: those of 64, 32 and 16 bits; AL to BL and R8L to R15L; AH to BH; SPL to DIL.
unfoldable pub names : ℕ → ℕ → Bool
names i reg =
    (reg == i + 1)
    || (reg == i + 17)
    || (reg == i + 33)
    || ((ltb i 4 || leb 8 i) && (reg == i + 49))
    || (ltb i 4 && (reg == i + 53))
    || (leb 4 i && ltb i 8 && (reg == i + 61))

-- And does writing `reg` replace all of it? A write of 32 bits does, it clears the upper half.
unfoldable pub overwrites : ℕ → ℕ → Bool
overwrites i reg = (reg == i + 1) || (reg == i + 17)

abbrev pub agrees : Bool → Bool → Bool
agrees true b = b
agrees false b = not b

pub agrees_lem : (a b : Bool) → agrees a b ≡ true → a ≡ b
agrees_lem true b h = sym h
agrees_lem false true h = h
agrees_lem false false h = refl

no_names : (i reg : ℕ) → i < 16 → reg_mm0 ≤ reg → names i reg ≡ false
unfolding names
no_names i reg lt far = ground arith

no_overwrites : (i reg : ℕ) → i < 16 → reg_mm0 ≤ reg → overwrites i reg ≡ false
unfolding overwrites
no_overwrites i reg lt far = ground arith

-- The code goes by its table of the 64-bit registers.
abbrev named : ℕ → ℕ → Bool
named i reg = not (reg64 reg == 0) && (i == reg64 reg - 1)

abbrev wide_named : ℕ → ℕ → Bool
wide_named i reg = is_wide reg && (i == reg64 reg - 1)

all_named : all_below 16 (λ i. all_below reg_mm0 (λ reg. agrees (names i reg) (named i reg))) ≡ true
unfolding all_below names reg64
all_named = refl

all_wide :
    all_below 16 (λ i. all_below reg_mm0 (λ reg. agrees (overwrites i reg) (wide_named i reg)))
    ≡ true
unfolding all_below overwrites reg64 reg32
all_wide = refl

-- Two tests that agree on the identifiers of the table, and are false beyond.
by_table :
    (test test' : ℕ → ℕ → Bool) (i reg : ℕ)
    → all_below 16 (λ i. all_below reg_mm0 (λ reg. agrees (test i reg) (test' i reg))) ≡ true
    → i < 16
    → (reg_mm0 ≤ reg → (test i reg ≡ false) × (test' i reg ≡ false))
    → test i reg ≡ test' i reg
by_table test test' i reg checked lt far = elim (Bool-cases (ltb reg reg_mm0)) [
  | inl near ↦ agrees_lem _ _ (
      all_below_lem reg_mm0 (λ reg'. agrees (test i reg') (test' i reg'))
        (all_below_lem 16 (λ k. all_below reg_mm0 (λ reg'. agrees (test k reg') (test' k reg')))
          checked i lt)
        reg (ltb→lt reg reg_mm0 near))
  | inr out ↦ let none_there = far (ltb→le reg reg_mm0 out) in none_there.0 ∙ sym none_there.1
]

names-reg64 : (i reg : ℕ) → i < 16 → names i reg ≡ named i reg
names-reg64 i reg lt =
    by_table names named i reg all_named lt
      (λ out. (no_names i reg lt out, rw (beyond reg out) refl))

overwrites-is_wide : (i reg : ℕ) → i < 16 → overwrites i reg ≡ wide_named i reg
overwrites-is_wide i reg lt =
    by_table overwrites wide_named i reg all_wide lt
      (λ out. (no_overwrites i reg lt out, rw (beyond reg out) refl))

pub or_false : (b : Bool) → b ≡ (b || false)
or_false true = refl
or_false false = refl

pub and_true : (b : Bool) → b ≡ (b && true)
and_true true = refl
and_true false = refl

module _ (i : ℕ) (in_word : i < 16) where
  pub revive_64-live :
      (reg : ℕ) (m : RegisterManager) → bit i (revive_64 reg m).live ≡ (bit i m.live || names i reg)
  unfolding revive_64
  revive_64-live reg m = rw (names-reg64 i reg in_word) (elim (Bool-cases (reg64 reg == 0)) [
    | inl null ↦ rw null (or_false (bit i m.live))
    | inr real ↦ rw real (bit-raised i (reg64 reg - 1) m.live)
  ])

  pub kill_64-live :
      (reg : ℕ) (m : RegisterManager)
      → i ≢ 4
      → bit i (kill_64 reg m).live ≡ (bit i m.live && not (overwrites i reg))
  unfolding kill_64
  kill_64-live reg m ne = rw (overwrites-is_wide i reg in_word) (elim (Bool-cases (is_wide reg)) [
    | inl wide ↦ rw wide (
        bit-forced i (cleared (reg64 reg - 1) m.live)
        ∙ rw (==-false i 4 ne) (
            sym (or_false _)
            ∙ bit-cleared i (reg64 reg - 1) m.live in_word (omega (arith, reg64_bounds reg))))
    | inr narrow ↦ rw narrow (and_true (bit i m.live))
  ])

-- XMM registers have words of their own.
pub kill_xmm-live : (reg : ℕ) (m : RegisterManager) → (kill_xmm reg m).live ≡ m.live
unfolding kill_xmm
kill_xmm-live reg m = elim (Bool-cases (reg_to_xmm reg == 0)) [
  | inl null ↦ rw null refl
  | inr real ↦ rw real refl
]

revive_xmm-live : (reg : ℕ) (m : RegisterManager) → (revive_xmm reg m).live ≡ m.live
unfolding revive_xmm
revive_xmm-live reg m = elim (Bool-cases (reg_to_xmm reg == 0)) [
  | inl null ↦ rw null refl
  | inr real ↦ rw real refl
]

-- Does the operand read register `i`, itself or in its address?
unfoldable pub reads : ℕ → Operand → Bool
reads i (reg_kind reg) = names i reg
reads i (base_disp_kind base index) = names i base || names i index
reads i other_kind = false

unfoldable pub any_of {ℓ} : {A : Type ℓ} → (A → Bool) → List A → Bool
any_of test [] = false
any_of test (x ∷ xs) = test x || any_of test xs

pub or_assoc : (a b c : Bool) → ((a || b) || c) ≡ (a || (b || c))
or_assoc true b c = refl
or_assoc false b c = refl

module _ (i : ℕ) (in_word : i < 16) where
  pub revive_reg-live :
      (reg : ℕ) (m : RegisterManager)
      → bit i (revive_reg reg m).live ≡ (bit i m.live || names i reg)
  unfolding revive_reg
  revive_reg-live reg m = elim (Bool-cases (leb reg_mm0 reg)) [
    | inl far ↦
        rw (far, revive_xmm-live reg m, no_names i reg in_word (leb→le reg_mm0 reg far))
          (or_false (bit i m.live))
    | inr near ↦ rw near (revive_64-live i in_word reg m)
  ]

  pub kill_reg-live :
      (reg : ℕ) (m : RegisterManager)
      → i ≢ 4
      → bit i (kill_reg reg m).live ≡ (bit i m.live && not (overwrites i reg))
  unfolding kill_reg
  kill_reg-live reg m ne = elim (Bool-cases (leb reg_mm0 reg)) [
    | inl far ↦
        rw (far, kill_xmm-live reg m, no_overwrites i reg in_word (leb→le reg_mm0 reg far))
          (and_true (bit i m.live))
    | inr near ↦ rw near (kill_64-live i in_word reg m ne)
  ]

  pub revive_operand-live :
      (op : Operand) (m : RegisterManager)
      → bit i (revive_operand op m).live ≡ (bit i m.live || reads i op)
  unfolding revive_operand reads
  revive_operand-live (reg_kind reg) m = revive_reg-live reg m
  revive_operand-live (base_disp_kind base index) m =
      revive_64-live i in_word index (revive_64 base m)
      ∙ ap (λ (b : Bool). b || names i index) (revive_64-live i in_word base m)
      ∙ or_assoc (bit i m.live) (names i base) (names i index)
  revive_operand-live other_kind m = or_false (bit i m.live)

  -- Reviving a list of operands makes the registers live that they read, and no other.
  pub revive_operands-live :
      (ops : List Operand) (m : RegisterManager)
      → bit i (revive_operands ops m).live ≡ (bit i m.live || any_of (reads i) ops)
  unfolding revive_operands any_of
  revive_operands-live [] m = or_false (bit i m.live)
  revive_operands-live (op ∷ ops) m =
      revive_operands-live ops (revive_operand op m)
      ∙ ap (λ (b : Bool). b || any_of (reads i) ops) (revive_operand-live op m)
      ∙ or_assoc (bit i m.live) (reads i op) (any_of (reads i) ops)

  pub revive_each-live :
      (regs : List ℕ) (m : RegisterManager)
      → bit i (revive_each regs m).live ≡ (bit i m.live || any_of (names i) regs)
  unfolding revive_each any_of
  revive_each-live [] m = or_false (bit i m.live)
  revive_each-live (reg ∷ regs) m =
      revive_each-live regs (revive_64 reg m)
      ∙ ap (λ (b : Bool). b || any_of (names i) regs) (revive_64-live i in_word reg m)
      ∙ or_assoc (bit i m.live) (names i reg) (any_of (names i) regs)
