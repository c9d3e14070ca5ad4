-- ===== src/Registers/Scale.antt =====
-- The tables of register identifiers: sizes of one register, and the slots of the saved state.
use granary.Common.{
  and-left, and-right, all_below, all_below_lem, get_or-out, Bool-cases, eq_of_==, ltb→lt, ltb→le,
  inl, inr, ℕ, ◌<◌, ◌≤◌, ◌≡◌, ◌≢◌, refl, Bool, true, false, not, ◌&&◌, ◌||◌, arith, ltb, leb, ◌==◌,
}
use granary.Registers.{
  reg_to_reg64, reg_mm0, reg_rsp, reg_ah, reg_r8l, reg64, reg32, reg16, reg8, scale, slot_of,
  RegisterScale, scale_8, scale_16, scale_32, scale_64,
}

abbrev all_scales : (RegisterScale → Bool) → Bool
all_scales test = test scale_8 && (test scale_16 && (test scale_32 && test scale_64))

all_scales_lem :
    (test : RegisterScale → Bool) → all_scales test ≡ true → (s : RegisterScale) → test s ≡ true
all_scales_lem test h scale_8 = and-left (test scale_8) _ h
all_scales_lem test h scale_16 = and-left (test scale_16) _ (and-right (test scale_8) _ h)
all_scales_lem test h scale_32 =
    and-left (test scale_32) _ (and-right (test scale_16) _ (and-right (test scale_8) _ h))
all_scales_lem test h scale_64 =
    and-right (test scale_32) _ (and-right (test scale_16) _ (and-right (test scale_8) _ h))

-- AH, CH, DH and BH.
unfoldable pub is_high_byte : ℕ → Bool
is_high_byte reg = leb reg_ah reg && ltb reg reg_r8l

unfoldable pub is_8 : RegisterScale → Bool
is_8 scale_8 = true
is_8 _ = false

abbrev rescales : ℕ → RegisterScale → RegisterScale → Bool
rescales reg s t = (is_high_byte reg && is_8 t) || (scale (scale reg s) t == scale reg t)

all_rescale : all_below reg_mm0 (λ reg. all_scales (λ s. all_scales (rescales reg s))) ≡ true
unfolding all_below scale reg64 reg32 reg16 reg8 is_high_byte is_8
all_rescale = refl

no_scale : (reg : ℕ) (s : RegisterScale) → reg_mm0 ≤ reg → scale reg s ≡ 0
unfolding scale
no_scale reg s h = ground arith

or-right : (a b : Bool) → (a || b) ≡ true → a ≡ false → b ≡ true
or-right true b h e = absurd (ground arith)
or-right false b h e = h

rescales_lem : (reg : ℕ) (s t : RegisterScale) → reg < reg_mm0 → rescales reg s t ≡ true
rescales_lem reg s t lt =
    all_scales_lem (rescales reg s)
      (all_scales_lem (λ s'. all_scales (rescales reg s'))
        (all_below_lem reg_mm0 (λ r. all_scales (λ s'. all_scales (rescales r s'))) all_rescale reg
          lt)
        s)
      t

null_scale : (t : RegisterScale) → scale 0 t ≡ 0
unfolding scale reg64 reg32 reg16 reg8
null_scale scale_8 = refl
null_scale scale_16 = refl
null_scale scale_32 = refl
null_scale scale_64 = refl

-- Changing the size of a register twice is changing it once, to the last size: no size forgets
-- which register it is. Registers from AH to BH are left out where the last size is 8 bits.
pub scale-scale :
    (reg : ℕ) (s t : RegisterScale)
    → (is_high_byte reg && is_8 t) ≡ false
    → scale (scale reg s) t ≡ scale reg t
scale-scale reg s t low = elim (Bool-cases (ltb reg reg_mm0)) [
  | inl lt ↦ eq_of_== (scale (scale reg s) t) (scale reg t) (
      or-right _ (scale (scale reg s) t == scale reg t)
        (rescales_lem reg s t (ltb→lt reg reg_mm0 lt)) low)
  | inr ge ↦
      let e = no_scale reg s (ltb→le reg reg_mm0 ge) in
      let e' = no_scale reg t (ltb→le reg reg_mm0 ge) in rw (e, e') (null_scale t)
]

all_bounded : all_below reg_mm0 (λ reg. not (ltb 16 (reg64 reg))) ≡ true
unfolding all_below reg64
all_bounded = refl

pub beyond : (reg : ℕ) → reg_mm0 ≤ reg → reg64 reg ≡ 0
unfolding reg64
beyond reg h = get_or-out reg_to_reg64 reg 0 h

negated : (b : Bool) → not b ≡ true → b ≡ false
negated true h = absurd (ground arith)
negated false h = refl

-- The 64-bit register that a register is part of is one of sixteen, or null.
pub reg64_bounds : (reg : ℕ) → reg64 reg ≤ 16
reg64_bounds reg = elim (Bool-cases (ltb reg reg_mm0)) [
  | inl lt ↦ ltb→le 16 (reg64 reg) (
      negated _ (
        all_below_lem reg_mm0 (λ r. not (ltb 16 (reg64 r))) all_bounded reg
          (ltb→lt reg reg_mm0 lt)))
  | inr ge ↦ omega (arith, beyond reg (ltb→le reg reg_mm0 ge))
]

scale_bounds : (reg : ℕ) → scale reg scale_64 ≤ 16
unfolding scale
scale_bounds reg = ground (arith, reg64_bounds reg)

-- In the saved machine state two registers that are parts of different 64-bit registers, none of
-- them of the stack pointer, have different slots, all below 15, inside of the array of 16.
pub slot_of_lem :
    (r q : ℕ)
    → scale r scale_64 ≢ 0
    → scale q scale_64 ≢ 0
    → scale r scale_64 ≢ reg_rsp
    → scale q scale_64 ≢ reg_rsp
    → (slot_of r < 15) × (slot_of r ≡ slot_of q → scale r scale_64 ≡ scale q scale_64)
unfolding slot_of
slot_of_lem r q real real' free free' =
    let b = scale_bounds r in let b' = scale_bounds q in (ground arith, λ same. ground arith)
