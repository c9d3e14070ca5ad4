-- ===== src/Registers/Zombie.antt =====
-- Lending out dead registers: `get_zombie` and `get_xmm_zombie` (granary/register.cc), and what
-- `is_live`, `is_dead` and `is_undead` say of the register that is lent.
use granary.Common.Bits.{bit, bit-bit_or, bit_and-pow, bit-complement}
use granary.Common.{
  all_below, all_below_lem, ℕ, zero, suc, ◌+◌, ◌-◌, ◌^◌, ◌<◌, ◌≤◌, ◌≡◌, ◌≢◌, refl, ap, sym, ◌∙◌,
  Bool, true, false, not, ◌||◌, arith, none, some, Bool-cases, eq-cases, ==-true, eq_of_==, if_true,
  if_false, ◌⊎◌, inl, inr, leb, ltb, ◌==◌, bit_and, bit_or,
}
use mathlib.Core.Bool.{true≢false}
use granary.Registers.{reg64, reg_rsp, reg_mm0, reg_xmm0}
use granary.Registers.Bits.{bit-raised}
use granary.Registers.Manager.{
  RegisterManager, raised, get_zombie, first_clear, is_dead, is_undead, test_of,
}
use granary.Registers.Reach.{IsManager, or_true}

-- The bits from `pos` on, below a bound, are all set.
abbrev pub Full : ℕ → ℕ → ℕ → Type 0
Full word pos bound = (j : ℕ) → pos ≤ j → j < bound → bit j word ≡ true

clear_test : (pos word : ℕ) (b : Bool) → bit pos word ≡ b → (bit_and (2 ^ pos) word == 0) ≡ not b
clear_test pos word b e = bit_and-pow pos word ∙ ap not e

-- The search for a clear bit gives the first one there is, and nothing only if there is none.
pub first_clear_lem :
    (n pos word : ℕ)
    → ((first_clear n pos word ≡ none) × Full word pos (pos + n))
      ⊎ ((p : ℕ) × (first_clear n pos word ≡ some p)
          × (p < pos + n)
          × (bit p word ≡ false)
          × Full word pos p)
unfolding first_clear
first_clear_lem zero pos word = inl (refl, λ j h h'. absurd (omega arith))
first_clear_lem (suc n) pos word = elim (Bool-cases (bit pos word)) [
  | inr clear ↦ inr (
    pos,
    if_true _ (some pos) (first_clear n (pos + 1) word) (clear_test pos word false clear),
    omega arith,
    clear,
    λ j h h'. absurd (omega arith),
  )
  | inl set ↦
      let skip =
        if_false _ (some pos) (first_clear n (pos + 1) word) (clear_test pos word true set) in
      let more : (bound : ℕ) → Full word (pos + 1) bound → Full word pos bound =
        λ bound full j h h'. elim (eq-cases j pos) [
          | inl e ↦ rw e set
          | inr ne ↦ full j (omega (arith, ne)) h'
        ] in
      elim (first_clear_lem n (pos + 1) word) [
        | inl (gone, full) ↦ inl (skip ∙ gone, λ j h h'. more (pos + 1 + n) full j h (omega arith))
        | inr (p, found, lt, clear, full) ↦ inr (p, skip ∙ found, omega arith, clear, more p full)
      ]
]

-- Is register `i` live, or lent out?
abbrev pub taken : ℕ → RegisterManager → Bool
taken i m = bit i m.live || bit i m.undead

abbrev pub lend : ℕ → RegisterManager → RegisterManager
lend i m = record m { undead = raised i m.undead }

-- `get_zombie` gives the first general purpose register that is neither live nor lent out, and
-- marks it as lent out. It gives `DR_REG_NULL`, and changes nothing, only if there is none.
pub get_zombie_lem :
    (m : RegisterManager)
    → ((get_zombie m ≡ (0, m)) × ((i : ℕ) → i < 16 → taken i m ≡ true))
      ⊎ ((i : ℕ) × (get_zombie m ≡ (i + 1, lend i m))
          × (i < 16)
          × (taken i m ≡ false)
          × ((j : ℕ) → j < i → taken j m ≡ true))
unfolding get_zombie
get_zombie_lem m =
    let word = bit_or m.live m.undead in
    elim (first_clear_lem 16 0 word) [
      | inl (gone, full) ↦ inl (
        rw (gone, get_zombie) refl,
        λ i lt. sym (bit-bit_or i m.live m.undead) ∙ full i (omega arith) (omega arith),
      )
      | inr (p, found, lt, clear, full) ↦ inr (
        p,
        rw (found, get_zombie) refl,
        omega arith,
        sym (bit-bit_or p m.live m.undead) ∙ clear,
        λ j h. sym (bit-bit_or j m.live m.undead) ∙ full j (omega arith) h,
      )
    ]

not-not : (b : Bool) → not (not b) ≡ b
not-not true = refl
not-not false = refl

self_check : all_below 16 (λ i. reg64 (i + 1) == i + 1) ≡ true
unfolding all_below reg64
self_check = refl

reg64_self : (i : ℕ) → i < 16 → reg64 (i + 1) ≡ i + 1
reg64_self i lt =
    eq_of_== (reg64 (i + 1)) (i + 1)
      (all_below_lem 16 (λ j. reg64 (j + 1) == j + 1) self_check i lt)

-- A test of the bit of a 64-bit register.
test_of_lem : (i gpr xmm : ℕ) → i < 16 → test_of (i + 1) gpr xmm ≡ some (bit i gpr)
test_of_lem i gpr xmm lt =
    let far : leb reg_xmm0 (i + 1) ≡ false = ground arith in
    let near : ltb (i + 1) reg_mm0 ≡ true = ground arith in
    let real : (i + 1 == 0) ≡ false = ground arith in
    let index : i + 1 - 1 ≡ i = omega arith in
    rw (far, near, reg64_self i lt, real, index, bit_and-pow i gpr) (ap some (not-not (bit i gpr)))

dead_of_free : (a b : Bool) → (a || b) ≡ false → a ≡ false
dead_of_free a b h = ground arith

lend-taken : (i : ℕ) (m : RegisterManager) → taken i (lend i m) ≡ true
lend-taken i m =
    let same : (i == i) ≡ true = ==-true i i refl in
    ap (λ (b : Bool). bit i m.live || b)
      (bit-raised i i m.undead
        ∙ ap (λ (b : Bool). bit i m.undead || b) same
        ∙ or_true (bit i m.undead))
    ∙ or_true (bit i m.live)

once : (i : ℕ) (m : RegisterManager) → (get_zombie (lend i m)).0 ≢ i + 1
once i m = elim (get_zombie_lem (lend i m)) [
  | inl (gone, full) ↦ λ e. absurd (omega (arith, sym (ap (λ r. r.0) gone) ∙ e))
  | inr (j, found, lt, free, below) ↦ λ e.
      let same : j + 1 ≡ i + 1 = sym (ap (λ r. r.0) found) ∙ e in
      true≢false
        (sym (lend-taken i m) ∙ ap (λ (k : ℕ). taken k (lend i m)) (omega (arith, same)) ∙ free)
]

-- In a manager whose words fit 16 bits and where the stack pointer is live, a register that
-- `get_zombie` lends out is not the stack pointer, was dead, is undead afterwards, and is not lent
-- out by the next `get_zombie`.
pub get_zombie_twice :
    (m : RegisterManager)
    → IsManager m
    → (get_zombie m).0 ≢ 0
    → ((get_zombie m).0 ≢ reg_rsp)
      × (is_dead (get_zombie m).0 m ≡ some true)
      × (is_undead (get_zombie m).0 (get_zombie m).1 ≡ some true)
      × ((get_zombie (get_zombie m).1).0 ≢ (get_zombie m).0)
unfolding is_dead is_undead
get_zombie_twice m v lent = elim (get_zombie_lem m) [
  | inl (gone, full) ↦ absurd (lent (ap (λ r. r.0) gone))
  | inr (i, found, lt, free, below) ↦ rw found (
    λ e. true≢false (
        sym (ap (λ (b : Bool). b || bit 4 m.undead) v.stack)
        ∙ ap (λ (j : ℕ). taken j m) (omega (arith, e))
        ∙ free),
    test_of_lem i (2 ^ 16 - 1 - m.live) (2 ^ 16 - 1 - m.live_xmm) lt
        ∙ ap some (
            bit-complement 16 i m.live (v.fits).live lt
            ∙ ap not (dead_of_free (bit i m.live) (bit i m.undead) free)),
    test_of_lem i (bit_or m.live (raised i m.undead)) (bit_or m.live_xmm (raised i m.undead)) lt
        ∙ ap some (bit-bit_or i m.live (raised i m.undead) ∙ lend-taken i m),
    once i m,
  )
]
