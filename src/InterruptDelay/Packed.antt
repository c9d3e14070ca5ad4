-- ===== src/InterruptDelay/Packed.antt =====
-- The packed states of bytes (granary/basic_block.cc) as an array.
use granary.Common.{
  and-left, and-right, all_below, all_below_lem, ℕ, ◌*◌, ◌/◌, ◌%◌, ◌<◌, ◌≡◌, refl, sym, ap, ◌∙◌,
  ◌==◌, Bool, true, ◌&&◌, ltb, if◌then◌else◌, List, get_or, set, length, get_or-set_self,
  get_or-set_ne, length-set, eq-cases, inl, inr, arith, eq_of_==, if_true, if_false, ==-true,
  ==-false, ltb→lt,
}
use mathlib.Core.Path.{subst}
use granary.InterruptDelay.{
  ByteState, native, delay_begin, delay_cont, delay_end, state_to_mask, state_of_mask, get_bits,
  set_bits, get_state, set_state,
}

packs : ℕ → ℕ → ℕ → ℕ → Bool
packs byte p m q =
    let changed = set_bits byte (2 * p) m in
    (get_bits changed (2 * q) == (if q == p then m else get_bits byte (2 * q))) && ltb changed 256

all_packs :
    all_below 256 (λ byte. all_below 4 (λ p. all_below 4 (λ m. all_below 4 (packs byte p m))))
    ≡ true
unfolding all_below packs
all_packs = refl

packs_lem :
    (byte p m q : ℕ)
    → byte < 256
    → p < 4
    → m < 4
    → q < 4
    → (get_bits (set_bits byte (2 * p) m) (2 * q) ≡ (if q == p then m else get_bits byte (2 * q)))
      × (set_bits byte (2 * p) m < 256)
unfolding packs
packs_lem byte p m q small at_p at_m at_q =
    let all =
      all_below_lem 4 (packs byte p m)
        (all_below_lem 4 (λ n. all_below 4 (packs byte p n))
          (all_below_lem 4 (λ n. all_below 4 (λ k. all_below 4 (packs byte n k)))
            (all_below_lem 256
              (λ b. all_below 4 (λ n. all_below 4 (λ k. all_below 4 (packs b n k)))) all_packs byte
              small)
            p at_p)
          m at_m)
        q at_q in
    (eq_of_== _ _ (and-left _ _ all), ltb→lt _ _ (and-right _ _ all))

-- Each entry is a byte.
abbrev pub IsBytes : List ℕ → Type 0
IsBytes states = (j : ℕ) → get_or states j 0 < 256

mask_small : (st : ByteState) → state_to_mask st < 4
mask_small native = omega arith
mask_small delay_begin = omega arith
mask_small delay_cont = omega arith
mask_small delay_end = omega arith

mask_again : (st : ByteState) → state_of_mask (state_to_mask st) ≡ st
mask_again native = refl
mask_again delay_begin = refl
mask_again delay_cont = refl
mask_again delay_end = refl

place_small : (i : ℕ) → i % 4 < 4
place_small i = omega arith

pub length-set_state :
    (states : List ℕ) (i : ℕ) (st : ByteState) → length (set_state states i st) ≡ length states
unfolding set_state
length-set_state states i st = length-set states (i / 4) _

pub set_state-IsBytes :
    (states : List ℕ) (i : ℕ) (st : ByteState)
    → IsBytes states
    → i / 4 < length states
    → IsBytes (set_state states i st)
unfolding set_state
set_state-IsBytes states i st small inside j = elim (eq-cases j (i / 4)) [
  | inl e ↦
      subst (λ x. x < 256)
        (sym (
          ap (λ x. get_or (set states (i / 4) (changed (i / 4))) x 0) e
          ∙ get_or-set_self states (i / 4) _ 0 inside))
        (packs_lem _ (i % 4) (state_to_mask st) 0 (small (i / 4)) (place_small i) (mask_small st)
          (omega arith)).1
  | inr ne ↦
      subst (λ x. x < 256) (sym (get_or-set_ne states (i / 4) j _ 0 (λ e. ne (sym e)))) (small j)
]
  where
    changed : ℕ → ℕ
    changed x = set_bits (get_or states x 0) (2 * (i % 4)) (state_to_mask st)

-- A state that was set is read back, and no other one has changed; in an array of bytes that reaches
-- so far.
pub get_state-set_state :
    (states : List ℕ) (i k : ℕ) (st : ByteState)
    → IsBytes states
    → i / 4 < length states
    → get_state (set_state states i st) k ≡ (if k == i then st else get_state states k)
unfolding get_state set_state
get_state-set_state states i k st small inside = elim (eq-cases (k / 4) (i / 4)) [
  | inl e ↦
      let b = get_or states (i / 4) 0 in
      let new = set_bits b (2 * (i % 4)) (state_to_mask st) in
      let here : get_or (set states (i / 4) new) (k / 4) 0 ≡ new =
        ap (λ x. get_or (set states (i / 4) new) x 0) e
        ∙ get_or-set_self states (i / 4) new 0 inside in
      let p =
        packs_lem b (i % 4) (state_to_mask st) (k % 4) (small (i / 4)) (place_small i)
          (mask_small st) (place_small k) in
      ap (λ x. state_of_mask (get_bits x (2 * (k % 4)))) here
      ∙ ap state_of_mask p.0
      ∙ (elim (eq-cases k i) [
        | inl same ↦
            ap state_of_mask (if_true (k % 4 == i % 4) _ _ (==-true _ _ (ap (λ x. x % 4) same)))
            ∙ mask_again st
            ∙ sym (if_true (k == i) _ _ (==-true k i same))
        | inr ne ↦
            ap state_of_mask
              (if_false (k % 4 == i % 4) _ _ (==-false _ _ (λ same. ne (omega (arith, e, same)))))
            ∙ ap (λ x. state_of_mask (get_bits (get_or states x 0) (2 * (k % 4)))) (sym e)
            ∙ sym (if_false (k == i) _ _ (==-false k i ne))
      ])
  | inr ne ↦
      ap (λ x. state_of_mask (get_bits x (2 * (k % 4))))
        (get_or-set_ne states (i / 4) (k / 4) _ 0 (λ e. ne (sym e)))
      ∙ sym (if_false (k == i) _ _ (==-false k i (λ e. ne (ap (λ x. x / 4) e))))
]
