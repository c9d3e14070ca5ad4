-- ===== src/Heap/Size.antt =====
-- The size classes of the heap (granary/allocator.cc).
use granary.Common.{
  ℕ, zero, suc, ◌+◌, ◌-◌, ◌/◌, ◌^◌, ◌≤◌, ◌<◌, ◌≡◌, inl, inr, refl, sym, ap, ◌∙◌, ◌==◌, ltb, leb,
  arith, eq-cases, Bool-cases, if_true, if_false, le→ltb, ltb→lt, ltb→le, false,
}
use granary.Heap.{
  bit_width, clzl, log_base_2, next_power_of_2, allocation_size, scale_of, min_object_size,
  num_free_lists, min_scale,
}
use native.Mathlib.Nat.{two-pow-succ, pow-le-pow_right}

-- The bits of a number say between which powers of two it lies.
record Spans (x : ℕ) (w : ℕ) : Type 0 where
  pub low : ℕ
  pub width : w ≡ suc low
  pub above : 2 ^ low ≤ x
  pub below : x < 2 ^ suc low

bit_width-Spans : (n x : ℕ) → 0 < x → x < 2 ^ n → Spans x (bit_width n x)
bit_width-Spans zero x pos lt = absurd (omega (arith, pos, lt))
bit_width-Spans (suc n) x pos lt = elim (eq-cases (x / 2) 0) [
  | inl e ↦ record {
    low = 0;
    width = if_false (x == 0) _ _ (ground (arith, pos)) ∙ ap suc (ap (bit_width n) e ∙ none_left n);
    above = omega (arith, pos);
    below = omega (arith, e);
  }
  | inr ne ↦
      let half =
        bit_width-Spans n (x / 2) (omega (arith, ne)) (omega (arith, lt, two-pow-succ n)) in
      record {
        low = suc half.low;
        width = if_false (x == 0) _ _ (ground (arith, pos)) ∙ ap suc half.width;
        above = omega (arith, two-pow-succ half.low, half.above);
        below = omega (arith, two-pow-succ (suc half.low), half.below);
      }
]
  where
    none_left : (n : ℕ) → bit_width n 0 ≡ 0
    none_left zero = refl
    none_left (suc n) = refl

pow_mono : (a b : ℕ) → a ≤ b → 2 ^ a ≤ 2 ^ b
pow_mono a b le = pow-le-pow_right {n = 2} (omega arith) le

pow_pos : (a : ℕ) → 0 < 2 ^ a
pow_pos a = omega (arith, pow_mono 0 a (omega arith))

pow_reflects : (a b : ℕ) → 2 ^ a < 2 ^ b → a < b
pow_reflects a b lt = elim (Bool-cases (ltb a b)) [
  | inl t ↦ ltb→lt a b t
  | inr f ↦ absurd (omega (arith, lt, pow_mono b a (ltb→le a b f)))
]

-- The logarithm of a number of less than 64 bits.
log_base_2_lem :
    (x : ℕ)
    → 0 < x
    → x < 2 ^ 64
    → (k : ℕ) × (bit_width 64 x ≡ suc k) × (k < 64) × (2 ^ k ≤ x) × (x < 2 ^ suc k)
log_base_2_lem x pos lt =
    let s = bit_width-Spans 64 x pos lt in
    (s.low, s.width, pow_reflects s.low 64 (omega (arith, s.above, lt)), s.above, s.below)

log_base_2-pow : (k : ℕ) → k < 64 → log_base_2 (2 ^ k) ≡ k
unfolding log_base_2
log_base_2-pow k lt =
    let w = log_base_2_lem (2 ^ k) (pow_pos k) (pow_lt k 64 lt) in
    let same : w.0 ≡ k = omega (arith, pow_reflects k (suc (w.0)) w.4, at_most (w.0) k w.3) in
    omega (arith, w.1, w.2, same)
  where
    pow_lt : (a b : ℕ) → a < b → 2 ^ a < 2 ^ b
    pow_lt a b lt = omega (arith, pow_mono (suc a) b (omega (arith, lt)), two-pow-succ a, pow_pos a)

    at_most : (a b : ℕ) → 2 ^ a ≤ 2 ^ b → a ≤ b
    at_most a b le = ltb→le b a (elim (Bool-cases (ltb b a)) [
      | inl t ↦ absurd (omega (arith, le, pow_lt b a (ltb→lt b a t)))
      | inr f ↦ f
    ])

-- The class of a size.
pub record SizeClass (size : ℕ) : Type 0 where
  pub size_is : allocation_size size ≡ 2 ^ (scale_of size + min_scale)
  pub listed : scale_of size < num_free_lists
  pub enough : size ≤ allocation_size size
  pub least : (k : ℕ) → min_scale ≤ k → size ≤ 2 ^ k → allocation_size size ≤ 2 ^ k

large_size :
    (size : ℕ)
    → min_object_size ≤ size
    → size ≤ 2 ^ 63
    → (k : ℕ) × (allocation_size size ≡ 2 ^ suc k)
      × (k < 63)
      × (2 ≤ k)
      × (2 ^ k < size)
      × (size ≤ 2 ^ suc k)
unfolding allocation_size next_power_of_2
large_size size big fits =
    let w = log_base_2_lem (size - 1) (omega (arith, big)) (omega (arith, fits)) in
    let k = w.0 in
    let high : 64 - clzl (size - 1) ≡ suc k = omega (arith, w.1, w.2) in
    let low : 2 ^ (64 - clzl (size - 1)) / 2 ≡ 2 ^ k =
      ap (λ e. 2 ^ e / 2) high ∙ omega (arith, two-pow-succ k) in
    (
      k,
      if_false (ltb size 8) _ _ (le→ltb size 8 big)
          ∙ if_false (leb size (2 ^ (64 - clzl (size - 1)) / 2)) _ _
              (ap (leb size) low ∙ too_low size (2 ^ k) (omega (arith, w.3, big)))
          ∙ ap (λ e. 2 ^ e) high,
      pow_reflects k 63 (omega (arith, w.3, fits, big)),
      omega (arith, pow_reflects 2 (suc k) (omega (arith, w.4, big))),
      omega (arith, w.3, big),
      omega (arith, w.4),
    )
  where
    too_low : (a b : ℕ) → b < a → leb a b ≡ false
    too_low a b lt = ground arith

-- The size of an allocation, for any request of at most 2 ^ 63 bytes, is the least power of two that
-- is no less than the request and no less than 8 bytes; the index of its free list is its logarithm
-- less 3, and there is a free list of that index.
pub allocation_size_lem : (size : ℕ) → size ≤ 2 ^ 63 → SizeClass size
unfolding allocation_size log_base_2
allocation_size_lem size fits = elim (Bool-cases (ltb size min_object_size)) [
  | inl t ↦
      let small : allocation_size size ≡ 2 ^ 3 = if_true (ltb size 8) _ _ t in
      let scale : scale_of size ≡ 0 = ap (λ x. log_base_2 x - min_scale) small in
      record {
        size_is = small ∙ ap (λ x. 2 ^ (x + min_scale)) (sym scale);
        listed = omega (arith, scale);
        enough = omega (arith, small, ltb→lt size 8 t);
        least = λ k le _. omega (arith, small, pow_mono 3 k le);
      }
  | inr f ↦
      let w = large_size size (ltb→le size 8 f) fits in
      let k = w.0 in
      let scale : scale_of size ≡ k - 2 =
        ap (λ x. log_base_2 x - min_scale) w.1
        ∙ ap (λ x. x - min_scale) (log_base_2-pow (suc k) (omega (arith, w.2)))
        ∙ omega arith in
      record {
        size_is = w.1 ∙ ap (λ x. 2 ^ x) (omega (arith, scale, w.3));
        listed = omega (arith, scale, w.2);
        enough = omega (arith, w.1, w.5);
        least = λ j le covers. omega (
          arith,
          w.1,
          pow_mono (suc k) j (omega (arith, pow_reflects k j (omega (arith, w.4, covers)))),
        );
      }
]
