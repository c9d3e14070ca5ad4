-- ===== src/Registers/Bits.antt =====
-- What the masks of the register manager do to each bit of a word.
use granary.Common.Bits.{bit, bit-bit_and, bit-bit_or, bit-pow, bit-complement}
use granary.Common.{ℕ, ◌-◌, ◌^◌, ◌<◌, ◌≡◌, ap, ◌∙◌, Bool, not, ◌&&◌, ◌||◌, arith, ◌==◌, bit_or}
use granary.Registers.Manager.{cleared, raised, force_live}
use native.Mathlib.Nat.{pow-le-pow_right}

pub small : (j : ℕ) → j < 16 → 2 ^ j < 2 ^ 16
small j lt = omega (arith, pow-le-pow_right {n = 2} (omega arith) {i = j} {j = 15} (omega arith))

pub bit-cleared :
    (i j word : ℕ) → i < 16 → j < 16 → bit i (cleared j word) ≡ (bit i word && not (i == j))
unfolding cleared
bit-cleared i j word lt lt' =
    bit-bit_and i word (2 ^ 16 - 1 - 2 ^ j)
    ∙ ap (λ (b : Bool). bit i word && b)
        (bit-complement 16 i (2 ^ j) (small j lt') lt ∙ ap not (bit-pow i j))

pub bit-raised : (i j word : ℕ) → bit i (raised j word) ≡ (bit i word || (i == j))
unfolding raised
bit-raised i j word = bit-bit_or i word (2 ^ j) ∙ ap (λ (b : Bool). bit i word || b) (bit-pow i j)

pub bit-forced : (i word : ℕ) → bit i (bit_or word force_live) ≡ (bit i word || (i == 4))
bit-forced i word = bit-bit_or i word force_live ∙ ap (λ (b : Bool). bit i word || b) (bit-pow i 4)
