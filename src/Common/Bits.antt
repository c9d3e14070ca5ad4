-- ===== src/Common/Bits.antt =====
-- The bits of a machine word, and what the bit operations do to each of them.
use granary.Common.Tests.{◌==◌}
use granary.Common.Words.{bit_and-digit, bit_or-digit}
use Prim.Native.Nat.{
  ℕ, zero, suc, ◌+◌, ◌-◌, ◌*◌, ◌/◌, ◌%◌, ◌^◌, ◌<◌, min, bit_and, bit_or, bit_and-bitwise,
  bit_or-bitwise,
}
use mathlib.Core.Path.{◌≡◌, refl, ◌∙◌}
use mathlib.Core.Bool.{Bool, false, not, ◌&&◌, ◌||◌}
use native.Mathlib.Nat.{pow-suc}
use native.Mathlib.Omega.{arith}

-- Is bit `i` of the word set?
unfoldable pub bit : ℕ → ℕ → Bool
bit zero x = x % 2 == 1
bit (suc i) x = bit i (x / 2)

pub bit-bit_and : (i a b : ℕ) → bit i (bit_and a b) ≡ (bit i a && bit i b)
unfolding bit
bit-bit_and zero a b = ground (arith, bit_and-digit a b)
bit-bit_and (suc i) a b =
    let half : bit_and a b / 2 ≡ bit_and (a / 2) (b / 2) = omega (arith, bit_and-digit a b) in
    rw half (bit-bit_and i (a / 2) (b / 2))

pub bit-bit_or : (i a b : ℕ) → bit i (bit_or a b) ≡ (bit i a || bit i b)
unfolding bit
bit-bit_or zero a b = ground (arith, bit_or-digit a b)
bit-bit_or (suc i) a b =
    let half : bit_or a b / 2 ≡ bit_or (a / 2) (b / 2) = omega (arith, bit_or-digit a b) in
    rw half (bit-bit_or i (a / 2) (b / 2))

pub bit-zero : (i : ℕ) → bit i 0 ≡ false
unfolding bit
bit-zero zero = refl
bit-zero (suc i) = bit-zero i

pub bit-pow : (i j : ℕ) → bit i (2 ^ j) ≡ (i == j)
unfolding bit
bit-pow zero zero = refl
bit-pow zero (suc j) = ground (arith, pow-suc 2 j)
bit-pow (suc i) zero = bit-zero i ∙ ground arith
bit-pow (suc i) (suc j) =
    let half : 2 ^ suc j / 2 ≡ 2 ^ j = omega (arith, pow-suc 2 j) in
    rw half (bit-pow i j ∙ ground arith)

-- The complement in a width of `k` bits.
pub bit-complement : (k i a : ℕ) → a < 2 ^ k → i < k → bit i (2 ^ k - 1 - a) ≡ not (bit i a)
unfolding bit
bit-complement zero i a h lt = absurd (omega arith)
bit-complement (suc k) zero a h lt = ground (arith, pow-suc 2 k)
bit-complement (suc k) (suc i) a h lt =
    let half : (2 ^ suc k - 1 - a) / 2 ≡ 2 ^ k - 1 - a / 2 = omega (arith, pow-suc 2 k) in
    rw half (bit-complement k i (a / 2) (omega (arith, pow-suc 2 k)) (omega arith))

zero-bit_and : (a : ℕ) → bit_and 0 a ≡ 0
zero-bit_and a = bit_and-bitwise 0 a

-- The test of one bit by a mask.
pub bit_and-pow : (i a : ℕ) → (bit_and (2 ^ i) a == 0) ≡ not (bit i a)
unfolding bit
bit_and-pow zero a = ground (arith, bit_and-digit 1 a, zero-bit_and (a / 2))
bit_and-pow (suc i) a =
    let digit : bit_and (2 ^ suc i) a
        ≡ bit_and (2 ^ suc i / 2) (a / 2) * 2 + min (2 ^ suc i % 2) (a % 2) =
      bit_and-digit (2 ^ suc i) a in
    let half : 2 ^ suc i / 2 ≡ 2 ^ i = omega (arith, pow-suc 2 i) in
    let step : bit_and (2 ^ suc i) a ≡ bit_and (2 ^ i) (a / 2) * 2 =
      omega (arith, pow-suc 2 i, rw half at digit) in
    ground (arith, bit_and-pow i (a / 2))

-- The results fit the width of the operands.
pub bit_and-lt : (k a b : ℕ) → a < 2 ^ k → bit_and a b < 2 ^ k
bit_and-lt zero a b h = let e : a ≡ 0 = omega arith in rw e (omega (arith, zero-bit_and b))
bit_and-lt (suc k) a b h = omega (
  arith,
  pow-suc 2 k,
  bit_and-digit a b,
  bit_and-lt k (a / 2) (b / 2) (omega (arith, pow-suc 2 k)),
)

pub bit_or-lt : (k a b : ℕ) → a < 2 ^ k → b < 2 ^ k → bit_or a b < 2 ^ k
bit_or-lt zero a b h h' = let e : a ≡ 0 = omega arith in rw e (omega (arith, bit_or-bitwise 0 b))
bit_or-lt (suc k) a b h h' = omega (
  arith,
  pow-suc 2 k,
  bit_or-digit a b,
  bit_or-lt k (a / 2) (b / 2) (omega (arith, pow-suc 2 k)) (omega (arith, pow-suc 2 k)),
)

-- Words of `k` bits with the same bits are the same.
pub eq_of_bits : (k a b : ℕ) → a < 2 ^ k → b < 2 ^ k → ((i : ℕ) → i < k → bit i a ≡ bit i b) → a ≡ b
unfolding bit
eq_of_bits zero a b h h' same = omega arith
eq_of_bits (suc k) a b h h' same =
    let halves : a / 2 ≡ b / 2 =
      eq_of_bits k (a / 2) (b / 2) (omega (arith, pow-suc 2 k)) (omega (arith, pow-suc 2 k))
        (λ i lt. same (suc i) (omega arith)) in
    let digits : a % 2 ≡ b % 2 = ground (arith, same 0 (omega arith)) in omega arith
