-- ===== src/Common/Words.antt =====
-- Machine words as native numbers: casts to a width, and the bit operations of low masks.
use Prim.Native.Nat.{
  ℕ, zero, suc, ◌+◌, ◌-◌, ◌*◌, ◌/◌, ◌%◌, ◌^◌, ◌≤◌, ◌<◌, min, max, bit_and, bit_or, digits,
  bit_and-bitwise, bit_or-bitwise,
}
use mathlib.Core.Path.{◌≡◌, refl, ap, ◌∙◌}
use native.Mathlib.Nat.{
  pow-suc, one-le-pow, mod-lt, mod-eq_of_lt, add-mul-mod_self_right, div-add-mod',
}
use native.Mathlib.Omega.{arith}

abbrev pub u16 : ℕ → ℕ
u16 n = n % 2 ^ 16

abbrev pub u32 : ℕ → ℕ
u32 n = n % 2 ^ 32

abbrev pub u64 : ℕ → ℕ
u64 n = n % 2 ^ 64

infixl 75 ◌<<◌ ◌>>◌
abbrev pub ◌<<◌ : ℕ → ℕ → ℕ
x << k = x * 2 ^ k

abbrev pub ◌>>◌ : ℕ → ℕ → ℕ
x >> k = x / 2 ^ k

-- The digit recursion behind the native operations does not depend on its fuel.
digits_irrel :
    (z : ℕ → ℕ) (f : ℕ → ℕ → ℕ) (n m a b : ℕ) → a ≤ n → a ≤ m → digits z f n a b ≡ digits z f m a b
digits_irrel z f zero zero a b p q = refl
digits_irrel z f (suc n) zero zero b p q = refl
digits_irrel z f (suc n) zero (suc a) b p q = absurd (omega arith)
digits_irrel z f zero (suc m) zero b p q = refl
digits_irrel z f zero (suc m) (suc a) b p q = absurd (omega arith)
digits_irrel z f (suc n) (suc m) zero b p q = refl
digits_irrel z f (suc n) (suc m) (suc a) b p q =
    let half : suc a / 2 ≤ a = omega arith in
    rw (digits_irrel z f n m (suc a / 2) (b / 2) (omega arith) (omega arith))

-- `&` and `|` by their lowest digit.
pub bit_and-digit : (a b : ℕ) → bit_and a b ≡ bit_and (a / 2) (b / 2) * 2 + min (a % 2) (b % 2)
bit_and-digit zero b = omega (arith, bit_and-bitwise 0 b, bit_and-bitwise 0 (b / 2))
bit_and-digit (suc a) b = omega (
  arith,
  bit_and-bitwise (suc a) b,
  bit_and-bitwise (suc a / 2) (b / 2),
  digits_irrel (λ _. zero) min a (suc a / 2) (suc a / 2) (b / 2) (omega arith) (omega arith),
)

pub bit_or-digit : (a b : ℕ) → bit_or a b ≡ bit_or (a / 2) (b / 2) * 2 + max (a % 2) (b % 2)
bit_or-digit zero b = omega (arith, bit_or-bitwise 0 b, bit_or-bitwise 0 (b / 2))
bit_or-digit (suc a) b = omega (
  arith,
  bit_or-bitwise (suc a) b,
  bit_or-bitwise (suc a / 2) (b / 2),
  digits_irrel (λ y. y) max a (suc a / 2) (suc a / 2) (b / 2) (omega arith) (omega arith),
)

bit_and-zero_bound : (n a : ℕ) → a ≤ n → bit_and a 0 ≡ 0
bit_and-zero_bound n zero h = bit_and-bitwise 0 0
bit_and-zero_bound zero (suc a) h = absurd (omega arith)
bit_and-zero_bound (suc n) (suc a) h =
    omega (arith, bit_and-digit (suc a) 0, bit_and-zero_bound n (suc a / 2) (omega arith))

mod-double : (p a : ℕ) → 0 < p → a % (p * 2) ≡ a / 2 % p * 2 + a % 2
mod-double p a h =
    ap (λ (t : ℕ). t % (p * 2)) split
    ∙ add-mul-mod_self_right (a / 2 % p * 2 + a % 2) (a / 2 / p) (p * 2)
    ∙ mod-eq_of_lt (omega (arith, mod-lt (a / 2) h))
  where
    split : a ≡ a / 2 % p * 2 + a % 2 + a / 2 / p * (p * 2)
    split = omega (arith, div-add-mod' (a / 2) p)

-- A mask of `k` ones keeps the low `k` bits.
pub bit_and-mask : (k a : ℕ) → bit_and a (2 ^ k - 1) ≡ a % 2 ^ k
bit_and-mask zero a = omega (arith, bit_and-zero_bound a a (omega arith))
bit_and-mask (suc k) a =
    let pos : 0 < 2 ^ k = one-le-pow k 2 (omega arith) in
    let half : (2 ^ suc k - 1) / 2 ≡ 2 ^ k - 1 = omega (arith, pow-suc 2 k) in
    let ones : (2 ^ suc k - 1) % 2 ≡ 1 = omega (arith, pow-suc 2 k) in
    let rest : bit_and (a / 2) ((2 ^ suc k - 1) / 2) ≡ a / 2 % 2 ^ k =
      rw half (bit_and-mask k (a / 2)) in
    let whole : a % 2 ^ suc k ≡ a / 2 % 2 ^ k * 2 + a % 2 =
      rw (pow-suc 2 k) (mod-double (2 ^ k) a pos) in
    omega (arith, bit_and-digit a (2 ^ suc k - 1))
