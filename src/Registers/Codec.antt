-- ===== src/Registers/Codec.antt =====
-- `encode` and `decode` of the live registers (granary/register.h).
use granary.Common.Bits.{bit, bit-bit_and, bit-bit_or, bit-zero}
use granary.Common.Words.{u32, bit_or-digit, ◌<<◌}
use granary.Common.{
  all_below, all_below_lem, ℕ, zero, suc, ◌*◌, ◌/◌, ◌%◌, ◌^◌, ◌<◌, ◌≡◌, refl, ap, sym, ◌∙◌, Bool,
  true, false, ◌&&◌, ◌||◌, arith, ltb, ◌==◌, bit_and, bit_or,
}
use granary.Registers.Effect.{or_false}
use granary.Registers.Bits.{bit-forced}
use granary.Registers.Invariant.{Fits}
use granary.Registers.Manager.{RegisterManager, encode, decode}
use native.Mathlib.Nat.{pow-suc, pow-succ', div-one, div-div-eq-div-mul, mul_assoc}
use mathlib.Core.Bool.{beq}

double : (x k : ℕ) → x * 2 ^ suc k ≡ x * 2 ^ k * 2
double x k = ap (λ (p : ℕ). x * p) (pow-suc 2 k) ∙ sym (mul_assoc x (2 ^ k) 2)

-- The low bits of a number that is shifted up are clear.
bit-shifted : (k i x : ℕ) → i < k → bit i (x * 2 ^ k) ≡ false
unfolding bit
bit-shifted zero i x lt = absurd (omega arith)
bit-shifted (suc k) zero x lt =
    let even : x * 2 ^ suc k % 2 ≡ 0 = omega (arith, double x k) in rw even refl
bit-shifted (suc k) (suc i) x lt =
    let half : x * 2 ^ suc k / 2 ≡ x * 2 ^ k = omega (arith, double x k) in
    rw half (bit-shifted k i x (omega arith))

split : (m k : ℕ) → m / 2 ^ suc k ≡ m / 2 / 2 ^ k
split m k = ap (λ (p : ℕ). m / p) (pow-succ' 2 k) ∙ sym (div-div-eq-div-mul m 2 (2 ^ k))

-- Shifting down by `k` bits.
bit_or-shifted : (k a b : ℕ) → bit_or a b / 2 ^ k ≡ bit_or (a / 2 ^ k) (b / 2 ^ k)
bit_or-shifted zero a b = div-one (bit_or a b) ∙ sym (λ i. bit_or (div-one a i) (div-one b i))
bit_or-shifted (suc k) a b =
    let half : bit_or a b / 2 ≡ bit_or (a / 2) (b / 2) = omega (arith, bit_or-digit a b) in
    split (bit_or a b) k
    ∙ ap (λ (n : ℕ). n / 2 ^ k) half
    ∙ bit_or-shifted k (a / 2) (b / 2)
    ∙ sym (λ i. bit_or (split a k i) (split b k i))

low_masks : all_below 16 (λ j. beq (bit j 0xFF) (ltb j 8)) ≡ true
unfolding all_below bit
low_masks = refl

eq_of_beq : (a b : Bool) → beq a b ≡ true → a ≡ b
eq_of_beq true true h = refl
eq_of_beq true false h = absurd (ground arith)
eq_of_beq false true h = absurd (ground arith)
eq_of_beq false false h = refl

low_mask : (i : ℕ) → i < 16 → bit i 0xFF ≡ ltb i 8
low_mask i lt = eq_of_beq _ _ (all_below_lem 16 (λ j. beq (bit j 0xFF) (ltb j 8)) low_masks i lt)

and_comm : (a b : Bool) → (a && b) ≡ (b && a)
and_comm a b = ground arith

masked : (i word : ℕ) → i < 16 → bit i (bit_and word 0xFF) ≡ (ltb i 8 && bit i word)
masked i word lt =
    bit-bit_and i word 0xFF
    ∙ ap (λ (b : Bool). bit i word && b) (low_mask i lt)
    ∙ and_comm (bit i word) (ltb i 8)

-- Where the words of a manager fit 16 bits, decoding what was encoded keeps the lower eight
-- registers of each word alone, and the stack pointer: the masks of `decode` have eight bits, so a
-- register from R8 to R15, or from XMM8 to XMM15, that was live is dead behind it.
pub decode-encode :
    (m n : RegisterManager)
    → Fits m
    → (i : ℕ) → i < 16
    → (bit i (decode (encode m) n).live ≡ ((ltb i 8 && bit i m.live) || (i == 4)))
      × (bit i (decode (encode m) n).live_xmm ≡ (ltb i 8 && bit i m.live_xmm))
unfolding decode encode
decode-encode m n f i lt =
    let whole : u32 (m.live_xmm << 16) ≡ m.live_xmm * 2 ^ 16 = omega (arith, f.live_xmm) in
    let code = bit_or (u32 (m.live_xmm << 16)) m.live in
    let low : bit i code ≡ bit i m.live =
      bit-bit_or i (u32 (m.live_xmm << 16)) m.live
      ∙ ap (λ (b : Bool). b || bit i m.live) (ap (bit i) whole ∙ bit-shifted 16 i m.live_xmm lt) in
    let down : u32 (m.live_xmm << 16) / 2 ^ 16 ≡ m.live_xmm = omega (arith, f.live_xmm) in
    let gone : m.live / 2 ^ 16 ≡ 0 = omega (arith, f.live) in
    let high : bit i (code / 2 ^ 16) ≡ bit i m.live_xmm =
      ap (bit i) (bit_or-shifted 16 (u32 (m.live_xmm << 16)) m.live)
      ∙ bit-bit_or i (u32 (m.live_xmm << 16) / 2 ^ 16) (m.live / 2 ^ 16)
      ∙ (λ k. bit i (down k) || bit i (gone k))
      ∙ ap (λ (b : Bool). bit i m.live_xmm || b) (bit-zero i)
      ∙ sym (or_false (bit i m.live_xmm)) in
    (
      bit-forced i (bit_and code 0xFF)
          ∙ ap (λ (b : Bool). b || (i == 4))
              (masked i code lt ∙ ap (λ (b : Bool). ltb i 8 && b) low),
      masked i (code / 2 ^ 16) lt ∙ ap (λ (b : Bool). ltb i 8 && b) high,
    )
