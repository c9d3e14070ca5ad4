-- ===== src/Policy/Mangle.antt =====
-- Addresses that carry a policy.
use granary.Common.{ℕ, ◌/◌, ◌^◌, ◌<◌, ◌≡◌, ap, Bool, arith}
use granary.Policy.Laws.{IsWord}
use granary.Policy.{Policy, raw, high_bits, mangle, policy_of, unmangled_address}

-- An application address: in user space its 16 top bits are clear, in the kernel they are set.
abbrev pub IsAppAddress : Bool → ℕ → Type 0
IsAppAddress kernel addr = addr / 2 ^ 48 ≡ high_bits kernel

-- Mangling an application address, one whose top 16 bits are those of the build, with a policy of
-- 16 bits loses neither: the address and the policy come back out of it, and the result is a
-- 64-bit word.
pub unmangled_address-mangle :
    (kernel : Bool) (addr : ℕ) (p : Policy)
    → IsAppAddress kernel addr
    → IsWord p
    → (unmangled_address kernel (mangle addr p) ≡ addr)
      × (policy_of (mangle addr p) ≡ p)
      × (mangle addr p < 2 ^ 64)
unfolding mangle policy_of unmangled_address
unmangled_address-mangle kernel addr p app word = (omega arith, ap raw (omega arith), omega arith)

-- Two mangled application addresses, with policies of 16 bits, are the same word only if both the
-- addresses and the policies are the same: the code cache keeps one entry for each such pair.
pub mangle_injective :
    (kernel : Bool) (a b : ℕ) (p q : Policy)
    → IsAppAddress kernel a
    → IsAppAddress kernel b
    → IsWord p
    → IsWord q
    → mangle a p ≡ mangle b q
    → (a ≡ b) × (p ≡ q)
unfolding mangle
mangle_injective kernel a b p q ha hb hp hq h = (omega arith, ap raw (omega arith))
