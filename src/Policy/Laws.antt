-- ===== src/Policy/Laws.antt =====
-- Reading and writing the fields of a policy word, and what is inherited.
use granary.Common.{
  ℕ, ◌*◌, ◌/◌, ◌%◌, ◌^◌, ◌<◌, bit_or, ◌≡◌, ap, ==-true, ==-false, Bool, true, false, arith, ◌==◌,
}
use granary.Policy.{
  is_in_xmm_context, is_in_host_context, accesses_user_data, Policy, raw, field, id, base_policy,
  same_policy, inherit_properties, InheritConstraint, inherit_all, inherit_call, inherit_jmp,
  inherit_return, clear_properties,
}
use Prim.Native.Nat.{bit_or-bitwise}

-- The word fits 16 bits.
abbrev pub IsWord : Policy → Type 0
IsWord p = p.as_raw_bits < 2 ^ 16

zero-bit_or : (n : ℕ) → bit_or 0 n ≡ n
zero-bit_or n = bit_or-bitwise 0 n

same_bit : (a b : ℕ) → a ≡ b → (a == 1) ≡ (b == 1)
same_bit a b h = ap (λ (x : ℕ). x == 1) h

base_raw : (p : Policy) → (base_policy p).as_raw_bits ≡ p.as_raw_bits / 16 * 16
unfolding base_policy
base_raw p = omega arith

-- Dropping the temporary properties of a policy keeps its identifier and all inherited
-- properties, leaves none of the four temporary ones, changes nothing the second time, and gives a
-- policy that is weakly equal to it.
pub base_policy_lem :
    (p : Policy)
    → ((base_policy p).as_raw_bits % 16 ≡ 0)
      × ((base_policy p).as_raw_bits / 16 ≡ p.as_raw_bits / 16)
      × (base_policy (base_policy p) ≡ base_policy p)
      × (same_policy (base_policy p) p ≡ true)
unfolding same_policy
base_policy_lem p =
    let e = base_raw p in
    let e' = base_raw (base_policy p) in
    (
      omega arith,
      omega arith,
      ap raw (omega arith),
      ==-true (id (base_policy p)) (id p) (omega arith),
    )

-- The one inherited property that a call does not pass on.
abbrev pub inherits_user_data : InheritConstraint → Policy → Bool
inherits_user_data inherit_call that = false
inherits_user_data inherit_all that = accesses_user_data that
inherits_user_data inherit_jmp that = accesses_user_data that
inherits_user_data inherit_return that = accesses_user_data that

-- Inheriting keeps the policy's own identifier, leaves no temporary property, and takes the
-- inherited properties of the other policy; but across a call the code is not taken to access
-- user data.
pub inherit_properties_lem :
    (p that : Policy) (constraint : InheritConstraint)
    → let r = inherit_properties p that constraint in
      (id r ≡ id p)
      × (r.as_raw_bits % 16 ≡ 0)
      × (is_in_xmm_context r ≡ is_in_xmm_context that)
      × (is_in_host_context r ≡ is_in_host_context that)
      × (accesses_user_data r ≡ inherits_user_data constraint that)
      × (field 7 r ≡ field 7 that)
unfolding inherit_properties
inherit_properties_lem p that inherit_call =
    let e = base_raw that in
    let o = zero-bit_or (base_policy that).as_raw_bits in
    (
      omega arith,
      omega arith,
      same_bit _ _ (omega arith),
      same_bit _ _ (omega arith),
      ==-false _ 1 (omega arith),
      same_bit _ _ (omega arith),
    )
inherit_properties_lem p that _ =
    let e = base_raw that in
    let o = zero-bit_or (base_policy that).as_raw_bits in
    (
      omega arith,
      omega arith,
      same_bit _ _ (omega arith),
      same_bit _ _ (omega arith),
      same_bit _ _ (omega arith),
      same_bit _ _ (omega arith),
    )

-- A clear policy has its identifier and nothing else, so it is its own base policy.
pub clear_properties_lem :
    (p : Policy)
    → (same_policy (clear_properties p) p ≡ true)
      × (base_policy (clear_properties p) ≡ clear_properties p)
unfolding same_policy clear_properties
clear_properties_lem p =
    let e = base_raw (clear_properties p) in
    (==-true (id (clear_properties p)) (id p) (omega arith), ap raw (omega arith))
