-- ===== src/Policy.antt =====
-- Instrumentation policies, granary/policy.h and granary/policy.cc: the 16-bit word of a policy
-- with its properties, and the addresses that carry such a word in their top bits. The union of
-- bit fields is the word itself, with reads and writes of its bits from the lowest one up.
pub mod Laws
pub mod Mangle
pub mod Ids
mod Tests
use granary.Common.Words.{u16}
use granary.Common.{
  ℕ, ◌+◌, ◌-◌, ◌*◌, ◌/◌, ◌%◌, ◌^◌, bit_or, Bool, true, false, not, ◌==◌, if◌then◌else◌,
}

pub record Policy : Type 0 where
  pub as_raw_bits : ℕ

abbrev pub raw : ℕ → Policy
raw n = record { as_raw_bits = n }

-- A one-bit field at bit `i`.
abbrev pub field : ℕ → Policy → Bool
field i p = (p.as_raw_bits / 2 ^ i) % 2 == 1

abbrev pub set_field : ℕ → Bool → Policy → Policy
set_field i val p =
    raw (p.as_raw_bits - (p.as_raw_bits / 2 ^ i) % 2 * 2 ^ i + (if val then 2 ^ i else 0))

-- `u.id`, the top eight bits.
abbrev pub id : Policy → ℕ
id p = p.as_raw_bits / 256 % 256

abbrev pub set_id : ℕ → Policy → Policy
set_id n p = raw (p.as_raw_bits % 256 + n % 256 * 256)

unfoldable pub from_id : ℕ → Policy
from_id n = set_id n (raw 0)

unfoldable pub decode : ℕ → Policy
decode bits = raw (u16 bits)

unfoldable pub encode : Policy → ℕ
encode p = p.as_raw_bits

-- `operator==`: weak, by the identifier alone.
unfoldable pub same_policy : Policy → Policy → Bool
same_policy p that = id p == id that

-- `operator!`
unfoldable pub is_missing : Policy → Bool
is_missing p = id p == 0

abbrev pub is_beginning_of_functional_unit : Policy → Bool
is_beginning_of_functional_unit = field 0

abbrev pub begins_functional_unit : Bool → Policy → Policy
begins_functional_unit = set_field 0

abbrev pub is_indirect_cti_target : Policy → Bool
is_indirect_cti_target = field 1

abbrev pub indirect_cti_target : Bool → Policy → Policy
indirect_cti_target = set_field 1

abbrev pub is_return_target : Policy → Bool
is_return_target = field 2

abbrev pub return_target : Bool → Policy → Policy
return_target = set_field 2

abbrev pub force_attach : Bool → Policy → Policy
force_attach = set_field 3

abbrev pub can_detach : Policy → Bool
can_detach p = not (field 3 p)

abbrev pub is_in_xmm_context : Policy → Bool
is_in_xmm_context = field 4

abbrev pub in_xmm_context : Bool → Policy → Policy
in_xmm_context = set_field 4

abbrev pub is_in_host_context : Policy → Bool
is_in_host_context = field 5

abbrev pub in_host_context : Bool → Policy → Policy
in_host_context = set_field 5

abbrev pub accesses_user_data : Policy → Bool
accesses_user_data = field 6

abbrev pub access_user_data : Bool → Policy → Policy
access_user_data = set_field 6

-- With `CONFIG_OPTIMISE_DIRECT_RETURN` the property is not stored: it always holds.
abbrev pub return_address_is_in_code_cache : Bool → Policy → Bool
return_address_is_in_code_cache optimise_direct_return p =
    if optimise_direct_return then true else field 7 p

abbrev pub return_address_in_code_cache : Bool → Bool → Policy → Policy
return_address_in_code_cache optimise_direct_return val p =
    if optimise_direct_return then p else set_field 7 val p

pub data RuntimeContext : Type 0 where
  running_as_app running_as_host : RuntimeContext

unfoldable pub context : Policy → RuntimeContext
context p = if is_in_host_context p then running_as_host else running_as_app

-- The policy without its temporary properties.
unfoldable pub base_policy : Policy → Policy
base_policy p =
    force_attach false
      (return_target false (indirect_cti_target false (begins_functional_unit false p)))

pub data InheritConstraint : Type 0 where
  inherit_all inherit_call inherit_jmp inherit_return : InheritConstraint

abbrev inherited_bits : InheritConstraint → Policy → Policy
inherited_bits inherit_call that = access_user_data false (raw (bit_or 0 that.as_raw_bits))
inherited_bits inherit_all that = raw (bit_or 0 that.as_raw_bits)
inherited_bits inherit_jmp that = raw (bit_or 0 that.as_raw_bits)
inherited_bits inherit_return that = raw (bit_or 0 that.as_raw_bits)

-- The word is cleared, or-ed with that of the base policy, and given its identifier back.
unfoldable pub inherit_properties : Policy → Policy → InheritConstraint → Policy
inherit_properties p that constraint = set_id (id p) (inherited_bits constraint (base_policy that))

unfoldable pub clear_properties : Policy → Policy
clear_properties p = set_id (id p) (raw 0)

-- `mangled_address`: the word of the policy in the top 16 of the 64 bits.
unfoldable pub mangle : ℕ → Policy → ℕ
mangle addr p = addr % 2 ^ 48 + p.as_raw_bits * 2 ^ 48

unfoldable pub policy_of : ℕ → Policy
policy_of mangled = raw (mangled / 2 ^ 48 % 2 ^ 16)

-- `IF_USER_ELSE(0, 0xFFFF)` are the top bits of an application address.
abbrev pub high_bits : Bool → ℕ
high_bits kernel = if kernel then 0xFFFF else 0

unfoldable pub unmangled_address : Bool → ℕ → ℕ
unmangled_address kernel mangled = mangled % 2 ^ 48 + high_bits kernel * 2 ^ 48
