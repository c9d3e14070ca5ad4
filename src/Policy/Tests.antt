-- ===== src/Policy/Tests.antt =====
-- Runs of the policy words, and the theorems about them at concrete policies.
use granary.Common.{ℕ, ◌+◌, ◌*◌, ◌^◌, ◌<◌, ◌≡◌, refl, true, false, arith, replicate}
use granary.Policy.Ids.{
  PolicyType, Registry, to_policy, IsRegistry, Converted, to_policy-Converted, to_policy_twice,
  no_policies,
}
use granary.Policy.Mangle.{unmangled_address-mangle}
use granary.Policy.{
  Policy, raw, base_policy, same_policy, is_missing, inherit_properties, inherit_call, mangle,
  policy_of, unmangled_address,
}

-- The identifier 3 with all eight properties, and the identifier 5 with none.
abbrev busy : Policy
busy = raw 0x3ff

abbrev plain : Policy
plain = raw 0x500

base_of_busy : base_policy busy ≡ raw 0x3f0
unfolding base_policy
base_of_busy = refl

call_of_busy : inherit_properties plain busy inherit_call ≡ raw 0x5b0
unfolding inherit_properties base_policy
call_of_busy = refl

unmangled_address-mangle_example :
    (unmangled_address false (mangle 0x7fff_dead_beef busy) ≡ 0x7fff_dead_beef)
    × (policy_of (mangle 0x7fff_dead_beef busy) ≡ busy)
    × (mangle 0x7fff_dead_beef busy < 2 ^ 64)
unmangled_address-mangle_example =
    unmangled_address-mangle false 0x7fff_dead_beef busy refl (omega arith)

-- Policy types whose visitors tell the type.
abbrev types : ℕ → PolicyType
types T = record {
  visit_app_instructions = T * 2;
  visit_host_instructions = T * 2 + 1;
  auto_instrument_host = true;
}

-- One identifier was handed out, to no type.
abbrev started : Registry
started = record {
  next_policy_id = 1;
  policy_id = λ T. 0;
  app_visitors = replicate 256 0;
  host_visitors = replicate 256 0;
  auto_visit_host = replicate 256 false;
}

started-IsRegistry : IsRegistry types started
started-IsRegistry = record {
  app_width = refl;
  host_width = refl;
  auto_width = refl;
  started = omega arith;
  bounded = λ T. omega arith;
  apart = λ T U h e. absurd (h refl);
  app = λ T h. absurd (h refl);
  host = λ T h. absurd (h refl);
  auto = λ T h. absurd (h refl);
}

to_policy-Converted_example : Converted types 7 started (to_policy types 7 started)
to_policy-Converted_example = to_policy-Converted types 7 started started-IsRegistry (omega arith)

to_policy_twice_example :
    let first = to_policy types 7 no_policies in
    let second = to_policy types 7 first.0 in
    (is_missing first.1 ≡ true)
    × (same_policy first.1 second.1 ≡ false)
    × (to_policy types 7 second.0 ≡ second)
to_policy_twice_example = to_policy_twice types 7
