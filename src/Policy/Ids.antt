-- ===== src/Policy/Ids.antt =====
-- The policies of client types: `policy_for<T>` and the tables that it fills (granary/policy.h,
-- granary/policy.cc). A type `T` and a visitor function are known by numbers, and a null visitor
-- is 0. A write beyond the 256 places of the tables is outside of the model: it changes nothing
-- here. The table of interrupt visitors, under its own option, is filled like the other three.
use granary.Common.Words.{u32}
use granary.Common.{
  ℕ, ◌+◌, ◌%◌, ◌^◌, ◌<◌, ◌≡◌, ◌≢◌, refl, sym, ◌∙◌, ap, Bool, true, false, List, arith, ◌==◌,
  if◌then◌else◌, get_or, set, length, replicate, length-set, get_or-set_self, get_or-set_ne,
  eq-cases, inl, inr, ==-true, ==-false, ◌||◌, Bool-cases,
}
use granary.Policy.{
  Policy, from_id, id, is_missing, same_policy, is_in_host_context, in_host_context,
}

-- What the client's class gives.
pub record PolicyType : Type 0 where
  pub visit_app_instructions : ℕ
  pub visit_host_instructions : ℕ
  pub auto_instrument_host : Bool

-- The static variables; `policy_id` is `policy_for<T>::POLICY_ID` for each type.
pub record Registry : Type 0 where
  pub next_policy_id : ℕ
  pub policy_id : ℕ → ℕ
  pub app_visitors : List ℕ
  pub host_visitors : List ℕ
  pub auto_visit_host : List Bool

abbrev pub max_num_policy_ids : ℕ
max_num_policy_ids = 2 ^ 8

abbrev pub no_policies : Registry
no_policies = record {
  next_policy_id = 0;
  policy_id = λ T. 0;
  app_visitors = replicate max_num_policy_ids 0;
  host_visitors = replicate max_num_policy_ids 0;
  auto_visit_host = replicate max_num_policy_ids false;
}

abbrev pub update : (ℕ → ℕ) → ℕ → ℕ → ℕ → ℕ
update f T n U = if U == T then n else f U

-- `POLICY_ID = init_policy()`.
unfoldable pub init_policy : (ℕ → PolicyType) → ℕ → Registry → Registry
init_policy types T s =
    let n = s.next_policy_id in
    record {
      next_policy_id = u32 (n + 1);
      policy_id = update s.policy_id T n;
      app_visitors = set s.app_visitors n (types T).visit_app_instructions;
      host_visitors = set s.host_visitors n (types T).visit_host_instructions;
      auto_visit_host = set s.auto_visit_host n (types T).auto_instrument_host;
    }

-- The conversion of a `policy_for<T>` to a policy.
unfoldable pub to_policy : (ℕ → PolicyType) → ℕ → Registry → Registry × Policy
to_policy types T s =
    let s' = if s.policy_id T == 0 then init_policy types T s else s in
    (s', from_id (s'.policy_id T % 2 ^ 16))

-- The function that `instrument` calls.
unfoldable pub visitor : Registry → Policy → ℕ
visitor s p =
    if is_in_host_context p then get_or s.host_visitors (id p) 0 else get_or s.app_visitors (id p) 0

-- Without `CONFIG_FEATURE_INSTRUMENT_HOST` the table decides.
unfoldable pub is_host_auto_instrumented : Bool → Registry → Policy → Bool
is_host_auto_instrumented instrument_host s p =
    if instrument_host then true else get_or s.auto_visit_host (id p) false

-- The types that have an identifier have one each, below the next one, and their visitors stand
-- in the tables.
pub record IsRegistry (types : ℕ → PolicyType) (s : Registry) : Type 0 where
  pub app_width : length s.app_visitors ≡ 256
  pub host_width : length s.host_visitors ≡ 256
  pub auto_width : length s.auto_visit_host ≡ 256
  pub started : 0 < s.next_policy_id
  pub bounded : (T : ℕ) → s.policy_id T < s.next_policy_id
  pub apart : (T U : ℕ) → s.policy_id T ≢ 0 → s.policy_id T ≡ s.policy_id U → T ≡ U
  pub app :
      (T : ℕ)
      → s.policy_id T ≢ 0
      → get_or s.app_visitors (s.policy_id T) 0 ≡ (types T).visit_app_instructions
  pub host :
      (T : ℕ)
      → s.policy_id T ≢ 0
      → get_or s.host_visitors (s.policy_id T) 0 ≡ (types T).visit_host_instructions
  pub auto :
      (T : ℕ)
      → s.policy_id T ≢ 0
      → get_or s.auto_visit_host (s.policy_id T) false ≡ (types T).auto_instrument_host

update_self : (f : ℕ → ℕ) (T n U : ℕ) → U ≡ T → update f T n U ≡ n
update_self f T n U e = ground arith

update_ne : (f : ℕ → ℕ) (T n U : ℕ) → U ≢ T → update f T n U ≡ f U
update_ne f T n U ne = ground arith

module _ (types : ℕ → PolicyType) (T : ℕ) (s : Registry) (v : IsRegistry types s)
    (fits : s.next_policy_id < 256) where
  abbrev n : ℕ
  n = s.next_policy_id

  table :
      {A : Type 0} (xs : List A) (d : A) (f : ℕ → A)
      → length xs ≡ 256
      → ((U : ℕ) → s.policy_id U ≢ 0 → get_or xs (s.policy_id U) d ≡ f U)
      → (U : ℕ) → update s.policy_id T n U ≢ 0
      → get_or (set xs n (f T)) (update s.policy_id T n U) d ≡ f U
  table xs d f width old U h = elim (eq-cases U T) [
    | inl e ↦
        rw (update_self s.policy_id T n U e, get_or-set_self xs n (f T) d (omega arith))
          (ap f (sym e))
    | inr ne ↦
        let same = update_ne s.policy_id T n U ne in
        rw (same, get_or-set_ne xs n (s.policy_id U) (f T) d (omega (arith, v.bounded U)))
          (old U (omega arith))
  ]

  apart :
      (U W : ℕ)
      → update s.policy_id T n U ≢ 0
      → update s.policy_id T n U ≡ update s.policy_id T n W
      → U ≡ W
  apart U W h e = ground (arith, v.apart U W, v.bounded U, v.bounded W)

  bounded : (U : ℕ) → update s.policy_id T n U < u32 (n + 1)
  bounded U = ground (arith, v.bounded U)

  init_policy-IsRegistry : IsRegistry types (init_policy types T s)
  unfolding init_policy
  init_policy-IsRegistry = record {
    app_width = length-set s.app_visitors n _ ∙ v.app_width;
    host_width = length-set s.host_visitors n _ ∙ v.host_width;
    auto_width = length-set s.auto_visit_host n _ ∙ v.auto_width;
    started = omega arith;
    bounded = bounded;
    apart = apart;
    app = table s.app_visitors 0 (λ U. (types U).visit_app_instructions) v.app_width v.app;
    host = table s.host_visitors 0 (λ U. (types U).visit_host_instructions) v.host_width v.host;
    auto = table s.auto_visit_host false (λ U. (types U).auto_instrument_host) v.auto_width v.auto;
  }

-- What a conversion of `T` leaves: a valid registry, no earlier identifier changed, and a policy by
-- which `instrument` reaches the visitors of `T`, in either context.
pub record Converted (types : ℕ → PolicyType) (T : ℕ) (s : Registry) (r : Registry × Policy)
    : Type 0 where
  pub valid : IsRegistry types r.0
  pub kept : (U : ℕ) → s.policy_id U ≢ 0 → (r.0).policy_id U ≡ s.policy_id U
  pub set : (r.0).policy_id T ≢ 0
  pub named : (id r.1 ≡ (r.0).policy_id T) × (is_missing r.1 ≡ false)
  pub app : visitor r.0 (in_host_context false r.1) ≡ (types T).visit_app_instructions
  pub host : visitor r.0 (in_host_context true r.1) ≡ (types T).visit_host_instructions
  pub auto :
      (instrument_host : Bool)
      → is_host_auto_instrumented instrument_host r.0 r.1
        ≡ (instrument_host || (types T).auto_instrument_host)

id-from_id : (n : ℕ) → n < 256 → id (from_id (n % 2 ^ 16)) ≡ n
unfolding from_id
id-from_id n small = omega arith

app_context :
    (n : ℕ)
    → n < 256
    → let p = in_host_context false (from_id (n % 2 ^ 16)) in
      (is_in_host_context p ≡ false) × (id p ≡ n)
unfolding from_id
app_context n small = (==-false _ 1 (omega arith), omega arith)

host_context :
    (n : ℕ)
    → n < 256
    → let p = in_host_context true (from_id (n % 2 ^ 16)) in
      (is_in_host_context p ≡ true) × (id p ≡ n)
unfolding from_id
host_context n small = (==-true _ 1 (omega arith), omega arith)

module _ (types : ℕ → PolicyType) (T : ℕ) where
  converted :
      (s r : Registry)
      → IsRegistry types r
      → ((U : ℕ) → s.policy_id U ≢ 0 → r.policy_id U ≡ s.policy_id U)
      → r.policy_id T ≢ 0
      → r.policy_id T < 256
      → Converted types T s (r, from_id (r.policy_id T % 2 ^ 16))
  unfolding visitor is_host_auto_instrumented is_missing
  converted s r v kept set small =
      let named = id-from_id (r.policy_id T) small in
      let app = app_context (r.policy_id T) small in
      let host = host_context (r.policy_id T) small in
      record {
        valid = v;
        kept = kept;
        set = set;
        named = (named, ==-false _ 0 (omega arith));
        app = rw (app.0, app.1) (v.app T set);
        host = rw (host.0, host.1) (v.host T set);
        auto = λ h. elim (Bool-cases h) [
          | inl always ↦ rw always refl
          | inr by_type ↦ rw (by_type, named) (v.auto T set)
        ];
      }

  -- Over a valid registry that has handed out an identifier before and has one left, a policy type
  -- can always be converted. The registry stays valid, so no two types share an identifier, and
  -- every identifier handed out before stands. The policy has the type's identifier and none of
  -- the missing policy, and by it `instrument` calls the type's application visitor outside of the
  -- host context and its host visitor inside. Host code is instrumented as the type says where
  -- `CONFIG_FEATURE_INSTRUMENT_HOST` is off, and always where it is on.
  pub to_policy-Converted :
      (s : Registry)
      → IsRegistry types s
      → s.next_policy_id < 256
      → Converted types T s (to_policy types T s)
  unfolding to_policy
  to_policy-Converted s v fits = elim (eq-cases (s.policy_id T) 0) [
    | inl none_yet ↦ rw (==-true (s.policy_id T) 0 none_yet) (
        converted s (init_policy types T s) (init_policy-IsRegistry types T s v fits)
          (λ U h.
            unfold init_policy in
            update_ne s.policy_id T s.next_policy_id U (λ e. h (ap s.policy_id e ∙ none_yet)))
          (unfold init_policy in
            rw (update_self s.policy_id T s.next_policy_id T refl) (omega (arith, v.started)))
          (unfold init_policy in
            rw (update_self s.policy_id T s.next_policy_id T refl) (omega arith)))
    | inr given ↦
        rw (==-false (s.policy_id T) 0 given)
          (converted s s v (λ U h. refl) given (omega (arith, v.bounded T)))
  ]

  settled :
      (s : Registry)
      → s.policy_id T ≢ 0
      → to_policy types T s ≡ (s, from_id (s.policy_id T % 2 ^ 16))
  unfolding to_policy
  settled s h = rw (==-false (s.policy_id T) 0 h)

  assigned : (s : Registry) → (init_policy types T s).policy_id T ≡ s.next_policy_id
  unfolding init_policy
  assigned s = update_self s.policy_id T s.next_policy_id T refl

  fresh :
      (s : Registry)
      → s.policy_id T ≡ 0
      → to_policy types T s ≡ (init_policy types T s, from_id (s.next_policy_id % 2 ^ 16))
  unfolding to_policy
  fresh s h =
      rw (==-true (s.policy_id T) 0 h)
        (ap (λ (m : ℕ). (init_policy types T s, from_id (m % 2 ^ 16))) (assigned s))

  -- Over a valid registry that has handed out an identifier before and has one left, converting a
  -- type a second time changes nothing and gives the same policy.
  pub to_policy_stable :
      (s : Registry)
      → IsRegistry types s
      → s.next_policy_id < 256
      → let r = to_policy types T s in to_policy types T r.0 ≡ r
  to_policy_stable s v fits =
      settled (to_policy types T s).0 ((to_policy-Converted s v fits).set)
      ∙ unfold to_policy in refl

  -- The very first type that is converted gets the identifier 0, which reads as not set: the policy
  -- is the missing one, and at its second conversion the type is registered again, under another
  -- identifier. Only that one stays.
  pub to_policy_twice :
      let first = to_policy types T no_policies in
      let second = to_policy types T first.0 in
      (is_missing first.1 ≡ true)
      × (same_policy first.1 second.1 ≡ false)
      × (to_policy types T second.0 ≡ second)
  unfolding from_id is_missing same_policy
  to_policy_twice =
      let once = init_policy types T no_policies in
      let twice = init_policy types T once in
      let next : once.next_policy_id ≡ 1 = unfold init_policy in refl in
      let given : twice.policy_id T ≡ 1 = assigned once ∙ next in
      let second : to_policy types T once ≡ (twice, from_id (1 % 2 ^ 16)) =
        fresh once (assigned no_policies) ∙ ap (λ (m : ℕ). (twice, from_id (m % 2 ^ 16))) next in
      rw (fresh no_policies refl, second)
        (
          refl,
          refl,
          settled twice (omega arith) ∙ ap (λ (m : ℕ). (twice, from_id (m % 2 ^ 16))) given,
        )
