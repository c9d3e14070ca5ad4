-- ===== src/CodeCache/Resolve.antt =====
-- Where `code_cache::find` (granary/code_cache.cc) sends a branch that was not translated yet: to the
-- address itself, to a translation for the base policy, or out of translated code.
use granary.CodeCache.{
  Environment, base_addr, app_target, right_policy, find_detach_target, internal_target, or_detach,
}
use granary.CodeCache.Find.{bind, NoNull, load-miss, load_target-some}
use granary.CodeMap.{CodeMap}
use granary.Common.{
  ℕ, ◌≡◌, ◌≢◌, ap, sym, ◌∙◌, Bool, true, false, not, ◌&&◌, ◌||◌, Option, some, none, ◌==◌, inl, inr,
  Option-cases, Bool-cases, ==-true, ==-false, if_true, if_false, eq-cases, arith, if◌then◌else◌,
}
use granary.Policy.{policy_of, is_in_host_context, context, can_detach}

host_point :
    (kernel host : Bool) (found : ℕ)
    → (if kernel && (false && not host) then 0 else if not (found == 0) then found else 0) ≡ found
host_point kernel host found = ground arith

app_point :
    (kernel host : Bool) (found : ℕ)
    → (if kernel && (true && not host) then 0 else if not (found == 0) then found else 0)
      ≡ (if kernel && not host then 0 else found)
app_point kernel host found = ground arith

entered :
    (point addr : ℕ) (instrument was_host host : Bool)
    → (if (point == 0) && (not instrument && (not was_host && host)) then addr else point)
      ≡ (if point == 0 then (if instrument || (was_host || not host) then 0 else addr) else point)
entered point addr instrument was_host host = ground arith

module _ {T : Type 0} (c : CodeMap T) (env : Environment T) where
  -- The detach point that is registered for an address, or 0: in the host context by the host's
  -- table, and otherwise by the application's, which in the kernel is for addresses of the host.
  abbrev pub detach_point : ℕ → ℕ
  detach_point addr =
      if is_in_host_context (right_policy c env addr)
      then granary.CpuCodeCache.find (env.detach_tables).host (app_target c env addr)
      else if env.kernel && not (env.is_host_address (app_target c env addr))
      then 0
      else granary.CpuCodeCache.find (env.detach_tables).app (app_target c env addr)

  -- Where to leave translated code to, or 0: to the detach point, or if there is none to host code
  -- that is not instrumented and is entered from outside.
  abbrev pub leaves_to : ℕ → ℕ
  leaves_to addr =
      if detach_point addr == 0
      then (if env.instrument_host
            || (is_in_host_context (policy_of addr)
                || not (is_in_host_context (right_policy c env addr)))
          then 0
          else app_target c env addr)
      else detach_point addr

  -- What needs no translation, for an address that the code cache does not have: an address inside
  -- of translated code, wrappers or generated code; what the code cache has under the base address;
  -- or, if the policy can detach, where to leave to. 0 stands for nothing.
  abbrev pub known_target : ℕ → T → ℕ
  known_target addr t =
      if env.is_internal (app_target c env addr)
      then app_target c env addr
      else elim (c.view t (base_addr c env addr)) [
        | some r ↦ r
        | none ↦ if can_detach (right_policy c env addr) then leaves_to addr else 0
      ]

  find_detach_target-detach_point :
      (addr : ℕ)
      → find_detach_target env.kernel
          (env.is_host_address (app_target c env addr))
          env.detach_tables
          (app_target c env addr)
          (context (right_policy c env addr))
        ≡ detach_point addr
  unfolding find_detach_target granary.CpuCodeCache.load context
  find_detach_target-detach_point addr =
      elim (Bool-cases (is_in_host_context (right_policy c env addr))) [
        | inl host ↦ rw host (
            host_point env.kernel (env.is_host_address (app_target c env addr))
              (granary.CpuCodeCache.find (env.detach_tables).host (app_target c env addr)))
        | inr app ↦ rw app (
            app_point env.kernel (env.is_host_address (app_target c env addr))
              (granary.CpuCodeCache.find (env.detach_tables).app (app_target c env addr)))
      ]

  detach_to-leaves_to : (addr : ℕ) → granary.CodeCache.detach_to c env addr ≡ leaves_to addr
  unfolding granary.CodeCache.detach_to
  detach_to-leaves_to addr =
      ap
        (λ (point : ℕ).
          if (point == 0)
            && (not env.instrument_host
                && (not (is_in_host_context (policy_of addr))
                    && is_in_host_context (right_policy c env addr)))
          then app_target c env addr
          else point)
        (find_detach_target-detach_point addr)
      ∙ entered (detach_point addr) (app_target c env addr) env.instrument_host
          (is_in_host_context (policy_of addr)) (is_in_host_context (right_policy c env addr))

  or_detach-real : (addr v : ℕ) → v ≢ 0 → or_detach c env addr v ≡ v
  or_detach-real addr v ne =
      if_false ((v == 0) && can_detach (right_policy c env addr)) _ _
        (ap (λ (b : Bool). b && can_detach (right_policy c env addr)) (==-false v 0 ne))

  or_detach-none :
      (addr : ℕ)
      → or_detach c env addr 0
        ≡ (if can_detach (right_policy c env addr) then leaves_to addr else 0)
  or_detach-none addr =
      ap (λ (x : ℕ). if can_detach (right_policy c env addr) then x else 0)
        (detach_to-leaves_to addr)

  abbrev looks : ℕ → ℕ → Bool
  looks addr internal = (internal == 0) && not (base_addr c env addr == addr)

  -- `resolve` gives just that.
  pub resolve-known_target :
      (n : ℕ) (t : T) (addr : ℕ)
      → c.Fits n t
      → NoNull c t
      → app_target c env addr ≢ 0
      → base_addr c env addr ≢ 0
      → c.view t addr ≡ none
      → granary.CodeCache.resolve c env t addr ≡ some (known_target addr t)
  unfolding granary.CodeCache.resolve
  resolve-known_target n t addr f sound real key new =
      elim (Bool-cases (env.is_internal (app_target c env addr))) [
        | inl inside ↦
            let at : internal_target c env addr ≡ app_target c env addr =
              if_true (env.is_internal (app_target c env addr)) _ _ inside in
            if_false (looks addr (internal_target c env addr)) _ _ (
              ap (looks addr) at
              ∙ ap (λ (b : Bool). b && not (base_addr c env addr == addr)) (==-false _ 0 real))
            ∙ ap (λ (x : ℕ). some (or_detach c env addr x)) at
            ∙ ap some (or_detach-real addr (app_target c env addr) real)
            ∙ ap some (sym (if_true (env.is_internal (app_target c env addr)) _ _ inside))
        | inr outside ↦
            let at : internal_target c env addr ≡ 0 =
              if_false (env.is_internal (app_target c env addr)) _ _ outside in
            let known : known_target addr t ≡ _ =
              if_false (env.is_internal (app_target c env addr)) _ _ outside in
            elim (eq-cases (base_addr c env addr) addr) [
              | inl same ↦
                  if_false (looks addr (internal_target c env addr)) _ _
                    (ap (looks addr) at ∙ ap not (==-true (base_addr c env addr) addr same))
                  ∙ ap (λ (x : ℕ). some (or_detach c env addr x)) at
                  ∙ ap some (
                      or_detach-none addr
                      ∙ sym (
                          known
                          ∙ given_view addr (c.view t (base_addr c env addr)) none
                              (ap (c.view t) same ∙ new)))
              | inr other ↦
                  if_true (looks addr (internal_target c env addr)) _ _
                    (ap (looks addr) at ∙ ap not (==-false (base_addr c env addr) addr other))
                  ∙ elim (Option-cases (c.view t (base_addr c env addr))) [
                    | inl e ↦
                        bind _ _ _ (bind _ _ _ (load-miss c n t (base_addr c env addr) f key e))
                        ∙ ap some (or_detach-none addr ∙ sym (known ∙ given_view addr _ none e))
                    | inr (v, e) ↦
                        bind _ _ _ (load_target-some c env n t (base_addr c env addr) v f key e)
                        ∙ ap some (
                            or_detach-real addr v (λ z. sound _ key (e ∙ ap some z))
                            ∙ sym (known ∙ given_view addr _ (some v) e))
                  ]
            ]
      ]
    where
      given_view :
          (addr : ℕ) (o o' : Option ℕ)
          → o ≡ o'
          → elim o [
            | some r ↦ r
            | none ↦ if can_detach (right_policy c env addr) then leaves_to addr else 0
          ]
            ≡ elim o' [
              | some r ↦ r
              | none ↦ if can_detach (right_policy c env addr) then leaves_to addr else 0
            ]
      given_view addr o o' e =
          ap
            (λ (x : Option ℕ). elim x [
              | some r ↦ r
              | none ↦ if can_detach (right_policy c env addr) then leaves_to addr else 0
            ])
            e
