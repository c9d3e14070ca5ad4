-- ===== src/CodeCache/Find.antt =====
-- What `code_cache::find` (granary/code_cache.cc) answers, and what it leaves in the code cache.

use mathlib.Core.List.{◌∷◌}
use granary.CodeCache.{
  free_last_block, free_last_stub, free_last_fragment, remove_basic_block_info, discard_basic_block,
  State, Environment, Translation, Event, logged,
}
use granary.CodeMap.{CodeMap}
use granary.Common.{
  ℕ, suc, ◌≡◌, ◌≢◌, refl, ap, sym, ◌∙◌, ◌⊎◌, Bool, true, false, not, Option, some, none, ◌==◌,
  ◌>>=◌, inl, inr, Option-cases, ==-true, ==-false, if_true, if_false, some_inj, eq-cases,
}
use granary.HashTable.Store.{written}
use granary.HashTable.Valid.{or_default}
use granary.Probe.Slots.{kept}

pub bind {ℓ κ} :
    {A : Type ℓ} {B : Type κ} (o : Option A) (a : A) (f : A → Option B)
    → o ≡ some a
    → (o >>= f) ≡ f a
bind {A = A} o a f e = ap (λ (p : Option A). p >>= f) e

kept_ne : (update : Bool) (v : ℕ) (o : Option ℕ) → v ≢ 0 → o ≢ some 0 → kept update v o ≢ 0
kept_ne update v none v0 o0 = v0
kept_ne true v (some old) v0 o0 = v0
kept_ne false v (some old) v0 o0 = λ e. o0 (ap some e)

pub kept_true : (v : ℕ) (o : Option ℕ) → kept true v o ≡ v
kept_true v none = refl
kept_true v (some old) = refl

module _ {T : Type 0} (c : CodeMap T) where
  -- No address is mapped to null.
  abbrev pub NoNull : T → Type 0
  NoNull t = (q : ℕ) → q ≢ 0 → c.view t q ≢ some 0

  pub load-hit :
      (n : ℕ) (t : T) (k v : ℕ)
      → c.Fits n t
      → k ≢ 0
      → v ≢ 0
      → c.view t k ≡ some v
      → c.load t k ≡ some (true, v)
  load-hit n t k v f key v0 e =
      c.load_view n t k f key
      ∙ (λ i. some (not (0 == or_default (e i)), or_default (e i)))
      ∙ ap (λ (b : Bool). some (not b, v)) (==-false 0 v (λ z. v0 (sym z)))

  pub load-miss :
      (n : ℕ) (t : T) (k : ℕ)
      → c.Fits n t
      → k ≢ 0
      → c.view t k ≡ none
      → c.load t k ≡ some (false, 0)
  load-miss n t k f key e =
      c.load_view n t k f key ∙ (λ i. some (not (0 == or_default (e i)), or_default (e i)))

  -- A store of an address that is not null.
  pub record Stored (n : ℕ) (t : T) (k v : ℕ) (update : Bool) (t' : T) : Type 0 where
    pub stores : c.store t k v update ≡ some (written update (c.view t k), t')
    pub fits : c.Fits n t'
    pub no_null : NoNull t'
    pub maps : c.view t' k ≡ some (kept update v (c.view t k))

  pub stored :
      (n : ℕ) (t : T) (k v : ℕ) (update : Bool)
      → c.Fits (suc n) t
      → NoNull t
      → k ≢ 0
      → v ≢ 0
      → (t' : T) × Stored n t k v update t'
  stored n t k v update f sound key v0 =
      let s = c.store_view n t k v update f key in
      (
        s.0,
        record {
          stores = s.1;
          fits = s.2;
          no_null = λ q q0 null. elim (eq-cases q k) [
            | inl e ↦
                kept_ne update v (c.view t k) v0 (sound k key)
                  (some_inj _ 0 (sym (s.3 q q0 ∙ if_true (q == k) _ _ (==-true q k e)) ∙ null))
            | inr ne ↦ sound q q0 (sym (s.3 q q0 ∙ if_false (q == k) _ _ (==-false q k ne)) ∙ null)
          ];
          maps = s.3 k key ∙ if_true (k == k) _ _ (==-true k k refl);
        },
      )

  -- What a step leaves: an address that is not null, and a code cache without nulls that has room
  -- for `n` more stores.
  pub record Left (n : ℕ) (r : ℕ) (st : State T) : Type 0 where
    pub real : r ≢ 0
    pub fits : c.Fits n st.cache
    pub no_null : NoNull st.cache

  module _ (env : Environment T) where
    pub load_target-some :
        (n : ℕ) (t : T) (k v : ℕ)
        → c.Fits n t
        → k ≢ 0
        → c.view t k ≡ some v
        → granary.CodeCache.load_target c env t k ≡ some v
    load_target-some n t k v f key e =
        bind _ _ (λ r. some r.1) (c.load_view n t k f key)
        ∙ ap (λ (o : Option ℕ). some (or_default o)) e

    -- Over a valid code cache without null translations and with room for one more entry, and for
    -- addresses that are not null: where the translator or another processor has stored an entry
    -- for the address meanwhile, a single basic block gives way to it. That entry stays and is the
    -- answer, and the client, the basic block information and the three allocators are told to
    -- drop the new block.
    pub add_block-race :
        (n base target old : ℕ) (st : State T)
        → c.Fits (suc n) st.cache
        → NoNull st.cache
        → base ≢ 0
        → target ≢ 0
        → c.view st.cache base ≡ some old
        → (st' : State T) × (granary.CodeCache.add_block c env base target st ≡ some (old, st'))
          × Left n old st'
          × (c.view st'.cache base ≡ some old)
          × (st'.log
              ≡ free_last_block
                ∷ free_last_stub
                ∷ free_last_fragment
                ∷ remove_basic_block_info target
                ∷ discard_basic_block target
                ∷ st.log)
    unfolding granary.CodeCache.add_block
    add_block-race n base target old st f sound key real e =
        let w = stored n st.cache base target false f sound key real in
        let maps : c.view w.0 base ≡ some old =
          (w.1).maps ∙ ap (λ (o : Option ℕ). some (kept false target o)) e in
        (
          _,
          bind _ _ _ ((w.1).stores ∙ ap (λ (o : Option ℕ). some (written false o, w.0)) e)
              ∙ bind _ _ _ (load_target-some n w.0 base old (w.1).fits key maps),
          record {
            real = λ z. sound base key (e ∙ ap some z);
            fits = (w.1).fits;
            no_null = (w.1).no_null;
          },
          maps,
          refl,
        )

    pub add_block-Left :
        (n base target : ℕ) (st : State T)
        → c.Fits (suc n) st.cache
        → NoNull st.cache
        → base ≢ 0
        → target ≢ 0
        → (r : ℕ) × (st' : State T) × (granary.CodeCache.add_block c env base target st
            ≡ some (r, st'))
          × Left n r st'
          × (c.view st'.cache base ≡ some r)
    unfolding granary.CodeCache.add_block
    add_block-Left n base target st f sound key real =
        let w = stored n st.cache base target false f sound key real in
        elim (Option-cases (c.view st.cache base)) [
          | inl new ↦ (
            target,
            _,
            bind _ _ _ ((w.1).stores ∙ ap (λ (o : Option ℕ). some (written false o, w.0)) new),
            record { real = real; fits = (w.1).fits; no_null = (w.1).no_null },
            (w.1).maps ∙ ap (λ (o : Option ℕ). some (kept false target o)) new,
          )
          | inr (old, e) ↦
              let a = add_block-race n base target old st f sound key real e in
              (old, a.0, a.1, a.2, a.3)
        ]

    pub add_trace-Left :
        (n base target : ℕ) (st : State T)
        → c.Fits (suc n) st.cache
        → NoNull st.cache
        → base ≢ 0
        → target ≢ 0
        → (r : ℕ) × (st' : State T) × (granary.CodeCache.add_trace c env base target st
            ≡ some (r, st'))
          × Left n r st'
          × (c.view st'.cache base ≡ some r)
    unfolding granary.CodeCache.add_trace
    add_trace-Left n base target st f sound key real =
        let w = stored n st.cache base target true f sound key real in
        (
          target,
          _,
          bind _ _ _ (w.1).stores,
          record { real = real; fits = (w.1).fits; no_null = (w.1).no_null },
          (w.1).maps ∙ ap some (kept_true target (c.view st.cache base)),
        )

    pub add_exit_stub-Left :
        (n addr target : ℕ) (st : State T)
        → c.Fits (suc n) st.cache
        → NoNull st.cache
        → addr ≢ 0
        → env.ibl_exit_routine addr target ≢ 0
        → (r : ℕ) × (st' : State T) × (granary.CodeCache.add_exit_stub c env addr target st
            ≡ some (r, st'))
          × Left n r st'
          × (c.view st'.cache addr ≡ some r)
          × (((c.view st.cache addr ≡ none) × (r ≡ env.ibl_exit_routine addr target))
              ⊎ (c.view st.cache addr ≡ some r))
    unfolding granary.CodeCache.add_exit_stub
    add_exit_stub-Left n addr target st f sound key real =
        let stub = env.ibl_exit_routine addr target in
        let w = stored n st.cache addr stub false f sound key real in
        elim (Option-cases (c.view st.cache addr)) [
          | inl new ↦ (
            stub,
            _,
            bind _ _ _ ((w.1).stores ∙ ap (λ (o : Option ℕ). some (written false o, w.0)) new),
            record { real = real; fits = (w.1).fits; no_null = (w.1).no_null },
            (w.1).maps ∙ ap (λ (o : Option ℕ). some (kept false stub o)) new,
            inl (new, refl),
          )
          | inr (old, e) ↦
              let maps : c.view w.0 addr ≡ some old =
                (w.1).maps ∙ ap (λ (o : Option ℕ). some (kept false stub o)) e in
              (
                old,
                _,
                bind _ _ _ ((w.1).stores ∙ ap (λ (o : Option ℕ). some (written false o, w.0)) e)
                    ∙ bind _ _ _ (load_target-some n w.0 addr old (w.1).fits key maps),
                record {
                  real = λ z. sound addr key (e ∙ ap some z);
                  fits = (w.1).fits;
                  no_null = (w.1).no_null;
                },
                maps,
                inr e,
              )
        ]
