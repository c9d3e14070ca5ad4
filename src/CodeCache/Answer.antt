-- ===== src/CodeCache/Answer.antt =====
-- `code_cache::find` (granary/code_cache.cc) as a whole.
use granary.CodeCache.{State, Environment, Translation, Event, base_addr, app_target, right_policy}
use granary.CodeCache.Find.{NoNull}
use granary.CodeMap.{CodeMap}
use granary.Common.{ℕ, true, false, none, ◌||◌, ◌≡◌, ◌≢◌, some, ◌⊎◌}
use granary.CodeCache.Resolve.{known_target}
use granary.Policy.{base_policy, is_indirect_cti_target, is_return_target}

module _ {T : Type 0} (c : CodeMap T) (env : Environment T) where
  -- What the translator has to give: an address, and a code cache that is still valid.
  pub record Translates (n : ℕ) (r : Translation T) : Type 0 where
    pub real : r.target ≢ 0
    pub fits : c.Fits n r.cache
    pub no_null : NoNull c r.cache

  abbrev pub translation : ℕ → T → Translation T
  translation addr t =
      env.translator (base_policy (right_policy c env addr)) (app_target c env addr) t

  -- What becomes of the target: a branch through a register or memory, or a return, gets an exit stub
  -- that the code cache has for its own mangled address from then on, either the new one or one that
  -- was there; for any other branch the target is the answer and the code cache is left alone.
  abbrev pub Delivered : ℕ → ℕ → T → ℕ → T → Type 0
  Delivered addr target t r t' =
      ((is_indirect_cti_target (right_policy c env addr)
            || is_return_target (right_policy c env addr)
          ≡ true)
        × (c.view t' addr ≡ some r)
        × (((c.view t addr ≡ none) × (r ≡ env.ibl_exit_routine addr target))
            ⊎ (c.view t addr ≡ some r)))
      ⊎ ((is_indirect_cti_target (right_policy c env addr) ≡ false)
          × (is_return_target (right_policy c env addr) ≡ false)
          × (r ≡ target)
          × (t' ≡ t))

  -- How an answer comes about. `target` is what the branch goes to and `made` the code cache once the
  -- target is there: what needs no translation, with the code cache as it was, or if there is nothing
  -- of the kind a translation that the code cache has under the base address.
  pub record Missed (addr : ℕ) (st : State T) (r : ℕ) (st' : State T) : Type 0 where
    pub new : c.view st.cache addr ≡ none
    pub target : ℕ
    pub made : T
    pub source :
        ((known_target c env addr st.cache ≢ 0)
          × (target ≡ known_target c env addr st.cache)
          × (made ≡ st.cache))
        ⊎ ((known_target c env addr st.cache ≡ 0)
            × (c.view made (base_addr c env addr) ≡ some target))
    pub delivered : Delivered addr target made r st'.cache

  -- An address that the code cache has is answered from there, and nothing changes.
  abbrev pub Answered : ℕ → State T → ℕ → State T → Type 0
  Answered addr st r st' = ((c.view st.cache addr ≡ some r) × (st' ≡ st)) ⊎ Missed addr st r st'
