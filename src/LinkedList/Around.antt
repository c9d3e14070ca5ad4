-- ===== src/LinkedList/Around.antt =====
-- The links in one direction around an item of a doubly linked list (granary/list.h).
use granary.Common.{
  update, update_at, update_off, ℕ, ◌≡◌, ◌≢◌, sym, ◌∙◌, Bool-cases, ◌==◌, if◌then◌else◌, if_true,
  if_false, inl, inr, eq_of_==,
}
use mathlib.Core.Path.{subst}

-- The links in one direction, around an item and the one beside it.
pub record Around (f f' : ℕ → ℕ) (item to beside : ℕ) : Type 0 where
  pub at_item : f' item ≡ to
  pub at_beside : beside ≢ 0 → f' beside ≡ item
  pub elsewhere : (x : ℕ) → x ≢ item → x ≢ beside → f' x ≡ f x

pub update-Around :
    (f : ℕ → ℕ) (item to beside : ℕ) → beside ≡ 0 → Around f (update f item to) item to beside
update-Around f item to beside null = record {
  at_item = update_at f item to;
  at_beside = λ ne. absurd (ne null);
  elsewhere = λ x ne _. update_off f item to x ne;
}

pub updates-Around :
    (f : ℕ → ℕ) (item to beside : ℕ)
    → beside ≢ item
    → Around f (update (update f item to) beside item) item to beside
updates-Around f item to beside ne = record {
  at_item = update_off (update f item to) beside item item (λ e. ne (sym e)) ∙ update_at f item to;
  at_beside = λ _. update_at (update f item to) beside item;
  elsewhere =
      λ x off off'. update_off (update f item to) beside item x off' ∙ update_off f item to x off;
}

pub swapped-Around :
    (f : ℕ → ℕ) (item to beside : ℕ)
    → beside ≢ item
    → Around f (update (update f beside item) item to) item to beside
swapped-Around f item to beside ne = record {
  at_item = update_at (update f beside item) item to;
  at_beside = λ _. update_off (update f beside item) item to beside ne ∙ update_at f beside item;
  elsewhere = λ x off off'.
      update_off (update f beside item) item to x off ∙ update_off f beside item x off';
}

pub if-Around :
    (f : ℕ → ℕ) (item to beside : ℕ)
    → beside ≢ item
    → Around f
        (if beside == 0 then update f item to else update (update f item to) beside item)
        item
        to
        beside
if-Around f item to beside ne = elim (Bool-cases (beside == 0)) [
  | inl null ↦
      subst (λ f'. Around f f' item to beside) (sym (if_true (beside == 0) _ _ null))
        (update-Around f item to beside (eq_of_== beside 0 null))
  | inr real ↦
      subst (λ f'. Around f f' item to beside) (sym (if_false (beside == 0) _ _ real))
        (updates-Around f item to beside ne)
]
