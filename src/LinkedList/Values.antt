-- ===== src/LinkedList/Values.antt =====
-- The values of a doubly linked list (granary/list.h), and the items that handles reach.
use granary.Common.{
  Each, length, ℕ, zero, suc, ◌≤◌, ◌≡◌, ◌≢◌, ◌⊎◌, refl, sym, ap, ◌∙◌, List, [], ◌∷◌, ◌++◌, arith,
  ◌==◌, if_false, ==-false, inl, inr,
}
use granary.LinkedList.Links.{first_or, Linked}
use granary.LinkedList.Splice.{IsList}
use granary.LinkedList.{LinkedList, nth_from}
use mathlib.Core.Path.{subst}
use granary.LinkedList.Spec.{insert_at, remove_at, values}

pub values-append : (f : ℕ → ℕ) (xs ys : List ℕ) → values f (xs ++ ys) ≡ values f xs ++ values f ys
values-append f [] ys = refl
values-append f (x ∷ xs) ys = ap (λ zs. f x ∷ zs) (values-append f xs ys)

pub length-values : (f : ℕ → ℕ) (xs : List ℕ) → length (values f xs) ≡ length xs
length-values f [] = refl
length-values f (x ∷ xs) = ap suc (length-values f xs)

pub values_kept : (f g : ℕ → ℕ) (xs : List ℕ) → Each (λ x. f x ≡ g x) xs → values f xs ≡ values g xs
values_kept f g [] e = refl
values_kept f g (x ∷ xs) e = rw (e.0, values_kept f g xs e.1) refl

pub insert_at-append : (xs ys : List ℕ) (v : ℕ) → insert_at (length xs) v (xs ++ ys) ≡ xs ++ v ∷ ys
insert_at-append [] ys v = refl
insert_at-append (x ∷ xs) ys v = ap (λ zs. x ∷ zs) (insert_at-append xs ys v)

pub remove_at-append : (xs ys : List ℕ) (x : ℕ) → remove_at (length xs) (xs ++ x ∷ ys) ≡ xs ++ ys
remove_at-append [] ys x = refl
remove_at-append (y ∷ xs) ys x = ap (λ zs. y ∷ zs) (remove_at-append xs ys x)

-- The item at a place, if there is one.
pub record Place (xs : List ℕ) (k pos : ℕ) : Type 0 where
  pub before : List ℕ
  pub after : List ℕ
  pub split : xs ≡ before ++ pos ∷ after
  pub place : length before ≡ k

pub nth_from_lem :
    (f g : ℕ → ℕ) (p k : ℕ) (xs : List ℕ)
    → Linked f g p xs 0
    → Each (λ x. x ≢ 0) xs
    → Place xs k (nth_from g k (first_or 0 xs))
      ⊎ ((length xs ≤ k) × (nth_from g k (first_or 0 xs) ≡ 0))
nth_from_lem f g p zero [] l e = inr (omega arith, refl)
nth_from_lem f g p zero (x ∷ xs) l e =
    inl (record { before = []; after = xs; split = refl; place = refl })
nth_from_lem f g p (suc k) [] l e = inr (omega arith, refl)
nth_from_lem f g p (suc k) (x ∷ xs) l e =
    let further : nth_from g (suc k) x ≡ nth_from g k (first_or 0 xs) =
      if_false (x == 0) _ _ (==-false _ _ e.0) ∙ ap (nth_from g k) l.1 in
    subst (λ h. Place (x ∷ xs) (suc k) h ⊎ ((suc (length xs) ≤ suc k) × (h ≡ 0))) (sym further)
      (elim (nth_from_lem f g x k xs l.2 e.1) [
        | inl q ↦ inl (record {
          before = x ∷ q.before;
          after = q.after;
          split = ap (λ ys. x ∷ ys) q.split;
          place = ap suc q.place;
        })
        | inr q ↦ inr (omega (arith, q.0), q.1)
      ])

pub handle_lem :
    (s : LinkedList) (xs cs : List ℕ) (k : ℕ)
    → IsList s xs cs
    → Place xs k (nth_from s.next k s.first) ⊎ ((length xs ≤ k) × (nth_from s.next k s.first ≡ 0))
handle_lem s xs cs k v =
    subst (λ h. Place xs k (nth_from s.next k h) ⊎ ((length xs ≤ k) × (nth_from s.next k h ≡ 0)))
      (sym v.first_is) (nth_from_lem s.prev s.next 0 k xs v.linked v.items)
