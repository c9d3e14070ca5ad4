-- ===== src/LinkedList/Clear.antt =====
-- What `clear` of a doubly linked list (granary/list.h) frees.
use granary.Common.{
  Chain, Each, length, ℕ, zero, suc, ◌≤◌, ◌≡◌, ◌≢◌, refl, sym, ap, ◌∙◌, List, [], ◌∷◌, ◌++◌, arith,
  ◌==◌, if_true, if_false, ==-true, ==-false,
}
use granary.LinkedList.Links.{append-nil, first_or, Linked}
use granary.LinkedList.Splice.{IsList}
use granary.LinkedList.{LinkedList, clear, free_items}
use mathlib.Core.Path.{subst}

Chain_of :
    (f g : ℕ → ℕ) (p : ℕ) (xs : List ℕ)
    → Linked f g p xs 0
    → Each (λ x. x ≢ 0) xs
    → Chain g (first_or 0 xs) xs
Chain_of f g p [] l e = refl
Chain_of f g p (x ∷ xs) l e =
    (refl, e.0, subst (λ h. Chain g h xs) (sym l.1) (Chain_of f g x xs l.2 e.1))

-- So many rounds as there are items are enough.
free_items_lem :
    (fuel : ℕ) (g : ℕ → ℕ) (head : ℕ) (xs : List ℕ)
    → length xs ≤ fuel
    → Chain g head xs
    → free_items fuel g head ≡ xs
free_items_lem zero g head [] le c = refl
free_items_lem (suc n) g head [] le c = if_true (head == 0) _ _ (==-true _ _ c)
free_items_lem zero g head (x ∷ xs) le c = absurd (omega (arith, le))
free_items_lem (suc n) g head (x ∷ xs) le c =
    if_false (head == 0) _ _ (==-false _ _ (λ e. c.1 (sym c.0 ∙ e)))
    ∙ ap (λ y. y ∷ free_items n g (g head)) c.0
    ∙ ap (λ ys. x ∷ ys)
        (free_items_lem n g (g head) xs (omega (arith, le))
          (subst (λ y. Chain g (g y) xs) (sym c.0) c.2))

-- The items that `clear` gives back, and those that it leaves in the cache.
abbrev pub released : List ℕ → List ℕ → List ℕ
released [] cs = []
released (x ∷ xs) cs = x ∷ xs ++ cs

abbrev pub left_cached : List ℕ → List ℕ → List ℕ
left_cached [] cs = cs
left_cached (x ∷ xs) cs = []

-- `clear` leaves an empty list. Where the list had items it frees each of them once, in their order,
-- and then each cached one; where it had none it frees nothing, and the cached items stay, also
-- when the destructor calls it. As many rounds as there are items are enough.
pub clear-released :
    (fuel : ℕ) (s : LinkedList) (xs cs : List ℕ)
    → IsList s xs cs
    → length xs ≤ fuel
    → length cs ≤ fuel
    → ((clear fuel s).freed ≡ s.freed ++ released xs cs)
      × IsList (clear fuel s) [] (left_cached xs cs)
unfolding clear
clear-released fuel s [] cs v le le' =
    subst (λ t. (t.freed ≡ s.freed ++ []) × IsList t [] cs)
      (sym (if_true (s.first == 0) _ _ (==-true _ _ v.first_is))) (sym (append-nil s.freed), v)
clear-released fuel s (x ∷ xs) cs v le le' =
    subst (λ t. (t.freed ≡ s.freed ++ (x ∷ xs ++ cs)) × IsList t [] [])
      (sym (if_false (s.first == 0) _ _ (==-false _ _ (λ e. v.items.0 (sym v.first_is ∙ e)))))
      (
        ap (λ ys. s.freed ++ (ys ++ free_items fuel s.next s.cache))
              (ap (free_items fuel s.next) v.first_is
                ∙ free_items_lem fuel s.next x (x ∷ xs) le
                    (Chain_of s.prev s.next 0 (x ∷ xs) v.linked v.items))
            ∙ ap (λ ys. s.freed ++ ((x ∷ xs) ++ ys))
                (free_items_lem fuel s.next s.cache cs le' v.cached),
        record {
          first_is = refl;
          last_is = refl;
          length_is = refl;
          linked = tt;
          apart = tt;
          items = tt;
          cached = refl;
          cache_apart = tt;
          cross = tt;
        },
      )
