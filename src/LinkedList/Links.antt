-- ===== src/LinkedList/Links.antt =====
-- The links of a doubly linked list (granary/list.h) as a list of items.
use granary.Common.{
  Each, Apart, Each_map, Each_both, ℕ, ◌≡◌, ◌≢◌, refl, sym, ap, ◌∙◌, List, [], ◌∷◌, ◌++◌,
}

abbrev pub first_or : ℕ → List ℕ → ℕ
first_or d [] = d
first_or d (x ∷ xs) = x

abbrev pub last_or : ℕ → List ℕ → ℕ
last_or d [] = d
last_or d (x ∷ xs) = last_or x xs

-- Items between one that comes before them and one that comes after.
abbrev pub Linked : (ℕ → ℕ) → (ℕ → ℕ) → ℕ → List ℕ → ℕ → Type 0
Linked prev next p [] n = Unit {0}
Linked prev next p (x ∷ xs) n = (prev x ≡ p) × (next x ≡ first_or n xs) × Linked prev next x xs n

pub append-nil : (xs : List ℕ) → xs ++ [] ≡ xs
append-nil [] = refl
append-nil (x ∷ xs) = ap (λ ys. x ∷ ys) (append-nil xs)

pub append_assoc : (xs : List ℕ) (y : ℕ) (ys : List ℕ) → (xs ++ y ∷ []) ++ ys ≡ xs ++ y ∷ ys
append_assoc [] y ys = refl
append_assoc (x ∷ xs) y ys = ap (λ zs. x ∷ zs) (append_assoc xs y ys)

pub first_or-append : (d : ℕ) (xs ys : List ℕ) → first_or d (xs ++ ys) ≡ first_or (first_or d ys) xs
first_or-append d [] ys = refl
first_or-append d (x ∷ xs) ys = refl

pub last_or-append : (d : ℕ) (xs ys : List ℕ) → last_or d (xs ++ ys) ≡ last_or (last_or d xs) ys
last_or-append d [] ys = refl
last_or-append d (x ∷ xs) ys = last_or-append x xs ys

pub last_or_again : (d : ℕ) (xs : List ℕ) → last_or (last_or d xs) xs ≡ last_or d xs
last_or_again d [] = refl
last_or_again d (x ∷ xs) = refl

pub first_or_again : (d : ℕ) (xs : List ℕ) → first_or (first_or d xs) xs ≡ first_or d xs
first_or_again d [] = refl
first_or_again d (x ∷ xs) = refl

pub Each_last : (P : ℕ → Type 0) (d : ℕ) (xs : List ℕ) → P d → Each P xs → P (last_or d xs)
Each_last P d [] p e = p
Each_last P d (x ∷ xs) p e = Each_last P x xs e.0 e.1

pub Each_first : (P : ℕ → Type 0) (d : ℕ) (xs : List ℕ) → P d → Each P xs → P (first_or d xs)
Each_first P d [] p e = p
Each_first P d (x ∷ xs) p e = e.0

pub append-Linked_parts :
    (f g : ℕ → ℕ) (p : ℕ) (xs ys : List ℕ) (n : ℕ)
    → Linked f g p (xs ++ ys) n
    → Linked f g p xs (first_or n ys) × Linked f g (last_or p xs) ys n
append-Linked_parts f g p [] ys n l = (tt, l)
append-Linked_parts f g p (x ∷ xs) ys n l =
    let rest = append-Linked_parts f g x xs ys n l.2 in
    ((l.0, l.1 ∙ first_or-append n xs ys, rest.0), rest.1)

pub Linked-append :
    (f g : ℕ → ℕ) (p : ℕ) (xs ys : List ℕ) (n : ℕ)
    → Linked f g p xs (first_or n ys)
    → Linked f g (last_or p xs) ys n
    → Linked f g p (xs ++ ys) n
Linked-append f g p [] ys n l r = r
Linked-append f g p (x ∷ xs) ys n l r =
    (l.0, l.1 ∙ sym (first_or-append n xs ys), Linked-append f g x xs ys n l.2 r)

pub framed-Linked :
    (f f' g g' : ℕ → ℕ) (p : ℕ) (xs : List ℕ) (n : ℕ)
    → Each (λ x. f' x ≡ f x) xs
    → Each (λ x. g' x ≡ g x) xs
    → Linked f g p xs n
    → Linked f' g' p xs n
framed-Linked f f' g g' p [] n e e' l = tt
framed-Linked f f' g g' p (x ∷ xs) n e e' l =
    (e.0 ∙ l.0, e'.0 ∙ l.1, framed-Linked f f' g g' x xs n e.1 e'.1 l.2)

-- Another item behind the last one.
pub retargeted-Linked :
    (f f' g g' : ℕ → ℕ) (p : ℕ) (xs : List ℕ) (n n' b : ℕ)
    → last_or b xs ≡ b
    → Apart xs
    → Each (λ x. f' x ≡ f x) xs
    → Each (λ x. x ≢ b → g' x ≡ g x) xs
    → Each (λ x. x ≡ b → g' x ≡ n') xs
    → Linked f g p xs n
    → Linked f' g' p xs n'
retargeted-Linked f f' g g' p [] n n' b last a e keep new l = tt
retargeted-Linked f f' g g' p (x ∷ []) n n' b last a e keep new l = (e.0 ∙ l.0, new.0 last, tt)
retargeted-Linked f f' g g' p (x ∷ y ∷ xs) n n' b last a e keep new l = (
  e.0 ∙ l.0,
  keep.0 (λ same. Each_last (λ z. z ≢ x) y xs a.0.0 a.0.1 (last ∙ sym same)) ∙ l.1,
  retargeted-Linked f f' g g' x (y ∷ xs) n n' b last a.1 e.1 keep.1 new.1 l.2,
)

-- Another item in front of the first one.
pub resourced-Linked :
    (f f' g g' : ℕ → ℕ) (p p' : ℕ) (xs : List ℕ) (n a : ℕ)
    → first_or a xs ≡ a
    → Apart xs
    → Each (λ x. g' x ≡ g x) xs
    → Each (λ x. x ≢ a → f' x ≡ f x) xs
    → Each (λ x. x ≡ a → f' x ≡ p') xs
    → Linked f g p xs n
    → Linked f' g' p' xs n
resourced-Linked f f' g g' p p' [] n a first d e keep new l = tt
resourced-Linked f f' g g' p p' (x ∷ xs) n a first d e keep new l = (
  new.0 first,
  e.0 ∙ l.1,
  framed-Linked f f' g g' x xs n
      (Each_map _ _ xs (λ y h. h.0 (λ same. h.1 (same ∙ sym first))) (Each_both _ _ xs keep.1 d.0))
      e.1 l.2,
)
