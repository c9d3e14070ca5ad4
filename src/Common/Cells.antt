-- ===== src/Common/Cells.antt =====
-- Functions on addresses or numbers that are changed at one place, and lists of places.
use Prim.Native.Nat.{ℕ}
use granary.Common.Tests.{◌==◌, if◌then◌else◌, eq-cases, ==-true, ==-false, if_true, if_false}
use mathlib.Core.Path.{◌≡◌, refl, sym, ap, subst}
use mathlib.Core.Logic.{◌≢◌, inl, inr}
use mathlib.Core.List.{List, [], ◌∷◌, ◌++◌}

abbrev pub update {ℓ} : {A : Type ℓ} → (ℕ → A) → ℕ → A → ℕ → A
update f i a j = if j == i then a else f j

pub update_at {ℓ} : {A : Type ℓ} (f : ℕ → A) (i : ℕ) (a : A) → update f i a i ≡ a
update_at f i a = if_true (i == i) a (f i) (==-true i i refl)

pub update_off {ℓ} : {A : Type ℓ} (f : ℕ → A) (i : ℕ) (a : A) (j : ℕ) → j ≢ i → update f i a j ≡ f j
update_off f i a j ne = if_false (j == i) a (f j) (==-false j i ne)

-- A property of the value at a place of a changed function.
pub update_one {ℓ} :
    {A : Type ℓ} (P : A → Type 0) (f : ℕ → A) (i : ℕ) (a : A) (j : ℕ)
    → (j ≡ i → P a)
    → (j ≢ i → P (f j))
    → P (update f i a j)
update_one P f i a j new old = elim (eq-cases j i) [
  | inl e ↦ subst P (sym (if_true (j == i) a (f j) (==-true j i e))) (new e)
  | inr ne ↦ subst P (sym (if_false (j == i) a (f j) (==-false j i ne))) (old ne)
]

-- What holds of each member of a list.
abbrev pub Each : (ℕ → Type 0) → List ℕ → Type 0
Each P [] = Unit {0}
Each P (a ∷ xs) = P a × Each P xs

abbrev pub Apart : List ℕ → Type 0
Apart [] = Unit {0}
Apart (a ∷ xs) = Each (λ b. b ≢ a) xs × Apart xs

pub Each_map : (P Q : ℕ → Type 0) (xs : List ℕ) → ((a : ℕ) → P a → Q a) → Each P xs → Each Q xs
Each_map P Q [] f e = tt
Each_map P Q (a ∷ xs) f e = (f a e.0, Each_map P Q xs f e.1)

pub Each_both : (P Q : ℕ → Type 0) (xs : List ℕ) → Each P xs → Each Q xs → Each (λ a. P a × Q a) xs
Each_both P Q [] e e' = tt
Each_both P Q (a ∷ xs) e e' = ((e.0, e'.0), Each_both P Q xs e.1 e'.1)

pub Each-append : (P : ℕ → Type 0) (xs ys : List ℕ) → Each P xs → Each P ys → Each P (xs ++ ys)
Each-append P [] ys e e' = e'
Each-append P (a ∷ xs) ys e e' = (e.0, Each-append P xs ys e.1 e')

pub Each_left : (P : ℕ → Type 0) (xs ys : List ℕ) → Each P (xs ++ ys) → Each P xs
Each_left P [] ys e = tt
Each_left P (a ∷ xs) ys e = (e.0, Each_left P xs ys e.1)

pub Each_right : (P : ℕ → Type 0) (xs ys : List ℕ) → Each P (xs ++ ys) → Each P ys
Each_right P [] ys e = e
Each_right P (a ∷ xs) ys e = Each_right P xs ys e.1

-- A new member at any place of a list without repetitions, and one member less.
pub insert-Apart :
    (xs ys : List ℕ) (a : ℕ)
    → Each (λ b. b ≢ a) (xs ++ ys)
    → Apart (xs ++ ys)
    → Apart (xs ++ a ∷ ys)
insert-Apart [] ys a e p = (e, p)
insert-Apart (x ∷ xs) ys a e p = (
  Each-append _ xs (a ∷ ys) (Each_left _ xs ys p.0)
      ((λ same. e.0 (sym same)), Each_right _ xs ys p.0),
  insert-Apart xs ys a e.1 p.1,
)

pub delete-Apart :
    (xs ys : List ℕ) (a : ℕ)
    → Apart (xs ++ a ∷ ys)
    → Apart (xs ++ ys) × Each (λ b. b ≢ a) (xs ++ ys)
delete-Apart [] ys a p = (p.1, p.0)
delete-Apart (x ∷ xs) ys a p =
    let rest = delete-Apart xs ys a p.1 in
    let tail = Each_right (λ b. b ≢ x) xs (a ∷ ys) p.0 in
    (
      (Each-append _ xs ys (Each_left _ xs (a ∷ ys) p.0) tail.1, rest.0),
      ((λ same. tail.0 (sym same)), rest.1),
    )

-- A list of nonzero places behind a head, as a function links them up to a zero.
abbrev pub Chain : (ℕ → ℕ) → ℕ → List ℕ → Type 0
Chain words head [] = head ≡ 0
Chain words head (a ∷ xs) = (head ≡ a) × (a ≢ 0) × Chain words (words a) xs

-- A change at other places leaves the list.
pub framed-Chain :
    (words words' : ℕ → ℕ) (head : ℕ) (xs : List ℕ)
    → Each (λ a. words' a ≡ words a) xs
    → Chain words head xs
    → Chain words' head xs
framed-Chain words words' head [] e c = c
framed-Chain words words' head (a ∷ xs) e c = (
  c.0,
  c.1,
  framed-Chain words words' (words' a) xs e.1 (subst (λ h. Chain words h xs) (sym e.0) c.2),
)

pub equal-Chain :
    (words : ℕ → ℕ) {head head' : ℕ} {xs xs' : List ℕ}
    → head' ≡ head
    → xs' ≡ xs
    → Chain words head xs
    → Chain words head' xs'
equal-Chain words {head} {head'} {xs} {xs'} e e' c =
    subst (λ w. Chain words w xs') (sym e) (subst (Chain words head) (sym e') c)

-- A head that is no null pointer is the first place.
pub record Popped (words : ℕ → ℕ) (head : ℕ) (xs : List ℕ) : Type 0 where
  pub rest : List ℕ
  pub split : xs ≡ head ∷ rest
  pub chain : Chain words (words head) rest

pub Chain-Popped :
    (words : ℕ → ℕ) (head : ℕ) (xs : List ℕ) → head ≢ 0 → Chain words head xs → Popped words head xs
Chain-Popped words head [] ne c = absurd (ne c)
Chain-Popped words head (a ∷ xs) ne c = record {
  rest = xs;
  split = ap (λ x. x ∷ xs) (sym c.0);
  chain = subst (λ x. Chain words (words x) xs) (sym c.0) c.2;
}

pub Each_insert :
    (P : ℕ → Type 0) (xs ys : List ℕ) (a : ℕ) → P a → Each P (xs ++ ys) → Each P (xs ++ a ∷ ys)
Each_insert P xs ys a p e =
    Each-append P xs (a ∷ ys) (Each_left P xs ys e) (p, Each_right P xs ys e)

pub Each_delete :
    (P : ℕ → Type 0) (xs ys : List ℕ) (a : ℕ) → Each P (xs ++ a ∷ ys) → P a × Each P (xs ++ ys)
Each_delete P xs ys a e =
    let tail = Each_right P xs (a ∷ ys) e in
    (tail.0, Each-append P xs ys (Each_left P xs (a ∷ ys) e) tail.1)

-- The members of the two parts of a list without repetitions.
pub append-Apart_parts :
    (xs ys : List ℕ) → Apart (xs ++ ys) → Apart xs × Apart ys × Each (λ x. Each (λ y. y ≢ x) ys) xs
append-Apart_parts [] ys p = (tt, p, tt)
append-Apart_parts (x ∷ xs) ys p =
    let rest = append-Apart_parts xs ys p.1 in
    ((Each_left _ xs ys p.0, rest.0), rest.1, (Each_right _ xs ys p.0, rest.2))
