-- ===== src/LinkedList/Remove.antt =====
-- Taking items out of a doubly linked list (granary/list.h) keeps the links right.
use granary.Common.Words.{u32}
use granary.Common.{
  Chain, framed-Chain, Each, Apart, Each_map, Each-append, Each_left, Each_right, length, update,
  update_at, update_off, ℕ, ◌+◌, ◌-◌, ◌^◌, ◌<◌, ◌≡◌, ◌≢◌, refl, sym, ap, ◌∙◌, List, [], ◌∷◌, ◌++◌,
  Bool-cases, ◌==◌, if◌then◌else◌, if_true, if_false, ==-true, ==-false, inl, inr,
}
use granary.LinkedList.Links.{
  first_or, last_or, last_or-append, Linked, Each_last, append-Linked_parts,
}
use granary.LinkedList.Splice.{IsList, Bridged, bridge-IsList}
use granary.LinkedList.{LinkedList, remove, clear_for_reuse}
use mathlib.Core.Path.{subst}

-- The links between two items when the item between them is taken out.
bridged : (f : ℕ → ℕ) (at to : ℕ) (x : ℕ) → x ≢ at → (if at == 0 then f else update f at to) x ≡ f x
bridged f at to x ne = elim (Bool-cases (at == 0)) [
  | inl null ↦ ap (λ g. g x) (if_true (at == 0) f (update f at to) null)
  | inr real ↦ ap (λ g. g x) (if_false (at == 0) f (update f at to) real) ∙ update_off f at to x ne
]

bridged_at : (f : ℕ → ℕ) (at to : ℕ) → at ≢ 0 → (if at == 0 then f else update f at to) at ≡ to
bridged_at f at to ne =
    ap (λ g. g at) (if_false (at == 0) f (update f at to) (==-false at 0 ne)) ∙ update_at f at to

removed : ℕ → LinkedList → LinkedList
removed item s = record s {
  last = if s.next item == 0 then s.prev item else s.last;
  prev = if s.next item == 0 then s.prev else update s.prev (s.next item) (s.prev item);
  first = if s.prev item == 0 then s.next item else s.first;
  next = if s.prev item == 0 then s.next else update s.next (s.prev item) (s.next item);
  length = u32 (s.length + 2 ^ 32 - 1);
}

pub remove-IsList :
    (item : ℕ) (s : LinkedList) (ys zs cs : List ℕ)
    → IsList s (ys ++ item ∷ zs) cs
    → length (ys ++ item ∷ zs) < 2 ^ 32
    → IsList (remove item s) (ys ++ zs) cs
unfolding remove removed
remove-IsList item s ys zs cs v small =
    let here = (append-Linked_parts s.prev s.next 0 ys (item ∷ zs) 0 v.linked).1 in
    let items = Each_right (λ x. x ≢ 0) ys (item ∷ zs) v.items in
    let before = Each_left (λ x. x ≢ 0) ys (item ∷ zs) v.items in
    subst (λ t. IsList t (ys ++ zs) cs)
      (sym (if_false (item == 0) s (removed item s) (==-false item 0 items.0)))
      (bridge-IsList s (removed item s) ys zs cs item v small
        (subst (λ b. Bridged s (removed item s) b (first_or 0 zs)) here.0
          (subst (Bridged s (removed item s) (s.prev item)) here.1 (record {
            next_before = bridged_at s.next (s.prev item) (s.next item);
            prev_after = bridged_at s.prev (s.next item) (s.prev item);
            next_else = bridged s.next (s.prev item) (s.next item);
            prev_else = bridged s.prev (s.next item) (s.prev item);
            cache_is = refl;
            length_is = refl;
          })))
        (first ys before here.0 here.1 v.first_is)
        (last zs items.1 here.1 here.0 (v.last_is ∙ last_or-append 0 ys (item ∷ zs))))
  where
    first :
        (ys : List ℕ)
        → Each (λ x. x ≢ 0) ys
        → s.prev item ≡ last_or 0 ys
        → s.next item ≡ first_or 0 zs
        → s.first ≡ first_or 0 (ys ++ item ∷ zs)
        → (if s.prev item == 0 then s.next item else s.first) ≡ first_or (first_or 0 zs) ys
    first [] real e e' e'' = if_true (s.prev item == 0) _ _ (==-true _ _ e) ∙ e'
    first (y ∷ ys) real e e' e'' =
        if_false (s.prev item == 0) _ _
          (==-false _ _ (λ null. Each_last (λ x. x ≢ 0) y ys real.0 real.1 (sym e ∙ null)))
        ∙ e''

    last :
        (zs : List ℕ)
        → Each (λ x. x ≢ 0) zs
        → s.next item ≡ first_or 0 zs
        → s.prev item ≡ last_or 0 ys
        → s.last ≡ last_or item zs
        → (if s.next item == 0 then s.prev item else s.last) ≡ last_or (last_or 0 ys) zs
    last [] real e e' e'' = if_true (s.next item == 0) _ _ (==-true _ _ e) ∙ e'
    last (z ∷ zs) real e e' e'' =
        if_false (s.next item == 0) _ _ (==-false _ _ (λ null. real.0 (sym e ∙ null))) ∙ e''

-- The items in front of the cached ones.
cached_all :
    (f g g' : ℕ → ℕ) (p x : ℕ) (xs cs : List ℕ) (c b : ℕ)
    → Linked f g p (x ∷ xs) 0
    → last_or x xs ≡ b
    → g' b ≡ c
    → Each (λ y. y ≢ b → g' y ≡ g y) (x ∷ xs)
    → Apart (x ∷ xs)
    → Each (λ y. y ≢ 0) (x ∷ xs)
    → Chain g' c cs
    → Chain g' x (x ∷ xs ++ cs)
cached_all f g g' p x [] cs c b l last to keep a real chained =
    (refl, real.0, subst (λ h. Chain g' h cs) (sym (ap g' last ∙ to)) chained)
cached_all f g g' p x (y ∷ xs) cs c b l last to keep a real chained = (
  refl,
  real.0,
  subst (λ h. Chain g' h (y ∷ xs ++ cs))
      (sym (keep.0 (λ same. Each_last (λ z. z ≢ x) y xs a.0.0 a.0.1 (last ∙ sym same)) ∙ l.1))
      (cached_all f g g' x y xs cs c b l.2 last to keep.1 a.1 real.1 chained),
)

Apart-append :
    (xs cs : List ℕ) → Apart xs → Apart cs → Each (λ x. Each (λ c. c ≢ x) cs) xs → Apart (xs ++ cs)
Apart-append [] cs a a' e = a'
Apart-append (x ∷ xs) cs a a' e = (Each-append _ xs cs a.0 e.0, Apart-append xs cs a.1 a' e.1)

-- With the items all cached, the list is empty.
pub clear_for_reuse-IsList :
    (s : LinkedList) (xs cs : List ℕ) → IsList s xs cs → IsList (clear_for_reuse s) [] (xs ++ cs)
unfolding clear_for_reuse
clear_for_reuse-IsList s [] cs v =
    subst (λ t. IsList t [] cs) (sym (if_true (s.first == 0) _ _ (==-true _ _ v.first_is))) v
clear_for_reuse-IsList s (x ∷ xs) cs v =
    let next = update s.next s.last s.cache in
    let kept = Each_last (λ y. Each (λ c. c ≢ y) cs) x xs v.cross.0 v.cross.1 in
    subst (λ t. IsList t [] (x ∷ xs ++ cs))
      (sym (if_false (s.first == 0) _ _ (==-false _ _ (λ null. v.items.0 (sym v.first_is ∙ null)))))
      (record {
        first_is = refl;
        last_is = refl;
        length_is = refl;
        linked = tt;
        apart = tt;
        items = tt;
        cached =
            subst (λ h. Chain next h (x ∷ xs ++ cs)) (sym v.first_is)
              (cached_all s.prev s.next next 0 x xs cs s.cache s.last v.linked (sym v.last_is)
                (update_at s.next s.last s.cache)
                (every (λ y. y ≢ s.last → next y ≡ s.next y) (x ∷ xs)
                  (λ y ne. update_off s.next s.last s.cache y ne))
                v.apart v.items
                (framed-Chain s.next next s.cache cs
                  (Each_map _ _ cs
                    (λ c ne. update_off s.next s.last s.cache c (λ e. ne (e ∙ v.last_is))) kept)
                  v.cached));
        cache_apart = Apart-append (x ∷ xs) cs v.apart v.cache_apart v.cross;
        cross = tt;
      })
  where
    every : (P : ℕ → Type 0) (ys : List ℕ) → ((y : ℕ) → P y) → Each P ys
    every P [] h = tt
    every P (y ∷ ys) h = (h y, every P ys h)
