-- ===== src/LinkedList/Insert.antt =====
-- Each insertion into a doubly linked list (granary/list.h) keeps the links right.
use granary.Common.Words.{u32}
use granary.Common.{
  Each, Each_left, Each_right, length, length-append, update_at, update_off, ℕ, suc, ◌+◌, ◌^◌, ◌<◌,
  ◌≤◌, ◌≡◌, ◌≢◌, refl, sym, ap, ◌∙◌, List, [], ◌∷◌, ◌++◌, arith, false, Bool-cases, ◌||◌, leb, ◌==◌,
  if◌then◌else◌, if_true, if_false, ==-true, ==-false, inl, inr,
}
use granary.LinkedList.Links.{
  append-nil, first_or, last_or, last_or-append, Linked, Each_last, Each_first, append-Linked_parts,
}
use granary.LinkedList.Splice.{IsList, IsNew, Spliced, splice-IsList}
use granary.LinkedList.{
  LinkedList, append_item, prepend_item, chain, insert_item_before, insert_item_after,
}
use mathlib.Core.Path.{subst}
use granary.LinkedList.Around.{updates-Around, swapped-Around, if-Around}

counted :
    (item other n : ℕ) → n + 2 < 2 ^ 32 → (if u32 (suc n + 1) == 1 then item else other) ≡ other
counted item other n small =
    if_false (u32 (suc n + 1) == 1) _ _ (==-false _ _ (λ e. omega (arith, e, small)))

pub append_item-IsList :
    (item : ℕ) (s : LinkedList) (xs cs : List ℕ)
    → IsList s xs cs
    → IsNew item xs cs
    → length xs + 1 < 2 ^ 32
    → IsList (append_item item s) (xs ++ item ∷ []) cs
unfolding append_item
append_item-IsList item s xs cs v n small =
    let before = Each_last (λ x. x ≢ item) 0 xs (λ e. n.real (sym e)) n.out in
    let next = if-Around s.next item 0 s.last (λ e. before (sym v.last_is ∙ e)) in
    splice-IsList s (append_item item s) xs [] cs item
      (subst (λ ys. IsList s ys cs) (sym (append-nil xs)) v)
      (subst (λ ys. IsNew item ys cs) (sym (append-nil xs)) n)
      (subst (λ ys. length ys + 1 < 2 ^ 32) (sym (append-nil xs)) small)
      (subst (λ b. Spliced s (append_item item s) b item 0) v.last_is
        (record {
          prev_item = update_at s.prev item s.last;
          next_item = next.at_item;
          next_before = next.at_beside;
          prev_after = λ ne. absurd (ne refl);
          next_else = next.elsewhere;
          prev_else = λ x ne _. update_off s.prev item s.last x ne;
          cache_is = refl;
          length_is = refl;
        }))
      (first xs v.first_is v.length_is small) refl
  where
    first :
        (xs : List ℕ)
        → s.first ≡ first_or 0 xs
        → s.length ≡ length xs
        → length xs + 1 < 2 ^ 32
        → (if u32 (s.length + 1) == 1 then item else s.first) ≡ first_or item xs
    first [] e e' small = if_true (u32 (s.length + 1) == 1) _ _ (ground (arith, e'))
    first (x ∷ xs) e e' small =
        ap (λ l. if u32 (l + 1) == 1 then item else s.first) e'
        ∙ counted item s.first (length xs) (omega (arith, small))
        ∙ e

pub prepend_item-IsList :
    (item : ℕ) (s : LinkedList) (xs cs : List ℕ)
    → IsList s xs cs
    → IsNew item xs cs
    → length xs + 1 < 2 ^ 32
    → IsList (prepend_item item s) (item ∷ xs) cs
unfolding prepend_item
prepend_item-IsList item s xs cs v n small =
    let after = Each_first (λ x. x ≢ item) 0 xs (λ e. n.real (sym e)) n.out in
    let prev = if-Around s.prev item 0 s.first (λ e. after (sym v.first_is ∙ e)) in
    splice-IsList s (prepend_item item s) [] xs cs item v n small
      (subst (λ a. Spliced s (prepend_item item s) 0 item a) v.first_is
        (record {
          prev_item = prev.at_item;
          next_item = update_at s.next item s.first;
          next_before = λ ne. absurd (ne refl);
          prev_after = prev.at_beside;
          next_else = λ x ne _. update_off s.next item s.first x ne;
          prev_else = prev.elsewhere;
          cache_is = refl;
          length_is = refl;
        }))
      refl (last xs v.last_is v.length_is small)
  where
    last :
        (xs : List ℕ)
        → s.last ≡ last_or 0 xs
        → s.length ≡ length xs
        → length xs + 1 < 2 ^ 32
        → (if u32 (s.length + 1) == 1 then item else s.last) ≡ last_or item xs
    last [] e e' small = if_true (u32 (s.length + 1) == 1) _ _ (ground (arith, e'))
    last (x ∷ xs) e e' small =
        ap (λ l. if u32 (l + 1) == 1 then item else s.last) e'
        ∙ counted item s.last (length xs) (omega (arith, small))
        ∙ e

two_items : (n pos : ℕ) → 2 ≤ n → pos ≢ 0 → (leb n 1 || (pos == 0)) ≡ false
two_items n pos many real = ground arith

-- The handle of the first item of a part of the list, and what stands in front of it.
before_lem :
    (s : LinkedList) (ys zs cs : List ℕ) (pos : ℕ)
    → IsList s (ys ++ pos ∷ zs) cs
    → (s.prev pos ≡ last_or 0 ys) × (pos ≢ 0) × Each (λ x. x ≢ 0) ys
before_lem s ys zs cs pos v = (
  (append-Linked_parts s.prev s.next 0 ys (pos ∷ zs) 0 v.linked).1.0,
  (Each_right _ ys (pos ∷ zs) v.items).0,
  Each_left _ ys (pos ∷ zs) v.items,
)

-- The handle of the last item of a part of the list, and what stands behind it.
after_lem :
    (s : LinkedList) (y : ℕ) (ys zs cs : List ℕ)
    → IsList s (y ∷ ys ++ zs) cs
    → (s.next (last_or y ys) ≡ first_or 0 zs) × (last_or y ys ≢ 0) × Each (λ x. x ≢ 0) zs
after_lem s y ys zs cs v = (
  behind s.prev s.next 0 y ys (first_or 0 zs)
      (append-Linked_parts s.prev s.next 0 (y ∷ ys) zs 0 v.linked).0,
  Each_last (λ x. x ≢ 0) y ys v.items.0 (Each_left _ ys zs v.items.1),
  Each_right _ (y ∷ ys) zs v.items,
)
  where
    behind :
        (f g : ℕ → ℕ) (p y : ℕ) (ys : List ℕ) (n : ℕ)
        → Linked f g p (y ∷ ys) n
        → g (last_or y ys) ≡ n
    behind f g p y [] n l = l.1
    behind f g p y (x ∷ ys) n l = behind f g y x ys n l.2

pub chain-IsList :
    (item : ℕ) (s : LinkedList) (y z : ℕ) (ys zs cs : List ℕ)
    → IsList s (y ∷ ys ++ z ∷ zs) cs
    → IsNew item (y ∷ ys ++ z ∷ zs) cs
    → length (y ∷ ys ++ z ∷ zs) + 1 < 2 ^ 32
    → IsList (chain (last_or y ys) item z s) (y ∷ ys ++ item ∷ z ∷ zs) cs
unfolding chain
chain-IsList item s y z ys zs cs v n small =
    let b = last_or y ys in
    let before = Each_last (λ x. x ≢ item) y ys n.out.0 (Each_left _ ys (z ∷ zs) n.out.1) in
    let after = (Each_right _ (y ∷ ys) (z ∷ zs) n.out).0 in
    let next = swapped-Around s.next item z b before in
    let prev = updates-Around s.prev item b z after in
    splice-IsList s (chain b item z s) (y ∷ ys) (z ∷ zs) cs item v n small
      (record {
        prev_item = prev.at_item;
        next_item = next.at_item;
        next_before = next.at_beside;
        prev_after = prev.at_beside;
        next_else = next.elsewhere;
        prev_else = prev.elsewhere;
        cache_is = refl;
        length_is = refl;
      })
      v.first_is (v.last_is ∙ last_or-append 0 (y ∷ ys) (z ∷ zs))

pub insert_item_before-IsList :
    (item : ℕ) (s : LinkedList) (ys zs cs : List ℕ) (pos : ℕ)
    → IsList s (ys ++ pos ∷ zs) cs
    → IsNew item (ys ++ pos ∷ zs) cs
    → length (ys ++ pos ∷ zs) + 1 < 2 ^ 32
    → IsList (insert_item_before pos item s) (ys ++ item ∷ pos ∷ zs) cs
unfolding insert_item_before
insert_item_before-IsList item s [] zs cs pos v n small =
    let p = before_lem s [] zs cs pos v in
    subst (λ t. IsList t (item ∷ pos ∷ zs) cs)
      (elim (Bool-cases (leb s.length 1 || (pos == 0))) [
        | inl few ↦ sym (if_true (leb s.length 1 || (pos == 0)) _ _ few)
        | inr many ↦ sym (
            if_false (leb s.length 1 || (pos == 0)) _ _ many
            ∙ if_true (s.prev pos == 0) _ _ (==-true _ _ p.0))
      ])
      (prepend_item-IsList item s (pos ∷ zs) cs v n small)
insert_item_before-IsList item s (y ∷ ys) zs cs pos v n small =
    let p = before_lem s (y ∷ ys) zs cs pos v in
    let real = Each_last (λ x. x ≢ 0) y ys p.2.0 p.2.1 in
    let many : (leb s.length 1 || (pos == 0)) ≡ false =
      two_items s.length pos (omega (arith, v.length_is, length-append ys (pos ∷ zs))) p.1 in
    subst (λ t. IsList t (y ∷ ys ++ item ∷ pos ∷ zs) cs)
      (sym (
        if_false (leb s.length 1 || (pos == 0)) _ _ many
        ∙ if_false (s.prev pos == 0) _ _ (==-false _ _ (λ e. real (sym p.0 ∙ e)))
        ∙ ap (λ b. chain b item pos s) p.0))
      (chain-IsList item s y pos ys zs cs v n small)

pub insert_item_after-IsList :
    (item : ℕ) (s : LinkedList) (y : ℕ) (ys zs cs : List ℕ)
    → IsList s (y ∷ ys ++ zs) cs
    → IsNew item (y ∷ ys ++ zs) cs
    → length (y ∷ ys ++ zs) + 1 < 2 ^ 32
    → IsList (insert_item_after (last_or y ys) item s) (y ∷ ys ++ item ∷ zs) cs
unfolding insert_item_after
insert_item_after-IsList item s y ys [] cs v n small =
    let pos = last_or y ys in
    let p = after_lem s y ys [] cs v in
    subst (λ t. IsList t (y ∷ ys ++ item ∷ []) cs)
      (elim (Bool-cases (leb s.length 1 || (pos == 0))) [
        | inl few ↦ sym (if_true (leb s.length 1 || (pos == 0)) _ _ few)
        | inr many ↦ sym (
            if_false (leb s.length 1 || (pos == 0)) _ _ many
            ∙ if_true (s.next pos == 0) _ _ (==-true _ _ p.0))
      ])
      (append_item-IsList item s (y ∷ ys) cs (subst (λ xs. IsList s xs cs) (append-nil (y ∷ ys)) v)
        (subst (λ xs. IsNew item xs cs) (append-nil (y ∷ ys)) n)
        (subst (λ xs. length xs + 1 < 2 ^ 32) (append-nil (y ∷ ys)) small))
insert_item_after-IsList item s y ys (z ∷ zs) cs v n small =
    let pos = last_or y ys in
    let p = after_lem s y ys (z ∷ zs) cs v in
    let many : (leb s.length 1 || (pos == 0)) ≡ false =
      two_items s.length pos (omega (arith, v.length_is, length-append ys (z ∷ zs))) p.1 in
    subst (λ t. IsList t (y ∷ ys ++ item ∷ z ∷ zs) cs)
      (sym (
        if_false (leb s.length 1 || (pos == 0)) _ _ many
        ∙ if_false (s.next pos == 0) _ _ (==-false _ _ (λ e. p.2.0 (sym p.0 ∙ e)))
        ∙ ap (λ a. chain pos item a s) p.0))
      (chain-IsList item s y z ys zs cs v n small)
