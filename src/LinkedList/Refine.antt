-- ===== src/LinkedList/Refine.antt =====
-- The operations on doubly linked lists (granary/list.h) do to the values what they should.
use granary.Common.{
  Each, Each_map, Each_left, Each_right, length, length-append, ℕ, zero, suc, ◌+◌, ◌-◌, ◌^◌, ◌<◌,
  ◌≤◌, ◌≡◌, ◌≢◌, ◌⊎◌, refl, sym, ap, ◌∙◌, List, [], ◌∷◌, ◌++◌, arith, Bool, true, false, ◌||◌, leb,
  ltb, ◌==◌, if◌then◌else◌, if_true, if_false, ==-true, inl, inr, lt→ltb, le→ltb,
}
use granary.LinkedList.Insert.{
  append_item-IsList, prepend_item-IsList, insert_item_before-IsList, insert_item_after-IsList,
}
use granary.LinkedList.Items.{Got, allocate_item-Got}
use granary.LinkedList.Links.{append-nil, append_assoc, last_or, last_or-append}
use granary.LinkedList.Remove.{remove-IsList, clear_for_reuse-IsList}
use granary.LinkedList.Splice.{IsList, IsNew}
use granary.LinkedList.{
  LinkedList, append_item, prepend_item, chain, insert_item_before, insert_item_after, append,
  prepend, insert_before, insert_after, remove, pop,
}
use mathlib.Core.Path.{subst}
use granary.LinkedList.Spec.{
  Op, appends, prepends, inserts_before, inserts_after, removes, pops, clears, run, insert_at,
  remove_at, specified, values, Holds,
}
use granary.LinkedList.Values.{
  values-append, length-values, values_kept, insert_at-append, remove_at-append, Place, handle_lem,
}

-- What an insertion leaves, where the item that it used is known.
inserted :
    (s s' t : LinkedList) (v item : ℕ) (xs ys zs : List ℕ) (g : Got s v item t xs)
    → xs ≡ ys ++ zs
    → IsList s' (ys ++ item ∷ zs) g.cs
    → s'.value ≡ t.value
    → Holds s' (values s.value ys ++ v ∷ values s.value zs)
inserted s s' t v item xs ys zs g split l e =
    let kept =
      Each_map _ _ (ys ++ zs) (λ x ne. ap (λ f. f x) e ∙ g.unwritten x ne)
        (subst (Each (λ x. x ≢ item)) split (g.new).out) in
    record {
      items = ys ++ item ∷ zs;
      cached = g.cs;
      list = l;
      holds =
          values-append s'.value ys (item ∷ zs)
          ∙ ap (λ vs. vs ++ s'.value item ∷ values s'.value zs)
              (values_kept s'.value s.value ys (Each_left _ ys zs kept))
          ∙ ap (λ x. values s.value ys ++ x ∷ values s'.value zs) (ap (λ f. f item) e ∙ g.written)
          ∙ ap (λ vs. values s.value ys ++ v ∷ vs)
              (values_kept s'.value s.value zs (Each_right _ ys zs kept));
    }

-- No insertion writes a value.
value_if :
    (b : Bool) (s t : LinkedList) (f : ℕ → ℕ)
    → s.value ≡ f
    → t.value ≡ f
    → (if b then s else t).value ≡ f
value_if true s t f e e' = e
value_if false s t f e e' = e'

value-insert_item_before :
    (pos item : ℕ) (s : LinkedList) → (insert_item_before pos item s).value ≡ s.value
unfolding insert_item_before prepend_item chain
value-insert_item_before pos item s =
    value_if (leb s.length 1 || (pos == 0)) _ _ s.value refl
      (value_if (s.prev pos == 0) _ _ s.value refl refl)

value-insert_item_after :
    (pos item : ℕ) (s : LinkedList) → (insert_item_after pos item s).value ≡ s.value
unfolding insert_item_after append_item chain
value-insert_item_after pos item s =
    value_if (leb s.length 1 || (pos == 0)) _ _ s.value refl
      (value_if (s.next pos == 0) _ _ s.value refl refl)

value-remove : (item : ℕ) (s : LinkedList) → (remove item s).value ≡ s.value
unfolding remove
value-remove item s = value_if (item == 0) s _ s.value refl refl

or_null : (b : Bool) (pos : ℕ) → pos ≡ 0 → (b || (pos == 0)) ≡ true
or_null true pos e = refl
or_null false pos e = ==-true pos 0 e

insert_item_after-place :
    (item : ℕ) (s : LinkedList) (ys zs cs : List ℕ) (pos : ℕ)
    → IsList s (ys ++ pos ∷ zs) cs
    → IsNew item (ys ++ pos ∷ zs) cs
    → length (ys ++ pos ∷ zs) + 1 < 2 ^ 32
    → IsList (insert_item_after pos item s) (ys ++ pos ∷ item ∷ zs) cs
insert_item_after-place item s [] zs cs pos v n small =
    insert_item_after-IsList item s pos [] zs cs v n small
insert_item_after-place item s (y ∷ ys) zs cs pos v n small =
    let same = append_assoc (y ∷ ys) pos in
    subst (λ p. IsList (insert_item_after p item s) (y ∷ ys ++ pos ∷ item ∷ zs) cs)
      (last_or-append y ys (pos ∷ []))
      (subst (λ xs. IsList (insert_item_after (last_or y (ys ++ pos ∷ [])) item s) xs cs)
        (same (item ∷ zs))
        (insert_item_after-IsList item s y (ys ++ pos ∷ []) zs cs
          (subst (λ xs. IsList s xs cs) (sym (same zs)) v)
          (subst (λ xs. IsNew item xs cs) (sym (same zs)) n)
          (subst (λ xs. length xs + 1 < 2 ^ 32) (sym (same zs)) small)))

-- Insertions at either end, and in front of or behind an item.
insert_end :
    (v item : ℕ) (s t : LinkedList) (xs : List ℕ)
    → Got s v item t xs
    → length xs + 1 < 2 ^ 32
    → Holds (append_item item t) (values s.value xs ++ v ∷ [])
unfolding append_item
insert_end v item s t xs g small =
    inserted s (append_item item t) t v item xs xs [] g (sym (append-nil xs))
      (append_item-IsList item t xs g.cs g.list g.new small) refl

insert_start :
    (v item : ℕ) (s t : LinkedList) (xs : List ℕ)
    → Got s v item t xs
    → length xs + 1 < 2 ^ 32
    → Holds (prepend_item item t) (v ∷ values s.value xs)
unfolding prepend_item
insert_start v item s t xs g small =
    inserted s (prepend_item item t) t v item xs [] xs g refl
      (prepend_item-IsList item t xs g.cs g.list g.new small) refl

values_at :
    (f : ℕ → ℕ) (xs ys zs : List ℕ) (k pos : ℕ)
    → xs ≡ ys ++ pos ∷ zs
    → length ys ≡ k
    → (ltb k (length (values f xs)) ≡ true)
      × (values f xs ≡ values f ys ++ f pos ∷ values f zs)
      × (length (values f ys) ≡ k)
values_at f xs ys zs k pos split place = (
  lt→ltb k _
      (omega (arith, ap length split, length-append ys (pos ∷ zs), place, length-values f xs)),
  ap (values f) split ∙ values-append f ys (pos ∷ zs),
  length-values f ys ∙ place,
)

insert_front :
    (k v item pos : ℕ) (s t : LinkedList) (xs : List ℕ)
    → Got s v item t xs
    → length xs + 1 < 2 ^ 32
    → Place xs k pos ⊎ ((length xs ≤ k) × (pos ≡ 0))
    → Holds (insert_item_before pos item t) (specified (inserts_before k v) (values s.value xs))
unfolding specified insert_item_before
insert_front k v item pos s t xs g small (inl q) =
    let f = values_at s.value xs q.before q.after k pos q.split q.place in
    subst (Holds (insert_item_before pos item t))
      (sym (
        if_true (ltb k (length (values s.value xs))) _ _ f.0
        ∙ ap (insert_at k v) f.1
        ∙ ap (λ n. insert_at n v (values s.value q.before ++ s.value pos ∷ values s.value q.after))
            (sym f.2)
        ∙ insert_at-append (values s.value q.before) (s.value pos ∷ values s.value q.after) v))
      (inserted s (insert_item_before pos item t) t v item xs q.before (pos ∷ q.after) g q.split
        (insert_item_before-IsList item t q.before q.after g.cs pos
          (subst (λ ys. IsList t ys g.cs) q.split g.list)
          (subst (λ ys. IsNew item ys g.cs) q.split g.new)
          (subst (λ ys. length ys + 1 < 2 ^ 32) q.split small))
        (value-insert_item_before pos item t))
insert_front k v item pos s t xs g small (inr q) =
    subst (Holds (insert_item_before pos item t))
      (sym (
        if_false (ltb k (length (values s.value xs))) _ _
          (le→ltb k _ (omega (arith, q.0, length-values s.value xs)))))
      (subst (λ u. Holds u (v ∷ values s.value xs))
        (sym (if_true (leb t.length 1 || (pos == 0)) _ _ (or_null _ pos q.1)))
        (insert_start v item s t xs g small))

insert_behind :
    (k v item pos : ℕ) (s t : LinkedList) (xs : List ℕ)
    → Got s v item t xs
    → length xs + 1 < 2 ^ 32
    → Place xs k pos ⊎ ((length xs ≤ k) × (pos ≡ 0))
    → Holds (insert_item_after pos item t) (specified (inserts_after k v) (values s.value xs))
unfolding specified insert_item_after
insert_behind k v item pos s t xs g small (inl q) =
    let f = values_at s.value xs q.before q.after k pos q.split q.place in
    let ys = values s.value q.before in
    let zs = values s.value q.after in
    let same = append_assoc q.before pos in
    let old = append_assoc ys (s.value pos) in
    let behind : suc k ≡ length (ys ++ s.value pos ∷ []) =
      omega (arith, f.2, length-append ys (s.value pos ∷ [])) in
    subst (Holds (insert_item_after pos item t))
      (sym (
        if_true (ltb k (length (values s.value xs))) _ _ f.0
        ∙ ap (insert_at (suc k) v) (f.1 ∙ sym (old zs))
        ∙ ap (λ n. insert_at n v ((ys ++ s.value pos ∷ []) ++ zs)) behind
        ∙ insert_at-append (ys ++ s.value pos ∷ []) zs v))
      (subst (λ vs. Holds (insert_item_after pos item t) (vs ++ v ∷ zs))
        (values-append s.value q.before (pos ∷ []))
        (inserted s (insert_item_after pos item t) t v item xs (q.before ++ pos ∷ []) q.after g
          (q.split ∙ sym (same q.after))
          (subst (λ us. IsList (insert_item_after pos item t) us g.cs) (sym (same (item ∷ q.after)))
            (insert_item_after-place item t q.before q.after g.cs pos
              (subst (λ us. IsList t us g.cs) q.split g.list)
              (subst (λ us. IsNew item us g.cs) q.split g.new)
              (subst (λ us. length us + 1 < 2 ^ 32) q.split small)))
          (value-insert_item_after pos item t)))
insert_behind k v item pos s t xs g small (inr q) =
    subst (Holds (insert_item_after pos item t))
      (sym (
        if_false (ltb k (length (values s.value xs))) _ _
          (le→ltb k _ (omega (arith, q.0, length-values s.value xs)))))
      (subst (λ u. Holds u (values s.value xs ++ v ∷ []))
        (sym (if_true (leb t.length 1 || (pos == 0)) _ _ (or_null _ pos q.1)))
        (insert_end v item s t xs g small))

-- A removal, also by a handle that is not valid.
remove-Place :
    (k pos : ℕ) (s : LinkedList) (xs cs : List ℕ)
    → IsList s xs cs
    → length xs + 1 < 2 ^ 32
    → Place xs k pos ⊎ ((length xs ≤ k) × (pos ≡ 0))
    → Holds (remove pos s) (remove_at k (values s.value xs))
unfolding remove
remove-Place k pos s xs cs v small (inl q) =
    let f = values_at s.value xs q.before q.after k pos q.split q.place in
    record {
      items = q.before ++ q.after;
      cached = cs;
      list =
          remove-IsList pos s q.before q.after cs (subst (λ ys. IsList s ys cs) q.split v)
            (subst (λ ys. length ys < 2 ^ 32) q.split (omega (arith, small)));
      holds =
          ap (λ g. values g (q.before ++ q.after)) (value-remove pos s)
          ∙ values-append s.value q.before q.after
          ∙ sym (remove_at-append (values s.value q.before) (values s.value q.after) (s.value pos))
          ∙ ap (λ n. remove_at n (values s.value q.before ++ s.value pos ∷ values s.value q.after))
              f.2
          ∙ ap (remove_at k) (sym f.1);
    }
remove-Place k pos s xs cs v small (inr q) =
    subst (λ t. Holds t (remove_at k (values s.value xs)))
      (sym (if_true (pos == 0) _ _ (==-true pos 0 q.1)))
      (record {
        items = xs;
        cached = cs;
        list = v;
        holds = sym (nothing k (values s.value xs) (omega (arith, q.0, length-values s.value xs)));
      })
  where
    nothing : (k : ℕ) (xs : List ℕ) → length xs ≤ k → remove_at k xs ≡ xs
    nothing k [] le = refl
    nothing zero (x ∷ xs) le = absurd (omega (arith, le))
    nothing (suc k) (x ∷ xs) le = ap (λ ys. x ∷ ys) (nothing k xs (omega (arith, le)))

last-Place : (x : ℕ) (xs : List ℕ) → Place (x ∷ xs) (length xs) (last_or x xs)
last-Place x [] = record { before = []; after = []; split = refl; place = refl }
last-Place x (y ∷ xs) =
    let q = last-Place y xs in
    record {
      before = x ∷ q.before;
      after = q.after;
      split = ap (λ ys. x ∷ ys) q.split;
      place = ap suc q.place;
    }

pop_place :
    (s : LinkedList) (xs cs : List ℕ)
    → IsList s xs cs
    → length xs + 1 < 2 ^ 32
    → Holds (remove s.last s) (remove_at (length (values s.value xs) - 1) (values s.value xs))
pop_place s [] cs v small = remove-Place 0 s.last s [] cs v small (inr (omega arith, v.last_is))
pop_place s (x ∷ xs) cs v small =
    subst (λ n. Holds (remove s.last s) (remove_at n (values s.value (x ∷ xs))))
      (omega (arith, length-values s.value xs))
      (remove-Place (length xs) s.last s (x ∷ xs) cs v small
        (inl (subst (Place (x ∷ xs) (length xs)) (sym v.last_is) (last-Place x xs))))

-- A doubly linked list implements a list of values. Every operation, on the items that handles reach,
-- with handles beyond the end included, leaves a well-formed list whose values are the ones that the
-- operation on the list of values gives; where a fresh item is neither in the list nor in its cache,
-- and the length stays below 2 ^ 32.
pub run-Holds :
    (fresh : ℕ) (op : Op) (s : LinkedList) (xs cs : List ℕ)
    → IsList s xs cs
    → IsNew fresh xs cs
    → length xs + 1 < 2 ^ 32
    → Holds (run fresh op s) (specified op (values s.value xs))
unfolding run append prepend insert_before insert_after pop specified
run-Holds fresh (appends v) s xs cs l n small =
    insert_end v _ s _ xs (allocate_item-Got fresh v s xs cs l n) small
run-Holds fresh (prepends v) s xs cs l n small =
    insert_start v _ s _ xs (allocate_item-Got fresh v s xs cs l n) small
run-Holds fresh (inserts_before k v) s xs cs l n small =
    insert_front k v _ _ s _ xs (allocate_item-Got fresh v s xs cs l n) small
      (handle_lem s xs cs k l)
run-Holds fresh (inserts_after k v) s xs cs l n small =
    insert_behind k v _ _ s _ xs (allocate_item-Got fresh v s xs cs l n) small
      (handle_lem s xs cs k l)
run-Holds fresh (removes k) s xs cs l n small =
    remove-Place k _ s xs cs l small (handle_lem s xs cs k l)
run-Holds fresh pops s xs cs l n small = pop_place s xs cs l small
run-Holds fresh clears s xs cs l n small = record {
  items = [];
  cached = xs ++ cs;
  list = clear_for_reuse-IsList s xs cs l;
  holds = refl;
}
