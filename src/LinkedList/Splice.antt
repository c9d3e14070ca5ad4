-- ===== src/LinkedList/Splice.antt =====
-- The invariant of a doubly linked list (granary/list.h), and an item put between two others or
-- taken out.
use granary.Common.Words.{u32}
use granary.Common.{
  Chain, framed-Chain, Each, Apart, Each_map, Each_both, Each_left, Each_right, Each_insert,
  Each_delete, insert-Apart, delete-Apart, append-Apart_parts, length, length-append, ℕ, ◌+◌, ◌-◌,
  ◌^◌, ◌<◌, ◌≡◌, ◌≢◌, sym, ap, ◌∙◌, List, [], ◌∷◌, ◌++◌, arith,
}
use granary.LinkedList.Links.{
  first_or, last_or, Linked, first_or-append, last_or-append, last_or_again, first_or_again,
  Each_last, Each_first, append-Linked_parts, Linked-append, retargeted-Linked, resourced-Linked,
}
use granary.LinkedList.{LinkedList}
use mathlib.Core.Path.{subst}

-- The items in order, and those that are cached.
pub record IsList (s : LinkedList) (xs cs : List ℕ) : Type 0 where
  pub first_is : s.first ≡ first_or 0 xs
  pub last_is : s.last ≡ last_or 0 xs
  pub length_is : s.length ≡ length xs
  pub linked : Linked s.prev s.next 0 xs 0
  pub apart : Apart xs
  pub items : Each (λ x. x ≢ 0) xs
  pub cached : Chain s.next s.cache cs
  pub cache_apart : Apart cs
  pub cross : Each (λ x. Each (λ c. c ≢ x) cs) xs

-- An item in neither of them.
pub record IsNew (item : ℕ) (xs cs : List ℕ) : Type 0 where
  pub real : item ≢ 0
  pub out : Each (λ x. x ≢ item) xs
  pub uncached : Each (λ c. c ≢ item) cs

-- The links around an item that is put between two others, or of which there is none where 0 stands.
pub record Spliced (s s' : LinkedList) (b item a : ℕ) : Type 0 where
  pub prev_item : s'.prev item ≡ b
  pub next_item : s'.next item ≡ a
  pub next_before : b ≢ 0 → s'.next b ≡ item
  pub prev_after : a ≢ 0 → s'.prev a ≡ item
  pub next_else : (x : ℕ) → x ≢ item → x ≢ b → s'.next x ≡ s.next x
  pub prev_else : (x : ℕ) → x ≢ item → x ≢ a → s'.prev x ≡ s.prev x
  pub cache_is : s'.cache ≡ s.cache
  pub length_is : s'.length ≡ u32 (s.length + 1)

-- What is known of the two parts of a list.
record Parts (ys zs cs : List ℕ) : Type 0 where
  pub left : Each (λ y. (y ≢ 0) × (y ≢ first_or 0 zs)) ys
  pub right : Each (λ z. (z ≢ 0) × (z ≢ last_or 0 ys)) zs
  pub kept : Each (λ c. c ≢ last_or 0 ys) cs
  pub left_apart : Apart ys
  pub right_apart : Apart zs

parts_lem :
    (f : ℕ → ℕ) (head : ℕ) (ys zs cs : List ℕ)
    → Chain f head cs
    → Apart (ys ++ zs)
    → Each (λ x. x ≢ 0) (ys ++ zs)
    → Each (λ x. Each (λ c. c ≢ x) cs) (ys ++ zs)
    → Parts ys zs cs
parts_lem f head ys zs cs cached apart items cross =
    let p = append-Apart_parts ys zs apart in
    let real_left = Each_left (λ x. x ≢ 0) ys zs items in
    let real_right = Each_right (λ x. x ≢ 0) ys zs items in
    record {
      left = Each_both _ _ ys real_left (
          Each_map _ _ ys
            (λ y e.
              Each_first (λ z. y ≢ z) 0 zs e.0 (Each_map _ _ zs (λ z ne same. ne (sym same)) e.1))
            (Each_both _ _ ys real_left p.2));
      right =
          Each_both _ _ zs real_right (Each_last (λ y. Each (λ z. z ≢ y) zs) 0 ys real_right p.2);
      kept =
          Each_last (λ y. Each (λ c. c ≢ y) cs) 0 ys (nonnull f head cs cached)
            (Each_left _ ys zs cross);
      left_apart = p.0;
      right_apart = p.1;
    }
  where
    nonnull : (f : ℕ → ℕ) (head : ℕ) (cs : List ℕ) → Chain f head cs → Each (λ c. c ≢ 0) cs
    nonnull f head [] c = tt
    nonnull f head (x ∷ cs) c = (c.1, nonnull f (f x) cs c.2)

pub splice-IsList :
    (s s' : LinkedList) (ys zs cs : List ℕ) (item : ℕ)
    → IsList s (ys ++ zs) cs
    → IsNew item (ys ++ zs) cs
    → length (ys ++ zs) + 1 < 2 ^ 32
    → Spliced s s' (last_or 0 ys) item (first_or 0 zs)
    → s'.first ≡ first_or item ys
    → s'.last ≡ last_or item zs
    → IsList s' (ys ++ item ∷ zs) cs
splice-IsList s s' ys zs cs item v n small w first last =
    let b = last_or 0 ys in
    let a = first_or 0 zs in
    let p = parts_lem s.next s.cache ys zs cs v.cached v.apart v.items v.cross in
    let halves = append-Linked_parts s.prev s.next 0 ys zs 0 v.linked in
    let left = Each_both _ _ ys (Each_left _ ys zs n.out) p.left in
    let right = Each_both _ _ zs (Each_right _ ys zs n.out) p.right in
    record {
      first_is = first ∙ sym (first_or-append 0 ys (item ∷ zs));
      last_is = last ∙ sym (last_or-append 0 ys (item ∷ zs));
      length_is =
          w.length_is
          ∙ omega (arith, v.length_is, small, length-append ys zs, length-append ys (item ∷ zs));
      linked =
          Linked-append s'.prev s'.next 0 ys (item ∷ zs) 0
            (retargeted-Linked s.prev s'.prev s.next s'.next 0 ys a item b (last_or_again 0 ys)
              p.left_apart (Each_map _ _ ys (λ y e. w.prev_else y e.0 e.1.1) left)
              (Each_map _ _ ys (λ y e ne. w.next_else y e.0 ne) left)
              (Each_map _ _ ys
                (λ y e same. ap s'.next same ∙ w.next_before (λ null. e.1.0 (same ∙ null))) left)
              halves.0)
            (
              w.prev_item,
              w.next_item,
              resourced-Linked s.prev s'.prev s.next s'.next b item zs 0 a (first_or_again 0 zs)
                  p.right_apart (Each_map _ _ zs (λ z e. w.next_else z e.0 e.1.1) right)
                  (Each_map _ _ zs (λ z e ne. w.prev_else z e.0 ne) right)
                  (Each_map _ _ zs
                    (λ z e same. ap s'.prev same ∙ w.prev_after (λ null. e.1.0 (same ∙ null)))
                    right)
                  halves.1,
            );
      apart = insert-Apart ys zs item n.out v.apart;
      items = Each_insert (λ x. x ≢ 0) ys zs item n.real v.items;
      cached =
          subst (λ h. Chain s'.next h cs) (sym w.cache_is)
            (framed-Chain s.next s'.next s.cache cs
              (Each_map _ _ cs (λ c e. w.next_else c e.0 e.1) (Each_both _ _ cs n.uncached p.kept))
              v.cached);
      cache_apart = v.cache_apart;
      cross = Each_insert (λ x. Each (λ c. c ≢ x) cs) ys zs item n.uncached v.cross;
    }

-- The links around an item that is taken out from between two others.
pub record Bridged (s s' : LinkedList) (b a : ℕ) : Type 0 where
  pub next_before : b ≢ 0 → s'.next b ≡ a
  pub prev_after : a ≢ 0 → s'.prev a ≡ b
  pub next_else : (x : ℕ) → x ≢ b → s'.next x ≡ s.next x
  pub prev_else : (x : ℕ) → x ≢ a → s'.prev x ≡ s.prev x
  pub cache_is : s'.cache ≡ s.cache
  pub length_is : s'.length ≡ u32 (s.length + 2 ^ 32 - 1)

pub bridge-IsList :
    (s s' : LinkedList) (ys zs cs : List ℕ) (item : ℕ)
    → IsList s (ys ++ item ∷ zs) cs
    → length (ys ++ item ∷ zs) < 2 ^ 32
    → Bridged s s' (last_or 0 ys) (first_or 0 zs)
    → s'.first ≡ first_or (first_or 0 zs) ys
    → s'.last ≡ last_or (last_or 0 ys) zs
    → IsList s' (ys ++ zs) cs
bridge-IsList s s' ys zs cs item v small w first last =
    let b = last_or 0 ys in
    let a = first_or 0 zs in
    let d = delete-Apart ys zs item v.apart in
    let items = (Each_delete (λ x. x ≢ 0) ys zs item v.items).1 in
    let cross = (Each_delete (λ x. Each (λ c. c ≢ x) cs) ys zs item v.cross).1 in
    let p = parts_lem s.next s.cache ys zs cs v.cached d.0 items cross in
    let halves = append-Linked_parts s.prev s.next 0 ys (item ∷ zs) 0 v.linked in
    record {
      first_is = first ∙ sym (first_or-append 0 ys zs);
      last_is = last ∙ sym (last_or-append 0 ys zs);
      length_is =
          w.length_is
          ∙ omega (arith, v.length_is, small, length-append ys zs, length-append ys (item ∷ zs));
      linked =
          Linked-append s'.prev s'.next 0 ys zs 0
            (retargeted-Linked s.prev s'.prev s.next s'.next 0 ys item a b (last_or_again 0 ys)
              p.left_apart (Each_map _ _ ys (λ y e. w.prev_else y e.1) p.left)
              (Each_map _ _ ys (λ y e ne. w.next_else y ne) p.left)
              (Each_map _ _ ys
                (λ y e same. ap s'.next same ∙ w.next_before (λ null. e.0 (same ∙ null))) p.left)
              halves.0)
            (resourced-Linked s.prev s'.prev s.next s'.next item b zs 0 a (first_or_again 0 zs)
              p.right_apart (Each_map _ _ zs (λ z e. w.next_else z e.1) p.right)
              (Each_map _ _ zs (λ z e ne. w.prev_else z ne) p.right)
              (Each_map _ _ zs
                (λ z e same. ap s'.prev same ∙ w.prev_after (λ null. e.0 (same ∙ null))) p.right)
              halves.1.2);
      apart = d.0;
      items = items;
      cached =
          subst (λ h. Chain s'.next h cs) (sym w.cache_is)
            (framed-Chain s.next s'.next s.cache cs (Each_map _ _ cs w.next_else p.kept) v.cached);
      cache_apart = v.cache_apart;
      cross = cross;
    }
