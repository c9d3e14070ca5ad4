-- ===== src/LinkedList/Tests.antt =====
-- Runs of a doubly linked list (granary/list.h) whose fresh items are 10, 20, 30 and so on.
use granary.Common.{ℕ, ◌+◌, ◌≡◌, refl, List, [], ◌∷◌, arith}
use granary.LinkedList.Clear.{clear-released}
use granary.LinkedList.Refine.{run-Holds}
use granary.LinkedList.Spec.{Op, appends, prepends, inserts_after, clears, run, specified, Holds}
use granary.LinkedList.Splice.{IsList}
use granary.LinkedList.{
  LinkedList, no_items, append, prepend, insert_before, insert_after, remove, pop, clear,
  clear_for_reuse, allocate_item, append_item, prepend_item, insert_item_before, insert_item_after,
  chain,
}

abbrev runs : ℕ → List Op → LinkedList → LinkedList
unfolding run append prepend insert_before insert_after remove pop clear_for_reuse allocate_item
    append_item prepend_item insert_item_before insert_item_after chain
runs n [] s = s
runs n (op ∷ ops) s = runs (n + 10) ops (run n op s)

abbrev zeroed : LinkedList
zeroed = no_items (λ x. 0) (λ x. 0) (λ x. 0)

-- Three items, 10 and 20 and 30, are cached, and then two of them are used again.
abbrev reused : LinkedList
reused = runs 10 (appends 1 ∷ appends 2 ∷ appends 3 ∷ clears ∷ appends 4 ∷ prepends 5 ∷ []) zeroed

reused-IsList : IsList reused (20 ∷ 10 ∷ []) (30 ∷ [])
unfolding runs
reused-IsList = record {
  first_is = refl;
  last_is = refl;
  length_is = refl;
  linked = (refl, refl, (refl, refl, tt));
  apart = ((omega arith, tt), (tt, tt));
  items = (omega arith, (omega arith, tt));
  cached = (refl, omega arith, refl);
  cache_apart = (tt, tt);
  cross = ((omega arith, tt), ((omega arith, tt), tt));
}

run-Holds_example : Holds (run 70 (inserts_after 0 6) reused) (5 ∷ 6 ∷ 4 ∷ [])
unfolding specified runs
run-Holds_example =
    run-Holds 70 (inserts_after 0 6) reused (20 ∷ 10 ∷ []) (30 ∷ []) reused-IsList
      (record {
        real = omega arith;
        out = (omega arith, (omega arith, tt));
        uncached = (omega arith, tt);
      })
      (omega arith)

clear-released_example :
    ((clear 2 reused).freed ≡ 20 ∷ 10 ∷ 30 ∷ []) × IsList (clear 2 reused) [] []
unfolding runs
clear-released_example =
    clear-released 2 reused (20 ∷ 10 ∷ []) (30 ∷ []) reused-IsList (omega arith) (omega arith)

-- The items of a list that was cleared for reuse are never freed.
cached_leak : (clear 3 (runs 10 (appends 1 ∷ clears ∷ []) zeroed)).freed ≡ []
unfolding clear runs
cached_leak = refl
