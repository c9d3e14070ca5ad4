-- ===== src/LinkedList/Spec.antt =====
-- Doubly linked lists (granary/list.h) as their users see them: a list of values. A user names an
-- item by a handle, which is found by so many calls of `next`.
use granary.Common.{length, ℕ, zero, suc, ◌-◌, ◌≡◌, List, [], ◌∷◌, ◌++◌, ltb, if◌then◌else◌}
use granary.LinkedList.Splice.{IsList}
use granary.LinkedList.{
  LinkedList, append, prepend, insert_before, insert_after, remove, pop, clear_for_reuse, nth_from,
}

pub data Op : Type 0 where
  appends prepends : ℕ → Op
  inserts_before inserts_after : ℕ → ℕ → Op
  removes : ℕ → Op
  pops clears : Op

unfoldable pub run : ℕ → Op → LinkedList → LinkedList
unfolding append prepend insert_before insert_after remove pop clear_for_reuse
run fresh (appends v) s = append fresh v s
run fresh (prepends v) s = prepend fresh v s
run fresh (inserts_before k v) s = insert_before (nth_from s.next k s.first) fresh v s
run fresh (inserts_after k v) s = insert_after (nth_from s.next k s.first) fresh v s
run fresh (removes k) s = remove (nth_from s.next k s.first) s
run fresh pops s = (pop s).1
run fresh clears s = clear_for_reuse s

-- The same on a list of values.
abbrev pub insert_at : ℕ → ℕ → List ℕ → List ℕ
insert_at zero v xs = v ∷ xs
insert_at (suc k) v [] = v ∷ []
insert_at (suc k) v (x ∷ xs) = x ∷ insert_at k v xs

abbrev pub remove_at : ℕ → List ℕ → List ℕ
remove_at k [] = []
remove_at zero (x ∷ xs) = xs
remove_at (suc k) (x ∷ xs) = x ∷ remove_at k xs

unfoldable pub specified : Op → List ℕ → List ℕ
specified (appends v) xs = xs ++ v ∷ []
specified (prepends v) xs = v ∷ xs
specified (inserts_before k v) xs = if ltb k (length xs) then insert_at k v xs else v ∷ xs
specified (inserts_after k v) xs =
    if ltb k (length xs) then insert_at (suc k) v xs else xs ++ v ∷ []
specified (removes k) xs = remove_at k xs
specified pops xs = remove_at (length xs - 1) xs
specified clears xs = []

abbrev pub values : (ℕ → ℕ) → List ℕ → List ℕ
values f [] = []
values f (x ∷ xs) = f x ∷ values f xs

-- What an operation leaves: a list with these values.
pub record Holds (s : LinkedList) (vs : List ℕ) : Type 0 where
  pub items : List ℕ
  pub cached : List ℕ
  pub list : IsList s items cached
  pub holds : values s.value items ≡ vs
