-- ===== src/LinkedList.antt =====
-- Doubly linked lists, granary/list.h. An item is an address; its links and its value are memory.
pub mod Links
pub mod Splice
pub mod Items
pub mod Around
pub mod Insert
pub mod Remove
pub mod Spec
pub mod Values
pub mod Refine
pub mod Clear
mod Tests
use granary.Common.Words.{u32}
use granary.Common.{
  update, ℕ, zero, suc, ◌+◌, ◌-◌, ◌^◌, ◌==◌, Bool, ◌||◌, leb, if◌then◌else◌, List, [], ◌∷◌, ◌++◌,
}

-- A list, the memory of items, and the items that `meta_type::free` got back, in order.
pub record LinkedList : Type 0 where
  pub first : ℕ
  pub last : ℕ
  pub cache : ℕ
  pub length : ℕ
  pub prev : ℕ → ℕ
  pub next : ℕ → ℕ
  pub value : ℕ → ℕ
  pub freed : List ℕ

-- The constructor: an empty list over a memory.
abbrev pub no_items : (ℕ → ℕ) → (ℕ → ℕ) → (ℕ → ℕ) → LinkedList
no_items prev next value = record {
  first = 0;
  last = 0;
  cache = 0;
  length = 0;
  prev = prev;
  next = next;
  value = value;
  freed = [];
}

-- `allocate_`: a cached item, or one that `meta_type::allocate` gives, `fresh`.
unfoldable pub allocate_item : ℕ → ℕ → LinkedList → ℕ × LinkedList
allocate_item fresh val s =
    let ptr = s.cache in
    if ptr == 0 then (fresh, record s { value = update s.value fresh val }) else (
      ptr,
      record s {
        cache = s.next ptr;
        prev = update s.prev ptr 0;
        next = update s.next ptr 0;
        value = update s.value ptr val;
      },
    )

unfoldable pub append_item : ℕ → LinkedList → LinkedList
append_item item s =
    let before = s.last in
    let next = update s.next item 0 in
    let length = u32 (s.length + 1) in
    record s {
      last = item;
      prev = update s.prev item before;
      next = if before == 0 then next else update next before item;
      length = length;
      first = if length == 1 then item else s.first;
    }

unfoldable pub prepend_item : ℕ → LinkedList → LinkedList
prepend_item item s =
    let after = s.first in
    let prev = update s.prev item 0 in
    let length = u32 (s.length + 1) in
    record s {
      first = item;
      next = update s.next item after;
      prev = if after == 0 then prev else update prev after item;
      length = length;
      last = if length == 1 then item else s.last;
    }

unfoldable pub chain : ℕ → ℕ → ℕ → LinkedList → LinkedList
chain before item after s = record s {
  length = u32 (s.length + 1);
  prev = update (update s.prev item before) after item;
  next = update (update s.next before item) item after;
}

unfoldable pub insert_item_before : ℕ → ℕ → LinkedList → LinkedList
unfolding chain prepend_item
insert_item_before after item s =
    if leb s.length 1 || (after == 0)
    then prepend_item item s
    else (let before = s.prev after in
        if before == 0 then prepend_item item s else chain before item after s)

unfoldable pub insert_item_after : ℕ → ℕ → LinkedList → LinkedList
unfolding chain append_item
insert_item_after before item s =
    if leb s.length 1 || (before == 0)
    then append_item item s
    else (let after = s.next before in
        if after == 0 then append_item item s else chain before item after s)

unfoldable pub append : ℕ → ℕ → LinkedList → LinkedList
unfolding allocate_item append_item
append fresh val s = let a = allocate_item fresh val s in append_item a.0 a.1

unfoldable pub prepend : ℕ → ℕ → LinkedList → LinkedList
unfolding allocate_item prepend_item
prepend fresh val s = let a = allocate_item fresh val s in prepend_item a.0 a.1

unfoldable pub insert_before : ℕ → ℕ → ℕ → LinkedList → LinkedList
unfolding allocate_item insert_item_before
insert_before pos fresh val s = let a = allocate_item fresh val s in insert_item_before pos a.0 a.1

unfoldable pub insert_after : ℕ → ℕ → ℕ → LinkedList → LinkedList
unfolding allocate_item insert_item_after
insert_after pos fresh val s = let a = allocate_item fresh val s in insert_item_after pos a.0 a.1

unfoldable pub remove : ℕ → LinkedList → LinkedList
remove item s =
    let prev = s.prev item in
    let next = s.next item in
    if item == 0 then s else record s {
      last = if next == 0 then prev else s.last;
      prev = if next == 0 then s.prev else update s.prev next prev;
      first = if prev == 0 then next else s.first;
      next = if prev == 0 then s.next else update s.next prev next;
      length = u32 (s.length + 2 ^ 32 - 1);
    }

-- The item that `pop` gives, and the list behind it.
unfoldable pub pop : LinkedList → ℕ × LinkedList
unfolding remove
pop s = (s.last, remove s.last s)

unfoldable pub clear_for_reuse : LinkedList → LinkedList
clear_for_reuse s = if s.first == 0 then s else record s {
  next = update s.next s.last s.cache;
  cache = s.first;
  first = 0;
  last = 0;
  length = 0;
}

-- A loop of `clear`, in at most so many rounds: each item is freed, in the order of the links.
abbrev pub free_items : ℕ → (ℕ → ℕ) → ℕ → List ℕ
free_items zero next item = []
free_items (suc n) next item =
    let rest = free_items n next (next item) in if item == 0 then [] else item ∷ rest

-- `fuel` bounds the loops.
unfoldable pub clear : ℕ → LinkedList → LinkedList
clear fuel s = if s.first == 0 then s else record s {
  freed = s.freed ++ (free_items fuel s.next s.first ++ free_items fuel s.next s.cache);
  first = 0;
  last = 0;
  cache = 0;
  length = 0;
}

-- The handle that so many calls of `next` reach from `first`, as long as it is valid.
abbrev pub nth_from : (ℕ → ℕ) → ℕ → ℕ → ℕ
nth_from next zero item = item
nth_from next (suc k) item =
    let further = nth_from next k (next item) in if item == 0 then 0 else further
