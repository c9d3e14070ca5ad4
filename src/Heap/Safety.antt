-- ===== src/Heap/Safety.antt =====
-- What the users of the heap (granary/allocator.cc) get is theirs alone.
use granary.Common.{
  update, update_at, update_off, update_one, ℕ, ◌+◌, ◌^◌, ◌≤◌, ◌<◌, ◌≡◌, ◌≢◌, ◌⊎◌, inl, inr, refl,
  sym, ap, ◌∙◌, ◌==◌, ltb, arith, Bool-cases, ==-false, if_false, some, none, [], ltb→le, ltb→lt,
}
use granary.Heap.Invariant.{HeapState}
use granary.Heap.Steps.{
  System, Gives, allocates, faults, frees, writes, Reach, booted, stepped, boot,
}
use granary.Heap.{heap_size, GlobalHeap, scale_of, allocation_size, global_allocate, global_free}
use mathlib.Core.Option.{none-ne-some}
use granary.Heap.Allocate.{Gives-Allocated, faults-HeapState}
use granary.Heap.Free.{global_free_lem, frees-HeapState, writes-HeapState}

boot-HeapState : (heap : ℕ) → HeapState heap boot
boot-HeapState heap = record {
  scales = λ a. none;
  frees = λ k. [];
  valid = record {
    bound = omega arith;
    inside = λ a k e. absurd (none-ne-some k e);
    apart = λ a b j k e. absurd (none-ne-some j e);
    chain = λ k. refl;
    free = λ k. tt;
    distinct = λ k. tt;
    used = λ a size e. absurd (none-ne-some size e);
  };
}

-- Whatever its users do with the memory that they hold, the heap stays well formed: in every state
-- that is reachable the objects lie apart inside of the part of `HEAP` that is cut off, each free
-- list is linked through free objects of its class, once each, and what is in use is not free.
pub Reach-HeapState : (heap : ℕ) (s : System) → 0 < heap → Reach heap s → HeapState heap s
Reach-HeapState heap s pos booted = boot-HeapState heap
Reach-HeapState heap s pos (stepped {s = b} r (allocates size a next small e)) =
    (Gives-Allocated heap size a b next (Reach-HeapState heap b pos r) small e).after
Reach-HeapState heap s pos (stepped {s = b} r (faults size next room e)) =
    faults-HeapState heap (allocation_size size) b next (Reach-HeapState heap b pos r) room e
Reach-HeapState heap s pos (stepped {s = b} r (frees size size' a e same)) =
    frees-HeapState heap size size' a b (Reach-HeapState heap b pos r) pos e same
Reach-HeapState heap s pos (stepped {s = b} r (writes size a words e w)) =
    writes-HeapState heap size a words b (Reach-HeapState heap b pos r) e w

-- An object that is nobody else's.
pub record Fresh (heap size : ℕ) (s : System) (a : ℕ) : Type 0 where
  pub low : heap ≤ a
  pub high : a + size ≤ heap + heap_size
  pub apart : (b z : ℕ) → s.held b ≡ some z → (a + size ≤ b) ⊎ (b + allocation_size z ≤ a)

-- In every state that its users can bring the heap to while `HEAP_INDEX` does not wrap around at
-- 2 ^ 32, which the requests that fault move on too, an allocation that succeeds gives an object
-- inside of `HEAP`, of the whole size of its class, that overlaps none of the objects in use; for
-- requests of at most 2 ^ 63 bytes, and also if the free list that was seen empty has been filled
-- in the meantime.
pub global_allocate-Fresh :
    (heap size a : ℕ) (s : System) (next : GlobalHeap)
    → 0 < heap
    → Reach heap s
    → size ≤ 2 ^ 63
    → Gives heap size s.state a next
    → Fresh heap (allocation_size size) s a
global_allocate-Fresh heap size a s next pos r small e =
    let q = Gives-Allocated heap size a s next (Reach-HeapState heap s pos r) small e in
    let h = q.after in
    let v = h.valid in
    let mine = v.used a size (update_at s.held a (some size)) in
    let place = v.inside a (scale_of size) mine.0 in
    record {
      low = place.0;
      high = omega (arith, place.2, mine.1.size_is);
      apart = λ b z holds.
          let other : b ≢ a =
            λ same. none-ne-some z (sym q.unused ∙ ap s.held (sym same) ∙ holds) in
          let theirs = v.used b z (update_off s.held a (some size) b other ∙ holds) in
          elim (Bool-cases (ltb a b)) [
            | inl t ↦ inl (
                omega (
                  arith,
                  v.apart a b (scale_of size) (scale_of z) mine.0 theirs.0 (ltb→lt a b t),
                  mine.1.size_is,
                ))
            | inr f ↦ inr (
                omega (
                  arith,
                  v.apart b a (scale_of z) (scale_of size) theirs.0 mine.0
                      (omega (arith, ltb→le a b f, other)),
                  theirs.1.size_is,
                ))
          ];
    }

-- Memory that was given back is what the next request of its class gets, and the two calls together
-- leave `HEAP_INDEX`, the heads of all free lists, and every word of memory but the first of the
-- object as they were, so the linked free lists too; in every state that the users of the heap can
-- bring it to while `HEAP_INDEX` does not wrap around.
pub global_free-global_allocate :
    (heap size size' size'' a : ℕ) (s : System)
    → 0 < heap
    → Reach heap s
    → s.held a ≡ some size
    → scale_of size' ≡ scale_of size
    → scale_of size'' ≡ scale_of size
    → (next : GlobalHeap) × (global_allocate heap size'' (global_free heap a size' s.state)
        ≡ (some a, next))
      × (next.heap_index ≡ (s.state).heap_index)
      × ((k : ℕ) → next.heads k ≡ (s.state).heads k)
      × ((p : ℕ) → p ≢ a → next.words p ≡ (s.state).words p)
unfolding global_allocate
global_free-global_allocate heap size size' size'' a s pos r holds same same' =
    let h = Reach-HeapState heap s pos r in
    let n = scale_of size in
    let place = (h.valid).inside a n ((h.valid).used a size holds).0 in
    let heads' = update (s.state).heads n a in
    let words' = update (s.state).words a ((s.state).heads n) in
    let top : heads' (scale_of size'') ≡ a = ap heads' same' ∙ update_at (s.state).heads n a in
    (
      record (s.state) {
        words = words';
        heads = update heads' (scale_of size'') (words' (heads' (scale_of size'')));
      },
      ap (global_allocate heap size'') (global_free_lem heap size size' a s h holds same)
          ∙ if_false (heads' (scale_of size'') == 0) _ _
              (==-false _ _ (λ null. omega (arith, null, top, place.0, pos)))
          ∙ ap
              (λ x. (
                some x,
                record (s.state) {
                  words = words';
                  heads = update heads' (scale_of size'') (words' (heads' (scale_of size'')));
                },
              ))
              top,
      refl,
      λ k.
          update_one (λ x. x ≡ (s.state).heads k) heads' (scale_of size'')
            (words' (heads' (scale_of size''))) k
            (λ e.
              ap words' top
              ∙ update_at (s.state).words a ((s.state).heads n)
              ∙ ap (s.state).heads (sym (e ∙ same')))
            (λ ne. update_off (s.state).heads n a k (λ e. ne (e ∙ sym same'))),
      λ p ne. update_off (s.state).words a ((s.state).heads n) p ne,
    )
