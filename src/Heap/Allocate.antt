-- ===== src/Heap/Allocate.antt =====
-- `global_allocate` (granary/allocator.cc) in a heap that is well formed.
use granary.Common.Words.{u32, u64}
use granary.Common.{
  Chain, equal-Chain, Chain-Popped, update, update_at, update_off, update_one, Each, Apart,
  Each_map, Each_both, ℕ, ◌+◌, ◌^◌, ◌≤◌, ◌<◌, ◌≡◌, ◌≢◌, inl, inr, refl, sym, ap, ◌∙◌, ◌==◌, leb,
  arith, eq-cases, Bool-cases, if_true, if_false, Option, some, none, ◌∷◌, some_inj, Option-cases,
}
use granary.Heap.Invariant.{HeapState}
use granary.Heap.Size.{SizeClass, allocation_size_lem}
use granary.Heap.Steps.{System, Gives}
use granary.Heap.{
  heap_size, min_scale, GlobalHeap, scale_of, allocation_size, bump, global_allocate,
}
use mathlib.Core.Path.{subst}
use mathlib.Core.Option.{none-ne-some}
use native.Mathlib.Nat.{one-le-pow}

-- An object of a known class, cut off the front of the heap.
record Bumped (heap size : ℕ) (s : GlobalHeap) (a : ℕ) (next : GlobalHeap) : Type 0 where
  pub at : a ≡ heap + s.heap_index
  pub state : next ≡ record s { heap_index = s.heap_index + size }
  pub fits : s.heap_index + size < heap_size

bump-Bumped :
    (heap size a : ℕ) (s next : GlobalHeap)
    → size ≤ 2 ^ 63
    → s.heap_index < 2 ^ 32
    → bump heap size s ≡ (some a, next)
    → Bumped heap size s a next
unfolding bump
bump-Bumped heap size a s next small bound e =
    let full_test = leb heap_size (u64 (s.heap_index + size)) in
    elim (Bool-cases full_test) [
      | inl full ↦ absurd (none-ne-some a (sym (if_true full_test _ _ full) ∙ ap (λ r. r.0) e))
      | inr room ↦
          let fits : s.heap_index + size < heap_size = ground (arith, room, small, bound) in
          let whole : u32 (s.heap_index + size) ≡ s.heap_index + size = omega (arith, fits) in
          record {
            at = sym (some_inj _ _ (sym (if_false full_test _ _ room) ∙ ap (λ r. r.0) e));
            state = sym (ap (λ r. r.1) e) ∙ ap (λ i. record s { heap_index = i }) whole;
            fits = fits;
          }
    ]

-- A request that faults: `HEAP_INDEX` moves on, and nothing else.
pub faults-HeapState :
    (heap size : ℕ) (s : System) (next : GlobalHeap)
    → HeapState heap s
    → (s.state).heap_index + u32 size < 2 ^ 32
    → bump heap size s.state ≡ (none, next)
    → HeapState heap (record s { state = next })
unfolding bump
faults-HeapState heap size s next h room e =
    let v = h.valid in
    subst (λ t. HeapState heap (record s { state = t })) (ap (λ r. r.1) e)
      (record {
        scales = h.scales;
        frees = h.frees;
        valid = record {
          bound = omega arith;
          inside = λ a k c.
              let place = v.inside a k c in (place.0, omega (arith, place.1, room), place.2);
          apart = v.apart;
          chain = v.chain;
          free = v.free;
          distinct = v.distinct;
          used = v.used;
        };
      })

-- What an allocation is: an object that is not in use, in the class of its size.
pub record Allocated (heap size : ℕ) (s : System) (a : ℕ) (next : GlobalHeap) : Type 0 where
  pub unused : s.held a ≡ none
  pub class : SizeClass size
  pub after : HeapState heap (record { state = next; held = update s.held a (some size) })

scale_lt : (a b : Option ℕ) (j k : ℕ) → a ≡ some j → b ≡ some k → a ≡ b → j ≡ k
scale_lt a b j k e e' same = some_inj j k (sym e ∙ same ∙ e')

-- A new object.
allocate_new :
    (heap size a : ℕ) (s : System) (next : GlobalHeap) (h : HeapState heap s)
    → SizeClass size
    → Bumped heap (allocation_size size) s.state a next
    → Allocated heap size s a next
allocate_new heap size a s next h c b =
    let v = h.valid in
    let n = scale_of size in
    let outside : (x k : ℕ) → h.scales x ≡ some k → x < a =
      λ x k e. omega (arith, (v.inside x k e).1, b.at, positive (k + min_scale)) in
    let old : (x k : ℕ) → h.scales x ≡ some k → x ≢ a =
      λ x k e same. omega (arith, outside x k e, same) in
    let state' : GlobalHeap = record (s.state) {
      heap_index = (s.state).heap_index + allocation_size size;
    } in
    let after : HeapState heap (record { state = state'; held = update s.held a (some size) }) =
      record {
        scales = update h.scales a (some n);
        frees = h.frees;
        valid = record {
          bound = omega (arith, b.fits);
          inside = λ x k.
              update_one
                (λ o.
                  o ≡ some k
                  → (heap ≤ x)
                    × (x + 2 ^ (k + min_scale)
                        ≤ heap + ((s.state).heap_index + allocation_size size))
                    × (x + 2 ^ (k + min_scale) ≤ heap + heap_size))
                h.scales a (some n) x
                (λ same e. (
                  omega (arith, same, b.at),
                  fits_new x k same e,
                  omega (arith, fits_new x k same e, b.fits),
                ))
                (λ ne e.
                  ((v.inside x k e).0, omega (arith, (v.inside x k e).1), (v.inside x k e).2));
          apart = λ x y j k.
              update_one
                (λ o.
                  o ≡ some j
                  → update h.scales a (some n) y ≡ some k
                  → x < y
                  → x + 2 ^ (j + min_scale) ≤ y)
                h.scales a (some n) x
                (λ same e.
                  update_one (λ o. o ≡ some k → x < y → x + 2 ^ (j + min_scale) ≤ y) h.scales a
                    (some n) y (λ same' e' lt. absurd (omega (arith, same, same', lt)))
                    (λ ne e' lt. absurd (omega (arith, same, outside y k e', lt))))
                (λ ne e.
                  update_one (λ o. o ≡ some k → x < y → x + 2 ^ (j + min_scale) ≤ y) h.scales a
                    (some n) y (λ same' e' lt. omega (arith, same', b.at, (v.inside x j e).1))
                    (λ ne' e' lt. v.apart x y j k e e' lt));
          chain = v.chain;
          free = λ k.
              Each_map _ _ (h.frees k)
                (λ x f. (
                  update_off h.scales a (some n) x (old x k f.0) ∙ f.0,
                  update_off s.held a (some size) x (old x k f.0) ∙ f.1,
                ))
                (v.free k);
          distinct = v.distinct;
          used = λ x z.
              update_one
                (λ o. o ≡ some z → (update h.scales a (some n) x ≡ some (scale_of z)) × SizeClass z)
                s.held a (some size) x
                (λ same e. (
                  ap (update h.scales a (some n)) same
                      ∙ update_at h.scales a (some n)
                      ∙ ap (λ y. some (scale_of y)) (some_inj size z e),
                  subst SizeClass (some_inj size z e) c,
                ))
                (λ ne e.
                  (update_off h.scales a (some n) x ne ∙ (v.used x z e).0, (v.used x z e).1));
        };
      } in
    record {
      unused = elim (Option-cases (s.held a)) [
        | inl e ↦ e
        | inr e ↦ absurd (old a (scale_of e.0) (v.used a e.0 e.1).0 refl)
      ];
      class = c;
      after =
          subst (λ t. HeapState heap (record { state = t; held = update s.held a (some size) }))
            (sym b.state) after;
    }
  where
    positive : (k : ℕ) → 0 < 2 ^ k
    positive k = one-le-pow k 2 (omega arith)

    fits_new :
        (x k : ℕ)
        → x ≡ a
        → some (scale_of size) ≡ some k
        → x + 2 ^ (k + min_scale) ≤ heap + ((s.state).heap_index + allocation_size size)
    fits_new x k same e =
        omega (
          arith,
          same,
          b.at,
          c.size_is,
          ap (λ y. 2 ^ (y + min_scale)) (some_inj (scale_of size) k e),
        )

-- The first object of a free list.
allocate_free :
    (heap size a : ℕ) (s : System) (h : HeapState heap s)
    → SizeClass size
    → (s.state).heads (scale_of size) ≡ a
    → a ≢ 0
    → Allocated heap size s a
        (record (s.state) { heads = update (s.state).heads (scale_of size) ((s.state).words a) })
allocate_free heap size a s h c top ne =
    let v = h.valid in
    let n = scale_of size in
    let words = (s.state).words in
    let q =
      Chain-Popped words a (h.frees n) ne
        (subst (λ x. Chain words x (h.frees n)) top (v.chain n)) in
    let free : Each (λ x. (h.scales x ≡ some n) × (s.held x ≡ none)) (a ∷ q.rest) =
      subst (Each (λ x. (h.scales x ≡ some n) × (s.held x ≡ none))) q.split (v.free n) in
    let distinct : Apart (a ∷ q.rest) = subst Apart q.split (v.distinct n) in
    let held' = update s.held a (some size) in
    record {
      unused = free.0.1;
      class = c;
      after = record {
        scales = h.scales;
        frees = update h.frees n q.rest;
        valid = record {
          bound = v.bound;
          inside = v.inside;
          apart = v.apart;
          chain = λ k. elim (eq-cases k n) [
            | inl e ↦
                equal-Chain words
                  (ap (update (s.state).heads n (words a)) e
                    ∙ update_at (s.state).heads n (words a))
                  (ap (update h.frees n q.rest) e ∙ update_at h.frees n q.rest) q.chain
            | inr other ↦
                equal-Chain words (update_off (s.state).heads n (words a) k other)
                  (update_off h.frees n q.rest k other) (v.chain k)
          ];
          free = λ k.
              update_one (Each (λ x. (h.scales x ≡ some k) × (held' x ≡ none))) h.frees n q.rest k
                (λ e.
                  Each_map _ _ q.rest
                    (λ x f.
                      (f.1.0 ∙ ap some (sym e), update_off s.held a (some size) x f.0 ∙ f.1.1))
                    (Each_both _ _ q.rest distinct.0 free.1))
                (λ other.
                  Each_map _ _ (h.frees k)
                    (λ x f. (
                      f.0,
                      update_off s.held a (some size) x
                            (λ same. other (scale_lt _ _ k n f.0 free.0.0 (ap h.scales same)))
                          ∙ f.1,
                    ))
                    (v.free k));
          distinct =
              λ k. update_one Apart h.frees n q.rest k (λ e. distinct.1) (λ other. v.distinct k);
          used = λ x z.
              update_one (λ o. o ≡ some z → (h.scales x ≡ some (scale_of z)) × SizeClass z) s.held a
                (some size) x
                (λ same e. (
                  ap h.scales same ∙ free.0.0 ∙ ap (λ y. some (scale_of y)) (some_inj size z e),
                  subst SizeClass (some_inj size z e) c,
                ))
                (λ other. v.used x z);
        };
      };
    }

-- The whole of an allocation.
pub Gives-Allocated :
    (heap size a : ℕ) (s : System) (next : GlobalHeap)
    → HeapState heap s
    → size ≤ 2 ^ 63
    → Gives heap size s.state a next
    → Allocated heap size s a next
unfolding global_allocate
Gives-Allocated heap size a s next h small gives =
    let c = allocation_size_lem size small in
    let object = (s.state).heads (scale_of size) in
    let new : bump heap (allocation_size size) s.state ≡ (some a, next)
        → Allocated heap size s a next =
      λ e. allocate_new heap size a s next h c (
        bump-Bumped heap (allocation_size size) a s.state next (c.least 63 (omega arith) small)
          (h.valid).bound e) in
    elim gives [
      | inr e ↦ new e
      | inl e ↦ elim (Bool-cases (object == 0)) [
        | inl null ↦ new (sym (if_true (object == 0) _ _ null) ∙ e)
        | inr some_object ↦
            let out = sym (if_false (object == 0) _ _ some_object) ∙ e in
            subst (λ t. Allocated heap size s a t) (ap (λ r. r.1) out)
              (subst
                (λ x. Allocated heap size s x (record (s.state) {
                  heads = update (s.state).heads (scale_of size) ((s.state).words object);
                }))
                (some_inj object a (ap (λ r. r.0) out))
                (allocate_free heap size object s h c refl (ground (arith, some_object))))
      ]
    ]
