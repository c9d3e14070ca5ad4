-- ===== src/Heap/Free.antt =====
-- `global_free` (granary/allocator.cc), and the writes of those who hold memory.
use granary.Common.{
  framed-Chain, equal-Chain, update, update_at, update_off, update_one, Each, Apart, Each_map, ℕ,
  ◌+◌, ◌<◌, ◌≡◌, ◌≢◌, inl, inr, refl, sym, ap, ◌∙◌, not, ◌&&◌, ltb, leb, arith, eq-cases, if_false,
  some, none, ◌∷◌,
}
use granary.Heap.Invariant.{HeapState}
use granary.Heap.Size.{SizeClass}
use granary.Heap.Steps.{System, WritesIn}
use granary.Heap.{heap_size, min_scale, scale_of, allocation_size, global_free, is_heap_address}
use mathlib.Core.Path.{subst}
use mathlib.Core.Option.{none-ne-some}
use native.Mathlib.Nat.{one-le-pow}

-- Memory that is given back.
pub global_free_lem :
    (heap size size' a : ℕ) (s : System) (h : HeapState heap s)
    → s.held a ≡ some size
    → scale_of size' ≡ scale_of size
    → global_free heap a size' s.state ≡ record (s.state) {
      words = update (s.state).words a ((s.state).heads (scale_of size));
      heads = update (s.state).heads (scale_of size) a;
    }
unfolding global_free is_heap_address
global_free_lem heap size size' a s h e same =
    let v = h.valid in
    let place = v.inside a (scale_of size) (v.used a size e).0 in
    let positive = one-le-pow (scale_of size + min_scale) 2 (omega arith) in
    if_false (not (leb heap a && ltb a (heap + heap_size))) _ _
      (ground (arith, place.0, place.2, positive))
    ∙ ap
        (λ n. record (s.state) {
          words = update (s.state).words a ((s.state).heads n);
          heads = update (s.state).heads n a;
        })
        same

pub frees-HeapState :
    (heap size size' a : ℕ) (s : System) (h : HeapState heap s)
    → 0 < heap
    → s.held a ≡ some size
    → scale_of size' ≡ scale_of size
    → HeapState heap
        (record { state = global_free heap a size' s.state; held = update s.held a none })
frees-HeapState heap size size' a s h pos e same =
    let v = h.valid in
    let n = scale_of size in
    let words = (s.state).words in
    let head = (s.state).heads n in
    let mine = v.used a size e in
    let others : (k x : ℕ) → (h.scales x ≡ some k) × (s.held x ≡ none) → x ≢ a =
      λ k x f same. none-ne-some size (sym f.1 ∙ ap s.held same ∙ e) in
    let kept : (k : ℕ) → Each (λ x. update words a head x ≡ words x) (h.frees k) =
      λ k. Each_map _ _ (h.frees k) (λ x f. update_off words a head x (others k x f)) (v.free k) in
    subst (λ t. HeapState heap (record { state = t; held = update s.held a none }))
      (sym (global_free_lem heap size size' a s h e same))
      (record {
        scales = h.scales;
        frees = update h.frees n (a ∷ h.frees n);
        valid = record {
          bound = v.bound;
          inside = v.inside;
          apart = v.apart;
          chain = λ k. elim (eq-cases k n) [
            | inl here ↦
                equal-Chain (update words a head)
                  (ap (update (s.state).heads n a) here ∙ update_at (s.state).heads n a)
                  (ap (update h.frees n (a ∷ h.frees n)) here ∙ update_at h.frees n (a ∷ h.frees n))
                  (
                    refl,
                    λ null. omega (arith, null, pos, (v.inside a n mine.0).0),
                    equal-Chain (update words a head) (update_at words a head) refl (
                        framed-Chain words (update words a head) head (h.frees n) (kept n)
                          (v.chain n)),
                  )
            | inr other ↦
                equal-Chain (update words a head) (update_off (s.state).heads n a k other)
                  (update_off h.frees n (a ∷ h.frees n) k other)
                  (framed-Chain words (update words a head) ((s.state).heads k) (h.frees k) (kept k)
                    (v.chain k))
          ];
          free = λ k.
              update_one (Each (λ x. (h.scales x ≡ some k) × (update s.held a none x ≡ none)))
                h.frees n (a ∷ h.frees n) k
                (λ here. (
                  (mine.0 ∙ ap some (sym here), update_at s.held a none),
                  Each_map _ _ (h.frees n)
                      (λ x f.
                        (f.0 ∙ ap some (sym here), update_off s.held a none x (others n x f) ∙ f.1))
                      (v.free n),
                ))
                (λ other.
                  Each_map _ _ (h.frees k)
                    (λ x f. (f.0, update_off s.held a none x (others k x f) ∙ f.1)) (v.free k));
          distinct = λ k.
              update_one Apart h.frees n (a ∷ h.frees n) k
                (λ here. (Each_map _ _ (h.frees n) (others n) (v.free n), v.distinct n))
                (λ other. v.distinct k);
          used = λ x z.
              update_one (λ o. o ≡ some z → (h.scales x ≡ some (scale_of z)) × SizeClass z) s.held a
                none x (λ here e'. absurd (none-ne-some z e')) (λ other. v.used x z);
        };
      })

pub writes-HeapState :
    (heap size a : ℕ) (words : ℕ → ℕ) (s : System) (h : HeapState heap s)
    → s.held a ≡ some size
    → WritesIn a (allocation_size size) (s.state).words words
    → HeapState heap (record s { state = record (s.state) { words = words } })
writes-HeapState heap size a words s h e w =
    let v = h.valid in
    let mine = v.used a size e in
    let others : (k x : ℕ)
        → (h.scales x ≡ some k) × (s.held x ≡ none)
        → words x ≡ (s.state).words x =
      λ k x f. w x (λ le lt. elim (eq-cases a x) [
        | inl same ↦ none-ne-some size (sym f.1 ∙ ap s.held (sym same) ∙ e)
        | inr ne ↦ absurd (
            omega (
              arith,
              v.apart a x (scale_of size) k mine.0 f.0 (omega (arith, le, ne)),
              lt,
              mine.1.size_is,
            ))
      ]) in
    record {
      scales = h.scales;
      frees = h.frees;
      valid = record {
        bound = v.bound;
        inside = v.inside;
        apart = v.apart;
        chain = λ k.
            framed-Chain (s.state).words words ((s.state).heads k) (h.frees k)
              (Each_map _ _ (h.frees k) (others k) (v.free k)) (v.chain k);
        free = v.free;
        distinct = v.distinct;
        used = v.used;
      };
    }
