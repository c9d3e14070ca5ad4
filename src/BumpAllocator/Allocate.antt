-- ===== src/BumpAllocator/Allocate.antt =====
-- `allocate_bare`: it returns within its three rounds, an aligned block inside of one slab, beyond
-- everything that was handed out of that slab before.
use granary.BumpAllocator.Invariant.{
  IsSlab, IsAllocator, IsRequest, IsFirst, IsFirst-head, IsFirst-cons,
}
use granary.BumpAllocator.NewSlab.{allocate_slab-NewSlab, slab_size_for_bounds}
use granary.BumpAllocator.Owned.{memories, owned, Owns, Perm_of_eq}
use granary.BumpAllocator.Search.{All}
use granary.BumpAllocator.{
  Slab, Config, Input, Allocator, align_to, allocate_slab, slab_size_for, lacks, refill, or_first,
  take_from, exhaust, finish, allocate_loop, forget_last, allocate_bare,
}
use granary.Common.Words.{u32}
use granary.Common.{
  ℕ, suc, ◌+◌, ◌-◌, ◌%◌, ◌≤◌, ◌<◌, ◌≡◌, refl, sym, ◌∙◌, ap, true, false, some, List, [], ◌∷◌, arith,
  ltb, leb, if◌then◌else◌, Bool-cases, inl, inr, ◌⊎◌, eq-cases, ==-true, ==-false, lt→ltb, ltb→lt,
  ltb→le,
}
use mathlib.Core.Path.{subst, ap₂}
use native.Mathlib.Nat.{mod-lt, mod-add-mod, mod_self, dvd_trans, dvd_iff_mod-eq-zero}

-- The address is brought to a multiple of the alignment, by less than the alignment.
pub align_to_lem :
    (x align : ℕ) → 0 < align → ((x + align_to x align) % align ≡ 0) × (align_to x align < align)
align_to_lem x align h = elim (eq-cases (x % align) 0) [
  | inl e ↦ rw (==-true (x % align) 0 e) (grind arith)
  | inr ne ↦
      let lt = mod-lt x h in
      let e : x % align + (align - x % align) ≡ align = omega arith in
      rw (==-false (x % align) 0 ne) (
        sym (mod-add-mod x align (align - x % align))
            ∙ ap (λ (y : ℕ). y % align) e
            ∙ mod_self align,
        omega arith,
      )
]

mod_of_divides : (m big align : ℕ) → m % big ≡ 0 → big % align ≡ 0 → m % align ≡ 0
mod_of_divides m big align h d =
    (dvd_iff_mod-eq-zero align).0
      (dvd_trans align ((dvd_iff_mod-eq-zero align).1 d) ((dvd_iff_mod-eq-zero big).1 h))

-- The block of `size` bytes at `addr` is the last part of the slab that now heads the list. That
-- slab either headed it before, and the block begins beyond what was handed out of it, or it was
-- put in front of the slabs that were there.
pub record Served (fresh big align size : ℕ) (a : Allocator) (addr : ℕ) (a' : Allocator)
    : Type 0 where
  pub slab : Slab
  pub others : List Slab
  pub curr : a'.curr ≡ slab ∷ others
  pub valid : IsAllocator big a'
  pub block : addr + size ≡ slab.memory + slab.index
  pub aligned : addr % align ≡ 0
  pub inside : (slab.memory ≤ addr) × (slab.index ≤ slab.size)
  pub beyond :
      ((old : Slab) × (a.curr ≡ old ∷ others)
        × (old.memory ≡ slab.memory)
        × (old.size ≡ slab.size)
        × (old.memory + old.index ≤ addr))
      ⊎ (memories others ≡ memories a.curr)
  pub owns : Owns fresh a a'
  pub first : IsFirst a.first a.curr → IsFirst a'.first a'.curr
  pub last :
      (a'.last_allocation ≡ addr)
      × (a'.last_allocation_size ≡ size)
      × (a'.last_allocation_slab ≡ some slab.memory)

module _ (c : Config) (i : Input) (big align size : ℕ) (req : IsRequest c i big align size)
    (pos : 0 < size) where
  -- A slab with nothing in it needs no alignment.
  unused-aligned : (s : Slab) → IsSlab big s → s.index ≡ 0 → align_to (s.memory + s.index) align ≡ 0
  unused-aligned s v e =
      let whole : s.memory % align ≡ 0 = mod_of_divides s.memory big align v.aligned req.divides in
      let same : s.memory + s.index ≡ s.memory = omega arith in
      rw same (rw (==-true (s.memory % align) 0 whole))

  abbrev pub refilled : Allocator → Allocator
  refilled a = if lacks a.curr size then refill c i a size else a

  -- A round in which the current slab, `s`, has the room.
  module _ (a b : Allocator) (s : Slab) (slabs : List Slab) (v : IsSlab big s)
      (vs : All (IsSlab big) slabs) (vb : All (IsSlab big) b.free × All (IsSlab big) b.global_free)
      (fits : size + align_to (s.memory + s.index) align ≤ s.remaining) where
    abbrev pub offset : ℕ
    offset = align_to (s.memory + s.index) align

    abbrev pub moved : Slab
    moved = record s { index = s.index + offset; remaining = s.remaining - offset }

    pub round :
        (f : ℕ)
        → refilled a ≡ record b { curr = s ∷ slabs }
        → allocate_loop (suc f) c i a align size ≡ some (take_from moved slabs b size)
    unfolding allocate_loop
    round f e =
        let less = (align_to_lem (s.memory + s.index) align req.aligns).1 in
        let room : leb (u32 (size + offset)) s.remaining ≡ true =
          ground (arith, req.fits, req.some_align) in
        rw (e, ==-false size 0 (omega arith), room)

    served :
        Owns i.fresh a (record b { curr = s ∷ slabs })
        → (IsFirst a.first a.curr → IsFirst b.first (s ∷ slabs))
        → (a.curr ≡ s ∷ slabs) ⊎ (memories slabs ≡ memories a.curr)
        → Served i.fresh big align size a
            (s.memory + (s.index + offset))
            (take_from moved slabs b size).1
    served owns first source = record {
      slab = record s { index = s.index + offset + size; remaining = s.remaining - offset - size };
      others = slabs;
      curr = refl;
      valid = record {
        curr =
            (record { split = omega (arith, v.split); aligned = v.aligned; small = v.small }, vs);
        free = vb.0;
        global_free = vb.1;
      };
      block = omega arith;
      aligned =
          let regroup : s.memory + (s.index + offset) ≡ s.memory + s.index + offset = omega arith in
          rw regroup (align_to_lem (s.memory + s.index) align req.aligns).0;
      inside = (omega arith, omega (arith, v.split));
      beyond = elim source [
        | inl head ↦ inl (s, head, refl, refl, omega arith)
        | inr added ↦ inr added
      ];
      owns = owns;
      first = λ h. IsFirst-head b.first s _ slabs refl (first h);
      last = (refl, refl, refl);
    }

  -- A round in which it has not.
  retry :
      (a b : Allocator) (s : Slab) (slabs : List Slab) (f : ℕ)
      → s.remaining < size + align_to (s.memory + s.index) align
      → refilled a ≡ record b { curr = s ∷ slabs }
      → allocate_loop (suc f) c i a align size
        ≡ allocate_loop f c i (record b { curr = exhaust (s ∷ slabs) }) align size
  unfolding allocate_loop
  retry a b s slabs f tight e =
      let off = align_to (s.memory + s.index) align in
      let less = (align_to_lem (s.memory + s.index) align req.aligns).1 in
      let no_room : leb (u32 (size + off)) s.remaining ≡ false =
        ground (arith, req.fits, req.some_align) in
      ap
        (λ (x : Allocator).
          finish x align size (allocate_loop f c i (record x { curr = exhaust x.curr }) align size))
        e
      ∙ rw (==-false size 0 (omega arith), no_room)

  -- The outcome of a round that put a slab in front.
  abbrev ServedNew : Allocator → ℕ → Allocator → Type 0
  ServedNew a addr a' =
      (r : Served i.fresh big align size a addr a') × (memories r.others ≡ memories a.curr)

  lacking :
      (f : ℕ) (a : Allocator)
      → IsAllocator big a
      → lacks a.curr size ≡ true
      → (addr : ℕ) × (a' : Allocator) × (allocate_loop (suc f) c i a align size ≡ some (addr, a'))
        × ServedNew a addr a'
  unfolding served
  lacking f a v low =
      let sizes = slab_size_for_bounds c size req.slab req.fits in
      let n = slab_size_for c size in
      let r = allocate_slab c i a n in
      let new = allocate_slab-NewSlab c i a big n v req.fresh sizes.2 in
      let b : Allocator = record (r.1) { first = or_first (r.1).first (r.0).memory } in
      let fits : size + align_to ((r.0).memory + (r.0).index) align ≤ (r.0).remaining =
        omega (
          arith,
          unused-aligned r.0 new.slab new.unused,
          new.enough,
          (new.slab).split,
          new.unused,
        ) in
      let vb : All (IsSlab big) b.free × All (IsSlab big) b.global_free =
        ((new.rest).free, (new.rest).global_free) in
      (
        _,
        _,
        round a b r.0 (r.1).curr new.slab (new.rest).curr vb fits f (rw low),
        (
          served a b r.0 (r.1).curr new.slab (new.rest).curr vb fits
              (elim new.owns [
                | inl same ↦ inl same
                | inr (at, same) ↦ inr (Perm_of_eq (ap₂ (λ (x : ℕ) (xs : List ℕ). x ∷ xs) at same))
              ])
              (λ h. IsFirst-cons (r.1).first r.0 (r.1).curr (rw (new.first, new.curr) h))
              (inr (ap memories new.curr)),
          ap memories new.curr,
        ),
      )

  -- The slab that heads the list has the size left, but perhaps not with the alignment: then it is
  -- exhausted, and the next round takes another.
  enough :
      (f : ℕ) (a : Allocator) (xs : List Slab)
      → IsAllocator big a
      → a.curr ≡ xs
      → lacks xs size ≡ false
      → (addr : ℕ) × (a' : Allocator) × (allocate_loop (suc (suc f)) c i a align size
          ≡ some (addr, a'))
        × Served i.fresh big align size a addr a'
  enough f a [] v e low = absurd (cc)
  enough f a (s ∷ slabs) v e low =
      let vs : All (IsSlab big) (s ∷ slabs) = subst (All (IsSlab big)) e v.curr in
      let keeps : refilled a ≡ record a { curr = s ∷ slabs } = rw (e, low) in
      let off = align_to (s.memory + s.index) align in
      elim (Bool-cases (ltb s.remaining (size + off))) [
        | inr room ↦
            let fits = ltb→le s.remaining (size + off) room in
            let vb : All (IsSlab big) a.free × All (IsSlab big) a.global_free =
              (v.free, v.global_free) in
            (
              _,
              _,
              round a a s slabs vs.0 vs.1 vb fits (suc f) keeps,
              served a a s slabs vs.0 vs.1 vb fits
                  (inl
                    (Perm_of_eq (ap (λ (xs : List Slab). owned (record a { curr = xs })) (sym e))))
                  (subst (IsFirst a.first) e) (inl e),
            )
        | inl tight ↦
            let drained : Allocator = record a { curr = exhaust (s ∷ slabs) } in
            let valid : IsAllocator big drained = record {
              curr = (
                record { split = omega arith; aligned = (vs.0).aligned; small = (vs.0).small },
                vs.1,
              );
              free = v.free;
              global_free = v.global_free;
            } in
            let r = lacking f drained valid (lt→ltb 0 size pos) in
            let sv = (r.3).0 in
            (
              r.0,
              r.1,
              retry a a s slabs (suc f) (ltb→lt s.remaining (size + off) tight) keeps ∙ r.2,
              record {
                slab = sv.slab;
                others = sv.others;
                curr = sv.curr;
                valid = sv.valid;
                block = sv.block;
                aligned = sv.aligned;
                inside = sv.inside;
                beyond = inr ((r.3).1 ∙ ap memories (sym e));
                owns =
                    subst (λ (xs : List Slab). Owns i.fresh (record a { curr = xs }) r.1) (sym e)
                      sv.owns;
                first = λ h.
                    sv.first (IsFirst-head a.first s _ slabs refl (subst (IsFirst a.first) e h));
                last = sv.last;
              },
            )
      ]

-- An allocation of at least one byte, under a request that a new slab can serve, returns within
-- its three rounds. The allocator that is left is valid, and the block of that size is aligned
-- and lies inside the slab that now heads the list, at its used end: if the slab headed the list
-- before, beyond all that was handed out of it, and otherwise it is a slab in front of those that
-- were there. No slab is lost or duplicated: the slabs in use or free are those that were, and
-- at most the one new slab. `first` stays the last of the slabs in use, and the block is recorded
-- as the last allocation.
pub allocate_bare-Served :
    (c : Config) (i : Input) (big align size : ℕ) (a : Allocator)
    → IsAllocator big a
    → IsRequest c i big align size
    → 0 < size
    → (addr : ℕ) × (a' : Allocator) × (allocate_bare c i a align size ≡ some (addr, a'))
      × Served i.fresh big align size a addr a'
unfolding allocate_bare
allocate_bare-Served c i big align size a v req pos =
    let cleared : IsAllocator big (forget_last a) = record {
      curr = v.curr;
      free = v.free;
      global_free = v.global_free;
    } in
    elim (Bool-cases (lacks a.curr size)) [
      | inl low ↦
          let r = lacking c i big align size req pos 2 (forget_last a) cleared low in
          (r.0, r.1, r.2, rebase r.0 r.1 (r.3).0)
      | inr high ↦
          let r = enough c i big align size req pos 1 (forget_last a) a.curr cleared refl high in
          (r.0, r.1, r.2, rebase r.0 r.1 r.3)
    ]
  where
    rebase :
        (addr : ℕ) (a' : Allocator)
        → Served i.fresh big align size (forget_last a) addr a'
        → Served i.fresh big align size a addr a'
    rebase addr a' sv = record {
      slab = sv.slab;
      others = sv.others;
      curr = sv.curr;
      valid = sv.valid;
      block = sv.block;
      aligned = sv.aligned;
      inside = sv.inside;
      beyond = sv.beyond;
      owns = sv.owns;
      first = sv.first;
      last = sv.last;
    }
