-- ===== src/InterruptDelay/Layout.antt =====
-- The states that the instructions of a block give to its bytes (granary/basic_block.cc), for blocks
-- made of single instructions and whole delay regions.
use granary.Common.{
  ℕ, suc, ◌+◌, ◌^◌, ◌≤◌, ◌<◌, ◌≡◌, refl, sym, ◌∙◌, Bool, true, false, List, [], ◌∷◌, ◌++◌, arith,
}
use granary.InterruptDelay.Fill.{native-Filled}
use granary.InterruptDelay.{
  ByteState, continues, native, delay_begin, delay_end, get_state, Instruction,
  get_instruction_state, Scan, visit_state, visit, visit_all,
}
use mathlib.Core.Path.{subst}
use granary.InterruptDelay.Region.{
  plain, region, Piece, sum, size_of, middle, instructions_of, instructions, total, Shape,
  AtBoundary, Visited, visit_begin, visit_middle, visit_end,
}

pub visit_all-append :
    (xs ys : List Instruction) (s : Scan) → visit_all (xs ++ ys) s ≡ visit_all ys (visit_all xs s)
unfolding visit_all
visit_all-append [] ys s = refl
visit_all-append (x ∷ xs) ys s = visit_all-append xs ys (visit x s)

-- With both flags, or with neither outside of a region, an instruction is native.
alone :
    (both : Bool) (n : ℕ) (prev_state : ByteState)
    → continues prev_state ≡ native
    → get_instruction_state
        (record { begins_delay_region = both; ends_delay_region = both; encoded_size = n })
        prev_state
      ≡ native
unfolding get_instruction_state
alone true n prev_state e = refl
alone false n prev_state e = e

-- A piece gets its states.
pub piece-Shape :
    (p : Piece) (room : ℕ) (s : Scan)
    → AtBoundary s room
    → s.byte_offset + size_of p ≤ room
    → room < 2 ^ 32
    → Visited s (visit_all (instructions_of p) s) room (size_of p)
      × Shape p (visit_all (instructions_of p) s).bytes s.byte_offset
unfolding visit_all visit get_instruction_state visit_state
piece-Shape (plain both n) room s v fits small =
    let f = native-Filled n room s v.packed fits v.many in
    subst
      (λ st.
        Visited s (visit_state st n s) room n
        × ((k : ℕ)
            → s.byte_offset ≤ k
            → k < s.byte_offset + n
            → get_state (visit_state st n s).bytes k ≡ native))
      (sym (alone both n s.prev_state v.resumes))
      (
        record {
          boundary = record {
            packed = f.packed;
            many = λ e. omega (arith, e);
            many_before = v.many;
            resumes = refl;
          };
          offset = refl;
          before = f.before;
        },
        f.inside,
      )
piece-Shape (region a ms b) room s v fits small =
    let start = visit_begin a room s v (omega (arith, fits)) in
    let s1 = visit_state delay_begin (suc a) s in
    let mid = visit_middle ms room s s1 start (omega (arith, fits)) in
    let s2 = visit_all (middle ms) s1 in
    let last = visit_end b room s s2 mid.0 (omega (arith, fits, mid.1)) small in
    let here : s2.byte_offset ≡ s.byte_offset + (suc a + sum ms) = mid.1 ∙ omega arith in
    subst
      (λ t. Visited s t room (suc a + sum ms + suc b) × Shape (region a ms b) t.bytes s.byte_offset)
      (sym (visit_all-append (middle ms) _ s1))
      (
        subst (Visited s (visit_state delay_end (suc b) s2) room) (omega (arith, here)) last.0,
        (
          last.1,
          λ k gt lt. last.2 k gt (omega (arith, here, lt)),
          subst (λ i. get_state (visit_state delay_end (suc b) s2).bytes i ≡ delay_end)
              (omega (arith, here)) last.3,
        ),
      )

-- Pieces one after the other.
pub pieces-Visited :
    (ps : List Piece) (room : ℕ) (s : Scan)
    → AtBoundary s room
    → s.byte_offset + total ps ≤ room
    → room < 2 ^ 32
    → Visited s (visit_all (instructions ps) s) room (total ps)
unfolding visit_all
pieces-Visited [] room s v fits small = record {
  boundary = v;
  offset = omega arith;
  before = λ k lt. refl;
}
pieces-Visited (p ∷ ps) room s v fits small =
    let one = (piece-Shape p room s v (omega (arith, fits)) small).0 in
    let s1 = visit_all (instructions_of p) s in
    let rest = pieces-Visited ps room s1 one.boundary (omega (arith, fits, one.offset)) small in
    subst (λ t. Visited s t room (size_of p + total ps))
      (sym (visit_all-append (instructions_of p) (instructions ps) s))
      (record {
        boundary = rest.boundary;
        offset = omega (arith, rest.offset, one.offset);
        before = λ k lt. rest.before k (omega (arith, lt, one.offset)) ∙ one.before k lt;
      })

-- Later changes of later states.
moved-Shape :
    (p : Piece) (bytes bytes' : List ℕ) (o : ℕ)
    → ((k : ℕ) → k < o + size_of p → get_state bytes' k ≡ get_state bytes k)
    → Shape p bytes o
    → Shape p bytes' o
moved-Shape (plain both n) bytes bytes' o same h = λ k le lt. same k lt ∙ h k le lt
moved-Shape (region a ms b) bytes bytes' o same h = (
  same o (omega arith) ∙ h.0,
  λ k gt lt. same k (omega (arith, lt)) ∙ h.1 k gt lt,
  same (o + (suc a + sum ms + b)) (omega arith) ∙ h.2,
)

pub block-Shape :
    (ps : List Piece) (p : Piece) (qs : List Piece) (room : ℕ) (s : Scan)
    → AtBoundary s room
    → s.byte_offset + total (ps ++ p ∷ qs) ≤ room
    → room < 2 ^ 32
    → Shape p (visit_all (instructions (ps ++ p ∷ qs)) s).bytes (s.byte_offset + total ps)
unfolding visit_all
block-Shape [] p qs room s v fits small =
    let one = piece-Shape p room s v (omega (arith, fits)) small in
    let s1 = visit_all (instructions_of p) s in
    let rest = pieces-Visited qs room s1 one.0.boundary (omega (arith, fits, one.0.offset)) small in
    subst (λ t. Shape p t.bytes (s.byte_offset + 0))
      (sym (visit_all-append (instructions_of p) (instructions qs) s))
      (subst (Shape p (visit_all (instructions qs) s1).bytes) (omega arith) (
        moved-Shape p s1.bytes (visit_all (instructions qs) s1).bytes s.byte_offset
          (λ k lt. rest.before k (omega (arith, lt, one.0.offset))) one.1))
block-Shape (r ∷ ps) p qs room s v fits small =
    let one = (piece-Shape r room s v (omega (arith, fits)) small).0 in
    let s1 = visit_all (instructions_of r) s in
    let rest = block-Shape ps p qs room s1 one.boundary (omega (arith, fits, one.offset)) small in
    subst (λ t. Shape p t.bytes (s.byte_offset + (size_of r + total ps)))
      (sym (visit_all-append (instructions_of r) (instructions (ps ++ p ∷ qs)) s))
      (subst (Shape p (visit_all (instructions (ps ++ p ∷ qs)) s1).bytes)
        (omega (arith, one.offset)) rest)
