-- ===== src/InterruptDelay/Region.antt =====
-- The instructions of a delay region (granary/basic_block.cc), one after the other.
use granary.Common.{
  ℕ, suc, ◌+◌, ◌-◌, ◌^◌, ◌≤◌, ◌<◌, ◌≡◌, ◌≢◌, refl, sym, ◌∙◌, ◌==◌, Bool, true, false, List, [], ◌∷◌,
  ◌++◌, Bool-cases, inl, inr, arith, if_true, if_false, ==-false, leb, leb→le,
}
use granary.InterruptDelay.Fill.{IsPacked, begin-Begun, cont-Filled, end-Ended}
use granary.InterruptDelay.{
  native, delay_begin, delay_cont, delay_end, get_state, Instruction, continues,
  get_instruction_state, Scan, visit_state, visit, visit_all,
}
use mathlib.Core.Path.{subst}

-- An instruction outside of regions, which has both flags or neither, with its size; and a region:
-- the sizes of its first instruction less 1, of those in the middle, which have no flags, and of its
-- last less 1.
pub data Piece : Type 0 where
  plain : Bool → ℕ → Piece
  region : ℕ → List ℕ → ℕ → Piece

abbrev pub sum : List ℕ → ℕ
sum [] = 0
sum (n ∷ ns) = n + sum ns

abbrev pub size_of : Piece → ℕ
size_of (plain both n) = n
size_of (region a ms b) = suc a + sum ms + suc b

abbrev pub middle : List ℕ → List Instruction
middle [] = []
middle (n ∷ ns) =
    record { begins_delay_region = false; ends_delay_region = false; encoded_size = n } ∷ middle ns

abbrev pub instructions_of : Piece → List Instruction
instructions_of (plain both n) =
    record { begins_delay_region = both; ends_delay_region = both; encoded_size = n } ∷ []
instructions_of (region a ms b) =
    record { begins_delay_region = true; ends_delay_region = false; encoded_size = suc a }
    ∷ (middle ms
        ++ record { begins_delay_region = false; ends_delay_region = true; encoded_size = suc b }
          ∷ [])

abbrev pub instructions : List Piece → List Instruction
instructions [] = []
instructions (p ∷ ps) = instructions_of p ++ instructions ps

abbrev pub total : List Piece → ℕ
total [] = 0
total (p ∷ ps) = size_of p + total ps

-- The states of a piece from an offset on.
abbrev pub Shape : Piece → List ℕ → ℕ → Type 0
Shape (plain both n) bytes o = (k : ℕ) → o ≤ k → k < o + n → get_state bytes k ≡ native
Shape (region a ms b) bytes o =
    (get_state bytes o ≡ delay_begin)
    × ((k : ℕ) → o < k → k < o + (suc a + sum ms + b) → get_state bytes k ≡ delay_cont)
    × (get_state bytes (o + (suc a + sum ms + b)) ≡ delay_end)

-- Between two pieces.
pub record AtBoundary (s : Scan) (room : ℕ) : Type 0 where
  pub packed : IsPacked s.bytes room
  pub many : s.num_delayed ≢ 1
  pub many_before : s.prev_num_delayed ≢ 1
  pub resumes : continues s.prev_state ≡ native

-- What visiting a part of the block leaves of the states in front of it.
pub record Visited (s s' : Scan) (room n : ℕ) : Type 0 where
  pub boundary : AtBoundary s' room
  pub offset : s'.byte_offset ≡ s.byte_offset + n
  pub before : (k : ℕ) → k < s.byte_offset → get_state s'.bytes k ≡ get_state s.bytes k

-- Inside of a region that began at an offset.
pub record InRegion (s s' : Scan) (room : ℕ) : Type 0 where
  pub packed : IsPacked s'.bytes room
  pub counted : 1 ≤ s'.num_delayed
  pub many_before : s'.prev_num_delayed ≢ 1
  pub goes_on : continues s'.prev_state ≡ delay_cont
  pub began : s.byte_offset < s'.byte_offset
  pub first : get_state s'.bytes s.byte_offset ≡ delay_begin
  pub inside : (k : ℕ) → s.byte_offset < k → k < s'.byte_offset → get_state s'.bytes k ≡ delay_cont
  pub before : (k : ℕ) → k < s.byte_offset → get_state s'.bytes k ≡ get_state s.bytes k

pub visit_begin :
    (a room : ℕ) (s : Scan)
    → AtBoundary s room
    → s.byte_offset + suc a ≤ room
    → InRegion s (visit_state delay_begin (suc a) s) room
unfolding visit_state
visit_begin a room s v fits =
    let b = begin-Begun (suc a) room s v.packed fits (omega arith) v.many_before in
    record {
      packed = b.packed;
      counted =
          subst (λ x. 1 ≤ x)
            (sym (if_false (suc a == 0) _ _ (==-false _ _ (λ e. omega (arith, e))))) (omega arith);
      many_before = v.many_before;
      goes_on = refl;
      began = omega arith;
      first = b.first;
      inside = b.inside;
      before = b.before;
    }

pub visit_cont :
    (n room : ℕ) (s s' : Scan)
    → InRegion s s' room
    → s'.byte_offset + n ≤ room
    → InRegion s (visit_state delay_cont n s') room
unfolding visit_state
visit_cont n room s s' v fits =
    let f = cont-Filled n room s' v.packed fits v.many_before in
    record {
      packed = f.packed;
      counted = elim (Bool-cases (n == 0)) [
        | inl e ↦ subst (λ x. 1 ≤ x) (sym (if_true (n == 0) _ _ e)) v.counted
        | inr e ↦ subst (λ x. 1 ≤ x) (sym (if_false (n == 0) _ _ e)) (omega arith)
      ];
      many_before = v.many_before;
      goes_on = refl;
      began = omega (arith, v.began);
      first = f.before s.byte_offset v.began ∙ v.first;
      inside = λ k gt lt. elim (Bool-cases (leb s'.byte_offset k)) [
        | inl e ↦ f.inside k (leb→le _ _ e) lt
        | inr e ↦ f.before k (below k s'.byte_offset e) ∙ v.inside k gt (below k s'.byte_offset e)
      ];
      before = λ k lt. f.before k (omega (arith, lt, v.began)) ∙ v.before k lt;
    }
  where
    below : (k o : ℕ) → leb o k ≡ false → k < o
    below k o e = ground arith

pub visit_middle :
    (ms : List ℕ) (room : ℕ) (s s' : Scan)
    → InRegion s s' room
    → s'.byte_offset + sum ms ≤ room
    → InRegion s (visit_all (middle ms) s') room
      × ((visit_all (middle ms) s').byte_offset ≡ s'.byte_offset + sum ms)
unfolding visit_all visit visit_state get_instruction_state
visit_middle [] room s s' v fits = (v, omega arith)
visit_middle (n ∷ ms) room s s' v fits =
    let next = visit_cont n room s s' v (omega (arith, fits)) in
    let rest = visit_middle ms room s (visit_state delay_cont n s') next (omega (arith, fits)) in
    subst
      (λ st.
        InRegion s (visit_all (middle ms) (visit_state st n s')) room
        × ((visit_all (middle ms) (visit_state st n s')).byte_offset
            ≡ s'.byte_offset + (n + sum ms)))
      (sym v.goes_on) (rest.0, rest.1 ∙ omega arith)

pub visit_end :
    (b room : ℕ) (s s' : Scan)
    → InRegion s s' room
    → s'.byte_offset + suc b ≤ room
    → room < 2 ^ 32
    → Visited s (visit_state delay_end (suc b) s') room (s'.byte_offset + suc b - s.byte_offset)
      × (get_state (visit_state delay_end (suc b) s').bytes s.byte_offset ≡ delay_begin)
      × ((k : ℕ)
          → s.byte_offset < k
          → k < s'.byte_offset + b
          → get_state (visit_state delay_end (suc b) s').bytes k ≡ delay_cont)
      × (get_state (visit_state delay_end (suc b) s').bytes (s'.byte_offset + b) ≡ delay_end)
unfolding visit_state
visit_end b room s s' v fits small =
    let e = end-Ended b room s' v.packed fits small v.many_before in
    (
      record {
        boundary = record {
          packed = e.packed;
          many = λ one. absurd (
              omega (
                arith,
                sym (
                      if_false (suc b == 0) s'.num_delayed (s'.num_delayed + 1)
                        (==-false _ _ (λ null. omega (arith, null))))
                    ∙ one,
                v.counted,
              ));
          many_before = v.many_before;
          resumes = refl;
        };
        offset = omega (arith, v.began);
        before = λ k lt. e.before k (omega (arith, lt, v.began)) ∙ v.before k lt;
      },
      e.before s.byte_offset v.began ∙ v.first,
      λ k gt lt. elim (Bool-cases (leb s'.byte_offset k)) [
        | inl le ↦ e.inside k (leb→le _ _ le) lt
        | inr f ↦ e.before k (below k s'.byte_offset f) ∙ v.inside k gt (below k s'.byte_offset f)
      ],
      e.at_end,
    )
  where
    below : (k o : ℕ) → leb o k ≡ false → k < o
    below k o e = ground arith
