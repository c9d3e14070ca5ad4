-- ===== src/InterruptDelay/Fill.antt =====
-- The loops that set the states of bytes (granary/basic_block.cc), and one instruction of each kind.
use granary.Common.{
  ℕ, zero, suc, ◌+◌, ◌-◌, ◌*◌, ◌^◌, ◌≤◌, ◌<◌, ◌≡◌, ◌≢◌, refl, sym, ap, ◌∙◌, ◌==◌, if◌then◌else◌,
  List, length, eq-cases, inl, inr, arith, if_true, if_false, ==-true, ==-false,
}
use granary.Common.Words.{u32}
use granary.InterruptDelay.Packed.{
  IsBytes, get_state-set_state, set_state-IsBytes, length-set_state,
}
use granary.InterruptDelay.{
  ByteState, native, delay_begin, delay_cont, delay_end, get_state, set_state, fill, Scan,
  visit_state, mark,
}
use mathlib.Core.Path.{subst}

-- Packed states that reach so far.
pub record IsPacked (bytes : List ℕ) (room : ℕ) : Type 0 where
  pub whole : IsBytes bytes
  pub reaches : room ≤ 4 * length bytes

pub set_state-IsPacked :
    (bytes : List ℕ) (room i : ℕ) (st : ByteState)
    → IsPacked bytes room
    → i < room
    → IsPacked (set_state bytes i st) room
set_state-IsPacked bytes room i st p lt = record {
  whole = set_state-IsBytes bytes i st p.whole (omega (arith, lt, p.reaches));
  reaches = omega (arith, length-set_state bytes i st, p.reaches);
}

pub set_at :
    (bytes : List ℕ) (room i : ℕ) (st : ByteState)
    → IsPacked bytes room
    → i < room
    → get_state (set_state bytes i st) i ≡ st
set_at bytes room i st p lt =
    get_state-set_state bytes i i st p.whole (omega (arith, lt, p.reaches))
    ∙ if_true (i == i) _ _ (==-true i i refl)

pub set_off :
    (bytes : List ℕ) (room i k : ℕ) (st : ByteState)
    → IsPacked bytes room
    → i < room
    → k ≢ i
    → get_state (set_state bytes i st) k ≡ get_state bytes k
set_off bytes room i k st p lt ne =
    get_state-set_state bytes i k st p.whole (omega (arith, lt, p.reaches))
    ∙ if_false (k == i) _ _ (==-false k i ne)

-- A change of the states in a range alone: all of them become one state.
pub record Filled (bytes bytes' : List ℕ) (room from n : ℕ) (st : ByteState) : Type 0 where
  pub packed : IsPacked bytes' room
  pub inside : (k : ℕ) → from ≤ k → k < from + n → get_state bytes' k ≡ st
  pub before : (k : ℕ) → k < from → get_state bytes' k ≡ get_state bytes k

pub fill-Filled :
    (n : ℕ) (bytes : List ℕ) (room from : ℕ) (st : ByteState)
    → IsPacked bytes room
    → from + n ≤ room
    → Filled bytes (fill n bytes from st) room from n st
fill-Filled zero bytes room from st p fits = record {
  packed = p;
  inside = λ k le lt. absurd (omega (arith, le, lt));
  before = λ k lt. refl;
}
fill-Filled (suc n) bytes room from st p fits =
    let at : from < room = omega (arith, fits) in
    let rest =
      fill-Filled n (set_state bytes from st) room (suc from) st
        (set_state-IsPacked bytes room from st p at) (omega (arith, fits)) in
    record {
      packed = rest.packed;
      inside = λ k le lt. elim (eq-cases k from) [
        | inl e ↦
            rest.before k (omega (arith, e))
            ∙ ap (get_state (set_state bytes from st)) e
            ∙ set_at bytes room from st p at
        | inr ne ↦ rest.inside k (omega (arith, le, ne)) (omega (arith, lt))
      ];
      before = λ k lt.
          rest.before k (omega (arith, lt))
          ∙ set_off bytes room from k st p at (λ e. omega (arith, lt, e));
    }

-- A native instruction where no region of a single instruction precedes it.
pub native-Filled :
    (n room : ℕ) (s : Scan)
    → IsPacked s.bytes room
    → s.byte_offset + n ≤ room
    → s.num_delayed ≢ 1
    → Filled s.bytes (visit_state native n s).bytes room s.byte_offset n native
unfolding visit_state
native-Filled n room s p fits many =
    subst (λ b. Filled s.bytes (fill n b s.byte_offset native) room s.byte_offset n native)
      (sym (if_false (s.num_delayed == 1) _ _ (==-false _ _ many)))
      (fill-Filled n s.bytes room s.byte_offset native p fits)

-- The first instruction of a region.
pub record Begun (s s' : Scan) (room from n : ℕ) : Type 0 where
  pub packed : IsPacked s'.bytes room
  pub first : get_state s'.bytes from ≡ delay_begin
  pub inside : (k : ℕ) → from < k → k < from + n → get_state s'.bytes k ≡ delay_cont
  pub before : (k : ℕ) → k < from → get_state s'.bytes k ≡ get_state s.bytes k

pub begin-Begun :
    (n room : ℕ) (s : Scan)
    → IsPacked s.bytes room
    → s.byte_offset + n ≤ room
    → 0 < n
    → s.prev_num_delayed ≢ 1
    → Begun s (visit_state delay_begin n s) room s.byte_offset n
unfolding visit_state
begin-Begun n room s p fits pos many =
    let o = s.byte_offset in
    let f = fill-Filled n s.bytes room o delay_cont p fits in
    let at : o < room = omega (arith, fits, pos) in
    let same : mark delay_begin
          (fill n
            (if s.prev_num_delayed == 1
              then fill (o - s.prev_byte_offset) s.bytes s.prev_byte_offset native
              else s.bytes)
            o delay_cont)
          o n
        ≡ set_state (fill n s.bytes o delay_cont) o delay_begin =
      ap (λ b. set_state (fill n b o delay_cont) o delay_begin)
        (if_false (s.prev_num_delayed == 1) _ _ (==-false _ _ many)) in
    let filled = fill n s.bytes o delay_cont in
    record {
      packed =
          subst (λ b. IsPacked b room) (sym same)
            (set_state-IsPacked filled room o delay_begin f.packed at);
      first = ap (λ b. get_state b o) same ∙ set_at filled room o delay_begin f.packed at;
      inside = λ k gt lt.
          ap (λ b. get_state b k) same
          ∙ set_off filled room o k delay_begin f.packed at (λ e. omega (arith, gt, e))
          ∙ f.inside k (omega (arith, gt)) lt;
      before = λ k lt.
          ap (λ b. get_state b k) same
          ∙ set_off filled room o k delay_begin f.packed at (λ e. omega (arith, lt, e))
          ∙ f.before k lt;
    }

-- An instruction in the middle of a region.
pub cont-Filled :
    (n room : ℕ) (s : Scan)
    → IsPacked s.bytes room
    → s.byte_offset + n ≤ room
    → s.prev_num_delayed ≢ 1
    → Filled s.bytes (visit_state delay_cont n s).bytes room s.byte_offset n delay_cont
unfolding visit_state
cont-Filled n room s p fits many =
    subst (λ b. Filled s.bytes (fill n b s.byte_offset delay_cont) room s.byte_offset n delay_cont)
      (sym (if_false (s.prev_num_delayed == 1) _ _ (==-false _ _ many)))
      (fill-Filled n s.bytes room s.byte_offset delay_cont p fits)

-- The last instruction of a region.
pub record Ended (s s' : Scan) (room from last : ℕ) : Type 0 where
  pub packed : IsPacked s'.bytes room
  pub at_end : get_state s'.bytes last ≡ delay_end
  pub inside : (k : ℕ) → from ≤ k → k < last → get_state s'.bytes k ≡ delay_cont
  pub before : (k : ℕ) → k < from → get_state s'.bytes k ≡ get_state s.bytes k

pub end-Ended :
    (n room : ℕ) (s : Scan)
    → IsPacked s.bytes room
    → s.byte_offset + suc n ≤ room
    → room < 2 ^ 32
    → s.prev_num_delayed ≢ 1
    → Ended s (visit_state delay_end (suc n) s) room s.byte_offset (s.byte_offset + n)
unfolding visit_state
end-Ended n room s p fits small many =
    let o = s.byte_offset in
    let f = fill-Filled (suc n) s.bytes room o delay_cont p fits in
    let at : o + n < room = omega (arith, fits) in
    let filled = fill (suc n) s.bytes o delay_cont in
    let same : (visit_state delay_end (suc n) s).bytes ≡ set_state filled (o + n) delay_end =
      ap (λ b. set_state (fill (suc n) b o delay_cont) (u32 (o + suc n + 2 ^ 32 - 1)) delay_end)
        (if_false (s.prev_num_delayed == 1) _ _ (==-false _ _ many))
      ∙ ap (λ i. set_state filled i delay_end) (omega (arith, fits, small)) in
    record {
      packed =
          subst (λ b. IsPacked b room) (sym same)
            (set_state-IsPacked filled room (o + n) delay_end f.packed at);
      at_end =
          ap (λ b. get_state b (o + n)) same ∙ set_at filled room (o + n) delay_end f.packed at;
      inside = λ k le lt.
          ap (λ b. get_state b k) same
          ∙ set_off filled room (o + n) k delay_end f.packed at (λ e. omega (arith, lt, e))
          ∙ f.inside k le (omega (arith, lt));
      before = λ k lt.
          ap (λ b. get_state b k) same
          ∙ set_off filled room (o + n) k delay_end f.packed at (λ e. omega (arith, lt, e))
          ∙ f.before k lt;
    }
