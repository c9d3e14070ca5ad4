-- ===== src/InterruptDelay/Range.antt =====
-- Which range of code an interrupt inside of a delay region has to wait for (granary/basic_block.cc).
use granary.Common.{
  ℕ, zero, suc, ◌+◌, ◌-◌, ◌*◌, ◌^◌, ◌≤◌, ◌<◌, ◌≡◌, refl, ap, ◌∙◌, ◌==◌, Bool, true, false, not,
  ◌&&◌, ◌||◌, List, [], ◌∷◌, ◌++◌, length, eq-cases, inl, inr, arith, if_true, if_false, some,
}
use granary.InterruptDelay.Packed.{IsBytes}
use granary.InterruptDelay.Layout.{block-Shape}
use granary.InterruptDelay.Region.{
  Piece, plain, region, sum, size_of, instructions, total, Shape, AtBoundary,
}
use granary.InterruptDelay.{
  native, delay_begin, delay_cont, delay_end, get_state, is_safe, is_end, find_end, find_begin,
  no_range, get_interrupt_delay_range, initialise_state_bytes, num_state_bytes_for, zero_bytes,
  visit_all, Scan,
}
use mathlib.Core.Path.{subst}

find_end_lem :
    (n : ℕ) (states : List ℕ) (start i e : ℕ)
    → i ≤ e
    → e < i + n
    → ((k : ℕ) → i ≤ k → k < e → get_state states k ≡ delay_cont)
    → get_state states e ≡ delay_end
    → find_end n states start i ≡ start + e + 1
unfolding find_end
find_end_lem zero states start i e le lt inside last = absurd (omega (arith, le, lt))
find_end_lem (suc n) states start i e le lt inside last = elim (eq-cases i e) [
  | inl same ↦
      if_true (is_end (get_state states i)) _ _
        (ap (λ k. is_end (get_state states k)) same ∙ ap is_end last)
      ∙ ap (λ k. start + k + 1) same
  | inr ne ↦
      if_false (is_end (get_state states i)) _ _
        (ap is_end (inside i (omega arith) (omega (arith, le, ne))))
      ∙ find_end_lem n states start (suc i) e (omega (arith, le, ne)) (omega (arith, lt))
          (λ k le' lt'. inside k (omega (arith, le')) lt') last
]

find_begin_kept :
    (n : ℕ) (states : List ℕ) (start i begin : ℕ)
    → ((k : ℕ) → i ≤ k → k < i + n → get_state states k ≡ delay_cont)
    → find_begin n states start i begin ≡ begin
unfolding find_begin
find_begin_kept zero states start i begin inside = refl
find_begin_kept (suc n) states start i begin inside =
    ap (find_begin n states start (suc i)) (
      if_false (is_safe (get_state states i)) _ _
        (ap is_safe (inside i (omega arith) (omega arith))))
    ∙ find_begin_kept n states start (suc i) begin
        (λ k le lt. inside k (omega (arith, le)) (omega (arith, lt)))

find_begin_lem :
    (n : ℕ) (states : List ℕ) (start i b begin : ℕ)
    → i ≤ b
    → b < i + n
    → get_state states b ≡ delay_begin
    → ((k : ℕ) → b < k → k < i + n → get_state states k ≡ delay_cont)
    → find_begin n states start i begin ≡ start + b
unfolding find_begin
find_begin_lem zero states start i b begin le lt first inside = absurd (omega (arith, le, lt))
find_begin_lem (suc n) states start i b begin le lt first inside = elim (eq-cases i b) [
  | inl same ↦
      ap (find_begin n states start (suc i)) (
        if_true (is_safe (get_state states i)) _ _
          (ap (λ k. is_safe (get_state states k)) same ∙ ap is_safe first))
      ∙ find_begin_kept n states start (suc i) (start + i)
          (λ k le' lt'. inside k (omega (arith, same, le')) (omega (arith, lt')))
      ∙ ap (λ k. start + k) same
  | inr ne ↦
      find_begin_lem n states start (suc i) b _ (omega (arith, le, ne)) (omega (arith, lt)) first
        (λ k gt lt'. inside k gt (omega (arith, lt')))
]

length-zero_bytes : (n : ℕ) (bytes : List ℕ) → length (zero_bytes n bytes) ≡ length bytes
length-zero_bytes zero bytes = refl
length-zero_bytes (suc n) [] = refl
length-zero_bytes (suc n) (x ∷ bytes) = ap suc (length-zero_bytes n bytes)

zero_bytes-IsBytes : (n : ℕ) (bytes : List ℕ) → IsBytes bytes → IsBytes (zero_bytes n bytes)
zero_bytes-IsBytes zero bytes small j = small j
zero_bytes-IsBytes (suc n) [] small j = small j
zero_bytes-IsBytes (suc n) (x ∷ bytes) small zero = omega arith
zero_bytes-IsBytes (suc n) (x ∷ bytes) small (suc j) =
    zero_bytes-IsBytes n bytes (λ i. small (suc i)) j

-- The states that `initialise_state_bytes` leaves, at any piece of a block.
initialised-Shape :
    (ps : List Piece) (p : Piece) (qs : List Piece) (bytes : List ℕ) (num_bytes : ℕ)
    → IsBytes bytes
    → total (ps ++ p ∷ qs) ≤ 4 * length bytes
    → 4 * length bytes < 2 ^ 32
    → Shape p (initialise_state_bytes (instructions (ps ++ p ∷ qs)) bytes num_bytes) (total ps)
unfolding initialise_state_bytes
initialised-Shape ps p qs bytes num_bytes small room fits =
    let s : Scan = record {
      bytes = zero_bytes (num_state_bytes_for num_bytes) bytes;
      byte_offset = 0;
      prev_byte_offset = 0;
      prev_state = native;
      num_delayed = 0;
      prev_num_delayed = 0;
    } in
    let v : AtBoundary s (4 * length bytes) = record {
      packed = record {
        whole = zero_bytes-IsBytes (num_state_bytes_for num_bytes) bytes small;
        reaches = omega (arith, length-zero_bytes (num_state_bytes_for num_bytes) bytes);
      };
      many = λ e. omega (arith, e);
      many_before = λ e. omega (arith, e);
      resumes = refl;
    } in
    subst (Shape p (visit_all (instructions (ps ++ p ∷ qs)) s).bytes) (omega arith)
      (block-Shape ps p qs (4 * length bytes) s v (omega (arith, room)) fits)

unsafe_inside :
    (states : List ℕ) (o n e : ℕ)
    → o < n
    → n ≤ e
    → ((k : ℕ) → o < k → k < e → get_state states k ≡ delay_cont)
    → get_state states e ≡ delay_end
    → is_safe (get_state states n) ≡ false
unsafe_inside states o n e gt le inside last = elim (eq-cases n e) [
  | inl same ↦ ap (λ k. is_safe (get_state states k)) same ∙ ap is_safe last
  | inr ne ↦ ap is_safe (inside n gt (omega (arith, le, ne)))
]

-- An interrupt inside of a delay region, behind its first byte, must wait, and the range that it waits
-- for is the region, from its first byte to behind its last one. This is for a block made of whole
-- regions and of single instructions outside of them: a region is an instruction that begins it, any
-- number that have neither flag, and one that ends it, the first and the last not empty; an
-- instruction outside has both flags or neither. The states are those that the instructions of the
-- block set up in memory that is large enough, of less than 2 ^ 32 states, and the block does not
-- start at address 0.
pub delay_range_lem :
    (ps : List Piece) (a : ℕ) (ms : List ℕ) (b : ℕ) (qs : List Piece) (bytes : List ℕ)
    (num_bytes start offset : ℕ)
    → IsBytes bytes
    → total (ps ++ region a ms b ∷ qs) ≤ 4 * length bytes
    → 4 * length bytes < 2 ^ 32
    → 0 < start
    → total ps < offset
    → offset < total ps + size_of (region a ms b)
    → get_interrupt_delay_range
        (some (initialise_state_bytes (instructions (ps ++ region a ms b ∷ qs)) bytes num_bytes))
        (total (ps ++ region a ms b ∷ qs))
        start
        offset
      ≡ record {
        must_delay = true;
        begin = start + total ps;
        end = start + (total ps + size_of (region a ms b));
      }
unfolding get_interrupt_delay_range
delay_range_lem ps a ms b qs bytes num_bytes start offset small room fits real gt lt =
    let states = initialise_state_bytes (instructions (ps ++ region a ms b ∷ qs)) bytes num_bytes in
    let shape = initialised-Shape ps (region a ms b) qs bytes num_bytes small room fits in
    let o = total ps in
    let e = o + (suc a + sum ms + b) in
    let n = total (ps ++ region a ms b ∷ qs) in
    let not_safe = unsafe_inside states o offset e gt (omega (arith, lt)) shape.1 shape.2 in
    let end : find_end (n - offset) states start offset ≡ start + (o + size_of (region a ms b)) =
      find_end_lem (n - offset) states start offset e (omega (arith, lt))
        (omega (arith, lt, total-append ps (region a ms b) qs))
        (λ k le lt'. shape.1 k (omega (arith, gt, le)) lt') shape.2
      ∙ omega arith in
    let begin : find_begin offset states start 0 0 ≡ start + o =
      find_begin_lem offset states start 0 o 0 (omega arith) (omega (arith, gt)) shape.0
        (λ k gt' lt'. shape.1 k gt' (omega (arith, lt', lt))) in
    if_false ((offset == 0) || is_safe (get_state states offset)) _ _
      (unsafe_or offset (omega (arith, gt)) not_safe)
    ∙ ap
        (λ x. record {
          must_delay = not (x == 0) && not (find_begin offset states start 0 0 == 0);
          begin = find_begin offset states start 0 0;
          end = x;
        })
        end
    ∙ ap
        (λ x. record {
          must_delay = not (start + (o + size_of (region a ms b)) == 0) && not (x == 0);
          begin = x;
          end = start + (o + size_of (region a ms b));
        })
        begin
    ∙ ap
        (λ x. record {
          must_delay = x;
          begin = start + o;
          end = start + (o + size_of (region a ms b));
        })
        (both (start + (o + size_of (region a ms b))) (start + o) (omega (arith, real))
          (omega (arith, real)))
  where
    unsafe_or : {x : Bool} (n : ℕ) → 0 < n → x ≡ false → ((n == 0) || x) ≡ false
    unsafe_or {x} n pos e = ground (arith, pos, e)

    both : (x y : ℕ) → 0 < x → 0 < y → (not (x == 0) && not (y == 0)) ≡ true
    both x y p q = ground (arith, p, q)

    total-append :
        (ps : List Piece) (p : Piece) (qs : List Piece)
        → total (ps ++ p ∷ qs) ≡ total ps + size_of p + total qs
    total-append [] p qs = omega arith
    total-append (r ∷ ps) p qs = omega (arith, total-append ps p qs)

-- The places of a piece where an interrupt may come.
abbrev pub Interruptible : Piece → ℕ → ℕ → Type 0
Interruptible (plain both n) o offset = (o ≤ offset) × (offset < o + n)
Interruptible (region a ms b) o offset = offset ≡ o

-- In a block made of whole regions and of single instructions outside of them, an interrupt at an
-- instruction outside of the regions, or at the first byte of a region, is not delayed. As above, a
-- region is an instruction that begins it, any number that have neither flag, and one that ends it,
-- the first and the last not empty; an instruction outside has both flags or neither. The states are
-- those that the instructions of the block set up in memory that is large enough, of less than
-- 2 ^ 32 states.
pub no_delay_range_lem :
    (ps : List Piece) (p : Piece) (qs : List Piece) (bytes : List ℕ) (num_bytes start offset : ℕ)
    → IsBytes bytes
    → total (ps ++ p ∷ qs) ≤ 4 * length bytes
    → 4 * length bytes < 2 ^ 32
    → Interruptible p (total ps) offset
    → get_interrupt_delay_range
        (some (initialise_state_bytes (instructions (ps ++ p ∷ qs)) bytes num_bytes))
        (total (ps ++ p ∷ qs))
        start
        offset
      ≡ no_range
unfolding get_interrupt_delay_range
no_delay_range_lem ps p qs bytes num_bytes start offset small room fits at =
    let states = initialise_state_bytes (instructions (ps ++ p ∷ qs)) bytes num_bytes in
    let safe =
      safe_at p states (total ps) offset at
        (initialised-Shape ps p qs bytes num_bytes small room fits) in
    if_true ((offset == 0) || is_safe (get_state states offset)) _ _ (or_safe (offset == 0) safe)
  where
    or_safe : {y : Bool} (x : Bool) → y ≡ true → (x || y) ≡ true
    or_safe {y} x e = ground (arith, e)

    safe_at :
        (p : Piece) (states : List ℕ) (o n : ℕ)
        → Interruptible p o n
        → Shape p states o
        → is_safe (get_state states n) ≡ true
    safe_at (plain both n) states o offset at s = ap is_safe (s offset at.0 at.1)
    safe_at (region a ms b) states o offset at s =
        ap (λ k. is_safe (get_state states k)) at ∙ ap is_safe s.0
