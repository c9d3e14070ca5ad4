-- ===== src/BlockInfo/Blocks.antt =====
-- Storing, finding and removing the basic blocks of traces (granary/basic_block_info.cc).
use granary.BlockInfo.{
  BasicBlockInfo, TraceInfo, Fragment, block, trace, start_pc, end_pc, get_block, first_block,
  is_in, fragment_at, fragment_of, search_basic_block_info, store_trace_meta_info,
  remove_basic_block_info, is_removable, max_bbs_per_slab,
}
use granary.BlockInfo.Search.{Sorted, Covers, search_basic_block_info_lem}
use granary.Common.{
  ℕ, zero, suc, ◌+◌, ◌<◌, ◌≤◌, ◌≡◌, refl, ap, sym, ◌∙◌, inl, inr, some, List, [], ◌∷◌, ◌++◌, length,
  length-append, Bool-cases, if_true, if_false, arith, Bool, true, false, Option, none, ◌>>=◌, ◌==◌,
  ◌&&◌, ltb, if◌then◌else◌, ==-false,
}
use mathlib.Core.Path.{subst}

-- The blocks follow each other without gaps, from one address to another.
abbrev pub Tiles : ℕ → List BasicBlockInfo → ℕ → Type 0
Tiles low [] high = low ≡ high
Tiles low (b ∷ bs) high = (b.start_pc ≡ low) × Tiles (b.start_pc + b.num_bytes) bs high

abbrev pub IsTrace : TraceInfo → Type 0
IsTrace t = Tiles t.start_pc t.blocks (t.start_pc + t.num_bytes)

abbrev pub Whole : Fragment → Type 0
Whole (block b) = Unit
Whole (trace t) = IsTrace t

abbrev pub AllWhole : List Fragment → Type 0
AllWhole [] = Unit
AllWhole (f ∷ fs) = Whole f × AllWhole fs

-- A block that has the address.
abbrev pub Has : ℕ → BasicBlockInfo → Type 0
Has pc b = (b.start_pc ≤ pc) × (pc < b.start_pc + b.num_bytes)

first_block-Tiles :
    (low : ℕ) (bs : List BasicBlockInfo) (high pc : ℕ)
    → Tiles low bs high
    → low ≤ pc
    → pc < high
    → (b : BasicBlockInfo) × (first_block pc bs ≡ some b) × Has pc b
first_block-Tiles low [] high pc t le lt = absurd (omega (arith, t))
first_block-Tiles low (b ∷ bs) high pc t le lt = elim (Bool-cases (is_in pc b)) [
  | inl here ↦ (b, if_true (is_in pc b) _ _ here, (ground (arith, here), ground (arith, here)))
  | inr behind ↦
      let past : b.start_pc + b.num_bytes ≤ pc = ground (arith, behind, t.0) in
      let rest = first_block-Tiles (b.start_pc + b.num_bytes) bs high pc t.1 past lt in
      (rest.0, if_false (is_in pc b) _ _ behind ∙ rest.1, rest.2)
]

get_block-Has :
    (f : Fragment) (pc : ℕ)
    → Whole f
    → Covers f pc
    → (b : BasicBlockInfo) × (get_block f pc ≡ some b) × Has pc b
unfolding get_block
get_block-Has (block b) pc w c = (b, refl, (c.0, c.1))
get_block-Has (trace t) pc w c =
    first_block-Tiles t.start_pc t.blocks (t.start_pc + t.num_bytes) pc w c.0 c.1

Whole-at : (fs : List Fragment) (i : ℕ) → AllWhole fs → i < length fs → Whole (fragment_at fs i)
Whole-at [] i w lt = absurd (omega arith)
Whole-at (f ∷ fs) zero w lt = w.0
Whole-at (f ∷ fs) (suc i) w lt = Whole-at fs i w.1 (omega arith)

-- In a sorted table whose traces have their blocks one behind the other, every address that some
-- fragment covers is found: the answer is a basic block that has it.
pub search-Has :
    (low : ℕ) (fs : List Fragment) (i pc : ℕ)
    → Sorted low fs
    → AllWhole fs
    → i < length fs
    → Covers (fragment_at fs i) pc
    → (b : BasicBlockInfo) × (search_basic_block_info fs pc ≡ some (some b)) × Has pc b
search-Has low fs i pc s w lt c = elim (search_basic_block_info_lem low fs pc s) [
  | inl (j, lt', c', e) ↦
      let b = get_block-Has (fragment_at fs j) pc (Whole-at fs j w lt') c' in
      (b.0, e ∙ ap some b.1, b.2)
  | inr (e, gone) ↦ elim (gone i lt) [
    | inl early ↦ absurd (omega (arith, early, c.1))
    | inr late ↦ absurd (omega (arith, late, c.0))
  ]
]

-- Where the fragments end.
abbrev pub last_end : ℕ → List Fragment → ℕ
last_end low [] = low
last_end low (f ∷ fs) = last_end (end_pc f) fs

Sorted-append :
    (low : ℕ) (fs : List Fragment) (f : Fragment)
    → Sorted low fs
    → last_end low fs ≤ start_pc f
    → start_pc f ≤ end_pc f
    → Sorted low (fs ++ (f ∷ []))
Sorted-append low [] f s le le' = (le, le', tt)
Sorted-append low (g ∷ fs) f s le le' = (s.0, s.1, Sorted-append (end_pc g) fs f s.2 le le')

AllWhole-append :
    (fs : List Fragment) (f : Fragment) → AllWhole fs → Whole f → AllWhole (fs ++ (f ∷ []))
AllWhole-append [] f w h = (h, tt)
AllWhole-append (g ∷ fs) f w h = (w.0, AllWhole-append fs f w.1 h)

at_end : (fs : List Fragment) (f : Fragment) → fragment_at (fs ++ (f ∷ [])) (length fs) ≡ f
at_end [] f = refl
at_end (g ∷ fs) f = at_end fs f

kept_in_front :
    (b : Bool) (g : Fragment) (fs : List Fragment)
    → ((if b then some fs else none) >>= λ rest. some (g ∷ rest))
      ≡ (if b then some (g ∷ fs) else none)
kept_in_front true g fs = refl
kept_in_front false g fs = refl

remove-append :
    (fs : List Fragment) (f : Fragment) (pc : ℕ)
    → remove_basic_block_info pc (fs ++ (f ∷ [])) ≡ (if is_removable f pc then some fs else none)
unfolding remove_basic_block_info
remove-append [] f pc = refl
remove-append (g ∷ []) f pc = kept_in_front (is_removable f pc) g []
remove-append (g ∷ h ∷ fs) f pc =
    ap (λ (x : Option (List Fragment)). x >>= λ rest. some (g ∷ rest)) (remove-append (h ∷ fs) f pc)
    ∙ kept_in_front (is_removable f pc) g (h ∷ fs)

-- Only a single block can be removed.
fragment_of-is_removable :
    (t : TraceInfo) (bs : List BasicBlockInfo) (pc : ℕ)
    → Tiles t.start_pc bs (t.start_pc + t.num_bytes)
    → t.start_pc ≤ pc
    → 0 < length bs
    → is_removable (fragment_of t bs) pc ≡ (length bs == 1)
fragment_of-is_removable t [] pc i le some_block = absurd (omega arith)
fragment_of-is_removable t (b ∷ []) pc i le some_block = ground (arith, i.0, le)
fragment_of-is_removable t (b ∷ b' ∷ bs) pc i le some_block = sym (==-false _ 1 (omega arith))

-- A fragment covers the addresses of its trace.
record Spans (t : TraceInfo) (f : Fragment) : Type 0 where
  whole : Whole f
  start : start_pc f ≡ t.start_pc
  end : end_pc f ≡ t.start_pc + t.num_bytes

whole_of :
    (t : TraceInfo) (bs : List BasicBlockInfo)
    → t.blocks ≡ bs
    → Tiles t.start_pc bs (t.start_pc + t.num_bytes)
    → IsTrace t
whole_of t bs e i =
    subst (λ (xs : List BasicBlockInfo). Tiles t.start_pc xs (t.start_pc + t.num_bytes)) (sym e) i

fragment_of-Spans :
    (t : TraceInfo) (bs : List BasicBlockInfo)
    → t.blocks ≡ bs
    → Tiles t.start_pc bs (t.start_pc + t.num_bytes)
    → Spans t (fragment_of t bs)
fragment_of-Spans t [] e i = record { whole = whole_of t [] e i; start = refl; end = refl }
fragment_of-Spans t (b ∷ []) e i = record { whole = tt; start = i.0; end = i.1 }
fragment_of-Spans t (b ∷ b' ∷ bs) e i = record {
  whole = whole_of t (b ∷ b' ∷ bs) e i;
  start = refl;
  end = refl;
}

-- In a sorted table that is not full and whose traces have their blocks one behind the other, a trace
-- behind all fragments, of one block at least, whose blocks follow each other without gaps, is stored,
-- and the table stays sorted and its traces without gaps. Every address of the trace is then found, as
-- a basic block that has it. From there, `remove_basic_block_info` gives the table that was there if
-- the trace is a single block, and fails by its assertion if it has several. A full table takes no
-- trace: there the store fails by its assertion.
pub store-search-remove :
    (low : ℕ) (fs : List Fragment) (t : TraceInfo)
    → Sorted low fs
    → AllWhole fs
    → IsTrace t
    → 0 < length t.blocks
    → length fs < max_bbs_per_slab
    → last_end low fs ≤ t.start_pc
    → (fs' : List Fragment) × (store_trace_meta_info t fs ≡ some fs')
      × Sorted low fs'
      × AllWhole fs'
      × ((pc : ℕ)
          → t.start_pc ≤ pc
          → pc < t.start_pc + t.num_bytes
          → (b : BasicBlockInfo) × (search_basic_block_info fs' pc ≡ some (some b)) × Has pc b)
      × ((pc : ℕ)
          → t.start_pc ≤ pc
          → pc < t.start_pc + t.num_bytes
          → remove_basic_block_info pc fs' ≡ (if length t.blocks == 1 then some fs else none))
      × ((full : List Fragment)
          → max_bbs_per_slab ≤ length full
          → store_trace_meta_info t full ≡ none)
unfolding store_trace_meta_info
store-search-remove low fs t s w i some_block room le =
    let f = fragment_of t t.blocks in
    let p = fragment_of-Spans t t.blocks refl i in
    let sorted =
      Sorted-append low fs f s (omega (arith, p.start, le)) (omega (arith, p.start, p.end)) in
    let wholes = AllWhole-append fs f w p.whole in
    (
      fs ++ (f ∷ []),
      if_true (ltb 0 (length t.blocks) && ltb (length fs) max_bbs_per_slab) _ _
          (ground (arith, some_block, room)),
      sorted,
      wholes,
      λ pc from to.
          search-Has low (fs ++ (f ∷ [])) (length fs) pc sorted wholes
            (omega (arith, length-append fs (f ∷ [])))
            (subst (λ (g : Fragment). Covers g pc) (sym (at_end fs f))
              (omega (arith, p.start, from), omega (arith, p.end, to))),
      λ pc from to.
          remove-append fs f pc
          ∙ ap (λ b. if b then some fs else none)
              (fragment_of-is_removable t t.blocks pc i from some_block),
      λ full le.
          if_false (ltb 0 (length t.blocks) && ltb (length full) max_bbs_per_slab) _ _
            (ground (arith, le)),
    )
