-- ===== src/BlockInfo/Search.antt =====
-- The binary search for the fragment of an address (granary/basic_block_info.cc).
use mathlib.Core.Path.{subst}
use granary.BlockInfo.{
  BasicBlockInfo, Fragment, start_pc, end_pc, get_block, fragment_at, search_loop,
  search_basic_block_info,
}
use granary.Common.{
  ℕ, zero, suc, ◌+◌, ◌-◌, ◌/◌, ◌<◌, ◌≤◌, ◌≡◌, refl, ap, sym, ◌∙◌, ◌&&◌, ◌⊎◌, inl, inr, Option, some,
  none, List, [], ◌∷◌, ltb, leb, length, eq-cases, Bool-cases, if_true, if_false, ltb→lt, ltb→le,
  leb→le, arith,
}

-- The fragments stand in the order of their addresses, from `low` on, and do not overlap.
abbrev pub Sorted : ℕ → List Fragment → Type 0
Sorted low [] = Unit
Sorted low (f ∷ fs) = (low ≤ start_pc f) × (start_pc f ≤ end_pc f) × Sorted (end_pc f) fs

-- Does the fragment cover the address?
abbrev pub Covers : Fragment → ℕ → Type 0
Covers f pc = (start_pc f ≤ pc) × (pc < end_pc f)

above :
    (low : ℕ) (fs : List Fragment) (j : ℕ)
    → Sorted low fs
    → j < length fs
    → low ≤ start_pc (fragment_at fs j)
above low [] j s lt = absurd (omega arith)
above low (f ∷ fs) zero s lt = s.0
above low (f ∷ fs) (suc j) s lt =
    let rest = above (end_pc f) fs j s.2 (omega arith) in omega (arith, s.0, s.1, rest)

pub Sorted-apart :
    (low : ℕ) (fs : List Fragment) (i j : ℕ)
    → Sorted low fs
    → i < j
    → j < length fs
    → end_pc (fragment_at fs i) ≤ start_pc (fragment_at fs j)
Sorted-apart low [] i j s lt lt' = absurd (omega arith)
Sorted-apart low (f ∷ fs) i zero s lt lt' = absurd (omega arith)
Sorted-apart low (f ∷ fs) zero (suc j) s lt lt' = above (end_pc f) fs j s.2 (omega arith)
Sorted-apart low (f ∷ fs) (suc i) (suc j) s lt lt' =
    Sorted-apart (end_pc f) fs i j s.2 (omega arith) (omega arith)

ends_after :
    (low : ℕ) (fs : List Fragment) (j : ℕ)
    → Sorted low fs
    → j < length fs
    → start_pc (fragment_at fs j) ≤ end_pc (fragment_at fs j)
ends_after low [] j s lt = absurd (omega arith)
ends_after low (f ∷ fs) zero s lt = s.1
ends_after low (f ∷ fs) (suc j) s lt = ends_after (end_pc f) fs j s.2 (omega arith)

-- Every fragment before `first` ends at or before the address, and every one from `beyond` on
-- starts behind it.
abbrev Between : List Fragment → ℕ → ℕ → ℕ → Type 0
Between fs pc first beyond =
    ((i : ℕ) → i < first → end_pc (fragment_at fs i) ≤ pc)
    × ((i : ℕ) → beyond ≤ i → i < length fs → pc < start_pc (fragment_at fs i))

-- What a search has to answer.
abbrev pub Searched : List Fragment → ℕ → Option (Option BasicBlockInfo) → Type 0
Searched fs pc answer =
    ((i : ℕ) × (i < length fs)
      × Covers (fragment_at fs i) pc
      × (answer ≡ some (get_block (fragment_at fs i) pc)))
    ⊎ ((answer ≡ some none)
        × ((i : ℕ)
            → i < length fs
            → (end_pc (fragment_at fs i) ≤ pc) ⊎ (pc < start_pc (fragment_at fs i))))

answer :
    (fs : List Fragment) (pc : ℕ) (found given : Option (Option BasicBlockInfo))
    → found ≡ given
    → Searched fs pc given
    → Searched fs pc found
answer fs pc found given e h = subst (Searched fs pc) (sym e) h

search_loop-Searched :
    (low : ℕ) (fs : List Fragment) (pc fuel first beyond : ℕ)
    → Sorted low fs
    → first ≤ beyond
    → beyond ≤ length fs
    → beyond < first + fuel
    → Between fs pc first beyond
    → Searched fs pc (search_loop fuel fs first beyond pc)
unfolding search_loop
search_loop-Searched low fs pc zero first beyond s le le' enough b = absurd (omega arith)
search_loop-Searched low fs pc (suc fuel) first beyond s le le' enough b =
    let middle = (first + beyond - 1) / 2 in
    let f = fragment_at fs middle in
    let test = leb first middle && ltb middle beyond in
    elim (Bool-cases test) [
      | inr over ↦
          let met : beyond ≤ first = ground (arith, over) in
          answer fs pc _ _ (if_false test _ _ over) (
            inr (
              refl,
              λ i lt. elim (Bool-cases (ltb i first)) [
                | inl low_part ↦ inl (b.0 i (ltb→lt i first low_part))
                | inr high_part ↦ inr (b.1 i (omega (arith, ltb→le i first high_part, met)) lt)
              ],
            ))
      | inl going ↦
          let up : first ≤ middle = ground (arith, going) in
          let down : middle < beyond = ground (arith, going) in
          elim (Bool-cases (leb (start_pc f) pc)) [
            | inr before ↦
                let early : pc < start_pc f = ground (arith, before) in
                answer fs pc _ _
                  (if_true test _ _ going ∙ if_false (leb (start_pc f) pc) _ _ before)
                  (search_loop-Searched low fs pc fuel first middle s up (omega arith) (omega arith)
                    (
                      b.0,
                      λ i le'' lt. elim (eq-cases i middle) [
                        | inl e ↦
                            omega (arith, early, ap (λ (k : ℕ). start_pc (fragment_at fs k)) e)
                        | inr ne ↦ omega (
                          arith,
                          early,
                          ends_after low fs middle s (omega arith),
                          Sorted-apart low fs middle i s (omega (arith, ne)) lt,
                        )
                      ],
                    ))
            | inl after ↦
                let late : start_pc f ≤ pc = leb→le (start_pc f) pc after in
                elim (Bool-cases (ltb pc (end_pc f))) [
                  | inl here ↦
                      answer fs pc _ _
                        (if_true test _ _ going
                          ∙ if_true (leb (start_pc f) pc) _ _ after
                          ∙ if_true (ltb pc (end_pc f)) _ _ here)
                        (inl (middle, omega arith, (late, ltb→lt pc (end_pc f) here), refl))
                  | inr behind ↦
                      let done : end_pc f ≤ pc = ltb→le pc (end_pc f) behind in
                      answer fs pc _ _
                        (if_true test _ _ going
                          ∙ if_true (leb (start_pc f) pc) _ _ after
                          ∙ if_false (ltb pc (end_pc f)) _ _ behind)
                        (search_loop-Searched low fs pc fuel (middle + 1) beyond s (omega arith) le'
                          (omega arith)
                          (
                            λ i lt. elim (eq-cases i middle) [
                              | inl e ↦
                                  omega (arith, done, ap (λ (k : ℕ). end_pc (fragment_at fs k)) e)
                              | inr ne ↦ omega (
                                arith,
                                late,
                                Sorted-apart low fs i middle s (omega (arith, ne)) (omega arith),
                              )
                            ],
                            b.1,
                          ))
                ]
          ]
    ]

-- In a sorted table `search_basic_block_info` always returns, within one round more than there are
-- fragments: what the fragment that covers the address has for it, or null if none covers it.
pub search_basic_block_info_lem :
    (low : ℕ) (fs : List Fragment) (pc : ℕ)
    → Sorted low fs
    → Searched fs pc (search_basic_block_info fs pc)
unfolding search_basic_block_info
search_basic_block_info_lem low fs pc s =
    search_loop-Searched low fs pc (length fs + 1) 0 (length fs) s (omega arith) (omega arith)
      (omega arith) (λ i lt. absurd (omega arith), λ i le lt. absurd (omega arith))
