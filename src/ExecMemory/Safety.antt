-- ===== src/ExecMemory/Safety.antt =====
-- Executable memory is never given out twice (granary/allocator.cc), however the processors that
-- allocate it are interleaved.
use granary.Common.Words.{u32, u64}
use granary.Common.{
  ℕ, ◌+◌, ◌-◌, ◌*◌, ◌/◌, ◌^◌, ◌<◌, ◌≤◌, ◌≡◌, refl, Bool, true, false, arith, ◌⊎◌, inl, inr,
}
use granary.ExecMemory.{
  MemoryKind, exec_code_cache, exec_gen_code, exec_wrapper, exec_unknown, ExecMemory,
  code_cache_size, is_code_cache_address, is_wrapper_address, is_gencode_address,
  granary_find_fragment_slab, max_num_fragment_slabs, fragment_cache_max_size,
}
use granary.ExecMemory.Invariant.{end_of, Inside, Apart, Cross, Settled, IsBounds}
use granary.ExecMemory.Steps.{Request, System, Reach}
use mathlib.Core.Path.{subst}
use native.Mathlib.Nat.{div-lt_iff_lt-mul}
use granary.ExecMemory.Kept.{Reach-IsSystem}

no_overlap :
    (m : ExecMemory) (k : MemoryKind) (mem end : ℕ) (k' : MemoryKind) (mem' end' : ℕ)
    → IsBounds m
    → Inside m k mem end
    → Inside m k' mem' end'
    → Apart k mem end k' mem' end'
    → Cross k true end k' true mem'
    → Cross k' true end' k true mem
    → Settled m k true end
    → Settled m k' true end'
    → (end ≤ mem') ⊎ (end' ≤ mem)
no_overlap m exec_code_cache mem end exec_code_cache mem' end' b h h' a c c' t t' = inl a
no_overlap m exec_code_cache mem end exec_gen_code mem' end' b h h' a c c' t t' = inl (c refl refl)
no_overlap m exec_code_cache mem end exec_wrapper mem' end' b h h' a c c' t t' =
    inl (omega (arith, t refl, h'.0))
no_overlap m exec_gen_code mem end exec_code_cache mem' end' b h h' a c c' t t' = inr (c' refl refl)
no_overlap m exec_gen_code mem end exec_gen_code mem' end' b h h' a c c' t t' = inr a
no_overlap m exec_gen_code mem end exec_wrapper mem' end' b h h' a c c' t t' =
    inl (omega (arith, h.1, h'.0))
no_overlap m exec_wrapper mem end exec_code_cache mem' end' b h h' a c c' t t' =
    inr (omega (arith, h.0, t' refl))
no_overlap m exec_wrapper mem end exec_gen_code mem' end' b h h' a c c' t t' =
    inr (omega (arith, h.0, h'.1))
no_overlap m exec_wrapper mem end exec_wrapper mem' end' b h h' a c c' t t' = inl a
no_overlap m exec_unknown mem end k' mem' end' b h h' a c c' t t' = absurd (t refl)
no_overlap m k mem end exec_unknown mem' end' b h h' a c c' t t' = absurd (t' refl)

-- In every state that the processors can reach together, whatever the order of their updates and
-- checks, two allocations of executable memory that have succeeded do not overlap; where no request
-- wraps the addresses of 64 bits.
pub granted_disjoint :
    (area : ℕ) (s : System) (i j : ℕ)
    → area + code_cache_size < 2 ^ 64
    → Reach area s
    → i < j
    → j < s.count
    → (s.requests i).granted ≡ true
    → (s.requests j).granted ≡ true
    → (end_of (s.requests i) ≤ (s.requests j).mem) ⊎ (end_of (s.requests j) ≤ (s.requests i).mem)
granted_disjoint area s i j fits r below lt g g' =
    let v = Reach-IsSystem area s fits r in
    let lt_i : i < s.count = omega (arith, below, lt) in
    let a = s.requests i in
    let b = s.requests j in
    no_overlap s.bounds a.kind a.mem (end_of a) b.kind b.mem (end_of b) v.bounds (v.inside i lt_i)
      (v.inside j lt) (v.apart i j below lt) (cross_of a b g g' (v.cross i j lt_i lt))
      (cross_of b a g' g (v.cross j i lt lt_i))
      (subst (λ (x : Bool). Settled s.bounds a.kind x (end_of a)) g (v.settled i lt_i))
      (subst (λ (x : Bool). Settled s.bounds b.kind x (end_of b)) g' (v.settled j lt))
  where
    cross_of :
        (a b : Request)
        → a.granted ≡ true
        → b.granted ≡ true
        → Cross a.kind a.granted (end_of a) b.kind b.granted b.mem
        → Cross a.kind true (end_of a) b.kind true b.mem
    cross_of a b g g' c =
        subst (λ (x : Bool). Cross a.kind true (end_of a) b.kind x b.mem) g'
          (subst (λ (x : Bool). Cross a.kind x (end_of a) b.kind b.granted b.mem) g c)

-- What the tests of an address say of an address in granted memory of a kind.
abbrev pub Classified : ℕ → ExecMemory → MemoryKind → ℕ → Type 0
Classified slab_size m exec_code_cache addr =
    (is_code_cache_address m addr ≡ true)
    × (is_wrapper_address m addr ≡ false)
    × (granary_find_fragment_slab slab_size m addr < max_num_fragment_slabs slab_size)
Classified slab_size m exec_gen_code addr =
    (is_gencode_address m addr ≡ true) × (is_wrapper_address m addr ≡ false)
Classified slab_size m exec_wrapper addr =
    (is_wrapper_address m addr ≡ true) × (is_gencode_address m addr ≡ false)
Classified slab_size m exec_unknown addr = ⊥

slab_index :
    (k start addr n : ℕ)
    → 0 < k
    → n ≤ fragment_cache_max_size
    → start ≤ addr
    → addr < 2 ^ 64
    → addr - start < n * k
    → u32 (u64 (addr + 2 ^ 64 - start) / k) < n
slab_index k start addr n pos small le top lt =
    let same : u64 (addr + 2 ^ 64 - start) ≡ addr - start = omega arith in
    let below : (addr - start) / k < n = (div-lt_iff_lt-mul pos).1 lt in
    rw same (omega (arith, below, small))

classify :
    (slab_size : ℕ) (m : ExecMemory) (k : MemoryKind) (mem end addr : ℕ)
    → IsBounds m
    → 0 < slab_size
    → max_num_fragment_slabs slab_size * slab_size ≡ fragment_cache_max_size
    → Inside m k mem end
    → Settled m k true end
    → mem ≤ addr
    → addr < end
    → Classified slab_size m k addr
unfolding is_code_cache_address is_wrapper_address is_gencode_address granary_find_fragment_slab
classify slab_size m exec_code_cache mem end addr b pos whole h t le lt = (
  ground (arith, h.0, h.1),
  ground (arith, t refl),
  slab_index slab_size m.exec_start addr (max_num_fragment_slabs slab_size) pos (omega arith)
      (omega (arith, h.0, le)) (omega (arith, lt, h.1, b.code_fits))
      (omega (arith, whole, b.layout, t refl, lt)),
)
classify slab_size m exec_gen_code mem end addr b pos whole h t le lt =
    (ground (arith, h.0, h.1), ground (arith, h.1))
classify slab_size m exec_wrapper mem end addr b pos whole h t le lt =
    (ground (arith, h.0, h.1), ground (arith, h.0))
classify slab_size m exec_unknown mem end addr b pos whole h t le lt = absurd (t refl)

-- In every such state an address in granted memory is told apart by its kind: an address of the code
-- cache is one by `is_code_cache_address` and none of a wrapper, and its slab is inside of
-- `FRAGMENT_SLABS`, for a slab size that divides the fragment cache; an address of generated code is
-- one by `is_gencode_address` and none of a wrapper; and an address of a wrapper is one by
-- `is_wrapper_address` and none of generated code.
pub granted-Classified :
    (area slab_size : ℕ) (s : System) (i addr : ℕ)
    → area + code_cache_size < 2 ^ 64
    → 0 < slab_size
    → max_num_fragment_slabs slab_size * slab_size ≡ fragment_cache_max_size
    → Reach area s
    → i < s.count
    → (s.requests i).granted ≡ true
    → (s.requests i).mem ≤ addr
    → addr < end_of (s.requests i)
    → Classified slab_size s.bounds (s.requests i).kind addr
granted-Classified area slab_size s i addr fits pos whole r lt g le lt' =
    let v = Reach-IsSystem area s fits r in
    let q = s.requests i in
    classify slab_size s.bounds q.kind q.mem (end_of q) addr v.bounds pos whole (v.inside i lt)
      (subst (λ (x : Bool). Settled s.bounds q.kind x (end_of q)) g (v.settled i lt)) le lt'
