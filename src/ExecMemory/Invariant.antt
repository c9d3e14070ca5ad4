-- ===== src/ExecMemory/Invariant.antt =====
-- What holds of the requests for executable memory (granary/allocator.cc) in every reachable state.
use granary.Common.{ℕ, ◌+◌, ◌^◌, ◌<◌, ◌≤◌, ◌≡◌, ◌≢◌, refl, sym, Bool, true, false, arith}
use granary.ExecMemory.{
  MemoryKind, exec_code_cache, exec_gen_code, exec_wrapper, exec_unknown, ExecMemory, reserve,
  fragment_cache_max_size,
}
use granary.ExecMemory.Steps.{Request, System, NoWrap}
use mathlib.Core.Bool.{true≢false}

abbrev pub end_of : Request → ℕ
end_of r = r.mem + r.size

-- The part of the area where a request of a kind lies.
abbrev pub Inside : ExecMemory → MemoryKind → ℕ → ℕ → Type 0
Inside m exec_code_cache mem end = (m.exec_start ≤ mem) × (end ≤ m.code_cache_end)
Inside m exec_gen_code mem end = (m.gen_code_start ≤ mem) × (end ≤ m.wrapper_start)
Inside m exec_wrapper mem end = (m.wrapper_start ≤ mem) × (end ≤ m.wrapper_end)
Inside m exec_unknown mem end = Unit {0}

-- A request and a later one of the same kind do not overlap.
abbrev pub Apart : MemoryKind → ℕ → ℕ → MemoryKind → ℕ → ℕ → Type 0
Apart exec_code_cache mem end exec_code_cache mem' end' = end ≤ mem'
Apart exec_gen_code mem end exec_gen_code mem' end' = end' ≤ mem
Apart exec_wrapper mem end exec_wrapper mem' end' = end ≤ mem'
Apart _ mem end _ mem' end' = Unit {0}

-- Granted code cache memory ends before granted generated code.
abbrev pub Cross : MemoryKind → Bool → ℕ → MemoryKind → Bool → ℕ → Type 0
Cross exec_code_cache g end exec_gen_code g' mem' = g ≡ true → g' ≡ true → end ≤ mem'
Cross _ g end _ g' mem' = Unit {0}

-- What its check says of a granted request.
abbrev pub Settled : ExecMemory → MemoryKind → Bool → ℕ → Type 0
Settled m exec_code_cache g end = g ≡ true → end ≤ m.wrapper_start
Settled m exec_wrapper g end = g ≡ true → end ≤ m.exec_end
Settled m exec_gen_code g end = Unit {0}
Settled m exec_unknown g end = g ≢ true

pub record IsBounds (m : ExecMemory) : Type 0 where
  pub layout : m.wrapper_start ≡ m.exec_start + fragment_cache_max_size
  pub code : m.exec_start ≤ m.code_cache_end
  pub gen : m.gen_code_start ≤ m.wrapper_start
  pub wrapper : m.wrapper_start ≤ m.wrapper_end
  pub inner : m.wrapper_start ≤ m.exec_end
  pub code_fits : m.code_cache_end < 2 ^ 64
  pub wrapper_fits : m.wrapper_end < 2 ^ 64

pub record IsSystem (s : System) : Type 0 where
  pub bounds : IsBounds s.bounds
  pub inside :
      (i : ℕ)
      → i < s.count
      → Inside s.bounds (s.requests i).kind (s.requests i).mem (end_of (s.requests i))
  pub apart :
      (i j : ℕ)
      → i < j
      → j < s.count
      → Apart
          (s.requests i).kind
          (s.requests i).mem
          (end_of (s.requests i))
          (s.requests j).kind
          (s.requests j).mem
          (end_of (s.requests j))
  pub cross :
      (i j : ℕ)
      → i < s.count
      → j < s.count
      → Cross
          (s.requests i).kind
          (s.requests i).granted
          (end_of (s.requests i))
          (s.requests j).kind
          (s.requests j).granted
          (s.requests j).mem
  pub settled :
      (i : ℕ)
      → i < s.count
      → Settled s.bounds (s.requests i).kind (s.requests i).granted (end_of (s.requests i))

-- The bounds move outwards only.
pub record Wider (m m' : ExecMemory) : Type 0 where
  pub start : m'.exec_start ≡ m.exec_start
  pub end : m'.exec_end ≡ m.exec_end
  pub wrapper_start : m'.wrapper_start ≡ m.wrapper_start
  pub code : m.code_cache_end ≤ m'.code_cache_end
  pub gen : m'.gen_code_start ≤ m.gen_code_start
  pub wrapper : m.wrapper_end ≤ m'.wrapper_end

pub Inside-Wider :
    (m m' : ExecMemory) (k : MemoryKind) (mem end : ℕ)
    → Wider m m'
    → Inside m k mem end
    → Inside m' k mem end
Inside-Wider m m' exec_code_cache mem end w h =
    (omega (arith, w.start, h.0), omega (arith, w.code, h.1))
Inside-Wider m m' exec_gen_code mem end w h =
    (omega (arith, w.gen, h.0), omega (arith, w.wrapper_start, h.1))
Inside-Wider m m' exec_wrapper mem end w h =
    (omega (arith, w.wrapper_start, h.0), omega (arith, w.wrapper, h.1))
Inside-Wider m m' exec_unknown mem end w h = tt

pub Settled-Wider :
    (m m' : ExecMemory) (k : MemoryKind) (g : Bool) (end : ℕ)
    → Wider m m'
    → Settled m k g end
    → Settled m' k g end
Settled-Wider m m' exec_code_cache g end w h = λ e. omega (arith, w.wrapper_start, h e)
Settled-Wider m m' exec_gen_code g end w h = tt
Settled-Wider m m' exec_wrapper g end w h = λ e. omega (arith, w.end, h e)
Settled-Wider m m' exec_unknown g end w h = h

-- What an update gives.
pub record Reserved (kind : MemoryKind) (size : ℕ) (m : ExecMemory) (mem : ℕ) (m' : ExecMemory)
    : Type 0 where
  pub bounds : IsBounds m'
  pub wider : Wider m m'
  pub inside : Inside m' kind mem (mem + size)

-- A request behind all those that lie inside of the bounds.
pub Apart-new :
    (kind k : MemoryKind) (size : ℕ) (m : ExecMemory) (mem end : ℕ)
    → IsBounds m
    → NoWrap kind size m
    → Inside m k mem end
    → Apart k mem end kind (reserve kind size m).0 ((reserve kind size m).0 + size)
unfolding reserve
Apart-new exec_code_cache exec_code_cache size m mem end b fits h = h.1
Apart-new exec_code_cache exec_gen_code size m mem end b fits h = tt
Apart-new exec_code_cache exec_wrapper size m mem end b fits h = tt
Apart-new exec_code_cache exec_unknown size m mem end b fits h = tt
Apart-new exec_gen_code exec_code_cache size m mem end b fits h = tt
Apart-new exec_gen_code exec_gen_code size m mem end b fits h = omega (arith, h.0)
Apart-new exec_gen_code exec_wrapper size m mem end b fits h = tt
Apart-new exec_gen_code exec_unknown size m mem end b fits h = tt
Apart-new exec_wrapper exec_code_cache size m mem end b fits h = tt
Apart-new exec_wrapper exec_gen_code size m mem end b fits h = tt
Apart-new exec_wrapper exec_wrapper size m mem end b fits h = h.1
Apart-new exec_wrapper exec_unknown size m mem end b fits h = tt
Apart-new exec_unknown exec_code_cache size m mem end b fits h = tt
Apart-new exec_unknown exec_gen_code size m mem end b fits h = tt
Apart-new exec_unknown exec_wrapper size m mem end b fits h = tt
Apart-new exec_unknown exec_unknown size m mem end b fits h = tt

pub reserve-Reserved :
    (kind : MemoryKind) (size : ℕ) (m : ExecMemory)
    → IsBounds m
    → NoWrap kind size m
    → Reserved kind size m (reserve kind size m).0 (reserve kind size m).1
unfolding reserve
reserve-Reserved exec_code_cache size m b fits = record {
  bounds = record {
    layout = b.layout;
    code = omega arith;
    gen = b.gen;
    wrapper = b.wrapper;
    inner = b.inner;
    code_fits = omega arith;
    wrapper_fits = b.wrapper_fits;
  };
  wider = record {
    start = refl;
    end = refl;
    wrapper_start = refl;
    code = omega arith;
    gen = omega arith;
    wrapper = omega arith;
  };
  inside = (b.code, omega arith);
}
reserve-Reserved exec_gen_code size m b fits = record {
  bounds = record {
    layout = b.layout;
    code = b.code;
    gen = omega arith;
    wrapper = b.wrapper;
    inner = b.inner;
    code_fits = b.code_fits;
    wrapper_fits = b.wrapper_fits;
  };
  wider = record {
    start = refl;
    end = refl;
    wrapper_start = refl;
    code = omega arith;
    gen = omega arith;
    wrapper = omega arith;
  };
  inside = (omega arith, omega arith);
}
reserve-Reserved exec_wrapper size m b fits = record {
  bounds = record {
    layout = b.layout;
    code = b.code;
    gen = b.gen;
    wrapper = omega arith;
    inner = b.inner;
    code_fits = b.code_fits;
    wrapper_fits = omega arith;
  };
  wider = record {
    start = refl;
    end = refl;
    wrapper_start = refl;
    code = omega arith;
    gen = omega arith;
    wrapper = omega arith;
  };
  inside = (b.wrapper, omega arith);
}
reserve-Reserved exec_unknown size m b fits = record {
  bounds = b;
  wider = record {
    start = refl;
    end = refl;
    wrapper_start = refl;
    code = omega arith;
    gen = omega arith;
    wrapper = omega arith;
  };
  inside = tt;
}

-- A request that is not granted crosses nothing.
pub uncrossed_right :
    (k : MemoryKind) (g : Bool) (end : ℕ) (k' : MemoryKind) (mem' : ℕ) → Cross k g end k' false mem'
uncrossed_right exec_code_cache g end exec_code_cache mem' = tt
uncrossed_right exec_code_cache g end exec_gen_code mem' = λ e e'. absurd (true≢false (sym e'))
uncrossed_right exec_code_cache g end exec_wrapper mem' = tt
uncrossed_right exec_code_cache g end exec_unknown mem' = tt
uncrossed_right exec_gen_code g end k' mem' = tt
uncrossed_right exec_wrapper g end k' mem' = tt
uncrossed_right exec_unknown g end k' mem' = tt

pub uncrossed_left :
    (k : MemoryKind) (end : ℕ) (k' : MemoryKind) (g' : Bool) (mem' : ℕ)
    → Cross k false end k' g' mem'
uncrossed_left exec_code_cache end exec_code_cache g' mem' = tt
uncrossed_left exec_code_cache end exec_gen_code g' mem' = λ e e'. absurd (true≢false (sym e))
uncrossed_left exec_code_cache end exec_wrapper g' mem' = tt
uncrossed_left exec_code_cache end exec_unknown g' mem' = tt
uncrossed_left exec_gen_code end k' g' mem' = tt
uncrossed_left exec_wrapper end k' g' mem' = tt
uncrossed_left exec_unknown end k' g' mem' = tt

pub unsettled : (m : ExecMemory) (k : MemoryKind) (end : ℕ) → Settled m k false end
unsettled m exec_code_cache end = λ e. absurd (true≢false (sym e))
unsettled m exec_gen_code end = tt
unsettled m exec_wrapper end = λ e. absurd (true≢false (sym e))
unsettled m exec_unknown end = λ e. true≢false (sym e)
