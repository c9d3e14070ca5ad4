-- ===== src/ExecMemory/Tests.antt =====
-- Two processors that allocate executable memory (granary/allocator.cc) at the same time.
use granary.Common.{◌≤◌, ◌⊎◌, refl, arith}
use granary.ExecMemory.{exec_code_cache, exec_gen_code, init_code_cache, reserve, passes}
use granary.ExecMemory.Invariant.{end_of}
use granary.ExecMemory.Steps.{System, reserves, grants, Reach, booted, stepped}
use granary.ExecMemory.Safety.{granted_disjoint, granted-Classified, Classified}

-- Both reserve before either check.
abbrev crossing : (s : System) × Reach 4096 s
unfolding init_code_cache reserve passes
crossing =
    let a = stepped booted (reserves exec_code_cache 8192 (omega arith)) in
    let b = stepped a (reserves exec_gen_code 64 (omega arith)) in
    let c = stepped b (grants 1 (omega arith) refl) in (_, stepped c (grants 0 (omega arith) refl))

granted_disjoint_example :
    (end_of (crossing.0.requests 0) ≤ (crossing.0.requests 1).mem)
    ⊎ (end_of (crossing.0.requests 1) ≤ (crossing.0.requests 0).mem)
unfolding init_code_cache reserve passes
granted_disjoint_example =
    granted_disjoint 4096 crossing.0 0 1 (omega arith) crossing.1 (omega arith) (omega arith) refl
      refl

granted-Classified_example : Classified 4096 crossing.0.bounds exec_code_cache 5000
unfolding init_code_cache reserve passes
granted-Classified_example =
    granted-Classified 4096 4096 crossing.0 0 5000 (omega arith) (omega arith) refl crossing.1
      (omega arith) refl (omega arith) (omega arith)
