-- ===== src/ExecMemory/Whole.antt =====
-- A call of `global_allocate_executable` that nothing comes between is two steps (granary/allocator.cc).
use granary.Common.{
  update, update_at, ℕ, ◌≡◌, sym, ap, ◌∙◌, Bool-cases, inl, inr, if_true, if_false, some_inj, some,
  true, false, arith,
}
use granary.ExecMemory.Steps.{Request, System, NoWrap, reserves, grants, Reach, stepped}
use granary.ExecMemory.{MemoryKind, reserve, passes, global_allocate_executable, ExecMemory}
use mathlib.Core.Option.{none-ne-some}
use mathlib.Core.Path.{subst}

-- Where a call succeeds, the processors can reach the bounds that it leaves.
pub global_allocate_executable-Reach :
    (area size : ℕ) (kind : MemoryKind) (s : System) (mem : ℕ) (m : ExecMemory)
    → Reach area s
    → NoWrap kind size s.bounds
    → global_allocate_executable size kind s.bounds ≡ some (mem, m)
    → (t : System) × Reach area t
      × (t.bounds ≡ m)
      × ((t.requests s.count).mem ≡ mem)
      × ((t.requests s.count).granted ≡ true)
unfolding global_allocate_executable
global_allocate_executable-Reach area size kind s mem m reached fits e =
    let r = reserve kind size s.bounds in
    elim (Bool-cases (passes kind r.0 size r.1)) [
      | inr fails ↦
          absurd (none-ne-some (mem, m) (sym (if_false (passes kind r.0 size r.1) _ _ fails) ∙ e))
      | inl passed ↦
          let out = some_inj _ _ (sym (if_true (passes kind r.0 size r.1) _ _ passed) ∙ e) in
          let mid = stepped reached (reserves kind size fits) in
          let new : Request = record { kind = kind; mem = r.0; size = size; granted = false } in
          let made = update_at s.requests s.count new in
          let requests = update s.requests s.count new in
          let granted : Request = record (requests s.count) { granted = true } in
          let last = stepped mid (
            grants s.count (omega arith)
              (subst (λ (q : Request). passes q.kind q.mem q.size r.1 ≡ true) (sym made) passed)) in
          let now = update_at requests s.count granted in
          (
            _,
            last,
            ap (λ (x : ℕ × ExecMemory). x.1) out,
            ap (λ (q : Request). q.mem) now
                ∙ ap (λ (q : Request). q.mem) made
                ∙ ap (λ (x : ℕ × ExecMemory). x.0) out,
            ap (λ (q : Request). q.granted) now,
          )
    ]
