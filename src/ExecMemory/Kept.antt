-- ===== src/ExecMemory/Kept.antt =====
-- Each step of the processors that allocate executable memory (granary/allocator.cc) keeps the invariant.
use granary.Common.{update, update_one, ℕ, suc, ◌+◌, ◌^◌, ◌<◌, ◌≡◌, sym, Bool, true, false, arith}
use granary.ExecMemory.{
  MemoryKind, exec_code_cache, exec_gen_code, exec_wrapper, exec_unknown, ExecMemory,
  init_code_cache, reserve, passes, code_cache_size,
}
use granary.ExecMemory.Invariant.{
  end_of, Inside, Apart, Cross, Settled, IsBounds, IsSystem, Inside-Wider, Settled-Wider,
  reserve-Reserved, Apart-new, uncrossed_left, uncrossed_right, unsettled,
}
use granary.ExecMemory.Steps.{
  Request, System, NoWrap, reserves, grants, Reach, booted, stepped, boot,
}
use mathlib.Core.Bool.{true≢false}

pub reserves-IsSystem :
    (s : System) (kind : MemoryKind) (size : ℕ)
    → NoWrap kind size s.bounds
    → IsSystem s
    → IsSystem (record {
      bounds = (reserve kind size s.bounds).1;
      count = suc s.count;
      requests = update s.requests s.count (record {
        kind = kind;
        mem = (reserve kind size s.bounds).0;
        size = size;
        granted = false;
      });
    })
reserves-IsSystem s kind size fits v =
    let m' = (reserve kind size s.bounds).1 in
    let new : Request = record {
      kind = kind;
      mem = (reserve kind size s.bounds).0;
      size = size;
      granted = false;
    } in
    let r = reserve-Reserved kind size s.bounds v.bounds fits in
    record {
      bounds = r.bounds;
      inside = λ i lt.
          update_one (λ q. Inside m' q.kind q.mem (end_of q)) s.requests s.count new i
            (λ e. r.inside)
            (λ ne. Inside-Wider s.bounds m' _ _ _ r.wider (v.inside i (omega (arith, lt, ne))));
      apart = λ i j below lt.
          update_one
            (λ q.
              Apart q.kind q.mem (end_of q) (update s.requests s.count new j).kind
                (update s.requests s.count new j).mem (end_of (update s.requests s.count new j)))
            s.requests s.count new i (λ e. absurd (omega (arith, below, lt, e)))
            (λ ne.
              update_one
                (λ q.
                  Apart (s.requests i).kind (s.requests i).mem (end_of (s.requests i)) q.kind q.mem
                    (end_of q))
                s.requests s.count new j
                (λ e.
                  Apart-new kind (s.requests i).kind size s.bounds _ _ v.bounds fits
                    (v.inside i (omega (arith, below, e))))
                (λ ne'. v.apart i j below (omega (arith, lt, ne'))));
      cross = λ i j lt lt'.
          update_one
            (λ q.
              Cross q.kind q.granted (end_of q) (update s.requests s.count new j).kind
                (update s.requests s.count new j).granted (update s.requests s.count new j).mem)
            s.requests s.count new i (λ e. uncrossed_left kind _ _ _ _)
            (λ ne.
              update_one
                (λ q.
                  Cross (s.requests i).kind (s.requests i).granted (end_of (s.requests i)) q.kind
                    q.granted q.mem)
                s.requests s.count new j (λ e. uncrossed_right _ _ _ kind _)
                (λ ne'. v.cross i j (omega (arith, lt, ne)) (omega (arith, lt', ne'))));
      settled = λ i lt.
          update_one (λ q. Settled m' q.kind q.granted (end_of q)) s.requests s.count new i
            (λ e. unsettled m' kind _)
            (λ ne. Settled-Wider s.bounds m' _ _ _ r.wider (v.settled i (omega (arith, lt, ne))));
    }

-- What a check that passes adds.
pub granted_left :
    (m : ExecMemory) (k k' : MemoryKind) (mem size mem' end' : ℕ) (g' : Bool)
    → IsBounds m
    → passes k mem size m ≡ true
    → Inside m k mem (mem + size)
    → Inside m k' mem' end'
    → Cross k true (mem + size) k' g' mem'
unfolding passes
granted_left m exec_code_cache exec_code_cache mem size mem' end' g' b p h h' = tt
granted_left m exec_code_cache exec_gen_code mem size mem' end' g' b p h h' =
    λ e e'. ground (arith, h.1, h'.0, b.code_fits)
granted_left m exec_code_cache exec_wrapper mem size mem' end' g' b p h h' = tt
granted_left m exec_code_cache exec_unknown mem size mem' end' g' b p h h' = tt
granted_left m exec_gen_code k' mem size mem' end' g' b p h h' = tt
granted_left m exec_wrapper k' mem size mem' end' g' b p h h' = tt
granted_left m exec_unknown k' mem size mem' end' g' b p h h' = tt

pub granted_right :
    (m : ExecMemory) (k k' : MemoryKind) (mem end mem' size : ℕ) (g : Bool)
    → passes k' mem' size m ≡ true
    → Inside m k mem end
    → Cross k g end k' true mem'
unfolding passes
granted_right m exec_code_cache exec_code_cache mem end mem' size g p h = tt
granted_right m exec_code_cache exec_gen_code mem end mem' size g p h = λ e e'. ground (arith, h.1)
granted_right m exec_code_cache exec_wrapper mem end mem' size g p h = tt
granted_right m exec_code_cache exec_unknown mem end mem' size g p h = tt
granted_right m exec_gen_code k' mem end mem' size g p h = tt
granted_right m exec_wrapper k' mem end mem' size g p h = tt
granted_right m exec_unknown k' mem end mem' size g p h = tt

pub granted-Settled :
    (m : ExecMemory) (k : MemoryKind) (mem size : ℕ)
    → IsBounds m
    → passes k mem size m ≡ true
    → Inside m k mem (mem + size)
    → Settled m k true (mem + size)
unfolding passes
granted-Settled m exec_code_cache mem size b p h = λ e. ground (arith, h.1, b.gen, b.code_fits)
granted-Settled m exec_gen_code mem size b p h = tt
granted-Settled m exec_wrapper mem size b p h = λ e. ground (arith, h.1, b.wrapper_fits)
granted-Settled m exec_unknown mem size b p h = λ e. true≢false (sym p)

pub grants-IsSystem :
    (s : System) (a : ℕ)
    → a < s.count
    → passes (s.requests a).kind (s.requests a).mem (s.requests a).size s.bounds ≡ true
    → IsSystem s
    → IsSystem
        (record s { requests = update s.requests a (record (s.requests a) { granted = true }) })
grants-IsSystem s a lt_a p v =
    let r = s.requests a in
    let new : Request = record r { granted = true } in
    let m = s.bounds in
    record {
      bounds = v.bounds;
      inside = λ i lt.
          update_one (λ q. Inside m q.kind q.mem (end_of q)) s.requests a new i
            (λ e. v.inside a lt_a) (λ ne. v.inside i lt);
      apart = λ i j below lt.
          update_one
            (λ q.
              Apart q.kind q.mem (end_of q) (update s.requests a new j).kind
                (update s.requests a new j).mem (end_of (update s.requests a new j)))
            s.requests a new i
            (λ e.
              update_one (λ q. Apart r.kind r.mem (end_of r) q.kind q.mem (end_of q)) s.requests a
                new j (λ e'. absurd (omega (arith, below, e, e')))
                (λ ne'. v.apart a j (omega (arith, below, e)) lt))
            (λ ne.
              update_one
                (λ q.
                  Apart (s.requests i).kind (s.requests i).mem (end_of (s.requests i)) q.kind q.mem
                    (end_of q))
                s.requests a new j (λ e'. v.apart i a (omega (arith, below, e')) lt_a)
                (λ ne'. v.apart i j below lt));
      cross = λ i j lt lt'.
          update_one
            (λ q.
              Cross q.kind q.granted (end_of q) (update s.requests a new j).kind
                (update s.requests a new j).granted (update s.requests a new j).mem)
            s.requests a new i
            (λ e.
              update_one (λ q. Cross r.kind true (end_of r) q.kind q.granted q.mem) s.requests a new
                j
                (λ e'.
                  granted_left m r.kind r.kind r.mem r.size r.mem (end_of r) true v.bounds p
                    (v.inside a lt_a) (v.inside a lt_a))
                (λ ne'.
                  granted_left m r.kind (s.requests j).kind r.mem r.size (s.requests j).mem
                    (end_of (s.requests j)) (s.requests j).granted v.bounds p (v.inside a lt_a)
                    (v.inside j lt')))
            (λ ne.
              update_one
                (λ q.
                  Cross (s.requests i).kind (s.requests i).granted (end_of (s.requests i)) q.kind
                    q.granted q.mem)
                s.requests a new j
                (λ e'.
                  granted_right m (s.requests i).kind r.kind (s.requests i).mem
                    (end_of (s.requests i)) r.mem r.size (s.requests i).granted p (v.inside i lt))
                (λ ne'. v.cross i j lt lt'));
      settled = λ i lt.
          update_one (λ q. Settled m q.kind q.granted (end_of q)) s.requests a new i
            (λ e. granted-Settled m r.kind r.mem r.size v.bounds p (v.inside a lt_a))
            (λ ne. v.settled i lt);
    }

pub boot-IsSystem : (area : ℕ) → area + code_cache_size < 2 ^ 64 → IsSystem (boot area)
unfolding init_code_cache
boot-IsSystem area fits = record {
  bounds = record {
    layout = omega arith;
    code = omega arith;
    gen = omega arith;
    wrapper = omega arith;
    inner = omega arith;
    code_fits = omega arith;
    wrapper_fits = omega arith;
  };
  inside = λ i lt. absurd (omega (arith, lt));
  apart = λ i j below lt. absurd (omega (arith, lt));
  cross = λ i j lt lt'. absurd (omega (arith, lt));
  settled = λ i lt. absurd (omega (arith, lt));
}

pub Reach-IsSystem :
    (area : ℕ) (s : System) → area + code_cache_size < 2 ^ 64 → Reach area s → IsSystem s
Reach-IsSystem area s fits booted = boot-IsSystem area fits
Reach-IsSystem area s fits (stepped {s = b} r (reserves kind size w)) =
    reserves-IsSystem b kind size w (Reach-IsSystem area b fits r)
Reach-IsSystem area s fits (stepped {s = b} r (grants i lt p)) =
    grants-IsSystem b i lt p (Reach-IsSystem area b fits r)
