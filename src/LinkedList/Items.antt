-- ===== src/LinkedList/Items.antt =====
-- The items that insertions into a doubly linked list (granary/list.h) use.
use granary.Common.{
  framed-Chain, Chain-Popped, Each, Each_map, update, update_at, update_off, ℕ, ◌≡◌, ◌≢◌, sym, List,
  ◌∷◌, arith, Bool-cases, ◌==◌, if_true, if_false, inl, inr,
}
use granary.LinkedList.Links.{framed-Linked}
use granary.LinkedList.Splice.{IsList, IsNew}
use granary.LinkedList.{LinkedList, allocate_item}
use mathlib.Core.Path.{subst}

-- An item that an insertion may use.
pub record Got (s : LinkedList) (val item : ℕ) (s' : LinkedList) (xs : List ℕ) : Type 0 where
  pub cs : List ℕ
  pub list : IsList s' xs cs
  pub new : IsNew item xs cs
  pub written : s'.value item ≡ val
  pub unwritten : (x : ℕ) → x ≢ item → s'.value x ≡ s.value x

cached_item :
    (val : ℕ) (s : LinkedList) (xs cs : List ℕ)
    → IsList s xs (s.cache ∷ cs)
    → Got s val s.cache
        (record s {
          cache = s.next s.cache;
          prev = update s.prev s.cache 0;
          next = update s.next s.cache 0;
          value = update s.value s.cache val;
        })
        xs
cached_item val s xs cs v =
    let c = s.cache in
    let out : Each (λ x. x ≢ c) xs = Each_map _ _ xs (λ x e same. e.0 (sym same)) v.cross in
    let off : (f : ℕ → ℕ) → Each (λ x. update f c 0 x ≡ f x) xs =
      λ f. Each_map _ _ xs (λ x ne. update_off f c 0 x ne) out in
    record {
      cs = cs;
      list = record {
        first_is = v.first_is;
        last_is = v.last_is;
        length_is = v.length_is;
        linked =
            framed-Linked s.prev (update s.prev c 0) s.next (update s.next c 0) 0 xs 0 (off s.prev)
              (off s.next) v.linked;
        apart = v.apart;
        items = v.items;
        cached =
            framed-Chain s.next (update s.next c 0) (s.next c) cs
              (Each_map _ _ cs (λ x ne. update_off s.next c 0 x ne) v.cache_apart.0) v.cached.2;
        cache_apart = v.cache_apart.1;
        cross = Each_map _ _ xs (λ x e. e.1) v.cross;
      };
      new = record { real = v.cached.1; out = out; uncached = v.cache_apart.0 };
      written = update_at s.value c val;
      unwritten = λ x ne. update_off s.value c val x ne;
    }

fresh_item :
    (fresh val : ℕ) (s : LinkedList) (xs cs : List ℕ)
    → IsList s xs cs
    → IsNew fresh xs cs
    → Got s val fresh (record s { value = update s.value fresh val }) xs
fresh_item fresh val s xs cs v n = record {
  cs = cs;
  list = record {
    first_is = v.first_is;
    last_is = v.last_is;
    length_is = v.length_is;
    linked = v.linked;
    apart = v.apart;
    items = v.items;
    cached = v.cached;
    cache_apart = v.cache_apart;
    cross = v.cross;
  };
  new = n;
  written = update_at s.value fresh val;
  unwritten = λ x ne. update_off s.value fresh val x ne;
}

pub allocate_item-Got :
    (fresh val : ℕ) (s : LinkedList) (xs cs : List ℕ)
    → IsList s xs cs
    → IsNew fresh xs cs
    → Got s val (allocate_item fresh val s).0 (allocate_item fresh val s).1 xs
unfolding allocate_item
allocate_item-Got fresh val s xs cs v n = elim (Bool-cases (s.cache == 0)) [
  | inl null ↦ to (sym (if_true (s.cache == 0) _ _ null)) (fresh_item fresh val s xs cs v n)
  | inr real ↦
      let q = Chain-Popped s.next s.cache cs (λ e. ground (arith, real, e)) v.cached in
      to (sym (if_false (s.cache == 0) _ _ real))
        (cached_item val s xs q.rest (subst (IsList s xs) q.split v))
]
  where
    to : {r r' : ℕ × LinkedList} → r ≡ r' → Got s val r.0 r.1 xs → Got s val r'.0 r'.1 xs
    to e g = subst (λ r. Got s val r.0 r.1 xs) e g
