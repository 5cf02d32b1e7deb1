-- ===== src/CacheLru/Evict.antt =====
-- The eviction of `put`: the last node goes.
use simple_distributed_cache.Common.{
  ◌≡◌, ◌∙◌, true, ◌-◌, List, [], ◌∷◌, ◌++◌, arith, Ptr, ok, length-append,
}
use mathlib.Core.Path.{subst}
use mathlib.Core.List.{append-nil}
use simple_distributed_cache.Common.Assoc.{lookup, erase, lookup-erase}
use simple_distributed_cache.CacheLru.{Lru, evict, is_live, free}
use simple_distributed_cache.CacheLru.Entries.{entries, lookup_middle, lookup_absent}
use simple_distributed_cache.CacheLru.Chain.{around, NotIn-middle}
use simple_distributed_cache.CacheLru.Invariant.{IsList, IsLru}
use simple_distributed_cache.CacheLru.Moves.{
  unlinked, remove_tail-IsList, IsDistinct-middle, All-middle,
}
use simple_distributed_cache.CacheLru.Fresh.{has-free_other, All-free}

module _ {K V : Type 0} (dec : Discrete K) (c : Lru K V) (xs : List Ptr) (x : Ptr) where
  -- The table without its last node.
  abbrev pub evicted : Lru K V
  evicted =
      let h = unlinked c.heap c.head xs [] c.tail in
      record c {
        heap = record h { used = free x h.used };
        nodes = erase dec (c.heap.key x) c.nodes;
        size = c.size - 1;
      }

  evicted-mapped :
      IsLru dec c (xs ++ x ∷ [])
      → (q : K)
      → lookup dec q (erase dec (c.heap.key x) c.nodes)
        ≡ lookup dec q (entries c.heap.key (λ p. p) xs)
  evicted-mapped s q =
      let r = IsDistinct-middle c.heap.key xs x [] s.list.distinct in
      let gone = lookup_absent dec c.heap.key (λ p. p) (c.heap.key x) xs r.before in
      let whole = lookup_middle dec c.heap.key (λ p. p) q xs x [] r.before in
      ground
        (arith, lookup-erase dec q (c.heap.key x) c.nodes, s.mapped q, whole, append-nil xs, gone)

  pub evict-IsLru :
      IsLru dec c (xs ++ x ∷ []) → (evict dec c ≡ ok (c.heap.key x, evicted)) × IsLru dec evicted xs
  unfolding evict
  evict-IsLru s =
      let (run, t) = remove_tail-IsList xs x s.list in
      let t =
        subst (λ l. IsList (unlinked c.heap c.head xs [] c.tail) c.head l c.tail) (append-nil xs)
          t in
      let r = around xs x [] s.list.apart.distinct in
      let (here, _) = All-middle (λ p. (is_live c.heap) p ≡ true) xs x [] s.list.live in
      let not_head = (NotIn-middle _ xs x [] s.list.apart.front).0 in
      let not_tail = (NotIn-middle _ xs x [] s.list.apart.back).0 in
      (
        rw (run, here),
        record {
          list = record {
            linked = t.linked;
            apart = t.apart;
            head_live = has-free_other x c.head c.heap.used not_head ∙ t.head_live;
            tail_live = has-free_other x c.tail c.heap.used not_tail ∙ t.tail_live;
            live = All-free x c.heap.used xs r.before t.live;
            distinct = t.distinct;
          };
          mapped = evicted-mapped s;
          sized = omega (arith, s.sized, length-append xs (x ∷ []));
        },
      )
