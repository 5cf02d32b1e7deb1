-- ===== src/CacheLru/Put.antt =====
-- `put` implements the write of the specification.
use simple_distributed_cache.Common.{
  drop_last, last_or, drop_last-last, map-drop_last, last_or-map, ◌≡◌, refl, sym, ap, ◌∙◌, Bool,
  true, false, none, some, List, ◌∷◌, ◌++◌, map, arith, Ptr, ok, length, length-map, Option-cases,
  Bool-cases, inl, inr, update, NotIn, ltb, ◌+◌,
}
use mathlib.Core.Path.{subst}
use simple_distributed_cache.Common.Assoc.{lookup, lookup-assign, assign}
use simple_distributed_cache.CacheLru.{is_live, Heap, Lru, new_node, put, add2head}
use simple_distributed_cache.CacheLru.Entries.{entries, found, lookup-entries, lookup-entries-none}
use simple_distributed_cache.CacheLru.Spec.{write}
use simple_distributed_cache.CacheLru.Invariant.{IsLru, Represents, view}
use simple_distributed_cache.CacheLru.Moves.{moved, linked_first, move2head-IsList, add2head-IsList}
use simple_distributed_cache.CacheLru.Fresh.{map-update, update_other, update_self, new_node-IsList}
use simple_distributed_cache.CacheLru.Evict.{evicted, evict-IsLru}
use simple_distributed_cache.CacheLru.Get.{to_front, view-to_front}

module _ {K V : Type 0} (dec : Discrete K) where
  put-write_hit :
      {c : Lru K V} {l : List (K × V)} (key0 : K) (fresh : Ptr) {k : K} (v : V) (xs : List Ptr)
      (x : Ptr) (ys : List Ptr)
      → IsLru dec c (xs ++ x ∷ ys)
      → c.locked ≡ false
      → l ≡ view c.heap (xs ++ x ∷ ys)
      → c.heap.key x ≡ k
      → lookup dec k c.nodes ≡ some x
      → lookup dec k l ≡ some (c.heap.val x)
      → (c' : Lru K V) × (put dec key0 fresh k v c ≡ ok ((write dec key0 c.capacity k v l).0, c'))
        × Represents dec c' (write dec key0 c.capacity k v l).1
        × (c'.capacity ≡ c.capacity)
  unfolding put write
  put-write_hit {c} {l} key0 fresh {k} v xs x ys s free e name h hit =
      let t = to_front dec xs x ys s in
      let m = moved c.heap c.head xs x ys c.tail in
      let u = t.list in
      let rest : view (record m { val = update m.val x v }) (xs ++ ys) ≡ view c.heap (xs ++ ys) =
        map-update c.heap.val (λ g p. (c.heap.key p, g p)) x v (xs ++ ys)
          (λ p o. ap (λ w. (c.heap.key p, w)) (update_other c.heap.val x p v o))
          u.apart.distinct.0 in
      (
        record c { heap = record m { val = update m.val x v }; locked = false },
        rw (free, h, hit, write, (move2head-IsList xs x ys s.list).0, u.live.0),
        rw (hit, write)
            (
              x ∷ xs ++ ys,
              record {
                list = record {
                  linked = u.linked;
                  apart = u.apart;
                  head_live = u.head_live;
                  tail_live = u.tail_live;
                  live = u.live;
                  distinct = u.distinct;
                };
                mapped = t.mapped;
                sized = t.sized;
              },
              refl,
              rw (← name, e, update_self c.heap.val x v)
                  (ap (◌∷◌ (c.heap.key x, v)) (view-to_front dec xs x ys s ∙ sym rest)),
            ),
        refl,
      )

  relock :
      {c : Lru K V} {ps : List Ptr} (b : Bool)
      → IsLru dec c ps
      → IsLru dec (record c { locked = b }) ps
  relock b s = record { list = s.list; mapped = s.mapped; sized = s.sized }

  -- The table with a new node in front.
  abbrev added : Lru K V → List Ptr → Ptr → K → V → Lru K V
  added c ps fresh k v = record c {
    heap = linked_first (new_node fresh k v c.heap) c.head fresh ps c.tail;
    nodes = assign dec k fresh c.nodes;
    locked = true;
    size = c.size + 1;
  }

  view-new_node :
      (h : Heap K V) (ps : List Ptr) (fresh : Ptr) (k : K) (v : V)
      → NotIn fresh ps
      → view (new_node fresh k v h) (fresh ∷ ps) ≡ (k, v) ∷ view h ps
  unfolding new_node
  view-new_node h ps fresh k v out =
      let e =
        map-update h.key (λ g p. (g p, update h.val fresh v p)) fresh k ps
          (λ p o. ap (λ a. (a, update h.val fresh v p)) (update_other h.key fresh p k o)) out in
      let f =
        map-update h.val (λ g p. (h.key p, g p)) fresh v ps
          (λ p o. ap (λ a. (h.key p, a)) (update_other h.val fresh p v o)) out in
      rw (update_self h.key fresh k, update_self h.val fresh v) (ap (◌∷◌ (k, v)) (e ∙ f))

  added-mapped :
      {c : Lru K V} {ps : List Ptr} (fresh : Ptr) (k : K) (v : V)
      → IsLru dec c ps
      → NotIn fresh ps
      → (q : K)
      → lookup dec q (assign dec k fresh c.nodes)
        ≡ lookup dec q (entries (new_node fresh k v c.heap).key (λ p. p) (fresh ∷ ps))
  unfolding new_node lookup
  added-mapped {c} {ps} fresh k v s out q =
      let e =
        map-update {B = K × Ptr} c.heap.key (λ g p. (g p, p)) fresh k ps
          (λ p o. ap (λ a. (a, p)) (update_other c.heap.key fresh p k o)) out in
      rw (update_self c.heap.key fresh k, e, lookup-assign dec q k fresh c.nodes, s.mapped q)

  add2head-IsLru :
      {c : Lru K V} {ps : List Ptr} (fresh : Ptr) (k : K) (v : V)
      → IsLru dec c ps
      → (is_live c.heap) fresh ≡ false
      → NotIn k (map c.heap.key ps)
      → (add2head c.head fresh (new_node fresh k v c.heap) ≡ ok (added c ps fresh k v).heap)
        × IsLru dec (added c ps fresh k v) (fresh ∷ ps)
        × (view (added c ps fresh k v).heap (fresh ∷ ps) ≡ (k, v) ∷ view c.heap ps)
  unfolding new_node
  add2head-IsLru {c} {ps} fresh k v s new gone =
      let (t, apart) = new_node-IsList fresh k v ps s.list new in
      let same =
        map-update c.heap.key (λ g. g) fresh k ps (λ p o. update_other c.heap.key fresh p k o)
          apart.distinct.0 in
      let there : NotIn (update c.heap.key fresh k fresh) (map (update c.heap.key fresh k) ps) =
        rw (update_self c.heap.key fresh k, same) gone in
      let (run, u) = add2head-IsList fresh ps t (ground arith) apart there in
      (
        run,
        record {
          list = u;
          mapped = added-mapped fresh k v s apart.distinct.0;
          sized = omega (arith, s.sized);
        },
        view-new_node c.heap ps fresh k v apart.distinct.0,
      )

  -- What `put_miss` returns where the table has room, and where it is over its capacity.
  put-write_miss :
      {c : Lru K V} {l : List (K × V)} {ps : List Ptr} (key0 : K) (fresh : Ptr) (k : K) (v : V)
      → IsLru dec c ps
      → c.locked ≡ false
      → l ≡ view c.heap ps
      → (is_live c.heap) fresh ≡ false
      → lookup dec k c.nodes ≡ none
      → lookup dec k l ≡ none
      → NotIn k (map c.heap.key ps)
      → (c' : Lru K V) × (put dec key0 fresh k v c ≡ ok ((write dec key0 c.capacity k v l).0, c'))
        × Represents dec c' (write dec key0 c.capacity k v l).1
        × (c'.capacity ≡ c.capacity)
  unfolding put write
  put-write_miss {c} {l} {ps} key0 fresh k v s free e new h miss gone =
      let (run, t, w) = add2head-IsLru fresh k v s new gone in
      let d = added c ps fresh k v in
      let long : length ((k, v) ∷ l) ≡ c.size + 1 =
        rw e
          (omega (arith, length-map {B = K × V} (λ p. (c.heap.key p, c.heap.val p)) ps, s.sized)) in
      elim (Bool-cases (ltb c.capacity (c.size + 1))) [
        | inr room ↦ (
          record d { locked = false },
          rw (free, h, run, miss, write, long, room),
          rw (miss, write, long, room) (fresh ∷ ps, relock false t, refl, rw e (sym w)),
          refl,
        )
        | inl over ↦
            let xs = drop_last (fresh ∷ ps) in
            let x = last_or fresh ps in
            let f : Ptr → K × V = λ p. (d.heap.key p, d.heap.val p) in
            let whole = w ∙ ap (◌∷◌ (k, v)) (sym e) in
            let last : last_or (k, v) l ≡ f x =
              sym (ap (last_or (k, v)) whole) ∙ last_or-map f fresh ps in
            let split = drop_last-last fresh ps in
            let (gone, u) = evict-IsLru dec d xs x (subst (λ qs. IsLru dec d qs) split t) in
            (
              record (evicted dec d xs x) { locked = false },
              rw (free, h, run, miss, write, long, over) (rw (gone, last)),
              rw (miss, write, long, over)
                  (
                    xs,
                    relock false u,
                    refl,
                    sym (map-drop_last f (fresh ∷ ps) ∙ ap drop_last whole),
                  ),
              refl,
            )
      ]

  -- `put` of a key that is present stores the value and makes the entry the most recently used
  -- one. For any other key it adds an entry in front, and takes out the last one if there are more
  -- entries than the capacity then. It returns the key that it took out, or the default key.
  pub put-write :
      {c : Lru K V} {l : List (K × V)} (key0 : K) (fresh : Ptr) (k : K) (v : V)
      → Represents dec c l
      → (is_live c.heap) fresh ≡ false
      → (c' : Lru K V) × (put dec key0 fresh k v c ≡ ok ((write dec key0 c.capacity k v l).0, c'))
        × Represents dec c' (write dec key0 c.capacity k v l).1
        × (c'.capacity ≡ c.capacity)
  put-write {c} {l} key0 fresh k v (ps, s, free, e) new =
      elim (Option-cases (lookup dec k c.nodes)) [
        | inl h ↦
            let (gone, out) =
              lookup-entries-none dec c.heap.key c.heap.val k ps (sym (s.mapped k) ∙ h) in
            put-write_miss key0 fresh k v s free e new h (rw e gone) out
        | inr (p, h) ↦
            let at : lookup dec k (entries c.heap.key (λ q. q) ps) ≡ some p =
              sym (s.mapped k) ∙ h in
            let f = found dec c.heap.key k p ps at in
            let t = subst (λ qs. IsLru dec c qs) f.whole s in
            let hit = lookup-entries dec c.heap.key c.heap.val k p ps at in
            put-write_hit key0 fresh v f.before p f.after t free (e ∙ ap (view c.heap) f.whole)
              f.has_key h (rw e hit)
      ]
