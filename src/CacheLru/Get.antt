-- ===== src/CacheLru/Get.antt =====
-- `get` implements the read of the specification.
use simple_distributed_cache.Common.{
  ◌≡◌, false, refl, sym, ap, ◌∙◌, none, some, List, ◌∷◌, ◌++◌, arith, Ptr, ok, length-append,
  Option-cases, inl, inr,
}
use mathlib.Core.Path.{subst}
use simple_distributed_cache.Common.Assoc.{lookup, erase}
use simple_distributed_cache.CacheLru.{Lru, get, get_found}
use simple_distributed_cache.CacheLru.Entries.{
  entries, found, lookup-entries, lookup-entries-none, lookup_middle, erase_middle,
}
use simple_distributed_cache.CacheLru.Spec.{read}
use simple_distributed_cache.CacheLru.Invariant.{IsLru, Represents, view}
use simple_distributed_cache.CacheLru.Moves.{moved, move2head-IsList, IsDistinct-middle}

module _ {K V : Type 0} (dec : Discrete K) where
  -- A node that is moved to the front leaves the table well formed.
  pub to_front :
      {c : Lru K V} (xs : List Ptr) (x : Ptr) (ys : List Ptr)
      → IsLru dec c (xs ++ x ∷ ys)
      → IsLru dec (record c { heap = moved c.heap c.head xs x ys c.tail }) (x ∷ xs ++ ys)
  unfolding lookup
  to_front {c} xs x ys s =
      let r = IsDistinct-middle c.heap.key xs x ys s.list.distinct in
      record {
        list = (move2head-IsList xs x ys s.list).1;
        mapped = λ q. s.mapped q ∙ lookup_middle dec c.heap.key (λ p. p) q xs x ys r.before;
        sized = omega (arith, s.sized, length-append xs (x ∷ ys), length-append xs ys);
      }

  -- The entries after that.
  pub view-to_front :
      {c : Lru K V} (xs : List Ptr) (x : Ptr) (ys : List Ptr)
      → IsLru dec c (xs ++ x ∷ ys)
      → erase dec (c.heap.key x) (view c.heap (xs ++ x ∷ ys)) ≡ view c.heap (xs ++ ys)
  view-to_front {c} xs x ys s =
      let r = IsDistinct-middle c.heap.key xs x ys s.list.distinct in
      erase_middle dec c.heap.key c.heap.val xs x ys r.before r.after

  get-read_hit :
      {c : Lru K V} {l : List (K × V)} (val0 : V) {k : K} (xs : List Ptr) (x : Ptr) (ys : List Ptr)
      → IsLru dec c (xs ++ x ∷ ys)
      → c.locked ≡ false
      → l ≡ view c.heap (xs ++ x ∷ ys)
      → c.heap.key x ≡ k
      → lookup dec k c.nodes ≡ some x
      → lookup dec k l ≡ some (c.heap.val x)
      → (c' : Lru K V) × (get dec val0 k c ≡ ok ((read dec val0 k l).0, c'))
        × Represents dec c' (read dec val0 k l).1
        × (c'.capacity ≡ c.capacity)
  unfolding get get_found read
  get-read_hit {c} {l} val0 {k} xs x ys s free e name h hit =
      let t = to_front xs x ys s in
      (
        record c { heap = moved c.heap c.head xs x ys c.tail; locked = false },
        rw (free, h, hit, read, (move2head-IsList xs x ys s.list).0),
        rw (hit, read)
            (
              x ∷ xs ++ ys,
              record { list = t.list; mapped = t.mapped; sized = t.sized },
              refl,
              rw (← name, e) (ap (◌∷◌ (c.heap.key x, c.heap.val x)) (view-to_front xs x ys s)),
            ),
        refl,
      )

  -- `get` returns the stored value of a key that is present and makes its entry the most recently
  -- used one. For any other key it returns the default value and changes nothing.
  pub get-read :
      {c : Lru K V} {l : List (K × V)} (val0 : V) (k : K)
      → Represents dec c l
      → (c' : Lru K V) × (get dec val0 k c ≡ ok ((read dec val0 k l).0, c'))
        × Represents dec c' (read dec val0 k l).1
        × (c'.capacity ≡ c.capacity)
  unfolding get get_found read
  get-read {c} {l} val0 k (ps, s, free, e) = elim (Option-cases (lookup dec k c.nodes)) [
    | inl h ↦
        let (gone, _) = lookup-entries-none dec c.heap.key c.heap.val k ps (sym (s.mapped k) ∙ h) in
        let miss : lookup dec k l ≡ none = rw e gone in
        (
          record c { locked = false },
          rw (free, h, miss, read),
          rw (miss, read)
              (ps, record { list = s.list; mapped = s.mapped; sized = s.sized }, refl, e),
          refl,
        )
    | inr (p, h) ↦
        let at : lookup dec k (entries c.heap.key (λ q. q) ps) ≡ some p = sym (s.mapped k) ∙ h in
        let f = found dec c.heap.key k p ps at in
        let t = subst (λ qs. IsLru dec c qs) f.whole s in
        let hit = lookup-entries dec c.heap.key c.heap.val k p ps at in
        get-read_hit val0 f.before p f.after t free (e ∙ ap (view c.heap) f.whole) f.has_key h
          (rw e hit)
  ]
