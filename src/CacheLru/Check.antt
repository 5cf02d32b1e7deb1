-- ===== src/CacheLru/Check.antt =====
-- What `check` and `all_key` see of a table.
use simple_distributed_cache.Common.{◌≡◌, refl, sym, ap, ◌∙◌, List, [], ◌∷◌, arith, Ptr, is_some}
use simple_distributed_cache.Common.Assoc.{lookup}
use simple_distributed_cache.CacheLru.{Lru, check}
use simple_distributed_cache.CacheLru.Entries.{entries}
use simple_distributed_cache.CacheLru.Invariant.{Represents}

module _ {K V : Type 0} (dec : Discrete K) where
  -- Which keys a list of entries has does not depend on the values.
  same_keys :
      {W : Type 0} (key : Ptr → K) (val : Ptr → V) (other : Ptr → W) (k : K) (ps : List Ptr)
      → is_some (lookup dec k (entries key val ps)) ≡ is_some (lookup dec k (entries key other ps))
  unfolding lookup
  same_keys key val other k [] = refl
  same_keys key val other k (p ∷ ps) = ground (arith, same_keys key val other k ps)

  -- `check` finds a key exactly where the list of the entries has it.
  pub check-lookup :
      {c : Lru K V} {l : List (K × V)} (k : K)
      → Represents dec c l
      → check dec k c ≡ is_some (lookup dec k l)
  unfolding check
  check-lookup {c} {l} k (ps, s, _, e) =
      ap is_some (s.mapped k)
      ∙ sym (same_keys c.heap.key c.heap.val (λ p. p) k ps)
      ∙ ap (λ m. is_some (lookup dec k m)) (sym e)
