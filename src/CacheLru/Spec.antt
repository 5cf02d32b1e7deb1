-- ===== src/CacheLru/Spec.antt =====
-- What the cache server's LRU table promises: a list of entries, the most recently used first.
use simple_distributed_cache.Common.{
  ℕ, none, some, List, ◌∷◌, length, drop_last, last_or, ltb, if◌then◌else◌,
}
use simple_distributed_cache.Common.Assoc.{lookup, erase}

module _ {K V : Type 0} (dec : Discrete K) where
  -- A read of a key that is present moves it to the front.
  unfoldable pub read : (val0 : V) → K → List (K × V) → V × List (K × V)
  read val0 k l = elim (lookup dec k l) [ none ↦ (val0, l) | some v ↦ (v, (k, v) ∷ erase dec k l) ]

  -- A write of a key that is present moves it to the front too. Any other goes to the front, and
  -- pushes the last entry out if there are more than `limit` then.
  unfoldable pub write : (key0 : K) (limit : ℕ) → K → V → List (K × V) → K × List (K × V)
  write key0 limit k v l = elim (lookup dec k l) [
    | some _ ↦ (key0, (k, v) ∷ erase dec k l)
    | none ↦
        let new = (k, v) ∷ l in
        if ltb limit (length new) then ((last_or (k, v) l).0, drop_last new) else (key0, new)
  ]
