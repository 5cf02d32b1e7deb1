-- ===== src/CacheLru/Laws.antt =====
-- What the specification of the table guarantees.
use simple_distributed_cache.Common.{
  length-drop_last, ℕ, ◌≡◌, ◌≢◌, ◌≤◌, ◌<◌, some, List, [], ◌∷◌, arith, length,
}
use simple_distributed_cache.Common.Assoc.{lookup, lookup-erase, length-erase_lt, lookup-drop_last}
use simple_distributed_cache.CacheLru.Spec.{read, write}

module _ {K V : Type 0} (dec : Discrete K) where
  -- A write never leaves more entries than the capacity.
  pub length-write :
      (key0 : K) (limit : ℕ) (k : K) (v : V) (l : List (K × V))
      → length l ≤ limit
      → length (write dec key0 limit k v l).1 ≤ limit
  unfolding write
  length-write key0 limit k v l h =
      ground (arith, length-erase_lt dec k l, length-drop_last (k, v) l)

  pub length-read : (val0 : V) (k : K) (l : List (K × V)) → length (read dec val0 k l).1 ≤ length l
  unfolding read
  length-read val0 k l = ground (arith, length-erase_lt dec k l)

  -- The entry that was just written is found, where there is room for one.
  pub lookup-write_self :
      (key0 : K) (limit : ℕ) (k : K) (v : V) (l : List (K × V))
      → 0 < limit
      → lookup dec k (write dec key0 limit k v l).1 ≡ some v
  unfolding write lookup
  lookup-write_self key0 limit k v [] h = ground arith
  lookup-write_self key0 limit k v (e ∷ l) h = ground arith

  -- A read changes nothing that a later lookup finds.
  pub lookup-read :
      (val0 : V) (k q : K) (l : List (K × V)) → lookup dec q (read dec val0 k l).1 ≡ lookup dec q l
  unfolding read lookup
  lookup-read val0 k q l = ground (arith, lookup-erase dec q k l)

  -- A read returns what a lookup finds.
  pub read-lookup :
      (val0 : V) (k : K) (v : V) (l : List (K × V))
      → lookup dec k l ≡ some v
      → (read dec val0 k l).0 ≡ v
  unfolding read
  read-lookup val0 k v l h = ground (arith, h)

  -- A write keeps every other key, but for the one that it returns.
  pub lookup-write_ne :
      (key0 : K) (limit : ℕ) (k q : K) (v : V) (l : List (K × V))
      → q ≢ k
      → q ≢ (write dec key0 limit k v l).0
      → lookup dec q (write dec key0 limit k v l).1 ≡ lookup dec q l
  unfolding write lookup
  lookup-write_ne key0 limit k q v l h out =
      ground (arith, lookup-erase dec q k l, lookup-drop_last dec q (k, v) l)
