-- ===== src/LocalLru/Stale.antt =====
-- What `put` of the client's table does where `erase` has left a node outside the map.
use simple_distributed_cache.Common.{
  ◌≡◌, refl, ◌∙◌, ◌≢◌, none, arith, last_or, suc, length, ok, true, false, ltb,
}
use simple_distributed_cache.Common.Assoc.{lookup, lookup-erase, length-assign, erase_absent}
use simple_distributed_cache.LocalLru.{LocalLru, put, exists, size}
use simple_distributed_cache.LocalLru.Invariant.{IsValid}
use simple_distributed_cache.LocalLru.Put.{stored, lookup-stored}
use simple_distributed_cache.LocalLru.PopBack.{popped}
use simple_distributed_cache.LocalLru.Store.{put-stored}

module _ {K V : Type 0} (dec : Discrete K) {c : LocalLru K V} (s : IsValid dec c) (k : K) (v : V)
    (new : lookup dec k c.index ≡ none) (full : length c.index ≡ c.max_size) where
  put_full : put dec k v c ≡ ok (popped dec (stored dec none k v c) (c.fresh, (k, v)) c.items refl)
  put_full =
      let over : ltb c.max_size (length (stored dec none k v c).index) ≡ true =
        ground (arith, length-assign dec k c.fresh c.index new) in
      put-stored dec s k v none new ∙ rw over

  -- Where the last node of a full client table is a node that erase left outside the map, and
  -- its key is the one that is stored, put takes the new entry out of the map at once.
  put_stale_same :
      (last_or (c.fresh, (k, v)) c.items).1.0 ≡ k
      → (c' : LocalLru K V) × (put dec k v c ≡ ok c') × (exists dec k c' ≡ false)
  unfolding exists
  put_stale_same e = (
    popped dec (stored dec none k v c) (c.fresh, (k, v)) c.items refl,
    put_full,
    ground (
      arith,
      lookup-erase dec k (last_or (c.fresh, (k, v)) c.items).1.0 (stored dec none k v c).index,
    ),
  )

  -- Where the last node of a full client table has a key that the map does not have, put of
  -- another new key leaves one entry more than the capacity.
  pub put_stale_grows :
      (last_or (c.fresh, (k, v)) c.items).1.0 ≢ k
      → lookup dec (last_or (c.fresh, (k, v)) c.items).1.0 c.index ≡ none
      → (c' : LocalLru K V) × (put dec k v c ≡ ok c') × (size c' ≡ suc c'.max_size)
  unfolding size
  put_stale_grows other gone =
      let q = (last_or (c.fresh, (k, v)) c.items).1.0 in
      let absent : lookup dec q (stored dec none k v c).index ≡ none =
        ground (arith, lookup-stored dec s k v none new q) in
      (
        popped dec (stored dec none k v c) (c.fresh, (k, v)) c.items refl,
        put_full,
        rw (erase_absent dec q (stored dec none k v c).index absent)
            (omega (arith, length-assign dec k c.fresh c.index new, full)),
      )
