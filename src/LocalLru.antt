-- ===== src/LocalLru.antt =====
-- The client's table of where each key lives, Client/include/lru.hpp: a `std::list` of pairs and a
-- hash map from keys to iterators. An iterator is the number of the list node it points to; the
-- list holds its nodes with their numbers, and `fresh` is the number of the next node. A use of an
-- iterator whose node is gone is a fault, and so is `pop_back` on an empty list. `get` returns
-- `none` where the code throws `std::range_error`.
pub mod Invariant
pub mod Put
pub mod PopBack
pub mod Store
pub mod Indexed
pub mod Runs
pub mod Stale
use simple_distributed_cache.Common.{
  ℕ, ◌+◌, Bool, Option, none, some, List, [], ◌∷◌, Result, ok, fault, ◌>>=◌, ◌>>◌, guard, length,
  ltb, if◌then◌else◌, is_some, drop_last, last_or, ℕ_discrete,
}
use simple_distributed_cache.Common.Assoc.{lookup, assign, erase as erase_entry}

-- `lru_cache`
pub record LocalLru (K V : Type 0) : Type 0 where
  pub items : List (ℕ × (K × V))
  pub index : List (K × ℕ)
  pub max_size : ℕ
  pub fresh : ℕ

-- `lru_cache(max_size)`
unfoldable pub init : {K V : Type 0} → ℕ → LocalLru K V
init max_size = record { items = []; index = []; max_size = max_size; fresh = 0 }

module _ {K V : Type 0} where
  -- `_cache_items_list.erase(it)`
  abbrev pub erase_node : ℕ → List (ℕ × (K × V)) → Result (List (ℕ × (K × V)))
  erase_node i l = guard (is_some (lookup ℕ_discrete i l)) >> ok (erase_entry ℕ_discrete i l)

  module _ (dec : Discrete K) where
    -- the first `if` of `put`
    abbrev pub drop_old : K → Option ℕ → LocalLru K V → Result (LocalLru K V)
    drop_old k none c = ok c
    drop_old k (some it) c = do
      items ← erase_node it c.items
      ok (record c { items = items; index = erase_entry dec k c.index })

    -- the last block of `put`
    abbrev pub pop_back : List (ℕ × (K × V)) → LocalLru K V → Result (LocalLru K V)
    pop_back [] c = fault
    pop_back (e ∷ l) c =
        ok (record c {
          items = drop_last (e ∷ l);
          index = erase_entry dec (last_or e l).1.0 c.index;
        })

    -- `put`
    unfoldable pub put : K → V → LocalLru K V → Result (LocalLru K V)
    put k v c = do
      let old = lookup dec k c.index
      let new = record c { items = (c.fresh, (k, v)) ∷ c.items; fresh = c.fresh + 1 }
      new ← drop_old k old new
      let new = record new { index = assign dec k c.fresh new.index }
      if ltb new.max_size (length new.index) then pop_back new.items new else ok new

    -- `erase`: the node stays in the list
    unfoldable pub erase : K → LocalLru K V → LocalLru K V
    erase k c = elim (lookup dec k c.index) [
      | none ↦ c
      | some it ↦ record c { index = erase_entry dec k c.index }
    ]

    -- `splice` to the front and the read behind it
    abbrev pub splice_read : ℕ → Option (K × V) → LocalLru K V → Result (Option V × LocalLru K V)
    splice_read it none c = fault
    splice_read it (some e) c =
        ok (some e.1, record c { items = (it, e) ∷ erase_entry ℕ_discrete it c.items })

    abbrev pub get_found : Option ℕ → LocalLru K V → Result (Option V × LocalLru K V)
    get_found none c = ok (none, c)
    get_found (some it) c = splice_read it (lookup ℕ_discrete it c.items) c

    -- `get`
    unfoldable pub get : K → LocalLru K V → Result (Option V × LocalLru K V)
    get k c = get_found (lookup dec k c.index) c

    -- `exists`
    unfoldable pub exists : K → LocalLru K V → Bool
    exists k c = is_some (lookup dec k c.index)

  -- `size`
  unfoldable pub size : LocalLru K V → ℕ
  size c = length c.index
