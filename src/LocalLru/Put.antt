-- ===== src/LocalLru/Put.antt =====
-- What `put` does to the client's table.
use simple_distributed_cache.Common.{
  ℕ, ◌≡◌, ◌∙◌, ◌≢◌, ◌<◌, ◌+◌, Option, none, some, List, [], ◌∷◌, map, arith, All, NotIn, ite,
  ℕ_discrete, inl, inr, Option-cases,
}
use simple_distributed_cache.Common.Assoc.{
  lookup, assign, erase as erase_entry, lookup-erase, lookup-assign,
}
use simple_distributed_cache.LocalLru.{LocalLru}
use simple_distributed_cache.LocalLru.Invariant.{
  IsNumbered, IsNumbered-erase, lookup-lt, IsValid, IsIndexed, held,
}

below-suc :
    {A : Type 0} (n : ℕ) (l : List (ℕ × A)) → All (λ e. e.0 < n) l → All (λ e. e.0 < n + 1) l
below-suc n [] h = tt
below-suc n (x ∷ l) h = (omega arith, below-suc n l h.1)

pub NotIn-below :
    {A : Type 0} (n : ℕ) (l : List (ℕ × A)) → All (λ e. e.0 < n) l → NotIn n (map (λ e. e.0) l)
NotIn-below n [] h = tt
NotIn-below n (x ∷ l) h = (omega arith, NotIn-below n l h.1)

module _ {K V : Type 0} (dec : Discrete K) where
  -- The table before the last block of `put`.
  abbrev pub stored : Option ℕ → K → V → LocalLru K V → LocalLru K V
  stored none k v c = record {
    items = (c.fresh, (k, v)) ∷ c.items;
    index = assign dec k c.fresh c.index;
    max_size = c.max_size;
    fresh = c.fresh + 1;
  }
  stored (some i) k v c = record {
    items = erase_entry ℕ_discrete i ((c.fresh, (k, v)) ∷ c.items);
    index = assign dec k c.fresh (erase_entry dec k c.index);
    max_size = c.max_size;
    fresh = c.fresh + 1;
  }

  module _ {c : LocalLru K V} (s : IsValid dec c) (k : K) (v : V) where
    new-IsNumbered : IsNumbered (c.fresh + 1) ((c.fresh, (k, v)) ∷ c.items)
    new-IsNumbered = record {
      below = (omega arith, below-suc c.fresh c.items s.numbered.below);
      distinct = (NotIn-below c.fresh c.items s.numbered.below, s.numbered.distinct);
    }

    stored-IsNumbered :
        (o : Option ℕ) → lookup dec k c.index ≡ o → IsNumbered (c.fresh + 1) (stored o k v c).items
    stored-IsNumbered none h = new-IsNumbered
    stored-IsNumbered (some i) h = IsNumbered-erase i new-IsNumbered

    -- The map after the store.
    pub lookup-stored :
        (o : Option ℕ)
        → lookup dec k c.index ≡ o
        → (q : K)
        → lookup dec q (stored o k v c).index ≡ ite (dec q k) (some c.fresh) (lookup dec q c.index)
    lookup-stored none h q = lookup-assign dec q k c.fresh c.index
    lookup-stored (some i) h q = ground (
      arith,
      lookup-assign dec q k c.fresh (erase_entry dec k c.index),
      lookup-erase dec q k c.index,
    )

    -- The list after the store: the new node, and the old ones but for that of `k`.
    pub lookup-stored_new :
        (o : Option ℕ)
        → lookup dec k c.index ≡ o
        → lookup ℕ_discrete c.fresh (stored o k v c).items ≡ some (k, v)
    unfolding lookup
    lookup-stored_new none h = ground arith
    lookup-stored_new (some i) h =
        let (w, e) = s.points k i h in
        let old = lookup-lt c.fresh i (k, w) c.items s.numbered.below e in
        ground (arith, lookup-erase ℕ_discrete c.fresh i ((c.fresh, (k, v)) ∷ c.items))

    lookup-stored_old :
        (o : Option ℕ)
        → lookup dec k c.index ≡ o
        → (q : K) (j : ℕ) → q ≢ k
        → lookup dec q c.index ≡ some j
        → lookup ℕ_discrete j (stored o k v c).items ≡ lookup ℕ_discrete j c.items
    unfolding lookup
    lookup-stored_old none h q j out e =
        let (w, f) = s.points q j e in
        let old = lookup-lt c.fresh j (q, w) c.items s.numbered.below f in ground arith
    lookup-stored_old (some i) h q j out e =
        let (w, f) = s.points q j e in
        let (u, g) = s.points k i h in
        let old = lookup-lt c.fresh j (q, w) c.items s.numbered.below f in
        ground (arith, lookup-erase ℕ_discrete j i ((c.fresh, (k, v)) ∷ c.items))

    stored-points :
        (o : Option ℕ)
        → lookup dec k c.index ≡ o
        → (q : K) (j : ℕ) → lookup dec q (stored o k v c).index ≡ some j
        → (w : V) × (lookup ℕ_discrete j (stored o k v c).items ≡ some (q, w))
    stored-points o h q j e = elim (dec q k) [
      | yes p ↦ (v, ground (arith, lookup-stored o h q, lookup-stored_new o h))
      | no p ↦
          let there : lookup dec q c.index ≡ some j = ground (arith, lookup-stored o h q) in
          let (w, f) = s.points q j there in (w, lookup-stored_old o h q j p there ∙ f)
    ]

    pub stored-IsValid : (o : Option ℕ) → lookup dec k c.index ≡ o → IsValid dec (stored o k v c)
    stored-IsValid none h = record {
      numbered = stored-IsNumbered none h;
      points = stored-points none h;
    }
    stored-IsValid (some i) h = record {
      numbered = stored-IsNumbered (some i) h;
      points = stored-points (some i) h;
    }

    pub held-stored :
        (o : Option ℕ)
        → lookup dec k c.index ≡ o
        → (q : K) → held dec q (stored o k v c) ≡ ite (dec q k) (some v) (held dec q c)
    unfolding held
    held-stored o h q = elim (dec q k) [
      | yes p ↦ ground (arith, lookup-stored o h q, lookup-stored_new o h)
      | no p ↦ elim (Option-cases (lookup dec q c.index)) [
        | inl e ↦ ground (arith, lookup-stored o h q)
        | inr (j, e) ↦ ground (arith, lookup-stored o h q, lookup-stored_old o h q j p e)
      ]
    ]

    stored-indexed :
        IsIndexed dec c
        → (o : Option ℕ) → lookup dec k c.index ≡ o
        → (i : ℕ) (q : K) (w : V) → lookup ℕ_discrete i (stored o k v c).items ≡ some (q, w)
        → lookup dec q (stored o k v c).index ≡ some i
    unfolding lookup
    stored-indexed t none h i q w e = ground (arith, lookup-stored none h q, t.indexed i q w)
    stored-indexed t (some j) h i q w e = ground (
      arith,
      lookup-stored (some j) h q,
      t.indexed i q w,
      lookup-erase ℕ_discrete i j ((c.fresh, (k, v)) ∷ c.items),
    )

    pub stored-IsIndexed :
        IsIndexed dec c → (o : Option ℕ) → lookup dec k c.index ≡ o → IsIndexed dec (stored o k v c)
    stored-IsIndexed t o h = record { indexed = stored-indexed t o h }
