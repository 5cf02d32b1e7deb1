-- ===== src/LocalLru/Indexed.antt =====
-- `put` of the client's table where no node stands outside the map.
use simple_distributed_cache.Common.{
  ℕ, ◌≡◌, refl, sym, ap, ◌∙◌, ◌≢◌, ◌<◌, ◌≤◌, Option, none, some, List, [], ◌∷◌, arith, ℕ_discrete,
  inl, inr, Option-cases, Bool-cases, last_or, length, ok, true, false, ltb, ◌⊎◌, if◌then◌else◌,
  ◌==◌, map, IsDistinct,
}
use mathlib.Core.Path.{subst}
use simple_distributed_cache.Common.Assoc.{
  lookup, length-assign, lookup-erase, erase as erase_entry,
}
use simple_distributed_cache.LocalLru.{LocalLru, put, exists}
use simple_distributed_cache.LocalLru.Invariant.{IsValid, IsIndexed, held, lookup-last}
use simple_distributed_cache.LocalLru.Put.{stored, stored-IsValid, held-stored, stored-IsIndexed}
use simple_distributed_cache.LocalLru.PopBack.{
  popped, popped-IsValid, held-popped, popped-IsIndexed, length-popped,
}
use simple_distributed_cache.LocalLru.Store.{put-stored, length-stored}

-- The key of the node that was used least recently.
abbrev pub oldest : {K V : Type 0} → List (ℕ × (K × V)) → Option K
oldest [] = none
oldest (x ∷ l) = some (last_or x l).1.0

oldest-last :
    {K V : Type 0} (q : K) (x : ℕ × (K × V)) (l : List (ℕ × (K × V)))
    → q ≡ (last_or x l).1.0
    → q ≢ x.1.0
    → oldest l ≡ some q
oldest-last q x [] h k = absurd (k h)
oldest-last q x (y ∷ l) h k = ap some (sym h)

lookup_of_length :
    {K V : Type 0} (dec : Discrete K) (k : K) (m : List (K × V))
    → length m ≡ 0
    → lookup dec k m ≡ none
unfolding lookup
lookup_of_length dec k [] h = refl
lookup_of_length dec k (e ∷ m) h = absurd (omega arith)

-- What every table that the client builds with `put` and `get` satisfies.
pub record IsTight {K V : Type 0} (dec : Discrete K) (c : LocalLru K V) : Type 0 where
  pub valid : IsValid dec c
  pub indexed : IsIndexed dec c
  pub bounded : length c.index ≤ c.max_size

module _ {K V : Type 0} (dec : Discrete K) {c : LocalLru K V} (s : IsTight dec c) (k : K)
    (v : V) where
  index_empty : (l : List (K × ℕ)) → c.index ≡ l → c.items ≡ [] → l ≡ []
  unfolding lookup
  index_empty [] e h = refl
  index_empty ((q, j) ∷ m) e h =
      let there : lookup dec q c.index ≡ some j = rw e (ground arith) in
      let (w, f) = s.valid.points q j there in absurd (cc (f, ap (lookup ℕ_discrete j) h))

  -- What `put` promises of the table that it leaves.
  pub record Stores (c' : LocalLru K V) : Type 0 where
    pub tight : IsTight dec c'
    pub kept_size : c'.max_size ≡ c.max_size
    pub found : held dec k c' ≡ (if c.max_size == 0 then none else some v)
    pub others :
        (q : K)
        → (q ≡ k)
          ⊎ (held dec q c' ≡ held dec q c)
          ⊎ (held dec q c' ≡ none)
            × (oldest c.items ≡ some q)
            × (exists dec k c ≡ false)
            × (length c.index ≡ c.max_size)

  -- Where the capacity is 0 the entry that was stored is the one that goes.
  found-room :
      (o : Option ℕ)
      → lookup dec k c.index ≡ o
      → ltb c.max_size (length (stored dec o k v c).index) ≡ false
      → c.max_size ≢ 0
  found-room none h room = ground (arith, length-assign dec k c.fresh c.index h)
  found-room (some i) h room = ground (
    arith,
    length-assign dec k c.fresh (erase_entry dec k c.index)
        (ground (arith, lookup-erase dec k k c.index)),
  )

  Stores-room :
      (o : Option ℕ)
      → lookup dec k c.index ≡ o
      → ltb c.max_size (length (stored dec o k v c).index) ≡ false
      → (stored dec o k v c).max_size ≡ c.max_size
      → Stores (stored dec o k v c)
  Stores-room o h room same = record {
    tight = record {
      valid = stored-IsValid dec s.valid k v o h;
      indexed = stored-IsIndexed dec s.valid k v s.indexed o h;
      bounded = rw same (ground arith);
    };
    kept_size = same;
    found = ground (arith, held-stored dec s.valid k v o h k, found-room o h room);
    others = λ q. elim (dec q k) [
      | yes p ↦ inl p
      | no p ↦ inr (inl (ground (arith, held-stored dec s.valid k v o h q)))
    ];
  }

  last-ne :
      lookup dec k c.index ≡ none
      → ltb c.max_size (length (stored dec none k v c).index) ≡ true
      → 0 < c.max_size
      → (l : List (ℕ × (K × V))) → c.items ≡ l
      → k ≢ (last_or (c.fresh, (k, v)) l).1.0
  last-ne h over pos [] e =
      let z : length c.index ≡ 0 = ap length (index_empty c.index refl e) in
      let long = length-stored dec s.valid k v none h in λ _. absurd (ground arith)
  last-ne h over pos (y ∷ l) e =
      let n : IsDistinct (map (λ a. a.0) (y ∷ l)) =
        subst (λ m. IsDistinct (map (λ a. a.0) m)) e s.valid.numbered.distinct in
      let there : lookup ℕ_discrete (last_or y l).0 c.items ≡ some (last_or y l).1 =
        ap (lookup ℕ_discrete (last_or y l).0) e ∙ lookup-last y l n in
      let used = s.indexed.indexed (last_or y l).0 (last_or y l).1.0 (last_or y l).1.1 there in
      λ same. cc (h, used)

  last-eq :
      lookup dec k c.index ≡ none
      → c.max_size ≡ 0
      → (l : List (ℕ × (K × V))) → c.items ≡ l
      → k ≡ (last_or (c.fresh, (k, v)) l).1.0
  unfolding lookup
  last-eq h z [] e = refl
  last-eq h z (y ∷ l) e =
      let there : lookup ℕ_discrete y.0 c.items ≡ some y.1 =
        ap (lookup ℕ_discrete y.0) e ∙ ground arith in
      let used = s.indexed.indexed y.0 y.1.0 y.1.1 there in
      let gone = lookup_of_length dec y.1.0 c.index (omega (arith, s.bounded)) in absurd (cc)

  Stores-full :
      lookup dec k c.index ≡ none
      → ltb c.max_size (length (stored dec none k v c).index) ≡ true
      → Stores (popped dec (stored dec none k v c) (c.fresh, (k, v)) c.items refl)
  unfolding exists
  Stores-full h over =
      let d = stored dec none k v c in
      let x : ℕ × (K × V) = (c.fresh, (k, v)) in
      let t = stored-IsValid dec s.valid k v none h in
      let u = stored-IsIndexed dec s.valid k v s.indexed none h in
      let long = length-stored dec s.valid k v none h in
      let short = length-popped dec d x c.items refl t u in
      let cut = held-popped dec d x c.items refl t in
      record {
        tight = record {
          valid = popped-IsValid dec d x c.items refl t;
          indexed = popped-IsIndexed dec d x c.items refl t u;
          bounded = omega (arith, s.bounded);
        };
        kept_size = refl;
        found = elim (ℕ_discrete c.max_size 0) [
          | yes z ↦ ground (arith, cut k, last-eq h z c.items refl)
          | no z ↦ ground (
            arith,
            cut k,
            last-ne h over (omega arith) c.items refl,
            held-stored dec s.valid k v none h k,
          )
        ];
        others = λ q. elim (dec q k) [
          | yes same ↦ inl same
          | no out ↦ inr (elim (dec q (last_or x c.items).1.0) [
            | yes p ↦ inr (ground (arith, cut q), oldest-last q x c.items p out, rw h, ground arith)
            | no p ↦ inl (ground (arith, cut q, held-stored dec s.valid k v none h q))
          ])
        ];
      }

  -- put on a client table with no node outside the map stores the value unless the capacity is
  -- 0, keeps what every other key holds but for the least recently used one where the table was
  -- full and the key was new, and keeps the table within its capacity.
  pub put-Stores : (c' : LocalLru K V) × (put dec k v c ≡ ok c') × Stores c'
  put-Stores = elim (Option-cases (lookup dec k c.index)) [
    | inl h ↦
        let e = put-stored dec s.valid k v none h in
        elim (Bool-cases (ltb c.max_size (length (stored dec none k v c).index))) [
          | inr room ↦ (stored dec none k v c, e ∙ rw room, Stores-room none h room refl)
          | inl over ↦ (
            popped dec (stored dec none k v c) (c.fresh, (k, v)) c.items refl,
            e ∙ rw over,
            Stores-full h over,
          )
        ]
    | inr (i, h) ↦
        let e = put-stored dec s.valid k v (some i) h in
        let long = length-stored dec s.valid k v (some i) h in
        let room : ltb c.max_size (length (stored dec (some i) k v c).index) ≡ false =
          ground (arith, s.bounded) in
        (stored dec (some i) k v c, e ∙ rw room, Stores-room (some i) h room refl)
  ]
