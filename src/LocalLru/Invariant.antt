-- ===== src/LocalLru/Invariant.antt =====
-- When the list and the map of the client's table fit together.
use simple_distributed_cache.Common.{
  false, is_some, ℕ, ◌≡◌, refl, ◌∙◌, ◌≢◌, ◌<◌, Option, none, some, List, [], ◌∷◌, map, arith, All,
  NotIn, IsDistinct, ite, ℕ_discrete, inl, inr, Option-cases, drop_last, last_or, ok,
}
use simple_distributed_cache.Common.Assoc.{lookup, erase as erase_entry, lookup-erase}
use simple_distributed_cache.LocalLru.{LocalLru, erase, get, exists}

module _ {A : Type 0} where
  -- The nodes of the list have numbers below `n`, each its own.
  pub record IsNumbered (n : ℕ) (l : List (ℕ × A)) : Type 0 where
    pub below : All (λ e. e.0 < n) l
    pub distinct : IsDistinct (map (λ e. e.0) l)

  pub lookup-lt :
      (n i : ℕ) (a : A) (l : List (ℕ × A))
      → All (λ e. e.0 < n) l
      → lookup ℕ_discrete i l ≡ some a
      → i < n
  unfolding lookup ℕ_discrete
  lookup-lt n i a [] h e = absurd (cc)
  lookup-lt n i a (x ∷ l) h e = ground (arith, lookup-lt n i a l)

  All-erase :
      (P : ℕ × A → Type 0) (i : ℕ) (l : List (ℕ × A)) → All P l → All P (erase_entry ℕ_discrete i l)
  unfolding erase_entry
  All-erase P i [] h = tt
  All-erase P i (x ∷ l) h =
      elim (ℕ_discrete i x.0)
        as (λ d. All P (ite d (erase_entry ℕ_discrete i l) (x ∷ erase_entry ℕ_discrete i l))) [
          | yes p ↦ All-erase P i l h.1
          | no p ↦ (h.0, All-erase P i l h.1)
        ]

  NotIn-erase :
      (q i : ℕ) (l : List (ℕ × A))
      → NotIn q (map (λ e. e.0) l)
      → NotIn q (map (λ e. e.0) (erase_entry ℕ_discrete i l))
  unfolding erase_entry
  NotIn-erase q i [] h = tt
  NotIn-erase q i (x ∷ l) h =
      elim (ℕ_discrete i x.0)
        as (λ d.
          NotIn q (
            map (λ e. e.0) (ite d (erase_entry ℕ_discrete i l) (x ∷ erase_entry ℕ_discrete i l)))) [
              | yes p ↦ NotIn-erase q i l h.1
              | no p ↦ (h.0, NotIn-erase q i l h.1)
            ]

  IsDistinct-erase :
      (i : ℕ) (l : List (ℕ × A))
      → IsDistinct (map (λ e. e.0) l)
      → IsDistinct (map (λ e. e.0) (erase_entry ℕ_discrete i l))
  unfolding erase_entry
  IsDistinct-erase i [] h = tt
  IsDistinct-erase i (x ∷ l) h =
      elim (ℕ_discrete i x.0)
        as (λ d.
          IsDistinct (
            map (λ e. e.0) (ite d (erase_entry ℕ_discrete i l) (x ∷ erase_entry ℕ_discrete i l)))) [
              | yes p ↦ IsDistinct-erase i l h.1
              | no p ↦ (NotIn-erase x.0 i l h.0, IsDistinct-erase i l h.1)
            ]

  pub NotIn-erase_self :
      (i : ℕ) (l : List (ℕ × A)) → NotIn i (map (λ e. e.0) (erase_entry ℕ_discrete i l))
  unfolding erase_entry
  NotIn-erase_self i [] = tt
  NotIn-erase_self i (x ∷ l) =
      elim (ℕ_discrete i x.0)
        as (λ d.
          NotIn i (
            map (λ e. e.0) (ite d (erase_entry ℕ_discrete i l) (x ∷ erase_entry ℕ_discrete i l)))) [
              | yes p ↦ NotIn-erase_self i l
              | no p ↦ (p, NotIn-erase_self i l)
            ]

  pub IsNumbered-erase :
      {n : ℕ} (i : ℕ) {l : List (ℕ × A)}
      → IsNumbered n l
      → IsNumbered n (erase_entry ℕ_discrete i l)
  IsNumbered-erase {n} i {l} s = record {
    below = All-erase (λ e. e.0 < n) i l s.below;
    distinct = IsDistinct-erase i l s.distinct;
  }

  All-drop_last : (P : ℕ × A → Type 0) (l : List (ℕ × A)) → All P l → All P (drop_last l)
  All-drop_last P [] h = tt
  All-drop_last P (x ∷ []) h = tt
  All-drop_last P (x ∷ y ∷ l) h = (h.0, All-drop_last P (y ∷ l) h.1)

  NotIn-drop_last :
      (q : ℕ) (l : List (ℕ × A))
      → NotIn q (map (λ e. e.0) l)
      → NotIn q (map (λ e. e.0) (drop_last l))
  NotIn-drop_last q [] h = tt
  NotIn-drop_last q (x ∷ []) h = tt
  NotIn-drop_last q (x ∷ y ∷ l) h = (h.0, NotIn-drop_last q (y ∷ l) h.1)

  IsDistinct-drop_last :
      (l : List (ℕ × A)) → IsDistinct (map (λ e. e.0) l) → IsDistinct (map (λ e. e.0) (drop_last l))
  IsDistinct-drop_last [] h = tt
  IsDistinct-drop_last (x ∷ []) h = tt
  IsDistinct-drop_last (x ∷ y ∷ l) h =
      (NotIn-drop_last x.0 (y ∷ l) h.0, IsDistinct-drop_last (y ∷ l) h.1)

  pub IsNumbered-drop_last :
      {n : ℕ} (l : List (ℕ × A)) → IsNumbered n l → IsNumbered n (drop_last l)
  IsNumbered-drop_last {n} l s = record {
    below = All-drop_last (λ e. e.0 < n) l s.below;
    distinct = IsDistinct-drop_last l s.distinct;
  }

  -- The last node is found by its number.
  pub last_or-ne :
      (q : ℕ) (x : ℕ × A) (l : List (ℕ × A))
      → q ≢ x.0
      → NotIn q (map (λ e. e.0) l)
      → q ≢ (last_or x l).0
  last_or-ne q x [] h k = h
  last_or-ne q x (y ∷ l) h k = last_or-ne q y l k.0 k.1

  pub lookup-last :
      (x : ℕ × A) (l : List (ℕ × A))
      → IsDistinct (map (λ e. e.0) (x ∷ l))
      → lookup ℕ_discrete (last_or x l).0 (x ∷ l) ≡ some (last_or x l).1
  unfolding lookup
  lookup-last x [] h = ground arith
  lookup-last x (y ∷ l) h = ground (arith, lookup-last y l h.1, last_or-ne x.0 y l h.0.0 h.0.1)

  -- Without its last node the list has every other number as before.
  pub lookup-drop_last :
      (i : ℕ) (x : ℕ × A) (l : List (ℕ × A))
      → IsDistinct (map (λ e. e.0) (x ∷ l))
      → lookup ℕ_discrete i (drop_last (x ∷ l))
        ≡ ite (ℕ_discrete i (last_or x l).0) none (lookup ℕ_discrete i (x ∷ l))
  unfolding lookup
  lookup-drop_last i x [] h = ground arith
  lookup-drop_last i x (y ∷ l) h =
      ground (arith, lookup-drop_last i y l h.1, last_or-ne x.0 y l h.0.0 h.0.1)

module _ {K V : Type 0} (dec : Discrete K) where
  -- Every iterator of the map points to a node with its key.
  pub record IsValid (c : LocalLru K V) : Type 0 where
    pub numbered : IsNumbered c.fresh c.items
    pub points :
        (k : K) (i : ℕ)
        → lookup dec k c.index ≡ some i
        → (v : V) × (lookup ℕ_discrete i c.items ≡ some (k, v))

  -- Every node of the list is in the map.
  pub record IsIndexed (c : LocalLru K V) : Type 0 where
    pub indexed :
        (i : ℕ) (k : K) (v : V)
        → lookup ℕ_discrete i c.items ≡ some (k, v)
        → lookup dec k c.index ≡ some i

  pub erase-IsValid : {c : LocalLru K V} (k : K) → IsValid c → IsValid (erase dec k c)
  unfolding erase
  erase-IsValid {c} k s = elim (Option-cases (lookup dec k c.index)) [
    | inl h ↦ rw (h, erase) (record { numbered = s.numbered; points = s.points })
    | inr (i, h) ↦
        rw (h, erase)
          (record {
            numbered = s.numbered;
            points = λ q j e. s.points q j (ground (arith, lookup-erase dec q k c.index));
          })
  ]

  -- `erase` takes the key out of the map: `get` throws for it then, and finds every other key as
  -- before.
  pub exists-erase :
      (c : LocalLru K V) (k q : K)
      → exists dec q (erase dec k c) ≡ ite (dec q k) false (exists dec q c)
  unfolding erase exists
  exists-erase c k q = ground (arith, lookup-erase dec q k c.index)

  -- What the map and the list hold at a key.
  abbrev held_at : Option (K × V) → Option V
  held_at none = none
  held_at (some e) = some e.1

  abbrev held_by : List (ℕ × (K × V)) → Option ℕ → Option V
  held_by l none = none
  held_by l (some i) = held_at (lookup ℕ_discrete i l)

  unfoldable pub held : K → LocalLru K V → Option V
  held k c = held_by c.items (lookup dec k c.index)

  pub lookup_front :
      (i j : ℕ) (e : K × V) (l : List (ℕ × (K × V)))
      → lookup ℕ_discrete i l ≡ some e
      → lookup ℕ_discrete j ((i, e) ∷ erase_entry ℕ_discrete i l) ≡ lookup ℕ_discrete j l
  unfolding lookup
  lookup_front i j e l h = ground (arith, lookup-erase ℕ_discrete j i l)

  -- What a read of `k` leaves.
  abbrev pub spliced : LocalLru K V → ℕ → K → V → LocalLru K V
  spliced c i k v = record c { items = (i, (k, v)) ∷ erase_entry ℕ_discrete i c.items }

  pub spliced-IsValid :
      {c : LocalLru K V} (i : ℕ) (k : K) (v : V)
      → IsValid c
      → lookup ℕ_discrete i c.items ≡ some (k, v)
      → IsValid (spliced c i k v)
  spliced-IsValid {c} i k v s e =
      let n = IsNumbered-erase i s.numbered in
      record {
        numbered = record {
          below = (lookup-lt c.fresh i (k, v) c.items s.numbered.below e, n.below);
          distinct = (NotIn-erase_self i c.items, n.distinct);
        };
        points = λ q j f. let (w, g) = s.points q j f in (w, lookup_front i j (k, v) c.items e ∙ g);
      }

  held-spliced :
      (c : LocalLru K V) (i : ℕ) (k : K) (v : V)
      → lookup ℕ_discrete i c.items ≡ some (k, v)
      → (q : K) → held q (spliced c i k v) ≡ held q c
  unfolding held
  held-spliced c i k v e q = elim (Option-cases (lookup dec q c.index)) [
    | inl h ↦ rw h
    | inr (j, h) ↦ rw (h, lookup_front i j (k, v) c.items e)
  ]

  -- get on a valid client table never uses an iterator whose node is gone; it returns the value
  -- that the table holds at the key, or throws where the map does not have it; the table stays
  -- valid and holds the same values.
  pub get-held :
      {c : LocalLru K V} (k : K)
      → IsValid c
      → (c' : LocalLru K V) × (get dec k c ≡ ok (held k c, c'))
        × IsValid c'
        × ((q : K) → held q c' ≡ held q c)
        × (is_some (held k c) ≡ exists dec k c)
  unfolding get exists held
  get-held {c} k s = elim (Option-cases (lookup dec k c.index)) [
    | inl h ↦ (c, rw h, s, λ q. refl, rw h)
    | inr (i, h) ↦
        let (v, e) = s.points k i h in
        (spliced c i k v, rw (h, e), spliced-IsValid i k v s e, held-spliced c i k v e, rw (h, e))
  ]
