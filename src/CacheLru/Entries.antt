-- ===== src/CacheLru/Entries.antt =====
-- The entries of a list of nodes, under lookup and erasure by key.
use simple_distributed_cache.Common.{
  ◌≡◌, refl, none, some, List, [], ◌∷◌, ◌++◌, map, arith, ite, if_neg, NotIn, ap,
}
use simple_distributed_cache.Common.Assoc.{lookup, erase}

abbrev pub entries : {A K V : Type 0} (key : A → K) (val : A → V) → List A → List (K × V)
entries key val = map (λ a. (key a, val a))

module _ {A K V : Type 0} (dec : Discrete K) (key : A → K) (val : A → V) where
  pub lookup_absent :
      (k : K) (xs : List A) → NotIn k (map key xs) → lookup dec k (entries key val xs) ≡ none
  unfolding lookup
  lookup_absent k [] h = refl
  lookup_absent k (x ∷ xs) h = ground (arith, lookup_absent k xs)

  -- The order of the entries is nothing to a lookup, where the keys differ.
  pub lookup_middle :
      (k : K) (xs : List A) (x : A) (ys : List A)
      → NotIn (key x) (map key xs)
      → lookup dec k (entries key val (xs ++ x ∷ ys))
        ≡ ite (dec k (key x)) (some (val x)) (lookup dec k (entries key val (xs ++ ys)))
  unfolding lookup
  lookup_middle k [] x ys h = refl
  lookup_middle k (w ∷ ws) x ys h = ground (arith, lookup_middle k ws x ys)

  erase_absent :
      (k : K) (xs : List A)
      → NotIn k (map key xs)
      → erase dec k (entries key val xs) ≡ entries key val xs
  unfolding erase
  erase_absent k [] h = refl
  erase_absent k (x ∷ xs) h = ground (arith, erase_absent k xs)

  pub erase_middle :
      (xs : List A) (x : A) (ys : List A)
      → NotIn (key x) (map key xs)
      → NotIn (key x) (map key ys)
      → erase dec (key x) (entries key val (xs ++ x ∷ ys)) ≡ entries key val (xs ++ ys)
  unfolding erase
  erase_middle [] x ys h k = ground (arith, erase_absent (key x) ys)
  erase_middle (w ∷ ws) x ys h k = ground (arith, erase_middle ws x ys)

-- A lookup that hits splits the list at the entry that it found.
pub record Found {A K : Type 0} (key : A → K) (k : K) (a : A) (l : List A) : Type 0 where
  pub before : List A
  pub after : List A
  pub whole : l ≡ before ++ a ∷ after
  pub has_key : key a ≡ k

module _ {A K : Type 0} (dec : Discrete K) (key : A → K) where
  Found-here :
      {k : K} {a x : A} (xs : List A) → k ≡ key x → some x ≡ some a → Found key k a (x ∷ xs)
  Found-here xs e f = record { before = []; after = xs; whole = ground arith; has_key = cc }

  Found-there : {k : K} {a : A} (x : A) {xs : List A} → Found key k a xs → Found key k a (x ∷ xs)
  Found-there x f = record {
    before = x ∷ f.before;
    after = f.after;
    whole = ap (◌∷◌ x) f.whole;
    has_key = f.has_key;
  }

  pub found :
      (k : K) (a : A) (l : List A)
      → lookup dec k (entries key (λ x. x) l) ≡ some a
      → Found key k a l
  unfolding lookup
  found k a [] h = absurd (cc)
  found k a (x ∷ xs) h = elim (dec k (key x)) [
    | yes p ↦ Found-here xs p (ground arith)
    | no p ↦ Found-there x (found k a xs (ground arith))
  ]

-- The two views of a list of nodes agree.
pub lookup-entries :
    {A K V : Type 0} (dec : Discrete K) (key : A → K) (val : A → V) (k : K) (a : A) (l : List A)
    → lookup dec k (entries key (λ x. x) l) ≡ some a
    → lookup dec k (entries key val l) ≡ some (val a)
unfolding lookup
lookup-entries dec key val k a [] h = absurd (cc)
lookup-entries dec key val k a (x ∷ xs) h = elim (dec k (key x)) [
  | yes p ↦ ground arith
  | no p ↦ ground (arith, lookup-entries dec key val k a xs)
]

pub lookup-entries-none :
    {A K V : Type 0} (dec : Discrete K) (key : A → K) (val : A → V) (k : K) (l : List A)
    → lookup dec k (entries key (λ x. x) l) ≡ none
    → (lookup dec k (entries key val l) ≡ none) × NotIn k (map key l)
unfolding lookup
lookup-entries-none dec key val k [] h = (refl, tt)
lookup-entries-none dec key val k (x ∷ xs) h = elim (dec k (key x)) [
  | yes p ↦ absurd (ground arith)
  | no p ↦
      let r = lookup-entries-none dec key val k xs (ground arith) in (rw (if_neg _ p) r.0, (p, r.1))
]
