-- ===== src/Ring/Sorted.antt =====
-- The map of the ring: its keys ascend, and what each operation does to a lookup.
use simple_distributed_cache.Common.{
  ℕ, ◌≡◌, refl, ◌<◌, ◌≤◌, none, some, [], ◌∷◌, arith, ite, ℕ_discrete, Option,
}
use simple_distributed_cache.Common.Assoc.{lookup}
use simple_distributed_cache.Ring.{Points, insert, assign, erase}

-- Every key is above `k`.
abbrev pub Above : ℕ → Points → Type 0
Above k [] = Unit
Above k ((j, w) ∷ m) = (k < j) × Above k m

abbrev pub IsSorted : Points → Type 0
IsSorted [] = Unit
IsSorted ((j, w) ∷ m) = Above j m × IsSorted m

-- `key2Index.find(k)->second`
abbrev pub index_at : ℕ → Points → Option ℕ
index_at = lookup ℕ_discrete

pub lookup-Above : (k q : ℕ) (m : Points) → Above k m → q ≤ k → index_at q m ≡ none
unfolding lookup
lookup-Above k q [] h e = refl
lookup-Above k q ((j, w) ∷ m) h e = ground (arith, lookup-Above k q m h.1 e)

pub Above-lookup : (k q v : ℕ) (m : Points) → Above k m → index_at q m ≡ some v → k < q
unfolding lookup
Above-lookup k q v [] h e = absurd (cc)
Above-lookup k q v ((j, w) ∷ m) h e = ground (arith, Above-lookup k q v m h.1)

Above-trans : (i k : ℕ) (m : Points) → i ≤ k → Above k m → Above i m
Above-trans i k [] h s = tt
Above-trans i k ((j, w) ∷ m) h s = (omega arith, Above-trans i k m h s.1)

Above-insert : (i k v : ℕ) (m : Points) → i < k → Above i m → Above i (insert k v m)
unfolding insert
Above-insert i k v [] h s = (h, tt)
Above-insert i k v ((j, w) ∷ m) h s = ground (arith, Above-insert i k v m h s.1)

pub insert-IsSorted : (k v : ℕ) (m : Points) → IsSorted m → IsSorted (insert k v m)
unfolding insert
insert-IsSorted k v [] s = (tt, tt)
insert-IsSorted k v ((j, w) ∷ m) s =
    ground (arith, insert-IsSorted k v m s.1, Above-insert j k v m, Above-trans k j m)

Above-assign : (i k v : ℕ) (m : Points) → i < k → Above i m → Above i (assign k v m)
unfolding assign
Above-assign i k v [] h s = (h, tt)
Above-assign i k v ((j, w) ∷ m) h s = ground (arith, Above-assign i k v m h s.1)

pub assign-IsSorted : (k v : ℕ) (m : Points) → IsSorted m → IsSorted (assign k v m)
unfolding assign
assign-IsSorted k v [] s = (tt, tt)
assign-IsSorted k v ((j, w) ∷ m) s =
    ground (arith, assign-IsSorted k v m s.1, Above-assign j k v m, Above-trans k j m)

Above-erase : (i k : ℕ) (m : Points) → Above i m → Above i (erase k m)
unfolding erase
Above-erase i k [] s = tt
Above-erase i k ((j, w) ∷ m) s = ground (arith, Above-erase i k m s.1)

pub erase-IsSorted : (k : ℕ) (m : Points) → IsSorted m → IsSorted (erase k m)
unfolding erase
erase-IsSorted k [] s = tt
erase-IsSorted k ((j, w) ∷ m) s = ground (arith, erase-IsSorted k m s.1, Above-erase j k m)

pub lookup-insert :
    (q k v : ℕ) (m : Points)
    → IsSorted m
    → index_at q (insert k v m)
      ≡ ite (ℕ_discrete q k) (some (elim (index_at k m) [ none ↦ v | some w ↦ w ])) (index_at q m)
unfolding lookup insert
lookup-insert q k v [] s = refl
lookup-insert q k v ((j, w) ∷ m) s =
    ground (arith, lookup-insert q k v m s.1, lookup-Above j k m s.0)

pub lookup-assign :
    (q k v : ℕ) (m : Points)
    → IsSorted m
    → index_at q (assign k v m) ≡ ite (ℕ_discrete q k) (some v) (index_at q m)
unfolding lookup assign
lookup-assign q k v [] s = refl
lookup-assign q k v ((j, w) ∷ m) s = ground (arith, lookup-assign q k v m s.1)

pub lookup-erase :
    (q k : ℕ) (m : Points)
    → IsSorted m
    → index_at q (erase k m) ≡ ite (ℕ_discrete q k) none (index_at q m)
unfolding lookup erase
lookup-erase q k [] s = ground arith
lookup-erase q k ((j, w) ∷ m) s = ground (arith, lookup-erase q k m s.1, lookup-Above j k m s.0)

-- Two sorted lists with the same lookups are one.
pub points_ext :
    (m n : Points) → IsSorted m → IsSorted n → ((q : ℕ) → index_at q m ≡ index_at q n) → m ≡ n
unfolding lookup
points_ext [] [] s t same = refl
points_ext [] ((j, w) ∷ n) s t same = absurd (ground (arith, same j))
points_ext ((j, w) ∷ m) [] s t same = absurd (ground (arith, same j))
points_ext ((j, w) ∷ m) ((i, u) ∷ n) s t same =
    let e : j ≡ i =
      ground (arith, same j, same i, Above-lookup i j w n t.0, Above-lookup j i u m s.0) in
    let f : w ≡ u = ground (arith, same j, e) in
    let rest : m ≡ n =
      points_ext m n s.1 t.1
        λ q. ground (arith, same q, lookup-Above j q m s.0, lookup-Above i q n t.0, e) in
    ground (arith, e, f, rest)
