-- ===== src/Common/Assoc.antt =====
-- Maps of the C++ library (`std::unordered_map`) as association lists over keys with a decidable
-- equality. The order of the list stands for the iteration order, on which nothing relies.
use Prim.Native.Nat.{suc, ◌≤◌, ◌<◌}
use mathlib.Core.Path.{◌≡◌, refl}
use mathlib.Core.Bool.{true}
use simple_distributed_cache.Common.Lists.{length, drop_last, last_or}
use simple_distributed_cache.Common.Tests.{is_some}
use mathlib.Core.Logic.{ite, ◌≢◌}
use mathlib.Core.List.{List, [], ◌∷◌}
use mathlib.Core.Option.{Option, none, some}
use native.Mathlib.Omega.{arith}

module _ {ℓ} {K V : Type ℓ} (dec : Discrete K) where
  -- `m.find(k)`
  unfoldable pub lookup : K → List (K × V) → Option V
  lookup k [] = none
  lookup k ((j, v) ∷ m) = ite (dec k j) (some v) (lookup k m)

  -- `m[k] = v`
  unfoldable pub assign : K → V → List (K × V) → List (K × V)
  assign k v [] = (k, v) ∷ []
  assign k v ((j, w) ∷ m) = ite (dec k j) ((k, v) ∷ m) ((j, w) ∷ assign k v m)

  -- `m.erase(k)`
  unfoldable pub erase : K → List (K × V) → List (K × V)
  erase k [] = []
  erase k ((j, w) ∷ m) = ite (dec k j) (erase k m) ((j, w) ∷ erase k m)

  pub lookup-assign :
      (q k : K) (v : V) (m : List (K × V))
      → lookup q (assign k v m) ≡ ite (dec q k) (some v) (lookup q m)
  unfolding lookup assign
  lookup-assign q k v [] = refl
  lookup-assign q k v ((j, w) ∷ m) = ground (arith, lookup-assign q k v m)

  pub lookup-erase :
      (q k : K) (m : List (K × V)) → lookup q (erase k m) ≡ ite (dec q k) none (lookup q m)
  unfolding lookup erase
  lookup-erase q k [] = ground arith
  lookup-erase q k ((j, w) ∷ m) = ground (arith, lookup-erase q k m)

  pub length-erase_le : (k : K) (l : List (K × V)) → length (erase k l) ≤ length l
  unfolding erase
  length-erase_le k [] = omega arith
  length-erase_le k ((j, w) ∷ l) = ground (arith, length-erase_le k l)

  pub length-erase_lt :
      (k : K) (l : List (K × V)) → is_some (lookup k l) ≡ true → length (erase k l) < length l
  unfolding lookup erase
  length-erase_lt k [] h = absurd (cc)
  length-erase_lt k ((j, w) ∷ l) h = ground (arith, length-erase_lt k l, length-erase_le k l)

  pub lookup-drop_last :
      (q : K) (e : K × V) (l : List (K × V))
      → q ≢ (last_or e l).0
      → lookup q (drop_last (e ∷ l)) ≡ lookup q (e ∷ l)
  unfolding lookup
  lookup-drop_last q e [] h = ground arith
  lookup-drop_last q e (x ∷ l) h = ground (arith, lookup-drop_last q x l)

  pub length-assign :
      (k : K) (v : V) (m : List (K × V))
      → lookup k m ≡ none
      → length (assign k v m) ≡ suc (length m)
  unfolding lookup assign
  length-assign k v [] h = refl
  length-assign k v ((j, w) ∷ m) h = ground (arith, length-assign k v m)

  pub erase_absent : (k : K) (m : List (K × V)) → lookup k m ≡ none → erase k m ≡ m
  unfolding lookup erase
  erase_absent k [] h = refl
  erase_absent k ((j, w) ∷ m) h = ground (arith, erase_absent k m)
