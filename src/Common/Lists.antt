-- ===== src/Common/Lists.antt =====
-- Lists measured and indexed by native numbers, membership and distinctness by recursion.
use Prim.Native.Nat.{ℕ, zero, suc, ◌+◌}
use mathlib.Core.Path.{◌≡◌, refl, ap}
use mathlib.Core.Logic.{◌≢◌, ◌⊎◌}
use mathlib.Core.List.{List, [], ◌∷◌, ◌++◌, map}
use mathlib.Core.Option.{Option, none, some}
use native.Mathlib.Omega.{arith}

module _ {ℓ} {A : Type ℓ} where
  abbrev pub length : List A → ℕ
  length [] = 0
  length (x ∷ xs) = suc (length xs)

  abbrev pub get_elem? : List A → ℕ → Option A
  get_elem? [] i = none
  get_elem? (x ∷ xs) zero = some x
  get_elem? (x ∷ xs) (suc i) = get_elem? xs i

  -- A write out of bounds changes nothing.
  abbrev pub set : List A → ℕ → A → List A
  set [] i v = []
  set (x ∷ xs) zero v = v ∷ xs
  set (x ∷ xs) (suc i) v = x ∷ set xs i v

  pub length-append : (xs ys : List A) → length (xs ++ ys) ≡ length xs + length ys
  length-append [] ys = omega arith
  length-append (x ∷ xs) ys = omega (arith, length-append xs ys)

pub length-map {ℓ κ} :
    {A : Type ℓ} {B : Type κ} (f : A → B) (xs : List A) → length (map f xs) ≡ length xs
length-map f [] = refl
length-map f (x ∷ xs) = ap suc (length-map f xs)

module _ {ℓ} {A : Type ℓ} where
  -- Every element has the property.
  abbrev pub All {κ} : (A → Type κ) → List A → Type κ
  All P [] = Unit
  All P (x ∷ xs) = P x × All P xs

  -- No element is `a`.
  abbrev pub NotIn : A → List A → Type ℓ
  NotIn a [] = Unit
  NotIn a (x ∷ xs) = (a ≢ x) × NotIn a xs

  abbrev pub IsDistinct : List A → Type ℓ
  IsDistinct [] = Unit
  IsDistinct (x ∷ xs) = NotIn x xs × IsDistinct xs

-- `a` is an element.
abbrev pub In : {A : Type 0} → A → List A → Type 0
In a [] = ⊥
In a (x ∷ xs) = (a ≡ x) ⊎ In a xs

-- A list without its last element, and that element, or `d`.
abbrev pub drop_last {ℓ} : {A : Type ℓ} → List A → List A
drop_last [] = []
drop_last (x ∷ []) = []
drop_last (x ∷ y ∷ l) = x ∷ drop_last (y ∷ l)

abbrev pub last_or {ℓ} : {A : Type ℓ} → A → List A → A
last_or d [] = d
last_or d (x ∷ l) = last_or x l

pub length-drop_last {ℓ} : {A : Type ℓ} (a : A) (l : List A) → length (drop_last (a ∷ l)) ≡ length l
length-drop_last a [] = refl
length-drop_last a (x ∷ l) = omega (arith, length-drop_last x l)

pub drop_last-last {ℓ} :
    {A : Type ℓ} (a : A) (l : List A) → a ∷ l ≡ drop_last (a ∷ l) ++ last_or a l ∷ []
drop_last-last a [] = refl
drop_last-last a (x ∷ l) = ap (◌∷◌ a) (drop_last-last x l)

pub map-drop_last {ℓ κ} :
    {A : Type ℓ} {B : Type κ} (f : A → B) (l : List A) → map f (drop_last l) ≡ drop_last (map f l)
map-drop_last f [] = refl
map-drop_last f (x ∷ []) = refl
map-drop_last f (x ∷ y ∷ l) = ap (◌∷◌ (f x)) (map-drop_last f (y ∷ l))

pub last_or-map {ℓ κ} :
    {A : Type ℓ} {B : Type κ} (f : A → B) (a : A) (l : List A)
    → last_or (f a) (map f l) ≡ f (last_or a l)
last_or-map f a [] = refl
last_or-map f a (x ∷ l) = last_or-map f x l
