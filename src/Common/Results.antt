-- ===== src/Common/Results.antt =====
-- Results of code that may fault: `fault` stands for undefined behaviour and for an exception that
-- nothing catches.
use mathlib.Core.Bool.{Bool, true, false}
use mathlib.Core.Option.{Option, none, some}
use mathlib.Core.Path.{◌≡◌, refl, ap, subst}
use mathlib.Core.Logic.{ite}
use simple_distributed_cache.Common.Tests.{if◌then◌else◌}

pub data Result {ℓ} (A : Type ℓ) : Type ℓ where
  ok : A → Result A
  fault : Result A

infixl 5 ◌>>=◌ ◌>>◌
abbrev pub ◌>>=◌ {ℓ κ} : {A : Type ℓ} {B : Type κ} → Result A → (A → Result B) → Result B
ok a >>= f = f a
fault >>= f = fault

abbrev pub ◌>>◌ {ℓ} : {B : Type ℓ} → Result (Unit {0}) → Result B → Result B
m >> k = m >>= λ _. k

abbrev pub guard : Bool → Result (Unit {0})
guard true = ok tt
guard false = fault

abbrev pub of_option {ℓ} : {A : Type ℓ} → Option A → Result A
of_option none = fault
of_option (some a) = ok a

-- A chain that gives a value gives one at its first step.
pub bind_ok {ℓ κ} :
    {A : Type ℓ} {B : Type κ} (r : Result A) (f : A → Result B) (b : B)
    → (r >>= f) ≡ ok b
    → (a : A) × (r ≡ ok a) × (f a ≡ ok b)
bind_ok (ok a) f b h = (a, refl, h)
bind_ok fault f b h = absurd (cc h)

pub ok_injective {ℓ} : {A : Type ℓ} {a b : A} → ok a ≡ ok b → a ≡ b
ok_injective {a} h = ap (λ r. elim r [ ok x ↦ x | fault ↦ a ]) h

-- The value has the property, where there is one.
abbrev pub Gives {ℓ κ} : {A : Type ℓ} (P : A → Type κ) → Result A → Type κ
Gives P (ok a) = P a
Gives P fault = Unit

-- A chain, given what its first step gives.
pub Gives-then {ℓ κ μ ν} :
    {A : Type ℓ} {B : Type κ} (P : A → Type μ) (Q : B → Type ν) (r : Result A) (f : A → Result B)
    → Gives P r
    → ((a : A) → P a → Gives Q (f a))
    → Gives Q (r >>= f)
Gives-then P Q (ok a) f p k = k a p
Gives-then P Q fault f p k = tt

pub Gives-any {ℓ κ ν} :
    {A : Type ℓ} {B : Type κ} (Q : B → Type ν) (r : Result A) (f : A → Result B)
    → ((a : A) → Gives Q (f a))
    → Gives Q (r >>= f)
Gives-any Q (ok a) f k = k a
Gives-any Q fault f k = tt

-- The same, with the equation of the first step.
pub Gives-with {ℓ κ ν} :
    {A : Type ℓ} {B : Type κ} (Q : B → Type ν) (r : Result A) (f : A → Result B)
    → ((a : A) → r ≡ ok a → Gives Q (f a))
    → Gives Q (r >>= f)
Gives-with Q (ok a) f k = k a refl
Gives-with Q fault f k = tt

pub Gives-at {ℓ κ} :
    {A : Type ℓ} (P : A → Type κ) (r : Result A) (a : A) → r ≡ ok a → Gives P r → P a
Gives-at P (ok b) a h p = subst P (ok_injective h) p
Gives-at P fault a h p = absurd (cc h)

pub Gives-map {ℓ κ ν} :
    {A : Type ℓ} (P : A → Type κ) (Q : A → Type ν) (r : Result A)
    → ((a : A) → P a → Q a)
    → Gives P r
    → Gives Q r
Gives-map P Q (ok a) k p = k a p
Gives-map P Q fault k p = tt

pub Gives-ite {ℓ κ ν} :
    {A : Type ℓ} {X : Type ν} (P : A → Type κ) (d : Dec X) (r s : Result A)
    → Gives P r
    → Gives P s
    → Gives P (ite d r s)
Gives-ite P (yes x) r s p q = p
Gives-ite P (no n) r s p q = q

pub Gives-if {ℓ κ} :
    {A : Type ℓ} (P : A → Type κ) (b : Bool) (r s : Result A)
    → Gives P r
    → Gives P s
    → Gives P (if b then r else s)
Gives-if P true r s p q = p
Gives-if P false r s p q = q

-- The same, with what the test says.
pub Gives-if_so {ℓ κ} :
    {A : Type ℓ} (P : A → Type κ) (b : Bool) (r s : Result A)
    → (b ≡ true → Gives P r)
    → (b ≡ false → Gives P s)
    → Gives P (if b then r else s)
Gives-if_so P true r s p q = p refl
Gives-if_so P false r s p q = q refl

-- A property of both branches holds of what a decision picks.
pub ite_either {ℓ κ ν} :
    {A : Type ℓ} {X : Type ν} (P : A → Type κ) (d : Dec X) (a b : A)
    → (X → P a)
    → (¬ X → P b)
    → P (ite d a b)
ite_either P (yes x) a b p q = p x
ite_either P (no n) a b p q = q n
