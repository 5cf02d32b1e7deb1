-- ===== src/Text.antt =====
-- Texts as lists of bytes: what the components write to a stream and read from a socket.
pub mod Split
use Prim.Native.String.{String}
use Prim.Native.Char.{code}
use simple_distributed_cache.Common.{
  ℕ, zero, suc, ◌+◌, ◌/◌, ◌%◌, List, [], ◌∷◌, ◌++◌, ltb, ◌==◌, ◌≡◌, ◌≢◌, refl, ap, ℕ_discrete,
  if◌then◌else◌, Bool, true, false, NotIn, arith,
}

abbrev pub Bytes : Type 0
Bytes = List ℕ

-- The bytes of an ASCII literal.
abbrev pub bytes : String → Bytes
bytes String.[] = []
bytes (String.◌∷◌ c s) = code c ∷ bytes s

-- `'#'` and `':'`
abbrev pub sharp : ℕ
sharp = b'#'

abbrev pub colon : ℕ
colon = b':'

-- The decimal digits of a number that is not negative, as `<<` and `std::to_string` write them;
-- the fuel is more than the number of digits.
decimal_digits : ℕ → ℕ → Bytes
decimal_digits zero n = []
decimal_digits (suc f) n =
    let rest = decimal_digits f (n / 10) in
    if ltb n 10 then (b'0' + n) ∷ [] else rest ++ (b'0' + n % 10) ∷ []

unfoldable pub decimal : ℕ → Bytes
unfolding decimal_digits
decimal n = decimal_digits (n + 1) n

abbrev pub cons_char : ℕ → List Bytes → List Bytes
cons_char c [] = (c ∷ []) ∷ []
cons_char c (w ∷ ws) = (c ∷ w) ∷ ws

-- `split` of Client/src/tools.cpp: the fields that `getline` reads until it reads none. What stands
-- behind the last separator is a field only where it is not empty.
unfoldable pub split : Bytes → ℕ → List Bytes
split [] flag = []
split (c ∷ s) flag = let rest = split s flag in if c == flag then [] ∷ rest else cons_char c rest

-- Fields with a separator between each two.
unfoldable pub join : ℕ → Bytes → List Bytes → Bytes
join flag w [] = w
join flag w (v ∷ ws) = w ++ flag ∷ join flag v ws

-- `==` on texts
same_cons : {a b : ℕ} {v w : Bytes} → Dec (a ≡ b) → Dec (v ≡ w) → Dec (a ∷ v ≡ b ∷ w)
same_cons (yes p) (yes q) = yes (cc (p, q))
same_cons (yes p) (no n) = no (λ e. n (cc e))
same_cons (no n) q = no (λ e. n (cc e))

unfoldable pub bytes_discrete : Discrete Bytes
unfolding same_cons
bytes_discrete [] [] = yes refl
bytes_discrete [] (c ∷ s) = no (λ e. cc e)
bytes_discrete (c ∷ s) [] = no (λ e. cc e)
bytes_discrete (c ∷ s) (d ∷ t) = same_cons (ℕ_discrete c d) (bytes_discrete s t)

-- Texts that start with different characters differ.
first_or : ℕ → Bytes → ℕ
first_or d [] = d
first_or d (c ∷ s) = c

pub ne_first : (c d : ℕ) (v w : Bytes) → c ≢ d → c ∷ v ≢ d ∷ w
unfolding first_or
ne_first c d v w n e = n (ap (first_or c) e)

-- Whether a character stands in a text.
abbrev pub has_char : ℕ → Bytes → Bool
has_char a [] = false
has_char a (c ∷ s) = let rest = has_char a s in if a == c then true else rest

pub has_char-NotIn : (a : ℕ) (s : Bytes) → has_char a s ≡ false → NotIn a s
has_char-NotIn a [] h = tt
has_char-NotIn a (c ∷ s) h = (λ e. ground (arith, e, h), has_char-NotIn a s (ground (arith, h)))
