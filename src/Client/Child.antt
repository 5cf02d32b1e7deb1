-- ===== src/Client/Child.antt =====
-- The client's child process and the texts that it makes up: `strRand` of Client/src/tools.cpp, and the
-- branch of `start` and `send_key_to_father` of Client/src/client.cpp. What the generator of the
-- standard library draws is a parameter `random`, by the number of the draw.
use simple_distributed_cache.Common.{
  ℕ, zero, suc, ◌+◌, ◌-◌, ◌%◌, ◌≤◌, ◌<◌, ◌≡◌, ◌≢◌, refl, ap, ◌⊎◌, inl, inr, none, [], ◌∷◌, ◌++◌,
  All, NotIn, length, ltb, if◌then◌else◌, arith, ok, if_pos, Bool-cases, true,
}
use simple_distributed_cache.Text.{Bytes, bytes, bytes_discrete, sharp, split, join}
use simple_distributed_cache.Text.Split.{split-join}
use simple_distributed_cache.LocalLru.Invariant.{held, get-held, IsValid}
use simple_distributed_cache.Client.{Client, Net, Packet, send_request_to_master}
use simple_distributed_cache.Client.Handlers.{dealwith_child}
use simple_distributed_cache.Client.Route.{no_sharp-child}

-- `KEY_LENGTH`
abbrev pub key_length : ℕ
key_length = 3

-- The two branches of the loop of `strRand`; no sum here is above what a `char` holds.
unfoldable pub letter : ℕ → ℕ
letter tmp = if ltb tmp 10 then tmp + b'0' else (tmp - 10) + b'A'

-- The loop, from the draw with the number `i` on.
unfoldable pub rand_from : (random : ℕ → ℕ) → (i rounds : ℕ) → Bytes
rand_from random i zero = []
rand_from random i (suc n) = letter (random i % 36) ∷ rand_from random (i + 1) n

-- `strRand`
unfoldable pub str_rand : (random : ℕ → ℕ) → ℕ → Bytes
str_rand random n = rand_from random 0 n

-- What `send_key_to_father` writes.
unfoldable pub key_text : Bytes → Bytes
key_text key = bytes "CHILD#" ++ key

-- A round of the child's loop where the keys are not read from a file.
unfoldable pub child_round : (random : ℕ → ℕ) → Bytes
child_round random = key_text (str_rand random key_length)

-- A digit, or a capital letter.
abbrev pub IsLetter : ℕ → Type 0
IsLetter c = (b'0' ≤ c) × (c ≤ b'9') ⊎ (b'A' ≤ c) × (c ≤ b'Z')

letter-IsLetter : (n : ℕ) → n < 36 → IsLetter (letter n)
unfolding letter
letter-IsLetter n h = elim (Bool-cases (ltb n 10)) [
  | inl e ↦ inl (ground (arith, e), ground (arith, e))
  | inr e ↦ inr (ground (arith, e), ground (arith, e, h))
]

rand_from-IsLetter :
    (random : ℕ → ℕ) (i n : ℕ)
    → (length (rand_from random i n) ≡ n) × All IsLetter (rand_from random i n)
unfolding rand_from
rand_from-IsLetter random i zero = (refl, tt)
rand_from-IsLetter random i (suc n) =
    let (a, b) = rand_from-IsLetter random (i + 1) n in
    (ap suc a, (letter-IsLetter (random i % 36) (omega arith), b))

-- strRand returns as many characters as it is asked for, each a digit or a capital letter,
-- whatever the generator draws.
pub str_rand-IsLetter :
    (random : ℕ → ℕ) (n : ℕ) → (length (str_rand random n) ≡ n) × All IsLetter (str_rand random n)
unfolding str_rand
str_rand-IsLetter random n = rand_from-IsLetter random 0 n

no_sharp : (s : Bytes) → All IsLetter s → NotIn sharp s
no_sharp [] a = tt
no_sharp (c ∷ s) (a, r) = (λ e. ground (arith, a, e), no_sharp s r)

-- A key that the child process makes up and the valid local table does not hold makes the
-- parent ask the master for this very key, with no fault; the timer of the master's answer runs
-- then.
dealwith_child-child_round :
    (net : Net) (random : ℕ → ℕ) (c : Client)
    → IsValid bytes_discrete c.local_lru
    → held bytes_discrete (str_rand random key_length) c.local_lru ≡ none
    → (c' : Client) × (dealwith_child net (child_round random) c ≡ ok c')
      × (c'.sent ≡ c.sent ++ Packet.to_master (str_rand random key_length) ∷ [])
      × (c'.master_massage.massage ≡ str_rand random key_length)
      × (c'.master_timer.running ≡ true)
unfolding dealwith_child send_request_to_master child_round key_text join
dealwith_child-child_round net random c s h =
    let key = str_rand random key_length in
    let (long, letters) = str_rand-IsLetter random key_length in
    let full : key ≢ [] = λ e. omega (arith, long, ap length e) in
    let fields : split (bytes "CHILD#" ++ key) sharp ≡ bytes "CHILD" ∷ key ∷ [] =
      split-join sharp (bytes "CHILD") (key ∷ []) (no_sharp-child, (no_sharp key letters, tt))
        full in
    let (local, e, v, same, there) = get-held bytes_discrete key s in
    (
      send_request_to_master key (record c { local_lru = local }),
      rw (fields, if_pos (bytes_discrete (bytes "CHILD") (bytes "CHILD")) refl, e, h),
      refl,
      refl,
      refl,
    )
