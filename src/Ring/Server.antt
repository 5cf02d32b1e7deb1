-- ===== src/Ring/Server.antt =====
-- Which point `GetServer` picks.
use simple_distributed_cache.Common.{
  ℕ, ◌≡◌, refl, ◌<◌, ◌≤◌, none, some, [], ◌∷◌, arith, inl, inr, is_some, true, Option, ◌⊎◌, ap,
  of_option, Result, ok, fault,
}
use simple_distributed_cache.Common.Assoc.{lookup}
use simple_distributed_cache.Text.{Bytes}
use simple_distributed_cache.Ring.{Points, lower_bound, server_of, Ring, get_server, murmur3_32}
use simple_distributed_cache.Ring.Sorted.{IsSorted, index_at, lookup-Above}

-- The hash is not above every point.
abbrev pub Reaches : ℕ → Points → Type 0
Reaches h m = (q : ℕ) × (is_some (index_at q m) ≡ true) × (h ≤ q)

-- `r` is the point of the ring that is met first going up from `h`.
pub record IsSuccessor (m : Points) (h r : ℕ) : Type 0 where
  pub point : is_some (index_at r m) ≡ true
  pub above : h ≤ r
  pub closest : (q : ℕ) → is_some (index_at q m) ≡ true → (q < h) ⊎ (r ≤ q)

lower_bound-some :
    (h r : ℕ) (m : Points)
    → IsSorted m
    → lower_bound h m ≡ some r
    → (h ≤ r) × (is_some (index_at r m) ≡ true)
unfolding lower_bound lookup
lower_bound-some h r [] s e = absurd (cc)
lower_bound-some h r ((j, w) ∷ m) s e = ground (arith, lower_bound-some h r m s.1)

lower_bound_closest :
    (h r q : ℕ) (m : Points)
    → IsSorted m
    → lower_bound h m ≡ some r
    → is_some (index_at q m) ≡ true
    → (q < h) ⊎ (r ≤ q)
unfolding lower_bound lookup
lower_bound_closest h r q [] s e f = absurd (cc)
lower_bound_closest h r q ((j, w) ∷ m) s e f =
    ground (arith, lower_bound_closest h r q m s.1, lookup-Above j q m s.0)

lower_bound-none :
    (h q : ℕ) (m : Points)
    → IsSorted m
    → lower_bound h m ≡ none
    → is_some (index_at q m) ≡ true
    → q < h
unfolding lower_bound lookup
lower_bound-none h q [] s e f = absurd (cc)
lower_bound-none h q ((j, w) ∷ m) s e f = ground (arith, lower_bound-none h q m s.1)

-- Whichever way `lower_bound` goes.
server_of_by :
    (h : ℕ) (m : Points) (o : Option ℕ)
    → IsSorted m
    → lower_bound h m ≡ o
    → ((r : ℕ) × (server_of h m ≡ ok r) × IsSuccessor m h r)
      ⊎ (server_of h m ≡ fault) × ((q : ℕ) → is_some (index_at q m) ≡ true → q < h)
unfolding server_of
server_of_by h m none s e = inr (ap of_option e, λ q f. lower_bound-none h q m s e f)
server_of_by h m (some r) s e =
    let (a, b) = lower_bound-some h r m s e in
    inl (
      r,
      ap of_option e,
      record { point = b; above = a; closest = λ q f. lower_bound_closest h r q m s e f },
    )

pub server_of-cases :
    (h : ℕ) (m : Points)
    → IsSorted m
    → ((r : ℕ) × (server_of h m ≡ ok r) × IsSuccessor m h r)
      ⊎ (server_of h m ≡ fault) × ((q : ℕ) → is_some (index_at q m) ≡ true → q < h)
server_of-cases h m s = server_of_by h m (lower_bound h m) s refl

pub server_of-IsSuccessor :
    (h : ℕ) (m : Points)
    → IsSorted m
    → Reaches h m
    → (r : ℕ) × (server_of h m ≡ ok r) × IsSuccessor m h r
server_of-IsSuccessor h m s (q, p, le) = elim (server_of-cases h m s) [
  | inl found ↦ found
  | inr (e, above) ↦ let lt = above q p in absurd (omega (arith, le, lt))
]

-- GetServer on a sorted ring either returns the point that is met first going up from the hash
-- of the key, or reads through end(), and then the hash is above every point.
pub get_server-cases :
    (key : Bytes) (r : Ring)
    → IsSorted r.points
    → ((p : ℕ) × (get_server key r ≡ ok p) × IsSuccessor r.points (murmur3_32 key) p)
      ⊎ (get_server key r ≡ fault)
        × ((q : ℕ) → is_some (index_at q r.points) ≡ true → q < murmur3_32 key)
unfolding get_server
get_server-cases key r = server_of-cases (murmur3_32 key) r.points

pub get_server-IsSuccessor :
    (key : Bytes) (r : Ring)
    → IsSorted r.points
    → Reaches (murmur3_32 key) r.points
    → (p : ℕ) × (get_server key r ≡ ok p) × IsSuccessor r.points (murmur3_32 key) p
unfolding get_server
get_server-IsSuccessor key r = server_of-IsSuccessor (murmur3_32 key) r.points

-- No ring has two points that are met first.
pub IsSuccessor-unique : {m : Points} {h r q : ℕ} → IsSuccessor m h r → IsSuccessor m h q → r ≡ q
IsSuccessor-unique {h} {r} {q} s t =
    let a = s.closest q t.point in let b = t.closest r s.point in ground arith

-- The server that a key belongs to: the index at the point that `GetServer` returns.
unfoldable pub owner : ℕ → Points → Result (Option ℕ)
owner h m = elim (server_of h m) [ fault ↦ fault | ok r ↦ ok (index_at r m) ]
