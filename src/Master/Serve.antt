-- ===== src/Master/Serve.antt =====
-- How the master answers a client.
use simple_distributed_cache.Common.{
  ℕ, zero, suc, ◌<◌, ◌≡◌, refl, sym, ◌∙◌, ap, Option, none, some, List, [], ◌∷◌, ◌++◌, ok, arith,
  length, get_elem?, is_some, true,
}
use mathlib.Core.Path.{subst}
use simple_distributed_cache.Text.{Bytes, sharp, colon}
use simple_distributed_cache.Ring.{Ring, initialize, get_server, murmur3_32}
use simple_distributed_cache.Ring.Sorted.{index_at}
use simple_distributed_cache.Ring.Server.{
  get_server-IsSuccessor, IsSuccessor, IsSuccessor-unique, Reaches,
}
use simple_distributed_cache.Ring.Exact.{empty_ring, initialize-IsExact, first_node-some, IsExact}
use simple_distributed_cache.Master.{Master, Fdmap, words, server, index_of, handle_client_message}

-- The ring is the one for the cache servers that the master lists as primaries.
abbrev pub IsRing : Master → Type 0
IsRing m = m.hash ≡ initialize (length m.fd_node) 100 empty_ring

-- Every primary is known, with an address and a port for clients.
abbrev pub IsAddressed : Master → Type 0
IsAddressed m =
    (i fd : ℕ)
    → get_elem? m.fd_node i ≡ some fd
    → (e : Fdmap) × (ip : Bytes) × (port : Bytes) × (server fd m ≡ ok e)
      × (words e.ip_port sharp ≡ ip ∷ port ∷ [])

pub get_elem?-lt {ℓ} :
    {A : Type ℓ} (l : List A) (i : ℕ) → i < length l → (x : A) × (get_elem? l i ≡ some x)
get_elem?-lt [] i h = absurd (omega (arith, h))
get_elem?-lt (x ∷ l) zero h = (x, refl)
get_elem?-lt (x ∷ l) (suc i) h = get_elem?-lt l i (omega (arith, h))

pub ring-IsExact : (h : Ring) (n : ℕ) → h ≡ initialize n 100 empty_ring → IsExact h
ring-IsExact h n r = subst IsExact (sym r) (initialize-IsExact 100 n)

pub ring_number :
    (h : Ring) (n q i : ℕ) → h ≡ initialize n 100 empty_ring → index_at q h.points ≡ some i → i < n
unfolding initialize
ring_number h n q i r e =
    let s = initialize-IsExact 100 n in
    let at = sym (s.exact q) ∙ ap (λ h. index_at q h.points) (sym r) ∙ e in
    (first_node-some 100 n q i at).0

pub is_some-lem : {A : Type 0} (o : Option A) → is_some o ≡ true → (a : A) × (o ≡ some a)
is_some-lem none h = absurd (cc h)
is_some-lem (some a) h = (a, refl)

-- What the answer to a key is: the address for clients of the primary whose number the ring has at
-- the point that is met first from the hash of the key.
pub record Answers (key : Bytes) (m : Master) (answer : Bytes) : Type 0 where
  pub place : ℕ
  pub number : ℕ
  pub fd : ℕ
  pub entry : Fdmap
  pub ip : Bytes
  pub port : Bytes
  pub first : IsSuccessor m.hash.points (murmur3_32 key) place
  pub at_place : index_at place m.hash.points ≡ some number
  pub numbered : get_elem? m.fd_node number ≡ some fd
  pub known : server fd m ≡ ok entry
  pub parts : words entry.ip_port sharp ≡ ip ∷ port ∷ []
  pub text : answer ≡ ip ++ colon ∷ port

-- `GetServer` returns the point that is met first.
pub get_server-place :
    (key : Bytes) (m : Master) (p : ℕ)
    → IsRing m
    → IsSuccessor m.hash.points (murmur3_32 key) p
    → get_server key m.hash ≡ ok p
get_server-place key m p r first =
    let s = ring-IsExact m.hash (length m.fd_node) r in
    let (v, e, q) = get_server-IsSuccessor key m.hash s.sorted (p, first.point, first.above) in
    e ∙ ap ok (IsSuccessor-unique q first)

pub answered :
    (key : Bytes) (m : Master) (v i fd : ℕ) (e : Fdmap) (ip port : Bytes)
    → get_server key m.hash ≡ ok v
    → index_at v m.hash.points ≡ some i
    → get_elem? m.fd_node i ≡ some fd
    → server fd m ≡ ok e
    → words e.ip_port sharp ≡ ip ∷ port ∷ []
    → handle_client_message key m ≡ ok (ip ++ colon ∷ port)
unfolding handle_client_message
answered key m v i fd e ip port h at f k w =
    let numbered : index_of v m.hash.points ≡ i =
      unfold index_of in ap (λ o. elim o [ none ↦ 0 | some j ↦ j ]) at in
    rw (h, numbered, f, k, w)

-- Where the ring is the one for the primaries and each has an address and a port for clients,
-- the master answers a key whose hash is not above every point of the ring with no fault, with
-- the address of the primary that the ring gives the key to.
pub handle_client_message-Answers :
    (key : Bytes) (m : Master)
    → IsRing m
    → IsAddressed m
    → Reaches (murmur3_32 key) m.hash.points
    → (answer : Bytes) × (handle_client_message key m ≡ ok answer) × Answers key m answer
handle_client_message-Answers key m r a reaches =
    let s = ring-IsExact m.hash (length m.fd_node) r in
    let (v, e, q) = get_server-IsSuccessor key m.hash s.sorted reaches in
    let (i, at) = is_some-lem (index_at v m.hash.points) q.point in
    let (fd, f) = get_elem?-lt m.fd_node i (ring_number m.hash (length m.fd_node) v i r at) in
    let (entry, ip, port, k, w) = a i fd f in
    (
      ip ++ colon ∷ port,
      answered key m v i fd entry ip port e at f k w,
      record {
        place = v;
        number = i;
        fd = fd;
        entry = entry;
        ip = ip;
        port = port;
        first = q;
        at_place = at;
        numbered = f;
        known = k;
        parts = w;
        text = refl;
      },
    )
