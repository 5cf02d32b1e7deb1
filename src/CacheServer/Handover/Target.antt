-- ===== src/CacheServer/Handover/Target.antt =====
-- A leaving cache server hands a key to the server that the master names for it.
use simple_distributed_cache.Common.{
  ℕ, zero, suc, ◌≡◌, refl, sym, ap, ◌∙◌, none, some, List, [], ◌∷◌, ◌++◌, map, ok, length,
  get_elem?, All, bind_ok, ok_injective, NotIn,
}
use simple_distributed_cache.Text.{Bytes, sharp}
use simple_distributed_cache.Ring.{Ring, get_server, murmur3_32}
use simple_distributed_cache.Ring.Sorted.{index_at}
use simple_distributed_cache.Ring.Server.{Reaches}
use simple_distributed_cache.Master.{Master, Fdmap, server, index_of, handle_client_message}
use simple_distributed_cache.Master.Heartbeat.{addresses}
use simple_distributed_cache.Master.Serve.{
  IsRing, IsAddressed, Answers, handle_client_message-Answers, get_server-place,
}
use simple_distributed_cache.CacheServer.Members.{slice-append}
use simple_distributed_cache.CacheServer.Startup.Listing.{address, IsPlain}
use simple_distributed_cache.CacheServer.Handover.{caches, hash_of, locate}

pub caches-map : (l : List (Bytes × Bytes)) → caches l ≡ map address l
unfolding caches
caches-map [] = refl
caches-map ((ip, port) ∷ l) = ap (◌∷◌ (address (ip, port))) (caches-map l)

pub get_elem?-map :
    (l : List (Bytes × Bytes)) (i : ℕ) (w : Bytes)
    → get_elem? (map address l) i ≡ some w
    → All IsPlain l
    → (e : Bytes × Bytes) × (address e ≡ w) × IsPlain e
get_elem?-map [] i w h a = absurd (cc h)
get_elem?-map (e ∷ l) zero w h (p, _) = (e, cc h, p)
get_elem?-map (e ∷ l) (suc i) w h (_, r) = get_elem?-map l i w h r

-- What the list of the addresses comes from.
addresses-cons :
    (x : ℕ) (fds : List ℕ) (m : Master) (ws : List Bytes)
    → addresses (x ∷ fds) m ≡ ok ws
    → (e : Fdmap) × (rest : List Bytes) × (server x m ≡ ok e)
      × (addresses fds m ≡ ok rest)
      × (ws ≡ e.ip_cache ∷ rest)
unfolding addresses
addresses-cons x fds m ws h =
    let (e, k, h) = bind_ok (server x m) _ ws h in
    let (rest, r, h) = bind_ok (addresses fds m) (λ rest. ok (e.ip_cache ∷ rest)) ws h in
    (e, rest, k, r, sym (ok_injective h))

-- The addresses of a list of descriptors, one by one.
get_elem?-addresses :
    (fds : List ℕ) (m : Master) (ws : List Bytes) (i fd : ℕ) (e : Fdmap)
    → addresses fds m ≡ ok ws
    → get_elem? fds i ≡ some fd
    → server fd m ≡ ok e
    → get_elem? ws i ≡ some e.ip_cache
get_elem?-addresses [] m ws i fd e h f k = absurd (cc f)
get_elem?-addresses (x ∷ fds) m ws zero fd e h f k =
    let (o, rest, a, r, w) = addresses-cons x fds m ws h in
    let same : o ≡ e = ok_injective (sym a ∙ cc f ∙ k) in
    ap (λ ws. get_elem? ws 0) w ∙ ap (λ (o : Fdmap). some o.ip_cache) same
get_elem?-addresses (x ∷ fds) m ws (suc i) fd e h f k =
    let (o, rest, a, r, w) = addresses-cons x fds m ws h in
    ap (λ ws. get_elem? ws (suc i)) w ∙ get_elem?-addresses fds m rest i fd e r f k

length-addresses :
    (fds : List ℕ) (m : Master) (ws : List Bytes) → addresses fds m ≡ ok ws → length ws ≡ length fds
unfolding addresses
length-addresses [] m ws h = ap length (sym (ok_injective h))
length-addresses (x ∷ fds) m ws h =
    let (o, rest, a, r, w) = addresses-cons x fds m ws h in
    ap length w ∙ ap suc (length-addresses fds m rest r)

pub located :
    (key : Bytes) (hash : Ring) (list : List Bytes) (v i : ℕ) (ip port : Bytes)
    → get_server key hash ≡ ok v
    → index_at v hash.points ≡ some i
    → get_elem? list i ≡ some (ip ++ sharp ∷ port)
    → NotIn sharp ip
    → locate hash list key ≡ ok (ip, port)
unfolding locate
located key hash list v i ip port h at f n =
    let numbered : index_of v hash.points ≡ i =
      unfold index_of in ap (λ o. elim o [ none ↦ 0 | some j ↦ j ]) at in
    rw (h, numbered, f, slice-append ip port n)

-- Where the master's ring is the one for its primaries, each of which has an address for
-- clients, and a cache server has the master's list of their addresses, with no # within an
-- address or a port, cal_hash_key gives a key to the cache server whose address for clients the
-- master gives for it. The hash of the key is not above every point of the ring.
pub locate-Answers :
    (key : Bytes) (m : Master) (l : List (Bytes × Bytes))
    → IsRing m
    → IsAddressed m
    → Reaches (murmur3_32 key) m.hash.points
    → addresses m.fd_node m ≡ ok (map address l)
    → All IsPlain l
    → (answer : Bytes) × (q : Answers key m answer) × (target : Bytes × Bytes)
      × (handle_client_message key m ≡ ok answer)
      × (locate (hash_of (length (caches l))) (caches l) key ≡ ok target)
      × (address target ≡ q.entry.ip_cache)
unfolding hash_of
locate-Answers key m l r a reaches list plain =
    let (answer, h, q) = handle_client_message-Answers key m r a reaches in
    let listed =
      get_elem?-addresses m.fd_node m (map address l) q.number q.fd q.entry list q.numbered
        q.known in
    let ((ip, port), same, (n, p)) = get_elem?-map l q.number q.entry.ip_cache listed plain in
    let long : length (caches l) ≡ length m.fd_node =
      ap length (caches-map l) ∙ length-addresses m.fd_node m (map address l) list in
    let ring : m.hash ≡ hash_of (length (caches l)) = r ∙ ap hash_of (sym long) in
    let texts = ap (λ ws. get_elem? ws q.number) (caches-map l) ∙ listed ∙ ap some (sym same) in
    let at =
      located key m.hash (caches l) q.place q.number ip port
        (get_server-place key m q.place r q.first) q.at_place texts n in
    (answer, q, (ip, port), h, ap (λ hash. locate hash (caches l) key) (sym ring) ∙ at, same)
