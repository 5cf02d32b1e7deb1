-- ===== src/Master/Events/Registered.antt =====
-- The first heartbeat of a primary: the branch of `start_cache` in master/mastertry/master.cpp, on the
-- text that `heart_client` of cache/src/cache.cpp sends.
use simple_distributed_cache.Common.{
  ℕ, ◌+◌, ◌-◌, ◌≡◌, ◌≢◌, refl, sym, ap, ◌∙◌, none, List, [], ◌∷◌, ◌++◌, map, ok, ◌>>=◌, arith, All,
  ℕ_discrete, length, length-append, NotIn, bind_ok, ok_injective, of_option,
}
use mathlib.Core.List.{append_assoc}
use mathlib.Core.Path.{subst}
use simple_distributed_cache.Common.Assoc.{lookup, assign, lookup-assign}
use simple_distributed_cache.Text.{Bytes, bytes, bytes_discrete, sharp, join}
use simple_distributed_cache.Ring.{Ring, add_node, initialize}
use simple_distributed_cache.Ring.Exact.{empty_ring, add_node-initialize}
use simple_distributed_cache.Master.{
  Master, Fdmap, words, server, set_server, new_fdmap, send_to, broadcast,
  handle_heart_beat_response, last_seen,
}
use simple_distributed_cache.Master.Words.{IsWord, words-join}
use simple_distributed_cache.Master.Heartbeat.{
  addresses, join_all, pair_primary, extend, register_primary, register, pair_address, heartbeat,
}
use simple_distributed_cache.Master.Serve.{IsRing}
use simple_distributed_cache.CacheServer.{CacheServer}
use simple_distributed_cache.CacheServer.Startup.{heart_message}

pub set_server_self : (fd : ℕ) (e : Fdmap) (m : Master) → server fd (set_server fd e m) ≡ ok e
unfolding server set_server
set_server_self fd e m = let w = lookup-assign ℕ_discrete fd fd e m.caches_list in ground (arith, w)

pub set_server_other :
    (fd q : ℕ) (e : Fdmap) (m : Master) → fd ≢ q → server q (set_server fd e m) ≡ server q m
unfolding server set_server
set_server_other fd q e m n =
    let w = lookup-assign ℕ_discrete q fd e m.caches_list in ground (arith, w, n)

-- The addresses of the others stay.
addresses-set_server :
    (fd : ℕ) (e : Fdmap) (m : Master) (l : List ℕ)
    → NotIn fd l
    → addresses l (set_server fd e m) ≡ addresses l m
unfolding addresses
addresses-set_server fd e m [] n = refl
addresses-set_server fd e m (q ∷ l) (n, r) =
    rw (set_server_other fd q e m n, addresses-set_server fd e m l r)

addresses-append :
    (l : List ℕ) (fd : ℕ) (e : Fdmap) (m : Master) (ws : List Bytes)
    → addresses l m ≡ ok ws
    → server fd m ≡ ok e
    → addresses (l ++ fd ∷ []) m ≡ ok (ws ++ e.ip_cache ∷ [])
unfolding addresses
addresses-append [] fd e m ws h k = rw k (ap (λ w. ok (w ++ e.ip_cache ∷ [])) (ok_injective h))
addresses-append (q ∷ l) fd e m ws h k =
    let (o, a, h) = bind_ok (server q m) _ ws h in
    let (vs, b, h) = bind_ok (addresses l m) (λ rest. ok (o.ip_cache ∷ rest)) ws h in
    rw (a, addresses-append l fd e m vs b k) (ap (λ w. ok (w ++ e.ip_cache ∷ [])) (ok_injective h))

pub addresses-same :
    (l : List ℕ) (m n : Master) → m.caches_list ≡ n.caches_list → addresses l m ≡ addresses l n
unfolding addresses server
addresses-same [] m n h = refl
addresses-same (q ∷ l) m n h =
    ap (λ c. of_option (lookup ℕ_discrete q c) >>= λ e. addresses l m >>= λ r. ok (e.ip_cache ∷ r))
      h
    ∙ ap
        (λ s. of_option (lookup ℕ_discrete q n.caches_list) >>= λ e. s >>= λ r. ok (e.ip_cache ∷ r))
        (addresses-same l m n h)

-- What the master sends for a new primary at `fd`.
abbrev pub news : (fd : ℕ) (ip cache : Bytes) → Master → List Bytes → List (ℕ × Bytes)
news fd ip cache m ws =
    ((fd, join_all (ws ++ (ip ++ sharp ∷ cache) ∷ []))
      ∷ map (λ q. (q, bytes "N#" ++ (ip ++ sharp ∷ cache))) (m.fd_node ++ fd ∷ []))

module _ (now fd : ℕ) (ip port cache : Bytes) (m : Master) (h : Ring) where
  abbrev pub entry : Fdmap
  entry = record {
    status = b'P';
    fd = fd;
    pair_fd = none;
    ip_port = ip ++ sharp ∷ port;
    ip_cache = ip ++ sharp ∷ cache;
  }

  abbrev pub listed : Master
  listed = record (set_server fd entry m) { fd_node = m.fd_node ++ fd ∷ [] }

  -- The primary in the list, with no replica, behind what is sent.
  abbrev pub grown : List (ℕ × Bytes) → Master
  grown sent = record listed { pcache = fd ∷ m.pcache; hash = h; sent = sent }

  module _ (ws : List Bytes) (r : add_node (length m.fd_node) m.hash ≡ h)
      (apart : NotIn fd m.fd_node) (all : addresses m.fd_node m ≡ ok ws) where
    addresses-grown :
        (sent : List (ℕ × Bytes))
        → addresses (m.fd_node ++ fd ∷ []) (grown sent) ≡ ok (ws ++ (ip ++ sharp ∷ cache) ∷ [])
    addresses-grown sent =
        addresses-same (m.fd_node ++ fd ∷ []) (grown sent) (set_server fd entry m)
          (unfold set_server in refl)
        ∙ addresses-append m.fd_node fd entry (set_server fd entry m) ws
            (addresses-set_server fd entry m m.fd_node apart ∙ all) (set_server_self fd entry m)

    extend-grown :
        extend fd (record listed { pcache = fd ∷ m.pcache })
        ≡ ok (grown (m.sent ++ news fd ip cache m ws))
    unfolding extend send_to broadcast set_server
    extend-grown =
        let long : length (m.fd_node ++ fd ∷ []) ≡ length m.fd_node + 1 =
          length-append m.fd_node (fd ∷ []) in
        let index : length (m.fd_node ++ fd ∷ []) - 1 ≡ length m.fd_node = omega (arith, long) in
        let ring : add_node (length (m.fd_node ++ fd ∷ []) - 1) m.hash ≡ h =
          ap (λ i. add_node i m.hash) index ∙ r in
        let known : server fd (grown m.sent) ≡ ok entry =
          unfold server set_server in set_server_self fd entry m in
        rw (ring, known, addresses-grown m.sent)
          (ap (λ s. ok (grown s))
            (append_assoc m.sent ((fd, join_all (ws ++ (ip ++ sharp ∷ cache) ∷ [])) ∷ [])
              (map (λ q. (q, bytes "N#" ++ (ip ++ sharp ∷ cache))) (m.fd_node ++ fd ∷ []))))

    registered :
        m.rcache ≡ []
        → register_primary fd (set_server fd entry m) ≡ ok (grown (m.sent ++ news fd ip cache m ws))
    unfolding register_primary set_server pair_primary
    registered waiting = ap (λ l. pair_primary fd l listed >>= extend fd) waiting ∙ extend-grown

    -- The master behind the heartbeat.
    abbrev pub behind : Master
    behind = record (grown ((m.sent ++ news fd ip cache m ws) ++ (fd, bytes "P#None") ∷ [])) {
      cache_addr_map = assign bytes_discrete (ip ++ sharp ∷ port) now m.cache_addr_map;
    }

    pub heartbeat-behind :
        (msg : Bytes)
        → words msg sharp ≡ bytes "x" ∷ ip ∷ port ∷ cache ∷ bytes "P" ∷ []
        → server fd m ≡ ok (new_fdmap fd)
        → m.rcache ≡ []
        → heartbeat now fd msg m ≡ ok behind
    unfolding heartbeat register new_fdmap bytes_discrete ℕ_discrete pair_address
        handle_heart_beat_response send_to set_server
    heartbeat-behind msg fields new waiting =
        let known : server fd (grown (m.sent ++ news fd ip cache m ws)) ≡ ok entry =
          unfold server set_server in set_server_self fd entry m in
        rw (new, fields, registered waiting, known)

-- The text of a heartbeat is read by the master as the fields that the cache server wrote.
pub words-heart_message :
    (c : CacheServer)
    → All
        (IsWord sharp)
        (c.local_cache_ip ∷ c.port_for_client ∷ c.port_for_cache ∷ c.pr_status ∷ [])
    → words (heart_message c) sharp
      ≡ bytes "x" ∷ c.local_cache_ip ∷ c.port_for_client ∷ c.port_for_cache ∷ c.pr_status ∷ []
unfolding heart_message join
words-heart_message c plain =
    words-join sharp (bytes "x")
      (c.local_cache_ip ∷ c.port_for_client ∷ c.port_for_cache ∷ c.pr_status ∷ [])
      ((((λ e. omega arith), tt), λ e. cc e), plain)

-- The same for a primary.
pub words-heart_message_primary :
    (c : CacheServer)
    → All (IsWord sharp) (c.local_cache_ip ∷ c.port_for_client ∷ c.port_for_cache ∷ [])
    → c.pr_status ≡ bytes "P"
    → words (heart_message c) sharp
      ≡ bytes "x" ∷ c.local_cache_ip ∷ c.port_for_client ∷ c.port_for_cache ∷ bytes "P" ∷ []
words-heart_message_primary c (a, (b, (d, _))) role =
    let letter : IsWord sharp (bytes "P") = (((λ e. omega arith), tt), λ e. cc e) in
    words-heart_message c (a, (b, (d, (subst (IsWord sharp) (sym role) letter, tt))))
    ∙ ap (λ r. bytes "x" ∷ c.local_cache_ip ∷ c.port_for_client ∷ c.port_for_cache ∷ r ∷ []) role

last_seen-assign :
    (addr : Bytes) (now : ℕ) (m : Master)
    → last_seen addr (record m { cache_addr_map = assign bytes_discrete addr now m.cache_addr_map })
      ≡ now
unfolding last_seen
last_seen-assign addr now m =
    let w = lookup-assign bytes_discrete addr addr now m.cache_addr_map in ground (arith, w)

-- The first heartbeat of a primary, where no replica waits for one, registers it with no fault:
-- the ring is the one for the list of primaries with the new one at its end, the new one gets
-- the list of all addresses and its role, all primaries are told its address, and it counts as
-- seen now. The ring before is the one for the list, each primary of which is known and is not
-- the new one, and the fields of the heartbeat are not empty and have no # in them.
pub heartbeat-heart_message :
    (now fd : ℕ) (c : CacheServer) (m : Master) (ws : List Bytes)
    → All (IsWord sharp) (c.local_cache_ip ∷ c.port_for_client ∷ c.port_for_cache ∷ [])
    → c.pr_status ≡ bytes "P"
    → IsRing m
    → NotIn fd m.fd_node
    → addresses m.fd_node m ≡ ok ws
    → server fd m ≡ ok (new_fdmap fd)
    → m.rcache ≡ []
    → (m' : Master) × (heartbeat now fd (heart_message c) m ≡ ok m')
      × IsRing m'
      × (m'.fd_node ≡ m.fd_node ++ fd ∷ [])
      × (addresses m'.fd_node m' ≡ ok (ws ++ (c.local_cache_ip ++ sharp ∷ c.port_for_cache) ∷ []))
      × (m'.sent
          ≡ (m.sent ++ news fd c.local_cache_ip c.port_for_cache m ws) ++ (fd, bytes "P#None") ∷ [])
      × (last_seen (c.local_cache_ip ++ sharp ∷ c.port_for_client) m' ≡ now)
unfolding set_server
heartbeat-heart_message now fd c m ws plain role r apart all new waiting =
    let ip = c.local_cache_ip in
    let port = c.port_for_client in
    let cache = c.port_for_cache in
    let h = initialize (length (m.fd_node ++ fd ∷ [])) 100 empty_ring in
    let grows : add_node (length m.fd_node) m.hash ≡ h =
      ap (add_node (length m.fd_node)) r
      ∙ add_node-initialize 100 (length m.fd_node)
      ∙ ap (λ k. initialize k 100 empty_ring) (sym (length-append m.fd_node (fd ∷ []))) in
    let m' = behind now fd ip port cache m h ws grows apart all in
    (
      m',
      heartbeat-behind now fd ip port cache m h ws grows apart all (heart_message c)
          (words-heart_message_primary c plain role) new waiting,
      refl,
      refl,
      addresses-same m'.fd_node m' (grown now fd ip port cache m h []) refl
          ∙ addresses-grown now fd ip port cache m h ws grows apart all [],
      refl,
      last_seen-assign (ip ++ sharp ∷ port) now (
          grown now fd ip port cache m h
            ((m.sent ++ news fd ip cache m ws) ++ (fd, bytes "P#None") ∷ [])),
    )
