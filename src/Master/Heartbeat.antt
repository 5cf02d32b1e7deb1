-- ===== src/Master/Heartbeat.antt =====
-- A message of a cache server to the master: the branches of `start_cache` in
-- master/mastertry/master.cpp behind `recv`.
use simple_distributed_cache.Common.{
  ℕ, ◌-◌, Option, none, some, List, [], ◌∷◌, ◌++◌, Result, ok, ◌>>=◌, of_option, ◌==◌,
  if◌then◌else◌, ite, get_elem?, length,
}
use simple_distributed_cache.Text.{Bytes, bytes, bytes_discrete, sharp, join}
use simple_distributed_cache.Ring.{add_node}
use simple_distributed_cache.Master.{
  Master, Fdmap, words, server, set_server, send_to, broadcast, handle_heart_beat_response,
}

-- The two writes to `pair_fd` that pair `fd` with `other`.
unfoldable pub pair_up : (fd other : ℕ) → Master → Result Master
pair_up fd other m = do
  e ← server fd m
  let m = set_server fd (record e { pair_fd = some other }) m
  o ← server other m
  ok (set_server other (record o { pair_fd = some fd }) m)

-- the stack of unpaired replicas, for a new primary
unfoldable pub pair_primary : (fd : ℕ) → List ℕ → Master → Result Master
pair_primary fd [] m = ok (record m { pcache = fd ∷ m.pcache })
pair_primary fd (r ∷ rest) m = do m ← pair_up fd r m; ok (record m { rcache = rest })

-- the stack of unpaired primaries, for a new replica
unfoldable pub pair_replica : (fd : ℕ) → List ℕ → Master → Result Master
pair_replica fd [] m = ok (record m { rcache = fd ∷ m.rcache })
pair_replica fd (p ∷ rest) m = do m ← pair_up fd p m; ok (record m { pcache = rest })

-- The loop that lists the addresses of all cache servers.
unfoldable pub addresses : List ℕ → Master → Result (List Bytes)
addresses [] m = ok []
addresses (fd ∷ fds) m = do e ← server fd m; rest ← addresses fds m; ok (e.ip_cache ∷ rest)

abbrev pub join_all : List Bytes → Bytes
join_all [] = []
join_all (w ∷ ws) = join sharp w ws

-- the block that extends the ring and tells the cache servers
unfoldable pub extend : (fd : ℕ) → Master → Result Master
extend fd m = do
  let index = length m.fd_node - 1
  let m = record m { hash = add_node index m.hash }
  e ← server fd m
  all_caches ← addresses m.fd_node m
  let m = send_to fd (join_all all_caches) m
  ok (broadcast (bytes "N#" ++ e.ip_cache) m)

-- a new primary
unfoldable pub register_primary : (fd : ℕ) → Master → Result Master
register_primary fd m = do
  let m = record m { fd_node = m.fd_node ++ fd ∷ [] }
  m ← pair_primary fd m.rcache m
  extend fd m

-- the block of the first heartbeat
unfoldable pub register : (fd : ℕ) → Fdmap → List Bytes → Master → Result Master
register fd it msg m = do
  ip ← of_option (get_elem? msg 1)
  port_for_client ← of_option (get_elem? msg 2)
  port_for_cache ← of_option (get_elem? msg 3)
  role ← of_option (get_elem? msg 4)
  status ← of_option (get_elem? role 0)
  let e = record it {
    ip_port = ip ++ sharp ∷ port_for_client;
    ip_cache = ip ++ sharp ∷ port_for_cache;
    status = status;
  }
  let m = set_server fd e m
  ite (bytes_discrete role (bytes "P")) (register_primary fd m)
      (ite (bytes_discrete role (bytes "R")) (pair_replica fd m.pcache m) (ok m))

-- the address in the reply
unfoldable pub pair_address : Option ℕ → Master → Result Bytes
pair_address none m = ok (bytes "None")
pair_address (some p) m = do e ← server p m; ok e.ip_cache

-- a heartbeat of the cache server at `fd`
unfoldable pub heartbeat : (now fd : ℕ) → Bytes → Master → Result Master
heartbeat now fd msg m = do
  it ← server fd m
  m ← ite (bytes_discrete it.ip_port (bytes "0")) (register fd it (words msg sharp) m) (ok m)
  it ← server fd m
  addr ← pair_address it.pair_fd m
  handle_heart_beat_response now msg (send_to fd (it.status ∷ sharp ∷ addr) m)

-- the branch behind `recv`
unfoldable pub receive : (now fd : ℕ) → Bytes → Master → Result Master
receive now fd [] m = ok m
receive now fd (c ∷ s) m = if c == b'x' then heartbeat now fd (c ∷ s) m else ok m
