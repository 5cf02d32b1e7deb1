-- ===== src/Master/Faults.antt =====
-- Orders of events in which the master reads through a null pointer.
use simple_distributed_cache.Common.{
  ℕ, ◌+◌, ◌≡◌, refl, ◌∙◌, ap, Option, none, some, List, [], ◌∷◌, ◌++◌, ok, fault, arith, if_pos,
  false, ℕ_discrete, ltb,
}
use simple_distributed_cache.Common.Assoc.{lookup, assign, lookup-assign}
use simple_distributed_cache.Text.{Bytes, bytes, bytes_discrete, sharp}
use simple_distributed_cache.Ring.{get_server, server_of, lower_bound, initialize, insert_nodes}
use simple_distributed_cache.Master.{
  Master, Fdmap, words, server, set_server, send_to, accept_cache, new_fdmap, last_seen, init,
  handle_heart_beat_response, heart_beat_detect, handle_client_message, answer_client,
}
use simple_distributed_cache.Master.Heartbeat.{register, pair_replica, pair_address, heartbeat}
use simple_distributed_cache.Master.Failure.{detect, first_dead, lost, replica_lost}

-- A replica that found no primary, behind its first heartbeat.
abbrev unpaired : (fd : ℕ) (ip port port_for_cache : Bytes) → Fdmap
unpaired fd ip port port_for_cache = record {
  status = b'R';
  fd = fd;
  pair_fd = none;
  ip_port = ip ++ sharp ∷ port;
  ip_cache = ip ++ sharp ∷ port_for_cache;
}

same_key :
    (fd : ℕ) (e : Fdmap) (l : List (ℕ × Fdmap))
    → lookup ℕ_discrete fd (assign ℕ_discrete fd e l) ≡ some e
same_key fd e l = let w = lookup-assign ℕ_discrete fd fd e l in ground (arith, w)

module _ (now fd : ℕ) (ip port port_for_cache msg : Bytes)
    (fields : words msg sharp ≡ bytes "x" ∷ ip ∷ port ∷ port_for_cache ∷ bytes "R" ∷ [])
    (m : Master) (alone : m.caches_list ≡ []) (waiting : m.pcache ≡ []) where
  abbrev registered : Master
  registered = record m {
    caches_list =
        assign ℕ_discrete fd (unpaired fd ip port port_for_cache)
          (assign ℕ_discrete fd (new_fdmap fd) []);
    rcache = fd ∷ m.rcache;
    pcache = [];
  }

  replied : Master
  replied = record registered {
    sent = m.sent ++ (fd, bytes "R#None") ∷ [];
    cache_addr_map = assign bytes_discrete (ip ++ sharp ∷ port) now m.cache_addr_map;
  }

  heartbeat-replied : heartbeat now fd msg (accept_cache fd m) ≡ ok replied
  unfolding heartbeat accept_cache set_server server new_fdmap register pair_replica pair_address
      send_to handle_heart_beat_response replied bytes_discrete assign ℕ_discrete
  heartbeat-replied = rw (
    alone,
    waiting,
    fields,
    same_key fd (new_fdmap fd) [],
    same_key fd (unpaired fd ip port port_for_cache) (assign ℕ_discrete fd (new_fdmap fd) []),
  )

  listed : server fd replied ≡ ok (unpaired fd ip port port_for_cache)
  unfolding server replied
  listed =
      rw (same_key fd (unpaired fd ip port port_for_cache) (assign ℕ_discrete fd (new_fdmap fd) []))

  seen : last_seen (ip ++ sharp ∷ port) replied ≡ now
  unfolding last_seen replied
  seen =
      let addr = ip ++ sharp ∷ port in
      ap (λ (o : Option ℕ). elim o [ none ↦ 0 | some t ↦ t ])
        (lookup-assign bytes_discrete addr addr now m.cache_addr_map
          ∙ if_pos (bytes_discrete addr addr) refl (some now)
              (lookup bytes_discrete addr m.cache_addr_map))

  silent : heart_beat_detect (now + 5) fd replied ≡ ok false
  unfolding heart_beat_detect
  silent = let late : ltb (now + 5) (now + 5) ≡ false = ground arith in rw (listed, seen, late)

  only : replied.caches_list ≡ (fd, unpaired fd ip port port_for_cache) ∷ []
  unfolding replied assign
  only = ground arith

  dead : first_dead (now + 5) replied.caches_list replied ≡ ok (some fd)
  unfolding first_dead
  dead =
      let one : first_dead (now + 5) ((fd, unpaired fd ip port port_for_cache) ∷ []) replied
          ≡ ok (some fd) =
        rw silent in
      ap (λ l. first_dead (now + 5) l replied) only ∙ one

  detect-fault : detect (now + 5) replied ≡ fault
  unfolding detect lost replica_lost
  detect-fault = rw (dead, listed)

  -- A replica that connects while the master has no other cache server and no primary waits for
  -- a pair, and that sends one heartbeat and then none for five seconds, makes the master read
  -- through a null pointer.
  pub detect-heartbeat_unpaired :
      (m' : Master) × (heartbeat now fd msg (accept_cache fd m) ≡ ok m')
      × (detect (now + 5) m' ≡ fault)
  detect-heartbeat_unpaired = (replied, heartbeat-replied, detect-fault)

-- A request of a client that comes before any cache server makes the master dereference the end
-- of an empty map.
pub answer_client-init : (fd : ℕ) (key : Bytes) → answer_client fd key init ≡ fault
unfolding answer_client handle_client_message get_server server_of lower_bound initialize
    insert_nodes init
answer_client-init fd key = refl
