-- ===== src/Master/Events/Paired.antt =====
-- The first heartbeat of a replica, where a primary waits for one, and the primary's next heartbeat:
-- the branch of `start_cache` in master/mastertry/master.cpp.
use simple_distributed_cache.Common.{
  ℕ, ◌≡◌, ◌≢◌, refl, sym, ap, ◌∙◌, none, some, List, [], ◌∷◌, ◌++◌, Result, ok, ◌>>=◌, ℕ_discrete,
  if_neg,
}
use simple_distributed_cache.Common.Assoc.{assign}
use simple_distributed_cache.Text.{Bytes, bytes, bytes_discrete, sharp}
use simple_distributed_cache.Master.{
  Master, Fdmap, words, server, set_server, new_fdmap, send_to, handle_heart_beat_response,
}
use simple_distributed_cache.Master.Heartbeat.{
  pair_up, pair_replica, register, pair_address, heartbeat,
}
use simple_distributed_cache.Master.Events.Rings.{IsSame}
use simple_distributed_cache.Master.Events.Registered.{set_server_self, set_server_other}

module _ (now fd p : ℕ) (ip port cache : Bytes) (rest : List ℕ) (m : Master) (e : Fdmap)
    (apart : fd ≢ p) (known : server p m ≡ ok e) where
  abbrev entry : Fdmap
  entry = record {
    status = b'R';
    fd = fd;
    pair_fd = none;
    ip_port = ip ++ sharp ∷ port;
    ip_cache = ip ++ sharp ∷ cache;
  }

  -- The two entries once they are paired.
  abbrev pub mine : Fdmap
  mine = record entry { pair_fd = some p }

  abbrev pub theirs : Fdmap
  theirs = record e { pair_fd = some fd }

  abbrev listed : Master
  listed = set_server fd mine (set_server fd entry m)

  abbrev paired : Master
  paired = record (set_server p theirs listed) { pcache = rest }

  pair_up-listed : pair_up fd p (set_server fd entry m) ≡ ok (set_server p theirs listed)
  unfolding pair_up
  pair_up-listed =
      let there : server p listed ≡ ok e =
        set_server_other fd p mine (set_server fd entry m) apart
        ∙ set_server_other fd p entry m apart
        ∙ known in
      rw (set_server_self fd entry m, there)

  server-mine : server fd paired ≡ ok mine
  unfolding server set_server
  server-mine =
      unfold server set_server in
      (set_server_other p fd theirs listed (λ h. apart (sym h))
        ∙ set_server_self fd mine (set_server fd entry m))

  server-theirs : server p paired ≡ ok theirs
  unfolding server set_server
  server-theirs = unfold server set_server in set_server_self p theirs listed

  pair_replica-paired :
      m.pcache ≡ p ∷ rest → pair_replica fd m.pcache (set_server fd entry m) ≡ ok paired
  unfolding pair_replica
  pair_replica-paired waiting =
      ap (λ l. pair_replica fd l (set_server fd entry m)) waiting
      ∙ ap (λ (r : Result Master). r >>= λ m. ok (record m { pcache = rest })) pair_up-listed

  -- Behind the replica's heartbeat.
  abbrev behind : Master
  behind = record paired {
    sent = m.sent ++ (fd, bytes "R#" ++ e.ip_cache) ∷ [];
    cache_addr_map = assign bytes_discrete (ip ++ sharp ∷ port) now m.cache_addr_map;
  }

  heartbeat-behind :
      (msg : Bytes)
      → words msg sharp ≡ bytes "x" ∷ ip ∷ port ∷ cache ∷ bytes "R" ∷ []
      → server fd m ≡ ok (new_fdmap fd)
      → m.pcache ≡ p ∷ rest
      → heartbeat now fd msg m ≡ ok behind
  unfolding heartbeat register new_fdmap bytes_discrete ℕ_discrete pair_address
      handle_heart_beat_response send_to set_server
  heartbeat-behind msg fields new waiting =
      rw (new, fields, pair_replica-paired waiting, server-mine, server-theirs)

  server-behind : (q : ℕ) → server q behind ≡ server q paired
  unfolding server set_server
  server-behind q = refl

  -- The primary's heartbeat then.
  heartbeat-told :
      (later : ℕ) (msg a b d : Bytes) (more : List Bytes)
      → words msg sharp ≡ a ∷ b ∷ d ∷ more
      → e.ip_port ≢ bytes "0"
      → heartbeat later p msg behind
        ≡ ok (record behind {
          sent = behind.sent ++ (p, e.status ∷ sharp ∷ (ip ++ sharp ∷ cache)) ∷ [];
          cache_addr_map = assign bytes_discrete (b ++ sharp ∷ d) later behind.cache_addr_map;
        })
  unfolding heartbeat pair_address handle_heart_beat_response send_to
  heartbeat-told later msg a b d more fields registered = rw (
    server-behind p ∙ server-theirs,
    if_neg (bytes_discrete e.ip_port (bytes "0")) registered,
    server-behind p ∙ server-theirs,
    server-behind fd ∙ server-mine,
    fields,
  )

-- The first heartbeat of a replica, where a primary that is known waits for one, pairs the two
-- with no fault: each is the other's pair, the primary waits no longer, the replica is told the
-- primary's address, and at its next heartbeat the primary, which is registered, is told the
-- replica's; the ring and the list of primaries stay. The replica is new and is not the
-- primary, and both heartbeats have their fields.
pub heartbeat-heartbeat :
    (now later fd p : ℕ) (ip port cache msg : Bytes) (rest : List ℕ) (m : Master) (e : Fdmap)
    (next a b d : Bytes) (more : List Bytes)
    → fd ≢ p
    → server p m ≡ ok e
    → e.ip_port ≢ bytes "0"
    → words msg sharp ≡ bytes "x" ∷ ip ∷ port ∷ cache ∷ bytes "R" ∷ []
    → words next sharp ≡ a ∷ b ∷ d ∷ more
    → server fd m ≡ ok (new_fdmap fd)
    → m.pcache ≡ p ∷ rest
    → (m' : Master) × (m'' : Master) × (r : Fdmap) × (heartbeat now fd msg m ≡ ok m')
      × (server fd m' ≡ ok r)
      × (r.pair_fd ≡ some p)
      × (server p m' ≡ ok (record e { pair_fd = some fd }))
      × (m'.pcache ≡ rest)
      × IsSame m m'
      × (m'.sent ≡ m.sent ++ (fd, bytes "R#" ++ e.ip_cache) ∷ [])
      × (heartbeat later p next m' ≡ ok m'')
      × (m''.sent ≡ m'.sent ++ (p, e.status ∷ sharp ∷ (ip ++ sharp ∷ cache)) ∷ [])
unfolding set_server
heartbeat-heartbeat now later fd p ip port cache msg rest m e next a b d more apart known registered
      fields others new waiting =
    (
      behind now fd p ip port cache rest m e apart known,
      _,
      mine now fd p ip port cache rest m e apart known,
      heartbeat-behind now fd p ip port cache rest m e apart known msg fields new waiting,
      server-behind now fd p ip port cache rest m e apart known fd
          ∙ server-mine now fd p ip port cache rest m e apart known,
      refl,
      server-behind now fd p ip port cache rest m e apart known p
          ∙ server-theirs now fd p ip port cache rest m e apart known,
      refl,
      (refl, refl),
      refl,
      heartbeat-told now fd p ip port cache rest m e apart known later next a b d more others
          registered,
      refl,
    )
