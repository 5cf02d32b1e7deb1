-- ===== src/Master/Events/Waiting.antt =====
-- A primary that is lost while it waits for a replica: `periodicDetectCache` and the first heartbeat
-- of a replica in `start_cache` of master/mastertry/master.cpp.
use simple_distributed_cache.Common.{
  ℕ, ◌<◌, ◌≡◌, ◌≢◌, ap, ◌∙◌, none, some, List, [], ◌∷◌, ◌++◌, Result, ok, fault, ◌>>=◌, length,
  ℕ_discrete, ◌==◌, if◌then◌else◌, arith,
}
use simple_distributed_cache.Text.{Bytes, bytes, bytes_discrete, sharp}
use simple_distributed_cache.Ring.Exact.{NoCollision}
use simple_distributed_cache.Master.{
  Master, Fdmap, words, server, set_server, new_fdmap, accept_cache,
}
use simple_distributed_cache.Master.Heartbeat.{pair_up, pair_replica, register, heartbeat}
use simple_distributed_cache.Master.Failure.{
  lost, primary_lost, drop_primary, replica_lost, forget, handle_dead, detect, first_dead,
}
use simple_distributed_cache.Master.Serve.{IsRing}
use simple_distributed_cache.Master.Rebalance.{drop_primary-IsRing}
use simple_distributed_cache.Master.Events.Registered.{set_server_self, set_server_other}
use simple_distributed_cache.Master.Events.Race.{forget-server}

-- A replica that is paired with a descriptor that the master does not know.
module _ (later r fd : ℕ) (ip port cache : Bytes) (rest : List ℕ) (apart : r ≢ fd) where
  abbrev entry : Fdmap
  entry = record {
    status = b'R';
    fd = r;
    pair_fd = none;
    ip_port = ip ++ sharp ∷ port;
    ip_cache = ip ++ sharp ∷ cache;
  }

  pair_up-fault : (m : Master) → server fd m ≡ fault → pair_up r fd (set_server r entry m) ≡ fault
  unfolding pair_up
  pair_up-fault m gone =
      let mine : Fdmap = record entry { pair_fd = some fd } in
      let gone' : server fd (set_server r mine (set_server r entry m)) ≡ fault =
        set_server_other r fd mine (set_server r entry m) apart
        ∙ set_server_other r fd entry m apart
        ∙ gone in
      rw (set_server_self r entry m, gone')

  pair_replica-fault :
      (m : Master)
      → m.pcache ≡ fd ∷ rest
      → server fd m ≡ fault
      → pair_replica r m.pcache (set_server r entry m) ≡ fault
  unfolding pair_replica
  pair_replica-fault m waiting gone =
      ap (λ l. pair_replica r l (set_server r entry m)) waiting
      ∙ ap (λ (x : Result Master). x >>= λ m. ok (record m { pcache = rest }))
          (pair_up-fault m gone)

  heartbeat-fault :
      (msg : Bytes) (m : Master)
      → words msg sharp ≡ bytes "x" ∷ ip ∷ port ∷ cache ∷ bytes "R" ∷ []
      → server r m ≡ ok (new_fdmap r)
      → m.pcache ≡ fd ∷ rest
      → server fd m ≡ fault
      → heartbeat later r msg m ≡ fault
  unfolding heartbeat register new_fdmap bytes_discrete ℕ_discrete set_server
  heartbeat-fault msg m fields new waiting gone =
      rw (new, fields, pair_replica-fault m waiting gone)

lost-drop :
    (fd : ℕ) (e : Fdmap) (m : Master)
    → e.status ≡ b'P'
    → e.pair_fd ≡ none
    → lost fd e m ≡ drop_primary fd e m
unfolding lost primary_lost
lost-drop fd e m primary alone =
    ap
      (λ s.
        if s == b'R'
        then replica_lost fd e.pair_fd m
        else if s == b'P'
        then primary_lost fd e e.pair_fd m
        else ok m)
      primary
    ∙ ap (λ o. primary_lost fd e o m) alone

-- The round that finds it dead.
pub detect-drop :
    (now fd : ℕ) (e : Fdmap) (m : Master)
    → first_dead now m.caches_list m ≡ ok (some fd)
    → server fd m ≡ ok e
    → e.status ≡ b'P'
    → e.pair_fd ≡ none
    → detect now m ≡ (drop_primary fd e m >>= λ m. ok (forget fd m))
unfolding detect
detect-drop now fd e m dead there primary alone =
    ap (λ x. x >>= λ d. handle_dead d m) dead
    ∙ ap (λ x. x >>= λ e. lost fd e m >>= λ m. ok (forget fd m)) there
    ∙ ap (λ x. x >>= λ m. ok (forget fd m)) (lost-drop fd e m primary alone)

forget-pcache : (fd : ℕ) (m : Master) → (forget fd m).pcache ≡ m.pcache
unfolding forget
forget-pcache fd m = ground arith

-- Where a round of periodicDetectCache finds a primary dead that has no replica and is the next
-- to get one, the round ends with no fault, and the first heartbeat of a replica that connects
-- then makes the master read through a null pointer. The ring is the one for the primaries, no
-- two of its nodes have a point in common, the descriptor of the primary is positive, and the
-- replica has another one.
pub detect-heartbeat :
    (now later fd r : ℕ) (e : Fdmap) (ip port cache msg : Bytes) (rest : List ℕ) (m : Master)
    → first_dead now m.caches_list m ≡ ok (some fd)
    → server fd m ≡ ok e
    → e.status ≡ b'P'
    → e.pair_fd ≡ none
    → m.pcache ≡ fd ∷ rest
    → 0 < fd
    → r ≢ fd
    → IsRing m
    → NoCollision 100 (length m.fd_node)
    → words msg sharp ≡ bytes "x" ∷ ip ∷ port ∷ cache ∷ bytes "R" ∷ []
    → (m' : Master) × (detect now m ≡ ok m') × (heartbeat later r msg (accept_cache r m') ≡ fault)
unfolding accept_cache set_server
detect-heartbeat now later fd r e ip port cache msg rest m dead there primary alone waiting positive
      apart ring n fields =
    let (t, h, _, _, _, w) = drop_primary-IsRing fd e m ring n in
    let m' = forget fd t in
    (
      m',
      detect-drop now fd e m dead there primary alone ∙ ap (λ x. x >>= λ m. ok (forget fd m)) h,
      heartbeat-fault later r fd ip port cache rest apart msg (set_server r (new_fdmap r) m') fields
          (set_server_self r (new_fdmap r) m') (forget-pcache fd t ∙ w ∙ waiting)
          (set_server_other r fd (new_fdmap r) m' apart ∙ forget-server fd t positive),
    )
