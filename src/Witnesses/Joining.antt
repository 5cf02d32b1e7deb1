-- ===== src/Witnesses/Joining.antt =====
-- Tests of how cache servers join, leave and are replaced, on concrete inputs.
use mathlib.Core.Path.{subst}
use simple_distributed_cache.Common.{
  ite, zero, suc, ◌≡◌, refl, ap, ◌∙◌, some, List, [], ◌∷◌, ◌++◌, map, ok, fault, ◌>>=◌, arith,
  length, ℕ_discrete, ◌≤◌,
}
use simple_distributed_cache.Common.Assoc.{lookup, assign}
use simple_distributed_cache.Witnesses.Hashing.{key-Reaches}
use simple_distributed_cache.Text.{Bytes, bytes, bytes_discrete, sharp, colon, ne_first}
use simple_distributed_cache.Master.{
  Master, Fdmap, server, words, accept_cache, set_server, new_fdmap, init, handle_client_message,
  heart_beat_detect, last_seen,
}
use simple_distributed_cache.Master.Heartbeat.{addresses, join_all, heartbeat, receive}
use simple_distributed_cache.Master.Failure.{
  detect, lost, forget, handle_dead, primary_lost, drop_primary, first_dead, replace_sharp,
  replace_fd,
}
use simple_distributed_cache.Master.Shrink.{finish_shrink}
use simple_distributed_cache.Master.Serve.{
  IsRing, IsAddressed, Answers, handle_client_message-Answers,
}
use simple_distributed_cache.Master.Rebalance.{drop_primary-IsRing}
use simple_distributed_cache.Master.Events.{Event, accepts, message, step, run, arrivals}
use simple_distributed_cache.Master.Events.Invariant.{run-IsRing}
use simple_distributed_cache.Master.Events.Registered.{news, heartbeat-heart_message}
use simple_distributed_cache.Master.Events.Race.{detect-finish_shrink}
use simple_distributed_cache.Master.Events.Rings.{IsSame}
use simple_distributed_cache.Master.Events.Paired.{heartbeat-heartbeat}
use simple_distributed_cache.Master.Events.Promoted.{detect-Answers}
use simple_distributed_cache.Deployment.Promotion.{detect-read_from_master}
use simple_distributed_cache.CacheServer.{read_from_master}
use simple_distributed_cache.CacheServer.Startup.{heart_message, parse_list, text, on_reply}
use simple_distributed_cache.CacheServer.Startup.Listing.{address, parse_list-join_all}
use simple_distributed_cache.CacheServer.Startup.Greeting.{listed, on_reply-addresses}
use simple_distributed_cache.CacheServer.Handover.{caches, hash_of, locate}
use simple_distributed_cache.CacheServer.Handover.Target.{locate-Answers}
use simple_distributed_cache.Witnesses.Cluster.{primary, one_server, one_server-IsAddressed}
use simple_distributed_cache.Witnesses.Server.{here}

parse_list-join_all_example :
    parse_list (join_all (map address ((bytes "a", bytes "1") ∷ (bytes "b", bytes "2") ∷ [])))
    ≡ some ((bytes "a", bytes "1") ∷ (bytes "b", bytes "2") ∷ [])
parse_list-join_all_example =
    parse_list-join_all (bytes "a", bytes "1") ((bytes "b", bytes "2") ∷ [])
      (
        ((λ e. omega arith, tt), (λ e. omega arith, tt)),
        (((λ e. omega arith, tt), (λ e. omega arith, tt)), tt),
      )

one_address : addresses (5 ∷ []) one_server ≡ ok (map address ((bytes "h", bytes "81") ∷ []))
unfolding addresses server lookup ℕ_discrete
one_address = refl

on_reply-addresses_example :
    (all_caches : List Bytes) × (addresses (5 ∷ []) one_server ≡ ok all_caches)
    × (on_reply (text (join_all all_caches)) here
        ≡ ok (some (listed ((bytes "h", bytes "81") ∷ []) here)))
on_reply-addresses_example =
    on_reply-addresses one_server (bytes "h", bytes "81") [] here one_address
      (((λ e. omega arith, tt), (λ e. omega arith, (λ e. omega arith, tt))), tt) refl

locate-Answers_example :
    (answer : Bytes) × (q : Answers (bytes "A1B") one_server answer) × (target : Bytes × Bytes)
    × (handle_client_message (bytes "A1B") one_server ≡ ok answer)
    × (locate
          (hash_of (length (caches ((bytes "h", bytes "81") ∷ []))))
          (caches ((bytes "h", bytes "81") ∷ []))
          (bytes "A1B")
        ≡ ok target)
    × (address target ≡ q.entry.ip_cache)
locate-Answers_example =
    locate-Answers (bytes "A1B") one_server ((bytes "h", bytes "81") ∷ []) refl
      one_server-IsAddressed key-Reaches one_address
      (((λ e. omega arith, tt), (λ e. omega arith, (λ e. omega arith, tt))), tt)

-- The cache server of the tests connects to a new master.
connected : server 5 (accept_cache 5 init) ≡ ok (new_fdmap 5)
unfolding server accept_cache set_server init lookup new_fdmap ℕ_discrete assign
connected = refl

heartbeat-heart_message_example :
    (m' : Master) × (heartbeat 3 5 (heart_message here) (accept_cache 5 init) ≡ ok m')
    × IsRing m'
    × (m'.fd_node ≡ 5 ∷ [])
    × (addresses m'.fd_node m' ≡ ok (bytes "h#81" ∷ []))
    × (m'.sent
        ≡ news 5 (bytes "h") (bytes "81") (accept_cache 5 init) [] ++ (5, bytes "P#None") ∷ [])
    × (last_seen (bytes "h#80") m' ≡ 3)
unfolding init accept_cache set_server addresses
heartbeat-heart_message_example =
    heartbeat-heart_message 3 5 here (accept_cache 5 init) []
      (
        ((λ e. omega arith, tt), λ e. cc e),
        (
          ((λ e. omega arith, (λ e. omega arith, tt)), λ e. cc e),
          (((λ e. omega arith, (λ e. omega arith, tt)), λ e. cc e), tt),
        ),
      )
      refl refl tt refl connected refl

joined : (m' : Master) × (heartbeat 3 5 (heart_message here) (accept_cache 5 init) ≡ ok m')
unfolding init accept_cache set_server addresses
joined =
    let (m', h, _, _, _, _, _) =
      heartbeat-heart_message 3 5 here (accept_cache 5 init) []
        (
          ((λ e. omega arith, tt), λ e. cc e),
          (
            ((λ e. omega arith, (λ e. omega arith, tt)), λ e. cc e),
            (((λ e. omega arith, (λ e. omega arith, tt)), λ e. cc e), tt),
          ),
        )
        refl refl tt refl connected refl in
    (m', h)

abbrev first_events : List Event
first_events = accepts 5 ∷ message 3 5 (heart_message here) ∷ []

first_run : run first_events init ≡ ok joined.0
unfolding run step receive heart_message
first_run = ap (λ r. r >>= λ m. ok m) joined.1

run-IsRing_example : IsRing joined.0 × (length joined.0.fd_node ≤ 1)
unfolding arrivals
run-IsRing_example = run-IsRing first_events joined.0 (λ i j q a b c d. omega arith) first_run

abbrev backup : Fdmap
backup = record {
  status = b'R';
  fd = 6;
  pair_fd = some 5;
  ip_port = bytes "k#90";
  ip_cache = bytes "k#91";
}

abbrev backed_up : Fdmap
backed_up = record primary { pair_fd = some 6 }

abbrev two_servers : Master
two_servers = record one_server { caches_list = (5, backed_up) ∷ (6, backup) ∷ [] }

two_servers-IsAddressed : IsAddressed two_servers
unfolding server lookup words ℕ_discrete
two_servers-IsAddressed zero fd h =
    let p : 5 ≡ fd = cc h in
    subst
      (λ q.
        (e : Fdmap) × (ip : Bytes) × (port : Bytes) × (server q two_servers ≡ ok e)
        × (words e.ip_port sharp ≡ ip ∷ port ∷ []))
      p (backed_up, bytes "h", bytes "80", refl, refl)
two_servers-IsAddressed (suc i) fd h = absurd (cc h)

-- What the master answers before the primary is lost.
before_loss :
    (answer : Bytes) × (handle_client_message (bytes "A1B") two_servers ≡ ok answer)
    × Answers (bytes "A1B") two_servers answer
unfolding server lookup words ℕ_discrete
before_loss =
    handle_client_message-Answers (bytes "A1B") two_servers refl two_servers-IsAddressed key-Reaches

first_silent : first_dead 20 two_servers.caches_list two_servers ≡ ok (some 5)
unfolding first_dead heart_beat_detect server last_seen lookup bytes_discrete ℕ_discrete
first_silent = refl

detect-Answers_example :
    (m' : Master) × (detect 20 two_servers ≡ ok m')
    × IsRing m'
    × (handle_client_message (bytes "A1B") m'
        ≡ ok (ite (ℕ_discrete before_loss.2.fd 5) (bytes "k" ++ colon ∷ bytes "90") before_loss.0))
unfolding server lookup words replace_sharp ℕ_discrete
detect-Answers_example =
    detect-Answers 20 5 6 backed_up backup two_servers (bytes "h:81") (bytes "k:91") (bytes "k")
      (bytes "90") first_silent refl refl refl refl (omega arith) (omega arith)
      (λ e. omega (arith, e)) refl refl refl refl (λ e. omega (arith, e), tt) (tt, tt) (bytes "A1B")
      before_loss.0 before_loss.2

detect-read_from_master_example :
    (m' : Master) × (text : Bytes) × (detect 20 two_servers ≡ ok m')
    × (m'.fd_node ≡ 6 ∷ [])
    × (m'.sent ≡ map (λ q. (q, text)) m'.fd_node)
    × (read_from_master text here ≡ fault)
unfolding server lookup replace_sharp replace_fd ℕ_discrete
detect-read_from_master_example =
    detect-read_from_master 20 5 6 backed_up backup two_servers (bytes "h:81") (bytes "k:91") here
      first_silent refl refl refl refl (omega arith) (omega arith) refl refl
      (ne_first b'P' b'K' [] [] (λ e. omega (arith, e)))

silent : first_dead 20 one_server.caches_list one_server ≡ ok (some 5)
unfolding first_dead heart_beat_detect server last_seen lookup bytes_discrete ℕ_discrete
silent = refl

dropped : (m' : Master) × (drop_primary 5 primary one_server ≡ ok m')
dropped =
    let (m', h, _, _, _, _) =
      drop_primary-IsRing 5 primary one_server refl (λ i j q a b c d. omega arith) in
    (m', h)

-- The periodic thread has taken the silent server out.
abbrev taken_out : Master
taken_out = forget 5 (dropped.0)

takes_out : detect 20 one_server ≡ ok taken_out
unfolding detect lost primary_lost server lookup ℕ_discrete
takes_out =
    ap (λ r. r >>= λ dead. handle_dead dead one_server) silent
    ∙ ap (λ r. r >>= λ m. ok (forget 5 m)) dropped.1

detect-finish_shrink_example :
    (heart_beat_detect 21 5 taken_out ≡ fault) × (finish_shrink 5 taken_out ≡ fault)
detect-finish_shrink_example =
    detect-finish_shrink 20 21 5 one_server taken_out (omega arith) silent takes_out

-- A replica connects while the primary waits for one.
heartbeat-heartbeat_example :
    (m' : Master) × (m'' : Master) × (r : Fdmap) × (heartbeat 8 6
        (bytes "x#k#90#91#R")
        (accept_cache 6 one_server)
      ≡ ok m')
    × (server 6 m' ≡ ok r)
    × (r.pair_fd ≡ some 5)
    × (server 5 m' ≡ ok (record primary { pair_fd = some 6 }))
    × (m'.pcache ≡ [])
    × IsSame (accept_cache 6 one_server) m'
    × (m'.sent ≡ (6, bytes "R#h#81") ∷ [])
    × (heartbeat 9 5 (bytes "x#h#80#81#P") m' ≡ ok m'')
    × (m''.sent ≡ m'.sent ++ (5, bytes "P#k#91") ∷ [])
unfolding accept_cache set_server server lookup assign words new_fdmap ℕ_discrete
heartbeat-heartbeat_example =
    heartbeat-heartbeat 8 9 6 5 (bytes "k") (bytes "90") (bytes "91") (bytes "x#k#90#91#R") []
      (accept_cache 6 one_server) primary (bytes "x#h#80#81#P") (bytes "x") (bytes "h") (bytes "80")
      (bytes "81" ∷ bytes "P" ∷ []) (λ e. omega (arith, e)) refl
      (ne_first b'h' b'0' (bytes "#80") [] (λ e. omega (arith, e))) refl refl refl refl
