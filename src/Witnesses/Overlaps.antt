-- ===== src/Witnesses/Overlaps.antt =====
-- Tests of what the master does where its threads come in one another's way, on concrete inputs.
use simple_distributed_cache.Common.{
  List, inl, inr, ◌≡◌, refl, some, [], ◌∷◌, ok, fault, arith, ℕ_discrete,
}
use simple_distributed_cache.Common.Assoc.{lookup, assign}
use simple_distributed_cache.Text.{bytes, bytes_discrete, decimal}
use simple_distributed_cache.Ring.{
  initialize, add_node, murmur3_32, insert_nodes, insert_from, insert, server_of, lower_bound,
  point,
}
use simple_distributed_cache.Ring.Server.{owner}
use simple_distributed_cache.Ring.Exact.{empty_ring}
use simple_distributed_cache.Master.{
  Master, server, words, accept_cache, set_server, new_fdmap, handle_client_message,
  heart_beat_detect, last_seen, handle_heart_beat_response, send_to,
}
use simple_distributed_cache.Master.Heartbeat.{
  addresses, heartbeat, receive, pair_address, register, pair_replica, pair_up,
}
use simple_distributed_cache.Master.Failure.{detect, first_dead, lost, replica_lost}
use simple_distributed_cache.Master.Shrink.{announce_shrink, finish_shrink}
use simple_distributed_cache.Master.Events.Waiting.{detect-heartbeat}
use simple_distributed_cache.Master.Events.Overlap.{heartbeat-finish_shrink}
use simple_distributed_cache.Master.Events.{Event, accepts, message, detects, run, step}
use simple_distributed_cache.Master.Events.Alive.{IsSeen}
use simple_distributed_cache.Master.Events.Timely.{run-IsSeen}
use simple_distributed_cache.CacheServer.Startup.{heart_message}
use simple_distributed_cache.Witnesses.Cluster.{primary, one_server}
use simple_distributed_cache.Witnesses.Server.{here}

silent : first_dead 20 one_server.caches_list one_server ≡ ok (some 5)
unfolding first_dead heart_beat_detect server last_seen lookup bytes_discrete ℕ_discrete
silent = refl

-- The primary is lost while it waits, and a replica connects.
detect-heartbeat_example :
    (m' : Master) × (detect 20 one_server ≡ ok m')
    × (heartbeat 21 6 (bytes "x#k#90#91#R") (accept_cache 6 m') ≡ fault)
unfolding server lookup words ℕ_discrete
detect-heartbeat_example =
    detect-heartbeat 20 21 5 6 primary (bytes "k") (bytes "90") (bytes "91") (bytes "x#k#90#91#R")
      [] one_server silent refl refl refl refl (omega arith) (λ e. omega (arith, e)) refl
      (λ i j q a b c d. omega arith) refl

-- On a ring with no other point every key is the new server's.
all_moved :
    owner (murmur3_32 (bytes "A1B")) (add_node 1 (initialize 0 100 empty_ring)).points ≡ ok (some 1)
unfolding owner add_node initialize insert_nodes insert_from insert server_of lower_bound murmur3_32
    lookup ℕ_discrete point decimal
all_moved = refl

-- A second primary registers while the first one is taken out.
heartbeat-finish_shrink_example :
    (m1 : Master) × (m2 : Master) × (m3 : Master) × (announce_shrink (accept_cache 6 one_server)
      ≡ ok (some 5, m1))
    × (heartbeat 9 6 (heart_message here) m1 ≡ ok m2)
    × (m2.fd_node ≡ 5 ∷ 6 ∷ [])
    × (finish_shrink 5 m2 ≡ ok m3)
    × (m3.fd_node ≡ 5 ∷ [])
    × (server 5 m3 ≡ fault)
    × (handle_client_message (bytes "A1B") m3 ≡ fault)
unfolding accept_cache set_server server lookup assign new_fdmap addresses ℕ_discrete
heartbeat-finish_shrink_example =
    heartbeat-finish_shrink 9 6 5 primary here (accept_cache 6 one_server) (bytes "h#81" ∷ [])
      (bytes "A1B") refl (λ i j q a b c d. omega arith) refl refl
      (
        ((λ e. omega arith, tt), λ e. cc e),
        (
          ((λ e. omega arith, (λ e. omega arith, tt)), λ e. cc e),
          (((λ e. omega arith, (λ e. omega arith, tt)), λ e. cc e), tt),
        ),
      )
      refl (λ e. omega (arith, e), tt) refl refl refl all_moved

-- The primary is heard while a replica connects and is then lost.
abbrev heard_in_time : List Event
heard_in_time =
    detects 11
    ∷ message 11 5 (heart_message here)
    ∷ accepts 6
    ∷ message 12 6 (bytes "x#k#90#91#R")
    ∷ message 14 5 (heart_message here)
    ∷ detects 18
    ∷ []

heard_first : last_seen (bytes "h#80") one_server ≡ 7
unfolding last_seen lookup bytes_discrete ℕ_discrete
heard_first = refl

abbrev behind_all : Master
behind_all = elim (run heard_in_time one_server) [ ok m ↦ m | fault ↦ one_server ]

heard_run : run heard_in_time one_server ≡ ok behind_all
unfolding run step lookup ℕ_discrete last_seen bytes_discrete detect first_dead heart_beat_detect
    server receive heart_message heartbeat pair_address handle_heart_beat_response words
    accept_cache set_server assign register pair_replica pair_up new_fdmap send_to lost replica_lost
heard_run = refl

run-IsSeen_example : IsSeen 5 (bytes "h#80") 7 behind_all
unfolding lookup ℕ_discrete
run-IsSeen_example =
    run-IsSeen 5 here 7 heard_in_time one_server behind_all
      (
        ((λ e. omega arith, tt), λ e. cc e),
        (
          ((λ e. omega arith, (λ e. omega arith, tt)), λ e. cc e),
          (((λ e. omega arith, (λ e. omega arith, tt)), λ e. cc e), tt),
        ),
      )
      (record { entry = primary; known = refl; address = refl; seen = omega (arith, heard_first) })
      (
        omega arith,
        (
          omega arith,
          inr (
            refl,
            (bytes "P", ((λ e. omega arith, tt), λ e. cc e), refl),
            (
              (λ e. omega (arith, e)),
              (
                omega arith,
                inl (
                  (λ e. omega (arith, e)),
                  (
                    omega arith,
                    inr (
                      refl,
                      (bytes "P", ((λ e. omega arith, tt), λ e. cc e), refl),
                      (omega arith, tt),
                    ),
                  ),
                ),
              ),
            ),
          ),
        ),
      )
      heard_run
