-- ===== src/Witnesses/Cluster.antt =====
-- Tests of the master on concrete inputs.
use simple_distributed_cache.Common.{
  zero, suc, ◌+◌, ◌≡◌, refl, none, [], ◌∷◌, ok, fault, ℕ_discrete,
}
use mathlib.Core.Path.{subst}
use simple_distributed_cache.Common.Assoc.{lookup}
use simple_distributed_cache.Witnesses.Hashing.{key-Reaches}
use simple_distributed_cache.Text.{Bytes, bytes, sharp}
use simple_distributed_cache.Ring.{initialize}
use simple_distributed_cache.Ring.Exact.{empty_ring}
use simple_distributed_cache.Master.{
  Master, Fdmap, server, words, accept_cache, init, handle_client_message,
}
use simple_distributed_cache.Master.Heartbeat.{heartbeat}
use simple_distributed_cache.Master.Failure.{detect}
use simple_distributed_cache.Master.Serve.{IsAddressed, Answers, handle_client_message-Answers}
use simple_distributed_cache.Master.Faults.{detect-heartbeat_unpaired}

abbrev pub primary : Fdmap
primary = record {
  status = b'P';
  fd = 5;
  pair_fd = none;
  ip_port = bytes "h#80";
  ip_cache = bytes "h#81";
}

-- One primary at the descriptor 5.
abbrev pub one_server : Master
one_server = record {
  hash = initialize 1 100 empty_ring;
  cache_addr_map = (bytes "h#80", 7) ∷ [];
  caches_list = (5, primary) ∷ [];
  fd_node = 5 ∷ [];
  pcache = 5 ∷ [];
  rcache = [];
  sent = [];
  closed = [];
}

words_example : words (bytes "x#h##80#") sharp ≡ bytes "x" ∷ bytes "h" ∷ bytes "80" ∷ []
unfolding words
words_example = refl

pub one_server-IsAddressed : IsAddressed one_server
unfolding server lookup words ℕ_discrete
one_server-IsAddressed zero fd h =
    let p : 5 ≡ fd = cc h in
    subst
      (λ q.
        (e : Fdmap) × (ip : Bytes) × (port : Bytes) × (server q one_server ≡ ok e)
        × (words e.ip_port sharp ≡ ip ∷ port ∷ []))
      p (primary, bytes "h", bytes "80", refl, refl)
one_server-IsAddressed (suc i) fd h = absurd (cc h)

handle_client_message-Answers_example :
    (answer : Bytes) × (handle_client_message (bytes "A1B") one_server ≡ ok answer)
    × Answers (bytes "A1B") one_server answer
handle_client_message-Answers_example =
    handle_client_message-Answers (bytes "A1B") one_server refl one_server-IsAddressed key-Reaches

detect-heartbeat_unpaired_example :
    (m' : Master) × (heartbeat 3 6 (bytes "x#h#80#81#R") (accept_cache 6 init) ≡ ok m')
    × (detect (3 + 5) m' ≡ fault)
unfolding init words
detect-heartbeat_unpaired_example =
    detect-heartbeat_unpaired 3 6 (bytes "h") (bytes "80") (bytes "81") (bytes "x#h#80#81#R") refl
      init refl refl
