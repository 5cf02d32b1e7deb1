-- ===== src/Master.antt =====
-- The master, master/mastertry/master.cpp and master/mastertry/master.h: its members and the
-- handlers of its four threads, which the children of this module define. An `fdmap` stands in
-- `caches_list` under its descriptor; a use of a descriptor that is not there reads a null pointer and
-- is a fault. `pair_fd` is `none` for -1. The order of `caches_list` stands for the iteration
-- order. `sent` lists what has been sent, in order, with the descriptors, and `closed` the
-- descriptors that were closed. `vec` is never used and left out; the time is a parameter.
-- `cacheAddrMap[addr]` is 0 where the key is missing; that it is then stored changes nothing.
pub mod Words
pub mod Heartbeat
pub mod Failure
pub mod Shrink
pub mod Serve
pub mod Rebalance
pub mod Faults
pub mod Events
use simple_distributed_cache.Common.{
  ℕ, Bool, true, false, Option, none, some, List, [], ◌∷◌, ◌++◌, map, Result, ok, fault, ◌>>=◌,
  of_option, ltb, ◌==◌, if◌then◌else◌, ℕ_discrete, get_elem?, ◌+◌,
}
use simple_distributed_cache.Common.Assoc.{lookup, assign}
use simple_distributed_cache.Text.{Bytes, bytes, bytes_discrete, sharp, colon}
use simple_distributed_cache.Ring.{Ring, Points, get_server, initialize}

-- `fdmap`
pub record Fdmap : Type 0 where
  pub status : ℕ
  pub fd : ℕ
  pub pair_fd : Option ℕ
  pub ip_port : Bytes
  pub ip_cache : Bytes

-- `fdmap(fd)`
unfoldable pub new_fdmap : ℕ → Fdmap
new_fdmap fd = record {
  status = b'n';
  fd = fd;
  pair_fd = none;
  ip_port = bytes "0";
  ip_cache = bytes "0";
}

-- `Master`; the top of a stack is first.
pub record Master : Type 0 where
  pub hash : Ring
  pub cache_addr_map : List (Bytes × ℕ)
  pub caches_list : List (ℕ × Fdmap)
  pub fd_node : List ℕ
  pub pcache : List ℕ
  pub rcache : List ℕ
  pub sent : List (ℕ × Bytes)
  pub closed : List ℕ

-- `heartBeatInterval`
abbrev pub heart_beat_interval : ℕ
heart_beat_interval = 5

-- The members behind the first line of `Start`.
unfoldable pub init : Master
init = record {
  hash = initialize 0 100 (record { points = []; nodes = 0; v_nodes = 0 });
  cache_addr_map = [];
  caches_list = [];
  fd_node = [];
  pcache = [];
  rcache = [];
  sent = [];
  closed = [];
}

-- What is pushed at the end of a word.
abbrev emit : Bool → Bytes → List Bytes
emit true (c ∷ w) = (c ∷ w) ∷ []
emit _ w = []

-- `split` of master.h with one separator: the words between separators that are not empty.
words_from : (word : Bytes) → Bytes → ℕ → List Bytes
words_from word [] sep = emit true word
words_from word (c ∷ s) sep =
    let at_end = c == sep in
    emit at_end word ++ words_from (if at_end then [] else word ++ c ∷ []) s sep

unfoldable pub words : Bytes → ℕ → List Bytes
unfolding words_from
words s sep = words_from [] s sep

-- `*caches_list[fd]`
unfoldable pub server : ℕ → Master → Result Fdmap
server fd m = of_option (lookup ℕ_discrete fd m.caches_list)

unfoldable pub set_server : ℕ → Fdmap → Master → Master
set_server fd e m = record m { caches_list = assign ℕ_discrete fd e m.caches_list }

unfoldable pub send_to : ℕ → Bytes → Master → Master
send_to fd text m = record m { sent = m.sent ++ (fd, text) ∷ [] }

-- The loops that send one text to every descriptor of `fd_node`.
unfoldable pub broadcast : Bytes → Master → Master
broadcast text m = record m { sent = m.sent ++ map (λ fd. (fd, text)) m.fd_node }

-- `accept` of a cache server
unfoldable pub accept_cache : ℕ → Master → Master
accept_cache fd m = set_server fd (new_fdmap fd) m

-- `key2Index[v]`
unfoldable pub index_of : ℕ → Points → ℕ
index_of v points = elim (lookup ℕ_discrete v points) [ none ↦ 0 | some i ↦ i ]

-- `handleClientMessage`
unfoldable pub handle_client_message : Bytes → Master → Result Bytes
handle_client_message key m = do
  vir_node ← get_server key m.hash
  fd ← of_option (get_elem? m.fd_node (index_of vir_node m.hash.points))
  e ← server fd m
  let parts = words e.ip_port sharp
  ip ← of_option (get_elem? parts 0)
  port ← of_option (get_elem? parts 1)
  ok (ip ++ colon ∷ port)

-- The branch of `start_client` that answers a client at `fd`.
unfoldable pub answer_client : ℕ → Bytes → Master → Result Master
answer_client fd key m = do
  addr ← handle_client_message key m
  ok (send_to fd (bytes "MASTER#" ++ key ++ sharp ∷ addr) m)

-- `handleHeartBeatResponse`
unfoldable pub handle_heart_beat_response : (now : ℕ) → Bytes → Master → Result Master
handle_heart_beat_response now msg m = do
  let parts = words msg sharp
  ip ← of_option (get_elem? parts 1)
  port ← of_option (get_elem? parts 2)
  let addr = ip ++ sharp ∷ port
  ok (record m { cache_addr_map = assign bytes_discrete addr now m.cache_addr_map })

-- `cacheAddrMap[addr]`
unfoldable pub last_seen : Bytes → Master → ℕ
last_seen addr m = elim (lookup bytes_discrete addr m.cache_addr_map) [ none ↦ 0 | some t ↦ t ]

-- `heartBeatDetect`
unfoldable pub heart_beat_detect : (now fd : ℕ) → Master → Result Bool
heart_beat_detect now fd m = do
  e ← server fd m
  ok (ltb now (last_seen e.ip_port m + heart_beat_interval))
