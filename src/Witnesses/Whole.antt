-- ===== src/Witnesses/Whole.antt =====
-- Tests of a client, the master and a cache server together on concrete inputs.
use simple_distributed_cache.Common.{ℕ, [], ◌∷◌, if◌then◌else◌, Bool, ◌==◌, List}
use simple_distributed_cache.Text.{Bytes, bytes}
use simple_distributed_cache.LocalLru as Lru
use simple_distributed_cache.Client.{Client}
use simple_distributed_cache.Master.{Master, Fdmap}
use simple_distributed_cache.CacheServer.{CacheServer}
use simple_distributed_cache.Ring.{initialize}
use simple_distributed_cache.Ring.Exact.{empty_ring}
use simple_distributed_cache.Witnesses.ClientProcess.{reader}
use simple_distributed_cache.Witnesses.Cluster.{primary, one_server}
use simple_distributed_cache.Witnesses.Replication.{full}

-- The cache server at the address that the master lists.
abbrev stored_there : CacheServer
stored_there = record full { local_cache_ip = bytes "h"; port_for_client = bytes "80" }

-- Two primaries, of which the first one at the descriptor 5 is silent.
abbrev server_at : Bool → CacheServer
server_at b = record full {
  local_cache_ip = if b then bytes "h" else bytes "k";
  port_for_client = if b then bytes "80" else bytes "90";
}

abbrev servers : ℕ → CacheServer
servers fd = server_at (fd == 5)

abbrev second : Fdmap
second = record primary { fd = 6; ip_port = bytes "k#90"; ip_cache = bytes "k#91" }

abbrev two_primaries : Master
two_primaries = record one_server {
  hash = initialize 2 100 empty_ring;
  cache_addr_map = (bytes "h#80", 7) ∷ (bytes "k#90", 18) ∷ [];
  caches_list = (5, primary) ∷ (6, second) ∷ [];
  fd_node = 5 ∷ 6 ∷ [];
  pcache = 6 ∷ 5 ∷ [];
}

-- Seven requests that the silent one has not answered.
abbrev unanswered : List Bytes
unanswered =
    bytes "A1B"
    ∷ bytes "A"
    ∷ bytes "A1"
    ∷ bytes "A1BB"
    ∷ bytes "A1BBB"
    ∷ bytes "A1BBBB"
    ∷ bytes "A1BBBBB"
    ∷ []

abbrev patient : Client
patient = record reader { request_map = (bytes "h:80", unanswered) ∷ [] }
