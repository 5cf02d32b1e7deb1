-- ===== src/Deployment.antt =====
-- The parts together: a client, the master and the cache servers, as README.md describes them. The
-- texts that one of them sends are the texts that another one reads, whole and in order.
pub mod Steps
pub mod Round
pub mod Promotion
pub mod Dropped
pub mod Recovery
use simple_distributed_cache.Common.{ℕ, ◌≡◌, ◌≢◌, some, [], ◌∷◌, ok, NotIn, get_elem?}
use simple_distributed_cache.Text.{Bytes, sharp, colon}
use simple_distributed_cache.Master.{Master, Fdmap, words, server}
use simple_distributed_cache.Master.Serve.{IsRing}
use simple_distributed_cache.CacheServer.{CacheServer}

-- The address and the port for clients of a cache server can stand in a message.
pub record IsPlaced (s : CacheServer) : Type 0 where
  pub ip_chars : NotIn sharp s.local_cache_ip
  pub port_chars : NotIn sharp s.port_for_client
  pub ip_no_colon : NotIn colon s.local_cache_ip
  pub port_no_colon : NotIn colon s.port_for_client
  pub port_there : s.port_for_client ≢ []

-- Each primary that the master lists is the cache server behind its descriptor.
pub record IsDeployed (m : Master) (s : ℕ → CacheServer) : Type 0 where
  pub ring : IsRing m
  pub listed :
      (i fd : ℕ)
      → get_elem? m.fd_node i ≡ some fd
      → (e : Fdmap) × (server fd m ≡ ok e)
        × (words e.ip_port sharp ≡ (s fd).local_cache_ip ∷ (s fd).port_for_client ∷ [])
  pub placed : (fd : ℕ) → IsPlaced (s fd)
