-- ===== src/CacheServer/Spec.antt =====
-- What a cache server promises its clients: a reply for each message, on a list of entries.
use simple_distributed_cache.Common.{
  ℕ, Bool, true, false, Option, none, some, List, [], ◌∷◌, ◌++◌, is_some,
}
use simple_distributed_cache.Common.Assoc.{lookup}
use simple_distributed_cache.Text.{Bytes, bytes, bytes_discrete, sharp}
use simple_distributed_cache.CacheLru.Spec.{read, write}
use simple_distributed_cache.CacheServer.{before, behind}

-- A read, where the list has the key or not.
unfoldable pub serve_read :
    (place key : Bytes) → Bool → List (Bytes × Bytes) → Bytes × List (Bytes × Bytes)
serve_read place key false l = (bytes "FAILED#" ++ (key ++ sharp ∷ place), l)
serve_read place key true l = (
  bytes "SUCCESS#" ++ ((key ++ sharp ∷ place) ++ sharp ∷ (read bytes_discrete [] key l).0),
  (read bytes_discrete [] key l).1,
)

-- The reply to a key and to a key with a value, given what stands behind the `#`.
unfoldable pub serve_by :
    (limit : ℕ) (place : Bytes)
    → Bytes
    → Option Bytes
    → List (Bytes × Bytes)
    → Bytes × List (Bytes × Bytes)
serve_by limit place message none l =
    serve_read place message (is_some (lookup bytes_discrete message l)) l
serve_by limit place message (some val) l = (
  bytes "SUCCESS#" ++ (before message ++ sharp ∷ place),
  (write bytes_discrete [] limit (before message) val l).1,
)

-- The reply to a message; `place` is the server's address for clients.
unfoldable pub serve :
    (limit : ℕ) (place : Bytes) → Bytes → List (Bytes × Bytes) → Bytes × List (Bytes × Bytes)
serve limit place message l = serve_by limit place message (behind message) l
