-- ===== src/CacheServer/Retained.antt =====
-- A value that a client stored is there for others, as long as not too many messages come between:
-- the loop of `Client_chat` with `LRU_handle_task` of cache/src/cache.cpp.
use simple_distributed_cache.Common.{ℕ, ◌≡◌, ◌≢◌, Option, none, some, List}
use simple_distributed_cache.Text.{Bytes, bytes_discrete}
use simple_distributed_cache.CacheLru.Recent.{Within}
use simple_distributed_cache.CacheServer.{CacheServer, before, behind}
use simple_distributed_cache.CacheServer.Replica.Sync.{Holds, place}

-- A message that does not store a value for the key.
abbrev IsOtherBy : Bytes → Bytes → Option Bytes → Type 0
IsOtherBy key message none = Unit
IsOtherBy key message (some val) = key ≢ before message

abbrev pub IsOther : Bytes → Bytes → Type 0
IsOther key message = IsOtherBy key message (behind message)

module _ (key value : Bytes) where
  -- Behind the messages of a chat.
  record Kept (n : ℕ) (c c' : CacheServer) : Type 0 where
    entries : List (Bytes × Bytes)
    holds : Holds c' entries
    within : Within bytes_discrete key value n entries
    placed : place c' ≡ place c
    limited : c'.main_cache.capacity ≡ c.main_cache.capacity
