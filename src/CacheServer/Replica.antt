-- ===== src/CacheServer/Replica.antt =====
-- The primary and its replica: `Client_chat` and `primary_cache`, `replica_cache` of
-- cache/src/cache.cpp. The primary polls two flags; the replica reads one message a round. The
-- locks are taken and released within one step and are left out.
pub mod Sync
pub mod Loss
use simple_distributed_cache.Common.{
  ℕ, Bool, true, false, Option, none, some, List, [], ◌∷◌, ◌++◌, Result, ok, ◌>>=◌, Ptr, ◌==◌,
  if◌then◌else◌, ite, fault, leb, length,
}
use simple_distributed_cache.Text.{Bytes, bytes, bytes_discrete, sharp}
use simple_distributed_cache.CacheLru.{get, put, check}
use simple_distributed_cache.CacheServer.{CacheServer, before, behind, handle_task, buf_size}
use simple_distributed_cache.CacheServer.Startup.{parse_list}

-- A client's message in the loop of `Client_chat`, with at least one byte; a reply that is longer
-- than the buffer to which `memcpy` copies it is a fault.
unfoldable pub client_message : (fresh : Ptr) → Bytes → CacheServer → Result CacheServer
client_message fresh message c = do
  c ← handle_task fresh message c
  (if leb (length c.buffer) buf_size
      then ok (record c { kv_update_flag = true; kv_to_replica = message })
      else fault)

-- What a client reads of `send_buff_client`, which is sent whole, up to the first NUL; `left` stands
-- behind the reply in the buffer, and is empty once the buffer has been cleared at the end of a round.
unfoldable pub reply_read : (left : Bytes) → CacheServer → Bytes
reply_read left c = c.buffer ++ left

-- The text that carries `cache_list`; nothing stands between its entries.
unfoldable pub entries_text : List (Bytes × Bytes) → Bytes
entries_text [] = []
entries_text ((ip, port) ∷ l) = ip ++ (sharp ∷ (port ++ entries_text l))

-- The two blocks of a round of `primary_cache`, and what each sends.
unfoldable pub send_list : CacheServer → List Bytes × CacheServer
send_list c =
    if c.cache_list_update_flag
    then ((sharp ∷ entries_text c.cache_list) ∷ [], record c { cache_list_update_flag = false })
    else ([], c)

unfoldable pub send_kv : CacheServer → List Bytes × CacheServer
send_kv c =
    if c.kv_update_flag
    then (c.kv_to_replica ∷ [], record c { kv_update_flag = false })
    else ([], c)

-- A round of the inner loop of `primary_cache`.
unfoldable pub primary_round : CacheServer → List Bytes × CacheServer
primary_round c = let (a, c) = send_list c in let (b, c) = send_kv c in (a ++ b, c)

-- The branch of `replica_cache` for a key, or a key with a value, given what stands behind a `#`.
unfoldable pub replay : (fresh : Ptr) → Bytes → Option Bytes → CacheServer → Result CacheServer
replay fresh message none c =
    if check bytes_discrete message c.main_cache
    then (do
      (res, table) ← get bytes_discrete [] message c.main_cache
      ok (record c { main_cache = table }))
    else ok c
replay fresh message (some val) c = do
  (removed, table) ← put bytes_discrete [] fresh (before message) val c.main_cache
  ok (record c { main_cache = table })

abbrev pub append_list : Option (List (Bytes × Bytes)) → CacheServer → CacheServer
append_list none c = c
append_list (some l) c = record c { cache_list = c.cache_list ++ l }

-- `find_if` finds the address
unfoldable pub has_pair : Bytes → Bytes → List (Bytes × Bytes) → Bool
has_pair ip port [] = false
has_pair ip port ((i, p) ∷ l) =
    ite (bytes_discrete i ip) (ite (bytes_discrete p port) true (has_pair ip port l))
      (has_pair ip port l)

-- The branch for a list; `none` where the process exits.
unfoldable pub read_list : Bytes → CacheServer → Option CacheServer
read_list text c =
    let c = append_list (parse_list text) c in
    if has_pair c.target_ip c.target_port c.cache_list then some c else none

-- A round of `replica_cache` on a message, behind the test of `pr_status_`.
unfoldable pub replica_round : (fresh : Ptr) → Bytes → CacheServer → Result (Option CacheServer)
replica_round fresh [] c = do c ← replay fresh [] (behind []) c; ok (some c)
replica_round fresh (b ∷ text) c =
    if b == sharp
    then ok (read_list text c)
    else (do c ← replay fresh (b ∷ text) (behind (b ∷ text)) c; ok (some c))
