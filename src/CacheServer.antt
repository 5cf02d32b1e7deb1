-- ===== src/CacheServer.antt =====
-- The cache server, cache/src/cache.cpp and cache/src/cache.h: its members, its task for a client's
-- message and what it does on the master's messages; the children have the rest of its threads.
-- `main_cache` is the table of CacheLru; `buffer` is the local variable of `Client_chat`. A `substr`
-- that throws is a fault, and so are an `erase` of the end of `cache_list` and the end of a
-- function that returns nothing. A `recv` takes one whole message. Of the members, the set `pt`, which
-- nothing reads, and those that are never used are left out.
pub mod Spec
pub mod Startup
pub mod Replica
pub mod Handover
pub mod Members
pub mod Retained
use simple_distributed_cache.Common.{
  ltb, length, fault, if◌then◌else◌, Bool, true, false, Option, none, some, ℕ, List, [], ◌∷◌, ◌++◌,
  Result, ok, ◌>>=◌, of_option, Ptr, ◌==◌, ite,
}
use simple_distributed_cache.Text.{Bytes, bytes, bytes_discrete, sharp, colon}
use simple_distributed_cache.CacheLru.{Lru, get, put, check}

-- `Cache`
pub record CacheServer : Type 0 where
  pub main_cache : Lru Bytes Bytes
  pub cache_list : List (Bytes × Bytes)
  pub cache_list_update_flag : Bool
  pub target_ip : Bytes
  pub target_port : Bytes
  pub dying_cache_ip : Bytes
  pub dying_cache_port : Bytes
  pub pr_status : Bytes
  pub status : Bytes
  pub local_cache_ip : Bytes
  pub port_for_client : Bytes
  pub port_for_cache : Bytes
  pub buffer : Bytes
  pub kv_to_replica : Bytes
  pub kv_update_flag : Bool
  pub is_initialed : ℕ
  pub initial_flag : Bool
  pub other_ip : List Bytes
  pub other_port : List Bytes
  pub out_key : List Bytes

-- `Cache(...)`; `main_cache` is the table as it is made, which does not depend on the first argument
-- of the constructor.
unfoldable pub init :
    Lru Bytes Bytes → (status local_cache_ip port_for_client port_for_cache : Bytes) → CacheServer
init main_cache status local_cache_ip port_for_client port_for_cache = record {
  main_cache = main_cache;
  cache_list = [];
  cache_list_update_flag = false;
  target_ip = bytes "None";
  target_port = bytes "None";
  dying_cache_ip = [];
  dying_cache_port = [];
  pr_status = status;
  status = status;
  local_cache_ip = local_cache_ip;
  port_for_client = port_for_client;
  port_for_cache = port_for_cache;
  buffer = [];
  kv_to_replica = [];
  kv_update_flag = false;
  is_initialed = 0;
  initial_flag = ite (bytes_discrete status (bytes "R")) true false;
  other_ip = [];
  other_port = [];
  out_key = [];
}

-- What stands before the first `#`, or the whole text.
unfoldable pub before : Bytes → Bytes
before [] = []
before (c ∷ s) = let rest = before s in if c == sharp then [] else c ∷ rest

-- What stands behind the first `#`, where there is one.
unfoldable pub behind : Bytes → Option Bytes
behind [] = none
behind (c ∷ s) = let rest = behind s in if c == sharp then some s else rest

-- `slice`
unfoldable pub slice : Bytes → Result (Bytes × Bytes)
slice message = do val ← of_option (behind message); ok (before message, val)

-- The end of a reply: the key and the address for clients.
abbrev pub reply : Bytes → CacheServer → Bytes
reply key c = key ++ sharp ∷ (c.local_cache_ip ++ colon ∷ c.port_for_client)

-- `LRU_handle_task`, given what stands behind a `#` in the message
unfoldable pub task : (fresh : Ptr) → Bytes → Option Bytes → CacheServer → Result CacheServer
task fresh message none c =
    if check bytes_discrete message c.main_cache
    then (do
      (res, table) ← get bytes_discrete [] message c.main_cache
      ok (record c {
        main_cache = table;
        buffer = bytes "SUCCESS#" ++ (reply message c ++ sharp ∷ res);
      }))
    else ok (record c { buffer = bytes "FAILED#" ++ reply message c })
task fresh message (some val) c = do
  let key = before message
  (removed, table) ← put bytes_discrete [] fresh key val c.main_cache
  ok (record c { main_cache = table; buffer = bytes "SUCCESS#" ++ reply key c })

-- `LRU_handle_task`, with the address that `new` returns
unfoldable pub handle_task : (fresh : Ptr) → Bytes → CacheServer → Result CacheServer
handle_task fresh message c = task fresh message (behind message) c

-- `BUF_SIZE`
abbrev pub buf_size : ℕ
buf_size = 65535

-- The text that `to_single_cache` sends; `none` where `client_socket` does not reach the other server,
-- which ends the process before the table is read. `strcpy` of a text that is not shorter than the
-- buffer is a fault.
unfoldable pub to_single_cache :
    (connects : Bool) → Bytes → CacheServer → Result (Option Bytes × CacheServer)
to_single_cache false key c = ok (none, c)
to_single_cache true key c = do
  (val, table) ← get bytes_discrete [] key c.main_cache
  let message = key ++ sharp ∷ val
  (if ltb (length message) buf_size
      then ok (some message, record c { main_cache = table })
      else fault)

-- `from_single_cache`, on the text that it receives
unfoldable pub from_single_cache : (fresh : Ptr) → Bytes → CacheServer → Result CacheServer
from_single_cache fresh message c = ite (bytes_discrete c.status (bytes "K")) (ok c) (do
  (key, val) ← slice message
  (removed, table) ← put bytes_discrete [] fresh key val c.main_cache
  ok (record c { main_cache = table }))

-- `find_if` and `erase`
unfoldable pub erase_pair : Bytes → Bytes → List (Bytes × Bytes) → Result (List (Bytes × Bytes))
erase_pair ip port [] = fault
erase_pair ip port ((i, p) ∷ l) =
    let rest = erase_pair ip port l in
    ite (bytes_discrete i ip) (ite (bytes_discrete p port) (ok l) (rest >>= λ r. ok ((i, p) ∷ r)))
      (rest >>= λ r. ok ((i, p) ∷ r))

-- Whether the address is this server's own.
unfoldable pub is_local : Bytes → Bytes → CacheServer → Bool
is_local ip port c =
    ite (bytes_discrete ip c.local_cache_ip) (ite (bytes_discrete port c.port_for_cache) true false)
      false

-- `update_cache` with the status `N`
unfoldable pub add_cache : Bytes → Bytes → CacheServer → CacheServer
add_cache ip port c = record c {
  cache_list = if is_local ip port c then c.cache_list else c.cache_list ++ (ip, port) ∷ [];
  cache_list_update_flag = true;
}

-- `update_cache` with the status `K`
unfoldable pub kill_cache : Bytes → Bytes → CacheServer → Result CacheServer
kill_cache ip port c = do
  l ← erase_pair ip port c.cache_list
  ok (record c {
    dying_cache_ip = ip;
    dying_cache_port = port;
    cache_list = l;
    cache_list_update_flag = true;
  })

-- the target of the branches `P` and `R`
unfoldable pub set_target : Bytes → CacheServer → Result CacheServer
set_target body c =
    ite (bytes_discrete body (bytes "None"))
      (ok (record c { target_ip = bytes "None"; target_port = bytes "None" }))
      (do (ip, port) ← slice body; ok (record c { target_ip = ip; target_port = port }))

-- The branches of `ReadFromMaster`, on the letter in front and what stands from the third place.
unfoldable pub branch : ℕ → Bytes → CacheServer → Result CacheServer
branch head body c =
    if head == b'K'
    then (do
      (ip, port) ← slice body
      c ← kill_cache ip port c
      ok (if is_local ip port c then record c { status = bytes "K" } else c))
    else if head == b'N'
    then (do (ip, port) ← slice body; ok (add_cache ip port c))
    else if head == b'P'
    then set_target body (record c { status = bytes "P"; pr_status = bytes "P" })
    else if head == b'R'
    then set_target body (record c { status = bytes "R" })
    else if head == b'C'
    then fault
    else if head == b'D'
    then (do
      (ip, port) ← slice body
      l ← erase_pair ip port c.cache_list
      ok (record c { cache_list = l }))
    else ok c

-- `ReadFromMaster`; a message of one letter is read beyond its end
unfoldable pub read_from_master : Bytes → CacheServer → Result CacheServer
read_from_master [] c = ok c
read_from_master (head ∷ []) c = fault
read_from_master (head ∷ _ ∷ body) c =
    ite (bytes_discrete c.status (bytes "K")) (ok c) (branch head body c)
