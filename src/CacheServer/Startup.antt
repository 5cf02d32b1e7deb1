-- ===== src/CacheServer/Startup.antt =====
-- How a cache server meets the master: its heartbeat, and what it does on the reply (`Heartbeat` and
-- `initial` of cache/src/cache.cpp).
pub mod Listing
pub mod Greeting
use simple_distributed_cache.Common.{
  ℕ, zero, suc, ◌+◌, ◌%◌, Bool, true, false, Option, none, some, List, [], ◌∷◌, ◌++◌, Result, ok,
  ◌>>=◌, ◌==◌, if◌then◌else◌, length, ltb,
}
use simple_distributed_cache.Text.{Bytes, bytes, sharp}
use simple_distributed_cache.CacheServer.{CacheServer, read_from_master}

-- The variables of the loop that takes a list of addresses apart.
pub record Parse : Type 0 where
  pub ip : List Bytes
  pub port : List Bytes
  pub tmp : Bytes
  pub count : ℕ

abbrev pub parse_start : Parse
parse_start = record { ip = []; port = []; tmp = []; count = 0 }

-- `push_back` to the vector that the count names
unfoldable pub push : Parse → Parse
push p =
    if p.count % 2 == 0
    then record p { ip = p.ip ++ p.tmp ∷ [] }
    else record p { port = p.port ++ p.tmp ∷ [] }

-- a round of the loop
unfoldable pub parse_char : ℕ → Parse → Parse
parse_char single p =
    if single == sharp
    then record (push p) { tmp = []; count = p.count + 1 }
    else record p { tmp = p.tmp ++ single ∷ [] }

unfoldable pub parse_chars : Bytes → Parse → Parse
parse_chars [] p = p
parse_chars (c ∷ s) p = parse_chars s (parse_char c p)

-- the loop that makes pairs of two vectors of one length
unfoldable pub pairs : List Bytes → List Bytes → List (Bytes × Bytes)
pairs (i ∷ is) (p ∷ ps) = (i, p) ∷ pairs is ps
pairs _ _ = []

-- The lines behind the loop; `none` where the lengths differ.
unfoldable pub finish : Parse → Option (List (Bytes × Bytes))
finish p =
    let port = p.port ++ p.tmp ∷ [] in
    if length p.ip == length port then some (pairs p.ip port) else none

-- The addresses in a text, as `initial` and `replica_cache` take it apart.
unfoldable pub parse_list : Bytes → Option (List (Bytes × Bytes))
parse_list text = finish (parse_chars text parse_start)

-- `NO_INIT`, `SUCCESS_INIT` and `ERROR_INIT`
abbrev pub no_init : ℕ
no_init = 0

abbrev pub success_init : ℕ
success_init = 1

abbrev pub error_init : ℕ
error_init = 2

abbrev pub add_all : Option (List (Bytes × Bytes)) → CacheServer → CacheServer
add_all none c = record c { is_initialed = error_init }
add_all (some l) c = record c { cache_list = c.cache_list ++ l; is_initialed = success_init }

-- `initial`; its loop of `recv` makes no round, since `is_not_init` is false of every text
unfoldable pub initial : Bytes → CacheServer → CacheServer
initial [] c = record c { is_initialed = error_init }
initial (b ∷ text) c = add_all (parse_list (b ∷ text)) c

-- The text of a heartbeat.
unfoldable pub heart_message : CacheServer → Bytes
heart_message c =
    bytes "x#"
    ++ (c.local_cache_ip
        ++ sharp ∷ (c.port_for_client ++ sharp ∷ (c.port_for_cache ++ sharp ∷ c.pr_status)))

-- What `recv` gives: an error such as that there is nothing to read, the end of the connection, or
-- a text of at least one byte (its first NUL may be its first byte).
pub data Received : Type 0 where
  failed : Received
  ended : Received
  text : Bytes → Received

-- The buffer behind `recv`.
abbrev pub buffer_of : Received → Bytes
buffer_of (text s) = s
buffer_of _ = []

-- `len != 0`
abbrev pub is_open : Received → Bool
is_open ended = false
is_open _ = true

-- `len > 0`
abbrev pub has_text : Received → Bool
has_text (text s) = true
has_text _ = false

abbrev pub mark : CacheServer → Option CacheServer
mark c =
    if c.is_initialed == no_init
    then none
    else if c.is_initialed == error_init
    then none
    else some (record c { initial_flag = true })

-- The loop around `initial`, which makes one round at most; `none` where the process exits.
unfoldable pub initial_round : Received → CacheServer → Option CacheServer
initial_round r c =
    if c.initial_flag then some c else if has_text r then mark (initial (buffer_of r) c) else some c

-- The callback of `Heartbeat` behind `recv`.
unfoldable pub on_reply : Received → CacheServer → Result (Option CacheServer)
on_reply r c = do
  c ←
      if is_open r
      then (if c.initial_flag then read_from_master (buffer_of r) c else ok c)
      else ok c
  ok (initial_round r c)
