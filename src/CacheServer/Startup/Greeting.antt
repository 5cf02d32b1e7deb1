-- ===== src/CacheServer/Startup/Greeting.antt =====
-- A new cache server and the master's first text to it.
use simple_distributed_cache.Common.{
  ◌≡◌, Bool, ◌>>=◌, if◌then◌else◌, ap, ◌∙◌, true, false, some, List, [], ◌∷◌, ◌++◌, map, All, ok,
}
use simple_distributed_cache.Text.{Bytes}
use simple_distributed_cache.Master.{Master}
use simple_distributed_cache.Master.Heartbeat.{join_all, addresses}
use simple_distributed_cache.CacheServer.{CacheServer, read_from_master}
use simple_distributed_cache.CacheServer.Startup.{
  parse_list, parse_chars, finish, initial, add_all, success_init, text, mark, initial_round,
  on_reply,
}
use simple_distributed_cache.CacheServer.Startup.Listing.{address, IsPlain, parse_list-join_all}

-- The server with the list, initialised.
abbrev pub listed : List (Bytes × Bytes) → CacheServer → CacheServer
listed l c = record c {
  cache_list = c.cache_list ++ l;
  is_initialed = success_init;
  initial_flag = true;
}

initial-add_all :
    (s : Bytes) (l : List (Bytes × Bytes)) (c : CacheServer)
    → parse_list s ≡ some l
    → initial s c ≡ add_all (some l) c
unfolding initial parse_list parse_chars finish
initial-add_all [] l c h = absurd (cc h)
initial-add_all (b ∷ s) l c h = rw h

on_reply-listed :
    (s : Bytes) (l : List (Bytes × Bytes)) (c : CacheServer)
    → c.initial_flag ≡ false
    → parse_list s ≡ some l
    → on_reply (text s) c ≡ ok (some (listed l c))
unfolding on_reply initial_round
on_reply-listed s l c f h =
    ap
      (λ (b : Bool).
        (if b then read_from_master s c else ok c) >>= λ d. ok (initial_round (text s) d))
      f
    ∙ ap (λ (b : Bool). ok (if b then some c else mark (initial s c))) f
    ∙ ap (λ d. ok (mark d)) (initial-add_all s l c h)

-- Where the addresses of the master's primaries are a list with an entry, none of which has a #
-- in its address or port, a cache server that is not initialised takes the text that the master
-- joins from them as its first reply with no fault, adds the addresses in the master's order,
-- and is initialised.
pub on_reply-addresses :
    (m : Master) (e : Bytes × Bytes) (l : List (Bytes × Bytes)) (c : CacheServer)
    → addresses m.fd_node m ≡ ok (map address (e ∷ l))
    → All IsPlain (e ∷ l)
    → c.initial_flag ≡ false
    → (all_caches : List Bytes) × (addresses m.fd_node m ≡ ok all_caches)
      × (on_reply (text (join_all all_caches)) c ≡ ok (some (listed (e ∷ l) c)))
on_reply-addresses m e l c h a f =
    (map address (e ∷ l), h, on_reply-listed _ (e ∷ l) c f (parse_list-join_all e l a))
