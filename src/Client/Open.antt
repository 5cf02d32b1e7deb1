-- ===== src/Client/Open.antt =====
-- The open requests of the client, `request_map_` of Client/src/client.cpp, behind any events.
use simple_distributed_cache.Common.{
  ℕ, ◌≡◌, refl, sym, Option, none, some, List, [], ◌∷◌, IsDistinct, NotIn, Result, ok, ◌>>=◌,
  of_option, length, Gives, Gives-then, Gives-any, Gives-ite, Gives-if, Gives-at, ltb,
  if◌then◌else◌, Bool, true, false, get_elem?, ◌==◌,
}
use mathlib.Core.Path.{subst}
use simple_distributed_cache.Common.Assoc.{lookup}
use simple_distributed_cache.Text.{Bytes, bytes, bytes_discrete, split, sharp}
use simple_distributed_cache.LocalLru as Lru
use simple_distributed_cache.Client.Once.{
  IsOnce, add_found-IsOnce, erase_found-IsOnce, keys_of, erase_found-NotIn,
}
use simple_distributed_cache.Client.{
  Client, Net, init, add_item_to_request_map, erase_item_from_request_map, send_request_to_master,
  parse_str_addr, lost_max_num,
}
use simple_distributed_cache.Client.Lost.{without_lost, check_cache_server_request_map_lem}
use simple_distributed_cache.Client.Handlers.{
  Event, from_child, from_master, from_server, handle, arm, send_request_to_cache_server,
  request_in_mode, request_found, dealwith_child, master_fields, dealwith_master, stop_timer,
  dealwith_cache_server, resend_all, check_cache_server_request_map,
}

-- No handler puts a key twice into a list.
abbrev pub IsOpenOnce : Client → Type 0
IsOpenOnce c = IsOnce c.request_map

add_item-IsOpenOnce :
    (addr key : Bytes) (c : Client) → IsOpenOnce c → IsOpenOnce (add_item_to_request_map addr key c)
unfolding add_item_to_request_map
add_item-IsOpenOnce addr key c s = add_found-IsOnce addr key c.request_map _ refl s

erase_item-IsOpenOnce :
    (addr key : Bytes) (c : Client)
    → IsOpenOnce c
    → IsOpenOnce (erase_item_from_request_map addr key c)
unfolding erase_item_from_request_map
erase_item-IsOpenOnce addr key c s = erase_found-IsOnce addr key c.request_map _ refl s

-- The keys that are open at a server.
abbrev pub open_at : Bytes → Client → List Bytes
open_at addr c = keys_of (lookup bytes_discrete addr c.request_map)

pub erase_item-NotIn :
    (addr key : Bytes) (c : Client)
    → IsOpenOnce c
    → NotIn key (open_at addr (erase_item_from_request_map addr key c))
unfolding erase_item_from_request_map
erase_item-NotIn addr key c s = erase_found-NotIn addr key c.request_map _ refl s

send-IsOpenOnce :
    (net : Net) (addr key value : Bytes) (c : Client)
    → IsOpenOnce c
    → Gives IsOpenOnce (send_request_to_cache_server net addr key value c)
unfolding send_request_to_cache_server
send-IsOpenOnce net addr key value c s =
    Gives-any IsOpenOnce (parse_str_addr addr) _
      λ parsed. Gives-any IsOpenOnce (arm net addr _ _) _ λ entry. add_item-IsOpenOnce addr key c s

request_in_mode-IsOpenOnce :
    (net : Net) (addr key : Bytes) (c : Client)
    → IsOpenOnce c
    → Gives IsOpenOnce (request_in_mode net addr key c)
unfolding request_in_mode
request_in_mode-IsOpenOnce net addr key c s =
    Gives-if IsOpenOnce (c.mode == b'r') _ _ (send-IsOpenOnce net addr key [] c s) (
      Gives-if IsOpenOnce (c.mode == b'w') _ _ (send-IsOpenOnce net addr key net.random_value c s)
        s)

request_found-IsOpenOnce :
    (net : Net) (key : Bytes) (o : Option Bytes) (c : Client)
    → IsOpenOnce c
    → Gives IsOpenOnce (request_found net key o c)
unfolding send_request_to_master
request_found-IsOpenOnce net key none c s = s
request_found-IsOpenOnce net key (some addr) c s = request_in_mode-IsOpenOnce net addr key c s

dealwith_child-IsOpenOnce :
    (net : Net) (message : Bytes) (c : Client)
    → IsOpenOnce c
    → Gives IsOpenOnce (dealwith_child net message c)
unfolding dealwith_child
dealwith_child-IsOpenOnce net message c s =
    Gives-any IsOpenOnce (of_option (get_elem? (split message sharp) 1)) _ λ key.
      Gives-any IsOpenOnce (of_option (get_elem? (split message sharp) 0)) _ λ state.
        Gives-ite IsOpenOnce (bytes_discrete state (bytes "CHILD")) _ _
          (Gives-any IsOpenOnce (Lru.get bytes_discrete key c.local_lru) _ λ (found, local).
            request_found-IsOpenOnce net key found (record c { local_lru = local }) s)
          s

resend_all-IsOpenOnce :
    (keys : List Bytes) (c : Client) → IsOpenOnce c → IsOpenOnce (resend_all keys c)
unfolding resend_all send_request_to_master
resend_all-IsOpenOnce [] c s = s
resend_all-IsOpenOnce (key ∷ keys) c s = resend_all-IsOpenOnce keys (send_request_to_master key c) s

master_fields-IsOpenOnce :
    (net : Net) (fields : List Bytes) (c : Client)
    → IsOpenOnce c
    → Gives IsOpenOnce (master_fields net fields c)
unfolding master_fields
master_fields-IsOpenOnce net [] c s = s
master_fields-IsOpenOnce net (a ∷ []) c s = s
master_fields-IsOpenOnce net (a ∷ b ∷ []) c s = s
master_fields-IsOpenOnce net (state ∷ key ∷ addr ∷ []) c s =
    Gives-ite IsOpenOnce (bytes_discrete state (bytes "MASTER")) _ _
      (Gives-any IsOpenOnce (Lru.put bytes_discrete key addr c.local_lru) _
        λ local. request_in_mode-IsOpenOnce net addr key (record c { local_lru = local }) s)
      s
master_fields-IsOpenOnce net (a ∷ b ∷ d ∷ e ∷ l) c s = s

stop_timer-IsOpenOnce :
    (addr : Bytes) (c : Client) → IsOpenOnce c → Gives IsOpenOnce (stop_timer addr c)
unfolding stop_timer
stop_timer-IsOpenOnce addr c s =
    Gives-any IsOpenOnce (of_option (lookup bytes_discrete addr c.cache_server_timers)) _
      λ entry. Gives-any IsOpenOnce (of_option entry.timer) _ λ timer. s

dealwith_cache_server-IsOpenOnce :
    (message : Bytes) (c : Client)
    → IsOpenOnce c
    → Gives IsOpenOnce (dealwith_cache_server message c)
unfolding dealwith_cache_server
dealwith_cache_server-IsOpenOnce message c s =
    Gives-any IsOpenOnce (of_option (get_elem? (split message sharp) 0)) _ λ state.
      Gives-any IsOpenOnce (of_option (get_elem? (split message sharp) 1)) _ λ key.
        Gives-any IsOpenOnce (of_option (get_elem? (split message sharp) 2)) _ λ addr.
          let erased = erase_item-IsOpenOnce addr key c s in
          let d = erase_item_from_request_map addr key c in
          Gives-ite IsOpenOnce (bytes_discrete state (bytes "SUCCESS")) _ _
            (stop_timer-IsOpenOnce addr d erased)
            (Gives-ite IsOpenOnce (bytes_discrete state (bytes "FAILED")) _ _
              (stop_timer-IsOpenOnce addr
                (record d { local_lru = Lru.erase bytes_discrete key d.local_lru }) erased)
              s)

kept-IsDistinct :
    (b : Bool) (keys : List Bytes) → IsDistinct keys → IsDistinct (if b then [] else keys)
kept-IsDistinct true keys d = tt
kept-IsDistinct false keys d = d

without_lost-IsOnce : (m : List (Bytes × List Bytes)) → IsOnce m → IsOnce (without_lost m)
unfolding without_lost
without_lost-IsOnce [] s = tt
without_lost-IsOnce ((addr, keys) ∷ m) (d, s) =
    (kept-IsDistinct (ltb lost_max_num (length keys)) keys d, without_lost-IsOnce m s)

pub check-IsOpenOnce : (c : Client) → IsOpenOnce c → IsOpenOnce (check_cache_server_request_map c)
check-IsOpenOnce c s =
    let (_, e, _, _) = check_cache_server_request_map_lem c in
    subst IsOnce (sym e) (without_lost-IsOnce c.request_map s)

pub handle-IsOpenOnce :
    (net : Net) (e : Event) (c : Client) → IsOpenOnce c → Gives IsOpenOnce (handle net e c)
unfolding handle dealwith_master
handle-IsOpenOnce net (from_child message) c s =
    Gives-then IsOpenOnce IsOpenOnce (dealwith_child net message c) _
      (dealwith_child-IsOpenOnce net message c s) check-IsOpenOnce
handle-IsOpenOnce net (from_master message) c s =
    master_fields-IsOpenOnce net (split message sharp) _ s
handle-IsOpenOnce net (from_server message) c s = dealwith_cache_server-IsOpenOnce message c s

-- The loop of `start` over the events that come in.
unfoldable pub handle_all : List (Net × Event) → Client → Result Client
handle_all [] c = ok c
handle_all ((net, e) ∷ es) c = do c ← handle net e c; handle_all es c

handle_all-Gives :
    (es : List (Net × Event)) (c : Client) → IsOpenOnce c → Gives IsOpenOnce (handle_all es c)
unfolding handle_all
handle_all-Gives [] c s = s
handle_all-Gives ((net, e) ∷ es) c s =
    Gives-then IsOpenOnce IsOpenOnce (handle net e c) _ (handle-IsOpenOnce net e c s)
      (handle_all-Gives es)

-- After any events on a new client that end with no fault, no key is twice in the list of open
-- requests of a cache server.
pub handle_all-IsOpenOnce :
    (cache_size mode master_sock : ℕ) (es : List (Net × Event)) (c : Client)
    → handle_all es (init cache_size mode master_sock) ≡ ok c
    → IsOpenOnce c
unfolding init
handle_all-IsOpenOnce cache_size mode master_sock es c h =
    Gives-at IsOpenOnce (handle_all es (init cache_size mode master_sock)) c h
      (handle_all-Gives es (init cache_size mode master_sock) tt)
