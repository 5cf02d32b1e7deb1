-- ===== src/Client/Reply.antt =====
-- The client reads the reply of a cache server: `LRU_handle_task` of cache/src/cache.cpp and
-- `dealwith_cache_server` of Client/src/client.cpp together.
use simple_distributed_cache.Common.{
  ℕ, ◌≡◌, ◌≢◌, refl, ◌∙◌, ap, Bool, true, false, some, List, [], ◌∷◌, ◌++◌, NotIn, ok, arith,
  is_some, if_pos, if_neg,
}
use mathlib.Core.List.{append_assoc}
use simple_distributed_cache.Common.Assoc.{lookup, assign}
use simple_distributed_cache.Text.{
  Bytes, bytes, bytes_discrete, sharp, split, join, ne_first, has_char-NotIn,
}
use simple_distributed_cache.Text.Split.{split-field, split-join}
use simple_distributed_cache.LocalLru as Lru
use simple_distributed_cache.Timers.{Timer, stop}
use simple_distributed_cache.Client.{
  Client, Callback, Target, ReSendMassage, erase_item_from_request_map,
}
use simple_distributed_cache.Client.Handlers.{request_text, stop_timer, dealwith_cache_server}
use simple_distributed_cache.Client.Route.{IsRoute}
use simple_distributed_cache.CacheServer.Members.{before-append, behind-append, behind-none}
use simple_distributed_cache.CacheLru.Spec.{read}
use simple_distributed_cache.CacheServer.Spec.{serve, serve_by, serve_read}

-- Three fields and what is behind them.
split-fields :
    (a b c s : Bytes)
    → NotIn sharp a
    → NotIn sharp b
    → NotIn sharp c
    → split (a ++ sharp ∷ (b ++ sharp ∷ (c ++ sharp ∷ s))) sharp ≡ a ∷ b ∷ c ∷ split s sharp
split-fields a b c s n m o =
    split-field sharp a (b ++ sharp ∷ (c ++ sharp ∷ s)) n
    ∙ ap (◌∷◌ a) (split-field sharp b (c ++ sharp ∷ s) m ∙ ap (◌∷◌ b) (split-field sharp c s o))

no_sharp-success : NotIn sharp (bytes "SUCCESS")
no_sharp-success = has_char-NotIn sharp (bytes "SUCCESS") refl

no_sharp-failed : NotIn sharp (bytes "FAILED")
no_sharp-failed = has_char-NotIn sharp (bytes "FAILED") refl

failed : bytes "FAILED" ≢ bytes "SUCCESS"
failed = ne_first b'F' b'S' (bytes "AILED") (bytes "UCCESS") (λ e. omega (arith, e))

-- Whether the server has the key, or gets a value for it.
abbrev pub has_key : (key value : Bytes) → List (Bytes × Bytes) → Bool
has_key key [] l = is_some (lookup bytes_discrete key l)
has_key key (b ∷ v) l = true

-- What the client does on a reply for `key` from the server at `addr`.
module _ (key addr : Bytes) (c : Client) (e : ReSendMassage) (t : Timer Callback Target)
    (entry : lookup bytes_discrete addr c.cache_server_timers ≡ some e)
    (timer : e.timer ≡ some t) where
  abbrev kept : Bool → Lru.LocalLru Bytes Bytes
  kept true = c.local_lru
  kept false = Lru.erase bytes_discrete key c.local_lru

  -- The request is closed and its timer stopped; the key stays in the local table or not.
  abbrev pub closed : Bool → Client
  closed keep = record c {
    request_map = (erase_item_from_request_map addr key c).request_map;
    local_lru = kept keep;
    cache_server_timers =
        assign bytes_discrete addr (record e { timer = some (stop t) }) c.cache_server_timers;
  }

  dealwith-success :
      (message : Bytes) (rest : List Bytes)
      → split message sharp ≡ bytes "SUCCESS" ∷ key ∷ addr ∷ rest
      → dealwith_cache_server message c ≡ ok (closed true)
  unfolding dealwith_cache_server stop_timer erase_item_from_request_map
  dealwith-success message rest h =
      rw (h, if_pos (bytes_discrete (bytes "SUCCESS") (bytes "SUCCESS")) refl, entry, timer)

  dealwith-failed :
      (message : Bytes) (rest : List Bytes)
      → split message sharp ≡ bytes "FAILED" ∷ key ∷ addr ∷ rest
      → dealwith_cache_server message c ≡ ok (closed false)
  unfolding dealwith_cache_server stop_timer erase_item_from_request_map
  dealwith-failed message rest h = rw (
    h,
    if_neg (bytes_discrete (bytes "FAILED") (bytes "SUCCESS")) failed,
    if_pos (bytes_discrete (bytes "FAILED") (bytes "FAILED")) refl,
    entry,
    timer,
  )

  module _ (route : IsRoute key addr) where
    fields :
        (state : Bytes)
        → NotIn sharp state
        → split (state ++ sharp ∷ (key ++ sharp ∷ addr)) sharp ≡ state ∷ key ∷ addr ∷ []
    unfolding join
    fields state n =
        split-join sharp state (key ∷ addr ∷ []) (n, (route.key_chars, (route.addr_chars, tt)))
          route.addr_there

    reads :
        (b : Bool) (l : List (Bytes × Bytes))
        → dealwith_cache_server (serve_read addr key b l).0 c ≡ ok (closed b)
    unfolding serve_read
    reads true l =
        let v = (read bytes_discrete [] key l).0 in
        ap (λ x. dealwith_cache_server (bytes "SUCCESS#" ++ x) c)
          (append_assoc key (sharp ∷ addr) (sharp ∷ v))
        ∙ dealwith-success _ (split v sharp) (
            split-fields (bytes "SUCCESS") key addr v no_sharp-success route.key_chars
              route.addr_chars)
    reads false l = dealwith-failed _ [] (fields (bytes "FAILED") no_sharp-failed)

    -- What the reply of the specification does to the client.
    pub dealwith_cache_server-closed :
        (limit : ℕ) (value : Bytes) (l : List (Bytes × Bytes))
        → dealwith_cache_server (serve limit addr (request_text key value) l).0 c
          ≡ ok (closed (has_key key value l))
    unfolding serve request_text serve_by
    dealwith_cache_server-closed limit [] l =
        ap (λ o. dealwith_cache_server (serve_by limit addr key o l).0 c)
          (behind-none key route.key_chars)
        ∙ reads (is_some (lookup bytes_discrete key l)) l
    dealwith_cache_server-closed limit (b ∷ v) l =
        let text = key ++ sharp ∷ b ∷ v in
        ap (λ o. dealwith_cache_server (serve_by limit addr text o l).0 c)
          (behind-append key (b ∷ v) route.key_chars)
        ∙ ap (λ k. dealwith_cache_server (bytes "SUCCESS#" ++ (k ++ sharp ∷ addr)) c)
            (before-append key (b ∷ v) route.key_chars)
        ∙ dealwith-success _ [] (fields (bytes "SUCCESS") no_sharp-success)
