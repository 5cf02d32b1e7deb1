-- ===== src/Client/Closing.antt =====
-- What a reply of a cache server closes: `dealwith_cache_server` of Client/src/client.cpp with
-- `LRU_handle_task` of cache/src/cache.cpp.
use simple_distributed_cache.Common.{
  ℕ, ◌≡◌, ◌≢◌, refl, sym, ◌∙◌, ap, Bool, true, false, none, some, Option, List, [], ◌∷◌, NotIn, ok,
  arith, if_pos, if_neg, if◌then◌else◌,
}
use mathlib.Core.Path.{subst}
use simple_distributed_cache.Common.Assoc.{lookup, lookup-assign, lookup-erase}
use simple_distributed_cache.Text.{Bytes, bytes_discrete}
use simple_distributed_cache.LocalLru as Lru
use simple_distributed_cache.LocalLru.Invariant.{held}
use simple_distributed_cache.Timers.{Timer, stop}
use simple_distributed_cache.Client.{
  Client, Callback, Target, ReSendMassage, erase_item_from_request_map, erase_found, erase_once,
}
use simple_distributed_cache.Client.Handlers.{request_text, dealwith_cache_server}
use simple_distributed_cache.Client.Route.{IsRoute}
use simple_distributed_cache.Client.Once.{keys_of}
use simple_distributed_cache.Client.Open.{IsOpenOnce, open_at, erase_item-NotIn}
use simple_distributed_cache.Client.Reply.{closed, has_key, dealwith_cache_server-closed}
use simple_distributed_cache.CacheServer.Spec.{serve}

-- The other keys of the server, and the other servers.
erase_once_other :
    (key k : Bytes) (keys : List Bytes) → k ≢ key → NotIn k (erase_once key keys) → NotIn k keys
unfolding erase_once
erase_once_other key k [] n h = tt
erase_once_other key k (x ∷ keys) n h = elim (bytes_discrete key x) [
  | yes p ↦
      let out = subst (NotIn k) (if_pos (bytes_discrete key x) p _ _) h in
      ((λ e. n (e ∙ sym p)), out)
  | no q ↦
      let out = subst (NotIn k) (if_neg (bytes_discrete key x) q _ _) h in
      (out.0, erase_once_other key k keys n out.1)
]

erase_found_key :
    (addr key k : Bytes) (m : List (Bytes × List Bytes)) (o : Option (List Bytes))
    → lookup bytes_discrete addr m ≡ o
    → k ≢ key
    → NotIn k (keys_of (lookup bytes_discrete addr (erase_found addr key o m)))
    → NotIn k (keys_of (lookup bytes_discrete addr m))
erase_found_key addr key k m none h n out = out
erase_found_key addr key k m (some keys) h n out =
    let w = lookup-assign bytes_discrete addr addr (erase_once key keys) m in
    let found = w ∙ if_pos (bytes_discrete addr addr) refl (some (erase_once key keys)) _ in
    subst (λ o. NotIn k (keys_of o)) (sym h)
      (erase_once_other key k keys n (subst (λ o. NotIn k (keys_of o)) found out))

erase_found_other :
    (addr q key : Bytes) (m : List (Bytes × List Bytes)) (o : Option (List Bytes))
    → q ≢ addr
    → lookup bytes_discrete q (erase_found addr key o m) ≡ lookup bytes_discrete q m
erase_found_other addr q key m none n = refl
erase_found_other addr q key m (some keys) n =
    lookup-assign bytes_discrete q addr (erase_once key keys) m
    ∙ if_neg (bytes_discrete q addr) n _ _

erase-held_self :
    (key : Bytes) (l : Lru.LocalLru Bytes Bytes)
    → held bytes_discrete key (Lru.erase bytes_discrete key l) ≡ none
unfolding held Lru.erase
erase-held_self key l = let w = lookup-erase bytes_discrete key key l.index in ground (arith, w)

erase-held_other :
    (key k : Bytes) (l : Lru.LocalLru Bytes Bytes)
    → k ≢ key
    → held bytes_discrete k (Lru.erase bytes_discrete key l) ≡ held bytes_discrete k l
unfolding held Lru.erase
erase-held_other key k l n =
    let w = lookup-erase bytes_discrete k key l.index ∙ if_neg (bytes_discrete k key) n _ _ in
    ground (arith, w)

abbrev kept : Bytes → Lru.LocalLru Bytes Bytes → Bool → Lru.LocalLru Bytes Bytes
kept key l true = l
kept key l false = Lru.erase bytes_discrete key l

kept-held_self :
    (key : Bytes) (b : Bool) (l : Lru.LocalLru Bytes Bytes)
    → held bytes_discrete key (kept key l b) ≡ (if b then held bytes_discrete key l else none)
kept-held_self key true l = refl
kept-held_self key false l = erase-held_self key l

kept-held_other :
    (key k : Bytes) (b : Bool) (l : Lru.LocalLru Bytes Bytes)
    → k ≢ key
    → held bytes_discrete k (kept key l b) ≡ held bytes_discrete k l
kept-held_other key k true l n = refl
kept-held_other key k false l n = erase-held_other key k l n

-- What the client has open, times and holds behind a reply for the key from the server.
pub record IsClosed (key addr : Bytes) (keep : Bool) (c c' : Client) : Type 0 where
  pub not_open : NotIn key (open_at addr c')
  pub others_open : (k : Bytes) → k ≢ key → NotIn k (open_at addr c') → NotIn k (open_at addr c)
  pub elsewhere : (q : Bytes) → q ≢ addr → open_at q c' ≡ open_at q c
  pub entry : ReSendMassage
  pub timer : Timer Callback Target
  pub listed : lookup bytes_discrete addr c'.cache_server_timers ≡ some entry
  pub timed : entry.timer ≡ some timer
  pub stopped : timer.running ≡ false
  pub held_key :
      held bytes_discrete key c'.local_lru
      ≡ (if keep then held bytes_discrete key c.local_lru else none)
  pub held_others :
      (k : Bytes) → k ≢ key → held bytes_discrete k c'.local_lru ≡ held bytes_discrete k c.local_lru

module _ (key addr : Bytes) (c : Client) (e : ReSendMassage) (t : Timer Callback Target)
    (entry : lookup bytes_discrete addr c.cache_server_timers ≡ some e)
    (timer : e.timer ≡ some t) where
  closed-IsClosed :
      (b : Bool) → IsOpenOnce c → IsClosed key addr b c (closed key addr c e t entry timer b)
  unfolding erase_item_from_request_map
  closed-IsClosed b once = record {
    not_open = erase_item-NotIn addr key c once;
    others_open = λ k n. erase_found_key addr key k c.request_map _ refl n;
    elsewhere = λ q n. ap keys_of (erase_found_other addr q key c.request_map _ n);
    entry = record e { timer = some (stop t) };
    timer = stop t;
    listed =
        lookup-assign bytes_discrete addr addr (record e { timer = some (stop t) })
          c.cache_server_timers
        ∙ if_pos (bytes_discrete addr addr) refl _ _;
    timed = refl;
    stopped = refl;
    held_key = kept-held_self key b c.local_lru;
    held_others = λ k n. kept-held_other key k b c.local_lru n;
  }

  -- The reply that the specification of a cache server gives to a request of the client, for a
  -- key and an address with no # in them, is read with no fault and closes the request: the key
  -- is no longer open at this server, the other open requests there and elsewhere stay, the
  -- timer of the server is stopped, and the local table forgets the key exactly where the
  -- server was asked for a value that it does not have, and no other key. The client has a
  -- timer for the server, and no key is twice in a list of open requests.
  pub dealwith_cache_server-serve :
      IsRoute key addr
      → IsOpenOnce c
      → (limit : ℕ) (value : Bytes) (l : List (Bytes × Bytes))
      → (c' : Client) × (dealwith_cache_server (serve limit addr (request_text key value) l).0 c
          ≡ ok c')
        × IsClosed key addr (has_key key value l) c c'
  dealwith_cache_server-serve r once limit value l = (
    closed key addr c e t entry timer (has_key key value l),
    dealwith_cache_server-closed key addr c e t entry timer r limit value l,
    closed-IsClosed (has_key key value l) once,
  )
