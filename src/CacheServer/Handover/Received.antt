-- ===== src/CacheServer/Handover/Received.antt =====
-- What a leaving cache server sends, another one takes over: `to_single_cache` and
-- `from_single_cache` of cache/src/cache.cpp together.
use simple_distributed_cache.Common.{
  ◌<◌, ◌≡◌, ◌≢◌, sym, ap, ◌∙◌, Bool, true, false, some, List, [], ◌∷◌, ◌++◌, Result, ok, ◌>>=◌, Ptr,
  NotIn, All, In, length, arith, if_pos, if_neg,
}
use simple_distributed_cache.Common.Assoc.{lookup}
use simple_distributed_cache.Text.{Bytes, bytes, bytes_discrete, sharp, ne_first}
use simple_distributed_cache.CacheLru.{has}
use simple_distributed_cache.CacheLru.Laws.{lookup-write_self}
use simple_distributed_cache.CacheLru.Put.{put-write}
use simple_distributed_cache.CacheLru.Spec.{write}
use simple_distributed_cache.CacheServer.{CacheServer, from_single_cache}
use simple_distributed_cache.CacheServer.Members.{slice-append}
use simple_distributed_cache.CacheServer.Replica.Sync.{Holds}
use simple_distributed_cache.CacheServer.Startup.Listing.{IsPlain}
use simple_distributed_cache.CacheServer.Handover.{
  caches, hash_of, locate, Hand, Pass, exits, goes_on, leave, is_empty, take_over, pass_round,
}
use simple_distributed_cache.CacheServer.Handover.Leaving.{leave-IsHanded, IsPassable}

-- A primary that knows which server leaves, and has room in its table.
pub record IsHeir (d : CacheServer) : Type 0 where
  pub status : d.status ≡ bytes "P"
  pub ip : is_empty d.dying_cache_ip ≡ false
  pub port : is_empty d.dying_cache_port ≡ false
  pub room : 0 < d.main_cache.capacity

primary-stays : bytes "P" ≢ bytes "K"
primary-stays = ne_first b'P' b'K' [] [] (λ e. omega (arith, e))

-- What the heir does with the text.
taken : (fresh : Ptr) → Bytes → CacheServer → Result Pass
taken fresh message d = do
  d ← from_single_cache fresh message d
  ok (goes_on (record d { cache_list_update_flag = true }))

take_over-taken :
    (d : CacheServer) (fresh : Ptr) (message : Bytes)
    → IsHeir d
    → take_over fresh message d ≡ taken fresh message d
unfolding take_over taken
take_over-taken d fresh message heir =
    ap
      (λ (b : Bool). elim b [
        | true ↦ ok (goes_on d)
        | false ↦ elim (is_empty d.dying_cache_port) [
          | true ↦ ok (goes_on d)
          | false ↦ taken fresh message d
        ]
      ])
      heir.ip
    ∙ ap (λ (b : Bool). elim b [ true ↦ ok (goes_on d) | false ↦ taken fresh message d ]) heir.port

-- The round of `cache_pass` that receives an entry stores it.
received :
    (connects : Bytes → Bytes → Bool) (d : CacheServer) {m : List (Bytes × Bytes)} (fresh : Ptr)
    (key val : Bytes)
    → IsHeir d
    → Holds d m
    → has fresh d.main_cache.heap.used ≡ false
    → NotIn sharp key
    → (d' : CacheServer) × (m' : List (Bytes × Bytes)) × (pass_round connects fresh
          (key ++ sharp ∷ val)
          d
        ≡ ok (goes_on d'))
      × Holds d' m'
      × (lookup bytes_discrete key m' ≡ some val)
unfolding pass_round taken from_single_cache
received connects d {m} fresh key val heir r free plain =
    let (table, e, t, f) = put-write bytes_discrete [] fresh key val r free in
    let stays : d.status ≢ bytes "K" = λ k. primary-stays (sym heir.status ∙ k) in
    (
      record d { main_cache = table; cache_list_update_flag = true },
      (write bytes_discrete [] d.main_cache.capacity key val m).1,
      rw (
        if_neg (bytes_discrete d.status (bytes "K")) stays,
        if_pos (bytes_discrete d.status (bytes "P")) heir.status,
        take_over-taken d fresh (key ++ sharp ∷ val) heir,
        if_neg (bytes_discrete d.status (bytes "K")) stays,
        slice-append key val plain,
        e,
      ),
      t,
      lookup-write_self bytes_discrete [] d.main_cache.capacity key val m heir.room,
    )

-- An entry of a cache server that is told to leave, with a well-formed table and an address in
-- its list, is among the texts that it sends before it ends, to the server that the ring for
-- the list gives the key to; and a primary that knows of a leaving server and has room in its
-- well-formed table, with an address for a new node that is free, stores the entry when it
-- receives this text. Neither faults. No address, port or key has a # in it, every server can
-- be reached, no key of the table has a hash above every point of the ring, and each entry is
-- shorter than the buffer.
pub leave-pass_round :
    (connects : Bytes → Bytes → Bool) (c : CacheServer) {l : List (Bytes × Bytes)}
    (e : Bytes × Bytes) (others : List (Bytes × Bytes))
    → ((ip port : Bytes) → connects ip port ≡ true)
    → Holds c l
    → c.cache_list ≡ e ∷ others
    → All IsPlain (e ∷ others)
    → IsPassable (hash_of (length (caches (e ∷ others)))) l
    → (key val : Bytes) → lookup bytes_discrete key l ≡ some val
    → NotIn sharp key
    → (d : CacheServer) {m : List (Bytes × Bytes)} (fresh : Ptr) → IsHeir d
    → Holds d m
    → has fresh d.main_cache.heap.used ≡ false
    → (hands : List Hand) × (c' : CacheServer) × (h : Hand) × (d' : CacheServer) × (m' : List
        (Bytes × Bytes))
      × (leave connects c ≡ ok (exits hands c'))
      × In h hands
      × (locate (hash_of (length (caches (e ∷ others)))) (caches (e ∷ others)) key
          ≡ ok (h.ip, h.port))
      × (pass_round connects fresh h.text d ≡ ok (goes_on d'))
      × Holds d' m'
      × (lookup bytes_discrete key m' ≡ some val)
leave-pass_round connects c e others reachable r listed plain passable key val found n d fresh heir
      s free =
    let (hands, c', gone, all) =
      leave-IsHanded connects c e others reachable r listed plain passable in
    let (h, i, text, at) = all key val found in
    let (d', m', run, t, stored) = received connects d fresh key val heir s free n in
    (
      hands,
      c',
      h,
      d',
      m',
      gone,
      i,
      at,
      ap (λ x. pass_round connects fresh x d) text ∙ run,
      t,
      stored,
    )
