-- ===== src/Witnesses/Replication.antt =====
-- Tests of the cache server's task, its replica and its hand-over on concrete inputs.
use simple_distributed_cache.Common.{
  In, Bool, true, sym, ◌<◌, ℕ, ◌≡◌, refl, none, some, List, [], ◌∷◌, ok, arith, length, ℕ_discrete,
  ◌++◌,
}
use mathlib.Core.Path.{subst}
use simple_distributed_cache.Common.Assoc.{lookup, erase}
use simple_distributed_cache.Ring.{murmur3_32, initialize}
use simple_distributed_cache.Ring.Exact.{empty_ring}
use simple_distributed_cache.Ring.Server.{Reaches}
use simple_distributed_cache.Witnesses.Hashing.{key-Reaches}
use simple_distributed_cache.Text.{Bytes, bytes, bytes_discrete, sharp}
use simple_distributed_cache.CacheLru as Table
use simple_distributed_cache.CacheLru.{Lru, has, put}
use simple_distributed_cache.CacheLru.Spec.{read, write}
use simple_distributed_cache.CacheLru.Invariant.{Represents, init-Represents}
use simple_distributed_cache.CacheLru.Put.{put-write}
use simple_distributed_cache.CacheServer.{CacheServer, before, behind, buf_size}
use simple_distributed_cache.CacheServer.Spec.{serve, serve_by, serve_read}
use simple_distributed_cache.CacheServer.Replica.{
  has_pair, primary_round, replica_round, entries_text,
}
use simple_distributed_cache.CacheServer.Replica.Sync.{
  Holds, RepliesFit, place, chat, follow, follow-chat,
}
use simple_distributed_cache.CacheServer.Replica.Loss.{
  replica_round-entries_text, primary_round-chat,
}
use simple_distributed_cache.CacheServer.Handover.{
  caches, hash_of, locate, Hand, exits, goes_on, leave, pass_round,
}
use simple_distributed_cache.CacheServer.Handover.Leaving.{IsPassable}
use simple_distributed_cache.CacheServer.Handover.Received.{IsHeir, leave-pass_round}
use simple_distributed_cache.Witnesses.CacheTable.{new, above_free}
use simple_distributed_cache.Witnesses.Server.{here}

abbrev pub entries : List (Bytes × Bytes)
entries = (bytes "A1B", bytes "v") ∷ []

-- A table with one entry, made by `put`.
pub stored :
    (t : Lru Bytes Bytes) × (put bytes_discrete []
        (new.fresh here.main_cache.heap.used)
        (bytes "A1B")
        (bytes "v")
        here.main_cache
      ≡ ok ((write bytes_discrete [] here.main_cache.capacity (bytes "A1B") (bytes "v") []).0, t))
    × Represents bytes_discrete t
        (write bytes_discrete [] here.main_cache.capacity (bytes "A1B") (bytes "v") []).1
    × (t.capacity ≡ here.main_cache.capacity)
stored =
    put-write bytes_discrete [] (new.fresh here.main_cache.heap.used) (bytes "A1B") (bytes "v")
      (init-Represents bytes_discrete [] [] 1 2 10 _ (omega arith))
      (above_free here.main_cache.heap.used)

abbrev pub full : CacheServer
full = record here { main_cache = stored.0 }

pub full-Holds : Holds full entries
unfolding write lookup Table.init
full-Holds = stored.2

abbrev table_limit : ℕ
table_limit = full.main_cache.capacity

-- The replies fit, given the capacity as it was before.
fits_at :
    (ms : List Bytes)
    → RepliesFit 10 (bytes "h:80") ms entries
    → RepliesFit table_limit (place full) ms entries
unfolding Table.init
fits_at ms = subst (λ n. RepliesFit n (bytes "h:80") ms entries) (sym stored.3)

abbrev messages : List Bytes
messages = bytes "C2D#w" ∷ bytes "A1B" ∷ bytes "E3F" ∷ []

messages_fit : RepliesFit 10 (bytes "h:80") messages entries
unfolding serve serve_by serve_read read write before behind lookup erase bytes_discrete ℕ_discrete
messages_fit = (omega arith, (omega arith, (omega arith, tt)))

others_fit : RepliesFit 10 (bytes "h:80") (bytes "C2D#w" ∷ bytes "A1B" ∷ bytes "E3F#x" ∷ []) entries
unfolding serve serve_by serve_read read write before behind lookup erase bytes_discrete ℕ_discrete
others_fit = (omega arith, (omega arith, (omega arith, tt)))

follow-chat_example :
    (c' : CacheServer) × (d' : CacheServer) × (l' : List (Bytes × Bytes)) × (chat new messages full
      ≡ ok c')
    × (follow new messages full ≡ ok (some d'))
    × Holds c' l'
    × Holds d' l'
follow-chat_example =
    follow-chat new messages full full full-Holds full-Holds refl
      (λ e. omega (arith, e), (λ e. omega (arith, e), (λ e. omega (arith, e), tt)))
      (fits_at messages messages_fit)

replica_round-entries_text_example :
    replica_round 3
      (sharp ∷ entries_text ((bytes "a", bytes "1") ∷ (bytes "b", bytes "2") ∷ []))
      here
    ≡ ok none
unfolding has_pair bytes_discrete ℕ_discrete
replica_round-entries_text_example =
    replica_round-entries_text 3 ((bytes "a", bytes "1") ∷ (bytes "b", bytes "2") ∷ []) here tt
      (
        ((λ e. omega arith, tt), (λ e. omega arith, tt)),
        (((λ e. omega arith, tt), (λ e. omega arith, tt)), tt),
      )
      refl

primary_round-chat_example :
    (c' : CacheServer) × (chat new (bytes "C2D#w" ∷ bytes "A1B" ∷ bytes "E3F#x" ∷ []) full ≡ ok c')
    × ((primary_round c').0 ≡ bytes "E3F#x" ∷ [])
primary_round-chat_example =
    primary_round-chat new (bytes "C2D#w" ∷ bytes "A1B" ∷ []) (bytes "E3F#x") full full-Holds refl
      (fits_at (bytes "C2D#w" ∷ bytes "A1B" ∷ bytes "E3F#x" ∷ []) others_fit)

abbrev heir : CacheServer
heir = record full { dying_cache_ip = bytes "h"; dying_cache_port = bytes "81" }

heir-IsHeir : IsHeir heir
unfolding Table.init
heir-IsHeir = record { status = refl; ip = refl; port = refl; room = rw stored.3 (omega arith) }

-- Every server is reached.
abbrev connects : Bytes → Bytes → Bool
connects ip port = true

entries-IsPassable : IsPassable (hash_of (length (caches ((bytes "a", bytes "1") ∷ [])))) entries
unfolding hash_of caches lookup
entries-IsPassable key val found = elim (bytes_discrete key (bytes "A1B")) [
  | yes p ↦
      let value : bytes "v" ≡ val = ground (arith, p, found) in
      (
        subst (λ k. Reaches (murmur3_32 k) (initialize 1 100 empty_ring).points) (sym p)
            key-Reaches,
        subst (λ k. length (k ++ sharp ∷ val) < buf_size) (sym p)
            (subst (λ v. length (bytes "A1B" ++ sharp ∷ v) < buf_size) value (omega arith)),
      )
  | no n ↦ absurd (ground (arith, n, found))
]

-- A server hands the key to another one whose table has it too.
leave-pass_round_example :
    (hands : List Hand) × (c' : CacheServer) × (h : Hand) × (d' : CacheServer) × (m' : List
      (Bytes × Bytes))
    × (leave connects full ≡ ok (exits hands c'))
    × In h hands
    × (locate
          (hash_of (length (caches ((bytes "a", bytes "1") ∷ []))))
          (caches ((bytes "a", bytes "1") ∷ []))
          (bytes "A1B")
        ≡ ok (h.ip, h.port))
    × (pass_round connects (new.fresh heir.main_cache.heap.used) h.text heir ≡ ok (goes_on d'))
    × Holds d' m'
    × (lookup bytes_discrete (bytes "A1B") m' ≡ some (bytes "v"))
unfolding lookup bytes_discrete ℕ_discrete
leave-pass_round_example =
    leave-pass_round connects full (bytes "a", bytes "1") [] (λ ip port. refl) full-Holds refl
      (((λ e. omega arith, tt), (λ e. omega arith, tt)), tt) entries-IsPassable (bytes "A1B")
      (bytes "v") refl (λ e. omega arith, (λ e. omega arith, (λ e. omega arith, tt))) heir
      (new.fresh heir.main_cache.heap.used) heir-IsHeir full-Holds
      (above_free heir.main_cache.heap.used)
