-- ===== src/CacheServer/Replica/Sync.antt =====
-- A cache server implements what it promises, and a replica that gets the same messages has the same
-- entries.
use simple_distributed_cache.Common.{
  ℕ, ◌==◌, ◌≢◌, All, ◌≡◌, refl, sym, ap, ◌∙◌, Bool, true, false, Option, none, some, List, [], ◌∷◌,
  ◌++◌, Result, ok, ◌>>=◌, Ptr, is_some, arith, length, leb, ◌≤◌, ◌<◌,
}
use mathlib.Core.Path.{subst}
use simple_distributed_cache.Common.Assoc.{lookup}
use simple_distributed_cache.Text.{Bytes, bytes, bytes_discrete, sharp, colon}
use simple_distributed_cache.CacheLru.{check, has}
use simple_distributed_cache.CacheLru.Invariant.{Represents}
use simple_distributed_cache.CacheLru.Spec.{read}
use simple_distributed_cache.CacheLru.Get.{get-read}
use simple_distributed_cache.CacheLru.Put.{put-write}
use simple_distributed_cache.CacheLru.Runs.{Allocator}
use simple_distributed_cache.CacheLru.Check.{check-lookup}
use simple_distributed_cache.CacheServer.{
  CacheServer, before, behind, task, handle_task, reply, buf_size,
}
use simple_distributed_cache.CacheServer.Spec.{serve, serve_by, serve_read}
use simple_distributed_cache.CacheServer.Replica.{client_message, replay, replica_round}

-- The table stands for the list.
abbrev pub Holds : CacheServer → List (Bytes × Bytes) → Type 0
Holds c l = Represents bytes_discrete c.main_cache l

abbrev pub place : CacheServer → Bytes
place c = c.local_cache_ip ++ colon ∷ c.port_for_client

abbrev pub limit : CacheServer → ℕ
limit c = c.main_cache.capacity

-- What a client's message leaves, given what stands behind the `#`: the reply and the entries of the
-- specification.
pub record ServedBy (message : Bytes) (o : Option Bytes) (l : List (Bytes × Bytes))
    (c c' : CacheServer) : Type 0 where
  pub buffer : c'.buffer ≡ (serve_by (limit c) (place c) message o l).0
  pub holds : Holds c' (serve_by (limit c) (place c) message o l).1
  pub limited : limit c' ≡ limit c
  pub placed : place c' ≡ place c
  pub unflagged : c'.cache_list_update_flag ≡ c.cache_list_update_flag

module _ (c : CacheServer) {l : List (Bytes × Bytes)} (r : Holds c l) (fresh : Ptr)
    (free : has fresh c.main_cache.heap.used ≡ false) (message : Bytes) where
  task-read :
      (b : Bool)
      → check bytes_discrete message c.main_cache ≡ b
      → (c' : CacheServer) × (task fresh message none c ≡ ok c') × ServedBy message none l c c'
  unfolding task serve_by serve_read
  task-read false k =
      let known : is_some (lookup bytes_discrete message l) ≡ false =
        sym (check-lookup bytes_discrete message r) ∙ k in
      (
        record c { buffer = bytes "FAILED#" ++ reply message c },
        rw k,
        record {
          buffer = rw known;
          holds = rw known r;
          limited = refl;
          placed = refl;
          unflagged = refl;
        },
      )
  task-read true k =
      let known : is_some (lookup bytes_discrete message l) ≡ true =
        sym (check-lookup bytes_discrete message r) ∙ k in
      let (table, e, t, f) = get-read bytes_discrete [] message r in
      let v = (read bytes_discrete [] message l).0 in
      (
        record c {
          main_cache = table;
          buffer = bytes "SUCCESS#" ++ (reply message c ++ sharp ∷ v);
        },
        rw (k, e),
        record {
          buffer = rw known;
          holds = rw known t;
          limited = f;
          placed = refl;
          unflagged = refl;
        },
      )

  pub task-ServedBy :
      (o : Option Bytes)
      → (c' : CacheServer) × (task fresh message o c ≡ ok c') × ServedBy message o l c c'
  unfolding task serve_by
  task-ServedBy none = task-read (check bytes_discrete message c.main_cache) refl
  task-ServedBy (some val) =
      let key = before message in
      let (table, e, t, f) = put-write bytes_discrete [] fresh key val r free in
      (
        record c { main_cache = table; buffer = bytes "SUCCESS#" ++ reply key c },
        rw e,
        record { buffer = refl; holds = t; limited = f; placed = refl; unflagged = refl },
      )

  replay-read :
      (b : Bool)
      → check bytes_discrete message c.main_cache ≡ b
      → (c' : CacheServer) × (replay fresh message none c ≡ ok c')
        × Holds c' (serve_by (limit c) (place c) message none l).1
        × (limit c' ≡ limit c)
        × (c' ≡ record c { main_cache = c'.main_cache })
  unfolding replay serve_by serve_read
  replay-read false k =
      let known : is_some (lookup bytes_discrete message l) ≡ false =
        sym (check-lookup bytes_discrete message r) ∙ k in
      (c, rw k, rw known r, refl, refl)
  replay-read true k =
      let known : is_some (lookup bytes_discrete message l) ≡ true =
        sym (check-lookup bytes_discrete message r) ∙ k in
      let (table, e, t, f) = get-read bytes_discrete [] message r in
      (record c { main_cache = table }, rw (k, e), rw known t, f, refl)

  -- The replica's table changes as the primary's, and nothing else of it changes.
  pub replay-Holds :
      (o : Option Bytes)
      → (c' : CacheServer) × (replay fresh message o c ≡ ok c')
        × Holds c' (serve_by (limit c) (place c) message o l).1
        × (limit c' ≡ limit c)
        × (c' ≡ record c { main_cache = c'.main_cache })
  unfolding replay serve_by
  replay-Holds none = replay-read (check bytes_discrete message c.main_cache) refl
  replay-Holds (some val) =
      let (table, e, t, f) = put-write bytes_discrete [] fresh (before message) val r free in
      (record c { main_cache = table }, rw e, t, f, refl)

-- The entries that a message leaves do not depend on the server's address.
serve_read_apart :
    (p q key : Bytes) (b : Bool) (l : List (Bytes × Bytes))
    → (serve_read p key b l).1 ≡ (serve_read q key b l).1
unfolding serve_read
serve_read_apart p q key false l = refl
serve_read_apart p q key true l = refl

pub serve_apart :
    (n : ℕ) (p q message : Bytes) (o : Option Bytes) (l : List (Bytes × Bytes))
    → (serve_by n p message o l).1 ≡ (serve_by n q message o l).1
unfolding serve_by
serve_apart n p q message none l =
    serve_read_apart p q message (is_some (lookup bytes_discrete message l)) l
serve_apart n p q message (some val) l = refl

-- A message whose reply fits in the buffer.
pub client_message-task :
    (c c' : CacheServer) (fresh : Ptr) (message : Bytes)
    → task fresh message (behind message) c ≡ ok c'
    → length c'.buffer ≤ buf_size
    → client_message fresh message c
      ≡ ok (record c' { kv_update_flag = true; kv_to_replica = message })
unfolding client_message handle_task
client_message-task c c' fresh message run fits =
    let short : leb (length c'.buffer) buf_size ≡ true = ground (arith, fits) in rw (run, short)

-- Each reply of the specification to the messages, in order, is shorter than the buffer.
abbrev pub RepliesFit : (limit : ℕ) (place : Bytes) → List Bytes → List (Bytes × Bytes) → Type 0
RepliesFit n p [] l = Unit
RepliesFit n p (message ∷ rest) l =
    (length (serve n p message l).0 < buf_size) × RepliesFit n p rest (serve n p message l).1

-- One message of a chat, and what is left to fit.
pub client_message-ServedBy :
    (c : CacheServer) {l : List (Bytes × Bytes)} (fresh : Ptr) (message : Bytes) (rest : List Bytes)
    → Holds c l
    → has fresh c.main_cache.heap.used ≡ false
    → RepliesFit (limit c) (place c) (message ∷ rest) l
    → (c' : CacheServer) × (client_message fresh message c
        ≡ ok (record c' { kv_update_flag = true; kv_to_replica = message }))
      × ServedBy message (behind message) l c c'
      × RepliesFit
          (limit c')
          (place c')
          rest
          (serve_by (limit c) (place c) message (behind message) l).1
unfolding serve
client_message-ServedBy c {l} fresh message rest r free (fits, more) =
    let (c', run, served) = task-ServedBy c r fresh free message (behind message) in
    let l' = (serve_by (limit c) (place c) message (behind message) l).1 in
    (
      c',
      client_message-task c c' fresh message run
          (subst (λ b. length b ≤ buf_size) (sym served.buffer) (omega (arith, fits))),
      served,
      subst (λ n. RepliesFit n (place c') rest l') (sym served.limited)
          (subst (λ p. RepliesFit (limit c) p rest l') (sym served.placed) more),
    )

-- The primary's loop over the messages of its clients, and the replica's over the messages that it
-- gets; `none` where it exits. An address for a new node comes from `new`.
unfoldable pub chat : Allocator → List Bytes → CacheServer → Result CacheServer
chat new [] c = ok c
chat new (message ∷ rest) c = do
  c ← client_message (new.fresh c.main_cache.heap.used) message c
  chat new rest c

abbrev pub and_then :
    Option CacheServer → (CacheServer → Result (Option CacheServer)) → Result (Option CacheServer)
and_then none f = ok none
and_then (some c) f = f c

unfoldable pub follow : Allocator → List Bytes → CacheServer → Result (Option CacheServer)
follow new [] c = ok (some c)
follow new (message ∷ rest) c = do
  next ← replica_round (new.fresh c.main_cache.heap.used) message c
  and_then next (follow new rest)

-- A message with at least one byte, which is not the `#` that marks a list.
abbrev pub IsRequest : Bytes → Type 0
IsRequest [] = ⊥
IsRequest (b ∷ s) = sharp ≢ b

pub replica_round-replay :
    (fresh : Ptr) (message : Bytes) (c c' : CacheServer)
    → IsRequest message
    → replay fresh message (behind message) c ≡ ok c'
    → replica_round fresh message c ≡ ok (some c')
unfolding replica_round
replica_round-replay fresh [] c c' q e = absurd q
replica_round-replay fresh (b ∷ s) c c' q e =
    let other : (b == sharp) ≡ false = ground (arith, q) in rw (other, e)

-- A replica with the entries and the capacity of its primary that gets the messages of the
-- primary's clients in order never exits, and has the entries of the primary behind them;
-- neither faults. Each message has at least one byte and does not start with #, and each reply
-- of the primary is shorter than its send buffer.
pub follow-chat :
    (new : Allocator) (messages : List Bytes) (c d : CacheServer) {l : List (Bytes × Bytes)}
    → Holds c l
    → Holds d l
    → limit d ≡ limit c
    → All IsRequest messages
    → RepliesFit (limit c) (place c) messages l
    → (c' : CacheServer) × (d' : CacheServer) × (l' : List (Bytes × Bytes)) × (chat new messages c
        ≡ ok c')
      × (follow new messages d ≡ ok (some d'))
      × Holds c' l'
      × Holds d' l'
unfolding chat follow
follow-chat new [] c d {l} r s e q fits = (c, d, l, refl, refl, r, s)
follow-chat new (message ∷ rest) c d {l} r s e (q, qs) fits =
    let o = behind message in
    let free' = new.fresh_free d.main_cache.heap.used in
    let (c', step, served, more) =
      client_message-ServedBy c (new.fresh c.main_cache.heap.used) message rest r
        (new.fresh_free c.main_cache.heap.used) fits in
    let (d', run', held, kept, _) =
      replay-Holds d s (new.fresh d.main_cache.heap.used) free' message o in
    let c'' : CacheServer = record c' { kv_update_flag = true; kv_to_replica = message } in
    let step' = replica_round-replay (new.fresh d.main_cache.heap.used) message d d' q run' in
    let same : (serve_by (limit d) (place d) message o l).1
        ≡ (serve_by (limit c) (place c) message o l).1 =
      ap (λ n. (serve_by n (place d) message o l).1) e
      ∙ serve_apart (limit c) (place d) (place c) message o l in
    let (c1, d1, l1, f, g, u, v) =
      follow-chat new rest c'' d' served.holds (subst (Holds d') same held)
        (kept ∙ e ∙ sym served.limited) qs more in
    (c1, d1, l1, rw (step, f), rw (step', g), u, v)
