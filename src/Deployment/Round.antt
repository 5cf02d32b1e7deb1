-- ===== src/Deployment/Round.antt =====
-- A client's first request for a key, from the child process to the reply of the cache server: the
-- handlers of Client/src/client.cpp, `start_client` of master/mastertry/master.cpp and
-- `LRU_handle_task` of cache/src/cache.cpp together.
use simple_distributed_cache.Common.{
  ℕ, ◌≡◌, ◌≢◌, ◌∙◌, ap, true, false, none, some, List, [], ◌∷◌, ◌++◌, NotIn, ok, is_some,
  if◌then◌else◌, Ptr, Gives-at,
}
use simple_distributed_cache.Common.Assoc.{lookup}
use simple_distributed_cache.Text.{Bytes, bytes_discrete, sharp}
use simple_distributed_cache.LocalLru.Invariant.{held}
use simple_distributed_cache.Client.{Client, Packet, Net}
use simple_distributed_cache.Client.Handlers.{from_master, from_server, handle, request_text}
use simple_distributed_cache.Client.Route.{IsReader, master_answer, dealwith_master-Requested}
use simple_distributed_cache.Client.Reply.{closed, dealwith_cache_server-closed}
use simple_distributed_cache.Master.{Master, answer_client}
use simple_distributed_cache.Master.Serve.{Answers}
use simple_distributed_cache.CacheLru.{has}
use simple_distributed_cache.CacheServer.{CacheServer}
use simple_distributed_cache.CacheServer.Replica.{client_message, reply_read}
use simple_distributed_cache.Ring.{murmur3_32}
use simple_distributed_cache.Ring.Server.{Reaches}
use mathlib.Core.List.{append-nil}
use simple_distributed_cache.CacheServer.Spec.{serve}
use simple_distributed_cache.CacheServer.Replica.Sync.{
  Holds, place, limit, RepliesFit, client_message-ServedBy,
}
use simple_distributed_cache.Client.Open.{IsOpenOnce, open_at, handle-IsOpenOnce, erase_item-NotIn}
use simple_distributed_cache.Deployment.{IsDeployed}
use simple_distributed_cache.Deployment.Steps.{master_tells, placed-IsRoute, held_closed}

-- From the master's answer on: the client asks the cache server of the answer, and the reply closes
-- the request.
pub answered_round :
    (next : Net) (client_fd : ℕ) (fresh : ℕ → Ptr) (key : Bytes) (c : Client) (m : Master)
    (s : ℕ → CacheServer) (l : ℕ → List (Bytes × Bytes))
    → IsReader c
    → c.local_lru.max_size ≢ 0
    → next.connects ≡ true
    → IsOpenOnce c
    → IsDeployed m s
    → Reaches (murmur3_32 key) m.hash.points
    → ((fd : ℕ) → Holds (s fd) (l fd))
    → ((fd : ℕ) → has (fresh fd) (s fd).main_cache.heap.used ≡ false)
    → ((fd : ℕ) → RepliesFit (limit (s fd)) (place (s fd)) (key ∷ []) (l fd))
    → NotIn sharp key
    → key ≢ []
    → (answer : Bytes) × (q : Answers key m answer) × (m' : Master) × (c' : Client)
      × (s' : CacheServer) × (c'' : Client) × let addr = place (s q.fd) in
          let served = serve (s q.fd).main_cache.capacity addr key (l q.fd) in
          (answer_client client_fd key m ≡ ok m')
          × (m'.sent ≡ m.sent ++ (client_fd, master_answer key addr) ∷ [])
          × (handle next (from_master (master_answer key addr)) c ≡ ok c')
          × (c'.sent ≡ c.sent ++ Packet.to_server addr key ∷ [])
          × (client_message (fresh q.fd) key (s q.fd) ≡ ok s')
          × (s'.buffer ≡ served.0)
          × Holds s' served.1
          × (handle next (from_server (reply_read [] s')) c' ≡ ok c'')
          × (held bytes_discrete key c''.local_lru
              ≡ (if is_some (lookup bytes_discrete key (l q.fd)) then some addr else none))
          × NotIn key (open_at addr c'')
unfolding handle request_text reply_read serve
answered_round next client_fd fresh key c m s l reader room connects once d reaches holds free fits
      chars full =
    let (answer, m', q, told, text) = master_tells key m s d reaches client_fd in
    let r = placed-IsRoute key (s q.fd) (d.placed q.fd) chars full in
    let (c', requested, reader', found, sent, e, t, entry, timer) =
      dealwith_master-Requested r next reader room in
    let (t', handled, served, _) =
      client_message-ServedBy (s q.fd) (fresh q.fd) key [] (holds q.fd) (free q.fd) (fits q.fd) in
    let s' : CacheServer = record t' { kv_update_flag = true; kv_to_replica = key } in
    let place' = place (s q.fd) in
    let once' =
      Gives-at IsOpenOnce (handle next (from_master (master_answer key place')) c) c' requested
        (handle-IsOpenOnce next (from_master (master_answer key place')) c once) in
    let b = is_some (lookup bytes_discrete key (l q.fd)) in
    (
      answer,
      q,
      m',
      c',
      s',
      closed key place' c' e t entry timer b,
      (
        told,
        text,
        requested,
        sent ∙ ap (λ b. if b then c.sent ++ Packet.to_server place' key ∷ [] else c.sent) connects,
        handled,
        served.buffer,
        served.holds,
        ap (λ x. handle next (from_server x) c') (append-nil s'.buffer ∙ served.buffer)
            ∙ dealwith_cache_server-closed key place' c' e t entry timer r
                (s q.fd).main_cache.capacity [] (l q.fd),
        held_closed key place' c' e t entry timer found b,
        erase_item-NotIn place' key c' once',
      ),
    )
