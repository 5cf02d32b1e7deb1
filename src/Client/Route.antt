-- ===== src/Client/Route.antt =====
-- What the client learns from the master it uses for its next request.
use simple_distributed_cache.Common.{
  ◌≡◌, refl, ◌∙◌, ◌≢◌, [], ◌∷◌, ◌++◌, if◌then◌else◌, arith, some, ok, if_pos, NotIn,
}
use simple_distributed_cache.Text.{Bytes, bytes, bytes_discrete, join, sharp, split, has_char-NotIn}
use simple_distributed_cache.Text.Split.{split-join}
use simple_distributed_cache.LocalLru.Invariant.{held, get-held}
use simple_distributed_cache.LocalLru.Indexed.{IsTight, put-Stores}
use simple_distributed_cache.Common.Assoc.{lookup}
use simple_distributed_cache.Timers.{Timer, stop}
use simple_distributed_cache.Client.{
  Client, Callback, Target, ReSendMassage, Packet, Net, parse_str_addr,
}
use simple_distributed_cache.Client.Handlers.{
  send_request_to_cache_server, request_text, request_in_mode, dealwith_child, dealwith_master,
  master_fields,
}
use simple_distributed_cache.Client.Request.{IsArmed, send_request_to_cache_server-Requested}

-- The master's answer to a key, and what the child process writes.
abbrev pub master_answer : (key addr : Bytes) → Bytes
master_answer key addr = join sharp (bytes "MASTER") (key ∷ addr ∷ [])

abbrev pub child_message : Bytes → Bytes
child_message key = join sharp (bytes "CHILD") (key ∷ [])

-- The key and the address can stand in a message, and the address has a port.
pub record IsRoute (key addr : Bytes) : Type 0 where
  pub key_chars : NotIn sharp key
  pub key_there : key ≢ []
  pub addr_chars : NotIn sharp addr
  pub addr_there : addr ≢ []
  pub ip_port : Bytes × Bytes
  pub parsed : parse_str_addr addr ≡ ok ip_port

-- A reading client whose tables are well-formed.
pub record IsReader (c : Client) : Type 0 where
  pub mode : c.mode ≡ b'r'
  pub armed : IsArmed c
  pub tight : IsTight bytes_discrete c.local_lru

no_sharp-master : NotIn sharp (bytes "MASTER")
no_sharp-master = has_char-NotIn sharp (bytes "MASTER") refl

pub no_sharp-child : NotIn sharp (bytes "CHILD")
no_sharp-child = has_char-NotIn sharp (bytes "CHILD") refl

request_reads :
    (net : Net) (addr key : Bytes) (c : Client)
    → c.mode ≡ b'r'
    → request_in_mode net addr key c ≡ send_request_to_cache_server net addr key [] c
unfolding request_in_mode
request_reads net addr key c m = rw m

module _ {key addr : Bytes} (r : IsRoute key addr) where
  answer-split : split (master_answer key addr) sharp ≡ bytes "MASTER" ∷ key ∷ addr ∷ []
  answer-split =
      split-join sharp (bytes "MASTER") (key ∷ addr ∷ [])
        (no_sharp-master, (r.key_chars, (r.addr_chars, tt))) r.addr_there

  child-split : split (child_message key) sharp ≡ bytes "CHILD" ∷ key ∷ []
  child-split =
      split-join sharp (bytes "CHILD") (key ∷ []) (no_sharp-child, (r.key_chars, tt)) r.key_there

  -- On the master's answer the client stores the address and sends the key there.
  pub dealwith_master-Requested :
      (net : Net) {c : Client}
      → IsReader c
      → c.local_lru.max_size ≢ 0
      → (c' : Client) × (dealwith_master net (master_answer key addr) c ≡ ok c')
        × IsReader c'
        × (held bytes_discrete key c'.local_lru ≡ some addr)
        × (c'.sent ≡ (if net.connects then c.sent ++ Packet.to_server addr key ∷ [] else c.sent))
        × (e : ReSendMassage) × (t : Timer Callback Target) × (lookup bytes_discrete addr
              c'.cache_server_timers
            ≡ some e)
        × (e.timer ≡ some t)
  unfolding dealwith_master master_fields request_text
  dealwith_master-Requested net {c} s room =
      let (local, e, t) = put-Stores bytes_discrete s.tight key addr in
      let d : Client = record c { local_lru = local; master_timer = stop c.master_timer } in
      let (c', f, q) =
        send_request_to_cache_server-Requested net addr key [] d r.ip_port r.parsed s.armed in
      let found : held bytes_discrete key local ≡ some addr = ground (arith, t.found) in
      (
        c',
        rw (answer-split, if_pos (bytes_discrete (bytes "MASTER") (bytes "MASTER")) refl, e)
            (request_reads net addr key d s.mode ∙ f),
        record { mode = q.mode ∙ s.mode; armed = q.armed; tight = rw q.local_lru t.tight },
        rw q.local_lru found,
        q.sent,
        q.entry,
        q.timer,
        q.listed,
        q.timed,
      )

  -- A key that the local table holds goes to the server at its address.
  dealwith_child-found :
      (net : Net) {c : Client}
      → IsReader c
      → held bytes_discrete key c.local_lru ≡ some addr
      → (c' : Client) × (dealwith_child net (child_message key) c ≡ ok c')
        × (c'.sent ≡ (if net.connects then c.sent ++ Packet.to_server addr key ∷ [] else c.sent))
  unfolding dealwith_child request_text
  dealwith_child-found net {c} s h =
      let (local, e, v, same, there) = get-held bytes_discrete key s.tight.valid in
      let d : Client = record c { local_lru = local } in
      let (c', f, q) =
        send_request_to_cache_server-Requested net addr key [] d r.ip_port r.parsed s.armed in
      (
        c',
        rw (child-split, if_pos (bytes_discrete (bytes "CHILD") (bytes "CHILD")) refl, e, h)
            (request_reads net addr key d s.mode ∙ f),
        q.sent,
      )

  -- Once the master has answered a reading client with well-formed tables and a capacity that
  -- is not 0, the client stores the address and sends the key to the server there, where it can
  -- be reached, and at its next request for the key sends it there again, where it can be
  -- reached then, without asking the master; neither handler faults. The key and the address
  -- have no separator in them and are not empty, and the address has a port.
  pub dealwith_master-dealwith_child :
      (net next : Net) {c : Client}
      → IsReader c
      → c.local_lru.max_size ≢ 0
      → let to = Packet.to_server addr key in
        (c' : Client) × (c'' : Client) × (dealwith_master net (master_answer key addr) c ≡ ok c')
        × (dealwith_child next (child_message key) c' ≡ ok c'')
        × (c'.sent ≡ (if net.connects then c.sent ++ to ∷ [] else c.sent))
        × (c''.sent ≡ (if next.connects then c'.sent ++ to ∷ [] else c'.sent))
  dealwith_master-dealwith_child net next s room =
      let (c', e, t, h, p, _, _, _, _) = dealwith_master-Requested net s room in
      let (c'', f, q) = dealwith_child-found next t h in (c', c'', e, f, p, q)
