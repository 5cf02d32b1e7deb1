-- ===== src/Client/Request.antt =====
-- Requests to the cache servers: when they cannot fault, and what they change.
use simple_distributed_cache.Common.{
  ◌+◌, ◌≡◌, refl, ap, [], ◌∷◌, ◌++◌, if◌then◌else◌, arith, Option, none, some, ok, ◌>>=◌, of_option,
  if_pos, ◌∙◌,
}
use simple_distributed_cache.Common.Assoc.{lookup, assign, lookup-assign}
use simple_distributed_cache.Text.{Bytes, bytes_discrete}
use simple_distributed_cache.Timers.{Timer, start, reset}
use simple_distributed_cache.Client.{
  Client, Callback, Target, ReSendMassage, Packet, Net, parse_str_addr, add_item_to_request_map,
}
use simple_distributed_cache.Client.Handlers.{arm, send_request_to_cache_server, request_text}

-- Every entry of the table of timers has a timer.
abbrev pub IsArmed : Client → Type 0
IsArmed c =
    (addr : Bytes) (e : ReSendMassage)
    → lookup bytes_discrete addr c.cache_server_timers ≡ some e
    → (t : Timer Callback Target) × (e.timer ≡ some t)

-- What a request for `key` at the server `addr`, with the text `text`, leaves.
pub record Requested (net : Net) (addr key text : Bytes) (c c' : Client) : Type 0 where
  pub sent : c'.sent ≡ (if net.connects then c.sent ++ Packet.to_server addr text ∷ [] else c.sent)
  pub request_map : c'.request_map ≡ (add_item_to_request_map addr key c).request_map
  pub local_lru : c'.local_lru ≡ c.local_lru
  pub mode : c'.mode ≡ c.mode
  pub armed : IsArmed c'
  pub entry : ReSendMassage
  pub timer : Timer Callback Target
  pub listed : lookup bytes_discrete addr c'.cache_server_timers ≡ some entry
  pub timed : entry.timer ≡ some timer

arm-ok :
    (net : Net) (addr text : Bytes) (o : Option ReSendMassage)
    → ((e : ReSendMassage) → o ≡ some e → (t : Timer Callback Target) × (e.timer ≡ some t))
    → (e : ReSendMassage) × (t : Timer Callback Target) × (arm net addr text o ≡ ok e)
      × (e.timer ≡ some t)
unfolding arm
arm-ok net addr text none s = (_, _, refl, refl)
arm-ok net addr text (some e) s =
    let (t, i) = s e refl in
    let renew = λ (timer : Timer Callback Target). record e {
      sock = net.new_sock;
      massage = text;
      timer = some (start (reset timer));
      num = e.num + 1;
    } in
    (renew t, start (reset t), ap (λ o. of_option o >>= λ timer. ok (renew timer)) i, refl)

-- The state behind a request, given the entry of the table of timers.
unfoldable requested : Net → (addr key text : Bytes) → ReSendMassage → Client → Client
requested net addr key text e c = record c {
  request_map = (add_item_to_request_map addr key c).request_map;
  cache_sever_sock = net.new_sock;
  sent = if net.connects then c.sent ++ Packet.to_server addr text ∷ [] else c.sent;
  cache_server_timers = assign bytes_discrete addr e c.cache_server_timers;
}

requested-IsArmed :
    (net : Net) (addr key text : Bytes) (e : ReSendMassage) (t : Timer Callback Target) (c : Client)
    → IsArmed c
    → e.timer ≡ some t
    → IsArmed (requested net addr key text e c)
unfolding requested
requested-IsArmed net addr key text e t c s j q d f =
    let w = lookup-assign bytes_discrete q addr e c.cache_server_timers in
    elim (bytes_discrete q addr) [
      | yes p ↦ (t, ground (arith, w))
      | no n ↦ s q d (ground (arith, w))
    ]

-- A request cannot fault where the address has a port and the timers are there.
pub send_request_to_cache_server-Requested :
    (net : Net) (addr key value : Bytes) (c : Client) (ip_port : Bytes × Bytes)
    → parse_str_addr addr ≡ ok ip_port
    → IsArmed c
    → (c' : Client) × (send_request_to_cache_server net addr key value c ≡ ok c')
      × Requested net addr key (request_text key value) c c'
unfolding send_request_to_cache_server add_item_to_request_map requested
send_request_to_cache_server-Requested net addr key value c ip_port h s =
    let text = request_text key value in
    let (e, t, i, j) =
      arm-ok net addr text (lookup bytes_discrete addr c.cache_server_timers) (s addr) in
    (
      requested net addr key text e c,
      rw (h, i),
      record {
        sent = refl;
        request_map = refl;
        local_lru = refl;
        mode = refl;
        armed = requested-IsArmed net addr key text e t c s j;
        entry = e;
        timer = t;
        listed =
            lookup-assign bytes_discrete addr addr e c.cache_server_timers
            ∙ if_pos (bytes_discrete addr addr) refl (some e)
                (lookup bytes_discrete addr c.cache_server_timers);
        timed = j;
      },
    )
