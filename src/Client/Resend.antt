-- ===== src/Client/Resend.antt =====
-- A request with no reply is sent again: `send_request_to_cache_server` and `cache_server_resend` of
-- Client/src/client.cpp with the timer between them.
use simple_distributed_cache.Common.{
  ℕ, ◌+◌, ◌≡◌, refl, sym, ap, ◌∙◌, true, false, Option, none, some, [], ◌∷◌, ◌++◌, ok, ◌>>=◌,
  of_option, ◌==◌, if◌then◌else◌, arith, is_some, if_pos,
}
use mathlib.Core.Path.{subst}
use simple_distributed_cache.Common.Assoc.{lookup, assign, lookup-assign}
use simple_distributed_cache.Text.{Bytes, bytes_discrete}
use simple_distributed_cache.Timers.{Timer, new_timer, start, reset, count_down, is_due}
use simple_distributed_cache.Timers.Ticks.{ticks}
use simple_distributed_cache.Timers.Expiry.{is_due-ticks}
use simple_distributed_cache.Client.{
  Client, Callback, Target, ReSendMassage, Packet, Net, parse_str_addr, waiting_time,
  add_item_to_request_map,
}
use simple_distributed_cache.Client.Handlers.{
  arm, send_request_to_cache_server, request_text, run_callback,
}

-- The entry has a one-shot timer that sends its text again to this address.
pub record Resends (addr : Bytes) (e : ReSendMassage) (t : Timer Callback Target) : Type 0 where
  pub timer : e.timer ≡ some t
  pub to : e.addr ≡ addr
  pub timeout : t.timeout ≡ waiting_time
  pub one_shot : t.periodic ≡ false
  pub callback : t.callback ≡ some Callback.cache_server_resend
  pub target : t.data_of ≡ Target.server_entry addr

-- Every entry of the table of timers has one.
abbrev pub IsResending : Client → Type 0
IsResending c =
    (addr : Bytes) (e : ReSendMassage)
    → lookup bytes_discrete addr c.cache_server_timers ≡ some e
    → (t : Timer Callback Target) × Resends addr e t

-- The entry of a request that has just been sent.
pub record Armed (addr text : Bytes) (e : ReSendMassage) (t : Timer Callback Target) : Type 0 where
  pub resends : Resends addr e t
  pub massage : e.massage ≡ text
  pub running : t.running ≡ true
  pub current : t.current ≡ waiting_time

arm-Armed :
    (net : Net) (addr text : Bytes) (o : Option ReSendMassage)
    → ((e : ReSendMassage) → o ≡ some e → (t : Timer Callback Target) × Resends addr e t)
    → (e : ReSendMassage) × (t : Timer Callback Target) × (arm net addr text o ≡ ok e)
      × Armed addr text e t
unfolding arm new_timer
arm-Armed net addr text none s = (
  _,
  _,
  refl,
  record {
    resends = record {
      timer = refl;
      to = refl;
      timeout = refl;
      one_shot = refl;
      callback = refl;
      target = refl;
    };
    massage = refl;
    running = refl;
    current = refl;
  },
)
arm-Armed net addr text (some e) s =
    let (t, r) = s e refl in
    let renew = λ (timer : Timer Callback Target). record e {
      sock = net.new_sock;
      massage = text;
      timer = some (start (reset timer));
      num = e.num + 1;
    } in
    (
      renew t,
      start (reset t),
      ap (λ o. of_option o >>= λ timer. ok (renew timer)) r.timer,
      record {
        resends = record {
          timer = refl;
          to = r.to;
          timeout = r.timeout;
          one_shot = r.one_shot;
          callback = r.callback;
          target = r.target;
        };
        massage = refl;
        running = refl;
        current = r.timeout;
      },
    )

module _ (net next : Net) (addr key value : Bytes) (c : Client) where
  abbrev text : Bytes
  text = request_text key value

  abbrev behind : ReSendMassage → Client
  behind e = record c {
    request_map = (add_item_to_request_map addr key c).request_map;
    cache_sever_sock = net.new_sock;
    sent = if net.connects then c.sent ++ Packet.to_server addr text ∷ [] else c.sent;
    cache_server_timers = assign bytes_discrete addr e c.cache_server_timers;
  }

  entry-behind :
      (e : ReSendMassage) → lookup bytes_discrete addr (behind e).cache_server_timers ≡ some e
  entry-behind e =
      let w = lookup-assign bytes_discrete addr addr e c.cache_server_timers in ground (arith, w)

  behind-IsResending :
      (e : ReSendMassage) (t : Timer Callback Target)
      → Resends addr e t
      → IsResending c
      → IsResending (behind e)
  behind-IsResending e t r s q d h =
      let w = lookup-assign bytes_discrete q addr e c.cache_server_timers in
      elim (bytes_discrete q addr) [
        | yes p ↦
            let at : some e ≡ some d = sym (w ∙ if_pos (bytes_discrete q addr) p _ _) ∙ h in
            (t, subst (λ d. Resends q d t) (cc at) (subst (λ a. Resends a e t) (sym p) r))
        | no n ↦ s q d (ground (arith, w))
      ]

  resent :
      (e : ReSendMassage) (t : Timer Callback Target) (ip_port : Bytes × Bytes)
      → Armed addr text e t
      → parse_str_addr addr ≡ ok ip_port
      → run_callback next Callback.cache_server_resend (Target.server_entry addr) (behind e)
        ≡ ok (record (behind e) {
          sent =
              if next.connects
              then (behind e).sent ++ Packet.to_server addr text ∷ []
              else (behind e).sent;
        })
  unfolding run_callback
  resent e t ip_port r h =
      let again = λ (to massage : Bytes). record (behind e) {
        sent =
            if next.connects
            then (behind e).sent ++ Packet.to_server to massage ∷ []
            else (behind e).sent;
      } in
      ap (λ o. of_option o >>= λ d. parse_str_addr d.addr >>= λ parsed. ok (again d.addr d.massage))
        (entry-behind e)
      ∙ ap (λ a. parse_str_addr a >>= λ parsed. ok (again a e.massage)) r.resends.to
      ∙ ap (λ m. parse_str_addr addr >>= λ parsed. ok (again addr m)) r.massage
      ∙ ap (λ r. r >>= λ parsed. ok (again addr text)) h

  -- Where every entry of the table of timers sends its text again, a request at a cache server
  -- whose address has a port never faults, and every entry still sends its text again; the
  -- timer of the server's entry is due at the fifth tick from the request on and at no other,
  -- unless something stops it or sets it again, and its callback then sends the text of the
  -- request again, where the server can be reached.
  pub send_request_to_cache_server-run_callback :
      (ip_port : Bytes × Bytes) (k : ℕ)
      → parse_str_addr addr ≡ ok ip_port
      → IsResending c
      → (c' : Client) × (e : ReSendMassage) × (t : Timer Callback Target)
        × (send_request_to_cache_server net addr key value c ≡ ok c')
        × (lookup bytes_discrete addr c'.cache_server_timers ≡ some e)
        × Resends addr e t
        × (is_due (count_down (ticks k t)) ≡ (k == 4))
        × (run_callback next Callback.cache_server_resend (Target.server_entry addr) c'
            ≡ ok (record c' {
              sent =
                  if next.connects
                  then c'.sent ++ Packet.to_server addr (request_text key value) ∷ []
                  else c'.sent;
            }))
        × IsResending c'
  unfolding send_request_to_cache_server add_item_to_request_map
  send_request_to_cache_server-run_callback ip_port k h s =
      let (e, t, i, r) =
        arm-Armed net addr text (lookup bytes_discrete addr c.cache_server_timers) (s addr) in
      (
        behind e,
        e,
        t,
        rw (h, i),
        entry-behind e,
        r.resends,
        is_due-ticks 4 k t r.running r.resends.one_shot (ap is_some r.resends.callback) r.current
            (omega arith),
        resent e t ip_port r h,
        behind-IsResending e t r.resends s,
      )
