-- ===== src/Deployment/Steps.antt =====
-- The steps of a client's first request for a key: what the client asks, what the master answers, and
-- what the reply of a cache server leaves in the client's local table.
use simple_distributed_cache.Common.{
  ℕ, ◌≡◌, ◌≢◌, refl, sym, ◌∙◌, ap, Bool, true, false, none, some, [], ◌∷◌, ◌++◌, map, NotIn, ok,
  arith, if_pos, if◌then◌else◌, ok_injective, Option-cases, inl, inr,
}
use mathlib.Core.Path.{subst}
use simple_distributed_cache.Common.Assoc.{lookup, lookup-erase}
use simple_distributed_cache.Text.{Bytes, bytes, bytes_discrete, sharp, colon, split, join}
use simple_distributed_cache.Text.Split.{split-join}
use simple_distributed_cache.LocalLru as Lru
use simple_distributed_cache.LocalLru.Invariant.{held, IsValid}
use simple_distributed_cache.LocalLru.Indexed.{IsTight}
use simple_distributed_cache.Ring.{murmur3_32}
use simple_distributed_cache.Ring.Server.{Reaches}
use simple_distributed_cache.Timers.{Timer}
use simple_distributed_cache.Client.{
  Client, Callback, Target, ReSendMassage, Packet, Net, send_request_to_master, parse_str_addr,
}
use simple_distributed_cache.Client.Handlers.{
  from_child, handle, dealwith_child, check_cache_server_request_map,
}
use simple_distributed_cache.Client.Lost.{lost_keys, check_kept, check_cache_server_request_map_lem}
use simple_distributed_cache.Client.Route.{
  IsRoute, IsReader, master_answer, child_message, no_sharp-child,
}
use simple_distributed_cache.Client.Reply.{closed}
use simple_distributed_cache.Master.{Master, words, send_to, answer_client}
use simple_distributed_cache.Master.Serve.{Answers, IsAddressed, handle_client_message-Answers}
use simple_distributed_cache.CacheLru.Chain.{NotIn-append_of}
use simple_distributed_cache.CacheServer.{CacheServer}
use simple_distributed_cache.CacheServer.Replica.Sync.{place}
use simple_distributed_cache.Deployment.{IsPlaced, IsDeployed}

get_missing :
    (key : Bytes) (l : Lru.LocalLru Bytes Bytes)
    → IsValid bytes_discrete l
    → held bytes_discrete key l ≡ none
    → Lru.get bytes_discrete key l ≡ ok (none, l)
unfolding Lru.get held
get_missing key l s h = elim (Option-cases (lookup bytes_discrete key l.index)) [
  | inl e ↦ rw e
  | inr (i, e) ↦ let (v, f) = s.points key i e in absurd (ground (arith, e, f, h))
]

-- The tests for lost requests keep a reader.
pub check-IsReader : (c : Client) → IsReader c → IsReader (check_cache_server_request_map c)
unfolding send_request_to_master
check-IsReader c r = record {
  mode = check_kept (λ c. c.mode) (λ key c. refl) (λ m c. refl) c ∙ r.mode;
  armed =
      subst
        (λ l.
          (addr : Bytes) (e : ReSendMassage)
          → lookup bytes_discrete addr l ≡ some e
          → (t : Timer Callback Target) × (e.timer ≡ some t))
        (sym (check_kept (λ c. c.cache_server_timers) (λ key c. refl) (λ m c. refl) c)) r.armed;
  tight =
      subst (IsTight bytes_discrete)
        (sym (check_kept (λ c. c.local_lru) (λ key c. refl) (λ m c. refl) c)) r.tight;
}

-- The reader asks the master for a key that its table does not hold.
pub child_asks :
    (net : Net) (key : Bytes) (c : Client)
    → IsReader c
    → NotIn sharp key
    → key ≢ []
    → held bytes_discrete key c.local_lru ≡ none
    → (c' : Client) × (handle net (from_child (child_message key)) c ≡ ok c')
      × IsReader c'
      × (c'.local_lru.max_size ≡ c.local_lru.max_size)
      × (c'.sent
          ≡ (c.sent ++ Packet.to_master key ∷ []) ++ map Packet.to_master (lost_keys c.request_map))
unfolding handle dealwith_child send_request_to_master
child_asks net key c r chars full h =
    let fields : split (child_message key) sharp ≡ bytes "CHILD" ∷ key ∷ [] =
      split-join sharp (bytes "CHILD") (key ∷ []) (no_sharp-child, (chars, tt)) full in
    let asked = send_request_to_master key c in
    let lost = check_cache_server_request_map_lem asked in
    (
      check_cache_server_request_map asked,
      rw (
        fields,
        if_pos (bytes_discrete (bytes "CHILD") (bytes "CHILD")) refl,
        get_missing key c.local_lru r.tight.valid h,
      ),
      check-IsReader asked (record { mode = r.mode; armed = r.armed; tight = r.tight }),
      ap (λ l. l.max_size) lost.2,
      lost.0,
    )

-- The master's answer is the address of a cache server that is deployed.
module _ (key : Bytes) (m : Master) (s : ℕ → CacheServer) (d : IsDeployed m s)
    (reaches : Reaches (murmur3_32 key) m.hash.points) where
  addressed : IsAddressed m
  addressed i fd f =
      let (e, k, w) = d.listed i fd f in (e, (s fd).local_cache_ip, (s fd).port_for_client, k, w)

  answer_place : (answer : Bytes) (q : Answers key m answer) → answer ≡ place (s q.fd)
  answer_place answer q =
      let (e, k, w) = d.listed q.number q.fd q.numbered in
      let same : e ≡ q.entry = ok_injective (sym k ∙ q.known) in
      let parts : q.ip ∷ q.port ∷ [] ≡ (s q.fd).local_cache_ip ∷ (s q.fd).port_for_client ∷ [] =
        sym q.parts ∙ ap (λ e. words e.ip_port sharp) (sym same) ∙ w in
      let ip : q.ip ≡ (s q.fd).local_cache_ip = cc parts in
      let port : q.port ≡ (s q.fd).port_for_client = cc parts in
      q.text
      ∙ ap (λ a. a ++ colon ∷ q.port) ip
      ∙ ap (λ b. (s q.fd).local_cache_ip ++ colon ∷ b) port

  -- The master sends it to the client.
  pub master_tells :
      (client_fd : ℕ)
      → (answer : Bytes) × (m' : Master) × (q : Answers key m answer) × (answer_client client_fd key
            m
          ≡ ok m')
        × (m'.sent ≡ m.sent ++ (client_fd, master_answer key (place (s q.fd))) ∷ [])
  unfolding answer_client send_to join
  master_tells client_fd =
      let (answer, e, q) = handle_client_message-Answers key m d.ring addressed reaches in
      (
        answer,
        send_to client_fd (bytes "MASTER#" ++ key ++ sharp ∷ answer) m,
        q,
        rw e,
        ap (λ a. m.sent ++ (client_fd, master_answer key a) ∷ []) (answer_place answer q),
      )

append_full : (a b : Bytes) → b ≢ [] → a ++ b ≢ []
append_full [] b h = h
append_full (x ∷ a) b h = λ e. cc e

pub placed-IsRoute :
    (key : Bytes) (s : CacheServer)
    → IsPlaced s
    → NotIn sharp key
    → key ≢ []
    → IsRoute key (place s)
unfolding parse_str_addr join
placed-IsRoute key s p chars full = record {
  key_chars = chars;
  key_there = full;
  addr_chars =
      NotIn-append_of sharp s.local_cache_ip (colon ∷ s.port_for_client) p.ip_chars
        (λ e. omega (arith, e), p.port_chars);
  addr_there = append_full s.local_cache_ip (colon ∷ s.port_for_client) (λ e. cc e);
  ip_port = (s.local_cache_ip, s.port_for_client);
  parsed = rw (
      split-join colon s.local_cache_ip (s.port_for_client ∷ [])
        (p.ip_no_colon, (p.port_no_colon, tt)) p.port_there);
}

-- A key that the cache server has stays in the local table, with the server's address.
pub held_closed :
    (key addr : Bytes) (c : Client) (e : ReSendMassage) (t : Timer Callback Target)
    (entry : lookup bytes_discrete addr c.cache_server_timers ≡ some e) (timer : e.timer ≡ some t)
    → held bytes_discrete key c.local_lru ≡ some addr
    → (b : Bool)
    → held bytes_discrete key (closed key addr c e t entry timer b).local_lru
      ≡ (if b then some addr else none)
unfolding held
held_closed key addr c e t entry timer h true = h
held_closed key addr c e t entry timer h false =
    unfold Lru.erase in ground (arith, lookup-erase bytes_discrete key key c.local_lru.index)
