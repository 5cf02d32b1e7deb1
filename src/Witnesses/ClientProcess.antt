-- ===== src/Witnesses/ClientProcess.antt =====
-- Tests of the client's process on concrete inputs.
use simple_distributed_cache.Common.{
  ℕ, ◌+◌, ◌*◌, List, some, none, ℕ_discrete, ◌≡◌, refl, ◌++◌, true, false, [], ◌∷◌, ok, All, length,
  arith,
}
use simple_distributed_cache.Common.Assoc.{lookup}
use simple_distributed_cache.Text.{bytes, split}
use simple_distributed_cache.LocalLru as Lru
use simple_distributed_cache.LocalLru.Runs.{init-IsTight}
use simple_distributed_cache.Client.{
  Client, Net, Packet, ReSendMassage, Callback, Target, waiting_time, init, parse_str_addr,
}
use simple_distributed_cache.Client.Handlers.{
  check_cache_server_request_map, dealwith_master, dealwith_child, dealwith_cache_server,
  request_text, send_request_to_cache_server, run_callback, Event, from_master, from_child, handle,
}
use simple_distributed_cache.Timers.{Timer, new_timer, count_down, is_due}
use simple_distributed_cache.Timers.Ticks.{ticks}
use simple_distributed_cache.Client.Resend.{
  Resends, IsResending, send_request_to_cache_server-run_callback,
}
use simple_distributed_cache.CacheServer.Spec.{serve}
use simple_distributed_cache.Client.Child.{letter, rand_from, str_rand, IsLetter, str_rand-IsLetter}
use simple_distributed_cache.Client.Reply.{has_key}
use simple_distributed_cache.Client.Closing.{IsClosed, dealwith_cache_server-serve}
use simple_distributed_cache.Client.Open.{IsOpenOnce, handle_all, handle_all-IsOpenOnce}
use simple_distributed_cache.Client.Route.{
  IsRoute, IsReader, master_answer, child_message, dealwith_master-dealwith_child,
}
use simple_distributed_cache.Text.{bytes_discrete}

abbrev pub reader : Client
reader = init 3 b'r' 7

abbrev pub net : Net
net = record { new_sock = 9; connects = true; random_value = bytes "V"; junk = true }

abbrev waiting : Client
waiting = record reader {
  request_map =
      (
        bytes "a:1",
        bytes "1" ∷ bytes "2" ∷ bytes "3" ∷ bytes "4" ∷ bytes "5" ∷ bytes "6" ∷ bytes "7" ∷ [],
      )
      ∷ (bytes "b:2", bytes "8" ∷ [])
      ∷ [];
}

route : IsRoute (bytes "A1B") (bytes "a:1")
unfolding parse_str_addr split
route = record {
  key_chars = (λ e. omega arith, (λ e. omega arith, (λ e. omega arith, tt)));
  key_there = λ e. cc e;
  addr_chars = (λ e. omega arith, (λ e. omega arith, (λ e. omega arith, tt)));
  addr_there = λ e. cc e;
  ip_port = (bytes "a", bytes "1");
  parsed = refl;
}

pub reader-IsReader : IsReader reader
unfolding init lookup
reader-IsReader = record {
  mode = refl;
  armed = λ addr e h. absurd (cc);
  tight = init-IsTight bytes_discrete 3;
}

dealwith_master-dealwith_child_example :
    let to = Packet.to_server (bytes "a:1") (bytes "A1B") in
    (c' : Client) × (c'' : Client) × (dealwith_master net
        (master_answer (bytes "A1B") (bytes "a:1"))
        reader
      ≡ ok c')
    × (dealwith_child net (child_message (bytes "A1B")) c' ≡ ok c'')
    × (c'.sent ≡ to ∷ [])
    × (c''.sent ≡ c'.sent ++ to ∷ [])
unfolding init Lru.init
dealwith_master-dealwith_child_example =
    dealwith_master-dealwith_child route net net reader-IsReader (λ e. omega (arith, e))

-- Draws of which each is larger than the one before.
abbrev draws : ℕ → ℕ
draws i = 8 + 13 * i

str_rand-example : str_rand draws 3 ≡ bytes "8LY"
unfolding str_rand rand_from letter
str_rand-example = refl

str_rand-IsLetter_example : (length (str_rand draws 20) ≡ 20) × All IsLetter (str_rand draws 20)
str_rand-IsLetter_example = str_rand-IsLetter draws 20

-- A request for the key is open at the server.
abbrev timer : Timer Callback Target
timer = new_timer true true waiting_time false none Target.itself

abbrev asked : ReSendMassage
asked = record { sock = 9; addr = bytes "a:1"; massage = bytes "A1B"; timer = some timer; num = 1 }

abbrev asking : Client
asking = record reader {
  request_map = (bytes "a:1", bytes "A1B" ∷ []) ∷ [];
  cache_server_timers = (bytes "a:1", asked) ∷ [];
}

asked-there : lookup bytes_discrete (bytes "a:1") asking.cache_server_timers ≡ some asked
unfolding lookup bytes_discrete ℕ_discrete init
asked-there = refl

dealwith_cache_server-serve_example :
    (c' : Client) × (dealwith_cache_server
        (serve 10 (bytes "a:1") (request_text (bytes "A1B") []) ((bytes "A1B", bytes "v") ∷ [])).0
        asking
      ≡ ok c')
    × IsClosed
        (bytes "A1B")
        (bytes "a:1")
        (has_key (bytes "A1B") [] ((bytes "A1B", bytes "v") ∷ []))
        asking
        c'
dealwith_cache_server-serve_example =
    dealwith_cache_server-serve (bytes "A1B") (bytes "a:1") asking asked timer asked-there refl
      route ((tt, tt), tt) 10 [] ((bytes "A1B", bytes "v") ∷ [])

-- The master's answer, and the next request for its key.
abbrev twice : List (Net × Event)
twice =
    (net, from_master (master_answer (bytes "A1B") (bytes "a:1")))
    ∷ (net, from_child (child_message (bytes "A1B")))
    ∷ []

handled : (c : Client) × (handle_all twice reader ≡ ok c)
unfolding handle_all handle init Lru.init
handled =
    let (c', c'', e, f, _, _) =
      dealwith_master-dealwith_child route net net reader-IsReader (λ e. omega (arith, e)) in
    (check_cache_server_request_map c'', rw (e, f))

handle_all-IsOpenOnce_example : IsOpenOnce handled.0
handle_all-IsOpenOnce_example = handle_all-IsOpenOnce 3 b'r' 7 twice handled.0 handled.1

send_request_to_cache_server-run_callback_example :
    (c' : Client) × (e : ReSendMassage) × (t : Timer Callback Target)
    × (send_request_to_cache_server net (bytes "a:1") (bytes "A1B") (bytes "v") reader ≡ ok c')
    × (lookup bytes_discrete (bytes "a:1") c'.cache_server_timers ≡ some e)
    × Resends (bytes "a:1") e t
    × (is_due (count_down (ticks 4 t)) ≡ true)
    × (run_callback net Callback.cache_server_resend (Target.server_entry (bytes "a:1")) c'
        ≡ ok (record c' { sent = c'.sent ++ Packet.to_server (bytes "a:1") (bytes "A1B#v") ∷ [] }))
    × IsResending c'
unfolding init lookup request_text
send_request_to_cache_server-run_callback_example =
    send_request_to_cache_server-run_callback net net (bytes "a:1") (bytes "A1B") (bytes "v") reader
      route.ip_port 4 route.parsed (λ addr e h. absurd (cc h))
