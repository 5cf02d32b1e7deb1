-- ===== src/Client/Handlers.antt =====
-- The handlers of the client's events: Client/src/client.cpp from `check_cache_server_request_map`
-- to `cache_server_resend`, and the body of the loop of `start`. An index beyond the fields of a
-- message and a null timer are faults.
use simple_distributed_cache.Common.{
  ◌+◌, true, false, Option, none, some, List, [], ◌∷◌, ◌++◌, Result, ok, fault, ◌>>=◌, of_option,
  length, ltb, ◌==◌, if◌then◌else◌, ite, get_elem?,
}
use simple_distributed_cache.Common.Assoc.{lookup, assign}
use simple_distributed_cache.Text.{Bytes, bytes, bytes_discrete, split, sharp}
use simple_distributed_cache.LocalLru as Lru
use simple_distributed_cache.Timers.{new_timer, start, stop, reset}
use simple_distributed_cache.Client.{
  Client, Callback, Target, ReSendMassage, Packet, Net, waiting_time, lost_max_num, parse_str_addr,
  add_item_to_request_map, erase_item_from_request_map, send_request_to_master,
}

-- The text that `send_request_to_cache_server` sends.
unfoldable pub request_text : (key value : Bytes) → Bytes
request_text key [] = key
request_text key (b ∷ v) = key ++ sharp ∷ b ∷ v

-- The entry of the table behind a request: its timer is set and started, and made where it is new.
unfoldable pub arm : Net → (addr text : Bytes) → Option ReSendMassage → Result ReSendMassage
arm net addr text (some e) = do
  timer ← of_option e.timer
  ok (record e {
    sock = net.new_sock;
    massage = text;
    timer = some (start (reset timer));
    num = e.num + 1;
  })
arm net addr text none =
    let timer =
      new_timer net.junk true waiting_time false (some Callback.cache_server_resend)
        (Target.server_entry addr) in
    ok (record {
      sock = net.new_sock;
      addr = addr;
      massage = text;
      timer = some (start timer);
      num = 1;
    })

-- `send_request_to_cache_server`
unfoldable pub send_request_to_cache_server :
    Net → (addr key value : Bytes) → Client → Result Client
send_request_to_cache_server net addr key value c = do
  let c = add_item_to_request_map addr key c
  parsed ← parse_str_addr addr
  let text = request_text key value
  entry ← arm net addr text (lookup bytes_discrete addr c.cache_server_timers)
  ok (record c {
    cache_sever_sock = net.new_sock;
    sent = if net.connects then c.sent ++ Packet.to_server addr text ∷ [] else c.sent;
    cache_server_timers = assign bytes_discrete addr entry c.cache_server_timers;
  })

-- The tests of the mode, in `dealwith_child` and `dealwith_master`.
unfoldable pub request_in_mode : Net → (addr key : Bytes) → Client → Result Client
request_in_mode net addr key c =
    if c.mode == b'r'
    then send_request_to_cache_server net addr key [] c
    else if c.mode == b'w'
    then send_request_to_cache_server net addr key net.random_value c
    else ok c

-- The `try` of `dealwith_child`, given what the local table returns; `none` is its exception.
abbrev pub request_found : Net → Bytes → Option Bytes → Client → Result Client
request_found net key none c = ok (send_request_to_master key c)
request_found net key (some addr) c = request_in_mode net addr key c

-- `dealwith_child`
unfoldable pub dealwith_child : Net → Bytes → Client → Result Client
dealwith_child net message c = do
  let fields = split message sharp
  key ← of_option (get_elem? fields 1)
  state ← of_option (get_elem? fields 0)
  ite (bytes_discrete state (bytes "CHILD"))
      (do
        (found, local) ← Lru.get bytes_discrete key c.local_lru
        request_found net key found (record c { local_lru = local }))
      (ok c)

-- `dealwith_master`, behind the stop of the timer, on the fields of the message
unfoldable pub master_fields : Net → List Bytes → Client → Result Client
master_fields net (state ∷ key ∷ addr ∷ []) c =
    ite (bytes_discrete state (bytes "MASTER"))
      (do
        local ← Lru.put bytes_discrete key addr c.local_lru
        request_in_mode net addr key (record c { local_lru = local }))
      (ok c)
master_fields net fields c = ok c

-- `dealwith_master`
unfoldable pub dealwith_master : Net → Bytes → Client → Result Client
dealwith_master net message c =
    master_fields net (split message sharp) (record c { master_timer = stop c.master_timer })

-- `cache_server_timers_[addr].timer->stop()`: the entry that `[]` makes has no timer.
unfoldable pub stop_timer : Bytes → Client → Result Client
stop_timer addr c = do
  entry ← of_option (lookup bytes_discrete addr c.cache_server_timers)
  timer ← of_option entry.timer
  let entry = record entry { timer = some (stop timer) }
  ok (record c { cache_server_timers = assign bytes_discrete addr entry c.cache_server_timers })

-- `dealwith_cache_server`
unfoldable pub dealwith_cache_server : Bytes → Client → Result Client
dealwith_cache_server message c = do
  let fields = split message sharp
  state ← of_option (get_elem? fields 0)
  key ← of_option (get_elem? fields 1)
  addr ← of_option (get_elem? fields 2)
  ite (bytes_discrete state (bytes "SUCCESS"))
      (stop_timer addr (erase_item_from_request_map addr key c))
      (ite (bytes_discrete state (bytes "FAILED"))
        (let c = erase_item_from_request_map addr key c in
          stop_timer addr (record c { local_lru = Lru.erase bytes_discrete key c.local_lru }))
        (ok c))

-- The inner loop of `check_cache_server_request_map`.
unfoldable pub resend_all : List Bytes → Client → Client
resend_all [] c = c
resend_all (key ∷ keys) c = resend_all keys (send_request_to_master key c)

-- The outer loop, over the entries that are left; `done` has those before them.
unfoldable pub check_entries :
    (done : List (Bytes × List Bytes)) → List (Bytes × List Bytes) → Client → Client
check_entries done [] c = record c { request_map = done }
check_entries done ((addr, keys) ∷ m) c =
    let lost = ltb lost_max_num (length keys) in
    check_entries (done ++ (addr, if lost then [] else keys) ∷ []) m
      (if lost then resend_all keys c else c)

-- `check_cache_server_request_map`
unfoldable pub check_cache_server_request_map : Client → Client
check_cache_server_request_map c = check_entries [] c.request_map c

-- What the callbacks of the timers do.
unfoldable pub run_callback : Net → Callback → Target → Client → Result Client
run_callback net Callback.master_resend Target.master_entry c =
    ok (record c { sent = c.sent ++ Packet.to_master c.master_massage.massage ∷ [] })
run_callback net Callback.cache_server_resend (Target.server_entry key) c = do
  entry ← of_option (lookup bytes_discrete key c.cache_server_timers)
  parsed ← parse_str_addr entry.addr
  let packet = Packet.to_server entry.addr entry.massage
  ok (record c { sent = if net.connects then c.sent ++ packet ∷ [] else c.sent })
run_callback net callback target c = fault

-- The branches of the loop of `start`.
pub data Event : Type 0 where
  from_child : Bytes → Event
  from_master : Bytes → Event
  from_server : Bytes → Event

unfoldable pub handle : Net → Event → Client → Result Client
handle net (from_child message) c = do
  c ← dealwith_child net message c
  ok (check_cache_server_request_map c)
handle net (from_master message) c = dealwith_master net message c
handle net (from_server message) c = dealwith_cache_server message c
