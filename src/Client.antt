-- ===== src/Client.antt =====
-- The client's parent process, Client/src/client.cpp and Client/include/client.h: the handlers of
-- the events of its loop, on the members of `Client`. What the calls of the system return at an
-- event is a parameter `Net`; a call of `socket` that fails ends the program and is left out.
-- `sent` lists what has been sent, in order. A message is what stands in the buffer before the
-- first NUL. The order of `request_map` stands for the iteration order. `master_massage.timer`,
-- which is `master_timer` and is not read, and the member `cache_server_massage_`, of which
-- only the copy in the table is read, are left out, and so are `sleep`s and logs.
pub mod Handlers
pub mod Lost
pub mod Request
pub mod Route
pub mod Child
pub mod Reply
pub mod Closing
pub mod Once
pub mod Resend
pub mod Open
use simple_distributed_cache.Common.{
  ℕ, ◌+◌, Bool, true, false, Option, none, some, List, [], ◌∷◌, ◌++◌, Result, ok, fault, ◌>>=◌,
  ◌>>◌, guard, of_option, length, ltb, leb, ◌==◌, if◌then◌else◌, ite, ℕ_discrete, get_elem?,
}
use simple_distributed_cache.Common.Assoc.{lookup, assign}
use simple_distributed_cache.Text.{Bytes, bytes_discrete, bytes, split, sharp, colon}
use simple_distributed_cache.LocalLru.{LocalLru}
use simple_distributed_cache.LocalLru as Lru
use simple_distributed_cache.Timers.{Timer, new_timer, start, stop, reset}

-- `WAITING_TIME`
abbrev pub waiting_time : ℕ
waiting_time = 5

-- `LOST_MAX_NUM`
abbrev pub lost_max_num : ℕ
lost_max_num = 6

-- The callback of `init` and `cache_server_resend`.
pub data Callback : Type 0 where
  master_resend : Callback
  cache_server_resend : Callback

-- What the data of a timer points to: the timer, `master_massage_`, or an entry of the table.
pub data Target : Type 0 where
  itself : Target
  master_entry : Target
  server_entry : Bytes → Target

-- `ReSendMassage`
pub record ReSendMassage : Type 0 where
  pub sock : ℕ
  pub addr : Bytes
  pub massage : Bytes
  pub timer : Option (Timer Callback Target)
  pub num : ℕ

-- One call of `send`, with the address of the cache server that it reaches.
pub data Packet : Type 0 where
  to_master : Bytes → Packet
  to_server : Bytes → Bytes → Packet

-- `Client`
pub record Client : Type 0 where
  pub mode : ℕ
  pub local_lru : LocalLru Bytes Bytes
  pub request_map : List (Bytes × List Bytes)
  pub master_sock : ℕ
  pub cache_sever_sock : ℕ
  pub master_timer : Timer Callback Target
  pub master_massage : ReSendMassage
  pub cache_server_timers : List (Bytes × ReSendMassage)
  pub sent : List Packet

-- What the system gives a handler: the new socket, whether `connect` succeeds, a random value, and
-- the memory in which a timer is made.
pub record Net : Type 0 where
  pub new_sock : ℕ
  pub connects : Bool
  pub random_value : Bytes
  pub junk : Bool

-- `Client(...)`, and the timer of `init`
unfoldable pub init : (cache_size mode master_sock : ℕ) → Client
init cache_size mode master_sock = record {
  mode = mode;
  local_lru = Lru.init cache_size;
  request_map = [];
  master_sock = master_sock;
  cache_sever_sock = 0;
  master_timer = new_timer false false waiting_time false (some master_resend) master_entry;
  master_massage = record { sock = 0; addr = []; massage = []; timer = none; num = 0 };
  cache_server_timers = [];
  sent = [];
}

-- `parse_str_addr` of Client/src/tools.cpp, as the texts of the address and the port
unfoldable pub parse_str_addr : Bytes → Result (Bytes × Bytes)
parse_str_addr addr = do
  let ip_port = split addr colon
  ip ← of_option (get_elem? ip_port 0)
  port ← of_option (get_elem? ip_port 1)
  ok (ip, port)

-- `std::find`, and `emplace_back` where it finds nothing
unfoldable pub add_once : Bytes → List Bytes → List Bytes
add_once key [] = key ∷ []
add_once key (k ∷ ks) = ite (bytes_discrete key k) (k ∷ ks) (k ∷ add_once key ks)

-- `std::find`, and `erase` of what it finds
unfoldable pub erase_once : Bytes → List Bytes → List Bytes
erase_once key [] = []
erase_once key (k ∷ ks) = ite (bytes_discrete key k) ks (k ∷ erase_once key ks)

abbrev pub add_found :
    Bytes → Bytes → Option (List Bytes) → List (Bytes × List Bytes) → List (Bytes × List Bytes)
add_found addr key none m = assign bytes_discrete addr (key ∷ []) m
add_found addr key (some keys) m = assign bytes_discrete addr (add_once key keys) m

-- `add_item_to_request_map`
unfoldable pub add_item_to_request_map : Bytes → Bytes → Client → Client
add_item_to_request_map addr key c =
    let found = lookup bytes_discrete addr c.request_map in
    record c { request_map = add_found addr key found c.request_map }

abbrev pub erase_found :
    Bytes → Bytes → Option (List Bytes) → List (Bytes × List Bytes) → List (Bytes × List Bytes)
erase_found addr key none m = m
erase_found addr key (some keys) m = assign bytes_discrete addr (erase_once key keys) m

-- `erase_item_from_request_map`
unfoldable pub erase_item_from_request_map : Bytes → Bytes → Client → Client
erase_item_from_request_map addr key c =
    let found = lookup bytes_discrete addr c.request_map in
    record c { request_map = erase_found addr key found c.request_map }

-- `send_request_to_master`
unfoldable pub send_request_to_master : Bytes → Client → Client
send_request_to_master key c = record c {
  sent = c.sent ++ to_master key ∷ [];
  master_massage = record c.master_massage { sock = c.master_sock; massage = key };
  master_timer = start (reset c.master_timer);
}
