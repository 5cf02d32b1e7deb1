-- ===== src/CacheServer/Handover.antt =====
-- A cache server that leaves hands its keys to the others: `cal_hash_key`, `to_single_cache` and
-- `cache_pass` of cache/src/cache.cpp.
pub mod Target
pub mod Leaving
pub mod Received
use simple_distributed_cache.Common.{
  ℕ, ◌+◌, Bool, true, false, Option, none, some, List, [], ◌∷◌, ◌++◌, map, Result, ok, fault, ◌>>=◌,
  of_option, Ptr, length, get_elem?, ite,
}
use simple_distributed_cache.Text.{Bytes, bytes, bytes_discrete, sharp}
use simple_distributed_cache.Ring.{Ring, get_server, initialize}
use simple_distributed_cache.Master.{index_of}
use simple_distributed_cache.CacheLru.{all_key}
use simple_distributed_cache.CacheServer.{CacheServer, slice, to_single_cache, from_single_cache}

-- The texts of the addresses in `cache_list`.
unfoldable pub caches : List (Bytes × Bytes) → List Bytes
caches [] = []
caches ((ip, port) ∷ l) = (ip ++ sharp ∷ port) ∷ caches l

-- The ring for `n` cache servers.
unfoldable pub hash_of : ℕ → Ring
hash_of n = initialize n 100 (record { points = []; nodes = 0; v_nodes = 0 })

-- the body of the loop of `cal_hash_key`
unfoldable pub locate : Ring → List Bytes → Bytes → Result (Bytes × Bytes)
locate hash list key = do
  vir_node ← get_server key hash
  target ← of_option (get_elem? list (index_of vir_node hash.points))
  slice target

unfoldable pub locate_all : Ring → List Bytes → List Bytes → Result (List (Bytes × Bytes))
locate_all hash list [] = ok []
locate_all hash list (key ∷ keys) = do
  target ← locate hash list key
  rest ← locate_all hash list keys
  ok (target ∷ rest)

-- `cal_hash_key`
unfoldable pub cal_hash_key : CacheServer → Result CacheServer
cal_hash_key c = do
  let list = caches c.cache_list
  let keys = all_key c.main_cache
  targets ← locate_all (hash_of (length list)) list keys
  ok (record c {
    other_ip = map (λ t. t.0) targets;
    other_port = map (λ t. t.1) targets;
    out_key = keys;
  })

-- One text that the server sends to another, with the other's address.
pub record Hand : Type 0 where
  pub ip : Bytes
  pub port : Bytes
  pub text : Bytes

-- The loop of `cache_pass` over the keys; it goes by the number of ports, and an index beyond
-- another vector is a fault. It stops at a server that cannot be reached, where the process ends.
-- `connects` says which addresses `client_socket` reaches.
unfoldable pub hand_all :
    (connects : Bytes → Bytes → Bool) (ips ports keys : List Bytes)
    → CacheServer
    → Result (List Hand × CacheServer)
hand_all connects ips [] keys c = ok ([], c)
hand_all connects (ip ∷ ips) (port ∷ ports) (key ∷ keys) c = do
  (text, c) ← to_single_cache (connects ip port) key c
  elim text [
    | none ↦ ok ([], c)
    | some text ↦ (do
      (hands, c) ← hand_all connects ips ports keys c
      ok (record { ip = ip; port = port; text = text } ∷ hands, c))
  ]
hand_all connects _ _ _ c = fault

-- What a round of the loop of `cache_pass` comes to: the thread goes on, ends, or ends the process
-- behind the texts that it has sent.
pub data Pass : Type 0 where
  goes_on : CacheServer → Pass
  thread_ends : CacheServer → Pass
  exits : List Hand → CacheServer → Pass

-- the branch `K`
unfoldable pub leave : (connects : Bytes → Bytes → Bool) → CacheServer → Result Pass
leave connects c = elim (c.cache_list) [
  | [] ↦ ok (thread_ends c)
  | e ∷ l ↦ (do
    c ← cal_hash_key c
    (hands, c) ← hand_all connects c.other_ip c.other_port c.out_key c
    ok (exits hands c))
]

abbrev is_empty : Bytes → Bool
is_empty [] = true
is_empty (c ∷ s) = false

-- the branch `P`; `message` is what another server sends
unfoldable pub take_over : (fresh : Ptr) (message : Bytes) → CacheServer → Result Pass
take_over fresh message c = elim (is_empty c.dying_cache_ip) [
  | true ↦ ok (goes_on c)
  | false ↦ elim (is_empty c.dying_cache_port) [
    | true ↦ ok (goes_on c)
    | false ↦ (do
      c ← from_single_cache fresh message c
      ok (goes_on (record c { cache_list_update_flag = true })))
  ]
]

-- A round of the loop of `cache_pass`.
unfoldable pub pass_round :
    (connects : Bytes → Bytes → Bool) (fresh : Ptr) (message : Bytes) → CacheServer → Result Pass
pass_round connects fresh message c = ite (bytes_discrete c.status (bytes "K")) (leave connects c) (
    ite (bytes_discrete c.status (bytes "P")) (take_over fresh message c) (
      ite (bytes_discrete c.status (bytes "R"))
        (do c ← from_single_cache fresh message c; ok (goes_on c)) (ok (goes_on c))))
