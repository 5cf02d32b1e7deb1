-- ===== src/Witnesses/Server.antt =====
-- Tests of the cache server's messages and of its thread pool on concrete inputs.
use simple_distributed_cache.Common.{
  ℕ_discrete, ℕ, ◌≡◌, ◌≢◌, refl, false, List, [], ◌∷◌, ok, arith, ◌++◌, some, get_elem?,
}
use simple_distributed_cache.Text.{bytes, bytes_discrete, ne_first}
use simple_distributed_cache.CacheLru as Table
use simple_distributed_cache.CacheServer.{CacheServer, is_local, read_from_master}
use simple_distributed_cache.CacheServer.Members.{is_absent, read_from_master-N_D}
use simple_distributed_cache.ThreadPool.{
  Event, Worker, ThreadPool, init, run, next, enqueue, start_threads,
}
use simple_distributed_cache.ThreadPool.Drain.{turns, run-returned}
use simple_distributed_cache.ThreadPool.Sound.{IsSound, run-IsSound}

abbrev pub here : CacheServer
here = record {
  main_cache =
      Table.init [] [] 1 2 10
        (record { used = []; prev = λ p. 0; next = λ p. 0; key = λ p. []; val = λ p. [] });
  cache_list = (bytes "a", bytes "1") ∷ [];
  cache_list_update_flag = false;
  target_ip = bytes "None";
  target_port = bytes "None";
  dying_cache_ip = [];
  dying_cache_port = [];
  pr_status = bytes "P";
  status = bytes "P";
  local_cache_ip = bytes "h";
  port_for_client = bytes "80";
  port_for_cache = bytes "81";
  buffer = [];
  kv_to_replica = [];
  kv_update_flag = false;
  is_initialed = 0;
  initial_flag = false;
  other_ip = [];
  other_port = [];
  out_key = [];
}

pub primary-stays : bytes "P" ≢ bytes "K"
primary-stays = ne_first b'P' b'K' [] [] (λ e. omega (arith, e))

read_from_master-N_D_example :
    (c' : CacheServer) × (c'' : CacheServer) × (read_from_master (bytes "N#b#2") here ≡ ok c')
    × (c'.cache_list ≡ (bytes "a", bytes "1") ∷ (bytes "b", bytes "2") ∷ [])
    × (read_from_master (bytes "D#b#2") c' ≡ ok c'')
    × (c''.cache_list ≡ (bytes "a", bytes "1") ∷ [])
unfolding is_local is_absent bytes_discrete ℕ_discrete
read_from_master-N_D_example =
    read_from_master-N_D (bytes "b") (bytes "2") here (λ e. omega arith, tt) primary-stays refl refl

abbrev events : List (Event ℕ)
events =
    Event.call_enqueue 7
    ∷ Event.turn 1
    ∷ Event.call_enqueue 8
    ∷ Event.destroy
    ∷ Event.turn 0
    ∷ Event.turn 1
    ∷ Event.turn 1
    ∷ []

run-IsSound_example : IsSound (run events (init 2))
run-IsSound_example = run-IsSound events 2

-- One of the two threads works three tasks off and leaves.
abbrev loading : List (Event ℕ)
loading = Event.call_enqueue 7 ∷ Event.call_enqueue 8 ∷ Event.call_enqueue 9 ∷ []

abbrev loaded : ThreadPool ℕ
loaded = run loading (init 2)

run-returned_example :
    let p' = run (Event.destroy ∷ turns 1 3 ++ Event.turn 1 ∷ []) loaded in
    (get_elem? p'.threads 1 ≡ some Worker.returned)
    × (p'.tasks ≡ [])
    × (p'.started ≡ 7 ∷ 8 ∷ 9 ∷ [])
unfolding run next enqueue init start_threads
run-returned_example = run-returned 1 loaded (run-IsSound loading 2) refl
