-- ===== src/ThreadPool.antt =====
-- The thread pool of the cache server, cache/src/threadPool.hpp (`ThreadPool`), as steps: what the
-- mutex guards is done in one step, and running a task is what happens between two steps of a
-- worker. A task is a value; its future and its result are left out. `accepted` and `started` are no
-- members: they list the tasks that `enqueue` has taken and that a worker has started, in order.
pub mod Counting
pub mod Sound
pub mod Drain
use simple_distributed_cache.Common.{
  ℕ, zero, suc, ◌+◌, ◌-◌, ◌%◌, ◌^◌, Bool, true, false, Option, none, some, List, [], ◌∷◌, ◌++◌,
  if◌then◌else◌, get_elem?, set,
}

-- Where a thread is in `wait_loop`: at the wait, behind it with a task, or behind the return.
pub data Worker (T : Type 0) : Type 0 where
  at_wait : Worker T
  busy : T → Worker T
  returned : Worker T

-- `ThreadPool`
pub record ThreadPool (T : Type 0) : Type 0 where
  pub threads : List (Worker T)
  pub tasks : List T
  pub is_pool_stoped : Bool
  pub num_active_threads : ℕ
  pub accepted : List T
  pub started : List T

-- What happens next: a call of `enqueue`, the destructor, or a turn of a thread.
pub data Event (T : Type 0) : Type 0 where
  call_enqueue : T → Event T
  destroy : Event T
  turn : ℕ → Event T

module _ {T : Type 0} where
  -- the loop of the constructor
  unfoldable pub start_threads : ℕ → List (Worker T)
  start_threads zero = []
  start_threads (suc n) = at_wait ∷ start_threads n

  -- `ThreadPool(capacity_)`; the member `capacity` has 32 bits
  unfoldable pub init : ℕ → ThreadPool T
  init capacity = record {
    threads = start_threads (capacity % 2 ^ 32);
    tasks = [];
    is_pool_stoped = false;
    num_active_threads = 0;
    accepted = [];
    started = [];
  }

  -- `enqueue`; `none` where it throws
  unfoldable pub enqueue : T → ThreadPool T → Option (ThreadPool T)
  enqueue t p =
      if p.is_pool_stoped
      then none
      else some (record p { tasks = p.tasks ++ t ∷ []; accepted = p.accepted ++ t ∷ [] })

  -- the first block of the destructor
  unfoldable pub stop_pool : ThreadPool T → ThreadPool T
  stop_pool p = record p { is_pool_stoped = true }

  -- the block of `wait_loop` behind the wait, given the queue; `none` where the predicate fails
  unfoldable pub wake : ℕ → List T → ThreadPool T → Option (ThreadPool T)
  wake i [] p =
      if p.is_pool_stoped then some (record p { threads = set p.threads i returned }) else none
  wake i (t ∷ rest) p = some (record p {
    threads = set p.threads i (busy t);
    tasks = rest;
    num_active_threads = (p.num_active_threads + 1) % 2 ^ 32;
    started = p.started ++ t ∷ [];
  })

  -- One turn of the thread with the number `i`: it wakes up, or has run its task.
  unfoldable pub turn_of : ℕ → Option (Worker T) → ThreadPool T → Option (ThreadPool T)
  turn_of i (some at_wait) p = wake i p.tasks p
  turn_of i (some (busy t)) p = some (record p {
    threads = set p.threads i at_wait;
    num_active_threads = (p.num_active_threads + (2 ^ 32 - 1)) % 2 ^ 32;
  })
  turn_of i _ p = none

  -- One event; one that cannot happen, or that throws, changes nothing.
  unfoldable pub next : Event T → ThreadPool T → Option (ThreadPool T)
  next (call_enqueue t) p = enqueue t p
  next destroy p = some (stop_pool p)
  next (turn i) p = turn_of i (get_elem? p.threads i) p

  unfoldable pub run : List (Event T) → ThreadPool T → ThreadPool T
  run [] p = p
  run (e ∷ es) p = run es (elim (next e p) [ none ↦ p | some p' ↦ p' ])
