-- ===== src/Timers.antt =====
-- The software timers, Client/src/timer.cpp and Client/include/timer.h (cache/src/Timer.cpp is a
-- copy with another time unit). `pTimers` is the list of the timers with their addresses. A
-- callback and its data are values of types that the user of the module names; `run` says what a
-- callback does to the timers and to the rest of the program, whose state is the parameter `S`.
-- `timeout` and `current` are the bit patterns of an `int32_t`, compared with 0 only; the decrement
-- of the least number, which is undefined, wraps. The member `running` is not initialised by
-- the constructor of a later timer: its value is the parameter `junk`.
pub mod Ticks
pub mod Expiry
pub mod Periodic
pub mod Handler
pub mod Lifetime
use simple_distributed_cache.Common.{
  ℕ, ◌+◌, ◌-◌, ◌%◌, ◌^◌, Bool, true, false, ◌&&◌, Option, none, some, List, [], ◌∷◌, ◌++◌, map,
  Result, ok, ◌>>=◌, of_option, Ptr, ◌==◌, if◌then◌else◌, is_some, ℕ_discrete,
}
use simple_distributed_cache.Common.Assoc.{lookup, erase}

-- `Timer`
pub record Timer (C D : Type 0) : Type 0 where
  pub timeout : ℕ
  pub periodic : Bool
  pub running : Bool
  pub callback : Option C
  pub data_of : D
  pub current : ℕ

-- The static members.
pub record Timers (C D : Type 0) : Type 0 where
  pub timers : List (Ptr × Timer C D)
  pub initialized : Bool

-- `--current`
abbrev pub decrement : ℕ → ℕ
decrement n = (n + (2 ^ 32 - 1)) % 2 ^ 32

module _ {C D : Type 0} where
  -- the members that `createTimer` sets, where `initialized` is as given
  unfoldable pub new_timer : (junk initialized : Bool) → ℕ → Bool → Option C → D → Timer C D
  new_timer junk initialized timeout periodic callback d = record {
    timeout = timeout;
    periodic = periodic;
    running = if initialized then junk else false;
    callback = callback;
    data_of = d;
    current = timeout;
  }

  -- `createTimer`, with the timer at the address `p`
  unfoldable pub create_timer :
      (junk : Bool) → Ptr → ℕ → Bool → Option C → D → Timers C D → Timers C D
  create_timer junk p timeout periodic callback d t = record {
    timers = t.timers ++ (p, new_timer junk t.initialized timeout periodic callback d) ∷ [];
    initialized = true;
  }

  abbrev pub start : Timer C D → Timer C D
  start t = record t { running = true }

  abbrev pub stop : Timer C D → Timer C D
  stop t = record t { running = false; current = t.timeout }

  abbrev pub reset : Timer C D → Timer C D
  reset t = record t { current = t.timeout }

  abbrev pub pause : Timer C D → Timer C D
  pause t = record t { running = false }

  abbrev pub set_interval : ℕ → Timer C D → Timer C D
  set_interval timeout t = record t { timeout = timeout; current = timeout }

  abbrev pub set_periodic : Bool → Timer C D → Timer C D
  set_periodic periodic t = record t { periodic = periodic }

  -- `setData`, where `own` is the data that stands for the timer itself
  abbrev pub set_data : (own : D) → Option D → Timer C D → Timer C D
  set_data own none t = record t { data_of = own }
  set_data own (some d) t = record t { data_of = d }

  -- `~Timer` of the timer at the address `p`
  unfoldable pub destroy : Ptr → Timers C D → Timers C D
  destroy p t = record t { timers = erase ℕ_discrete p t.timers }

  abbrev pub set_callback : C → Timer C D → Timer C D
  set_callback callback t = record t { callback = some callback }

  -- the first loop of `timer_handler`, for one timer
  abbrev pub count_down : Timer C D → Timer C D
  count_down t = if t.running then record t { current = decrement t.current } else t

  -- The test of the first loop, behind the decrement.
  abbrev pub is_due : Timer C D → Bool
  is_due t = t.running && (t.current == 0 && is_some t.callback)

  -- the third loop, for one timer
  abbrev pub expire : Timer C D → Timer C D
  expire t =
      if t.running && t.current == 0
      then (if t.periodic then record t { current = t.timeout } else record t { running = false })
      else t

  unfoldable pub over : (Timer C D → Timer C D) → List (Ptr × Timer C D) → List (Ptr × Timer C D)
  over f = map (λ e. (e.0, f e.1))

  -- `callbackList`
  unfoldable pub due : List (Ptr × Timer C D) → List Ptr
  due [] = []
  due ((p, t) ∷ l) = let rest = due l in if is_due t then p ∷ rest else rest

  module _ {S : Type 0} (run : C → D → Timers C D × S → Timers C D × S) where
    -- One round of the second loop; a timer that a callback has destroyed is a fault.
    abbrev pub call : Ptr → Timers C D × S → Result (Timers C D × S)
    call p (t, s) = do
      timer ← of_option (lookup ℕ_discrete p t.timers)
      callback ← of_option timer.callback
      ok (run callback timer.data_of (t, s))

    -- the second loop
    unfoldable pub call_all : List Ptr → Timers C D × S → Result (Timers C D × S)
    call_all [] w = ok w
    call_all (p ∷ l) w = do w ← call p w; call_all l w

    -- `timer_handler`
    unfoldable pub timer_handler : Timers C D × S → Result (Timers C D × S)
    timer_handler (t, s) = do
      let counted = over count_down t.timers
      (t, s) ← call_all (due counted) (record t { timers = counted }, s)
      ok (record t { timers = over expire t.timers }, s)
