-- ===== src/Witnesses/Timing.antt =====
-- Tests of the timers on concrete inputs.
use simple_distributed_cache.Common.{
  ℕ, ℕ_discrete, ◌+◌, ◌≡◌, refl, true, false, some, none, ◌%◌, [], ◌∷◌, ok, ◌==◌, arith,
}
use simple_distributed_cache.Common.Assoc.{lookup}
use simple_distributed_cache.Timers.{
  Timer, Timers, is_due, count_down, over, timer_handler, call_all, due, start, set_callback,
  new_timer,
}
use simple_distributed_cache.Timers.Ticks.{ticks}
use simple_distributed_cache.Timers.Periodic.{is_due-periodic}
use simple_distributed_cache.Timers.Handler.{timer_handler-called, called, after_tick}

-- A timer with the data 7, and a callback that adds its data to the state.
abbrev one_shot : Timer ℕ ℕ
one_shot = record {
  timeout = 5;
  periodic = false;
  running = true;
  callback = some 1;
  data_of = 7;
  current = 5;
}

abbrev again : Timer ℕ ℕ
again = record one_shot { periodic = true; current = 1 }

abbrev add : ℕ → ℕ → Timers ℕ ℕ × ℕ → Timers ℕ ℕ × ℕ
add c d (t, s) = (t, s + d)

abbrev both : Timers ℕ ℕ
both = record { timers = (16, one_shot) ∷ (32, again) ∷ []; initialized = true }

-- The timer of the heartbeat of a cache server, at the end of its third round.
is_due-periodic_example :
    is_due {C = ℕ} {D = ℕ}
      (count_down (ticks 29 (start (set_callback 1 (new_timer true true (9 + 1) true none 7)))))
    ≡ (29 % (9 + 1) == 9)
is_due-periodic_example = is_due-periodic 9 1 7 (omega arith) true true 29

timer_handler-called_example :
    timer_handler add (both, 1)
    ≡ ok (
      record both { timers = over after_tick both.timers },
      called add (record both { timers = over count_down both.timers }) both.timers 1,
    )
unfolding ℕ_discrete lookup
timer_handler-called_example =
    timer_handler-called add (λ c d w. refl) both 1 (refl, (refl, tt))
      (((λ r. omega arith), omega arith), (((λ r. omega arith), omega arith), tt))

-- The second timer elapses and adds 7, and starts over; the first has four ticks to go.
both_ticked :
    timer_handler add (both, 1)
    ≡ ok (
      record both {
        timers = (16, record one_shot { current = 4 }) ∷ (32, record again { current = 5 }) ∷ [];
      },
      8,
    )
unfolding ℕ_discrete lookup timer_handler call_all due over
both_ticked = refl
