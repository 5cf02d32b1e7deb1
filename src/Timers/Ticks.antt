-- ===== src/Timers/Ticks.antt =====
-- One timer under repeated ticks of the handler, without the callbacks.
use simple_distributed_cache.Common.{ℕ, zero, suc}
use simple_distributed_cache.Timers.{Timer, count_down, expire}

module _ {C D : Type 0} where
  -- What one call of the handler does to a timer that no callback touches.
  abbrev pub tick : Timer C D → Timer C D
  tick t = expire (count_down t)

  unfoldable pub ticks : ℕ → Timer C D → Timer C D
  ticks zero t = t
  ticks (suc n) t = ticks n (tick t)
