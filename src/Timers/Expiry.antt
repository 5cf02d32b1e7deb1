-- ===== src/Timers/Expiry.antt =====
-- When a timer is due.
use simple_distributed_cache.Common.{
  ℕ, zero, suc, ◌+◌, ◌^◌, ◌<◌, ◌≡◌, ◌∙◌, true, false, ◌==◌, is_some, arith,
}
use simple_distributed_cache.Timers.{Timer, count_down, is_due, decrement}
use simple_distributed_cache.Timers.Ticks.{tick, ticks}

pub decrement_lem : (n : ℕ) → n + 1 < 2 ^ 32 → decrement (n + 1) ≡ n
decrement_lem n h = omega arith

module _ {C D : Type 0} where
  -- A timer that is stopped is not due at any later tick.
  pub stopped_lem :
      (k : ℕ) (t : Timer C D) → t.running ≡ false → is_due (count_down (ticks k t)) ≡ false
  unfolding ticks
  stopped_lem zero t h = ground (arith)
  stopped_lem (suc k) t h = stopped_lem k (tick t) (ground arith)

  -- A one-shot timer that runs with n + 1 ticks to go and has a callback is due at the tick
  -- with the number n, counted from 0, and at no other.
  pub is_due-ticks :
      (n k : ℕ) (t : Timer C D)
      → t.running ≡ true
      → t.periodic ≡ false
      → is_some t.callback ≡ true
      → t.current ≡ n + 1
      → n + 1 < 2 ^ 32
      → is_due (count_down (ticks k t)) ≡ (k == n)
  unfolding ticks
  is_due-ticks zero zero t r p c h b = ground (arith, decrement_lem 0 b)
  is_due-ticks zero (suc k) t r p c h b =
      stopped_lem k (tick t) (ground (arith, decrement_lem 0 b)) ∙ ground arith
  is_due-ticks (suc n) zero t r p c h b = ground (arith, decrement_lem (suc n) b)
  is_due-ticks (suc n) (suc k) t r p c h b =
      is_due-ticks n k (tick t) (ground (arith, decrement_lem (suc n) b))
        (ground (arith, decrement_lem (suc n) b)) (ground (arith, decrement_lem (suc n) b))
        (ground (arith, decrement_lem (suc n) b)) (omega arith)
      ∙ ground arith
