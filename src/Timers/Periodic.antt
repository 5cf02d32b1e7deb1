-- ===== src/Timers/Periodic.antt =====
-- When a periodic timer is due, such as the one of `Heartbeat`, cache/src/cache.cpp.
use simple_distributed_cache.Common.{
  ℕ, zero, suc, ◌+◌, ◌-◌, ◌%◌, ◌^◌, ◌<◌, ◌≤◌, ◌≡◌, ◌∙◌, sym, ap, Bool, true, some, none, ◌==◌,
  arith,
}
use native.Mathlib.Nat.{mod-eq_of_lt, add-mod_right}
use simple_distributed_cache.Timers.{
  Timer, count_down, is_due, expire, new_timer, start, set_callback,
}
use simple_distributed_cache.Timers.Ticks.{tick, ticks}
use simple_distributed_cache.Timers.Expiry.{decrement_lem}

module _ {C D : Type 0} (n : ℕ) (callback : C) (d : D) (b : n + 1 < 2 ^ 32) where
  -- The timer with c + 1 ticks to go.
  abbrev at : ℕ → Timer C D
  at c = record {
    timeout = n + 1;
    periodic = true;
    running = true;
    callback = some callback;
    data_of = d;
    current = c + 1;
  }

  count_down-at : (c : ℕ) → c ≤ n → count_down (at c) ≡ record (at 0) { current = c }
  count_down-at c h =
      ap (λ k. record (at 0) { current = k }) (decrement_lem c (omega (arith, h, b)))

  tick-at : (c : ℕ) → suc c ≤ n → tick (at (suc c)) ≡ at c
  tick-at c h = ap expire (count_down-at (suc c) h) ∙ ground arith

  tick-at_last : tick (at 0) ≡ at n
  tick-at_last = ap expire (count_down-at 0 (omega arith))

  due_now : (c : ℕ) → c ≤ n → is_due (count_down (at c)) ≡ (c == 0)
  due_now c h = ap is_due (count_down-at c h) ∙ ground arith

  -- No tick of the first round but the last one has the remainder n.
  first_round : (c : ℕ) → c ≤ n → (c == 0) ≡ ((0 + (n - c)) % (n + 1) == n)
  first_round c h =
      let small = mod-eq_of_lt {n = 0 + (n - c)} {m = n + 1} (omega arith) in
      ground (arith, h) ∙ sym (ap (λ m. m == n) small)

  due_from :
      (c k : ℕ) → c ≤ n → is_due (count_down (ticks k (at c))) ≡ ((k + (n - c)) % (n + 1) == n)
  unfolding ticks
  due_from c zero h = due_now c h ∙ first_round c h
  due_from zero (suc k) h =
      let here : k + (n - n) ≡ k = omega arith in
      let round : suc k + (n - 0) ≡ k + (n + 1) = omega arith in
      ap (λ t. is_due (count_down (ticks k t))) tick-at_last
      ∙ due_from n k (omega arith)
      ∙ ap (λ m. m % (n + 1) == n) here
      ∙ sym (ap (λ m. m == n) (ap (λ m. m % (n + 1)) round ∙ add-mod_right k (n + 1)))
  due_from (suc c) (suc k) h =
      let one : k + (n - c) ≡ suc k + (n - suc c) = omega (arith, h) in
      ap (λ t. is_due (count_down (ticks k t))) (tick-at c h)
      ∙ due_from c k (omega (arith, h))
      ∙ ap (λ m. m % (n + 1) == n) one

  -- A periodic timer of n + 1 ticks that is made, gets a callback and is started is due at the
  -- ticks whose number, counted from 0, has the remainder n by n + 1, and at no other: the last
  -- one of each n + 1.
  pub is_due-periodic :
      (junk initialized : Bool) (k : ℕ)
      → is_due (
          count_down (
            ticks k
              (start (set_callback callback (new_timer junk initialized (n + 1) true none d)))))
        ≡ (k % (n + 1) == n)
  unfolding new_timer
  is_due-periodic junk initialized k =
      let all : k + (n - n) ≡ k = omega arith in
      due_from n k (omega arith) ∙ ap (λ m. m % (n + 1) == n) all
