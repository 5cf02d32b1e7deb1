-- ===== src/ThreadPool/Sound.antt =====
-- What holds of the pool after any order of events.
use simple_distributed_cache.Common.{
  ℕ, ◌%◌, ◌^◌, ◌<◌, ◌≡◌, refl, sym, ap, ◌∙◌, true, false, Option, none, some, List, [], ◌∷◌, ◌++◌,
  if◌then◌else◌, get_elem?, set, length, arith, ◌⊎◌, inl, inr, Bool-cases,
}
use mathlib.Core.List.{append_assoc}
use mathlib.Core.Path.{subst}
use simple_distributed_cache.ThreadPool.{
  Worker, ThreadPool, Event, init, enqueue, stop_pool, wake, turn_of, next, run,
}
use simple_distributed_cache.ThreadPool.Counting.{
  active, any_returned, active-set, active-length, has_returned, any_returned-set, length-set,
  length-start_threads, active-start_threads, any_returned-start_threads,
}

-- The tasks that were accepted are those that were started, in order, and those that wait behind
-- them. The counter is the number of threads that run a task. A thread has returned only where
-- the pool is stopped and no task waits.
pub record IsSound {T : Type 0} (p : ThreadPool T) : Type 0 where
  pub ordered : p.accepted ≡ p.started ++ p.tasks
  pub counted : p.num_active_threads ≡ active p.threads
  pub few : length p.threads < 2 ^ 32
  pub left : (any_returned p.threads ≡ false) ⊎ ((p.is_pool_stoped ≡ true) × (p.tasks ≡ []))

module _ {T : Type 0} where
  init-IsSound : (n : ℕ) → IsSound {T = T} (init n)
  unfolding init
  init-IsSound n = record {
    ordered = refl;
    counted = sym (active-start_threads T (n % 2 ^ 32));
    few = omega (arith, length-start_threads T (n % 2 ^ 32));
    left = inl (any_returned-start_threads T (n % 2 ^ 32));
  }

  of_some : {p p' : ThreadPool T} → some p ≡ some p' → IsSound p → IsSound p'
  of_some h s = subst IsSound (cc h) s

  -- A thread that is not returned takes the place of another.
  left-set :
      (p : ThreadPool T) (i : ℕ) (w : Worker T)
      → has_returned w ≡ false
      → IsSound p
      → (any_returned (set p.threads i w) ≡ false) ⊎ ((p.is_pool_stoped ≡ true) × (p.tasks ≡ []))
  left-set p i w k s = elim s.left [
    | inl a ↦ inl (any_returned-set p.threads i w a k)
    | inr b ↦ inr b
  ]

  wake-IsSound :
      (i : ℕ) (p p' : ThreadPool T)
      → IsSound p
      → get_elem? p.threads i ≡ some Worker.at_wait
      → (tasks : List T) → p.tasks ≡ tasks
      → wake i tasks p ≡ some p'
      → IsSound p'
  unfolding wake
  wake-IsSound i p p' s w [] q h = elim (Bool-cases p.is_pool_stoped) [
    | inr e ↦ absurd (
        cc (
          sym (
            ap
              (λ b.
                if b then some (record p { threads = set p.threads i Worker.returned }) else none)
              e)
          ∙ h))
    | inl e ↦
        of_some
          (sym (
              ap
                (λ b.
                  if b then some (record p { threads = set p.threads i Worker.returned }) else none)
                e)
            ∙ h)
          (record {
            ordered = s.ordered;
            counted =
                omega (arith, s.counted, active-set p.threads i Worker.at_wait Worker.returned w);
            few = omega (arith, length-set p.threads i Worker.returned, s.few);
            left = inr (e, q);
          })
  ]
  wake-IsSound i p p' s w (t ∷ rest) q h = of_some h (record {
    ordered = s.ordered ∙ ap (λ l. p.started ++ l) q ∙ sym (append_assoc p.started (t ∷ []) rest);
    counted = omega (
      arith,
      s.counted,
      s.few,
      active-set p.threads i Worker.at_wait (Worker.busy t) w,
      active-length (set p.threads i (Worker.busy t)),
      length-set p.threads i (Worker.busy t),
    );
    few = omega (arith, length-set p.threads i (Worker.busy t), s.few);
    left = elim s.left [
      | inl a ↦ inl (any_returned-set p.threads i (Worker.busy t) a refl)
      | inr (_, e) ↦ absurd (cc (e, q))
    ];
  })

  turn_of-IsSound :
      (i : ℕ) (p p' : ThreadPool T)
      → IsSound p
      → (o : Option (Worker T)) → get_elem? p.threads i ≡ o
      → turn_of i o p ≡ some p'
      → IsSound p'
  unfolding turn_of
  turn_of-IsSound i p p' s (some Worker.at_wait) w h = wake-IsSound i p p' s w p.tasks refl h
  turn_of-IsSound i p p' s (some (Worker.busy t)) w h = of_some h (record {
    ordered = s.ordered;
    counted = omega (
      arith,
      s.counted,
      s.few,
      active-set p.threads i (Worker.busy t) Worker.at_wait w,
      active-length p.threads,
    );
    few = omega (arith, length-set p.threads i Worker.at_wait, s.few);
    left = left-set p i Worker.at_wait refl s;
  })
  turn_of-IsSound i p p' s (some Worker.returned) w h = absurd (cc h)
  turn_of-IsSound i p p' s none w h = absurd (cc h)

  enqueue-IsSound : (t : T) (p p' : ThreadPool T) → IsSound p → enqueue t p ≡ some p' → IsSound p'
  unfolding enqueue
  enqueue-IsSound t p p' s h = elim (Bool-cases p.is_pool_stoped) [
    | inl e ↦ absurd (ground (arith, h, e))
    | inr e ↦
        let d : ThreadPool T = record p {
          tasks = p.tasks ++ t ∷ [];
          accepted = p.accepted ++ t ∷ [];
        } in
        of_some (sym (ap (λ b. if b then none else some d) e) ∙ h) (record {
          ordered = ap (λ l. l ++ t ∷ []) s.ordered ∙ append_assoc p.started p.tasks (t ∷ []);
          counted = s.counted;
          few = s.few;
          left = elim s.left [ inl a ↦ inl a | inr (f, _) ↦ absurd (cc (e, f)) ];
        })
  ]

  next-IsSound : (e : Event T) (p p' : ThreadPool T) → IsSound p → next e p ≡ some p' → IsSound p'
  unfolding next stop_pool
  next-IsSound (Event.call_enqueue t) p p' s h = enqueue-IsSound t p p' s h
  next-IsSound Event.destroy p p' s h = of_some h (record {
    ordered = s.ordered;
    counted = s.counted;
    few = s.few;
    left = elim s.left [ inl a ↦ inl a | inr (_, e) ↦ inr (refl, e) ];
  })
  next-IsSound (Event.turn i) p p' s h = turn_of-IsSound i p p' s (get_elem? p.threads i) refl h

  after :
      (e : Event T) (p : ThreadPool T) (o : Option (ThreadPool T))
      → IsSound p
      → next e p ≡ o
      → IsSound (elim o [ none ↦ p | some p' ↦ p' ])
  after e p none s h = s
  after e p (some p') s h = next-IsSound e p p' s h

  run-from : (es : List (Event T)) (p : ThreadPool T) → IsSound p → IsSound (run es p)
  unfolding run
  run-from [] p s = s
  run-from (e ∷ es) p s = run-from es _ (after e p (next e p) s refl)

  -- After any order of calls of enqueue, turns of the threads and the destructor on a new pool,
  -- the tasks that were accepted are those that were started, in order, and those that wait
  -- behind them; the counter is the number of threads that run a task; and a thread has
  -- returned only where the pool is stopped and no task waits.
  pub run-IsSound : (es : List (Event T)) (capacity : ℕ) → IsSound (run es (init capacity))
  run-IsSound es capacity = run-from es (init capacity) (init-IsSound capacity)
