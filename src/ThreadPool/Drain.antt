-- ===== src/ThreadPool/Drain.antt =====
-- A thread of the pool that gets turns works the queue off, cache/src/threadPool.hpp.
use simple_distributed_cache.Common.{
  ℕ, zero, suc, ◌+◌, ◌≡◌, refl, sym, ap, ◌∙◌, Bool, true, none, some, List, [], ◌∷◌, ◌++◌, length,
  get_elem?, set, ◌%◌, ◌^◌, ◌-◌, if◌then◌else◌,
}
use mathlib.Core.Path.{subst}
use simple_distributed_cache.ThreadPool.Sound.{IsSound}
use mathlib.Core.List.{append_assoc, append-nil}
use simple_distributed_cache.ThreadPool.{
  ThreadPool, Event, at_wait, busy, returned, turn, destroy, wake, turn_of, next, stop_pool, run,
}

get_elem?-set :
    {A : Type 0} (l : List A) (i : ℕ) (v w : A)
    → get_elem? l i ≡ some v
    → get_elem? (set l i w) i ≡ some w
get_elem?-set [] i v w h = absurd (cc h)
get_elem?-set (x ∷ l) zero v w h = refl
get_elem?-set (x ∷ l) (suc i) v w h = get_elem?-set l i v w h

-- Two turns of the thread for each of `n` tasks: it takes one, and has run it.
unfoldable pub turns : {T : Type 0} (i n : ℕ) → List (Event T)
turns i zero = []
turns i (suc n) = turn i ∷ turn i ∷ turns i n

module _ {T : Type 0} (i : ℕ) where
  -- What a thread's turns on a queue leave.
  record Drained (tasks : List T) (p p' : ThreadPool T) : Type 0 where
    empty : p'.tasks ≡ []
    all_started : p'.started ≡ p.started ++ tasks
    waits : get_elem? p'.threads i ≡ some at_wait
    stopped : p'.is_pool_stoped ≡ p.is_pool_stoped
    accepted : p'.accepted ≡ p.accepted

  abbrev after : ThreadPool T → ThreadPool T
  after p = elim (next (turn i) p) [ none ↦ p | some q ↦ q ]

  after_next : (p q : ThreadPool T) → next (turn i) p ≡ some q → after p ≡ q
  after_next p q h = ap (λ o. elim o [ none ↦ p | some q ↦ q ]) h

  run-Drained :
      (tasks : List T) (p : ThreadPool T)
      → get_elem? p.threads i ≡ some at_wait
      → p.tasks ≡ tasks
      → Drained tasks p (run (turns i (length tasks)) p)
  unfolding run turns
  run-Drained [] p w e = record {
    empty = e;
    all_started = sym (append-nil p.started);
    waits = w;
    stopped = refl;
    accepted = refl;
  }
  run-Drained (t ∷ rest) p w e =
      let p1 : ThreadPool T = record p {
        threads = set p.threads i (busy t);
        tasks = rest;
        num_active_threads = (p.num_active_threads + 1) % 2 ^ 32;
        started = p.started ++ t ∷ [];
      } in
      let p2 : ThreadPool T = record p1 {
        threads = set p1.threads i at_wait;
        num_active_threads = (p1.num_active_threads + (2 ^ 32 - 1)) % 2 ^ 32;
      } in
      let runs : get_elem? p1.threads i ≡ some (busy t) =
        get_elem?-set p.threads i at_wait (busy t) w in
      let takes : next (turn i) p ≡ some p1 =
        unfold next turn_of wake in ap (λ o. turn_of i o p) w ∙ ap (λ l. wake i l p) e in
      let ends : next (turn i) p1 ≡ some p2 =
        unfold next turn_of in ap (λ o. turn_of i o p1) runs in
      let there : after (after p) ≡ p2 = ap after (after_next p p1 takes) ∙ after_next p1 p2 ends in
      let waits = get_elem?-set p1.threads i (busy t) at_wait runs in
      let d = run-Drained rest p2 waits refl in
      subst (λ q. Drained (t ∷ rest) p (run (turns i (length rest)) q)) (sym there)
        (record {
          empty = d.empty;
          all_started = d.all_started ∙ append_assoc p.started (t ∷ []) rest;
          waits = d.waits;
          stopped = d.stopped;
          accepted = d.accepted;
        })

  run-append : (es fs : List (Event T)) (p : ThreadPool T) → run (es ++ fs) p ≡ run fs (run es p)
  unfolding run
  run-append [] fs p = refl
  run-append (e ∷ es) fs p = run-append es fs (elim (next e p) [ none ↦ p | some q ↦ q ])

  -- A thread leaves an empty queue of a pool that is stopped.
  leaves :
      (r : ThreadPool T)
      → get_elem? r.threads i ≡ some at_wait
      → r.tasks ≡ []
      → r.is_pool_stoped ≡ true
      → next (turn i) r ≡ some (record r { threads = set r.threads i returned })
  unfolding next turn_of wake
  leaves r w e s =
      ap (λ o. turn_of i o r) w
      ∙ ap (λ l. wake i l r) e
      ∙ ap
          (λ (b : Bool). if b then some (record r { threads = set r.threads i returned }) else none)
          s

  -- Behind the first block of the destructor, a thread of a sound pool that is at its wait and
  -- gets two turns for each task in the queue and one more has returned, so that join ends; the
  -- queue is empty, and every task that was accepted has been started, in order.
  pub run-returned :
      (p : ThreadPool T)
      → IsSound p
      → get_elem? p.threads i ≡ some at_wait
      → let p' = run (destroy ∷ turns i (length p.tasks) ++ turn i ∷ []) p in
        (get_elem? p'.threads i ≡ some returned) × (p'.tasks ≡ []) × (p'.started ≡ p.accepted)
  unfolding run next stop_pool
  run-returned p s w =
      let q : ThreadPool T = stop_pool p in
      let es : List (Event T) = turns i (length p.tasks) in
      let d = run-Drained p.tasks q w refl in
      let r = run es q in
      let r' : ThreadPool T = record r { threads = set r.threads i returned } in
      let last : after r ≡ r' = after_next r r' (leaves r d.waits d.empty d.stopped) in
      let there : run (es ++ turn i ∷ []) q ≡ r' = run-append es (turn i ∷ []) q ∙ last in
      subst
        (λ r. (get_elem? r.threads i ≡ some returned) × (r.tasks ≡ []) × (r.started ≡ p.accepted))
        (sym there)
        (get_elem?-set r.threads i at_wait returned d.waits, d.empty, d.all_started ∙ sym s.ordered)
