-- ===== src/Timers/Handler.antt =====
-- The whole signal handler, where the callbacks leave the timers as they are.
use simple_distributed_cache.Common.{
  ◌≡◌, Option-cases, true, false, none, some, List, [], ◌∷◌, arith, ℕ_discrete, Ptr, ok,
  if◌then◌else◌, All, refl, inl, inr, Bool-cases, is_some, Bool, Option, ◌<◌, ◌^◌, ◌-◌, ◌&&◌, ◌==◌,
}
use simple_distributed_cache.Common.Assoc.{lookup}
use simple_distributed_cache.Timers.{
  Timer, Timers, over, count_down, expire, is_due, due, call, call_all, timer_handler,
}
use simple_distributed_cache.Timers.Expiry.{decrement_lem}

module _ {C D : Type 0} where
  -- No two timers have one address.
  abbrev pub IsApart : List (Ptr × Timer C D) → Type 0
  IsApart [] = Unit
  IsApart ((p, t) ∷ l) = (lookup ℕ_discrete p l ≡ none) × IsApart l

  lookup-over :
      (f : Timer C D → Timer C D) (p : Ptr) (l : List (Ptr × Timer C D))
      → lookup ℕ_discrete p l ≡ none
      → lookup ℕ_discrete p (over f l) ≡ none
  unfolding lookup over
  lookup-over f p [] h = refl
  lookup-over f p ((q, t) ∷ l) h = ground (arith, lookup-over f p l)

  over-IsApart :
      (f : Timer C D → Timer C D) (l : List (Ptr × Timer C D)) → IsApart l → IsApart (over f l)
  unfolding over
  over-IsApart f [] h = tt
  over-IsApart f ((p, t) ∷ l) (h, r) = (lookup-over f p l h, over-IsApart f l r)

  -- A timer that runs has a tick to go, and no more than an `int32_t` can count.
  abbrev pub IsCounting : Timer C D → Type 0
  IsCounting t = (t.running ≡ true → 0 < t.current) × (t.current < 2 ^ 32)

  -- A timer behind one tick, by what a timer is for: one that does not run stays, one that has
  -- more than one tick to go has one less, and one that elapses starts over or stops.
  unfoldable pub elapses : Timer C D → Bool
  elapses t = t.running && t.current == 1

  unfoldable pub after_tick : Timer C D → Timer C D
  after_tick t =
      if elapses t
      then (if t.periodic
          then record t { current = t.timeout }
          else record t { running = false; current = 0 })
      else (if t.running then record t { current = t.current - 1 } else t)

  tick-after_tick : (t : Timer C D) → IsCounting t → expire (count_down t) ≡ after_tick t
  unfolding after_tick elapses
  tick-after_tick t (h, b) = elim (Bool-cases t.running) [
    | inl r ↦ ground (arith, decrement_lem (t.current - 1), h r)
    | inr r ↦ ground arith
  ]

  due-elapses :
      (t : Timer C D) → IsCounting t → is_due (count_down t) ≡ elapses t && is_some t.callback
  unfolding elapses
  due-elapses t (h, b) = elim (Bool-cases t.running) [
    | inl r ↦ ground (arith, decrement_lem (t.current - 1), h r)
    | inr r ↦ ground arith
  ]

  over-over :
      (l : List (Ptr × Timer C D))
      → All (λ e. IsCounting e.1) l
      → over expire (over count_down l) ≡ over after_tick l
  unfolding over
  over-over [] b = refl
  over-over ((p, t) ∷ l) (k, b) = rw (tick-after_tick t k, over-over l b)

  -- The list has the timer at its address, counted down.
  abbrev IsThere : List (Ptr × Timer C D) → Ptr × Timer C D → Type 0
  IsThere m (p, t) = lookup ℕ_discrete p m ≡ some (count_down t)

  IsThere-cons :
      (p : Ptr) (u : Timer C D) (m l : List (Ptr × Timer C D))
      → lookup ℕ_discrete p l ≡ none
      → All (IsThere m) l
      → All (IsThere ((p, u) ∷ m)) l
  unfolding lookup
  IsThere-cons p u m [] h a = tt
  IsThere-cons p u m ((q, t) ∷ l) h (x, a) =
      (ground (arith, h, x), IsThere-cons p u m l (ground (arith, h)) a)

  over-IsThere : (l : List (Ptr × Timer C D)) → IsApart l → All (IsThere (over count_down l)) l
  unfolding over lookup
  over-IsThere [] h = tt
  over-IsThere ((p, t) ∷ l) (h, r) =
      (ground arith, IsThere-cons p (count_down t) (over count_down l) l h (over-IsThere l r))

  module _ {S : Type 0} (run : C → D → Timers C D × S → Timers C D × S) where
    -- What one callback does to the rest of the program.
    abbrev pub effect : Option C → D → Timers C D → S → S
    effect none d t s = s
    effect (some c) d t s = (run c d (t, s)).1

    -- The callbacks of the timers that elapse, one by one in the order of the list.
    unfoldable pub called : Timers C D → List (Ptr × Timer C D) → S → S
    called t [] s = s
    called t ((p, u) ∷ l) s = called t l (if elapses u then effect u.callback u.data_of t s else s)

    module _ (keeps : (c : C) (d : D) (w : Timers C D × S) → (run c d w).0 ≡ w.0) where
      call-ok :
          (p : Ptr) (u : Timer C D) (c : C) (d : D) (t : Timers C D) (s : S)
          → lookup ℕ_discrete p t.timers ≡ some u
          → u.callback ≡ some c
          → u.data_of ≡ d
          → call run p (t, s) ≡ ok (t, (run c d (t, s)).1)
      call-ok p u c d t s x e f = rw (x, e, f, keeps c d (t, s))

      call-effect :
          (p : Ptr) (u : Timer C D) (t : Timers C D) (s : S)
          → IsThere t.timers (p, u)
          → is_some u.callback ≡ true
          → call run p (t, s) ≡ ok (t, effect u.callback u.data_of t s)
      call-effect p u t s x i = elim (Option-cases u.callback) [
        | inl e ↦ absurd (ground (arith, i, e))
        | inr (c, e) ↦
            let e' : (count_down u).callback ≡ some c = ground (arith, e) in
            let d : (count_down u).data_of ≡ u.data_of = ground arith in
            rw (call-ok p (count_down u) c u.data_of t s x e' d, e)
      ]

      call_all-called :
          (t : Timers C D) (l : List (Ptr × Timer C D)) (s : S)
          → All (IsThere t.timers) l
          → All (λ e. IsCounting e.1) l
          → call_all run (due (over count_down l)) (t, s) ≡ ok (t, called t l s)
      unfolding call_all called due over
      call_all-called t [] s a b = refl
      call_all-called t ((p, u) ∷ l) s (x, a) (k, b) =
          let rest = λ (s : S). call_all-called t l s a b in
          elim (Bool-cases (elapses u)) [
            | inl d ↦ elim (Bool-cases (is_some u.callback)) [
              | inl i ↦ rw (
                due-elapses u k,
                d,
                i,
                call-effect p u t s x i,
                rest (effect u.callback u.data_of t s),
              )
              | inr i ↦ elim (Option-cases u.callback) [
                | inl e ↦ rw (due-elapses u k, d, i, e, rest s)
                | inr (c, e) ↦ absurd (ground (arith, i, e))
              ]
            ]
            | inr d ↦ rw (due-elapses u k, d, rest s)
          ]

      -- Where the timers have addresses of their own, every count is below 2 ^ 32 and not 0 in
      -- a timer that runs, and the callbacks leave the timers as they are, the signal handler
      -- ends with no fault. Every timer is then the one behind a tick by `after_tick`: counted
      -- down, or where it elapses started over, if periodic, or stopped. The callbacks of the
      -- timers that elapse, and no others, have run once each, in the order of the list, with
      -- the timers counted down.
      pub timer_handler-called :
          (t : Timers C D) (s : S)
          → IsApart t.timers
          → All (λ e. IsCounting e.1) t.timers
          → timer_handler run (t, s)
            ≡ ok (
              record t { timers = over after_tick t.timers },
              called (record t { timers = over count_down t.timers }) t.timers s,
            )
      unfolding timer_handler
      timer_handler-called t s h b =
          let counted : Timers C D = record t { timers = over count_down t.timers } in
          rw (call_all-called counted t.timers s (over-IsThere t.timers h) b, over-over t.timers b)
