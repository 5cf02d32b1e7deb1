-- ===== src/Timers/Lifetime.antt =====
-- Timers that come and go, Client/src/timer.cpp: the list `pTimers` has each timer once, under its
-- address.
use simple_distributed_cache.Common.{
  ◌≡◌, ◌≢◌, refl, sym, Bool, none, Option, List, [], ◌∷◌, ◌++◌, Ptr, ℕ, ℕ_discrete, arith,
  ite_either,
}
use simple_distributed_cache.Common.Assoc.{lookup, erase, lookup-erase}
use simple_distributed_cache.Timers.{Timer, Timers, create_timer, destroy, new_timer}
use simple_distributed_cache.Timers.Handler.{IsApart}

module _ {C D : Type 0} where
  lookup-append_last :
      (q p : Ptr) (t : Timer C D) (l : List (Ptr × Timer C D))
      → lookup ℕ_discrete q l ≡ none
      → q ≢ p
      → lookup ℕ_discrete q (l ++ (p, t) ∷ []) ≡ none
  unfolding lookup
  lookup-append_last q p t [] h n = ground (arith, n)
  lookup-append_last q p t ((r, u) ∷ l) h n = ground (arith, h, n, lookup-append_last q p t l)

  lookup_head :
      (p q : Ptr) (t : Timer C D) (l : List (Ptr × Timer C D))
      → lookup ℕ_discrete p ((q, t) ∷ l) ≡ none
      → (p ≢ q) × (lookup ℕ_discrete p l ≡ none)
  unfolding lookup
  lookup_head p q t l h = ((λ e. ground (arith, h, e)), ground (arith, h))

  append-IsApart :
      (p : Ptr) (t : Timer C D) (l : List (Ptr × Timer C D))
      → lookup ℕ_discrete p l ≡ none
      → IsApart l
      → IsApart (l ++ (p, t) ∷ [])
  unfolding lookup
  append-IsApart p t [] h a = (refl, tt)
  append-IsApart p t ((q, u) ∷ l) h (n, a) =
      let (other, rest) = lookup_head p q u l h in
      (lookup-append_last q p t l n (λ e. other (sym e)), append-IsApart p t l rest a)

  erase-IsApart :
      (p : Ptr) (l : List (Ptr × Timer C D)) → IsApart l → IsApart (erase ℕ_discrete p l)
  unfolding erase
  erase-IsApart p [] a = tt
  erase-IsApart p ((q, u) ∷ l) (n, a) =
      ite_either IsApart (ℕ_discrete p q) (erase ℕ_discrete p l) ((q, u) ∷ erase ℕ_discrete p l)
        (λ e. erase-IsApart p l a)
        λ e. (let w = lookup-erase ℕ_discrete q p l in ground (arith, w, n), erase-IsApart p l a)

  erase-append_last :
      (p : Ptr) (t : Timer C D) (l : List (Ptr × Timer C D))
      → lookup ℕ_discrete p l ≡ none
      → erase ℕ_discrete p (l ++ (p, t) ∷ []) ≡ l
  unfolding erase lookup
  erase-append_last p t [] h = ground arith
  erase-append_last p t ((q, u) ∷ l) h = ground (arith, h, erase-append_last p t l)

  -- The addresses stay apart where a timer is made at an address that no timer has, and where one
  -- is destroyed.
  create_timer-IsApart :
      (junk : Bool) (p : Ptr) (timeout : ℕ) (periodic : Bool) (callback : Option C) (d : D)
      (t : Timers C D)
      → lookup ℕ_discrete p t.timers ≡ none
      → IsApart t.timers
      → IsApart (create_timer junk p timeout periodic callback d t).timers
  unfolding create_timer
  create_timer-IsApart junk p timeout periodic callback d t h a =
      append-IsApart p (new_timer junk t.initialized timeout periodic callback d) t.timers h a

  destroy-IsApart : (p : Ptr) (t : Timers C D) → IsApart t.timers → IsApart (destroy p t).timers
  unfolding destroy
  destroy-IsApart p t a = erase-IsApart p t.timers a

  -- Destroying the timer that was made last gives the list of before.
  destroy-create_timer :
      (junk : Bool) (p : Ptr) (timeout : ℕ) (periodic : Bool) (callback : Option C) (d : D)
      (t : Timers C D)
      → lookup ℕ_discrete p t.timers ≡ none
      → (destroy p (create_timer junk p timeout periodic callback d t)).timers ≡ t.timers
  unfolding create_timer destroy
  destroy-create_timer junk p timeout periodic callback d t h =
      erase-append_last p (new_timer junk t.initialized timeout periodic callback d) t.timers h
