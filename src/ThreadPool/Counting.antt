-- ===== src/ThreadPool/Counting.antt =====
-- How many threads run a task, and whether one has returned.
use simple_distributed_cache.Common.{
  ℕ, zero, suc, ◌+◌, ◌≤◌, ◌≡◌, refl, Bool, true, false, ◌||◌, some, List, [], ◌∷◌, get_elem?, set,
  length, arith,
}
use simple_distributed_cache.ThreadPool.{Worker, start_threads}

module _ {T : Type 0} where
  abbrev pub weight : Worker T → ℕ
  weight (Worker.busy t) = 1
  weight _ = 0

  abbrev pub has_returned : Worker T → Bool
  has_returned Worker.returned = true
  has_returned _ = false

  unfoldable pub active : List (Worker T) → ℕ
  active [] = 0
  active (w ∷ ws) = weight w + active ws

  unfoldable pub any_returned : List (Worker T) → Bool
  any_returned [] = false
  any_returned (w ∷ ws) = has_returned w || any_returned ws

  pub active-set :
      (ws : List (Worker T)) (i : ℕ) (old new : Worker T)
      → get_elem? ws i ≡ some old
      → active (set ws i new) + weight old ≡ active ws + weight new
  unfolding active
  active-set [] i old new h = absurd (cc h)
  active-set (w ∷ ws) zero old new h = ground (arith, h)
  active-set (w ∷ ws) (suc i) old new h = omega (arith, active-set ws i old new h)

  pub active-length : (ws : List (Worker T)) → active ws ≤ length ws
  unfolding active
  active-length [] = omega arith
  active-length (Worker.at_wait ∷ ws) = omega (arith, active-length ws)
  active-length (Worker.busy t ∷ ws) = omega (arith, active-length ws)
  active-length (Worker.returned ∷ ws) = omega (arith, active-length ws)

  pub any_returned-set :
      (ws : List (Worker T)) (i : ℕ) (new : Worker T)
      → any_returned ws ≡ false
      → has_returned new ≡ false
      → any_returned (set ws i new) ≡ false
  unfolding any_returned
  any_returned-set [] i new h k = refl
  any_returned-set (w ∷ ws) zero new h k = ground (arith, h, k)
  any_returned-set (w ∷ ws) (suc i) new h k = ground (arith, any_returned-set ws i new, h, k)

  pub length-set : (ws : List (Worker T)) (i : ℕ) (w : Worker T) → length (set ws i w) ≡ length ws
  length-set [] i w = refl
  length-set (v ∷ ws) zero w = refl
  length-set (v ∷ ws) (suc i) w = omega (arith, length-set ws i w)

module _ (T : Type 0) where
  pub length-start_threads : (n : ℕ) → length (start_threads {T = T} n) ≡ n
  unfolding start_threads
  length-start_threads zero = refl
  length-start_threads (suc n) = omega (arith, length-start_threads n)

  pub active-start_threads : (n : ℕ) → active (start_threads {T = T} n) ≡ 0
  unfolding active start_threads
  active-start_threads zero = refl
  active-start_threads (suc n) = omega (arith, active-start_threads n)

  pub any_returned-start_threads : (n : ℕ) → any_returned (start_threads {T = T} n) ≡ false
  unfolding any_returned start_threads
  any_returned-start_threads zero = refl
  any_returned-start_threads (suc n) = any_returned-start_threads n
