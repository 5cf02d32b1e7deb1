-- ===== src/Master/Events/Losses.antt =====
-- The master's ring where a cache server is lost or taken out.
use simple_distributed_cache.Common.{
  ℕ, ◌+◌, ◌-◌, ◌≤◌, ◌≡◌, refl, sym, ap, ◌∙◌, true, Option, none, some, List, [], ◌∷◌, ◌++◌, ok,
  ◌>>=◌, arith, length, Gives, Gives-then, Gives-any, Gives-if, Gives-if_so, of_option, ltb, ◌==◌,
  drop_last, length-drop_last, get_elem?, Bool-cases, inl, inr,
}
use mathlib.Core.Path.{subst}
use simple_distributed_cache.Text.{bytes}
use simple_distributed_cache.Ring.{delete_node, initialize}
use simple_distributed_cache.Ring.Exact.{empty_ring, NoCollision, delete_node-initialize}
use simple_distributed_cache.Master.{Master, Fdmap, server, set_server, broadcast}
use simple_distributed_cache.Master.Failure.{
  close, replace_sharp, replace_fd, replica_lost, promote, drop_primary, erase_fd, primary_lost,
  lost, first_dead, forget, handle_dead, detect,
}
use simple_distributed_cache.Master.Shrink.{announce_shrink, close_pair, finish_shrink}
use simple_distributed_cache.Master.Serve.{IsRing}
use simple_distributed_cache.Master.Rebalance.{take_out-IsRing, length-without}
use simple_distributed_cache.Master.Events.{finish}
use simple_distributed_cache.Master.Events.Rings.{IsSame, IsRingWithin}

pub replace_fd-length : (fd p : ℕ) (l : List ℕ) → length (replace_fd fd p l) ≡ length l
unfolding replace_fd
replace_fd-length fd p [] = refl
replace_fd-length fd p (x ∷ xs) = ground (arith, replace_fd-length fd p xs)

-- No two of up to `k` nodes have a point in common.
pub NoCollision-below : (k n : ℕ) → NoCollision 100 k → n ≤ k → NoCollision 100 n
NoCollision-below k n h le i j q a b = h i j q (omega (arith, a, le)) (omega (arith, b, le))

full_list : (l : List ℕ) → ltb 0 (length l) ≡ true → (x : ℕ) × (r : List ℕ) × (l ≡ x ∷ r)
full_list [] h = absurd (ground (arith, h))
full_list (x ∷ l) h = (x, l, refl)

pub close_pair-IsSame : (o : Option ℕ) (m : Master) → IsSame m (close_pair o m)
close_pair-IsSame none m = (refl, refl)
close_pair-IsSame (some p) m = elim (Bool-cases (ltb 0 p)) [
  | inl h ↦ rw h (refl, refl)
  | inr h ↦ rw h (refl, refl)
]

module _ (k : ℕ) (apart : NoCollision 100 k) where
  replica_lost-IsRing :
      (fd : ℕ) (o : Option ℕ) (m : Master)
      → IsRingWithin k m
      → Gives (IsRingWithin k) (replica_lost fd o m)
  unfolding replica_lost set_server
  replica_lost-IsRing fd none m r = tt
  replica_lost-IsRing fd (some p) m r = Gives-any (IsRingWithin k) (server p m) _ λ o. r

  promote-IsRing :
      (fd : ℕ) (e : Fdmap) (p : ℕ) (m : Master)
      → IsRingWithin k m
      → Gives (IsRingWithin k) (promote fd e p m)
  unfolding promote set_server broadcast
  promote-IsRing fd e p m (r, le) =
      let Q = IsRingWithin k in
      let long = replace_fd-length fd p m.fd_node in
      let s : IsRing (record m { fd_node = replace_fd fd p m.fd_node })
          × (length (replace_fd fd p m.fd_node) ≤ k) =
        (r ∙ ap (λ n. initialize n 100 empty_ring) (sym long), subst (λ n. n ≤ k) (sym long) le) in
      Gives-any Q (replace_sharp e.ip_cache) _ λ origin.
        Gives-any Q (server p _) _ λ o. Gives-any Q (replace_sharp o.ip_cache) _ λ backup. s

  drop_primary-within :
      (fd : ℕ) (e : Fdmap) (m : Master)
      → IsRingWithin k m
      → Gives (IsRingWithin k) (drop_primary fd e m)
  unfolding drop_primary broadcast
  drop_primary-within fd e m (r, le) =
      let (n, h, s, f, _, _) =
        take_out-IsRing fd m (erase_fd fd m.fd_node) refl r
          (NoCollision-below k (length m.fd_node) apart le) in
      subst
        (λ t.
          Gives (IsRingWithin k)
            (t >>= λ m. ok (close fd (broadcast (bytes "D#" ++ e.ip_cache) m))))
        (sym h)
        (s, subst (λ l. length l ≤ k) (sym f) (omega (arith, le, length-without fd m.fd_node)))

  primary_lost-IsRing :
      (fd : ℕ) (e : Fdmap) (o : Option ℕ) (m : Master)
      → IsRingWithin k m
      → Gives (IsRingWithin k) (primary_lost fd e o m)
  unfolding primary_lost
  primary_lost-IsRing fd e none m r = drop_primary-within fd e m r
  primary_lost-IsRing fd e (some p) m r =
      Gives-if (IsRingWithin k) (ltb 0 p) _ _ (promote-IsRing fd e p m r)
        (drop_primary-within fd e m r)

  lost-IsRing :
      (fd : ℕ) (e : Fdmap) (m : Master) → IsRingWithin k m → Gives (IsRingWithin k) (lost fd e m)
  unfolding lost
  lost-IsRing fd e m r =
      Gives-if (IsRingWithin k) (e.status == b'R') _ _ (replica_lost-IsRing fd e.pair_fd m r) (
        Gives-if (IsRingWithin k) (e.status == b'P') _ _ (primary_lost-IsRing fd e e.pair_fd m r) r)

  forget-IsRing : (fd : ℕ) (m : Master) → IsRingWithin k m → IsRingWithin k (forget fd m)
  unfolding forget
  forget-IsRing fd m r = elim (Bool-cases (ltb 0 fd)) [ inl h ↦ rw h r | inr h ↦ rw h r ]

  handle_dead-IsRing :
      (o : Option ℕ) (m : Master) → IsRingWithin k m → Gives (IsRingWithin k) (handle_dead o m)
  handle_dead-IsRing none m r = r
  handle_dead-IsRing (some fd) m r = Gives-any (IsRingWithin k) (server fd m) _ λ e.
      Gives-then (IsRingWithin k) (IsRingWithin k) (lost fd e m) _ (lost-IsRing fd e m r)
        λ n s. forget-IsRing fd n s

  pub detect-IsRing :
      (now : ℕ) (m : Master) → IsRingWithin k m → Gives (IsRingWithin k) (detect now m)
  unfolding detect
  detect-IsRing now m r =
      Gives-any (IsRingWithin k) (first_dead now m.caches_list m) _ λ o. handle_dead-IsRing o m r

  -- The ring has one server less than the list.
  finish-IsRing :
      (fd : ℕ) (m : Master) (x : ℕ) (l : List ℕ)
      → m.fd_node ≡ x ∷ l
      → length l ≤ k
      → m.hash ≡ initialize (length l) 100 empty_ring
      → Gives (IsRingWithin k) (finish_shrink fd m)
  unfolding finish_shrink
  finish-IsRing fd m x l full le r = Gives-any (IsRingWithin k) (server fd m) _ λ e.
      let (a, b) = close_pair-IsSame e.pair_fd m in
      let short = ap (λ l. length (drop_last l)) (b ∙ full) ∙ length-drop_last x l in
      (a ∙ r ∙ ap (λ n. initialize n 100 empty_ring) (sym short), subst (λ n. n ≤ k) (sym short) le)

  -- What `shrinkageCapacity` leaves at the wait.
  abbrev IsAnnounced : Option ℕ × Master → Type 0
  IsAnnounced (none, m) = IsRingWithin k m
  IsAnnounced (some fd, m) =
      (x : ℕ) × (l : List ℕ) × (m.fd_node ≡ x ∷ l)
      × (length l ≤ k)
      × (m.hash ≡ initialize (length l) 100 empty_ring)

  announce-IsAnnounced : (m : Master) → IsRingWithin k m → Gives IsAnnounced (announce_shrink m)
  unfolding announce_shrink broadcast
  announce-IsAnnounced m (r, le) =
      Gives-if_so IsAnnounced (ltb 0 (length m.fd_node)) _ _
        (λ h.
          let (x, l, full) = full_list m.fd_node h in
          let long : length m.fd_node ≡ length l + 1 = omega (arith, ap length full) in
          let at : length m.fd_node - 1 ≡ length l = omega (arith, long) in
          let ring = r ∙ ap (λ n. initialize n 100 empty_ring) long in
          let deleted : delete_node (length m.fd_node - 1) m.hash
              ≡ ok (initialize (length l) 100 empty_ring) =
            ap (λ i. delete_node i m.hash) at
            ∙ ap (delete_node (length l)) ring
            ∙ delete_node-initialize 100 (length l) (length l)
                (NoCollision-below k (length l + 1) apart (omega (arith, le, long)))
                (omega arith) in
          Gives-then (λ h. h ≡ initialize (length l) 100 empty_ring) IsAnnounced
            (delete_node (length m.fd_node - 1) m.hash) _
            (subst (Gives (λ h. h ≡ initialize (length l) 100 empty_ring)) (sym deleted) refl)
            λ hash same. Gives-any IsAnnounced (of_option (get_elem? m.fd_node _)) _ λ fd.
              Gives-any IsAnnounced (server fd _) _
                λ e. (x, l, full, omega (arith, le, long), same))
        (λ h. (r, le))

  finished : (a : Option ℕ × Master) → IsAnnounced a → Gives (IsRingWithin k) (finish a.0 a.1)
  unfolding finish
  finished (none, m) r = r
  finished (some fd, m) (x, l, full, le, r) = finish-IsRing fd m x l full le r

  pub shrinks-IsRing :
      (m : Master)
      → IsRingWithin k m
      → Gives (IsRingWithin k) (announce_shrink m >>= λ (fd, m). finish fd m)
  unfolding finish
  shrinks-IsRing m r =
      Gives-then IsAnnounced (IsRingWithin k) (announce_shrink m) _ (announce-IsAnnounced m r)
        finished
