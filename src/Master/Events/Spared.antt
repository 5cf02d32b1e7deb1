-- ===== src/Master/Events/Spared.antt =====
-- A round of `periodicDetectCache` spares a server that has been heard in time, master/mastertry/master.cpp.
use simple_distributed_cache.Common.{
  ℕ, ◌+◌, ◌≤◌, ◌<◌, ◌≡◌, ◌≢◌, refl, sym, ap, ◌∙◌, Bool, true, false, Option, none, some, List, [],
  ◌∷◌, Result, ok, ◌>>=◌, of_option, Gives, Gives-with, Gives-any, Gives-then, Gives-if, arith, ltb,
  ◌==◌, if◌then◌else◌, if_neg, ℕ_discrete,
}
use mathlib.Core.Path.{subst}
use simple_distributed_cache.Common.Assoc.{erase, lookup-erase}
use simple_distributed_cache.Text.{Bytes}
use simple_distributed_cache.Master.{
  Master, Fdmap, server, set_server, broadcast, last_seen, heart_beat_detect,
}
use simple_distributed_cache.Master.Failure.{
  replica_lost, promote, drop_primary, take_out, erase_fd, primary_lost, lost, first_dead, forget,
  handle_dead, detect, replace_sharp,
}
use simple_distributed_cache.Master.Events.Alive.{IsSeen, same, touch}
use simple_distributed_cache.Ring.{delete_node}

-- The loop finds another server.
found_by :
    (fd now : ℕ) (k : Fdmap) (m : Master) (r : Result (Option ℕ)) (alive : Bool)
    → heart_beat_detect now fd m ≡ ok true
    → heart_beat_detect now k.fd m ≡ ok alive
    → Gives (λ o. o ≢ some fd) r
    → Gives (λ o. o ≢ some fd) (elim alive [ true ↦ r | false ↦ ok (some k.fd) ])
found_by fd now k m r true h d g = g
found_by fd now k m r false h d g = λ same.
    let at : k.fd ≡ fd = cc same in
    let dead = subst (λ q. heart_beat_detect now q m ≡ ok false) at d in cc (h, dead)

first_dead_other :
    (fd now : ℕ) (l : List (ℕ × Fdmap)) (m : Master)
    → heart_beat_detect now fd m ≡ ok true
    → Gives (λ o. o ≢ some fd) (first_dead now l m)
unfolding first_dead
first_dead_other fd now [] m h = λ e. cc e
first_dead_other fd now ((k, e) ∷ l) m h =
    Gives-with (λ o. o ≢ some fd) (heart_beat_detect now e.fd m) _
      λ alive d. found_by fd now e m (first_dead now l m) alive h d (first_dead_other fd now l m h)

module _ (fd : ℕ) (addr : Bytes) (t : ℕ) where
  detected :
      (now : ℕ) (m : Master)
      → now < t + 5
      → IsSeen fd addr t m
      → heart_beat_detect now fd m ≡ ok true
  unfolding heart_beat_detect server
  detected now m h s =
      let seen = subst (λ a. t ≤ last_seen a m) (sym s.address) s.seen in
      let alive : ltb now (last_seen s.entry.ip_port m + 5) ≡ true = ground (arith, h, seen) in
      ap (λ o. of_option o >>= λ e. ok (ltb now (last_seen e.ip_port m + 5))) s.known ∙ ap ok alive

  -- What a round does to another server.
  replica_lost-IsSeen :
      (q : ℕ) (p : Option ℕ) (m : Master)
      → IsSeen fd addr t m
      → Gives (IsSeen fd addr t) (replica_lost q p m)
  unfolding replica_lost
  replica_lost-IsSeen q none m s = tt
  replica_lost-IsSeen q (some p) m s = Gives-with (IsSeen fd addr t) (server p m) _ λ o k.
      same fd addr t _ _ refl refl (touch fd addr t p o (record o { pair_fd = none }) m k refl s)

  promote-IsSeen :
      (q : ℕ) (e : Fdmap) (p : ℕ) (m : Master)
      → IsSeen fd addr t m
      → Gives (IsSeen fd addr t) (promote q e p m)
  unfolding promote broadcast set_server
  promote-IsSeen q e p m s =
      let Q = IsSeen fd addr t in
      Gives-any Q (replace_sharp e.ip_cache) _ λ origin. Gives-with Q (server p _) _ λ o k.
        Gives-any Q (replace_sharp o.ip_cache) _ λ backup. same fd addr t _ _ refl refl (
          touch fd addr t p o (record o { pair_fd = none; status = b'P' }) _ k refl
            (same fd addr t m _ refl refl s))

  take_out-IsSeen :
      (o : Option (ℕ × List ℕ)) (m : Master)
      → IsSeen fd addr t m
      → Gives (IsSeen fd addr t) (take_out o m)
  unfolding take_out
  take_out-IsSeen none m s = s
  take_out-IsSeen (some (i, l)) m s =
      Gives-any (IsSeen fd addr t) (delete_node i m.hash) _ λ h. same fd addr t m _ refl refl s

  drop_primary-IsSeen :
      (q : ℕ) (e : Fdmap) (m : Master)
      → IsSeen fd addr t m
      → Gives (IsSeen fd addr t) (drop_primary q e m)
  unfolding drop_primary broadcast
  drop_primary-IsSeen q e m s =
      Gives-then (IsSeen fd addr t) (IsSeen fd addr t) (take_out (erase_fd q m.fd_node) m) _
        (take_out-IsSeen (erase_fd q m.fd_node) m s) λ n s. same fd addr t n _ refl refl s

  primary_lost-IsSeen :
      (q : ℕ) (e : Fdmap) (p : Option ℕ) (m : Master)
      → IsSeen fd addr t m
      → Gives (IsSeen fd addr t) (primary_lost q e p m)
  unfolding primary_lost
  primary_lost-IsSeen q e none m s = drop_primary-IsSeen q e m s
  primary_lost-IsSeen q e (some p) m s =
      Gives-if (IsSeen fd addr t) (ltb 0 p) _ _ (promote-IsSeen q e p m s)
        (drop_primary-IsSeen q e m s)

  lost-IsSeen :
      (q : ℕ) (e : Fdmap) (m : Master) → IsSeen fd addr t m → Gives (IsSeen fd addr t) (lost q e m)
  unfolding lost
  lost-IsSeen q e m s =
      Gives-if (IsSeen fd addr t) (e.status == b'R') _ _ (replica_lost-IsSeen q e.pair_fd m s) (
        Gives-if (IsSeen fd addr t) (e.status == b'P') _ _ (primary_lost-IsSeen q e e.pair_fd m s)
          s)

  forget_other : (q : ℕ) (m : Master) → q ≢ fd → IsSeen fd addr t m → IsSeen fd addr t (forget q m)
  unfolding forget last_seen
  forget_other q m n s = either_way (ltb 0 q)
    where
      either_way :
          (b : Bool)
          → IsSeen fd addr t
              (if b then record m { caches_list = erase ℕ_discrete q m.caches_list } else m)
      either_way true = record {
        entry = s.entry;
        known =
            let w = lookup-erase ℕ_discrete fd q m.caches_list in
            w ∙ if_neg (ℕ_discrete fd q) (λ x. n (sym x)) _ _ ∙ s.known;
        address = s.address;
        seen = s.seen;
      }
      either_way false = s

  handle_dead_other :
      (o : Option ℕ) (m : Master)
      → o ≢ some fd
      → IsSeen fd addr t m
      → Gives (IsSeen fd addr t) (handle_dead o m)
  handle_dead_other none m n s = s
  handle_dead_other (some q) m n s = Gives-any (IsSeen fd addr t) (server q m) _ λ e.
      Gives-then (IsSeen fd addr t) (IsSeen fd addr t) (lost q e m) _ (lost-IsSeen q e m s)
        λ m s. forget_other q m (λ x. n (ap some x)) s

  pub detect_other :
      (now : ℕ) (m : Master)
      → now < t + 5
      → IsSeen fd addr t m
      → Gives (IsSeen fd addr t) (detect now m)
  unfolding detect
  detect_other now m h s =
      Gives-then (λ o. o ≢ some fd) (IsSeen fd addr t) (first_dead now m.caches_list m) _
        (first_dead_other fd now m.caches_list m (detected now m h s))
        λ o n. handle_dead_other o m n s
