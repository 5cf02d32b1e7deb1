-- ===== src/Master/Events/Heard.antt =====
-- Heartbeats of a server that the master knows and of others: `handleHeartBeatResponse` and the
-- branch of `start_cache` in master/mastertry/master.cpp.
use simple_distributed_cache.Common.{
  ℕ, ◌≤◌, ◌≡◌, ◌≢◌, refl, sym, ap, ◌∙◌, List, ◌∷◌, ◌++◌, ok, ◌>>=◌, of_option, ok_injective, Gives,
  Gives-with, Gives-any, Gives-then, Gives-ite, arith, ite, if_pos, if_neg, ite_either, get_elem?,
}
use mathlib.Core.Path.{subst}
use simple_distributed_cache.Common.Assoc.{assign, lookup-assign}
use simple_distributed_cache.Text.{Bytes, bytes, bytes_discrete, sharp}
use simple_distributed_cache.Master.{
  Master, words, server, send_to, handle_heart_beat_response, last_seen,
}
use simple_distributed_cache.Master.Heartbeat.{pair_address, heartbeat}
use simple_distributed_cache.Master.Events.Alive.{IsSeen, same, register-IsSeen}

module _ (fd : ℕ) (addr : Bytes) where
  last_seen-assign :
      (a : Bytes) (now : ℕ) (m : Master)
      → last_seen addr (record m { cache_addr_map = assign bytes_discrete a now m.cache_addr_map })
        ≡ ite (bytes_discrete addr a) now (last_seen addr m)
  unfolding last_seen
  last_seen-assign a now m =
      let w = lookup-assign bytes_discrete addr a now m.cache_addr_map in ground (arith, w)

  -- A heartbeat is noted, whoever sends it.
  noted :
      (t now : ℕ) (a : Bytes) (m : Master)
      → t ≤ now
      → IsSeen fd addr t m
      → IsSeen fd addr t
          (record m { cache_addr_map = assign bytes_discrete a now m.cache_addr_map })
  noted t now a m le s = record {
    entry = s.entry;
    known = s.known;
    address = s.address;
    seen =
        subst (λ k. t ≤ k) (sym (last_seen-assign a now m))
          (ite_either (λ k. t ≤ k) (bytes_discrete addr a) now (last_seen addr m) (λ p. le)
            λ n. s.seen);
  }

  -- A heartbeat of another server.
  pub heartbeat_other :
      (t now q : ℕ) (msg : Bytes) (m : Master)
      → q ≢ fd
      → t ≤ now
      → IsSeen fd addr t m
      → Gives (IsSeen fd addr t) (heartbeat now q msg m)
  unfolding heartbeat handle_heart_beat_response send_to
  heartbeat_other t now q msg m n le s =
      let Q = IsSeen fd addr t in
      Gives-any Q (server q m) _ λ it.
        Gives-then Q Q _ _
          (Gives-ite Q (bytes_discrete it.ip_port (bytes "0")) _ _
            (register-IsSeen fd addr t q it (words msg sharp) m n s) s)
          λ m s. Gives-any Q (server q m) _ λ it. Gives-any Q (pair_address it.pair_fd m) _ λ a.
            Gives-any Q (of_option (get_elem? (words msg sharp) 1)) _ λ ip.
              Gives-any Q (of_option (get_elem? (words msg sharp) 2)) _
                λ port. noted t now (ip ++ sharp ∷ port) _ le (same fd addr t m _ refl refl s)

  heard :
      (now : ℕ) (msg ip port x : Bytes) (rest : List Bytes) (m : Master)
      → addr ≡ ip ++ sharp ∷ port
      → words msg sharp ≡ x ∷ ip ∷ port ∷ rest
      → handle_heart_beat_response now msg m
        ≡ ok (record m { cache_addr_map = assign bytes_discrete addr now m.cache_addr_map })
  unfolding handle_heart_beat_response
  heard now msg ip port x rest m at fields = rw fields (
      ap (λ a. ok (record m { cache_addr_map = assign bytes_discrete a now m.cache_addr_map }))
        (sym at))

  -- A heartbeat of its own.
  pub heartbeat_own :
      (t now : ℕ) (msg ip port x : Bytes) (rest : List Bytes) (m : Master)
      → addr ≢ bytes "0"
      → addr ≡ ip ++ sharp ∷ port
      → words msg sharp ≡ x ∷ ip ∷ port ∷ rest
      → IsSeen fd addr t m
      → Gives (IsSeen fd addr now) (heartbeat now fd msg m)
  unfolding heartbeat handle_heart_beat_response send_to last_seen
  heartbeat_own t now msg ip port x rest m known at fields s =
      let Q = IsSeen fd addr now in
      let there : server fd m ≡ ok s.entry = unfold server in ap of_option s.known in
      let spoken : s.entry.ip_port ≢ bytes "0" = λ e. known (sym s.address ∙ e) in
      Gives-with Q (server fd m) _ λ it h.
        let mine : s.entry ≡ it = ok_injective (sym there ∙ h) in
        subst
          (λ r. Gives Q (
            r >>= λ m. server fd m >>= λ it. pair_address it.pair_fd m >>= λ a.
            handle_heart_beat_response now msg (send_to fd (it.status ∷ sharp ∷ a) m)))
          (sym (
            if_neg (bytes_discrete it.ip_port (bytes "0"))
              (subst (λ e. e.ip_port ≢ bytes "0") mine spoken) _ _))
          (Gives-any Q (server fd m) _ λ it. Gives-any Q (pair_address it.pair_fd m) _ λ a.
            let n = send_to fd (it.status ∷ sharp ∷ a) m in
            subst (Gives Q) (sym (heard now msg ip port x rest n at fields)) (record {
              entry = s.entry;
              known = s.known;
              address = s.address;
              seen =
                  subst (λ k. now ≤ k)
                    (sym (last_seen-assign addr now m ∙ if_pos (bytes_discrete addr addr) refl _ _))
                    (omega arith);
            }))
