-- ===== src/Master/Events/Alive.antt =====
-- A cache server whose heartbeats come in time stays known to the master: the loops of `start_cache` and
-- `periodicDetectCache` in master/mastertry/master.cpp.
use simple_distributed_cache.Common.{
  ℕ, ◌≤◌, ◌≡◌, ◌≢◌, refl, sym, ap, ◌∙◌, none, some, List, [], ◌∷◌, ok, of_option, ok_injective,
  Gives, Gives-with, Gives-any, Gives-then, Gives-ite, get_elem?, if_pos, if_neg, ℕ_discrete,
}
use mathlib.Core.Path.{subst}
use simple_distributed_cache.Common.Assoc.{lookup, lookup-assign}
use simple_distributed_cache.Text.{Bytes, bytes, bytes_discrete}
use simple_distributed_cache.Master.{
  Master, Fdmap, server, set_server, send_to, broadcast, last_seen,
}
use simple_distributed_cache.Master.Heartbeat.{
  pair_up, pair_primary, pair_replica, addresses, extend, register_primary, register,
}

module _ (fd : ℕ) (addr : Bytes) where
  -- The master knows the cache server at the address, and has seen it at `t` or later.
  pub record IsSeen (t : ℕ) (m : Master) : Type 0 where
    pub entry : Fdmap
    pub known : lookup ℕ_discrete fd m.caches_list ≡ some entry
    pub address : entry.ip_port ≡ addr
    pub seen : t ≤ last_seen addr m

  -- What does not touch the two tables.
  pub last_seen_same :
      (m n : Master) → n.cache_addr_map ≡ m.cache_addr_map → last_seen addr n ≡ last_seen addr m
  unfolding last_seen
  last_seen_same m n b = ap (λ l. elim (lookup bytes_discrete addr l) [ none ↦ 0 | some t ↦ t ]) b

  module _ (t : ℕ) where
    pub same :
        (m n : Master)
        → n.caches_list ≡ m.caches_list
        → n.cache_addr_map ≡ m.cache_addr_map
        → IsSeen t m
        → IsSeen t n
    same m n a b s = record {
      entry = s.entry;
      known = ap (lookup ℕ_discrete fd) a ∙ s.known;
      address = s.address;
      seen = subst (λ k. t ≤ k) (sym (last_seen_same m n b)) s.seen;
    }

    -- An entry of another server, and one that keeps its address.
    pub apart : (q : ℕ) (e : Fdmap) (m : Master) → q ≢ fd → IsSeen t m → IsSeen t (set_server q e m)
    unfolding set_server last_seen
    apart q e m n s = record {
      entry = s.entry;
      known =
          let w = lookup-assign ℕ_discrete fd q e m.caches_list in
          w ∙ if_neg (ℕ_discrete fd q) (λ x. n (sym x)) _ _ ∙ s.known;
      address = s.address;
      seen = s.seen;
    }

    pub touch :
        (q : ℕ) (o o' : Fdmap) (m : Master)
        → server q m ≡ ok o
        → o'.ip_port ≡ o.ip_port
        → IsSeen t m
        → IsSeen t (set_server q o' m)
    unfolding server set_server last_seen
    touch q o o' m h k s = elim (ℕ_discrete fd q) [
      | no n ↦ apart q o' m (λ x. n (sym x)) s
      | yes p ↦
          let there : server fd m ≡ ok s.entry = ap of_option s.known in
          let old : s.entry ≡ o = ok_injective (sym there ∙ ap (λ q. server q m) p ∙ h) in
          record {
            entry = o';
            known = lookup-assign ℕ_discrete fd q o' m.caches_list ∙ if_pos (ℕ_discrete fd q) p _ _;
            address = k ∙ sym (ap (λ e. e.ip_port) old) ∙ s.address;
            seen = s.seen;
          }
    ]

    pair_up-IsSeen : (q p : ℕ) (m : Master) → IsSeen t m → Gives (IsSeen t) (pair_up q p m)
    unfolding pair_up
    pair_up-IsSeen q p m s = Gives-with (IsSeen t) (server q m) _ λ e h.
        Gives-with (IsSeen t) (server p _) _ λ o k.
          touch p o (record o { pair_fd = some q }) _ k refl
            (touch q e (record e { pair_fd = some p }) m h refl s)

    pair_primary-IsSeen :
        (q : ℕ) (l : List ℕ) (m : Master) → IsSeen t m → Gives (IsSeen t) (pair_primary q l m)
    unfolding pair_primary
    pair_primary-IsSeen q [] m s = same m _ refl refl s
    pair_primary-IsSeen q (r ∷ rest) m s =
        Gives-then (IsSeen t) (IsSeen t) (pair_up q r m) _ (pair_up-IsSeen q r m s)
          λ n s. same n _ refl refl s

    pair_replica-IsSeen :
        (q : ℕ) (l : List ℕ) (m : Master) → IsSeen t m → Gives (IsSeen t) (pair_replica q l m)
    unfolding pair_replica
    pair_replica-IsSeen q [] m s = same m _ refl refl s
    pair_replica-IsSeen q (r ∷ rest) m s =
        Gives-then (IsSeen t) (IsSeen t) (pair_up q r m) _ (pair_up-IsSeen q r m s)
          λ n s. same n _ refl refl s

    extend-IsSeen : (q : ℕ) (m : Master) → IsSeen t m → Gives (IsSeen t) (extend q m)
    unfolding extend send_to broadcast
    extend-IsSeen q m s =
        Gives-any (IsSeen t) (server q _) _
          λ e. Gives-any (IsSeen t) (addresses _ _) _ λ all. same m _ refl refl s

    register_primary-IsSeen :
        (q : ℕ) (m : Master) → IsSeen t m → Gives (IsSeen t) (register_primary q m)
    unfolding register_primary
    register_primary-IsSeen q m s =
        Gives-then (IsSeen t) (IsSeen t) (pair_primary q m.rcache _) _
          (pair_primary-IsSeen q m.rcache _ (same m _ refl refl s)) λ n s. extend-IsSeen q n s

    pub register-IsSeen :
        (q : ℕ) (it : Fdmap) (msg : List Bytes) (m : Master)
        → q ≢ fd
        → IsSeen t m
        → Gives (IsSeen t) (register q it msg m)
    unfolding register set_server
    register-IsSeen q it msg m n s =
        let Q = IsSeen t in
        Gives-any Q (of_option (get_elem? msg 1)) _ λ ip.
          Gives-any Q (of_option (get_elem? msg 2)) _ λ port.
            Gives-any Q (of_option (get_elem? msg 3)) _ λ cache.
              Gives-any Q (of_option (get_elem? msg 4)) _ λ role.
                Gives-any Q (of_option (get_elem? role 0)) _ λ status.
                  let s' = apart q _ m n s in
                  Gives-ite Q (bytes_discrete role (bytes "P")) _ _ (register_primary-IsSeen q _ s')
                    (Gives-ite Q (bytes_discrete role (bytes "R")) _ _
                      (pair_replica-IsSeen q m.pcache _ s') s')
