-- ===== src/Master/Events/Rings.antt =====
-- The master's ring is the one for its list of primaries behind every sequence of events.
use simple_distributed_cache.Common.{
  ℕ, ◌+◌, ◌-◌, ◌≤◌, ◌≡◌, refl, sym, ap, ◌∙◌, List, [], ◌∷◌, ◌++◌, ok, arith, length, length-append,
  Gives, Gives-then, Gives-any, Gives-map, Gives-ite, Gives-if, of_option, ◌==◌, get_elem?, ite,
}
use mathlib.Core.Path.{subst}
use simple_distributed_cache.Text.{Bytes, bytes, bytes_discrete, sharp}
use simple_distributed_cache.Ring.{add_node, initialize}
use simple_distributed_cache.Ring.Exact.{empty_ring, add_node-initialize}
use simple_distributed_cache.Master.{
  Master, Fdmap, server, set_server, send_to, broadcast, words, handle_heart_beat_response,
}
use simple_distributed_cache.Master.Heartbeat.{
  pair_up, pair_primary, pair_replica, extend, register_primary, register, pair_address, heartbeat,
  receive, addresses,
}
use simple_distributed_cache.Master.Serve.{IsRing}

-- The ring and the list of primaries are the same.
abbrev pub IsSame : Master → Master → Type 0
IsSame m m' = (m'.hash ≡ m.hash) × (m'.fd_node ≡ m.fd_node)

pub IsRing-same : (m m' : Master) → IsSame m m' → IsRing m → IsRing m'
IsRing-same m m' (a, b) r = a ∙ r ∙ ap (λ l. initialize (length l) 100 empty_ring) (sym b)

pair_up-IsSame : (fd other : ℕ) (m : Master) → Gives (IsSame m) (pair_up fd other m)
unfolding pair_up set_server
pair_up-IsSame fd other m =
    Gives-any (IsSame m) (server fd m) _
      λ e. Gives-any (IsSame m) (server other _) _ λ o. (refl, refl)

pair_primary-IsSame : (fd : ℕ) (l : List ℕ) (m : Master) → Gives (IsSame m) (pair_primary fd l m)
unfolding pair_primary
pair_primary-IsSame fd [] m = (refl, refl)
pair_primary-IsSame fd (r ∷ rest) m =
    Gives-then (IsSame m) (IsSame m) (pair_up fd r m) _ (pair_up-IsSame fd r m) λ n s. s

pair_replica-IsSame : (fd : ℕ) (l : List ℕ) (m : Master) → Gives (IsSame m) (pair_replica fd l m)
unfolding pair_replica
pair_replica-IsSame fd [] m = (refl, refl)
pair_replica-IsSame fd (r ∷ rest) m =
    Gives-then (IsSame m) (IsSame m) (pair_up fd r m) _ (pair_up-IsSame fd r m) λ n s. s

-- The ring is the one for the list of primaries, which has at most `k` of them.
abbrev pub IsRingWithin : ℕ → Master → Type 0
IsRingWithin k m = IsRing m × (length m.fd_node ≤ k)

pub IsRingWithin-same : (k : ℕ) (m m' : Master) → IsSame m m' → IsRingWithin k m → IsRingWithin k m'
IsRingWithin-same k m m' s (r, le) = (IsRing-same m m' s r, subst (λ l. length l ≤ k) (sym s.1) le)

-- The ring of all primaries but the one that was listed last.
abbrev IsRingBut : ℕ → Master → Type 0
IsRingBut n m = (m.hash ≡ initialize n 100 empty_ring) × (length m.fd_node ≡ n + 1)

extend-IsRing :
    (n k fd : ℕ) (m : Master) → n + 1 ≤ k → IsRingBut n m → Gives (IsRingWithin k) (extend fd m)
unfolding extend send_to broadcast
extend-IsRing n k fd m le (r, long) =
    let index : length m.fd_node - 1 ≡ n = omega (arith, long) in
    let grown : add_node (length m.fd_node - 1) m.hash
        ≡ initialize (length m.fd_node) 100 empty_ring =
      ap (λ i. add_node i m.hash) index
      ∙ ap (add_node n) r
      ∙ add_node-initialize 100 n
      ∙ ap (λ k. initialize k 100 empty_ring) (sym long) in
    Gives-any (IsRingWithin k) (server fd _) _
      λ e. Gives-any (IsRingWithin k) (addresses _ _) _ λ all. (grown, omega (arith, long, le))

register_primary-IsRing :
    (k fd : ℕ) (m : Master)
    → IsRingWithin k m
    → Gives (IsRingWithin (k + 1)) (register_primary fd m)
unfolding register_primary
register_primary-IsRing k fd m (r, le) =
    let n : Master = record m { fd_node = m.fd_node ++ fd ∷ [] } in
    Gives-then (IsSame n) (IsRingWithin (k + 1)) (pair_primary fd m.rcache n) _
      (pair_primary-IsSame fd m.rcache n)
      λ o (a, b).
        extend-IsRing (length m.fd_node) (k + 1) fd o (omega (arith, le))
          (a ∙ r, ap length b ∙ length-append m.fd_node (fd ∷ []))

within_more : (k : ℕ) (m : Master) → IsRingWithin k m → IsRingWithin (k + 1) m
within_more k m (r, le) = (r, omega (arith, le))

register-IsRing :
    (k fd : ℕ) (it : Fdmap) (msg : List Bytes) (m : Master)
    → IsRingWithin k m
    → Gives (IsRingWithin (k + 1)) (register fd it msg m)
unfolding register set_server
register-IsRing k fd it msg m r =
    let Q = IsRingWithin (k + 1) in
    Gives-any Q (of_option (get_elem? msg 1)) _ λ ip.
      Gives-any Q (of_option (get_elem? msg 2)) _ λ port.
        Gives-any Q (of_option (get_elem? msg 3)) _ λ cache.
          Gives-any Q (of_option (get_elem? msg 4)) _ λ role.
            Gives-any Q (of_option (get_elem? role 0)) _ λ status.
              let e : Fdmap = record it {
                ip_port = ip ++ sharp ∷ port;
                ip_cache = ip ++ sharp ∷ cache;
                status = status;
              } in
              let n : Master = set_server fd e m in
              Gives-ite Q (bytes_discrete role (bytes "P")) _ _ (register_primary-IsRing k fd n r) (
                Gives-ite Q (bytes_discrete role (bytes "R")) _ _
                  (Gives-map (IsSame n) Q _
                    (λ o s. IsRingWithin-same (k + 1) n o s (within_more k n r))
                    (pair_replica-IsSame fd n.pcache n))
                  (within_more k n r))

handle_heart_beat_response-IsSame :
    (now : ℕ) (msg : Bytes) (m : Master) → Gives (IsSame m) (handle_heart_beat_response now msg m)
unfolding handle_heart_beat_response
handle_heart_beat_response-IsSame now msg m =
    Gives-any (IsSame m) (of_option (get_elem? (words msg sharp) 1)) _
      λ ip. Gives-any (IsSame m) (of_option (get_elem? (words msg sharp) 2)) _ λ port. (refl, refl)

heartbeat-IsRing :
    (k now fd : ℕ) (msg : Bytes) (m : Master)
    → IsRingWithin k m
    → Gives (IsRingWithin (k + 1)) (heartbeat now fd msg m)
unfolding heartbeat send_to
heartbeat-IsRing k now fd msg m r =
    let Q = IsRingWithin (k + 1) in
    Gives-any Q (server fd m) _ λ it.
      Gives-then Q Q
        (ite (bytes_discrete it.ip_port (bytes "0")) (register fd it (words msg sharp) m) (ok m)) _
        (Gives-ite Q (bytes_discrete it.ip_port (bytes "0")) _ _
          (register-IsRing k fd it (words msg sharp) m r) (within_more k m r))
        λ n s. Gives-any Q (server fd n) _ λ it. Gives-any Q (pair_address it.pair_fd n) _ λ addr.
          let o = send_to fd (it.status ∷ sharp ∷ addr) n in
          Gives-map (IsSame o) Q (handle_heart_beat_response now msg o)
            (λ p t. IsRingWithin-same (k + 1) n p t s) (handle_heart_beat_response-IsSame now msg o)

-- A message of a cache server adds one primary at most, and the ring follows.
pub receive-IsRing :
    (k now fd : ℕ) (msg : Bytes) (m : Master)
    → IsRingWithin k m
    → Gives (IsRingWithin (k + 1)) (receive now fd msg m)
unfolding receive
receive-IsRing k now fd [] m r = within_more k m r
receive-IsRing k now fd (c ∷ s) m r =
    Gives-if (IsRingWithin (k + 1)) (c == b'x') _ _ (heartbeat-IsRing k now fd (c ∷ s) m r)
      (within_more k m r)
