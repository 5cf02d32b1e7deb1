-- ===== src/Master/Events/Invariant.antt =====
-- Every sequence of the master's events keeps the ring of its primaries.
use simple_distributed_cache.Common.{
  ℕ, ◌+◌, ◌≤◌, ◌≡◌, refl, List, [], ◌∷◌, ok, arith, length, Gives, Gives-then, Gives-any, Gives-at,
}
use simple_distributed_cache.Text.{Bytes}
use simple_distributed_cache.Master.Heartbeat.{receive}
use simple_distributed_cache.Master.Failure.{detect}
use simple_distributed_cache.Ring.Exact.{NoCollision}
use simple_distributed_cache.Master.{
  Master, handle_client_message, answer_client, accept_cache, set_server, send_to, init,
}
use simple_distributed_cache.Master.Serve.{IsRing}
use simple_distributed_cache.Master.Events.{
  Event, accepts, message, ask, detects, shrinks, step, run, arrivals,
}
use simple_distributed_cache.Master.Events.Rings.{IsRingWithin, receive-IsRing}
use simple_distributed_cache.Master.Events.Losses.{NoCollision-below, detect-IsRing, shrinks-IsRing}

answer_client-within :
    (k fd : ℕ) (key : Bytes) (m : Master)
    → IsRingWithin k m
    → Gives (IsRingWithin k) (answer_client fd key m)
unfolding answer_client send_to
answer_client-within k fd key m r =
    Gives-any (IsRingWithin k) (handle_client_message key m) _ λ addr. r

init-IsRing : IsRing init
unfolding init
init-IsRing = refl

-- With no two of up to `n` nodes that have a point in common.
module _ (n : ℕ) (apart : NoCollision 100 n) where
  run_within :
      (k : ℕ) (es : List Event) (m : Master)
      → k + arrivals es ≤ n
      → IsRingWithin k m
      → Gives (IsRingWithin n) (run es m)
  unfolding run step arrivals accept_cache set_server
  run_within k [] m le (r, short) = (r, omega (arith, short, le))
  run_within k (accepts fd ∷ es) m le r = run_within k es (accept_cache fd m) le r
  run_within k (message now fd text ∷ es) m le r =
      Gives-then (IsRingWithin (k + 1)) (IsRingWithin n) (receive now fd text m) _
        (receive-IsRing k now fd text m r) λ m s. run_within (k + 1) es m (omega (arith, le)) s
  run_within k (ask fd key ∷ es) m le r =
      Gives-then (IsRingWithin k) (IsRingWithin n) (answer_client fd key m) _
        (answer_client-within k fd key m r) λ m s. run_within k es m le s
  run_within k (detects now ∷ es) m le r =
      Gives-then (IsRingWithin k) (IsRingWithin n) (detect now m) _
        (detect-IsRing k (NoCollision-below n k apart (omega (arith, le))) now m r)
        λ m s. run_within k es m le s
  run_within k (shrinks ∷ es) m le r =
      Gives-then (IsRingWithin k) (IsRingWithin n) _ _
        (shrinks-IsRing k (NoCollision-below n k apart (omega (arith, le))) m r)
        λ m s. run_within k es m le s

-- Every sequence of events on a new master that ends with no fault leaves a ring that is the
-- one for the list of primaries, which has no more of them than there were messages of cache
-- servers. No two of so many nodes have a point in common, and no other thread runs while
-- shrinkageCapacity waits.
pub run-IsRing :
    (es : List Event) (m : Master)
    → NoCollision 100 (arrivals es)
    → run es init ≡ ok m
    → IsRing m × (length m.fd_node ≤ arrivals es)
unfolding init
run-IsRing es m apart h =
    Gives-at (IsRingWithin (arrivals es)) (run es init) m h
      (run_within (arrivals es) apart 0 es init (omega arith) (init-IsRing, omega arith))
