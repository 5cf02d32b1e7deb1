-- ===== src/Master/Events.antt =====
-- What the master's threads do, as one sequence of events, in the order in which they happen: a
-- cache server connects, one sends a message, a client asks, a round of `periodicDetectCache`, and
-- the key `s`, whose two steps come one right behind the other here; the children Race and Overlap
-- are about what happens between them. It is the loop bodies of `start_cache`, `start_client`,
-- `periodicDetectCache` and `shrinkageCapacity` of master/mastertry/master.cpp.
pub mod Rings
pub mod Losses
pub mod Invariant
pub mod Registered
pub mod Race
pub mod Promoted
pub mod Paired
pub mod Waiting
pub mod Overlap
pub mod Alive
pub mod Heard
pub mod Spared
pub mod Timely
use simple_distributed_cache.Common.{ℕ, suc, Option, none, some, List, [], ◌∷◌, Result, ok, ◌>>=◌}
use simple_distributed_cache.Text.{Bytes}
use simple_distributed_cache.Master.{Master, accept_cache, answer_client}
use simple_distributed_cache.Master.Heartbeat.{receive}
use simple_distributed_cache.Master.Failure.{detect}
use simple_distributed_cache.Master.Shrink.{announce_shrink, finish_shrink}

pub data Event : Type 0 where
  accepts : (fd : ℕ) → Event
  message : (now fd : ℕ) → Bytes → Event
  ask : (fd : ℕ) → Bytes → Event
  detects : (now : ℕ) → Event
  shrinks : Event

-- The rest of `shrinkageCapacity`, where there was a server to take out.
unfoldable pub finish : Option ℕ → Master → Result Master
finish none m = ok m
finish (some fd) m = finish_shrink fd m

unfoldable pub step : Event → Master → Result Master
step (accepts fd) m = ok (accept_cache fd m)
step (message now fd text) m = receive now fd text m
step (ask fd key) m = answer_client fd key m
step (detects now) m = detect now m
step shrinks m = do (fd, m) ← announce_shrink m; finish fd m

unfoldable pub run : List Event → Master → Result Master
run [] m = ok m
run (e ∷ es) m = do m ← step e m; run es m

-- How many messages of cache servers there are.
unfoldable pub arrivals : List Event → ℕ
arrivals [] = 0
arrivals (message now fd text ∷ es) = suc (arrivals es)
arrivals (accepts fd ∷ es) = arrivals es
arrivals (ask fd key ∷ es) = arrivals es
arrivals (detects now ∷ es) = arrivals es
arrivals (shrinks ∷ es) = arrivals es
