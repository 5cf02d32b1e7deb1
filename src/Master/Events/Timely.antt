-- ===== src/Master/Events/Timely.antt =====
-- The events under which a cache server stays known: messages of `start_cache` and rounds of
-- `periodicDetectCache` in master/mastertry/master.cpp, and the heartbeats of cache/src/cache.cpp.
use simple_distributed_cache.Common.{
  ℕ, ◌+◌, ◌≤◌, ◌<◌, ◌≡◌, ◌≢◌, refl, sym, ◌⊎◌, inl, inr, List, [], ◌∷◌, ◌++◌, ok, Gives, Gives-any,
  Gives-then, Gives-if, Gives-map, Gives-at, arith, ◌==◌, All,
}
use mathlib.Core.Path.{subst}
use simple_distributed_cache.Text.{Bytes, bytes, sharp}
use simple_distributed_cache.Master.{
  Master, new_fdmap, accept_cache, send_to, handle_client_message, answer_client,
}
use simple_distributed_cache.Master.Words.{IsWord}
use simple_distributed_cache.Master.Heartbeat.{receive}
use simple_distributed_cache.Master.Failure.{detect}
use simple_distributed_cache.Master.Events.{
  Event, accepts, message, ask, detects, shrinks, step, run,
}
use simple_distributed_cache.Master.Events.Alive.{IsSeen, same, apart}
use simple_distributed_cache.Master.Events.Heard.{heartbeat_other, heartbeat_own}
use simple_distributed_cache.Master.Events.Spared.{detect_other}
use simple_distributed_cache.Master.Events.Registered.{words-heart_message}
use simple_distributed_cache.CacheServer.{CacheServer}
use simple_distributed_cache.CacheServer.Startup.{heart_message}

-- An address is not the one that stands for no heartbeat yet.
not_new : (ip port : Bytes) → ip ≢ [] → ip ++ sharp ∷ port ≢ bytes "0"
not_new [] port n = absurd (n refl)
not_new (x ∷ []) port n = λ e. cc e
not_new (x ∷ y ∷ ip) port n = λ e. cc e

module _ (fd : ℕ) (c : CacheServer) where
  -- The address by which the master knows the cache server.
  abbrev pub address_of : Bytes
  address_of = c.local_cache_ip ++ sharp ∷ c.port_for_client

  -- The text is a heartbeat of the cache server, in any role.
  abbrev pub IsBeat : Bytes → Type 0
  IsBeat text =
      (role : Bytes) × IsWord sharp role × (text ≡ heart_message (record c { pr_status = role }))

  -- The cache server at `fd`, last heard at `t`, is heard again in less than five seconds before
  -- each round of the detection: its messages are heartbeats, no other connection gets its
  -- descriptor, the clock of the messages does not run back and the ring is not shrunk by hand.
  abbrev pub InTime : (t : ℕ) → List Event → Type 0
  InTime t [] = Unit
  InTime t (accepts q ∷ es) = (q ≢ fd) × InTime t es
  InTime t (message now q text ∷ es) =
      (t ≤ now) × (((q ≢ fd) × InTime t es) ⊎ ((q ≡ fd) × IsBeat text × InTime now es))
  InTime t (ask q key ∷ es) = InTime t es
  InTime t (detects now ∷ es) = (now < t + 5) × InTime t es
  InTime t (shrinks ∷ es) = ⊥

  weaker : (t t' : ℕ) (m : Master) → t ≤ t' → IsSeen fd address_of t' m → IsSeen fd address_of t m
  weaker t t' m le s = record {
    entry = s.entry;
    known = s.known;
    address = s.address;
    seen = let at = s.seen in omega (arith, le, at);
  }

  message_other :
      (t now q : ℕ) (text : Bytes) (m : Master)
      → q ≢ fd
      → t ≤ now
      → IsSeen fd address_of t m
      → Gives (IsSeen fd address_of t) (receive now q text m)
  unfolding receive
  message_other t now q [] m n le s = s
  message_other t now q (x ∷ text) m n le s =
      Gives-if (IsSeen fd address_of t) (x == b'x') _ _
        (heartbeat_other fd address_of t now q (x ∷ text) m n le s) s

  asked :
      (t q : ℕ) (key : Bytes) (m : Master)
      → IsSeen fd address_of t m
      → Gives (IsSeen fd address_of t) (answer_client q key m)
  unfolding answer_client send_to
  asked t q key m s =
      Gives-any (IsSeen fd address_of t) (handle_client_message key m) _
        λ a. same fd address_of t m _ refl refl s

  module _
      (plain : All
        (IsWord sharp)
        (c.local_cache_ip ∷ c.port_for_client ∷ c.port_for_cache ∷ [])) where
    message_own :
        (t now : ℕ) (text : Bytes) (m : Master)
        → IsBeat text
        → IsSeen fd address_of t m
        → Gives (IsSeen fd address_of now) (receive now fd text m)
    unfolding receive heart_message
    message_own t now text m (role, word, same) s =
        let ((sep, filled), (b, (d, _))) = plain in
        let c' = record c { pr_status = role } in
        subst (λ text. Gives (IsSeen fd address_of now) (receive now fd text m)) (sym same)
          (heartbeat_own fd address_of t now (heart_message c') c.local_cache_ip c.port_for_client
            (bytes "x") (c.port_for_cache ∷ role ∷ []) m
            (not_new c.local_cache_ip c.port_for_client filled) refl
            (words-heart_message c' ((sep, filled), (b, (d, (word, tt))))) s)

    run_seen :
        (t : ℕ) (es : List Event) (m : Master)
        → InTime t es
        → IsSeen fd address_of t m
        → Gives (IsSeen fd address_of t) (run es m)
    unfolding run step accept_cache
    run_seen t [] m h s = s
    run_seen t (accepts q ∷ es) m (n, h) s =
        run_seen t es _ h (apart fd address_of t q (new_fdmap q) m n s)
    run_seen t (message now q text ∷ es) m (le, inl (n, h)) s =
        Gives-then (IsSeen fd address_of t) (IsSeen fd address_of t) (receive now q text m) _
          (message_other t now q text m n le s) λ m s. run_seen t es m h s
    run_seen t (message now q text ∷ es) m (le, inr (own, beat, h)) s =
        Gives-then (IsSeen fd address_of now) (IsSeen fd address_of t) (receive now q text m) _
          (subst (λ q. Gives (IsSeen fd address_of now) (receive now q text m)) (sym own)
            (message_own t now text m beat s))
          λ m s.
            Gives-map (IsSeen fd address_of now) (IsSeen fd address_of t) (run es m)
              (λ n r. weaker t now n le r) (run_seen now es m h s)
    run_seen t (ask q key ∷ es) m h s =
        Gives-then (IsSeen fd address_of t) (IsSeen fd address_of t) (answer_client q key m) _
          (asked t q key m s) λ m s. run_seen t es m h s
    run_seen t (detects now ∷ es) m (soon, h) s =
        Gives-then (IsSeen fd address_of t) (IsSeen fd address_of t) (detect now m) _
          (detect_other fd address_of t now m soon s) λ m s. run_seen t es m h s
    run_seen t (shrinks ∷ es) m h s = absurd h

-- A cache server that the master knows by its address, last heard at t, is still known by it
-- behind any run of the master that does not fault and in which its heartbeats come in time: it
-- sends nothing but heartbeats, whatever its role is when it sends them, and each round of the
-- detection is less than five seconds behind the last of them, or behind t before the first; no
-- message of any cache server is read at a time before that one; no other connection gets its
-- descriptor; and the ring is not shrunk by hand, which takes out a replica with its primary.
-- No round of the detection takes it out, neither the other cache servers' messages and losses
-- nor the clients change its address, and the last time that it counts as heard is not before
-- t. Its fields have no # in them and are not empty.
pub run-IsSeen :
    (fd : ℕ) (c : CacheServer) (t : ℕ) (es : List Event) (m m' : Master)
    → All (IsWord sharp) (c.local_cache_ip ∷ c.port_for_client ∷ c.port_for_cache ∷ [])
    → IsSeen fd (address_of fd c) t m
    → InTime fd c t es
    → run es m ≡ ok m'
    → IsSeen fd (address_of fd c) t m'
run-IsSeen fd c t es m m' plain s h r =
    Gives-at (IsSeen fd (address_of fd c) t) (run es m) m' r (run_seen fd c plain t es m h s)
