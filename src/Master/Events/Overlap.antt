-- ===== src/Master/Events/Overlap.antt =====
-- What happens where a new primary registers in `start_cache` while `shrinkageCapacity` of
-- master/mastertry/master.cpp waits until the last cache server is silent.
use simple_distributed_cache.Common.{
  ℕ, ◌+◌, ◌-◌, ◌≡◌, refl, sym, ap, ◌∙◌, true, Option, none, some, List, [], ◌∷◌, ◌++◌, Result, ok,
  fault, of_option, All, NotIn, arith, ltb, length, get_elem?, drop_last, ℕ_discrete, ok_injective,
}
use mathlib.Core.Path.{subst}
use simple_distributed_cache.Common.Assoc.{erase}
use simple_distributed_cache.Text.{Bytes, bytes, sharp}
use simple_distributed_cache.Ring.{
  Ring, initialize, add_node, delete_node, murmur3_32, get_server, server_of,
}
use simple_distributed_cache.Ring.Server.{owner}
use simple_distributed_cache.Ring.Sorted.{index_at}
use simple_distributed_cache.Ring.Exact.{empty_ring, NoCollision, delete_node-initialize}
use simple_distributed_cache.Master.{
  Master, Fdmap, server, set_server, new_fdmap, broadcast, handle_client_message, index_of,
}
use simple_distributed_cache.Master.Words.{IsWord}
use simple_distributed_cache.Master.Heartbeat.{addresses, heartbeat}
use simple_distributed_cache.Master.Shrink.{announce_shrink, close_pair, finish_shrink}
use simple_distributed_cache.Master.Serve.{IsRing}
use simple_distributed_cache.Master.Events.Registered.{
  behind, entry, heartbeat-behind, words-heart_message_primary, addresses-same, set_server_other,
}
use simple_distributed_cache.Master.Events.Promoted.{get_elem?-NotIn}
use simple_distributed_cache.Master.Events.Losses.{close_pair-IsSame}
use simple_distributed_cache.Master.Events.Race.{erase_gone}
use simple_distributed_cache.CacheServer.{CacheServer}
use simple_distributed_cache.CacheServer.Startup.{heart_message}

drop_last-append : (l : List ℕ) (x : ℕ) → drop_last (l ++ x ∷ []) ≡ l
drop_last-append [] x = refl
drop_last-append (y ∷ []) x = refl
drop_last-append (y ∷ z ∷ l) x = ap (◌∷◌ y) (drop_last-append (z ∷ l) x)

get_elem?-length : (l : List ℕ) → get_elem? l (length l) ≡ none
get_elem?-length [] = refl
get_elem?-length (x ∷ l) = get_elem?-length l

get_elem?-last :
    (l : List ℕ) (x : ℕ) → get_elem? l (length l - 1) ≡ some x → ltb 0 (length l) ≡ true
get_elem?-last [] x h = absurd (cc h)
get_elem?-last (y ∷ l) x h = ground arith

owner_by :
    (h : ℕ) (r : Ring) (o : Result ℕ)
    → server_of h r.points ≡ o
    → owner h r.points ≡ elim o [ fault ↦ fault | ok q ↦ ok (index_at q r.points) ]
unfolding owner
owner_by h r o e = ap (λ o. elim o [ fault ↦ fault | ok q ↦ ok (index_at q r.points) ]) e

beyond_by :
    (key : Bytes) (m : Master) (o : Result ℕ)
    → server_of (murmur3_32 key) m.hash.points ≡ o
    → owner (murmur3_32 key) m.hash.points ≡ ok (some (length m.fd_node))
    → handle_client_message key m ≡ fault
unfolding handle_client_message get_server
beyond_by key m fault e h = rw e
beyond_by key m (ok q) e h =
    let at : index_at q m.hash.points ≡ some (length m.fd_node) =
      ok_injective (sym (owner_by (murmur3_32 key) m.hash (ok q) e) ∙ h) in
    let number : index_of q m.hash.points ≡ length m.fd_node =
      unfold index_of in ap (λ (o : Option ℕ). elim o [ none ↦ 0 | some i ↦ i ]) at in
    rw (e, number, get_elem?-length m.fd_node)

-- A key whose index is the length of the list is answered from behind its end.
answer-beyond :
    (key : Bytes) (m : Master)
    → owner (murmur3_32 key) m.hash.points ≡ ok (some (length m.fd_node))
    → handle_client_message key m ≡ fault
answer-beyond key m h = beyond_by key m (server_of (murmur3_32 key) m.hash.points) refl h

module _ (last : ℕ) (e : Fdmap) (m : Master) where
  -- The master at the wait.
  abbrev pub announced : Ring → Master
  announced h = broadcast (bytes "K#" ++ e.ip_cache) (record m { hash = h })

  announce-announced :
      (h : Ring)
      → delete_node (length m.fd_node - 1) m.hash ≡ ok h
      → get_elem? m.fd_node (length m.fd_node - 1) ≡ some last
      → server last m ≡ ok e
      → announce_shrink m ≡ ok (some last, announced h)
  unfolding announce_shrink
  announce-announced h deleted at known =
      let known' : server last (record m { hash = h }) ≡ ok e = unfold server in known in
      rw (get_elem?-last m.fd_node last at, deleted, at, known')

-- Behind the wait, where the list has grown by one.
finish-grown :
    (last : ℕ) (e : Fdmap) (l : List ℕ) (fd : ℕ) (m : Master)
    → server last m ≡ ok e
    → m.fd_node ≡ l ++ fd ∷ []
    → (m' : Master) × (finish_shrink last m ≡ ok m')
      × (m'.fd_node ≡ l)
      × (server last m' ≡ fault)
      × (m'.hash ≡ m.hash)
unfolding finish_shrink
finish-grown last e l fd m known grown =
    let d = close_pair e.pair_fd m in
    let (hash, fds) = close_pair-IsSame e.pair_fd m in
    (
      record d {
        fd_node = drop_last d.fd_node;
        caches_list = erase ℕ_discrete last d.caches_list;
        closed = d.closed ++ last ∷ [];
      },
      rw known,
      ap drop_last (fds ∙ grown) ∙ drop_last-append l fd,
      unfold server in ap of_option (erase_gone last d.caches_list),
      hash,
    )

-- Where a new primary registers while shrinkageCapacity waits until the last one of the list is
-- silent, no step has a fault, and the list is then the one from before the key s: it has the
-- server that was taken out, which the master does not know any more, and not the new one; and
-- a key that the ring gives to the new one makes the master read beyond the end of the list.
-- The ring before is the one for the list, no two of its nodes have a point in common, every
-- primary is known and is not the new one, no replica waits, and the fields of the heartbeat
-- are not empty and have no # in them.
pub heartbeat-finish_shrink :
    (now fd last : ℕ) (e : Fdmap) (c : CacheServer) (m : Master) (ws : List Bytes) (key : Bytes)
    → IsRing m
    → NoCollision 100 (length m.fd_node)
    → get_elem? m.fd_node (length m.fd_node - 1) ≡ some last
    → server last m ≡ ok e
    → All (IsWord sharp) (c.local_cache_ip ∷ c.port_for_client ∷ c.port_for_cache ∷ [])
    → c.pr_status ≡ bytes "P"
    → NotIn fd m.fd_node
    → addresses m.fd_node m ≡ ok ws
    → server fd m ≡ ok (new_fdmap fd)
    → m.rcache ≡ []
    → let small = initialize (length m.fd_node - 1) 100 empty_ring in
      owner (murmur3_32 key) (add_node (length m.fd_node) small).points
        ≡ ok (some (length m.fd_node))
      → (m1 : Master) × (m2 : Master) × (m3 : Master) × (announce_shrink m ≡ ok (some last, m1))
        × (heartbeat now fd (heart_message c) m1 ≡ ok m2)
        × (m2.fd_node ≡ m.fd_node ++ fd ∷ [])
        × (finish_shrink last m2 ≡ ok m3)
        × (m3.fd_node ≡ m.fd_node)
        × (server last m3 ≡ fault)
        × (handle_client_message key m3 ≡ fault)
unfolding broadcast set_server
heartbeat-finish_shrink now fd last e c m ws key r n at known plain role apart all new waiting
      moved =
    let small = initialize (length m.fd_node - 1) 100 empty_ring in
    let positive = get_elem?-last m.fd_node last at in
    let long : length m.fd_node ≡ (length m.fd_node - 1) + 1 = ground (arith, positive) in
    let deleted : delete_node (length m.fd_node - 1) m.hash ≡ ok small =
      ap (delete_node (length m.fd_node - 1)) (r ∙ ap (λ n. initialize n 100 empty_ring) long)
      ∙ delete_node-initialize 100 (length m.fd_node - 1) (length m.fd_node - 1)
          (subst (NoCollision 100) long n) (omega arith) in
    let m1 = announced last e m small in
    let h = add_node (length m.fd_node) small in
    let all' : addresses m1.fd_node m1 ≡ ok ws = addresses-same m.fd_node m1 m refl ∙ all in
    let m2 =
      behind now fd c.local_cache_ip c.port_for_client c.port_for_cache m1 h ws refl apart all' in
    let run : heartbeat now fd (heart_message c) m1 ≡ ok m2 =
      heartbeat-behind now fd c.local_cache_ip c.port_for_client c.port_for_cache m1 h ws refl apart
        all' (heart_message c) (words-heart_message_primary c plain role) (unfold server in new)
        waiting in
    let there : server last m2 ≡ ok e =
      let other = get_elem?-NotIn fd m.fd_node (length m.fd_node - 1) last apart at in
      unfold server in
      (set_server_other fd last
          (entry now fd c.local_cache_ip c.port_for_client c.port_for_cache m1 h) m other
        ∙ known) in
    let (m3, finished, list, gone, ring) = finish-grown last e m.fd_node fd m2 there refl in
    (
      m1,
      m2,
      m3,
      announce-announced last e m small deleted at known,
      run,
      refl,
      finished,
      list,
      gone,
      answer-beyond key m3 (
          ap (λ h. owner (murmur3_32 key) h.points) ring
          ∙ moved
          ∙ ap (λ l. ok (some (length l))) (sym list)),
    )
