-- ===== src/Master/Shrink.antt =====
-- `shrinkageCapacity` of master/mastertry/master.cpp, in two steps: what it does at the key `s`,
-- and what it does once the last cache server is silent. Other threads run between the two.
use simple_distributed_cache.Common.{
  ℕ, ◌-◌, Option, none, some, ◌++◌, Result, ok, ◌>>=◌, of_option, ltb, if◌then◌else◌, ℕ_discrete,
  length, get_elem?, drop_last,
}
use simple_distributed_cache.Common.Assoc.{erase}
use simple_distributed_cache.Text.{bytes}
use simple_distributed_cache.Ring.{delete_node}
use simple_distributed_cache.Master.{Master, server, broadcast}
use simple_distributed_cache.Master.Failure.{close}

-- up to the wait; the result is the descriptor of the last cache server
unfoldable pub announce_shrink : Master → Result (Option ℕ × Master)
announce_shrink m =
    if ltb 0 (length m.fd_node)
    then (do
      let index = length m.fd_node - 1
      hash ← delete_node index m.hash
      let m = record m { hash = hash }
      fd ← of_option (get_elem? m.fd_node index)
      e ← server fd m
      ok (some fd, broadcast (bytes "K#" ++ e.ip_cache) m))
    else ok (none, m)

abbrev pub close_pair : Option ℕ → Master → Master
close_pair none m = m
close_pair (some p) m =
    if ltb 0 p then close p (record m { caches_list = erase ℕ_discrete p m.caches_list }) else m

-- behind the wait
unfoldable pub finish_shrink : ℕ → Master → Result Master
finish_shrink fd m = do
  e ← server fd m
  let m = close_pair e.pair_fd m
  let m = record m { fd_node = drop_last m.fd_node }
  ok (close fd (record m { caches_list = erase ℕ_discrete fd m.caches_list }))
