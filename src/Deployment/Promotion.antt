-- ===== src/Deployment/Promotion.antt =====
-- What the cache servers do with the text that the master broadcasts where a backup takes its
-- primary's place: `periodicDetectCache` of master/mastertry/master.cpp and the branch `C` of
-- `ReadFromMaster` in cache/src/cache.cpp together.
use simple_distributed_cache.Common.{ℕ, ◌<◌, ◌≡◌, ◌≢◌, refl, some, ◌++◌, map, ok, fault, if_neg}
use simple_distributed_cache.Text.{Bytes, bytes, bytes_discrete}
use simple_distributed_cache.Master.{Master, Fdmap, server, set_server, broadcast}
use simple_distributed_cache.Master.Failure.{detect, first_dead, replace_sharp, replace_fd}
use simple_distributed_cache.Master.Events.Promoted.{change_text, replaced, detect-replaced}
use simple_distributed_cache.CacheServer.{CacheServer, branch, read_from_master}

reads_change :
    (origin backup : Bytes) (c : CacheServer)
    → c.status ≢ bytes "K"
    → read_from_master (change_text origin backup) c ≡ fault
unfolding read_from_master branch
reads_change origin backup c alive = rw (if_neg (bytes_discrete c.status (bytes "K")) alive)

-- Where a round of periodicDetectCache finds a primary dead whose backup is known, the master
-- sends one text to every primary of the list that has the backup in the place of the lost one,
-- and a cache server that is not leaving faults when it reads this text. Both descriptors are
-- positive, and both addresses for cache servers have a #.
pub detect-read_from_master :
    (now fd p : ℕ) (e o : Fdmap) (m : Master) (origin backup : Bytes) (c : CacheServer)
    → first_dead now m.caches_list m ≡ ok (some fd)
    → server fd m ≡ ok e
    → e.status ≡ b'P'
    → e.pair_fd ≡ some p
    → server p m ≡ ok o
    → 0 < fd
    → 0 < p
    → replace_sharp e.ip_cache ≡ ok origin
    → replace_sharp o.ip_cache ≡ ok backup
    → c.status ≢ bytes "K"
    → (m' : Master) × (text : Bytes) × (detect now m ≡ ok m')
      × (m'.fd_node ≡ replace_fd fd p m.fd_node)
      × (m'.sent ≡ m.sent ++ map (λ q. (q, text)) m'.fd_node)
      × (read_from_master text c ≡ fault)
unfolding set_server broadcast
detect-read_from_master now fd p e o m origin backup c dead there primary backed known positive
      positive' a b alive =
    (
      replaced fd p e o m (change_text origin backup),
      change_text origin backup,
      detect-replaced now fd p e o m origin backup dead there primary backed known positive
          positive' a b,
      refl,
      refl,
      reads_change origin backup c alive,
    )
