-- ===== src/Master/Failure.antt =====
-- A round of `periodicDetectCache`, master/mastertry/master.cpp.
use simple_distributed_cache.Common.{
  ℕ, ◌+◌, true, false, Option, none, some, List, [], ◌∷◌, ◌++◌, Result, ok, fault, ◌>>=◌, ltb, ◌==◌,
  if◌then◌else◌, ℕ_discrete,
}
use simple_distributed_cache.Common.Assoc.{erase}
use simple_distributed_cache.Text.{Bytes, bytes, sharp, colon}
use simple_distributed_cache.Ring.{delete_node}
use simple_distributed_cache.Master.{
  Master, Fdmap, server, set_server, broadcast, heart_beat_detect,
}

abbrev pub push_pcache : ℕ → Master → Master
push_pcache fd m = record m { pcache = fd ∷ m.pcache }

abbrev pub close : ℕ → Master → Master
close fd m = record m { closed = m.closed ++ fd ∷ [] }

-- `tmpstr.replace(tmpstr.find("#"), 1, ":")`, which throws where there is no `#`
unfoldable pub replace_sharp : Bytes → Result Bytes
replace_sharp [] = fault
replace_sharp (c ∷ s) =
    if c == sharp then ok (colon ∷ s) else (replace_sharp s >>= λ rest. ok (c ∷ rest))

-- the loop that writes the backup's descriptor over the primary's
unfoldable pub replace_fd : (fd p : ℕ) → List ℕ → List ℕ
replace_fd fd p [] = []
replace_fd fd p (x ∷ xs) = if x == fd then p ∷ xs else x ∷ replace_fd fd p xs

-- the loop that takes the primary out, and the index it found it at
unfoldable pub erase_fd : (fd : ℕ) → List ℕ → Option (ℕ × List ℕ)
erase_fd fd [] = none
erase_fd fd (x ∷ xs) =
    let rest = erase_fd fd xs in
    if x == fd then some (0, xs) else elim rest [ none ↦ none | some (i, l) ↦ some (i + 1, x ∷ l) ]

-- the branch of a replica; `caches_list[-1]` is a null pointer
unfoldable pub replica_lost : (fd : ℕ) → Option ℕ → Master → Result Master
replica_lost fd none m = fault
replica_lost fd (some p) m = do
  o ← server p m
  ok (close fd (push_pcache p (set_server p (record o { pair_fd = none }) m)))

-- the branch of a primary with a backup
unfoldable pub promote : (fd : ℕ) → Fdmap → (p : ℕ) → Master → Result Master
promote fd e p m = do
  let m = record m { fd_node = replace_fd fd p m.fd_node }
  origin ← replace_sharp e.ip_cache
  o ← server p m
  backup ← replace_sharp o.ip_cache
  let m = broadcast (bytes "C#" ++ origin ++ sharp ∷ backup) m
  ok (close fd (push_pcache p (set_server p (record o { pair_fd = none; status = b'P' }) m)))

-- the loop of the branch of a primary with no backup
unfoldable pub take_out : Option (ℕ × List ℕ) → Master → Result Master
take_out none m = ok m
take_out (some (index, fds)) m = do
  hash ← delete_node index m.hash
  ok (record m { fd_node = fds; hash = hash })

-- that branch
unfoldable pub drop_primary : (fd : ℕ) → Fdmap → Master → Result Master
drop_primary fd e m = do
  m ← take_out (erase_fd fd m.fd_node) m
  ok (close fd (broadcast (bytes "D#" ++ e.ip_cache) m))

-- the tests of `pair_fd > 0`
unfoldable pub primary_lost : (fd : ℕ) → Fdmap → Option ℕ → Master → Result Master
primary_lost fd e none m = drop_primary fd e m
primary_lost fd e (some p) m = if ltb 0 p then promote fd e p m else drop_primary fd e m

-- the branch of a cache server that is not alive
unfoldable pub lost : (fd : ℕ) → Fdmap → Master → Result Master
lost fd e m =
    if e.status == b'R'
    then replica_lost fd e.pair_fd m
    else if e.status == b'P'
    then primary_lost fd e e.pair_fd m
    else ok m

-- The loop over `caches_list`: the first descriptor that is not alive, `none` for -1.
unfoldable pub first_dead : (now : ℕ) → List (ℕ × Fdmap) → Master → Result (Option ℕ)
first_dead now [] m = ok none
first_dead now ((k, e) ∷ l) m = do
  alive ← heart_beat_detect now e.fd m
  elim alive [ true ↦ first_dead now l m | false ↦ ok (some e.fd) ]

-- the test behind the loop
unfoldable pub forget : (fd : ℕ) → Master → Master
forget fd m = if ltb 0 fd then record m { caches_list = erase ℕ_discrete fd m.caches_list } else m

abbrev pub handle_dead : Option ℕ → Master → Result Master
handle_dead none m = ok m
handle_dead (some fd) m = do e ← server fd m; m ← lost fd e m; ok (forget fd m)

-- a round of `periodicDetectCache`
unfoldable pub detect : (now : ℕ) → Master → Result Master
detect now m = do dead ← first_dead now m.caches_list m; handle_dead dead m
