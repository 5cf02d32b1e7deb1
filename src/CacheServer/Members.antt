-- ===== src/CacheServer/Members.antt =====
-- The cache server's list of the others, under the master's messages.
use simple_distributed_cache.Common.{
  ℕ, ◌≡◌, ◌≢◌, refl, Bool, true, false, none, some, List, [], ◌∷◌, ◌++◌, ok, NotIn, arith, ite,
  if_neg,
}
use simple_distributed_cache.Text.{Bytes, bytes, bytes_discrete, sharp}
use simple_distributed_cache.CacheServer.{
  CacheServer, before, behind, slice, erase_pair, is_local, add_cache, branch, read_from_master,
}

pub before-append : (k v : Bytes) → NotIn sharp k → before (k ++ sharp ∷ v) ≡ k
unfolding before
before-append [] v n = refl
before-append (c ∷ k) v (n, r) = ground (arith, before-append k v r)

pub behind-append : (k v : Bytes) → NotIn sharp k → behind (k ++ sharp ∷ v) ≡ some v
unfolding behind
behind-append [] v n = refl
behind-append (c ∷ k) v (n, r) = ground (arith, behind-append k v r)

pub behind-none : (s : Bytes) → NotIn sharp s → behind s ≡ none
unfolding behind
behind-none [] n = refl
behind-none (c ∷ s) (n, r) = ground (arith, behind-none s r)

-- `slice` gives back the two texts that `#` joins, where the first has no `#` in it.
pub slice-append : (k v : Bytes) → NotIn sharp k → slice (k ++ sharp ∷ v) ≡ ok (k, v)
unfolding slice
slice-append k v n = rw (behind-append k v n, before-append k v n)

-- The list does not have the address.
unfoldable pub is_absent : Bytes → Bytes → List (Bytes × Bytes) → Bool
is_absent ip port [] = true
is_absent ip port ((i, p) ∷ l) =
    ite (bytes_discrete i ip) (ite (bytes_discrete p port) false (is_absent ip port l))
      (is_absent ip port l)

erase_pair-append :
    (ip port : Bytes) (l : List (Bytes × Bytes))
    → is_absent ip port l ≡ true
    → erase_pair ip port (l ++ (ip, port) ∷ []) ≡ ok l
unfolding erase_pair is_absent
erase_pair-append ip port [] h = ground arith
erase_pair-append ip port ((i, p) ∷ l) h = ground (arith, erase_pair-append ip port l)

-- The master's texts about a server.
abbrev pub about : ℕ → Bytes → Bytes → Bytes
about head ip port = head ∷ sharp ∷ ip ++ sharp ∷ port

-- A cache server that is not leaving and hears that another one has come and then that it is
-- dead has the list that it had, where the other one was not in it and is not the server
-- itself; neither message faults.
pub read_from_master-N_D :
    (ip port : Bytes) (c : CacheServer)
    → NotIn sharp ip
    → c.status ≢ bytes "K"
    → is_local ip port c ≡ false
    → is_absent ip port c.cache_list ≡ true
    → (c' : CacheServer) × (c'' : CacheServer) × (read_from_master (about b'N' ip port) c ≡ ok c')
      × (c'.cache_list ≡ c.cache_list ++ (ip, port) ∷ [])
      × (read_from_master (about b'D' ip port) c' ≡ ok c'')
      × (c''.cache_list ≡ c.cache_list)
unfolding read_from_master branch add_cache
read_from_master-N_D ip port c n alive other absent =
    let c' : CacheServer = record c {
      cache_list = c.cache_list ++ (ip, port) ∷ [];
      cache_list_update_flag = true;
    } in
    (
      c',
      record c' { cache_list = c.cache_list },
      rw (if_neg (bytes_discrete c.status (bytes "K")) alive, slice-append ip port n, other),
      refl,
      rw (
        if_neg (bytes_discrete c.status (bytes "K")) alive,
        slice-append ip port n,
        erase_pair-append ip port c.cache_list absent,
      ),
      refl,
    )
