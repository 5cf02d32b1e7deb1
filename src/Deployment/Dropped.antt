-- ===== src/Deployment/Dropped.antt =====
-- The cache servers that are left where a primary without backup is lost: the round of
-- `periodicDetectCache` in master/mastertry/master.cpp.
use simple_distributed_cache.Common.{
  ℕ, zero, suc, ◌<◌, ◌≡◌, ◌≢◌, refl, sym, ◌∙◌, ap, none, some, Option, List, [], ◌∷◌, ◌++◌, ok,
  fault, ◌>>=◌, length, get_elem?, IsDistinct, arith, Gives, Gives-then, Gives-any, Gives-at, ltb,
  true, ◌==◌, if◌then◌else◌, if_neg, of_option, ℕ_discrete, Option-cases, inl, inr, map,
}
use simple_distributed_cache.Common.Assoc.{lookup, lookup-erase}
use simple_distributed_cache.Text.{bytes}
use simple_distributed_cache.Ring.{delete_node, initialize}
use simple_distributed_cache.Ring.Exact.{NoCollision, empty_ring}
use simple_distributed_cache.Master.{Master, Fdmap, server, broadcast}
use simple_distributed_cache.Master.Failure.{
  detect, first_dead, drop_primary, take_out, erase_fd, forget,
}
use simple_distributed_cache.Master.Rebalance.{without, drop_primary-IsRing}
use simple_distributed_cache.Master.Events.Race.{forget-server}
use simple_distributed_cache.Master.Events.Promoted.{get_elem?-NotIn}
use simple_distributed_cache.Master.Events.Waiting.{detect-drop}
use simple_distributed_cache.CacheServer.{CacheServer}
use simple_distributed_cache.Deployment.{IsDeployed}

without-cons :
    (fd x : ℕ) (l : List ℕ) → without fd (x ∷ l) ≡ (if x == fd then l else x ∷ without fd l)
unfolding without erase_fd
without-cons fd x l = elim (Option-cases (erase_fd fd l)) [
  | inl e ↦ ground (arith, e)
  | inr ((j, r), e) ↦ ground (arith, e)
]

-- What is left in the list was in it, and is not the lost one.
get_elem?-without :
    (fd : ℕ) (l : List ℕ) (i x : ℕ)
    → IsDistinct l
    → get_elem? (without fd l) i ≡ some x
    → (x ≢ fd) × (j : ℕ) × (get_elem? l j ≡ some x)
unfolding without erase_fd
get_elem?-without fd [] i x d h = absurd (cc h)
get_elem?-without fd (y ∷ l) i x (n, d) h = elim (ℕ_discrete y fd) [
  | yes p ↦
      let gone : without fd (y ∷ l) ≡ l = without-cons fd y l ∙ ground (arith, p) in
      let there : get_elem? l i ≡ some x = sym (ap (λ w. get_elem? w i) gone) ∙ h in
      ((λ e. get_elem?-NotIn y l i x n there (p ∙ sym e)), suc i, there)
  | no q ↦
      let stays : without fd (y ∷ l) ≡ y ∷ without fd l = without-cons fd y l ∙ ground (arith, q) in
      behind (λ i h. get_elem?-without fd l i x d h) i (sym (ap (λ w. get_elem? w i) stays) ∙ h) q
]
  where
    behind :
        ((i : ℕ)
          → get_elem? (without fd l) i ≡ some x
          → (x ≢ fd) × (j : ℕ) × (get_elem? l j ≡ some x))
        → (i : ℕ) → get_elem? (y ∷ without fd l) i ≡ some x
        → y ≢ fd
        → (x ≢ fd) × (j : ℕ) × (get_elem? (y ∷ l) j ≡ some x)
    behind rest zero h q = let same : y ≡ x = cc h in ((λ e. q (same ∙ e)), zero, h)
    behind rest (suc i) h q = let (a, j, b) = rest i h in (a, suc j, b)

module _ (fd : ℕ) (e : Fdmap) (m : Master) where
  take_out-caches :
      (o : Option (ℕ × List ℕ)) → Gives (λ n. n.caches_list ≡ m.caches_list) (take_out o m)
  unfolding take_out
  take_out-caches none = refl
  take_out-caches (some (i, l)) = Gives-any _ (delete_node i m.hash) _ λ h. refl

  drop_primary-caches : Gives (λ n. n.caches_list ≡ m.caches_list) (drop_primary fd e m)
  unfolding drop_primary broadcast
  drop_primary-caches =
      let Same = λ (n : Master). n.caches_list ≡ m.caches_list in
      Gives-then Same Same (take_out (erase_fd fd m.fd_node) m) _
        (take_out-caches (erase_fd fd m.fd_node)) λ n same. same

  forget-server_other : (q : ℕ) (n : Master) → q ≢ fd → 0 < fd → server q (forget fd n) ≡ server q n
  unfolding server forget
  forget-server_other q n other h =
      let positive : ltb 0 fd ≡ true = ground (arith, h) in
      rw positive (
        ap of_option
          (lookup-erase ℕ_discrete q fd n.caches_list ∙ if_neg (ℕ_discrete q fd) other _ _))

  forget_same :
      (n : Master)
      → ((forget fd n).hash ≡ n.hash)
        × ((forget fd n).fd_node ≡ n.fd_node)
        × ((forget fd n).sent ≡ n.sent)
  unfolding forget
  forget_same n = (ground arith, ground arith, ground arith)

-- The master does not know the lost one any more, and each primary that is left is the cache
-- server that it was.
pub detect-IsDeployed :
    (now fd : ℕ) (e : Fdmap) (m : Master) (s : ℕ → CacheServer)
    → first_dead now m.caches_list m ≡ ok (some fd)
    → server fd m ≡ ok e
    → e.status ≡ b'P'
    → e.pair_fd ≡ none
    → 0 < fd
    → NoCollision 100 (length m.fd_node)
    → IsDistinct m.fd_node
    → IsDeployed m s
    → (m' : Master) × (detect now m ≡ ok m')
      × IsDeployed m' s
      × (m'.fd_node ≡ without fd m.fd_node)
      × (m'.sent ≡ m.sent ++ map (λ q. (q, bytes "D#" ++ e.ip_cache)) (without fd m.fd_node))
      × (server fd m' ≡ fault)
detect-IsDeployed now fd e m s dead there primary alone positive apart distinct d =
    let (t, h, r, f, k, _) = drop_primary-IsRing fd e m d.ring apart in
    let caches =
      Gives-at (λ n. n.caches_list ≡ m.caches_list) (drop_primary fd e m) t h
        (drop_primary-caches fd e m) in
    let (hash, list, told) = forget_same fd e m t in
    let ring = hash ∙ r ∙ ap (λ l. initialize (length l) 100 empty_ring) (sym list) in
    (
      forget fd t,
      detect-drop now fd e m dead there primary alone ∙ ap (λ x. x >>= λ m. ok (forget fd m)) h,
      record {
        ring = ring;
        listed = λ i q g.
            let (n, j, at) =
              get_elem?-without fd m.fd_node i q distinct
                (ap (λ l. get_elem? l i) (sym f ∙ sym list) ∙ g) in
            let (o, known, parts) = d.listed j q at in
            (
              o,
              forget-server_other fd e m q t n positive
                  ∙ unfold server in ap (λ l. of_option (lookup ℕ_discrete q l)) caches ∙ known,
              parts,
            );
        placed = d.placed;
      },
      list ∙ f,
      told ∙ k,
      forget-server fd t positive,
    )
