-- ===== src/Master/Events/Promoted.antt =====
-- A backup takes its primary's place: the branch of `periodicDetectCache` for a primary with a backup,
-- master/mastertry/master.cpp, and what the clients are told from then on.
use simple_distributed_cache.Common.{
  ℕ, zero, suc, ◌≡◌, ◌≢◌, sym, ap, ◌∙◌, none, some, List, [], ◌∷◌, ◌++◌, ok, arith, get_elem?,
  NotIn, IsDistinct, ite, ite_either, ◌<◌, true, ltb, ◌==◌, if◌then◌else◌, if_neg, ◌>>=◌, of_option,
  ℕ_discrete,
}
use simple_distributed_cache.Common.Assoc.{erase, lookup-erase}
use simple_distributed_cache.Text.{Bytes, bytes, sharp, colon}
use simple_distributed_cache.Ring.{initialize}
use simple_distributed_cache.Ring.Exact.{empty_ring}
use simple_distributed_cache.Master.{
  Master, Fdmap, words, server, set_server, broadcast, handle_client_message,
}
use simple_distributed_cache.Master.Failure.{
  forget, lost, primary_lost, replica_lost, handle_dead, detect, first_dead, close, push_pcache,
  replace_sharp, replace_fd, promote,
}
use simple_distributed_cache.Master.Serve.{IsRing, Answers, answered, get_server-place}
use simple_distributed_cache.Master.Events.Losses.{replace_fd-length}
use simple_distributed_cache.Master.Events.Registered.{set_server_self, set_server_other}

pub get_elem?-NotIn : (x : ℕ) (l : List ℕ) (i y : ℕ) → NotIn x l → get_elem? l i ≡ some y → x ≢ y
get_elem?-NotIn x [] i y n h = absurd (cc h)
get_elem?-NotIn x (z ∷ l) zero y (n, r) h = λ e. n (e ∙ sym (cc h))
get_elem?-NotIn x (z ∷ l) (suc i) y (n, r) h = get_elem?-NotIn x l i y r h

replace_fd_other :
    (fd p : ℕ) (l : List ℕ) (i x : ℕ)
    → get_elem? l i ≡ some x
    → x ≢ fd
    → get_elem? (replace_fd fd p l) i ≡ some x
unfolding replace_fd
replace_fd_other fd p [] i x h n = absurd (cc h)
replace_fd_other fd p (y ∷ l) zero x h n = let e : y ≡ x = cc h in ground (arith, e, n)
replace_fd_other fd p (y ∷ l) (suc i) x h n = ground (arith, h, replace_fd_other fd p l i x h n)

replace_fd_self :
    (fd p : ℕ) (l : List ℕ) (i : ℕ)
    → IsDistinct l
    → get_elem? l i ≡ some fd
    → get_elem? (replace_fd fd p l) i ≡ some p
unfolding replace_fd
replace_fd_self fd p [] i d h = absurd (cc h)
replace_fd_self fd p (y ∷ l) zero d h = let e : y ≡ fd = cc h in ground (arith, e)
replace_fd_self fd p (y ∷ l) (suc i) (n, d) h =
    let other = get_elem?-NotIn y l i fd n h in ground (arith, other, replace_fd_self fd p l i d h)

module _ (fd p : ℕ) (e o : Fdmap) (m : Master) where
  abbrev pub backed : Fdmap
  backed = record o { pair_fd = none; status = b'P' }

  -- The master behind the promotion, given the text that it sends.
  abbrev pub promoted : Bytes → Master
  promoted text = close fd (
      push_pcache p
        (set_server p backed (broadcast text (record m { fd_node = replace_fd fd p m.fd_node }))))

  module _ (origin backup : Bytes) (known : server p m ≡ ok o)
      (a : replace_sharp e.ip_cache ≡ ok origin) (b : replace_sharp o.ip_cache ≡ ok backup) where
    promote-promoted : promote fd e p m ≡ ok (promoted (bytes "C#" ++ origin ++ sharp ∷ backup))
    unfolding promote
    promote-promoted =
        let known' : server p (record m { fd_node = replace_fd fd p m.fd_node }) ≡ ok o =
          unfold server in known in
        rw (a, known', b)

  -- The same behind the round, which forgets the lost primary.
  abbrev pub replaced : Bytes → Master
  replaced text = record (promoted text) {
    caches_list = erase ℕ_discrete fd (promoted text).caches_list;
  }

  forget-replaced : (text : Bytes) → 0 < fd → forget fd (promoted text) ≡ replaced text
  unfolding forget
  forget-replaced text h = let positive : ltb 0 fd ≡ true = ground (arith, h) in rw positive

  server-replaced :
      (text : Bytes) (q : ℕ) → q ≢ fd → server q (replaced text) ≡ server q (promoted text)
  unfolding server
  server-replaced text q n =
      let w = lookup-erase ℕ_discrete q fd (promoted text).caches_list in
      ap of_option (w ∙ if_neg (ℕ_discrete q fd) n _ _)

  module _ (text : Bytes) (r : IsRing m) (apart : NotIn p m.fd_node)
      (distinct : IsDistinct m.fd_node) (other : p ≢ fd) where
    replaced-IsRing : IsRing (replaced text)
    unfolding set_server broadcast
    replaced-IsRing =
        r ∙ ap (λ n. initialize n 100 empty_ring) (sym (replace_fd-length fd p m.fd_node))

    server-promoted : (q : ℕ) → p ≢ q → server q (promoted text) ≡ server q m
    unfolding server set_server broadcast
    server-promoted q n = unfold server set_server in set_server_other p q backed m n

    backed-promoted : server p (promoted text) ≡ ok backed
    unfolding server set_server broadcast
    backed-promoted = unfold server set_server in set_server_self p backed m

    -- A key of another primary.
    answer_other :
        (key answer : Bytes) (q : Answers key m answer)
        → q.fd ≢ fd
        → handle_client_message key (replaced text) ≡ ok answer
    answer_other key answer q n =
        answered key (replaced text) q.place q.number q.fd q.entry q.ip q.port
          (unfold set_server broadcast in get_server-place key m q.place r q.first)
          (unfold set_server broadcast in q.at_place)
          (unfold set_server broadcast in
            replace_fd_other fd p m.fd_node q.number q.fd q.numbered n)
          (server-replaced text q.fd n
            ∙ server-promoted q.fd (get_elem?-NotIn p m.fd_node q.number q.fd apart q.numbered)
            ∙ q.known)
          q.parts
        ∙ ap ok (sym q.text)

    -- A key of the primary.
    answer_self :
        (key answer ip port : Bytes) (q : Answers key m answer)
        → q.fd ≡ fd
        → words o.ip_port sharp ≡ ip ∷ port ∷ []
        → handle_client_message key (replaced text) ≡ ok (ip ++ colon ∷ port)
    answer_self key answer ip port q same w =
        answered key (replaced text) q.place q.number p backed ip port
          (unfold set_server broadcast in get_server-place key m q.place r q.first)
          (unfold set_server broadcast in q.at_place)
          (unfold set_server broadcast in
            replace_fd_self fd p m.fd_node q.number distinct (q.numbered ∙ ap some same))
          (server-replaced text p other ∙ backed-promoted) w

-- What a round that finds a primary with a backup dead does.
lost-promote :
    (fd p : ℕ) (e : Fdmap) (m : Master)
    → e.status ≡ b'P'
    → e.pair_fd ≡ some p
    → 0 < p
    → lost fd e m ≡ promote fd e p m
unfolding lost primary_lost
lost-promote fd p e m primary backed h =
    let positive : ltb 0 p ≡ true = ground (arith, h) in
    ap
      (λ s.
        if s == b'R'
        then replica_lost fd e.pair_fd m
        else if s == b'P'
        then primary_lost fd e e.pair_fd m
        else ok m)
      primary
    ∙ ap (λ o. primary_lost fd e o m) backed
    ∙ rw positive

-- The text that tells the cache servers.
abbrev pub change_text : (origin backup : Bytes) → Bytes
change_text origin backup = bytes "C#" ++ origin ++ sharp ∷ backup

-- The round replaces the primary by its backup.
pub detect-replaced :
    (now fd p : ℕ) (e o : Fdmap) (m : Master) (origin backup : Bytes)
    → first_dead now m.caches_list m ≡ ok (some fd)
    → server fd m ≡ ok e
    → e.status ≡ b'P'
    → e.pair_fd ≡ some p
    → server p m ≡ ok o
    → 0 < fd
    → 0 < p
    → replace_sharp e.ip_cache ≡ ok origin
    → replace_sharp o.ip_cache ≡ ok backup
    → detect now m ≡ ok (replaced fd p e o m (change_text origin backup))
unfolding detect
detect-replaced now fd p e o m origin backup dead there primary backed known positive positive' a
      b =
    ap (λ r. r >>= λ d. handle_dead d m) dead
    ∙ ap (λ r. r >>= λ e. lost fd e m >>= λ m. ok (forget fd m)) there
    ∙ ap (λ r. r >>= λ m. ok (forget fd m))
        (lost-promote fd p e m primary backed positive'
          ∙ promote-promoted fd p e o m origin backup known a b)
    ∙ ap ok (forget-replaced fd p e o m (change_text origin backup) positive)

-- Where a round of periodicDetectCache finds a primary dead whose backup is known and has an
-- address and a port for clients, the backup takes its place with no fault: the ring stays the
-- one for the primaries, and a key that the master answered before is answered with the address
-- of the backup where it belonged to the lost primary, and with the address that it had where
-- not. The primaries are distinct, the backup is none of them and not the lost one, both
-- descriptors are positive, and both addresses for cache servers have a #.
pub detect-Answers :
    (now fd p : ℕ) (e o : Fdmap) (m : Master) (origin backup ip port : Bytes)
    → first_dead now m.caches_list m ≡ ok (some fd)
    → server fd m ≡ ok e
    → e.status ≡ b'P'
    → e.pair_fd ≡ some p
    → server p m ≡ ok o
    → 0 < fd
    → 0 < p
    → p ≢ fd
    → replace_sharp e.ip_cache ≡ ok origin
    → replace_sharp o.ip_cache ≡ ok backup
    → words o.ip_port sharp ≡ ip ∷ port ∷ []
    → IsRing m
    → NotIn p m.fd_node
    → IsDistinct m.fd_node
    → (key answer : Bytes) (q : Answers key m answer)
    → (m' : Master) × (detect now m ≡ ok m')
      × IsRing m'
      × (handle_client_message key m' ≡ ok (ite (ℕ_discrete q.fd fd) (ip ++ colon ∷ port) answer))
detect-Answers now fd p e o m origin backup ip port dead there primary backed known positive
      positive' other a b w r apart distinct key answer q =
    let text = change_text origin backup in
    let m' = replaced fd p e o m text in
    let self = answer_self fd p e o m text r apart distinct other key answer ip port q in
    let others = answer_other fd p e o m text r apart distinct other key answer q in
    (
      m',
      detect-replaced now fd p e o m origin backup dead there primary backed known positive
          positive' a b,
      replaced-IsRing fd p e o m text r apart distinct other,
      ite_either (λ a. handle_client_message key m' ≡ ok a) (ℕ_discrete q.fd fd)
          (ip ++ colon ∷ port) answer (λ same. self same w) others,
    )
