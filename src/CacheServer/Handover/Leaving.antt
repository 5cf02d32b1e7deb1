-- ===== src/CacheServer/Handover/Leaving.antt =====
-- A leaving cache server hands over every entry of its table.
use simple_distributed_cache.Common.{
  ◌≡◌, refl, sym, ap, ◌∙◌, some, List, [], ◌∷◌, ◌++◌, map, ok, ◌>>=◌, length, get_elem?, All, In,
  Bool, Result, fault, ltb, ◌<◌, arith, is_some, true, inl, inr,
}
use simple_distributed_cache.Common.Assoc.{lookup}
use simple_distributed_cache.Text.{Bytes, bytes_discrete, sharp}
use simple_distributed_cache.Ring.{Ring, murmur3_32}
use simple_distributed_cache.Ring.Sorted.{index_at}
use simple_distributed_cache.Ring.Server.{get_server-IsSuccessor, Reaches}
use simple_distributed_cache.Master.Serve.{get_elem?-lt, ring-IsExact, ring_number, is_some-lem}
use simple_distributed_cache.CacheLru.{all_key, check}
use simple_distributed_cache.CacheLru.Check.{check-lookup}
use simple_distributed_cache.CacheLru.Get.{get-read}
use simple_distributed_cache.CacheLru.Laws.{lookup-read, read-lookup}
use simple_distributed_cache.CacheLru.Spec.{read}
use simple_distributed_cache.CacheServer.{CacheServer, to_single_cache, buf_size}
use simple_distributed_cache.CacheServer.Replica.Sync.{Holds}
use simple_distributed_cache.CacheServer.Startup.Listing.{IsPlain}
use simple_distributed_cache.CacheServer.Handover.{
  caches, hash_of, locate, locate_all, cal_hash_key, Hand, hand_all, thread_ends, exits, leave,
}
use simple_distributed_cache.CacheServer.Handover.Target.{caches-map, get_elem?-map, located}

-- Every key has a target, where there is another server.
locate_total :
    (key : Bytes) (e : Bytes × Bytes) (l : List (Bytes × Bytes))
    → All IsPlain (e ∷ l)
    → Reaches (murmur3_32 key) (hash_of (length (caches (e ∷ l)))).points
    → (t : Bytes × Bytes) × (locate (hash_of (length (caches (e ∷ l)))) (caches (e ∷ l)) key ≡ ok t)
unfolding hash_of
locate_total key e l plain reaches =
    let list = caches (e ∷ l) in
    let hash = hash_of (length list) in
    let s = ring-IsExact hash (length list) refl in
    let (v, g, q) = get_server-IsSuccessor key hash s.sorted reaches in
    let (i, at) = is_some-lem (index_at v hash.points) q.point in
    let (w, f) = get_elem?-lt list i (ring_number hash (length list) v i refl at) in
    let ((ip, port), same, (n, p)) =
      get_elem?-map (e ∷ l) i w (ap (λ ws. get_elem? ws i) (sym (caches-map (e ∷ l))) ∙ f) plain in
    ((ip, port), located key hash list v i ip port g at (f ∙ ap some (sym same)) n)

abbrev value_of : Result (Bytes × Bytes) → Bytes × Bytes
value_of (ok t) = t
value_of fault = ([], [])

value_of-ok : (r : Result (Bytes × Bytes)) (t : Bytes × Bytes) → r ≡ ok t → r ≡ ok (value_of r)
value_of-ok (ok a) t h = refl
value_of-ok fault t h = absurd (cc h)

-- The entry is among the texts that are sent, to the server that the ring gives its key to.
abbrev pub IsHanded : (hash : Ring) (list : List Bytes) (key val : Bytes) → List Hand → Type 0
IsHanded hash list key val hands =
    (h : Hand) × In h hands
    × (h.text ≡ key ++ sharp ∷ val)
    × (locate hash list key ≡ ok (h.ip, h.port))

module _ (connects : Bytes → Bytes → Bool) (reachable : (ip port : Bytes) → connects ip port ≡ true)
    (hash : Ring) (list : List Bytes) (l : List (Bytes × Bytes)) where
  -- The key has a target, and its entry fits in the buffer.
  abbrev IsReady : Bytes → Type 0
  IsReady key =
      (val : Bytes) × (lookup bytes_discrete key l ≡ some val)
      × (locate hash list key ≡ ok (value_of (locate hash list key)))
      × (length (key ++ sharp ∷ val) < buf_size)

  abbrev targets : List Bytes → List (Bytes × Bytes)
  targets = map (λ key. value_of (locate hash list key))

  locate_all-targets :
      (keys : List Bytes) → All IsReady keys → locate_all hash list keys ≡ ok (targets keys)
  unfolding locate_all
  locate_all-targets [] a = refl
  locate_all-targets (key ∷ keys) ((val, found, at, fits), a) =
      ap (λ r. r >>= λ t. locate_all hash list keys >>= λ rest. ok (t ∷ rest)) at
      ∙ ap (λ r. r >>= λ rest. ok (value_of (locate hash list key) ∷ rest))
          (locate_all-targets keys a)

  to_single_cache-sent :
      (ip port key val : Bytes) (c : CacheServer) {m : List (Bytes × Bytes)}
      → Holds c m
      → lookup bytes_discrete key m ≡ some val
      → length (key ++ sharp ∷ val) < buf_size
      → (c' : CacheServer) × (to_single_cache (connects ip port) key c
          ≡ ok (some (key ++ sharp ∷ val), c'))
        × Holds c' (read bytes_discrete [] key m).1
  unfolding to_single_cache
  to_single_cache-sent ip port key val c {m} r found fits =
      let (table, e, r', f) = get-read bytes_discrete [] key r in
      let short : ltb (length (key ++ sharp ∷ val)) buf_size ≡ true = ground (arith, fits) in
      (
        record c { main_cache = table },
        rw (reachable ip port, e, read-lookup bytes_discrete [] key val m found, short),
        r',
      )

  -- The keys are handed over one by one; the reads on the way change no value.
  hand_all-IsHanded :
      (keys : List Bytes) (c : CacheServer) (m : List (Bytes × Bytes))
      → All IsReady keys
      → Holds c m
      → ((key : Bytes) → lookup bytes_discrete key m ≡ lookup bytes_discrete key l)
      → (hands : List Hand) × (c' : CacheServer) × (hand_all connects
            (map (λ t. t.0) (targets keys))
            (map (λ t. t.1) (targets keys))
            keys
            c
          ≡ ok (hands, c'))
        × ((key val : Bytes)
            → In key keys
            → lookup bytes_discrete key l ≡ some val
            → IsHanded hash list key val hands)
  unfolding hand_all
  hand_all-IsHanded [] c m ready r same = ([], c, refl, λ key val i. absurd i)
  hand_all-IsHanded (key ∷ keys) c m ((val, found, at, fits), ready) r same =
      let t = value_of (locate hash list key) in
      let (c1, step, r') = to_single_cache-sent t.0 t.1 key val c r (same key ∙ found) fits in
      let (hands, c', b, all) =
        hand_all-IsHanded keys c1 (read bytes_discrete [] key m).1 ready r'
          (λ q. lookup-read bytes_discrete [] key q m ∙ same q) in
      let hand : Hand = record { ip = t.0; port = t.1; text = key ++ sharp ∷ val } in
      (
        hand ∷ hands,
        c',
        rw (step, b),
        λ q w i there. elim i [
          | inl p ↦
              let value : some val ≡ some w =
                sym found ∙ ap (λ k. lookup bytes_discrete k l) (sym p) ∙ there in
              (
                hand,
                inl refl,
                ap (λ x. x ++ sharp ∷ val) (sym p) ∙ ap (λ x. q ++ sharp ∷ x) (cc value),
                ap (locate hash list) p ∙ at,
              )
          | inr i ↦ let (h, j, u, v) = all q w i there in (h, inr j, u, v)
        ],
      )

In-keys :
    (key : Bytes) {V : Type 0} (m : List (Bytes × V))
    → is_some (lookup bytes_discrete key m) ≡ true
    → In key (map (λ e. e.0) m)
unfolding lookup
In-keys key [] h = absurd (cc h)
In-keys key ((k, v) ∷ m) h = elim (bytes_discrete key k) [
  | yes p ↦ inl p
  | no n ↦ inr (In-keys key m (ground (arith, h)))
]

lookup-keys :
    (key : Bytes) {V : Type 0} (m : List (Bytes × V))
    → In key (map (λ e. e.0) m)
    → is_some (lookup bytes_discrete key m) ≡ true
unfolding lookup
lookup-keys key [] i = absurd i
lookup-keys key ((k, v) ∷ m) (inl p) = ground (arith, p)
lookup-keys key ((k, v) ∷ m) (inr i) = ground (arith, lookup-keys key m i)

All-In : {P : Bytes → Type 0} (l : List Bytes) → ((x : Bytes) → In x l → P x) → All P l
All-In [] f = tt
All-In (x ∷ l) f = (f x (inl refl), All-In l λ y i. f y (inr i))

-- The server with the targets of its keys.
abbrev aimed : CacheServer → List (Bytes × Bytes) → CacheServer
aimed c ts = record c {
  other_ip = map (λ t. t.0) ts;
  other_port = map (λ t. t.1) ts;
  out_key = all_key c.main_cache;
}

-- An entry has a server in the ring, and a text that fits in the buffer.
abbrev pub IsPassable : (hash : Ring) → List (Bytes × Bytes) → Type 0
IsPassable hash l =
    (key val : Bytes)
    → lookup bytes_discrete key l ≡ some val
    → Reaches (murmur3_32 key) hash.points × (length (key ++ sharp ∷ val) < buf_size)

-- A cache server with a well-formed table that is told to leave and has an address in its list sends
-- every entry of the table to the server that the ring for the list gives the key to, then ends.
pub leave-IsHanded :
    (connects : Bytes → Bytes → Bool) (c : CacheServer) {l : List (Bytes × Bytes)}
    (e : Bytes × Bytes) (others : List (Bytes × Bytes))
    → ((ip port : Bytes) → connects ip port ≡ true)
    → Holds c l
    → c.cache_list ≡ e ∷ others
    → All IsPlain (e ∷ others)
    → IsPassable (hash_of (length (caches (e ∷ others)))) l
    → (hands : List Hand) × (c' : CacheServer) × (leave connects c ≡ ok (exits hands c'))
      × ((key val : Bytes)
          → lookup bytes_discrete key l ≡ some val
          → IsHanded (hash_of (length (caches (e ∷ others)))) (caches (e ∷ others)) key val hands)
unfolding leave all_key check
leave-IsHanded connects c {l} e others reachable r listed plain passable =
    let list = caches (e ∷ others) in
    let hash = hash_of (length list) in
    let keys = all_key c.main_cache in
    let ready : All (IsReady connects reachable hash list l) keys = All-In keys λ key i.
      let there = sym (check-lookup bytes_discrete key r) ∙ lookup-keys key c.main_cache.nodes i in
      let (val, found) = is_some-lem (lookup bytes_discrete key l) there in
      let (reaches, fits) = passable key val found in
      let (t, at) = locate_total key e others plain reaches in
      (val, found, value_of-ok (locate hash list key) t at, fits) in
    let after = λ (ts : List (Bytes × Bytes)). ok (aimed c ts) in
    let c1 = aimed c (targets connects reachable hash list l keys) in
    let (hands, c', b, all) =
      hand_all-IsHanded connects reachable hash list l keys c1 l ready r (λ q. refl) in
    let targeted : cal_hash_key c ≡ ok c1 =
      unfold cal_hash_key in
      ap (λ o. locate_all (hash_of (length (caches o))) (caches o) keys >>= after) listed
      ∙ ap (λ r. r >>= after) (locate_all-targets connects reachable hash list l keys ready) in
    (
      hands,
      c',
      ap
            (λ o. elim o [
              | [] ↦ ok (thread_ends c)
              | e ∷ l ↦ (do
                c ← cal_hash_key c
                (hands, c) ← hand_all connects c.other_ip c.other_port c.out_key c
                ok (exits hands c))
            ])
            listed
          ∙ rw (targeted, b),
      λ key val found.
          all key val
            (In-keys key c.main_cache.nodes (check-lookup bytes_discrete key r ∙ ap is_some found))
            found,
    )
