-- ===== src/CacheServer/Replica/Loss.antt =====
-- What the replica loses: lists of an even number of addresses, and messages that the primary
-- overwrites before it sends them.
use simple_distributed_cache.Common.{
  ℕ, ◌+◌, ◌%◌, ◌≡◌, refl, sym, ap, ◌∙◌, true, false, none, List, [], ◌∷◌, ◌++◌, ok, Ptr, NotIn, All,
  arith, length, length-append, ◌==◌,
}
use mathlib.Core.List.{append_assoc, append-nil}
use simple_distributed_cache.Text.{Bytes, sharp}
use simple_distributed_cache.CacheServer.{CacheServer}
use simple_distributed_cache.CacheServer.Startup.{Parse, push, parse_chars, finish, parse_list}
use simple_distributed_cache.CacheServer.Startup.Listing.{
  IsPlain, plain_char, parse_word, pushed_as,
}
use simple_distributed_cache.CacheLru.Runs.{Allocator}
use simple_distributed_cache.CacheServer.Replica.Sync.{
  Holds, chat, limit, place, RepliesFit, client_message-ServedBy,
}
use simple_distributed_cache.CacheServer.Replica.{
  primary_round, send_list, entries_text, send_kv, has_pair, read_list, replica_round,
}

parse_plain :
    (w s : Bytes) (p : Parse)
    → NotIn sharp w
    → parse_chars (w ++ s) p ≡ parse_chars s (record p { tmp = p.tmp ++ w })
unfolding parse_chars
parse_plain [] s p n = ap (λ t. parse_chars s (record p { tmp = t })) (sym (append-nil p.tmp))
parse_plain (c ∷ w) s p (n, r) =
    ap (parse_chars (w ++ s)) (plain_char c p n)
    ∙ parse_plain w s (record p { tmp = p.tmp ++ c ∷ [] }) r
    ∙ ap (λ t. parse_chars s (record p { tmp = t })) (append_assoc p.tmp (c ∷ []) w)

NotIn-append : (a : ℕ) (v w : Bytes) → NotIn a v → NotIn a w → NotIn a (v ++ w)
NotIn-append a [] w n m = m
NotIn-append a (c ∷ v) w (n, r) m = (n, NotIn-append a v w r m)

-- Two entries of the text put one word each into the two vectors.
parse_two :
    (i p j q s tmp : Bytes) (is ps : List Bytes) (n : ℕ)
    → IsPlain (i, p)
    → IsPlain (j, q)
    → n % 2 ≡ 0
    → parse_chars
        (i ++ (sharp ∷ (p ++ (j ++ (sharp ∷ (q ++ s))))))
        (record { ip = is; port = ps; tmp = tmp; count = n })
      ≡ parse_chars s (record {
        ip = is ++ (tmp ++ i) ∷ [];
        port = ps ++ (p ++ j) ∷ [];
        tmp = q;
        count = n + 2;
      })
parse_two i p j q s tmp is ps n (a, b) (a', b') even =
    let start : Parse = record { ip = is; port = ps; tmp = tmp; count = n } in
    let rest : Bytes = q ++ s in
    let middle : Parse = record {
      ip = is ++ (tmp ++ i) ∷ [];
      port = ps;
      tmp = [];
      count = n + 1;
    } in
    let end : Parse = record {
      ip = is ++ (tmp ++ i) ∷ [];
      port = ps ++ (p ++ j) ∷ [];
      tmp = [];
      count = n + 2;
    } in
    let first : pushed_as (tmp ++ i) start ≡ middle = unfold push in rw even in
    let odd : (n + 1) % 2 ≡ 1 = omega arith in
    let two : n + 1 + 1 ≡ n + 2 = omega arith in
    let second : pushed_as (p ++ j) middle ≡ end = unfold push in rw (odd, two) in
    parse_word i (p ++ (j ++ (sharp ∷ rest))) start a
    ∙ ap (parse_chars (p ++ (j ++ (sharp ∷ rest)))) first
    ∙ ap (λ t. parse_chars t middle) (sym (append_assoc p j (sharp ∷ rest)))
    ∙ parse_word (p ++ j) rest middle (NotIn-append sharp p j b a')
    ∙ ap (parse_chars rest) second
    ∙ parse_plain q s end b'

-- The number of entries is even.
abbrev pub IsEven : List (Bytes × Bytes) → Type 0
IsEven [] = Unit
IsEven (e ∷ []) = ⊥
IsEven (e ∷ f ∷ l) = IsEven l

finish_even :
    (l : List (Bytes × Bytes)) (tmp : Bytes) (is ps : List Bytes) (n : ℕ)
    → IsEven l
    → All IsPlain l
    → n % 2 ≡ 0
    → length is ≡ length ps
    → finish (parse_chars (entries_text l) (record { ip = is; port = ps; tmp = tmp; count = n }))
      ≡ none
unfolding entries_text
finish_even [] tmp is ps n v a even e =
    let short : (length is == length (ps ++ tmp ∷ [])) ≡ false =
      ground (arith, length-append ps (tmp ∷ []), e) in
    unfold parse_chars finish in rw short
finish_even (x ∷ []) tmp is ps n v a even e = absurd v
finish_even ((i, p) ∷ (j, q) ∷ l) tmp is ps n v (a, (b, r)) even e =
    ap finish (parse_two i p j q (entries_text l) tmp is ps n a b even)
    ∙ finish_even l q (is ++ (tmp ++ i) ∷ []) (ps ++ (p ++ j) ∷ []) (n + 2) v r (omega arith)
        (omega (arith, length-append is ((tmp ++ i) ∷ []), length-append ps ((p ++ j) ∷ []), e))

-- A text with an even number of addresses, as the primary writes it, with no # within an
-- address or a port, makes the replica exit where its own list does not have the primary.
pub replica_round-entries_text :
    (fresh : Ptr) (l : List (Bytes × Bytes)) (d : CacheServer)
    → IsEven l
    → All IsPlain l
    → has_pair d.target_ip d.target_port d.cache_list ≡ false
    → replica_round fresh (sharp ∷ entries_text l) d ≡ ok none
unfolding replica_round read_list parse_list
replica_round-entries_text fresh l d v a h = rw (finish_even l [] [] [] 0 v a refl refl, h)

quiet_round :
    (d : CacheServer)
    → d.cache_list_update_flag ≡ false
    → d.kv_update_flag ≡ true
    → (primary_round d).0 ≡ d.kv_to_replica ∷ []
unfolding primary_round send_list send_kv
quiet_round d f g = ground arith

-- After any messages of clients to a cache server with a well-formed table, with no round of
-- the primary's loop between them and no change of the list of addresses, the next round sends
-- the replica the last of them and no other. Each reply is shorter than the send buffer.
pub primary_round-chat :
    (new : Allocator) (messages : List Bytes) (last : Bytes) (c : CacheServer)
    {l : List (Bytes × Bytes)}
    → Holds c l
    → c.cache_list_update_flag ≡ false
    → RepliesFit (limit c) (place c) (messages ++ last ∷ []) l
    → (c' : CacheServer) × (chat new (messages ++ last ∷ []) c ≡ ok c')
      × ((primary_round c').0 ≡ last ∷ [])
unfolding chat
primary_round-chat new [] last c {l} r f fits =
    let (c', step, served, _) =
      client_message-ServedBy c (new.fresh c.main_cache.heap.used) last [] r
        (new.fresh_free c.main_cache.heap.used) fits in
    let c'' : CacheServer = record c' { kv_update_flag = true; kv_to_replica = last } in
    let quiet : c'.cache_list_update_flag ≡ false = served.unflagged ∙ f in
    (c'', rw step, quiet_round c'' quiet refl)
primary_round-chat new (message ∷ rest) last c {l} r f fits =
    let (c', step, served, more) =
      client_message-ServedBy c (new.fresh c.main_cache.heap.used) message (rest ++ last ∷ []) r
        (new.fresh_free c.main_cache.heap.used) fits in
    let c'' : CacheServer = record c' { kv_update_flag = true; kv_to_replica = message } in
    let (d, go, out) =
      primary_round-chat new rest last c'' served.holds (served.unflagged ∙ f) more in
    (d, rw (step, go), out)
