-- ===== src/CacheServer/Startup/Listing.antt =====
-- The list of addresses that the master sends is the list that the cache server reads.
use simple_distributed_cache.Common.{
  ℕ, ◌+◌, ◌%◌, ◌≡◌, ◌≢◌, refl, sym, ap, ◌∙◌, some, List, [], ◌∷◌, ◌++◌, map, arith, NotIn, All,
  ◌==◌, length, true, length-map,
}
use mathlib.Core.List.{append_assoc, append-nil, map-append}
use simple_distributed_cache.Text.{Bytes, join, sharp}
use simple_distributed_cache.Master.Heartbeat.{join_all}
use simple_distributed_cache.CacheServer.Startup.{
  Parse, push, parse_char, parse_chars, pairs, finish, parse_list,
}

-- The text of one address.
abbrev pub address : Bytes × Bytes → Bytes
address (ip, port) = ip ++ sharp ∷ port

-- No `#` stands in the address or in the port.
abbrev pub IsPlain : Bytes × Bytes → Type 0
IsPlain (ip, port) = NotIn sharp ip × NotIn sharp port

-- A word pushed.
abbrev pub pushed_as : Bytes → Parse → Parse
pushed_as w p = record (push (record p { tmp = w })) { tmp = []; count = p.count + 1 }

abbrev pub pushed : Bytes → Parse → Parse
pushed w p = pushed_as (p.tmp ++ w) p

pub plain_char :
    (c : ℕ) (p : Parse) → sharp ≢ c → parse_char c p ≡ record p { tmp = p.tmp ++ c ∷ [] }
unfolding parse_char
plain_char c p n = ground arith

sharp_char : (p : Parse) → parse_char sharp p ≡ pushed [] p
unfolding parse_char
sharp_char p = ap (λ t. pushed_as t p) (sym (append-nil p.tmp))

pub parse_word :
    (w s : Bytes) (p : Parse)
    → NotIn sharp w
    → parse_chars (w ++ sharp ∷ s) p ≡ parse_chars s (pushed w p)
unfolding parse_chars
parse_word [] s p n = ap (parse_chars s) (sharp_char p)
parse_word (c ∷ w) s p (n, r) =
    ap (parse_chars (w ++ sharp ∷ s)) (plain_char c p n)
    ∙ parse_word w s (record p { tmp = p.tmp ++ c ∷ [] }) r
    ∙ ap (λ t. parse_chars s (pushed_as t p)) (append_assoc p.tmp (c ∷ []) w)

parse_last :
    (w : Bytes) (p : Parse) → NotIn sharp w → parse_chars w p ≡ record p { tmp = p.tmp ++ w }
unfolding parse_chars
parse_last [] p n = ap (λ t. record p { tmp = t }) (sym (append-nil p.tmp))
parse_last (c ∷ w) p (n, r) =
    ap (parse_chars w) (plain_char c p n)
    ∙ parse_last w (record p { tmp = p.tmp ++ c ∷ [] }) r
    ∙ ap (λ t. record p { tmp = t }) (append_assoc p.tmp (c ∷ []) w)

module _ (is ps : List Bytes) (n : ℕ) (even : n % 2 ≡ 0) where
  abbrev state : Parse
  state = record { ip = is; port = ps; tmp = []; count = n }

  abbrev between : Bytes → Parse
  between ip = record { ip = is ++ ip ∷ []; port = ps; tmp = []; count = n + 1 }

  pushed_ip : (w : Bytes) → pushed w state ≡ between w
  unfolding push
  pushed_ip w = rw even

  pushed_port :
      (ip w : Bytes)
      → pushed w (between ip)
        ≡ record { ip = is ++ ip ∷ []; port = ps ++ w ∷ []; tmp = []; count = n + 2 }
  unfolding push
  pushed_port ip w =
      let odd : (n + 1) % 2 ≡ 1 = omega arith in
      let two : n + 1 + 1 ≡ n + 2 = omega arith in rw (odd, two)

  module _ (ip port : Bytes) (a : NotIn sharp ip) (b : NotIn sharp port) where
    -- Two words at an even count go to the two vectors.
    parse_pair :
        (s : Bytes)
        → parse_chars (ip ++ sharp ∷ (port ++ sharp ∷ s)) state
          ≡ parse_chars s
              (record { ip = is ++ ip ∷ []; port = ps ++ port ∷ []; tmp = []; count = n + 2 })
    parse_pair s =
        parse_word ip (port ++ sharp ∷ s) state a
        ∙ ap (parse_chars (port ++ sharp ∷ s)) (pushed_ip ip)
        ∙ parse_word port s (between ip) b
        ∙ ap (parse_chars s) (pushed_port ip port)

    parse_last_pair :
        parse_chars (ip ++ sharp ∷ port) state
        ≡ record { ip = is ++ ip ∷ []; port = ps; tmp = port; count = n + 1 }
    parse_last_pair =
        parse_word ip port state a
        ∙ ap (parse_chars port) (pushed_ip ip)
        ∙ parse_last port (between ip) b

abbrev first_of : List (Bytes × Bytes) → List Bytes
first_of = map (λ e. e.0)

abbrev second_of : List (Bytes × Bytes) → List Bytes
second_of = map (λ e. e.1)

pairs-map : (l : List (Bytes × Bytes)) → pairs (first_of l) (second_of l) ≡ l
unfolding pairs
pairs-map [] = refl
pairs-map ((i, p) ∷ l) = ap (◌∷◌ (i, p)) (pairs-map l)

-- The list with the pair at its end, and the two vectors that `finish` compares.
finish_pairs :
    (l : List (Bytes × Bytes)) (ip port : Bytes) (n : ℕ)
    → finish (record { ip = first_of l ++ ip ∷ []; port = second_of l; tmp = port; count = n })
      ≡ some (l ++ (ip, port) ∷ [])
unfolding finish
finish_pairs l ip port n =
    let w = l ++ (ip, port) ∷ [] in
    let a : first_of l ++ ip ∷ [] ≡ first_of w = sym (map-append (λ e. e.0) l ((ip, port) ∷ [])) in
    let b : second_of l ++ port ∷ [] ≡ second_of w =
      sym (map-append (λ e. e.1) l ((ip, port) ∷ [])) in
    let same : (length (first_of w) == length (second_of w)) ≡ true =
      rw (length-map (λ (e : Bytes × Bytes). e.0) w, length-map (λ (e : Bytes × Bytes). e.1) w)
        (ground arith) in
    rw (a, b, same, pairs-map w)

-- From the pairs `l` on.
parse_from :
    (l : List (Bytes × Bytes)) (n : ℕ)
    → n % 2 ≡ 0
    → (e : Bytes × Bytes) (m : List (Bytes × Bytes)) → All IsPlain (e ∷ m)
    → finish (
        parse_chars
          (join sharp (address e) (map address m))
          (record { ip = first_of l; port = second_of l; tmp = []; count = n }))
      ≡ some (l ++ e ∷ m)
unfolding join
parse_from l n even (ip, port) [] ((a, b), _) =
    ap finish (parse_last_pair (first_of l) (second_of l) n even ip port a b)
    ∙ finish_pairs l ip port (n + 1)
parse_from l n even (ip, port) (e ∷ m) ((a, b), r) =
    let w = l ++ (ip, port) ∷ [] in
    ap finish (
      ap (λ t. parse_chars t (state (first_of l) (second_of l) n even))
        (append_assoc ip (sharp ∷ port) (sharp ∷ join sharp (address e) (map address m)))
      ∙ parse_pair (first_of l) (second_of l) n even ip port a b
          (join sharp (address e) (map address m)))
    ∙ rw
        (
          sym (map-append (λ (e : Bytes × Bytes). e.0) l ((ip, port) ∷ [])),
          sym (map-append (λ (e : Bytes × Bytes). e.1) l ((ip, port) ∷ [])),
        )
        (parse_from w (n + 2) (omega arith) e m r
          ∙ ap some (append_assoc l ((ip, port) ∷ []) (e ∷ m)))

-- The list that the master joins from the addresses is the list that the cache server reads,
-- where it has an entry and no address or port has a # in it.
pub parse_list-join_all :
    (e : Bytes × Bytes) (m : List (Bytes × Bytes))
    → All IsPlain (e ∷ m)
    → parse_list (join_all (map address (e ∷ m))) ≡ some (e ∷ m)
unfolding parse_list
parse_list-join_all e m a = parse_from [] 0 refl e m a
