-- ===== src/Client/Lost.antt =====
-- What `check_cache_server_request_map` does with requests that no cache server answers.
use simple_distributed_cache.Common.{
  ◌≡◌, refl, sym, ◌∙◌, ap, List, [], ◌∷◌, ◌++◌, map, length, ltb, if◌then◌else◌, ◌≤◌, arith, All,
  Bool, true, false, ◌<◌, some, NotIn,
}
use mathlib.Core.List.{append_assoc, append-nil, map-append}
use mathlib.Core.Path.{subst}
use simple_distributed_cache.Common.Assoc.{lookup}
use simple_distributed_cache.CacheLru.Chain.{NotIn-append}
use simple_distributed_cache.Text.{Bytes, bytes_discrete}
use simple_distributed_cache.Client.{Client, Packet, send_request_to_master, lost_max_num}
use simple_distributed_cache.Client.Handlers.{
  resend_all, check_entries, check_cache_server_request_map,
}

abbrev is_lost : List Bytes → Bool
is_lost keys = ltb lost_max_num (length keys)

-- The keys of the servers with more than six requests open.
unfoldable pub lost_keys : List (Bytes × List Bytes) → List Bytes
lost_keys [] = []
lost_keys ((addr, keys) ∷ m) = (if is_lost keys then keys else []) ++ lost_keys m

-- The table with the requests of these servers taken out.
unfoldable pub without_lost : List (Bytes × List Bytes) → List (Bytes × List Bytes)
without_lost [] = []
without_lost ((addr, keys) ∷ m) = (addr, if is_lost keys then [] else keys) ∷ without_lost m

resend_all-sent :
    (keys : List Bytes) (c : Client)
    → (resend_all keys c).sent ≡ c.sent ++ map Packet.to_master keys
unfolding resend_all send_request_to_master
resend_all-sent [] c = sym (append-nil c.sent)
resend_all-sent (key ∷ keys) c =
    resend_all-sent keys (send_request_to_master key c)
    ∙ append_assoc c.sent (Packet.to_master key ∷ []) (map Packet.to_master keys)

-- What the sends and the table of open requests do not touch stays.
module _ {X : Type 0} (part : Client → X)
    (sends : (key : Bytes) (c : Client) → part (send_request_to_master key c) ≡ part c)
    (apart : (m : List (Bytes × List Bytes)) (c : Client)
      → part (record c { request_map = m }) ≡ part c) where
  resend_all_kept : (keys : List Bytes) (c : Client) → part (resend_all keys c) ≡ part c
  unfolding resend_all
  resend_all_kept [] c = refl
  resend_all_kept (key ∷ keys) c = resend_all_kept keys (send_request_to_master key c) ∙ sends key c

  resend_if_kept :
      (b : Bool) (keys : List Bytes) (c : Client)
      → part (if b then resend_all keys c else c) ≡ part c
  resend_if_kept true keys c = resend_all_kept keys c
  resend_if_kept false keys c = refl

  check_entries_kept :
      (d m : List (Bytes × List Bytes)) (c : Client) → part (check_entries d m c) ≡ part c
  unfolding check_entries
  check_entries_kept d [] c = apart d c
  check_entries_kept d ((addr, keys) ∷ m) c =
      check_entries_kept (d ++ (addr, if is_lost keys then [] else keys) ∷ []) m
        (if is_lost keys then resend_all keys c else c)
      ∙ resend_if_kept (is_lost keys) keys c

  pub check_kept : (c : Client) → part (check_cache_server_request_map c) ≡ part c
  unfolding check_cache_server_request_map
  check_kept c = check_entries_kept [] c.request_map c

resend_if :
    (b : Bool) (keys : List Bytes) (c : Client)
    → (if b then resend_all keys c else c).sent
      ≡ c.sent ++ map Packet.to_master (if b then keys else [])
resend_if true keys c = resend_all-sent keys c
resend_if false keys c = sym (append-nil c.sent)

check_entries-request_map :
    (d m : List (Bytes × List Bytes)) (c : Client)
    → (check_entries d m c).request_map ≡ d ++ without_lost m
unfolding check_entries without_lost
check_entries-request_map d [] c = sym (append-nil d)
check_entries-request_map d ((addr, keys) ∷ m) c =
    let rest : List Bytes = if is_lost keys then [] else keys in
    check_entries-request_map (d ++ (addr, rest) ∷ []) m
      (if is_lost keys then resend_all keys c else c)
    ∙ append_assoc d ((addr, rest) ∷ []) (without_lost m)

check_entries-sent :
    (d m : List (Bytes × List Bytes)) (c : Client)
    → (check_entries d m c).sent ≡ c.sent ++ map Packet.to_master (lost_keys m)
unfolding check_entries lost_keys
check_entries-sent d [] c = sym (append-nil c.sent)
check_entries-sent d ((addr, keys) ∷ m) c =
    let rest : List Bytes = if is_lost keys then [] else keys in
    let lost : List Bytes = if is_lost keys then keys else [] in
    check_entries-sent (d ++ (addr, rest) ∷ []) m (if is_lost keys then resend_all keys c else c)
    ∙ ap (λ s. s ++ map Packet.to_master (lost_keys m)) (resend_if (is_lost keys) keys c)
    ∙ append_assoc c.sent (map Packet.to_master lost) (map Packet.to_master (lost_keys m))
    ∙ ap (λ s. c.sent ++ s) (sym (map-append Packet.to_master lost (lost_keys m)))

without_lost-bound :
    (m : List (Bytes × List Bytes)) → All (λ e. length e.1 ≤ lost_max_num) (without_lost m)
unfolding without_lost
without_lost-bound [] = tt
without_lost-bound ((addr, keys) ∷ m) = (ground arith, without_lost-bound m)

pub check_cache_server_request_map_lem :
    (c : Client)
    → let c' = check_cache_server_request_map c in
      (c'.sent ≡ c.sent ++ map Packet.to_master (lost_keys c.request_map))
      × (c'.request_map ≡ without_lost c.request_map)
      × (c'.local_lru ≡ c.local_lru)
      × All (λ e. length e.1 ≤ lost_max_num) c'.request_map
unfolding check_cache_server_request_map send_request_to_master
check_cache_server_request_map_lem c =
    let e = check_entries-request_map [] c.request_map c in
    (
      check_entries-sent [] c.request_map c,
      e,
      check_kept (λ c. c.local_lru) (λ key c. refl) (λ m c. refl) c,
      rw e (without_lost-bound c.request_map),
    )

-- The open requests of one server.
pub without_lost-lookup :
    (addr : Bytes) (keys : List Bytes) (m : List (Bytes × List Bytes))
    → lookup bytes_discrete addr m ≡ some keys
    → lost_max_num < length keys
    → lookup bytes_discrete addr (without_lost m) ≡ some []
unfolding without_lost lookup
without_lost-lookup addr keys [] h long = absurd (cc h)
without_lost-lookup addr keys ((a, l) ∷ m) h long =
    ground (arith, h, long, without_lost-lookup addr keys m)

pub NotIn-lost_keys :
    (addr key : Bytes) (keys : List Bytes) (m : List (Bytes × List Bytes))
    → lookup bytes_discrete addr m ≡ some keys
    → lost_max_num < length keys
    → NotIn key (lost_keys m)
    → NotIn key keys
unfolding lost_keys lookup
NotIn-lost_keys addr key keys [] h long n = absurd (cc h)
NotIn-lost_keys addr key keys ((a, l) ∷ m) h long n =
    let (x, y) = NotIn-append key (if is_lost l then l else []) (lost_keys m) n in
    elim (bytes_discrete addr a) [
      | yes p ↦
          let same : l ≡ keys = ground (arith, h, p) in
          let large : is_lost keys ≡ true = ground (arith, long) in
          subst (λ b. NotIn key (if b then keys else [])) large
            (subst (λ k. NotIn key (if is_lost k then k else [])) same x)
      | no q ↦ NotIn-lost_keys addr key keys m (ground (arith, h, q)) long y
    ]
