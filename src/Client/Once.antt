-- ===== src/Client/Once.antt =====
-- The lists of open requests hold each key once: `add_item_to_request_map` and
-- `erase_item_from_request_map` of Client/src/client.cpp.
use simple_distributed_cache.Common.{
  ◌≡◌, ◌≢◌, sym, Option, none, some, List, [], ◌∷◌, NotIn, IsDistinct, All, ite_either, if_pos,
  refl, ◌∙◌,
}
use mathlib.Core.Path.{subst}
use simple_distributed_cache.Common.Assoc.{lookup, assign, lookup-assign}
use simple_distributed_cache.Text.{Bytes, bytes_discrete}
use simple_distributed_cache.Client.{add_once, erase_once, add_found, erase_found}

-- No key is twice in the list of a server.
abbrev pub IsOnce : List (Bytes × List Bytes) → Type 0
IsOnce = All (λ e. IsDistinct e.1)

NotIn-add_once :
    (k key : Bytes) (keys : List Bytes) → k ≢ key → NotIn k keys → NotIn k (add_once key keys)
unfolding add_once
NotIn-add_once k key [] h n = (h, tt)
NotIn-add_once k key (j ∷ keys) h (n, r) =
    ite_either (NotIn k) (bytes_discrete key j) (j ∷ keys) (j ∷ add_once key keys) (λ p. (n, r))
      λ q. (n, NotIn-add_once k key keys h r)

add_once-IsDistinct :
    (key : Bytes) (keys : List Bytes) → IsDistinct keys → IsDistinct (add_once key keys)
unfolding add_once
add_once-IsDistinct key [] d = (tt, tt)
add_once-IsDistinct key (k ∷ keys) (n, d) =
    ite_either (IsDistinct) (bytes_discrete key k) (k ∷ keys) (k ∷ add_once key keys) (λ p. (n, d))
      λ q. (NotIn-add_once k key keys (λ e. q (sym e)) n, add_once-IsDistinct key keys d)

NotIn-erase_once :
    (k key : Bytes) (keys : List Bytes) → NotIn k keys → NotIn k (erase_once key keys)
unfolding erase_once
NotIn-erase_once k key [] n = tt
NotIn-erase_once k key (j ∷ keys) (n, r) =
    ite_either (NotIn k) (bytes_discrete key j) (keys) (j ∷ erase_once key keys) (λ p. r)
      λ q. (n, NotIn-erase_once k key keys r)

erase_once-IsDistinct :
    (key : Bytes) (keys : List Bytes) → IsDistinct keys → IsDistinct (erase_once key keys)
unfolding erase_once
erase_once-IsDistinct key [] d = tt
erase_once-IsDistinct key (k ∷ keys) (n, d) =
    ite_either (IsDistinct) (bytes_discrete key k) (keys) (k ∷ erase_once key keys) (λ p. d)
      λ q. (NotIn-erase_once k key keys n, erase_once-IsDistinct key keys d)

assign-IsOnce :
    (addr : Bytes) (keys : List Bytes) (m : List (Bytes × List Bytes))
    → IsDistinct keys
    → IsOnce m
    → IsOnce (assign bytes_discrete addr keys m)
unfolding assign
assign-IsOnce addr keys [] d s = (d, tt)
assign-IsOnce addr keys ((a, ks) ∷ m) d (n, s) =
    ite_either (IsOnce) (bytes_discrete addr a) ((addr, keys) ∷ m)
      ((a, ks) ∷ assign bytes_discrete addr keys m) (λ p. (d, s))
      λ q. (n, assign-IsOnce addr keys m d s)

lookup-IsDistinct :
    (addr : Bytes) (m : List (Bytes × List Bytes)) (keys : List Bytes)
    → lookup bytes_discrete addr m ≡ some keys
    → IsOnce m
    → IsDistinct keys
unfolding lookup
lookup-IsDistinct addr [] keys h s = absurd (cc h)
lookup-IsDistinct addr ((a, ks) ∷ m) keys h (n, s) =
    ite_either (λ o. o ≡ some keys → IsDistinct keys) (bytes_discrete addr a) (some ks)
      (lookup bytes_discrete addr m) (λ p h. subst IsDistinct (cc h) n)
      (λ q h. lookup-IsDistinct addr m keys h s) h

pub add_found-IsOnce :
    (addr key : Bytes) (m : List (Bytes × List Bytes)) (o : Option (List Bytes))
    → lookup bytes_discrete addr m ≡ o
    → IsOnce m
    → IsOnce (add_found addr key o m)
add_found-IsOnce addr key m none h s = assign-IsOnce addr (key ∷ []) m (tt, tt) s
add_found-IsOnce addr key m (some keys) h s =
    assign-IsOnce addr (add_once key keys) m
      (add_once-IsDistinct key keys (lookup-IsDistinct addr m keys h s)) s

pub erase_found-IsOnce :
    (addr key : Bytes) (m : List (Bytes × List Bytes)) (o : Option (List Bytes))
    → lookup bytes_discrete addr m ≡ o
    → IsOnce m
    → IsOnce (erase_found addr key o m)
erase_found-IsOnce addr key m none h s = s
erase_found-IsOnce addr key m (some keys) h s =
    assign-IsOnce addr (erase_once key keys) m
      (erase_once-IsDistinct key keys (lookup-IsDistinct addr m keys h s)) s

erase_once-NotIn :
    (key : Bytes) (keys : List Bytes) → IsDistinct keys → NotIn key (erase_once key keys)
unfolding erase_once
erase_once-NotIn key [] d = tt
erase_once-NotIn key (k ∷ keys) (n, d) =
    ite_either (NotIn key) (bytes_discrete key k) keys (k ∷ erase_once key keys)
      (λ p. subst (λ k. NotIn k keys) (sym p) n) λ q. (q, erase_once-NotIn key keys d)

abbrev pub keys_of : Option (List Bytes) → List Bytes
keys_of none = []
keys_of (some keys) = keys

-- A key that is taken out of the list of a server is not in it.
pub erase_found-NotIn :
    (addr key : Bytes) (m : List (Bytes × List Bytes)) (o : Option (List Bytes))
    → lookup bytes_discrete addr m ≡ o
    → IsOnce m
    → NotIn key (keys_of (lookup bytes_discrete addr (erase_found addr key o m)))
erase_found-NotIn addr key m none h s = subst (λ o. NotIn key (keys_of o)) (sym h) tt
erase_found-NotIn addr key m (some keys) h s =
    let w = lookup-assign bytes_discrete addr addr (erase_once key keys) m in
    let found = if_pos (bytes_discrete addr addr) refl (some (erase_once key keys)) _ in
    subst (λ o. NotIn key (keys_of o)) (sym (w ∙ found))
      (erase_once-NotIn key keys (lookup-IsDistinct addr m keys h s))
