-- ===== src/CacheLru/Moves.antt =====
-- What `remove`, `add2head` and `remove_tail` do to the list in memory.
use simple_distributed_cache.Common.{
  ◌≡◌, refl, sym, Bool, true, List, [], ◌∷◌, ◌++◌, map, arith, Ptr, update, All, NotIn, ok,
  IsDistinct,
}
use mathlib.Core.List.{map-append}
use simple_distributed_cache.CacheLru.{is_live, Heap, remove, add2head, move2head, remove_tail}
use simple_distributed_cache.CacheLru.Chain.{
  IsApart, last_of, first_of, prev-at, next-at, Links-unlink, Links-link, Links-first, Links-last,
  around, Around, NotIn-middle, NotIn-append_of, last_of-ne,
}
use simple_distributed_cache.CacheLru.Invariant.{IsList}

live_last :
    (live : Ptr → Bool) (a : Ptr) (xs ys : List Ptr)
    → live a ≡ true
    → All (λ p. live p ≡ true) (xs ++ ys)
    → live (last_of a xs) ≡ true
live_last live a [] ys h k = h
live_last live a (x ∷ xs) ys h k = live_last live x xs ys k.0 k.1

last_of-append : (a : Ptr) (xs : List Ptr) (x : Ptr) → last_of a (xs ++ x ∷ []) ≡ x
last_of-append a [] x = refl
last_of-append a (w ∷ ws) x = last_of-append w ws x

live_first :
    (live : Ptr → Bool) (xs ys : List Ptr) (b : Ptr)
    → live b ≡ true
    → All (λ p. live p ≡ true) (xs ++ ys)
    → live (first_of ys b) ≡ true
live_first live [] [] b h k = h
live_first live [] (y ∷ ys) b h k = k.0
live_first live (x ∷ xs) ys b h k = live_first live xs ys b h k.1

pub All-middle {ℓ κ} :
    {A : Type ℓ} (P : A → Type κ) (xs : List A) (x : A) (ys : List A)
    → All P (xs ++ x ∷ ys)
    → P x × All P (xs ++ ys)
All-middle P [] x ys h = h
All-middle P (w ∷ ws) x ys h = let r = All-middle P ws x ys h.1 in (r.0, (h.0, r.1))

IsApart-middle :
    {a b : Ptr} (xs : List Ptr) (x : Ptr) (ys : List Ptr)
    → IsApart a (xs ++ x ∷ ys) b
    → IsApart a (xs ++ ys) b
IsApart-middle xs x ys s = record {
  ends = s.ends;
  front = (NotIn-middle _ xs x ys s.front).1;
  back = (NotIn-middle _ xs x ys s.back).1;
  distinct = (around xs x ys s.distinct).rest;
}

pub IsDistinct-middle :
    {K : Type 0} (key : Ptr → K) (xs : List Ptr) (x : Ptr) (ys : List Ptr)
    → IsDistinct (map key (xs ++ x ∷ ys))
    → Around (map key xs) (key x) (map key ys)
IsDistinct-middle key xs x ys d = around (map key xs) (key x) (map key ys) (rw map-append at d)

-- The memory after the node between `xs` and `ys` is unlinked.
abbrev pub unlinked : {K V : Type 0} → Heap K V → Ptr → List Ptr → List Ptr → Ptr → Heap K V
unlinked h a xs ys b = record h {
  next = update h.next (last_of a xs) (first_of ys b);
  prev = update h.prev (first_of ys b) (last_of a xs);
}

-- `remove` unlinks its node, whatever stands before and behind it.
pub remove-IsList :
    {K V : Type 0} {h : Heap K V} {a b : Ptr} (xs : List Ptr) (x : Ptr) (ys : List Ptr)
    → IsList h a (xs ++ x ∷ ys) b
    → (remove x h ≡ ok (unlinked h a xs ys b)) × IsList (unlinked h a xs ys b) a (xs ++ ys) b
unfolding remove
remove-IsList {h} {a} {b} xs x ys s =
    let e = prev-at h.next h.prev a xs x ys b s.linked in
    let f = next-at h.next h.prev a xs x ys b s.linked in
    let (here, live) = All-middle (λ p. (is_live h) p ≡ true) xs x ys s.live in
    let g = live_last (is_live h) a xs ys s.head_live live in
    let k = live_first (is_live h) xs ys b s.tail_live live in
    let out = NotIn-middle _ xs x ys s.apart.front in
    let u = last_of-ne x a xs (λ e. out.0 (sym e)) (around xs x ys s.apart.distinct).before in
    let kept : update h.next (last_of a xs) (first_of ys b) x ≡ h.next x =
      unfold update in ground arith in
    (
      rw (here, e, g, f) (rw (kept, f) (rw (k, e))),
      record {
        linked = Links-unlink h.next h.prev a xs x ys b s.apart s.linked;
        apart = IsApart-middle xs x ys s.apart;
        head_live = s.head_live;
        tail_live = s.tail_live;
        live = live;
        distinct = rw map-append (IsDistinct-middle h.key xs x ys s.distinct).rest;
      },
    )

-- The memory after `q` is linked behind `a`.
abbrev pub linked_first : {K V : Type 0} → Heap K V → Ptr → Ptr → List Ptr → Ptr → Heap K V
linked_first h a q xs b = record h {
  next = update (update h.next q (first_of xs b)) a q;
  prev = update (update h.prev q a) (first_of xs b) q;
}

-- `add2head` puts a node that is not in the list in front.
pub add2head-IsList :
    {K V : Type 0} {h : Heap K V} {a b : Ptr} (q : Ptr) (xs : List Ptr)
    → IsList h a xs b
    → (is_live h) q ≡ true
    → IsApart a (q ∷ xs) b
    → NotIn (h.key q) (map h.key xs)
    → (add2head a q h ≡ ok (linked_first h a q xs b))
      × IsList (linked_first h a q xs b) a (q ∷ xs) b
unfolding add2head
add2head-IsList {h} {a} {b} q xs s here apart new =
    let e = Links-first h.next h.prev a xs b s.linked in
    let k = live_first (is_live h) [] xs b s.tail_live s.live in
    let kept : update h.next q (first_of xs b) a ≡ h.next a = unfold update in ground arith in
    (
      rw (here, s.head_live, here, e, kept, e, k, s.head_live),
      record {
        linked = Links-link h.next h.prev a q xs b apart s.linked;
        apart = apart;
        head_live = s.head_live;
        tail_live = s.tail_live;
        live = (here, s.live);
        distinct = (new, s.distinct);
      },
    )

-- The memory after the node between `xs` and `ys` is moved to the front.
abbrev pub moved : {K V : Type 0} → Heap K V → Ptr → List Ptr → Ptr → List Ptr → Ptr → Heap K V
moved h a xs x ys b = linked_first (unlinked h a xs ys b) a x (xs ++ ys) b

-- `move2head` moves its node to the front.
pub move2head-IsList :
    {K V : Type 0} {h : Heap K V} {a b : Ptr} (xs : List Ptr) (x : Ptr) (ys : List Ptr)
    → IsList h a (xs ++ x ∷ ys) b
    → (move2head a x h ≡ ok (moved h a xs x ys b)) × IsList (moved h a xs x ys b) a (x ∷ xs ++ ys) b
unfolding move2head
move2head-IsList {h} {a} {b} xs x ys s =
    let (e, t) = remove-IsList xs x ys s in
    let r = around xs x ys s.apart.distinct in
    let k = IsDistinct-middle h.key xs x ys s.distinct in
    let apart : IsApart a (x ∷ xs ++ ys) b = record {
      ends = s.apart.ends;
      front = ((NotIn-middle _ xs x ys s.apart.front).0, t.apart.front);
      back = ((NotIn-middle _ xs x ys s.apart.back).0, t.apart.back);
      distinct = (NotIn-append_of x xs ys r.before r.after, t.apart.distinct);
    } in
    let new : NotIn (h.key x) (map h.key (xs ++ ys)) =
      rw map-append (NotIn-append_of (h.key x) (map h.key xs) (map h.key ys) k.before k.after) in
    let (f, u) =
      add2head-IsList x (xs ++ ys) t (All-middle (λ p. (is_live h) p ≡ true) xs x ys s.live).0 apart
        new in
    (rw e f, u)

-- `remove_tail` unlinks the last node and returns it.
pub remove_tail-IsList :
    {K V : Type 0} {h : Heap K V} {a b : Ptr} (xs : List Ptr) (x : Ptr)
    → IsList h a (xs ++ x ∷ []) b
    → (remove_tail b h ≡ ok (x, unlinked h a xs [] b))
      × IsList (unlinked h a xs [] b) a (xs ++ []) b
unfolding remove_tail
remove_tail-IsList {h} {a} {b} xs x s =
    let (e, t) = remove-IsList xs x [] s in
    let l = Links-last h.next h.prev a (xs ++ x ∷ []) b s.linked in
    (rw (s.tail_live, l, last_of-append a xs x, e), t)
