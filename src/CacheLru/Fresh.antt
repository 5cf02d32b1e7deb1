-- ===== src/CacheLru/Fresh.antt =====
-- A node that is new in memory, and writes to the fields of one node.
use simple_distributed_cache.Common.{
  ◌≡◌, refl, sym, ap, ◌∙◌, ◌≢◌, Bool, true, false, List, [], ◌∷◌, map, arith, Ptr, null, update,
  NotIn, All,
}
use simple_distributed_cache.CacheLru.{Heap, new_node, has, free, is_live}
use simple_distributed_cache.CacheLru.Chain.{IsApart, Links-update_next, Links-update_prev}
use simple_distributed_cache.CacheLru.Invariant.{IsList}

pub map-update {ℓ} :
    {A B : Type ℓ} (g : Ptr → A) (f : (Ptr → A) → Ptr → B) (q : Ptr) (a : A) (xs : List Ptr)
    → ((p : Ptr) → p ≢ q → f (update g q a) p ≡ f g p)
    → NotIn q xs
    → map (f (update g q a)) xs ≡ map (f g) xs
map-update g f q a [] same h = refl
map-update g f q a (x ∷ xs) same h = rw (same x (λ e. h.0 (sym e)), map-update g f q a xs same h.1)

pub update_other {ℓ} : {A : Type ℓ} (g : Ptr → A) (q p : Ptr) (a : A) → p ≢ q → update g q a p ≡ g p
unfolding update
update_other g q p a h = ground arith

pub update_self {ℓ} : {A : Type ℓ} (g : Ptr → A) (q : Ptr) (a : A) → update g q a q ≡ a
unfolding update
update_self g q a = ground arith

-- An address that holds no node is none of those that do.
fresh-NotIn :
    (live : Ptr → Bool) (q : Ptr) (xs : List Ptr)
    → live q ≡ false
    → All (λ p. live p ≡ true) xs
    → NotIn q xs
fresh-NotIn live q [] h k = tt
fresh-NotIn live q (x ∷ xs) h k = ((λ e. cc (ap live e)), fresh-NotIn live q xs h k.1)

has_other : (q p : Ptr) (l : List Ptr) → p ≢ q → has p (q ∷ l) ≡ has p l
has_other q p l h = ground arith

pub has-free_other : (q p : Ptr) (l : List Ptr) → p ≢ q → has p (free q l) ≡ has p l
has-free_other q p [] h = refl
has-free_other q p (x ∷ l) h = ground (arith, has-free_other q p l)

All-used :
    (q : Ptr) (l xs : List Ptr)
    → NotIn q xs
    → All (λ p. has p l ≡ true) xs
    → All (λ p. has p (q ∷ l) ≡ true) xs
All-used q l [] h k = tt
All-used q l (x ∷ xs) h k = (has_other q x l (λ e. h.0 (sym e)) ∙ k.0, All-used q l xs h.1 k.1)

pub All-free :
    (q : Ptr) (l xs : List Ptr)
    → NotIn q xs
    → All (λ p. has p l ≡ true) xs
    → All (λ p. has p (free q l) ≡ true) xs
All-free q l [] h k = tt
All-free q l (x ∷ xs) h k = (has-free_other q x l (λ e. h.0 (sym e)) ∙ k.0, All-free q l xs h.1 k.1)

-- The list in memory, beside a new node.
pub new_node-IsList :
    {K V : Type 0} {h : Heap K V} {a b : Ptr} (q : Ptr) (k : K) (v : V) (xs : List Ptr)
    → IsList h a xs b
    → (is_live h) q ≡ false
    → IsList (new_node q k v h) a xs b × IsApart a (q ∷ xs) b
unfolding new_node
new_node-IsList {h} {a} {b} q k v xs s new =
    let out = fresh-NotIn (is_live h) q xs new s.live in
    let not_a : q ≢ a = λ e. cc (ap (is_live h) e, s.head_live) in
    let not_b : q ≢ b = λ e. cc (ap (is_live h) e, s.tail_live) in
    (
      record {
        linked =
            Links-update_next _ _ q null a xs b not_a out
              (Links-update_prev _ _ q null a xs b not_b out s.linked);
        apart = s.apart;
        head_live = has_other q a h.used (λ e. not_a (sym e)) ∙ s.head_live;
        tail_live = has_other q b h.used (λ e. not_b (sym e)) ∙ s.tail_live;
        live = All-used q h.used xs out s.live;
        distinct =
            rw (map-update h.key (λ f. f) q k xs (λ p e. update_other h.key q p k e) out)
              s.distinct;
      },
      record {
        ends = s.apart.ends;
        front = ((λ e. not_a (sym e)), s.apart.front);
        back = ((λ e. not_b (sym e)), s.apart.back);
        distinct = (out, s.apart.distinct);
      },
    )
