-- ===== src/CacheLru/Chain.antt =====
-- A doubly linked list between two sentinels, as the fields `next` and `prev` hold it.
use simple_distributed_cache.Common.{
  ◌≡◌, sym, ◌≢◌, List, [], ◌∷◌, ◌++◌, arith, Ptr, update, NotIn, IsDistinct,
}

-- From `a` the pointers lead through `xs` to `b`, and back.
abbrev pub Links : (next prev : Ptr → Ptr) → Ptr → List Ptr → Ptr → Type 0
Links n p a [] b = (n a ≡ b) × (p b ≡ a)
Links n p a (x ∷ xs) b = (n a ≡ x) × (p x ≡ a) × Links n p x xs b

-- All the addresses of a chain differ.
pub record IsApart (a : Ptr) (xs : List Ptr) (b : Ptr) : Type 0 where
  pub ends : a ≢ b
  pub front : NotIn a xs
  pub back : NotIn b xs
  pub distinct : IsDistinct xs

-- The node before the end, and the one behind the start.
abbrev pub last_of : Ptr → List Ptr → Ptr
last_of a [] = a
last_of a (x ∷ xs) = last_of x xs

abbrev pub first_of : List Ptr → Ptr → Ptr
first_of [] b = b
first_of (x ∷ xs) b = x

pub NotIn-append {ℓ} :
    {A : Type ℓ} (q : A) (xs ys : List A) → NotIn q (xs ++ ys) → NotIn q xs × NotIn q ys
NotIn-append q [] ys h = (tt, h)
NotIn-append q (x ∷ xs) ys h = let r = NotIn-append q xs ys h.1 in ((h.0, r.0), r.1)

pub NotIn-append_of {ℓ} :
    {A : Type ℓ} (q : A) (xs ys : List A) → NotIn q xs → NotIn q ys → NotIn q (xs ++ ys)
NotIn-append_of q [] ys h k = k
NotIn-append_of q (x ∷ xs) ys h k = (h.0, NotIn-append_of q xs ys h.1 k)

-- What the distinctness of a list says of one of its elements.
pub record Around {ℓ} {A : Type ℓ} (xs : List A) (x : A) (ys : List A) : Type ℓ where
  pub before : NotIn x xs
  pub after : NotIn x ys
  pub rest : IsDistinct (xs ++ ys)

pub NotIn-middle {ℓ} :
    {A : Type ℓ} (q : A) (xs : List A) (x : A) (ys : List A)
    → NotIn q (xs ++ x ∷ ys)
    → (q ≢ x) × NotIn q (xs ++ ys)
NotIn-middle q xs x ys h =
    let (a, b) = NotIn-append q xs (x ∷ ys) h in (b.0, NotIn-append_of q xs ys a b.1)

pub around {ℓ} :
    {A : Type ℓ} (xs : List A) (x : A) (ys : List A) → IsDistinct (xs ++ x ∷ ys) → Around xs x ys
around [] x ys h = record { before = tt; after = h.0; rest = h.1 }
around (w ∷ ws) x ys h =
    let r = around ws x ys h.1 in
    let s = NotIn-middle w ws x ys h.0 in
    record { before = ((λ e. s.0 (sym e)), r.before); after = r.after; rest = (s.1, r.rest) }

module _ (n p : Ptr → Ptr) where
  -- A write to a field outside the chain leaves it.
  pub Links-update_next :
      (q v a : Ptr) (xs : List Ptr) (b : Ptr)
      → q ≢ a
      → NotIn q xs
      → Links n p a xs b
      → Links (update n q v) p a xs b
  unfolding update
  Links-update_next q v a [] b h k l = ground arith
  Links-update_next q v a (x ∷ xs) b h k (e, f, l) =
      (ground arith, f, Links-update_next q v x xs b k.0 k.1 l)

  pub Links-update_prev :
      (q v a : Ptr) (xs : List Ptr) (b : Ptr)
      → q ≢ b
      → NotIn q xs
      → Links n p a xs b
      → Links n (update p q v) a xs b
  unfolding update
  Links-update_prev q v a [] b h k l = ground arith
  Links-update_prev q v a (x ∷ xs) b h k (e, f, l) =
      (e, ground arith, Links-update_prev q v x xs b h k.1 l)

  pub prev-at :
      (a : Ptr) (xs : List Ptr) (x : Ptr) (ys : List Ptr) (b : Ptr)
      → Links n p a (xs ++ x ∷ ys) b
      → p x ≡ last_of a xs
  prev-at a [] x ys b l = l.1
  prev-at a (w ∷ ws) x ys b l = prev-at w ws x ys b l.2

  pub next-at :
      (a : Ptr) (xs : List Ptr) (x : Ptr) (ys : List Ptr) (b : Ptr)
      → Links n p a (xs ++ x ∷ ys) b
      → n x ≡ first_of ys b
  next-at a [] x [] b l = l.2.0
  next-at a [] x (y ∷ ys) b l = l.2.0
  next-at a (w ∷ ws) x ys b l = next-at w ws x ys b l.2

  pub Links-first : (a : Ptr) (xs : List Ptr) (b : Ptr) → Links n p a xs b → n a ≡ first_of xs b
  Links-first a [] b l = l.0
  Links-first a (x ∷ xs) b l = l.0

  pub Links-last : (a : Ptr) (xs : List Ptr) (b : Ptr) → Links n p a xs b → p b ≡ last_of a xs
  Links-last a [] b l = l.1
  Links-last a (x ∷ xs) b l = Links-last x xs b l.2

pub last_of-ne : (q a : Ptr) (xs : List Ptr) → q ≢ a → NotIn q xs → q ≢ last_of a xs
last_of-ne q a [] h k = h
last_of-ne q a (x ∷ xs) h k = last_of-ne q x xs k.0 k.1

pub first_of-ne : (q : Ptr) (xs : List Ptr) (b : Ptr) → q ≢ b → NotIn q xs → q ≢ first_of xs b
first_of-ne q [] b h k = h
first_of-ne q (x ∷ xs) b h k = k.0

IsApart-tail : {a w : Ptr} {ws : List Ptr} {b : Ptr} → IsApart a (w ∷ ws) b → IsApart w ws b
IsApart-tail s = record {
  ends = λ e. s.back.0 (sym e);
  front = s.distinct.0;
  back = s.back.1;
  distinct = s.distinct.1;
}

module _ (n p : Ptr → Ptr) where
  -- To bridge over `x` leaves the chain without it.
  pub Links-unlink :
      (a : Ptr) (xs : List Ptr) (x : Ptr) (ys : List Ptr) (b : Ptr)
      → IsApart a (xs ++ x ∷ ys) b
      → Links n p a (xs ++ x ∷ ys) b
      → Links
          (update n (last_of a xs) (first_of ys b))
          (update p (first_of ys b) (last_of a xs))
          a
          (xs ++ ys)
          b
  unfolding update
  Links-unlink a [] x [] b s l = ground arith
  Links-unlink a [] x (y ∷ ys) b s l = (
    ground arith,
    ground arith,
    Links-update_next _ _ a y y ys b s.front.1.0 s.front.1.1
        (Links-update_prev _ _ y a y ys b (λ e. s.back.1.0 (sym e)) s.distinct.1.0 l.2.2),
  )
  Links-unlink a (w ∷ ws) x ys b s l =
      let t = IsApart-tail s in
      let f = NotIn-append a ws (x ∷ ys) s.front.1 in
      let g = NotIn-append w ws (x ∷ ys) t.front in
      let u = last_of-ne a w ws s.front.0 f.0 in
      let v = first_of-ne w ys b t.ends g.1.1 in
      (ground arith, ground arith, Links-unlink w ws x ys b t l.2)

  -- The four writes that put `q` behind the start.
  pub Links-link :
      (a q : Ptr) (xs : List Ptr) (b : Ptr)
      → IsApart a (q ∷ xs) b
      → Links n p a xs b
      → Links
          (update (update n q (first_of xs b)) a q)
          (update (update p q a) (first_of xs b) q)
          a
          (q ∷ xs)
          b
  unfolding update
  Links-link a q [] b s l = (ground arith, ground arith, ground arith)
  Links-link a q (x ∷ xs) b s l =
      let inner = Links-update_prev _ _ q a x xs b (λ e. s.back.0 (sym e)) s.distinct.0.1 l.2 in
      let inner = Links-update_next _ _ q x x xs b s.distinct.0.0 s.distinct.0.1 inner in
      let inner = Links-update_prev _ _ x q x xs b (λ e. s.back.1.0 (sym e)) s.distinct.1.0 inner in
      let inner = Links-update_next _ _ a q x xs b s.front.1.0 s.front.1.1 inner in
      (ground arith, ground arith, (ground arith, ground arith, inner))
