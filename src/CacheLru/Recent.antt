-- ===== src/CacheLru/Recent.antt =====
-- How far back an entry of the list of CacheLru/Spec.antt can have moved.
use simple_distributed_cache.Common.{
  ℕ, zero, suc, ◌≤◌, ◌<◌, ◌≡◌, ◌≢◌, refl, sym, ◌⊎◌, inl, inr, Bool, true, false, none, some, List,
  [], ◌∷◌, length, drop_last, last_or, ltb, if◌then◌else◌, arith, Option-cases, ite_either,
}
use mathlib.Core.Path.{subst}
use simple_distributed_cache.Common.Assoc.{lookup, erase, lookup-erase}
use simple_distributed_cache.CacheLru.Spec.{read, write}

module _ {K V : Type 0} (dec : Discrete K) where
  -- The branches of `write` and `read`.
  write_new :
      (key0 : K) (limit : ℕ) (j : K) (w : V) (l : List (K × V))
      → lookup dec j l ≡ none
      → write dec key0 limit j w l ≡ (
          if ltb limit (length ((j, w) ∷ l))
          then ((last_or (j, w) l).0, drop_last ((j, w) ∷ l))
          else (key0, (j, w) ∷ l))
  unfolding write
  write_new key0 limit j w l e = rw (e, write)

  write_old :
      (key0 : K) (limit : ℕ) (j : K) (w u : V) (l : List (K × V))
      → lookup dec j l ≡ some u
      → write dec key0 limit j w l ≡ (key0, (j, w) ∷ erase dec j l)
  unfolding write
  write_old key0 limit j w u l e = rw (e, write)

  read_new :
      (val0 : V) (j : K) (l : List (K × V)) → lookup dec j l ≡ none → read dec val0 j l ≡ (val0, l)
  unfolding read
  read_new val0 j l e = rw (e, read)

  pub read_old :
      (val0 : V) (j : K) (u : V) (l : List (K × V))
      → lookup dec j l ≡ some u
      → read dec val0 j l ≡ (u, (j, u) ∷ erase dec j l)
  unfolding read
  read_old val0 j u l e = rw (e, read)

  absent-drop_last :
      (q : K) (e : K × V) (l : List (K × V))
      → lookup dec q (e ∷ l) ≡ none
      → lookup dec q (drop_last (e ∷ l)) ≡ none
  unfolding lookup
  absent-drop_last q e [] h = refl
  absent-drop_last q e (x ∷ l) h = ground (arith, h, absent-drop_last q x l)

  absent_pushed :
      (q key0 : K) (limit : ℕ) (j : K) (w : V) (l : List (K × V)) (b : Bool)
      → lookup dec q ((j, w) ∷ l) ≡ none
      → let r : K × List (K × V) =
          if b then ((last_or (j, w) l).0, drop_last ((j, w) ∷ l)) else (key0, (j, w) ∷ l) in
        lookup dec q r.1 ≡ none
  absent_pushed q key0 limit j w l true h = absent-drop_last q (j, w) l h
  absent_pushed q key0 limit j w l false h = h

  -- A key that is not there is not there behind a write of another, or a read.
  pub write_absent :
      (q key0 : K) (limit : ℕ) (j : K) (w : V) (l : List (K × V))
      → q ≢ j
      → lookup dec q l ≡ none
      → lookup dec q (write dec key0 limit j w l).1 ≡ none
  write_absent q key0 limit j w l a h = elim (Option-cases (lookup dec j l)) [
    | inl e ↦
        subst (λ r. lookup dec q r.1 ≡ none) (sym (write_new key0 limit j w l e))
          (absent_pushed q key0 limit j w l (ltb limit (length ((j, w) ∷ l)))
            (unfold lookup in ground (arith, a, h)))
    | inr (u, e) ↦
        subst (λ r. lookup dec q r.1 ≡ none) (sym (write_old key0 limit j w u l e))
          (unfold lookup in ground (arith, a, h, lookup-erase dec q j l))
  ]

  pub read_absent :
      (q : K) (val0 : V) (j : K) (l : List (K × V))
      → lookup dec q l ≡ none
      → lookup dec q (read dec val0 j l).1 ≡ none
  read_absent q val0 j l h = elim (Option-cases (lookup dec j l)) [
    | inl e ↦ subst (λ r. lookup dec q r.1 ≡ none) (sym (read_new val0 j l e)) h
    | inr (u, e) ↦
        subst (λ r. lookup dec q r.1 ≡ none) (sym (read_old val0 j u l e))
          (unfold lookup in ground (arith, h, e, lookup-erase dec q j l))
  ]

module _ {K V : Type 0} (dec : Discrete K) (k : K) (v : V) where
  -- One of the first `n` entries is the one for `k`, and has `v`.
  abbrev pub Within : ℕ → List (K × V) → Type 0
  Within zero l = ⊥
  Within (suc n) [] = ⊥
  Within (suc n) ((j, w) ∷ l) = (k ≡ j) × (w ≡ v) ⊎ (k ≢ j) × Within n l

  pub Within-lookup : (n : ℕ) (l : List (K × V)) → Within n l → lookup dec k l ≡ some v
  unfolding lookup
  Within-lookup zero l h = absurd h
  Within-lookup (suc n) [] h = absurd h
  Within-lookup (suc n) ((j, w) ∷ l) (inl (p, q)) = ground (arith, p, q)
  Within-lookup (suc n) ((j, w) ∷ l) (inr (p, h)) = ground (arith, p, Within-lookup n l h)

  pub Within-suc : (n : ℕ) (l : List (K × V)) → Within n l → Within (suc n) l
  Within-suc zero l h = absurd h
  Within-suc (suc n) [] h = absurd h
  Within-suc (suc n) ((j, w) ∷ l) (inl h) = inl h
  Within-suc (suc n) ((j, w) ∷ l) (inr (p, h)) = inr (p, Within-suc n l h)

  Within-erase : (j : K) (n : ℕ) (l : List (K × V)) → k ≢ j → Within n l → Within n (erase dec j l)
  unfolding erase
  Within-erase j zero l a h = absurd h
  Within-erase j (suc n) [] a h = absurd h
  Within-erase j (suc n) ((i, w) ∷ l) a (inl (p, q)) =
      ite_either (Within (suc n)) (dec j i) (erase dec j l) ((i, w) ∷ erase dec j l)
        (λ e. absurd (ground (arith, a, e, p))) (λ d. inl (p, q))
  Within-erase j (suc n) ((i, w) ∷ l) a (inr (p, h)) =
      ite_either (Within (suc n)) (dec j i) (erase dec j l) ((i, w) ∷ erase dec j l)
        (λ e. Within-suc n (erase dec j l) (Within-erase j n l a h))
        (λ d. inr (p, Within-erase j n l a h))

  Within-drop_last :
      (n : ℕ) (e : K × V) (l : List (K × V))
      → n ≤ length l
      → Within n (e ∷ l)
      → Within n (drop_last (e ∷ l))
  Within-drop_last zero e l le h = absurd h
  Within-drop_last (suc n) e [] le h = absurd (omega (arith, le))
  Within-drop_last (suc n) e (x ∷ l) le (inl h) = inl h
  Within-drop_last (suc n) e (x ∷ l) le (inr (p, h)) =
      inr (p, Within-drop_last n x l (omega (arith, le)) h)

  -- A new entry in front, and the push out behind it.
  pushed :
      (key0 : K) (limit n : ℕ) (j : K) (w : V) (l : List (K × V)) (b : Bool)
      → ltb limit (length ((j, w) ∷ l)) ≡ b
      → n ≤ limit
      → Within n ((j, w) ∷ l)
      → let r : K × List (K × V) =
          if b then ((last_or (j, w) l).0, drop_last ((j, w) ∷ l)) else (key0, (j, w) ∷ l) in
        Within n r.1
  pushed key0 limit n j w l true e le h = Within-drop_last n (j, w) l (ground (arith, e, le)) h
  pushed key0 limit n j w l false e le h = h

  -- A write of another key moves the entry back by one place at most.
  pub write-Within :
      (key0 : K) (limit n : ℕ) (j : K) (w : V) (l : List (K × V))
      → k ≢ j
      → suc n ≤ limit
      → Within n l
      → Within (suc n) (write dec key0 limit j w l).1
  write-Within key0 limit n j w l a le h = elim (Option-cases (lookup dec j l)) [
    | inl e ↦
        subst (λ r. Within (suc n) r.1) (sym (write_new dec key0 limit j w l e))
          (pushed key0 limit (suc n) j w l _ refl le (inr (a, h)))
    | inr (u, e) ↦
        subst (λ r. Within (suc n) r.1) (sym (write_old dec key0 limit j w u l e))
          (inr (a, Within-erase j n l a h))
  ]

  -- So does a read of any key.
  pub read-Within :
      (val0 : V) (n : ℕ) (j : K) (l : List (K × V))
      → Within n l
      → Within (suc n) (read dec val0 j l).1
  read-Within val0 n j l h = elim (Option-cases (lookup dec j l)) [
    | inl e ↦ subst (λ r. Within (suc n) r.1) (sym (read_new dec val0 j l e)) (Within-suc n l h)
    | inr (u, e) ↦
        subst (λ r. Within (suc n) r.1) (sym (read_old dec val0 j u l e))
          (elim (dec k j) [
            | yes p ↦ inl (p, ground (arith, e, p, Within-lookup n l h))
            | no a ↦ inr (a, Within-erase j n l a h)
          ])
  ]

  -- What has just been written is in front.
  pub write-Within_self :
      (key0 : K) (limit : ℕ) (l : List (K × V))
      → 0 < limit
      → Within 1 (write dec key0 limit k v l).1
  write-Within_self key0 limit l le = elim (Option-cases (lookup dec k l)) [
    | inl e ↦
        subst (λ r. Within 1 r.1) (sym (write_new dec key0 limit k v l e))
          (pushed key0 limit 1 k v l _ refl (omega (arith, le)) (inl (refl, refl)))
    | inr (u, e) ↦
        subst (λ r. Within 1 r.1) (sym (write_old dec key0 limit k v u l e)) (inl (refl, refl))
  ]
