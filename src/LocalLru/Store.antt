-- ===== src/LocalLru/Store.antt =====
-- `put` of the client's table, whole.
use simple_distributed_cache.Common.{
  ℕ, ◌≡◌, refl, ap, ◌∙◌, ◌≤◌, Option, none, some, List, [], ◌∷◌, arith, ℕ_discrete, inl, inr,
  Bool-cases, suc, length, ok, ltb, if◌then◌else◌, is_some,
}
use simple_distributed_cache.Common.Assoc.{
  lookup, erase as erase_entry, lookup-erase, length-assign, length-erase_lt,
}
use simple_distributed_cache.LocalLru.{LocalLru, put, pop_back}
use simple_distributed_cache.LocalLru.Invariant.{IsValid, lookup-lt}
use simple_distributed_cache.LocalLru.Put.{stored, stored-IsValid, lookup-stored_new}
use simple_distributed_cache.LocalLru.PopBack.{popped, popped-IsValid}

module _ {K V : Type 0} (dec : Discrete K) {c : LocalLru K V} (s : IsValid dec c) (k : K)
    (v : V) where
  pub put-stored :
      (o : Option ℕ)
      → lookup dec k c.index ≡ o
      → let d = stored dec o k v c in
        put dec k v c ≡ (if ltb c.max_size (length d.index) then pop_back dec d.items d else ok d)
  unfolding put
  put-stored none h = rw h
  put-stored (some i) h =
      let (w, e) = s.points k i h in
      let old = lookup-lt c.fresh i (k, w) c.items s.numbered.below e in
      let there : lookup ℕ_discrete i ((c.fresh, (k, v)) ∷ c.items) ≡ some (k, w) =
        unfold lookup in ground arith in
      rw (h, there)

  module _ (o : Option ℕ) (h : lookup dec k c.index ≡ o) where
    -- The block at the end of `put` always has a node to take out.
    pop-stored :
        (l : List (ℕ × (K × V)))
        → (stored dec o k v c).items ≡ l
        → (x : ℕ × (K × V)) × (r : List (ℕ × (K × V))) × (l ≡ x ∷ r)
    unfolding lookup
    pop-stored [] e =
        absurd (cc (lookup-stored_new dec s k v o h, ap (lookup ℕ_discrete c.fresh) e))
    pop-stored (x ∷ r) e = (x, r, refl)

  -- put on a valid client table never uses an iterator whose node is gone, never pops an empty
  -- list, and leaves a valid table.
  pub put-IsValid : (c' : LocalLru K V) × (put dec k v c ≡ ok c') × IsValid dec c'
  put-IsValid =
      let o = lookup dec k c.index in
      let d = stored dec o k v c in
      let e = put-stored o refl in
      let t = stored-IsValid dec s k v o refl in
      elim (Bool-cases (ltb c.max_size (length d.index))) [
        | inr room ↦ (d, e ∙ rw room, t)
        | inl over ↦
            let (x, l, whole) = pop-stored o refl d.items refl in
            (popped dec d x l whole, e ∙ rw (over, whole), popped-IsValid dec d x l whole t)
      ]

  pub length-stored :
      (o : Option ℕ)
      → lookup dec k c.index ≡ o
      → length (stored dec o k v c).index
        ≤ (if is_some o then length c.index else suc (length c.index))
  length-stored none h = omega (arith, length-assign dec k c.fresh c.index h)
  length-stored (some i) h =
      let gone =
        length-assign dec k c.fresh (erase_entry dec k c.index)
          (ground (arith, lookup-erase dec k k c.index)) in
      omega (arith, gone, length-erase_lt dec k c.index (rw h))
