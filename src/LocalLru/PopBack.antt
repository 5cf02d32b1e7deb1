-- ===== src/LocalLru/PopBack.antt =====
-- The last block of `put`: the last node goes, and what the map has at its key.
use simple_distributed_cache.Common.{
  ℕ, ◌≡◌, sym, ap, ◌∙◌, ◌≢◌, ◌<◌, none, some, List, ◌∷◌, arith, ite, ℕ_discrete, inl, inr,
  Option-cases, drop_last, last_or, length,
}
use mathlib.Core.Path.{subst}
use simple_distributed_cache.Common.Assoc.{
  lookup, erase as erase_entry, lookup-erase, length-erase_lt,
}
use simple_distributed_cache.LocalLru.{LocalLru}
use simple_distributed_cache.LocalLru.Invariant.{
  IsNumbered, IsNumbered-drop_last, lookup-last, lookup-drop_last, IsValid, IsIndexed, held,
}

module _ {K V : Type 0} (dec : Discrete K) (d : LocalLru K V) (x : ℕ × (K × V))
    (l : List (ℕ × (K × V))) (whole : d.items ≡ x ∷ l) where
  -- The table after that.
  abbrev pub popped : LocalLru K V
  popped = record d { items = drop_last (x ∷ l); index = erase_entry dec (last_or x l).1.0 d.index }

  whole-IsNumbered : IsValid dec d → IsNumbered d.fresh (x ∷ l)
  whole-IsNumbered s = subst (λ m. IsNumbered d.fresh m) whole s.numbered

  popped-points :
      IsValid dec d
      → (q : K) (j : ℕ) → lookup dec q popped.index ≡ some j
      → (lookup dec q d.index ≡ some j)
        × (q ≢ (last_or x l).1.0)
        × (lookup ℕ_discrete j popped.items ≡ lookup ℕ_discrete j d.items)
  popped-points s q j h =
      let other : q ≢ (last_or x l).1.0 =
        ground (arith, lookup-erase dec q (last_or x l).1.0 d.index) in
      let there : lookup dec q d.index ≡ some j =
        ground (arith, lookup-erase dec q (last_or x l).1.0 d.index) in
      let (w, f) = s.points q j there in
      let f' : lookup ℕ_discrete j (x ∷ l) ≡ some (q, w) =
        ap (lookup ℕ_discrete j) (sym whole) ∙ f in
      let n = (whole-IsNumbered s).distinct in
      let shut = lookup-last x l n in
      let cut = lookup-drop_last j x l n in
      let same : lookup ℕ_discrete j (drop_last (x ∷ l)) ≡ lookup ℕ_discrete j (x ∷ l) =
        ground (arith, cut, shut, f') in
      (there, other, same ∙ ap (lookup ℕ_discrete j) (sym whole))

  pub popped-IsValid : IsValid dec d → IsValid dec popped
  popped-IsValid s = record {
    numbered = IsNumbered-drop_last (x ∷ l) (whole-IsNumbered s);
    points = λ q j h.
        let (there, _, same) = popped-points s q j h in
        let (w, f) = s.points q j there in (w, same ∙ f);
  }

  pub held-popped :
      IsValid dec d
      → (q : K) → held dec q popped ≡ ite (dec q (last_or x l).1.0) none (held dec q d)
  unfolding held
  held-popped s q = elim (Option-cases (lookup dec q popped.index)) [
    | inl h ↦ ground (arith, lookup-erase dec q (last_or x l).1.0 d.index)
    | inr (j, h) ↦ let (there, other, same) = popped-points s q j h in ground arith
  ]

  pub popped-IsIndexed : IsValid dec d → IsIndexed dec d → IsIndexed dec popped
  popped-IsIndexed s t = record {
    indexed = λ i q w e.
        let n = (whole-IsNumbered s).distinct in
        let cut = lookup-drop_last i x l n in
        let shut : lookup ℕ_discrete (last_or x l).0 d.items ≡ some (last_or x l).1 =
          ap (lookup ℕ_discrete (last_or x l).0) whole ∙ lookup-last x l n in
        let there : lookup ℕ_discrete i d.items ≡ some (q, w) =
          ap (lookup ℕ_discrete i) whole ∙ ground (arith, cut) in
        let a = t.indexed i q w there in
        let b = t.indexed (last_or x l).0 (last_or x l).1.0 (last_or x l).1.1 shut in
        ground (arith, lookup-erase dec q (last_or x l).1.0 d.index, cut);
  }

  pub length-popped : IsValid dec d → IsIndexed dec d → length popped.index < length d.index
  length-popped s t =
      let shut : lookup ℕ_discrete (last_or x l).0 d.items ≡ some (last_or x l).1 =
        ap (lookup ℕ_discrete (last_or x l).0) whole
        ∙ lookup-last x l (whole-IsNumbered s).distinct in
      let b = t.indexed (last_or x l).0 (last_or x l).1.0 (last_or x l).1.1 shut in
      length-erase_lt dec (last_or x l).1.0 d.index (rw b)
