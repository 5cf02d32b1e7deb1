-- ===== src/Text/Split.antt =====
-- `split` takes apart what was joined with separators.
use simple_distributed_cache.Common.{
  ℕ, ◌≡◌, refl, ◌≢◌, List, [], ◌∷◌, ◌++◌, arith, NotIn, All, ap, ◌∙◌,
}
use simple_distributed_cache.Text.{Bytes, split, join}

pub split-field :
    (flag : ℕ) (w s : Bytes) → NotIn flag w → split (w ++ flag ∷ s) flag ≡ w ∷ split s flag
unfolding split
split-field flag [] s n = ground arith
split-field flag (c ∷ w) s (n, r) = ground (arith, split-field flag w s r)

split-last : (flag c : ℕ) (w : Bytes) → NotIn flag (c ∷ w) → split (c ∷ w) flag ≡ (c ∷ w) ∷ []
unfolding split
split-last flag c [] (n, r) = ground arith
split-last flag c (d ∷ w) (n, r) = ground (arith, split-last flag d w r)

-- The last of the fields.
abbrev pub last_field : Bytes → List Bytes → Bytes
last_field w [] = w
last_field w (v ∷ ws) = last_field v ws

-- `split` gives back the fields that were joined, where no field has the separator in it and the
-- last one is not empty.
pub split-join :
    (flag : ℕ) (w : Bytes) (ws : List Bytes)
    → All (NotIn flag) (w ∷ ws)
    → last_field w ws ≢ []
    → split (join flag w ws) flag ≡ w ∷ ws
unfolding join
split-join flag [] [] a n = absurd (n refl)
split-join flag (c ∷ w) [] (a, r) n = split-last flag c w a
split-join flag w (v ∷ ws) (a, r) n =
    split-field flag w (join flag v ws) a ∙ ap (◌∷◌ w) (split-join flag v ws r n)
