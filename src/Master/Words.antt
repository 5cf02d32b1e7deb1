-- ===== src/Master/Words.antt =====
-- The `split` of the master (master/mastertry/master.h) takes apart what a cache server joins.
use simple_distributed_cache.Common.{
  ℕ, ◌≡◌, refl, sym, ◌≢◌, List, [], ◌∷◌, ◌++◌, arith, NotIn, All, ap, ◌∙◌, ◌==◌, true, false,
}
use mathlib.Core.List.{append_assoc, append-nil}
use simple_distributed_cache.Text.{Bytes, join}
use simple_distributed_cache.Master.{words, words_from, emit}

-- The separator is not in the word, and the word is not empty.
abbrev pub IsWord : ℕ → Bytes → Type 0
IsWord sep w = NotIn sep w × (w ≢ [])

emit_full : (w : Bytes) → w ≢ [] → emit true w ≡ w ∷ []
emit_full [] h = absurd (h refl)
emit_full (c ∷ w) h = refl

words_from-char :
    (acc s : Bytes) (c sep : ℕ)
    → sep ≢ c
    → words_from acc (c ∷ s) sep ≡ words_from (acc ++ c ∷ []) s sep
unfolding words_from
words_from-char acc s c sep n = let other : (c == sep) ≡ false = ground (arith, n) in rw other

words_from-sep :
    (acc s : Bytes) (sep : ℕ) → acc ≢ [] → words_from acc (sep ∷ s) sep ≡ acc ∷ words_from [] s sep
unfolding words_from
words_from-sep acc s sep n =
    let same : (sep == sep) ≡ true = ground arith in rw (same, emit_full acc n)

words_from-field :
    (acc w s : Bytes) (sep : ℕ)
    → NotIn sep w
    → acc ++ w ≢ []
    → words_from acc (w ++ sep ∷ s) sep ≡ (acc ++ w) ∷ words_from [] s sep
words_from-field acc [] s sep n full =
    words_from-sep acc s sep (λ e. full (append-nil acc ∙ e))
    ∙ ap (λ a. a ∷ words_from [] s sep) (sym (append-nil acc))
words_from-field acc (c ∷ w) s sep (n, r) full =
    words_from-char acc (w ++ sep ∷ s) c sep n
    ∙ words_from-field (acc ++ c ∷ []) w s sep r (λ e. full (sym (append_assoc acc (c ∷ []) w) ∙ e))
    ∙ ap (λ a. a ∷ words_from [] s sep) (append_assoc acc (c ∷ []) w)

words_from-last :
    (acc w : Bytes) (sep : ℕ) → NotIn sep w → acc ++ w ≢ [] → words_from acc w sep ≡ (acc ++ w) ∷ []
unfolding words_from
words_from-last acc [] sep n full =
    emit_full acc (λ e. full (append-nil acc ∙ e)) ∙ ap (λ a. a ∷ []) (sym (append-nil acc))
words_from-last acc (c ∷ w) sep (n, r) full =
    words_from-char acc w c sep n
    ∙ words_from-last (acc ++ c ∷ []) w sep r (λ e. full (sym (append_assoc acc (c ∷ []) w) ∙ e))
    ∙ ap (λ a. a ∷ []) (append_assoc acc (c ∷ []) w)

-- split of the master gives back the words that were joined with a separator, where none is
-- empty and none has the separator in it.
pub words-join :
    (sep : ℕ) (w : Bytes) (ws : List Bytes)
    → All (IsWord sep) (w ∷ ws)
    → words (join sep w ws) sep ≡ w ∷ ws
unfolding words join
words-join sep w [] ((n, full), _) = words_from-last [] w sep n full
words-join sep w (v ∷ ws) ((n, full), r) =
    words_from-field [] w (join sep v ws) sep n full ∙ ap (◌∷◌ w) (words-join sep v ws r)
