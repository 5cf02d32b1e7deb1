-- ===== src/LocalLru/Runs.antt =====
-- Runs of the client's table.
use simple_distributed_cache.Common.{
  ℕ, ◌≡◌, refl, sym, ◌∙◌, ◌≢◌, ◌≤◌, Option, none, some, List, [], ◌∷◌, arith, Result, ok, ◌>>=◌,
  Option-cases, inl, inr,
}
use simple_distributed_cache.Common.Assoc.{lookup}
use simple_distributed_cache.LocalLru.{LocalLru, init, put, get, size}
use simple_distributed_cache.LocalLru.Invariant.{held, lookup_front, spliced, spliced-IsValid}
use simple_distributed_cache.LocalLru.Indexed.{IsTight, put-Stores}

pub data Call (K V : Type 0) : Type 0 where
  get_call : K → Call K V
  put_call : K → V → Call K V

module _ {K V : Type 0} (dec : Discrete K) where
  -- A new table has no entry.
  pub init-IsTight : (n : ℕ) → IsTight {V = V} dec (init n)
  unfolding init lookup
  init-IsTight n = record {
    valid = record {
      numbered = record { below = tt; distinct = tt };
      points = λ k i e. absurd (cc);
    };
    indexed = record { indexed = λ i k v e. absurd (cc) };
    bounded = omega arith;
  }

  get-IsTight :
      {c : LocalLru K V} (k : K)
      → IsTight dec c
      → (c' : LocalLru K V) × (get dec k c ≡ ok (held dec k c, c'))
        × IsTight dec c'
        × (c'.max_size ≡ c.max_size)
  unfolding get held
  get-IsTight {c} k s = elim (Option-cases (lookup dec k c.index)) [
    | inl h ↦ (c, rw h, s, refl)
    | inr (i, h) ↦
        let (v, e) = s.valid.points k i h in
        (
          spliced dec c i k v,
          rw (h, e),
          record {
            valid = spliced-IsValid dec i k v s.valid e;
            indexed = record {
              indexed = λ j q w f.
                  s.indexed.indexed j q w (sym (lookup_front dec i j (k, v) c.items e) ∙ f);
            };
            bounded = s.bounded;
          },
          refl,
        )
  ]

  unfoldable pub call : Call K V → LocalLru K V → Result (Option V × LocalLru K V)
  call (get_call k) c = get dec k c
  call (put_call k v) c = do c ← put dec k v c; ok (none, c)

  unfoldable pub run : List (Call K V) → LocalLru K V → Result (List (Option V) × LocalLru K V)
  run [] c = ok ([], c)
  run (x ∷ xs) c = do (a, c) ← call x c; (rest, c) ← run xs c; ok (a ∷ rest, c)

  call-IsTight :
      (x : Call K V) {c : LocalLru K V}
      → IsTight dec c
      → (a : Option V) × (c' : LocalLru K V) × (call x c ≡ ok (a, c'))
        × IsTight dec c'
        × (c'.max_size ≡ c.max_size)
  unfolding call
  call-IsTight (get_call k) s = let (c', e, t, f) = get-IsTight k s in (_, c', e, t, f)
  call-IsTight (put_call k v) s =
      let (c', e, t) = put-Stores dec s k v in (none, c', rw e, t.tight, t.kept_size)

  -- A run of put and get of the client table with no erase in it ends with no fault and leaves
  -- at most as many entries as the capacity.
  pub run-size :
      (xs : List (Call K V)) {c : LocalLru K V}
      → IsTight dec c
      → (as' : List (Option V)) × (c' : LocalLru K V) × (run xs c ≡ ok (as', c'))
        × IsTight dec c'
        × (size c' ≤ c.max_size)
  unfolding run size
  run-size [] {c} s = ([], c, refl, s, s.bounded)
  run-size (x ∷ xs) s =
      let (a, c', e, t, f) = call-IsTight x s in
      let (rest, c'', e', t', b) = run-size xs {c = c'} t in
      (a ∷ rest, c'', rw (e, e'), t', rw f at b)

  -- `get` of the key that `put` has just stored returns the value, where the capacity is not 0.
  pub get-put :
      (k : K) (v : V) {c : LocalLru K V}
      → IsTight dec c
      → c.max_size ≢ 0
      → (c' : LocalLru K V) × (run (put_call k v ∷ get_call k ∷ []) c ≡ ok (none ∷ some v ∷ [], c'))
  unfolding run call
  get-put k v {c} s room =
      let (c', e, t) = put-Stores dec s k v in
      let (c'', e', _, _) = get-IsTight k t.tight in
      let there : held dec k c' ≡ some v = ground (arith, t.found) in (c'', rw (e, e', there))
