-- ===== src/CacheLru/Runs.antt =====
-- Whole runs of calls of the table, against the specification.
use simple_distributed_cache.Common.{
  ℕ, ◌≡◌, refl, ◌≤◌, false, List, [], ◌∷◌, arith, length, Ptr, Result, ok, ◌>>=◌,
}
use simple_distributed_cache.CacheLru.{has, Lru, get, put}
use simple_distributed_cache.CacheLru.Spec.{read, write}
use simple_distributed_cache.CacheLru.Invariant.{Represents}
use simple_distributed_cache.CacheLru.Laws.{length-read, length-write}
use simple_distributed_cache.CacheLru.Get.{get-read}
use simple_distributed_cache.CacheLru.Put.{put-write}

pub data Call (K V : Type 0) : Type 0 where
  get_call : K → Call K V
  put_call : K → V → Call K V

-- What a call returns: the value that it read, or the key that it took out.
pub data Answer (K V : Type 0) : Type 0 where
  got : V → Answer K V
  removed : K → Answer K V

-- `new`: it returns an address that holds no node.
pub record Allocator : Type 0 where
  pub fresh : List Ptr → Ptr
  pub fresh_free : (used : List Ptr) → has (fresh used) used ≡ false

module _ {K V : Type 0} (dec : Discrete K) (key0 : K) (val0 : V) where
  -- One call of the specification, and a run of calls.
  unfoldable pub spec_call : (limit : ℕ) → Call K V → List (K × V) → Answer K V × List (K × V)
  spec_call limit (get_call k) l = let (v, l') = read dec val0 k l in (got v, l')
  spec_call limit (put_call k v) l = let (r, l') = write dec key0 limit k v l in (removed r, l')

  unfoldable pub spec_run :
      (limit : ℕ) → List (Call K V) → List (K × V) → List (Answer K V) × List (K × V)
  spec_run limit [] l = ([], l)
  spec_run limit (c ∷ cs) l =
      let (a, l') = spec_call limit c l in let (as', l'') = spec_run limit cs l' in (a ∷ as', l'')

  pub length-spec_call :
      (limit : ℕ) (c : Call K V) (l : List (K × V))
      → length l ≤ limit
      → length (spec_call limit c l).1 ≤ limit
  unfolding spec_call
  length-spec_call limit (get_call k) l h = omega (arith, length-read dec val0 k l)
  length-spec_call limit (put_call k v) l h = length-write dec key0 limit k v l h

  module _ (new : Allocator) where
    unfoldable pub call : Call K V → Lru K V → Result (Answer K V × Lru K V)
    call (get_call k) c = do (v, c) ← get dec val0 k c; ok (got v, c)
    call (put_call k v) c = do
      (r, c) ← put dec key0 (new.fresh c.heap.used) k v c
      ok (removed r, c)

    unfoldable pub run : List (Call K V) → Lru K V → Result (List (Answer K V) × Lru K V)
    run [] c = ok ([], c)
    run (x ∷ xs) c = do (a, c) ← call x c; (rest, c) ← run xs c; ok (a ∷ rest, c)

    call-spec_call :
        (x : Call K V) {c : Lru K V} {l : List (K × V)}
        → Represents dec c l
        → (c' : Lru K V) × (call x c ≡ ok ((spec_call c.capacity x l).0, c'))
          × Represents dec c' (spec_call c.capacity x l).1
          × (c'.capacity ≡ c.capacity)
    unfolding call spec_call
    call-spec_call (get_call k) r = let (c', e, s, f) = get-read dec val0 k r in (c', rw e, s, f)
    call-spec_call (put_call k v) {c} r =
        let (c', e, s, f) =
          put-write dec key0 (new.fresh c.heap.used) k v r (new.fresh_free c.heap.used) in
        (c', rw e, s, f)

    -- Every run of get and put on a well-formed table that is within its capacity ends with no
    -- fault and with the mutex free, returns what the list specification returns, and leaves a
    -- table that stands for the specification's list and is within its capacity.
    pub run-spec_run :
        (xs : List (Call K V)) {c : Lru K V} {l : List (K × V)}
        → Represents dec c l
        → length l ≤ c.capacity
        → (c' : Lru K V) × (run xs c ≡ ok ((spec_run c.capacity xs l).0, c'))
          × Represents dec c' (spec_run c.capacity xs l).1
          × (length (spec_run c.capacity xs l).1 ≤ c.capacity)
    unfolding run spec_run
    run-spec_run [] {c} r h = (c, refl, r, h)
    run-spec_run (x ∷ xs) {c} {l} r h =
        let (c', e, s, f) = call-spec_call x r in
        let small = length-spec_call c.capacity x l h in
        let (c'', e', s', h') = run-spec_run xs {c = c'} s (rw f small) in
        (c'', rw (e, e', f), rw f at s', rw f at h')
