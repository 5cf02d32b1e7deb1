-- ===== src/Witnesses/CacheTable.antt =====
-- cache/src/LRU_cache.hpp at concrete inputs.
use simple_distributed_cache.Common.{
  Bool-cases, inl, inr, ◌<◌, ℕ, ◌≡◌, refl, ◌≤◌, true, false, List, [], ◌∷◌, ok, arith, ℕ_discrete,
  length, Ptr, ◌+◌, update, ◌>>=◌, leb, if◌then◌else◌,
}
use simple_distributed_cache.Common.Assoc.{lookup, assign, erase}
use simple_distributed_cache.CacheLru.{
  has, Heap, Lru, init, get, put, remove, add2head, move2head, remove_tail, get_found, evict,
  new_node,
}
use simple_distributed_cache.CacheLru.Spec.{read, write}
use simple_distributed_cache.CacheLru.Invariant.{Represents, init-Represents}
use simple_distributed_cache.CacheLru.Runs.{
  Call, get_call, put_call, got, removed, Allocator, spec_run, spec_call, run, call, run-spec_run,
}

-- An address above all that are used.
abbrev pub above : List Ptr → Ptr
above [] = 3
above (x ∷ l) = if leb (above l) x then x + 1 else above l

has-above : (p : Ptr) (l : List Ptr) → has p l ≡ true → p < above l
has-above p [] h = absurd (cc)
has-above p (x ∷ l) h = ground (arith, has-above p l)

pub above_free : (l : List Ptr) → has (above l) l ≡ false
above_free l = elim (Bool-cases (has (above l) l)) [
  | inl h ↦ absurd (omega (arith, has-above (above l) l h))
  | inr h ↦ h
]

abbrev pub new : Allocator
new = record { fresh = above; fresh_free = above_free }

-- Memory with nothing in it.
abbrev blank : Heap ℕ ℕ
blank = record { used = []; prev = λ p. 0; next = λ p. 0; key = λ p. 0; val = λ p. 0 }

-- A table of two entries, with its sentinels at 1 and 2.
abbrev table : Lru ℕ ℕ
table = init 0 0 1 2 2 blank

table-Represents : Represents ℕ_discrete table []
table-Represents = init-Represents ℕ_discrete 0 0 1 2 2 blank (omega arith)

table_capacity : table.capacity ≡ 2
unfolding init
table_capacity = refl

abbrev calls : List (Call ℕ ℕ)
calls = put_call 7 70 ∷ put_call 8 80 ∷ get_call 7 ∷ put_call 9 90 ∷ get_call 8 ∷ get_call 7 ∷ []

-- The run evicts the key 8, which was used least recently.
calls_answers :
    (spec_run ℕ_discrete 0 0 2 calls []).0
    ≡ removed 0 ∷ removed 0 ∷ got 70 ∷ removed 8 ∷ got 0 ∷ got 70 ∷ []
unfolding spec_run spec_call read write lookup erase ℕ_discrete
calls_answers = refl

-- So does the code.
calls-run :
    (run ℕ_discrete 0 0 new calls table >>= λ r. ok r.0)
    ≡ ok (removed 0 ∷ removed 0 ∷ got 70 ∷ removed 8 ∷ got 0 ∷ got 70 ∷ [])
unfolding run call put get get_found evict remove_tail move2head add2head remove new_node init
    lookup assign erase update ℕ_discrete
calls-run = refl

run-spec_run_example :
    (c : Lru ℕ ℕ) × (run ℕ_discrete 0 0 new calls table
      ≡ ok ((spec_run ℕ_discrete 0 0 table.capacity calls []).0, c))
    × Represents ℕ_discrete c (spec_run ℕ_discrete 0 0 table.capacity calls []).1
    × (length (spec_run ℕ_discrete 0 0 table.capacity calls []).1 ≤ table.capacity)
run-spec_run_example = run-spec_run ℕ_discrete 0 0 new calls table-Represents (omega arith)
