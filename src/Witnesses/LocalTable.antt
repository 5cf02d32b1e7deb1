-- ===== src/Witnesses/LocalTable.antt =====
-- Client/include/lru.hpp at concrete inputs.
use simple_distributed_cache.Common.{
  ℕ, ◌≡◌, refl, none, some, [], ◌∷◌, ok, arith, ℕ_discrete, suc, ◌>>=◌, if◌then◌else◌, ◌==◌,
}
use simple_distributed_cache.Common.Assoc.{lookup, assign, erase as erase_entry}
use simple_distributed_cache.LocalLru.{LocalLru, init, put, erase, size}
use simple_distributed_cache.LocalLru.Invariant.{IsValid}
use simple_distributed_cache.LocalLru.Indexed.{IsTight, Stores, put-Stores}
use simple_distributed_cache.LocalLru.Runs.{get_call, put_call, run, init-IsTight, get-put}
use simple_distributed_cache.LocalLru.Stale.{put_stale_grows}

abbrev empty : LocalLru ℕ ℕ
empty = init 2

empty-IsTight : IsTight ℕ_discrete empty
empty-IsTight = init-IsTight ℕ_discrete 2

-- Two entries were stored after the key 5 was stored and erased: its node is the last.
abbrev stale : LocalLru ℕ ℕ
stale = record {
  items = (2, (8, 80)) ∷ (1, (7, 70)) ∷ (0, (5, 50)) ∷ [];
  index = (7, 1) ∷ (8, 2) ∷ [];
  max_size = 2;
  fresh = 3;
}

stale_reached :
    (do
      c ← put ℕ_discrete 5 50 (init 2)
      c ← put ℕ_discrete 7 70 (erase ℕ_discrete 5 c)
      put ℕ_discrete 8 80 c)
    ≡ ok stale
unfolding init put erase lookup assign erase_entry ℕ_discrete
stale_reached = refl

stale-IsValid : IsValid ℕ_discrete stale
unfolding lookup ℕ_discrete
stale-IsValid = record {
  numbered = record { below = omega arith; distinct = omega arith };
  points = λ k i e. (if k == 7 then 70 else 80, ground arith);
}

get-put_local_example :
    (c : LocalLru ℕ ℕ) × (run ℕ_discrete (put_call 7 70 ∷ get_call 7 ∷ []) empty
      ≡ ok (none ∷ some 70 ∷ [], c))
unfolding init
get-put_local_example = get-put ℕ_discrete 7 70 empty-IsTight (omega arith)

put-Stores_example :
    (c : LocalLru ℕ ℕ) × (put ℕ_discrete 7 70 empty ≡ ok c) × Stores ℕ_discrete empty-IsTight 7 70 c
put-Stores_example = put-Stores ℕ_discrete empty-IsTight 7 70

put_stale_grows_example :
    (c : LocalLru ℕ ℕ) × (put ℕ_discrete 9 90 stale ≡ ok c) × (size c ≡ suc c.max_size)
unfolding lookup ℕ_discrete
put_stale_grows_example = put_stale_grows ℕ_discrete stale-IsValid 9 90 refl refl (omega arith) refl
