-- ===== src/Master/Events/Race.antt =====
-- What happens where the thread of `periodicDetectCache` runs while `shrinkageCapacity` of
-- master/mastertry/master.cpp waits until the last cache server is silent.
use simple_distributed_cache.Common.{
  ℕ, ◌<◌, ◌≡◌, refl, sym, ap, ◌∙◌, true, none, some, List, [], ◌∷◌, ok, fault, ◌>>=◌, arith, ltb,
  ℕ_discrete, bind_ok, ok_injective,
}
use simple_distributed_cache.Common.Assoc.{lookup, erase}
use simple_distributed_cache.Master.{Master, Fdmap, server, heart_beat_detect}
use simple_distributed_cache.Master.Failure.{lost, forget, handle_dead, detect, first_dead}
use simple_distributed_cache.Master.Shrink.{finish_shrink}

pub erase_gone :
    (fd : ℕ) (l : List (ℕ × Fdmap)) → lookup ℕ_discrete fd (erase ℕ_discrete fd l) ≡ none
unfolding lookup erase
erase_gone fd [] = refl
erase_gone fd ((k, e) ∷ l) = ground (arith, erase_gone fd l)

pub forget-server : (fd : ℕ) (m : Master) → 0 < fd → server fd (forget fd m) ≡ fault
unfolding server forget
forget-server fd m h =
    let positive : ltb 0 fd ≡ true = ground (arith, h) in rw (positive, erase_gone fd m.caches_list)

-- Where the round of periodicDetectCache that finds the cache server dead that is to be taken
-- out ends before shrinkageCapacity looks at it again, both the test of the wait and what is
-- behind it read through a null pointer. The descriptor is positive.
pub detect-finish_shrink :
    (now later fd : ℕ) (m m' : Master)
    → 0 < fd
    → first_dead now m.caches_list m ≡ ok (some fd)
    → detect now m ≡ ok m'
    → (heart_beat_detect later fd m' ≡ fault) × (finish_shrink fd m' ≡ fault)
unfolding detect heart_beat_detect finish_shrink
detect-finish_shrink now later fd m m' h dead done =
    let handled = ap (λ r. r >>= λ d. handle_dead d m) (sym dead) ∙ done in
    let (e, _, rest) = bind_ok (server fd m) _ m' handled in
    let (n, _, last) = bind_ok (lost fd e m) (λ n. ok (forget fd n)) m' rest in
    let gone : server fd m' ≡ fault =
      ap (server fd) (sym (ok_injective last)) ∙ forget-server fd n h in
    (rw gone, rw gone)
