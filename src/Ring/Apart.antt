-- ===== src/Ring/Apart.antt =====
-- A test that two nodes of a ring of cache/src/ConsistentHash.cpp have no point in common.
use simple_distributed_cache.Common.{
  ℕ, zero, suc, ◌+◌, ◌≡◌, refl, sym, ◌∙◌, Bool, true, false, List, [], ◌∷◌, ◌==◌, if◌then◌else◌,
  arith,
}
use simple_distributed_cache.Ring.{point}
use simple_distributed_cache.Ring.Nodes.{is_point, is_point_from}
use simple_distributed_cache.Ring.Exact.{NoCollision}

-- The points of the node `i` from the number `j`.
unfoldable pub points_of : (i j n : ℕ) → List ℕ
points_of i j zero = []
points_of i j (suc n) = point i j ∷ points_of i (j + 1) n

unfoldable pub listed : ℕ → List ℕ → Bool
listed q [] = false
listed q (x ∷ l) = let rest = listed q l in if x == q then true else rest

unfoldable pub share_none : List ℕ → List ℕ → Bool
share_none [] l = true
share_none (x ∷ k) l = let rest = share_none k l in if listed x l then false else rest

is_point-listed : (i j n q : ℕ) → is_point_from i j n q ≡ listed q (points_of i j n)
unfolding listed points_of is_point_from
is_point-listed i j zero q = refl
is_point-listed i j (suc n) q = ground (arith, is_point-listed i (j + 1) n q)

share_none-listed :
    (k l : List ℕ) (q : ℕ) → share_none k l ≡ true → listed q k ≡ true → listed q l ≡ false
unfolding share_none listed
share_none-listed [] l q h a = absurd (cc (h, a))
share_none-listed (x ∷ k) l q h a = ground (arith, h, a, share_none-listed k l q)

-- Two nodes have no point in common where the test says so.
pub NoCollision-share_none :
    (v : ℕ) → share_none (points_of 0 0 v) (points_of 1 0 v) ≡ true → NoCollision v 2
NoCollision-share_none v h = pair
  where
    differ : (q : ℕ) → is_point 0 v q ≡ true → is_point 1 v q ≡ true → ⊥
    differ q a b =
        let second : listed q (points_of 1 0 v) ≡ false =
          share_none-listed (points_of 0 0 v) (points_of 1 0 v) q h
            (sym (is_point-listed 0 0 v q) ∙ a) in
        let first : listed q (points_of 1 0 v) ≡ true = sym (is_point-listed 1 0 v q) ∙ b in
        cc (first, second)

    pair : NoCollision v 2
    pair zero zero q a b c d = refl
    pair zero (suc zero) q a b c d = absurd (differ q c d)
    pair (suc zero) zero q a b c d = absurd (differ q d c)
    pair (suc zero) (suc zero) q a b c d = refl
    pair zero (suc (suc j)) q a b c d = absurd (omega arith)
    pair (suc zero) (suc (suc j)) q a b c d = absurd (omega arith)
    pair (suc (suc i)) j q a b c d = absurd (omega arith)
