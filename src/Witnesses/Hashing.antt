-- ===== src/Witnesses/Hashing.antt =====
-- cache/src/ConsistentHash.cpp at concrete inputs.
use simple_distributed_cache.Common.{
  ℕ, ◌≡◌, refl, ◌⊎◌, some, [], ◌∷◌, ok, arith, zero, suc, true, fault, is_some, ◌<◌, ℕ_discrete,
}
use simple_distributed_cache.Text.{bytes, decimal}
use simple_distributed_cache.Ring.{
  murmur3_32, point, Ring, initialize, add_node, delete_node, get_server, insert_nodes, insert_from,
  insert,
}
use simple_distributed_cache.Ring.Server.{IsSuccessor, get_server-cases, Reaches, owner}
use simple_distributed_cache.Ring.Sorted.{index_at}
use simple_distributed_cache.Common.Assoc.{lookup}
use simple_distributed_cache.Ring.Apart.{points_of, listed, share_none, NoCollision-share_none}
use simple_distributed_cache.Ring.Exact.{
  empty_ring, NoCollision, owner-add_node, delete_node-initialize,
}

decimal_example : decimal 1205 ≡ bytes "1205"
unfolding decimal
decimal_example = refl

point_zero : point 0 0 ≡ 495835069
unfolding point decimal murmur3_32
point_zero = refl

point_one : point 1 0 ≡ 1306020829
unfolding point decimal murmur3_32
point_one = refl

no_collision : NoCollision 1 2
no_collision zero zero q h k a b = refl
no_collision zero (suc zero) q h k a b = ground (arith, point_zero, point_one)
no_collision (suc zero) zero q h k a b = ground (arith, point_zero, point_one)
no_collision (suc zero) (suc zero) q h k a b = refl
no_collision zero (suc (suc j)) q h k a b = absurd (omega arith)
no_collision (suc zero) (suc (suc j)) q h k a b = absurd (omega arith)
no_collision (suc (suc i)) j q h k a b = absurd (omega arith)

delete_node-initialize_example :
    delete_node 0 (initialize 2 1 empty_ring) ≡ ok (initialize 1 1 empty_ring)
delete_node-initialize_example = delete_node-initialize 1 1 0 no_collision (omega arith)

-- A ring of one node with one point.
abbrev one : Ring
one = record { points = (495835069, 0) ∷ []; nodes = 1; v_nodes = 1 }

-- The hash of the key `A1B`.
key_hash : murmur3_32 (bytes "A1B") ≡ 3913922786
unfolding murmur3_32
key_hash = refl

owner-add_node_example :
    (owner 3913922786 (add_node 1 one).points ≡ owner 3913922786 one.points)
    ⊎ (owner 3913922786 (add_node 1 one).points ≡ ok (some 1))
owner-add_node_example = owner-add_node one 1 3913922786 (tt, tt)

get_server-cases_example :
    ((r : ℕ) × (get_server (bytes "A1B") one ≡ ok r)
      × IsSuccessor one.points (murmur3_32 (bytes "A1B")) r)
    ⊎ (get_server (bytes "A1B") one ≡ fault)
      × ((q : ℕ) → is_some (index_at q one.points) ≡ true → q < murmur3_32 (bytes "A1B"))
get_server-cases_example = get_server-cases (bytes "A1B") one (tt, tt)

-- The key above is not above every point of the first cache server.
met : is_some (index_at 3974230791 (initialize 1 100 empty_ring).points) ≡ true
unfolding initialize insert_nodes insert_from insert point decimal murmur3_32 lookup ℕ_discrete
met = refl

pub key-Reaches : Reaches (murmur3_32 (bytes "A1B")) (initialize 1 100 empty_ring).points
key-Reaches = (3974230791, met, omega (arith, key_hash))

-- The points of the first two cache servers.
hundred_points : share_none (points_of 0 0 100) (points_of 1 0 100) ≡ true
unfolding share_none points_of listed point decimal murmur3_32
hundred_points = refl

pub two_nodes-NoCollision : NoCollision 100 2
two_nodes-NoCollision = NoCollision-share_none 100 hundred_points
