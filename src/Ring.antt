-- ===== src/Ring.antt =====
-- The consistent hash ring, cache/src/ConsistentHash.cpp (master/mastertry/ConsistentHash.cpp is a
-- copy that prints less). `key2Index`, a `std::map`, is the list of its pairs in the order of their
-- keys. `nodes` and `v_nodes` are not negative. What the functions print is left out; but
-- `GetServer` prints the key at `lower_bound` before it tests for `end()`, and this read is a fault
-- where the hash is above every point; the branch for `end()` stands behind it and is never reached
-- without the fault.
-- `deleteNode` on a ring with no node, which goes on with -1 nodes in the source, is outside of the
-- model and a fault of it: `nodes` is a natural number.
pub mod Sorted
pub mod Server
pub mod Nodes
pub mod Exact
pub mod Apart
use Prim.Native.Nat.{bit_xor}
use simple_distributed_cache.Common.{
  ℕ, zero, suc, ◌+◌, ◌-◌, ◌*◌, ◌/◌, ◌%◌, ◌^◌, Option, none, some, List, [], ◌∷◌, ◌++◌, Result, ok,
  fault, of_option, ltb, leb, ◌==◌, if◌then◌else◌,
}
use simple_distributed_cache.Text.{Bytes, bytes, decimal}

-- `uint32_t`
abbrev pub wrap : ℕ → ℕ
wrap n = n % 2 ^ 32

-- A `char`, which is signed, as the `uint32_t` that it is converted to.
extend : ℕ → ℕ
extend b = if ltb b 128 then b else b + (2 ^ 32 - 256)

-- the loop of `murmur3_32`
mix : ℕ → Bytes → ℕ
mix hash [] = hash
mix hash (b ∷ s) = mix (wrap (bit_xor hash (extend b) * 16777619)) s

-- the lines behind the loop
finish : ℕ → ℕ
finish hash =
    let h1 = wrap (hash + wrap (hash * 2 ^ 13)) in
    let h2 = bit_xor h1 (h1 / 2 ^ 7) in
    let h3 = wrap (h2 + wrap (h2 * 2 ^ 3)) in
    let h4 = bit_xor h3 (h3 / 2 ^ 17) in wrap (h4 + wrap (h4 * 2 ^ 5))

-- `murmur3_32`
unfoldable pub murmur3_32 : Bytes → ℕ
unfolding mix finish extend
murmur3_32 s = finish (mix 2166136261 s)

-- `map<uint32_t, size_t>`
abbrev pub Points : Type 0
Points = List (ℕ × ℕ)

-- `key2Index.insert`: a key that is there keeps its value
unfoldable pub insert : ℕ → ℕ → Points → Points
insert k v [] = (k, v) ∷ []
insert k v ((j, w) ∷ m) =
    if ltb k j then (k, v) ∷ (j, w) ∷ m else if k == j then (j, w) ∷ m else (j, w) ∷ insert k v m

-- `key2Index[k] = v`
unfoldable pub assign : ℕ → ℕ → Points → Points
assign k v [] = (k, v) ∷ []
assign k v ((j, w) ∷ m) =
    if ltb k j then (k, v) ∷ (j, w) ∷ m else if k == j then (j, v) ∷ m else (j, w) ∷ assign k v m

-- `find` and `erase`
unfoldable pub erase : ℕ → Points → Points
erase k [] = []
erase k ((j, w) ∷ m) = if k == j then m else (j, w) ∷ erase k m

-- the key at `lower_bound`, or `none` for `end()`
unfoldable pub lower_bound : ℕ → Points → Option ℕ
lower_bound k [] = none
lower_bound k ((j, w) ∷ m) = if leb k j then some j else lower_bound k m

-- `ConsistentHash`
pub record Ring : Type 0 where
  pub points : Points
  pub nodes : ℕ
  pub v_nodes : ℕ

-- the hash of `"SHARD-" << i << "NODE-" << j`
unfoldable pub point : ℕ → ℕ → ℕ
point i j = murmur3_32 (bytes "SHARD-" ++ decimal i ++ bytes "NODE-" ++ decimal j)

-- The loops over the virtual nodes: `n` rounds are left, from the number `j`.
unfoldable pub insert_from : (i j n : ℕ) → Points → Points
insert_from i j zero m = m
insert_from i j (suc n) m = insert_from i (j + 1) n (insert (point i j) i m)

unfoldable pub assign_from : (i j n : ℕ) → Points → Points
assign_from i j zero m = m
assign_from i j (suc n) m = assign_from i (j + 1) n (assign (point i j) i m)

unfoldable pub erase_from : (i j n : ℕ) → Points → Points
erase_from i j zero m = m
erase_from i j (suc n) m = erase_from i (j + 1) n (erase (point i j) m)

-- The loops over the nodes.
unfoldable pub insert_nodes : (v_nodes i n : ℕ) → Points → Points
insert_nodes v i zero m = m
insert_nodes v i (suc n) m = insert_nodes v (i + 1) n (insert_from i 0 v m)

unfoldable pub assign_nodes : (v_nodes i n : ℕ) → Points → Points
assign_nodes v i zero m = m
assign_nodes v i (suc n) m = assign_nodes v (i + 1) n (assign_from i 0 v m)

-- `initialize`
unfoldable pub initialize : (nodes v_nodes : ℕ) → Ring → Ring
initialize nodes v_nodes r = record {
  points = insert_nodes v_nodes 0 nodes r.points;
  nodes = nodes;
  v_nodes = v_nodes;
}

-- `GetServer`, from the hash of the key on; `it->first` is read in the line before the test
unfoldable pub server_of : ℕ → Points → Result ℕ
server_of h m = of_option (lower_bound h m)

-- `GetServer`
unfoldable pub get_server : Bytes → Ring → Result ℕ
get_server key r = server_of (murmur3_32 key) r.points

-- `addNode`
unfoldable pub add_node : ℕ → Ring → Ring
add_node index r = record r { points = insert_from index 0 r.v_nodes r.points; nodes = r.nodes + 1 }

-- `deleteNode`
unfoldable pub delete_node : ℕ → Ring → Result Ring
delete_node index r =
    if r.nodes == 0
    then fault
    else let nodes = r.nodes - 1 in
      let points = erase_from nodes 0 r.v_nodes r.points in
      ok (record r { points = assign_nodes r.v_nodes index (nodes - index) points; nodes = nodes })
