-- ===== src/Ring/Nodes.antt =====
-- What `initialize`, `addNode` and `deleteNode` do to the ring.
use simple_distributed_cache.Common.{
  ℕ, zero, suc, ◌+◌, ◌≡◌, refl, none, some, arith, true, false, Option, ◌==◌, if◌then◌else◌, Bool,
}
use simple_distributed_cache.Ring.{
  Points, insert, assign, erase, insert_from, assign_from, erase_from, point,
}
use simple_distributed_cache.Ring.Sorted.{
  IsSorted, index_at, insert-IsSorted, assign-IsSorted, erase-IsSorted, lookup-insert,
  lookup-assign, lookup-erase,
}

-- `q` is a point of the node `i`, with a number from `j` on and below `j + n`.
abbrev pub is_point_from : (i j n q : ℕ) → Bool
is_point_from i j zero q = false
is_point_from i j (suc n) q = if point i j == q then true else is_point_from i (j + 1) n q

-- The points of node `i` of a ring with `v` points for each node.
abbrev pub is_point : (i v q : ℕ) → Bool
is_point i v q = is_point_from i 0 v q

abbrev or_else : Option ℕ → ℕ → ℕ
or_else none v = v
or_else (some w) v = w

pub insert_from-IsSorted : (i j n : ℕ) (m : Points) → IsSorted m → IsSorted (insert_from i j n m)
unfolding insert_from
insert_from-IsSorted i j zero m s = s
insert_from-IsSorted i j (suc n) m s =
    insert_from-IsSorted i (j + 1) n _ (insert-IsSorted (point i j) i m s)

pub assign_from-IsSorted : (i j n : ℕ) (m : Points) → IsSorted m → IsSorted (assign_from i j n m)
unfolding assign_from
assign_from-IsSorted i j zero m s = s
assign_from-IsSorted i j (suc n) m s =
    assign_from-IsSorted i (j + 1) n _ (assign-IsSorted (point i j) i m s)

pub erase_from-IsSorted : (i j n : ℕ) (m : Points) → IsSorted m → IsSorted (erase_from i j n m)
unfolding erase_from
erase_from-IsSorted i j zero m s = s
erase_from-IsSorted i j (suc n) m s =
    erase_from-IsSorted i (j + 1) n _ (erase-IsSorted (point i j) m s)

-- The loop of `addNode` adds the points of its node that the ring does not have.
pub lookup-insert_from :
    (i j n q : ℕ) (m : Points)
    → IsSorted m
    → index_at q (insert_from i j n m)
      ≡ (if is_point_from i j n q then some (or_else (index_at q m) i) else index_at q m)
unfolding insert_from
lookup-insert_from i j zero q m s = refl
lookup-insert_from i j (suc n) q m s = ground (
  arith,
  lookup-insert_from i (j + 1) n q (insert (point i j) i m) (insert-IsSorted (point i j) i m s),
  lookup-insert q (point i j) i m s,
)

pub lookup-assign_from :
    (i j n q : ℕ) (m : Points)
    → IsSorted m
    → index_at q (assign_from i j n m) ≡ (if is_point_from i j n q then some i else index_at q m)
unfolding assign_from
lookup-assign_from i j zero q m s = refl
lookup-assign_from i j (suc n) q m s = ground (
  arith,
  lookup-assign_from i (j + 1) n q (assign (point i j) i m) (assign-IsSorted (point i j) i m s),
  lookup-assign q (point i j) i m s,
)

-- The loop of `deleteNode` takes the points of the last node out, whoever they belong to.
pub lookup-erase_from :
    (i j n q : ℕ) (m : Points)
    → IsSorted m
    → index_at q (erase_from i j n m) ≡ (if is_point_from i j n q then none else index_at q m)
unfolding erase_from
lookup-erase_from i j zero q m s = refl
lookup-erase_from i j (suc n) q m s = ground (
  arith,
  lookup-erase_from i (j + 1) n q (erase (point i j) m) (erase-IsSorted (point i j) m s),
  lookup-erase q (point i j) m s,
)
