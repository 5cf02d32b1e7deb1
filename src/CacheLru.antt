-- ===== src/CacheLru.antt =====
-- The cache server's LRU table, cache/src/LRU_cache.hpp: a hash map from keys to the nodes of a
-- doubly linked list between two sentinel nodes. Addresses are numbers; each field of `DNode` is a
-- function of the address, and `used` lists the addresses that hold a node. A read or write through an
-- address that holds none is a fault, and so is a lock of the mutex while it is held. `capacity`
-- is not negative. `new DNode` returns an address that the caller passes in. `key0` and `val0` are
-- the default-constructed key and value. `all` and `del` are left out: no program instantiates
-- them, and their bodies do not compile.
pub mod Chain
pub mod Entries
pub mod Spec
pub mod Recent
pub mod Invariant
pub mod Moves
pub mod Get
pub mod Put
pub mod Laws
pub mod Runs
pub mod Fresh
pub mod Evict
pub mod Check
use simple_distributed_cache.Common.{
  ℕ, ◌+◌, ◌-◌, Bool, true, false, Option, none, some, List, [], ◌∷◌, map, Result, ok, fault, ◌>>=◌,
  ◌>>◌, guard, Ptr, null, update, ltb, if◌then◌else◌, is_some, ◌==◌,
}
use simple_distributed_cache.Common.Assoc.{lookup, assign, erase}

-- `DEFAULT_CAPACITY`
abbrev pub default_capacity : ℕ
default_capacity = 10

-- The heap: the addresses that hold a node, and the fields of `DNode` for all addresses.
pub record Heap (K V : Type 0) : Type 0 where
  pub used : List Ptr
  pub prev : Ptr → Ptr
  pub next : Ptr → Ptr
  pub key : Ptr → K
  pub val : Ptr → V

-- `LRU_Cache`
pub record Lru (K V : Type 0) : Type 0 where
  pub heap : Heap K V
  pub nodes : List (K × Ptr)
  pub head : Ptr
  pub tail : Ptr
  pub locked : Bool
  pub size : ℕ
  pub capacity : ℕ

abbrev pub has : Ptr → List Ptr → Bool
has p [] = false
has p (q ∷ l) = if p == q then true else has p l

abbrev pub free : Ptr → List Ptr → List Ptr
free p [] = []
free p (q ∷ l) = let rest = free p l in if p == q then rest else q ∷ rest

module _ {K V : Type 0} where
  -- The address holds a node.
  abbrev pub is_live : Heap K V → Ptr → Bool
  is_live h p = has p h.used

  -- `DNode(key__, val__)`, at the address `p`
  unfoldable pub new_node : Ptr → K → V → Heap K V → Heap K V
  new_node p k v h = record {
    used = p ∷ h.used;
    prev = update h.prev p null;
    next = update h.next p null;
    key = update h.key p k;
    val = update h.val p v;
  }

  abbrev pub set_prev : Ptr → Ptr → Heap K V → Result (Heap K V)
  set_prev p q h = guard ((is_live h) p) >> ok (record h { prev = update h.prev p q })

  abbrev pub set_next : Ptr → Ptr → Heap K V → Result (Heap K V)
  set_next p q h = guard ((is_live h) p) >> ok (record h { next = update h.next p q })

  -- `remove`: unlink a node
  unfoldable pub remove : Ptr → Heap K V → Result (Heap K V)
  remove node h = do
    guard ((is_live h) node)
    h ← set_next (h.prev node) (h.next node) h
    set_prev (h.next node) (h.prev node) h

  -- `add2head`: link a node behind the head sentinel
  unfoldable pub add2head : (head : Ptr) → Ptr → Heap K V → Result (Heap K V)
  add2head head node h = do
    h ← set_prev node head h
    guard ((is_live h) head)
    h ← set_next node (h.next head) h
    h ← set_prev (h.next head) node h
    set_next head node h

  -- `move2head`
  unfoldable pub move2head : (head : Ptr) → Ptr → Heap K V → Result (Heap K V)
  move2head head node h = do h ← remove node h; add2head head node h

  -- `remove_tail`
  unfoldable pub remove_tail : (tail : Ptr) → Heap K V → Result (Ptr × Heap K V)
  remove_tail tail h = do
    guard ((is_live h) tail)
    let node = h.prev tail
    h ← remove node h
    ok (node, h)

  -- `LRU_Cache(int)`, with the two sentinels at `head` and `tail`
  unfoldable pub init : (key0 : K) (val0 : V) (head tail : Ptr) (capacity : ℕ) → Heap K V → Lru K V
  unfolding new_node
  init key0 val0 head tail capacity h =
      let h = new_node tail key0 val0 (new_node head key0 val0 h) in
      record {
        heap = record h { next = update h.next head tail; prev = update h.prev tail head };
        nodes = [];
        head = head;
        tail = tail;
        locked = false;
        size = 0;
        capacity = capacity;
      }

  unfoldable pub set_capacity : ℕ → Lru K V → Lru K V
  set_capacity n c = record c { capacity = n }

  -- `mutex.lock()`
  abbrev lock : Lru K V → Lru K V
  lock c = record c { locked = true }

  abbrev unlock : Lru K V → Lru K V
  unlock c = record c { locked = false }

  -- `all_key`
  unfoldable pub all_key : Lru K V → List K
  all_key c = map (λ e. e.0) c.nodes

  module _ (dec : Discrete K) where
    -- `check`
    unfoldable pub check : K → Lru K V → Bool
    check k c = is_some (lookup dec k c.nodes)

    -- `get` behind the lock, given what the map holds at the key
    unfoldable pub get_found : (val0 : V) → Option Ptr → Lru K V → Result (V × Lru K V)
    get_found val0 none c = ok (val0, unlock c)
    get_found val0 (some node) c = do
      h ← move2head c.head node c.heap
      ok (h.val node, unlock (record c { heap = h }))

    -- `get`
    unfoldable pub get : (val0 : V) → K → Lru K V → Result (V × Lru K V)
    get val0 k c = if c.locked then fault else get_found val0 (lookup dec k c.nodes) (lock c)

    -- the branch of `put` that finds the key
    unfoldable pub put_hit : (key0 : K) → Ptr → V → Lru K V → Result (K × Lru K V)
    put_hit key0 node v c = do
      h ← move2head c.head node c.heap
      guard ((is_live h) node)
      ok (key0, unlock (record c { heap = record h { val = update h.val node v } }))

    -- the block under `if(size > capacity)`
    unfoldable pub evict : Lru K V → Result (K × Lru K V)
    evict c = do
      (node, h) ← remove_tail c.tail c.heap
      guard ((is_live h) node)
      ok (
        h.key node,
        record c {
          heap = record h { used = free node h.used };
          nodes = erase dec (h.key node) c.nodes;
          size = c.size - 1;
        },
      )

    -- the branch of `put` that does not find the key
    unfoldable pub put_miss : (key0 : K) (fresh : Ptr) → K → V → Lru K V → Result (K × Lru K V)
    put_miss key0 fresh k v c = do
      h ← add2head c.head fresh (new_node fresh k v c.heap)
      let c = record c { heap = h; nodes = assign dec k fresh c.nodes; size = c.size + 1 }
      (removed, c) ← if ltb c.capacity c.size then evict c else ok (key0, c)
      ok (removed, unlock c)

    -- `put` behind the lock, given what the map holds at the key
    unfoldable pub put_found :
        (key0 : K) (fresh : Ptr) → Option Ptr → K → V → Lru K V → Result (K × Lru K V)
    put_found key0 fresh none k v c = put_miss key0 fresh k v c
    put_found key0 fresh (some node) k v c = put_hit key0 node v c

    -- `put`
    unfoldable pub put : (key0 : K) (fresh : Ptr) → K → V → Lru K V → Result (K × Lru K V)
    unfolding put_found put_miss put_hit
    put key0 fresh k v c =
        if c.locked then fault else put_found key0 fresh (lookup dec k c.nodes) k v (lock c)
