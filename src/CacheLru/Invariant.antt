-- ===== src/CacheLru/Invariant.antt =====
-- When a table in memory is well formed, and which list of entries it stands for.
use simple_distributed_cache.Common.{
  ℕ, ◌≡◌, refl, ◌≢◌, true, false, List, [], map, arith, Ptr, update, length, All, IsDistinct,
}
use simple_distributed_cache.Common.Assoc.{lookup}
use simple_distributed_cache.CacheLru.{is_live, Heap, Lru, init}
use simple_distributed_cache.CacheLru.Chain.{Links, IsApart}
use simple_distributed_cache.CacheLru.Entries.{entries}

-- The list of the nodes `ps` between the sentinels.
pub record IsList {K V : Type 0} (h : Heap K V) (head : Ptr) (ps : List Ptr) (tail : Ptr)
    : Type 0 where
  pub linked : Links h.next h.prev head ps tail
  pub apart : IsApart head ps tail
  pub head_live : (is_live h) head ≡ true
  pub tail_live : (is_live h) tail ≡ true
  pub live : All (λ p. (is_live h) p ≡ true) ps
  pub distinct : IsDistinct (map h.key ps)

-- `ps` are the nodes of the table, the most recently used first.
pub record IsLru {K V : Type 0} (dec : Discrete K) (c : Lru K V) (ps : List Ptr) : Type 0 where
  pub list : IsList c.heap c.head ps c.tail
  pub mapped : (k : K) → lookup dec k c.nodes ≡ lookup dec k (entries c.heap.key (λ p. p) ps)
  pub sized : c.size ≡ length ps

-- The entries that the nodes hold.
abbrev pub view : {K V : Type 0} → Heap K V → List Ptr → List (K × V)
view h = entries h.key h.val

-- The table is well formed, nobody holds its mutex, and it stands for the list `l`.
abbrev pub Represents : {K V : Type 0} → Discrete K → Lru K V → List (K × V) → Type 0
Represents dec c l = (ps : List Ptr) × IsLru dec c ps × (c.locked ≡ false) × (l ≡ view c.heap ps)

pub init-Represents :
    {K V : Type 0} (dec : Discrete K) (key0 : K) (val0 : V) (head tail : Ptr) (capacity : ℕ)
    (h : Heap K V)
    → head ≢ tail
    → Represents dec (init key0 val0 head tail capacity h) []
unfolding init update
init-Represents dec key0 val0 head tail capacity h apart = (
  [],
  record {
    list = record {
      linked = (ground arith, ground arith);
      apart = record { ends = apart; front = tt; back = tt; distinct = tt };
      head_live = ground arith;
      tail_live = ground arith;
      live = tt;
      distinct = tt;
    };
    mapped = λ k. refl;
    sized = refl;
  },
  refl,
  refl,
)
