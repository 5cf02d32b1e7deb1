-- ===== src/Ring/Exact.antt =====
-- The ring as a function of the number of its nodes.
use simple_distributed_cache.Common.{
  ℕ, zero, suc, ◌+◌, ◌-◌, ◌≡◌, refl, ◌≢◌, ◌<◌, ◌≤◌, none, some, [], arith, inl, inr, is_some, true,
  false, Option, ◌⊎◌, ok, sym, ◌∙◌, ap, Option-cases, if◌then◌else◌, Bool-cases, ℕ_discrete, ◌==◌,
}
use mathlib.Core.Path.{subst}
use native.Mathlib.Nat.{zero-add}
use native.Mathlib.Numerals.{add-one}
use simple_distributed_cache.Common.Assoc.{lookup}
use simple_distributed_cache.Ring.{
  Points, Ring, insert_from, assign_from, erase_from, insert_nodes, assign_nodes, initialize,
  add_node, delete_node,
}
use simple_distributed_cache.Ring.Sorted.{IsSorted, index_at, points_ext}
use simple_distributed_cache.Ring.Server.{
  IsSuccessor, IsSuccessor-unique, server_of-IsSuccessor, server_of-cases, owner,
}
use simple_distributed_cache.Ring.Nodes.{
  is_point, insert_from-IsSorted, assign_from-IsSorted, erase_from-IsSorted, lookup-insert_from,
  lookup-assign_from, lookup-erase_from,
}

-- The first of the nodes below `n` with the point `q`.
unfoldable pub first_node : (v n q : ℕ) → Option ℕ
first_node v zero q = none
first_node v (suc n) q = elim (first_node v n q) [
  | some i ↦ some i
  | none ↦ if is_point n v q then some n else none
]

-- The ring has the points of its nodes, each with the first node that has it.
pub record IsExact (r : Ring) : Type 0 where
  pub sorted : IsSorted r.points
  pub exact : (q : ℕ) → index_at q r.points ≡ first_node r.v_nodes r.nodes q

-- No two nodes below `n` have a point in common.
abbrev pub NoCollision : (v n : ℕ) → Type 0
NoCollision v n =
    (i j q : ℕ) → i < n → j < n → is_point i v q ≡ true → is_point j v q ≡ true → i ≡ j

abbrev pub empty_ring : Ring
empty_ring = record { points = []; nodes = 0; v_nodes = 0 }

insert_nodes-suc :
    (v i n : ℕ) (m : Points)
    → insert_nodes v i (suc n) m ≡ insert_from (i + n) 0 v (insert_nodes v i n m)
unfolding insert_nodes
insert_nodes-suc v i zero m = ap (λ k. insert_from k 0 v m) (omega arith)
insert_nodes-suc v i (suc n) m =
    insert_nodes-suc v (i + 1) n (insert_from i 0 v m)
    ∙ ap (λ k. insert_from k 0 v (insert_nodes v (i + 1) n (insert_from i 0 v m))) (omega arith)

insert_nodes-IsSorted : (v i n : ℕ) (m : Points) → IsSorted m → IsSorted (insert_nodes v i n m)
unfolding insert_nodes
insert_nodes-IsSorted v i zero m s = s
insert_nodes-IsSorted v i (suc n) m s =
    insert_nodes-IsSorted v (i + 1) n _ (insert_from-IsSorted i 0 v m s)

first_node-add :
    (v n q : ℕ)
    → first_node v (n + 1) q
      ≡ elim (first_node v n q) [ some i ↦ some i | none ↦ if is_point n v q then some n else none ]
unfolding first_node
first_node-add v n q = rw (add-one n)

-- `addNode` of the next number keeps the ring exact.
pub add_node-IsExact : (r : Ring) → IsExact r → IsExact (add_node r.nodes r)
unfolding add_node
add_node-IsExact r s = record {
  sorted = insert_from-IsSorted r.nodes 0 r.v_nodes r.points s.sorted;
  exact = λ q.
      rw (first_node-add r.v_nodes r.nodes q)
        (ground (arith, lookup-insert_from r.nodes 0 r.v_nodes q r.points s.sorted, s.exact q));
}

-- addNode with the next number on the ring of n nodes gives the ring of n + 1 nodes.
pub add_node-initialize :
    (v n : ℕ) → add_node n (initialize n v empty_ring) ≡ initialize (n + 1) v empty_ring
unfolding add_node initialize
add_node-initialize v n =
    let grown : insert_nodes v 0 (n + 1) [] ≡ insert_from n 0 v (insert_nodes v 0 n []) =
      rw (add-one n, insert_nodes-suc v 0 n [], zero-add) in
    ap (λ m. record { points = m; nodes = n + 1; v_nodes = v }) (sym grown)

pub initialize-IsExact : (v n : ℕ) → IsExact (initialize n v empty_ring)
unfolding initialize insert_nodes first_node
initialize-IsExact v zero = record { sorted = tt; exact = λ q. unfold lookup in refl }
initialize-IsExact v (suc n) =
    subst IsExact (add_node-initialize v n ∙ ap (λ k. initialize k v empty_ring) (add-one n))
      (add_node-IsExact (initialize n v empty_ring) (initialize-IsExact v n))

-- A ring is exact in one way only.
pub IsExact-unique :
    {r t : Ring} → IsExact r → IsExact t → r.nodes ≡ t.nodes → r.v_nodes ≡ t.v_nodes → r ≡ t
IsExact-unique {r} {t} s u n v =
    let m : r.points ≡ t.points = points_ext r.points t.points s.sorted u.sorted λ q.
      s.exact q
      ∙ ap (λ k. first_node k r.nodes q) v
      ∙ ap (λ k. first_node t.v_nodes k q) n
      ∙ sym (u.exact q) in
    λ i. record { points = m i; nodes = n i; v_nodes = v i }

-- A key whose server changes when addNode adds a node to a sorted ring moves to that node.
pub owner-add_node :
    (r : Ring) (i h : ℕ)
    → IsSorted r.points
    → (owner h (add_node i r).points ≡ owner h r.points)
      ⊎ (owner h (add_node i r).points ≡ ok (some i))
unfolding add_node owner
owner-add_node r i h s =
    let m = r.points in
    let m' = insert_from i 0 r.v_nodes m in
    let look = λ (q : ℕ). lookup-insert_from i 0 r.v_nodes q m s in
    let more : (q : ℕ) → is_some (index_at q m) ≡ true → is_some (index_at q m') ≡ true =
      λ q f. ground (arith, look q) in
    elim (server_of-cases h m' (insert_from-IsSorted i 0 r.v_nodes m s)) [
      | inr (e', above) ↦ elim (server_of-cases h m s) [
        | inr (e, _) ↦ inl (rw (e, e', owner) refl)
        | inl (a, e, t) ↦
            let lt = above a (more a t.point) in let le = t.above in absurd (omega (arith, lt, le))
      ]
      | inl (b, e', t') ↦ elim (Option-cases (index_at b m)) [
        | inl new ↦ inr (rw (e', owner) (ground (arith, look b, t'.point)))
        | inr (w, old) ↦
            let u : IsSuccessor m h b = record {
              point = rw old;
              above = t'.above;
              closest = λ q f. t'.closest q (more q f);
            } in
            let (a, e, t) = server_of-IsSuccessor h m s (b, u.point, t'.above) in
            let same = IsSuccessor-unique t u in
            inl (rw (e, e', owner) (ground (arith, look b, same)))
      ]
    ]

pub first_node-some : (v n q i : ℕ) → first_node v n q ≡ some i → (i < n) × (is_point i v q ≡ true)
unfolding first_node
first_node-some v zero q i e = absurd (cc)
first_node-some v (suc n) q i e = ground (arith, first_node-some v n q i)

first_node-is_some :
    (v n q i : ℕ) → i < n → is_point i v q ≡ true → is_some (first_node v n q) ≡ true
unfolding first_node
first_node-is_some v zero q i h e = elim h [ ]
first_node-is_some v (suc n) q i h e = elim (ℕ_discrete i n) [
  | yes p ↦ let here : is_point n v q ≡ true = ap (λ k. is_point k v q) (sym p) ∙ e in ground arith
  | no p ↦ ground (arith, first_node-is_some v n q i)
]

first_node_of :
    (v n q i : ℕ) → NoCollision v n → i < n → is_point i v q ≡ true → first_node v n q ≡ some i
first_node_of v n q i apart h e = elim (Option-cases (first_node v n q)) [
  | inl none' ↦ cc (first_node-is_some v n q i h e, none')
  | inr (j, f) ↦
      let (below, at) = first_node-some v n q j f in f ∙ ap some (apart j i q below h at e)
]

-- Where no two nodes have a point in common, the loop that writes the points of the nodes from `i`
-- on writes what is there.
lookup-assign_nodes :
    (v n i k q : ℕ) (m : Points)
    → NoCollision v n
    → i + k ≤ n
    → IsSorted m
    → ((p : ℕ) → index_at p m ≡ first_node v n p)
    → IsSorted (assign_nodes v i k m) × (index_at q (assign_nodes v i k m) ≡ first_node v n q)
unfolding assign_nodes
lookup-assign_nodes v n i zero q m apart h s exact = (s, exact q)
lookup-assign_nodes v n i (suc k) q m apart h s exact =
    lookup-assign_nodes v n (i + 1) k q (assign_from i 0 v m) apart (omega arith)
      (assign_from-IsSorted i 0 v m s)
      λ p. elim (Bool-cases (is_point i v p)) [
        | inl here ↦
            lookup-assign_from i 0 v p m s
            ∙ rw here (sym (first_node_of v n p i apart (omega arith) here))
        | inr there ↦ lookup-assign_from i 0 v p m s ∙ rw there (exact p)
      ]

lookup_erased :
    (r : Ring) (n q : ℕ)
    → IsExact r
    → r.nodes ≡ n + 1
    → NoCollision r.v_nodes (n + 1)
    → index_at q (erase_from n 0 r.v_nodes r.points) ≡ first_node r.v_nodes n q
lookup_erased r n q s e apart =
    let before : index_at q r.points ≡ first_node r.v_nodes (n + 1) q =
      s.exact q ∙ ap (λ k. first_node r.v_nodes k q) e in
    let cut = lookup-erase_from n 0 r.v_nodes q r.points s.sorted in
    elim (Option-cases (first_node r.v_nodes n q)) [
      | inl e ↦ ground (arith, first_node-add r.v_nodes n q)
      | inr (i, f) ↦
          let (below, at) = first_node-some r.v_nodes n q i f in
          let other : is_point n r.v_nodes q ≢ true =
            λ here. ground (arith, apart i n q (omega arith) (omega arith) at here) in
          ground (arith, first_node-add r.v_nodes n q)
    ]

NoCollision-sub : (v n : ℕ) → NoCollision v (n + 1) → NoCollision v n
NoCollision-sub v n h i j q a b = h i j q (omega arith) (omega arith)

-- Where no two nodes have a point in common, deleteNode on the ring of n + 1 nodes gives the
-- ring of n nodes, whatever number up to n it is called with.
pub delete_node-initialize :
    (v n index : ℕ)
    → NoCollision v (n + 1)
    → index ≤ n
    → delete_node index (initialize (n + 1) v empty_ring) ≡ ok (initialize n v empty_ring)
unfolding delete_node initialize
delete_node-initialize v n index apart h =
    let r = initialize (n + 1) v empty_ring in
    let s = initialize-IsExact v (n + 1) in
    let t = initialize-IsExact v n in
    let erased = erase_from n 0 v r.points in
    let sorted = erase_from-IsSorted n 0 v r.points s.sorted in
    let look = λ (q : ℕ).
      lookup-assign_nodes v n index (n - index) q erased (NoCollision-sub v n apart) (omega arith)
        sorted (λ p. lookup_erased r n p s refl apart) in
    let same : assign_nodes v index (n - index) erased ≡ (initialize n v empty_ring).points =
      points_ext _ _ (look 0).0 t.sorted (λ q. (look q).1 ∙ sym (t.exact q)) in
    let some_left : (n + 1 == 0) ≡ false = ground arith in
    let back : n + 1 - 1 ≡ n = omega arith in
    rw (some_left, back) (ap (λ m. ok (record { points = m; nodes = n; v_nodes = v })) same)
