-- ===== src/Master/Rebalance.antt =====
-- The master's ring follows its list of primaries when one is lost.
use simple_distributed_cache.Common.{
  ℕ, ◌+◌, ◌≤◌, ◌≡◌, refl, sym, ◌∙◌, ap, Option, none, some, List, [], ◌∷◌, ◌++◌, ok, arith, length,
  Option-cases, inl, inr, map,
}
use mathlib.Core.Path.{subst}
use simple_distributed_cache.Text.{bytes}
use simple_distributed_cache.Ring.{initialize, delete_node}
use simple_distributed_cache.Ring.Exact.{empty_ring, NoCollision, delete_node-initialize}
use simple_distributed_cache.Master.{Master, Fdmap, broadcast}
use simple_distributed_cache.Master.Failure.{close, erase_fd, take_out, drop_primary}
use simple_distributed_cache.Master.Serve.{IsRing}

erase_fd-length :
    (fd : ℕ) (l : List ℕ) (i : ℕ) (l' : List ℕ)
    → erase_fd fd l ≡ some (i, l')
    → (length l ≡ length l' + 1) × (i ≤ length l')
unfolding erase_fd
erase_fd-length fd [] i l' h = absurd (cc h)
erase_fd-length fd (x ∷ xs) i l' h = elim (Option-cases (erase_fd fd xs)) [
  | inl e ↦ (ground (arith, h, e), ground (arith, h, e))
  | inr ((j, l), e) ↦
      let (a, b) = erase_fd-length fd xs j l e in
      (ground (arith, h, e, a, b), ground (arith, h, e, a, b))
]

-- The list of the primaries with the one at `fd` taken out.
unfoldable pub without : ℕ → List ℕ → List ℕ
without fd l = elim (erase_fd fd l) [ none ↦ l | some (i, l') ↦ l' ]

without-of :
    (fd : ℕ) (l : List ℕ) (o : Option (ℕ × List ℕ))
    → erase_fd fd l ≡ o
    → without fd l ≡ elim o [ none ↦ l | some (i, l') ↦ l' ]
unfolding without
without-of fd l o e = ap (λ (o : Option (ℕ × List ℕ)). elim o [ none ↦ l | some (i, l') ↦ l' ]) e

without_le :
    (fd : ℕ) (l : List ℕ) (o : Option (ℕ × List ℕ))
    → erase_fd fd l ≡ o
    → length (elim o [ none ↦ l | some (i, l') ↦ l' ]) ≤ length l
without_le fd l none e = omega arith
without_le fd l (some (i, m)) e = omega (arith, (erase_fd-length fd l i m e).0)

pub length-without : (fd : ℕ) (l : List ℕ) → length (without fd l) ≤ length l
unfolding without
length-without fd l = without_le fd l (erase_fd fd l) refl

pub take_out-IsRing :
    (fd : ℕ) (m : Master) (o : Option (ℕ × List ℕ))
    → erase_fd fd m.fd_node ≡ o
    → IsRing m
    → NoCollision 100 (length m.fd_node)
    → (m' : Master) × (take_out o m ≡ ok m')
      × IsRing m'
      × (m'.fd_node ≡ without fd m.fd_node)
      × (m'.sent ≡ m.sent)
      × (m'.pcache ≡ m.pcache)
unfolding take_out
take_out-IsRing fd m none e r n = (m, refl, r, sym (without-of fd m.fd_node _ e), refl, refl)
take_out-IsRing fd m (some (i, l)) e r n =
    let (long, le) = erase_fd-length fd m.fd_node i l e in
    let deleted : delete_node i m.hash ≡ ok (initialize (length l) 100 empty_ring) =
      ap (delete_node i) (r ∙ ap (λ k. initialize k 100 empty_ring) long)
      ∙ delete_node-initialize 100 (length l) i (subst (NoCollision 100) long n) le in
    (
      record m { fd_node = l; hash = initialize (length l) 100 empty_ring },
      rw deleted,
      refl,
      sym (without-of fd m.fd_node _ e),
      refl,
      refl,
    )

-- A primary without backup that is lost leaves the list of primaries with no fault, and the
-- ring is the one for those that are left; each of them is told. The stack of primaries that wait
-- for a replica stays as it is. The ring before is the one for the list, and no two of its nodes have a point in common.
pub drop_primary-IsRing :
    (fd : ℕ) (e : Fdmap) (m : Master)
    → IsRing m
    → NoCollision 100 (length m.fd_node)
    → (m' : Master) × (drop_primary fd e m ≡ ok m')
      × IsRing m'
      × (m'.fd_node ≡ without fd m.fd_node)
      × (m'.sent ≡ m.sent ++ map (λ q. (q, bytes "D#" ++ e.ip_cache)) (without fd m.fd_node))
      × (m'.pcache ≡ m.pcache)
unfolding drop_primary broadcast
drop_primary-IsRing fd e m r n =
    let (t, h, s, f, k, w) = take_out-IsRing fd m (erase_fd fd m.fd_node) refl r n in
    (close fd (broadcast (bytes "D#" ++ e.ip_cache) t), rw h, s, f, rw (k, f), w)
