-- ===== src/Hmf/Levels/Update.antt =====
-- Recomputing one path equals building all levels again.
use storage_aware_hmfaudit.Prelude.{
  ℕ, zero, suc, ◌+◌, ◌*◌, ◌/◌, ◌<◌, ◌≡◌, ◌≢◌, refl, ap, ◌∙◌, List, [], ◌∷◌, arith, length, set,
  length-set, get_or-set_ne, lt→ltb, Yields, Yields-bind,
}
use storage_aware_hmfaudit.Crypto.{Sha256}
use storage_aware_hmfaudit.Hmf.Node.{MerkleNode, zero_node}
use storage_aware_hmfaudit.Hmf.Levels.{parent_at, recompute_levels}
use storage_aware_hmfaudit.Hmf.Levels.Build.{parents_from, length-parents_from, IsLayered}

module _ ⦃sha : Sha256⦄ where
  -- A write to a child changes only its own parent.
  parent_at-set_ne :
      (level : ℕ) (children : List MerkleNode) (i p : ℕ) (n : MerkleNode)
      → p ≢ i / 2
      → parent_at level (set children i n) p ≡ parent_at level children p
  unfolding parent_at
  parent_at-set_ne level children i p n h = rw (
    get_or-set_ne children i (2 * p) n zero_node (omega arith),
    get_or-set_ne children i (2 * p + 1) n zero_node (omega arith),
    length-set children i n,
  )

  parents_from-set_other :
      (level : ℕ) (children : List MerkleNode) (i index count : ℕ) (n : MerkleNode)
      → i / 2 < index
      → parents_from level (set children i n) index count ≡ parents_from level children index count
  unfolding parents_from
  parents_from-set_other level children i index zero n h = refl
  parents_from-set_other level children i index (suc count) n h = rw (
    parent_at-set_ne level children i index n (omega arith),
    parents_from-set_other level children i (suc index) count n (omega arith),
  )

  parents_from-set :
      (level : ℕ) (children : List MerkleNode) (i index d count : ℕ) (n : MerkleNode)
      → index + d ≡ i / 2
      → d < count
      → set (parents_from level children index count) d (parent_at level (set children i n) (i / 2))
        ≡ parents_from level (set children i n) index count
  unfolding parents_from
  parents_from-set level children i index d zero n e h = absurd (omega arith)
  parents_from-set level children i index zero (suc count) n e h =
      let here : index ≡ i / 2 = omega arith in
      rw (here, parents_from-set_other level children i (suc (i / 2)) count n (omega arith))
  parents_from-set level children i index (suc d) (suc count) n e h = rw (
    parent_at-set_ne level children i index n (omega arith),
    parents_from-set level children i (suc index) d count n (omega arith) (omega arith),
  )

  -- After a write to a leaf, the recomputed levels are layered over the new leaves.
  pub recompute_levels-IsLayered {κ} :
      {E : Type κ} (e : E) (level i : ℕ) (children : List MerkleNode)
      (above : List (List MerkleNode)) (n : MerkleNode)
      → i < length children
      → IsLayered level children above
      → Yields
          (λ r. IsLayered level (set children i n) r.1 × (length r.1 ≡ length above))
          (recompute_levels e level i (set children i n) above)
  unfolding recompute_levels
  recompute_levels-IsLayered e level i children [] n h s = (rw length-set s, refl)
  recompute_levels-IsLayered e level i children (nodes ∷ above) n h (same, more, s) =
      let count = (length children + 1) / 2 in
      let size : length nodes ≡ count =
        ap length same ∙ length-parents_from level children 0 count in
      let parent = parent_at level (set children i n) (i / 2) in
      let kept : set nodes (i / 2) parent ≡ parents_from level (set children i n) 0 count =
        ap (λ l. set l (i / 2) parent) same
        ∙ parents_from-set level children i 0 (i / 2) count n (omega arith) (omega arith) in
      rw (lt→ltb (i / 2) (length nodes) (omega arith)) (
        Yields-bind
          (λ (r : List MerkleNode × List (List MerkleNode)).
            IsLayered (suc level) (set nodes (i / 2) parent) r.1 × (length r.1 ≡ length above))
          (λ (r : List MerkleNode × List (List MerkleNode)).
            IsLayered level (set children i n) r.1 × (length r.1 ≡ suc (length above)))
          _ _ (recompute_levels-IsLayered e (suc level) (i / 2) nodes above parent (omega arith) s)
          λ r (layered, same_height). (
            (rw (length-set children i n) kept, rw (length-set children i n) more, layered),
            ap suc same_height,
          ))
