-- ===== src/Hmf/Agreement.antt =====
-- The incremental shard tree and the sealed segment tree compute the same root.
use storage_aware_hmfaudit.Prelude.{
  ℕ, ◌≤◌, ◌<◌, ◌≡◌, ap, flatten, sym, ◌∙◌, List, [], ◌∷◌, ◌++◌, append_assoc, append-nil, length, ℤ,
  ◌>>=◌, Yields, Yields-bind, Yields-map,
}
use storage_aware_hmfaudit.Crypto.{Bytes, Hash, Sha256}
use storage_aware_hmfaudit.Hmf.Node.{MerkleNode}
use storage_aware_hmfaudit.Hmf.Merkle.{up, IsHeight-unique}
use storage_aware_hmfaudit.Hmf.Segment.{SegmentTree, new_segment_tree, seal}
use storage_aware_hmfaudit.Hmf.Segment.Fill
use storage_aware_hmfaudit.Hmf.Segment.Root.{IsSealed, seal-IsSealed}
use storage_aware_hmfaudit.Hmf.Shard
use storage_aware_hmfaudit.Hmf.Shard.{ShardTree, ShardError, new_shard_tree}
use storage_aware_hmfaudit.Hmf.Shard.Correct.{HasLeaves, new_shard_tree-HasLeaves, append-HasLeaves}

abbrev pub Same : ShardTree → SegmentTree → Type 0
Same t s =
    (t.tree.root ≡ s.tree.root)
    × (t.tree.height ≡ s.tree.height)
    × (t.tree.leaf_count ≡ s.tree.leaf_count)

module _ ⦃sha : Sha256⦄ where
  append_all-HasLeaves :
      (done hs : List Hash) (t : ShardTree)
      → HasLeaves done t
      → Yields (HasLeaves (done ++ hs)) (Shard.append_all t hs)
  unfolding Shard.append_all
  append_all-HasLeaves done [] t v = rw (append-nil done) v
  append_all-HasLeaves done (h ∷ hs) t v =
      Yields-bind (λ (r : ShardTree × List MerkleNode). HasLeaves (done ++ h ∷ []) r.0)
        (HasLeaves (done ++ h ∷ hs)) (Shard.append t h) _ (append-HasLeaves done t h v)
        λ r w.
          rw (append_assoc done (h ∷ []) hs) at (append_all-HasLeaves (done ++ h ∷ []) hs r.0 w)

  Same-root :
      (hs : List Hash) (t : ShardTree) (s : SegmentTree)
      → 0 < length hs
      → HasLeaves hs t
      → IsSealed hs s
      → Same t s
  Same-root hs t s some_leaf v w =
      let (root, height) = v.rooted some_leaf in
      let heights = IsHeight-unique (length hs) t.tree.height s.tree.height height w.height in
      (cc (ap (λ k. up k hs) heights), heights, v.counted ∙ sym w.counts)

  -- A shard that is given the leaves one by one and a segment that is filled with the same leaves
  -- and then sealed both succeed, and end with the same root, height and leaf count.
  pub append_all-eq-seal :
      (region_id : Bytes) (shard_id segment_id : ℤ) (max_leaves : ℕ) (hs : List Hash)
      → 0 < length hs
      → length hs ≤ max_leaves
      → Yields
          (λ t.
            Yields
              (λ r. Same t r.0)
              (Fill.append_all (new_segment_tree region_id shard_id segment_id max_leaves) hs
                >>= seal))
          (Shard.append_all (new_shard_tree region_id shard_id) hs)
  append_all-eq-seal region_id shard_id segment_id max_leaves hs some_leaf room =
      let new = new_segment_tree region_id shard_id segment_id max_leaves in
      Yields-map (HasLeaves hs) _ (Shard.append_all (new_shard_tree region_id shard_id) hs)
        (append_all-HasLeaves [] hs (new_shard_tree region_id shard_id)
          (new_shard_tree-HasLeaves region_id shard_id))
        λ t v.
          Yields-bind (Fill.IsOpen hs) (λ (r : SegmentTree × List MerkleNode). Same t r.0)
            (Fill.append_all new hs) seal
            (Fill.append_all-fits region_id shard_id segment_id max_leaves hs room)
            λ s o.
              Yields-map
                (λ (r : SegmentTree × List MerkleNode).
                  IsSealed hs r.0 × (r.1 ≡ flatten r.0.levels))
                (λ (r : SegmentTree × List MerkleNode). Same t r.0) (seal s)
                (seal-IsSealed hs s o some_leaf) λ r (w, _). Same-root hs t r.0 some_leaf v w
