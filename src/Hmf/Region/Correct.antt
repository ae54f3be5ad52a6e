-- ===== src/Hmf/Region/Correct.antt =====
-- A region tree is always the tree of its current shard commitments.
use storage_aware_hmfaudit.Prelude.{
  ℕ, suc, ◌<◌, ◌≤◌, ◌≡◌, ◌≢◌, ◌⊎◌, inl, inr, Bool-cases, flatten, refl, ap, sym, subst, ◌∙◌, true,
  [], ◌&&◌, List, arith, ◌==◌, lt→ltb, le→ltb, length, get_or, set, length-set, replicate, ok, err,
  Yields, Yields-bind,
}
use storage_aware_hmfaudit.Crypto.{Bytes, Hash, Sha256, zero_hash}
use storage_aware_hmfaudit.Hmf.Node.{MerkleNode}
use storage_aware_hmfaudit.Hmf.Segment.Fill.{length-leaf_nodes}
use storage_aware_hmfaudit.Hmf.Levels.{build_levels, update_path, top_hash, tree_height}
use storage_aware_hmfaudit.Hmf.Levels.Build.{tree_height-IsHeight}
use storage_aware_hmfaudit.Hmf.Levels.Correct.{
  IsReady, IsBuilt, IsBuilt-IsReady, IsBuilt-unique, build_levels-IsBuilt, update_path-IsBuilt,
  allocate-IsReady, length-replicate,
}
use storage_aware_hmfaudit.Hmf.Region.{
  RegionTree, wrong_leaf_count, index_out_of_range, parent_out_of_range, build, blank_region_tree,
  new_region_tree, update_shard_root,
}

-- The region tree over the shard commitments `hs`.
pub record HasShards ⦃sha : Sha256⦄ (hs : List Hash) (t : RegionTree) : Type 0 where
  pub sized : t.num_shards ≡ length hs
  pub built : IsBuilt hs t.tree t.levels

module _ ⦃sha : Sha256⦄ where
  -- `Build` over arrays of the right sizes.
  build-HasShards :
      (hs : List Hash) (t : RegionTree)
      → t.num_shards ≡ length hs
      → IsReady (length hs) t.tree t.levels
      → Yields (λ r. HasShards hs r.0) (build t hs)
  unfolding build
  build-HasShards hs t sized ready =
      let same : (t.num_shards == length hs) ≡ true = ground arith in
      rw same (record { sized = sized; built = build_levels-IsBuilt hs t.tree t.levels ready })

  blank_region_tree-IsReady :
      (region_id : Bytes) (n m : ℕ)
      → 0 < n
      → n ≡ m
      → let t = blank_region_tree region_id n in IsReady m t.tree t.levels
  unfolding blank_region_tree
  blank_region_tree-IsReady region_id n m p e =
      let t = blank_region_tree region_id n in
      subst (λ k. IsReady k t.tree t.levels) e
        (allocate-IsReady n (tree_height n) t.tree p (tree_height-IsHeight n p) refl refl)

  -- A new tree of `n` shards, at least one, is the tree of `n` zero hashes: its levels, its root
  -- and the least height with room for them are those of repeated pairing.
  pub new_region_tree-HasShards :
      (region_id : Bytes) (n : ℕ)
      → 0 < n
      → Yields (HasShards (replicate n zero_hash)) (new_region_tree region_id n)
  unfolding new_region_tree
  new_region_tree-HasShards region_id n p =
      let t : RegionTree = blank_region_tree region_id n in
      let same : n ≡ length (replicate n zero_hash) = sym (length-replicate n zero_hash) in
      rw (lt→ltb 0 n p) (
        Yields-bind (λ (r : RegionTree × List MerkleNode). HasShards (replicate n zero_hash) r.0)
          (HasShards (replicate n zero_hash)) (build t (replicate n zero_hash)) (λ r. ok r.0)
          (build-HasShards (replicate n zero_hash) t same
            (blank_region_tree-IsReady region_id n _ p same))
          λ r v. v)

  -- A region keeps arrays of the right sizes.
  HasShards-IsReady :
      (old hs : List Hash) (t : RegionTree)
      → HasShards old t
      → length old ≡ length hs
      → IsReady (length hs) t.tree t.levels
  HasShards-IsReady old hs t v e =
      subst (λ n. IsReady n t.tree t.levels) e (IsBuilt-IsReady old t.tree t.levels v.built)

  -- On any tree that was built before, `Build` with as many hashes replaces every leaf: levels,
  -- root and height are those of repeated pairing, and it returns all nodes of the new levels. Any
  -- other number of hashes is refused.
  pub build-rebuilds :
      (old hs : List Hash) (t : RegionTree)
      → HasShards old t
      → ((length old ≡ length hs)
          × Yields (λ r. HasShards hs r.0 × (r.1 ≡ flatten r.0.levels)) (build t hs))
        ⊎ ((length old ≢ length hs) × (build t hs ≡ err wrong_leaf_count))
  unfolding build
  build-rebuilds old hs t v = elim (Bool-cases (t.num_shards == length hs)) [
    | inl same ↦
        let e : length old ≡ length hs = ground (arith, v.sized) in
        let built = build_levels-IsBuilt hs t.tree t.levels (HasShards-IsReady old hs t v e) in
        inl (e, rw same (record { sized = v.sized ∙ e; built = built }, refl))
    | inr other ↦ inr (ground (arith, v.sized), rw other refl)
  ]

  -- `Build` gives the arrays that hold the built tree.
  build-eq :
      (old hs : List Hash) (t : RegionTree) (levels : List (List MerkleNode))
      → HasShards old t
      → length old ≡ length hs
      → IsBuilt hs (record (t.tree) { root = top_hash levels t.tree.height }) levels
      → Yields
          (λ b. b.0 ≡ record t {
            levels = levels;
            tree = record (t.tree) { root = top_hash levels t.tree.height };
          })
          (build t hs)
  unfolding build
  build-eq old hs t levels v e w =
      let same : (t.num_shards == length hs) ≡ true = ground (arith, v.sized) in
      let fresh = build_levels-IsBuilt hs t.tree t.levels (HasShards-IsReady old hs t v e) in
      rw same (
        ap
          (λ l.
            let t' : RegionTree = record t {
              levels = l;
              tree = record (t.tree) { root = top_hash l t.tree.height };
            } in
            t')
          (IsBuilt-unique hs _ _ (build_levels hs t.levels) levels fresh w))

  layout-holds :
      (hs : List Hash) (t : RegionTree)
      → HasShards hs t
      → ((length t.levels == suc t.tree.height)
          && (length (get_or t.levels 0 []) == t.tree.leaf_count))
        ≡ true
  layout-holds hs t v =
      let first = ap (λ l. length (get_or l 0 [])) v.built.arrays ∙ length-leaf_nodes 0 hs in
      ground (arith, ap length v.built.arrays, first, v.built.tall, v.built.counted)

  -- Updating one shard root yields the tree of the updated roots: the same one, array by array
  -- and root included, that `Build` makes from scratch.
  pub update_shard_root-eq-build :
      (hs : List Hash) (t : RegionTree) (i : ℕ) (h : Hash)
      → HasShards hs t
      → i < length hs
      → Yields
          (λ r. HasShards (set hs i h) r.0 × Yields (λ b. b.0 ≡ r.0) (build t (set hs i h)))
          (update_shard_root t i h)
  unfolding update_shard_root
  update_shard_root-eq-build hs t i h v inside =
      let Done : RegionTree × List MerkleNode → Type 0 =
        λ r. HasShards (set hs i h) r.0 × Yields (λ b. b.0 ≡ r.0) (build t (set hs i h)) in
      let Updated : List MerkleNode × List (List MerkleNode) → Type 0 =
        λ r. IsBuilt (set hs i h) (record (t.tree) { root = top_hash r.1 t.tree.height }) r.1 in
      rw
        (
          lt→ltb i t.num_shards (omega (arith, v.sized)),
          lt→ltb i t.tree.leaf_count (omega (arith, v.built.counted)),
          layout-holds hs t v,
        )
        (Yields-bind Updated Done (update_path parent_out_of_range i h t.levels) _
          (update_path-IsBuilt parent_out_of_range hs t.tree t.levels i h v.built inside)
          λ r built. (
            record { sized = v.sized ∙ sym (length-set hs i h); built = built },
            build-eq hs (set hs i h) t r.1 v (sym (length-set hs i h)) built,
          ))

  -- An index outside the region is refused.
  pub update_shard_root-out_of_range :
      (hs : List Hash) (t : RegionTree) (i : ℕ) (h : Hash)
      → HasShards hs t
      → length hs ≤ i
      → update_shard_root t i h ≡ err index_out_of_range
  unfolding update_shard_root
  update_shard_root-out_of_range hs t i h v outside =
      rw (le→ltb i t.num_shards (omega (arith, v.sized)))
