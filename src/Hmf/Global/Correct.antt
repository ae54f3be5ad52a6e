-- ===== src/Hmf/Global/Correct.antt =====
-- The global tree is always the tree of its current region commitments.
use storage_aware_hmfaudit.Prelude.{
  ℕ, ◌<◌, ◌≤◌, ◌≡◌, refl, ap, sym, subst, ◌∙◌, true, List, arith, ◌==◌, lt→ltb, le→ltb, length, set,
  length-set, replicate, ok, err, Yields, Yields-bind,
}
use storage_aware_hmfaudit.Crypto.{Hash, Sha256, zero_hash}
use storage_aware_hmfaudit.Hmf.Node.{MerkleNode}
use storage_aware_hmfaudit.Hmf.Levels.{build_levels, update_path, top_hash, tree_height}
use storage_aware_hmfaudit.Hmf.Levels.Build.{tree_height-IsHeight}
use storage_aware_hmfaudit.Hmf.Levels.Correct.{
  IsReady, IsBuilt, IsBuilt-IsReady, IsBuilt-unique, build_levels-IsBuilt, update_path-IsBuilt,
  allocate-IsReady, length-replicate,
}
use storage_aware_hmfaudit.Hmf.Global.{
  GlobalTree, index_out_of_range, parent_out_of_range, build, blank_global_tree, new_global_tree,
  update_region_root,
}

-- The global tree over the region commitments `hs`.
pub record HasRegions ⦃sha : Sha256⦄ (hs : List Hash) (t : GlobalTree) : Type 0 where
  pub sized : t.num_regions ≡ length hs
  pub built : IsBuilt hs t.tree t.levels

module _ ⦃sha : Sha256⦄ where
  -- `Build` over arrays of the right sizes.
  build-HasRegions :
      (hs : List Hash) (t : GlobalTree)
      → t.num_regions ≡ length hs
      → IsReady (length hs) t.tree t.levels
      → Yields (λ r. HasRegions hs r.0) (build t hs)
  unfolding build
  build-HasRegions hs t sized ready =
      let same : (t.num_regions == length hs) ≡ true = ground arith in
      rw same (record { sized = sized; built = build_levels-IsBuilt hs t.tree t.levels ready })

  blank_global_tree-IsReady :
      (n m : ℕ) → 0 < n → n ≡ m → let t = blank_global_tree n in IsReady m t.tree t.levels
  unfolding blank_global_tree
  blank_global_tree-IsReady n m p e =
      let t = blank_global_tree n in
      subst (λ k. IsReady k t.tree t.levels) e
        (allocate-IsReady n (tree_height n) t.tree p (tree_height-IsHeight n p) refl refl)

  -- A new tree of `n` regions, at least one, is the tree of `n` zero hashes: its levels, its root
  -- and the least height with room for them are those of repeated pairing.
  pub new_global_tree-HasRegions :
      (n : ℕ) → 0 < n → Yields (HasRegions (replicate n zero_hash)) (new_global_tree n)
  unfolding new_global_tree
  new_global_tree-HasRegions n p =
      let t : GlobalTree = blank_global_tree n in
      let same : n ≡ length (replicate n zero_hash) = sym (length-replicate n zero_hash) in
      rw (lt→ltb 0 n p) (
        Yields-bind (λ (r : GlobalTree × List MerkleNode). HasRegions (replicate n zero_hash) r.0)
          (HasRegions (replicate n zero_hash)) (build t (replicate n zero_hash)) (λ r. ok r.0)
          (build-HasRegions (replicate n zero_hash) t same (blank_global_tree-IsReady n _ p same))
          λ r v. v)

  -- The tree keeps arrays of the right sizes.
  HasRegions-IsReady :
      (old hs : List Hash) (t : GlobalTree)
      → HasRegions old t
      → length old ≡ length hs
      → IsReady (length hs) t.tree t.levels
  HasRegions-IsReady old hs t v e =
      subst (λ n. IsReady n t.tree t.levels) e (IsBuilt-IsReady old t.tree t.levels v.built)

  -- `Build` replaces every leaf, on any tree that was built before.
  pub build-rebuilds :
      (old hs : List Hash) (t : GlobalTree)
      → HasRegions old t
      → length old ≡ length hs
      → Yields (λ r. HasRegions hs r.0) (build t hs)
  build-rebuilds old hs t v e =
      build-HasRegions hs t (v.sized ∙ e) (HasRegions-IsReady old hs t v e)

  -- `Build` gives the arrays that hold the built tree.
  build-eq :
      (old hs : List Hash) (t : GlobalTree) (levels : List (List MerkleNode))
      → HasRegions old t
      → length old ≡ length hs
      → IsBuilt hs (record (t.tree) { root = top_hash levels t.tree.height }) levels
      → Yields
          (λ b. b.0 ≡ record t {
            levels = levels;
            tree = record (t.tree) { root = top_hash levels t.tree.height };
          })
          (build t hs)
  unfolding build
  build-eq old hs t levels v e w =
      let same : (t.num_regions == length hs) ≡ true = ground (arith, v.sized) in
      let fresh = build_levels-IsBuilt hs t.tree t.levels (HasRegions-IsReady old hs t v e) in
      rw same (
        ap
          (λ l.
            let t' : GlobalTree = record t {
              levels = l;
              tree = record (t.tree) { root = top_hash l t.tree.height };
            } in
            t')
          (IsBuilt-unique hs _ _ (build_levels hs t.levels) levels fresh w))

  -- Updating one region root yields the tree of the updated roots: the same one, array by array
  -- and root included, that `Build` makes from scratch.
  pub update_region_root-eq-build :
      (hs : List Hash) (t : GlobalTree) (i : ℕ) (h : Hash)
      → HasRegions hs t
      → i < length hs
      → Yields
          (λ r. HasRegions (set hs i h) r.0 × Yields (λ b. b.0 ≡ r.0) (build t (set hs i h)))
          (update_region_root t i h)
  unfolding update_region_root
  update_region_root-eq-build hs t i h v inside =
      let Done : GlobalTree × List MerkleNode → Type 0 =
        λ r. HasRegions (set hs i h) r.0 × Yields (λ b. b.0 ≡ r.0) (build t (set hs i h)) in
      let Updated : List MerkleNode × List (List MerkleNode) → Type 0 =
        λ r. IsBuilt (set hs i h) (record (t.tree) { root = top_hash r.1 t.tree.height }) r.1 in
      rw (lt→ltb i t.num_regions (omega (arith, v.sized))) (
        Yields-bind Updated Done (update_path parent_out_of_range i h t.levels) _
          (update_path-IsBuilt parent_out_of_range hs t.tree t.levels i h v.built inside)
          λ r built. (
            record { sized = v.sized ∙ sym (length-set hs i h); built = built },
            build-eq hs (set hs i h) t r.1 v (sym (length-set hs i h)) built,
          ))

  -- An index outside the tree is refused.
  pub update_region_root-out_of_range :
      (hs : List Hash) (t : GlobalTree) (i : ℕ) (h : Hash)
      → HasRegions hs t
      → length hs ≤ i
      → update_region_root t i h ≡ err index_out_of_range
  unfolding update_region_root
  update_region_root-out_of_range hs t i h v outside =
      rw (le→ltb i t.num_regions (omega (arith, v.sized)))
