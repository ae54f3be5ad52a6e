-- ===== src/Hmf/Global.antt =====
-- internal/hmf/global_tree.go: a fixed number of region commitments as leaves.
pub mod Correct
use storage_aware_hmfaudit.Prelude.{
  ℕ, zero, suc, ◌+◌, List, [], ◌∷◌, ltb, ◌==◌, ◌&&◌, length, get_or, flatten, replicate, ℤ, pos,
  Result, ok, err, ◌>>=◌, ◌>>◌, guard,
}
use storage_aware_hmfaudit.Crypto.{Hash, Sha256, zero_hash}
use storage_aware_hmfaudit.Hmf.Node.{TreeType, MerkleNode, MerkleTree}
use storage_aware_hmfaudit.Hmf.Levels.{tree_height, allocate, build_levels, update_path, top_hash}

pub record GlobalTree : Type 0 where
  pub tree : MerkleTree
  pub levels : List (List MerkleNode)
  pub num_regions : ℕ

-- `not_positive` is the constructor's panic, `parent_out_of_range` Go's bounds check.
pub data GlobalError : Type 0 where
  not_positive wrong_leaf_count index_out_of_range parent_out_of_range : GlobalError

-- The struct that the constructor allocates, before its first `Build`.
unfoldable pub blank_global_tree : ℕ → GlobalTree
unfolding tree_height allocate
blank_global_tree num_regions = record {
  tree = record {
    tree_id = record {
      type = TreeType.global;
      region_id = [];
      shard_id = pos 0;
      segment_id = pos 0;
    };
    root = zero_hash;
    leaf_count = num_regions;
    height = tree_height num_regions;
  };
  levels = allocate (suc (tree_height num_regions)) num_regions;
  num_regions = num_regions;
}

module _ ⦃sha : Sha256⦄ where
  -- `Build`: the tree and every node of it.
  unfoldable pub build : GlobalTree → List Hash → Result GlobalError (GlobalTree × List MerkleNode)
  unfolding build_levels
  build t region_hashes = do
    guard (t.num_regions == length region_hashes) wrong_leaf_count
    let levels = build_levels region_hashes t.levels
    ok (
      record t { levels = levels; tree = record (t.tree) { root = top_hash levels t.tree.height } },
      flatten levels,
    )

  -- `NewGlobalTree`
  unfoldable pub new_global_tree : ℕ → Result GlobalError GlobalTree
  unfolding build blank_global_tree
  new_global_tree num_regions = do
    guard (ltb 0 num_regions) not_positive
    (t, _) ← build (blank_global_tree num_regions) (replicate num_regions zero_hash)
    ok t

  -- `recomputePath`, with the write of the leaf that its caller makes before it.
  unfoldable pub recompute_path :
      GlobalTree → ℕ → Hash → Result GlobalError (GlobalTree × List MerkleNode)
  unfolding update_path
  recompute_path t region_index region_root = do
    guard (ltb region_index t.num_regions) index_out_of_range
    (updates, levels) ← update_path parent_out_of_range region_index region_root t.levels
    ok (
      record t { levels = levels; tree = record (t.tree) { root = top_hash levels t.tree.height } },
      updates,
    )

  -- `UpdateRegionRoot`
  unfoldable pub update_region_root :
      GlobalTree → ℕ → Hash → Result GlobalError (GlobalTree × List MerkleNode)
  unfolding recompute_path
  update_region_root t region_index region_root = do
    guard (ltb region_index t.num_regions) index_out_of_range
    recompute_path t region_index region_root
