-- ===== src/Hmf/Region.antt =====
-- internal/hmf/region_tree.go: a fixed number of shard commitments as leaves.
pub mod Correct
use storage_aware_hmfaudit.Prelude.{
  ℕ, zero, suc, ◌+◌, List, [], ◌∷◌, ltb, ◌==◌, ◌&&◌, length, get_or, flatten, replicate, ℤ, pos,
  Result, ok, err, ◌>>=◌, ◌>>◌, guard,
}
use storage_aware_hmfaudit.Crypto.{Bytes, Hash, Sha256, zero_hash}
use storage_aware_hmfaudit.Hmf.Node.{TreeType, MerkleNode, MerkleTree}
use storage_aware_hmfaudit.Hmf.Levels.{tree_height, allocate, build_levels, update_path, top_hash}

pub record RegionTree : Type 0 where
  pub tree : MerkleTree
  pub levels : List (List MerkleNode)
  pub num_shards : ℕ

-- `not_positive` is the constructor's panic.
pub data RegionError : Type 0 where
  not_positive wrong_leaf_count index_out_of_range invalid_layout parent_out_of_range : RegionError

-- The struct that the constructor allocates, before its first `Build`.
unfoldable pub blank_region_tree : Bytes → ℕ → RegionTree
unfolding tree_height allocate
blank_region_tree region_id num_shards = record {
  tree = record {
    tree_id = record {
      type = TreeType.region;
      region_id = region_id;
      shard_id = pos 0;
      segment_id = pos 0;
    };
    root = zero_hash;
    leaf_count = num_shards;
    height = tree_height num_shards;
  };
  levels = allocate (suc (tree_height num_shards)) num_shards;
  num_shards = num_shards;
}

module _ ⦃sha : Sha256⦄ where
  -- `Build`: the tree and every node of it.
  unfoldable pub build : RegionTree → List Hash → Result RegionError (RegionTree × List MerkleNode)
  unfolding build_levels
  build t shard_hashes = do
    guard (t.num_shards == length shard_hashes) wrong_leaf_count
    let levels = build_levels shard_hashes t.levels
    ok (
      record t { levels = levels; tree = record (t.tree) { root = top_hash levels t.tree.height } },
      flatten levels,
    )

  -- `NewRegionTree`
  unfoldable pub new_region_tree : Bytes → ℕ → Result RegionError RegionTree
  unfolding build blank_region_tree
  new_region_tree region_id num_shards = do
    guard (ltb 0 num_shards) not_positive
    (t, _) ← build (blank_region_tree region_id num_shards) (replicate num_shards zero_hash)
    ok t

  -- `recomputePath`, with the write of the leaf that its caller makes before it.
  unfoldable pub recompute_path :
      RegionTree → ℕ → Hash → Result RegionError (RegionTree × List MerkleNode)
  unfolding update_path
  recompute_path t shard_index shard_root = do
    guard (ltb shard_index t.tree.leaf_count) index_out_of_range
    guard
        ((length t.levels == suc t.tree.height)
          && (length (get_or t.levels 0 []) == t.tree.leaf_count))
        invalid_layout
    (updates, levels) ← update_path parent_out_of_range shard_index shard_root t.levels
    ok (
      record t { levels = levels; tree = record (t.tree) { root = top_hash levels t.tree.height } },
      updates,
    )

  -- `updateShardRoot`
  unfoldable pub update_shard_root :
      RegionTree → ℕ → Hash → Result RegionError (RegionTree × List MerkleNode)
  unfolding recompute_path
  update_shard_root t shard_index shard_root = do
    guard (ltb shard_index t.num_shards) index_out_of_range
    recompute_path t shard_index shard_root
