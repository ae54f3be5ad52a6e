-- ===== src/Hmf/Forest.antt =====
-- internal/hmf/hmf.go: the trees of all layers, and the way of a sealed segment's root through them.
-- A map that holds pointers to trees holds the trees here; each tree has one key only.
pub mod Propagate
use storage_aware_hmfaudit.Prelude.{
  ℕ, Bool, ◌&&◌, Option, none, some, List, ltb, if◌then◌else◌, ℤ, pos, ltb_ℤ, leb_ℤ, Assoc, lookup,
  insert, Eq, list_eq, nat_eq, Result, ok, err,
}
use storage_aware_hmfaudit.Crypto.{Bytes, Hash, Sha256}
use storage_aware_hmfaudit.Hmf.Node.{TreeType, TreeId, MerkleNode, MerkleTree, tree_id_eq}
use storage_aware_hmfaudit.Hmf.Commitment.{
  commit_segment_root, commit_shard_root, commit_region_root, commit_global_root,
}
use storage_aware_hmfaudit.Hmf.Shard
use storage_aware_hmfaudit.Hmf.Shard.{ShardTree, ShardError, frontiers_copy}
use storage_aware_hmfaudit.Hmf.Region.{RegionTree, RegionError, update_shard_root}
use storage_aware_hmfaudit.Hmf.Global.{GlobalTree, GlobalError, update_region_root}

-- `HMF`
pub record Forest : Type 0 where
  pub global_tree : GlobalTree
  pub region_trees : Assoc Bytes RegionTree
  pub shard_trees : Assoc TreeId ShardTree
  pub region_indexes : Assoc Bytes ℕ
  pub shard_indexes : Assoc TreeId ℕ

-- `HMFUpdate`, without the segment's fields, which the callers fill in.
pub record HmfUpdate : Type 0 where
  pub shard_tree_id : TreeId
  pub shard_nodes : List MerkleNode
  pub shard_root : Hash
  pub shard_leaves : ℕ
  pub shard_height : ℕ
  pub shard_frontiers : List MerkleNode
  pub shard_leaf_index : ℕ
  pub region_tree_id : TreeId
  pub region_nodes : List MerkleNode
  pub region_root : Hash
  pub region_leaves : ℕ
  pub region_height : ℕ
  pub region_parent_leaf_index : ℕ
  pub global_tree_id : TreeId
  pub global_nodes : List MerkleNode
  pub global_root : Hash
  pub global_leaves : ℕ
  pub global_height : ℕ
  pub global_parent_leaf_index : ℕ

pub data ForestError : Type 0 where
  invalid_segment no_shard no_region : ForestError
  of_shard : ShardError → ForestError
  of_region : RegionError → ForestError
  of_global : GlobalError → ForestError

-- A key that is missing reads as Go's zero value.
abbrev pub index_or_zero {ℓ} : {K : Type ℓ} ⦃e : Eq K⦄ → K → Assoc K ℕ → ℕ
index_or_zero key indexes = elim (lookup key indexes) [ none ↦ 0 | some i ↦ i ]

abbrev pub shard_id_of : Bytes → ℤ → TreeId
shard_id_of region_id shard_id = record {
  type = TreeType.shard;
  region_id = region_id;
  shard_id = shard_id;
  segment_id = pos 0;
}

module _ ⦃sha : Sha256⦄ where
  -- `Root`
  unfoldable pub root : Forest → Hash
  root forest =
      commit_global_root (pos forest.global_tree.tree.leaf_count) forest.global_tree.tree.root

  -- The commitment of a shard tree and of a region tree, as leaves of the trees above.
  unfoldable pub shard_commitment : Bytes → ℤ → ShardTree → Hash
  shard_commitment region_id shard_id t =
      commit_shard_root region_id shard_id (pos t.tree.leaf_count) t.tree.root

  unfoldable pub region_commitment : Bytes → RegionTree → Hash
  region_commitment region_id t = commit_region_root region_id (pos t.tree.leaf_count) t.tree.root

  -- The update that is returned, from the forest as it then is.
  unfoldable pub hmf_update :
      Forest
      → Bytes
      → ℤ
      → ShardTree
      → ShardTree
      → List MerkleNode
      → RegionTree
      → List MerkleNode
      → List MerkleNode
      → HmfUpdate
  unfolding shard_commitment region_commitment root
  hmf_update forest region_id shard_id old shard_tree shard_nodes region_tree region_nodes
        global_nodes =
      record {
        shard_tree_id = shard_id_of region_id shard_id;
        shard_nodes = shard_nodes;
        shard_root = shard_commitment region_id shard_id shard_tree;
        shard_leaves = shard_tree.tree.leaf_count;
        shard_height = shard_tree.tree.height;
        shard_frontiers = frontiers_copy shard_tree;
        shard_leaf_index = old.tree.leaf_count;
        region_tree_id = region_tree.tree.tree_id;
        region_nodes = region_nodes;
        region_root = region_commitment region_id region_tree;
        region_leaves = region_tree.tree.leaf_count;
        region_height = region_tree.tree.height;
        region_parent_leaf_index =
            index_or_zero (shard_id_of region_id shard_id) forest.shard_indexes;
        global_tree_id = forest.global_tree.tree.tree_id;
        global_nodes = global_nodes;
        global_root = root forest;
        global_leaves = forest.global_tree.tree.leaf_count;
        global_height = forest.global_tree.tree.height;
        global_parent_leaf_index = index_or_zero region_id forest.region_indexes;
      }

  -- The global part.
  unfoldable pub update_global :
      Forest
      → Bytes
      → ℤ
      → ShardTree
      → ShardTree
      → List MerkleNode
      → RegionTree
      → List MerkleNode
      → Result ForestError HmfUpdate × Forest
  unfolding hmf_update
  update_global forest region_id shard_id old shard_tree shard_nodes region_tree region_nodes =
      elim (update_region_root forest.global_tree (index_or_zero region_id forest.region_indexes)
        (region_commitment region_id region_tree)) [
          | err e ↦ (err (of_global e), forest)
          | ok (global_tree, global_nodes) ↦
              let after = record forest { global_tree = global_tree } in
              (
                ok (
                    hmf_update after region_id shard_id old shard_tree shard_nodes region_tree
                      region_nodes global_nodes),
                after,
              )
        ]

  -- The region part, once the shard tree has grown from `old` to `shard_tree`.
  unfoldable pub update_region :
      Forest
      → Bytes
      → ℤ
      → ShardTree
      → ShardTree
      → List MerkleNode
      → Result ForestError HmfUpdate × Forest
  unfolding update_global
  update_region forest region_id shard_id old shard_tree shard_nodes =
      elim (lookup region_id forest.region_trees) [
        | none ↦ (err no_region, forest)
        | some region_tree ↦
            elim (update_shard_root region_tree
              (index_or_zero (shard_id_of region_id shard_id) forest.shard_indexes)
              (shard_commitment region_id shard_id shard_tree)) [
                | err e ↦ (err (of_region e), forest)
                | ok (region_tree', region_nodes) ↦
                    update_global
                      (record forest {
                        region_trees = insert region_id region_tree' forest.region_trees;
                      })
                      region_id shard_id old shard_tree shard_nodes region_tree' region_nodes
              ]
      ]

  -- `AppendSealedSegment`. The forest comes back after an error too: a shard that was appended to
  -- keeps its leaf.
  unfoldable pub append_sealed_segment :
      Forest → Bytes → ℤ → ℤ → ℤ → Hash → Result ForestError HmfUpdate × Forest
  unfolding update_region
  append_sealed_segment forest region_id shard_id segment_id segment_leaf_count segment_root =
      if leb_ℤ (pos 0) segment_id && ltb_ℤ (pos 0) segment_leaf_count
      then (elim (lookup (shard_id_of region_id shard_id) forest.shard_trees) [
        | none ↦ (err no_shard, forest)
        | some shard_tree ↦
            elim (Shard.append shard_tree
              (commit_segment_root region_id shard_id segment_id segment_leaf_count segment_root)) [
                | err e ↦ (err (of_shard e), forest)
                | ok (shard_tree', shard_nodes) ↦
                    update_region
                      (record forest {
                        shard_trees =
                            insert (shard_id_of region_id shard_id) shard_tree' forest.shard_trees;
                      })
                      region_id shard_id shard_tree shard_tree' shard_nodes
              ]
      ])
      else (err invalid_segment, forest)
