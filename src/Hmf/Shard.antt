-- ===== src/Hmf/Shard.antt =====
-- internal/hmf/shard_tree.go: an append-only tree that keeps its frontier, the roots of the complete
-- subtrees. The slice's last element is the head of the list here.
pub mod Correct
use storage_aware_hmfaudit.Prelude.{
  ℕ, zero, suc, ◌+◌, ◌-◌, ◌/◌, List, [], ◌∷◌, ◌++◌, Bool, ltb, ◌==◌, if◌then◌else◌, ℤ, pos, Result,
  ok, err, ◌>>=◌, Option, none, some, reverse,
}
use storage_aware_hmfaudit.Crypto.{Bytes, Hash, Sha256, zero_hash, node_hash}
use storage_aware_hmfaudit.Hmf.Node.{TreeType, MerkleNode, MerkleTree}

pub record ShardTree : Type 0 where
  pub tree : MerkleTree
  pub frontiers : List MerkleNode

pub data ShardError : Type 0 where
  no_frontier : ShardError

-- `NewShardTree`
unfoldable pub new_shard_tree : Bytes → ℤ → ShardTree
new_shard_tree region_id shard_id = record {
  tree = record {
    tree_id = record {
      type = TreeType.shard;
      region_id = region_id;
      shard_id = shard_id;
      segment_id = pos 0;
    };
    root = zero_hash;
    leaf_count = 0;
    height = 0;
  };
  frontiers = [];
}

-- `Frontiers`, in the order of the slice.
unfoldable pub frontiers_copy : ShardTree → List MerkleNode
frontiers_copy t = reverse t.frontiers

module _ ⦃sha : Sha256⦄ where
  -- The node above `left` and `current` in `mergeFrontier`.
  unfoldable pub merge_node : MerkleNode → MerkleNode → MerkleNode
  merge_node left current = record {
    level = current.level + 1;
    index = current.index / 2;
    hash = node_hash left.hash current.hash;
  }

  -- The loop of `mergeFrontier`, `popFrontier` included: it returns the updates after the leaf and
  -- the frontier with the last node pushed on.
  unfoldable pub merge_loop : MerkleNode → List MerkleNode → List MerkleNode × List MerkleNode
  unfolding merge_node
  merge_loop current [] = ([], current ∷ [])
  merge_loop current (left ∷ rest) =
      let merged = merge_node left current in
      let (updates, frontier) = merge_loop merged rest in
      if left.level == current.level
      then (merged ∷ updates, frontier)
      else ([], current ∷ left ∷ rest)

  unfoldable pub merge_frontier : ShardTree → Hash → List MerkleNode × List MerkleNode
  unfolding merge_loop
  merge_frontier t segment_hash =
      let leaf : MerkleNode = record {
        level = 0;
        index = t.tree.leaf_count;
        hash = segment_hash;
      } in
      let (updates, frontier) = merge_loop leaf t.frontiers in (leaf ∷ updates, frontier)

  -- `for right.Level < left.Level`, over the levels that are missing: the updates and the node.
  unfoldable pub promote : ℕ → MerkleNode → List MerkleNode × MerkleNode
  promote zero right = ([], right)
  promote (suc missing) right =
      let above : MerkleNode = record {
        level = right.level + 1;
        index = right.index / 2;
        hash = right.hash;
      } in
      let (updates, top) = promote missing above in (above ∷ updates, top)

  -- The loop of `materializeRootPath` over the rest of the frontier.
  unfoldable pub climb : MerkleNode → List MerkleNode → List MerkleNode × MerkleNode
  unfolding promote
  climb right [] = ([], right)
  climb right (left ∷ rest) =
      let (promoted, raised) = promote (left.level - right.level) right in
      let joined : MerkleNode = record {
        level = left.level + 1;
        index = left.index / 2;
        hash = node_hash left.hash raised.hash;
      } in
      let (updates, top) = climb joined rest in (promoted ++ (joined ∷ updates), top)

  -- `materializeRootPath`
  unfoldable pub materialize_root_path :
      List MerkleNode → Result ShardError (List MerkleNode × MerkleNode)
  unfolding climb
  materialize_root_path [] = err no_frontier
  materialize_root_path (right ∷ rest) = ok (climb right rest)

  -- `Append`
  unfoldable pub append : ShardTree → Hash → Result ShardError (ShardTree × List MerkleNode)
  unfolding merge_frontier materialize_root_path
  append t segment_hash = do
    let (updates, frontier) = merge_frontier t segment_hash
    (path, root) ← materialize_root_path frontier
    ok (
      record {
        tree = record (t.tree) {
          root = root.hash;
          leaf_count = t.tree.leaf_count + 1;
          height = root.level;
        };
        frontiers = frontier;
      },
      updates ++ path,
    )

  -- `Append`, commitment after commitment, on what is held in memory.
  unfoldable pub append_all : ShardTree → List Hash → Result ShardError ShardTree
  append_all t [] = ok t
  append_all t (h ∷ hs) = append t h >>= λ r. append_all r.0 hs
