-- ===== src/Hmf/Segment.antt =====
-- internal/hmf/segment_tree.go: leaves are appended to a mutable tree, and sealing builds the
-- levels above them.
pub mod Fill
pub mod Root
use storage_aware_hmfaudit.Prelude.{
  ℕ, zero, suc, ◌+◌, ◌-◌, ◌<◌, Bool, true, false, not, Option, none, some, List, [], ◌∷◌, ◌++◌, ltb,
  if◌then◌else◌, length, get_or, set, ℤ, Result, ok, err, ◌>>=◌, ◌>>◌, guard, ◌==◌, flatten,
}
use storage_aware_hmfaudit.Crypto.{Bytes, Hash, Sha256, zero_hash, node_hash}
use storage_aware_hmfaudit.Hmf.Node.{TreeType, MerkleNode, MerkleTree, zero_node}

pub record SegmentTree : Type 0 where
  pub tree : MerkleTree
  pub levels : List (List MerkleNode)
  pub max_leaves : ℕ
  pub is_sealed : Bool

-- `out_of_fuel` is no error of the source: the model's build loop ran out of rounds.
pub data SegmentError : Type 0 where
  sealed full no_leaves already_sealed out_of_fuel : SegmentError

-- `NewSegmentTree`
unfoldable pub new_segment_tree : Bytes → ℤ → ℤ → ℕ → SegmentTree
new_segment_tree region_id shard_id segment_id max_leaves = record {
  tree = record {
    tree_id = record {
      type = TreeType.segment;
      region_id = region_id;
      shard_id = shard_id;
      segment_id = segment_id;
    };
    root = zero_hash;
    leaf_count = 0;
    height = 0;
  };
  levels = [] ∷ [];
  max_leaves = max_leaves;
  is_sealed = false;
}

-- `Append`
unfoldable pub append : SegmentTree → Hash → Result SegmentError SegmentTree
append t h = do
  guard (not t.is_sealed) sealed
  guard (ltb t.tree.leaf_count t.max_leaves) full
  let leaf : MerkleNode = record { level = 0; index = t.tree.leaf_count; hash = h }
  ok (record t {
    levels = set t.levels 0 (get_or t.levels 0 [] ++ leaf ∷ []);
    tree = record (t.tree) { leaf_count = t.tree.leaf_count + 1 };
  })

module _ ⦃sha : Sha256⦄ where
  -- The inner loop of `buildInternalNode`: `index` counts the nodes made, so it is `index / 2` there.
  unfoldable pub pair_nodes : ℕ → ℕ → List MerkleNode → List MerkleNode
  pair_nodes level index [] = []
  pair_nodes level index (left ∷ []) =
      record { level = level; index = index; hash = left.hash } ∷ []
  pair_nodes level index (left ∷ right ∷ rest) =
      record { level = level; index = index; hash = node_hash left.hash right.hash }
      ∷ pair_nodes level (suc index) rest

  -- The outer loop: the levels above `children`, while those are more than one.
  unfoldable pub build_levels : ℕ → ℕ → List MerkleNode → Option (List (List MerkleNode))
  build_levels zero level children = none
  build_levels (suc fuel) level children =
      let nodes = pair_nodes level 0 children in
      let above =
        elim (build_levels fuel (suc level) nodes) as (λ _. Option (List (List MerkleNode))) [
          | none ↦ none
          | some rest ↦ some (nodes ∷ rest)
        ] in
      if ltb 1 (length children) then above else some []

  -- The end of `buildInternalNode`: height, root and the list of updates.
  unfoldable pub finish_build :
      SegmentTree → List MerkleNode → List (List MerkleNode) → SegmentTree × List MerkleNode
  finish_build t leaves above =
      let height = length (leaves ∷ above) - 1 in
      (
        record t {
          levels = leaves ∷ above;
          tree = record (t.tree) {
            height = height;
            root = (get_or (get_or (leaves ∷ above) height []) 0 zero_node).hash;
          };
        },
        leaves ++ flatten above,
      )

  -- `buildInternalNode`: the new tree and every node, level by level.
  unfoldable pub build_internal_node :
      SegmentTree → Result SegmentError (SegmentTree × List MerkleNode)
  unfolding finish_build
  build_internal_node t =
      let leaves = get_or t.levels 0 [] in
      if t.tree.leaf_count == 0
      then err no_leaves
      else elim (build_levels (suc (length leaves)) 1 leaves) [
        | none ↦ err out_of_fuel
        | some above ↦ ok (finish_build t leaves above)
      ]

  -- `Seal`
  unfoldable pub seal : SegmentTree → Result SegmentError (SegmentTree × List MerkleNode)
  unfolding build_internal_node
  seal t = do
    guard (not t.is_sealed) already_sealed
    (t', updates) ← build_internal_node t
    ok (record t' { is_sealed = true }, updates)
