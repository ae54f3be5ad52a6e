-- ===== src/Hmf/Levels.antt =====
-- The fixed-size level arrays that internal/hmf/region_tree.go and internal/hmf/global_tree.go keep
-- with the same loops. An index out of range panics there; it is read as `zero_node` here, and
-- Levels/Update.antt has that the paths stay in range. `parent_at` stands for the same lines in
-- `Build` and `recomputePath` of both files; Levels/Root.antt has that they agree with the reference.
pub mod Build
pub mod Update
pub mod Root
pub mod Correct
use storage_aware_hmfaudit.Prelude.{
  ℕ, zero, suc, ◌+◌, ◌-◌, ◌*◌, ◌/◌, ◌%◌, List, [], ◌∷◌, ◌++◌, ltb, ◌==◌, if◌then◌else◌, length,
  get_or, set, replicate, Result, ok, err, ◌>>=◌, ◌>>◌, guard,
}
use storage_aware_hmfaudit.Crypto.{Hash, Sha256, node_hash}
use storage_aware_hmfaudit.Hmf.Node.{MerkleNode, zero_node, leaf_nodes}

-- `bits.Len(uint(n))`: the binary digits of `n`. The fuel `n` is enough, since `n` halves.
unfoldable pub bit_length : ℕ → ℕ → ℕ
bit_length zero n = 0
bit_length (suc fuel) n = let rest = bit_length fuel (n / 2) in if n == 0 then 0 else suc rest

unfoldable pub tree_height : ℕ → ℕ
unfolding bit_length
tree_height leaves = bit_length leaves (leaves - 1)

-- The constructors' loop over `levels`: level 0 has `node_count` nodes, each next one half of that.
unfoldable pub allocate : ℕ → ℕ → List (List MerkleNode)
allocate zero node_count = []
allocate (suc levels) node_count =
    replicate node_count zero_node ∷ allocate levels ((node_count + 1) / 2)

module _ ⦃sha : Sha256⦄ where
  -- The parent at `index`, from the level below it.
  unfoldable pub parent_at : ℕ → List MerkleNode → ℕ → MerkleNode
  parent_at level children index =
      let left = (get_or children (2 * index) zero_node).hash in
      let right = (get_or children (2 * index + 1) zero_node).hash in
      record {
        level = level;
        index = index;
        hash = if ltb (2 * index + 1) (length children) then node_hash left right else left;
      }

  -- `for parentIndex := range tree.levels[l]`
  unfoldable pub fill_level : ℕ → List MerkleNode → ℕ → List MerkleNode → List MerkleNode
  fill_level level children index [] = []
  fill_level level children index (old ∷ rest) =
      parent_at level children index ∷ fill_level level children (suc index) rest

  -- `for l := 1; l <= tree.Height; l++` of `Build`, over the levels above `children`.
  unfoldable pub fill_levels : ℕ → List MerkleNode → List (List MerkleNode) → List (List MerkleNode)
  fill_levels level children [] = []
  fill_levels level children (old ∷ rest) =
      let nodes = fill_level level children 0 old in nodes ∷ fill_levels (suc level) nodes rest

  abbrev pub sibling_index : ℕ → ℕ
  sibling_index index = if index % 2 == 0 then 2 * (index / 2) + 1 else 2 * (index / 2)

  -- The sibling on the path, where there is one.
  unfoldable pub sibling_update : List MerkleNode → ℕ → List MerkleNode
  sibling_update children index =
      if ltb (sibling_index index) (length children)
      then get_or children (sibling_index index) zero_node ∷ []
      else []

  -- The loop of `recomputePath`: the updates and the levels above `children`. The guard is the
  -- source's test of the parent index in region_tree.go and Go's own bounds check in global_tree.go.
  unfoldable pub recompute_levels {κ} :
      {E : Type κ}
      → E
      → ℕ
      → ℕ
      → List MerkleNode
      → List (List MerkleNode)
      → Result E (List MerkleNode × List (List MerkleNode))
  recompute_levels e level index children [] = ok ([], [])
  recompute_levels e level index children (parents ∷ rest) =
      let parent = parent_at level children (index / 2) in
      let parents' = set parents (index / 2) parent in
      do
        guard (ltb (index / 2) (length parents)) e
        (updates, rest') ← recompute_levels e (suc level) (index / 2) parents' rest
        ok (sibling_update children index ++ (parent ∷ updates), parents' ∷ rest')

  -- `Build`, once the number of leaves is checked: every node of every level is written.
  unfoldable pub build_levels : List Hash → List (List MerkleNode) → List (List MerkleNode)
  unfolding fill_level fill_levels
  build_levels leaves [] = []
  build_levels leaves (old ∷ above) =
      leaf_nodes 0 leaves ∷ fill_levels 1 (leaf_nodes 0 leaves) above

  -- `tree.levels[0][index] = leaf`, then the path above it: the updates and the new levels.
  unfoldable pub update_path {κ} :
      {E : Type κ}
      → E
      → ℕ
      → Hash
      → List (List MerkleNode)
      → Result E (List MerkleNode × List (List MerkleNode))
  unfolding recompute_levels
  update_path e index hash [] = err e
  update_path e index hash (children ∷ above) = do
    let leaf : MerkleNode = record { level = 0; index = index; hash = hash }
    let children' = set children index leaf
    (updates, above') ← recompute_levels e 1 index children' above
    ok (leaf ∷ updates, children' ∷ above')

-- `tree.levels[tree.Height][0].Hash`
abbrev pub top_hash : List (List MerkleNode) → ℕ → Hash
top_hash levels height = (get_or (get_or levels height []) 0 zero_node).hash
