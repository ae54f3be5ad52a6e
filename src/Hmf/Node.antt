-- ===== src/Hmf/Node.antt =====
-- internal/hmf/merkle_tree.go: the types that the four kinds of tree share.
use storage_aware_hmfaudit.Prelude.{
  ℕ, ◌≡◌, suc, ◌↔◌, Bool, true, false, ◌&&◌, arith, ℤ, Eq, nat_eq, int_eq, list_eq, ◌=?◌, bytes_iff,
  int_iff, List, [], ◌∷◌,
}
use storage_aware_hmfaudit.Crypto.{Bytes, Hash, zero_hash}

pub data TreeType : Type 0 where
  global region shard segment : TreeType

pub record TreeId : Type 0 where
  pub type : TreeType
  pub region_id : Bytes
  pub shard_id : ℤ
  pub segment_id : ℤ

-- Levels and indexes are made by the code itself and are never negative.
pub record MerkleNode : Type 0 where
  pub level : ℕ
  pub index : ℕ
  pub hash : Hash

pub record MerkleTree : Type 0 where
  pub tree_id : TreeId
  pub root : Hash
  pub leaf_count : ℕ
  pub height : ℕ

abbrev pub tree_type_beq : TreeType → TreeType → Bool
tree_type_beq TreeType.global TreeType.global = true
tree_type_beq TreeType.region TreeType.region = true
tree_type_beq TreeType.shard TreeType.shard = true
tree_type_beq TreeType.segment TreeType.segment = true
tree_type_beq _ _ = false

pub tree_type_beq_iff : (a b : TreeType) → (tree_type_beq a b ≡ true) ↔ (a ≡ b)
tree_type_beq_iff a b = ground arith

instance abbrev pub tree_type_eq : Eq TreeType
tree_type_eq = record { beq = tree_type_beq; beq_iff = tree_type_beq_iff }

abbrev pub tree_id_beq : TreeId → TreeId → Bool
tree_id_beq a b =
    (a.type =? b.type)
    && ((a.region_id =? b.region_id)
        && ((a.shard_id =? b.shard_id) && (a.segment_id =? b.segment_id)))

pub tree_id_beq_iff : (a b : TreeId) → (tree_id_beq a b ≡ true) ↔ (a ≡ b)
tree_id_beq_iff a b = ground (
  arith,
  tree_type_beq_iff a.type b.type,
  bytes_iff a.region_id b.region_id,
  int_iff a.shard_id b.shard_id,
  int_iff a.segment_id b.segment_id,
)

-- `TreeID` is a key of maps.
instance abbrev pub tree_id_eq : Eq TreeId
tree_id_eq = record { beq = tree_id_beq; beq_iff = tree_id_beq_iff }

-- `MerkleNode{}`
abbrev pub zero_node : MerkleNode
zero_node = record { level = 0; index = 0; hash = zero_hash }

-- Leaves of level 0, numbered from `i`.
abbrev pub leaf_nodes : ℕ → List Hash → List MerkleNode
leaf_nodes i [] = []
leaf_nodes i (h ∷ hs) = record { level = 0; index = i; hash = h } ∷ leaf_nodes (suc i) hs

abbrev pub hashes : List MerkleNode → List Hash
hashes [] = []
hashes (n ∷ ns) = n.hash ∷ hashes ns
