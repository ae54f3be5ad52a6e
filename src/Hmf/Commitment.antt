-- ===== src/Hmf/Commitment.antt =====
-- internal/hmf/commitment.go: a raw root is bound to the kind, identity and leaf count of its tree
-- before it becomes a leaf of the tree above.
pub mod Binding
use storage_aware_hmfaudit.Prelude.{ℕ, ◌++◌, [], ◌∷◌, ℤ, pos, negsuc}
use storage_aware_hmfaudit.Crypto.{Bytes, Hash, Sha256, write_string, write_int64}

abbrev pub tree_commitment_domain : Bytes
tree_commitment_domain =
    b'H' ∷ b'M' ∷ b'F' ∷ b'_' ∷ b'T' ∷ b'R' ∷ b'E' ∷ b'E' ∷ b'_' ∷ b'V' ∷ b'1' ∷ []

abbrev pub segment_kind : Bytes
segment_kind = b'S' ∷ b'E' ∷ b'G' ∷ b'M' ∷ b'E' ∷ b'N' ∷ b'T' ∷ []

abbrev pub shard_kind : Bytes
shard_kind = b'S' ∷ b'H' ∷ b'A' ∷ b'R' ∷ b'D' ∷ []

abbrev pub region_kind : Bytes
region_kind = b'R' ∷ b'E' ∷ b'G' ∷ b'I' ∷ b'O' ∷ b'N' ∷ []

abbrev pub global_kind : Bytes
global_kind = b'G' ∷ b'L' ∷ b'O' ∷ b'B' ∷ b'A' ∷ b'L' ∷ []

-- What the hasher of `commitTreeRoot` is fed, in order.
unfoldable pub commitment_bytes : Bytes → Bytes → ℤ → ℤ → ℤ → Hash → Bytes
commitment_bytes kind region_id shard_id segment_id leaf_count raw_root =
    write_string tree_commitment_domain
    ++ (write_string kind
        ++ (write_string region_id
            ++ (write_int64 shard_id
                ++ (write_int64 segment_id ++ (write_int64 leaf_count ++ raw_root)))))

module _ ⦃sha : Sha256⦄ where
  unfoldable pub commit_tree_root : Bytes → Bytes → ℤ → ℤ → ℤ → Hash → Hash
  unfolding commitment_bytes
  commit_tree_root kind region_id shard_id segment_id leaf_count raw_root =
      sha.sum (commitment_bytes kind region_id shard_id segment_id leaf_count raw_root)

  unfoldable pub commit_segment_root : Bytes → ℤ → ℤ → ℤ → Hash → Hash
  commit_segment_root region_id shard_id segment_id leaf_count raw_root =
      commit_tree_root segment_kind region_id shard_id segment_id leaf_count raw_root

  unfoldable pub commit_shard_root : Bytes → ℤ → ℤ → Hash → Hash
  commit_shard_root region_id shard_id leaf_count raw_root =
      commit_tree_root shard_kind region_id shard_id (negsuc 0) leaf_count raw_root

  unfoldable pub commit_region_root : Bytes → ℤ → Hash → Hash
  commit_region_root region_id leaf_count raw_root =
      commit_tree_root region_kind region_id (negsuc 0) (negsuc 0) leaf_count raw_root

  unfoldable pub commit_global_root : ℤ → Hash → Hash
  commit_global_root leaf_count raw_root =
      commit_tree_root global_kind [] (negsuc 0) (negsuc 0) leaf_count raw_root
