-- ===== src/Hmf/Commitment/Binding.antt =====
-- A tree commitment determines everything that it is computed from, up to a hash collision.
use storage_aware_hmfaudit.Prelude.{◌^◌, ◌<◌, ◌≡◌, ◌⊎◌, inl, inr, arith, length, ℤ, IsInt64}
use storage_aware_hmfaudit.Crypto.{
  Bytes, Hash, Sha256, Collision, write_string_inj, write_int64_inj,
}
use storage_aware_hmfaudit.Crypto.Binding.{sum_binds}
use storage_aware_hmfaudit.Hmf.Commitment.{
  tree_commitment_domain, commitment_bytes, commit_tree_root,
}

-- The arguments of one commitment, in Go's ranges: the hashed string lengths are uint32, the
-- numbers int64.
pub record Committed : Type 0 where
  pub kind : Bytes
  pub region_id : Bytes
  pub shard_id : ℤ
  pub segment_id : ℤ
  pub leaf_count : ℤ
  pub raw_root : Hash

pub record IsInRange (c : Committed) : Type 0 where
  pub kind_length : length c.kind < 2 ^ 32
  pub region_length : length c.region_id < 2 ^ 32
  pub shard_range : IsInt64 c.shard_id
  pub segment_range : IsInt64 c.segment_id
  pub leaf_range : IsInt64 c.leaf_count

abbrev bytes_of : Committed → Bytes
bytes_of c = commitment_bytes c.kind c.region_id c.shard_id c.segment_id c.leaf_count c.raw_root

abbrev pub commit_of : ⦃sha : Sha256⦄ → Committed → Hash
commit_of c = commit_tree_root c.kind c.region_id c.shard_id c.segment_id c.leaf_count c.raw_root

-- The bytes that are hashed determine every argument.
commitment_bytes_inj :
    (a b : Committed) → IsInRange a → IsInRange b → bytes_of a ≡ bytes_of b → a ≡ b
unfolding commitment_bytes
commitment_bytes_inj a b ra rb e =
    let (_, e₁) =
      write_string_inj tree_commitment_domain tree_commitment_domain _ _ (omega arith) (omega arith)
        e in
    let (k, e₂) = write_string_inj a.kind b.kind _ _ ra.kind_length rb.kind_length e₁ in
    let (r, e₃) =
      write_string_inj a.region_id b.region_id _ _ ra.region_length rb.region_length e₂ in
    let (s, e₄) = write_int64_inj a.shard_id b.shard_id _ _ ra.shard_range rb.shard_range e₃ in
    let (g, e₅) =
      write_int64_inj a.segment_id b.segment_id _ _ ra.segment_range rb.segment_range e₄ in
    let (l, h) = write_int64_inj a.leaf_count b.leaf_count _ _ ra.leaf_range rb.leaf_range e₅ in cc

module _ ⦃sha : Sha256⦄ where
  -- Two equal commitments over arguments in Go's ranges have the same kind, region, shard,
  -- segment, leaf count and raw root, or a collision of the hash is exhibited.
  pub commit_tree_root_binds :
      (a b : Committed)
      → IsInRange a
      → IsInRange b
      → commit_of a ≡ commit_of b
      → Collision ⊎ (a ≡ b)
  unfolding commit_tree_root
  commit_tree_root_binds a b ra rb e = elim (sum_binds (bytes_of a) (bytes_of b) e) [
    | inl c ↦ inl c
    | inr same ↦ inr (commitment_bytes_inj a b ra rb same)
  ]
