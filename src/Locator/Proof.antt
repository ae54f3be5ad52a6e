-- ===== src/Locator/Proof.antt =====
-- The paths of a range proof up to the locator's root: `ReconstructLocatorRoot` and
-- `VerifyLocatorPathProofs` of internal/all/locator_range.go.
use storage_aware_hmfaudit.Prelude.{
  ◌+◌, pos, List, [], ◌∷◌, Option, none, some, length, map, set, Bool, true, false, not, ◌&&◌,
  ltb_ℤ, leb_ℤ, ◌==◌, pos_part, ◌=?◌, list_eq, nat_eq, Result, ok, err, ◌>>=◌, ◌>>◌, guard,
}
use storage_aware_hmfaudit.Crypto.{Hash, Sha256, zero_hash}
use storage_aware_hmfaudit.Locator.Types.{
  LocatorProofStep, LocatorLeafProof, LocatorRangeProof, ChildRef, Page, LocatorError,
  keys_and_values, keys_and_child_hashes, child_index_range, no_leaves, root_mismatch,
  reported_root, panics,
}
use storage_aware_hmfaudit.Locator.Page.{leaf_hash, internal_hash}

-- The leaf that `ReconstructLocatorRoot` hashes.
unfoldable pub proof_leaf : LocatorLeafProof → Page
proof_leaf proof = record {
  page_id = proof.page_id;
  hash = zero_hash;
  is_leaf = true;
  keys = proof.keys;
  parent_page_id = none;
  values = proof.values;
  next = proof.next_page_id;
  children = [];
}

abbrev pub child_of : Hash → ChildRef
child_of h = record { page_id = pos 0; hash = h }

-- The parent page of a step, with the hash of the selected child replaced.
unfoldable pub step_page : LocatorProofStep → Hash → Page
step_page step current = record {
  page_id = pos 0;
  hash = zero_hash;
  is_leaf = false;
  keys = step.keys;
  parent_page_id = none;
  values = [];
  next = none;
  children = map child_of (set step.child_hashes (pos_part step.child_index) current);
}

abbrev pub index_in_range : LocatorProofStep → Bool
index_in_range step =
    leb_ℤ (pos 0) step.child_index && ltb_ℤ step.child_index (pos (length step.child_hashes))

module _ ⦃sha : Sha256⦄ where
  abbrev pub leaf_current : Option Hash → Result LocatorError Hash
  leaf_current none = err panics
  leaf_current (some h) = ok h

  -- The loop over the path, from the hash of the child below.
  unfoldable pub reconstruct_path : List LocatorProofStep → Hash → Result LocatorError Hash
  reconstruct_path [] current = ok current
  reconstruct_path (step ∷ path) current = do
    guard (length step.child_hashes == length step.keys + 1) keys_and_child_hashes
    guard (index_in_range step) child_index_range
    reconstruct_path path (internal_hash (step_page step current))

  unfoldable pub reconstruct_locator_root : LocatorLeafProof → Result LocatorError Hash
  reconstruct_locator_root proof = do
    guard (length proof.keys == length proof.values) keys_and_values
    current ← leaf_current (leaf_hash (proof_leaf proof))
    reconstruct_path proof.path current

  -- The loop over the leaves.
  unfoldable pub verify_leaf_paths : List LocatorLeafProof → Hash → Result LocatorError (Unit {0})
  verify_leaf_paths [] root = ok tt
  verify_leaf_paths (leaf ∷ leaves) root = do
    reconstructed ← reconstruct_locator_root leaf
    guard (reconstructed =? root) root_mismatch
    verify_leaf_paths leaves root

  abbrev pub is_empty : {A : Type 0} → List A → Bool
  is_empty xs = length xs == 0

  unfoldable pub verify_locator_path_proofs :
      LocatorRangeProof → Hash → Result LocatorError (Unit {0})
  unfolding verify_leaf_paths
  verify_locator_path_proofs proof root = do
    guard (not (is_empty proof.leaves)) no_leaves
    verify_leaf_paths proof.leaves root
    guard (proof.reconstructed_root =? root) reported_root
