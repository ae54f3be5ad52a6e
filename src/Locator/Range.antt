-- ===== src/Locator/Range.antt =====
-- The checks of a range result: `VerifyLocatorRangeResult`, `VerifyLocatorQueryResult` and their
-- helpers of internal/all/locator_range.go.
pub mod Collect
pub mod Sound
pub mod Widen
use mathlib.Core.Option
use storage_aware_hmfaudit.Prelude.{
  ℕ, suc, ◌+◌, ◌-◌, ℤ, pos, List, [], ◌∷◌, ◌++◌, Option, none, some, length, Bool, true, false, not,
  ◌&&◌, ◌||◌, ltb, ltb_ℤ, leb_ℤ, ◌==◌, if◌then◌else◌, ◌=?◌, list_eq, nat_eq, int_eq, last_or,
  Result, ok, err, ◌>>=◌, ◌>>◌, guard,
}
use storage_aware_hmfaudit.Crypto.{Hash, Sha256}
use storage_aware_hmfaudit.Locator.Types.{
  LocatorKey, LocatorValue, LocatorQuery, LocatorEntry, LocatorProofStep, LocatorLeafProof,
  LocatorRangeProof, LocatorRangeResult, LocatorError, bounds_order, duplicate_leaf, tree_depth,
  keys_and_values, empty_leaf, no_leaves, not_consecutive, not_ordered, left_edge, right_edge,
  wrong_predecessor, wrong_successor, wrong_count, wrong_entry, panics,
}
use storage_aware_hmfaudit.Locator.Key.{compare, less}
use storage_aware_hmfaudit.Locator.Bounds.{bounds}
use storage_aware_hmfaudit.Locator.Entries.{
  flatten_proof_entries, Expected, classify_all, locator_entry_equal, optional_entry_equal,
}
use storage_aware_hmfaudit.Locator.Proof.{verify_locator_path_proofs}

-- `seenIDs[id]`
unfoldable pub is_seen : ℤ → List ℤ → Bool
is_seen id [] = false
is_seen id (other ∷ seen) = (other =? id) || is_seen id seen

-- `leaf.NextPageID == nil || *leaf.NextPageID != id`, negated
abbrev pub links_to : Option ℤ → ℤ → Bool
links_to none id = false
links_to (some next) id = next =? id

abbrev pub precedes : Option LocatorKey → LocatorKey → Bool
precedes none key = true
precedes (some previous) key = less previous key

-- The loop over the keys of a leaf, whose result is the last key.
unfoldable pub check_ordered :
    Option LocatorKey → List LocatorKey → Result LocatorError (Option LocatorKey)
check_ordered previous [] = ok previous
check_ordered previous (key ∷ keys) = do
  guard (precedes previous key) not_ordered
  check_ordered (some key) keys

abbrev pub links_next : LocatorLeafProof → List LocatorLeafProof → Bool
links_next leaf [] = true
links_next leaf (following ∷ rest) = links_to leaf.next_page_id following.page_id

-- The loop over the leaves: `many` says that there is more than one.
unfoldable pub check_leaves :
    Bool → ℕ → List ℤ → Option LocatorKey → List LocatorLeafProof → Result LocatorError (Unit {0})
check_leaves many height seen previous [] = ok tt
check_leaves many height seen previous (leaf ∷ leaves) = do
  guard (not (is_seen leaf.page_id seen)) duplicate_leaf
  guard (length leaf.path == height) tree_depth
  guard (length leaf.keys == length leaf.values) keys_and_values
  guard (not (many && (length leaf.keys == 0))) empty_leaf
  guard (links_next leaf leaves) not_consecutive
  last ← check_ordered previous leaf.keys
  check_leaves many height (leaf.page_id ∷ seen) last leaves

unfoldable pub verify_consecutive_leaf_proofs :
    List LocatorLeafProof → Result LocatorError (Unit {0})
verify_consecutive_leaf_proofs [] = err no_leaves
verify_consecutive_leaf_proofs (first ∷ rest) =
    check_leaves (ltb 1 (length (first ∷ rest))) (length first.path) [] none (first ∷ rest)

unfoldable pub is_leftmost_path : List LocatorProofStep → Bool
is_leftmost_path [] = true
is_leftmost_path (step ∷ path) = (step.child_index =? pos 0) && is_leftmost_path path

-- `len(step.ChildHashes)-1` is only read when there are child hashes.
unfoldable pub is_rightmost_path : List LocatorProofStep → Bool
is_rightmost_path [] = true
is_rightmost_path (step ∷ path) =
    not (length step.child_hashes == 0)
    && (step.child_index =? pos (length step.child_hashes - 1))
    && is_rightmost_path path

-- The loop over the expected entries, once the lengths are equal.
unfoldable pub check_entries :
    List LocatorEntry → List LocatorEntry → Result LocatorError (Unit {0})
check_entries (returned ∷ rest) (expected ∷ others) = do
  guard (locator_entry_equal returned expected) wrong_entry
  check_entries rest others
check_entries _ _ = ok tt

abbrev pub has_none : {A : Type 0} → Option A → Bool
has_none none = true
has_none (some a) = false

-- The boundary checks and the comparison of the result with what the proof holds.
unfoldable pub check_expected :
    LocatorRangeResult
    → LocatorLeafProof
    → LocatorLeafProof
    → Expected
    → Result LocatorError (Unit {0})
unfolding is_leftmost_path is_rightmost_path optional_entry_equal check_entries
check_expected result first last expected = do
  guard (not (has_none expected.predecessor) || is_leftmost_path first.path) left_edge
  guard
      (not (has_none expected.successor)
        || (has_none last.next_page_id && is_rightmost_path last.path))
      right_edge
  guard (optional_entry_equal result.predecessor expected.predecessor) wrong_predecessor
  guard (optional_entry_equal result.successor expected.successor) wrong_successor
  guard (length result.entries == length expected.matches) wrong_count
  check_entries result.entries expected.matches

-- `result.Proof.Leaves[0]`, and the last one.
abbrev pub check_proof_entries :
    LocatorKey
    → LocatorKey
    → LocatorRangeResult
    → List LocatorLeafProof
    → Option (List LocatorEntry)
    → Result LocatorError (Unit {0})
check_proof_entries lower upper result (first ∷ rest) (some entries) =
    check_expected result first (last_or rest first) (
      classify_all lower upper (record { matches = []; predecessor = none; successor = none })
        entries)
check_proof_entries lower upper result _ _ = err panics

module _ ⦃sha : Sha256⦄ where
  unfoldable pub verify_locator_range_result :
      LocatorKey → LocatorKey → LocatorRangeResult → Hash → Result LocatorError (Unit {0})
  unfolding verify_consecutive_leaf_proofs
  verify_locator_range_result lower upper result root = do
    guard (less lower upper) bounds_order
    verify_locator_path_proofs result.proof root
    verify_consecutive_leaf_proofs result.proof.leaves
    check_proof_entries lower upper result result.proof.leaves
        (flatten_proof_entries result.proof.leaves)

  unfoldable pub verify_locator_query_result :
      LocatorQuery → LocatorRangeResult → Hash → Result LocatorError (Unit {0})
  verify_locator_query_result query result root =
      bounds query >>= λ (range : LocatorKey × LocatorKey).
      verify_locator_range_result range.0 range.1 result root
