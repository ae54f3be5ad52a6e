-- ===== src/Checkpoint/Validate.antt =====
-- The checks of internal/checkpoint/service.go on what a repository or an anchor returns.
use storage_aware_hmfaudit.Prelude.{
  ◌≡◌, Bool, not, ◌&&◌, [], Option, none, some, pos, ltb_ℤ, leb_ℤ, Result, ok, err, ◌>>◌, guard,
  guard-eq-ok, >>=-eq-ok, ◌=?◌, list_eq, nat_eq, is_some,
}
use storage_aware_hmfaudit.Crypto.{Bytes, Sha256}
use storage_aware_hmfaudit.Checkpoint.Types.{
  Time, is_zero, Status, pending, finalized, unsupported, AnchorReceipt, Checkpoint,
  CheckpointError, wrong_system, missing_metadata, pending_has_finality, lacks_finality,
  unsupported_status, empty_transaction, negative_height, empty_timestamp,
}
use storage_aware_hmfaudit.Checkpoint.Commitment.{verify_state_commitment}

-- `value == ""`
abbrev pub is_empty : Bytes → Bool
is_empty b = b =? []

-- `validateReceipt`
unfoldable pub validate_receipt : AnchorReceipt → Result CheckpointError (Unit {0})
validate_receipt receipt = do
  guard (not (is_empty receipt.transaction_hash)) empty_transaction
  guard (leb_ℤ (pos 0) receipt.block_height) negative_height
  guard (not (is_zero receipt.anchored_at)) empty_timestamp

-- The `switch value.Status`.
unfoldable pub validate_finality :
    Status → Option AnchorReceipt → Option Time → Result CheckpointError (Unit {0})
unfolding validate_receipt
validate_finality pending anchor finalized_at =
    guard (not (is_some anchor) && not (is_some finalized_at)) pending_has_finality
validate_finality finalized none finalized_at = err lacks_finality
validate_finality finalized (some receipt) none = err lacks_finality
validate_finality finalized (some receipt) (some t) = validate_receipt receipt
validate_finality (unsupported s) anchor finalized_at = err unsupported_status

-- The result of `anchorAndPublish` for a pending checkpoint.
unfoldable pub with_finality : Checkpoint → AnchorReceipt → Time → Checkpoint
with_finality pending_checkpoint receipt finalized_at = record pending_checkpoint {
  status = finalized;
  anchor = some receipt;
  finalized_at = some finalized_at;
}

module _ ⦃sha : Sha256⦄ where
  -- `validateStoredCheckpoint`
  unfoldable pub validate_stored_checkpoint : Checkpoint → Bytes → Result CheckpointError (Unit {0})
  unfolding verify_state_commitment validate_finality
  validate_stored_checkpoint value system_id = do
    guard (value.system_id =? system_id) wrong_system
    guard
        (not (is_empty value.id)
          && (ltb_ℤ (pos 0) value.sequence
              && (not (is_empty value.locator_tree_id) && not (is_zero value.created_at))))
        missing_metadata
    verify_state_commitment value
    validate_finality value.status value.anchor value.finalized_at

  -- The checkpoint passes every check, as one of `system_id`.
  abbrev pub IsValid : Bytes → Checkpoint → Type 0
  IsValid system_id value = validate_stored_checkpoint value system_id ≡ ok tt

  -- Anchoring a valid checkpoint with a valid receipt leaves a valid one.
  pub with_finality-IsValid :
      (system_id : Bytes) (c : Checkpoint) (receipt : AnchorReceipt) (t : Time)
      → IsValid system_id c
      → validate_receipt receipt ≡ ok tt
      → IsValid system_id (with_finality c receipt t)
  unfolding validate_stored_checkpoint with_finality
  with_finality-IsValid system_id c receipt t v r =
      let (a, e) = guard-eq-ok (c.system_id =? system_id) wrong_system _ v in
      let (b, f) =
        guard-eq-ok
          (not (is_empty c.id)
            && (ltb_ℤ (pos 0) c.sequence
                && (not (is_empty c.locator_tree_id) && not (is_zero c.created_at))))
          missing_metadata _ e in
      let (_, checked, _) = >>=-eq-ok (verify_state_commitment c) _ f in rw (a, b, checked) r
