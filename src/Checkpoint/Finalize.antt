-- ===== src/Checkpoint/Finalize.antt =====
-- `Finalize` and `anchorAndPublish` of internal/checkpoint/service.go, run while the service's lock is
-- held, and the readers of the published checkpoint (`Current`, internal/checkpoint/reader.go).
pub mod Contents
pub mod Outcome
use storage_aware_hmfaudit.Prelude.{
  ℕ, ◌-◌, ◌^◌, Bool, true, false, not, ◌&&◌, ◌||◌, if◌then◌else◌, [], ◌∷◌, Option, none, some, ℤ,
  pos, negsuc, ltb_ℤ, leb_ℤ, next_int64, Result, ok, err, guard, ◌=?◌, list_eq, nat_eq, int_eq,
  is_some,
}
use storage_aware_hmfaudit.Crypto.{Bytes, Hash, Sha256}
use storage_aware_hmfaudit.Checkpoint.Types.{
  Time, Status, pending, finalized, unsupported, RootSnapshot, AnchorReceipt, Checkpoint, PortError,
  not_found, failed, CheckpointError, unsupported_status, current_not_finalized,
  current_exceeds_latest, current_conflicts, sequence_exhausted, no_locator_tree, pending_changed,
  port,
}
use storage_aware_hmfaudit.Checkpoint.Commitment.{state_commitment}
use storage_aware_hmfaudit.Checkpoint.Validate.{
  is_empty, validate_receipt, validate_stored_checkpoint, with_finality,
}
use storage_aware_hmfaudit.Prelude.Action.{Action, ◌>>=◌, lift, pure}
use storage_aware_hmfaudit.Checkpoint.Action.{Ports, call, time}

abbrev pub is_pending : Status → Bool
is_pending pending = true
is_pending _ = false

abbrev pub is_finalized : Status → Bool
is_finalized finalized = true
is_finalized _ = false

abbrev pub max_int64 : ℤ
max_int64 = pos (2 ^ 63 - 1)

-- The checkpoint that is saved before it is anchored; the repository gives it its identifier.
unfoldable pub pending_checkpoint : Bytes → ℤ → RootSnapshot → Hash → Time → Checkpoint
pending_checkpoint system_id sequence snapshot commitment created_at = record {
  id = [];
  system_id = system_id;
  sequence = sequence;
  locator_tree_id = snapshot.locator_tree_id;
  locator_root = snapshot.locator_root;
  global_hmf_root = snapshot.global_hmf_root;
  state_commitment = commitment;
  status = pending;
  anchor = none;
  created_at = created_at;
  finalized_at = none;
}

-- The stored checkpoint is still pending and has the contents that were saved.
unfoldable pub is_unchanged : Checkpoint → Checkpoint → Bool
is_unchanged stored saved =
    is_pending stored.status
    && ((stored.sequence =? saved.sequence)
        && ((stored.locator_tree_id =? saved.locator_tree_id)
            && ((stored.locator_root =? saved.locator_root)
                && ((stored.global_hmf_root =? saved.global_hmf_root)
                    && (stored.state_commitment =? saved.state_commitment)))))

module _ ⦃sha : Sha256⦄ {W : Type 0} (ports : Ports W) where
  -- `anchorAndPublish`
  unfoldable pub anchor_and_publish : Checkpoint → W → Result CheckpointError Checkpoint × W
  unfolding with_finality validate_receipt
  anchor_and_publish saved = do
    receipt ← call (ports.commit saved.state_commitment)
    _ ← lift (validate_receipt receipt)
    finalized_at ← time ports.clock
    let result = with_finality saved receipt finalized_at
    _ ← call (ports.publish_finalized result)
    pure result

  -- From the snapshot on: a new checkpoint after the sequence number `last`.
  unfoldable pub create_next : Bytes → ℤ → W → Result CheckpointError Checkpoint × W
  unfolding anchor_and_publish pending_checkpoint is_unchanged validate_stored_checkpoint
  create_next system_id last = do
    snapshot ← call ports.snapshot
    _ ← lift (guard (not (is_empty snapshot.locator_tree_id)) no_locator_tree)
    let sequence = next_int64 last
    commitment ← lift (state_commitment sequence snapshot.locator_root snapshot.global_hmf_root)
    created_at ← time ports.clock
    let saved = pending_checkpoint system_id sequence snapshot commitment created_at
    stored ← call (ports.save_pending saved)
    _ ← lift (validate_stored_checkpoint stored system_id)
    _ ← lift (guard (is_unchanged stored saved) pending_changed)
    anchor_and_publish stored

  -- The latest checkpoint is published where the current one lags behind it.
  unfoldable pub recover : Checkpoint → W → Result CheckpointError Checkpoint × W
  recover latest = do _ ← call (ports.publish_finalized latest); pure latest

  -- The checks of the current checkpoint against the latest one, and what follows them.
  unfoldable pub after_current :
      Bytes → Checkpoint → Result PortError Checkpoint → W → Result CheckpointError Checkpoint × W
  unfolding recover create_next
  after_current system_id latest (err not_found) = recover latest
  after_current system_id latest (err failed) = lift (err (port failed))
  after_current system_id latest (ok current) = do
    _ ← lift (validate_stored_checkpoint current system_id)
    _ ← lift (guard (is_finalized current.status) current_not_finalized)
    _ ← lift (guard (leb_ℤ current.sequence latest.sequence) current_exceeds_latest)
    _ ← lift (
        guard
          (not (current.sequence =? latest.sequence)
            || (current.state_commitment =? latest.state_commitment))
          current_conflicts)
    if ltb_ℤ current.sequence latest.sequence
        then recover latest
        else lift (guard (not (latest.sequence =? max_int64)) sequence_exhausted) >>= λ _.
            create_next system_id latest.sequence

  -- The switch over what `LatestCheckpoint` returned.
  unfoldable pub after_latest :
      Bytes → Result PortError Checkpoint → W → Result CheckpointError Checkpoint × W
  unfolding after_current
  after_latest system_id (err not_found) = create_next system_id (pos 0)
  after_latest system_id (err failed) = lift (err (port failed))
  after_latest system_id (ok latest) = do
    _ ← lift (validate_stored_checkpoint latest system_id)
    if is_pending latest.status
        then anchor_and_publish latest
        else lift (guard (is_finalized latest.status) unsupported_status) >>= λ _ w.
            let (current, w') = ports.current_finalized system_id w in
            after_current system_id latest current w'

  -- `Finalize`
  unfoldable pub finalize : Bytes → W → Result CheckpointError Checkpoint × W
  unfolding after_latest
  finalize system_id w =
      let (latest, w') = ports.latest_checkpoint system_id w in after_latest system_id latest w'

  -- `readCurrent`, which `Service.Current` and `Reader.Current` call.
  unfoldable pub read_current : Bytes → W → Result CheckpointError Checkpoint × W
  read_current system_id = do
    value ← call (ports.current_finalized system_id)
    _ ← lift (validate_stored_checkpoint value system_id)
    _ ← lift (
        guard (is_finalized value.status && (is_some value.anchor && is_some value.finalized_at))
          current_not_finalized)
    pure value
