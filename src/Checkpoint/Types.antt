-- ===== src/Checkpoint/Types.antt =====
-- internal/checkpoint/types.go. A time is the number of nanoseconds since Go's zero time, which
-- `UTC` does not change.
use storage_aware_hmfaudit.Prelude.{Option, ℤ, pos, Bool, ◌=?◌, int_eq}
use storage_aware_hmfaudit.Crypto.{Bytes, Hash}

abbrev pub Time : Type 0
Time = ℤ

-- `IsZero`
abbrev pub is_zero : Time → Bool
is_zero t = t =? pos 0

-- `Status`; a string that is neither constant is `unsupported`.
pub data Status : Type 0 where
  pending finalized : Status
  unsupported : Bytes → Status

pub record RootSnapshot : Type 0 where
  pub locator_tree_id : Bytes
  pub locator_root : Hash
  pub global_hmf_root : Hash

pub record AnchorReceipt : Type 0 where
  pub transaction_hash : Bytes
  pub block_height : ℤ
  pub anchored_at : Time

pub record Checkpoint : Type 0 where
  pub id : Bytes
  pub system_id : Bytes
  pub sequence : ℤ
  pub locator_tree_id : Bytes
  pub locator_root : Hash
  pub global_hmf_root : Hash
  pub state_commitment : Hash
  pub status : Status
  pub anchor : Option AnchorReceipt
  pub created_at : Time
  pub finalized_at : Option Time

-- What a repository, a state source or an anchor answers: `ErrNotFound` or another error.
pub data PortError : Type 0 where
  not_found failed : PortError

-- One value for every error text of the package.
pub data CheckpointError : Type 0 where
  sequence_not_positive commitment_mismatch wrong_system missing_metadata pending_has_finality
        lacks_finality unsupported_status empty_transaction negative_height empty_timestamp
        current_not_finalized current_exceeds_latest current_conflicts sequence_exhausted
        no_locator_tree pending_changed :
      CheckpointError
  port : PortError → CheckpointError
