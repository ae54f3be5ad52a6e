-- ===== src/Checkpoint/Action.antt =====
-- The calls that internal/checkpoint/service.go makes on its dependencies, over a world `W` that they
-- change.
use storage_aware_hmfaudit.Prelude.{Result, ok}
use storage_aware_hmfaudit.Prelude.Action.{Action, call as call_with}
use storage_aware_hmfaudit.Crypto.{Bytes, Hash}
use storage_aware_hmfaudit.Checkpoint.Types.{
  Time, Checkpoint, RootSnapshot, AnchorReceipt, PortError, CheckpointError, port,
}

-- `Repository`, `StateSource`, `Anchor` and the clock: any implementation of the interfaces.
pub record Ports (W : Type 0) : Type 0 where
  pub latest_checkpoint : Bytes → W → Result PortError Checkpoint × W
  pub current_finalized : Bytes → W → Result PortError Checkpoint × W
  pub save_pending : Checkpoint → W → Result PortError Checkpoint × W
  pub publish_finalized : Checkpoint → W → Result PortError (Unit {0}) × W
  pub snapshot : W → Result PortError RootSnapshot × W
  pub commit : Hash → W → Result PortError AnchorReceipt × W
  pub clock : W → Time × W

abbrev pub call : {W A : Type 0} → (W → Result PortError A × W) → Action CheckpointError W A
call method = call_with port method

abbrev pub time : {W : Type 0} → (W → Time × W) → Action CheckpointError W Time
time clock w = let (t, w') = clock w in (ok t, w')
