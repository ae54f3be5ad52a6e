-- ===== src/Audit.antt =====
-- internal/services/audit.go: the requests of an auditor, each pinned to one checkpoint. The services
-- it calls are functions on a world `W` that they change; `V` is the type of the forest's proofs,
-- `F` that of the auditor's failed proof and `L` that of a localization.
pub mod Pinned
mod Tests
use storage_aware_hmfaudit.Prelude.{
  ◌≡◌, Bool, ◌&&◌, List, Option, none, some, ℤ, pos, ltb_ℤ, ◌=?◌, list_eq, nat_eq, int_eq, Result,
  ok, err, guard,
}
use storage_aware_hmfaudit.Prelude.Action.{Action, ◌>>=◌, lift, pure, call}
use storage_aware_hmfaudit.Crypto.{Bytes, Hash}
use storage_aware_hmfaudit.Checkpoint.Types.{Checkpoint}
use storage_aware_hmfaudit.Hpp.Types.{PhysicalAddress}
use storage_aware_hmfaudit.Locator.Types.{LocatorQuery, LocatorRangeResult}

-- An error of a service that was called, or one of its own: `ErrCheckpointChanged` is
-- `checkpoint_changed`.
pub data AuditError (E : Type 0) : Type 0 where
  service : E → AuditError E
  checkpoint_changed sequence_not_positive localization_unavailable : AuditError E

-- `localization.Request`
pub record LocalizationRequest (F : Type 0) : Type 0 where
  pub addresses : List PhysicalAddress
  pub auditor_global_root : Hash
  pub failed_proof : F
  pub anchored_global_root : Hash
  pub k : ℤ

-- `AuditService`: its four services, the last of which may be missing.
pub record AuditService (E W V F L : Type 0) : Type 0 where
  pub current : W → Result E Checkpoint × W
  pub resolve_locator_query : Bytes → Hash → LocatorQuery → W → Result E LocatorRangeResult × W
  pub build_and_verify : List PhysicalAddress → Hash → W → Result E V × W
  pub localize : Option (LocalizationRequest F → W → Result E L × W)

-- The three results: the checkpoint and what was computed against it.
pub record AuditResult (A : Type 0) : Type 0 where
  pub checkpoint : Checkpoint
  pub value : A

abbrev pub is_positive : ℤ → Bool
is_positive sequence = ltb_ℤ (pos 0) sequence

abbrev pub is_unchanged : Checkpoint → Checkpoint → Bool
is_unchanged current started =
    (current.sequence =? started.sequence) && (current.state_commitment =? started.state_commitment)

module _ {E W V F L : Type 0} (audit : AuditService E W V F L) where
  unfoldable pub ensure_still_current : Checkpoint → Action (AuditError E) W (Unit {0})
  ensure_still_current started = do
    current ← call service audit.current
    lift (guard (is_unchanged current started) checkpoint_changed)

  abbrev pub current_checkpoint : W → Result E Checkpoint × W
  current_checkpoint = audit.current

  unfoldable pub resolve_locator :
      LocatorQuery → Action (AuditError E) W (AuditResult LocatorRangeResult)
  unfolding ensure_still_current
  resolve_locator query = do
    trusted ← call service audit.current
    result ←
        call service
          (audit.resolve_locator_query trusted.locator_tree_id trusted.locator_root query)
    _ ← ensure_still_current trusted
    pure (record { checkpoint = trusted; value = result })

  unfoldable pub build_hmf_proof :
      ℤ → List PhysicalAddress → Action (AuditError E) W (AuditResult V)
  unfolding ensure_still_current
  build_hmf_proof sequence addresses = do
    _ ← lift (guard (is_positive sequence) sequence_not_positive)
    trusted ← call service audit.current
    _ ← lift (guard (trusted.sequence =? sequence) checkpoint_changed)
    result ← call service (audit.build_and_verify addresses trusted.global_hmf_root)
    _ ← ensure_still_current trusted
    pure (record { checkpoint = trusted; value = result })

  -- The request of a localization, with the root of the checkpoint.
  abbrev pub localize_request :
      Hash → F → List PhysicalAddress → ℤ → Checkpoint → LocalizationRequest F
  localize_request auditor_root proof addresses k trusted = record {
    addresses = addresses;
    auditor_global_root = auditor_root;
    failed_proof = proof;
    anchored_global_root = trusted.global_hmf_root;
    k = k;
  }

  abbrev localize_with :
      Option (LocalizationRequest F → W → Result E L × W)
      → ℤ
      → Hash
      → F
      → List PhysicalAddress
      → ℤ
      → Action (AuditError E) W (AuditResult L)
  localize_with none sequence auditor_root proof addresses k = lift (err localization_unavailable)
  localize_with (some localize) sequence auditor_root proof addresses k = do
    _ ← lift (guard (is_positive sequence) sequence_not_positive)
    trusted ← call service audit.current
    _ ← lift (guard (trusted.sequence =? sequence) checkpoint_changed)
    result ← call service (localize (localize_request auditor_root proof addresses k trusted))
    _ ← ensure_still_current trusted
    pure (record { checkpoint = trusted; value = result })

  unfoldable pub localize_tamper :
      ℤ → Hash → F → List PhysicalAddress → ℤ → Action (AuditError E) W (AuditResult L)
  localize_tamper sequence auditor_root proof addresses k =
      localize_with audit.localize sequence auditor_root proof addresses k
