-- ===== src/Checkpoint/Finalize/Contents.antt =====
-- What the checks of `Finalize` say of the contents of the checkpoints they compare.
use storage_aware_hmfaudit.Prelude.{
  ◌+◌, ◌≡◌, refl, true, not, ◌&&◌, ℤ, pos, negsuc, ltb_ℤ, next_int64, pos_part, ok, guard-eq-ok,
  ◌=?◌, list_eq, nat_eq, int_eq, bytes_iff, int_iff, arith,
}
use storage_aware_hmfaudit.Crypto.{Bytes, Sha256}
use storage_aware_hmfaudit.Checkpoint.Types.{
  Time, is_zero, Status, wrong_system, missing_metadata, pending, finalized, unsupported,
  AnchorReceipt, Checkpoint,
}
use storage_aware_hmfaudit.Checkpoint.Validate.{
  is_empty, validate_receipt, validate_stored_checkpoint, with_finality, IsValid,
  with_finality-IsValid,
}
use storage_aware_hmfaudit.Checkpoint.Finalize.{is_finalized, max_int64, is_unchanged}

-- `c` has the identity and contents of `p`; only the finality may differ.
pub record SameContents (p c : Checkpoint) : Type 0 where
  pub id : c.id ≡ p.id
  pub sequence : c.sequence ≡ p.sequence
  pub locator_root : c.locator_root ≡ p.locator_root
  pub global_hmf_root : c.global_hmf_root ≡ p.global_hmf_root
  pub state_commitment : c.state_commitment ≡ p.state_commitment

pub SameContents-refl : (c : Checkpoint) → SameContents c c
SameContents-refl c = record {
  id = refl;
  sequence = refl;
  locator_root = refl;
  global_hmf_root = refl;
  state_commitment = refl;
}

pub is_finalized_lem : (s : Status) → is_finalized s ≡ true → s ≡ finalized
is_finalized_lem pending e = cc
is_finalized_lem finalized e = refl
is_finalized_lem (unsupported b) e = cc

pub is_unchanged_lem :
    (stored saved : Checkpoint)
    → is_unchanged stored saved ≡ true
    → (stored.sequence ≡ saved.sequence)
      × ((stored.locator_root ≡ saved.locator_root)
          × (stored.global_hmf_root ≡ saved.global_hmf_root))
unfolding is_unchanged
is_unchanged_lem stored saved e = ground (
  arith,
  int_iff stored.sequence saved.sequence,
  bytes_iff stored.locator_root saved.locator_root,
  bytes_iff stored.global_hmf_root saved.global_hmf_root,
)

next_of_positive :
    (s : ℤ)
    → ltb_ℤ (pos 0) s ≡ true
    → not (s =? max_int64) ≡ true
    → next_int64 s ≡ pos (pos_part s + 1)
next_of_positive (pos n) p room = ground arith
next_of_positive (negsuc n) p room = ground arith

module _ ⦃sha : Sha256⦄ where
  abbrev pub IsFinal : Bytes → Checkpoint → Type 0
  IsFinal system_id c = IsValid system_id c × (c.status ≡ finalized)

module _ ⦃sha : Sha256⦄ where
  pub anchored :
      (system_id : Bytes) (p : Checkpoint) (receipt : AnchorReceipt) (t : Time)
      → IsValid system_id p
      → validate_receipt receipt ≡ ok tt
      → IsFinal system_id (with_finality p receipt t) × SameContents p (with_finality p receipt t)
  unfolding with_finality
  anchored system_id p receipt t v checked = (
    (with_finality-IsValid system_id p receipt t v checked, refl),
    record {
      id = refl;
      sequence = refl;
      locator_root = refl;
      global_hmf_root = refl;
      state_commitment = refl;
    },
  )

  pub next_of_valid :
      (system_id : Bytes) (c : Checkpoint)
      → IsValid system_id c
      → not (c.sequence =? max_int64) ≡ true
      → next_int64 c.sequence ≡ pos (pos_part c.sequence + 1)
  unfolding validate_stored_checkpoint
  next_of_valid system_id c v room =
      let (_, e) = guard-eq-ok (c.system_id =? system_id) wrong_system _ v in
      let (whole, _) =
        guard-eq-ok
          (not (is_empty c.id)
            && (ltb_ℤ (pos 0) c.sequence
                && (not (is_empty c.locator_tree_id) && not (is_zero c.created_at))))
          missing_metadata _ e in
      next_of_positive c.sequence (ground arith) room
