-- ===== src/Checkpoint/Tests.antt =====
-- Runs of the checkpoints at concrete inputs, over a repository that keeps one latest and one current
-- checkpoint.
use storage_aware_hmfaudit.Prelude
use storage_aware_hmfaudit.Prelude.{
  ℕ, ◌+◌, ◌≡◌, refl, ◌⊎◌, false, [], Option, none, some, arith, ℤ, pos, Result, ok, err, Yields,
  value_or,
}
use storage_aware_hmfaudit.Crypto
use storage_aware_hmfaudit.Crypto.{Hash, Collision}
use storage_aware_hmfaudit.Crypto.Sample.{sample_sha, hash_of, eu}
use storage_aware_hmfaudit.Checkpoint.Types.{Checkpoint, CheckpointError, PortError, not_found}
use storage_aware_hmfaudit.Checkpoint.Commitment.{state_commitment, state_commitment_binds}
use storage_aware_hmfaudit.Checkpoint.Validate.{validate_receipt}
use storage_aware_hmfaudit.Checkpoint.MockAnchor.{
  MockAnchor, new_mock_anchor, receipt, commit, commit_idempotent, IsLedger,
  new_mock_anchor-IsLedger, commit-IsLedger,
}
use storage_aware_hmfaudit.Prelude.Action
use storage_aware_hmfaudit.Prelude.Action.{Ends}
use storage_aware_hmfaudit.Checkpoint.Action.{Ports}
use storage_aware_hmfaudit.Checkpoint.Finalize.{finalize, read_current}
use storage_aware_hmfaudit.Checkpoint.Finalize.Contents.{IsFinal}
use storage_aware_hmfaudit.Checkpoint.Finalize.Outcome.{
  Follows, finalize-Follows, read_current-IsFinal,
}

abbrev commitment_three : Hash
unfolding state_commitment
commitment_three = value_or [] (state_commitment (pos 3) (hash_of 1) (hash_of 2))

commitment_three_lem : state_commitment (pos 3) (hash_of 1) (hash_of 2) ≡ ok commitment_three
unfolding commitment_three
commitment_three_lem = refl

state_commitment_binds_example :
    Collision ⊎ ((pos 3 ≡ pos 3) × ((hash_of 1 ≡ hash_of 1) × (hash_of 2 ≡ hash_of 2)))
state_commitment_binds_example =
    state_commitment_binds (pos 3) (pos 3) (hash_of 1) (hash_of 2) (hash_of 1) (hash_of 2)
      commitment_three (omega arith) (omega arith) refl refl commitment_three_lem
      commitment_three_lem

commit_idempotent_example :
    let first = commit false (pos 9) (new_mock_anchor (pos 5)) (hash_of 1) in
    (receipt first.1 (hash_of 1) ≡ (elim first.0 [ ok r ↦ some r | err e ↦ none ]))
    × (commit false (pos 12) first.1 (hash_of 1) ≡ first)
commit_idempotent_example = commit_idempotent (pos 9) (pos 12) (new_mock_anchor (pos 5)) (hash_of 1)

commit-IsLedger_example :
    let done = commit false (pos 9) (new_mock_anchor (pos 5)) (hash_of 1) in
    Yields (λ r. validate_receipt r ≡ ok tt) done.0 × IsLedger 5 done.1
unfolding new_mock_anchor
commit-IsLedger_example =
    commit-IsLedger 5 (pos 9) (new_mock_anchor (pos 5)) (hash_of 1) (new_mock_anchor-IsLedger 5)
      refl (omega arith)

record World : Type 0 where
  latest : Option Checkpoint
  current : Option Checkpoint
  anchor : MockAnchor
  now : ℕ

abbrev found : Option Checkpoint → Result PortError Checkpoint
found none = err not_found
found (some c) = ok c

-- A repository that names every checkpoint "eu", in front of the mock anchor.
abbrev small_ports : Ports World
small_ports = record {
  latest_checkpoint = λ system_id w. (found w.latest, w);
  current_finalized = λ system_id w. (found w.current, w);
  save_pending =
      λ c w. let stored = record c { id = eu } in (ok stored, record w { latest = some stored });
  publish_finalized = λ c w. (ok tt, record w { latest = some c; current = some c });
  snapshot = λ w. (
    ok (record { locator_tree_id = eu; locator_root = hash_of 1; global_hmf_root = hash_of 2 }),
    w,
  );
  commit = λ commitment w.
      let (r, anchor) = commit false (pos w.now) w.anchor commitment in
      (r, record w { anchor = anchor });
  clock = λ w. (pos w.now, record w { now = w.now + 1 });
}

abbrev empty_world : World
empty_world = record { latest = none; current = none; anchor = new_mock_anchor (pos 5); now = 1 }

finalize-Follows_example :
    Ends
      (λ c. IsFinal eu c × Follows small_ports (small_ports.latest_checkpoint eu empty_world).0 c)
      (finalize small_ports eu empty_world)
finalize-Follows_example = finalize-Follows small_ports eu empty_world

abbrev number_of : Result CheckpointError Checkpoint × World → Option ℤ
number_of (ok c, w) = some c.sequence
number_of (err e, w) = none

-- The first run creates checkpoint 1, the second checkpoint 2.
first_number : number_of (finalize small_ports eu empty_world) ≡ some (pos 1)
unfolding finalize Action.◌>>=◌ Crypto.big_endian Prelude.lookup Prelude.insert Crypto.write_int64
    Crypto.to_uint64 commit new_mock_anchor
first_number = refl

second_number :
    number_of (finalize small_ports eu (finalize small_ports eu empty_world).1) ≡ some (pos 2)
unfolding finalize Action.◌>>=◌ Crypto.big_endian Prelude.lookup Prelude.insert Crypto.write_int64
    Crypto.to_uint64 commit new_mock_anchor
second_number = refl

read_current-IsFinal_example :
    let w = (finalize small_ports eu empty_world).1 in
    Ends
      (λ c. IsFinal eu c × ((small_ports.current_finalized eu w).0 ≡ ok c))
      (read_current small_ports eu w)
read_current-IsFinal_example =
    read_current-IsFinal small_ports eu (finalize small_ports eu empty_world).1
