-- ===== src/Audit/Tests.antt =====
-- Runs of the audit service over services that answer at once; the world counts the calls.
use storage_aware_hmfaudit.Prelude.{ℕ, ◌+◌, ℤ, pos, ◌≡◌, refl, ◌↔◌, [], none, some, ok}
use storage_aware_hmfaudit.Prelude.Action
use storage_aware_hmfaudit.Crypto.{Hash, zero_hash}
use storage_aware_hmfaudit.Crypto.Sample.{hash_of, eu}
use storage_aware_hmfaudit.Checkpoint.Types.{Checkpoint, finalized, PortError}
use storage_aware_hmfaudit.Locator.Types.{LocatorQuery, LocatorRangeResult}
use storage_aware_hmfaudit.Audit.{AuditService, resolve_locator, build_hmf_proof}
use storage_aware_hmfaudit.Audit.Pinned.{
  IsPinned, IsPinnedAt, resolve_locator_iff, build_hmf_proof_iff,
}

abbrev third : Checkpoint
third = record {
  id = eu;
  system_id = eu;
  sequence = pos 3;
  locator_tree_id = eu;
  locator_root = hash_of 1;
  global_hmf_root = hash_of 2;
  state_commitment = hash_of 3;
  status = finalized;
  anchor = none;
  created_at = pos 1;
  finalized_at = none;
}

abbrev empty_range : LocatorRangeResult
empty_range = record {
  entries = [];
  predecessor = none;
  successor = none;
  proof = record { leaves = []; reconstructed_root = zero_hash };
}

-- A forest proof is the root it was verified against, and a localization the request's number.
abbrev quick_audit : AuditService PortError ℕ Hash ℕ ℤ
quick_audit = record {
  current = λ calls. (ok third, calls + 1);
  resolve_locator_query = λ tree root query calls. (ok empty_range, calls + 1);
  build_and_verify = λ addresses root calls. (ok root, calls + 1);
  localize = some (λ request calls. (ok request.k, calls + 1));
}

abbrev any_query : LocatorQuery
any_query = record {
  tenant_id = eu;
  service_id = eu;
  log_type = eu;
  region_id = eu;
  start_time = pos 1;
  end_time = pos 2;
}

resolve_locator_iff_example :
    (resolve_locator quick_audit any_query 0
      ≡ (ok (record { checkpoint = third; value = empty_range }), 3))
    ↔ IsPinned quick_audit
        (λ trusted.
          quick_audit.resolve_locator_query trusted.locator_tree_id trusted.locator_root any_query)
        0
        3
        (record { checkpoint = third; value = empty_range })
resolve_locator_iff_example =
    resolve_locator_iff quick_audit any_query 0 3
      (record { checkpoint = third; value = empty_range })

build_hmf_proof_iff_example :
    (build_hmf_proof quick_audit (pos 3) [] 0
      ≡ (ok (record { checkpoint = third; value = hash_of 2 }), 3))
    ↔ IsPinnedAt quick_audit
        (λ trusted. quick_audit.build_and_verify [] trusted.global_hmf_root)
        (pos 3)
        0
        3
        (record { checkpoint = third; value = hash_of 2 })
build_hmf_proof_iff_example =
    build_hmf_proof_iff quick_audit (pos 3) [] 0 3
      (record { checkpoint = third; value = hash_of 2 })

third-resolved :
    resolve_locator quick_audit any_query 0
    ≡ (ok (record { checkpoint = third; value = empty_range }), 3)
unfolding resolve_locator Action.◌>>=◌
third-resolved = refl
