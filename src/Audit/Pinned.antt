-- ===== src/Audit/Pinned.antt =====
-- An audit result stands on one checkpoint, current before and after the work.
use storage_aware_hmfaudit.Prelude.{
  ◌≡◌, refl, subst, guard-passed, sym, ap, ◌∙◌, ◌↔◌, true, List, ℤ, ◌=?◌, list_eq, nat_eq, int_eq,
  bytes_iff, int_iff, arith, Result, ok, guard,
}
use storage_aware_hmfaudit.Prelude.Action.{
  Action, ◌>>=◌, lift, pure, call, call-eq-ok, call-ok, bind-eq-ok, bind-ok, guard-bind-eq-ok,
  guard-bind-ok,
}
use storage_aware_hmfaudit.Checkpoint.Types.{Checkpoint}
use storage_aware_hmfaudit.Hpp.Types.{PhysicalAddress}
use storage_aware_hmfaudit.Locator.Types.{LocatorQuery, LocatorRangeResult}
use storage_aware_hmfaudit.Audit.{
  AuditError, service, checkpoint_changed, sequence_not_positive, AuditService, AuditResult,
  is_unchanged, is_positive, ensure_still_current, resolve_locator, build_hmf_proof,
}

-- A run from the world `w` to `w'`: some checkpoint is current, the work is done against it, and
-- afterwards a checkpoint with the same number and commitment is current.
pub record IsPinned {E W V F L A : Type 0} (audit : AuditService E W V F L)
    (work : Checkpoint → W → Result E A × W) (w w' : W) (result : AuditResult A) : Type 0 where
  pub started : W
  pub worked : W
  pub confirmed : Checkpoint
  pub before : audit.current w ≡ (ok result.checkpoint, started)
  pub computed : work result.checkpoint started ≡ (ok result.value, worked)
  pub after : audit.current worked ≡ (ok confirmed, w')
  pub same_sequence : confirmed.sequence ≡ result.checkpoint.sequence
  pub same_commitment : confirmed.state_commitment ≡ result.checkpoint.state_commitment

ok_inj : {E A : Type 0} {a b : A} → ◌≡◌ {A = Result E A} (ok a) (ok b) → a ≡ b
ok_inj e = cc

module _ {E W V F L : Type 0} (audit : AuditService E W V F L) where
  -- What follows once the work returned.
  abbrev finish : {A : Type 0} → Checkpoint → A → Action (AuditError E) W (AuditResult A)
  finish trusted result = ensure_still_current audit trusted >>= λ _.
      pure (record { checkpoint = trusted; value = result })

  abbrev finish_work :
      {A : Type 0}
      → (Checkpoint → W → Result E A × W)
      → Checkpoint
      → Action (AuditError E) W (AuditResult A)
  finish_work work trusted = call service (work trusted) >>= λ result. finish trusted result

  ensured :
      (trusted : Checkpoint) (v u : W)
      → ensure_still_current audit trusted v ≡ (ok tt, u)
      → (confirmed : Checkpoint) × (audit.current v ≡ (ok confirmed, u))
        × (is_unchanged confirmed trusted ≡ true)
  unfolding ensure_still_current
  ensured trusted v u e =
      let (confirmed, x, read, tested) = bind-eq-ok (call service audit.current) _ v u tt e in
      let passed =
        guard-passed (is_unchanged confirmed trusted) checkpoint_changed
          (ap (λ (r : Result (AuditError E) (Unit {0}) × W). r.0) tested) in
      let same : x ≡ u = ap (λ (r : Result (AuditError E) (Unit {0}) × W). r.1) tested in
      (
        confirmed,
        call-eq-ok service audit.current v x confirmed read
            ∙ ap (λ (s : W). (ok confirmed, s)) same,
        passed,
      )

  work_done :
      {A : Type 0} (work : Checkpoint → W → Result E A × W) (trusted : Checkpoint) (w v w' : W)
      (result : AuditResult A)
      → audit.current w ≡ (ok trusted, v)
      → finish_work work trusted v ≡ (ok result, w')
      → IsPinned audit work w w' result
  work_done {A = A} work trusted w v w' result before e =
      let (value, worked, computed, e1) =
        bind-eq-ok (call service (work trusted)) _ v w' result e in
      let (unit, u, checked, e2) =
        bind-eq-ok (ensure_still_current audit trusted) _ worked w' result e1 in
      let (confirmed, after, unchanged) = ensured trusted worked u checked in
      let shape : ◌≡◌ {A = AuditResult A} (record { checkpoint = trusted; value = value }) result =
        cc in
      let same : u ≡ w' = ap (λ (r : Result (AuditError E) (AuditResult A) × W). r.1) e2 in
      subst (IsPinned audit work w w') shape (record {
        started = v;
        worked = worked;
        confirmed = confirmed;
        before = before;
        computed = call-eq-ok service (work trusted) v worked value computed;
        after = after ∙ ap (λ (s : W). (ok confirmed, s)) same;
        same_sequence = ground (arith, int_iff confirmed.sequence trusted.sequence);
        same_commitment =
            ground (arith, bytes_iff confirmed.state_commitment trusted.state_commitment);
      })

  done_work :
      {A : Type 0} (work : Checkpoint → W → Result E A × W) (w w' : W) (result : AuditResult A)
      (run : IsPinned audit work w w' result)
      → finish_work work result.checkpoint run.started ≡ (ok result, w')
  unfolding ensure_still_current
  done_work work w w' result run =
      let unchanged : is_unchanged run.confirmed result.checkpoint ≡ true = ground (
        arith,
        int_iff run.confirmed.sequence result.checkpoint.sequence,
        bytes_iff run.confirmed.state_commitment result.checkpoint.state_commitment,
      ) in
      bind-ok (call service (work result.checkpoint)) _ run.started run.worked result.value
        (call-ok service (work result.checkpoint) run.started run.worked result.value run.computed)
      ∙ bind-ok (ensure_still_current audit result.checkpoint) _ run.worked w' tt (
          bind-ok (call service audit.current) _ run.worked w' run.confirmed
            (call-ok service audit.current run.worked w' run.confirmed run.after)
          ∙ rw unchanged refl)

  -- A resolved locator range, up to the world it leaves: the locator was asked for the query with
  -- the tree and the root of one checkpoint, which is current before the call and, by number and
  -- commitment, after it; and every such run returns its result.
  pub resolve_locator_iff :
      (query : LocatorQuery) (w w' : W) (result : AuditResult LocatorRangeResult)
      → (resolve_locator audit query w ≡ (ok result, w'))
        ↔ IsPinned audit
            (λ trusted.
              audit.resolve_locator_query trusted.locator_tree_id trusted.locator_root query)
            w
            w'
            result
  unfolding resolve_locator
  resolve_locator_iff query w w' result = (
    λ e.
        let (trusted, v, found, rest) = bind-eq-ok (call service audit.current) _ w w' result e in
        work_done _ trusted w v w' result (call-eq-ok service audit.current w v trusted found) rest,
    λ run.
        bind-ok (call service audit.current) _ w run.started result.checkpoint
          (call-ok service audit.current w run.started result.checkpoint run.before)
        ∙ done_work _ w w' result run,
  )

  -- Work against the checkpoint with the given number.
  abbrev at_sequence :
      {A : Type 0} → (Checkpoint → W → Result E A × W) → ℤ → Action (AuditError E) W (AuditResult A)
  at_sequence work sequence = lift (guard (is_positive sequence) sequence_not_positive) >>= λ _.
      call service audit.current >>= λ trusted.
      lift (guard (trusted.sequence =? sequence) checkpoint_changed) >>= λ _.
      finish_work work trusted

  abbrev pub IsPinnedAt :
      {A : Type 0} → (Checkpoint → W → Result E A × W) → ℤ → W → W → AuditResult A → Type 0
  IsPinnedAt work sequence w w' result =
      (is_positive sequence ≡ true)
      × (result.checkpoint.sequence ≡ sequence)
      × IsPinned audit work w w' result

  at_sequence_iff :
      {A : Type 0} (work : Checkpoint → W → Result E A × W) (sequence : ℤ) (w w' : W)
      (result : AuditResult A)
      → (at_sequence work sequence w ≡ (ok result, w')) ↔ IsPinnedAt work sequence w w' result
  at_sequence_iff {A = A} work sequence w w' result = (
    λ e.
        let (positive, e1) =
          guard-bind-eq-ok (is_positive sequence) sequence_not_positive _ w w' result e in
        let (trusted, v, found, e2) = bind-eq-ok (call service audit.current) _ w w' result e1 in
        let (asked, e3) =
          guard-bind-eq-ok (trusted.sequence =? sequence) checkpoint_changed _ v w' result e2 in
        let before = call-eq-ok service audit.current w v trusted found in
        let run = work_done work trusted w v w' result before e3 in
        let same : result.checkpoint ≡ trusted =
          ok_inj (ap (λ (r : Result E Checkpoint × W). r.0) (sym run.before ∙ before)) in
        (positive, ap Checkpoint.sequence same ∙ (int_iff trusted.sequence sequence).0 asked, run),
    λ (positive, asked, run).
        guard-bind-ok (is_positive sequence) sequence_not_positive _ w positive
        ∙ (bind-ok (call service audit.current) _ w run.started result.checkpoint
              (call-ok service audit.current w run.started result.checkpoint run.before)
            ∙ (guard-bind-ok (result.checkpoint.sequence =? sequence) checkpoint_changed _
                  run.started ((int_iff result.checkpoint.sequence sequence).1 asked)
                ∙ done_work work w w' result run)),
  )

  -- A forest proof, up to the world it leaves: the sequence asked for is positive and the number of a
  -- checkpoint that is current before and after the call, by number and commitment, and the proof
  -- was built and verified against the forest's root in that checkpoint; and every such run returns
  -- its result.
  pub build_hmf_proof_iff :
      (sequence : ℤ) (addresses : List PhysicalAddress) (w w' : W) (result : AuditResult V)
      → (build_hmf_proof audit sequence addresses w ≡ (ok result, w'))
        ↔ IsPinnedAt
            (λ trusted. audit.build_and_verify addresses trusted.global_hmf_root)
            sequence
            w
            w'
            result
  unfolding build_hmf_proof
  build_hmf_proof_iff sequence addresses w w' result = at_sequence_iff _ sequence w w' result
