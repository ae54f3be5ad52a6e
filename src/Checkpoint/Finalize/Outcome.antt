-- ===== src/Checkpoint/Finalize/Outcome.antt =====
-- What a successful `Finalize` returned, whatever its dependencies answered.
use storage_aware_hmfaudit.Prelude.{
  ◌+◌, ◌≡◌, ◌⊎◌, inl, inr, ap, ◌∙◌, true, not, ◌&&◌, ◌||◌, Bool-cases, ℤ, pos, ltb_ℤ, leb_ℤ,
  next_int64, pos_part, is_some, Result, ok, err, ◌=?◌, list_eq, nat_eq, int_eq, arith,
}
use storage_aware_hmfaudit.Crypto.{Bytes, Sha256}
use storage_aware_hmfaudit.Checkpoint.Types.{
  finalized, RootSnapshot, Checkpoint, PortError, not_found, failed, unsupported_status,
  current_not_finalized, current_exceeds_latest, current_conflicts, sequence_exhausted,
  no_locator_tree, pending_changed,
}
use storage_aware_hmfaudit.Checkpoint.Commitment.{state_commitment}
use storage_aware_hmfaudit.Checkpoint.Validate.{
  is_empty, validate_receipt, validate_stored_checkpoint, with_finality, IsValid,
}
use storage_aware_hmfaudit.Prelude.Action.{
  Ends, Ends-map, Ends-bind, Ends-check, Ends-guard, call-eq-ok,
}
use storage_aware_hmfaudit.Checkpoint.Types.{port}
use storage_aware_hmfaudit.Checkpoint.Action.{Ports, call, time}
use storage_aware_hmfaudit.Checkpoint.Finalize.Contents.{
  IsFinal, SameContents, SameContents-refl, is_finalized_lem, is_unchanged_lem, anchored,
  next_of_valid,
}
use storage_aware_hmfaudit.Checkpoint.Finalize.{
  is_pending, is_finalized, max_int64, pending_checkpoint, is_unchanged, anchor_and_publish,
  create_next, recover, after_current, after_latest, finalize, read_current,
}

module _ ⦃sha : Sha256⦄ {W : Type 0} (ports : Ports W) where
  -- The new checkpoint after the sequence number `last`: the next number, and the roots of the one
  -- snapshot that was taken.
  pub record IsNext (last : ℤ) (w : W) (c : Checkpoint) : Type 0 where
    pub taken : RootSnapshot
    pub after : W
    pub snapshot : ports.snapshot w ≡ (ok taken, after)
    pub sequence : c.sequence ≡ next_int64 last
    pub locator_root : c.locator_root ≡ taken.locator_root
    pub global_hmf_root : c.global_hmf_root ≡ taken.global_hmf_root

  anchor_and_publish-IsFinal :
      (system_id : Bytes) (p : Checkpoint) (w : W)
      → IsValid system_id p
      → Ends (λ c. IsFinal system_id c × SameContents p c) (anchor_and_publish ports p w)
  unfolding anchor_and_publish
  anchor_and_publish-IsFinal system_id p w v =
      let P : Checkpoint → Type 0 = λ c. IsFinal system_id c × SameContents p c in
      Ends-bind P (call (ports.commit p.state_commitment)) _ w λ receipt w1 _.
        Ends-check P (validate_receipt receipt) _ w1 λ _ checked.
          Ends-bind P (time ports.clock) _ w1 λ t w2 _.
            Ends-bind P (call (ports.publish_finalized (with_finality p receipt t))) _ w2
              λ _ w3 _. anchored system_id p receipt t v checked

  create_next-IsFinal :
      (system_id : Bytes) (last : ℤ) (w : W)
      → Ends (λ c. IsFinal system_id c × IsNext last w c) (create_next ports system_id last w)
  unfolding create_next pending_checkpoint is_unchanged
  create_next-IsFinal system_id last w =
      let P : Checkpoint → Type 0 = λ c. IsFinal system_id c × IsNext last w c in
      Ends-bind P (call ports.snapshot) _ w λ taken w1 snap.
        Ends-guard P (not (is_empty taken.locator_tree_id)) no_locator_tree _ w1 λ named.
          Ends-check P (state_commitment (next_int64 last) taken.locator_root taken.global_hmf_root)
            _ w1
            λ commitment _. Ends-bind P (time ports.clock) _ w1 λ created_at w2 _.
              let saved =
                pending_checkpoint system_id (next_int64 last) taken commitment created_at in
              Ends-bind P (call (ports.save_pending saved)) _ w2 λ stored w3 _.
                Ends-check P (validate_stored_checkpoint stored system_id) _ w3 λ _ valid.
                  Ends-guard P (is_unchanged stored saved) pending_changed _ w3 λ same.
                    Ends-map (λ c. IsFinal system_id c × SameContents stored c) P _
                      (anchor_and_publish-IsFinal system_id stored w3 valid)
                      λ c (final, kept). (
                        final,
                        let (number, (locator, global)) = is_unchanged_lem stored saved same in
                            record {
                              taken = taken;
                              after = w1;
                              snapshot = call-eq-ok port ports.snapshot w w1 taken snap;
                              sequence = kept.sequence ∙ number;
                              locator_root = kept.locator_root ∙ locator;
                              global_hmf_root = kept.global_hmf_root ∙ global;
                            },
                      )

  -- What the checkpoint `c` is to the answer about the latest one: the first, the same one with its
  -- finality, or the next.
  abbrev pub Follows : Result PortError Checkpoint → Checkpoint → Type 0
  Follows (err not_found) c = (c.sequence ≡ pos 1) × ((w : W) × IsNext (pos 0) w c)
  Follows (err failed) c = ⊥
  Follows (ok latest) c =
      SameContents latest c
      ⊎ ((latest.status ≡ finalized)
          × ((c.sequence ≡ pos (pos_part latest.sequence + 1))
              × ((w : W) × IsNext latest.sequence w c)))

  recover-IsFinal :
      (system_id : Bytes) (latest : Checkpoint) (w : W)
      → IsFinal system_id latest
      → Ends (λ c. IsFinal system_id c × Follows (ok latest) c) (recover ports latest w)
  unfolding recover
  recover-IsFinal system_id latest w final =
      let P : Checkpoint → Type 0 = λ c. IsFinal system_id c × Follows (ok latest) c in
      Ends-bind P (call (ports.publish_finalized latest)) _ w
        λ _ w1 _. (final, inl (SameContents-refl latest))

  create_next-Follows :
      (system_id : Bytes) (latest : Checkpoint) (w : W)
      → IsFinal system_id latest
      → not (latest.sequence =? max_int64) ≡ true
      → Ends
          (λ c. IsFinal system_id c × Follows (ok latest) c)
          (create_next ports system_id latest.sequence w)
  create_next-Follows system_id latest w (valid, final) room =
      Ends-map (λ c. IsFinal system_id c × IsNext latest.sequence w c) _ _
        (create_next-IsFinal system_id latest.sequence w)
        λ c (final', next). (
          final',
          inr (final, (next.sequence ∙ next_of_valid system_id latest valid room, (w, next))),
        )

  after_current-Follows :
      (system_id : Bytes) (latest : Checkpoint) (current : Result PortError Checkpoint) (w : W)
      → IsFinal system_id latest
      → Ends
          (λ c. IsFinal system_id c × Follows (ok latest) c)
          (after_current ports system_id latest current w)
  unfolding after_current
  after_current-Follows system_id latest (err not_found) w final =
      recover-IsFinal system_id latest w final
  after_current-Follows system_id latest (err failed) w final = tt
  after_current-Follows system_id latest (ok current) w final =
      let P : Checkpoint → Type 0 = λ c. IsFinal system_id c × Follows (ok latest) c in
      Ends-check P (validate_stored_checkpoint current system_id) _ w λ _ _.
        Ends-guard P (is_finalized current.status) current_not_finalized _ w λ _.
          Ends-guard P (leb_ℤ current.sequence latest.sequence) current_exceeds_latest _ w λ _.
            Ends-guard P
              (not (current.sequence =? latest.sequence)
                || (current.state_commitment =? latest.state_commitment))
              current_conflicts _ w
              λ _. elim (Bool-cases (ltb_ℤ current.sequence latest.sequence)) [
                | inl behind ↦ rw behind (recover-IsFinal system_id latest w final)
                | inr level ↦ rw level (
                    Ends-guard P (not (latest.sequence =? max_int64)) sequence_exhausted
                      (λ _. create_next ports system_id latest.sequence) w
                      (create_next-Follows system_id latest w final))
              ]

  after_latest-Follows :
      (system_id : Bytes) (latest : Result PortError Checkpoint) (w : W)
      → Ends (λ c. IsFinal system_id c × Follows latest c) (after_latest ports system_id latest w)
  unfolding after_latest
  after_latest-Follows system_id (err not_found) w =
      Ends-map (λ c. IsFinal system_id c × IsNext (pos 0) w c) _ _
        (create_next-IsFinal system_id (pos 0) w)
        λ c (final, next). (final, (next.sequence ∙ (ground arith), (w, next)))
  after_latest-Follows system_id (err failed) w = tt
  after_latest-Follows system_id (ok latest) w =
      let P : Checkpoint → Type 0 = λ c. IsFinal system_id c × Follows (ok latest) c in
      Ends-check P (validate_stored_checkpoint latest system_id) _ w λ _ valid.
        elim (Bool-cases (is_pending latest.status)) [
          | inl waiting ↦ rw waiting (
              Ends-map (λ c. IsFinal system_id c × SameContents latest c) P _
                (anchor_and_publish-IsFinal system_id latest w valid)
                λ c (final, same). (final, inl same))
          | inr settled ↦ rw settled (
              Ends-guard P (is_finalized latest.status) unsupported_status _ w λ final.
                after_current-Follows system_id latest (ports.current_finalized system_id w).0
                  (ports.current_finalized system_id w).1
                  (valid, is_finalized_lem latest.status final))
        ]

  -- Whatever the repository, the state source, the anchor and the clock do: a checkpoint that Finalize
  -- returns passes every check and is finalized. It is the pending or finalized one that was the
  -- latest, with the same identity, number, roots and commitment; or the latest one is finalized or
  -- absent, and it is the next in number, over the roots of one snapshot. Numbers never wrap around.
  pub finalize-Follows :
      (system_id : Bytes) (w : W)
      → Ends
          (λ c. IsFinal system_id c × Follows (ports.latest_checkpoint system_id w).0 c)
          (finalize ports system_id w)
  unfolding finalize
  finalize-Follows system_id w =
      after_latest-Follows system_id (ports.latest_checkpoint system_id w).0
        (ports.latest_checkpoint system_id w).1

  -- Whatever the repository returns, readers are only given a checkpoint that passes every check, is
  -- finalized, and is the one that the repository has as current.
  pub read_current-IsFinal :
      (system_id : Bytes) (w : W)
      → Ends
          (λ c. IsFinal system_id c × ((ports.current_finalized system_id w).0 ≡ ok c))
          (read_current ports system_id w)
  unfolding read_current
  read_current-IsFinal system_id w =
      let P : Checkpoint → Type 0 =
        λ c. IsFinal system_id c × ((ports.current_finalized system_id w).0 ≡ ok c) in
      Ends-bind P (call (ports.current_finalized system_id)) _ w λ c w1 found.
        Ends-check P (validate_stored_checkpoint c system_id) _ w1 λ _ valid.
          Ends-guard P (is_finalized c.status && (is_some c.anchor && is_some c.finalized_at))
            current_not_finalized _ w1
            λ final. (
              (valid, is_finalized_lem c.status (ground arith)),
              ap (λ r. r.0) (call-eq-ok port (ports.current_finalized system_id) w w1 c found),
            )
