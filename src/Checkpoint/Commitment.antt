-- ===== src/Checkpoint/Commitment.antt =====
-- internal/checkpoint/commitment.go: one hash binds a sequence number and the two roots.
use storage_aware_hmfaudit.Prelude.{
  ◌≡◌, refl, ◌⊎◌, inl, inr, ◌++◌, [], ◌∷◌, arith, append_inj, ℤ, pos, ltb_ℤ, IsInt64, Result, ok,
  ◌>>=◌, ◌>>◌, guard, guard-eq-ok, ◌=?◌, list_eq, nat_eq,
}
use storage_aware_hmfaudit.Crypto.{
  Bytes, Hash, IsHash, Sha256, Collision, write_int64, write_int64_inj,
}
use storage_aware_hmfaudit.Crypto.Binding.{sum_binds}
use storage_aware_hmfaudit.Checkpoint.Types.{
  Checkpoint, CheckpointError, sequence_not_positive, commitment_mismatch,
}

abbrev pub state_domain : Bytes
state_domain = b'S' ∷ b'T' ∷ b'A' ∷ b'T' ∷ b'E' ∷ []

-- What the hasher is fed.
unfoldable pub state_bytes : ℤ → Hash → Hash → Bytes
state_bytes sequence locator_root global_hmf_root =
    state_domain ++ (write_int64 sequence ++ (locator_root ++ global_hmf_root))

module _ ⦃sha : Sha256⦄ where
  -- `StateCommitment`
  unfoldable pub state_commitment : ℤ → Hash → Hash → Result CheckpointError Hash
  unfolding state_bytes
  state_commitment sequence locator_root global_hmf_root = do
    guard (ltb_ℤ (pos 0) sequence) sequence_not_positive
    ok (sha.sum (state_bytes sequence locator_root global_hmf_root))

  -- `VerifyStateCommitment`
  unfoldable pub verify_state_commitment : Checkpoint → Result CheckpointError (Unit {0})
  unfolding state_commitment
  verify_state_commitment value = do
    expected ← state_commitment value.sequence value.locator_root value.global_hmf_root
    guard (expected =? value.state_commitment) commitment_mismatch

  -- Two states with the same commitment have the same sequence number and the same roots, where
  -- both numbers are int64 and the locator roots have 32 bytes; or SHA-256 has a collision.
  pub state_commitment_binds :
      (s t : ℤ) (l g k h c : Hash)
      → IsInt64 s
      → IsInt64 t
      → IsHash l
      → IsHash k
      → state_commitment s l g ≡ ok c
      → state_commitment t k h ≡ ok c
      → Collision ⊎ ((s ≡ t) × ((l ≡ k) × (g ≡ h)))
  unfolding state_commitment
  state_commitment_binds s t l g k h c hs ht hl hk e f =
      let (_, first) = guard-eq-ok (ltb_ℤ (pos 0) s) sequence_not_positive _ e in
      let (_, second) = guard-eq-ok (ltb_ℤ (pos 0) t) sequence_not_positive _ f in
      let same : sha.sum (state_bytes s l g) ≡ sha.sum (state_bytes t k h) = cc in
      elim (sum_binds (state_bytes s l g) (state_bytes t k h) same) [
        | inl collision ↦ inl collision
        | inr bytes ↦ inr (
            let (_, rest) = append_inj state_domain state_domain _ _ refl bytes in
            let (number, roots) = write_int64_inj s t (l ++ g) (k ++ h) hs ht rest in
            (number, append_inj l k g h (omega (arith, hl, hk)) roots))
      ]
