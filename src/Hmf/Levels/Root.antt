-- ===== src/Hmf/Levels/Root.antt =====
-- The top of layered levels is the root of the hashes at their bottom.
use storage_aware_hmfaudit.Prelude.{
  ℕ, zero, suc, ◌+◌, ◌*◌, ◌/◌, ◌<◌, ◌≡◌, refl, ap, ap₂, sym, subst, ◌∙◌, List, [], ◌∷◌, arith,
  length, get_or,
}
use storage_aware_hmfaudit.Crypto.{Hash, Sha256, node_hash}
use storage_aware_hmfaudit.Hmf.Node.{MerkleNode, zero_node, hashes}
use storage_aware_hmfaudit.Hmf.Merkle.{pair_up, up, IsHeight, IsHeight-one, IsHeight-suc}
use storage_aware_hmfaudit.Hmf.Segment.Fill.{length-hashes}
use storage_aware_hmfaudit.Hmf.Levels.{parent_at}
use storage_aware_hmfaudit.Hmf.Levels.Build.{parents_from, length-parents_from, IsLayered}

module _ ⦃sha : Sha256⦄ where
  parent_at-shift :
      (level : ℕ) (x y : MerkleNode) (rest : List MerkleNode) (p : ℕ)
      → (parent_at level (x ∷ y ∷ rest) (suc p)).hash ≡ (parent_at level rest p).hash
  unfolding parent_at
  parent_at-shift level x y rest p =
      let left : 2 * suc p ≡ suc (suc (2 * p)) = omega arith in
      let right : 2 * suc p + 1 ≡ suc (suc (2 * p + 1)) = omega arith in
      rw (right, left) (ground arith)

  parent_at-pair :
      (level : ℕ) (x y : MerkleNode) (rest : List MerkleNode)
      → (parent_at level (x ∷ y ∷ rest) 0).hash ≡ node_hash x.hash y.hash
  unfolding parent_at
  parent_at-pair level x y rest = ground arith

  parents_from-shift :
      (level : ℕ) (x y : MerkleNode) (rest : List MerkleNode) (p count : ℕ)
      → hashes (parents_from level (x ∷ y ∷ rest) (suc p) count)
        ≡ hashes (parents_from level rest p count)
  unfolding parents_from
  parents_from-shift level x y rest p zero = refl
  parents_from-shift level x y rest p (suc count) =
      rw (parent_at-shift level x y rest p, parents_from-shift level x y rest (suc p) count)

  pub hashes-parents_from :
      (level : ℕ) (children : List MerkleNode)
      → hashes (parents_from level children 0 ((length children + 1) / 2))
        ≡ pair_up (hashes children)
  unfolding pair_up parents_from
  hashes-parents_from level [] = refl
  hashes-parents_from level (x ∷ []) = unfold parent_at in refl
  hashes-parents_from level (x ∷ y ∷ rest) =
      let count : (suc (suc (length rest)) + 1) / 2 ≡ suc ((length rest + 1) / 2) = omega arith in
      rw count (
        ap₂ ◌∷◌ (parent_at-pair level x y rest) (
          parents_from-shift level x y rest 0 ((length rest + 1) / 2)
          ∙ hashes-parents_from level rest))

  pub IsLayered-root :
      (level : ℕ) (children : List MerkleNode) (above : List (List MerkleNode))
      → IsLayered level children above
      → (up (length above) (hashes children)
          ≡ (get_or (get_or (children ∷ above) (length above) []) 0 zero_node).hash ∷ [])
        × IsHeight (length children) (length above)
  unfolding up
  IsLayered-root level (x ∷ []) [] s = (refl, IsHeight-one 1 (omega arith))
  IsLayered-root level (x ∷ y ∷ r) [] s = absurd (omega arith)
  IsLayered-root level [] [] s = absurd (omega arith)
  IsLayered-root level children (nodes ∷ above) (e, more, s) =
      let (root, height) = IsLayered-root (suc level) nodes above s in
      (
        ap (up (length above)) (sym (ap hashes e ∙ hashes-parents_from level children)) ∙ root,
        IsHeight-suc (length children) (length above) more (
            subst (λ n. IsHeight n (length above))
              (ap length e ∙ length-parents_from level children 0 _) height),
      )

-- Nodes of one level, with indexes from `i` on.
unfoldable pub numbered : ℕ → ℕ → List Hash → List MerkleNode
numbered level i [] = []
numbered level i (h ∷ hs) =
    record { level = level; index = i; hash = h } ∷ numbered level (suc i) hs

module _ ⦃sha : Sha256⦄ where
  -- The levels above the hashes `hs` number the reference's hashes, to a level of one.
  abbrev pub IsPaired : ℕ → List Hash → List (List MerkleNode) → Type 0
  IsPaired level hs [] = length hs ≡ 1
  IsPaired level hs (nodes ∷ above) =
      (nodes ≡ numbered level 0 (pair_up hs))
      × (1 < length hs)
      × IsPaired (suc level) (pair_up hs) above

  parents_from-numbered :
      (level : ℕ) (children : List MerkleNode) (i count : ℕ)
      → parents_from level children i count
        ≡ numbered level i (hashes (parents_from level children i count))
  unfolding parents_from numbered parent_at
  parents_from-numbered level children i zero = refl
  parents_from-numbered level children i (suc count) =
      ap (◌∷◌ (parent_at level children i)) (parents_from-numbered level children (suc i) count)

  parents_from-pair_up :
      (level : ℕ) (children : List MerkleNode)
      → parents_from level children 0 ((length children + 1) / 2)
        ≡ numbered level 0 (pair_up (hashes children))
  parents_from-pair_up level children =
      parents_from-numbered level children 0 _
      ∙ ap (numbered level 0) (hashes-parents_from level children)

  -- What the code's loops fill in is what the reference has.
  pub IsLayered-IsPaired :
      (level : ℕ) (children : List MerkleNode) (above : List (List MerkleNode))
      → IsLayered level children above
      → IsPaired level (hashes children) above
  IsLayered-IsPaired level children [] s = length-hashes children ∙ s
  IsLayered-IsPaired level children (nodes ∷ above) (e, more, s) = (
    e ∙ parents_from-pair_up level children,
    omega (arith, length-hashes children),
    subst (λ hs. IsPaired (suc level) hs above) (ap hashes e ∙ hashes-parents_from level children)
        (IsLayered-IsPaired (suc level) nodes above s),
  )

  pub IsPaired-IsLayered :
      (level : ℕ) (children : List MerkleNode) (above : List (List MerkleNode))
      → IsPaired level (hashes children) above
      → IsLayered level children above
  IsPaired-IsLayered level children [] s = sym (length-hashes children) ∙ s
  IsPaired-IsLayered level children (nodes ∷ above) (e, more, s) =
      let same = e ∙ sym (parents_from-pair_up level children) in
      (
        same,
        omega (arith, length-hashes children),
        IsPaired-IsLayered (suc level) nodes above (
            subst (λ hs. IsPaired (suc level) hs above)
              (sym (ap hashes same ∙ hashes-parents_from level children)) s),
      )
