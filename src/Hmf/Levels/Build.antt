-- ===== src/Hmf/Levels/Build.antt =====
-- The levels that `Build` fills are those of the reference.
use storage_aware_hmfaudit.Prelude.{
  ℕ, zero, suc, ◌+◌, ◌-◌, ◌/◌, ◌≤◌, ◌<◌, ◌≡◌, refl, ap, sym, subst, ◌∙◌, List, [], ◌∷◌, arith,
  false, ◌==◌, length,
}
use storage_aware_hmfaudit.Crypto.{Sha256}
use storage_aware_hmfaudit.Hmf.Node.{MerkleNode}
use storage_aware_hmfaudit.Hmf.Merkle.{IsHeight, IsHeight-one, IsHeight-suc}
use storage_aware_hmfaudit.Hmf.Levels.{bit_length, tree_height, parent_at, fill_level, fill_levels}

bit_length-IsHeight : (fuel n : ℕ) → n ≤ fuel → IsHeight (suc n) (bit_length fuel n)
unfolding bit_length
bit_length-IsHeight zero n h = IsHeight-one (suc n) (omega arith)
bit_length-IsHeight (suc fuel) zero h = IsHeight-one 1 (omega arith)
bit_length-IsHeight (suc fuel) (suc n) h =
    let half : (suc (suc n) + 1) / 2 ≡ suc (suc n / 2) = omega arith in
    let more : (suc n == 0) ≡ false = ground arith in
    rw more (
      IsHeight-suc (suc (suc n)) (bit_length fuel (suc n / 2)) (omega arith)
        (rw half (bit_length-IsHeight fuel (suc n / 2) (omega arith))))

-- The height of a tree of `n` leaves is the least that has room for them.
pub tree_height-IsHeight : (n : ℕ) → 0 < n → IsHeight n (tree_height n)
unfolding tree_height
tree_height-IsHeight zero h = absurd (omega arith)
tree_height-IsHeight (suc n) h =
    let one : suc n - 1 ≡ n = omega arith in rw one (bit_length-IsHeight (suc n) n (omega arith))

-- Shapes of levels: each is half of the one below, to a level of one node.
abbrev pub IsShaped : ℕ → List (List MerkleNode) → Type 0
IsShaped n [] = n ≡ 1
IsShaped n (nodes ∷ above) = (length nodes ≡ (n + 1) / 2) × (1 < n) × IsShaped ((n + 1) / 2) above

module _ ⦃sha : Sha256⦄ where
  -- The `count` parents from `index` on.
  unfoldable pub parents_from : ℕ → List MerkleNode → ℕ → ℕ → List MerkleNode
  parents_from level children index zero = []
  parents_from level children index (suc count) =
      parent_at level children index ∷ parents_from level children (suc index) count

  pub length-parents_from :
      (level : ℕ) (children : List MerkleNode) (index count : ℕ)
      → length (parents_from level children index count) ≡ count
  unfolding parents_from
  length-parents_from level children index zero = refl
  length-parents_from level children index (suc count) =
      ap suc (length-parents_from level children (suc index) count)

  fill_level-parents_from :
      (level : ℕ) (children : List MerkleNode) (index : ℕ) (old : List MerkleNode)
      → fill_level level children index old ≡ parents_from level children index (length old)
  unfolding fill_level parents_from
  fill_level-parents_from level children index [] = refl
  fill_level-parents_from level children index (x ∷ old) =
      ap (◌∷◌ (parent_at level children index))
        (fill_level-parents_from level children (suc index) old)

  -- The levels above `children` hold the parents, to a level of one node.
  abbrev pub IsLayered : ℕ → List MerkleNode → List (List MerkleNode) → Type 0
  IsLayered level children [] = length children ≡ 1
  IsLayered level children (nodes ∷ above) =
      (nodes ≡ parents_from level children 0 ((length children + 1) / 2))
      × (1 < length children)
      × IsLayered (suc level) nodes above

  -- Filling levels of the right shape layers them, whatever they held before.
  pub fill_levels-IsLayered :
      (level : ℕ) (children : List MerkleNode) (old : List (List MerkleNode))
      → IsShaped (length children) old
      → IsLayered level children (fill_levels level children old)
  unfolding fill_levels
  fill_levels-IsLayered level children [] s = s
  fill_levels-IsLayered level children (nodes ∷ old) (half, more, s) =
      let e : fill_level level children 0 nodes
          ≡ parents_from level children 0 ((length children + 1) / 2) =
        fill_level-parents_from level children 0 nodes ∙ ap (parents_from level children 0) half in
      let size : length (fill_level level children 0 nodes) ≡ (length children + 1) / 2 =
        ap length e ∙ length-parents_from level children 0 _ in
      (
        e,
        more,
        fill_levels-IsLayered (suc level) (fill_level level children 0 nodes) old
            (subst (λ n. IsShaped n old) (sym size) s),
      )

  -- Levels that are layered have the right shape.
  pub IsLayered-IsShaped :
      (level : ℕ) (children : List MerkleNode) (above : List (List MerkleNode))
      → IsLayered level children above
      → IsShaped (length children) above
  IsLayered-IsShaped level children [] s = s
  IsLayered-IsShaped level children (nodes ∷ above) (e, more, s) =
      let size : length nodes ≡ (length children + 1) / 2 =
        ap length e ∙ length-parents_from level children 0 _ in
      (
        size,
        more,
        subst (λ n. IsShaped n above) size (IsLayered-IsShaped (suc level) nodes above s),
      )

  -- `Build` rewrites layered levels to themselves: the levels are a function of the leaves.
  pub IsLayered-fill_levels :
      (level : ℕ) (children : List MerkleNode) (old above : List (List MerkleNode))
      → IsShaped (length children) old
      → IsLayered level children above
      → fill_levels level children old ≡ above
  unfolding fill_levels
  IsLayered-fill_levels level children [] [] s l = refl
  IsLayered-fill_levels level children [] (x ∷ above) s l = absurd (omega arith)
  IsLayered-fill_levels level children (x ∷ old) [] s l = absurd (omega arith)
  IsLayered-fill_levels level children (x ∷ old) (nodes ∷ above) (half, more, s) (e, _, l) =
      let same : fill_level level children 0 x ≡ nodes =
        fill_level-parents_from level children 0 x
        ∙ ap (parents_from level children 0) half
        ∙ sym e in
      let size : length nodes ≡ (length children + 1) / 2 =
        ap length e ∙ length-parents_from level children 0 _ in
      rw same (
        ap (◌∷◌ nodes) (
          IsLayered-fill_levels (suc level) nodes old above
            (subst (λ n. IsShaped n old) (sym size) s) l))
