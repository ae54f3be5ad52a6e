-- ===== src/Localization/Height.antt =====
-- The height that localization computes by halving is the one that the forest's trees are built with.
use native.Mathlib.Nat.{pow-le-pow_right}
use native.Mathlib.Decide.{dec_lt}
use storage_aware_hmfaudit.Prelude.{ℕ, zero, suc, ◌+◌, ◌/◌, ◌^◌, ◌≤◌, ◌<◌, ◌≡◌, refl, pos, arith}
use storage_aware_hmfaudit.Hmf.Merkle.{IsHeight, IsHeight-half}
use storage_aware_hmfaudit.Hmf.Levels
use storage_aware_hmfaudit.Hmf.Levels.Build.{tree_height-IsHeight}
use storage_aware_hmfaudit.Localization.{half, height_loop, tree_height, default_jump_levels}

height_loop-IsHeight :
    (fuel h n : ℕ) → IsHeight n h → h ≤ fuel → n + 1 < 2 ^ 63 → height_loop fuel (pos n) ≡ h
unfolding height_loop half
height_loop-IsHeight zero zero n v enough small = refl
height_loop-IsHeight zero (suc h) n v enough small = absurd (omega arith)
height_loop-IsHeight (suc fuel) zero n v enough small = ground (arith, v.enough)
height_loop-IsHeight (suc fuel) (suc h) n v enough small =
    let (big, half_height) = IsHeight-half n h v in
    ground
      (arith, height_loop-IsHeight fuel h ((n + 1) / 2) half_height (omega arith) (omega arith))

height_bound : (h n : ℕ) → IsHeight n h → n < 2 ^ 63 → h ≤ 63
height_bound zero n v small = omega arith
height_bound (suc h) n v small = elim (dec_lt h 63) [
  | yes below ↦ omega arith
  | no above ↦
      let grows : 2 ^ 63 ≤ 2 ^ h = pow-le-pow_right (omega arith) {i = 63} {j = h} (omega arith) in
      absurd (omega (arith, v.tight))
]

-- For every number of leaves of an int64 but the greatest, at which the sum in the loop wraps around,
-- the height that localization computes is the one that the forest's trees have, and it is at most
-- `DefaultJumpLevels`, so one jump reaches the leaves.
pub tree_height_bounded :
    (n : ℕ)
    → 0 < n
    → n + 1 < 2 ^ 63
    → (tree_height (pos n) ≡ Levels.tree_height n) × (tree_height (pos n) ≤ default_jump_levels)
unfolding tree_height
tree_height_bounded n positive small =
    let v = tree_height-IsHeight n positive in
    let bound = height_bound (Levels.tree_height n) n v (omega arith) in
    let same = height_loop-IsHeight 64 (Levels.tree_height n) n v (omega arith) small in
    (same, omega arith)
