-- ===== src/Localization/Tests.antt =====
-- The height at concrete numbers of leaves.
use storage_aware_hmfaudit.Prelude.{◌-◌, ◌^◌, ◌≤◌, ◌≡◌, refl, pos, arith}
use storage_aware_hmfaudit.Hmf.Levels
use storage_aware_hmfaudit.Localization.{tree_height, default_jump_levels}
use storage_aware_hmfaudit.Localization.Height.{tree_height_bounded}

tree_height_bounded_example :
    (tree_height (pos 5) ≡ Levels.tree_height 5) × (tree_height (pos 5) ≤ default_jump_levels)
tree_height_bounded_example = tree_height_bounded 5 (omega arith) (omega arith)

-- The sum of the loop wraps around at the greatest int64, and the loop ends after one round.
tree_height-greatest : tree_height (pos (2 ^ 63 - 1)) ≡ 1
unfolding tree_height
tree_height-greatest = refl
