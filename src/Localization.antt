-- ===== src/Localization.antt =====
-- Package internal/localization: the height at which the walk over a tree starts.
pub mod Height
mod Tests
use storage_aware_hmfaudit.Prelude.{
  ℕ, zero, suc, ◌+◌, ◌/◌, ℤ, pos, negsuc, ltb_ℤ, next_int64, if◌then◌else◌,
}

-- `DefaultJumpLevels`
abbrev pub default_jump_levels : ℕ
default_jump_levels = 63

-- `value / 2` of an int64, rounded towards zero.
unfoldable pub half : ℤ → ℤ
half (pos n) = pos (n / 2)
half (negsuc zero) = pos 0
half (negsuc (suc n)) = negsuc (n / 2)

-- The loop of `treeHeight`. An int64 is at most 1 after 64 rounds.
unfoldable pub height_loop : ℕ → ℤ → ℕ
unfolding half
height_loop zero leaf_count = 0
height_loop (suc fuel) leaf_count =
    let rest = height_loop fuel (half (next_int64 leaf_count)) in
    if ltb_ℤ (pos 1) leaf_count then suc rest else 0

unfoldable pub tree_height : ℤ → ℕ
unfolding height_loop
tree_height leaf_count = height_loop 64 leaf_count
