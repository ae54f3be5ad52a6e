-- ===== src/Hpp/Plan.antt =====
-- `planTree` of internal/hpp/planner.go: which nodes of one tree a proof for some of its leaves needs.
pub mod Ascending
pub mod Required
pub mod Rounds
pub mod Total
use storage_aware_hmfaudit.Prelude.{
  ℕ, zero, suc, ◌+◌, ◌-◌, ◌/◌, ◌%◌, ◌^◌, Bool, ◌&&◌, List, [], ◌∷◌, ◌++◌, map, length, ltb, ◌==◌,
  if◌then◌else◌, ℤ, pos, negsuc, ltb_ℤ, Result, ok, err, ◌>>=◌, ◌>>◌, guard,
}
use storage_aware_hmfaudit.Hpp.Types.{TreeRef, NodePosition, TreePlan, at}

-- `out_of_fuel` is no error of the source: the model's loop over the levels ran out of rounds.
pub data PlanError : Type 0 where
  no_leaves no_targets target_outside out_of_fuel : PlanError

-- `sort.Slice` on indexes.
unfoldable pub insert_sorted : ℕ → List ℕ → List ℕ
insert_sorted x [] = x ∷ []
insert_sorted x (y ∷ ys) = if ltb x y then x ∷ y ∷ ys else y ∷ insert_sorted x ys

unfoldable pub sort : List ℕ → List ℕ
sort [] = []
sort (x ∷ xs) = insert_sorted x (sort xs)

-- `index < 0 || index >= leafCount` refuses a target; the others are natural numbers.
unfoldable pub check_targets : ℤ → List ℤ → Result PlanError (List ℕ)
check_targets leaf_count [] = ok []
check_targets leaf_count (negsuc n ∷ rest) = err target_outside
check_targets leaf_count (pos n ∷ rest) = do
  guard (ltb_ℤ (pos n) leaf_count) target_outside
  others ← check_targets leaf_count rest
  ok (n ∷ others)

-- `j` is the right sibling of the left child `i`.
abbrev pub is_right_of : ℕ → ℕ → Bool
is_right_of j i = i % 2 == 0 && j == i + 1

-- The node that a lone index `i` of a level of `width` nodes needs, if any.
unfoldable pub lone_required : ℕ → ℕ → ℕ → List NodePosition
lone_required width level i =
    if i % 2 == 0
    then (if ltb (i + 1) width then at level (i + 1) ∷ [] else [])
    else at level (i - 1) ∷ []

-- One round of the loop over `active`: the required nodes of the level, and the parents.
unfoldable pub plan_level : ℕ → ℕ → List ℕ → List NodePosition × List ℕ
unfolding lone_required
plan_level width level [] = ([], [])
plan_level width level (i ∷ []) = (lone_required width level i, i / 2 ∷ [])
plan_level width level (i ∷ j ∷ rest) =
    let both = plan_level width level rest in
    let lone = plan_level width level (j ∷ rest) in
    if is_right_of j i
    then (both.0, i / 2 ∷ both.1)
    else (lone_required width level i ++ lone.0, i / 2 ∷ lone.1)

-- `width = (width + 1) / 2` on an int64. The sum of the greatest int64 and 1 wraps around to a
-- negative number, which ends the loop as 0 does here.
unfoldable pub next_width : ℕ → ℕ
next_width width = if width + 1 == 2 ^ 63 then 0 else (width + 1) / 2

-- `for width > 1`
unfoldable pub plan_levels : ℕ → ℕ → ℕ → List ℕ → Result PlanError (List NodePosition)
plan_levels zero width level active = err out_of_fuel
plan_levels (suc fuel) width level active =
    let (required, next) = plan_level width level active in
    let above : Result PlanError (List NodePosition) = do
      rest ← plan_levels fuel (next_width width) (level + 1) next
      ok (required ++ rest)
    in if ltb 1 width then above else ok []

-- A width of at most 2 ^ 63 - 1 takes as many rounds as its height; itself is enough fuel.
abbrev pub to_ℕ : ℤ → ℕ
to_ℕ (pos n) = n
to_ℕ (negsuc n) = 0

-- `planTree`; the keys of the target map are given in any order.
unfoldable pub plan_tree : TreeRef → ℤ → List ℤ → Result PlanError TreePlan
unfolding plan_levels check_targets sort
plan_tree tree leaf_count targets = do
  guard (ltb_ℤ (pos 0) leaf_count) no_leaves
  guard (ltb 0 (length targets)) no_targets
  indexes ← check_targets leaf_count targets
  let active = sort indexes
  required ← plan_levels (to_ℕ leaf_count) (to_ℕ leaf_count) 0 active
  ok (record {
    tree = tree;
    leaf_count = leaf_count;
    targets = map pos active;
    required = required;
  })
