-- ===== src/Hpp/Plan/Total.antt =====
-- Planning one tree always succeeds for targets inside it.
use mathlib.Core.List.{Perm}
use storage_aware_hmfaudit.Prelude.{
  ◌^◌, ℕ, ap, sym, ◌∙◌, ◌+◌, ◌<◌, ◌≡◌, refl, true, List, [], ◌∷◌, map, length, All, ltb, lt→ltb,
  arith, pos, ok, Yields, Yields-bind,
}
use storage_aware_hmfaudit.Hpp.Types.{TreeRef, TreePlan}
use storage_aware_hmfaudit.Hpp.Plan.{sort, check_targets, plan_levels, plan_tree}
use storage_aware_hmfaudit.Hpp.Plan.Ascending.{
  IsActive, IsDistinct, sort-All, sort-IsAscending, sort-nonempty, sort-Perm,
}
use storage_aware_hmfaudit.Hpp.Plan.Required.{has, is_required}
use storage_aware_hmfaudit.Hpp.Plan.Rounds.{Asks, plan_levels-Asks, is_required-sort}

pub check_targets-inside :
    (n : ℕ) (indexes : List ℕ)
    → All (λ i. i < n) indexes
    → check_targets (pos n) (map pos indexes) ≡ ok indexes
unfolding check_targets
check_targets-inside n [] h = refl
check_targets-inside n (i ∷ rest) h =
    rw (lt→ltb (i + 0) (n + 0) (omega (arith, h.0)), check_targets-inside n rest h.1)

-- A plan for the leaves `indexes` of a tree with `n` leaves.
pub record IsPlan (tree : TreeRef) (n : ℕ) (indexes : List ℕ) (plan : TreePlan) : Type 0 where
  pub active : List ℕ
  pub named : plan.tree ≡ tree
  pub counted : plan.leaf_count ≡ pos n
  pub targets : plan.targets ≡ map pos active
  pub sorted : IsActive n active
  pub same : Perm active indexes
  pub required : (level p : ℕ) → has level p plan.required ≡ is_required n indexes level p

-- Planning succeeds for any distinct leaves, at least one, of a tree with fewer leaves
-- than the greatest int64. The targets of the plan
-- are these leaves, in ascending order, and it asks for a node exactly where the node is in the
-- tree, has no target below it and its sibling has one.
pub plan_tree-IsPlan :
    (tree : TreeRef) (n : ℕ) (indexes : List ℕ)
    → 0 < length indexes
    → IsDistinct indexes
    → All (λ i. i < n) indexes
    → n + 1 < 2 ^ 63
    → Yields (IsPlan tree n indexes) (plan_tree tree (pos n) (map pos indexes))
unfolding plan_tree
plan_tree-IsPlan tree n [] h d inside fit = absurd (omega arith)
plan_tree-IsPlan tree n (i ∷ rest) h d inside fit =
    let active = sort (i ∷ rest) in
    let sorted : IsActive n active = record {
      ascending = sort-IsAscending (i ∷ rest) d;
      inside = sort-All (λ j. j < n) (i ∷ rest) inside;
      some_target = sort-nonempty (i ∷ rest) h;
    } in
    let nonempty : ltb 0 (length (map pos (i ∷ rest))) ≡ true = lt→ltb 0 _ (omega arith) in
    rw
      (
        lt→ltb (0 + 0) (n + 0) (omega (arith, inside.0)),
        nonempty,
        check_targets-inside n (i ∷ rest) inside,
      )
      (Yields-bind (Asks 0 n active) (IsPlan tree n (i ∷ rest)) (plan_levels n n 0 active) _
        (plan_levels-Asks n n 0 active (omega (arith, inside.0)) (omega arith) fit sorted)
        λ required asks. record {
          active = active;
          named = refl;
          counted = refl;
          targets = refl;
          sorted = sorted;
          same = sort-Perm (i ∷ rest);
          required = λ level p.
              let here : 0 + level ≡ level = omega arith in
              ap (λ l. has l p required) (sym here)
              ∙ asks.exact level p
              ∙ is_required-sort n level p (i ∷ rest);
        })
