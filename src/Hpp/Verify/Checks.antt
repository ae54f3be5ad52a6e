-- ===== src/Hpp/Verify/Checks.antt =====
-- What a tree plan and a parent link are that pass the checks of internal/hpp/verifier.go.
use storage_aware_hmfaudit.Prelude.{
  ◌≡◌, ◌≢◌, ap, sym, ◌∙◌, true, false, not, ◌&&◌, List, [], ◌∷◌, length, All, ltb, ◌==◌, arith, ℤ,
  pos, ltb_ℤ, Result, ok, err, wrap, guard-eq-ok, guard-passed, >>=-eq-ok, ◌=?◌, list_eq, nat_eq,
  int_eq, bytes_iff, int_iff,
}
use storage_aware_hmfaudit.Hpp.Types.{
  TreeLayer, shard, region, global, TreeRef, TreePlan, position_eq,
}
use storage_aware_hmfaudit.Hpp.Plan.{
  PlanError, plan_tree, plan_levels, check_targets, sort, to_ℕ, no_leaves, no_targets,
}
use storage_aware_hmfaudit.Hpp.Plan.Ascending.{IsDistinct}
use storage_aware_hmfaudit.Hpp.Verify.{
  is_member, has_duplicate, validate_tree_plan_shape, is_layer, valid_parent_link, duplicate_target,
  noncanonical, incorrect_targets, incorrect_required, invalid_plan,
}

is_member-apart : (t : ℤ) (seen : List ℤ) → is_member t seen ≡ false → All (λ s. s ≢ t) seen
unfolding is_member
is_member-apart t [] e = tt
is_member-apart t (s ∷ seen) e =
    ((λ same. ground (arith, int_iff s t)), is_member-apart t seen (ground arith))

heads-apart :
    (t : ℤ) (seen rest : List ℤ)
    → All (λ u. All (λ s. s ≢ u) (t ∷ seen)) rest
    → All (λ u. t ≢ u) rest
heads-apart t seen [] h = tt
heads-apart t seen (u ∷ rest) h = (h.0.0, heads-apart t seen rest h.1)

tails-apart :
    (t : ℤ) (seen rest : List ℤ)
    → All (λ u. All (λ s. s ≢ u) (t ∷ seen)) rest
    → All (λ u. All (λ s. s ≢ u) seen) rest
tails-apart t seen [] h = tt
tails-apart t seen (u ∷ rest) h = (h.0.1, tails-apart t seen rest h.1)

has_duplicate-IsDistinct :
    (seen ts : List ℤ)
    → has_duplicate seen ts ≡ false
    → IsDistinct ts × All (λ u. All (λ s. s ≢ u) seen) ts
unfolding has_duplicate
has_duplicate-IsDistinct seen [] e = (tt, tt)
has_duplicate-IsDistinct seen (t ∷ rest) e =
    let (distinct, apart) = has_duplicate-IsDistinct (t ∷ seen) rest (ground arith) in
    (
      (heads-apart t seen rest apart, distinct),
      (is_member-apart t seen (ground arith), tails-apart t seen rest apart),
    )

plan_tree-keeps :
    (tree : TreeRef) (n : ℤ) (targets : List ℤ) (plan : TreePlan)
    → plan_tree tree n targets ≡ ok plan
    → (plan.tree ≡ tree) × (plan.leaf_count ≡ n)
unfolding plan_tree
plan_tree-keeps tree n targets plan e =
    let (_, e1) = guard-eq-ok (ltb_ℤ (pos 0) n) no_leaves _ e in
    let (_, e2) = guard-eq-ok (ltb 0 (length targets)) no_targets _ e1 in
    let (indexes, _, e3) = >>=-eq-ok (check_targets n targets) _ e2 in
    let (required, _, done) = >>=-eq-ok (plan_levels (to_ℕ n) (to_ℕ n) 0 (sort indexes)) _ e3 in
    (sym (ap (tree_of tree) done), sym (ap (count_of n) done))
  where
    tree_of : TreeRef → Result PlanError TreePlan → TreeRef
    tree_of d (ok p) = p.tree
    tree_of d (err e) = d

    count_of : ℤ → Result PlanError TreePlan → ℤ
    count_of d (ok p) = p.leaf_count
    count_of d (err e) = d

wrap-eq-ok {ℓ} :
    {A : Type ℓ} (r : Result PlanError A) (a : A) → wrap invalid_plan r ≡ ok a → r ≡ ok a
wrap-eq-ok (ok x) a e = cc
wrap-eq-ok (err x) a e = cc

-- A tree plan of a proof that passes the check is the planner's own for the targets it names: the
-- same tree, leaf count, sorted targets and required nodes. No target is named twice.
pub validate_tree_plan_shape-canonical :
    (plan : TreePlan)
    → validate_tree_plan_shape plan ≡ ok tt
    → (plan_tree plan.tree plan.leaf_count plan.targets ≡ ok plan) × IsDistinct plan.targets
unfolding validate_tree_plan_shape
validate_tree_plan_shape-canonical plan e =
    let (single, e1) = guard-eq-ok (not (has_duplicate [] plan.targets)) duplicate_target _ e in
    let (canonical, planned, e2) =
      >>=-eq-ok (wrap invalid_plan (plan_tree plan.tree plan.leaf_count plan.targets)) _ e1 in
    let (_, e3) =
      guard-eq-ok
        ((length canonical.targets == length plan.targets)
          && (length canonical.required == length plan.required))
        noncanonical _ e2 in
    let (targets, e4) = guard-eq-ok (canonical.targets =? plan.targets) incorrect_targets _ e3 in
    let found = wrap-eq-ok (plan_tree plan.tree plan.leaf_count plan.targets) canonical planned in
    let (tree, count) = plan_tree-keeps plan.tree plan.leaf_count plan.targets canonical found in
    let same_targets = (list_eq.beq_iff canonical.targets plan.targets).0 targets in
    let same_required =
      (list_eq.beq_iff canonical.required plan.required).0
        (guard-passed (canonical.required =? plan.required) incorrect_required e4) in
    let same : canonical ≡ plan = cc in
    (found ∙ ap ok same, (has_duplicate-IsDistinct [] plan.targets (ground arith)).0)

is_layer_lem : (a b : TreeLayer) → is_layer a b ≡ true → a ≡ b
is_layer_lem a b e = ground arith

-- A tree has one parent at most: two links from the same child that pass the check have the same
-- parent.
pub valid_parent_link_unique :
    (child p q : TreeRef)
    → valid_parent_link child p ≡ true
    → valid_parent_link child q ≡ true
    → p ≡ q
unfolding valid_parent_link
valid_parent_link_unique child p q e f = ground (
  arith,
  is_layer_lem p.layer shard,
  is_layer_lem p.layer region,
  is_layer_lem p.layer global,
  is_layer_lem q.layer shard,
  is_layer_lem q.layer region,
  is_layer_lem q.layer global,
  bytes_iff p.region_id child.region_id,
  bytes_iff q.region_id child.region_id,
  bytes_iff p.region_id [],
  bytes_iff q.region_id [],
  int_iff p.shard_id child.shard_id,
  int_iff q.shard_id child.shard_id,
  int_iff p.shard_id (pos 0),
  int_iff q.shard_id (pos 0),
  int_iff p.segment_id (pos 0),
  int_iff q.segment_id (pos 0),
)
