-- ===== src/Hpp/Verify.antt =====
-- The checks of internal/hpp/verifier.go on one tree plan, one parent link and the trusted root, with
-- the tree references of internal/hpp/grouping.go.
pub mod Checks
use storage_aware_hmfaudit.Prelude.{
  ℕ, ◌≡◌, ◌≢◌, refl, ap, sym, ◌∙◌, Bool, true, false, not, ◌&&◌, ◌||◌, List, [], ◌∷◌, length, All,
  ltb, ◌==◌, if◌then◌else◌, arith, ℤ, pos, negsuc, ltb_ℤ, Assoc, lookup, is_some, Result, ok, err,
  ◌>>=◌, ◌>>◌, guard, wrap, guard-eq-ok, guard-passed, >>=-eq-ok, Eq, ◌=?◌, list_eq, nat_eq, int_eq,
  bytes_iff, int_iff,
}
use storage_aware_hmfaudit.Crypto.{Bytes, Hash, Sha256, zero_hash}
use storage_aware_hmfaudit.Hmf.Commitment.{
  commit_segment_root, commit_shard_root, commit_region_root, commit_global_root,
}
use storage_aware_hmfaudit.Hpp.Types.{
  TreeLayer, segment, shard, region, global, other, TreeRef, NodePosition, TreePlan, position_eq,
}
use storage_aware_hmfaudit.Hpp.Plan.{
  PlanError, plan_tree, plan_levels, check_targets, sort, to_ℕ, no_leaves, no_targets,
}
use storage_aware_hmfaudit.Hpp.Plan.Ascending.{IsDistinct}

pub data VerifyError : Type 0 where
  duplicate_target noncanonical incorrect_targets incorrect_required wrong_known_count
        missing_target root_mismatch :
      VerifyError
  invalid_plan : PlanError → VerifyError

-- `segmentTree`, `shardTree`, `regionTree`, `globalTree`
unfoldable pub segment_tree : Bytes → ℤ → ℤ → TreeRef
segment_tree region_id shard_id segment_id = record {
  layer = segment;
  region_id = region_id;
  shard_id = shard_id;
  segment_id = segment_id;
}

unfoldable pub shard_tree : Bytes → ℤ → TreeRef
shard_tree region_id shard_id = record {
  layer = shard;
  region_id = region_id;
  shard_id = shard_id;
  segment_id = pos 0;
}

unfoldable pub region_tree : Bytes → TreeRef
region_tree region_id = record {
  layer = region;
  region_id = region_id;
  shard_id = pos 0;
  segment_id = pos 0;
}

unfoldable pub global_tree : TreeRef
global_tree = record { layer = global; region_id = []; shard_id = pos 0; segment_id = pos 0 }

unfoldable pub is_member : ℤ → List ℤ → Bool
is_member t [] = false
is_member t (s ∷ seen) = (s =? t) || is_member t seen

-- The loop over `plan.Targets` that fills the set of targets, `seen` so far.
unfoldable pub has_duplicate : List ℤ → List ℤ → Bool
unfolding is_member
has_duplicate seen [] = false
has_duplicate seen (t ∷ rest) = is_member t seen || has_duplicate (t ∷ seen) rest

-- `validateTreePlanShape`; two lists of one length are compared place by place.
unfoldable pub validate_tree_plan_shape : TreePlan → Result VerifyError (Unit {0})
unfolding has_duplicate
validate_tree_plan_shape plan = do
  guard (not (has_duplicate [] plan.targets)) duplicate_target
  canonical ← wrap invalid_plan (plan_tree plan.tree plan.leaf_count plan.targets)
  guard
      ((length canonical.targets == length plan.targets)
        && (length canonical.required == length plan.required))
      noncanonical
  guard (canonical.targets =? plan.targets) incorrect_targets
  guard (canonical.required =? plan.required) incorrect_required

-- `validateTargets`; the keys of a map are distinct.
unfoldable pub validate_targets : TreePlan → Assoc ℤ Hash → Result VerifyError (Unit {0})
validate_targets plan known = do
  guard (length known == length plan.targets) wrong_known_count
  all_known plan.targets
  where
    all_known : List ℤ → Result VerifyError (Unit {0})
    all_known [] = ok tt
    all_known (t ∷ rest) = do guard (is_some (lookup t known)) missing_target; all_known rest

abbrev pub is_layer : TreeLayer → TreeLayer → Bool
is_layer segment segment = true
is_layer shard shard = true
is_layer region region = true
is_layer global global = true
is_layer _ _ = false

-- `validParentLink`
unfoldable pub valid_parent_link : TreeRef → TreeRef → Bool
valid_parent_link child parent = elim child.layer [
  | segment ↦
      is_layer parent.layer shard
      && ((parent.region_id =? child.region_id)
          && ((parent.shard_id =? child.shard_id) && (parent.segment_id =? pos 0)))
  | shard ↦
      is_layer parent.layer region
      && ((parent.region_id =? child.region_id)
          && ((parent.shard_id =? pos 0) && (parent.segment_id =? pos 0)))
  | region ↦
      is_layer parent.layer global
      && ((parent.region_id =? []) && ((parent.shard_id =? pos 0) && (parent.segment_id =? pos 0)))
  | _ ↦ false
]

-- `matchTrustedRoot`
unfoldable pub match_trusted_root : Hash → Hash → Result VerifyError (Unit {0})
match_trusted_root calculated trusted = guard (calculated =? trusted) root_mismatch

module _ ⦃sha : Sha256⦄ where
  -- `committedRoot`
  unfoldable pub committed_root : TreeRef → ℤ → Hash → Hash
  committed_root tree leaf_count raw_root = elim tree.layer [
    | segment ↦ commit_segment_root tree.region_id tree.shard_id tree.segment_id leaf_count raw_root
    | shard ↦ commit_shard_root tree.region_id tree.shard_id leaf_count raw_root
    | region ↦ commit_region_root tree.region_id leaf_count raw_root
    | global ↦ commit_global_root leaf_count raw_root
    | other ↦ zero_hash
  ]
