-- ===== src/Hpp/Tests.antt =====
-- Runs of the planner and of the reconstruction at concrete inputs.
use storage_aware_hmfaudit.Prelude
use storage_aware_hmfaudit.Prelude.{true}
use storage_aware_hmfaudit.Prelude.{
  ℕ, ◌+◌, ◌≡◌, ◌≤◌, ◌<◌, refl, ◌⊎◌, List, [], ◌∷◌, All, arith, Assoc, ℤ, pos, ok,
}
use storage_aware_hmfaudit.Crypto.{Hash, Collision, node_hash}
use storage_aware_hmfaudit.Crypto.Sample.{sample_sha, hash_of, three_hashes}
use storage_aware_hmfaudit.Hmf.Merkle
use storage_aware_hmfaudit.Hmf.Merkle.{IsHeight}
use storage_aware_hmfaudit.Hpp.Types.{at, TreeRef, TreePlan, region}
use storage_aware_hmfaudit.Hpp.Verify.{
  validate_tree_plan_shape, valid_parent_link, shard_tree, region_tree,
}
use storage_aware_hmfaudit.Hpp.Verify.Checks.{
  validate_tree_plan_shape-canonical, valid_parent_link_unique,
}
use storage_aware_hmfaudit.Hpp.Plan
use storage_aware_hmfaudit.Hpp.Plan.{plan_tree}
use storage_aware_hmfaudit.Hpp.Plan.Ascending.{IsDistinct}
use storage_aware_hmfaudit.Hpp.Plan.Total.{IsPlan, plan_tree-IsPlan}
use storage_aware_hmfaudit.Hpp.Rebuild.Multiproof.{keys, reconstruct_tree_root-planned}
use storage_aware_hmfaudit.Crypto.Sample.{eu}
use storage_aware_hmfaudit.Prelude.{length, map, Yields}
use storage_aware_hmfaudit.Hpp.Rebuild
use storage_aware_hmfaudit.Hpp.Rebuild.{Proof, reconstruct_tree_root}
use storage_aware_hmfaudit.Hpp.Rebuild.Root.{Holds, reconstruct_tree_root_binds}

-- The first of three leaves, with its sibling and the promoted third leaf as proof nodes.
abbrev first_leaf : Assoc ℤ Hash
first_leaf = (pos 0, hash_of 1) ∷ []

abbrev path_of_first : Proof
path_of_first = (at 0 1, hash_of 2) ∷ (at 1 1, hash_of 3) ∷ []

abbrev root_of_three : Hash
root_of_three = node_hash (node_hash (hash_of 1) (hash_of 2)) (hash_of 3)

three-IsHeight : IsHeight 3 2
three-IsHeight = record { enough = omega arith; tight = omega arith }

reconstruct_first : reconstruct_tree_root (pos 3) first_leaf path_of_first ≡ ok root_of_three
unfolding reconstruct_tree_root Rebuild.rebuild_level Rebuild.insert_entry Prelude.lookup
    Plan.next_width
reconstruct_first = refl

reconstruct_tree_root_binds_example : Collision ⊎ All (Holds three_hashes) first_leaf
unfolding Merkle.up Merkle.pair_up
reconstruct_tree_root_binds_example =
    reconstruct_tree_root_binds three_hashes 2 first_leaf path_of_first root_of_three
      (refl, (refl, (refl, tt))) (refl, tt) (refl, (refl, tt)) (omega arith) three-IsHeight refl
      reconstruct_first

abbrev region_ref : TreeRef
region_ref = record { layer = region; region_id = eu; shard_id = pos 0; segment_id = pos 0 }

abbrev plan_of_first : TreePlan
plan_of_first = record {
  tree = region_ref;
  leaf_count = pos 3;
  targets = pos 0 ∷ [];
  required = at 0 1 ∷ at 1 1 ∷ [];
}

plan_first : plan_tree region_ref (pos 3) (keys first_leaf) ≡ ok plan_of_first
unfolding plan_tree Plan.plan_level Plan.insert_sorted Plan.next_width
plan_first = refl

reconstruct_tree_root-planned_example :
    reconstruct_tree_root (pos (length three_hashes)) first_leaf path_of_first ≡ ok root_of_three
unfolding Merkle.up Merkle.pair_up Prelude.lookup
reconstruct_tree_root-planned_example =
    reconstruct_tree_root-planned region_ref three_hashes 2 root_of_three first_leaf plan_of_first
      path_of_first (omega arith) three-IsHeight refl (refl, tt) (tt, tt) plan_first
      (refl, (refl, tt)) refl

plan_tree-IsPlan_example :
    Yields (IsPlan region_ref 3 (2 ∷ 0 ∷ [])) (plan_tree region_ref (pos 3) (map pos (2 ∷ 0 ∷ [])))
plan_tree-IsPlan_example =
    plan_tree-IsPlan region_ref 3 (2 ∷ 0 ∷ []) (omega arith)
      (((λ e. omega (arith, e)), tt), (tt, tt)) (omega arith, (omega arith, tt)) (omega arith)

shape_of_first : validate_tree_plan_shape plan_of_first ≡ ok tt
unfolding validate_tree_plan_shape plan_tree Plan.plan_level Plan.insert_sorted Plan.next_width
shape_of_first = refl

validate_tree_plan_shape-canonical_example :
    (plan_tree region_ref (pos 3) (pos 0 ∷ []) ≡ ok plan_of_first) × IsDistinct (pos 0 ∷ [])
validate_tree_plan_shape-canonical_example =
    validate_tree_plan_shape-canonical plan_of_first shape_of_first

shard_of_region : valid_parent_link (shard_tree eu (pos 4)) (region_tree eu) ≡ true
unfolding valid_parent_link shard_tree region_tree
shard_of_region = refl

valid_parent_link_unique_example : region_tree eu ≡ region_tree eu
valid_parent_link_unique_example =
    valid_parent_link_unique (shard_tree eu (pos 4)) (region_tree eu) (region_tree eu)
      shard_of_region shard_of_region
