-- ===== src/Hmf/Tests.antt =====
-- Runs of the trees of internal/hmf at concrete inputs.
use storage_aware_hmfaudit.Prelude
use storage_aware_hmfaudit.Prelude.{
  ◌≤◌, ◌<◌, ◌≡◌, ◌≢◌, refl, ◌⊎◌, length, [], ◌∷◌, set, flatten, replicate, arith, pos, negsuc, err,
  ◌>>=◌, Yields, value_or,
}
use storage_aware_hmfaudit.Crypto.{Collision, zero_hash}
use storage_aware_hmfaudit.Crypto.Sample.{sample_sha, hash_of, three_hashes, eu}
use storage_aware_hmfaudit.Hmf.Node.{leaf_nodes}
use storage_aware_hmfaudit.Hmf.Commitment.{segment_kind, shard_kind, commit_tree_root}
use storage_aware_hmfaudit.Hmf.Forest.{Forest, shard_id_of, append_sealed_segment}
use storage_aware_hmfaudit.Hmf.Forest.Propagate.{IsPlaced, HasGrown, append_sealed_segment-HasGrown}
use storage_aware_hmfaudit.Hmf.Commitment.Binding.{Committed, IsInRange, commit_tree_root_binds}
use storage_aware_hmfaudit.Hmf.Segment
use storage_aware_hmfaudit.Hmf.Segment.{
  SegmentTree, new_segment_tree, seal, sealed, full, already_sealed, finish_build,
}
use storage_aware_hmfaudit.Hmf.Segment.Fill
use storage_aware_hmfaudit.Hmf.Segment.Fill.{IsOpen, append_all-new_segment_tree}
use storage_aware_hmfaudit.Hmf.Segment.Root.{IsSealed, seal_final}
use storage_aware_hmfaudit.Hmf.Shard
use storage_aware_hmfaudit.Hmf.Shard.{ShardTree, new_shard_tree}
use storage_aware_hmfaudit.Hmf.Shard.Correct.{HasLeaves, new_shard_tree-HasLeaves, append-HasLeaves}
use storage_aware_hmfaudit.Hmf.Agreement.{Same, append_all-eq-seal}
use storage_aware_hmfaudit.Hmf.Region
use storage_aware_hmfaudit.Hmf.Region.{
  RegionTree, wrong_leaf_count, blank_region_tree, new_region_tree, update_shard_root,
}
use storage_aware_hmfaudit.Hmf.Region.Correct.{
  HasShards, new_region_tree-HasShards, build-rebuilds, update_shard_root-eq-build,
}
use storage_aware_hmfaudit.Hmf.Global
use storage_aware_hmfaudit.Hmf.Global.{
  GlobalTree, blank_global_tree, new_global_tree, update_region_root,
}
use storage_aware_hmfaudit.Hmf.Global.Correct.{
  HasRegions, new_global_tree-HasRegions, update_region_root-eq-build,
}

-- The commitment of shard 4 of region eu with 3 segments.
abbrev committed_shard : Committed
committed_shard = record {
  kind = shard_kind;
  region_id = eu;
  shard_id = pos 4;
  segment_id = negsuc 0;
  leaf_count = pos 3;
  raw_root = hash_of 9;
}

abbrev committed_shard-IsInRange : IsInRange committed_shard
committed_shard-IsInRange = record {
  kind_length = omega arith;
  region_length = omega arith;
  shard_range = omega arith;
  segment_range = omega arith;
  leaf_range = omega arith;
}

commit_tree_root_binds_example : Collision ⊎ (committed_shard ≡ committed_shard)
commit_tree_root_binds_example =
    commit_tree_root_binds committed_shard committed_shard committed_shard-IsInRange
      committed_shard-IsInRange refl

append_all-new_segment_tree_example :
    ((length three_hashes ≤ 2)
      × Yields
          (IsOpen three_hashes)
          (Fill.append_all (new_segment_tree eu (pos 4) (pos 0) 2) three_hashes))
    ⊎ ((2 < length three_hashes)
        × (Fill.append_all (new_segment_tree eu (pos 4) (pos 0) 2) three_hashes ≡ err full))
append_all-new_segment_tree_example = append_all-new_segment_tree eu (pos 4) (pos 0) 2 three_hashes

-- A segment with three leaves, as many as it has room for.
abbrev open_segment : SegmentTree
unfolding new_segment_tree
open_segment = record (new_segment_tree eu (pos 4) (pos 0) 3) {
  levels = leaf_nodes 0 three_hashes ∷ [];
  tree = record ((new_segment_tree eu (pos 4) (pos 0) 3).tree) { leaf_count = 3 };
}

abbrev open_segment-IsOpen : IsOpen three_hashes open_segment
unfolding open_segment
open_segment-IsOpen = record { unsealed = refl; holds = refl; counts = refl; fits = omega arith }

seal_final_example :
    Yields
      (λ u.
        IsSealed three_hashes u.0
        × (Segment.append u.0 (hash_of 4) ≡ err sealed)
        × (seal u.0 ≡ err already_sealed))
      (Fill.append_all (new_segment_tree eu (pos 4) (pos 0) 5) three_hashes >>= seal)
seal_final_example =
    seal_final eu (pos 4) (pos 0) 5 three_hashes (hash_of 4) (omega arith) (omega arith)

append-HasLeaves_example :
    Yields
      (λ r. HasLeaves (hash_of 1 ∷ []) r.0)
      (Shard.append (new_shard_tree eu (pos 4)) (hash_of 1))
append-HasLeaves_example =
    append-HasLeaves [] (new_shard_tree eu (pos 4)) (hash_of 1)
      (new_shard_tree-HasLeaves eu (pos 4))

append_all-eq-seal_example :
    Yields
      (λ t.
        Yields
          (λ r. Same t r.0)
          (Fill.append_all (new_segment_tree eu (pos 4) (pos 0) 3) three_hashes >>= seal))
      (Shard.append_all (new_shard_tree eu (pos 4)) three_hashes)
append_all-eq-seal_example =
    append_all-eq-seal eu (pos 4) (pos 0) 3 three_hashes (omega arith) (omega arith)

new_region_tree-HasShards_example :
    Yields (HasShards (replicate 3 zero_hash)) (new_region_tree eu 3)
new_region_tree-HasShards_example = new_region_tree-HasShards eu 3 (omega arith)

abbrev region_of_three : RegionTree
region_of_three = value_or (blank_region_tree eu 3) (new_region_tree eu 3)

region_of_three-HasShards : HasShards (replicate 3 zero_hash) region_of_three
unfolding new_region_tree
region_of_three-HasShards = new_region_tree-HasShards eu 3 (omega arith)

build-rebuilds_example :
    ((length (replicate 3 zero_hash) ≡ length three_hashes)
      × Yields
          (λ r. HasShards three_hashes r.0 × (r.1 ≡ flatten r.0.levels))
          (Region.build region_of_three three_hashes))
    ⊎ ((length (replicate 3 zero_hash) ≢ length three_hashes)
        × (Region.build region_of_three three_hashes ≡ err wrong_leaf_count))
build-rebuilds_example =
    build-rebuilds (replicate 3 zero_hash) three_hashes region_of_three region_of_three-HasShards

update_shard_root-eq-build_example :
    Yields
      (λ r.
        HasShards (set (replicate 3 zero_hash) 2 (hash_of 5)) r.0
        × Yields
            (λ b. b.0 ≡ r.0)
            (Region.build region_of_three (set (replicate 3 zero_hash) 2 (hash_of 5))))
      (update_shard_root region_of_three 2 (hash_of 5))
update_shard_root-eq-build_example =
    update_shard_root-eq-build (replicate 3 zero_hash) region_of_three 2 (hash_of 5)
      region_of_three-HasShards (omega arith)

new_global_tree-HasRegions_example : Yields (HasRegions (replicate 3 zero_hash)) (new_global_tree 3)
new_global_tree-HasRegions_example = new_global_tree-HasRegions 3 (omega arith)

abbrev three_regions : GlobalTree
three_regions = value_or (blank_global_tree 3) (new_global_tree 3)

three_regions-HasRegions : HasRegions (replicate 3 zero_hash) three_regions
unfolding new_global_tree
three_regions-HasRegions = new_global_tree-HasRegions 3 (omega arith)

update_region_root-eq-build_example :
    Yields
      (λ r.
        HasRegions (set (replicate 3 zero_hash) 1 (hash_of 5)) r.0
        × Yields
            (λ b. b.0 ≡ r.0)
            (Global.build three_regions (set (replicate 3 zero_hash) 1 (hash_of 5))))
      (update_region_root three_regions 1 (hash_of 5))
update_region_root-eq-build_example =
    update_region_root-eq-build (replicate 3 zero_hash) three_regions 1 (hash_of 5)
      three_regions-HasRegions (omega arith)

-- A forest with shard 1 of region eu, in its place.
abbrev small_forest : Forest
small_forest = record {
  global_tree = three_regions;
  region_trees = (eu, region_of_three) ∷ [];
  shard_trees = (shard_id_of eu (pos 1), new_shard_tree eu (pos 1)) ∷ [];
  region_indexes = (eu, 0) ∷ [];
  shard_indexes = (shard_id_of eu (pos 1), 1) ∷ [];
}

small_forest-IsPlaced :
    IsPlaced eu (pos 1) [] (replicate 3 zero_hash) (replicate 3 zero_hash) small_forest
unfolding Prelude.lookup
small_forest-IsPlaced = record {
  shard_tree = new_shard_tree eu (pos 1);
  region_tree = region_of_three;
  shard_found = refl;
  region_found = refl;
  leaves = new_shard_tree-HasLeaves eu (pos 1);
  shards = region_of_three-HasShards;
  regions = three_regions-HasRegions;
  shard_place = omega arith;
  region_place = omega arith;
}

append_sealed_segment-HasGrown_example :
    let done = append_sealed_segment small_forest eu (pos 1) (pos 0) (pos 3) (hash_of 7) in
    Yields
      (λ update.
        HasGrown eu
          (pos 1)
          []
          (replicate 3 zero_hash)
          (replicate 3 zero_hash)
          (commit_tree_root segment_kind eu (pos 1) (pos 0) (pos 3) (hash_of 7))
          small_forest
          update
          done.1)
      done.0
append_sealed_segment-HasGrown_example =
    append_sealed_segment-HasGrown small_forest eu (pos 1) (pos 0) (pos 3) (hash_of 7) []
      (replicate 3 zero_hash) (replicate 3 zero_hash) small_forest-IsPlaced refl
