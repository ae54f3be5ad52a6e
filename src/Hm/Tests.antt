-- ===== src/Hm/Tests.antt =====
-- Runs of internal/hm/manager.go at concrete inputs.
use storage_aware_hmfaudit.Prelude
use storage_aware_hmfaudit.Prelude.{
  refl, [], ◌∷◌, length, replicate, arith, pos, Assoc, Yields, value_or,
}
use storage_aware_hmfaudit.Crypto.{zero_hash}
use storage_aware_hmfaudit.Crypto.Sample.{sample_sha, three_hashes, eu}
use storage_aware_hmfaudit.Hmf.Node.{leaf_nodes}
use storage_aware_hmfaudit.Hmf.Forest.{Forest, shard_id_of}
use storage_aware_hmfaudit.Hmf.Forest.Propagate.{IsPlaced}
use storage_aware_hmfaudit.Hmf.Segment.{SegmentTree, new_segment_tree}
use storage_aware_hmfaudit.Hmf.Segment.Fill.{IsOpen}
use storage_aware_hmfaudit.Hmf.Shard.{new_shard_tree}
use storage_aware_hmfaudit.Hmf.Shard.Correct.{new_shard_tree-HasLeaves}
use storage_aware_hmfaudit.Hmf.Region.{RegionTree, blank_region_tree, new_region_tree}
use storage_aware_hmfaudit.Hmf.Region.Correct.{HasShards, new_region_tree-HasShards}
use storage_aware_hmfaudit.Hmf.Global.{GlobalTree, blank_global_tree, new_global_tree}
use storage_aware_hmfaudit.Hmf.Global.Correct.{HasRegions, new_global_tree-HasRegions}
use storage_aware_hmfaudit.Hm.{ActiveSegment, Manager, open_segment, close_segment}
use storage_aware_hmfaudit.Hm.Close.{IsClosed, close_segment-IsClosed}
use storage_aware_hmfaudit.Hm.Open.{IsOpened, open_segment-IsOpened}

-- An active segment of three leaves.
abbrev filled_tree : SegmentTree
unfolding new_segment_tree
filled_tree = record (new_segment_tree eu (pos 1) (pos 0) 3) {
  levels = leaf_nodes 0 three_hashes ∷ [];
  tree = record ((new_segment_tree eu (pos 1) (pos 0) 3).tree) { leaf_count = 3 };
}

filled_tree-IsOpen : IsOpen three_hashes filled_tree
unfolding filled_tree
filled_tree-IsOpen = record { unsealed = refl; holds = refl; counts = refl; fits = omega arith }

abbrev filled_segment : ActiveSegment
filled_segment = record {
  tree = filled_tree;
  created_at = pos 10;
  started_at = pos 11;
  ended_at = pos 14;
  sealed_at = pos 0;
}

abbrev eu_region : RegionTree
eu_region = value_or (blank_region_tree eu 3) (new_region_tree eu 3)

eu_region-HasShards : HasShards (replicate 3 zero_hash) eu_region
unfolding new_region_tree
eu_region-HasShards = new_region_tree-HasShards eu 3 (omega arith)

abbrev whole_tree : GlobalTree
whole_tree = value_or (blank_global_tree 3) (new_global_tree 3)

whole_tree-HasRegions : HasRegions (replicate 3 zero_hash) whole_tree
unfolding new_global_tree
whole_tree-HasRegions = new_global_tree-HasRegions 3 (omega arith)

-- Shard 1 of region eu in its place.
abbrev eu_forest : Forest
eu_forest = record {
  global_tree = whole_tree;
  region_trees = (eu, eu_region) ∷ [];
  shard_trees = (shard_id_of eu (pos 1), new_shard_tree eu (pos 1)) ∷ [];
  region_indexes = (eu, 0) ∷ [];
  shard_indexes = (shard_id_of eu (pos 1), 1) ∷ [];
}

eu_forest-IsPlaced :
    IsPlaced eu (pos 1) [] (replicate 3 zero_hash) (replicate 3 zero_hash) eu_forest
unfolding Prelude.lookup
eu_forest-IsPlaced = record {
  shard_tree = new_shard_tree eu (pos 1);
  region_tree = eu_region;
  shard_found = refl;
  region_found = refl;
  leaves = new_shard_tree-HasLeaves eu (pos 1);
  shards = eu_region-HasShards;
  regions = whole_tree-HasRegions;
  shard_place = omega arith;
  region_place = omega arith;
}

abbrev one_active : Manager
one_active = record {
  forest = eu_forest;
  max_segment_leaves = 3;
  segment_duration = pos 60;
  active_segments = (shard_id_of eu (pos 1), filled_segment) ∷ [];
  next_segment_ids = (shard_id_of eu (pos 1), pos 1) ∷ [];
}

close_segment-IsClosed_example :
    let done = close_segment (pos 15) one_active eu (pos 1) in
    Yields
      (λ update.
        IsClosed eu
          (pos 1)
          (pos 0)
          three_hashes
          []
          (replicate 3 zero_hash)
          (replicate 3 zero_hash)
          one_active
          update
          done.1)
      done.0
unfolding Prelude.lookup filled_tree
close_segment-IsClosed_example =
    close_segment-IsClosed (pos 15) one_active eu (pos 1) filled_segment three_hashes []
      (replicate 3 zero_hash) (replicate 3 zero_hash) refl filled_tree-IsOpen (omega arith) refl
      eu_forest-IsPlaced

-- The same shard before a segment is opened.
abbrev idle : Manager
idle = record one_active { active_segments = [] }

open_segment-IsOpened_example :
    Yields
      (λ r. IsOpened (pos 9) eu (pos 1) idle r.1 r.0)
      (open_segment (pos 9) idle eu (pos 1) (pos 2))
unfolding Prelude.lookup
open_segment-IsOpened_example = open_segment-IsOpened (pos 9) idle eu (pos 1) (pos 2) refl refl
