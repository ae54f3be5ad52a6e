-- ===== src/Hm/Open.antt =====
-- Opening a segment of a shard.
use storage_aware_hmfaudit.Prelude.{
  ◌≡◌, ◌≢◌, refl, false, true, some, [], arith, ℤ, pos, lookup, insert, lookup-insert, err, Yields,
  is_some,
}
use storage_aware_hmfaudit.Crypto.{Bytes}
use storage_aware_hmfaudit.Hmf.Node.{TreeId, tree_id_eq}
use storage_aware_hmfaudit.Hmf.Segment.{SegmentTree, new_segment_tree}
use storage_aware_hmfaudit.Hmf.Segment.Fill.{IsOpen, new_segment_tree-IsOpen}
use storage_aware_hmfaudit.Hmf.Forest.{shard_id_of}
use storage_aware_hmfaudit.Hm.{ActiveSegment, Manager, already_active, open_segment}

-- `opened` is the shard's active segment, new and empty.
pub record IsOpened (now : ℤ) (region_id : Bytes) (shard_id : ℤ) (before : Manager)
    (opened : SegmentTree) (after : Manager) : Type 0 where
  pub empty : IsOpen [] opened
  pub active :
      lookup (shard_id_of region_id shard_id) after.active_segments
      ≡ some (record {
        tree = opened;
        created_at = now;
        started_at = pos 0;
        ended_at = pos 0;
        sealed_at = pos 0;
      })
  pub forest : after.forest ≡ before.forest
  pub others :
      (key : TreeId)
      → shard_id_of region_id shard_id ≢ key
      → lookup key after.active_segments ≡ lookup key before.active_segments
  pub refuses :
      (later segment_id : ℤ)
      → open_segment later after region_id shard_id segment_id ≡ err already_active

refuses-active :
    (now : ℤ) (hm : Manager) (region_id : Bytes) (shard_id segment_id : ℤ)
    → is_some (lookup (shard_id_of region_id shard_id) hm.forest.shard_trees) ≡ true
    → is_some (lookup (shard_id_of region_id shard_id) hm.active_segments) ≡ true
    → open_segment now hm region_id shard_id segment_id ≡ err already_active
unfolding open_segment
refuses-active now hm region_id shard_id segment_id known active = rw (known, active) refl

inserted-IsOpened :
    (now : ℤ) (hm : Manager) (region_id : Bytes) (shard_id : ℤ) (opened : SegmentTree)
    → is_some (lookup (shard_id_of region_id shard_id) hm.forest.shard_trees) ≡ true
    → IsOpen [] opened
    → IsOpened now region_id shard_id hm opened (record hm {
      active_segments =
          insert
            (shard_id_of region_id shard_id)
            (record {
              tree = opened;
              created_at = now;
              started_at = pos 0;
              ended_at = pos 0;
              sealed_at = pos 0;
            })
            hm.active_segments;
    })
inserted-IsOpened now hm region_id shard_id opened known empty =
    let key = shard_id_of region_id shard_id in
    let segment : ActiveSegment = record {
      tree = opened;
      created_at = now;
      started_at = pos 0;
      ended_at = pos 0;
      sealed_at = pos 0;
    } in
    let after : Manager = record hm { active_segments = insert key segment hm.active_segments } in
    let found : lookup key after.active_segments ≡ some segment =
      ground
        (arith, lookup-insert key key segment hm.active_segments, tree_id_eq.beq_iff key key) in
    record {
      empty = empty;
      active = found;
      forest = refl;
      others = λ k other.
          ground (arith, lookup-insert key k segment hm.active_segments, tree_id_eq.beq_iff key k);
      refuses = λ later segment_id.
          refuses-active later after region_id shard_id segment_id known (rw found refl);
    }

-- A segment of a known shard without an active segment is opened. It is empty and the shard's active
-- segment, created now; the forest and the other shards' segments stay; and until it is closed the
-- shard refuses to open another.
pub open_segment-IsOpened :
    (now : ℤ) (hm : Manager) (region_id : Bytes) (shard_id segment_id : ℤ)
    → is_some (lookup (shard_id_of region_id shard_id) hm.forest.shard_trees) ≡ true
    → is_some (lookup (shard_id_of region_id shard_id) hm.active_segments) ≡ false
    → Yields
        (λ r. IsOpened now region_id shard_id hm r.1 r.0)
        (open_segment now hm region_id shard_id segment_id)
unfolding open_segment
open_segment-IsOpened now hm region_id shard_id segment_id known idle =
    rw (known, idle)
      (inserted-IsOpened now hm region_id shard_id
        (new_segment_tree region_id shard_id segment_id hm.max_segment_leaves) known
        (new_segment_tree-IsOpen region_id shard_id segment_id hm.max_segment_leaves))
