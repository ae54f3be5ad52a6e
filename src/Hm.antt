-- ===== src/Hm.antt =====
-- Package internal/hm: the active segments of the shards, manager.go. A map that holds pointers holds
-- what they point to. A time is the number of nanoseconds since Go's zero time, and `now` is what
-- time.Now returned. Each operation holds the locks of the state it reads and writes.
pub mod Close
pub mod Open
mod Tests
use storage_aware_hmfaudit.Prelude.{
  ℕ, Bool, Option, none, some, List, [], ◌∷◌, if◌then◌else◌, ℤ, pos, ◌=?◌, int_eq, next_int64,
  Assoc, lookup, insert, is_some, Eq, Result, ok, err,
}
use storage_aware_hmfaudit.Crypto.{Bytes, Hash, Sha256}
use storage_aware_hmfaudit.Hmf.Node.{TreeId, MerkleNode, tree_id_eq}
use storage_aware_hmfaudit.Hmf.Segment.{SegmentTree, SegmentError, new_segment_tree, seal}
use storage_aware_hmfaudit.Hmf.Forest.{
  Forest, ForestError, HmfUpdate, shard_id_of, append_sealed_segment,
}

-- `activeSegment`
pub record ActiveSegment : Type 0 where
  pub tree : SegmentTree
  pub created_at : ℤ
  pub started_at : ℤ
  pub ended_at : ℤ
  pub sealed_at : ℤ

-- The part of `Manager` that opening and closing a segment use.
pub record Manager : Type 0 where
  pub forest : Forest
  pub max_segment_leaves : ℕ
  pub segment_duration : ℤ
  pub active_segments : Assoc TreeId ActiveSegment
  pub next_segment_ids : Assoc TreeId ℤ

pub data ManagerError : Type 0 where
  unknown_shard already_active not_active : ManagerError
  of_segment : SegmentError → ManagerError
  of_forest : ForestError → ManagerError

-- `hmf.HMFUpdate` with the fields of the segment.
pub record SegmentUpdate : Type 0 where
  pub hierarchy : HmfUpdate
  pub segment_tree_id : TreeId
  pub segment_nodes : List MerkleNode
  pub segment_root : Hash
  pub segment_leaves : ℕ
  pub segment_height : ℕ
  pub segment_max_leaves : ℕ
  pub segment_max_age : ℤ
  pub segment_created_at : ℤ
  pub segment_started_at : ℤ
  pub segment_ended_at : ℤ
  pub segment_sealed_at : ℤ

-- `delete(m, key)`
unfoldable pub delete {ℓ κ} : {K : Type ℓ} {V : Type κ} ⦃e : Eq K⦄ → K → Assoc K V → Assoc K V
delete k [] = []
delete ⦃e⦄ k ((j, v) ∷ m) = if e.beq j k then delete k m else (j, v) ∷ delete k m

unfoldable pub open_segment :
    ℤ → Manager → Bytes → ℤ → ℤ → Result ManagerError (Manager × SegmentTree)
open_segment now hm region_id shard_id segment_id =
    let key = shard_id_of region_id shard_id in
    if is_some (lookup key hm.forest.shard_trees)
    then if is_some (lookup key hm.active_segments)
      then err already_active
      else (let opened = new_segment_tree region_id shard_id segment_id hm.max_segment_leaves in
          ok (
            record hm {
              active_segments =
                  insert key
                    (record {
                      tree = opened;
                      created_at = now;
                      started_at = pos 0;
                      ended_at = pos 0;
                      sealed_at = pos 0;
                    })
                    hm.active_segments;
            },
            opened,
          ))
    else err unknown_shard

-- A missing entry reads as 0.
abbrev pub id_or_zero : Option ℤ → ℤ
id_or_zero none = pos 0
id_or_zero (some id) = id

unfoldable pub next_segment_id : Manager → Bytes → ℤ → ℤ × Manager
next_segment_id hm region_id shard_id =
    let key = shard_id_of region_id shard_id in
    let id = id_or_zero (lookup key hm.next_segment_ids) in
    (id, record hm { next_segment_ids = insert key (next_int64 id) hm.next_segment_ids })

-- The time of the first try to seal the segment stays.
unfoldable pub mark_sealed : ℤ → ActiveSegment → ActiveSegment
mark_sealed now active = record active {
  sealed_at = if active.sealed_at =? pos 0 then now else active.sealed_at;
}

abbrev pub keep : TreeId → ActiveSegment → Manager → Manager
keep key active hm = record hm { active_segments = insert key active hm.active_segments }

-- The update that is returned, with the fields of the segment.
unfoldable pub segment_update :
    Manager → ActiveSegment → SegmentTree → List MerkleNode → HmfUpdate → SegmentUpdate
segment_update hm active sealed nodes update = record {
  hierarchy = update;
  segment_tree_id = sealed.tree.tree_id;
  segment_nodes = nodes;
  segment_root = sealed.tree.root;
  segment_leaves = sealed.tree.leaf_count;
  segment_height = sealed.tree.height;
  segment_max_leaves = sealed.max_leaves;
  segment_max_age = hm.segment_duration;
  segment_created_at = active.created_at;
  segment_started_at = active.started_at;
  segment_ended_at = active.ended_at;
  segment_sealed_at = active.sealed_at;
}

module _ ⦃sha : Sha256⦄ where
  -- What follows `AppendSealedSegment`: the segment is no longer active when that returned no error.
  abbrev finish_close :
      TreeId
      → Manager
      → ActiveSegment
      → SegmentTree
      → List MerkleNode
      → Result ForestError HmfUpdate × Forest
      → Result ManagerError SegmentUpdate × Manager
  finish_close key hm active sealed nodes (err e, forest) = (
    err (of_forest e),
    keep key (record active { tree = sealed }) (record hm { forest = forest }),
  )
  finish_close key hm active sealed nodes (ok update, forest) = (
    ok (segment_update hm active sealed nodes update),
    record hm { forest = forest; active_segments = delete key hm.active_segments },
  )

  -- What follows the seal, which changes the tree that the manager holds.
  abbrev append_sealed :
      Bytes
      → ℤ
      → Manager
      → ActiveSegment
      → Result SegmentError (SegmentTree × List MerkleNode)
      → Result ManagerError SegmentUpdate × Manager
  append_sealed region_id shard_id hm active (err e) =
      (err (of_segment e), keep (shard_id_of region_id shard_id) active hm)
  append_sealed region_id shard_id hm active (ok (sealed, nodes)) =
      finish_close (shard_id_of region_id shard_id) hm active sealed nodes (
        append_sealed_segment hm.forest region_id shard_id sealed.tree.tree_id.segment_id
          (pos sealed.tree.leaf_count) sealed.tree.root)

  unfoldable pub close_segment :
      ℤ → Manager → Bytes → ℤ → Result ManagerError SegmentUpdate × Manager
  close_segment now hm region_id shard_id =
      elim (lookup (shard_id_of region_id shard_id) hm.active_segments) [
        | none ↦ (err not_active, hm)
        | some active ↦
            append_sealed region_id shard_id hm (mark_sealed now active) (seal active.tree)
      ]
