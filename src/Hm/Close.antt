-- ===== src/Hm/Close.antt =====
-- Closing a segment puts its root in its place in the forest, and its shard has no active segment
-- then.
use storage_aware_hmfaudit.Prelude.{
  ℕ, ◌<◌, ◌≡◌, ◌≢◌, refl, sym, ap, ap₂, subst, ◌∙◌, inl, inr, true, ◌&&◌, not, get_or, suc,
  Bool-cases, Option-cases, if◌then◌else◌, ◌==◌, none, some, List, [], ◌∷◌, length, arith, ℤ, pos,
  ltb_ℤ, leb_ℤ, Assoc, lookup, Eq, Result, ok, Yields, Yields-inv, guard-eq-ok, >>=-eq-ok,
}
use storage_aware_hmfaudit.Crypto.{Bytes, Hash, Sha256}
use storage_aware_hmfaudit.Hmf.Node.{TreeId, MerkleNode, tree_id_eq}
use storage_aware_hmfaudit.Hmf.Merkle.{up}
use storage_aware_hmfaudit.Hmf.Commitment.{commit_segment_root}
use storage_aware_hmfaudit.Hmf.Segment.{
  SegmentTree, already_sealed, seal, build_internal_node, build_levels, finish_build,
}
use storage_aware_hmfaudit.Hmf.Segment.Fill.{IsOpen}
use storage_aware_hmfaudit.Hmf.Segment.Root.{IsSealed, seal-IsSealed}
use storage_aware_hmfaudit.Hmf.Forest.{Forest, HmfUpdate, shard_id_of, append_sealed_segment}
use storage_aware_hmfaudit.Hmf.Forest.Propagate.{IsPlaced, HasGrown, append_sealed_segment-HasGrown}
use storage_aware_hmfaudit.Hm.{
  ActiveSegment, Manager, SegmentUpdate, delete, mark_sealed, segment_update, finish_close,
  close_segment,
}

lookup-delete {ℓ κ} :
    {K : Type ℓ} {V : Type κ} ⦃e : Eq K⦄ (k j : K) (m : Assoc K V)
    → lookup j (delete k m) ≡ (if e.beq k j then none else lookup j m)
unfolding lookup delete
lookup-delete ⦃e⦄ k j [] = ground arith
lookup-delete ⦃e⦄ k j ((i, v) ∷ m) =
    ground (arith, e.beq_iff k j, e.beq_iff i k, e.beq_iff i j, lookup-delete k j m)

-- A closed segment over the leaves `hs`.
pub record IsClosed ⦃sha : Sha256⦄ (region_id : Bytes) (shard_id segment_id : ℤ)
    (hs ls ss gs : List Hash) (before : Manager) (update : SegmentUpdate) (after : Manager)
    : Type 0 where
  pub leaves : update.segment_leaves ≡ length hs
  pub root : up update.segment_height hs ≡ update.segment_root ∷ []
  pub grown :
      HasGrown region_id shard_id ls ss gs
        (commit_segment_root region_id shard_id segment_id (pos (length hs)) update.segment_root)
        before.forest
        update.hierarchy
        after.forest
  pub inactive : lookup (shard_id_of region_id shard_id) after.active_segments ≡ none
  pub others :
      (key : TreeId)
      → shard_id_of region_id shard_id ≢ key
      → lookup key after.active_segments ≡ lookup key before.active_segments

ok_inj : {E A : Type 0} {a b : A} → ◌≡◌ {A = Result E A} (ok a) (ok b) → a ≡ b
ok_inj e = cc

module _ ⦃sha : Sha256⦄ where
  build-keeps :
      (t : SegmentTree) (r : SegmentTree × List MerkleNode)
      → build_internal_node t ≡ ok r
      → r.0.tree.tree_id ≡ t.tree.tree_id
  unfolding build_internal_node finish_build
  build-keeps t r e =
      let leaves : List MerkleNode = get_or t.levels 0 [] in
      elim (Bool-cases (t.tree.leaf_count == 0)) [
        | inl empty ↦ cc (rw empty at e)
        | inr filled ↦ elim (Option-cases (build_levels (suc (length leaves)) 1 leaves)) [
          | inl stuck ↦ cc (rw (filled, stuck) at e)
          | inr (above, built) ↦
              let done = ok_inj (rw (filled, built) at e) in
              ap (λ (p : SegmentTree × List MerkleNode). p.0.tree.tree_id) (sym done)
        ]
      ]

  seal-keeps :
      (t : SegmentTree) (r : SegmentTree × List MerkleNode)
      → seal t ≡ ok r
      → r.0.tree.tree_id ≡ t.tree.tree_id
  unfolding seal
  seal-keeps t r e =
      let (unsealed, e1) = guard-eq-ok (not t.is_sealed) already_sealed _ e in
      let (built, done, e2) = >>=-eq-ok (build_internal_node t) _ e1 in
      ap (λ (p : SegmentTree × List MerkleNode). p.0.tree.tree_id) (sym (ok_inj e2))
      ∙ build-keeps t built done

  -- Closing, once the seal and the forest returned no error.
  close_segment-ok :
      (now : ℤ) (hm : Manager) (region_id : Bytes) (shard_id : ℤ) (active : ActiveSegment)
      (sealed : SegmentTree) (nodes : List MerkleNode) (update : HmfUpdate) (forest : Forest)
      → lookup (shard_id_of region_id shard_id) hm.active_segments ≡ some active
      → seal active.tree ≡ ok (sealed, nodes)
      → append_sealed_segment hm.forest region_id shard_id sealed.tree.tree_id.segment_id
          (pos sealed.tree.leaf_count)
          sealed.tree.root
        ≡ (ok update, forest)
      → close_segment now hm region_id shard_id
        ≡ finish_close
            (shard_id_of region_id shard_id)
            hm
            (mark_sealed now active)
            sealed
            nodes
            (ok update, forest)
  unfolding close_segment
  close_segment-ok now hm region_id shard_id active sealed nodes update forest found done appended =
      rw (close_segment, found, done, appended) refl

  finish-IsClosed :
      (hm : Manager) (active : ActiveSegment) (region_id : Bytes) (shard_id segment_id : ℤ)
      (sealed : SegmentTree) (nodes : List MerkleNode) (hs ls ss gs : List Hash)
      (update : HmfUpdate) (forest : Forest)
      → IsSealed hs sealed
      → sealed.tree.tree_id.segment_id ≡ segment_id
      → HasGrown region_id shard_id ls ss gs
          (commit_segment_root region_id shard_id sealed.tree.tree_id.segment_id
            (pos sealed.tree.leaf_count)
            sealed.tree.root)
          hm.forest
          update
          forest
      → IsClosed region_id shard_id segment_id hs ls ss gs hm
          (segment_update hm active sealed nodes update)
          (record hm {
            forest = forest;
            active_segments = delete (shard_id_of region_id shard_id) hm.active_segments;
          })
  unfolding segment_update
  finish-IsClosed hm active region_id shard_id segment_id sealed nodes hs ls ss gs update forest
        done id grown =
      let key = shard_id_of region_id shard_id in
      record {
        leaves = done.counts;
        root = done.root;
        grown =
            subst (λ (c : Hash). HasGrown region_id shard_id ls ss gs c hm.forest update forest)
              (ap₂
                (λ (s : ℤ) (n : ℕ).
                  commit_segment_root region_id shard_id s (pos n) sealed.tree.root)
                id done.counts)
              grown;
        inactive =
            ground (arith, lookup-delete key key hm.active_segments, tree_id_eq.beq_iff key key);
        others = λ k other.
            ground (arith, lookup-delete key k hm.active_segments, tree_id_eq.beq_iff key k);
      }

  -- An active segment with leaves, numbered from 0, of a shard that has its place in the forest is
  -- closed without an error. Its raw root is the one hash left by pairing its leaves up; its
  -- commitment is the shard's new leaf, with the roots above following; and the shard alone has no
  -- active segment any more.
  pub close_segment-IsClosed :
      (now : ℤ) (hm : Manager) (region_id : Bytes) (shard_id : ℤ) (active : ActiveSegment)
      (hs ls ss gs : List Hash)
      → lookup (shard_id_of region_id shard_id) hm.active_segments ≡ some active
      → IsOpen hs active.tree
      → 0 < length hs
      → leb_ℤ (pos 0) active.tree.tree.tree_id.segment_id ≡ true
      → IsPlaced region_id shard_id ls ss gs hm.forest
      → let done = close_segment now hm region_id shard_id in
        Yields
          (λ update.
            IsClosed region_id shard_id active.tree.tree.tree_id.segment_id hs ls ss gs hm update
              done.1)
          done.0
  unfolding commit_segment_root
  close_segment-IsClosed now hm region_id shard_id active hs ls ss gs found filling some_leaf
        numbered placed =
      let ((sealed, nodes), done, (is_sealed, flat)) =
        Yields-inv _ (seal active.tree) (seal-IsSealed hs active.tree filling some_leaf) in
      let kept = seal-keeps active.tree (sealed, nodes) done in
      let id : sealed.tree.tree_id.segment_id ≡ active.tree.tree.tree_id.segment_id =
        ap (λ (t : TreeId). t.segment_id) kept in
      let call =
        append_sealed_segment hm.forest region_id shard_id sealed.tree.tree_id.segment_id
          (pos sealed.tree.leaf_count) sealed.tree.root in
      let valid : (leb_ℤ (pos 0) sealed.tree.tree_id.segment_id
            && ltb_ℤ (pos 0) (pos sealed.tree.leaf_count))
          ≡ true =
        ground (arith, numbered, is_sealed.counts, id) in
      let (update, appended, grown) = Yields-inv _ call.0 (
        append_sealed_segment-HasGrown hm.forest region_id shard_id sealed.tree.tree_id.segment_id
          (pos sealed.tree.leaf_count) sealed.tree.root ls ss gs placed valid) in
      rw
        (close_segment-ok now hm region_id shard_id active sealed nodes update call.1 found done
          (λ i. (appended i, call.1)))
        (finish-IsClosed hm (mark_sealed now active) region_id shard_id
          active.tree.tree.tree_id.segment_id sealed nodes hs ls ss gs update call.1 is_sealed id
          grown)
