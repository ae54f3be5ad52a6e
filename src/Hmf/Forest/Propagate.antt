-- ===== src/Hmf/Forest/Propagate.antt =====
-- A sealed segment reaches the shard, the region and the global tree.
use storage_aware_hmfaudit.Prelude.{
  ℕ, ◌+◌, ◌<◌, ◌≡◌, ◌≢◌, refl, ap, subst, arith, length-append, length-set, negsuc, ◌∙◌, ◌&&◌, true,
  List, [], ◌∷◌, ◌++◌, some, length, set, ℤ, pos, ltb_ℤ, leb_ℤ, Assoc, lookup, insert,
  lookup-insert, ◌=?◌, Eq, list_eq, nat_eq, ok, Yields, Yields-inv,
}
use storage_aware_hmfaudit.Crypto.{Bytes, Hash, Sha256}
use storage_aware_hmfaudit.Hmf.Node.{TreeId, MerkleNode, tree_id_eq}
use storage_aware_hmfaudit.Hmf.Commitment.{
  segment_kind, shard_kind, region_kind, global_kind, commit_tree_root, commit_segment_root,
  commit_shard_root, commit_region_root, commit_global_root,
}
use storage_aware_hmfaudit.Hmf.Shard
use storage_aware_hmfaudit.Hmf.Shard.{ShardTree}
use storage_aware_hmfaudit.Hmf.Shard.Correct.{HasLeaves, append-HasLeaves}
use storage_aware_hmfaudit.Hmf.Region
use storage_aware_hmfaudit.Hmf.Global
use storage_aware_hmfaudit.Hmf.Region.{RegionTree, update_shard_root}
use storage_aware_hmfaudit.Hmf.Region.Correct.{HasShards, update_shard_root-eq-build}
use storage_aware_hmfaudit.Hmf.Global.{GlobalTree, update_region_root}
use storage_aware_hmfaudit.Hmf.Global.Correct.{HasRegions, update_region_root-eq-build}
use storage_aware_hmfaudit.Hmf.Forest.{
  Forest, HmfUpdate, index_or_zero, shard_id_of, root, shard_commitment, region_commitment,
  hmf_update, update_global, update_region, append_sealed_segment,
}

-- The forest has the shard's tree with the leaves `hs`, its region's tree with the leaves `ss` and the
-- global tree with the leaves `gs`, and the shard and the region have places in them.
pub record IsPlaced ⦃sha : Sha256⦄ (region_id : Bytes) (shard_id : ℤ) (hs ss gs : List Hash)
    (forest : Forest) : Type 0 where
  pub shard_tree : ShardTree
  pub region_tree : RegionTree
  pub shard_found : lookup (shard_id_of region_id shard_id) forest.shard_trees ≡ some shard_tree
  pub region_found : lookup region_id forest.region_trees ≡ some region_tree
  pub leaves : HasLeaves hs shard_tree
  pub shards : HasShards ss region_tree
  pub regions : HasRegions gs forest.global_tree
  pub shard_place : index_or_zero (shard_id_of region_id shard_id) forest.shard_indexes < length ss
  pub region_place : index_or_zero region_id forest.region_indexes < length gs

-- The commitments of a shard and of a region with so many leaves and that raw root, and the root of
-- the forest.
abbrev pub shard_leaf : ⦃sha : Sha256⦄ → Bytes → ℤ → ℕ → Hash → Hash
shard_leaf region_id shard_id n raw =
    commit_tree_root shard_kind region_id shard_id (negsuc 0) (pos n) raw

abbrev pub region_leaf : ⦃sha : Sha256⦄ → Bytes → ℕ → Hash → Hash
region_leaf region_id n raw =
    commit_tree_root region_kind region_id (negsuc 0) (negsuc 0) (pos n) raw

abbrev pub forest_root : ⦃sha : Sha256⦄ → ℕ → Hash → Hash
forest_root n raw = commit_tree_root global_kind [] (negsuc 0) (negsuc 0) (pos n) raw

-- After a sealed segment with the commitment `c`: the shard has one leaf more, the region has the
-- shard's new commitment in the shard's place, and the global tree the region's in the region's. The
-- commitments are of the new numbers of leaves and the new raw roots.
pub record HasGrown ⦃sha : Sha256⦄ (region_id : Bytes) (shard_id : ℤ) (hs ss gs : List Hash)
    (c : Hash) (before : Forest) (update : HmfUpdate) (after : Forest) : Type 0 where
  pub shard_tree : ShardTree
  pub region_tree : RegionTree
  pub shard_found : lookup (shard_id_of region_id shard_id) after.shard_trees ≡ some shard_tree
  pub region_found : lookup region_id after.region_trees ≡ some region_tree
  pub leaves : HasLeaves (hs ++ c ∷ []) shard_tree
  pub shards :
      HasShards
        (set ss
          (index_or_zero (shard_id_of region_id shard_id) before.shard_indexes)
          (shard_leaf region_id shard_id (length hs + 1) shard_tree.tree.root))
        region_tree
  pub regions :
      HasRegions
        (set gs
          (index_or_zero region_id before.region_indexes)
          (region_leaf region_id (length ss) region_tree.tree.root))
        after.global_tree
  pub shard_announced :
      update.shard_root ≡ shard_leaf region_id shard_id (length hs + 1) shard_tree.tree.root
  pub region_announced :
      update.region_root ≡ region_leaf region_id (length ss) region_tree.tree.root
  pub root_announced : update.global_root ≡ forest_root (length gs) after.global_tree.tree.root
  pub root_stored : root after ≡ update.global_root
  pub other_shards :
      (key : TreeId)
      → shard_id_of region_id shard_id ≢ key
      → lookup key after.shard_trees ≡ lookup key before.shard_trees
  pub other_regions :
      (key : Bytes)
      → region_id ≢ key
      → lookup key after.region_trees ≡ lookup key before.region_trees

lookup-insert_self {ℓ κ} :
    {K : Type ℓ} {V : Type κ} ⦃e : Eq K⦄ (k : K) (v : V) (m : Assoc K V)
    → lookup k (insert k v m) ≡ some v
lookup-insert_self ⦃e⦄ k v m =
    let own : (k =? k) ≡ true = (e.beq_iff k k).1 refl in lookup-insert k k v m ∙ (rw own)

lookup-insert_other {ℓ κ} :
    {K : Type ℓ} {V : Type κ} ⦃e : Eq K⦄ (k : K) (v : V) (m : Assoc K V) (j : K)
    → k ≢ j
    → lookup j (insert k v m) ≡ lookup j m
lookup-insert_other ⦃e⦄ k v m j other = ground (arith, lookup-insert k j v m, e.beq_iff k j)

module _ ⦃sha : Sha256⦄ (region_id : Bytes) (shard_id : ℤ) where
  -- The three steps, when the tree of each layer takes its update.
  global_step :
      (forest : Forest) (old s : ShardTree) (sn rn gn : List MerkleNode) (r : RegionTree)
      (g : GlobalTree)
      → update_region_root forest.global_tree
          (index_or_zero region_id forest.region_indexes)
          (region_commitment region_id r)
        ≡ ok (g, gn)
      → let after = record forest { global_tree = g } in
        update_global forest region_id shard_id old s sn r rn
        ≡ (ok (hmf_update after region_id shard_id old s sn r rn gn), after)
  unfolding update_global
  global_step forest old s sn rn gn r g e = rw (update_global, e)

  region_step :
      (forest : Forest) (old s : ShardTree) (sn rn : List MerkleNode) (r r' : RegionTree)
      → lookup region_id forest.region_trees ≡ some r
      → update_shard_root r
          (index_or_zero (shard_id_of region_id shard_id) forest.shard_indexes)
          (shard_commitment region_id shard_id s)
        ≡ ok (r', rn)
      → update_region forest region_id shard_id old s sn
        ≡ update_global
            (record forest { region_trees = insert region_id r' forest.region_trees })
            region_id
            shard_id
            old
            s
            sn
            r'
            rn
  unfolding update_region
  region_step forest old s sn rn r r' found e = rw (update_region, found, e)

  shard_step :
      (forest : Forest) (segment_id leaf_count : ℤ) (segment_root : Hash) (s s' : ShardTree)
      (sn : List MerkleNode)
      → (leb_ℤ (pos 0) segment_id && ltb_ℤ (pos 0) leaf_count) ≡ true
      → lookup (shard_id_of region_id shard_id) forest.shard_trees ≡ some s
      → Shard.append s (commit_segment_root region_id shard_id segment_id leaf_count segment_root)
        ≡ ok (s', sn)
      → append_sealed_segment forest region_id shard_id segment_id leaf_count segment_root
        ≡ update_region
            (record forest {
              shard_trees = insert (shard_id_of region_id shard_id) s' forest.shard_trees;
            })
            region_id
            shard_id
            s
            s'
            sn
  unfolding append_sealed_segment
  shard_step forest segment_id leaf_count segment_root s s' sn valid found e =
      rw (append_sealed_segment, valid, found, e)

module _ ⦃sha : Sha256⦄ where
  -- For a shard that has its place in a forest of correct trees, a sealed segment with a number that
  -- is not negative and with leaves is taken: its commitment becomes the last leaf of the shard, the
  -- new commitments of the shard and of its region, to their numbers of leaves and raw roots,
  -- replace the old ones in the trees above, which are again the trees of their leaves; the update
  -- has these commitments and the root of the new forest; and the other shards and regions stay.
  pub append_sealed_segment-HasGrown :
      (forest : Forest) (region_id : Bytes) (shard_id segment_id segment_leaf_count : ℤ)
      (segment_root : Hash) (hs ss gs : List Hash)
      → IsPlaced region_id shard_id hs ss gs forest
      → (leb_ℤ (pos 0) segment_id && ltb_ℤ (pos 0) segment_leaf_count) ≡ true
      → let done =
          append_sealed_segment forest region_id shard_id segment_id segment_leaf_count
            segment_root in
        Yields
          (λ update.
            HasGrown region_id shard_id hs ss gs
              (commit_tree_root segment_kind region_id shard_id segment_id segment_leaf_count
                segment_root)
              forest
              update
              done.1)
          done.0
  unfolding hmf_update shard_commitment region_commitment root commit_segment_root commit_shard_root
      commit_region_root commit_global_root
  append_sealed_segment-HasGrown forest region_id shard_id segment_id segment_leaf_count
        segment_root hs ss gs v valid =
      let c = commit_segment_root region_id shard_id segment_id segment_leaf_count segment_root in
      let key = shard_id_of region_id shard_id in
      let (s, es, leaves) =
        Yields-inv (λ (r : ShardTree × List MerkleNode). HasLeaves (hs ++ c ∷ []) r.0)
          (Shard.append v.shard_tree c) (append-HasLeaves hs v.shard_tree c v.leaves) in
      let sc = shard_commitment region_id shard_id s.0 in
      let si = index_or_zero key forest.shard_indexes in
      let (r, er, (shards, _)) =
        Yields-inv
          (λ (r : RegionTree × List MerkleNode).
            HasShards (set ss si sc) r.0
            × Yields (λ b. b.0 ≡ r.0) (Region.build v.region_tree (set ss si sc)))
          (update_shard_root v.region_tree si sc)
          (update_shard_root-eq-build ss v.region_tree si sc v.shards v.shard_place) in
      let rc = region_commitment region_id r.0 in
      let gi = index_or_zero region_id forest.region_indexes in
      let (g, eg, (regions, _)) =
        Yields-inv
          (λ (g : GlobalTree × List MerkleNode).
            HasRegions (set gs gi rc) g.0
            × Yields (λ b. b.0 ≡ g.0) (Global.build forest.global_tree (set gs gi rc)))
          (update_region_root forest.global_tree gi rc)
          (update_region_root-eq-build gs forest.global_tree gi rc v.regions v.region_place) in
      let f1 = record forest { shard_trees = insert key s.0 forest.shard_trees } in
      let f2 = record f1 { region_trees = insert region_id r.0 forest.region_trees } in
      let steps =
        shard_step region_id shard_id forest segment_id segment_leaf_count segment_root v.shard_tree
          s.0 s.1 valid v.shard_found es
        ∙ (region_step region_id shard_id f1 v.shard_tree s.0 s.1 r.1 v.region_tree r.0
              v.region_found er
            ∙ global_step region_id shard_id f2 v.shard_tree s.0 s.1 r.1 g.1 r.0 g.0 eg) in
      let count : s.0.tree.leaf_count ≡ length hs + 1 =
        leaves.counted ∙ length-append hs (c ∷ []) in
      let width : r.0.tree.leaf_count ≡ length ss = shards.built.counted ∙ length-set ss si sc in
      let top : g.0.tree.leaf_count ≡ length gs = regions.built.counted ∙ length-set gs gi rc in
      rw steps (record {
        shard_tree = s.0;
        region_tree = r.0;
        shard_found = lookup-insert_self key s.0 forest.shard_trees;
        region_found = lookup-insert_self region_id r.0 forest.region_trees;
        leaves = leaves;
        shards =
            subst (λ n. HasShards (set ss si (shard_leaf region_id shard_id n s.0.tree.root)) r.0)
              count shards;
        regions =
            subst (λ n. HasRegions (set gs gi (region_leaf region_id n r.0.tree.root)) g.0) width
              regions;
        shard_announced = ap (λ n. shard_leaf region_id shard_id n s.0.tree.root) count;
        region_announced = ap (λ n. region_leaf region_id n r.0.tree.root) width;
        root_announced = ap (λ n. forest_root n g.0.tree.root) top;
        root_stored = refl;
        other_shards = lookup-insert_other key s.0 forest.shard_trees;
        other_regions = lookup-insert_other region_id r.0 forest.region_trees;
      })
