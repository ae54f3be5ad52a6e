-- ===== src/Hmf/Levels/Correct.antt =====
-- The invariant of a tree of fixed size, and that building and updating establish it.
use storage_aware_hmfaudit.Prelude.{
  ℕ, zero, suc, ◌+◌, ◌/◌, ◌<◌, ◌≡◌, refl, ap, sym, subst, ◌∙◌, List, [], ◌∷◌, arith, length, set,
  length-set, replicate, Yields, Yields-bind,
}
use storage_aware_hmfaudit.Crypto.{Hash, Sha256}
use storage_aware_hmfaudit.Hmf.Node.{MerkleNode, MerkleTree, zero_node, leaf_nodes}
use storage_aware_hmfaudit.Hmf.Merkle.{up, IsHeight, IsHeight-half}
use storage_aware_hmfaudit.Hmf.Segment.Fill.{hashes-leaf_nodes, length-leaf_nodes}
use storage_aware_hmfaudit.Hmf.Levels.{
  allocate, fill_level, fill_levels, build_levels, update_path, recompute_levels, top_hash,
}
use storage_aware_hmfaudit.Hmf.Levels.Build.{
  IsLayered, IsShaped, fill_levels-IsLayered, IsLayered-IsShaped, IsLayered-fill_levels,
}
use storage_aware_hmfaudit.Hmf.Levels.Update.{recompute_levels-IsLayered}
use storage_aware_hmfaudit.Hmf.Levels.Root.{
  IsLayered-root, IsPaired, IsLayered-IsPaired, IsPaired-IsLayered,
}

-- Arrays of the right sizes for `n` leaves, whatever they hold.
pub record IsReady (n : ℕ) (tree : MerkleTree) (levels : List (List MerkleNode)) : Type 0 where
  pub leaves : List MerkleNode
  pub above : List (List MerkleNode)
  pub arrays : levels ≡ leaves ∷ above
  pub full : length leaves ≡ n
  pub shaped : IsShaped n above
  pub counted : tree.leaf_count ≡ n
  pub tall : tree.height ≡ length above

-- The tree over the leaf hashes `hs`: its nodes, its root and the least height with room for the
-- leaves are those of the reference.
pub record IsBuilt ⦃sha : Sha256⦄ (hs : List Hash) (tree : MerkleTree)
    (levels : List (List MerkleNode)) : Type 0 where
  pub above : List (List MerkleNode)
  pub arrays : levels ≡ leaf_nodes 0 hs ∷ above
  pub paired : IsPaired 1 hs above
  pub counted : tree.leaf_count ≡ length hs
  pub tall : tree.height ≡ length above
  pub root : up tree.height hs ≡ tree.root ∷ []
  pub height : IsHeight (length hs) tree.height

pub length-replicate {ℓ} : {A : Type ℓ} (n : ℕ) (a : A) → length (replicate n a) ≡ n
length-replicate zero a = refl
length-replicate (suc n) a = ap suc (length-replicate n a)

allocate-IsShaped : (n h : ℕ) → 0 < n → IsHeight n h → IsShaped n (allocate h ((n + 1) / 2))
unfolding allocate
allocate-IsShaped n zero p v = omega (arith, v.enough)
allocate-IsShaped n (suc h) p v =
    let (more, half) = IsHeight-half n h v in
    (
      length-replicate ((n + 1) / 2) zero_node,
      more,
      allocate-IsShaped ((n + 1) / 2) h (omega arith) half,
    )

length-allocate : (h n : ℕ) → length (allocate h n) ≡ h
unfolding allocate
length-allocate zero n = refl
length-allocate (suc h) n = ap suc (length-allocate h ((n + 1) / 2))

-- What the constructors allocate.
pub allocate-IsReady :
    (n h : ℕ) (tree : MerkleTree)
    → 0 < n
    → IsHeight n h
    → tree.leaf_count ≡ n
    → tree.height ≡ h
    → IsReady n tree (allocate (suc h) n)
unfolding allocate
allocate-IsReady n h tree p v c t = record {
  leaves = replicate n zero_node;
  above = allocate h ((n + 1) / 2);
  arrays = refl;
  full = length-replicate n zero_node;
  shaped = allocate-IsShaped n h p v;
  counted = c;
  tall = t ∙ sym (length-allocate h ((n + 1) / 2));
}

set-leaf_nodes :
    (k n i : ℕ) (hs : List Hash) (h : Hash)
    → n ≡ k + i
    → set (leaf_nodes k hs) i (record { level = 0; index = n; hash = h })
      ≡ leaf_nodes k (set hs i h)
set-leaf_nodes k n i [] h e = refl
set-leaf_nodes k n zero (x ∷ hs) h e = ground arith
set-leaf_nodes k n (suc i) (x ∷ hs) h e =
    ap (◌∷◌ (record { level = 0; index = k; hash = x }))
      (set-leaf_nodes (suc k) n i hs h (omega arith))

module _ ⦃sha : Sha256⦄ where
  -- Arrays that the code's loops filled hold the tree of the reference.
  IsLayered-IsBuilt :
      (hs : List Hash) (tree : MerkleTree) (above : List (List MerkleNode))
      → IsLayered 1 (leaf_nodes 0 hs) above
      → tree.leaf_count ≡ length hs
      → tree.height ≡ length above
      → tree.root ≡ top_hash (leaf_nodes 0 hs ∷ above) tree.height
      → IsBuilt hs tree (leaf_nodes 0 hs ∷ above)
  IsLayered-IsBuilt hs tree above layered counted tall top =
      let (root, height) = IsLayered-root 1 (leaf_nodes 0 hs) above layered in
      record {
        above = above;
        arrays = refl;
        paired =
            subst (λ l. IsPaired 1 l above) (hashes-leaf_nodes 0 hs)
              (IsLayered-IsPaired 1 (leaf_nodes 0 hs) above layered);
        counted = counted;
        tall = tall;
        root = rw (top, tall) (ap (up (length above)) (sym (hashes-leaf_nodes 0 hs)) ∙ root);
        height = rw tall (subst (λ n. IsHeight n (length above)) (length-leaf_nodes 0 hs) height);
      }

  IsBuilt-IsLayered :
      (hs : List Hash) (tree : MerkleTree) (levels : List (List MerkleNode))
      → (v : IsBuilt hs tree levels) → IsLayered 1 (leaf_nodes 0 hs) v.above
  IsBuilt-IsLayered hs tree levels v =
      IsPaired-IsLayered 1 (leaf_nodes 0 hs) v.above
        (subst (λ l. IsPaired 1 l v.above) (sym (hashes-leaf_nodes 0 hs)) v.paired)

  -- The arrays are a function of the leaves.
  pub IsBuilt-unique :
      (hs : List Hash) (tree tree' : MerkleTree) (levels levels' : List (List MerkleNode))
      → IsBuilt hs tree levels
      → IsBuilt hs tree' levels'
      → levels ≡ levels'
  IsBuilt-unique hs tree tree' levels levels' v w =
      let layered = IsBuilt-IsLayered hs tree levels v in
      let layered' = IsBuilt-IsLayered hs tree' levels' w in
      let shape = IsLayered-IsShaped 1 (leaf_nodes 0 hs) v.above layered in
      let left = IsLayered-fill_levels 1 (leaf_nodes 0 hs) v.above v.above shape layered in
      let right = IsLayered-fill_levels 1 (leaf_nodes 0 hs) v.above w.above shape layered' in
      v.arrays ∙ ap (◌∷◌ (leaf_nodes 0 hs)) (sym left ∙ right) ∙ sym w.arrays

  pub IsBuilt-IsReady :
      (hs : List Hash) (tree : MerkleTree) (levels : List (List MerkleNode))
      → IsBuilt hs tree levels
      → IsReady (length hs) tree levels
  IsBuilt-IsReady hs tree levels v = record {
    leaves = leaf_nodes 0 hs;
    above = v.above;
    arrays = v.arrays;
    full = length-leaf_nodes 0 hs;
    shaped =
        subst (λ n. IsShaped n v.above) (length-leaf_nodes 0 hs)
          (IsLayered-IsShaped 1 (leaf_nodes 0 hs) v.above (IsBuilt-IsLayered hs tree levels v));
    counted = v.counted;
    tall = v.tall;
  }

  length-fill_levels :
      (level : ℕ) (children : List MerkleNode) (old : List (List MerkleNode))
      → length (fill_levels level children old) ≡ length old
  unfolding fill_levels
  length-fill_levels level children [] = refl
  length-fill_levels level children (x ∷ old) =
      ap suc (length-fill_levels (suc level) (fill_level level children 0 x) old)

  -- `Build` over arrays of the right sizes.
  pub build_levels-IsBuilt :
      (hs : List Hash) (tree : MerkleTree) (levels : List (List MerkleNode))
      → IsReady (length hs) tree levels
      → let levels' = build_levels hs levels in
        IsBuilt hs (record tree { root = top_hash levels' tree.height }) levels'
  unfolding build_levels
  build_levels-IsBuilt hs tree levels v =
      let layered =
        fill_levels-IsLayered 1 (leaf_nodes 0 hs) v.above
          (subst (λ n. IsShaped n v.above) (sym (length-leaf_nodes 0 hs)) v.shaped) in
      rw v.arrays (
        IsLayered-IsBuilt hs _ (fill_levels 1 (leaf_nodes 0 hs) v.above) layered v.counted
          (v.tall ∙ sym (length-fill_levels 1 (leaf_nodes 0 hs) v.above)) refl)

  -- One path recomputed over a built tree gives the built tree of the new leaves.
  pub update_path-IsBuilt {κ} :
      {E : Type κ} (e : E) (hs : List Hash) (tree : MerkleTree) (levels : List (List MerkleNode))
      (i : ℕ) (h : Hash)
      → IsBuilt hs tree levels
      → i < length hs
      → Yields
          (λ r. IsBuilt (set hs i h) (record tree { root = top_hash r.1 tree.height }) r.1)
          (update_path e i h levels)
  unfolding update_path
  update_path-IsBuilt e hs tree levels i h v inside =
      let leaf : MerkleNode = record { level = 0; index = i; hash = h } in
      let written = set-leaf_nodes 0 i i hs h (omega arith) in
      let path =
        recompute_levels-IsLayered e 1 i (leaf_nodes 0 hs) v.above leaf
          (omega (arith, length-leaf_nodes 0 hs)) (IsBuilt-IsLayered hs tree levels v) in
      rw v.arrays (
        Yields-bind
          (λ (r : List MerkleNode × List (List MerkleNode)).
            IsLayered 1 (set (leaf_nodes 0 hs) i leaf) r.1 × (length r.1 ≡ length v.above))
          (λ (r : List MerkleNode × List (List MerkleNode)).
            IsBuilt (set hs i h) (record tree { root = top_hash r.1 tree.height }) r.1)
          (recompute_levels e 1 i (set (leaf_nodes 0 hs) i leaf) v.above) _ path
          λ r (layered, same).
            subst
              (λ l.
                IsBuilt (set hs i h) (record tree { root = top_hash (l ∷ r.1) tree.height })
                  (l ∷ r.1))
              (sym written)
              (IsLayered-IsBuilt (set hs i h) _ r.1 (subst (λ l. IsLayered 1 l r.1) written layered)
                (v.counted ∙ sym (length-set hs i h)) (v.tall ∙ sym same) refl))
