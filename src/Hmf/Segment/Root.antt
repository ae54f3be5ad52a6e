-- ===== src/Hmf/Segment/Root.antt =====
-- What sealing makes of an open segment.
use storage_aware_hmfaudit.Prelude.{
  ℕ, zero, suc, ◌+◌, ◌-◌, ◌/◌, ◌<◌, ◌≡◌, refl, ap, sym, subst, ◌∙◌, true, false, some, List, [],
  ◌∷◌, arith, ltb, ◌==◌, Bool-cases, inl, inr, length, get_or, err, Yields, Yields-bind, Yields-inv,
  ◌>>=◌, ◌≤◌, ℤ, flatten,
}
use storage_aware_hmfaudit.Crypto.{Bytes, Hash, Sha256, node_hash}
use storage_aware_hmfaudit.Hmf.Node.{MerkleNode, zero_node, leaf_nodes, hashes}
use storage_aware_hmfaudit.Hmf.Merkle.{
  pair_up, up, length-pair_up, IsHeight, IsHeight-one, IsHeight-suc,
}
use storage_aware_hmfaudit.Hmf.Segment.{
  SegmentTree, new_segment_tree, sealed, no_leaves, already_sealed, append, pair_nodes,
  build_levels, finish_build, seal,
}
use storage_aware_hmfaudit.Hmf.Segment.Fill.{
  IsOpen, append_all, append_all-fits, hashes-leaf_nodes, length-leaf_nodes, length-hashes,
}

module _ ⦃sha : Sha256⦄ where
  hashes-pair_nodes :
      (level index : ℕ) (ns : List MerkleNode)
      → hashes (pair_nodes level index ns) ≡ pair_up (hashes ns)
  unfolding pair_nodes pair_up
  hashes-pair_nodes level index [] = refl
  hashes-pair_nodes level index (x ∷ []) = refl
  hashes-pair_nodes level index (x ∷ y ∷ rest) =
      ap (◌∷◌ (node_hash x.hash y.hash)) (hashes-pair_nodes level (suc index) rest)

  -- The levels above `children`, each paired up from the one below, to a level of one node.
  abbrev pub IsStack : ℕ → List MerkleNode → List (List MerkleNode) → Type 0
  IsStack level children [] = length children ≡ 1
  IsStack level children (nodes ∷ above) =
      (nodes ≡ pair_nodes level 0 children)
      × (1 < length children)
      × IsStack (suc level) nodes above

  length-pair_nodes :
      (level index : ℕ) (ns : List MerkleNode)
      → length (pair_nodes level index ns) ≡ (length ns + 1) / 2
  length-pair_nodes level index ns = omega (
    arith,
    length-hashes (pair_nodes level index ns),
    ap length (hashes-pair_nodes level index ns),
    length-pair_up (hashes ns),
    length-hashes ns,
  )

  -- The loop ends, and stacks the levels.
  build_levels-IsStack :
      (fuel level : ℕ) (children : List MerkleNode)
      → length children < fuel
      → 0 < length children
      → (above : List (List MerkleNode)) × (build_levels fuel level children ≡ some above)
        × IsStack level children above
  unfolding build_levels
  build_levels-IsStack zero level children h p = absurd (omega arith)
  build_levels-IsStack (suc fuel) level children h p = elim (Bool-cases (ltb 1 (length children))) [
    | inl more ↦
        let (rest, e, stack) =
          build_levels-IsStack fuel (suc level) (pair_nodes level 0 children)
            (ground (arith, length-pair_nodes level 0 children))
            (ground (arith, length-pair_nodes level 0 children)) in
        (pair_nodes level 0 children ∷ rest, rw (more, e), (refl, ground arith, stack))
    | inr single ↦ ([], rw single, ground arith)
  ]

  -- The one node on top of a stack is the root of the hashes at its bottom.
  IsStack-root :
      (level : ℕ) (children : List MerkleNode) (above : List (List MerkleNode))
      → IsStack level children above
      → (up (length above) (hashes children)
          ≡ (get_or (get_or (children ∷ above) (length above) []) 0 zero_node).hash ∷ [])
        × IsHeight (length children) (length above)
  unfolding up
  IsStack-root level (x ∷ []) [] s = (refl, IsHeight-one 1 (omega arith))
  IsStack-root level (x ∷ y ∷ r) [] s = absurd (omega arith)
  IsStack-root level [] [] s = absurd (omega arith)
  IsStack-root level children (nodes ∷ above) (e, more, s) =
      let (root, height) = IsStack-root (suc level) nodes above s in
      (
        ap (up (length above)) (sym (ap hashes e ∙ hashes-pair_nodes level 0 children)) ∙ root,
        IsHeight-suc (length children) (length above) more (
            subst (λ n. IsHeight n (length above))
              (ap length e ∙ length-pair_nodes level 0 children) height),
      )

-- A sealed segment over the leaves `hs`: its levels, the root above them and the height.
pub record IsSealed ⦃sha : Sha256⦄ (hs : List Hash) (t : SegmentTree) : Type 0 where
  pub above : List (List MerkleNode)
  pub closed : t.is_sealed ≡ true
  pub counts : t.tree.leaf_count ≡ length hs
  pub levels : t.levels ≡ leaf_nodes 0 hs ∷ above
  pub stacked : IsStack 1 (leaf_nodes 0 hs) above
  pub root : up t.tree.height hs ≡ t.tree.root ∷ []
  pub height : IsHeight (length hs) t.tree.height

module _ ⦃sha : Sha256⦄ where
  finish_build-IsSealed :
      (hs : List Hash) (t : SegmentTree) (leaves : List MerkleNode) (above : List (List MerkleNode))
      → leaves ≡ leaf_nodes 0 hs
      → t.tree.leaf_count ≡ length hs
      → IsStack 1 leaves above
      → IsSealed hs (record ((finish_build t leaves above).0) { is_sealed = true })
  unfolding finish_build
  finish_build-IsSealed hs t leaves above same counts stack =
      let (top, height) = IsStack-root 1 leaves above stack in
      let one : length (leaves ∷ above) - 1 ≡ length above = omega arith in
      record {
        above = above;
        closed = refl;
        counts = counts;
        levels = ap (λ l. l ∷ above) same;
        stacked = subst (λ l. IsStack 1 l above) same stack;
        root =
            rw one (ap (up (length above)) (sym (ap hashes same ∙ hashes-leaf_nodes 0 hs)) ∙ top);
        height = rw one (
            subst (λ n. IsHeight n (length above)) (ap length same ∙ length-leaf_nodes 0 hs)
              height);
      }

  pub seal-IsSealed :
      (hs : List Hash) (t : SegmentTree)
      → IsOpen hs t
      → 0 < length hs
      → Yields (λ r. IsSealed hs r.0 × (r.1 ≡ flatten r.0.levels)) (seal t)
  unfolding seal
  seal-IsSealed hs t v some_leaf =
      let leaves : List MerkleNode = get_or t.levels 0 [] in
      let same : leaves ≡ leaf_nodes 0 hs = rw v.holds in
      let size : length leaves ≡ length hs = ap length same ∙ length-leaf_nodes 0 hs in
      let (above, e, stack) =
        build_levels-IsStack (suc (length leaves)) 1 leaves (omega arith) (omega arith) in
      let nonempty : (t.tree.leaf_count == 0) ≡ false = ground (arith, v.counts) in
      rw (v.unsealed, nonempty, e)
        (finish_build-IsSealed hs t leaves above same v.counts stack, refl)

  IsSealed-refuses :
      (hs : List Hash) (t : SegmentTree) (h : Hash)
      → IsSealed hs t
      → (append t h ≡ err sealed) × (seal t ≡ err already_sealed)
  unfolding append seal
  IsSealed-refuses hs t h v = (rw v.closed, rw v.closed)

  -- A new segment that was filled with at least one leaf and not more than it has room for, and then
  -- sealed, is sealed over these leaves, takes no further leaf even where it has room, and is not
  -- sealed twice.
  pub seal_final :
      (r : Bytes) (s g : ℤ) (m : ℕ) (hs : List Hash) (h : Hash)
      → 0 < length hs
      → length hs ≤ m
      → Yields
          (λ u. IsSealed hs u.0 × (append u.0 h ≡ err sealed) × (seal u.0 ≡ err already_sealed))
          (append_all (new_segment_tree r s g m) hs >>= seal)
  seal_final r s g m hs h some_leaf room =
      Yields-bind (IsOpen hs) _ (append_all (new_segment_tree r s g m) hs) seal
        (append_all-fits r s g m hs room)
        λ t filled.
          let (u, e, (done, _)) = Yields-inv _ (seal t) (seal-IsSealed hs t filled some_leaf) in
          let refused = IsSealed-refuses hs u.0 h done in rw e (done, refused.0, refused.1)

  -- An empty segment cannot be sealed.
  pub seal-no_leaves : (t : SegmentTree) → IsOpen [] t → seal t ≡ err no_leaves
  unfolding seal
  seal-no_leaves t v = rw (v.unsealed, v.counts)
