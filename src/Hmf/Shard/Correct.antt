-- ===== src/Hmf/Shard/Correct.antt =====
-- The root that the frontier gives is the root of all appended leaves.
use native.Mathlib.Nat.{pow-suc, pow-le-pow_right, le_trans}
use storage_aware_hmfaudit.Prelude.{
  ℕ, zero, suc, ◌+◌, ◌-◌, ◌/◌, ◌^◌, ◌≤◌, ◌<◌, ◌≡◌, refl, ap, sym, subst, ◌∙◌, List, [], ◌∷◌, ◌++◌,
  ◌==◌, arith, inl, inr, Bool-cases, length, length-append, append_assoc, ℤ, Yields, Yields-bind,
}
use storage_aware_hmfaudit.Crypto.{Bytes, Hash, Sha256, node_hash}
use storage_aware_hmfaudit.Hmf.Node.{MerkleNode}
use storage_aware_hmfaudit.Hmf.Merkle.{
  pair_up, up, up-suc, up-append, up_beyond, pow-pos, IsHeight, IsTight,
}
use storage_aware_hmfaudit.Hmf.Shard.{
  ShardTree, new_shard_tree, merge_node, merge_loop, promote, climb, materialize_root_path, append,
}

-- A power of two needs all of its height.
pow-IsTight : (h n : ℕ) → n ≡ 2 ^ h → IsTight n h
pow-IsTight zero n e = tt
pow-IsTight (suc h) n e = omega (arith, pow-suc 2 h, pow-pos h)

module _ ⦃sha : Sha256⦄ where
  -- The root of a complete subtree over the leaves `ys`.
  pub record IsPeak (n : MerkleNode) (ys : List Hash) : Type 0 where
    pub size : length ys ≡ 2 ^ n.level
    pub root : up n.level ys ≡ n.hash ∷ []

  -- Complete subtrees over the leaves `hs`, the rightmost first, of rising levels from `low`.
  abbrev pub IsFrontier : ℕ → List MerkleNode → List Hash → Type 0
  IsFrontier low [] hs = hs ≡ []
  IsFrontier low (n ∷ rest) hs =
      (xs ys : List Hash) × (hs ≡ xs ++ ys)
      × (low ≤ n.level)
      × IsPeak n ys
      × IsFrontier (suc n.level) rest xs

  -- A node that stands for the leaves `zs`.
  pub record IsRoot (n : MerkleNode) (zs : List Hash) : Type 0 where
    pub some_leaf : 0 < length zs
    pub root : up n.level zs ≡ n.hash ∷ []
    pub height : IsHeight (length zs) n.level

  -- Two neighbours of one level join to the peak above them.
  join :
      (level : ℕ) (xs ys : List Hash) (a b : Hash)
      → length xs ≡ 2 ^ level
      → up level xs ≡ a ∷ []
      → up level ys ≡ b ∷ []
      → up (suc level) (xs ++ ys) ≡ node_hash a b ∷ []
  unfolding pair_up
  join level xs ys a b n ea eb =
      up-suc level (xs ++ ys) ∙ ap pair_up (up-append level xs ys n) ∙ rw (ea, eb) refl

  IsFrontier-weaken :
      (low low' : ℕ) (ns : List MerkleNode) (hs : List Hash)
      → low' ≤ low
      → IsFrontier low ns hs
      → IsFrontier low' ns hs
  IsFrontier-weaken low low' [] hs h f = f
  IsFrontier-weaken low low' (n ∷ rest) hs h (xs, ys, e, l, p, f) = (xs, ys, e, omega arith, p, f)

  merge_node-level :
      (left current : MerkleNode) → (merge_node left current).level ≡ suc current.level
  unfolding merge_node
  merge_node-level left current = omega arith

  merge_node-IsPeak :
      (left current : MerkleNode) (xs ys : List Hash)
      → left.level ≡ current.level
      → IsPeak left xs
      → IsPeak current ys
      → IsPeak (merge_node left current) (xs ++ ys)
  unfolding merge_node
  merge_node-IsPeak left current xs ys e p q =
      let above : current.level + 1 ≡ suc current.level = omega arith in
      let size : length xs ≡ 2 ^ current.level = p.size ∙ ap (λ l. 2 ^ l) e in
      let root : up current.level xs ≡ left.hash ∷ [] = ap (λ l. up l xs) (sym e) ∙ p.root in
      record {
        size = rw above (omega (arith, length-append xs ys, size, q.size, pow-suc 2 current.level));
        root = rw above (join current.level xs ys left.hash current.hash size root q.root);
      }

  merge_loop-IsFrontier :
      (current : MerkleNode) (rest : List MerkleNode) (xs ys : List Hash)
      → IsPeak current ys
      → IsFrontier current.level rest xs
      → IsFrontier current.level (merge_loop current rest).1 (xs ++ ys)
  unfolding merge_loop
  merge_loop-IsFrontier current [] xs ys p e = ([], ys, ap (λ l. l ++ ys) e, omega arith, p, refl)
  merge_loop-IsFrontier current (left ∷ rest) xs ys p (xs', ys', e, low, q, f) =
      elim (Bool-cases (left.level == current.level)) [
        | inl same ↦
            let merged = merge_node left current in
            let level : left.level ≡ current.level = ground arith in
            let above = merge_node-level left current in
            rw same (
              subst (IsFrontier current.level _)
                (sym (ap (λ l. l ++ ys) e ∙ append_assoc xs' ys' ys))
                (IsFrontier-weaken merged.level current.level _ _ (omega arith) (
                  merge_loop-IsFrontier merged rest xs' (ys' ++ ys)
                    (merge_node-IsPeak left current ys' ys level q p)
                    (IsFrontier-weaken (suc left.level) merged.level rest xs' (omega arith) f))))
        | inr other ↦ rw other (xs, ys, refl, omega arith, p, (xs', ys', e, ground arith, q, f))
      ]

  hash-promote : (k : ℕ) (right : MerkleNode) → (promote k right).1.hash ≡ right.hash
  unfolding promote
  hash-promote zero right = refl
  hash-promote (suc k) right = hash-promote k _

  join-IsHeight :
      (level n m : ℕ) → n ≡ 2 ^ level → 0 < m → m ≤ 2 ^ level → IsHeight (n + m) (suc level)
  join-IsHeight level n m e some_leaf fits = record {
    enough = omega (arith, pow-suc 2 level);
    tight = omega arith;
  }

  -- Climbing over the rest of the frontier takes in all its leaves.
  climb-IsRoot :
      (right : MerkleNode) (rest : List MerkleNode) (low : ℕ) (xs zs : List Hash)
      → right.level ≤ low
      → IsRoot right zs
      → IsFrontier low rest xs
      → IsRoot (climb right rest).1 (xs ++ zs)
  unfolding climb
  climb-IsRoot right [] low xs zs h r e = subst (λ l. IsRoot right (l ++ zs)) (sym e) r
  climb-IsRoot right (left ∷ rest) low xs zs h r (xs', ys', e, l, p, f) =
      let k = left.level - right.level in
      let kept = hash-promote k right in
      let fits : length zs ≤ 2 ^ left.level =
        le_trans r.height.enough (pow-le-pow_right (omega arith) (omega arith)) in
      let raised = up_beyond right.level left.level zs right.hash r.root (omega arith) in
      let joined : MerkleNode = record {
        level = left.level + 1;
        index = left.index / 2;
        hash = node_hash left.hash (promote k right).1.hash;
      } in
      let above : left.level + 1 ≡ suc left.level = omega arith in
      let top : IsRoot joined (ys' ++ zs) = record {
        some_leaf = omega (arith, length-append ys' zs, r.some_leaf);
        root = rw (above, kept) (join left.level ys' zs left.hash right.hash p.size p.root raised);
        height =
            rw (above, length-append ys' zs)
              (join-IsHeight left.level (length ys') (length zs) p.size r.some_leaf fits);
      } in
      subst (IsRoot _) (sym (ap (λ l. l ++ zs) e ∙ append_assoc xs' ys' zs))
        (climb-IsRoot joined rest (suc left.level) xs' (ys' ++ zs) (omega arith) top f)

  IsPeak-IsRoot : (n : MerkleNode) (ys : List Hash) → IsPeak n ys → IsRoot n ys
  IsPeak-IsRoot n ys p = record {
    some_leaf = omega (arith, p.size, pow-pos n.level);
    root = p.root;
    height = record {
      enough = omega (arith, p.size);
      tight = pow-IsTight n.level (length ys) p.size;
    };
  }

  -- Materializing the root path of a frontier gives the root of its leaves.
  materialize_root_path-IsRoot :
      (low : ℕ) (ns : List MerkleNode) (hs : List Hash)
      → 0 < length hs
      → IsFrontier low ns hs
      → Yields (λ r. IsRoot r.1 hs) (materialize_root_path ns)
  unfolding materialize_root_path
  materialize_root_path-IsRoot low [] hs h e = absurd (omega (arith, ap length e))
  materialize_root_path-IsRoot low (n ∷ rest) hs h (xs, ys, e, l, p, f) =
      subst (IsRoot _) (sym e)
        (climb-IsRoot n rest (suc n.level) xs ys (omega arith) (IsPeak-IsRoot n ys p) f)

  -- A shard that holds the segment commitments `hs`.
  pub record HasLeaves (hs : List Hash) (t : ShardTree) : Type 0 where
    pub frontier : IsFrontier 0 t.frontiers hs
    pub counted : t.tree.leaf_count ≡ length hs
    pub rooted :
        0 < length hs
        → (up t.tree.height hs ≡ t.tree.root ∷ []) × IsHeight (length hs) t.tree.height

  -- A new shard is empty.
  pub new_shard_tree-HasLeaves : (r : Bytes) (s : ℤ) → HasLeaves [] (new_shard_tree r s)
  unfolding new_shard_tree
  new_shard_tree-HasLeaves r s = record {
    frontier = refl;
    counted = refl;
    rooted = λ h. absurd (omega arith);
  }

  -- Appending succeeds, and its root is the root of all leaves appended so far, paired up from
  -- scratch; the height is the least with room for them.
  pub append-HasLeaves :
      (hs : List Hash) (t : ShardTree) (h : Hash)
      → HasLeaves hs t
      → Yields (λ r. HasLeaves (hs ++ h ∷ []) r.0) (append t h)
  unfolding append up
  append-HasLeaves hs t h v =
      let leaf : MerkleNode = record { level = 0; index = t.tree.leaf_count; hash = h } in
      let peak : IsPeak leaf (h ∷ []) = record { size = refl; root = refl } in
      let frontier = merge_loop-IsFrontier leaf t.frontiers hs (h ∷ []) peak v.frontier in
      let size = length-append hs (h ∷ []) in
      Yields-bind (λ (r : List MerkleNode × MerkleNode). IsRoot r.1 (hs ++ h ∷ []))
        (λ (r : ShardTree × List MerkleNode). HasLeaves (hs ++ h ∷ []) r.0)
        (materialize_root_path (merge_loop leaf t.frontiers).1) _
        (materialize_root_path-IsRoot 0 (merge_loop leaf t.frontiers).1 _ (omega arith) frontier)
        λ r top. record {
          frontier = frontier;
          counted = omega (arith, v.counted);
          rooted = λ _. (top.root, top.height);
        }
