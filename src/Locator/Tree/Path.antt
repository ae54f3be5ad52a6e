-- ===== src/Locator/Tree/Path.antt =====
-- A path that reconstructs the root of a tree leads to a subtree of it.
use storage_aware_hmfaudit.Prelude.{
  ℕ, zero, suc, ◌+◌, ◌<◌, pos, Option-cases, List, [], ◌∷◌, ◌++◌, append_assoc, append-nil, some,
  length, ◌≡◌, refl, sym, subst, ap, ◌∙◌, ◌⊎◌, inl, inr, All, true, arith, ok, guard-eq-ok, map,
  set, pos_part, nat_beq_iff, int_iff, ◌==◌, int_eq, length-map, length-set,
}
use storage_aware_hmfaudit.Crypto.{Hash, IsHash, Sha256, Collision}
use storage_aware_hmfaudit.Locator.Types.{
  LocatorProofStep, ChildRef, Page, keys_and_child_hashes, child_index_range,
}
use storage_aware_hmfaudit.Locator.Encode.{IsKey}
use storage_aware_hmfaudit.Locator.Page.{leaf_hash, internal_hash, leaf_bytes}
use storage_aware_hmfaudit.Locator.Page.Injective.{IsChild}
use storage_aware_hmfaudit.Locator.Page.Binding.{leaf-ne-internal, internal_hash_binds}
use storage_aware_hmfaudit.Locator.Proof.{reconstruct_path, step_page, child_of, index_in_range}
use storage_aware_hmfaudit.Locator.Range.{is_leftmost_path}
use storage_aware_hmfaudit.Locator.Tree.{
  Leaf, Tree, leaf, internal, Children, no_child, child, leaf_page, internal_page, leaves,
  all_leaves, count, IsTree, AreTrees, HasHash, HaveHashes,
}

-- A step whose keys and hashes fit the bytes of a page.
pub record IsStep (step : LocatorProofStep) : Type 0 where
  pub keys : All IsKey step.keys
  pub child_hashes : All IsHash step.child_hashes

-- The subtree with the hash `h`, and the leaves to its left and right.
pub record Subtree ⦃sha : Sha256⦄ (t : Tree) (h : Hash) (path : List LocatorProofStep)
    : Type 0 where
  pub subtree : Tree
  pub before : List Leaf
  pub after : List Leaf
  pub well_formed : IsTree subtree
  pub has_hash : HasHash subtree h
  pub split : leaves t ≡ before ++ (leaves subtree ++ after)
  pub first : is_leftmost_path path ≡ true → before ≡ []

-- The child at an index, among the children of a page.
record ChildAt ⦃sha : Sha256⦄ (cs : Children) (h : Hash) (i : ℕ) : Type 0 where
  selected : Tree
  before : List Leaf
  after : List Leaf
  well_formed : IsTree selected
  has_hash : HasHash selected h
  split : all_leaves cs ≡ before ++ (leaves selected ++ after)
  first : i ≡ 0 → before ≡ []

index-lt :
    (step : LocatorProofStep)
    → index_in_range step ≡ true
    → pos_part step.child_index < length step.child_hashes
index-lt step h = ground arith

module _ ⦃sha : Sha256⦄ where
  child_at :
      (cs : Children) (refs : List ChildRef) (hashes : List Hash) (i : ℕ) (h : Hash)
      → AreTrees cs
      → HaveHashes cs refs
      → map ChildRef.hash refs ≡ map ChildRef.hash (map child_of (set hashes i h))
      → i < length hashes
      → ChildAt cs h i
  unfolding AreTrees HaveHashes all_leaves
  child_at no_child refs hashes i h w e same bound =
      let sizes = ap length (rw e at same) in
      absurd (
        omega (
          arith,
          length-map ChildRef.hash (map child_of (set hashes i h)),
          length-map child_of (set hashes i h),
          length-set hashes i h,
        ))
  child_at (child t cs) refs [] i h w e same bound = absurd (omega arith)
  child_at (child t cs) refs (x ∷ hashes) zero h (w, ws) (ref, rest, shape, here, others) same
        bound =
      let equal : ref.hash ≡ h = cc (rw shape at same) in
      record {
        selected = t;
        before = [];
        after = all_leaves cs;
        well_formed = w;
        has_hash = subst (λ (x : Hash). HasHash t x) equal here;
        split = refl;
        first = λ at_zero. refl;
      }
  child_at (child t cs) refs (x ∷ hashes) (suc i) h (w, ws) (ref, rest, shape, here, others) same
        bound =
      let found = child_at cs rest hashes i h ws others (cc (rw shape at same)) (omega arith) in
      record {
        selected = found.selected;
        before = leaves t ++ found.before;
        after = found.after;
        well_formed = found.well_formed;
        has_hash = found.has_hash;
        split =
            rw found.split
              (sym (append_assoc (leaves t) found.before (leaves found.selected ++ found.after)));
        first = λ at_zero. absurd (omega arith);
      }

  pub leaf_hash-IsHash : (page : Page) (h : Hash) → leaf_hash page ≡ some h → IsHash h
  unfolding leaf_hash
  leaf_hash-IsHash page h e = elim (Option-cases (leaf_bytes page)) [
    | inl none_read ↦ cc (rw none_read at e)
    | inr (bytes, read) ↦
        let same : sha.sum bytes ≡ h = cc (rw read at e) in subst IsHash same (sha.size bytes)
  ]

  HasHash-IsHash : (t : Tree) (h : Hash) → HasHash t h → IsHash h
  unfolding HasHash internal_hash
  HasHash-IsHash (leaf l) h e = leaf_hash-IsHash (leaf_page l) h e
  HasHash-IsHash (internal keys cs) h (refs, hashes, e) = subst IsHash e (sha.size _)

  refs_fit :
      (cs : Children) (refs : List ChildRef)
      → HaveHashes cs refs
      → All IsChild refs × (length refs ≡ count cs)
  unfolding HaveHashes
  refs_fit no_child refs e = rw e (tt, refl)
  refs_fit (child t cs) refs (ref, rest, shape, here, others) =
      let (fit, n) = refs_fit cs rest others in
      rw shape ((HasHash-IsHash t ref.hash here, fit), omega arith)

  children_fit : (hashes : List Hash) → All IsHash hashes → All IsChild (map child_of hashes)
  children_fit [] fits = tt
  children_fit (x ∷ hashes) (here, fits) = (here, children_fit hashes fits)

  set_fit :
      (hashes : List Hash) (i : ℕ) (h : Hash)
      → All IsHash hashes
      → IsHash h
      → All IsChild (map child_of (set hashes i h))
  set_fit [] i h all size = tt
  set_fit (x ∷ hashes) zero h (here, all) size = (size, children_fit hashes all)
  set_fit (x ∷ hashes) (suc i) h (here, all) size = (here, set_fit hashes i h all size)

  -- Going down one step from a subtree with the hash of the step's page.
  descend :
      (t : Tree) (step : LocatorProofStep) (h root : Hash)
      → IsTree t
      → HasHash t root
      → IsStep step
      → IsHash h
      → length step.child_hashes ≡ length step.keys + 1
      → index_in_range step ≡ true
      → internal_hash (step_page step h) ≡ root
      → Collision ⊎ Subtree t h (step ∷ [])
  unfolding IsTree HasHash leaves step_page is_leftmost_path
  descend (leaf l) step h root w e fits size n bound same =
      inl (leaf-ne-internal (leaf_page l) (step_page step h) root e same)
  descend (internal keys cs) step h root (ks, n', ws) (refs, hashes, e) fits size n bound same =
      let (refs_hash, count_refs) = refs_fit cs refs hashes in
      let i : ℕ = pos_part step.child_index in
      let below = index-lt step bound in
      elim (internal_hash_binds (internal_page keys refs) (step_page step h)
        (record { keys = ks; children = refs_hash; paired = count_refs ∙ n' })
        (record {
          keys = fits.keys;
          children = set_fit step.child_hashes i h fits.child_hashes size;
          paired =
              length-map child_of (set step.child_hashes i h)
              ∙ (length-set step.child_hashes i h ∙ n);
        })
        (e ∙ sym same)) [
          | inl collision ↦ inl collision
          | inr (k, c) ↦ inr (
              let found = child_at cs refs step.child_hashes i h ws hashes c below in
              record {
                subtree = found.selected;
                before = found.before;
                after = found.after;
                well_formed = found.well_formed;
                has_hash = found.has_hash;
                split = found.split;
                first = λ edge. found.first (ground (arith, int_iff step.child_index (pos 0)));
              })
        ]

  internal_hash-IsHash : (page : Page) → IsHash (internal_hash page)
  unfolding internal_hash
  internal_hash-IsHash page = sha.size _

  -- A subtree of a subtree.
  join :
      {t : Tree} {h g : Hash} {path : List LocatorProofStep} {step : LocatorProofStep}
      (upper : Subtree t g path)
      → Subtree upper.subtree h (step ∷ [])
      → Subtree t h (step ∷ path)
  unfolding is_leftmost_path
  join {path = path} {step = step} upper lower = record {
    subtree = lower.subtree;
    before = upper.before ++ lower.before;
    after = lower.after ++ upper.after;
    well_formed = lower.well_formed;
    has_hash = lower.has_hash;
    split = upper.split ∙ rw lower.split (simp append_assoc);
    first = λ edge. rw (upper.first (ground arith), lower.first (ground arith)) refl;
  }

  -- A path that reconstructs the root from the hash of a leaf or a page leads to a subtree with that
  -- hash, or a collision is at hand.
  pub follow :
      (path : List LocatorProofStep) (t : Tree) (h root : Hash)
      → IsTree t
      → HasHash t root
      → All IsStep path
      → IsHash h
      → reconstruct_path path h ≡ ok root
      → Collision ⊎ Subtree t h path
  unfolding reconstruct_path
  follow [] t h root w e fits size done = inr (record {
    subtree = t;
    before = [];
    after = [];
    well_formed = w;
    has_hash = subst (λ (x : Hash). HasHash t x) (cc) e;
    split = sym (append-nil (leaves t));
    first = λ edge. refl;
  })
  follow (step ∷ path) t h root w e (fit, fits) size done =
      let (n, passed) =
        guard-eq-ok (length step.child_hashes == length step.keys + 1) keys_and_child_hashes _
          done in
      let (bound, rest) = guard-eq-ok (index_in_range step) child_index_range _ passed in
      elim (follow path t (internal_hash (step_page step h)) root w e fits
        (internal_hash-IsHash (step_page step h)) rest) [
          | inl collision ↦ inl collision
          | inr upper ↦
              elim (descend upper.subtree step h (internal_hash (step_page step h))
                upper.well_formed upper.has_hash fit size
                ((nat_beq_iff (length step.child_hashes) (length step.keys + 1)).0 n) bound refl) [
                  | inl collision ↦ inl collision
                  | inr lower ↦ inr (join upper lower)
                ]
        ]
