-- ===== src/Locator/Tree/Chain.antt =====
-- The leaves of an accepted proof are a run of the leaves of the tree.
use storage_aware_hmfaudit.Prelude.{
  ℤ, List, [], ◌∷◌, ◌++◌, append_assoc, Option, none, some, length, map, ◌≡◌, ◌≢◌, refl, sym, subst,
  ap, ap₂, ◌∙◌, ◌⊎◌, inl, inr, true, All, ok, guard-eq-ok, >>=-eq-ok, ◌==◌, int_iff, int_eq,
}
use storage_aware_hmfaudit.Crypto.{Hash, Sha256, Collision}
use storage_aware_hmfaudit.Locator.Types.{LocatorLeafProof, keys_and_values}
use storage_aware_hmfaudit.Locator.Page.{leaf_hash}
use storage_aware_hmfaudit.Locator.Page.Injective.{IsLeafPage}
use storage_aware_hmfaudit.Locator.Page.Binding.{leaf-ne-internal, leaf_hash_binds}
use storage_aware_hmfaudit.Locator.Proof.{reconstruct_locator_root, proof_leaf, leaf_current}
use storage_aware_hmfaudit.Locator.Range.{is_leftmost_path, links_next, links_to}
use storage_aware_hmfaudit.Locator.Range.Sound.{IsChained}
use storage_aware_hmfaudit.Locator.Tree.{
  Leaf, Tree, leaf, internal, leaf_page, internal_page, leaves, IsTree, HasHash, IsLinked,
  HaveDistinctIds, IsLocator,
}
use storage_aware_hmfaudit.Locator.Tree.Path.{IsStep, Subtree, follow, leaf_hash-IsHash}

abbrev pub leaf_of : LocatorLeafProof → Leaf
leaf_of proof = record {
  page_id = proof.page_id;
  next = proof.next_page_id;
  keys = proof.keys;
  values = proof.values;
}

-- A leaf proof whose parts fit the bytes of pages.
pub record IsLeafProof (proof : LocatorLeafProof) : Type 0 where
  pub page : IsLeafPage (proof_leaf proof)
  pub path : All IsStep proof.path

-- A leaf's place among the leaves of a tree.
record Located (t : Tree) (proof : LocatorLeafProof) : Type 0 where
  before : List Leaf
  after : List Leaf
  split : leaves t ≡ before ++ (leaf_of proof ∷ after)
  first : is_leftmost_path proof.path ≡ true → before ≡ []

module _ ⦃sha : Sha256⦄ where
  leaf_current-ok : (o : Option Hash) (h : Hash) → leaf_current o ≡ ok h → o ≡ some h
  leaf_current-ok none h e = cc
  leaf_current-ok (some g) h e = cc

  same_leaf :
      (s : Tree) (proof : LocatorLeafProof) (h : Hash)
      → IsTree s
      → HasHash s h
      → IsLeafProof proof
      → leaf_hash (proof_leaf proof) ≡ some h
      → Collision ⊎ (s ≡ leaf (leaf_of proof))
  unfolding HasHash IsTree proof_leaf
  same_leaf (leaf l) proof h w same fits e =
      elim (leaf_hash_binds (leaf_page l) (proof_leaf proof) h w fits.page same e) [
        | inl collision ↦ inl collision
        | inr (id, next, keys, values) ↦
            inr (λ i.
              leaf (record { page_id = id i; next = next i; keys = keys i; values = values i }))
      ]
  same_leaf (internal keys cs) proof h w (refs, hashes, same) fits e =
      inl (leaf-ne-internal (proof_leaf proof) (internal_page keys refs) h e same)

  locate_leaf :
      (t : Tree) (proof : LocatorLeafProof) (h : Hash)
      → IsLeafProof proof
      → leaf_hash (proof_leaf proof) ≡ some h
      → Subtree t h proof.path
      → Collision ⊎ Located t proof
  unfolding leaves
  locate_leaf t proof h fits e found =
      elim (same_leaf found.subtree proof h found.well_formed found.has_hash fits e) [
        | inl collision ↦ inl collision
        | inr same ↦ inr (record {
          before = found.before;
          after = found.after;
          split = found.split ∙ ap (λ (s : Tree). found.before ++ (leaves s ++ found.after)) same;
          first = found.first;
        })
      ]

  locate :
      (t : Tree) (proof : LocatorLeafProof) (root : Hash)
      → IsTree t
      → HasHash t root
      → IsLeafProof proof
      → reconstruct_locator_root proof ≡ ok root
      → Collision ⊎ Located t proof
  unfolding reconstruct_locator_root
  locate t proof root w e fits done =
      let (paired, h1) =
        guard-eq-ok (length proof.keys == length proof.values) keys_and_values _ done in
      let (h, current, rest) = >>=-eq-ok (leaf_current (leaf_hash (proof_leaf proof))) _ h1 in
      let hashed = leaf_current-ok (leaf_hash (proof_leaf proof)) h current in
      elim (follow proof.path t h root w e fits.path (leaf_hash-IsHash (proof_leaf proof) h hashed)
        rest) [
          | inl collision ↦ inl collision
          | inr below ↦ locate_leaf t proof h fits hashed below
        ]

-- The leaf after one that names its next.
next_of :
    (before : List Leaf) (l : Leaf) (after : List Leaf) (id : ℤ)
    → IsLinked (before ++ (l ∷ after))
    → l.next ≡ some id
    → (r : Leaf) × (rest : List Leaf) × (after ≡ r ∷ rest) × (r.page_id ≡ id)
next_of [] l [] id linked e = cc
next_of [] l (r ∷ rest) id (next, linked) e = (r, rest, refl, cc)
next_of (x ∷ []) l after id (next, linked) e = next_of [] l after id linked e
next_of (x ∷ y ∷ before) l after id (next, linked) e = next_of (y ∷ before) l after id linked e

-- Nothing follows a leaf that names no next.
pub end_of :
    (before : List Leaf) (l : Leaf) (after : List Leaf)
    → IsLinked (before ++ (l ∷ after))
    → l.next ≡ none
    → after ≡ []
end_of [] l [] linked e = refl
end_of [] l (r ∷ rest) (next, linked) e = cc
end_of (x ∷ []) l after (next, linked) e = end_of [] l after linked e
end_of (x ∷ y ∷ before) l after (next, linked) e = end_of (y ∷ before) l after linked e

tails : {x y : Leaf} {xs ys : List Leaf} → x ∷ xs ≡ y ∷ ys → xs ≡ ys
tails e = cc

not_later :
    (id : ℤ) (xs : List Leaf) (y : Leaf) (ys : List Leaf)
    → All (λ (r : Leaf). r.page_id ≢ id) (xs ++ (y ∷ ys))
    → y.page_id ≢ id
not_later id [] y ys h = h.0
not_later id (x ∷ xs) y ys h = not_later id xs y ys h.1

-- One page ID has one place in leaves with distinct IDs.
one_place :
    (xs : List Leaf) (x : Leaf) (ys zs : List Leaf) (z : Leaf) (ws : List Leaf)
    → HaveDistinctIds (xs ++ (x ∷ ys))
    → xs ++ (x ∷ ys) ≡ zs ++ (z ∷ ws)
    → x.page_id ≡ z.page_id
    → xs ≡ zs
one_place [] x ys [] z ws d e same = refl
one_place [] x ys (v ∷ zs) z ws (d, ds) e same = absurd (
    not_later x.page_id zs z ws (subst (All (λ (r : Leaf). r.page_id ≢ x.page_id)) (tails e) d)
      (sym same))
one_place (u ∷ xs) x ys [] z ws (d, ds) e same =
    let heads : u.page_id ≡ z.page_id = cc in
    absurd (not_later u.page_id xs x ys d (same ∙ sym heads))
one_place (u ∷ xs) x ys (v ∷ zs) z ws (d, ds) e same =
    ap₂ ◌∷◌ (cc) (one_place xs x ys zs z ws ds (cc) same)

-- A run of the tree's leaves.
pub record IsRun (t : Tree) (first : LocatorLeafProof) (rest : List LocatorLeafProof) : Type 0 where
  pub before : List Leaf
  pub after : List Leaf
  pub split : leaves t ≡ before ++ (map leaf_of (first ∷ rest) ++ after)
  pub edge : is_leftmost_path first.path ≡ true → before ≡ []

links_to-eq : (next : Option ℤ) (id : ℤ) → links_to next id ≡ true → next ≡ some id
links_to-eq none id h = cc
links_to-eq (some next) id h = ap some ((int_iff next id).0 h)

join :
    (t : Tree) (first second : LocatorLeafProof) (rest : List LocatorLeafProof)
    → IsLocator t
    → links_next first (second ∷ rest) ≡ true
    → Located t first
    → IsRun t second rest
    → IsRun t first (second ∷ rest)
join t first second rest ok_tree link here run =
    let next = links_to-eq first.next_page_id second.page_id link in
    let (r, others, shape, id) =
      next_of here.before (leaf_of first) here.after second.page_id
        (subst IsLinked here.split ok_tree.linked) next in
    let run_start = here.before ++ (leaf_of first ∷ []) in
    let position : leaves t ≡ run_start ++ (r ∷ others) =
      here.split
      ∙ (ap (λ (l : List Leaf). here.before ++ (leaf_of first ∷ l)) shape
          ∙ sym (append_assoc here.before (leaf_of first ∷ []) (r ∷ others))) in
    let placed =
      one_place run_start r others run.before (leaf_of second) (map leaf_of rest ++ run.after)
        (subst HaveDistinctIds position ok_tree.distinct) (sym position ∙ run.split) id in
    record {
      before = here.before;
      after = run.after;
      split =
          run.split
          ∙ (ap (λ (l : List Leaf). l ++ (map leaf_of (second ∷ rest) ++ run.after)) (sym placed)
              ∙ append_assoc here.before (leaf_of first ∷ []) _);
      edge = here.first;
    }

single : (t : Tree) (first : LocatorLeafProof) → Located t first → IsRun t first []
single t first here = record {
  before = here.before;
  after = here.after;
  split = here.split;
  edge = here.first;
}

module _ ⦃sha : Sha256⦄ where
  -- The leaves of proofs that reconstruct the root, each naming the next, are a run of the leaves of
  -- the tree with that root, or a collision is at hand.
  pub chained-IsRun :
      (t : Tree) (root : Hash) (first : LocatorLeafProof) (rest : List LocatorLeafProof)
      → IsLocator t
      → HasHash t root
      → All IsLeafProof (first ∷ rest)
      → All (λ (proof : LocatorLeafProof). reconstruct_locator_root proof ≡ ok root) (first ∷ rest)
      → IsChained (first ∷ rest)
      → Collision ⊎ IsRun t first rest
  chained-IsRun t root first [] ok_tree e (fits, more) (path, paths) (link, links) =
      elim (locate t first root ok_tree.tree e fits path) [
        | inl collision ↦ inl collision
        | inr here ↦ inr (single t first here)
      ]
  chained-IsRun t root first (second ∷ rest) ok_tree e (fits, more) (path, paths) (link, links) =
      elim (locate t first root ok_tree.tree e fits path) [
        | inl collision ↦ inl collision
        | inr here ↦ elim (chained-IsRun t root second rest ok_tree e more paths links) [
          | inl collision ↦ inl collision
          | inr run ↦ inr (join t first second rest ok_tree link here run)
        ]
      ]
