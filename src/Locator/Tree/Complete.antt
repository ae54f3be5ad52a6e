-- ===== src/Locator/Tree/Complete.antt =====
-- An accepted range result is the tree's answer.
use storage_aware_hmfaudit.Prelude.{
  ℤ, List, [], ◌∷◌, ◌++◌, append_assoc, Option, none, some, map, ◌≡◌, ◌≢◌, refl, sym, subst, ap,
  ap₂, ◌∙◌, ◌⊎◌, inl, inr, All, ok, last_or, Option-cases,
}
use storage_aware_hmfaudit.Crypto.{Hash, Sha256, Collision}
use storage_aware_hmfaudit.Locator.Types.{
  LocatorKey, LocatorValue, LocatorEntry, LocatorLeafProof, LocatorRangeResult,
}
use storage_aware_hmfaudit.Locator.Entries.{leaf_entries, flatten_proof_entries}
use storage_aware_hmfaudit.Locator.Range.{verify_locator_range_result}
use storage_aware_hmfaudit.Locator.Range.Collect.{inside, before, from}
use storage_aware_hmfaudit.Locator.Range.Sound.{IsAccepted, verify-IsAccepted}
use storage_aware_hmfaudit.Locator.Range.Widen.{
  inside_around, before_around, from_around, all_below, all_above,
}
use storage_aware_hmfaudit.Locator.Tree.{
  Leaf, Tree, leaves, HasHash, IsLocator, IsLinked, IsAscending, entries, entries_of,
}
use storage_aware_hmfaudit.Locator.Tree.Chain.{leaf_of, IsLeafProof, IsRun, chained-IsRun, end_of}

pub entries-append : (xs ys : List Leaf) → entries (xs ++ ys) ≡ entries xs ++ entries ys
entries-append [] ys = refl
entries-append (x ∷ xs) ys =
    rw (entries-append xs ys)
      (sym (append_assoc (entries_of x.page_id x.keys x.values) (entries xs) (entries ys)))

leaf_entries-eq :
    (id : ℤ) (keys : List LocatorKey) (values : List (Option LocatorValue)) (es : List LocatorEntry)
    → leaf_entries id keys values ≡ some es
    → es ≡ entries_of id keys values
unfolding leaf_entries
leaf_entries-eq id [] values es e = cc
leaf_entries-eq id (k ∷ keys) [] es e = cc
leaf_entries-eq id (k ∷ keys) (v ∷ values) es e =
    elim (Option-cases (leaf_entries id keys values)) [
      | inl nothing ↦ cc (rw nothing at e)
      | inr (rest, found) ↦
          let listed : record { page_id = id; key = k; value = v } ∷ rest ≡ es =
            cc (rw found at e) in
          sym listed
          ∙ ap (λ (l : List LocatorEntry). record { page_id = id; key = k; value = v } ∷ l)
              (leaf_entries-eq id keys values rest found)
    ]

flatten-eq :
    (proofs : List LocatorLeafProof) (es : List LocatorEntry)
    → flatten_proof_entries proofs ≡ some es
    → es ≡ entries (map leaf_of proofs)
unfolding flatten_proof_entries
flatten-eq [] es e = cc
flatten-eq (p ∷ proofs) es e = elim (Option-cases (leaf_entries p.page_id p.keys p.values)) [
  | inl nothing ↦ cc (rw nothing at e)
  | inr (xs, found) ↦ elim (Option-cases (flatten_proof_entries proofs)) [
    | inl nothing ↦ cc (rw (found, nothing) at e)
    | inr (ys, others) ↦
        let listed : xs ++ ys ≡ es = cc (rw (found, others) at e) in
        sym listed
        ∙ ap₂ ◌++◌ (leaf_entries-eq p.page_id p.keys p.values xs found)
            (flatten-eq proofs ys others)
  ]
]

last_split :
    (first : LocatorLeafProof) (rest : List LocatorLeafProof)
    → (start : List Leaf) × (map leaf_of (first ∷ rest)
        ≡ start ++ (leaf_of (last_or rest first) ∷ []))
last_split first [] = ([], refl)
last_split first (second ∷ rest) =
    let (start, split) = last_split second rest in
    (leaf_of first ∷ start, ap (λ (l : List Leaf). leaf_of first ∷ l) split)

-- The result lists exactly the entries of the tree in the range, and its neighbours.
pub record IsAnswer (lower upper : LocatorKey) (result : LocatorRangeResult) (t : Tree)
    : Type 0 where
  pub matches : result.entries ≡ inside lower upper (entries (leaves t))
  pub predecessor : result.predecessor ≡ before lower (entries (leaves t))
  pub successor : result.successor ≡ from lower upper (entries (leaves t))

regroup :
    (xs us : List Leaf) (l : Leaf) (zs : List Leaf)
    → xs ++ ((us ++ (l ∷ [])) ++ zs) ≡ (xs ++ us) ++ (l ∷ zs)
regroup xs us l zs = simp append_assoc

module _ ⦃sha : Sha256⦄ where
  -- Nothing follows a run whose last leaf names no next.
  run_end :
      (t : Tree) (first : LocatorLeafProof) (rest : List LocatorLeafProof)
      → IsLocator t
      → (run : IsRun t first rest) → (last_or rest first).next_page_id ≡ none
      → run.after ≡ []
  run_end t first rest ok_tree run e =
      let (start, split) = last_split first rest in
      end_of (run.before ++ start) (leaf_of (last_or rest first)) run.after
        (subst IsLinked
          (run.split
            ∙ (ap (λ (l : List Leaf). run.before ++ (l ++ run.after)) split
                ∙ regroup run.before start (leaf_of (last_or rest first)) run.after))
          ok_tree.linked)
        e

  run_entries :
      (t : Tree) (first : LocatorLeafProof) (rest : List LocatorLeafProof) (ys : List LocatorEntry)
      (run : IsRun t first rest)
      → flatten_proof_entries (first ∷ rest) ≡ some ys
      → entries (leaves t) ≡ entries run.before ++ (ys ++ entries run.after)
  run_entries t first rest ys run flat =
      let mid = map leaf_of (first ∷ rest) in
      ap entries run.split
      ∙ (entries-append run.before (mid ++ run.after)
          ∙ ap (λ (l : List LocatorEntry). entries run.before ++ l)
              (entries-append mid run.after
                ∙ ap (λ (l : List LocatorEntry). l ++ entries run.after)
                    (sym (flatten-eq (first ∷ rest) ys flat))))

  answer :
      (lower upper : LocatorKey) (result : LocatorRangeResult) (root : Hash) (t : Tree)
      → IsLocator t
      → (accepted : IsAccepted lower upper result root) → IsRun t accepted.first accepted.rest
      → IsAnswer lower upper result t
  answer lower upper result root t ok_tree accepted run =
      let xs = entries run.before in
      let ys = accepted.entries in
      let zs = entries run.after in
      let whole = run_entries t accepted.first accepted.rest ys run accepted.flattened in
      let ascending = subst IsAscending whole ok_tree.ascending in
      let left : (before lower ys ≢ none) ⊎ (xs ≡ []) = elim accepted.complete.left [
        | inl found ↦ inl found
        | inr edge ↦ inr (ap entries (run.edge edge))
      ] in
      let right : (from lower upper ys ≢ none) ⊎ (zs ≡ []) = elim accepted.complete.right [
        | inl found ↦ inl found
        | inr end ↦ inr (ap entries (run_end t accepted.first accepted.rest ok_tree run end))
      ] in
      let below = all_below lower upper xs ys zs ascending left in
      let above = all_above lower upper xs ys zs ascending right in
      record {
        matches =
            accepted.complete.matches
            ∙ (sym (inside_around lower upper xs ys zs below above)
                ∙ ap (inside lower upper) (sym whole));
        predecessor =
            accepted.complete.predecessor
            ∙ (sym (before_around lower upper xs ys zs above left) ∙ ap (before lower) (sym whole));
        successor =
            accepted.complete.successor
            ∙ (sym (from_around lower upper xs ys zs below right)
                ∙ ap (from lower upper) (sym whole));
      }

  -- A range result that is accepted against the root of a locator, a tree with linked leaves, distinct
  -- page IDs and ascending keys, lists exactly the entries of the tree in `[lower, upper)`, with the
  -- last entry before the range and the first one after it; or SHA-256 has a collision. The parts of
  -- the proof fit the bytes of pages.
  pub verify-IsAnswer :
      (lower upper : LocatorKey) (result : LocatorRangeResult) (root : Hash) (t : Tree)
      → IsLocator t
      → HasHash t root
      → All IsLeafProof result.proof.leaves
      → verify_locator_range_result lower upper result root ≡ ok tt
      → Collision ⊎ IsAnswer lower upper result t
  verify-IsAnswer lower upper result root t ok_tree e fits h =
      let accepted = verify-IsAccepted lower upper result root h in
      elim (chained-IsRun t root accepted.first accepted.rest ok_tree e
        (subst (All IsLeafProof) accepted.leaves fits) accepted.paths accepted.chained) [
          | inl collision ↦ inl collision
          | inr run ↦ inr (answer lower upper result root t ok_tree accepted run)
        ]
