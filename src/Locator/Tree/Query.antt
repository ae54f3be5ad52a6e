-- ===== src/Locator/Tree/Query.antt =====
-- An accepted query result lists what the query describes.
use storage_aware_hmfaudit.Prelude.{
  ℤ, List, [], ◌∷◌, ◌++◌, Option, length, ◌≡◌, refl, ◌∙◌, ◌⊎◌, inl, inr, All, All-append, ok,
  >>=-eq-ok,
}
use storage_aware_hmfaudit.Crypto.{Hash, Sha256, Collision}
use storage_aware_hmfaudit.Locator.Types.{
  LocatorKey, LocatorValue, LocatorEntry, LocatorQuery, LocatorRangeResult,
}
use storage_aware_hmfaudit.Locator.Encode.{IsKey}
use storage_aware_hmfaudit.Locator.Bounds.{bounds}
use storage_aware_hmfaudit.Locator.Bounds.Exact.{in_range, matches, bounds-exact}
use storage_aware_hmfaudit.Locator.Range.{verify_locator_query_result}
use storage_aware_hmfaudit.Locator.Range.Collect.{filter, inside}
use storage_aware_hmfaudit.Locator.Tree.{
  Leaf, Tree, leaf, internal, Children, no_child, child, leaves, all_leaves, IsTree, AreTrees,
  HasHash, IsLocator, entries, entries_of,
}
use storage_aware_hmfaudit.Locator.Tree.Chain.{IsLeafProof}
use storage_aware_hmfaudit.Locator.Tree.Complete.{entries-append, verify-IsAnswer}

abbrev HasId : LocatorEntry → Type 0
HasId e = length e.key.log_id ≡ 16

entries_of-HasId :
    (id : ℤ) (keys : List LocatorKey) (values : List (Option LocatorValue))
    → All IsKey keys
    → All HasId (entries_of id keys values)
entries_of-HasId id [] values h = tt
entries_of-HasId id (k ∷ keys) [] h = tt
entries_of-HasId id (k ∷ keys) (v ∷ values) (h, hs) = (h.log_id, entries_of-HasId id keys values hs)

entries-HasId-append :
    (xs ys : List Leaf)
    → All HasId (entries xs)
    → All HasId (entries ys)
    → All HasId (entries (xs ++ ys))
entries-HasId-append xs ys h k =
    rw (entries-append xs ys) (All-append HasId (entries xs) (entries ys) h k)

mutual
  unfolding leaves IsTree

  entries-HasId : (t : Tree) → IsTree t → All HasId (entries (leaves t))
  entries-HasId (leaf l) h =
      All-append HasId (entries_of l.page_id l.keys l.values) []
        (entries_of-HasId l.page_id l.keys l.values h.keys) tt
  entries-HasId (internal keys cs) (ks, n, w) = all_entries-HasId cs w

  all_entries-HasId : (cs : Children) → AreTrees cs → All HasId (entries (all_leaves cs))
  all_entries-HasId no_child w = tt
  all_entries-HasId (child t cs) (w, ws) =
      entries-HasId-append (leaves t) (all_leaves cs) (entries-HasId t w) (all_entries-HasId cs ws)

-- The entries that a query describes.
abbrev pub asked_for : LocatorQuery → List LocatorEntry → List LocatorEntry
asked_for query es = filter (λ (e : LocatorEntry). matches query e.key) es

inside-asked_for :
    (query : LocatorQuery) (lower upper : LocatorKey) (es : List LocatorEntry)
    → bounds query ≡ ok (lower, upper)
    → All HasId es
    → inside lower upper es ≡ asked_for query es
unfolding in_range
inside-asked_for query lower upper [] b h = refl
inside-asked_for query lower upper (e ∷ es) b (h, hs) =
    rw (bounds-exact query lower upper e.key b h, inside-asked_for query lower upper es b hs) refl

module _ ⦃sha : Sha256⦄ where
  -- A result that is accepted for a query against the root of a locator lists, in order, exactly the
  -- entries of the locator that the query describes; or SHA-256 has a collision. A locator is a tree
  -- with linked leaves, distinct page IDs and ascending keys, and the parts of the proof fit the
  -- bytes of pages.
  pub verify_query-asked_for :
      (query : LocatorQuery) (result : LocatorRangeResult) (root : Hash) (t : Tree)
      → IsLocator t
      → HasHash t root
      → All IsLeafProof result.proof.leaves
      → verify_locator_query_result query result root ≡ ok tt
      → Collision ⊎ (result.entries ≡ asked_for query (entries (leaves t)))
  unfolding verify_locator_query_result
  verify_query-asked_for query result root t ok_tree e fits h =
      let (range, bounded, verified) = >>=-eq-ok (bounds query) _ h in
      elim (verify-IsAnswer range.0 range.1 result root t ok_tree e fits verified) [
        | inl collision ↦ inl collision
        | inr answer ↦ inr (
            answer.matches
            ∙ inside-asked_for query range.0 range.1 (entries (leaves t)) bounded
                (entries-HasId t ok_tree.tree))
      ]
