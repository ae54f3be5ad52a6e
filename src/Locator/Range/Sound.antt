-- ===== src/Locator/Range/Sound.antt =====
-- What a range result that passed every check is known to satisfy.
use storage_aware_hmfaudit.Prelude.{
  ℕ, ℤ, pos, List, [], ◌∷◌, Option, none, some, length, ◌≡◌, ◌≢◌, refl, ap, ap₂, ◌∙◌, Bool, true,
  not, ◌&&◌, ◌||◌, All, arith, ◌⊎◌, inl, inr, ◌==◌, ◌=?◌, list_eq, nat_eq, int_eq, bytes_iff,
  int_iff, nat_beq_iff, last_or, ok, guard-eq-ok, >>=-eq-ok,
}
use storage_aware_hmfaudit.Crypto.{Hash, Sha256}
use storage_aware_hmfaudit.Locator.Types.{
  LocatorKey, LocatorValue, LocatorEntry, LocatorLeafProof, LocatorRangeProof, LocatorRangeResult,
  wrong_entry, duplicate_leaf, tree_depth, keys_and_values, empty_leaf, not_consecutive, left_edge,
  right_edge, wrong_predecessor, wrong_successor, wrong_count, bounds_order, no_leaves,
  root_mismatch,
}
use storage_aware_hmfaudit.Locator.Key.{compare, less, compare_zero}
use storage_aware_hmfaudit.Locator.Entries.{
  flatten_proof_entries, value_beq, locator_entry_equal, optional_entry_equal,
}
use storage_aware_hmfaudit.Locator.Proof.{
  is_empty, reconstruct_locator_root, verify_leaf_paths, verify_locator_path_proofs,
}
use storage_aware_hmfaudit.Locator.Range.{
  is_seen, links_next, check_ordered, check_leaves, verify_consecutive_leaf_proofs,
  is_leftmost_path, is_rightmost_path, has_none, check_entries, check_expected, check_proof_entries,
  verify_locator_range_result,
}
use storage_aware_hmfaudit.Locator.Range.Collect.{inside, before, from, classify_all_lem}

value_beq-eq : (v w : Option LocatorValue) → value_beq v w ≡ true → v ≡ w
value_beq-eq none none h = refl
value_beq-eq none (some w) h = cc
value_beq-eq (some v) none h = cc
value_beq-eq (some v) (some w) h =
    let region : v.region_id ≡ w.region_id = ground (arith, bytes_iff v.region_id w.region_id) in
    let shard : v.shard_id ≡ w.shard_id = ground (arith, bytes_iff v.shard_id w.shard_id) in
    let segment : v.segment_id ≡ w.segment_id =
      ground (arith, bytes_iff v.segment_id w.segment_id) in
    let leaf : v.leaf_id ≡ w.leaf_id = ground (arith, bytes_iff v.leaf_id w.leaf_id) in
    λ i. some (record {
      region_id = region i;
      shard_id = shard i;
      segment_id = segment i;
      leaf_id = leaf i;
    })

-- Two entries that the code takes for equal are equal.
pub locator_entry_equal-eq : (e f : LocatorEntry) → locator_entry_equal e f ≡ true → e ≡ f
unfolding locator_entry_equal
locator_entry_equal-eq e f h =
    let id : e.page_id ≡ f.page_id = ground (arith, int_iff e.page_id f.page_id) in
    let same : compare e.key f.key ≡ pos 0 =
      ground (arith, int_iff (compare e.key f.key) (pos 0)) in
    let at : value_beq e.value f.value ≡ true = ground arith in
    let key : e.key ≡ f.key = compare_zero e.key f.key same in
    let value : e.value ≡ f.value = value_beq-eq e.value f.value at in
    λ i. record { page_id = id i; key = key i; value = value i }

optional_entry_equal-eq : (e f : Option LocatorEntry) → optional_entry_equal e f ≡ true → e ≡ f
unfolding optional_entry_equal
optional_entry_equal-eq none none h = refl
optional_entry_equal-eq none (some f) h = cc
optional_entry_equal-eq (some e) none h = cc
optional_entry_equal-eq (some e) (some f) h = ap some (locator_entry_equal-eq e f h)

check_entries-eq :
    (es fs : List LocatorEntry) → length es ≡ length fs → check_entries es fs ≡ ok tt → es ≡ fs
unfolding check_entries
check_entries-eq [] [] n h = refl
check_entries-eq [] (f ∷ fs) n h = absurd (omega arith)
check_entries-eq (e ∷ es) [] n h = absurd (omega arith)
check_entries-eq (e ∷ es) (f ∷ fs) n h =
    let (same, rest) = guard-eq-ok (locator_entry_equal e f) wrong_entry _ h in
    ap₂ ◌∷◌ (locator_entry_equal-eq e f same) (check_entries-eq es fs (omega arith) rest)

-- Every leaf names the next one.
abbrev pub IsChained : List LocatorLeafProof → Type 0
IsChained [] = Unit
IsChained (leaf ∷ rest) = (links_next leaf rest ≡ true) × IsChained rest

abbrev pub IsPaired : LocatorLeafProof → Type 0
IsPaired leaf = length leaf.keys ≡ length leaf.values

check_leaves-IsChained :
    (many : Bool) (height : ℕ) (seen : List ℤ) (previous : Option LocatorKey)
    (proofs : List LocatorLeafProof)
    → check_leaves many height seen previous proofs ≡ ok tt
    → IsChained proofs × All IsPaired proofs
unfolding check_leaves
check_leaves-IsChained many height seen previous [] h = (tt, tt)
check_leaves-IsChained many height seen previous (leaf ∷ rest) h =
    let (fresh, h1) = guard-eq-ok (not (is_seen leaf.page_id seen)) duplicate_leaf _ h in
    let (depth, h2) = guard-eq-ok (length leaf.path == height) tree_depth _ h1 in
    let (paired, h3) = guard-eq-ok (length leaf.keys == length leaf.values) keys_and_values _ h2 in
    let (filled, h4) = guard-eq-ok (not (many && (length leaf.keys == 0))) empty_leaf _ h3 in
    let (linked, h5) = guard-eq-ok (links_next leaf rest) not_consecutive _ h4 in
    let (last, ordered, h6) = >>=-eq-ok (check_ordered previous leaf.keys) _ h5 in
    let (chain, pairs) = check_leaves-IsChained many height (leaf.page_id ∷ seen) last rest h6 in
    ((linked, chain), ((nat_beq_iff (length leaf.keys) (length leaf.values)).0 paired, pairs))

verify_consecutive-IsChained :
    (proofs : List LocatorLeafProof)
    → verify_consecutive_leaf_proofs proofs ≡ ok tt
    → IsChained proofs × All IsPaired proofs
unfolding verify_consecutive_leaf_proofs
verify_consecutive-IsChained [] h = cc
verify_consecutive-IsChained (first ∷ rest) h = check_leaves-IsChained _ _ _ _ (first ∷ rest) h

-- What the comparison of a result with its proof's entries establishes.
pub record IsComplete (lower upper : LocatorKey) (result : LocatorRangeResult)
    (first last : LocatorLeafProof) (entries : List LocatorEntry) : Type 0 where
  pub left : (before lower entries ≢ none) ⊎ (is_leftmost_path first.path ≡ true)
  pub right : (from lower upper entries ≢ none) ⊎ (last.next_page_id ≡ none)
  pub predecessor : result.predecessor ≡ before lower entries
  pub successor : result.successor ≡ from lower upper entries
  pub matches : result.entries ≡ inside lower upper entries

found_or :
    {A : Type 0} (o : Option A) (b : Bool) → not (has_none o) || b ≡ true → (o ≢ none) ⊎ (b ≡ true)
found_or none b h = inr h
found_or (some a) b h = inl (λ e. cc)

no_next : (o : Option ℤ) (b : Bool) → has_none o && b ≡ true → o ≡ none
no_next none b h = refl
no_next (some a) b h = cc

check_expected-IsComplete :
    (lower upper : LocatorKey) (result : LocatorRangeResult) (first last : LocatorLeafProof)
    (entries : List LocatorEntry)
    → check_expected result first last (record {
      matches = inside lower upper entries;
      predecessor = before lower entries;
      successor = from lower upper entries;
    })
      ≡ ok tt
    → IsComplete lower upper result first last entries
unfolding check_expected
check_expected-IsComplete lower upper result first last entries h =
    let (left, h1) =
      guard-eq-ok (not (has_none (before lower entries)) || is_leftmost_path first.path) left_edge _
        h in
    let (right, h2) =
      guard-eq-ok
        (not (has_none (from lower upper entries))
          || (has_none last.next_page_id && is_rightmost_path last.path))
        right_edge _ h1 in
    let (pred, h3) =
      guard-eq-ok (optional_entry_equal result.predecessor (before lower entries)) wrong_predecessor
        _ h2 in
    let (succ, h4) =
      guard-eq-ok (optional_entry_equal result.successor (from lower upper entries)) wrong_successor
        _ h3 in
    let (count, h5) =
      guard-eq-ok (length result.entries == length (inside lower upper entries)) wrong_count _ h4 in
    record {
      left = found_or (before lower entries) _ left;
      right = elim (found_or (from lower upper entries) _ right) [
        | inl found ↦ inl found
        | inr edge ↦ inr (no_next last.next_page_id _ edge)
      ];
      predecessor = optional_entry_equal-eq _ _ pred;
      successor = optional_entry_equal-eq _ _ succ;
      matches =
          check_entries-eq result.entries _
            ((nat_beq_iff (length result.entries) (length (inside lower upper entries))).0 count)
            h5;
    }

module _ ⦃sha : Sha256⦄ where
  verify_leaf_paths-ok :
      (proofs : List LocatorLeafProof) (root : Hash)
      → verify_leaf_paths proofs root ≡ ok tt
      → All (λ (leaf : LocatorLeafProof). reconstruct_locator_root leaf ≡ ok root) proofs
  unfolding verify_leaf_paths
  verify_leaf_paths-ok [] root h = tt
  verify_leaf_paths-ok (leaf ∷ proofs) root h =
      let (reconstructed, here, h1) = >>=-eq-ok (reconstruct_locator_root leaf) _ h in
      let (same, rest) = guard-eq-ok (reconstructed =? root) root_mismatch _ h1 in
      (here ∙ ap ok ((bytes_iff reconstructed root).0 same), verify_leaf_paths-ok proofs root rest)

  -- What the acceptance of a range result establishes, before any tree is trusted.
  pub record IsAccepted (lower upper : LocatorKey) (result : LocatorRangeResult) (root : Hash)
      : Type 0 where
    pub first : LocatorLeafProof
    pub rest : List LocatorLeafProof
    pub entries : List LocatorEntry
    pub leaves : result.proof.leaves ≡ first ∷ rest
    pub ordered : less lower upper ≡ true
    pub paths :
        All (λ (leaf : LocatorLeafProof). reconstruct_locator_root leaf ≡ ok root) (first ∷ rest)
    pub chained : IsChained (first ∷ rest)
    pub paired : All IsPaired (first ∷ rest)
    pub flattened : flatten_proof_entries (first ∷ rest) ≡ some entries
    pub complete : IsComplete lower upper result first (last_or rest first) entries

  accept :
      (lower upper : LocatorKey) (result : LocatorRangeResult) (root : Hash)
      (proofs : List LocatorLeafProof) (flat : Option (List LocatorEntry))
      → result.proof.leaves ≡ proofs
      → flatten_proof_entries proofs ≡ flat
      → less lower upper ≡ true
      → verify_leaf_paths proofs root ≡ ok tt
      → verify_consecutive_leaf_proofs proofs ≡ ok tt
      → check_proof_entries lower upper result proofs flat ≡ ok tt
      → IsAccepted lower upper result root
  accept lower upper result root [] flat same flattened ordered paths chain h = cc
  accept lower upper result root (first ∷ rest) none same flattened ordered paths chain h = cc
  accept lower upper result root (first ∷ rest) (some entries) same flattened ordered paths chain
        h =
      let (chained, paired) = verify_consecutive-IsChained (first ∷ rest) chain in
      record {
        first = first;
        rest = rest;
        entries = entries;
        leaves = same;
        ordered = ordered;
        paths = verify_leaf_paths-ok (first ∷ rest) root paths;
        chained = chained;
        paired = paired;
        flattened = flattened;
        complete = check_expected-IsComplete lower upper result first (last_or rest first) entries (
            rw
              (← classify_all_lem lower upper
                (record { matches = []; predecessor = none; successor = none }) entries)
              h);
      }

  verify_paths-ok :
      (proof : LocatorRangeProof) (root : Hash)
      → verify_locator_path_proofs proof root ≡ ok tt
      → verify_leaf_paths proof.leaves root ≡ ok tt
  unfolding verify_locator_path_proofs
  verify_paths-ok proof root h =
      let (some_leaf, h1) = guard-eq-ok (not (is_empty proof.leaves)) no_leaves _ h in
      let (unit, paths, h2) = >>=-eq-ok (verify_leaf_paths proof.leaves root) _ h1 in paths

  pub verify-IsAccepted :
      (lower upper : LocatorKey) (result : LocatorRangeResult) (root : Hash)
      → verify_locator_range_result lower upper result root ≡ ok tt
      → IsAccepted lower upper result root
  unfolding verify_locator_range_result
  verify-IsAccepted lower upper result root h =
      let (ordered, h1) = guard-eq-ok (less lower upper) bounds_order _ h in
      let (unit, paths, h2) = >>=-eq-ok (verify_locator_path_proofs result.proof root) _ h1 in
      let (unit', chain, h3) =
        >>=-eq-ok (verify_consecutive_leaf_proofs result.proof.leaves) _ h2 in
      accept lower upper result root result.proof.leaves _ refl refl ordered
        (verify_paths-ok result.proof root paths) chain h3
