-- ===== src/Locator/Tests.antt =====
-- Runs of the locator at concrete inputs: a tree of two leaves with the entries at the times 10, 20
-- and 30, and the query for the times from 15 up to 25.
use mathlib.Core.Option
use storage_aware_hmfaudit.Prelude.{
  ℕ, ◌<◌, ℤ, pos, List, [], ◌∷◌, Option, none, some, replicate, ◌≡◌, refl, ◌⊎◌, map, ok, All, arith,
}
use storage_aware_hmfaudit.Crypto
use storage_aware_hmfaudit.Locator.Key
use storage_aware_hmfaudit.Locator.Proof
use storage_aware_hmfaudit.Locator.Page
use storage_aware_hmfaudit.Locator.Encode
use storage_aware_hmfaudit.Locator.Entries
use storage_aware_hmfaudit.Locator.Range
use storage_aware_hmfaudit.Crypto.{Bytes, Hash, IsHash, Collision, zero_hash}
use storage_aware_hmfaudit.Crypto.Sample.{sample_sha, eu}
use storage_aware_hmfaudit.Locator.Types.{
  LocatorKey, LocatorValue, LocatorQuery, LocatorProofStep, LocatorLeafProof, LocatorRangeResult,
  ChildRef, Page,
}
use storage_aware_hmfaudit.Locator.Encode.{IsKey, IsValue}
use storage_aware_hmfaudit.Locator.Page.{leaf_hash, internal_hash}
use storage_aware_hmfaudit.Locator.Page.Injective.{IsLeafPage, IsInternalPage}
use storage_aware_hmfaudit.Locator.Page.Binding.{internal_hash_binds}
use storage_aware_hmfaudit.Locator.Bounds.{bounds, bound_key}
use storage_aware_hmfaudit.Locator.Bounds.Exact.{in_range, matches, bounds-exact}
use storage_aware_hmfaudit.Locator.Proof.{proof_leaf}
use storage_aware_hmfaudit.Locator.Range.{verify_locator_range_result, verify_locator_query_result}
use storage_aware_hmfaudit.Locator.Codec.Marshal.{marshal_page}
use storage_aware_hmfaudit.Locator.Codec.Unmarshal.{
  unmarshal_page, unmarshal_stored_page, page_hash, with_columns, decoded_page,
}
use storage_aware_hmfaudit.Locator.Codec.RoundTrip.{
  IsStoredPage, contents, unmarshal_page-marshal_page,
}
use storage_aware_hmfaudit.Locator.Codec.Stored.{
  restored, unmarshal_stored_page-marshal_page, unmarshal_stored_page_binds,
}
use storage_aware_hmfaudit.Locator.Tree.{
  Leaf, Tree, leaf, internal, no_child, child, leaf_page, internal_page, leaves, IsTree, HasHash,
  IsLocator, entries,
}
use storage_aware_hmfaudit.Locator.Tree.Path.{IsStep}
use storage_aware_hmfaudit.Locator.Tree.Chain.{IsLeafProof}
use storage_aware_hmfaudit.Locator.Tree.Complete.{IsAnswer, verify-IsAnswer}
use storage_aware_hmfaudit.Locator.Tree.Query.{asked_for, verify_query-asked_for}

abbrev key_at : ℕ → LocatorKey
key_at time = record {
  log_id = replicate 16 7;
  event_time = pos time;
  region_id = eu;
  tenant_id = b't' ∷ [];
  service_id = b's' ∷ [];
  log_type = b'l' ∷ [];
}

abbrev value_one : Option LocatorValue
value_one =
    some
      (record { region_id = eu; shard_id = b'1' ∷ []; segment_id = b'2' ∷ []; leaf_id = b'3' ∷ [] })

abbrev left_leaf : Leaf
left_leaf = record {
  page_id = pos 1;
  next = some (pos 2);
  keys = key_at 10 ∷ [];
  values = value_one ∷ [];
}

abbrev right_leaf : Leaf
right_leaf = record {
  page_id = pos 2;
  next = none;
  keys = key_at 20 ∷ key_at 30 ∷ [];
  values = value_one ∷ none ∷ [];
}

abbrev two_leaves : Tree
two_leaves = internal (key_at 20 ∷ []) (child (leaf left_leaf) (child (leaf right_leaf) no_child))

abbrev left_hash : Hash
unfolding leaf_hash
left_hash = Option.get_or (leaf_hash (leaf_page left_leaf)) []

abbrev right_hash : Hash
unfolding leaf_hash
right_hash = Option.get_or (leaf_hash (leaf_page right_leaf)) []

abbrev child_refs : List ChildRef
child_refs =
    record { page_id = pos 1; hash = left_hash }
    ∷ record { page_id = pos 2; hash = right_hash }
    ∷ []

abbrev root_page : Page
root_page = internal_page (key_at 20 ∷ []) child_refs

abbrev root_hash : Hash
unfolding internal_hash
root_hash = internal_hash root_page

abbrev step_at : ℕ → LocatorProofStep
step_at i = record {
  page_id = pos 3;
  keys = key_at 20 ∷ [];
  child_index = pos i;
  child_hashes = left_hash ∷ right_hash ∷ [];
}

abbrev proof_of : Leaf → ℕ → LocatorLeafProof
proof_of l i = record {
  page_id = l.page_id;
  next_page_id = l.next;
  keys = l.keys;
  values = l.values;
  path = step_at i ∷ [];
}

abbrev one_result : LocatorRangeResult
one_result = record {
  entries = record { page_id = pos 2; key = key_at 20; value = value_one } ∷ [];
  predecessor = some (record { page_id = pos 1; key = key_at 10; value = value_one });
  successor = some (record { page_id = pos 2; key = key_at 30; value = none });
  proof = record {
    leaves = proof_of left_leaf 0 ∷ proof_of right_leaf 1 ∷ [];
    reconstructed_root = root_hash;
  };
}

abbrev one_query : LocatorQuery
one_query = record {
  tenant_id = b't' ∷ [];
  service_id = b's' ∷ [];
  log_type = b'l' ∷ [];
  region_id = eu;
  start_time = pos 15;
  end_time = pos 25;
}

one_result-accepted : verify_locator_query_result one_query one_result root_hash ≡ ok tt
unfolding verify_locator_query_result bounds verify_locator_range_result Key.compare bound_key
    Proof.verify_locator_path_proofs Proof.reconstruct_locator_root leaf_hash Page.leaf_bytes
    Page.encode_entries proof_leaf Proof.reconstruct_path internal_hash Crypto.big_endian
    Page.concat_enc_child Proof.step_page Page.concat_enc_keys Encode.encode_key Crypto.to_uint64
    Crypto.write_int64 Crypto.write_string Encode.encode_value Entries.classify Entries.classify_all
    Entries.flatten_proof_entries Entries.leaf_entries Entries.locator_entry_equal
    Entries.optional_entry_equal Page.encode_next Proof.verify_leaf_paths Range.check_entries
    Range.check_expected Range.check_leaves Range.check_ordered Range.is_leftmost_path
    Range.is_rightmost_path Range.is_seen Range.verify_consecutive_leaf_proofs left_hash right_hash
    root_hash
one_result-accepted = refl

abbrev lower_key : LocatorKey
unfolding bound_key
lower_key = bound_key one_query (pos 15)

abbrev upper_key : LocatorKey
unfolding bound_key
upper_key = bound_key one_query (pos 25)

one_query-bounds : bounds one_query ≡ ok (lower_key, upper_key)
unfolding bounds lower_key upper_key
one_query-bounds = refl

one_result-in_range : verify_locator_range_result lower_key upper_key one_result root_hash ≡ ok tt
unfolding lower_key upper_key verify_locator_range_result Key.compare bound_key
    Proof.verify_locator_path_proofs Proof.reconstruct_locator_root leaf_hash Page.leaf_bytes
    Page.encode_entries proof_leaf Proof.reconstruct_path internal_hash Crypto.big_endian
    Page.concat_enc_child Proof.step_page Page.concat_enc_keys Encode.encode_key Crypto.to_uint64
    Crypto.write_int64 Crypto.write_string Encode.encode_value Entries.classify Entries.classify_all
    Entries.flatten_proof_entries Entries.leaf_entries Entries.locator_entry_equal
    Entries.optional_entry_equal Page.encode_next Proof.verify_leaf_paths Range.check_entries
    Range.check_expected Range.check_leaves Range.check_ordered Range.is_leftmost_path
    Range.is_rightmost_path Range.is_seen Range.verify_consecutive_leaf_proofs left_hash right_hash
    root_hash
one_result-in_range = refl

key_at-IsKey : (time : ℕ) → time < 100 → IsKey (key_at time)
key_at-IsKey time small = record {
  tenant_id = omega arith;
  service_id = omega arith;
  log_type = omega arith;
  region_id = omega arith;
  event_time = omega arith;
  log_id = refl;
}

left_leaf-IsLeafPage : IsLeafPage (leaf_page left_leaf)
left_leaf-IsLeafPage = record {
  page_id = omega arith;
  next = omega arith;
  keys = (key_at-IsKey 10 (omega arith), tt);
  values = ((omega arith, omega arith, omega arith, omega arith), tt);
  paired = refl;
}

right_leaf-IsLeafPage : IsLeafPage (leaf_page right_leaf)
right_leaf-IsLeafPage = record {
  page_id = omega arith;
  next = tt;
  keys = (key_at-IsKey 20 (omega arith), (key_at-IsKey 30 (omega arith), tt));
  values = ((omega arith, omega arith, omega arith, omega arith), (tt, tt));
  paired = refl;
}

two_leaves-IsLocator : IsLocator two_leaves
unfolding leaves IsTree Key.compare
two_leaves-IsLocator = record {
  tree = (
    (key_at-IsKey 20 (omega arith), tt),
    refl,
    (left_leaf-IsLeafPage, (right_leaf-IsLeafPage, tt)),
  );
  linked = (refl, refl);
  distinct = ((λ e. ground arith, tt), (tt, tt));
  ascending = ((refl, (refl, tt)), ((refl, tt), (tt, tt)));
}

two_leaves-HasHash : HasHash two_leaves root_hash
unfolding HasHash leaf_hash Page.leaf_bytes Page.encode_entries Encode.encode_key
    Encode.encode_value Page.encode_next Crypto.write_int64 Crypto.write_string Crypto.big_endian
    Crypto.to_uint64 internal_hash left_hash right_hash root_hash
two_leaves-HasHash = (
  child_refs,
  (
    record { page_id = pos 1; hash = left_hash },
    _,
    refl,
    refl,
    (record { page_id = pos 2; hash = right_hash }, [], refl, refl, refl),
  ),
  refl,
)

step_at-IsStep : (i : ℕ) → IsStep (step_at i)
unfolding left_hash right_hash leaf_hash Page.leaf_bytes Page.encode_entries Encode.encode_key
    Encode.encode_value Page.encode_next Crypto.write_int64 Crypto.write_string Crypto.big_endian
    Crypto.to_uint64
step_at-IsStep i = record {
  keys = (key_at-IsKey 20 (omega arith), tt);
  child_hashes = (refl, (refl, tt));
}

proofs-fit : All IsLeafProof one_result.proof.leaves
unfolding proof_leaf
proofs-fit = (
  record { page = left_leaf-IsLeafPage; path = (step_at-IsStep 0, tt) },
  (record { page = right_leaf-IsLeafPage; path = (step_at-IsStep 1, tt) }, tt),
)

verify_query-asked_for_example :
    Collision ⊎ (one_result.entries ≡ asked_for one_query (entries (leaves two_leaves)))
verify_query-asked_for_example =
    verify_query-asked_for one_query one_result root_hash two_leaves two_leaves-IsLocator
      two_leaves-HasHash proofs-fit one_result-accepted

verify-IsAnswer_example : Collision ⊎ IsAnswer lower_key upper_key one_result two_leaves
verify-IsAnswer_example =
    verify-IsAnswer lower_key upper_key one_result root_hash two_leaves two_leaves-IsLocator
      two_leaves-HasHash proofs-fit one_result-in_range

bounds-exact_example : in_range lower_key upper_key (key_at 20) ≡ matches one_query (key_at 20)
bounds-exact_example = bounds-exact one_query lower_key upper_key (key_at 20) one_query-bounds refl

abbrev stored_leaf : Page
stored_leaf = record (leaf_page right_leaf) { hash = right_hash }

stored_leaf-IsStoredPage : IsStoredPage stored_leaf
unfolding Encode.encode_key Encode.encode_value Crypto.write_int64 Crypto.write_string
    Crypto.big_endian Crypto.to_uint64
stored_leaf-IsStoredPage = record {
  keys = (
    (key_at-IsKey 20 (omega arith), omega arith),
    ((key_at-IsKey 30 (omega arith), omega arith), tt),
  );
  values = (
    ((omega arith, omega arith, omega arith, omega arith), omega arith),
    ((tt, omega arith), tt),
  );
  children = tt;
  count = omega arith;
  leaf_values = λ e. refl;
  internal_children = λ e. absurd (cc);
}

unmarshal_page-marshal_page_example :
    (bytes : Bytes) × (marshal_page stored_leaf ≡ ok bytes)
    × (unmarshal_page bytes ≡ ok (contents stored_leaf))
unmarshal_page-marshal_page_example =
    unmarshal_page-marshal_page stored_leaf stored_leaf-IsStoredPage

right_hash-IsHash : IsHash right_hash
unfolding right_hash leaf_hash Page.leaf_bytes Page.encode_entries Encode.encode_key
    Encode.encode_value Page.encode_next Crypto.write_int64 Crypto.write_string Crypto.big_endian
    Crypto.to_uint64
right_hash-IsHash = refl

stored_leaf-page_hash : page_hash stored_leaf ≡ some right_hash
unfolding page_hash right_hash leaf_hash Page.leaf_bytes Page.encode_entries Encode.encode_key
    Encode.encode_value Page.encode_next Crypto.write_int64 Crypto.write_string Crypto.big_endian
    Crypto.to_uint64
stored_leaf-page_hash = refl

unmarshal_stored_page-marshal_page_example :
    (bytes : Bytes) × (marshal_page stored_leaf ≡ ok bytes)
    × (unmarshal_stored_page bytes (pos 2) none none right_hash ≡ ok (restored stored_leaf))
unmarshal_stored_page-marshal_page_example =
    unmarshal_stored_page-marshal_page stored_leaf stored_leaf-IsStoredPage right_hash-IsHash
      stored_leaf-page_hash

abbrev stored_bytes : Bytes
stored_bytes =
    (unmarshal_stored_page-marshal_page stored_leaf stored_leaf-IsStoredPage right_hash-IsHash
      stored_leaf-page_hash).0

stored_leaf-read :
    unmarshal_stored_page stored_bytes (pos 2) none none right_hash ≡ ok (restored stored_leaf)
stored_leaf-read =
    (unmarshal_stored_page-marshal_page stored_leaf stored_leaf-IsStoredPage right_hash-IsHash
      stored_leaf-page_hash).2

restored_leaf-IsLeafPage : IsLeafPage (restored stored_leaf)
unfolding with_columns decoded_page
restored_leaf-IsLeafPage = record {
  page_id = omega arith;
  next = tt;
  keys = right_leaf-IsLeafPage.keys;
  values = right_leaf-IsLeafPage.values;
  paired = refl;
}

unmarshal_stored_page_binds_example :
    Collision
    ⊎ ((pos 2 ≡ pos 2)
        × (◌≡◌ {A = Option ℤ} none none)
        × ((restored stored_leaf).keys ≡ (restored stored_leaf).keys)
        × ((restored stored_leaf).values ≡ (restored stored_leaf).values))
unfolding with_columns decoded_page
unmarshal_stored_page_binds_example =
    unmarshal_stored_page_binds stored_bytes stored_bytes (pos 2) (pos 2) none none none none
      right_hash (restored stored_leaf) (restored stored_leaf) stored_leaf-read stored_leaf-read
      refl refl restored_leaf-IsLeafPage restored_leaf-IsLeafPage

root_page-IsInternalPage : IsInternalPage root_page
unfolding left_hash right_hash leaf_hash Page.leaf_bytes Page.encode_entries Encode.encode_key
    Encode.encode_value Page.encode_next Crypto.write_int64 Crypto.write_string Crypto.big_endian
    Crypto.to_uint64
root_page-IsInternalPage = record {
  keys = (key_at-IsKey 20 (omega arith), tt);
  children = (refl, (refl, tt));
  paired = refl;
}

internal_hash_binds_example :
    Collision
    ⊎ ((root_page.keys ≡ root_page.keys)
        × (map ChildRef.hash root_page.children ≡ map ChildRef.hash root_page.children))
internal_hash_binds_example =
    internal_hash_binds root_page root_page root_page-IsInternalPage root_page-IsInternalPage refl
