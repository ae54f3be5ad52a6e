-- ===== src/Locator/Types.antt =====
-- internal/all/locator_types.go, with `Page` of locator_page.go. A time.Time is its instant in
-- nanoseconds since 1970, and a child or a next page of a page is a reference to it: the code
-- reads nothing but the page ID and the hash of a child, and the page ID of a next page.
use storage_aware_hmfaudit.Prelude.{ℤ, List, Option, Bool}
use storage_aware_hmfaudit.Crypto.{Bytes, Hash}

pub record LocatorKey : Type 0 where
  pub log_id : Bytes
  pub event_time : ℤ
  pub region_id : Bytes
  pub tenant_id : Bytes
  pub service_id : Bytes
  pub log_type : Bytes

pub record LocatorValue : Type 0 where
  pub region_id : Bytes
  pub shard_id : Bytes
  pub segment_id : Bytes
  pub leaf_id : Bytes

pub record LocatorQuery : Type 0 where
  pub tenant_id : Bytes
  pub service_id : Bytes
  pub log_type : Bytes
  pub region_id : Bytes
  pub start_time : ℤ
  pub end_time : ℤ

pub record LocatorEntry : Type 0 where
  pub page_id : ℤ
  pub key : LocatorKey
  pub value : Option LocatorValue

pub record LocatorProofStep : Type 0 where
  pub page_id : ℤ
  pub keys : List LocatorKey
  pub child_index : ℤ
  pub child_hashes : List Hash

pub record LocatorLeafProof : Type 0 where
  pub page_id : ℤ
  pub next_page_id : Option ℤ
  pub keys : List LocatorKey
  pub values : List (Option LocatorValue)
  pub path : List LocatorProofStep

pub record LocatorRangeProof : Type 0 where
  pub leaves : List LocatorLeafProof
  pub reconstructed_root : Hash

pub record LocatorRangeResult : Type 0 where
  pub entries : List LocatorEntry
  pub predecessor : Option LocatorEntry
  pub successor : Option LocatorEntry
  pub proof : LocatorRangeProof

-- What a page holds of a child.
pub record ChildRef : Type 0 where
  pub page_id : ℤ
  pub hash : Hash

pub record Page : Type 0 where
  pub page_id : ℤ
  pub hash : Hash
  pub is_leaf : Bool
  pub keys : List LocatorKey
  pub parent_page_id : Option ℤ
  pub values : List (Option LocatorValue)
  pub next : Option ℤ
  pub children : List ChildRef

-- What is wrong with a query or with the proof of its result.
pub data LocatorError : Type 0 where
  required_field required_time empty_interval bounds_order keys_and_values keys_and_child_hashes
        child_index_range no_leaves root_mismatch reported_root duplicate_leaf tree_depth empty_leaf
        not_consecutive not_ordered left_edge right_edge wrong_predecessor wrong_successor
        wrong_count wrong_entry panics :
      LocatorError
