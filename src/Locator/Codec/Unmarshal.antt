-- ===== src/Locator/Codec/Unmarshal.antt =====
-- `UnmarshalPage` and `UnmarshalStoredPage` of internal/all/page_codec.go. A page that was decoded
-- has the fields of Go's zero value where the bytes give none.
use storage_aware_hmfaudit.Prelude.{
  ℕ, zero, suc, ◌+◌, ◌%◌, ◌^◌, ◌/◌, ℤ, pos, List, [], ◌∷◌, Option, none, some, length, Bool, true,
  false, not, ◌||◌, ltb, ◌==◌, if◌then◌else◌, Result, ok, err, ◌=?◌, list_eq, nat_eq,
}
use storage_aware_hmfaudit.Crypto.{Bytes, Hash, Sha256, zero_hash}
use storage_aware_hmfaudit.Locator.Types.{LocatorKey, LocatorValue, ChildRef, Page}
use storage_aware_hmfaudit.Locator.Page.{leaf_hash, internal_hash}
use storage_aware_hmfaudit.Locator.Reader.{
  CodecError, Reader, ◌>>=◌, ◌>>◌, pure, fail, check, remaining, read_byte, read_full, read_uint32,
  read_int64, read_bytes, read_string, unsupported_version, invalid_page_type, invalid_presence,
  key_count, value_count, child_count, trailing_page, trailing_key, trailing_value, hash_size,
  hash_mismatch, leaf_panic,
}
use storage_aware_hmfaudit.Locator.Codec.Marshal.{page_format_version}

-- `if reader.Len() != 0 { return error }`
unfoldable pub at_end : {A : Type 0} → CodecError → A → Reader A
at_end e a = do left ← remaining; check (left == 0) e; pure a

abbrev pub value_read : {A : Type 0} → Result CodecError (A × Bytes) → Result CodecError A
value_read (ok (a, rest)) = ok a
value_read (err e) = err e

-- `bytes.NewReader(input)`, and what a reader makes of it.
abbrev pub run : {A : Type 0} → Reader A → Bytes → Result CodecError A
run reader input = value_read (reader input)

abbrev pub lift : {A : Type 0} → Result CodecError A → Reader A
lift (ok a) = pure a
lift (err e) = fail e

unfoldable pub read_key_fields : Reader LocatorKey
read_key_fields = do
  tenant ← read_string
  service ← read_string
  kind ← read_string
  region ← read_string
  time ← read_int64
  log ← read_full 16
  pure (record {
    log_id = log;
    event_time = time;
    region_id = region;
    tenant_id = tenant;
    service_id = service;
    log_type = kind;
  })

unfoldable pub unmarshal_key : Bytes → Result CodecError LocatorKey
unmarshal_key input = run (read_key_fields >>= at_end trailing_key) input

unfoldable pub read_value_strings : Reader (Option LocatorValue)
read_value_strings = do
  region ← read_string
  shard ← read_string
  segment ← read_string
  leaf ← read_string
  pure
      (some (record { region_id = region; shard_id = shard; segment_id = segment; leaf_id = leaf }))

unfoldable pub read_value_fields : Reader (Option LocatorValue)
unfolding read_value_strings
read_value_fields = do
  present ← read_byte
  if present == 0
      then pure none
      else if present == 1
      then read_value_strings
      else fail (invalid_presence present)

unfoldable pub unmarshal_value : Bytes → Result CodecError (Option LocatorValue)
unmarshal_value input = run (read_value_fields >>= at_end trailing_value) input

-- `for range count { … append(…) }`
unfoldable pub read_many : {A : Type 0} → ℕ → Reader A → Reader (List A)
read_many zero reader = pure []
read_many (suc count) reader = do a ← reader; rest ← read_many count reader; pure (a ∷ rest)

unfoldable pub read_key : Reader LocatorKey
read_key = read_bytes >>= λ input. lift (unmarshal_key input)

unfoldable pub read_value : Reader (Option LocatorValue)
read_value = read_bytes >>= λ input. lift (unmarshal_value input)

unfoldable pub read_child : Reader ChildRef
read_child = do
  id ← read_int64
  hash_read ← read_full 32
  pure (record { page_id = id; hash = hash_read })

-- A page with the fields that its bytes give.
unfoldable pub decoded_page :
    Bool → List LocatorKey → List (Option LocatorValue) → List ChildRef → Page
decoded_page leaf keys_read values_read children_read = record {
  page_id = pos 0;
  hash = zero_hash;
  is_leaf = leaf;
  keys = keys_read;
  parent_page_id = none;
  values = values_read;
  next = none;
  children = children_read;
}

unfoldable pub read_values : ℕ → List LocatorKey → Reader Page
read_values count keys_read = do
  left ← remaining
  check (not (ltb (left / 4) count)) value_count
  values_read ← read_many count read_value
  pure (decoded_page true keys_read values_read [])

-- `keyCount + 1` of a uint32
unfoldable pub read_children : ℕ → List LocatorKey → Reader Page
read_children count keys_read = do
  left ← remaining
  check (not (ltb (left / 40) (count + 1))) child_count
  children_read ← read_many ((count + 1) % 2 ^ 32) read_child
  pure (decoded_page false keys_read [] children_read)

-- What follows the type of a page: its keys, then its values or its children.
unfoldable pub read_contents : ℕ → Reader Page
read_contents leaf = do
  count ← read_uint32
  left ← remaining
  check (not (ltb (left / 4) count)) key_count
  keys_read ← read_many count read_key
  if leaf == 1 then read_values count keys_read else read_children count keys_read

unfoldable pub read_page : Reader Page
read_page = do
  version ← read_byte
  check (version == page_format_version) (unsupported_version version)
  leaf ← read_byte
  check ((leaf == 0) || (leaf == 1)) (invalid_page_type leaf)
  read_contents leaf

unfoldable pub unmarshal_page : Bytes → Result CodecError Page
unmarshal_page input = run (read_page >>= at_end trailing_page) input

-- The columns of a stored page beside its contents.
unfoldable pub with_columns : Page → ℤ → Option ℤ → Option ℤ → Hash → Page
with_columns page id parent next_id stored = record page {
  page_id = id;
  parent_page_id = parent;
  next = next_id;
  hash = stored;
}

module _ ⦃sha : Sha256⦄ where
  unfoldable pub page_hash : Page → Option Hash
  page_hash page = if page.is_leaf then leaf_hash page else some (internal_hash page)

  -- `subtle.ConstantTimeCompare(computed[:], page.Hash[:]) != 1`
  abbrev pub check_page_hash : Page → Option Hash → Result CodecError Page
  check_page_hash page none = err leaf_panic
  check_page_hash page (some computed) =
      if computed =? page.hash then ok page else err hash_mismatch

  abbrev pub check_decoded :
      Result CodecError Page → ℤ → Option ℤ → Option ℤ → Hash → Result CodecError Page
  check_decoded (err e) id parent next_id stored = err e
  check_decoded (ok page) id parent next_id stored =
      let restored = with_columns page id parent next_id stored in
      check_page_hash restored (page_hash restored)

  unfoldable pub unmarshal_stored_page :
      Bytes → ℤ → Option ℤ → Option ℤ → Bytes → Result CodecError Page
  unmarshal_stored_page input id parent next_id stored =
      if length stored == 32
      then check_decoded (unmarshal_page input) id parent next_id stored
      else err hash_size
