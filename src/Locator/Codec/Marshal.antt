-- ===== src/Locator/Codec/Marshal.antt =====
-- `MarshalPage` of internal/all/page_codec.go.
use storage_aware_hmfaudit.Prelude.{
  ℕ, ◌+◌, ◌%◌, ◌^◌, ◌∷◌, ◌++◌, length, flatten, map, Bool, not, ◌||◌, ◌==◌, if◌then◌else◌, Result,
  ok, ◌>>◌, guard, Option,
}
use storage_aware_hmfaudit.Crypto.{Bytes, big_endian, write_string, write_int64}
use storage_aware_hmfaudit.Locator.Types.{LocatorKey, LocatorValue, ChildRef, Page}
use storage_aware_hmfaudit.Locator.Encode.{encode_key, encode_value}
use storage_aware_hmfaudit.Locator.Reader.{
  CodecError, keys_and_values_differ, keys_and_children_differ,
}

abbrev pub page_format_version : ℕ
page_format_version = 2

-- `writeBytes`: the length as a uint32, then the bytes.
abbrev pub write_bytes : Bytes → Bytes
write_bytes bytes = write_string bytes

unfoldable pub write_key : LocatorKey → Bytes
write_key key = write_bytes (encode_key key)

unfoldable pub write_value : Option LocatorValue → Bytes
write_value value = write_bytes (encode_value value)

unfoldable pub write_child : ChildRef → Bytes
write_child child = write_int64 child.page_id ++ child.hash

-- What follows the keys of a page.
unfoldable pub write_contents : Page → Bytes
write_contents page =
    if page.is_leaf
    then flatten (map write_value page.values)
    else flatten (map write_child page.children)

abbrev pub page_type : Bool → ℕ
page_type is_leaf = if is_leaf then 1 else 0

unfoldable pub marshal_page : Page → Result CodecError Bytes
marshal_page page = do
  guard (not page.is_leaf || (length page.keys == length page.values)) keys_and_values_differ
  guard (page.is_leaf || (length page.children == length page.keys + 1)) keys_and_children_differ
  ok (
      page_format_version ∷ page_type page.is_leaf ∷ big_endian 4 (length page.keys % 2 ^ 32)
      ++ (flatten (map write_key page.keys) ++ write_contents page))
