-- ===== src/Locator/Page.antt =====
-- The hash of a page and the search in its keys: internal/all/locator_page.go.
pub mod Injective
pub mod Binding
use mathlib.Core.Option
use storage_aware_hmfaudit.Prelude.{
  ℕ, zero, suc, ℤ, List, [], ◌∷◌, ◌++◌, Option, none, some, length, if◌then◌else◌,
}
use storage_aware_hmfaudit.Crypto.{Bytes, Hash, Sha256, write_int64}
use storage_aware_hmfaudit.Locator.Types.{LocatorKey, LocatorValue, ChildRef, Page}
use storage_aware_hmfaudit.Locator.Key.{less}
use storage_aware_hmfaudit.Locator.Encode.{encode_key, encode_value}

unfoldable pub concat_enc_keys : Bytes → List LocatorKey → Bytes
concat_enc_keys prefix [] = prefix
concat_enc_keys prefix (key ∷ keys) = concat_enc_keys (prefix ++ encode_key key) keys

unfoldable pub concat_enc_child : Bytes → List ChildRef → Bytes
concat_enc_child prefix [] = prefix
concat_enc_child prefix (child ∷ children) = concat_enc_child (prefix ++ child.hash) children

-- `findKeyIdx`: the first key after the given one, or the number of keys.
unfoldable pub find_key_idx : List LocatorKey → LocatorKey → ℕ
find_key_idx [] curr_key = 0
find_key_idx (key ∷ keys) curr_key =
    let rest = find_key_idx keys curr_key in if less curr_key key then 0 else suc rest

abbrev pub leaf_prefix : Bytes
leaf_prefix = b'L' ∷ b'E' ∷ b'A' ∷ b'F' ∷ []

abbrev pub internal_prefix : Bytes
internal_prefix = b'I' ∷ b'N' ∷ b'T' ∷ b'E' ∷ b'R' ∷ b'N' ∷ b'A' ∷ b'L' ∷ []

unfoldable pub encode_next : Option ℤ → Bytes
encode_next none = 0 ∷ []
encode_next (some next) = 1 ∷ write_int64 next

-- The loop over a leaf's keys. `page.Values[index]` past the end of the values is a panic, none
-- here; a nil value is `some none`.
unfoldable pub encode_entries : List LocatorKey → List (Option LocatorValue) → Option Bytes
encode_entries [] values = some []
encode_entries (key ∷ keys) [] = none
encode_entries (key ∷ keys) (value ∷ values) =
    Option.map (λ rest. encode_key key ++ (encode_value value ++ rest)) (encode_entries keys values)

unfoldable pub leaf_bytes : Page → Option Bytes
leaf_bytes page =
    Option.map
      (λ entries. leaf_prefix ++ (write_int64 page.page_id ++ (encode_next page.next ++ entries)))
      (encode_entries page.keys page.values)

module _ ⦃sha : Sha256⦄ where
  unfoldable pub leaf_hash : Page → Option Hash
  leaf_hash page = Option.map sha.sum (leaf_bytes page)

  unfoldable pub internal_hash : Page → Hash
  internal_hash page =
      sha.sum (concat_enc_child (concat_enc_keys internal_prefix page.keys) page.children)
