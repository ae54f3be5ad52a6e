-- ===== src/Locator/Codec/RoundTrip.antt =====
-- Decoding a page that was encoded gives it back.
use storage_aware_hmfaudit.Prelude.{
  Bool-cases, nat_beq_iff, inl, inr, ℕ, ◌+◌, ◌%◌, ◌^◌, ◌/◌, ◌<◌, ◌≤◌, ◌≡◌, refl, ◌∙◌, List, [], ◌∷◌,
  ◌++◌, map, flatten, length-append, Option, length, Bool, true, arith, false, not, ltb, ◌==◌,
  if◌then◌else◌, ok, list_eq, nat_eq, All,
}
use storage_aware_hmfaudit.Crypto.{
  Bytes, write_string, write_int64, big_endian, length-big_endian, to_uint64,
}
use storage_aware_hmfaudit.Locator.Types.{LocatorKey, LocatorValue, ChildRef, Page}
use storage_aware_hmfaudit.Locator.Encode.{encode_key, encode_value}
use storage_aware_hmfaudit.Locator.Reader.{
  ◌>>=◌, read_byte, read_uint32, Reads, Reads-bind, read_uint32-Reads, check-passes, key_count,
  value_count, child_count,
}
use storage_aware_hmfaudit.Locator.Codec.Items.{
  run-at_end, read_key-Reads, read_value-Reads, read_child-Reads, read_many-Reads, length-flatten,
  IsStoredKey, IsStoredValue, IsStoredChild,
}
use storage_aware_hmfaudit.Locator.Codec.Marshal.{
  page_type, page_format_version, write_key, write_value, write_child, write_contents, marshal_page,
}
use storage_aware_hmfaudit.Locator.Codec.Unmarshal.{
  read_many, read_key, read_value, read_child, decoded_page, read_values, read_children, read_page,
  read_contents, unmarshal_page,
}

-- A page that its stored form holds: a leaf has as many values as keys, an internal page one child
-- more, and either has room for their number in a uint32.
pub record IsStoredPage (page : Page) : Type 0 where
  pub keys : All IsStoredKey page.keys
  pub values : All IsStoredValue page.values
  pub children : All IsStoredChild page.children
  pub count : length page.keys + 1 < 2 ^ 32
  pub leaf_values : page.is_leaf ≡ true → length page.keys ≡ length page.values
  pub internal_children : page.is_leaf ≡ false → length page.children ≡ length page.keys + 1

-- The part of a page that its stored form keeps.
abbrev pub contents : Page → Page
contents page =
    if page.is_leaf
    then decoded_page true page.keys page.values []
    else decoded_page false page.keys [] page.children

key_size : (key : LocatorKey) → IsStoredKey key → 4 ≤ length (write_key key)
unfolding write_key write_string
key_size key h = omega (
  arith,
  length-append (big_endian 4 (length (encode_key key) % 2 ^ 32)) (encode_key key),
  length-big_endian 4 (length (encode_key key) % 2 ^ 32),
)

value_size : (v : Option LocatorValue) → IsStoredValue v → 4 ≤ length (write_value v)
unfolding write_value write_string
value_size v h = omega (
  arith,
  length-append (big_endian 4 (length (encode_value v) % 2 ^ 32)) (encode_value v),
  length-big_endian 4 (length (encode_value v) % 2 ^ 32),
)

child_size : (c : ChildRef) → IsStoredChild c → 40 ≤ length (write_child c)
unfolding write_child write_int64
child_size c (id, size) = omega (
  arith,
  size,
  length-append (write_int64 c.page_id) c.hash,
  length-big_endian 8 (to_uint64 c.page_id),
)

read_values-Reads :
    (keys : List LocatorKey) (values : List (Option LocatorValue))
    → All IsStoredValue values
    → length keys ≡ length values
    → Reads
        (read_values (length keys) keys)
        (flatten (map write_value values))
        (decoded_page true keys values [])
unfolding read_values ◌>>=◌
read_values-Reads keys values h n rest =
    let many =
      read_many-Reads IsStoredValue read_value write_value values read_value-Reads h rest in
    check-passes (not (ltb (length (flatten (map write_value values) ++ rest) / 4) (length keys)))
      value_count _ (flatten (map write_value values) ++ rest)
      (ground (
        arith,
        length-append (flatten (map write_value values)) rest,
        length-flatten IsStoredValue write_value 4 values value_size h,
      ))
    ∙ (rw (n, many) refl)

read_children-Reads :
    (keys : List LocatorKey) (children : List ChildRef)
    → All IsStoredChild children
    → length keys + 1 < 2 ^ 32
    → length children ≡ length keys + 1
    → Reads
        (read_children (length keys) keys)
        (flatten (map write_child children))
        (decoded_page false keys [] children)
unfolding read_children ◌>>=◌
read_children-Reads keys children h fits n rest =
    let many =
      read_many-Reads IsStoredChild read_child write_child children read_child-Reads h rest in
    let wrapped : (length keys + 1) % 2 ^ 32 ≡ length children = omega arith in
    check-passes
      (not (ltb (length (flatten (map write_child children) ++ rest) / 40) (length keys + 1)))
      child_count _ (flatten (map write_child children) ++ rest)
      (ground (
        arith,
        length-append (flatten (map write_child children)) rest,
        length-flatten IsStoredChild write_child 40 children child_size h,
      ))
    ∙ (rw (wrapped, many) refl)

read_contents-Reads :
    (leaf : ℕ) (keys : List LocatorKey) (bytes : Bytes) (page : Page)
    → All IsStoredKey keys
    → length keys < 2 ^ 32
    → Reads
        (if leaf == 1 then read_values (length keys) keys else read_children (length keys) keys)
        bytes
        page
    → Reads
        (read_contents leaf)
        (big_endian 4 (length keys % 2 ^ 32) ++ (flatten (map write_key keys) ++ bytes))
        page
unfolding read_contents ◌>>=◌
read_contents-Reads leaf keys bytes page h fits body =
    let small : length keys % 2 ^ 32 ≡ length keys = omega arith in
    rw small (
      Reads-bind read_uint32 _ _ _ _ _ (read_uint32-Reads (length keys) fits) λ rest.
        check-passes
          (not (ltb (length ((flatten (map write_key keys) ++ bytes) ++ rest) / 4) (length keys)))
          key_count _ _
          (ground (
            arith,
            length-append (flatten (map write_key keys) ++ bytes) rest,
            length-append (flatten (map write_key keys)) bytes,
            length-flatten IsStoredKey write_key 4 keys key_size h,
          ))
        ∙ Reads-bind (read_many (length keys) read_key) _ _ _ _ _
            (read_many-Reads IsStoredKey read_key write_key keys read_key-Reads h) body rest)

read_page-Reads :
    (leaf : Bool) (bytes : Bytes) (page : Page)
    → Reads (read_contents (page_type leaf)) bytes page
    → Reads read_page (page_format_version ∷ page_type leaf ∷ bytes) page
unfolding read_page ◌>>=◌ read_byte
read_page-Reads true bytes page h = h
read_page-Reads false bytes page h = h

body-Reads :
    (page : Page)
    → IsStoredPage page
    → Reads
        (if page_type page.is_leaf == 1
          then read_values (length page.keys) page.keys
          else read_children (length page.keys) page.keys)
        (write_contents page)
        (contents page)
unfolding write_contents
body-Reads page h = elim (Bool-cases page.is_leaf) [
  | inl leaf ↦ rw leaf (read_values-Reads page.keys page.values h.values (h.leaf_values leaf))
  | inr inner ↦
      rw inner
        (read_children-Reads page.keys page.children h.children h.count (h.internal_children inner))
]

unfoldable pub marshalled : Page → Bytes
marshalled page =
    page_format_version ∷ page_type page.is_leaf ∷ big_endian 4 (length page.keys % 2 ^ 32)
    ++ (flatten (map write_key page.keys) ++ write_contents page)

pub marshal_page-ok : (page : Page) → IsStoredPage page → marshal_page page ≡ ok (marshalled page)
unfolding marshal_page marshalled
marshal_page-ok page h = elim (Bool-cases page.is_leaf) [
  | inl leaf ↦
      rw (leaf, (nat_beq_iff (length page.keys) (length page.values)).1 (h.leaf_values leaf)) refl
  | inr inner ↦
      rw
        (
          inner,
          (nat_beq_iff (length page.children) (length page.keys + 1)).1 (h.internal_children inner),
        )
        refl
]

-- A page whose parts fit their lengths is stored without an error, and what was stored is read back
-- as the same page: its type, its keys, and the values of a leaf or the children of an internal
-- page.
pub unmarshal_page-marshal_page :
    (page : Page)
    → IsStoredPage page
    → (bytes : Bytes) × (marshal_page page ≡ ok bytes) × (unmarshal_page bytes ≡ ok (contents page))
unfolding unmarshal_page marshalled
unmarshal_page-marshal_page page h = (
  marshalled page,
  marshal_page-ok page h,
  run-at_end read_page _ (marshalled page) (contents page) (
      read_page-Reads page.is_leaf _ _ (
        read_contents-Reads (page_type page.is_leaf) page.keys _ _ h.keys (omega arith)
          (body-Reads page h))),
)
