-- ===== src/Locator/Codec/Items.antt =====
-- Reading the bytes of a key, a value or a child gives it back.
use storage_aware_hmfaudit.Prelude.{
  ℕ, ◌*◌, ◌≤◌, ◌≡◌, refl, List, [], ◌∷◌, ◌++◌, map, flatten, append_assoc, append-nil,
  length-append, Option, none, some, length, arith, ok, list_eq, nat_eq, IsInt64, All,
}
use storage_aware_hmfaudit.Crypto.{Bytes, IsHash, write_string, write_int64}
use storage_aware_hmfaudit.Locator.Types.{LocatorKey, LocatorValue, ChildRef}
use storage_aware_hmfaudit.Locator.Encode.{encode_key, encode_value, IsKey, IsValue, IsShort}
use storage_aware_hmfaudit.Locator.Reader.{
  CodecError, Reader, ◌>>=◌, read_byte, read_full, read_int64, read_string, Reads, Reads-bind,
  Reads-pure, read_full-Reads, read_int64-Reads, read_bytes-Reads,
}
use storage_aware_hmfaudit.Locator.Codec.Marshal.{write_key, write_value, write_child}
use storage_aware_hmfaudit.Locator.Codec.Unmarshal.{
  at_end, run, read_key_fields, unmarshal_key, read_value_strings, read_value_fields,
  unmarshal_value, read_many, read_key, read_value, read_child,
}

-- A key whose bytes fit the uint32 of their length, and a value and a child that fit theirs.
abbrev pub IsStoredKey : LocatorKey → Type 0
IsStoredKey key = IsKey key × IsShort (encode_key key)

abbrev pub IsStoredValue : Option LocatorValue → Type 0
IsStoredValue v = IsValue v × IsShort (encode_value v)

abbrev pub IsStoredChild : ChildRef → Type 0
IsStoredChild c = IsInt64 c.page_id × IsHash c.hash

pub run-at_end :
    {A : Type 0} (reader : Reader A) (e : CodecError) (bytes : Bytes) (a : A)
    → Reads reader bytes a
    → run (reader >>= at_end e) bytes ≡ ok a
unfolding ◌>>=◌ at_end
run-at_end reader e bytes a h = let whole = h [] in rw (← append-nil bytes, whole) refl

read_key_fields-Reads : (key : LocatorKey) → IsKey key → Reads read_key_fields (encode_key key) key
unfolding read_key_fields encode_key
read_key_fields-Reads key h =
    let right : encode_key key
        ≡ write_string key.tenant_id
          ++ (write_string key.service_id
              ++ (write_string key.log_type
                  ++ (write_string key.region_id ++ (write_int64 key.event_time ++ key.log_id)))) =
      simp append_assoc in
    rw right (
      Reads-bind read_string _ _ _ _ _ (read_bytes-Reads _ h.tenant_id) (
        Reads-bind read_string _ _ _ _ _ (read_bytes-Reads _ h.service_id) (
          Reads-bind read_string _ _ _ _ _ (read_bytes-Reads _ h.log_type) (
            Reads-bind read_string _ _ _ _ _ (read_bytes-Reads _ h.region_id) (
              Reads-bind read_int64 _ _ _ _ _ (read_int64-Reads _ h.event_time)
                (Reads-pure (read_full 16) _ _ _ (read_full-Reads 16 key.log_id h.log_id)))))))

-- The bytes of a key give back the key.
pub unmarshal_key-encode_key :
    (key : LocatorKey) → IsKey key → unmarshal_key (encode_key key) ≡ ok key
unfolding unmarshal_key
unmarshal_key-encode_key key h =
    run-at_end read_key_fields _ (encode_key key) key (read_key_fields-Reads key h)

read_value_strings-Reads :
    (v : LocatorValue)
    → IsValue (some v)
    → Reads read_value_strings
        (write_string v.region_id
          ++ write_string v.shard_id
          ++ write_string v.segment_id
          ++ write_string v.leaf_id)
        (some v)
unfolding read_value_strings
read_value_strings-Reads v (h1, h2, h3, h4) =
    let right : write_string v.region_id
          ++ write_string v.shard_id
          ++ write_string v.segment_id
          ++ write_string v.leaf_id
        ≡ write_string v.region_id
          ++ (write_string v.shard_id ++ (write_string v.segment_id ++ write_string v.leaf_id)) =
      simp append_assoc in
    rw right (
      Reads-bind read_string _ _ _ _ _ (read_bytes-Reads _ h1) (
        Reads-bind read_string _ _ _ _ _ (read_bytes-Reads _ h2) (
          Reads-bind read_string _ _ _ _ _ (read_bytes-Reads _ h3)
            (Reads-pure read_string _ _ _ (read_bytes-Reads _ h4)))))

read_value_fields-Reads :
    (v : Option LocatorValue) → IsValue v → Reads read_value_fields (encode_value v) v
unfolding read_value_fields encode_value ◌>>=◌ read_byte
read_value_fields-Reads none h rest = refl
read_value_fields-Reads (some v) h rest = read_value_strings-Reads v h rest

-- So do those of a value, and one zero byte gives back a missing value.
pub unmarshal_value-encode_value :
    (v : Option LocatorValue) → IsValue v → unmarshal_value (encode_value v) ≡ ok v
unfolding unmarshal_value
unmarshal_value-encode_value v h =
    run-at_end read_value_fields _ (encode_value v) v (read_value_fields-Reads v h)

pub read_key-Reads : (key : LocatorKey) → IsStoredKey key → Reads read_key (write_key key) key
unfolding read_key write_key ◌>>=◌
read_key-Reads key (h, short) rest =
    rw (read_bytes-Reads (encode_key key) short rest, unmarshal_key-encode_key key h) refl

pub read_value-Reads :
    (v : Option LocatorValue) → IsStoredValue v → Reads read_value (write_value v) v
unfolding read_value write_value ◌>>=◌
read_value-Reads v (h, short) rest =
    rw (read_bytes-Reads (encode_value v) short rest, unmarshal_value-encode_value v h) refl

pub read_child-Reads : (c : ChildRef) → IsStoredChild c → Reads read_child (write_child c) c
unfolding read_child write_child
read_child-Reads c (id, size) =
    Reads-bind read_int64 _ _ _ _ _ (read_int64-Reads c.page_id id)
      (Reads-pure (read_full 32) _ _ _ (read_full-Reads 32 c.hash size))

pub read_many-Reads :
    {A : Type 0} (P : A → Type 0) (reader : Reader A) (write : A → Bytes) (items : List A)
    → ((a : A) → P a → Reads reader (write a) a)
    → All P items
    → Reads (read_many (length items) reader) (flatten (map write items)) items
unfolding read_many
read_many-Reads P reader write [] one h = λ rest. refl
read_many-Reads P reader write (a ∷ items) one (h, hs) =
    Reads-bind reader _ (write a) _ _ _ (one a h) (
      Reads-pure (read_many (length items) reader) _ _ _
        (read_many-Reads P reader write items one hs))

-- Every item that was written takes at least `least` bytes.
pub length-flatten :
    {A : Type 0} (P : A → Type 0) (write : A → Bytes) (least : ℕ) (items : List A)
    → ((a : A) → P a → least ≤ length (write a))
    → All P items
    → least * length items ≤ length (flatten (map write items))
length-flatten P write least [] one h = omega arith
length-flatten P write least (a ∷ items) one (h, hs) = omega (
  arith,
  one a h,
  length-flatten P write least items one hs,
  length-append (write a) (flatten (map write items)),
)
