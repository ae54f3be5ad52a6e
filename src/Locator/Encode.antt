-- ===== src/Locator/Encode.antt =====
-- The bytes of a key and of a value: internal/all/locator_key.go.
use storage_aware_hmfaudit.Prelude.{
  ℕ, ◌≡◌, sym, ◌∙◌, ◌^◌, ◌<◌, [], ◌∷◌, ◌++◌, append_assoc, Option, none, some, length, arith,
  append_inj, IsInt64,
}
use storage_aware_hmfaudit.Crypto.{
  Bytes, write_string, write_int64, write_string_inj, write_int64_inj,
}
use storage_aware_hmfaudit.Locator.Types.{LocatorKey, LocatorValue}

unfoldable pub encode_key : LocatorKey → Bytes
encode_key key =
    write_string key.tenant_id
    ++ write_string key.service_id
    ++ write_string key.log_type
    ++ write_string key.region_id
    ++ write_int64 key.event_time
    ++ key.log_id

unfoldable pub encode_value : Option LocatorValue → Bytes
encode_value none = 0 ∷ []
encode_value (some value) =
    1 ∷ write_string value.region_id
    ++ write_string value.shard_id
    ++ write_string value.segment_id
    ++ write_string value.leaf_id

-- A string whose length fits its uint32.
abbrev pub IsShort : Bytes → Type 0
IsShort s = length s < 2 ^ 32

-- A key that its bytes hold: short strings, an instant in the range of UnixNano, a 16-byte UUID.
pub record IsKey (key : LocatorKey) : Type 0 where
  pub tenant_id : IsShort key.tenant_id
  pub service_id : IsShort key.service_id
  pub log_type : IsShort key.log_type
  pub region_id : IsShort key.region_id
  pub event_time : IsInt64 key.event_time
  pub log_id : length key.log_id ≡ 16

abbrev pub IsValue : Option LocatorValue → Type 0
IsValue none = Unit
IsValue (some value) =
    IsShort value.region_id
    × IsShort value.shard_id
    × IsShort value.segment_id
    × IsShort value.leaf_id

-- The bytes of a key and what follows them give back both.
pub encode_key_inj :
    (key key' : LocatorKey) (a b : Bytes)
    → IsKey key
    → IsKey key'
    → encode_key key ++ a ≡ encode_key key' ++ b
    → (key ≡ key') × (a ≡ b)
unfolding encode_key
encode_key_inj key key' a b h h' e =
    let (tenant, e1) = write_string_inj _ _ _ _ h.tenant_id h'.tenant_id (simp append_assoc at e) in
    let (service, e2) = write_string_inj _ _ _ _ h.service_id h'.service_id e1 in
    let (log_type, e3) = write_string_inj _ _ _ _ h.log_type h'.log_type e2 in
    let (region, e4) = write_string_inj _ _ _ _ h.region_id h'.region_id e3 in
    let (time, e5) = write_int64_inj _ _ _ _ h.event_time h'.event_time e4 in
    let (log_id, e6) = append_inj key.log_id key'.log_id a b (h.log_id ∙ sym h'.log_id) e5 in
    (
      λ i. record {
        log_id = log_id i;
        event_time = time i;
        region_id = region i;
        tenant_id = tenant i;
        service_id = service i;
        log_type = log_type i;
      },
      e6,
    )

tails : {x y : ℕ} {xs ys : Bytes} → x ∷ xs ≡ y ∷ ys → xs ≡ ys
tails e = cc

pub encode_value_inj :
    (value value' : Option LocatorValue) (a b : Bytes)
    → IsValue value
    → IsValue value'
    → encode_value value ++ a ≡ encode_value value' ++ b
    → (value ≡ value') × (a ≡ b)
unfolding encode_value
encode_value_inj none none a b h h' e = ground (arith)
encode_value_inj none (some w) a b h h' e = absurd (ground arith)
encode_value_inj (some v) none a b h h' e = absurd (ground arith)
encode_value_inj (some v) (some w) a b (h1, h2, h3, h4) (k1, k2, k3, k4) e =
    let (region, e1) = write_string_inj _ _ _ _ h1 k1 (tails (simp append_assoc at e)) in
    let (shard, e2) = write_string_inj _ _ _ _ h2 k2 e1 in
    let (segment, e3) = write_string_inj _ _ _ _ h3 k3 e2 in
    let (leaf, e4) = write_string_inj _ _ _ _ h4 k4 e3 in
    (
      λ i. some (record {
        region_id = region i;
        shard_id = shard i;
        segment_id = segment i;
        leaf_id = leaf i;
      }),
      e4,
    )
