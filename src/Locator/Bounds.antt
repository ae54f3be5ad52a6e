-- ===== src/Locator/Bounds.antt =====
-- `LocatorQuery.Bounds` of internal/all/locator_range.go: the keys that a query asks for.
pub mod Exact
use storage_aware_hmfaudit.Prelude.{
  ℕ, ◌-◌, ◌*◌, ◌^◌, ℤ, negsuc, List, [], Bool, true, not, ◌&&◌, ◌||◌, replicate, ltb_ℤ, Result, ok,
  err, ◌>>=◌, ◌>>◌, guard, ◌=?◌, list_eq, nat_eq, int_eq,
}
use storage_aware_hmfaudit.Crypto.{Bytes}
use storage_aware_hmfaudit.Locator.Types.{
  LocatorKey, LocatorQuery, LocatorError, required_field, required_time, empty_interval,
}

-- `time.Time{}`: the first of January of the year 1.
abbrev pub zero_time : ℤ
zero_time = negsuc (62135596800 * 10 ^ 9 - 1)

-- `uuid.UUID{}`
abbrev pub zero_id : Bytes
zero_id = replicate 16 0

unfoldable pub bound_key : LocatorQuery → ℤ → LocatorKey
bound_key query instant = record {
  log_id = zero_id;
  event_time = instant;
  region_id = query.region_id;
  tenant_id = query.tenant_id;
  service_id = query.service_id;
  log_type = query.log_type;
}

abbrev is_empty : Bytes → Bool
is_empty s = s =? []

abbrev pub has_fields : LocatorQuery → Bool
has_fields query = not (
    is_empty query.tenant_id
    || is_empty query.service_id
    || is_empty query.log_type
    || is_empty query.region_id)

abbrev pub has_times : LocatorQuery → Bool
has_times query = not ((query.start_time =? zero_time) || (query.end_time =? zero_time))

unfoldable pub bounds : LocatorQuery → Result LocatorError (LocatorKey × LocatorKey)
bounds query = do
  guard (has_fields query) required_field
  guard (has_times query) required_time
  guard (ltb_ℤ query.start_time query.end_time) empty_interval
  ok (bound_key query query.start_time, bound_key query query.end_time)
