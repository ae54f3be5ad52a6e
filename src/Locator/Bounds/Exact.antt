-- ===== src/Locator/Bounds/Exact.antt =====
-- The keys between the bounds of a query are the ones the query describes.
use storage_aware_hmfaudit.Prelude.{
  ℕ, zero, suc, ℤ, pos, ◌≡◌, refl, subst, ap₂, int_order, Bool, true, false, ◌&&◌, not, ltb_ℤ,
  length, ok, arith, ◌=?◌, list_eq, nat_eq, int_eq, bytes_iff, int_iff, string_less, compare_then,
  ◌∷◌, [], replicate, ◌>>◌, guard,
}
use storage_aware_hmfaudit.Crypto.{Bytes}
use storage_aware_hmfaudit.Locator.Types.{LocatorError, LocatorKey, LocatorQuery}
use storage_aware_hmfaudit.Locator.Key.{compare, compare_log_id, less}
use storage_aware_hmfaudit.Locator.Bounds.{bounds, bound_key, zero_id, has_fields, has_times}

-- A key of the query's tenant, service, type and region, and of its half-open interval.
abbrev pub matches : LocatorQuery → LocatorKey → Bool
matches query key =
    (key.tenant_id =? query.tenant_id)
    && ((key.service_id =? query.service_id)
        && ((key.log_type =? query.log_type)
            && ((key.region_id =? query.region_id)
                && (not (ltb_ℤ key.event_time query.start_time)
                    && ltb_ℤ key.event_time query.end_time))))

-- `lower <= key < upper`
unfoldable pub in_range : LocatorKey → LocatorKey → LocatorKey → Bool
in_range lower upper key = not (less key lower) && less key upper

zeros_least : (k : ℕ) (id : Bytes) → length id ≡ k → string_less id (replicate k 0) ≡ false
zeros_least zero id h = refl
zeros_least (suc k) [] h = absurd (omega arith)
zeros_least (suc k) (b ∷ id) h = ground (arith, zeros_least k id (omega arith))

-- One field that both bounds share: it must be equal, and then the other fields decide.
shared_field :
    (same l : Bool) (r r' : ℤ) (rest : Bool)
    → not (ltb_ℤ r (pos 0)) && ltb_ℤ r' (pos 0) ≡ rest
    → not (ltb_ℤ (compare_then same l r) (pos 0)) && ltb_ℤ (compare_then same l r') (pos 0)
      ≡ (same && rest)
shared_field true l r r' rest h = h
shared_field false true r r' rest h = refl
shared_field false false r r' rest h = refl

time_field :
    (t u : ℤ) (id : Bytes)
    → length id ≡ 16
    → ltb_ℤ (compare_then (t =? u) (ltb_ℤ t u) (compare_log_id id zero_id)) (pos 0) ≡ ltb_ℤ t u
time_field t u id size =
    ground
      (arith, zeros_least 16 id size, int_iff t u, int_order.less_irrefl t, bytes_iff id zero_id)

bound-range :
    (query : LocatorQuery) (key : LocatorKey)
    → length key.log_id ≡ 16
    → in_range (bound_key query query.start_time) (bound_key query query.end_time) key
      ≡ matches query key
unfolding in_range compare bound_key
bound-range query key size =
    shared_field (key.tenant_id =? query.tenant_id) (string_less key.tenant_id query.tenant_id) _ _
      _
      (shared_field (key.service_id =? query.service_id)
        (string_less key.service_id query.service_id) _ _ _
        (shared_field (key.log_type =? query.log_type) (string_less key.log_type query.log_type) _ _
          _
          (shared_field (key.region_id =? query.region_id)
            (string_less key.region_id query.region_id) _ _ _
            (ap₂ (λ a b. not a && b) (time_field key.event_time query.start_time key.log_id size)
              (time_field key.event_time query.end_time key.log_id size)))))

-- The last of three checks passed, and the value is the one at the end.
three_guards :
    {A : Type 0} (a b c : Bool) (x y z : LocatorError) (v w : A)
    → (guard a x >> (guard b y >> (guard c z >> ok v))) ≡ ok w
    → (c ≡ true) × (v ≡ w)
three_guards true true true x y z v w e = (refl, cc)
three_guards true true false x y z v w e = cc
three_guards true false c x y z v w e = cc
three_guards false b c x y z v w e = cc

-- A query that has bounds asks for exactly the keys between them: a key lies in `[lower, upper)`
-- when its tenant, service, type and region are the query's and its time lies in the query's
-- half-open interval, whatever its log ID.
pub bounds-exact :
    (query : LocatorQuery) (lower upper key : LocatorKey)
    → bounds query ≡ ok (lower, upper)
    → length key.log_id ≡ 16
    → in_range lower upper key ≡ matches query key
unfolding bounds
bounds-exact query lower upper key e size =
    let (order, keys) =
      three_guards (has_fields query) (has_times query) (ltb_ℤ query.start_time query.end_time) _ _
        _ _ _ e in
    subst (λ (p : LocatorKey × LocatorKey). in_range p.0 p.1 key ≡ matches query key) keys
      (bound-range query key size)
