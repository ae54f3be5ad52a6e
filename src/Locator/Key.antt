-- ===== src/Locator/Key.antt =====
-- The order of the locator's keys: internal/all/locator_key.go.
use storage_aware_hmfaudit.Prelude.{
  ℤ, pos, StrictOrder, true, negsuc, zero, suc, ◌⊎◌, inl, inr, ◌∙◌, Bool, ◌≡◌, refl, ap, ◌=?◌,
  list_eq, nat_eq, int_eq, arith, ltb_ℤ, string_less, string_order, int_order, minus_one, flip_sign,
  compare_then, compare_then_trans, compare_then_flip, compare_then_zero,
}
use storage_aware_hmfaudit.Crypto.{Bytes}
use storage_aware_hmfaudit.Locator.Types.{LocatorKey}

-- `uuid.UUID.Compare`: the bytes in order.
abbrev pub compare_log_id : Bytes → Bytes → ℤ
compare_log_id u v = compare_then (u =? v) (string_less u v) (pos 0)

unfoldable pub compare : LocatorKey → LocatorKey → ℤ
compare key other =
    compare_then (key.tenant_id =? other.tenant_id) (string_less key.tenant_id other.tenant_id) (
      compare_then (key.service_id =? other.service_id)
        (string_less key.service_id other.service_id)
        (compare_then (key.log_type =? other.log_type) (string_less key.log_type other.log_type) (
          compare_then (key.region_id =? other.region_id)
            (string_less key.region_id other.region_id)
            (compare_then (key.event_time =? other.event_time)
              (ltb_ℤ key.event_time other.event_time) (compare_log_id key.log_id other.log_id)))))

abbrev pub less : LocatorKey → LocatorKey → Bool
less key other = ltb_ℤ (compare key other) (pos 0)

-- A key that sorts before a second one, which sorts before a third, sorts before the third.
pub compare_trans :
    (a b c : LocatorKey)
    → compare a b ≡ minus_one
    → compare b c ≡ minus_one
    → compare a c ≡ minus_one
unfolding compare
compare_trans a b c = compare_then_trans string_order a.tenant_id b.tenant_id c.tenant_id _ _ _ (
    compare_then_trans string_order a.service_id b.service_id c.service_id _ _ _ (
      compare_then_trans string_order a.log_type b.log_type c.log_type _ _ _ (
        compare_then_trans string_order a.region_id b.region_id c.region_id _ _ _ (
          compare_then_trans int_order a.event_time b.event_time c.event_time _ _ _
            (compare_then_trans string_order a.log_id b.log_id c.log_id _ _ _ λ h k. h)))))

-- Two keys compared the other way round give the opposite sign.
pub compare_flip : (a b : LocatorKey) → compare b a ≡ flip_sign (compare a b)
unfolding compare
compare_flip a b = compare_then_flip string_order a.tenant_id b.tenant_id _ _ (
    compare_then_flip string_order a.service_id b.service_id _ _ (
      compare_then_flip string_order a.log_type b.log_type _ _ (
        compare_then_flip string_order a.region_id b.region_id _ _ (
          compare_then_flip int_order a.event_time b.event_time _ _
            (compare_then_flip string_order a.log_id b.log_id _ _ refl)))))

-- Only a key and itself compare as 0.
pub compare_zero : (a b : LocatorKey) → compare a b ≡ pos 0 → a ≡ b
unfolding compare
compare_zero a b h =
    let (tenant, h1) = compare_then_zero string_order a.tenant_id b.tenant_id _ h in
    let (service, h2) = compare_then_zero string_order a.service_id b.service_id _ h1 in
    let (log_type, h3) = compare_then_zero string_order a.log_type b.log_type _ h2 in
    let (region, h4) = compare_then_zero string_order a.region_id b.region_id _ h3 in
    let (time, h5) = compare_then_zero int_order a.event_time b.event_time _ h4 in
    let (log_id, h6) = compare_then_zero string_order a.log_id b.log_id _ h5 in
    λ i. record {
      log_id = log_id i;
      event_time = time i;
      region_id = region i;
      tenant_id = tenant i;
      service_id = service i;
      log_type = log_type i;
    }

sign-cases : (r : ℤ) → r ≡ flip_sign (flip_sign r) → r ≡ minus_one ⊎ r ≡ pos 0 ⊎ r ≡ pos 1
sign-cases (pos zero) h = inr (inl refl)
sign-cases (pos (suc n)) h = inr (inr h)
sign-cases (negsuc n) h = inl h

-- No comparison gives another number than -1, 0 and 1.
pub compare-cases :
    (a b : LocatorKey) → (compare a b ≡ minus_one) ⊎ (compare a b ≡ pos 0) ⊎ (compare a b ≡ pos 1)
compare-cases a b = sign-cases (compare a b) (compare_flip b a ∙ ap flip_sign (compare_flip a b))

less-eq-compare : (a b : LocatorKey) → less a b ≡ true → compare a b ≡ minus_one
less-eq-compare a b h = ground (arith, compare-cases a b)

-- `Less` orders any two different locator keys exactly one way, and never a key before itself.
pub less-StrictOrder : StrictOrder less
less-StrictOrder = record {
  less_irrefl = λ a. ground (arith, compare-cases a a, compare_flip a a);
  less_trans = λ a b c h k.
      ground (arith, compare_trans a b c (less-eq-compare a b h) (less-eq-compare b c k));
  less_total = λ a b h k. ground (arith, compare-cases a b, compare_flip a b, compare_zero a b);
}
