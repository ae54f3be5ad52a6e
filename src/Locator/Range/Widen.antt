-- ===== src/Locator/Range/Widen.antt =====
-- The entries around a run of entries that reaches past both bounds change nothing of what is
-- collected.
use storage_aware_hmfaudit.Prelude.{
  List, [], ◌∷◌, ◌++◌, append-nil, append_assoc, Option, none, some, ◌≡◌, ◌≢◌, refl, ap, subst, ◌∙◌,
  Bool, true, false, All, arith, Bool-cases, ◌⊎◌, inl, inr,
}
use storage_aware_hmfaudit.Locator.Types.{LocatorKey, LocatorEntry}
use storage_aware_hmfaudit.Locator.Key.{less, less-StrictOrder}
use storage_aware_hmfaudit.Locator.Entries.{first_of}
use storage_aware_hmfaudit.Locator.Range.Collect.{
  filter, last_entry, first_entry, is_below, is_inside, is_above, inside, before, from,
}
use storage_aware_hmfaudit.Locator.Tree.{IsAscending}

filter-append :
    {A : Type 0} (p : A → Bool) (xs ys : List A) → filter p (xs ++ ys) ≡ filter p xs ++ filter p ys
filter-append p [] ys = refl
filter-append p (x ∷ xs) ys = elim (Bool-cases (p x)) [
  | inl yes_x ↦ rw (yes_x, filter-append p xs ys) refl
  | inr no_x ↦ rw (no_x, filter-append p xs ys) refl
]

filter_none :
    {A : Type 0} (p : A → Bool) (xs : List A) → All (λ (x : A). p x ≡ false) xs → filter p xs ≡ []
filter_none p [] h = refl
filter_none p (x ∷ xs) (h, hs) = rw (h, filter_none p xs hs) refl

-- A filter over a run with entries around it.
around :
    (p : LocatorEntry → Bool) (xs ys zs : List LocatorEntry)
    → filter p (xs ++ (ys ++ zs)) ≡ filter p xs ++ (filter p ys ++ filter p zs)
around p xs ys zs = rw (filter-append p xs (ys ++ zs), filter-append p ys zs) refl

last-append :
    (found : Option LocatorEntry) (xs ys : List LocatorEntry)
    → last_entry found (xs ++ ys) ≡ last_entry (last_entry found xs) ys
last-append found [] ys = refl
last-append found (x ∷ xs) ys = last-append (some x) xs ys

last_any :
    (found : Option LocatorEntry) (ys : List LocatorEntry)
    → last_entry none ys ≢ none
    → last_entry found ys ≡ last_entry none ys
last_any found [] h = absurd (h refl)
last_any found (y ∷ ys) h = refl

first-append :
    (found : Option LocatorEntry) (xs ys : List LocatorEntry)
    → first_entry found (xs ++ ys) ≡ first_entry (first_entry found xs) ys
first-append found [] ys = refl
first-append found (x ∷ xs) ys = first-append (first_of found x) xs ys

first_found : (e : LocatorEntry) (ys : List LocatorEntry) → first_entry (some e) ys ≡ some e
first_found e [] = refl
first_found e (y ∷ ys) = first_found e ys

first_any :
    (found : Option LocatorEntry) (ys : List LocatorEntry)
    → found ≢ none
    → first_entry found ys ≡ found
first_any none ys h = absurd (h refl)
first_any (some e) ys h = first_found e ys

All-split :
    (P : LocatorEntry → Type 0) (xs : List LocatorEntry) (y : LocatorEntry) (zs : List LocatorEntry)
    → All P (xs ++ (y ∷ zs))
    → P y
All-split P [] y zs h = h.0
All-split P (x ∷ xs) y zs h = All-split P xs y zs h.1

All-right : (P : LocatorEntry → Type 0) (xs zs : List LocatorEntry) → All P (xs ++ zs) → All P zs
All-right P [] zs h = h
All-right P (x ∷ xs) zs h = All-right P xs zs h.1

regroup :
    (xs us : List LocatorEntry) (e : LocatorEntry) (vs zs : List LocatorEntry)
    → xs ++ ((us ++ (e ∷ vs)) ++ zs) ≡ (xs ++ us) ++ (e ∷ (vs ++ zs))
regroup xs us e vs zs = simp append_assoc

module _ (lower upper : LocatorKey) where
  abbrev pub AreBelow : List LocatorEntry → Type 0
  AreBelow = All (λ (e : LocatorEntry). is_below lower e ≡ true)

  abbrev pub AreAbove : List LocatorEntry → Type 0
  AreAbove = All (λ (e : LocatorEntry). is_above lower upper e ≡ true)

  below_not_inside : (xs : List LocatorEntry) → AreBelow xs → filter (is_inside lower upper) xs ≡ []
  below_not_inside [] h = refl
  below_not_inside (x ∷ xs) (h, hs) = rw (h, below_not_inside xs hs) refl

  below_not_above : (xs : List LocatorEntry) → AreBelow xs → filter (is_above lower upper) xs ≡ []
  below_not_above [] h = refl
  below_not_above (x ∷ xs) (h, hs) = rw (h, below_not_above xs hs) refl

  above_not_below : (xs : List LocatorEntry) → AreAbove xs → filter (is_below lower) xs ≡ []
  above_not_below [] h = refl
  above_not_below (x ∷ xs) (h, hs) =
      let other : is_below lower x ≡ false = ground arith in rw (other, above_not_below xs hs) refl

  above_not_inside : (xs : List LocatorEntry) → AreAbove xs → filter (is_inside lower upper) xs ≡ []
  above_not_inside [] h = refl
  above_not_inside (x ∷ xs) (h, hs) =
      let other : is_inside lower upper x ≡ false = ground arith in
      rw (other, above_not_inside xs hs) refl

  -- Only entries below the bounds on the left, only entries above them on the right.
  pub inside_around :
      (xs ys zs : List LocatorEntry)
      → AreBelow xs
      → AreAbove zs
      → inside lower upper (xs ++ (ys ++ zs)) ≡ inside lower upper ys
  inside_around xs ys zs below above =
      rw
        (
          around (is_inside lower upper) xs ys zs,
          below_not_inside xs below,
          above_not_inside zs above,
        )
        (append-nil (inside lower upper ys))

  pub before_around :
      (xs ys zs : List LocatorEntry)
      → AreAbove zs
      → (before lower ys ≢ none) ⊎ (xs ≡ [])
      → before lower (xs ++ (ys ++ zs)) ≡ before lower ys
  before_around xs ys zs above (inl found) =
      rw
        (
          around (is_below lower) xs ys zs,
          above_not_below zs above,
          append-nil (filter (is_below lower) ys),
          last-append none (filter (is_below lower) xs) (filter (is_below lower) ys),
        )
        (last_any _ (filter (is_below lower) ys) found)
  before_around xs ys zs above (inr nothing) =
      rw
        (
          nothing,
          around (is_below lower) [] ys zs,
          above_not_below zs above,
          append-nil (filter (is_below lower) ys),
        )
        refl

  pub from_around :
      (xs ys zs : List LocatorEntry)
      → AreBelow xs
      → (from lower upper ys ≢ none) ⊎ (zs ≡ [])
      → from lower upper (xs ++ (ys ++ zs)) ≡ from lower upper ys
  from_around xs ys zs below (inl found) =
      rw
        (
          around (is_above lower upper) xs ys zs,
          below_not_above xs below,
          first-append none (filter (is_above lower upper) ys) (filter (is_above lower upper) zs),
        )
        (first_any _ (filter (is_above lower upper) zs) found)
  from_around xs ys zs below (inr nothing) =
      rw
        (
          nothing,
          append-nil ys,
          filter-append (is_above lower upper) xs ys,
          below_not_above xs below,
        )
        refl

  -- In ascending entries, all those left of one that is below the bounds are below them.
  left_below :
      (xs ys : List LocatorEntry) (e : LocatorEntry) (zs : List LocatorEntry)
      → IsAscending (xs ++ (ys ++ (e ∷ zs)))
      → is_below lower e ≡ true
      → AreBelow xs
  left_below [] ys e zs h below = tt
  left_below (x ∷ xs) ys e zs (h, hs) below =
      let here =
        All-split (λ (f : LocatorEntry). less x.key f.key ≡ true) (xs ++ ys) e zs
          (rw (append_assoc xs ys (e ∷ zs)) h) in
      (less-StrictOrder.less_trans x.key e.key lower here below, left_below xs ys e zs hs below)

  above_all :
      (e : LocatorEntry) (zs : List LocatorEntry)
      → All (λ (f : LocatorEntry). less e.key f.key ≡ true) zs
      → is_above lower upper e ≡ true
      → AreAbove zs
  above_all e [] h above = tt
  above_all e (z ∷ zs) (h, hs) above = (
    ground (
      arith,
      less-StrictOrder.less_trans e.key z.key lower h,
      less-StrictOrder.less_trans e.key z.key upper h,
    ),
    above_all e zs hs above,
  )

  right_above :
      (xs : List LocatorEntry) (e : LocatorEntry) (ys zs : List LocatorEntry)
      → IsAscending (xs ++ (e ∷ (ys ++ zs)))
      → is_above lower upper e ≡ true
      → AreAbove zs
  right_above [] e ys zs (h, hs) above =
      above_all e zs (All-right (λ (f : LocatorEntry). less e.key f.key ≡ true) ys zs h) above
  right_above (x ∷ xs) e ys zs (h, hs) above = right_above xs e ys zs hs above

  pub find_below :
      (ys : List LocatorEntry)
      → before lower ys ≢ none
      → (us : List LocatorEntry) × (e : LocatorEntry) × (vs : List LocatorEntry) × (ys
          ≡ us ++ (e ∷ vs))
        × (is_below lower e ≡ true)
  find_below [] h = absurd (h refl)
  find_below (y ∷ ys) h = elim (Bool-cases (is_below lower y)) [
    | inl below ↦ ([], y, ys, refl, below)
    | inr other ↦
        let (us, e, vs, split, below) = find_below ys (rw other at h) in
        (y ∷ us, e, vs, ap (λ (l : List LocatorEntry). y ∷ l) split, below)
  ]

  pub find_above :
      (ys : List LocatorEntry)
      → from lower upper ys ≢ none
      → (us : List LocatorEntry) × (e : LocatorEntry) × (vs : List LocatorEntry) × (ys
          ≡ us ++ (e ∷ vs))
        × (is_above lower upper e ≡ true)
  find_above [] h = absurd (h refl)
  find_above (y ∷ ys) h = elim (Bool-cases (is_above lower upper y)) [
    | inl above ↦ ([], y, ys, refl, above)
    | inr other ↦
        let (us, e, vs, split, above) = find_above ys (rw other at h) in
        (y ∷ us, e, vs, ap (λ (l : List LocatorEntry). y ∷ l) split, above)
  ]

  -- A run with nothing before it, or with an entry below the bounds, has only such entries before it.
  pub all_below :
      (xs ys zs : List LocatorEntry)
      → IsAscending (xs ++ (ys ++ zs))
      → (before lower ys ≢ none) ⊎ (xs ≡ [])
      → AreBelow xs
  all_below xs ys zs h (inr nothing) = rw nothing tt
  all_below xs ys zs h (inl found) =
      let (us, e, vs, split, below) = find_below ys found in
      left_below xs us e (vs ++ zs)
        (subst IsAscending
          (ap (λ (l : List LocatorEntry). xs ++ (l ++ zs)) split
            ∙ ap (λ (l : List LocatorEntry). xs ++ l) (append_assoc us (e ∷ vs) zs))
          h)
        below

  pub all_above :
      (xs ys zs : List LocatorEntry)
      → IsAscending (xs ++ (ys ++ zs))
      → (from lower upper ys ≢ none) ⊎ (zs ≡ [])
      → AreAbove zs
  all_above xs ys zs h (inr nothing) = rw nothing tt
  all_above xs ys zs h (inl found) =
      let (us, e, vs, split, above) = find_above ys found in
      right_above (xs ++ us) e vs zs
        (subst IsAscending
          (ap (λ (l : List LocatorEntry). xs ++ (l ++ zs)) split ∙ regroup xs us e vs zs) h)
        above
