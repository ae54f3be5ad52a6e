-- ===== src/Locator/Range/Collect.antt =====
-- What the loop over the entries of a proof collects, as filters of the entries.
use storage_aware_hmfaudit.Prelude.{
  List, [], ◌∷◌, ◌++◌, append_assoc, append-nil, Option, none, some, ◌≡◌, refl, ◌∙◌, Bool, not,
  ◌&&◌, if◌then◌else◌, Bool-cases, inl, inr,
}
use storage_aware_hmfaudit.Locator.Types.{LocatorKey, LocatorEntry}
use storage_aware_hmfaudit.Locator.Key.{less}
use storage_aware_hmfaudit.Locator.Entries.{Expected, classify, classify_all, first_of}

-- The entries that a test accepts.
abbrev pub filter : {A : Type 0} → (A → Bool) → List A → List A
filter p [] = []
filter p (x ∷ xs) = if p x then x ∷ filter p xs else filter p xs

abbrev pub last_entry : Option LocatorEntry → List LocatorEntry → Option LocatorEntry
last_entry found [] = found
last_entry found (e ∷ rest) = last_entry (some e) rest

abbrev pub first_entry : Option LocatorEntry → List LocatorEntry → Option LocatorEntry
first_entry found [] = found
first_entry found (e ∷ rest) = first_entry (first_of found e) rest

abbrev pub is_below : LocatorKey → LocatorEntry → Bool
is_below lower e = less e.key lower

abbrev pub is_inside : LocatorKey → LocatorKey → LocatorEntry → Bool
is_inside lower upper e = not (less e.key lower) && less e.key upper

abbrev pub is_above : LocatorKey → LocatorKey → LocatorEntry → Bool
is_above lower upper e = not (less e.key lower) && not (less e.key upper)

-- The loop collects the entries inside the bounds in order, the last one below them and the first
-- one above them.
pub classify_all_lem :
    (lower upper : LocatorKey) (found : Expected) (entries : List LocatorEntry)
    → classify_all lower upper found entries ≡ record {
      matches = found.matches ++ filter (is_inside lower upper) entries;
      predecessor = last_entry found.predecessor (filter (is_below lower) entries);
      successor = first_entry found.successor (filter (is_above lower upper) entries);
    }
unfolding classify_all classify
classify_all_lem lower upper found [] = rw (append-nil found.matches) refl
classify_all_lem lower upper found (e ∷ entries) =
    classify_all_lem lower upper (classify lower upper found e) entries
    ∙ elim (Bool-cases (less e.key lower)) [
      | inl below ↦ rw below refl
      | inr reached ↦ elim (Bool-cases (less e.key upper)) [
        | inl inside ↦ rw (reached, inside, append_assoc found.matches (e ∷ []) _) refl
        | inr above ↦ rw (reached, above) refl
      ]
    ]

-- The entries in `[lower, upper)`, the last one before it and the first one after it.
abbrev pub inside : LocatorKey → LocatorKey → List LocatorEntry → List LocatorEntry
inside lower upper entries = filter (is_inside lower upper) entries

abbrev pub before : LocatorKey → List LocatorEntry → Option LocatorEntry
before lower entries = last_entry none (filter (is_below lower) entries)

abbrev pub from : LocatorKey → LocatorKey → List LocatorEntry → Option LocatorEntry
from lower upper entries = first_entry none (filter (is_above lower upper) entries)
