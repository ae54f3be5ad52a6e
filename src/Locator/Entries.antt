-- ===== src/Locator/Entries.antt =====
-- The entries of a range proof, sorted into matches and boundaries, and their comparison:
-- internal/all/locator_range.go.
use mathlib.Core.Option
use storage_aware_hmfaudit.Prelude.{
  ℤ, pos, List, [], ◌∷◌, ◌++◌, Option, none, some, Bool, true, false, ◌&&◌, if◌then◌else◌, ◌=?◌,
  list_eq, nat_eq, int_eq,
}
use storage_aware_hmfaudit.Locator.Types.{LocatorKey, LocatorValue, LocatorEntry, LocatorLeafProof}
use storage_aware_hmfaudit.Locator.Key.{compare, less}

-- `leaf.Values[index]` past the end of the values is a panic, none here.
unfoldable pub leaf_entries :
    ℤ → List LocatorKey → List (Option LocatorValue) → Option (List LocatorEntry)
leaf_entries id [] values = some []
leaf_entries id (k ∷ keys) [] = none
leaf_entries id (k ∷ keys) (v ∷ values) =
    Option.map (λ entries. record { page_id = id; key = k; value = v } ∷ entries)
      (leaf_entries id keys values)

abbrev append_entries :
    Option (List LocatorEntry) → Option (List LocatorEntry) → Option (List LocatorEntry)
append_entries (some xs) (some ys) = some (xs ++ ys)
append_entries _ _ = none

unfoldable pub flatten_proof_entries : List LocatorLeafProof → Option (List LocatorEntry)
flatten_proof_entries [] = some []
flatten_proof_entries (leaf ∷ leaves) =
    append_entries (leaf_entries leaf.page_id leaf.keys leaf.values) (flatten_proof_entries leaves)

-- What the loop over the proof's entries collects.
pub record Expected : Type 0 where
  pub matches : List LocatorEntry
  pub predecessor : Option LocatorEntry
  pub successor : Option LocatorEntry

abbrev pub first_of : Option LocatorEntry → LocatorEntry → Option LocatorEntry
first_of none entry = some entry
first_of (some earlier) entry = some earlier

unfoldable pub classify : LocatorKey → LocatorKey → Expected → LocatorEntry → Expected
classify lower upper found entry =
    if less entry.key lower
    then record found { predecessor = some entry }
    else if less entry.key upper
    then record found { matches = found.matches ++ entry ∷ [] }
    else record found { successor = first_of found.successor entry }

unfoldable pub classify_all : LocatorKey → LocatorKey → Expected → List LocatorEntry → Expected
classify_all lower upper found [] = found
classify_all lower upper found (entry ∷ entries) =
    classify_all lower upper (classify lower upper found entry) entries

abbrev pub value_beq : Option LocatorValue → Option LocatorValue → Bool
value_beq none none = true
value_beq (some v) (some w) =
    (v.region_id =? w.region_id)
    && (v.shard_id =? w.shard_id)
    && (v.segment_id =? w.segment_id)
    && (v.leaf_id =? w.leaf_id)
value_beq _ _ = false

unfoldable pub locator_entry_equal : LocatorEntry → LocatorEntry → Bool
locator_entry_equal left right =
    (left.page_id =? right.page_id)
    && (compare left.key right.key =? pos 0)
    && value_beq left.value right.value

unfoldable pub optional_entry_equal : Option LocatorEntry → Option LocatorEntry → Bool
optional_entry_equal none none = true
optional_entry_equal (some left) (some right) = locator_entry_equal left right
optional_entry_equal _ _ = false
