-- ===== src/Hpp/Grouping.antt =====
-- The addresses of a request, checked, without duplicates and in order: internal/hpp/grouping.go. The
-- map of addresses is a list of different ones; the order in which it is walked does not matter,
-- since the result is sorted.
pub mod Canonical
mod Tests
use storage_aware_hmfaudit.Prelude.{
  List, [], ◌∷◌, Bool, true, false, not, ◌&&◌, ◌||◌, if◌then◌else◌, ℤ, pos, leb_ℤ, ltb_ℤ, ◌=?◌,
  list_eq, nat_eq, int_eq, string_less, less_then, Result, ok, err, ◌>>=◌, ◌>>◌, guard,
}
use storage_aware_hmfaudit.Hpp.Types.{PhysicalAddress, address_eq}

pub data AddressError : Type 0 where
  region_required negative_id : AddressError

unfoldable pub address_less : PhysicalAddress → PhysicalAddress → Bool
address_less left right =
    less_then (left.region_id =? right.region_id) (string_less left.region_id right.region_id) (
      less_then (left.shard_id =? right.shard_id) (ltb_ℤ left.shard_id right.shard_id) (
        less_then (left.segment_id =? right.segment_id) (ltb_ℤ left.segment_id right.segment_id)
          (ltb_ℤ left.leaf_id right.leaf_id)))

unfoldable pub has : PhysicalAddress → List PhysicalAddress → Bool
has a [] = false
has a (b ∷ rest) = (b =? a) || has a rest

abbrev pub has_region : PhysicalAddress → Bool
has_region a = not (a.region_id =? [])

abbrev pub is_nonnegative : PhysicalAddress → Bool
is_nonnegative a =
    leb_ℤ (pos 0) a.shard_id && (leb_ℤ (pos 0) a.segment_id && leb_ℤ (pos 0) a.leaf_id)

-- The loop over the addresses, which fills the map.
unfoldable pub collect :
    List PhysicalAddress → List PhysicalAddress → Result AddressError (List PhysicalAddress)
collect unique [] = ok unique
collect unique (a ∷ rest) = do
  guard (has_region a) region_required
  guard (is_nonnegative a) negative_id
  collect (if has a unique then unique else a ∷ unique) rest

-- `sort.Slice` by `addressLess`
unfoldable pub insert_address : PhysicalAddress → List PhysicalAddress → List PhysicalAddress
insert_address a [] = a ∷ []
insert_address a (b ∷ rest) =
    let later = insert_address a rest in if address_less a b then a ∷ b ∷ rest else b ∷ later

unfoldable pub sort_addresses : List PhysicalAddress → List PhysicalAddress
sort_addresses [] = []
sort_addresses (a ∷ rest) = insert_address a (sort_addresses rest)

unfoldable pub normalize_addresses :
    List PhysicalAddress → Result AddressError (List PhysicalAddress)
unfolding collect sort_addresses
normalize_addresses addresses = do unique ← collect [] addresses; ok (sort_addresses unique)
