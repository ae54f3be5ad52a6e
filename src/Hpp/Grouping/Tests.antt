-- ===== src/Hpp/Grouping/Tests.antt =====
-- Addresses in two orders, one of them given twice.
use storage_aware_hmfaudit.Prelude.{ℤ, pos, List, [], ◌∷◌, ◌≡◌, refl, All, arith, ok}
use storage_aware_hmfaudit.Crypto.Sample.{eu}
use storage_aware_hmfaudit.Hpp.Types.{PhysicalAddress}
use storage_aware_hmfaudit.Hpp.Grouping.{has, normalize_addresses}
use storage_aware_hmfaudit.Hpp.Grouping.Canonical.{
  IsAddress, IsSorted, normalize_addresses-IsSorted, normalize_addresses_canonical,
}

abbrev leaf_at : ℤ → PhysicalAddress
leaf_at leaf = record { region_id = eu; shard_id = pos 1; segment_id = pos 2; leaf_id = leaf }

abbrev twice : List PhysicalAddress
twice = leaf_at (pos 5) ∷ leaf_at (pos 3) ∷ leaf_at (pos 5) ∷ []

abbrev once : List PhysicalAddress
once = leaf_at (pos 3) ∷ leaf_at (pos 5) ∷ []

twice-fit : All IsAddress twice
twice-fit = ((refl, refl), ((refl, refl), ((refl, refl), tt)))

once-fit : All IsAddress once
once-fit = ((refl, refl), ((refl, refl), tt))

twice-once : (x : PhysicalAddress) → has x twice ≡ has x once
unfolding has
twice-once x = ground arith

normalize_addresses-IsSorted_example :
    (out : List PhysicalAddress) × (normalize_addresses twice ≡ ok out)
    × IsSorted out
    × ((x : PhysicalAddress) → has x out ≡ has x twice)
normalize_addresses-IsSorted_example = normalize_addresses-IsSorted twice twice-fit

normalize_addresses_canonical_example : normalize_addresses twice ≡ normalize_addresses once
normalize_addresses_canonical_example =
    normalize_addresses_canonical twice once twice-fit once-fit twice-once
