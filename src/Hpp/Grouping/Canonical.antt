-- ===== src/Hpp/Grouping/Canonical.antt =====
-- Normalized addresses are in strict order, the given ones without duplicates, and do not depend on the
-- order or the repetitions of the given ones.
use storage_aware_hmfaudit.Prelude.{
  List, [], ◌∷◌, true, false, ◌||◌, if◌then◌else◌, ◌≡◌, refl, sym, ap, ap₂, ◌∙◌, inl, inr, All,
  arith, Bool-cases, ◌=?◌, list_eq, nat_eq, int_eq, StrictOrder, string_order, int_order,
  less_then_trans, less_then_irrefl, less_then_total, ok, guard-eq-ok,
}
use storage_aware_hmfaudit.Hpp.Types.{PhysicalAddress, address_eq, address_beq_iff}
use storage_aware_hmfaudit.Hpp.Grouping.{
  region_required, negative_id, address_less, has, has_region, is_nonnegative, collect,
  insert_address, sort_addresses, normalize_addresses,
}

pub address_less-StrictOrder : StrictOrder address_less
unfolding address_less
address_less-StrictOrder = record {
  less_irrefl = λ a. less_then_irrefl string_order a.region_id _ (
      less_then_irrefl int_order a.shard_id _
        (less_then_irrefl int_order a.segment_id _ (int_order.less_irrefl a.leaf_id)));
  less_trans = λ a b c. less_then_trans string_order a.region_id b.region_id c.region_id _ _ _ (
      less_then_trans int_order a.shard_id b.shard_id c.shard_id _ _ _ (
        less_then_trans int_order a.segment_id b.segment_id c.segment_id _ _ _
          (int_order.less_trans a.leaf_id b.leaf_id c.leaf_id)));
  less_total = λ a b h k.
      let (region, h1, k1) = less_then_total string_order a.region_id b.region_id _ _ h k in
      let (shard, h2, k2) = less_then_total int_order a.shard_id b.shard_id _ _ h1 k1 in
      let (segment, h3, k3) = less_then_total int_order a.segment_id b.segment_id _ _ h2 k2 in
      let leaf = int_order.less_total a.leaf_id b.leaf_id h3 k3 in
      λ i. record {
        region_id = region i;
        shard_id = shard i;
        segment_id = segment i;
        leaf_id = leaf i;
      };
}

-- Each address comes before all the ones after it.
abbrev pub IsSorted : List PhysicalAddress → Type 0
IsSorted [] = Unit
IsSorted (a ∷ rest) = All (λ (b : PhysicalAddress). address_less a b ≡ true) rest × IsSorted rest

has-insert_address :
    (x a : PhysicalAddress) (bs : List PhysicalAddress)
    → has x (insert_address a bs) ≡ ((a =? x) || has x bs)
unfolding has insert_address
has-insert_address x a [] = refl
has-insert_address x a (b ∷ bs) = ground (arith, has-insert_address x a bs)

has-sort_addresses :
    (x : PhysicalAddress) (bs : List PhysicalAddress) → has x (sort_addresses bs) ≡ has x bs
unfolding has sort_addresses
has-sort_addresses x [] = refl
has-sort_addresses x (b ∷ bs) =
    ground (arith, has-insert_address x b (sort_addresses bs), has-sort_addresses x bs)

abbrev IsFirst : PhysicalAddress → List PhysicalAddress → Type 0
IsFirst a bs = All (λ (b : PhysicalAddress). address_less a b ≡ true) bs

insert-IsFirst :
    (c a : PhysicalAddress) (bs : List PhysicalAddress)
    → address_less c a ≡ true
    → IsFirst c bs
    → IsFirst c (insert_address a bs)
unfolding insert_address
insert-IsFirst c a [] h hs = (h, tt)
insert-IsFirst c a (b ∷ bs) h (first, hs) = elim (Bool-cases (address_less a b)) [
  | inl less ↦ rw less (h, (first, hs))
  | inr later ↦ rw later (first, insert-IsFirst c a bs h hs)
]

before_all :
    (a b : PhysicalAddress) (bs : List PhysicalAddress)
    → address_less a b ≡ true
    → IsFirst b bs
    → IsFirst a bs
before_all a b [] h hs = tt
before_all a b (c ∷ bs) h (first, hs) =
    (address_less-StrictOrder.less_trans a b c h first, before_all a b bs h hs)

insert-IsSorted :
    (a : PhysicalAddress) (bs : List PhysicalAddress)
    → has a bs ≡ false
    → IsSorted bs
    → IsSorted (insert_address a bs)
unfolding has insert_address
insert-IsSorted a [] fresh sorted = (tt, tt)
insert-IsSorted a (b ∷ bs) fresh (first, sorted) = elim (Bool-cases (address_less a b)) [
  | inl less ↦ rw less ((less, before_all a b bs less first), (first, sorted))
  | inr later ↦
      let other : address_less b a ≡ true =
        ground (arith, address_beq_iff b a, address_less-StrictOrder.less_total b a) in
      rw later (insert-IsFirst b a bs other first, insert-IsSorted a bs (ground arith) sorted)
]

abbrev IsUnique : List PhysicalAddress → Type 0
IsUnique [] = Unit
IsUnique (a ∷ rest) = (has a rest ≡ false) × IsUnique rest

sort-IsSorted : (bs : List PhysicalAddress) → IsUnique bs → IsSorted (sort_addresses bs)
unfolding sort_addresses
sort-IsSorted [] h = tt
sort-IsSorted (b ∷ bs) (fresh, h) =
    insert-IsSorted b (sort_addresses bs) (has-sort_addresses b bs ∙ fresh) (sort-IsSorted bs h)

collect-IsUnique :
    (unique xs out : List PhysicalAddress)
    → IsUnique unique
    → collect unique xs ≡ ok out
    → IsUnique out × ((x : PhysicalAddress) → has x out ≡ (has x unique || has x xs))
unfolding collect has
collect-IsUnique unique [] out h e =
    let same : unique ≡ out = cc in rw (← same) (h, λ x. ground arith)
collect-IsUnique unique (a ∷ xs) out h e =
    let (region, e1) = guard-eq-ok (has_region a) region_required _ e in
    let (ids, rest) = guard-eq-ok (is_nonnegative a) negative_id _ e1 in
    elim (Bool-cases (has a unique)) [
      | inl seen ↦
          let (distinct, members) = collect-IsUnique unique xs out h (rw seen at rest) in
          (distinct, λ x. ground (arith, members x, address_beq_iff a x))
      | inr fresh ↦
          let (distinct, members) =
            collect-IsUnique (a ∷ unique) xs out (fresh, h) (rw fresh at rest) in
          (distinct, λ x. ground (arith, members x))
    ]

-- What is asked of every address.
abbrev pub IsAddress : PhysicalAddress → Type 0
IsAddress a = (has_region a ≡ true) × (is_nonnegative a ≡ true)

collect-ok :
    (unique xs : List PhysicalAddress)
    → All IsAddress xs
    → (out : List PhysicalAddress) × (collect unique xs ≡ ok out)
unfolding collect
collect-ok unique [] h = (unique, refl)
collect-ok unique (a ∷ xs) ((region, ids), hs) =
    let (out, done) = collect-ok (if has a unique then unique else a ∷ unique) xs hs in
    (out, rw (region, ids) done)

sorted_fresh : (a : PhysicalAddress) (bs : List PhysicalAddress) → IsFirst a bs → has a bs ≡ false
unfolding has
sorted_fresh a [] h = refl
sorted_fresh a (b ∷ bs) (h, hs) =
    ground
      (arith, address_beq_iff b a, address_less-StrictOrder.less_irrefl a, sorted_fresh a bs hs)

same_heads :
    (x y : PhysicalAddress) (xs ys : List PhysicalAddress)
    → IsFirst x xs
    → IsFirst y ys
    → ((z : PhysicalAddress) → has z (x ∷ xs) ≡ has z (y ∷ ys))
    → address_less x y ≡ false
unfolding has
same_heads x y xs ys h k same = elim (Bool-cases (address_less x y)) [
  | inl less ↦ absurd (
      ground (
        arith,
        same x,
        address_beq_iff x x,
        address_beq_iff y x,
        address_less-StrictOrder.less_irrefl x,
        sorted_fresh x ys (before_all x y ys less k),
      ))
  | inr other ↦ other
]

-- Sorted addresses are determined by their members.
sorted_unique :
    (xs ys : List PhysicalAddress)
    → IsSorted xs
    → IsSorted ys
    → ((z : PhysicalAddress) → has z xs ≡ has z ys)
    → xs ≡ ys
unfolding has
sorted_unique [] [] h k same = refl
sorted_unique [] (y ∷ ys) h k same = absurd (ground (arith, same y, address_beq_iff y y))
sorted_unique (x ∷ xs) [] h k same = absurd (ground (arith, same x, address_beq_iff x x))
sorted_unique (x ∷ xs) (y ∷ ys) (h, hs) (k, ks) same =
    let head : x ≡ y =
      address_less-StrictOrder.less_total x y (same_heads x y xs ys h k same)
        (same_heads y x ys xs k h (λ z. sym (same z))) in
    let fresh = sorted_fresh x xs h in
    let fresh' = sorted_fresh y ys k in
    ap₂ ◌∷◌ head (
      sorted_unique xs ys hs ks
        λ z. ground (arith, same z, address_beq_iff x z, address_beq_iff y z))

-- Addresses that each have a region and no negative ID are normalized without an error, to addresses
-- in strict order, so without duplicates, of which each is given and which hold each given one.
pub normalize_addresses-IsSorted :
    (xs : List PhysicalAddress)
    → All IsAddress xs
    → (out : List PhysicalAddress) × (normalize_addresses xs ≡ ok out)
      × IsSorted out
      × ((x : PhysicalAddress) → has x out ≡ has x xs)
unfolding normalize_addresses has
normalize_addresses-IsSorted xs h =
    let (unique, done) = collect-ok [] xs h in
    let (distinct, members) = collect-IsUnique [] xs unique tt done in
    (
      sort_addresses unique,
      rw done refl,
      sort-IsSorted unique distinct,
      λ x. has-sort_addresses x unique ∙ members x,
    )

-- Two requests of such addresses with the same members, in whatever order and however often each is
-- repeated, are normalized to the same addresses.
pub normalize_addresses_canonical :
    (xs ys : List PhysicalAddress)
    → All IsAddress xs
    → All IsAddress ys
    → ((x : PhysicalAddress) → has x xs ≡ has x ys)
    → normalize_addresses xs ≡ normalize_addresses ys
normalize_addresses_canonical xs ys h k same =
    let (out, done, sorted, members) = normalize_addresses-IsSorted xs h in
    let (out', done', sorted', members') = normalize_addresses-IsSorted ys k in
    let one = sorted_unique out out' sorted sorted' λ x. members x ∙ (same x ∙ sym (members' x)) in
    done ∙ (ap ok one ∙ sym done')
