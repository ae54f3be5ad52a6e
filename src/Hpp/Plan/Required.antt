-- ===== src/Hpp/Plan/Required.antt =====
-- Which nodes a plan asks for: those that stand beside the targets' ancestors and have no target below
-- them.
use native.Mathlib.Nat.{pow-succ', div-div-eq-div-mul}
use storage_aware_hmfaudit.Prelude.{
  ℕ, suc, ◌+◌, ◌-◌, ◌*◌, ◌/◌, ◌%◌, ◌^◌, ◌<◌, ◌≤◌, ◌≡◌, refl, sym, ap, ◌∙◌, inl, inr, Bool, true,
  false, not, ◌&&◌, ◌||◌, List, [], ◌∷◌, ◌++◌, All, ltb, ◌==◌, Bool-cases, arith, ◌=?◌, int_eq,
  int_iff, if◌then◌else◌, pos,
}
use storage_aware_hmfaudit.Hpp.Types.{NodePosition, position_eq, at}
use storage_aware_hmfaudit.Hpp.Plan.{is_right_of, lone_required, plan_level}
use storage_aware_hmfaudit.Hpp.Plan.Ascending.{IsAscending}

-- The other child of the parent.
abbrev pub sibling : ℕ → ℕ
sibling p = if p % 2 == 0 then p + 1 else p - 1

-- Node `p` of the level is an ancestor of a target: it stands `k` levels above one.
abbrev pub covers : ℕ → ℕ → List ℕ → Bool
covers k p [] = false
covers k p (i ∷ targets) = (i / 2 ^ k == p) || covers k p targets

abbrev pub has : ℕ → ℕ → List NodePosition → Bool
has level p [] = false
has level p (x ∷ xs) = (x =? at level p) || has level p xs

-- Node `p`, `k` levels above a level of `width` nodes, is in the tree and stands for no target, but
-- its sibling does.
abbrev pub is_required : ℕ → List ℕ → ℕ → ℕ → Bool
is_required width targets k p =
    ltb (p * 2 ^ k) width && (not (covers k p targets) && covers k (sibling p) targets)

pub has-append :
    (level p : ℕ) (xs ys : List NodePosition)
    → has level p (xs ++ ys) ≡ (has level p xs || has level p ys)
has-append level p [] ys = refl
has-append level p (x ∷ xs) ys = ground (arith, has-append level p xs ys)

same_position : (l m i p : ℕ) → (at l i =? at m p) ≡ ((l == m) && (i == p))
same_position l m i p = ground (arith, int_iff (pos l) (pos m), int_iff (pos i) (pos p))

covers-beyond :
    (b p : ℕ) (active : List ℕ) → IsAscending b active → p < b → covers 0 p active ≡ false
covers-beyond b p [] v h = refl
covers-beyond b p (i ∷ rest) (low, v) h =
    let small : (i / 2 ^ 0 == p) ≡ false = ground arith in
    rw (small, covers-beyond (suc i) p rest v (omega arith))

half_pow : (i k : ℕ) → i / 2 / 2 ^ k ≡ i / 2 ^ suc k
half_pow i k = div-div-eq-div-mul i 2 (2 ^ k) ∙ ap (λ n. i / n) (sym (pow-succ' 2 k))

-- A level's parents cover what the level covers.
pub covers-plan_level :
    (width level k p : ℕ) (active : List ℕ)
    → covers k p (plan_level width level active).1 ≡ covers (suc k) p active
unfolding plan_level
covers-plan_level width level k p [] = refl
covers-plan_level width level k p (i ∷ []) = rw half_pow refl
covers-plan_level width level k p (i ∷ j ∷ rest) = elim (Bool-cases (is_right_of j i)) [
  | inl right ↦
      let same : j / 2 ≡ i / 2 = ground arith in
      let twice : j / 2 ^ suc k ≡ i / 2 ^ suc k =
        sym (half_pow j k) ∙ ap (λ n. n / 2 ^ k) same ∙ half_pow i k in
      rw (right, twice, half_pow, covers-plan_level width level k p rest) (ground arith)
  | inr apart ↦ rw (apart, half_pow, covers-plan_level width level k p (j ∷ rest)) refl
]

has-lone_required :
    (width l m i p : ℕ)
    → i < width
    → has m p (lone_required width l i) ≡ ((l == m) && (ltb p width && (sibling p == i)))
unfolding lone_required
has-lone_required width l m i p inside = elim (Bool-cases (i % 2 == 0)) [
  | inl even ↦ elim (Bool-cases (ltb (i + 1) width)) [
    | inl room ↦ rw (even, room, same_position l m (i + 1) p) (ground arith)
    | inr none_left ↦ rw (even, none_left) (ground arith)
  ]
  | inr odd ↦ rw (odd, same_position l m (i - 1) p) (ground arith)
]

covers_here : (p i : ℕ) (rest : List ℕ) → covers 0 p (i ∷ rest) ≡ ((i == p) || covers 0 p rest)
covers_here p i rest = ground arith

-- Two siblings that both stand for targets ask for nothing.
both-is_required :
    (width i j p : ℕ) (rest : List ℕ)
    → is_right_of j i ≡ true
    → IsAscending (suc j) rest
    → is_required width rest 0 p ≡ is_required width (i ∷ j ∷ rest) 0 p
both-is_required width i j p rest right v = elim (Bool-cases (p == i || p == j)) [
  | inl one ↦
      let no_sibling = covers-beyond (suc j) (sibling p) rest v (ground arith) in
      ground (arith, no_sibling, covers_here p i (j ∷ rest), covers_here p j rest)
  | inr neither ↦ ground (
    arith,
    covers_here p i (j ∷ rest),
    covers_here p j rest,
    covers_here (sibling p) i (j ∷ rest),
    covers_here (sibling p) j rest,
  )
]

-- A target without its sibling asks for that, if the level has it.
lone-is_required :
    (width i p : ℕ) (rest : List ℕ)
    → i < width
    → covers 0 (sibling i) rest ≡ false
    → ((ltb p width && (sibling p == i)) || is_required width rest 0 p)
      ≡ is_required width (i ∷ rest) 0 p
lone-is_required width i p rest inside alone = elim (Bool-cases (p == i)) [
  | inl own ↦
      let self : p ≡ i = ground arith in
      let here : covers 0 (sibling p) rest ≡ false =
        ap (λ q. covers 0 (sibling q) rest) self ∙ alone in
      let apart : (sibling p == i) ≡ false = ground arith in
      ground (arith, here, apart, covers_here p i rest)
  | inr different ↦ elim (Bool-cases (sibling p == i)) [
    | inl beside ↦
        let back : p ≡ sibling i = ground arith in
        let here : covers 0 p rest ≡ false = ap (λ q. covers 0 q rest) back ∙ alone in
        ground (arith, here, covers_here p i rest, covers_here (sibling p) i rest)
    | inr far ↦ ground (arith, covers_here p i rest, covers_here (sibling p) i rest)
  ]
]

-- In an ascending level where `j` follows `i` and is not its right sibling, `i` has none.
no_sibling :
    (i j : ℕ) (rest : List ℕ)
    → is_right_of j i ≡ false
    → suc i ≤ j
    → IsAscending (suc j) rest
    → covers 0 (sibling i) (j ∷ rest) ≡ false
no_sibling i j rest apart low v =
    let below : sibling i < j = ground arith in
    covers-beyond j (sibling i) (j ∷ rest) (omega arith, v) below

and_or : (a b c : Bool) → ((a && b) || (a && c)) ≡ (a && (b || c))
and_or true b c = refl
and_or false b c = refl

-- What one round asks for.
pub has-plan_level :
    (width l m b p : ℕ) (active : List ℕ)
    → IsAscending b active
    → All (λ i. i < width) active
    → has m p (plan_level width l active).0 ≡ ((l == m) && is_required width active 0 p)
unfolding plan_level
has-plan_level width l m b p [] v inside = ground arith
has-plan_level width l m b p (i ∷ []) v (h, _) = has-lone_required width l m i p h ∙ ground arith
has-plan_level width l m b p (i ∷ j ∷ rest) (low, (low', v)) (h, (h', hs)) =
    elim (Bool-cases (is_right_of j i)) [
      | inl right ↦
          rw (right, has-plan_level width l m (suc j) p rest v hs)
            (ap (λ r. (l == m) && r) (both-is_required width i j p rest right v))
      | inr apart ↦
          rw
            (
              apart,
              has-append m p (lone_required width l i) (plan_level width l (j ∷ rest)).0,
              has-lone_required width l m i p h,
              has-plan_level width l m (suc i) p (j ∷ rest) (low', v) (h', hs),
            )
            (and_or (l == m) _ (is_required width (j ∷ rest) 0 p)
              ∙ ap (λ r. (l == m) && r)
                  (lone-is_required width i p (j ∷ rest) h (no_sibling i j rest apart low' v)))
    ]
