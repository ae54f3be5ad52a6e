-- ===== src/Hpp/Plan/Ascending.antt =====
-- The active indexes of a plan stay ascending, in range and not empty on the way up, and the planner
-- reaches the root.
use mathlib.Core.List.{Perm}
use mathlib.Core.List.Perm
use storage_aware_hmfaudit.Prelude.{
  ℕ, zero, suc, ◌^◌, ◌+◌, ◌*◌, ◌/◌, ◌%◌, ◌<◌, ◌≤◌, ◌≡◌, ◌≢◌, refl, subst, inl, inr, false, List, [],
  ◌∷◌, length, All, ltb, ◌==◌, Bool-cases, arith,
}
use storage_aware_hmfaudit.Hpp.Plan.{insert_sorted, sort, is_right_of, plan_level, next_width}

-- Strictly ascending, from `b` on.
abbrev pub IsAscending : ℕ → List ℕ → Type 0
IsAscending b [] = Unit
IsAscending b (x ∷ xs) = (b ≤ x) × IsAscending (suc x) xs

-- Active indexes of a level of `width` nodes.
pub record IsActive (width : ℕ) (active : List ℕ) : Type 0 where
  pub ascending : IsAscending 0 active
  pub inside : All (λ i. i < width) active
  pub some_target : 0 < length active

beyond : (i j : ℕ) → suc i ≤ j → is_right_of j i ≡ false → 2 * suc (i / 2) ≤ j
beyond i j h apart = elim (Bool-cases (i % 2 == 0)) [
  | inl even ↦ elim (Bool-cases (j == i + 1)) [
    | inl right ↦ absurd (ground arith)
    | inr other ↦ ground arith
  ]
  | inr odd ↦ ground arith
]

plan_level-IsAscending :
    (width level b : ℕ) (active : List ℕ)
    → IsAscending b active
    → IsAscending (b / 2) (plan_level width level active).1
unfolding plan_level
plan_level-IsAscending width level b [] h = tt
plan_level-IsAscending width level b (i ∷ []) h = (omega arith, tt)
plan_level-IsAscending width level b (i ∷ j ∷ rest) (hi, (hj, hr)) =
    elim (Bool-cases (is_right_of j i)) [
      | inl right ↦
          let even : i % 2 ≡ 0 = ground arith in
          let after : j ≡ i + 1 = ground arith in
          let next : suc j / 2 ≡ suc (i / 2) = omega arith in
          rw right (
            omega arith,
            subst (λ c. IsAscending c (plan_level width level rest).1) next
                (plan_level-IsAscending width level (suc j) rest hr),
          )
      | inr apart ↦
          let low : 2 * suc (i / 2) ≤ j = beyond i j hj apart in
          let next : 2 * suc (i / 2) / 2 ≡ suc (i / 2) = omega arith in
          rw apart (
            omega arith,
            subst (λ c. IsAscending c (plan_level width level (j ∷ rest)).1) next
                (plan_level-IsAscending width level (2 * suc (i / 2)) (j ∷ rest) (low, hr)),
          )
    ]

plan_level-inside :
    (width level : ℕ) (active : List ℕ)
    → All (λ i. i < width) active
    → All (λ i. i < (width + 1) / 2) (plan_level width level active).1
unfolding plan_level
plan_level-inside width level [] h = tt
plan_level-inside width level (i ∷ []) (h, _) = (omega arith, tt)
plan_level-inside width level (i ∷ j ∷ rest) (h, hs) = elim (Bool-cases (is_right_of j i)) [
  | inl right ↦ rw right (omega arith, plan_level-inside width level rest hs.1)
  | inr apart ↦ rw apart (omega arith, plan_level-inside width level (j ∷ rest) hs)
]

plan_level-nonempty :
    (width level : ℕ) (active : List ℕ)
    → 0 < length active
    → 0 < length (plan_level width level active).1
unfolding plan_level
plan_level-nonempty width level [] h = absurd (omega arith)
plan_level-nonempty width level (i ∷ []) h = omega arith
plan_level-nonempty width level (i ∷ j ∷ rest) h = elim (Bool-cases (is_right_of j i)) [
  | inl right ↦ rw right (omega arith)
  | inr apart ↦ rw apart (omega arith)
]

pub plan_level-IsActive :
    (width level : ℕ) (active : List ℕ)
    → IsActive width active
    → IsActive ((width + 1) / 2) (plan_level width level active).1
plan_level-IsActive width level active v = record {
  ascending = plan_level-IsAscending width level 0 active v.ascending;
  inside = plan_level-inside width level active v.inside;
  some_target = plan_level-nonempty width level active v.some_target;
}

-- In a level of one node the only active index is 0.
pub IsActive-one :
    (width : ℕ) (active : List ℕ) → width ≤ 1 → IsActive width active → active ≡ 0 ∷ []
IsActive-one width [] h v = absurd (omega (arith, v.some_target))
IsActive-one width (zero ∷ []) h v = refl
IsActive-one width (suc i ∷ xs) h v = absurd (omega (arith, v.inside.0))
IsActive-one width (zero ∷ y ∷ ys) h v = absurd (omega (arith, v.inside.1.0, v.ascending.1.0))

-- No target occurs twice, as the keys of a map do not.
abbrev pub IsDistinct {ℓ} : {A : Type ℓ} → List A → Type ℓ
IsDistinct [] = Unit
IsDistinct (x ∷ xs) = All (λ y. x ≢ y) xs × IsDistinct xs

insert_sorted-All {κ} :
    (P : ℕ → Type κ) (x : ℕ) (xs : List ℕ) → P x → All P xs → All P (insert_sorted x xs)
unfolding insert_sorted
insert_sorted-All P x [] h hs = (h, hs)
insert_sorted-All P x (y ∷ ys) h hs = elim (Bool-cases (ltb x y)) [
  | inl less ↦ rw less (h, hs)
  | inr more ↦ rw more (hs.0, insert_sorted-All P x ys h hs.1)
]

pub sort-All {κ} : (P : ℕ → Type κ) (xs : List ℕ) → All P xs → All P (sort xs)
unfolding sort
sort-All P [] h = h
sort-All P (x ∷ xs) h = insert_sorted-All P x (sort xs) h.0 (sort-All P xs h.1)

insert_sorted-IsAscending :
    (b x : ℕ) (xs : List ℕ)
    → b ≤ x
    → All (λ y. x ≢ y) xs
    → IsAscending b xs
    → IsAscending b (insert_sorted x xs)
unfolding insert_sorted
insert_sorted-IsAscending b x [] h d v = (h, tt)
insert_sorted-IsAscending b x (y ∷ ys) h (d, ds) (hy, hs) = elim (Bool-cases (ltb x y)) [
  | inl less ↦ let below : suc x ≤ y = ground arith in rw less (h, (below, hs))
  | inr more ↦
      let above : suc y ≤ x = ground arith in
      rw more (hy, insert_sorted-IsAscending (suc y) x ys above ds hs)
]

pub sort-IsAscending : (xs : List ℕ) → IsDistinct xs → IsAscending 0 (sort xs)
unfolding sort
sort-IsAscending [] h = tt
sort-IsAscending (x ∷ xs) h =
    insert_sorted-IsAscending 0 x (sort xs) (omega arith) (sort-All (λ y. x ≢ y) xs h.0)
      (sort-IsAscending xs h.1)

insert_sorted-nonempty : (x : ℕ) (xs : List ℕ) → 0 < length (insert_sorted x xs)
unfolding insert_sorted
insert_sorted-nonempty x [] = omega arith
insert_sorted-nonempty x (y ∷ ys) = elim (Bool-cases (ltb x y)) [
  | inl less ↦ rw less (omega arith)
  | inr more ↦ rw more (omega arith)
]

pub sort-nonempty : (xs : List ℕ) → 0 < length xs → 0 < length (sort xs)
unfolding sort
sort-nonempty [] h = absurd (omega arith)
sort-nonempty (x ∷ xs) h = insert_sorted-nonempty x (sort xs)

insert_sorted-Perm : (x : ℕ) (xs : List ℕ) → Perm (insert_sorted x xs) (x ∷ xs)
unfolding insert_sorted
insert_sorted-Perm x [] = Perm.refl (x ∷ [])
insert_sorted-Perm x (y ∷ ys) = elim (Bool-cases (ltb x y)) [
  | inl less ↦ rw less (Perm.refl (x ∷ y ∷ ys))
  | inr more ↦ rw more (Perm.trans (Perm.cons y (insert_sorted-Perm x ys)) (Perm.swap x y ys))
]

-- Sorting keeps every target, once.
pub sort-Perm : (xs : List ℕ) → Perm (sort xs) xs
unfolding sort
sort-Perm [] = Perm.refl []
sort-Perm (x ∷ xs) = Perm.trans (insert_sorted-Perm x (sort xs)) (Perm.cons x (sort-Perm xs))

-- Below the greatest int64 the width is halved, rounded up.
pub next_width-lt : (width : ℕ) → width + 1 < 2 ^ 63 → next_width width ≡ (width + 1) / 2
unfolding next_width
next_width-lt width small =
    let other : (width + 1 == 2 ^ 63) ≡ false = ground arith in rw other refl
