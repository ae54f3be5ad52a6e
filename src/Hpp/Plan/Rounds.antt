-- ===== src/Hpp/Plan/Rounds.antt =====
-- What all rounds of a plan ask for.
use native.Mathlib.Nat.{pow-succ', mul_left_comm, suc-mul, zero-div}
use storage_aware_hmfaudit.Prelude.{
  ℕ, zero, suc, ◌+◌, ◌*◌, ◌/◌, ◌^◌, ◌<◌, ◌≤◌, ◌≡◌, refl, sym, ap, ◌∙◌, inl, inr, Bool, true, false,
  ◌&&◌, ◌||◌, List, [], ◌∷◌, ◌++◌, ltb, ◌==◌, Bool-cases, arith, Yields, Yields-bind,
}
use storage_aware_hmfaudit.Hmf.Merkle.{pow-pos}
use storage_aware_hmfaudit.Hpp.Types.{NodePosition}
use storage_aware_hmfaudit.Hpp.Plan.{insert_sorted, sort, plan_level, plan_levels}
use storage_aware_hmfaudit.Hpp.Plan.Ascending.{
  IsActive, IsActive-one, plan_level-IsActive, next_width-lt,
}
use storage_aware_hmfaudit.Hpp.Plan.Required.{
  sibling, covers, has, is_required, has-append, covers-plan_level, has-plan_level,
}

or_false : (b : Bool) → (b || false) ≡ b
or_false true = refl
or_false false = refl

-- From `level` on, `required` has exactly the required nodes above a level of `width` nodes; below,
-- it has none.
pub record Asks (level width : ℕ) (active : List ℕ) (required : List NodePosition) : Type 0 where
  pub exact : (k p : ℕ) → has (level + k) p required ≡ is_required width active k p
  pub none_below : (m p : ℕ) → m < level → has m p required ≡ false

is_required-plan_level :
    (width level k p : ℕ) (active : List ℕ)
    → is_required ((width + 1) / 2) (plan_level width level active).1 k p
      ≡ is_required width active (suc k) p
is_required-plan_level width level k p active =
    let double : p * 2 ^ suc k ≡ 2 * (p * 2 ^ k) =
      ap (λ n. p * n) (pow-succ' 2 k) ∙ mul_left_comm p 2 (2 ^ k) in
    let inside : ltb (p * 2 ^ k) ((width + 1) / 2) ≡ ltb (p * 2 ^ suc k) width =
      ground (arith, double) in
    rw
      (
        inside,
        covers-plan_level width level k p active,
        covers-plan_level width level k (sibling p) active,
      )
      refl

round-Asks :
    (width level : ℕ) (active : List ℕ) (rest : List NodePosition)
    → IsActive width active
    → Asks (level + 1) ((width + 1) / 2) (plan_level width level active).1 rest
    → Asks level width active ((plan_level width level active).0 ++ rest)
round-Asks width level active rest v above = record {
  exact = exact;
  none_below = λ m p below.
      let later : m < level + 1 = omega arith in
      let other : (level == m) ≡ false = ground arith in
      has-append m p (plan_level width level active).0 rest
      ∙ (rw (here m p, other, above.none_below m p later) refl);
}
  where
    here :
        (m p : ℕ)
        → has m p (plan_level width level active).0 ≡ ((level == m) && is_required width active 0 p)
    here m p = has-plan_level width level m 0 p active v.ascending v.inside

    exact :
        (k p : ℕ)
        → has (level + k) p ((plan_level width level active).0 ++ rest)
          ≡ is_required width active k p
    exact zero p =
        let own : (level == level + 0) ≡ true = ground arith in
        let later : level + 0 < level + 1 = omega arith in
        has-append (level + 0) p (plan_level width level active).0 rest
        ∙ (rw (here (level + 0) p, own, above.none_below (level + 0) p later) (or_false _))
    exact (suc k) p =
        let other : (level == level + suc k) ≡ false = ground arith in
        let next : level + suc k ≡ level + 1 + k = omega arith in
        has-append (level + suc k) p (plan_level width level active).0 rest
        ∙ (rw (here (level + suc k) p, other)
            (ap (λ m. has m p rest) next
              ∙ above.exact k p
              ∙ is_required-plan_level width level k p active))

-- The root asks for nothing.
root-is_required : (width k p : ℕ) → width ≤ 1 → is_required width (0 ∷ []) k p ≡ false
root-is_required width k zero small =
    let z : 0 / 2 ^ k ≡ 0 = zero-div (2 ^ k) in rw z (ground arith)
root-is_required width k (suc p) small =
    let outside : ltb (suc p * 2 ^ k) width ≡ false =
      ground (arith, suc-mul p (2 ^ k), pow-pos k) in
    rw outside refl

top-Asks :
    (width level : ℕ) (active : List ℕ)
    → width ≤ 1
    → IsActive width active
    → Asks level width active []
top-Asks width level active small v =
    let root = IsActive-one width active small v in
    record {
      exact = λ k p. rw root (sym (root-is_required width k p small));
      none_below = λ m p below. refl;
    }

pub plan_levels-Asks :
    (fuel width level : ℕ) (active : List ℕ)
    → 0 < fuel
    → width ≤ fuel
    → width + 1 < 2 ^ 63
    → IsActive width active
    → Yields (Asks level width active) (plan_levels fuel width level active)
unfolding plan_levels
plan_levels-Asks zero width level active some_fuel h fit v = absurd (omega arith)
plan_levels-Asks (suc fuel) width level active some_fuel h fit v = elim (Bool-cases (ltb 1 width)) [
  | inl large ↦
      let room : 1 < width = ground arith in
      let (_, next) = plan_level width level active in
      rw (large, next_width-lt width fit)
        (Yields-bind (Asks (level + 1) ((width + 1) / 2) (plan_level width level active).1)
          (Asks level width active)
          (plan_levels fuel ((width + 1) / 2) (level + 1) (plan_level width level active).1) _
          (plan_levels-Asks fuel ((width + 1) / 2) (level + 1) (plan_level width level active).1
            (omega arith) (omega arith) (omega arith) (plan_level-IsActive width level active v))
          λ rest above. round-Asks width level active rest v above)
  | inr small ↦ rw small (top-Asks width level active (ground arith) v)
]

-- The order of the targets does not matter.
covers-insert_sorted :
    (k p x : ℕ) (xs : List ℕ) → covers k p (insert_sorted x xs) ≡ covers k p (x ∷ xs)
unfolding insert_sorted
covers-insert_sorted k p x [] = refl
covers-insert_sorted k p x (y ∷ ys) = elim (Bool-cases (ltb x y)) [
  | inl less ↦ rw less refl
  | inr more ↦ rw (more, covers-insert_sorted k p x ys) (ground arith)
]

covers-sort : (k p : ℕ) (xs : List ℕ) → covers k p (sort xs) ≡ covers k p xs
unfolding sort
covers-sort k p [] = refl
covers-sort k p (x ∷ xs) =
    covers-insert_sorted k p x (sort xs) ∙ ap (λ c. (x / 2 ^ k == p) || c) (covers-sort k p xs)

pub is_required-sort :
    (width k p : ℕ) (xs : List ℕ) → is_required width (sort xs) k p ≡ is_required width xs k p
is_required-sort width k p xs = rw (covers-sort k p xs, covers-sort k (sibling p) xs) refl
