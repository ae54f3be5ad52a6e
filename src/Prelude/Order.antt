-- ===== src/Prelude/Order.antt =====
-- Go's `<` on strings and on instants, and comparisons that go from one field to the next.
use Prim.Native.Nat.{ℕ, zero, suc}
use mathlib.Core.Path.{◌≡◌, refl, ap}
use mathlib.Core.Bool.{Bool, true, false}
use mathlib.Core.List.{List, [], ◌∷◌}
use native.Mathlib.Omega.{arith}
use storage_aware_hmfaudit.Prelude.Tests.{ltb, ◌==◌, if◌then◌else◌}
use storage_aware_hmfaudit.Prelude.Int.{ℤ, pos, negsuc, ltb_ℤ}
use storage_aware_hmfaudit.Prelude.Equality.{Eq, ◌=?◌, nat_eq, int_eq, list_eq}

-- `s < t` of two strings, byte by byte.
abbrev pub string_less : List ℕ → List ℕ → Bool
string_less s [] = false
string_less [] (c ∷ t) = true
string_less (b ∷ s) (c ∷ t) = if ltb b c then true else if b == c then string_less s t else false

-- A test that orders any two different values one way.
pub record StrictOrder {ℓ} {A : Type ℓ} (less : A → A → Bool) : Type ℓ where
  pub less_irrefl : (a : A) → less a a ≡ false
  pub less_trans : (a b c : A) → less a b ≡ true → less b c ≡ true → less a c ≡ true
  pub less_total : (a b : A) → less a b ≡ false → less b a ≡ false → a ≡ b

string_less_irrefl : (s : List ℕ) → string_less s s ≡ false
string_less_irrefl [] = refl
string_less_irrefl (b ∷ s) = ground (arith, string_less_irrefl s)

string_less_trans :
    (s t u : List ℕ) → string_less s t ≡ true → string_less t u ≡ true → string_less s u ≡ true
string_less_trans s [] u h k = cc
string_less_trans s (c ∷ t) [] h k = cc
string_less_trans [] (c ∷ t) (d ∷ u) h k = refl
string_less_trans (b ∷ s) (c ∷ t) (d ∷ u) h k = ground (arith, string_less_trans s t u)

string_less_total : (s t : List ℕ) → string_less s t ≡ false → string_less t s ≡ false → s ≡ t
string_less_total [] [] h k = refl
string_less_total [] (c ∷ t) h k = cc
string_less_total (b ∷ s) [] h k = cc
string_less_total (b ∷ s) (c ∷ t) h k = ground (arith, string_less_total s t)

pub string_order : StrictOrder string_less
string_order = record {
  less_irrefl = string_less_irrefl;
  less_trans = string_less_trans;
  less_total = string_less_total;
}

pub int_order : StrictOrder ltb_ℤ
int_order = record {
  less_irrefl = λ a. ground arith;
  less_trans = λ a b c h k. ground arith;
  less_total = int_less_total;
}
  where
    int_less_total : (a b : ℤ) → ltb_ℤ a b ≡ false → ltb_ℤ b a ≡ false → a ≡ b
    int_less_total (pos a) (pos b) h k = ap pos (ground arith)
    int_less_total (pos a) (negsuc b) h k = absurd (ground arith)
    int_less_total (negsuc a) (pos b) h k = absurd (ground arith)
    int_less_total (negsuc a) (negsuc b) h k = ap negsuc (ground arith)

abbrev pub minus_one : ℤ
minus_one = negsuc 0

abbrev pub flip_sign : ℤ → ℤ
flip_sign (pos zero) = pos 0
flip_sign (pos (suc n)) = minus_one
flip_sign (negsuc n) = pos 1

-- `if a != b { if a < b { return -1 }; return 1 }`, then the other fields.
abbrev pub compare_then : Bool → Bool → ℤ → ℤ
compare_then same less rest = if same then rest else if less then minus_one else pos 1

module _ {ℓ} {A : Type ℓ} ⦃e : Eq A⦄ {less : A → A → Bool} (order : StrictOrder less) where
  pub compare_then_trans :
      (a b c : A) (r s t : ℤ)
      → (r ≡ minus_one → s ≡ minus_one → t ≡ minus_one)
      → compare_then (a =? b) (less a b) r ≡ minus_one
      → compare_then (b =? c) (less b c) s ≡ minus_one
      → compare_then (a =? c) (less a c) t ≡ minus_one
  compare_then_trans a b c r s t step h k = ground (
    arith,
    e.beq_iff a b,
    e.beq_iff b c,
    e.beq_iff a c,
    order.less_trans a b c,
    order.less_irrefl a,
  )

  pub compare_then_flip :
      (a b : A) (r s : ℤ)
      → s ≡ flip_sign r
      → compare_then (b =? a) (less b a) s ≡ flip_sign (compare_then (a =? b) (less a b) r)
  compare_then_flip a b r s h = ground (
    arith,
    e.beq_iff a b,
    e.beq_iff b a,
    order.less_trans a b a,
    order.less_irrefl a,
    order.less_total a b,
  )

  pub compare_then_zero :
      (a b : A) (r : ℤ) → compare_then (a =? b) (less a b) r ≡ pos 0 → (a ≡ b) × (r ≡ pos 0)
  compare_then_zero a b r h = ground (arith, e.beq_iff a b)

-- `if a != b { return a < b }`, then the other fields.
abbrev pub less_then : Bool → Bool → Bool → Bool
less_then same less rest = if same then rest else less

module _ {ℓ} {A : Type ℓ} ⦃e : Eq A⦄ {less : A → A → Bool} (order : StrictOrder less) where
  pub less_then_trans :
      (a b c : A) (r s t : Bool)
      → (r ≡ true → s ≡ true → t ≡ true)
      → less_then (a =? b) (less a b) r ≡ true
      → less_then (b =? c) (less b c) s ≡ true
      → less_then (a =? c) (less a c) t ≡ true
  less_then_trans a b c r s t step h k = ground (
    arith,
    e.beq_iff a b,
    e.beq_iff b c,
    e.beq_iff a c,
    order.less_trans a b c,
    order.less_irrefl a,
  )

  pub less_then_irrefl : (a : A) (r : Bool) → r ≡ false → less_then (a =? a) (less a a) r ≡ false
  less_then_irrefl a r h = ground (arith, order.less_irrefl a)

  pub less_then_total :
      (a b : A) (r s : Bool)
      → less_then (a =? b) (less a b) r ≡ false
      → less_then (b =? a) (less b a) s ≡ false
      → (a ≡ b) × (r ≡ false) × (s ≡ false)
  less_then_total a b r s h k = ground (arith, e.beq_iff a b, e.beq_iff b a, order.less_total a b)
