-- ===== src/Prelude/Fallible.antt =====
-- Go's (value, error) pair. A component gives its own type of errors.
use mathlib.Core.Path.{◌≡◌, refl}
use mathlib.Core.Bool.{Bool, true, false}

pub data Result {ℓ κ} (E : Type κ) (A : Type ℓ) : Type (ℓ ⊔ κ) where
  ok : A → Result E A
  err : E → Result E A

infixl 5 ◌>>=◌ ◌>>◌
abbrev pub ◌>>=◌ {ℓ κ μ} :
    {E : Type κ} {A : Type ℓ} {B : Type μ} → Result E A → (A → Result E B) → Result E B
ok a >>= f = f a
err e >>= f = err e

abbrev pub ◌>>◌ {ℓ κ} : {E : Type κ} {B : Type ℓ} → Result E (Unit {0}) → Result E B → Result E B
m >> k = m >>= λ _. k

-- `if !condition { return error }`
abbrev pub guard {κ} : {E : Type κ} → Bool → E → Result E (Unit {0})
guard true e = ok tt
guard false e = err e

-- `fmt.Errorf("…: %w", err)`
abbrev pub wrap {ℓ κ κ'} :
    {E : Type κ} {F : Type κ'} {A : Type ℓ} → (E → F) → Result E A → Result F A
wrap f (ok a) = ok a
wrap f (err e) = err (f e)

-- The call returns no error, and its value satisfies `P`.
abbrev pub Yields {ℓ κ} : {E : Type κ} {A : Type ℓ} → (A → Type 0) → Result E A → Type 0
Yields P (ok a) = P a
Yields P (err e) = ⊥

pub Yields-inv {ℓ κ} :
    {E : Type κ} {A : Type ℓ} (P : A → Type 0) (r : Result E A)
    → Yields P r
    → (a : A) × (r ≡ ok a) × P a
Yields-inv P (ok a) h = (a, refl, h)
Yields-inv P (err e) h = absurd h

pub Yields-bind {ℓ κ μ} :
    {E : Type κ} {A : Type ℓ} {B : Type μ} (P : A → Type 0) (Q : B → Type 0) (r : Result E A)
    (f : A → Result E B)
    → Yields P r
    → ((a : A) → P a → Yields Q (f a))
    → Yields Q (r >>= f)
Yields-bind P Q (ok a) f h k = k a h
Yields-bind P Q (err e) f h k = absurd h

pub Yields-map {ℓ κ} :
    {E : Type κ} {A : Type ℓ} (P Q : A → Type 0) (r : Result E A)
    → Yields P r
    → ((a : A) → P a → Q a)
    → Yields Q r
Yields-map P Q (ok a) h k = k a h
Yields-map P Q (err e) h k = h

-- A bind that returns no error has two parts that return none.
pub >>=-eq-ok {ℓ κ μ} :
    {E : Type κ} {A : Type ℓ} {B : Type μ} (call : Result E A) (next : A → Result E B) {out : B}
    → (call >>= next) ≡ ok out
    → (v : A) × (call ≡ ok v) × (next v ≡ ok out)
>>=-eq-ok (err failure) next done = cc
>>=-eq-ok (ok v) next done = (v, refl, done)

-- A guarded call that returns no error passed its guard.
pub guard-eq-ok {ℓ κ} :
    {E : Type κ} {B : Type ℓ} (c : Bool) (e : E) (k : Result E B) {b : B}
    → (guard c e >> k) ≡ ok b
    → (c ≡ true) × (k ≡ ok b)
guard-eq-ok true e k h = (refl, h)
guard-eq-ok false e k h = cc

abbrev pub value_or {ℓ κ} : {E : Type κ} {A : Type ℓ} → A → Result E A → A
value_or d (ok a) = a
value_or d (err e) = d

pub guard-passed {ℓ} : {E : Type ℓ} (c : Bool) (e : E) → guard c e ≡ ok tt → c ≡ true
guard-passed true e h = refl
guard-passed false e h = cc
