-- ===== src/Prelude/Action.antt =====
-- A sequence of calls on a world `W` that stops at the first error of type `E`.
use mathlib.Core.Path.{◌≡◌, refl}
use mathlib.Core.Bool.{Bool, true, false}
use storage_aware_hmfaudit.Prelude.Fallible.{Result, ok, err, guard, wrap}

abbrev pub Action : Type 0 → Type 0 → Type 0 → Type 0
Action E W A = W → Result E A × W

module _ {E W A B : Type 0} where
  abbrev and_then : Result E A × W → (A → W → Result E B × W) → Result E B × W
  and_then (ok a, w) next = next a w
  and_then (err e, w) next = (err e, w)

  infixl 5 ◌>>=◌
  unfoldable pub ◌>>=◌ : Action E W A → (A → Action E W B) → Action E W B
  ◌>>=◌ first next w = and_then (first w) next

module _ {E W : Type 0} where
  -- A check that touches nothing.
  abbrev pub lift : {A : Type 0} → Result E A → Action E W A
  lift r w = (r, w)

  abbrev pub pure : {A : Type 0} → A → Action E W A
  pure a w = (ok a, w)

  -- A call whose error is wrapped.
  abbrev pub call : {F A : Type 0} → (F → E) → (W → Result F A × W) → Action E W A
  call error method w = let (r, w') = method w in (wrap error r, w')

-- The call failed, or its value satisfies `P`.
abbrev pub Ends {κ} : {E W A : Type 0} → (A → Type κ) → Result E A × W → Type κ
Ends P (ok a, w) = P a
Ends P (err e, w) = Unit

and_then-Ends {κ} :
    {E W A B : Type 0} (P : B → Type κ) (r : Result E A × W) (next : A → Action E W B)
    → ((a : A) (v : W) → r ≡ (ok a, v) → Ends P (next a v))
    → Ends P (and_then r next)
and_then-Ends P (ok a, v) next h = h a v refl
and_then-Ends P (err e, v) next h = tt

-- What is shown of the rest of a sequence, after any first part that returned no error.
pub Ends-bind {κ} :
    {E W A B : Type 0} (P : B → Type κ) (first : Action E W A) (next : A → Action E W B) (w : W)
    → ((a : A) (v : W) → first w ≡ (ok a, v) → Ends P (next a v))
    → Ends P ((first >>= next) w)
unfolding ◌>>=◌
Ends-bind P first next w h = and_then-Ends P (first w) next h

-- A check that fails ends the sequence; one that passes leaves the world as it is.
pub Ends-check {κ} :
    {E W A B : Type 0} (P : B → Type κ) (r : Result E A) (next : A → Action E W B) (w : W)
    → ((a : A) → r ≡ ok a → Ends P (next a w))
    → Ends P ((lift r >>= next) w)
unfolding ◌>>=◌
Ends-check P (ok a) next w h = h a refl
Ends-check P (err e) next w h = tt

-- So does a condition that is tested.
pub Ends-guard {κ} :
    {E W B : Type 0} (P : B → Type κ) (c : Bool) (e : E) (next : Unit {0} → Action E W B) (w : W)
    → (c ≡ true → Ends P (next tt w))
    → Ends P ((lift (guard c e) >>= next) w)
unfolding ◌>>=◌
Ends-guard P true e next w h = h refl
Ends-guard P false e next w h = tt

pub Ends-map {κ μ} :
    {E W A : Type 0} (P : A → Type κ) (Q : A → Type μ) (r : Result E A × W)
    → Ends P r
    → ((a : A) → P a → Q a)
    → Ends Q r
Ends-map P Q (ok a, w) h k = k a h
Ends-map P Q (err e, w) h k = tt

unwrap :
    {E F W A : Type 0} (error : F → E) (r : Result F A) (u v : W) (a : A)
    → ◌≡◌ {A = Result E A × W} (wrap error r, u) (ok a, v)
    → ◌≡◌ {A = Result F A × W} (r, u) (ok a, v)
unwrap error (ok x) u v a e = cc
unwrap error (err x) u v a e = cc

-- A wrapped call that returned a value returned it from the method.
pub call-eq-ok :
    {E F W A : Type 0} (error : F → E) (method : W → Result F A × W) (w v : W) (a : A)
    → call error method w ≡ (ok a, v)
    → method w ≡ (ok a, v)
call-eq-ok error method w v a e = unwrap error (method w).0 (method w).1 v a e

-- A sequence that returned a value did so in both of its parts.
pub bind-eq-ok :
    {E W A B : Type 0} (first : Action E W A) (next : A → Action E W B) (w w' : W) (b : B)
    → (first >>= next) w ≡ (ok b, w')
    → (a : A) × (v : W) × (first w ≡ (ok a, v)) × (next a v ≡ (ok b, w'))
unfolding ◌>>=◌
bind-eq-ok {E = E} {W = W} {A = A} first next w w' b e = split (first w) refl e
  where
    split :
        (r : Result E A × W)
        → first w ≡ r
        → and_then r next ≡ (ok b, w')
        → (a : A) × (v : W) × (first w ≡ (ok a, v)) × (next a v ≡ (ok b, w'))
    split (ok a, v) same h = (a, v, same, h)
    split (err x, v) same h = cc

-- And when its first part returns a value, it goes on with that.
pub bind-ok :
    {E W A B : Type 0} (first : Action E W A) (next : A → Action E W B) (w v : W) (a : A)
    → first w ≡ (ok a, v)
    → (first >>= next) w ≡ next a v
unfolding ◌>>=◌
bind-ok first next w v a e = rw e refl

pub call-ok :
    {E F W A : Type 0} (error : F → E) (method : W → Result F A × W) (w v : W) (a : A)
    → method w ≡ (ok a, v)
    → call error method w ≡ (ok a, v)
call-ok error method w v a e = rw e refl

-- A tested condition in front of a sequence.
pub guard-bind-eq-ok :
    {E W B : Type 0} (c : Bool) (x : E) (next : Unit {0} → Action E W B) (w w' : W) (b : B)
    → (lift (guard c x) >>= next) w ≡ (ok b, w')
    → (c ≡ true) × (next tt w ≡ (ok b, w'))
unfolding ◌>>=◌
guard-bind-eq-ok true x next w w' b e = (refl, e)
guard-bind-eq-ok false x next w w' b e = cc

pub guard-bind-ok :
    {E W B : Type 0} (c : Bool) (x : E) (next : Unit {0} → Action E W B) (w : W)
    → c ≡ true
    → (lift (guard c x) >>= next) w ≡ next tt w
unfolding ◌>>=◌
guard-bind-ok true x next w e = refl
guard-bind-ok false x next w e = cc
