-- ===== src/Hmf/Merkle.antt =====
-- The reference that the trees of internal/hmf are held to: a level is paired up from the left, an
-- odd last node is promoted unchanged, and this is repeated until one hash is left.
use native.Mathlib.Nat.{pow-suc, pow-le-pow_right}
use native.Mathlib.Decide.{dec_lt}
use storage_aware_hmfaudit.Prelude.{
  ℕ, zero, suc, ◌+◌, ◌-◌, ◌*◌, ◌/◌, ◌^◌, ◌≤◌, ◌<◌, ◌≡◌, refl, ap, List, [], ◌∷◌, ◌++◌, arith,
  length,
}
use storage_aware_hmfaudit.Crypto.{Hash, Sha256, node_hash}

module _ ⦃sha : Sha256⦄ where
  unfoldable pub pair_up : List Hash → List Hash
  pair_up [] = []
  pair_up (x ∷ []) = x ∷ []
  pair_up (x ∷ y ∷ rest) = node_hash x y ∷ pair_up rest

  -- `k` levels up.
  unfoldable pub up : ℕ → List Hash → List Hash
  up zero xs = xs
  up (suc k) xs = up k (pair_up xs)

  pub length-pair_up : (xs : List Hash) → length (pair_up xs) ≡ (length xs + 1) / 2
  unfolding pair_up
  length-pair_up [] = refl
  length-pair_up (x ∷ []) = refl
  length-pair_up (x ∷ y ∷ rest) = omega (arith, length-pair_up rest)

  pub up-suc : (k : ℕ) (xs : List Hash) → up (suc k) xs ≡ pair_up (up k xs)
  unfolding up
  up-suc zero xs = refl
  up-suc (suc k) xs = up-suc k (pair_up xs)

  -- A single hash is promoted for ever.
  pub up_single : (k : ℕ) (x : Hash) → up k (x ∷ []) ≡ x ∷ []
  unfolding up pair_up
  up_single zero x = refl
  up_single (suc k) x = up_single k x

  pair_up-append :
      (xs ys : List Hash) (n : ℕ)
      → length xs ≡ 2 * n
      → pair_up (xs ++ ys) ≡ pair_up xs ++ pair_up ys
  unfolding pair_up
  pair_up-append [] ys n e = refl
  pair_up-append (x ∷ []) ys n e = absurd (omega arith)
  pair_up-append (x ∷ y ∷ xs) ys n e =
      ap (◌∷◌ (node_hash x y)) (pair_up-append xs ys (n - 1) (omega arith))

  -- A block of 2 ^ k hashes goes up on its own.
  pub up-append :
      (k : ℕ) (xs ys : List Hash) → length xs ≡ 2 ^ k → up k (xs ++ ys) ≡ up k xs ++ up k ys
  unfolding up
  up-append zero xs ys e = refl
  up-append (suc k) xs ys e =
      let double : length xs ≡ 2 * 2 ^ k = omega (arith, pow-suc 2 k) in
      rw (pair_up-append xs ys (2 ^ k) double)
        (up-append k (pair_up xs) (pair_up ys) (omega (arith, length-pair_up xs)))

  -- The root stays where it is, however many levels are added.
  pub up_beyond :
      (k m : ℕ) (xs : List Hash) (r : Hash) → up k xs ≡ r ∷ [] → k ≤ m → up m xs ≡ r ∷ []
  unfolding up
  up_beyond zero m xs r e h = rw e (up_single m r)
  up_beyond (suc k) zero xs r e h = absurd (omega arith)
  up_beyond (suc k) (suc m) xs r e h = up_beyond k m (pair_up xs) r e (omega arith)

pub pow-pos : (h : ℕ) → 0 < 2 ^ h
pow-pos zero = omega arith
pow-pos (suc h) = omega (arith, pow-suc 2 h, pow-pos h)

-- No smaller height has room.
abbrev pub IsTight : ℕ → ℕ → Type 0
IsTight n zero = Unit
IsTight n (suc h) = 2 ^ h < n

-- The least `h` with `n` at most 2 ^ h: the number of levels above `n` leaves.
pub record IsHeight (n h : ℕ) : Type 0 where
  pub enough : n ≤ 2 ^ h
  pub tight : IsTight n h

pub IsHeight-one : (n : ℕ) → n ≤ 1 → IsHeight n 0
IsHeight-one n h = record { enough = omega arith; tight = tt }

-- One level more doubles the leaves, rounded up.
pub IsHeight-suc : (n h : ℕ) → 1 < n → IsHeight ((n + 1) / 2) h → IsHeight n (suc h)
IsHeight-suc n zero big v = record { enough = omega (arith, v.enough); tight = omega arith }
IsHeight-suc n (suc h) big v = record {
  enough = omega (arith, v.enough, pow-suc 2 (suc h));
  tight = omega (arith, v.tight, pow-suc 2 h);
}

-- The converse of `IsHeight-suc`.
pub IsHeight-half : (n h : ℕ) → IsHeight n (suc h) → (1 < n) × IsHeight ((n + 1) / 2) h
IsHeight-half n zero v = (omega arith, record { enough = omega (arith, v.enough); tight = tt })
IsHeight-half n (suc h) v = (
  omega (arith, v.tight, pow-suc 2 h, pow-pos h),
  record {
    enough = omega (arith, v.enough, pow-suc 2 (suc h));
    tight = omega (arith, v.tight, pow-suc 2 h);
  },
)

too_low : (h k : ℕ) {n : ℕ} → IsHeight n h → IsHeight n k → h < k → ⊥
too_low h zero v w less = absurd (omega arith)
too_low h (suc k) v w less =
    let grows : 2 ^ h ≤ 2 ^ k = pow-le-pow_right (omega arith) (omega arith) in
    omega (arith, v.enough, w.tight)

-- The height of a number of leaves is unique.
pub IsHeight-unique : (n h k : ℕ) → IsHeight n h → IsHeight n k → h ≡ k
IsHeight-unique n h k v w = elim (dec_lt h k) [
  | yes less ↦ absurd (too_low h k v w less)
  | no more ↦ elim (dec_lt k h) [ yes less ↦ absurd (too_low k h w v less) | no both ↦ omega arith ]
]
