-- ===== src/Hpp/Rebuild/Parents.antt =====
-- Entries of a level, and the parents that one round computes from them.
use storage_aware_hmfaudit.Prelude.{
  ℕ, zero, suc, ◌+◌, ◌-◌, ◌*◌, ◌%◌, ◌<◌, ◌≤◌, ◌≡◌, refl, inl, inr, List, [], ◌∷◌, length, get_elem?,
  All, ltb, ◌==◌, Bool-cases, Option-cases, some, arith, ok, lookup,
}
use storage_aware_hmfaudit.Crypto.{Hash, IsHash, Sha256, node_hash}
use storage_aware_hmfaudit.Crypto.Binding.{hash_pair-IsHash}
use storage_aware_hmfaudit.Hmf.Merkle.{pair_up}
use storage_aware_hmfaudit.Hpp.Types.{at, position_eq}
use storage_aware_hmfaudit.Hpp.Rebuild.{Proof, lone_parent}

-- Entry `x` of a level is what the level `leaves` holds there.
abbrev pub Matches : List Hash → ℕ × Hash → Type 0
Matches leaves (i, h) = get_elem? leaves i ≡ some h

pub get_elem?-some {ℓ} :
    {A : Type ℓ} (xs : List A) (i : ℕ) → i < length xs → (a : A) × (get_elem? xs i ≡ some a)
get_elem?-some [] i h = absurd (omega arith)
get_elem?-some (x ∷ xs) zero h = (x, refl)
get_elem?-some (x ∷ xs) (suc i) h = get_elem?-some xs i (omega arith)

pub get_elem?-All {ℓ κ} :
    {A : Type ℓ} (P : A → Type κ) (xs : List A) (i : ℕ) (a : A)
    → All P xs
    → get_elem? xs i ≡ some a
    → P a
get_elem?-All P [] i a h e = cc
get_elem?-All P (x ∷ xs) zero a h e = ground (arith, h.0)
get_elem?-All P (x ∷ xs) (suc i) a h e = get_elem?-All P xs i a h.1 e

module _ ⦃sha : Sha256⦄ where
  pub pair_up_both :
      (xs : List Hash) (p : ℕ) (a b : Hash)
      → get_elem? xs (2 * p) ≡ some a
      → get_elem? xs (2 * p + 1) ≡ some b
      → get_elem? (pair_up xs) p ≡ some (node_hash a b)
  unfolding pair_up
  pair_up_both [] p a b ea eb = cc
  pair_up_both (x ∷ []) zero a b ea eb = cc
  pair_up_both (x ∷ []) (suc p) a b ea eb =
      let two : 2 * suc p ≡ suc (suc (2 * p)) = omega arith in cc (rw two at ea)
  pair_up_both (x ∷ y ∷ xs) zero a b ea eb = cc
  pair_up_both (x ∷ y ∷ xs) (suc p) a b ea eb =
      let two : 2 * suc p ≡ suc (suc (2 * p)) = omega arith in
      let three : 2 * suc p + 1 ≡ suc (suc (2 * p + 1)) = omega arith in
      pair_up_both xs p a b (rw two at ea) (rw three at eb)

  pub pair_up_last :
      (xs : List Hash) (p : ℕ) (a : Hash)
      → get_elem? xs (2 * p) ≡ some a
      → length xs ≡ 2 * p + 1
      → get_elem? (pair_up xs) p ≡ some a
  unfolding pair_up
  pair_up_last [] p a ea n = cc
  pair_up_last (x ∷ []) zero a ea n = ea
  pair_up_last (x ∷ []) (suc p) a ea n = absurd (omega arith)
  pair_up_last (x ∷ y ∷ xs) zero a ea n = absurd (omega arith)
  pair_up_last (x ∷ y ∷ xs) (suc p) a ea n =
      let two : 2 * suc p ≡ suc (suc (2 * p)) = omega arith in
      pair_up_last xs p a (rw two at ea) (omega arith)

  pub pair_up-IsHash : (xs : List Hash) → All IsHash xs → All IsHash (pair_up xs)
  unfolding pair_up
  pair_up-IsHash [] h = tt
  pair_up-IsHash (x ∷ []) h = h
  pair_up-IsHash (x ∷ y ∷ xs) h = (hash_pair-IsHash _ x y, pair_up-IsHash xs h.1.1)

  -- What a lone entry with index `i` of a level of `width` nodes becomes.
  pub data LoneParent (width level i : ℕ) (proof : Proof) (hash : Hash) : Hash → ℕ → Type 0 where
    with_right :
        (right parent : Hash) (used : ℕ)
        → i % 2 ≡ 0
        → i + 1 < width
        → lookup (at level (i + 1)) proof ≡ some right
        → parent ≡ node_hash hash right
        → used ≡ 1
        → LoneParent width level i proof hash parent used
    promoted :
        (parent : Hash) (used : ℕ)
        → i % 2 ≡ 0
        → width ≤ i + 1
        → parent ≡ hash
        → used ≡ 0
        → LoneParent width level i proof hash parent used
    with_left :
        (left parent : Hash) (used : ℕ)
        → i % 2 ≡ 1
        → i < width
        → lookup (at level (i - 1)) proof ≡ some left
        → parent ≡ node_hash left hash
        → used ≡ 1
        → LoneParent width level i proof hash parent used

  pub lone_parent-LoneParent :
      (width level i : ℕ) (proof : Proof) (hash parent : Hash) (used : ℕ)
      → lone_parent width level proof (i, hash) ≡ ok (parent, used)
      → LoneParent width level i proof hash parent used
  unfolding lone_parent
  lone_parent-LoneParent width level i proof hash parent used e = elim (Bool-cases (i % 2 == 0)) [
    | inl even ↦ elim (Bool-cases (ltb (i + 1) width)) [
      | inl room ↦ elim (Option-cases (lookup (at level (i + 1)) proof)) [
        | inl missing ↦ absurd (ground arith)
        | inr (right, found) ↦
            with_right right parent used (ground arith) (ground arith) found (ground arith)
              (ground arith)
      ]
      | inr last ↦ promoted parent used (ground arith) (ground arith) (ground arith) (ground arith)
    ]
    | inr odd ↦ elim (Option-cases (lookup (at level (i - 1)) proof)) [
      | inl missing ↦ absurd (ground arith)
      | inr (left, found) ↦
          with_left left parent used (ground arith) (ground arith) found (ground arith)
            (ground arith)
    ]
  ]
