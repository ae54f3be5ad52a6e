-- ===== src/Crypto/Binding.antt =====
-- A hash of a sum of 32-byte parts binds its parts, or a collision is at hand.
use storage_aware_hmfaudit.Prelude.{
  ◌≡◌, refl, ◌⊎◌, inl, inr, ◌++◌, some, arith, length-append, append_inj, Bool-cases, ◌=?◌, list_eq,
  nat_eq,
}
use storage_aware_hmfaudit.Crypto.Encode.{Bytes}
use storage_aware_hmfaudit.Crypto.{
  Hash, IsHash, Sha256, Collision, hash_pair, node_prefix, node_hash,
}

module _ ⦃sha : Sha256⦄ where
  -- Equal sums come from equal bytes, or from a collision.
  pub sum_binds : (x y : Bytes) → sha.sum x ≡ sha.sum y → Collision ⊎ (x ≡ y)
  sum_binds x y e = elim (Bool-cases (x =? y)) [
    | inl same ↦ inr ((list_eq.beq_iff x y).0 same)
    | inr other ↦
        inl
          (record { first = x; second = y; differ = λ p. cc ((list_eq.beq_iff x y).1 p); same = e })
  ]

  pub hash_pair-IsHash : (p : Bytes) (l r : Hash) → IsHash (hash_pair p l (some r))
  unfolding hash_pair
  hash_pair-IsHash p l r = sha.size _

  -- A parent node binds both of its children.
  pub node_hash_binds :
      (l r l' r' : Hash)
      → IsHash l
      → IsHash l'
      → node_hash l r ≡ node_hash l' r'
      → Collision ⊎ ((l ≡ l') × (r ≡ r'))
  unfolding hash_pair
  node_hash_binds l r l' r' hl hl' e =
      elim (sum_binds ((node_prefix ++ l) ++ r) ((node_prefix ++ l') ++ r') e) [
        | inl c ↦ inl c
        | inr same ↦ inr (
            let (front, right) =
              append_inj (node_prefix ++ l) (node_prefix ++ l') r r'
                (omega (arith, length-append node_prefix l, length-append node_prefix l')) same in
            ((append_inj node_prefix node_prefix l l' refl front).1, right))
      ]
