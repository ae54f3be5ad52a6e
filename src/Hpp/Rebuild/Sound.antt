-- ===== src/Hpp/Rebuild/Sound.antt =====
-- Soundness: a reconstruction that ends in the root of a tree was given leaves of that tree.
use storage_aware_hmfaudit.Prelude.{
  ℕ, ◌+◌, ◌-◌, ◌*◌, ◌/◌, ◌%◌, ◌<◌, ◌≡◌, ap, sym, subst, ◌∙◌, ◌⊎◌, inl, inr, true, ◌&&◌, List, [],
  ◌∷◌, length, get_elem?, All, ltb, Bool-cases, some, arith, ok, All-lookup, >>=-eq-ok,
}
use storage_aware_hmfaudit.Crypto.{Hash, IsHash, Sha256, Collision, node_hash}
use storage_aware_hmfaudit.Crypto.Binding.{node_hash_binds, hash_pair-IsHash}
use storage_aware_hmfaudit.Hmf.Merkle.{pair_up, length-pair_up}
use storage_aware_hmfaudit.Hpp.Plan.{is_right_of}
use storage_aware_hmfaudit.Hpp.Types.{at, position_eq}
use storage_aware_hmfaudit.Hpp.Rebuild.{Proof, lone_parent, rebuild_level}
use storage_aware_hmfaudit.Hpp.Rebuild.Parents.{
  Matches, get_elem?-some, get_elem?-All, pair_up_both, pair_up_last, pair_up-IsHash, LoneParent,
  with_right, promoted, with_left, lone_parent-LoneParent,
}

-- An entry of a level of `width` nodes.
abbrev pub IsEntry : ℕ → ℕ × Hash → Type 0
IsEntry width (i, h) = (i < width) × IsHash h

module _ ⦃sha : Sha256⦄ where
  -- A level of a tree: `width` hashes.
  pub record IsLevel (width : ℕ) (leaves : List Hash) : Type 0 where
    pub size : length leaves ≡ width
    pub bytes : All IsHash leaves

  pub IsLevel-pair_up :
      (width : ℕ) (leaves : List Hash)
      → IsLevel width leaves
      → IsLevel ((width + 1) / 2) (pair_up leaves)
  IsLevel-pair_up width leaves v = record {
    size = omega (arith, length-pair_up leaves, v.size);
    bytes = pair_up-IsHash leaves v.bytes;
  }

  -- The two children of a parent that is in place are in place, or their hashes collide.
  both_sound :
      (leaves : List Hash) (width i : ℕ) (left right : Hash)
      → IsLevel width leaves
      → i % 2 ≡ 0
      → i + 1 < width
      → IsHash left
      → get_elem? (pair_up leaves) (i / 2) ≡ some (node_hash left right)
      → Collision ⊎ (Matches leaves (i, left) × Matches leaves (i + 1, right))
  both_sound leaves width i left right v even room size e =
      let (a, ea) = get_elem?-some leaves i (omega (arith, v.size)) in
      let (b, eb) = get_elem?-some leaves (i + 1) (omega (arith, v.size)) in
      let twice : 2 * (i / 2) ≡ i = omega arith in
      let parent = pair_up_both leaves (i / 2) a b (rw twice ea) (rw twice eb) in
      let same : node_hash a b ≡ node_hash left right = cc in
      elim (node_hash_binds a b left right (get_elem?-All IsHash leaves i a v.bytes ea) size same) [
        | inl c ↦ inl c
        | inr (p, q) ↦ inr (cc, cc)
      ]

  lone_sound :
      (leaves : List Hash) (width level i : ℕ) (proof : Proof) (hash parent : Hash) (used : ℕ)
      → IsLevel width leaves
      → All (λ x. IsHash x.1) proof
      → IsEntry width (i, hash)
      → LoneParent width level i proof hash parent used
      → IsHash parent
        × (get_elem? (pair_up leaves) (i / 2) ≡ some parent → Collision ⊎ Matches leaves (i, hash))
  lone_sound leaves width level i proof hash parent used v p (inside, size)
        (with_right right q n even room found e _) =
      (
        subst IsHash (sym e) (hash_pair-IsHash _ hash right),
        λ at_parent.
            elim (both_sound leaves width i hash right v even room size (at_parent ∙ ap some e)) [
              | inl c ↦ inl c
              | inr (m, _) ↦ inr m
            ],
      )
  lone_sound leaves width level i proof hash parent used v p (inside, size)
        (promoted q n even last e _) =
      (
        subst IsHash (sym e) size,
        λ at_parent.
            let (a, ea) = get_elem?-some leaves i (omega (arith, v.size)) in
            let twice : 2 * (i / 2) ≡ i = omega arith in
            let up_there = pair_up_last leaves (i / 2) a (rw twice ea) (omega (arith, v.size)) in
            inr cc,
      )
  lone_sound leaves width level i proof hash parent used v p (inside, size)
        (with_left left q n odd room found e _) =
      (
        subst IsHash (sym e) (hash_pair-IsHash _ left hash),
        λ at_parent.
            let before : i - 1 + 1 ≡ i = omega arith in
            let above : (i - 1) / 2 ≡ i / 2 = omega arith in
            let in_place : get_elem? (pair_up leaves) ((i - 1) / 2) ≡ some (node_hash left hash) =
              rw above (at_parent ∙ ap some e) in
            elim (both_sound leaves width (i - 1) left hash v (omega arith) (omega arith)
              (All-lookup IsHash (at level (i - 1)) proof left p found) in_place) [
                | inl c ↦ inl c
                | inr (_, m) ↦ inr (rw before at m)
              ],
      )

  -- `cur` may be trusted as far as `next` may.
  abbrev pub Reflects : ℕ → List Hash → List (ℕ × Hash) → List (ℕ × Hash) → Type 0
  Reflects width leaves cur next =
      All (IsEntry ((width + 1) / 2)) next
      × (All (Matches (pair_up leaves)) next → Collision ⊎ All (Matches leaves) cur)

  both-Reflects :
      (leaves : List Hash) (width i j : ℕ) (h g : Hash) (rest next : List (ℕ × Hash))
      → IsLevel width leaves
      → All (IsEntry width) ((i, h) ∷ (j, g) ∷ rest)
      → (is_right_of j i && ltb (i + 1) width) ≡ true
      → Reflects width leaves rest next
      → Reflects width leaves ((i, h) ∷ (j, g) ∷ rest) ((i / 2, node_hash h g) ∷ next)
  both-Reflects leaves width i j h g rest next v (first, _) adjacent (fits, reflects) =
      let even : i % 2 ≡ 0 = ground arith in
      let after : j ≡ i + 1 = ground arith in
      let room : i + 1 < width = ground arith in
      (
        ((omega arith, hash_pair-IsHash _ h g), fits),
        λ (m, ms). elim (both_sound leaves width i h g v even room first.1 m) [
          | inl c ↦ inl c
          | inr (left, right) ↦ elim (reflects ms) [
            | inl c ↦ inl c
            | inr others ↦ inr (left, (rw after right, others))
          ]
        ],
      )

  lone-Reflects :
      (leaves : List Hash) (width level i : ℕ) (proof : Proof) (h parent : Hash) (used : ℕ)
      (rest next : List (ℕ × Hash))
      → IsLevel width leaves
      → All (λ x. IsHash x.1) proof
      → IsEntry width (i, h)
      → lone_parent width level proof (i, h) ≡ ok (parent, used)
      → Reflects width leaves rest next
      → Reflects width leaves ((i, h) ∷ rest) ((i / 2, parent) ∷ next)
  lone-Reflects leaves width level i proof h parent used rest next v p entry e (fits, reflects) =
      let (size, sound) =
        lone_sound leaves width level i proof h parent used v p entry
          (lone_parent-LoneParent width level i proof h parent used e) in
      (
        ((omega (arith, entry.0), size), fits),
        λ (m, ms). elim (sound m) [
          | inl c ↦ inl c
          | inr here ↦ elim (reflects ms) [ inl c ↦ inl c | inr others ↦ inr (here, others) ]
        ],
      )

  pub rebuild_level-Reflects :
      (leaves : List Hash) (width level : ℕ) (proof : Proof) (cur next : List (ℕ × Hash)) (used : ℕ)
      → IsLevel width leaves
      → All (λ x. IsHash x.1) proof
      → All (IsEntry width) cur
      → rebuild_level width level proof cur ≡ ok (next, used)
      → Reflects width leaves cur next
  unfolding rebuild_level
  rebuild_level-Reflects leaves width level proof [] next used v p fits e =
      let none_left : [] ≡ next = cc in subst (Reflects width leaves []) none_left (tt, λ _. inr tt)
  rebuild_level-Reflects leaves width level proof ((i, h) ∷ []) next used v p fits e =
      let ((parent, _), made, done) = >>=-eq-ok (lone_parent width level proof (i, h)) _ e in
      let one : (i / 2, parent) ∷ [] ≡ next = cc in
      subst (Reflects width leaves ((i, h) ∷ [])) one (
        lone-Reflects leaves width level i proof h parent _ [] [] v p fits.0 made (tt, λ _. inr tt))
  rebuild_level-Reflects leaves width level proof ((i, h) ∷ (j, g) ∷ rest) next used v p fits e =
      elim (Bool-cases (is_right_of j i && ltb (i + 1) width)) [
        | inl adjacent ↦
            let ((next', _), made, done) =
              >>=-eq-ok (rebuild_level width level proof rest) _ (rw adjacent at e) in
            let more : (i / 2, node_hash h g) ∷ next' ≡ next = cc in
            subst (Reflects width leaves ((i, h) ∷ (j, g) ∷ rest)) more (
              both-Reflects leaves width i j h g rest next' v fits adjacent
                (rebuild_level-Reflects leaves width level proof rest next' _ v p fits.1.1 made))
        | inr apart ↦
            let ((parent, _), made, e') =
              >>=-eq-ok (lone_parent width level proof (i, h)) _ (rw apart at e) in
            let ((next', _), made', done) =
              >>=-eq-ok (rebuild_level width level proof ((j, g) ∷ rest)) _ e' in
            let more : (i / 2, parent) ∷ next' ≡ next = cc in
            subst (Reflects width leaves ((i, h) ∷ (j, g) ∷ rest)) more (
              lone-Reflects leaves width level i proof h parent _ ((j, g) ∷ rest) next' v p fits.0
                made
                (rebuild_level-Reflects leaves width level proof ((j, g) ∷ rest) next' _ v p fits.1
                  made'))
      ]
