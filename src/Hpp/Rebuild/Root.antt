-- ===== src/Hpp/Rebuild/Root.antt =====
-- A whole reconstruction: what a successful one says of the leaves it was given.
use storage_aware_hmfaudit.Prelude.{
  ℕ, zero, suc, ◌^◌, ◌<◌, ◌+◌, ◌/◌, ◌≤◌, ◌≡◌, refl, ap, subst, ◌∙◌, ◌⊎◌, inl, inr, true, false,
  ◌&&◌, List, [], ◌∷◌, length, All, ltb, ◌==◌, Bool-cases, arith, ok, >>=-eq-ok, ℤ, pos, negsuc,
  ltb_ℤ, Assoc, guard-eq-ok,
}
use storage_aware_hmfaudit.Crypto.{Hash, IsHash, Sha256, Collision}
use storage_aware_hmfaudit.Hmf.Merkle.{pair_up, up, IsHeight, IsHeight-half}
use storage_aware_hmfaudit.Hpp.Plan.Ascending.{next_width-lt}
use storage_aware_hmfaudit.Hpp.Rebuild.{
  Proof, insert_entry, sort_entries, check_known, rebuild_level, rebuild_levels, single_root,
  reconstruct_tree_root, invalid_tree, unused_nodes,
}
use storage_aware_hmfaudit.Hpp.Rebuild.Parents.{Matches}
use storage_aware_hmfaudit.Hpp.Rebuild.Sound.{
  IsEntry, IsLevel, IsLevel-pair_up, rebuild_level-Reflects,
}

insert_entry-All {κ} :
    (P : ℕ × Hash → Type κ) (x : ℕ × Hash) (xs : List (ℕ × Hash))
    → P x
    → All P xs
    → All P (insert_entry x xs)
unfolding insert_entry
insert_entry-All P x [] h hs = (h, hs)
insert_entry-All P x (y ∷ ys) h hs = elim (Bool-cases (ltb x.0 y.0)) [
  | inl less ↦ rw less (h, hs)
  | inr more ↦ rw more (hs.0, insert_entry-All P x ys h hs.1)
]

pub sort_entries-All {κ} :
    (P : ℕ × Hash → Type κ) (xs : List (ℕ × Hash)) → All P xs → All P (sort_entries xs)
unfolding sort_entries
sort_entries-All P [] h = h
sort_entries-All P (x ∷ xs) h =
    insert_entry-All P x (sort_entries xs) h.0 (sort_entries-All P xs h.1)

All-insert_entry {κ} :
    (P : ℕ × Hash → Type κ) (x : ℕ × Hash) (xs : List (ℕ × Hash))
    → All P (insert_entry x xs)
    → P x × All P xs
unfolding insert_entry
All-insert_entry P x [] h = h
All-insert_entry P x (y ∷ ys) h = elim (Bool-cases (ltb x.0 y.0)) [
  | inl less ↦ rw less at h
  | inr more ↦
      let h' : P y × All P (insert_entry x ys) = rw more at h in
      let (a, b) = All-insert_entry P x ys h'.1 in (a, (h'.0, b))
]

All-sort_entries {κ} :
    (P : ℕ × Hash → Type κ) (xs : List (ℕ × Hash)) → All P (sort_entries xs) → All P xs
unfolding sort_entries
All-sort_entries P [] h = h
All-sort_entries P (x ∷ xs) h =
    let (a, b) = All-insert_entry P x (sort_entries xs) h in (a, All-sort_entries P xs b)

-- A known leaf is the one that the tree holds at its index.
abbrev pub Holds : List Hash → ℤ × Hash → Type 0
Holds leaves (pos i, hash) = Matches leaves (i, hash)
Holds leaves (negsuc n, hash) = ⊥

check_known-IsEntry :
    (n : ℕ) (known : Assoc ℤ Hash) (entries : List (ℕ × Hash))
    → All (λ x. IsHash x.1) known
    → check_known (pos n) known ≡ ok entries
    → All (IsEntry n) entries
unfolding check_known
check_known-IsEntry n [] entries h e =
    let none_left : [] ≡ entries = cc in subst (All (IsEntry n)) none_left tt
check_known-IsEntry n ((negsuc i, hash) ∷ rest) entries h e = cc
check_known-IsEntry n ((pos i, hash) ∷ rest) entries h e =
    let (inside, e') = guard-eq-ok (ltb_ℤ (pos i) (pos n)) _ _ e in
    let (others, made, done) = >>=-eq-ok (check_known (pos n) rest) _ e' in
    let more : (i, hash) ∷ others ≡ entries = cc in
    subst (All (IsEntry n)) more ((ground arith, h.0), check_known-IsEntry n rest others h.1 made)

check_known-Holds :
    (n : ℕ) (leaves : List Hash) (known : Assoc ℤ Hash) (entries : List (ℕ × Hash))
    → check_known (pos n) known ≡ ok entries
    → All (Matches leaves) entries
    → All (Holds leaves) known
unfolding check_known
check_known-Holds n leaves [] entries e h = tt
check_known-Holds n leaves ((negsuc i, hash) ∷ rest) entries e h = cc
check_known-Holds n leaves ((pos i, hash) ∷ rest) entries e h =
    let (inside, e') = guard-eq-ok (ltb_ℤ (pos i) (pos n)) _ _ e in
    let (others, made, done) = >>=-eq-ok (check_known (pos n) rest) _ e' in
    let more : entries ≡ (i, hash) ∷ others = cc in
    let (here, there) : All (Matches leaves) ((i, hash) ∷ others) =
      subst (All (Matches leaves)) more h in
    (here, check_known-Holds n leaves rest others made there)

module _ ⦃sha : Sha256⦄ where
  single-Matches :
      (width : ℕ) (leaves : List Hash) (cur : List (ℕ × Hash)) (root : Hash)
      → width ≤ 1
      → All (IsEntry width) cur
      → leaves ≡ root ∷ []
      → single_root cur ≡ ok root
      → All (Matches leaves) cur
  unfolding single_root
  single-Matches width leaves [] root h fits e s = cc
  single-Matches width leaves ((zero, g) ∷ []) root h fits e s = ground arith
  single-Matches width leaves ((suc i, g) ∷ []) root h fits e s = absurd (omega (arith, fits.0.0))
  single-Matches width leaves (x ∷ y ∷ rest) root h fits e s = cc

  rebuild_levels-Matches :
      (fuel width level k : ℕ) (leaves : List Hash) (proof : Proof) (cur top : List (ℕ × Hash))
      (root : Hash) (used : ℕ)
      → IsLevel width leaves
      → All (λ x. IsHash x.1) proof
      → All (IsEntry width) cur
      → width + 1 < 2 ^ 63
      → IsHeight width k
      → up k leaves ≡ root ∷ []
      → rebuild_levels fuel width level proof cur ≡ ok (top, used)
      → single_root top ≡ ok root
      → Collision ⊎ All (Matches leaves) cur
  unfolding rebuild_levels up
  rebuild_levels-Matches zero width level k leaves proof cur top root used v p fits fit height r e
        s =
      cc
  rebuild_levels-Matches (suc fuel) width level zero leaves proof cur top root used v p fits fit
        height r e s =
      let small : ltb 1 width ≡ false = ground (arith, height.enough) in
      let same : cur ≡ top = cc (rw small at e) in
      inr (
        single-Matches width leaves cur root (omega (arith, height.enough)) fits r
          (ap single_root same ∙ s))
  rebuild_levels-Matches (suc fuel) width level (suc k) leaves proof cur top root used v p fits fit
        height r e s =
      let (big, half) = IsHeight-half width k height in
      let large : ltb 1 width ≡ true = ground arith in
      let ((next, used'), made, e') =
        >>=-eq-ok (rebuild_level width level proof cur) _
          (rw (large, next_width-lt width fit) at e) in
      let ((top', used''), above, done) =
        >>=-eq-ok (rebuild_levels fuel ((width + 1) / 2) (level + 1) proof next) _ e' in
      let same : top' ≡ top = cc in
      let (fits', reflects) =
        rebuild_level-Reflects leaves width level proof cur next used' v p fits made in
      elim (rebuild_levels-Matches fuel ((width + 1) / 2) (level + 1) k (pair_up leaves) proof next
        top' root used'' (IsLevel-pair_up width leaves v) p fits' (omega arith) half r above
        (ap single_root same ∙ s)) [ inl c ↦ inl c | inr ms ↦ reflects ms ]

  -- When the leaves `leaves`, fewer than the greatest int64, have the root `root`, a reconstruction from known leaves and proof
  -- hashes of 32 bytes that ends in `root` was given leaves of that tree only, each at its index; or
  -- SHA-256 has a collision.
  pub reconstruct_tree_root_binds :
      (leaves : List Hash) (k : ℕ) (known : Assoc ℤ Hash) (proof : Proof) (root : Hash)
      → All IsHash leaves
      → All (λ x. IsHash x.1) known
      → All (λ x. IsHash x.1) proof
      → length leaves + 1 < 2 ^ 63
      → IsHeight (length leaves) k
      → up k leaves ≡ root ∷ []
      → reconstruct_tree_root (pos (length leaves)) known proof ≡ ok root
      → Collision ⊎ All (Holds leaves) known
  unfolding reconstruct_tree_root
  reconstruct_tree_root_binds leaves k known proof root ls ks ps fit height r e =
      let n = length leaves in
      let (valid, e1) =
        guard-eq-ok (ltb_ℤ (pos 0) (pos n) && ltb 0 (length known)) invalid_tree _ e in
      let (entries, checked, e2) = >>=-eq-ok (check_known (pos n) known) _ e1 in
      let ((top, used), made, e3) =
        >>=-eq-ok (rebuild_levels n n 0 proof (sort_entries entries)) _ e2 in
      let (root', single, e4) = >>=-eq-ok (single_root top) _ e3 in
      let (all_used, done) = guard-eq-ok (used == length proof) unused_nodes _ e4 in
      let same : root' ≡ root = cc in
      let fits =
        sort_entries-All (IsEntry n) entries (check_known-IsEntry n known entries ks checked) in
      elim (rebuild_levels-Matches n n 0 k leaves proof (sort_entries entries) top root used
        (record { size = refl; bytes = ls }) ps fits fit height r made (single ∙ ap ok same)) [
          | inl c ↦ inl c
          | inr ms ↦ inr (
              check_known-Holds n leaves known entries checked
                (All-sort_entries (Matches leaves) entries ms))
        ]
