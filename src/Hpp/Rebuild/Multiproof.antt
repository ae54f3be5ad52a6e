-- ===== src/Hpp/Rebuild/Multiproof.antt =====
-- The planner and the reconstruction together: a proof for some leaves of a tree gives its root.
use storage_aware_hmfaudit.Prelude.{
  ℕ, zero, suc, ◌^◌, ◌+◌, ◌<◌, ◌≡◌, ◌≢◌, refl, ap, sym, subst, ◌∙◌, inl, inr, true, ◌&&◌, List, [],
  ◌∷◌, map, length, length-map, get_elem?, All, ltb, lt→ltb, ◌==◌, Bool-cases, some, arith, ℤ, pos,
  negsuc, ltb_ℤ, Assoc, Result, ok, err, >>=-eq-ok, guard-eq-ok, Yields-inv,
}
use storage_aware_hmfaudit.Crypto.{Hash, Sha256}
use storage_aware_hmfaudit.Hmf.Merkle.{up, IsHeight}
use storage_aware_hmfaudit.Hpp.Types.{TreeRef, TreePlan, NodePosition}
use storage_aware_hmfaudit.Hpp.Plan.{
  PlanError, insert_sorted, sort, plan_levels, plan_tree, no_leaves, no_targets,
}
use storage_aware_hmfaudit.Hpp.Plan.Ascending.{
  IsActive, IsDistinct, sort-All, sort-IsAscending, sort-nonempty,
}
use storage_aware_hmfaudit.Hpp.Rebuild.{
  Proof, insert_entry, sort_entries, check_known, rebuild_levels, single_root,
  reconstruct_tree_root,
}
use storage_aware_hmfaudit.Hpp.Rebuild.Parents.{Matches}
use storage_aware_hmfaudit.Hpp.Rebuild.Root.{Holds, sort_entries-All}
use storage_aware_hmfaudit.Hpp.Rebuild.Complete.{indexes, Serves}
use storage_aware_hmfaudit.Hpp.Plan.Total.{check_targets-inside}
use storage_aware_hmfaudit.Hpp.Rebuild.Planned.{IsDone, rebuild_levels-IsDone}

abbrev pub keys : Assoc ℤ Hash → List ℤ
keys [] = []
keys ((k, h) ∷ rest) = k ∷ keys rest

length-keys : (known : Assoc ℤ Hash) → length (keys known) ≡ length known
length-keys [] = refl
length-keys (x ∷ rest) = ap suc (length-keys rest)

get_elem?-lt : (xs : List Hash) (i : ℕ) (a : Hash) → get_elem? xs i ≡ some a → i < length xs
get_elem?-lt [] i a e = cc
get_elem?-lt (x ∷ xs) zero a e = omega arith
get_elem?-lt (x ∷ xs) (suc i) a e = omega (arith, get_elem?-lt xs i a e)

insert_entry-indexes :
    (x : ℕ × Hash) (xs : List (ℕ × Hash))
    → indexes (insert_entry x xs) ≡ insert_sorted x.0 (indexes xs)
unfolding insert_entry insert_sorted
insert_entry-indexes x [] = refl
insert_entry-indexes x (y ∷ ys) = elim (Bool-cases (ltb x.0 y.0)) [
  | inl less ↦ rw less
  | inr more ↦ rw more (ap (◌∷◌ y.0) (insert_entry-indexes x ys))
]

sort_entries-indexes : (xs : List (ℕ × Hash)) → indexes (sort_entries xs) ≡ sort (indexes xs)
unfolding sort_entries sort
sort_entries-indexes [] = refl
sort_entries-indexes (x ∷ xs) =
    insert_entry-indexes x (sort_entries xs) ∙ ap (insert_sorted x.0) (sort_entries-indexes xs)

pos-apart : (i : ℕ) (is : List ℕ) → All (λ y. pos i ≢ y) (map pos is) → All (λ y. i ≢ y) is
pos-apart i [] h = tt
pos-apart i (j ∷ js) h = ((λ e. h.0 (ap pos e)), pos-apart i js h.1)

pos-IsDistinct : (is : List ℕ) → IsDistinct (map pos is) → IsDistinct is
pos-IsDistinct [] h = tt
pos-IsDistinct (i ∷ is) h = (pos-apart i is h.0, pos-IsDistinct is h.1)

-- The known leaves of a tree as entries of its lowest level.
record IsChecked (leaves : List Hash) (known : Assoc ℤ Hash) : Type 0 where
  entries : List (ℕ × Hash)
  passed : check_known (pos (length leaves)) known ≡ ok entries
  places : keys known ≡ map pos (indexes entries)
  hashes : All (Matches leaves) entries
  inside : All (λ i. i < length leaves) (indexes entries)

check_known-IsChecked :
    (leaves : List Hash) (known : Assoc ℤ Hash) → All (Holds leaves) known → IsChecked leaves known
unfolding check_known
check_known-IsChecked leaves [] h = record {
  entries = [];
  passed = refl;
  places = refl;
  hashes = tt;
  inside = tt;
}
check_known-IsChecked leaves ((negsuc n, hash) ∷ rest) h = absurd h.0
check_known-IsChecked leaves ((pos i, hash) ∷ rest) h =
    let others = check_known-IsChecked leaves rest h.1 in
    let room = get_elem?-lt leaves i hash h.0 in
    record {
      entries = (i, hash) ∷ others.entries;
      passed = rw (lt→ltb (i + 0) (length leaves + 0) (omega arith), others.passed);
      places = ap (◌∷◌ (pos i)) others.places;
      hashes = (h.0, others.hashes);
      inside = (room, others.inside);
    }

abbrev required_of : Result PlanError TreePlan → List NodePosition
required_of (ok plan) = plan.required
required_of (err e) = []

plan_tree-required :
    (tree : TreeRef) (n : ℕ) (targets : List ℕ) (plan : TreePlan)
    → All (λ i. i < n) targets
    → plan_tree tree (pos n) (map pos targets) ≡ ok plan
    → (ltb_ℤ (pos 0) (pos n) ≡ true)
      × ((0 < length targets) × (plan_levels n n 0 (sort targets) ≡ ok plan.required))
unfolding plan_tree
plan_tree-required tree n targets plan inside e =
    let (some_leaf, e1) = guard-eq-ok (ltb_ℤ (pos 0) (pos n)) no_leaves _ e in
    let (some_target, e2) = guard-eq-ok (ltb 0 (length (map pos targets))) no_targets _ e1 in
    let e3 = rw (check_targets-inside n targets inside) at e2 in
    let (required, planned, done) = >>=-eq-ok (plan_levels n n 0 (sort targets)) _ e3 in
    let same : required ≡ plan.required = ap required_of done in
    (some_leaf, (ground (arith, length-map pos targets), planned ∙ ap ok same))

module _ ⦃sha : Sha256⦄ where
  -- For a tree with the leaves `leaves`, fewer than the greatest int64, and the root `root`, a plan for some distinct leaves of it, and
  -- a proof that has the tree's nodes at the planned positions and no others: the reconstruction from
  -- those leaves succeeds, and gives `root`.
  pub reconstruct_tree_root-planned :
      (tree : TreeRef) (leaves : List Hash) (k : ℕ) (root : Hash) (known : Assoc ℤ Hash)
      (plan : TreePlan) (proof : Proof)
      → length leaves + 1 < 2 ^ 63
      → IsHeight (length leaves) k
      → up k leaves ≡ root ∷ []
      → All (Holds leaves) known
      → IsDistinct (keys known)
      → plan_tree tree (pos (length leaves)) (keys known) ≡ ok plan
      → All (Serves leaves proof) plan.required
      → length proof ≡ length plan.required
      → reconstruct_tree_root (pos (length leaves)) known proof ≡ ok root
  unfolding reconstruct_tree_root single_root up
  reconstruct_tree_root-planned tree leaves k root known plan proof fit height r holds distinct
        planned served size =
      let n = length leaves in
      let v = check_known-IsChecked leaves known holds in
      let (some_leaf, (some_target, required)) =
        plan_tree-required tree n (indexes v.entries) plan v.inside
          (ap (plan_tree tree (pos n)) (sym v.places) ∙ planned) in
      let sorted = sort_entries-indexes v.entries in
      let active : IsActive n (sort (indexes v.entries)) = record {
        ascending =
            sort-IsAscending (indexes v.entries)
              (pos-IsDistinct (indexes v.entries) (subst IsDistinct v.places distinct));
        inside = sort-All (λ i. i < n) (indexes v.entries) v.inside;
        some_target = sort-nonempty (indexes v.entries) some_target;
      } in
      let (done, e, (top, used)) =
        Yields-inv (IsDone root plan.required) (rebuild_levels n n 0 proof (sort_entries v.entries))
          (rebuild_levels-IsDone n n 0 k leaves leaves proof (sort_entries v.entries) root
            plan.required refl refl fit height r (subst (IsActive n) (sym sorted) active)
            (sort_entries-All (Matches leaves) v.entries v.hashes)
            (ap (plan_levels n n 0) sorted ∙ required) served) in
      let valid : (ltb_ℤ (pos 0) (pos n) && ltb 0 (length known)) ≡ true = rw some_leaf (
        lt→ltb 0 (length known) (
          omega (
            arith,
            some_target,
            ap length v.places,
            length-keys known,
            length-map pos (indexes v.entries),
          ))) in
      let all_used : (done.1 == length proof) ≡ true = ground (arith, used, size) in
      rw (valid, v.passed, e, top, all_used)
