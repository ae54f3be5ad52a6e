-- ===== src/Hpp/Rebuild.antt =====
-- `reconstructTreeTrace` of internal/hpp/verifier.go: the known leaves of one tree and the proof
-- nodes are folded up to its raw root. The recording of the trace is left out.
pub mod Parents
pub mod Sound
pub mod Root
pub mod Complete
pub mod Planned
pub mod Multiproof
use storage_aware_hmfaudit.Prelude.{
  ℕ, zero, suc, ◌+◌, ◌-◌, ◌/◌, ◌%◌, Bool, true, false, ◌&&◌, List, [], ◌∷◌, ◌++◌, length, ltb, ◌==◌,
  if◌then◌else◌, Option, none, some, ℤ, pos, negsuc, ltb_ℤ, Result, ok, err, ◌>>=◌, ◌>>◌, guard,
  Assoc, lookup,
}
use storage_aware_hmfaudit.Crypto.{Hash, Sha256, node_hash}
use storage_aware_hmfaudit.Hpp.Types.{NodePosition, at, position_eq}
use storage_aware_hmfaudit.Hpp.Plan.{is_right_of, next_width, to_ℕ}

-- `diverges` is no error of the source: the inner loop would not advance. `out_of_fuel` is the
-- model's.
pub data RebuildError : Type 0 where
  invalid_tree leaf_out_of_range missing_node many_roots unused_nodes diverges out_of_fuel :
      RebuildError

abbrev pub Proof : Type 0
Proof = Assoc NodePosition Hash

-- `sort.Slice` on the indexed hashes.
unfoldable pub insert_entry : ℕ × Hash → List (ℕ × Hash) → List (ℕ × Hash)
insert_entry x [] = x ∷ []
insert_entry x (y ∷ ys) = if ltb x.0 y.0 then x ∷ y ∷ ys else y ∷ insert_entry x ys

unfoldable pub sort_entries : List (ℕ × Hash) → List (ℕ × Hash)
sort_entries [] = []
sort_entries (x ∷ xs) = insert_entry x (sort_entries xs)

unfoldable pub check_known : ℤ → Assoc ℤ Hash → Result RebuildError (List (ℕ × Hash))
check_known leaf_count [] = ok []
check_known leaf_count ((negsuc n, hash) ∷ rest) = err leaf_out_of_range
check_known leaf_count ((pos n, hash) ∷ rest) = do
  guard (ltb_ℤ (pos n) leaf_count) leaf_out_of_range
  others ← check_known leaf_count rest
  ok ((n, hash) ∷ others)

-- `proofAt`
unfoldable pub proof_at : Proof → ℕ → ℕ → Result RebuildError Hash
proof_at proof level index = elim (lookup (at level index) proof) [
  | none ↦ err missing_node
  | some hash ↦ ok hash
]

module _ ⦃sha : Sha256⦄ where
  -- The parent of an entry whose sibling is not among the known ones, and the proof nodes used.
  unfoldable pub lone_parent : ℕ → ℕ → Proof → ℕ × Hash → Result RebuildError (Hash × ℕ)
  unfolding proof_at
  lone_parent width level proof (i, hash) =
      if i % 2 == 0
      then (if ltb (i + 1) width
          then (proof_at proof level (i + 1) >>= λ right. ok (node_hash hash right, 1))
          else ok (hash, 0))
      else (proof_at proof level (i - 1) >>= λ left.
          if ltb i width then ok (node_hash left hash, 1) else err diverges)

  -- One round of the loop over `current`: the parents, and the number of proof nodes used.
  unfoldable pub rebuild_level :
      ℕ → ℕ → Proof → List (ℕ × Hash) → Result RebuildError (List (ℕ × Hash) × ℕ)
  unfolding lone_parent
  rebuild_level width level proof [] = ok ([], 0)
  rebuild_level width level proof (x ∷ []) = do
    (parent, used) ← lone_parent width level proof x
    ok ((x.0 / 2, parent) ∷ [], used)
  rebuild_level width level proof (x ∷ y ∷ rest) =
      let both : Result RebuildError (List (ℕ × Hash) × ℕ) = do
        (next, used) ← rebuild_level width level proof rest
        ok ((x.0 / 2, node_hash x.1 y.1) ∷ next, used)
      in let lone : Result RebuildError (List (ℕ × Hash) × ℕ) = do
        (parent, used) ← lone_parent width level proof x
        (next, used') ← rebuild_level width level proof (y ∷ rest)
        ok ((x.0 / 2, parent) ∷ next, used + used')
        in if is_right_of y.0 x.0 && ltb (x.0 + 1) width then both else lone

  -- `for width > 1`
  unfoldable pub rebuild_levels :
      ℕ → ℕ → ℕ → Proof → List (ℕ × Hash) → Result RebuildError (List (ℕ × Hash) × ℕ)
  rebuild_levels zero width level proof current = err out_of_fuel
  rebuild_levels (suc fuel) width level proof current =
      let above : Result RebuildError (List (ℕ × Hash) × ℕ) = do
        (next, used) ← rebuild_level width level proof current
        (top, used') ← rebuild_levels fuel (next_width width) (level + 1) proof next
        ok (top, used + used')
      in if ltb 1 width then above else ok (current, 0)

  -- `len(current) != 1`, and the one root otherwise.
  unfoldable pub single_root : List (ℕ × Hash) → Result RebuildError Hash
  single_root ((i, hash) ∷ []) = ok hash
  single_root [] = err many_roots
  single_root (x ∷ y ∷ rest) = err many_roots

  -- `reconstructTreeTrace`, which `reconstructTreeRoot` calls without a trace.
  unfoldable pub reconstruct_tree_root : ℤ → Assoc ℤ Hash → Proof → Result RebuildError Hash
  unfolding check_known sort_entries rebuild_levels single_root
  reconstruct_tree_root leaf_count known proof = do
    guard (ltb_ℤ (pos 0) leaf_count && ltb 0 (length known)) invalid_tree
    entries ← check_known leaf_count known
    (top, used) ← rebuild_levels (to_ℕ leaf_count) (to_ℕ leaf_count) 0 proof (sort_entries entries)
    root ← single_root top
    guard (used == length proof) unused_nodes
    ok root
