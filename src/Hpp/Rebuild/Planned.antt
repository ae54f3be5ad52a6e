-- ===== src/Hpp/Rebuild/Planned.antt =====
-- A reconstruction from the nodes that the planner asked for ends in the root of the tree.
use storage_aware_hmfaudit.Prelude.{
  ℕ, zero, suc, ◌^◌, ◌<◌, ◌+◌, ◌/◌, ◌≡◌, ap, sym, subst, ◌∙◌, true, false, List, [], ◌∷◌, ◌++◌,
  length, length-append, get_elem?, All, ltb, some, arith, ok, >>=-eq-ok, Yields, Yields-bind,
}
use storage_aware_hmfaudit.Crypto.{Hash, Sha256}
use storage_aware_hmfaudit.Hmf.Merkle.{pair_up, up, up-suc, length-pair_up, IsHeight, IsHeight-half}
use storage_aware_hmfaudit.Hpp.Types.{NodePosition}
use storage_aware_hmfaudit.Hpp.Plan.{plan_level, plan_levels}
use storage_aware_hmfaudit.Hpp.Plan.Ascending.{
  IsActive, IsActive-one, plan_level-IsActive, next_width-lt,
}
use storage_aware_hmfaudit.Hpp.Rebuild.{Proof, rebuild_level, rebuild_levels}
use storage_aware_hmfaudit.Hpp.Rebuild.Parents.{Matches}
use storage_aware_hmfaudit.Hpp.Rebuild.Complete.{
  indexes, All-split, Serves, IsRound, rebuild_level-IsRound,
}

top_entry :
    (nodes : List Hash) (cur : List (ℕ × Hash)) (root : Hash)
    → indexes cur ≡ 0 ∷ []
    → nodes ≡ root ∷ []
    → All (Matches nodes) cur
    → cur ≡ (0, root) ∷ []
top_entry nodes [] root e n m = cc
top_entry nodes ((zero, h) ∷ []) root e n m =
    let same : some root ≡ some h = ap (λ l. get_elem? l 0) (sym n) ∙ m.0 in
    let equal : h ≡ root = cc in ap (λ x. (0, x) ∷ []) equal
top_entry nodes ((suc i, h) ∷ []) root e n m = cc
top_entry nodes (x ∷ y ∷ rest) root e n m = cc

module _ ⦃sha : Sha256⦄ where
  -- The root alone is left, and every planned node was used.
  abbrev pub IsDone : Hash → List NodePosition → List (ℕ × Hash) × ℕ → Type 0
  IsDone root required (top, used) = (top ≡ (0, root) ∷ []) × (used ≡ length required)

  pub rebuild_levels-IsDone :
      (fuel width level k : ℕ) (leaves nodes : List Hash) (proof : Proof) (cur : List (ℕ × Hash))
      (root : Hash) (required : List NodePosition)
      → up level leaves ≡ nodes
      → length nodes ≡ width
      → width + 1 < 2 ^ 63
      → IsHeight width k
      → up k nodes ≡ root ∷ []
      → IsActive width (indexes cur)
      → All (Matches nodes) cur
      → plan_levels fuel width level (indexes cur) ≡ ok required
      → All (Serves leaves proof) required
      → Yields (IsDone root required) (rebuild_levels fuel width level proof cur)
  unfolding plan_levels rebuild_levels up
  rebuild_levels-IsDone zero width level k leaves nodes proof cur root required here size fit height
        r v ms plan served =
      cc
  rebuild_levels-IsDone (suc fuel) width level zero leaves nodes proof cur root required here size
        fit height r v ms plan served =
      let small : ltb 1 width ≡ false = ground (arith, height.enough) in
      let none_left : [] ≡ required = cc (rw small at plan) in
      let single = IsActive-one width (indexes cur) (omega (arith, height.enough)) v in
      rw small (top_entry nodes cur root single r ms, ap length none_left)
  rebuild_levels-IsDone (suc fuel) width level (suc k) leaves nodes proof cur root required here
        size fit height r v ms plan served =
      let (big, half) = IsHeight-half width k height in
      let large : ltb 1 width ≡ true = ground arith in
      let round = plan_level width level (indexes cur) in
      let (rest, planned, done) =
        >>=-eq-ok (plan_levels fuel ((width + 1) / 2) (level + 1) round.1) _
          (rw (large, next_width-lt width fit) at plan) in
      let all_of_it : required ≡ round.0 ++ rest = cc in
      let (now, later) =
        All-split (Serves leaves proof) round.0 rest
          (subst (All (Serves leaves proof)) all_of_it served) in
      let next_level : level + 1 ≡ suc level = omega arith in
      rw (large, next_width-lt width fit)
        (Yields-bind (λ (s : List (ℕ × Hash) × ℕ). IsRound nodes width level cur s.0 s.1)
          (IsDone root required) (rebuild_level width level proof cur) _
          (rebuild_level-IsRound leaves nodes width level proof cur here size v.inside ms now)
          λ s done_round.
            Yields-bind (IsDone root rest) (IsDone root required)
              (rebuild_levels fuel ((width + 1) / 2) (level + 1) proof s.0) _
              (rebuild_levels-IsDone fuel ((width + 1) / 2) (level + 1) k leaves (pair_up nodes)
                proof s.0 root rest (rw next_level (up-suc level leaves ∙ ap pair_up here))
                (omega (arith, length-pair_up nodes, size)) (omega arith) half r
                (subst (IsActive ((width + 1) / 2)) (sym done_round.places)
                  (plan_level-IsActive width level (indexes cur) v))
                done_round.hashes
                (ap (plan_levels fuel ((width + 1) / 2) (level + 1)) done_round.places ∙ planned)
                later)
              λ t (top, used). (
                top,
                omega (
                  arith,
                  used,
                  done_round.counted,
                  ap length all_of_it,
                  length-append round.0 rest,
                ),
              ))
