-- ===== src/Hpp/Rebuild/Complete.antt =====
-- Completeness: the nodes that the planner asks for are what a reconstruction needs.
use storage_aware_hmfaudit.Prelude.{
  ℕ, ◌+◌, ◌-◌, ◌*◌, ◌/◌, ◌%◌, ◌<◌, ◌≡◌, refl, ap, sym, ◌∙◌, inl, inr, true, false, ◌&&◌, List, [],
  ◌∷◌, ◌++◌, length, length-append, get_elem?, All, ltb, lt→ltb, ◌==◌, Bool-cases, Option, none,
  some, arith, ℤ, pos, ok, lookup, Yields, Yields-bind,
}
use storage_aware_hmfaudit.Crypto.{Hash, Sha256}
use storage_aware_hmfaudit.Hmf.Merkle.{pair_up, up}
use storage_aware_hmfaudit.Hpp.Types.{NodePosition, at, position_eq}
use storage_aware_hmfaudit.Hpp.Plan.{is_right_of, lone_required, plan_level}
use storage_aware_hmfaudit.Hpp.Rebuild.{Proof, proof_at, lone_parent, rebuild_level}
use storage_aware_hmfaudit.Hpp.Rebuild.Parents.{Matches, get_elem?-some, pair_up_both, pair_up_last}

abbrev pub indexes : List (ℕ × Hash) → List ℕ
indexes [] = []
indexes ((i, h) ∷ rest) = i ∷ indexes rest

pub All-split {ℓ κ} :
    {A : Type ℓ} (P : A → Type κ) (xs ys : List A) → All P (xs ++ ys) → All P xs × All P ys
All-split P [] ys h = (tt, h)
All-split P (x ∷ xs) ys h = let (a, b) = All-split P xs ys h.1 in ((h.0, a), b)

module _ ⦃sha : Sha256⦄ where
  -- The node of the tree over `leaves` at a level and an index.
  abbrev pub node_of : List Hash → ℤ → ℤ → Option Hash
  node_of leaves (pos level) (pos index) = get_elem? (up level leaves) index
  node_of leaves _ _ = none

  -- The proof has the tree's node at the position.
  abbrev pub Serves : List Hash → Proof → NodePosition → Type 0
  Serves leaves proof position =
      lookup position proof ≡ node_of leaves position.level position.index

  -- The parent of a lone entry and the number of nodes used are as planned.
  abbrev IsParent : List Hash → ℕ → ℕ → ℕ → Hash × ℕ → Type 0
  IsParent nodes width level i (parent, used) =
      (get_elem? (pair_up nodes) (i / 2) ≡ some parent)
      × (used ≡ length (lone_required width level i))

  proof_at-served :
      (leaves nodes : List Hash) (level j : ℕ) (proof : Proof) (x : Hash)
      → up level leaves ≡ nodes
      → Serves leaves proof (at level j)
      → get_elem? nodes j ≡ some x
      → proof_at proof level j ≡ ok x
  unfolding proof_at
  proof_at-served leaves nodes level j proof x here served found =
      let same : lookup (at level j) proof ≡ some x =
        served ∙ (ap (λ l. get_elem? l j) here ∙ found) in
      rw (proof_at, same)

  lone_parent-IsParent :
      (leaves nodes : List Hash) (width level i : ℕ) (proof : Proof) (h : Hash)
      → up level leaves ≡ nodes
      → length nodes ≡ width
      → i < width
      → Matches nodes (i, h)
      → All (Serves leaves proof) (lone_required width level i)
      → Yields (IsParent nodes width level i) (lone_parent width level proof (i, h))
  unfolding lone_parent lone_required
  lone_parent-IsParent leaves nodes width level i proof h here size inside m served =
      elim (Bool-cases (i % 2 == 0)) [
        | inl even ↦
            let twice : 2 * (i / 2) ≡ i = ground arith in
            elim (Bool-cases (ltb (i + 1) width)) [
              | inl room ↦
                  let (x, ex) = get_elem?-some nodes (i + 1) (ground (arith, size)) in
                  let p =
                    proof_at-served leaves nodes level (i + 1) proof x here
                      (rw (even, room) at served).0 ex in
                  rw (even, room, p)
                    (pair_up_both nodes (i / 2) h x (rw twice m) (rw twice ex), (rw (even, room)))
              | inr last ↦
                  rw (even, last)
                    (
                      pair_up_last nodes (i / 2) h (rw twice m) (ground (arith, size)),
                      (rw (even, last)),
                    )
            ]
        | inr odd ↦
            let twice : 2 * (i / 2) ≡ i - 1 = ground arith in
            let next : i - 1 + 1 ≡ i = ground arith in
            let (x, ex) = get_elem?-some nodes (i - 1) (omega (arith, size)) in
            let p =
              proof_at-served leaves nodes level (i - 1) proof x here (rw odd at served).0 ex in
            rw (odd, p, lt→ltb i width inside)
              (pair_up_both nodes (i / 2) x h (rw twice ex) (rw (twice, next) m), (rw odd))
      ]

  -- The parents of a level are the planned ones, each in its place.
  pub record IsRound (nodes : List Hash) (width level : ℕ) (cur next : List (ℕ × Hash)) (used : ℕ)
      : Type 0 where
    pub places : indexes next ≡ (plan_level width level (indexes cur)).1
    pub hashes : All (Matches (pair_up nodes)) next
    pub counted : used ≡ length (plan_level width level (indexes cur)).0

  pub rebuild_level-IsRound :
      (leaves nodes : List Hash) (width level : ℕ) (proof : Proof) (cur : List (ℕ × Hash))
      → up level leaves ≡ nodes
      → length nodes ≡ width
      → All (λ i. i < width) (indexes cur)
      → All (Matches nodes) cur
      → All (Serves leaves proof) (plan_level width level (indexes cur)).0
      → Yields (λ r. IsRound nodes width level cur r.0 r.1) (rebuild_level width level proof cur)
  unfolding rebuild_level plan_level
  rebuild_level-IsRound leaves nodes width level proof [] here size inside ms served = record {
    places = refl;
    hashes = tt;
    counted = refl;
  }
  rebuild_level-IsRound leaves nodes width level proof ((i, h) ∷ []) here size inside ms served =
      Yields-bind (IsParent nodes width level i)
        (λ (r : List (ℕ × Hash) × ℕ). IsRound nodes width level ((i, h) ∷ []) r.0 r.1)
        (lone_parent width level proof (i, h)) _
        (lone_parent-IsParent leaves nodes width level i proof h here size inside.0 ms.0 served)
        λ r (parent, used). record { places = refl; hashes = (parent, tt); counted = used }
  rebuild_level-IsRound leaves nodes width level proof ((i, h) ∷ (j, g) ∷ rest) here size inside ms
        served =
      let P : List (ℕ × Hash) × ℕ → Type 0 =
        λ r. IsRound nodes width level ((i, h) ∷ (j, g) ∷ rest) r.0 r.1 in
      elim (Bool-cases (is_right_of j i)) [
        | inl right ↦
            let even : i % 2 ≡ 0 = ground arith in
            let after : j ≡ i + 1 = ground arith in
            let twice : 2 * (i / 2) ≡ i = omega arith in
            let fits : (is_right_of j i && ltb (i + 1) width) ≡ true =
              rw right (lt→ltb (i + 1) width (omega (arith, inside.1.0))) in
            rw fits (
              Yields-bind (λ (r : List (ℕ × Hash) × ℕ). IsRound nodes width level rest r.0 r.1) P
                (rebuild_level width level proof rest) _
                (rebuild_level-IsRound leaves nodes width level proof rest here size inside.1.1
                  ms.1.1 (rw right at served))
                λ r round. record {
                  places = rw right (ap (◌∷◌ (i / 2)) round.places);
                  hashes = (
                    pair_up_both nodes (i / 2) h g (rw twice ms.0) (rw (twice, sym after) ms.1.0),
                    round.hashes,
                  );
                  counted = rw right round.counted;
                })
        | inr apart ↦
            let unfit : (is_right_of j i && ltb (i + 1) width) ≡ false = rw apart in
            let (own, others) =
              All-split (Serves leaves proof) (lone_required width level i) _
                (rw apart at served) in
            rw unfit (
              Yields-bind (IsParent nodes width level i) P (lone_parent width level proof (i, h)) _
                (lone_parent-IsParent leaves nodes width level i proof h here size inside.0 ms.0
                  own)
                λ p (parent, used).
                  Yields-bind
                    (λ (r : List (ℕ × Hash) × ℕ). IsRound nodes width level ((j, g) ∷ rest) r.0 r.1)
                    P (rebuild_level width level proof ((j, g) ∷ rest)) _
                    (rebuild_level-IsRound leaves nodes width level proof ((j, g) ∷ rest) here size
                      inside.1 ms.1 others)
                    λ r round. record {
                      places = rw apart (ap (◌∷◌ (i / 2)) round.places);
                      hashes = (parent, round.hashes);
                      counted = rw apart (
                          omega (
                            arith,
                            used,
                            round.counted,
                            length-append (lone_required width level i)
                                (plan_level width level (j ∷ indexes rest)).0,
                          ));
                    })
      ]
