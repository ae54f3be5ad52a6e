-- ===== src/Hmf/Segment/Fill.antt =====
-- What a segment is after a run of appends.
use native.Mathlib.Decide.{dec_lt}
use storage_aware_hmfaudit.Prelude.{
  ℕ, suc, ◌+◌, ◌≤◌, ◌<◌, ◌≡◌, ◌⊎◌, inl, inr, refl, ap, sym, false, List, [], ◌∷◌, ◌++◌, arith,
  lt→ltb, le→ltb, length, length-append, ℤ, Result, ok, err, Yields, Yields-inv, ◌>>=◌, append-nil,
  append_assoc,
}
use storage_aware_hmfaudit.Crypto.{Bytes, Hash}
use storage_aware_hmfaudit.Hmf.Node.{MerkleNode, leaf_nodes, hashes}
use storage_aware_hmfaudit.Hmf.Segment.{SegmentTree, SegmentError, full, new_segment_tree, append}

-- An unsealed segment that holds the leaves `hs`.
pub record IsOpen (hs : List Hash) (t : SegmentTree) : Type 0 where
  pub unsealed : t.is_sealed ≡ false
  pub holds : t.levels ≡ leaf_nodes 0 hs ∷ []
  pub counts : t.tree.leaf_count ≡ length hs
  pub fits : length hs ≤ t.max_leaves

leaf_nodes-concat :
    (i n : ℕ) (hs : List Hash) (h : Hash)
    → n ≡ i + length hs
    → leaf_nodes i hs ++ record { level = 0; index = n; hash = h } ∷ []
      ≡ leaf_nodes i (hs ++ h ∷ [])
leaf_nodes-concat i n [] h e = ground arith
leaf_nodes-concat i n (x ∷ hs) h e = ground (arith, leaf_nodes-concat (suc i) n hs h (omega arith))

pub hashes-leaf_nodes : (i : ℕ) (hs : List Hash) → hashes (leaf_nodes i hs) ≡ hs
hashes-leaf_nodes i [] = refl
hashes-leaf_nodes i (h ∷ hs) = ap (◌∷◌ h) (hashes-leaf_nodes (suc i) hs)

pub length-leaf_nodes : (i : ℕ) (hs : List Hash) → length (leaf_nodes i hs) ≡ length hs
length-leaf_nodes i [] = refl
length-leaf_nodes i (h ∷ hs) = ap suc (length-leaf_nodes (suc i) hs)

pub length-hashes : (ns : List MerkleNode) → length (hashes ns) ≡ length ns
length-hashes [] = refl
length-hashes (n ∷ ns) = ap suc (length-hashes ns)

-- A new segment is open and empty.
pub new_segment_tree-IsOpen : (r : Bytes) (s g : ℤ) (m : ℕ) → IsOpen [] (new_segment_tree r s g m)
unfolding new_segment_tree
new_segment_tree-IsOpen r s g m = record {
  unsealed = refl;
  holds = refl;
  counts = refl;
  fits = omega arith;
}

append-IsOpen :
    (hs : List Hash) (t : SegmentTree) (h : Hash)
    → IsOpen hs t
    → length hs < t.max_leaves
    → Yields (λ t'. IsOpen (hs ++ h ∷ []) t' × (t'.max_leaves ≡ t.max_leaves)) (append t h)
unfolding append
append-IsOpen hs t h v room =
    rw (v.unsealed, lt→ltb t.tree.leaf_count t.max_leaves (omega (arith, v.counts)))
      (
        record {
          unsealed = refl;
          holds =
              rw v.holds
                (ap (λ ns. ns ∷ []) (leaf_nodes-concat 0 _ hs h (omega (arith, v.counts))));
          counts = omega (arith, v.counts, length-append hs (h ∷ []));
          fits = omega (arith, length-append hs (h ∷ []));
        },
        refl,
      )

-- `Append`, leaf after leaf.
unfoldable pub append_all : SegmentTree → List Hash → Result SegmentError SegmentTree
append_all t [] = ok t
append_all t (h ∷ hs) = append t h >>= λ t'. append_all t' hs

-- A full segment refuses one leaf more.
append-full :
    (hs : List Hash) (t : SegmentTree) (h : Hash)
    → IsOpen hs t
    → length hs ≡ t.max_leaves
    → append t h ≡ err full
unfolding append
append-full hs t h v e =
    rw (v.unsealed, le→ltb t.tree.leaf_count t.max_leaves (omega (arith, v.counts)))

-- Either all leaves are taken, in order, or they are too many and one is refused.
abbrev Takes : List Hash → List Hash → SegmentTree → Type 0
unfolding append_all
Takes done hs t =
    ((length done + length hs ≤ t.max_leaves) × Yields (IsOpen (done ++ hs)) (append_all t hs))
    ⊎ ((t.max_leaves < length done + length hs) × (append_all t hs ≡ err full))

append-Takes :
    (done hs : List Hash) (h : Hash) (t t' : SegmentTree)
    → append t h ≡ ok t'
    → t'.max_leaves ≡ t.max_leaves
    → Takes (done ++ h ∷ []) hs t'
    → Takes done (h ∷ hs) t
unfolding append_all
append-Takes done hs h t t' e same taken =
    let size = length-append done (h ∷ []) in
    elim taken [
      | inl (fits, held) ↦
          inl (omega (arith, same, size), rw (e, sym (append_assoc done (h ∷ []) hs)) held)
      | inr (over, refused) ↦ inr (omega (arith, same, size), rw e refused)
    ]

append_all-Takes : (done hs : List Hash) (t : SegmentTree) → IsOpen done t → Takes done hs t
unfolding append_all
append_all-Takes done [] t v = inl (omega (arith, v.fits), rw (append-nil done) v)
append_all-Takes done (h ∷ hs) t v = elim (dec_lt (length done) t.max_leaves) [
  | no none_left ↦ inr (omega arith, rw (append-full done t h v (omega (arith, v.fits))) refl)
  | yes room ↦
      let (t', e, (w, same)) = Yields-inv _ (append t h) (append-IsOpen done t h v room) in
      append-Takes done hs h t t' e same (append_all-Takes (done ++ h ∷ []) hs t' w)
]

-- A new segment takes any list of leaves that fits, in order, and refuses a longer one as full.
pub append_all-new_segment_tree :
    (r : Bytes) (s g : ℤ) (m : ℕ) (hs : List Hash)
    → ((length hs ≤ m) × Yields (IsOpen hs) (append_all (new_segment_tree r s g m) hs))
      ⊎ ((m < length hs) × (append_all (new_segment_tree r s g m) hs ≡ err full))
unfolding new_segment_tree Takes
append_all-new_segment_tree r s g m hs =
    let whole : 0 + length hs ≡ length hs = omega arith in
    rw whole at
      (append_all-Takes [] hs (new_segment_tree r s g m) (new_segment_tree-IsOpen r s g m))

pub append_all-fits :
    (r : Bytes) (s g : ℤ) (m : ℕ) (hs : List Hash)
    → length hs ≤ m
    → Yields (IsOpen hs) (append_all (new_segment_tree r s g m) hs)
append_all-fits r s g m hs room = elim (append_all-new_segment_tree r s g m hs) [
  | inl (_, taken) ↦ taken
  | inr (over, _) ↦ absurd (omega arith)
]
