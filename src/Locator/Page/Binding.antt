-- ===== src/Locator/Page/Binding.antt =====
-- The hash of a page binds what the page holds.
use mathlib.Core.Option
use storage_aware_hmfaudit.Prelude.{
  ◌++◌, Option, none, some, ◌≡◌, refl, sym, ap, ◌∙◌, ◌⊎◌, inl, inr, arith, append_assoc, append_inj,
  map,
}
use storage_aware_hmfaudit.Crypto.{Bytes, Hash, Sha256, Collision, write_int64_inj}
use storage_aware_hmfaudit.Crypto.Binding.{sum_binds}
use storage_aware_hmfaudit.Locator.Types.{ChildRef, Page}
use storage_aware_hmfaudit.Locator.Page.Injective.{
  key_bytes, hash_bytes, concat_enc_keys_lem, concat_enc_child_lem, internal_inj, entries_inj,
  next_inj, IsLeafPage, IsInternalPage,
}
use storage_aware_hmfaudit.Locator.Page.{
  concat_enc_keys, concat_enc_child, leaf_bytes, leaf_hash, internal_hash, internal_prefix,
  leaf_prefix,
}

-- What a map over an option that gave a value was given.
map-eq-some {ℓ κ} :
    {A : Type ℓ} {B : Type κ} {f : A → B} {o : Option A} {b : B}
    → Option.map f o ≡ some b
    → (a : A) × (o ≡ some a) × (f a ≡ b)
map-eq-some {o = none} e = cc
map-eq-some {o = some a} e = (a, refl, cc)

prefixed : {x y : Bytes} → leaf_prefix ++ x ≡ leaf_prefix ++ y → x ≡ y
prefixed e = ground (arith, e)

leaf_bytes_inj :
    (p q : Page) (a : Bytes)
    → IsLeafPage p
    → IsLeafPage q
    → leaf_bytes p ≡ some a
    → leaf_bytes q ≡ some a
    → (p.page_id ≡ q.page_id) × (p.next ≡ q.next) × (p.keys ≡ q.keys) × (p.values ≡ q.values)
unfolding leaf_bytes
leaf_bytes_inj p q a h k e e' =
    let (bytes, done, same) = map-eq-some e in
    let (bytes', done', same') = map-eq-some e' in
    let (start, more) =
      write_int64_inj p.page_id q.page_id _ _ h.page_id k.page_id (prefixed (same ∙ sym same')) in
    let (next, tail) = next_inj p.next q.next bytes bytes' h.next k.next more in
    let (keys, values) =
      entries_inj p.keys q.keys p.values q.values bytes h.keys k.keys h.values k.values h.paired
        k.paired done (done' ∙ ap some (sym tail)) in
    (start, next, keys, values)

internal_bytes :
    (p : Page)
    → concat_enc_child (concat_enc_keys internal_prefix p.keys) p.children
      ≡ internal_prefix ++ (key_bytes p.keys ++ hash_bytes p.children)
internal_bytes p = rw (
  concat_enc_keys_lem internal_prefix p.keys,
  concat_enc_child_lem (internal_prefix ++ key_bytes p.keys) p.children,
  append_assoc internal_prefix (key_bytes p.keys) (hash_bytes p.children),
)

internal_tail :
    (p q : Page)
    → concat_enc_child (concat_enc_keys internal_prefix p.keys) p.children
      ≡ concat_enc_child (concat_enc_keys internal_prefix q.keys) q.children
    → key_bytes p.keys ++ hash_bytes p.children ≡ key_bytes q.keys ++ hash_bytes q.children
internal_tail p q e =
    (append_inj internal_prefix internal_prefix _ _ refl
      (sym (internal_bytes p) ∙ e ∙ internal_bytes q)).1

apart :
    (q : Page) {x : Bytes}
    → leaf_prefix ++ x ≡ concat_enc_child (concat_enc_keys internal_prefix q.keys) q.children
    → ⊥
apart q e = let heads = e ∙ internal_bytes q in ground (arith, heads)

module _ ⦃sha : Sha256⦄ where
  -- Two leaves with one hash have the same page ID, next page, keys and values, or a collision of
  -- the hash is at hand.
  pub leaf_hash_binds :
      (p q : Page) (root : Hash)
      → IsLeafPage p
      → IsLeafPage q
      → leaf_hash p ≡ some root
      → leaf_hash q ≡ some root
      → Collision
        ⊎ ((p.page_id ≡ q.page_id) × (p.next ≡ q.next) × (p.keys ≡ q.keys) × (p.values ≡ q.values))
  unfolding leaf_hash
  leaf_hash_binds p q root h k e e' =
      let (bytes, done, same) = map-eq-some e in
      let (bytes', done', same') = map-eq-some e' in
      elim (sum_binds bytes bytes' (same ∙ sym same')) [
        | inl collision ↦ inl collision
        | inr one ↦ inr (leaf_bytes_inj p q bytes h k done (done' ∙ ap some (sym one)))
      ]

  -- Two internal pages with one hash have the same keys and the same child hashes, or SHA-256 has a
  -- collision. Each has one child more than it has keys, and its keys and hashes fit their bytes.
  pub internal_hash_binds :
      (p q : Page)
      → IsInternalPage p
      → IsInternalPage q
      → internal_hash p ≡ internal_hash q
      → Collision
        ⊎ ((p.keys ≡ q.keys) × (map ChildRef.hash p.children ≡ map ChildRef.hash q.children))
  unfolding internal_hash
  internal_hash_binds p q h k e = elim (sum_binds _ _ e) [
    | inl collision ↦ inl collision
    | inr one ↦ inr (
        internal_inj p.keys q.keys p.children q.children h.keys k.keys h.children k.children 1
          h.paired k.paired (internal_tail p q one))
  ]

  -- No leaf has the hash of an internal page, or a collision of the hash is at hand.
  pub leaf-ne-internal :
      (p q : Page) (root : Hash) → leaf_hash p ≡ some root → internal_hash q ≡ root → Collision
  unfolding leaf_hash internal_hash leaf_bytes
  leaf-ne-internal p q root e e' =
      let (bytes, done, same) = map-eq-some e in
      let (entries, listed, start) = map-eq-some done in
      elim (sum_binds bytes _ (same ∙ sym e')) [
        | inl collision ↦ collision
        | inr one ↦ absurd (apart q (start ∙ one))
      ]
