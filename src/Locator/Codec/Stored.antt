-- ===== src/Locator/Codec/Stored.antt =====
-- A page read from storage: its contents are the ones that its hash was taken of.
use storage_aware_hmfaudit.Prelude.{
  ◌≡◌, refl, sym, ◌∙◌, ◌⊎◌, inl, inr, true, Bool-cases, Option, none, some, Result, ok, err, ℤ,
  length, arith, ◌==◌, [], if◌then◌else◌, nat_beq_iff, bytes_iff, list_eq, nat_eq,
}
use storage_aware_hmfaudit.Crypto.{Bytes, Hash, IsHash, Sha256, Collision}
use storage_aware_hmfaudit.Locator.Types.{Page}
use storage_aware_hmfaudit.Locator.Page.{leaf_hash, internal_hash, leaf_bytes}
use storage_aware_hmfaudit.Locator.Page.Injective.{IsLeafPage}
use storage_aware_hmfaudit.Locator.Page.Binding.{leaf_hash_binds}
use storage_aware_hmfaudit.Locator.Reader.{CodecError}
use storage_aware_hmfaudit.Locator.Codec.Marshal.{marshal_page}
use storage_aware_hmfaudit.Locator.Codec.Unmarshal.{
  unmarshal_page, unmarshal_stored_page, with_columns, page_hash, check_page_hash, check_decoded,
  decoded_page,
}
use storage_aware_hmfaudit.Locator.Codec.RoundTrip.{
  IsStoredPage, contents, unmarshal_page-marshal_page,
}

module _ ⦃sha : Sha256⦄ where
  check_page_hash-ok :
      (page q : Page) (computed : Option Hash)
      → check_page_hash page computed ≡ ok q
      → (q ≡ page) × (computed ≡ some page.hash)
  check_page_hash-ok page q none e = cc
  check_page_hash-ok page q (some h) e = ground (arith, bytes_iff h page.hash)

  check_decoded-ok :
      (decoded : Result CodecError Page) (id : ℤ) (parent next : Option ℤ) (stored : Hash)
      (q : Page)
      → check_decoded decoded id parent next stored ≡ ok q
      → (page_hash q ≡ some stored) × (q.page_id ≡ id) × (q.next ≡ next)
  unfolding with_columns
  check_decoded-ok (err e) id parent next stored q h = cc
  check_decoded-ok (ok page) id parent next stored q h =
      let (same, hash) = check_page_hash-ok (with_columns page id parent next stored) q _ h in
      rw same (hash, refl, refl)

  -- A page that was read from storage has the stored hash.
  pub unmarshal_stored_page_lem :
      (input : Bytes) (id : ℤ) (parent next : Option ℤ) (stored : Bytes) (q : Page)
      → unmarshal_stored_page input id parent next stored ≡ ok q
      → IsHash stored × (page_hash q ≡ some stored) × (q.page_id ≡ id) × (q.next ≡ next)
  unfolding unmarshal_stored_page
  unmarshal_stored_page_lem input id parent next stored q h =
      elim (Bool-cases (length stored == 32)) [
        | inl size ↦
            let passed = rw size at h in
            let (hash, here, after) =
              check_decoded-ok (unmarshal_page input) id parent next stored q passed in
            ((nat_beq_iff (length stored) 32).0 size, hash, here, after)
        | inr size ↦ let failed = rw size at h in cc
      ]

  -- A page as it was stored: a leaf has no children and an internal page no values.
  abbrev pub restored : Page → Page
  restored page = record page {
    values = if page.is_leaf then page.values else [];
    children = if page.is_leaf then [] else page.children;
  }

  with_columns-contents :
      (page : Page)
      → with_columns (contents page) page.page_id page.parent_page_id page.next page.hash
        ≡ restored page
  unfolding with_columns decoded_page
  with_columns-contents page = elim (Bool-cases page.is_leaf) [
    | inl leaf ↦ rw leaf refl
    | inr inner ↦ rw inner refl
  ]

  page_hash-restored : (page : Page) → page_hash (restored page) ≡ page_hash page
  unfolding page_hash with_columns decoded_page leaf_hash internal_hash leaf_bytes
  page_hash-restored page = elim (Bool-cases page.is_leaf) [
    | inl leaf ↦ rw leaf refl
    | inr inner ↦ rw inner refl
  ]

  -- A page whose parts fit their lengths and that carries its own hash is stored and read back
  -- without an error as the page it was: its page ID, parent, next page and hash, and its keys, with
  -- the values of a leaf or the children of an internal page.
  pub unmarshal_stored_page-marshal_page :
      (page : Page)
      → IsStoredPage page
      → IsHash page.hash
      → page_hash page ≡ some page.hash
      → (bytes : Bytes) × (marshal_page page ≡ ok bytes)
        × (unmarshal_stored_page bytes page.page_id page.parent_page_id page.next page.hash
            ≡ ok (restored page))
  unfolding unmarshal_stored_page with_columns
  unmarshal_stored_page-marshal_page page h size hash =
      let (bytes, written, read) = unmarshal_page-marshal_page page h in
      (
        bytes,
        written,
        rw
            (
              (nat_beq_iff (length page.hash) 32).1 size,
              read,
              with_columns-contents page,
              page_hash-restored page,
              hash,
            )
            (rw ((bytes_iff page.hash page.hash).1 refl) refl),
      )

  leaf_hash-leaf :
      (page : Page) (root : Hash)
      → page.is_leaf ≡ true
      → page_hash page ≡ some root
      → leaf_hash page ≡ some root
  unfolding page_hash leaf_hash leaf_bytes
  leaf_hash-leaf page root leaf e = rw leaf at e

  -- Two leaves that were read from storage under one hash, with whatever bytes, page IDs and next
  -- pages, are the same leaf, or SHA-256 has a
  -- collision. The fields of both fit the bytes of a leaf.
  pub unmarshal_stored_page_binds :
      (input input' : Bytes) (id id' : ℤ) (parent parent' next next' : Option ℤ) (stored : Bytes)
      (p q : Page)
      → unmarshal_stored_page input id parent next stored ≡ ok p
      → unmarshal_stored_page input' id' parent' next' stored ≡ ok q
      → p.is_leaf ≡ true
      → q.is_leaf ≡ true
      → IsLeafPage p
      → IsLeafPage q
      → Collision ⊎ ((id ≡ id') × (next ≡ next') × (p.keys ≡ q.keys) × (p.values ≡ q.values))
  unmarshal_stored_page_binds input input' id id' parent parent' next next' stored p q e e' leaf
        leaf' h h' =
      let (size, hash, here, after) = unmarshal_stored_page_lem input id parent next stored p e in
      let (size', hash', here', after') =
        unmarshal_stored_page_lem input' id' parent' next' stored q e' in
      elim (leaf_hash_binds p q stored h h' (leaf_hash-leaf p stored leaf hash)
        (leaf_hash-leaf q stored leaf' hash')) [
          | inl collision ↦ inl collision
          | inr (ids, nexts, keys, values) ↦
              inr (sym here ∙ ids ∙ here', sym after ∙ nexts ∙ after', keys, values)
        ]
