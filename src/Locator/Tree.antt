-- ===== src/Locator/Tree.antt =====
-- The tree that a locator root commits to, as the auditor of a range result has to trust it: pages
-- that hold their child pages, and leaves in a chain.
pub mod Path
pub mod Chain
pub mod Complete
pub mod Query
use storage_aware_hmfaudit.Prelude.{
  ℕ, ◌+◌, ℤ, pos, List, [], ◌∷◌, ◌++◌, Option, none, some, length, ◌≡◌, ◌≢◌, All, true, false,
  IsInt64,
}
use storage_aware_hmfaudit.Crypto.{Bytes, Hash, Sha256, zero_hash}
use storage_aware_hmfaudit.Locator.Types.{LocatorKey, LocatorValue, LocatorEntry, ChildRef, Page}
use storage_aware_hmfaudit.Locator.Key.{less}
use storage_aware_hmfaudit.Locator.Encode.{IsKey}
use storage_aware_hmfaudit.Locator.Page.{leaf_hash, internal_hash}
use storage_aware_hmfaudit.Locator.Page.Injective.{IsLeafPage}
use storage_aware_hmfaudit.Locator.Entries.{leaf_entries}

pub record Leaf : Type 0 where
  pub page_id : ℤ
  pub next : Option ℤ
  pub keys : List LocatorKey
  pub values : List (Option LocatorValue)

-- A page of the tree, and the children of one.
mutual
  pub data Tree : Type 0 where
    leaf : Leaf → Tree
    internal : List LocatorKey → Children → Tree

  pub data Children : Type 0 where
    no_child : Children
    child : Tree → Children → Children

abbrev pub leaf_page : Leaf → Page
leaf_page l = record {
  page_id = l.page_id;
  hash = zero_hash;
  is_leaf = true;
  keys = l.keys;
  parent_page_id = none;
  values = l.values;
  next = l.next;
  children = [];
}

abbrev pub internal_page : List LocatorKey → List ChildRef → Page
internal_page ks cs = record {
  page_id = pos 0;
  hash = zero_hash;
  is_leaf = false;
  keys = ks;
  parent_page_id = none;
  values = [];
  next = none;
  children = cs;
}

-- The leaves from left to right.
unfoldable mutual
  pub leaves : Tree → List Leaf
  leaves (leaf l) = l ∷ []
  leaves (internal keys cs) = all_leaves cs

  pub all_leaves : Children → List Leaf
  all_leaves no_child = []
  all_leaves (child t cs) = leaves t ++ all_leaves cs

abbrev pub count : Children → ℕ
count no_child = 0
count (child t cs) = count cs + 1

-- Pages whose fields fit the bytes that they are hashed as, and one key less than children.
unfoldable mutual
  pub IsTree : Tree → Type 0
  IsTree (leaf l) = IsLeafPage (leaf_page l)
  IsTree (internal keys cs) = All IsKey keys × (count cs ≡ length keys + 1) × AreTrees cs

  pub AreTrees : Children → Type 0
  AreTrees no_child = Unit
  AreTrees (child t cs) = IsTree t × AreTrees cs

module _ ⦃sha : Sha256⦄ where
  -- `h` is the hash of the tree: the hash of each page is taken of its children's.
  unfoldable mutual
    pub HasHash : Tree → Hash → Type 0
    HasHash (leaf l) h = leaf_hash (leaf_page l) ≡ some h
    HasHash (internal keys cs) h =
        (refs : List ChildRef) × HaveHashes cs refs × (internal_hash (internal_page keys refs) ≡ h)

    pub HaveHashes : Children → List ChildRef → Type 0
    HaveHashes no_child refs = refs ≡ []
    HaveHashes (child t cs) refs =
        (ref : ChildRef) × (rest : List ChildRef) × (refs ≡ ref ∷ rest)
        × HasHash t ref.hash
        × HaveHashes cs rest

-- Each leaf names the next one, and the last one none.
abbrev pub IsLinked : List Leaf → Type 0
IsLinked [] = Unit
IsLinked (l ∷ []) = l.next ≡ none
IsLinked (l ∷ r ∷ rest) = (l.next ≡ some r.page_id) × IsLinked (r ∷ rest)

abbrev pub HaveDistinctIds : List Leaf → Type 0
HaveDistinctIds [] = Unit
HaveDistinctIds (l ∷ rest) = All (λ (r : Leaf). r.page_id ≢ l.page_id) rest × HaveDistinctIds rest

-- The entries of a leaf that has as many values as keys.
abbrev pub entries_of : ℤ → List LocatorKey → List (Option LocatorValue) → List LocatorEntry
entries_of id (k ∷ keys) (v ∷ values) =
    record { page_id = id; key = k; value = v } ∷ entries_of id keys values
entries_of id _ _ = []

abbrev pub entries : List Leaf → List LocatorEntry
entries [] = []
entries (l ∷ rest) = entries_of l.page_id l.keys l.values ++ entries rest

-- Each key sorts before all the ones after it.
abbrev pub IsAscending : List LocatorEntry → Type 0
IsAscending [] = Unit
IsAscending (e ∷ rest) = All (λ (f : LocatorEntry). less e.key f.key ≡ true) rest × IsAscending rest

-- What a locator keeps of its tree.
pub record IsLocator (t : Tree) : Type 0 where
  pub tree : IsTree t
  pub linked : IsLinked (leaves t)
  pub distinct : HaveDistinctIds (leaves t)
  pub ascending : IsAscending (entries (leaves t))
