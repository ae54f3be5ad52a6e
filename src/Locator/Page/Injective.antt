-- ===== src/Locator/Page/Injective.antt =====
-- The bytes that a page's hash is taken of give back what the page holds.
use storage_aware_hmfaudit.Prelude.{
  ℕ, Option-cases, ◌*◌, ◌+◌, append-nil, suc, ℤ, List, [], ◌∷◌, ◌++◌, Option, none, some, length,
  ◌≡◌, refl, sym, ap, ap₂, ◌∙◌, ◌<◌, inl, inr, arith, append_assoc, append_inj, length-append,
  IsInt64, All, map,
}
use storage_aware_hmfaudit.Crypto.{Bytes, IsHash, write_int64_inj}
use storage_aware_hmfaudit.Locator.Types.{LocatorKey, LocatorValue, ChildRef, Page}
use storage_aware_hmfaudit.Locator.Encode.{
  encode_key, encode_value, IsKey, IsValue, encode_key_inj, encode_value_inj,
}
use storage_aware_hmfaudit.Locator.Page.{
  concat_enc_keys, concat_enc_child, encode_next, encode_entries,
}

abbrev pub key_bytes : List LocatorKey → Bytes
key_bytes [] = []
key_bytes (key ∷ keys) = encode_key key ++ key_bytes keys

abbrev pub hash_bytes : List ChildRef → Bytes
hash_bytes [] = []
hash_bytes (child ∷ children) = child.hash ++ hash_bytes children

pub concat_enc_keys_lem :
    (p : Bytes) (keys : List LocatorKey) → concat_enc_keys p keys ≡ p ++ key_bytes keys
unfolding concat_enc_keys
concat_enc_keys_lem p [] = sym (append-nil p)
concat_enc_keys_lem p (key ∷ keys) = rw (
  concat_enc_keys_lem (p ++ encode_key key) keys,
  append_assoc p (encode_key key) (key_bytes keys),
)

pub concat_enc_child_lem :
    (p : Bytes) (children : List ChildRef) → concat_enc_child p children ≡ p ++ hash_bytes children
unfolding concat_enc_child
concat_enc_child_lem p [] = sym (append-nil p)
concat_enc_child_lem p (child ∷ children) = rw (
  concat_enc_child_lem (p ++ child.hash) children,
  append_assoc p child.hash (hash_bytes children),
)

abbrev pub IsChild : ChildRef → Type 0
IsChild child = IsHash child.hash

length-hash_bytes : (cs : List ChildRef) → All IsChild cs → length (hash_bytes cs) ≡ 32 * length cs
length-hash_bytes [] h = refl
length-hash_bytes (c ∷ cs) (h, k) =
    omega (arith, h, length-hash_bytes cs k, length-append c.hash (hash_bytes cs))

-- The hashes of the children, whose page IDs the hash of their parent leaves out.
hash_bytes_inj :
    (cs ds : List ChildRef)
    → All IsChild cs
    → All IsChild ds
    → length cs ≡ length ds
    → hash_bytes cs ≡ hash_bytes ds
    → map ChildRef.hash cs ≡ map ChildRef.hash ds
hash_bytes_inj [] [] h k n e = refl
hash_bytes_inj [] (d ∷ ds) h k n e = absurd (omega arith)
hash_bytes_inj (c ∷ cs) [] h k n e = absurd (omega arith)
hash_bytes_inj (c ∷ cs) (d ∷ ds) (h, hs) (k, ks) n e =
    let (one, rest) = append_inj c.hash d.hash _ _ (h ∙ sym k) e in
    ap₂ ◌∷◌ one (hash_bytes_inj cs ds hs ks (omega arith) rest)

too_many :
    (cs ds : List ChildRef) (bytes : Bytes)
    → All IsChild cs
    → All IsChild ds
    → length cs < length ds
    → hash_bytes cs ≡ bytes ++ hash_bytes ds
    → ⊥
too_many cs ds bytes h k n e =
    let total : length (hash_bytes cs) ≡ length (bytes ++ hash_bytes ds) = ap length e in
    omega
      (arith, length-hash_bytes cs h, length-hash_bytes ds k, length-append bytes (hash_bytes ds))

-- Keys and one child more: where the keys end is not written, but the number of children tells.
pub internal_inj :
    (keys keys' : List LocatorKey) (cs ds : List ChildRef)
    → All IsKey keys
    → All IsKey keys'
    → All IsChild cs
    → All IsChild ds
    → (surplus : ℕ) → length cs ≡ length keys + surplus
    → length ds ≡ length keys' + surplus
    → key_bytes keys ++ hash_bytes cs ≡ key_bytes keys' ++ hash_bytes ds
    → (keys ≡ keys') × (map ChildRef.hash cs ≡ map ChildRef.hash ds)
internal_inj [] [] cs ds h h' k k' s n n' e = (refl, hash_bytes_inj cs ds k k' (omega arith) e)
internal_inj [] (key' ∷ keys') cs ds h h' k k' s n n' e =
    absurd (too_many cs ds (key_bytes (key' ∷ keys')) k k' (omega arith) e)
internal_inj (key ∷ keys) [] cs ds h h' k k' s n n' e =
    absurd (too_many ds cs (key_bytes (key ∷ keys)) k' k (omega arith) (sym e))
internal_inj (key ∷ keys) (key' ∷ keys') cs ds (h, hs) (h', hs') k k' s n n' e =
    let (one, rest) = encode_key_inj key key' _ _ h h' (simp append_assoc at e) in
    let (more, hashes) =
      internal_inj keys keys' cs ds hs hs' k k' (suc s) (omega arith) (omega arith) rest in
    (ap₂ ◌∷◌ one more, hashes)

-- The bytes of an entry and those of the entries after it.
entries-cons :
    (key : LocatorKey) (keys : List LocatorKey) (v : Option LocatorValue)
    (vs : List (Option LocatorValue)) (a : Bytes)
    → encode_entries (key ∷ keys) (v ∷ vs) ≡ some a
    → (rest : Bytes) × (encode_entries keys vs ≡ some rest)
      × (a ≡ encode_key key ++ (encode_value v ++ rest))
unfolding encode_entries
entries-cons key keys v vs a e = elim (Option-cases (encode_entries keys vs)) [
  | inl fails ↦ absurd (ground (arith, fails))
  | inr (rest, done) ↦ (rest, done, ground (arith, done))
]

entries_nonempty :
    (key : LocatorKey) (v : Option LocatorValue) (rest : Bytes)
    → [] ≡ encode_key key ++ (encode_value v ++ rest)
    → ⊥
unfolding encode_value
entries_nonempty key none rest e =
    let size : 0 ≡ length (encode_key key ++ 0 ∷ rest) = ap length e in
    omega (arith, length-append (encode_key key) (0 ∷ rest))
entries_nonempty key (some v) rest e =
    let size : 0 ≡ length (encode_key key ++ (encode_value (some v) ++ rest)) = ap length e in
    omega (arith, length-append (encode_key key) (encode_value (some v) ++ rest))

pub entries_inj :
    (keys keys' : List LocatorKey) (values values' : List (Option LocatorValue)) (a : Bytes)
    → All IsKey keys
    → All IsKey keys'
    → All IsValue values
    → All IsValue values'
    → length keys ≡ length values
    → length keys' ≡ length values'
    → encode_entries keys values ≡ some a
    → encode_entries keys' values' ≡ some a
    → (keys ≡ keys') × (values ≡ values')
unfolding encode_entries
entries_inj [] [] [] [] a h h' k k' n n' e e' = (refl, refl)
entries_inj [] (key' ∷ keys') [] (v' ∷ vs') a h h' k k' n n' e e' =
    let (rest, done, same) = entries-cons key' keys' v' vs' a e' in
    absurd (entries_nonempty key' v' rest (cc))
entries_inj (key ∷ keys) [] (v ∷ vs) [] a h h' k k' n n' e e' =
    let (rest, done, same) = entries-cons key keys v vs a e in
    absurd (entries_nonempty key v rest (cc))
entries_inj (key ∷ keys) (key' ∷ keys') (v ∷ vs) (v' ∷ vs') a (h, hs) (h', hs') (k, ks) (k', ks') n
      n' e e' =
    let (rest, done, same) = entries-cons key keys v vs a e in
    let (rest', done', same') = entries-cons key' keys' v' vs' a e' in
    let (one, more) = encode_key_inj key key' _ _ h h' (sym same ∙ same') in
    let (value, tail) = encode_value_inj v v' _ _ k k' more in
    let (all, others) =
      entries_inj keys keys' vs vs' rest hs hs' ks ks' (omega arith) (omega arith) done
        (done' ∙ ap some (sym tail)) in
    (ap₂ ◌∷◌ one all, ap₂ ◌∷◌ value others)
entries_inj [] keys' (v ∷ vs) values' a h h' k k' n n' e e' = absurd (omega arith)
entries_inj (key ∷ keys) keys' [] values' a h h' k k' n n' e e' = absurd (omega arith)
entries_inj keys [] values (v' ∷ vs') a h h' k k' n n' e e' = absurd (omega arith)
entries_inj keys (key' ∷ keys') values [] a h h' k k' n n' e e' = absurd (omega arith)

abbrev pub IsNext : Option ℤ → Type 0
IsNext none = Unit
IsNext (some next) = IsInt64 next

-- A page ID and what follows it, then the ID of the next page and what follows that.
pub next_inj :
    (n n' : Option ℤ) (a b : Bytes)
    → IsNext n
    → IsNext n'
    → encode_next n ++ a ≡ encode_next n' ++ b
    → (n ≡ n') × (a ≡ b)
unfolding encode_next
next_inj none none a b h h' e = ground arith
next_inj none (some w) a b h h' e = absurd (ground arith)
next_inj (some v) none a b h h' e = absurd (ground arith)
next_inj (some v) (some w) a b h h' e =
    let (one, more) = write_int64_inj v w a b h h' (cc) in (ap some one, more)

-- An internal page whose keys and hashes fit the bytes that its hash is taken of.
pub record IsInternalPage (page : Page) : Type 0 where
  pub keys : All IsKey page.keys
  pub children : All IsChild page.children
  pub paired : length page.children ≡ length page.keys + 1

-- A leaf whose fields fit the bytes that its hash is taken of.
pub record IsLeafPage (page : Page) : Type 0 where
  pub page_id : IsInt64 page.page_id
  pub next : IsNext page.next
  pub keys : All IsKey page.keys
  pub values : All IsValue page.values
  pub paired : length page.keys ≡ length page.values
