-- ===== src/Crypto.antt =====
-- The hash interface, and internal/domain/hash.go with the big-endian writes of
-- internal/hmf/commitment.go and internal/all/locator_key.go. A byte slice is a list of numbers,
-- a Go string its bytes, and a [32]byte a list too.
mod Encode
unfoldable pub use Encode.*
pub mod Binding
pub mod Sample
use storage_aware_hmfaudit.Prelude.{
  ℕ, ◌≡◌, ◌≢◌, ◌++◌, [], ◌∷◌, Option, none, some, length, replicate,
}

abbrev pub Hash : Type 0
Hash = Bytes

abbrev pub IsHash : Hash → Type 0
IsHash h = length h ≡ 32

-- `[32]byte{}`
abbrev pub zero_hash : Hash
zero_hash = replicate 32 0

-- crypto/sha256, which the source calls: any function to 32 bytes.
pub record Sha256 : Type 0 where
  pub sum : Bytes → Hash
  pub size : (b : Bytes) → IsHash (sum b)

module _ ⦃sha : Sha256⦄ where
  -- Two byte strings that break the collision resistance of the hash.
  pub record Collision : Type 0 where
    pub first : Bytes
    pub second : Bytes
    pub differ : first ≢ second
    pub same : sha.sum first ≡ sha.sum second

  -- `domain.HashPair`; `right` may be nil.
  unfoldable pub hash_pair : Bytes → Hash → Option Hash → Hash
  hash_pair prefix left none = sha.sum (prefix ++ left)
  hash_pair prefix left (some right) = sha.sum ((prefix ++ left) ++ right)

  abbrev pub node_prefix : Bytes
  node_prefix = b'N' ∷ b'O' ∷ b'D' ∷ b'E' ∷ []

  -- `domain.HashPair("NODE", &left, &right)`
  abbrev pub node_hash : Hash → Hash → Hash
  node_hash left right = hash_pair node_prefix left (some right)
