-- ===== src/Crypto/Sample.antt =====
-- A function to 32 bytes that the tests take for SHA-256, and a few hashes.
use storage_aware_hmfaudit.Prelude.{ℕ, ◌+◌, ◌*◌, ◌%◌, ◌^◌, List, [], ◌∷◌, replicate}
use storage_aware_hmfaudit.Crypto.{Bytes, Hash, Sha256, big_endian, length-big_endian}

abbrev digest : Bytes → ℕ
digest [] = 7
digest (b ∷ bs) = (b + 257 * digest bs) % 2 ^ 32

instance abbrev pub sample_sha : Sha256
sample_sha = record {
  sum = λ b. big_endian 32 (digest b);
  size = λ b. length-big_endian 32 (digest b);
}

abbrev pub hash_of : ℕ → Hash
hash_of n = replicate 32 n

abbrev pub three_hashes : List Hash
three_hashes = hash_of 1 ∷ hash_of 2 ∷ hash_of 3 ∷ []

abbrev pub eu : Bytes
eu = b'e' ∷ b'u' ∷ []
