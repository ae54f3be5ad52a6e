-- ===== src/Crypto/Encode.antt =====
-- encoding/binary's big-endian writes as the source uses them, and that they lose nothing.
use native.Mathlib.Nat.{pow-suc}
use storage_aware_hmfaudit.Prelude.{
  ℕ, zero, suc, ◌-◌, ◌*◌, ◌/◌, ◌%◌, ◌^◌, ◌<◌, ◌≡◌, refl, ap, List, [], ◌∷◌, ◌++◌, append_assoc,
  arith, length, length-append, append_inj, ℤ, pos, negsuc, IsInt64,
}

abbrev pub Bytes : Type 0
Bytes = List ℕ

-- The `k` low bytes of `n`, the highest first.
unfoldable pub big_endian : ℕ → ℕ → Bytes
big_endian zero n = []
big_endian (suc k) n = big_endian k (n / 256) ++ n % 256 ∷ []

-- `uint64(value)` of an int64: two's complement.
unfoldable pub to_uint64 : ℤ → ℕ
to_uint64 (pos n) = n % 2 ^ 64
to_uint64 (negsuc n) = 2 ^ 64 - 1 - n % 2 ^ 64

-- `writeCommitmentInt64`
unfoldable pub write_int64 : ℤ → Bytes
write_int64 v = big_endian 8 (to_uint64 v)

-- `writeCommitmentString`: the length as a uint32, then the bytes.
unfoldable pub write_string : Bytes → Bytes
write_string s = big_endian 4 (length s % 2 ^ 32) ++ s

pub length-big_endian : (k n : ℕ) → length (big_endian k n) ≡ k
unfolding big_endian
length-big_endian zero n = refl
length-big_endian (suc k) n =
    omega
      (arith, length-append (big_endian k (n / 256)) (n % 256 ∷ []), length-big_endian k (n / 256))

pub big_endian_inj :
    (k n m : ℕ) → n < 256 ^ k → m < 256 ^ k → big_endian k n ≡ big_endian k m → n ≡ m
unfolding big_endian
big_endian_inj zero n m hn hm e = omega arith
big_endian_inj (suc k) n m hn hm e =
    let a : n < 256 ^ k * 256 = rw pow-suc at hn in
    let b : m < 256 ^ k * 256 = rw pow-suc at hm in
    let (high, low) =
      append_inj (big_endian k (n / 256)) (big_endian k (m / 256)) (n % 256 ∷ []) (m % 256 ∷ [])
        (omega (arith, length-big_endian k (n / 256), length-big_endian k (m / 256))) e in
    let upper = big_endian_inj k (n / 256) (m / 256) (omega arith) (omega arith) high in
    let lower : n % 256 ≡ m % 256 = cc in omega arith

pub to_uint64-lt : (v : ℤ) → to_uint64 v < 256 ^ 8
unfolding to_uint64
to_uint64-lt (pos n) = omega arith
to_uint64-lt (negsuc n) = omega arith

to_uint64_inj : (v w : ℤ) → IsInt64 v → IsInt64 w → to_uint64 v ≡ to_uint64 w → v ≡ w
unfolding to_uint64
to_uint64_inj (pos n) (pos m) hv hw e = ap pos (omega arith)
to_uint64_inj (pos n) (negsuc m) hv hw e = absurd (omega arith)
to_uint64_inj (negsuc n) (pos m) hv hw e = absurd (omega arith)
to_uint64_inj (negsuc n) (negsuc m) hv hw e = ap negsuc (omega arith)

-- An int64 and what follows it are read back from the bytes.
pub write_int64_inj :
    (v w : ℤ) (a b : Bytes)
    → IsInt64 v
    → IsInt64 w
    → write_int64 v ++ a ≡ write_int64 w ++ b
    → (v ≡ w) × (a ≡ b)
unfolding write_int64
write_int64_inj v w a b hv hw e =
    let (head, rest) =
      append_inj (write_int64 v) (write_int64 w) a b
        (omega (arith, length-big_endian 8 (to_uint64 v), length-big_endian 8 (to_uint64 w))) e in
    (to_uint64_inj v w hv hw (big_endian_inj 8 _ _ (to_uint64-lt v) (to_uint64-lt w) head), rest)

-- So are a string shorter than 2^32 bytes and what follows it.
pub write_string_inj :
    (s t a b : Bytes)
    → length s < 2 ^ 32
    → length t < 2 ^ 32
    → write_string s ++ a ≡ write_string t ++ b
    → (s ≡ t) × (a ≡ b)
unfolding write_string
write_string_inj s t a b hs ht e =
    let (head, rest) =
      append_inj (big_endian 4 (length s % 2 ^ 32)) (big_endian 4 (length t % 2 ^ 32)) (s ++ a)
        (t ++ b)
        (omega
          (arith, length-big_endian 4 (length s % 2 ^ 32), length-big_endian 4 (length t % 2 ^ 32)))
        (rw (← append_assoc (big_endian 4 (length s % 2 ^ 32)) s a)
          (rw (← append_assoc (big_endian 4 (length t % 2 ^ 32)) t b) e)) in
    let same =
      big_endian_inj 4 (length s % 2 ^ 32) (length t % 2 ^ 32) (omega arith) (omega arith) head in
    append_inj s t a b (omega arith) rest
