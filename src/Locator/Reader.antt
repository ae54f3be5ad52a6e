-- ===== src/Locator/Reader.antt =====
-- Reading from a bytes.Reader: the helpers of internal/all/page_codec.go over encoding/binary and io.
-- A reader is the bytes that are left.
use native.Mathlib.Nat.{pow-suc}
use storage_aware_hmfaudit.Prelude.{
  not, true, false, ℕ, zero, suc, ◌+◌, ◌-◌, ◌*◌, ◌/◌, ◌%◌, ◌^◌, ◌<◌, ◌≡◌, refl, [], ◌∷◌, ◌++◌,
  append_assoc, arith, length, length-append, Result, ok, err, ℤ, pos, negsuc, IsInt64, ltb,
  if◌then◌else◌, Bool, ◌∙◌,
}
use storage_aware_hmfaudit.Crypto.{
  Bytes, big_endian, write_int64, write_string, length-big_endian, to_uint64, to_uint64-lt,
}

-- What stops the decoding of a page.
pub data CodecError : Type 0 where
  unexpected_eof keys_and_values_differ keys_and_children_differ key_count value_count child_count
        trailing_page trailing_key trailing_value hash_size hash_mismatch leaf_panic :
      CodecError
  unsupported_version invalid_page_type invalid_presence : ℕ → CodecError

abbrev pub Reader : Type 0 → Type 0
Reader A = Bytes → Result CodecError (A × Bytes)

abbrev continue_with :
    {A B : Type 0} → Result CodecError (A × Bytes) → (A → Reader B) → Result CodecError (B × Bytes)
continue_with (ok (a, rest)) next = next a rest
continue_with (err e) next = err e

infixl 5 ◌>>=◌ ◌>>◌
unfoldable pub ◌>>=◌ : {A B : Type 0} → Reader A → (A → Reader B) → Reader B
◌>>=◌ first next input = continue_with (first input) next

abbrev pub ◌>>◌ : {B : Type 0} → Reader (Unit {0}) → Reader B → Reader B
first >> next = first >>= λ _. next

abbrev pub pure : {A : Type 0} → A → Reader A
pure a input = ok (a, input)

abbrev pub fail : {A : Type 0} → CodecError → Reader A
fail e input = err e

-- `if !condition { return error }`
abbrev pub check : Bool → CodecError → Reader (Unit {0})
check c e = if c then pure tt else fail e

-- `reader.Len()`
abbrev pub remaining : Reader ℕ
remaining input = ok (length input, input)

unfoldable pub read_byte : Reader ℕ
read_byte [] = err unexpected_eof
read_byte (b ∷ rest) = ok (b, rest)

abbrev prepend : ℕ → Result CodecError (Bytes × Bytes) → Result CodecError (Bytes × Bytes)
prepend b (ok (bs, rest)) = ok (b ∷ bs, rest)
prepend b (err e) = err e

-- `io.ReadFull` of `n` bytes
unfoldable pub read_full : ℕ → Reader Bytes
read_full zero input = ok ([], input)
read_full (suc n) [] = err unexpected_eof
read_full (suc n) (b ∷ input) = prepend b (read_full n input)

-- The number that the bytes after `n` complete.
unfoldable pub from_big_endian : ℕ → Bytes → ℕ
from_big_endian n [] = n
from_big_endian n (b ∷ bs) = from_big_endian (n * 256 + b) bs

-- `int64(value)` of a uint64
unfoldable pub to_int64 : ℕ → ℤ
to_int64 n = if ltb n (2 ^ 63) then pos n else negsuc (2 ^ 64 - 1 - n)

unfoldable pub read_uint32 : Reader ℕ
read_uint32 = read_full 4 >>= λ bytes. pure (from_big_endian 0 bytes)

unfoldable pub read_int64 : Reader ℤ
read_int64 = read_full 8 >>= λ bytes. pure (to_int64 (from_big_endian 0 bytes))

unfoldable pub read_bytes : Reader Bytes
read_bytes = do
  length_read ← read_uint32
  left ← remaining
  check (not (ltb left length_read)) unexpected_eof
  read_full length_read

-- A Go string is its bytes.
abbrev pub read_string : Reader Bytes
read_string = read_bytes

-- The reader takes exactly these bytes, whatever follows them, and gives `a`.
abbrev pub Reads : {A : Type 0} → Reader A → Bytes → A → Type 0
Reads reader bytes a = (rest : Bytes) → reader (bytes ++ rest) ≡ ok (a, rest)

pub Reads-bind :
    {A B : Type 0} (first : Reader A) (next : A → Reader B) (x y : Bytes) (a : A) (b : B)
    → Reads first x a
    → Reads (next a) y b
    → Reads (first >>= next) (x ++ y) b
unfolding ◌>>=◌
Reads-bind first next x y a b h k rest = rw (append_assoc x y rest, h (y ++ rest)) (k rest)

-- The last call of a sequence, whose value is put into the result.
pub Reads-pure :
    {A B : Type 0} (first : Reader A) (f : A → B) (x : Bytes) (a : A)
    → Reads first x a
    → Reads (first >>= λ v. pure (f v)) x (f a)
unfolding ◌>>=◌
Reads-pure first f x a h rest = rw (h rest) refl

-- A condition that holds leaves the reader as it is.
pub check-passes :
    {B : Type 0} (c : Bool) (e : CodecError) (next : Reader B) (input : Bytes)
    → c ≡ true
    → (check c e >> next) input ≡ next input
unfolding ◌>>=◌
check-passes true e next input h = refl
check-passes false e next input h = cc

pub read_full-Reads : (k : ℕ) (bytes : Bytes) → length bytes ≡ k → Reads (read_full k) bytes bytes
unfolding read_full
read_full-Reads zero [] n rest = refl
read_full-Reads zero (b ∷ bytes) n rest = absurd (omega arith)
read_full-Reads (suc k) [] n rest = absurd (omega arith)
read_full-Reads (suc k) (b ∷ bytes) n rest = rw (read_full-Reads k bytes (omega arith) rest) refl

from_big_endian-append :
    (n b : ℕ) (bytes : Bytes)
    → from_big_endian n (bytes ++ b ∷ []) ≡ from_big_endian n bytes * 256 + b
unfolding from_big_endian
from_big_endian-append n b [] = refl
from_big_endian-append n b (c ∷ bytes) = from_big_endian-append (n * 256 + c) b bytes

pub from_big_endian_lem : (k n : ℕ) → n < 256 ^ k → from_big_endian 0 (big_endian k n) ≡ n
unfolding big_endian from_big_endian
from_big_endian_lem zero n h = omega arith
from_big_endian_lem (suc k) n h =
    let bound : n < 256 ^ k * 256 = rw pow-suc at h in
    let high = from_big_endian_lem k (n / 256) (omega arith) in
    omega (arith, from_big_endian-append 0 (n % 256) (big_endian k (n / 256)))

pub to_int64-to_uint64 : (v : ℤ) → IsInt64 v → to_int64 (to_uint64 v) ≡ v
unfolding to_int64 to_uint64
to_int64-to_uint64 (pos n) h = ground arith
to_int64-to_uint64 (negsuc n) h = ground arith

pub read_uint32-Reads : (n : ℕ) → n < 2 ^ 32 → Reads read_uint32 (big_endian 4 n) n
unfolding read_uint32 ◌>>=◌
read_uint32-Reads n h rest =
    rw (read_full-Reads 4 (big_endian 4 n) (length-big_endian 4 n) rest, from_big_endian_lem 4 n h)
      refl

pub read_int64-Reads : (v : ℤ) → IsInt64 v → Reads read_int64 (write_int64 v) v
unfolding read_int64 ◌>>=◌ write_int64
read_int64-Reads v h rest =
    rw
      (
        read_full-Reads 8 (big_endian 8 (to_uint64 v)) (length-big_endian 8 (to_uint64 v)) rest,
        from_big_endian_lem 8 (to_uint64 v) (to_uint64-lt v),
        to_int64-to_uint64 v h,
      )
      refl

pub read_bytes-Reads : (s : Bytes) → length s < 2 ^ 32 → Reads read_bytes (write_string s) s
unfolding read_bytes ◌>>=◌ write_string
read_bytes-Reads s h rest =
    rw
      (
        append_assoc (big_endian 4 (length s % 2 ^ 32)) s rest,
        read_uint32-Reads (length s % 2 ^ 32) (omega arith) (s ++ rest),
      )
      (check-passes _ unexpected_eof (read_full (length s % 2 ^ 32)) (s ++ rest)
          (ground (arith, length-append s rest))
        ∙ read_full-Reads (length s % 2 ^ 32) s (omega arith) rest)
