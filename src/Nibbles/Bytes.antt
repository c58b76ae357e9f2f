-- ===== src/Nibbles/Bytes.antt =====
-- The conversions of `mpt_trie/src/nibbles.rs` between sequences of nibbles, bytes and words. A byte
-- is a number below 256, an `H256` the list of its bytes. `leading_zeros` is a parameter.
pub mod Laws
use bcw_zk_evm.Common.{
  ℕ, zero, suc, ◌+◌, ◌-◌, ◌*◌, ◌/◌, ◌%◌, ◌^◌, List, [], ◌∷◌, ◌++◌, length, drop, replicate, reverse,
  Bool, true, false, Option, none, some, ◌>>=◌, ◌>>◌, assert, checked_sub, ltb, ◌==◌, if◌then◌else◌,
}
use bcw_zk_evm.Nibbles.{Nibbles}

pub data BytesToNibblesError : Type 0 where
  zero_sized_key : BytesToNibblesError
  too_many_bytes : ℕ → BytesToNibblesError

-- `Result<Nibbles, BytesToNibblesError>`
pub data FromBytes : Type 0 where
  ok : Nibbles → FromBytes
  err : BytesToNibblesError → FromBytes

-- `from_big_endian` and `from_little_endian` of an unsigned integer.
unfoldable pub from_big_endian : List ℕ → ℕ
from_big_endian [] = 0
from_big_endian (b ∷ bytes) = b * 256 ^ length bytes + from_big_endian bytes

abbrev from_little_endian : List ℕ → ℕ
from_little_endian bytes = from_big_endian (reverse bytes)

-- `to_big_endian`, into a buffer of so many bytes.
unfoldable pub to_big_endian : ℕ → ℕ → List ℕ
to_big_endian zero x = []
to_big_endian (suc n) x = x / 256 ^ n % 256 ∷ to_big_endian n x

unfoldable pub from_bytes : List ℕ → (List ℕ → ℕ) → FromBytes
from_bytes bytes conv_f =
    if length bytes == 0
    then err zero_sized_key
    else if ltb 33 (length bytes)
    then err (too_many_bytes (length bytes))
    else ok (record { count = length bytes * 2; packed = conv_f bytes })

unfoldable pub from_bytes_be : List ℕ → FromBytes
from_bytes_be bytes = from_bytes bytes from_big_endian

unfoldable pub from_bytes_le : List ℕ → FromBytes
from_bytes_le bytes = from_bytes bytes from_little_endian

unfoldable pub min_bytes : Nibbles → ℕ
min_bytes s = (s.count + 1) / 2

unfoldable pub bytes_be : Nibbles → Option (List ℕ)
bytes_be s = do
  let byte_buf = to_big_endian 40 s.packed
  start ← checked_sub 40 (min_bytes s)
  some (drop start byte_buf)

unfoldable pub from_h256_common : (List ℕ → ℕ) → List ℕ → Nibbles
from_h256_common conv_f v = record { count = 64; packed = conv_f v }

unfoldable pub from_h256_be : List ℕ → Nibbles
from_h256_be v = from_h256_common from_big_endian v

unfoldable pub from_h256_le : List ℕ → Nibbles
from_h256_le v = from_h256_common from_little_endian v

-- `From<Nibbles> for H256`: the bytes are padded in front, and `from_slice` panics unless they are 32.
unfoldable pub to_h256 : Nibbles → Option (List ℕ)
to_h256 s = do
  nib_bytes ← bytes_be s
  let padded = replicate (32 - length nib_bytes) 0 ++ nib_bytes
  assert (length padded == 32)
  some padded

-- `TryInto<U256>`: the highest of the five limbs must be zero; `none` is the error of an overflow.
unfoldable pub try_into_u256 : Nibbles → Option ℕ
try_into_u256 s = if s.packed / 2 ^ 256 % 2 ^ 64 == 0 then some (s.packed % 2 ^ 256) else none

-- `to_nibbles`, of an unsigned integer of `size_bits`.
unfoldable pub to_nibbles : (ℕ → ℕ) → ℕ → ℕ → Nibbles
to_nibbles leading_zeros size_bits x = record {
  count = (size_bits - leading_zeros x + 3) / 4;
  packed = x;
}
