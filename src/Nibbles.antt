-- ===== src/Nibbles.antt =====
-- `mpt_trie/src/nibbles.rs`: `Nibbles`, the key type of the tries, and its operations up to
-- splitting. A panic is `none`; the arithmetic of `usize` panics where it would underflow.
pub mod Whole
pub mod Value
pub mod Slices
pub mod Compare
pub mod Equal
pub mod ToList
pub mod Append
pub mod Split
pub mod Access
pub mod Fields
pub mod Reverse
pub mod Bytes
mod Tests
use bcw_zk_evm.Common.{
  ℕ, zero, suc, ◌+◌, ◌-◌, ◌*◌, ◌/◌, ◌≤◌, min, bit_and, bit_or, Bool, true, false, Option, some,
  none, ◌>>=◌, ◌>>◌, assert, checked_sub, leb, ltb, ◌==◌, if◌then◌else◌,
}
use bcw_zk_evm.Word.{◌<<<◌, ◌>>>◌, word_not, byte}

-- Only the low `4 * count` bits of `packed` are used.
pub record Nibbles : Type 0 where
  pub count : ℕ
  pub packed : ℕ

-- `Nibbles::default()`
unfoldable pub empty : Nibbles
empty = record { count = 0; packed = 0 }

unfoldable pub is_even : ℕ → Bool
is_even n = bit_and n 1 == 0

unfoldable pub create_mask_of_1s : ℕ → Option ℕ
create_mask_of_1s amt = checked_sub (1 <<< amt) 1

unfoldable pub from_nibble : ℕ → Option Nibbles
from_nibble n = do assert (leb n 15); some (record { count = 1; packed = n })

unfoldable pub get_nibble : Nibbles → ℕ → Option ℕ
get_nibble s idx = do
  after ← checked_sub s.count idx
  nib_idx ← checked_sub after 1
  b ← byte s.packed (nib_idx / 2)
  some (if is_even nib_idx then bit_and b 0x0f else bit_and b 0xf0 >>> 4)

unfoldable pub get_min_truncate_amount_to_prevent_over_truncating : Nibbles → ℕ → ℕ
get_min_truncate_amount_to_prevent_over_truncating s n = if leb n s.count then n else s.count

unfoldable pub truncate_n_nibbles_front_mut : Nibbles → ℕ → Option Nibbles
truncate_n_nibbles_front_mut s amount = do
  let n = get_min_truncate_amount_to_prevent_over_truncating s amount
  kept ← checked_sub s.count n
  mask ← create_mask_of_1s (n * 4)
  some (record { count = kept; packed = bit_and s.packed (word_not (mask <<< (kept * 4))) })

unfoldable pub truncate_n_nibbles_back_mut : Nibbles → ℕ → Option Nibbles
truncate_n_nibbles_back_mut s amount = do
  let n = get_min_truncate_amount_to_prevent_over_truncating s amount
  mask ← create_mask_of_1s (n * 4)
  kept ← checked_sub s.count n
  some (record { count = kept; packed = bit_and s.packed (word_not mask) >>> (n * 4) })

-- The forms that copy `self` and truncate the copy.
abbrev pub truncate_n_nibbles_front : Nibbles → ℕ → Option Nibbles
truncate_n_nibbles_front s n = truncate_n_nibbles_front_mut s n

abbrev pub truncate_n_nibbles_back : Nibbles → ℕ → Option Nibbles
truncate_n_nibbles_back s n = truncate_n_nibbles_back_mut s n

unfoldable pub get_nibble_range : Nibbles → ℕ → ℕ → Option Nibbles
get_nibble_range s start end = do
  range_count ← checked_sub end start
  after ← checked_sub s.count end
  mask ← create_mask_of_1s (range_count * 4)
  let shift_amt = after * 4
  some
      (record { count = range_count; packed = bit_and s.packed (mask <<< shift_amt) >>> shift_amt })

unfoldable pub pop_next_nibble_front : Nibbles → Option (ℕ × Nibbles)
pop_next_nibble_front s = do n ← get_nibble s 0; s' ← truncate_n_nibbles_front_mut s 1; some (n, s')

unfoldable pub pop_next_nibble_back : Nibbles → Option (ℕ × Nibbles)
pop_next_nibble_back s = do
  last ← checked_sub s.count 1
  n ← get_nibble s last
  s' ← truncate_n_nibbles_back_mut s 1
  some (n, s')

unfoldable pub get_next_nibbles : Nibbles → ℕ → Option Nibbles
get_next_nibbles s n = get_nibble_range s 0 n

unfoldable pub pop_nibbles_front : Nibbles → ℕ → Option (Nibbles × Nibbles)
pop_nibbles_front s n = do
  r ← get_nibble_range s 0 n
  s' ← truncate_n_nibbles_front_mut s n
  some (r, s')

-- The assertions before a nibble, or a sequence, is appended.
unfoldable pub nibble_append_safety_asserts : Nibbles → ℕ → Option (Unit {0})
nibble_append_safety_asserts s n = do assert (ltb s.count 64); assert (ltb n 16)

unfoldable pub nibbles_append_safety_asserts : ℕ → Option (Unit {0})
nibbles_append_safety_asserts new_count = assert (leb new_count 64)

unfoldable pub push_nibble_front : Nibbles → ℕ → Option Nibbles
push_nibble_front s n = do
  nibble_append_safety_asserts s n
  let shift_amt = 4 * s.count
  some (record { count = s.count + 1; packed = bit_or s.packed (n <<< shift_amt) })

unfoldable pub push_nibble_back : Nibbles → ℕ → Option Nibbles
push_nibble_back s n = do
  nibble_append_safety_asserts s n
  some (record { count = s.count + 1; packed = bit_or (s.packed <<< 4) n })

unfoldable pub push_nibbles_front : Nibbles → Nibbles → Option Nibbles
push_nibbles_front s n = do
  let new_count = s.count + n.count
  nibbles_append_safety_asserts new_count
  let shift_amt = 4 * s.count
  some (record { count = new_count; packed = bit_or s.packed (n.packed <<< shift_amt) })

unfoldable pub push_nibbles_back : Nibbles → Nibbles → Option Nibbles
push_nibbles_back s n = do
  let new_count = s.count + n.count
  nibbles_append_safety_asserts new_count
  let shift_amt = 4 * n.count
  some (record { count = new_count; packed = bit_or (s.packed <<< shift_amt) n.packed })

unfoldable pub is_empty : Nibbles → Bool
is_empty s = s.count == 0

-- `self` is the prefix.
unfoldable pub merge_nibble : Nibbles → ℕ → Option Nibbles
merge_nibble s post = do
  nibble_append_safety_asserts s post
  some (record { count = s.count + 1; packed = bit_or (s.packed <<< 4) post })

unfoldable pub merge_nibbles : Nibbles → Nibbles → Option Nibbles
merge_nibbles s post = do
  let new_count = s.count + post.count
  assert (leb new_count 64)
  some (record { count = new_count; packed = bit_or (s.packed <<< (post.count * 4)) post.packed })
