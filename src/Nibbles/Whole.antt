-- ===== src/Nibbles/Whole.antt =====
-- `mpt_trie/src/nibbles.rs`: the operations of `Nibbles` that split, compare or reverse whole
-- sequences.
use bcw_zk_evm.Common.{
  ℕ, zero, suc, ◌+◌, ◌-◌, ◌*◌, min, bit_and, bit_or, Bool, true, false, Option, some, ◌>>=◌, ◌>>◌,
  assert, checked_sub, ◌==◌, if◌then◌else◌,
}
use bcw_zk_evm.Word.{◌<<<◌, ◌>>>◌, word_not}
use bcw_zk_evm.Nibbles.{
  Nibbles, create_mask_of_1s, get_nibble, get_nibble_range, truncate_n_nibbles_back_mut,
}

-- The rounds left, and the index of the nibbles compared next.
unfoldable pub identical_from : Nibbles → Nibbles → ℕ → ℕ → Option Bool
identical_from s other zero i = some true
identical_from s other (suc left) i = do
  a ← get_nibble s i
  b ← get_nibble other i
  if a == b then identical_from s other left (i + 1) else some false

unfoldable pub nibbles_are_identical_up_to_smallest_count : Nibbles → Nibbles → Option Bool
nibbles_are_identical_up_to_smallest_count s other =
    identical_from s other (min s.count other.count) 0

unfoldable pub split_at_idx : Nibbles → ℕ → Option (Nibbles × Nibbles)
split_at_idx s idx = do
  post_count ← checked_sub s.count idx
  post_mask ← create_mask_of_1s (post_count * 4)
  some (
    record { count = idx; packed = bit_and s.packed (word_not post_mask) >>> (post_count * 4) },
    record { count = post_count; packed = bit_and s.packed post_mask },
  )

unfoldable pub split_at_idx_prefix : Nibbles → ℕ → Option Nibbles
split_at_idx_prefix s idx = do
  after ← checked_sub s.count idx
  ones ← create_mask_of_1s (idx * 4)
  let shift_amt = after * 4
  some (record { count = idx; packed = bit_and s.packed (ones <<< shift_amt) >>> shift_amt })

unfoldable pub split_at_idx_postfix : Nibbles → ℕ → Option Nibbles
split_at_idx_postfix s idx = do
  postfix_count ← checked_sub s.count idx
  mask ← create_mask_of_1s (postfix_count * 4)
  some (record { count = postfix_count; packed = bit_and s.packed mask })

-- The loop of `reverse`, with the rounds left, `i`, `mask` and `reversed_packed`.
unfoldable pub reverse_loop : ℕ → ℕ → ℕ → ℕ → ℕ → ℕ
reverse_loop packed zero i mask reversed = reversed
reverse_loop packed (suc left) i mask reversed =
    let nib = bit_and packed mask >>> (i * 4) in
    reverse_loop packed left (i + 1) (mask <<< 4) (bit_or (reversed <<< 4) nib)

unfoldable pub reverse_nibbles : Nibbles → Nibbles
reverse_nibbles s = record { count = s.count; packed = reverse_loop s.packed s.count 0 0xf 0 }

unfoldable pub pop_nibbles_back : Nibbles → ℕ → Option (Nibbles × Nibbles)
pop_nibbles_back s n = do
  start ← checked_sub s.count n
  r ← get_nibble_range s start s.count
  s' ← truncate_n_nibbles_back_mut s n
  some (reverse_nibbles r, s')

-- The loop over `i`, with the rounds left and `curr_mask`; the last clause is the `n1.count`
-- after the loop.
unfoldable pub find_loop : ℕ → ℕ → ℕ → ℕ → ℕ → ℕ
find_loop p1 p2 zero i curr_mask = i
find_loop p1 p2 (suc left) i curr_mask =
    if bit_and p1 curr_mask == bit_and p2 curr_mask
    then find_loop p1 p2 left (i + 1) (curr_mask >>> 4)
    else i

unfoldable pub find_nibble_idx_that_differs_between_nibbles_equal_lengths :
    Nibbles → Nibbles → Option ℕ
find_nibble_idx_that_differs_between_nibbles_equal_lengths n1 n2 = do
  assert (n1.count == n2.count)
  if n1.count == 0
      then some n1.count
      else some (find_loop n1.packed n2.packed n1.count 0 (0xf <<< ((n1.count - 1) * 4)))

unfoldable pub find_nibble_idx_that_differs_between_nibbles_different_lengths :
    Nibbles → Nibbles → Option ℕ
find_nibble_idx_that_differs_between_nibbles_different_lengths n1 n2 = do
  let min_count = min n1.count n2.count
  a ← get_nibble_range n1 0 min_count
  b ← get_nibble_range n2 0 min_count
  find_nibble_idx_that_differs_between_nibbles_equal_lengths a b
