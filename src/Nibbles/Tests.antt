-- ===== src/Nibbles/Tests.antt =====
-- Runs of the operations of `mpt_trie/src/nibbles.rs`, and the theorems at concrete sequences.
use bcw_zk_evm.Common.{
  reverse, replicate, zero, suc, ◌<◌, ℕ, ◌+◌, ◌≡◌, refl, List, [], ◌∷◌, ◌++◌, length, take, drop,
  some, arith,
}
use bcw_zk_evm.Word.{◌<<<◌}
use bcw_zk_evm.Nibbles.{
  Nibbles, get_nibble, get_nibble_range, pop_nibbles_front, push_nibbles_back, push_nibbles_front,
}
use bcw_zk_evm.Nibbles.Whole.{
  pop_nibbles_back, reverse_loop, reverse_nibbles, split_at_idx,
  nibbles_are_identical_up_to_smallest_count,
  find_nibble_idx_that_differs_between_nibbles_different_lengths,
}
use bcw_zk_evm.Nibbles.Value.{of_list, AreNibbles}
use bcw_zk_evm.Nibbles.Access.{get_nibble_lem}
use bcw_zk_evm.Nibbles.Append.{push_nibbles_back_lem, push_nibbles_front_lem}
use bcw_zk_evm.Nibbles.Slices.{split_at-take-drop, range_middle, pop_front-take-drop}
use bcw_zk_evm.Nibbles.Reverse.{reverse_nibbles_lem, pop_nibbles_back_lem}
use bcw_zk_evm.Nibbles.Bytes.{ok, from_bytes_be, bytes_be}
use bcw_zk_evm.Nibbles.Bytes.Laws.{AreBytes, from_bytes_be-bytes_be}
use bcw_zk_evm.Nibbles.Compare.{
  agree, common, nibbles_are_identical_up_to_smallest_count_lem, find_nibble_idx_different_lem,
}

abbrev long_key : List ℕ
long_key = 1 ∷ 2 ∷ 3 ∷ 0xa ∷ []

abbrev other_key : List ℕ
other_key = 1 ∷ 2 ∷ 0xb ∷ []

long_key-AreNibbles : AreNibbles long_key
long_key-AreNibbles = (omega arith, (omega arith, (omega arith, (omega arith, tt))))

other_key-AreNibbles : AreNibbles other_key
other_key-AreNibbles = (omega arith, (omega arith, (omega arith, tt)))

reversed :
    reverse_nibbles (record { count = 4; packed = 0x123a }) ≡ record { count = 4; packed = 0xa321 }
unfolding reverse_nibbles reverse_loop ◌<<<◌
reversed = refl

get_nibble_example :
    get_nibble (of_list ((1 ∷ 2 ∷ []) ++ 3 ∷ 0xa ∷ [])) (length {A = ℕ} (1 ∷ 2 ∷ [])) ≡ some 3
get_nibble_example =
    get_nibble_lem (1 ∷ 2 ∷ []) 3 (0xa ∷ []) (omega arith, (omega arith, tt)) (omega arith)

push_nibbles_back_example :
    push_nibbles_back (of_list long_key) (of_list other_key)
    ≡ some (of_list (long_key ++ other_key))
push_nibbles_back_example =
    push_nibbles_back_lem long_key other_key long_key-AreNibbles other_key-AreNibbles (omega arith)

push_nibbles_front_example :
    push_nibbles_front (of_list other_key) (of_list long_key)
    ≡ some (of_list (long_key ++ other_key))
push_nibbles_front_example =
    push_nibbles_front_lem long_key other_key long_key-AreNibbles other_key-AreNibbles (omega arith)

abbrev forty : Nibbles
forty = record { count = 40; packed = 0x123a }

split_at_example :
    split_at_idx (of_list long_key) 3 ≡ some (of_list (take 3 long_key), of_list (drop 3 long_key))
split_at_example = split_at-take-drop 3 long_key long_key-AreNibbles (omega arith) (omega arith)

range_middle_example :
    get_nibble_range
      (of_list ((1 ∷ []) ++ long_key ++ other_key))
      (length {A = ℕ} (1 ∷ []))
      (length {A = ℕ} (1 ∷ []) + length long_key)
    ≡ some (of_list long_key)
range_middle_example =
    range_middle (1 ∷ []) long_key other_key (omega arith, tt) long_key-AreNibbles
      other_key-AreNibbles (omega arith)

pop_nibbles_front_example :
    pop_nibbles_front (of_list long_key) 2
    ≡ some (of_list (take 2 long_key), of_list (drop 2 long_key))
pop_nibbles_front_example =
    pop_front-take-drop 2 long_key long_key-AreNibbles (omega arith) (omega arith)

identical_example :
    nibbles_are_identical_up_to_smallest_count (of_list long_key) (of_list other_key)
    ≡ some (agree long_key other_key)
identical_example =
    nibbles_are_identical_up_to_smallest_count_lem long_key other_key long_key-AreNibbles
      other_key-AreNibbles (omega arith) (omega arith)

find_nibble_idx_example :
    find_nibble_idx_that_differs_between_nibbles_different_lengths
      (of_list long_key)
      (of_list other_key)
    ≡ some (common long_key other_key)
find_nibble_idx_example =
    find_nibble_idx_different_lem long_key other_key long_key-AreNibbles other_key-AreNibbles
      (omega arith) (omega arith)

reverse_nibbles_example : reverse_nibbles (of_list long_key) ≡ of_list (reverse long_key)
reverse_nibbles_example = reverse_nibbles_lem long_key long_key-AreNibbles (omega arith)

pop_nibbles_back_example :
    pop_nibbles_back (of_list (long_key ++ other_key)) (length other_key)
    ≡ some (of_list (reverse other_key), of_list long_key)
pop_nibbles_back_example =
    pop_nibbles_back_lem long_key other_key long_key-AreNibbles other_key-AreNibbles (omega arith)

abbrev some_bytes : List ℕ
some_bytes = 0x12 ∷ 0 ∷ 0xff ∷ []

some_bytes-AreBytes : AreBytes some_bytes
some_bytes-AreBytes = (omega arith, (omega arith, (omega arith, tt)))

bytes_be_example :
    (s : Nibbles) × (from_bytes_be some_bytes ≡ ok s) × (bytes_be s ≡ some some_bytes)
bytes_be_example = from_bytes_be-bytes_be some_bytes some_bytes-AreBytes (omega arith) (omega arith)

replicated-AreBytes : (n b : ℕ) → b < 256 → AreBytes (replicate n b)
replicated-AreBytes zero b h = tt
replicated-AreBytes (suc n) b h = (h, replicated-AreBytes n b h)
