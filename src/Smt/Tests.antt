-- ===== src/Smt/Tests.antt =====
-- Short sequences of bits, and the theorems at them.
use bcw_zk_evm.Common.{
  ◌^◌, Bool, true, false, [], ◌∷◌, ◌++◌, Option, some, get_elem?, ◌≡◌, refl, arith,
}
use bcw_zk_evm.Smt.Bits.{
  Bits, from_u256, empty, is_empty, add, add_bit, push_bit, pop_next_bit, get_bit, common_prefix,
}
use bcw_zk_evm.Smt.Bits.Laws.{to_list, IsBits, bits, push_bit-to_list, add-to_list, get_bit-to_list}
use bcw_zk_evm.Smt.Bits.Popping.{Splits}
use bcw_zk_evm.Smt.Key.{Key, split}
use bcw_zk_evm.Smt.Key.Laws.{interleaved, split-to_list}
use bcw_zk_evm.Smt.Bits.Prefix.{common_prefix-Splits}

-- 1, 0, 1 and 1, 0, 0, 1.
abbrev three : Bits
three = bits 3 5

abbrev four : Bits
four = bits 4 9

three-IsBits : IsBits three
three-IsBits = record { counted = omega arith; fits = omega arith }

four-IsBits : IsBits four
four-IsBits = record { counted = omega arith; fits = omega arith }

push_bit-to_list_example :
    (pushed : Bits) × (push_bit three true ≡ some pushed)
    × IsBits pushed
    × (to_list pushed ≡ to_list three ++ true ∷ [])
    × (pop_next_bit pushed ≡ some (true, three))
push_bit-to_list_example = push_bit-to_list three true three-IsBits (omega arith)

add-to_list_example :
    (sum : Bits) × (add three four ≡ some sum)
    × IsBits sum
    × (to_list sum ≡ to_list three ++ to_list four)
add-to_list_example = add-to_list three four three-IsBits four-IsBits (omega arith)

get_bit-to_list_example : get_bit three 1 ≡ get_elem? (to_list three) 1
get_bit-to_list_example = get_bit-to_list three 1 (omega arith)

common_prefix-Splits_example :
    (r : Bits × Option (Bool × Bool)) × (common_prefix three four ≡ some r)
    × Splits (to_list three) (to_list four) (to_list r.0) r.1
common_prefix-Splits_example = common_prefix-Splits three four three-IsBits four-IsBits

-- They part at the third bit.
common_prefix_run : common_prefix three four ≡ some (bits 2 2, some (true, false))
unfolding common_prefix
common_prefix_run = refl

whole_word : is_empty (from_u256 5) ≡ false
unfolding is_empty from_u256
whole_word = refl

one_bit : add_bit empty true ≡ some (bits 1 1)
unfolding add_bit empty
one_bit = refl

abbrev key : Key
key = record { limb_0 = 5; limb_1 = 0; limb_2 = 2 ^ 63; limb_3 = 7 }

split-to_list_example :
    (b : Bits) × (split key ≡ some b)
    × IsBits b
    × (to_list b ≡ interleaved 64 0 key)
    × (b.count ≡ 256)
split-to_list_example = split-to_list key
