-- ===== src/Smt/Key.antt =====
-- `Key` of `smt_trie/src/smt.rs`: four limbs of 64 bits, each the canonical number of a field element.
pub mod Laws
pub mod Removal
use bcw_zk_evm.Common.{
  ℕ, zero, suc, ◌+◌, ◌*◌, ◌/◌, ◌%◌, ◌^◌, ◌==◌, Bool, ltb, if◌then◌else◌, Option, some, ◌>>=◌,
  bit_and,
}
use bcw_zk_evm.Smt.Bits.{Bits, empty, push_bit}

pub record Key : Type 0 where
  pub limb_0 : ℕ
  pub limb_1 : ℕ
  pub limb_2 : ℕ
  pub limb_3 : ℕ

-- `>>= n` on each limb, by its own number of bits.
unfoldable pub shift_limbs : ℕ → ℕ → ℕ → ℕ → Key → Key
shift_limbs a b c d key = record {
  limb_0 = key.limb_0 / 2 ^ a;
  limb_1 = key.limb_1 / 2 ^ b;
  limb_2 = key.limb_2 / 2 ^ c;
  limb_3 = key.limb_3 / 2 ^ d;
}

-- The body of the outer loop of `split`: the lowest bit of each limb.
unfoldable pub split_round : Key → Bits → Option Bits
unfolding push_bit
split_round key bits = push_bit bits (bit_and key.limb_0 1 == 1) >>= λ bits.
    push_bit bits (bit_and key.limb_1 1 == 1) >>= λ bits.
    push_bit bits (bit_and key.limb_2 1 == 1) >>= λ bits. push_bit bits (bit_and key.limb_3 1 == 1)

unfoldable pub split_rounds : ℕ → Key → Bits → Option Bits
unfolding split_round shift_limbs
split_rounds zero key bits = some bits
split_rounds (suc rounds) key bits =
    split_round key bits >>= split_rounds rounds (shift_limbs 1 1 1 1 key)

unfoldable pub split : Key → Option Bits
unfolding split_rounds empty
split key = split_rounds 64 key empty

-- One more for the limbs in front of the place where `nbits` stops.
unfoldable pub level_bits : ℕ → ℕ → ℕ
level_bits nbits i =
    let full_levels = nbits / 4 in
    if ltb (full_levels * 4 + i) nbits then full_levels + 1 else full_levels

unfoldable pub remove_key_bits : Key → ℕ → Key
unfolding shift_limbs level_bits
remove_key_bits key nbits =
    shift_limbs (level_bits nbits 0) (level_bits nbits 1) (level_bits nbits 2) (level_bits nbits 3)
      key
