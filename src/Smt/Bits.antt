-- ===== src/Smt/Bits.antt =====
-- `Bits` of `smt_trie/src/bits.rs`: a sequence of at most 256 bits, packed in a word.
pub mod Laws
pub mod Popping
pub mod Prefix
use bcw_zk_evm.Common.{
  ℕ, zero, suc, ◌+◌, ◌-◌, ◌*◌, ◌/◌, ◌%◌, ◌^◌, Bool, true, false, ltb, leb, ◌==◌, ◌&&◌, not,
  if◌then◌else◌, Option, none, some, ◌>>=◌, ◌>>◌, assert, bit_and,
}

pub record Bits : Type 0 where
  pub count : ℕ
  pub packed : ℕ

-- A `U256` that an operator has computed; it panics where the result is no word of 256 bits.
unfoldable pub checked : ℕ → Option ℕ
checked x = if ltb x (2 ^ 256) then some x else none

-- `From<U256>`
unfoldable pub from_u256 : ℕ → Bits
from_u256 packed = record { count = 256; packed = packed }

-- `Add`; `1 << 256` is 0.
unfoldable pub add : Bits → Bits → Option Bits
unfolding checked
add a rhs =
    assert (leb (a.count + rhs.count) 256)
    >> (checked (a.packed * (2 ^ rhs.count % 2 ^ 256)) >>= λ high.
        checked (high + rhs.packed) >>= λ packed.
        some (record { count = a.count + rhs.count; packed = packed }))

unfoldable pub empty : Bits
empty = record { count = 0; packed = 0 }

unfoldable pub is_empty : Bits → Bool
is_empty a = a.count == 0

-- The bit, and what is left.
unfoldable pub pop_next_bit : Bits → Option (Bool × Bits)
unfolding is_empty
pop_next_bit a =
    assert (not (is_empty a))
    >> some (not (bit_and a.packed 1 == 0), record { count = a.count - 1; packed = a.packed / 2 })

unfoldable pub get_bit : Bits → ℕ → Option Bool
get_bit a i = assert (ltb i a.count) >> some (not (bit_and a.packed (2 ^ (a.count - 1 - i)) == 0))

abbrev pub bit_value : Bool → ℕ
bit_value true = 1
bit_value false = 0

unfoldable pub push_bit : Bits → Bool → Option Bits
unfolding checked
push_bit a bit = checked (a.packed * 2) >>= λ doubled.
    checked (doubled + bit_value bit) >>= λ packed.
    some (record { count = a.count + 1; packed = packed })

-- On a copy.
unfoldable pub add_bit : Bits → Bool → Option Bits
unfolding push_bit
add_bit a bit = push_bit a bit

-- The derived `==`.
unfoldable pub eq_bits : Bits → Bits → Bool
eq_bits a b = (a.count == b.count) && (a.packed == b.packed)

-- The loop that pops from `a` while it has more than `n` bits; the first number is the rounds left.
unfoldable pub shorten : ℕ → Bits → ℕ → Option Bits
unfolding pop_next_bit
shorten zero a n = none
shorten (suc rounds) a n = elim (ltb n a.count) [
  | true ↦ pop_next_bit a >>= λ popped. shorten rounds popped.1 n
  | false ↦ some a
]

-- The loop that pops from both until they are equal, with the bits popped last.
unfoldable pub pop_until_equal : ℕ → Bits → Bits → Bool → Bool → Option (Bits × Bool × Bool)
unfolding pop_next_bit eq_bits
pop_until_equal zero a b a_bit b_bit = none
pop_until_equal (suc rounds) a b a_bit b_bit = elim (eq_bits a b) [
  | true ↦ some (a, a_bit, b_bit)
  | false ↦ pop_next_bit a >>= λ x. pop_next_bit b >>= λ y. pop_until_equal rounds x.1 y.1 x.0 y.0
]

-- `assert_ne!` on bits
abbrev pub differ : Bool → Bool → Bool
differ true b = not b
differ false b = b

-- `common_prefix` once the sequences have one length.
unfoldable pub level_prefix : Bits → Bits → Option (Bits × Option (Bool × Bool))
unfolding pop_until_equal pop_next_bit eq_bits
level_prefix a b = elim (eq_bits a b) [
  | true ↦ some (a, none)
  | false ↦ pop_next_bit a >>= λ x. pop_next_bit b >>= λ y.
      pop_until_equal (a.count + 1) x.1 y.1 x.0 y.0 >>= λ r.
      (assert (differ r.1 r.2) >> some (r.0, some (r.1, r.2)))
]

unfoldable pub common_prefix : Bits → Bits → Option (Bits × Option (Bool × Bool))
unfolding shorten level_prefix
common_prefix self k = shorten (self.count + 1) self k.count >>= λ a.
    shorten (k.count + 1) k a.count >>= λ b. level_prefix a b
