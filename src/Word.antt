-- ===== src/Word.antt =====
-- Fixed-width unsigned words as natural numbers: the operators that `mpt_trie/src/nibbles.rs`
-- applies to `NibblesIntern`, an unsigned integer of five 64-bit limbs.
pub mod Digits
pub mod Mask
pub mod Bounds
pub mod Commute
use bcw_zk_evm.Common.{
  ℕ, ◌-◌, ◌*◌, ◌/◌, ◌%◌, ◌^◌, Option, checked_sub, leb, if◌then◌else◌, some, none, ltb,
}

-- The number of values of a `NibblesIntern`: 2 to the 320.
unfoldable pub word_mod : ℕ
word_mod = 2 ^ 320

-- `<<` drops the bits that leave the word.
infixl 75 ◌<<<◌ ◌>>>◌
unfoldable pub ◌<<<◌ : ℕ → ℕ → ℕ
unfolding word_mod
x <<< k = (x * 2 ^ k) % word_mod

abbrev pub ◌>>>◌ : ℕ → ℕ → ℕ
x >>> k = x / 2 ^ k

-- `!`
unfoldable pub word_not : ℕ → ℕ
unfolding word_mod
word_not x = word_mod - 1 - x

-- `byte(i)`, which panics beyond the 40 bytes.
unfoldable pub byte : ℕ → ℕ → Option ℕ
byte x i = if ltb i 40 then some (x / 2 ^ (8 * i) % 256) else none
