-- ===== src/Word/Bounds.antt =====
-- The bit operators stay within any width that holds their operands.
use Prim.Native.Nat.{bit_xor, bit_xor-bitwise, differ}
use native.Mathlib.Nat.{pow-suc}
use bcw_zk_evm.Common.{
  ℕ, zero, suc, ◌+◌, ◌*◌, ◌/◌, ◌%◌, ◌^◌, ◌<◌, min, max, bit_and, bit_or, ◌≡◌, ap, arith,
}
use bcw_zk_evm.Word.Digits.{bit_and_step, bit_or_step, digits_count}

pub bit_xor_step : (x y : ℕ) → bit_xor x y ≡ bit_xor (x / 2) (y / 2) * 2 + differ (x % 2) (y % 2)
bit_xor_step zero y = simp bit_xor-bitwise (omega arith)
bit_xor_step (suc x) y = simp bit_xor-bitwise (
    ap (λ r. r * 2 + differ (suc x % 2) (y % 2))
      (digits_count (λ b. b) differ (suc x / 2) (y / 2) x (suc x / 2) (omega arith) (omega arith)))

differ_below : (x y : ℕ) → x < 2 → y < 2 → differ x y < 2
differ_below zero y h k = k
differ_below (suc x) zero h k = h
differ_below (suc x) (suc y) h k = differ_below x y (omega arith) (omega arith)

-- One more digit, below the others.
module _ (w x : ℕ) where
  half_below : x < 2 ^ suc w → x / 2 < 2 ^ w
  half_below h = omega (arith, pow-suc 2 w)

module _ (w r d : ℕ) where
  digit_below : r < 2 ^ w → d < 2 → r * 2 + d < 2 ^ suc w
  digit_below h k = omega (arith, pow-suc 2 w)

pub bit_and_below : (w x y : ℕ) → x < 2 ^ w → y < 2 ^ w → bit_and x y < 2 ^ w
bit_and_below zero zero zero h k = omega arith
bit_and_below zero zero (suc y) h k = absurd (omega arith)
bit_and_below zero (suc x) y h k = absurd (omega arith)
bit_and_below (suc w) x y h k = rw (bit_and_step x y) (
    digit_below w (bit_and (x / 2) (y / 2)) (min (x % 2) (y % 2))
      (bit_and_below w (x / 2) (y / 2) (half_below w x h) (half_below w y k)) (omega arith))

pub bit_or_below : (w x y : ℕ) → x < 2 ^ w → y < 2 ^ w → bit_or x y < 2 ^ w
bit_or_below zero zero zero h k = omega arith
bit_or_below zero zero (suc y) h k = absurd (omega arith)
bit_or_below zero (suc x) y h k = absurd (omega arith)
bit_or_below (suc w) x y h k = rw (bit_or_step x y) (
    digit_below w (bit_or (x / 2) (y / 2)) (max (x % 2) (y % 2))
      (bit_or_below w (x / 2) (y / 2) (half_below w x h) (half_below w y k)) (omega arith))

pub bit_xor_below : (w x y : ℕ) → x < 2 ^ w → y < 2 ^ w → bit_xor x y < 2 ^ w
bit_xor_below zero zero zero h k = omega arith
bit_xor_below zero zero (suc y) h k = absurd (omega arith)
bit_xor_below zero (suc x) y h k = absurd (omega arith)
bit_xor_below (suc w) x y h k = rw (bit_xor_step x y) (
    digit_below w (bit_xor (x / 2) (y / 2)) (differ (x % 2) (y % 2))
      (bit_xor_below w (x / 2) (y / 2) (half_below w x h) (half_below w y k))
      (differ_below (x % 2) (y % 2) (omega arith) (omega arith)))
