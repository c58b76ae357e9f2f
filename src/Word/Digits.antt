-- ===== src/Word/Digits.antt =====
-- One step of the binary recursion that `bit_and` and `bit_or` stand for, on the lowest digit.
use Prim.Native.Nat.{digits, bit_and-bitwise, bit_or-bitwise}
use bcw_zk_evm.Common.{
  ℕ, zero, suc, ◌+◌, ◌*◌, ◌/◌, ◌%◌, ◌≤◌, min, max, bit_and, bit_or, ◌≡◌, refl, ap, arith,
}

module _ (rest : ℕ → ℕ) (op : ℕ → ℕ → ℕ) where
  -- Any two counts that reach past the first number give the same digits.
  pub digits_count : (x y c d : ℕ) → x ≤ c → x ≤ d → digits rest op c x y ≡ digits rest op d x y
  digits_count zero y zero zero h k = refl
  digits_count zero y zero (suc d) h k = refl
  digits_count zero y (suc c) zero h k = refl
  digits_count zero y (suc c) (suc d) h k = refl
  digits_count (suc x) y zero d h k = absurd (omega arith)
  digits_count (suc x) y (suc c) zero h k = absurd (omega arith)
  digits_count (suc x) y (suc c) (suc d) h k =
      ap (λ r. r * 2 + op (suc x % 2) (y % 2))
        (digits_count (suc x / 2) (y / 2) c d (omega arith) (omega arith))

pub bit_or_step : (x y : ℕ) → bit_or x y ≡ bit_or (x / 2) (y / 2) * 2 + max (x % 2) (y % 2)
bit_or_step zero y = simp bit_or-bitwise (omega arith)
bit_or_step (suc x) y = simp bit_or-bitwise (
    ap (λ r. r * 2 + max (suc x % 2) (y % 2))
      (digits_count (λ b. b) max (suc x / 2) (y / 2) x (suc x / 2) (omega arith) (omega arith)))

pub bit_and_step : (x y : ℕ) → bit_and x y ≡ bit_and (x / 2) (y / 2) * 2 + min (x % 2) (y % 2)
bit_and_step zero y = simp bit_and-bitwise (omega arith)
bit_and_step (suc x) y = simp bit_and-bitwise (
    ap (λ r. r * 2 + min (suc x % 2) (y % 2))
      (digits_count (λ b. 0) min (suc x / 2) (y / 2) x (suc x / 2) (omega arith) (omega arith)))
