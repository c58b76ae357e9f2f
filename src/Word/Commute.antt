-- ===== src/Word/Commute.antt =====
-- The bit operators commute.
use Prim.Native.Nat.{bit_xor, differ}
use bcw_zk_evm.Common.{ℕ, zero, suc, ◌+◌, ◌/◌, ◌%◌, ◌≤◌, bit_and, bit_or, ◌≡◌, refl, arith}
use bcw_zk_evm.Word.Digits.{bit_and_step, bit_or_step}
use bcw_zk_evm.Word.Bounds.{bit_xor_step}

differ_comm : (x y : ℕ) → differ x y ≡ differ y x
differ_comm zero zero = refl
differ_comm zero (suc y) = refl
differ_comm (suc x) zero = refl
differ_comm (suc x) (suc y) = differ_comm x y

bit_and_comm_below : (n x y : ℕ) → x ≤ n → y ≤ n → bit_and x y ≡ bit_and y x
bit_and_comm_below zero zero zero h k = refl
bit_and_comm_below zero zero (suc y) h k = absurd (omega arith)
bit_and_comm_below zero (suc x) y h k = absurd (omega arith)
bit_and_comm_below (suc n) x y h k = omega (
  arith,
  bit_and_step x y,
  bit_and_step y x,
  bit_and_comm_below n (x / 2) (y / 2) (omega arith) (omega arith),
)

bit_or_comm_below : (n x y : ℕ) → x ≤ n → y ≤ n → bit_or x y ≡ bit_or y x
bit_or_comm_below zero zero zero h k = refl
bit_or_comm_below zero zero (suc y) h k = absurd (omega arith)
bit_or_comm_below zero (suc x) y h k = absurd (omega arith)
bit_or_comm_below (suc n) x y h k = omega (
  arith,
  bit_or_step x y,
  bit_or_step y x,
  bit_or_comm_below n (x / 2) (y / 2) (omega arith) (omega arith),
)

bit_xor_comm_below : (n x y : ℕ) → x ≤ n → y ≤ n → bit_xor x y ≡ bit_xor y x
bit_xor_comm_below zero zero zero h k = refl
bit_xor_comm_below zero zero (suc y) h k = absurd (omega arith)
bit_xor_comm_below zero (suc x) y h k = absurd (omega arith)
bit_xor_comm_below (suc n) x y h k = omega (
  arith,
  bit_xor_step x y,
  bit_xor_step y x,
  differ_comm (x % 2) (y % 2),
  bit_xor_comm_below n (x / 2) (y / 2) (omega arith) (omega arith),
)

pub bit_and_comm : (x y : ℕ) → bit_and x y ≡ bit_and y x
bit_and_comm x y = bit_and_comm_below (x + y) x y (omega arith) (omega arith)

pub bit_or_comm : (x y : ℕ) → bit_or x y ≡ bit_or y x
bit_or_comm x y = bit_or_comm_below (x + y) x y (omega arith) (omega arith)

pub bit_xor_comm : (x y : ℕ) → bit_xor x y ≡ bit_xor y x
bit_xor_comm x y = bit_xor_comm_below (x + y) x y (omega arith) (omega arith)
