-- ===== src/Evm/Arithmetic.antt =====
-- `BinaryOperator::result` and `TernaryOperator::result` of `evm_arithmetization/src/arithmetic/mod.rs`,
-- and the modular operations of `util.rs`, which pass through unbounded integers.
pub mod Laws
pub mod Bytes
use bcw_zk_evm.Common.{
  ℕ, zero, suc, ◌+◌, ◌-◌, ◌*◌, ◌/◌, ◌%◌, ◌^◌, Bool, true, false, ltb, leb, ◌==◌, if◌then◌else◌,
}
use bcw_zk_evm.Word.{◌>>>◌}
use bcw_zk_evm.Evm.Operation.{BinaryOperator, TernaryOperator}

-- `extension_tower.rs`
abbrev pub bn_base : ℕ
bn_base = 21888242871839275222246405745257275088696311157297823662689037894645226208583

unfoldable pub addmod : ℕ → ℕ → ℕ → ℕ
addmod x y m = if m == 0 then m else (x + y) % m

unfoldable pub mulmod : ℕ → ℕ → ℕ → ℕ
mulmod x y m = if m == 0 then m else x * y % m

-- The loop `while x < y { x += m }`; the first number is the steps left.
unfoldable pub raise : ℕ → ℕ → ℕ → ℕ → ℕ
raise zero x y m = x
raise (suc steps) x y m = let raised = raise steps (x + m) y m in if ltb x y then raised else x

unfoldable pub submod : ℕ → ℕ → ℕ → ℕ
submod x y m = if m == 0 then m else (raise (y / m + 1) x y m - y) % m

-- `as u8`, of a test
abbrev as_u8 : Bool → ℕ
as_u8 true = 1
as_u8 false = 0

-- `overflowing_add` and its kin wrap around at 256 bits; `<<` drops the bits that leave the word.
unfoldable pub binary_result : BinaryOperator → ℕ → ℕ → ℕ
binary_result BinaryOperator.add x y = (x + y) % 2 ^ 256
binary_result BinaryOperator.mul x y = x * y % 2 ^ 256
binary_result BinaryOperator.shl x y = if ltb x 256 then y * 2 ^ x % 2 ^ 256 else 0
binary_result BinaryOperator.sub x y = (x + 2 ^ 256 - y) % 2 ^ 256
binary_result BinaryOperator.div x y = if y == 0 then 0 else x / y
binary_result BinaryOperator.shr x y = if ltb x 256 then y >>> x else 0
binary_result BinaryOperator.modulo x y = if y == 0 then 0 else x % y
binary_result BinaryOperator.lt x y = as_u8 (ltb x y)
binary_result BinaryOperator.gt x y = as_u8 (ltb y x)
binary_result BinaryOperator.add_fp254 x y = addmod x y bn_base
binary_result BinaryOperator.mul_fp254 x y = mulmod x y bn_base
binary_result BinaryOperator.sub_fp254 x y = submod x y bn_base
binary_result BinaryOperator.byte x y = if leb 32 x then 0 else y / 2 ^ (8 * (31 - x)) % 256

unfoldable pub ternary_result : TernaryOperator → ℕ → ℕ → ℕ → ℕ
ternary_result TernaryOperator.add_mod x y m = addmod x y m
ternary_result TernaryOperator.mul_mod x y m = mulmod x y m
ternary_result TernaryOperator.sub_mod x y m = submod x y m
