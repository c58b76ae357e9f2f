-- ===== src/Evm/Conversions.antt =====
-- The checked conversions of `evm_arithmetization/src/util.rs` from a `U256`. A field element is the
-- number that it is made from.
pub mod Laws
use bcw_zk_evm.Common.{ℕ, ◌/◌, ◌%◌, ◌^◌, Bool, true, false, ltb, ◌==◌, if◌then◌else◌}
use bcw_zk_evm.Word.{◌>>>◌}
use bcw_zk_evm.Evm.Errors.{ProgramError, Result, ok, err}

-- `low_u32`, and `as u32`
abbrev pub low_u32 : ℕ → ℕ
low_u32 x = x % 2 ^ 32

abbrev low_u64 : ℕ → ℕ
low_u64 x = x % 2 ^ 64

-- `try_into` at `w` bits
abbrev try_into : ℕ → ℕ → Result ℕ
try_into w x = if ltb x (2 ^ w) then ok x else err ProgramError.integer_too_large

unfoldable pub u256_to_u32 : ℕ → Result ℕ
u256_to_u32 x = if ltb x (2 ^ 32) then ok (low_u32 x) else err ProgramError.integer_too_large

unfoldable pub u256_to_u64 : ℕ → Result (ℕ × ℕ)
u256_to_u64 x =
    if ltb x (2 ^ 64)
    then ok (low_u32 (low_u64 x), low_u32 (low_u64 x >>> 32))
    else err ProgramError.integer_too_large

unfoldable pub u256_to_usize : ℕ → Result ℕ
u256_to_usize x = try_into 64 x

unfoldable pub u256_to_u8 : ℕ → Result ℕ
u256_to_u8 x = try_into 8 x

unfoldable pub u256_to_bool : ℕ → Result Bool
u256_to_bool x =
    if x == 0 then ok false else if x == 1 then ok true else err ProgramError.integer_too_large

-- The last 20 of the 32 bytes, as a number.
unfoldable pub u256_to_h160 : (ℕ → ℕ) → ℕ → Result ℕ
u256_to_h160 bits x =
    if ltb 20 (bits x / 8) then err ProgramError.integer_too_large else ok (x % 2 ^ 160)
