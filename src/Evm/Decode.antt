-- ===== src/Evm/Decode.antt =====
-- `decode` of `evm_arithmetization/src/witness/transition.rs`, and `get_push_opcode` of
-- `cpu/kernel/opcodes.rs`. The source also logs a warning with an error.

pub mod Laws
use bcw_zk_evm.Common.{
  ℕ, ◌+◌, ◌-◌, bit_and, Bool, true, false, ◌&&◌, leb, ◌==◌, if◌then◌else◌, Option, some, assert,
  ◌>>◌,
}
use bcw_zk_evm.Evm.Errors.{ProgramError, Result, ok, err}
use bcw_zk_evm.Evm.Operation.{Operation, BinaryOperator, TernaryOperator, LogicOp, RegistersState}

unfoldable pub decode : RegistersState → ℕ → Result Operation
decode registers opcode =
    if opcode == 0x00
    then ok (Operation.syscall opcode 0 false)
    else if opcode == 0x01
    then ok (Operation.binary_arithmetic BinaryOperator.add)
    else if opcode == 0x02
    then ok (Operation.binary_arithmetic BinaryOperator.mul)
    else if opcode == 0x03
    then ok (Operation.binary_arithmetic BinaryOperator.sub)
    else if opcode == 0x04
    then ok (Operation.binary_arithmetic BinaryOperator.div)
    else if opcode == 0x05
    then ok (Operation.syscall opcode 2 false)
    else if opcode == 0x06
    then ok (Operation.binary_arithmetic BinaryOperator.modulo)
    else if opcode == 0x07
    then ok (Operation.syscall opcode 2 false)
    else if opcode == 0x08
    then ok (Operation.ternary_arithmetic TernaryOperator.add_mod)
    else if opcode == 0x09
    then ok (Operation.ternary_arithmetic TernaryOperator.mul_mod)
    else if opcode == 0x0a
    then ok (Operation.syscall opcode 2 false)
    else if opcode == 0x0b
    then ok (Operation.syscall opcode 2 false)
    else if (opcode == 0x0c) && registers.is_kernel
    then ok (Operation.binary_arithmetic BinaryOperator.add_fp254)
    else if (opcode == 0x0d) && registers.is_kernel
    then ok (Operation.binary_arithmetic BinaryOperator.mul_fp254)
    else if (opcode == 0x0e) && registers.is_kernel
    then ok (Operation.binary_arithmetic BinaryOperator.sub_fp254)
    else if (opcode == 0x0f) && registers.is_kernel
    then ok (Operation.ternary_arithmetic TernaryOperator.sub_mod)
    else if opcode == 0x10
    then ok (Operation.binary_arithmetic BinaryOperator.lt)
    else if opcode == 0x11
    then ok (Operation.binary_arithmetic BinaryOperator.gt)
    else if opcode == 0x12
    then ok (Operation.syscall opcode 2 false)
    else if opcode == 0x13
    then ok (Operation.syscall opcode 2 false)
    else if opcode == 0x14
    then ok Operation.eq
    else if opcode == 0x15
    then ok Operation.iszero
    else if opcode == 0x16
    then ok (Operation.binary_logic LogicOp.and)
    else if opcode == 0x17
    then ok (Operation.binary_logic LogicOp.or)
    else if opcode == 0x18
    then ok (Operation.binary_logic LogicOp.xor)
    else if opcode == 0x19
    then ok Operation.not
    else if opcode == 0x1a
    then ok (Operation.binary_arithmetic BinaryOperator.byte)
    else if opcode == 0x1b
    then ok (Operation.binary_arithmetic BinaryOperator.shl)
    else if opcode == 0x1c
    then ok (Operation.binary_arithmetic BinaryOperator.shr)
    else if opcode == 0x1d
    then ok (Operation.syscall opcode 2 false)
    else if opcode == 0x20
    then ok (Operation.syscall opcode 2 false)
    else if (opcode == 0x21) && registers.is_kernel
    then ok Operation.keccak_general
    else if opcode == 0x30
    then ok (Operation.syscall opcode 0 true)
    else if opcode == 0x31
    then ok (Operation.syscall opcode 1 false)
    else if opcode == 0x32
    then ok (Operation.syscall opcode 0 true)
    else if opcode == 0x33
    then ok (Operation.syscall opcode 0 true)
    else if opcode == 0x34
    then ok (Operation.syscall opcode 0 true)
    else if opcode == 0x35
    then ok (Operation.syscall opcode 1 false)
    else if opcode == 0x36
    then ok (Operation.syscall opcode 0 true)
    else if opcode == 0x37
    then ok (Operation.syscall opcode 3 false)
    else if opcode == 0x38
    then ok (Operation.syscall opcode 0 true)
    else if opcode == 0x39
    then ok (Operation.syscall opcode 3 false)
    else if opcode == 0x3a
    then ok (Operation.syscall opcode 0 true)
    else if opcode == 0x3b
    then ok (Operation.syscall opcode 1 false)
    else if opcode == 0x3c
    then ok (Operation.syscall opcode 4 false)
    else if opcode == 0x3d
    then ok (Operation.syscall opcode 0 true)
    else if opcode == 0x3e
    then ok (Operation.syscall opcode 3 false)
    else if opcode == 0x3f
    then ok (Operation.syscall opcode 1 false)
    else if opcode == 0x40
    then ok (Operation.syscall opcode 1 false)
    else if opcode == 0x41
    then ok (Operation.syscall opcode 0 true)
    else if opcode == 0x42
    then ok (Operation.syscall opcode 0 true)
    else if opcode == 0x43
    then ok (Operation.syscall opcode 0 true)
    else if opcode == 0x44
    then ok (Operation.syscall opcode 0 true)
    else if opcode == 0x45
    then ok (Operation.syscall opcode 0 true)
    else if opcode == 0x46
    then ok (Operation.syscall opcode 0 true)
    else if opcode == 0x47
    then ok (Operation.syscall opcode 0 true)
    else if opcode == 0x48
    then ok (Operation.syscall opcode 0 true)
    else if (opcode == 0x49) && registers.is_kernel
    then ok Operation.prover_input
    else if opcode == 0x50
    then ok Operation.pop
    else if opcode == 0x51
    then ok (Operation.syscall opcode 1 false)
    else if opcode == 0x52
    then ok (Operation.syscall opcode 2 false)
    else if opcode == 0x53
    then ok (Operation.syscall opcode 2 false)
    else if opcode == 0x54
    then ok (Operation.syscall opcode 1 false)
    else if opcode == 0x55
    then ok (Operation.syscall opcode 2 false)
    else if opcode == 0x56
    then ok Operation.jump
    else if opcode == 0x57
    then ok Operation.jumpi
    else if opcode == 0x58
    then ok Operation.pc
    else if opcode == 0x59
    then ok (Operation.syscall opcode 0 true)
    else if opcode == 0x5a
    then ok (Operation.syscall opcode 0 true)
    else if opcode == 0x5b
    then ok Operation.jumpdest
    else if leb 0x5f opcode && leb opcode 0x7f
    then ok (Operation.push (opcode - 0x5f))
    else if leb 0x80 opcode && leb opcode 0x8f
    then ok (Operation.dup (bit_and opcode 0xf))
    else if leb 0x90 opcode && leb opcode 0x9f
    then ok (Operation.swap (bit_and opcode 0xf))
    else if opcode == 0xa0
    then ok (Operation.syscall opcode 2 false)
    else if opcode == 0xa1
    then ok (Operation.syscall opcode 3 false)
    else if opcode == 0xa2
    then ok (Operation.syscall opcode 4 false)
    else if opcode == 0xa3
    then ok (Operation.syscall opcode 5 false)
    else if opcode == 0xa4
    then ok (Operation.syscall opcode 6 false)
    else if (opcode == 0xa5) && registers.is_kernel
    then err ProgramError.kernel_panic
    else if leb 0xc0 opcode && leb opcode 0xdf && registers.is_kernel
    then ok (Operation.mstore32_bytes (opcode - 0xc0 + 1))
    else if opcode == 0xf0
    then ok (Operation.syscall opcode 3 false)
    else if opcode == 0xf1
    then ok (Operation.syscall opcode 7 false)
    else if opcode == 0xf2
    then ok (Operation.syscall opcode 7 false)
    else if opcode == 0xf3
    then ok (Operation.syscall opcode 2 false)
    else if opcode == 0xf4
    then ok (Operation.syscall opcode 6 false)
    else if opcode == 0xf5
    then ok (Operation.syscall opcode 4 false)
    else if (opcode == 0xf6) && registers.is_kernel
    then ok Operation.get_context
    else if (opcode == 0xf7) && registers.is_kernel
    then ok Operation.set_context
    else if (opcode == 0xf8) && registers.is_kernel
    then ok Operation.mload32_bytes
    else if (opcode == 0xf9) && registers.is_kernel
    then ok Operation.exit_kernel
    else if opcode == 0xfa
    then ok (Operation.syscall opcode 6 false)
    else if (opcode == 0xfb) && registers.is_kernel
    then ok Operation.mload_general
    else if (opcode == 0xfc) && registers.is_kernel
    then ok Operation.mstore_general
    else if opcode == 0xfd
    then ok (Operation.syscall opcode 2 false)
    else if opcode == 0xff
    then ok (Operation.syscall opcode 1 false)
    else err ProgramError.invalid_opcode

unfoldable pub get_push_opcode : ℕ → Option ℕ
get_push_opcode n = do assert (leb n 32); some (0x5f + n)
