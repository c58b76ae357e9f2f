-- ===== src/Evm/Gas.antt =====
-- `evm_arithmetization/src/witness/gas.rs`: the gas that an operation is charged.
use bcw_zk_evm.Common.{ℕ, zero, suc}
use bcw_zk_evm.Evm.Operation.{Operation, BinaryOperator, TernaryOperator}

abbrev pub kernel_only_instr : ℕ
kernel_only_instr = 0

abbrev g_jumpdest : ℕ
g_jumpdest = 1

abbrev g_base : ℕ
g_base = 2

abbrev g_verylow : ℕ
g_verylow = 3

abbrev g_low : ℕ
g_low = 5

abbrev g_mid : ℕ
g_mid = 8

abbrev g_high : ℕ
g_high = 10

unfoldable pub gas_to_charge : Operation → ℕ
gas_to_charge Operation.iszero = g_verylow
gas_to_charge Operation.not = g_verylow
gas_to_charge (Operation.syscall n k b) = kernel_only_instr
gas_to_charge Operation.eq = g_verylow
gas_to_charge (Operation.binary_logic o) = g_verylow
gas_to_charge (Operation.binary_arithmetic BinaryOperator.add) = g_verylow
gas_to_charge (Operation.binary_arithmetic BinaryOperator.mul) = g_low
gas_to_charge (Operation.binary_arithmetic BinaryOperator.sub) = g_verylow
gas_to_charge (Operation.binary_arithmetic BinaryOperator.div) = g_low
gas_to_charge (Operation.binary_arithmetic BinaryOperator.modulo) = g_low
gas_to_charge (Operation.binary_arithmetic BinaryOperator.lt) = g_verylow
gas_to_charge (Operation.binary_arithmetic BinaryOperator.gt) = g_verylow
gas_to_charge (Operation.binary_arithmetic BinaryOperator.byte) = g_verylow
gas_to_charge (Operation.binary_arithmetic BinaryOperator.shl) = g_verylow
gas_to_charge (Operation.binary_arithmetic BinaryOperator.shr) = g_verylow
gas_to_charge (Operation.binary_arithmetic BinaryOperator.add_fp254) = kernel_only_instr
gas_to_charge (Operation.binary_arithmetic BinaryOperator.mul_fp254) = kernel_only_instr
gas_to_charge (Operation.binary_arithmetic BinaryOperator.sub_fp254) = kernel_only_instr
gas_to_charge (Operation.ternary_arithmetic TernaryOperator.add_mod) = g_mid
gas_to_charge (Operation.ternary_arithmetic TernaryOperator.mul_mod) = g_mid
gas_to_charge (Operation.ternary_arithmetic TernaryOperator.sub_mod) = kernel_only_instr
gas_to_charge Operation.keccak_general = kernel_only_instr
gas_to_charge Operation.prover_input = kernel_only_instr
gas_to_charge Operation.pop = g_base
gas_to_charge Operation.jump = g_mid
gas_to_charge Operation.jumpi = g_high
gas_to_charge Operation.pc = g_base
gas_to_charge Operation.jumpdest = g_jumpdest
gas_to_charge (Operation.push zero) = g_base
gas_to_charge (Operation.push (suc n)) = g_verylow
gas_to_charge (Operation.dup n) = g_verylow
gas_to_charge (Operation.swap n) = g_verylow
gas_to_charge Operation.get_context = kernel_only_instr
gas_to_charge Operation.set_context = kernel_only_instr
gas_to_charge Operation.mload32_bytes = kernel_only_instr
gas_to_charge (Operation.mstore32_bytes n) = kernel_only_instr
gas_to_charge Operation.exit_kernel = kernel_only_instr
gas_to_charge Operation.mload_general = kernel_only_instr
gas_to_charge Operation.mstore_general = kernel_only_instr
