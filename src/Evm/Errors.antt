-- ===== src/Evm/Errors.antt =====
-- `evm_arithmetization/src/witness/errors.rs`: the errors of a program, and results.
use bcw_zk_evm.Common.{ℕ}

pub data ProverInputError : Type 0 where
  out_of_mpt_data out_of_rlp_data out_of_withdrawal_data : ProverInputError
  code_hash_not_found invalid_mpt_input invalid_input invalid_function : ProverInputError
  num_bits_error invalid_jump_destination invalid_jumpdest_simulation : ProverInputError

pub data MemoryError : Type 0 where
  context_too_large segment_too_large virt_too_large : ℕ → MemoryError

pub data ProgramError : Type 0 where
  out_of_gas invalid_opcode stack_underflow invalid_rlp invalid_jump_destination : ProgramError
  invalid_jumpi_destination stack_overflow kernel_panic : ProgramError
  memory_error : MemoryError → ProgramError
  gas_limit_error interpreter_error integer_too_large : ProgramError
  prover_input_error : ProverInputError → ProgramError
  unknown_contract_code : ProgramError

-- `Result<A, ProgramError>`
pub data Result {ℓ} (A : Type ℓ) : Type ℓ where
  ok : A → Result A
  err : ProgramError → Result A
