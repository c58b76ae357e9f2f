-- ===== src/Evm/Operation.antt =====
-- `Operation` of `evm_arithmetization/src/witness/operation.rs`, with the operators of
-- `arithmetic/mod.rs` and `logic.rs`.
use bcw_zk_evm.Common.{ℕ, Bool}

pub data BinaryOperator : Type 0 where
  add mul sub div modulo lt gt add_fp254 mul_fp254 sub_fp254 byte shl shr : BinaryOperator

pub data TernaryOperator : Type 0 where
  add_mod mul_mod sub_mod : TernaryOperator

-- `logic::Op`
pub data LogicOp : Type 0 where
  and or xor : LogicOp

pub data Operation : Type 0 where
  iszero not : Operation
  syscall : ℕ → ℕ → Bool → Operation
  eq : Operation
  binary_logic : LogicOp → Operation
  binary_arithmetic : BinaryOperator → Operation
  ternary_arithmetic : TernaryOperator → Operation
  keccak_general prover_input pop jump jumpi pc jumpdest : Operation
  push dup swap : ℕ → Operation
  get_context set_context mload32_bytes : Operation
  mstore32_bytes : ℕ → Operation
  exit_kernel mload_general mstore_general : Operation

-- `RegistersState` of `witness/state.rs`
pub record RegistersState : Type 0 where
  pub program_counter : ℕ
  pub is_kernel : Bool
  pub stack_len : ℕ
  pub stack_top : ℕ
  pub is_stack_top_read : Bool
  pub check_overflow : Bool
  pub context : ℕ
  pub gas_used : ℕ
