-- ===== src/Evm.antt =====
-- `evm_arithmetization/src`: parts of the zkEVM's witness generation, and the types that they share.
-- A `U256` is a natural number below 2 to the 256; its `bits()` is a parameter.
pub mod Segments
pub mod Errors
pub mod Operation
pub mod Decode
pub mod Gas
pub mod Memory
pub mod Conversions
pub mod Arithmetic
mod Tests
