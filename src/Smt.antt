-- ===== src/Smt.antt =====
-- `smt_trie`: the sparse Merkle trie.
pub mod Bits
pub mod Key
pub mod Tests
