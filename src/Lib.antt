-- ===== src/Lib.antt =====
-- Verification of the Merkle Patricia tries, of parts of the zkEVM's witness generation, and of the
-- optimizer and assembler of its kernel.
--
-- The program. `mpt_trie` holds the tries of accounts, storage, transactions and receipts: a key is a
-- packed sequence of nibbles (`mpt_trie/src/nibbles.rs`), and a partial trie is a tree of branches,
-- extensions, leaves and hashes of parts that are left out (`mpt_trie/src/partial_trie.rs`,
-- `mpt_trie/src/trie_ops.rs`). `evm_arithmetization` executes a transaction in a kernel and records a
-- trace: it decodes opcodes, charges gas, computes on 256-bit words and keeps a memory of contexts and
-- segments (`evm_arithmetization/src/witness`, `evm_arithmetization/src/memory`,
-- `evm_arithmetization/src/arithmetic`). The kernel is assembly code, which is expanded, optimized
-- and assembled to bytes (`evm_arithmetization/src/cpu/kernel`); the processor decodes those bytes.
-- `smt_trie` holds sparse tries, whose keys are sequences of bits.
--
-- The files.
--   Common: tests, lists on native numbers, and computations that may panic; `none` is a panic.
--   Word: `NibblesIntern`, an unsigned integer of 320 bits, as a number: `<<` drops the bits that leave
--     the word, `-` panics below zero, `byte` panics beyond byte 39. Word/Digits and Word/Mask relate
--     the bit operators to quotients and remainders.
--   Nibbles, Nibbles/Whole: the operations of `Nibbles` in `mpt_trie/src/nibbles.rs`, by their names.
--     An operation that takes `&mut self` returns the new sequence with its result. A nibble, `u8` in
--     the source, is a number; `usize` subtraction panics where it would underflow. The other files in
--     Nibbles relate a sequence to the list of its nibbles: Value (the packed number), Fields, Split,
--     Slices, Access, Append, Compare, Equal, Reverse, ToList. Nibbles/Bytes: the conversions of the same
--     source file between nibbles, bytes, `H256` and `U256`.
--   Trie: the nodes and the errors. Trie/Place, Trie/Ops and Trie/Delete: the functions of
--     `mpt_trie/src/trie_ops.rs`, by their names; the match arms of `insert_into_trie_rec` that split a
--     leaf or an extension are split_leaf and split_extension, and the descents into a child are
--     insert_into_child, get_in_child and delete_in_child; update_branch is what `delete_intern` makes
--     of a branch. Outcome is a `TrieOpResult` or a panic. Trie/Spec is the same
--     algorithm on lists of nibbles; Trie/Spec/Refines shows that the packed one follows it, and
--     Trie/Spec/Reads and Trie/Spec/Plain what it does to a finite map. Trie/Shape says which tries
--     have keys of one length; Trie/Correct and Trie/Extend put these together.
--   Evm/Segments: `evm_arithmetization/src/memory/segments.rs`.
--   Evm/Memory: `evm_arithmetization/src/witness/memory.rs`; its children show that the state is a
--     finite map from addresses (Cells, Fits, Contexts, State) and treat addresses and time stamps
--     (Address).
--   Evm/Errors, Evm/Operation, Evm/Decode, Evm/Gas: `errors.rs`, `operation.rs`, `transition.rs` and
--     `gas.rs` of `evm_arithmetization/src/witness`, with `get_push_opcode` of
--     `evm_arithmetization/src/cpu/kernel/opcodes.rs`.
--   Evm/Arithmetic, Evm/Conversions: the results of the operators in
--     `evm_arithmetization/src/arithmetic/mod.rs` (Laws, Bytes), and functions of `evm_arithmetization/src/util.rs`.
--   Kernel: the items of assembly code in `evm_arithmetization/src/cpu/kernel/ast.rs`, whose lists of
--     items within an item are Items. Kernel/Same is their derived equality.
--   Kernel/Windows: `replace_windows` of `evm_arithmetization/src/cpu/kernel/utils.rs`, for windows of
--     one item more than its first argument; Total, Weights, Preserves and Normal beside it are about
--     its loop.
--   Kernel/Cost: the rest of `utils.rs`, and `cost_estimator.rs`.
--   Kernel/Optimizer: `optimizer.rs`, by its names; what the source gives `replace_windows` as a
--     closure is a function on windows (propagate_unary, propagate_binary, identity_window and so on).
--     Kernel/Machine says, apart from the optimizer, what code does: an item takes a stack of words and
--     the rest of a machine to the next, a jump skips items up to a label with its address, and a
--     fault ends the run; arithmetic is that of Evm/Arithmetic. Optimizer/Refines says when new code
--     may stand for old; Choice, Passes, Algebra, Folding and Constants show it of each pass, Rounds
--     and Correct of the whole, Shrinks shows that it stops where no pass changes anything, and
--     Answers and Total that the loops end.
--   Kernel/Opcodes: `opcodes.rs`. Kernel/Assembler: the two passages of `assembler.rs` over expanded
--     files, with Sizes and Labels.
--   Smt/Bits: `smt_trie/src/bits.rs`; Laws and Prefix relate a sequence to the list of its bits.
--   Smt/Key: the keys of `smt_trie/src/smt.rs`; Laws and Removal relate them to lists of bits.
--   A Tests file in each part applies its theorems at concrete inputs.
--
-- Parameters and bounds. A key has at most 64 nibbles, as the source asserts. The trie's theorems are
-- about keys of one fixed length, the case that the source's comments say is supported. `bits` of
-- `U256` is a parameter; where a theorem needs it, its hypothesis is that it is the least number of
-- bits that represent a number. Recursion on tries is structural. The loop that adds contexts takes
-- one step more than the context's number, and the loop of `submod` one step more than the quotient
-- of the subtrahend by the modulus; both reach their ends. `replace_windows` takes the rounds
-- allowed to its loop as an argument, since its closure may make the list longer; a theorem about it
-- has enough rounds, or finds them. The passes of the optimizer allow rounds_for: as many as the
-- window's size times the items, and one, which are enough as their replacements are shorter than the
-- windows. The loop of `optimize_asm` takes at most as many rounds as the items, and one, since a round
-- that changes code shortens it. A time stamp is a `usize` of 64 bits and wraps around; a segment's
-- addresses stay below `usize::MAX`, far above the 32 bits that `new_u256s` admits.
-- In the kernel's files `bits` is computed: the binary digits of a number. `<<` and `>>` of a word by a word
-- are parameters, which may panic; where a theorem needs it, its hypothesis is that they agree with
-- the processor's shifts where they return. `to_uppercase` is a parameter. The machine leaves
-- to parameters the addresses of labels, one assignment for the original and the optimized code, and
-- the items that the optimizer never touches. It has no bound on its stack.
--
-- Not modelled: the iteration of tries, hashing, the text format and the hex-prefix encoding of keys;
-- the keys, hashes and nodes of the sparse trie; the kernel's assembly, its parser, the expansion of
-- macros and stack manipulations, and the interpreter; the filling of trace rows, the constraint
-- systems and the provers, which call third-party libraries; the services in `zero_bin`.
pub mod Common
pub mod Word
pub mod Nibbles
pub mod Trie
pub mod Evm
pub mod Kernel
pub mod Smt
