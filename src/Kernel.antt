-- ===== src/Kernel.antt =====
-- `Item` and its parts, of `evm_arithmetization/src/cpu/kernel/ast.rs`: the kernel's assembly code.
pub mod Windows
pub mod Same
pub mod Cost
pub mod Optimizer
pub mod Machine
pub mod Opcodes
pub mod Assembler
pub mod Tests
use Prim.Native.String.{String}
use bcw_zk_evm.Common.{ℕ, List}

pub data PushTarget : Type 0 where
  literal : ℕ → PushTarget
  label macro_label macro_var constant : String → PushTarget

pub data BytesTarget : Type 0 where
  literal : ℕ → BytesTarget
  constant : String → BytesTarget

pub data StackReplacement : Type 0 where
  literal : ℕ → StackReplacement
  identifier label macro_label macro_var constant : String → StackReplacement

-- `StackPlaceholder`: a name and a size.
pub record StackPlaceholder : Type 0 where
  pub name : String
  pub size : ℕ

-- `ProverInputFn` of `generation/prover_input.rs`
pub record ProverInputFn : Type 0 where
  pub path : List String

-- The bodies of a macro and of a repetition are lists of items.
mutual
  pub data Item : Type 0 where
    macro_def : String → List String → Items → Item
    macro_call : String → List PushTarget → Item
    repeat : ℕ → Items → Item
    stack_manipulation : List StackPlaceholder → List StackReplacement → Item
    global_label_declaration local_label_declaration macro_label_declaration : String → Item
    push : PushTarget → Item
    prover_input : ProverInputFn → Item
    standard_op : String → Item
    bytes : List BytesTarget → Item
    jumptable : List String → Item

  pub data Items : Type 0 where
    nil : Items
    cons : Item → Items → Items
