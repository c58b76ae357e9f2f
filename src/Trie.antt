-- ===== src/Trie.antt =====
-- `mpt_trie/src/partial_trie.rs` and the types of `mpt_trie/src/trie_ops.rs`: the nodes of a
-- partial trie, the entries, the errors and the results of an operation. A value is a list of
-- bytes and a hash a number. Every trie type of the source wraps these nodes.
pub mod Place
pub mod Ops
pub mod Delete
pub mod Spec
pub mod Shape
pub mod Correct
pub mod Extend
mod Tests
use bcw_zk_evm.Common.{
  ℕ, zero, suc, List, Bool, true, false, Option, none, some, replicate, ◌==◌, ◌&&◌,
}
use bcw_zk_evm.Nibbles.{Nibbles}

-- `[WrappedNode<T>; 16]` is a list of nodes.
mutual
  pub data Node : Type 0 where
    empty : Node
    hash : ℕ → Node
    branch : Children → List ℕ → Node
    extension : Nibbles → Node → Node
    leaf : Nibbles → List ℕ → Node

  pub data Children : Type 0 where
    nil : Children
    cons : Node → Children → Children

pub data ValOrHash : Type 0 where
  val : List ℕ → ValOrHash
  hash : ℕ → ValOrHash

-- `mpt_trie/src/utils.rs`
pub data TrieNodeType : Type 0 where
  empty hash branch extension leaf : TrieNodeType

unfoldable pub node_type : Node → TrieNodeType
node_type Node.empty = TrieNodeType.empty
node_type (Node.hash h) = TrieNodeType.hash
node_type (Node.branch cs v) = TrieNodeType.branch
node_type (Node.extension s c) = TrieNodeType.extension
node_type (Node.leaf s v) = TrieNodeType.leaf

pub data TrieOpError : Type 0 where
  hash_node_insert_error : ℕ → TrieOpError
  hash_node_delete_error : ℕ → TrieOpError
  hash_node_ext_error : TrieNodeType → TrieOpError
  existing_hash_node_error : ℕ → TrieOpError

-- `TrieOpResult`, or a panic.
pub data Outcome {ℓ} (A : Type ℓ) : Type ℓ where
  ok : A → Outcome A
  err : TrieOpError → Outcome A
  panic : Outcome A

infixl 5 ◌>>=◌ ◌>>◌
abbrev pub ◌>>=◌ {ℓ κ} : {A : Type ℓ} {B : Type κ} → Outcome A → (A → Outcome B) → Outcome B
ok a >>= f = f a
err e >>= f = err e
panic >>= f = panic

abbrev pub ◌>>◌ {ℓ} : {B : Type ℓ} → Outcome (Unit {0}) → Outcome B → Outcome B
m >> k = m >>= λ _. k

-- A computation that may only panic.
abbrev pub lift {ℓ} : {A : Type ℓ} → Option A → Outcome A
lift none = panic
lift (some a) = ok a

-- `x.map_or(Ok(None), f)`
abbrev pub map_or_none {ℓ κ} :
    {A : Type ℓ} {B : Type κ} → Option A → (A → Outcome (Option B)) → Outcome (Option B)
map_or_none none f = ok none
map_or_none (some a) f = f a

-- `Nibbles` are compared field by field.
unfoldable pub eq_nibbles : Nibbles → Nibbles → Bool
eq_nibbles a b = a.count == b.count && a.packed == b.packed

-- `children[i] = node`, which panics out of range.
unfoldable pub set_child : Children → ℕ → Node → Option Children
set_child nil i n = none
set_child (cons c cs) zero n = some (cons n cs)
set_child (cons c cs) (suc i) n = elim (set_child cs i n) [
  | none ↦ none
  | some cs' ↦ some (cons c cs')
]

-- `new_branch_child_arr`
unfoldable pub empties : ℕ → Children
empties zero = nil
empties (suc n) = cons Node.empty (empties n)

unfoldable pub new_branch_child_arr : Children
unfolding empties
new_branch_child_arr = empties 16

unfoldable pub node_is_empty : Node → Bool
node_is_empty Node.empty = true
node_is_empty n = false
