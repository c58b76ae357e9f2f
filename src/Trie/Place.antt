-- ===== src/Trie/Place.antt =====
-- `mpt_trie/src/trie_ops.rs`: making the nodes that an insertion adds, and splitting a leaf or an
-- extension where a new key leaves it.
use bcw_zk_evm.Common.{ℕ, ◌+◌, List, [], Option, none, some, ◌==◌, if◌then◌else◌}
use bcw_zk_evm.Nibbles.{Nibbles, get_nibble, is_empty, truncate_n_nibbles_front}
use bcw_zk_evm.Nibbles.Whole.{
  split_at_idx, split_at_idx_postfix,
  find_nibble_idx_that_differs_between_nibbles_different_lengths,
}
use bcw_zk_evm.Trie.{
  Node, Children, ValOrHash, Outcome, ok, err, TrieOpError, ◌>>=◌, lift, set_child,
  new_branch_child_arr,
}

unfoldable pub create_node_from_insert_val : Nibbles → ValOrHash → Node
create_node_from_insert_val nibbles (ValOrHash.val value) = Node.leaf nibbles value
create_node_from_insert_val nibbles (ValOrHash.hash h) =
    if is_empty nibbles then Node.hash h else Node.extension nibbles (Node.hash h)

unfoldable pub create_node_if_ins_val_not_hash : ValOrHash → (List ℕ → Node) → Outcome Node
create_node_if_ins_val_not_hash (ValOrHash.val leaf_v) create_node = ok (create_node leaf_v)
create_node_if_ins_val_not_hash (ValOrHash.hash h) create_node =
    err (TrieOpError.existing_hash_node_error h)

unfoldable pub branch_from_insert_val : Children → ValOrHash → Outcome Node
unfolding create_node_if_ins_val_not_hash
branch_from_insert_val children value =
    create_node_if_ins_val_not_hash value (λ v. Node.branch children v)

unfoldable pub leaf_from_insert_val : Nibbles → ValOrHash → Outcome Node
unfolding create_node_if_ins_val_not_hash
leaf_from_insert_val nibbles value =
    create_node_if_ins_val_not_hash value (λ v. Node.leaf nibbles v)

-- `expect_val`
unfoldable pub expect_val : ValOrHash → Option (List ℕ)
expect_val (ValOrHash.val v) = some v
expect_val (ValOrHash.hash h) = none

pub record ExistingAndNewNodePreAndPost : Type 0 where
  pub common_prefix : Nibbles
  pub existing_postfix : Nibbles
  pub new_postfix : Nibbles

unfoldable pub get_pre_and_postfixes_for_existing_and_new_nodes :
    Nibbles → Nibbles → Outcome ExistingAndNewNodePreAndPost
get_pre_and_postfixes_for_existing_and_new_nodes existing_node_nibbles new_node_nibbles = do
  nib_idx_of_difference ← lift (
      find_nibble_idx_that_differs_between_nibbles_different_lengths existing_node_nibbles
        new_node_nibbles)
  parts ← lift (split_at_idx existing_node_nibbles nib_idx_of_difference)
  new_postfix ← lift (split_at_idx_postfix new_node_nibbles nib_idx_of_difference)
  ok (record { common_prefix = parts.0; existing_postfix = parts.1; new_postfix = new_postfix })

-- What goes into the value of a new branch and what below it.
pub data ExistingOrNewBranchValuePlacement : Type 0 where
  branch_value : List ℕ → ℕ × Node → ExistingOrNewBranchValuePlacement
  both_branch_children : ℕ × Node → ℕ × Node → ExistingOrNewBranchValuePlacement

unfoldable pub ins_entry_into_leaf_and_nibble :
    ExistingAndNewNodePreAndPost → Nibbles → ValOrHash → Outcome (ℕ × Node)
ins_entry_into_leaf_and_nibble info nibbles v = do
  new_first_nibble ← lift (get_nibble info.new_postfix 0)
  rest ← lift (truncate_n_nibbles_front nibbles (info.common_prefix.count + 1))
  ok (new_first_nibble, create_node_from_insert_val rest v)

-- The last two arms of the match in `check_if_existing_or_new_node_should_go_in_branch_value_field`.
unfoldable pub place_below :
    ExistingAndNewNodePreAndPost
    → Node
    → Nibbles
    → ValOrHash
    → Outcome ExistingOrNewBranchValuePlacement
place_below info existing_node nibbles v =
    if info.new_postfix.count == 0
    then (do
      value ← lift (expect_val v)
      nib ← lift (get_nibble info.existing_postfix 0)
      ok (branch_value value (nib, existing_node)))
    else (do
      nib ← lift (get_nibble info.existing_postfix 0)
      new_child ← ins_entry_into_leaf_and_nibble info nibbles v
      ok (both_branch_children (nib, existing_node) new_child))

-- Its first arm: an existing leaf with no nibble left.
unfoldable pub place_leaf_value :
    ExistingAndNewNodePreAndPost
    → Node
    → Nibbles
    → ValOrHash
    → Outcome ExistingOrNewBranchValuePlacement
unfolding place_below
place_leaf_value info (Node.leaf s value) nibbles v = do
  new_child ← ins_entry_into_leaf_and_nibble info nibbles v
  ok (branch_value value new_child)
place_leaf_value info existing_node nibbles v = place_below info existing_node nibbles v

unfoldable pub check_if_existing_or_new_node_should_go_in_branch_value_field :
    ExistingAndNewNodePreAndPost
    → Node
    → Nibbles
    → ValOrHash
    → Outcome ExistingOrNewBranchValuePlacement
unfolding place_leaf_value place_below
check_if_existing_or_new_node_should_go_in_branch_value_field info existing_node nibbles v =
    if info.existing_postfix.count == 0
    then place_leaf_value info existing_node nibbles v
    else place_below info existing_node nibbles v

-- The children and the value of the new branch.
unfoldable pub fill_branch : ExistingOrNewBranchValuePlacement → Outcome (Children × List ℕ)
fill_branch (branch_value branch_v (nib, node)) = do
  children ← lift (set_child new_branch_child_arr nib node)
  ok (children, branch_v)
fill_branch (both_branch_children (nib_1, node_1) (nib_2, node_2)) = do
  first ← lift (set_child new_branch_child_arr nib_1 node_1)
  children ← lift (set_child first nib_2 node_2)
  ok (children, [])

unfoldable pub place_branch_and_potentially_ext_prefix :
    ExistingAndNewNodePreAndPost → Node → Nibbles → ValOrHash → Outcome Node
unfolding fill_branch
place_branch_and_potentially_ext_prefix info existing_node nibbles v = do
  placement ←
      check_if_existing_or_new_node_should_go_in_branch_value_field info existing_node nibbles v
  filled ← fill_branch placement
  let branch = Node.branch filled.0 filled.1
  ok (if info.common_prefix.count == 0 then branch else Node.extension info.common_prefix branch)
