-- ===== src/Trie/Delete.antt =====
-- `mpt_trie/src/trie_ops.rs`: deletion from a trie, with the collapsing of branches and extensions.
use bcw_zk_evm.Common.{
  ℕ, zero, suc, ◌+◌, List, [], not, ◌&&◌, Option, none, some, leb, ◌==◌, if◌then◌else◌,
}
use bcw_zk_evm.Nibbles.{
  Nibbles, from_nibble, is_empty, pop_next_nibble_front, truncate_n_nibbles_front_mut,
  merge_nibbles,
}
use bcw_zk_evm.Nibbles.Whole.{nibbles_are_identical_up_to_smallest_count}
use bcw_zk_evm.Trie.{
  Node, Children, nil, cons, Outcome, ok, err, panic, TrieOpError, ◌>>=◌, lift, map_or_none,
  eq_nibbles, node_type, node_is_empty, set_child,
}

unfoldable pub get_num_non_empty_children : Children → ℕ
get_num_non_empty_children nil = 0
get_num_non_empty_children (cons c cs) =
    if node_is_empty c then get_num_non_empty_children cs else suc (get_num_non_empty_children cs)

-- From the child in slot `i` on; it panics where there is none.
unfoldable pub get_other_non_empty_child : ℕ → Children → ℕ → Option (ℕ × Node)
get_other_non_empty_child i nil our_nib = none
get_other_non_empty_child i (cons c cs) our_nib =
    let rest = get_other_non_empty_child (i + 1) cs our_nib in
    if not (i == our_nib) && not (node_is_empty c) then some (i, c) else rest

unfoldable pub get_other_non_empty_child_and_nibble_in_two_elem_branch :
    Children → ℕ → Option (ℕ × Node)
unfolding get_other_non_empty_child
get_other_non_empty_child_and_nibble_in_two_elem_branch children our_nib =
    get_other_non_empty_child 0 children our_nib

unfoldable pub collapse_ext_node_if_needed : Nibbles → Node → Outcome Node
collapse_ext_node_if_needed ext_nibbles Node.empty =
    err (TrieOpError.hash_node_ext_error (node_type Node.empty))
collapse_ext_node_if_needed ext_nibbles (Node.hash h) =
    ok (Node.extension ext_nibbles (Node.hash h))
collapse_ext_node_if_needed ext_nibbles (Node.branch cs v) =
    ok (Node.extension ext_nibbles (Node.branch cs v))
collapse_ext_node_if_needed ext_nibbles (Node.extension other_ext_nibbles other_ext_child) = do
  merged ← lift (merge_nibbles ext_nibbles other_ext_nibbles)
  ok (Node.extension merged other_ext_child)
collapse_ext_node_if_needed ext_nibbles (Node.leaf leaf_nibbles value) = do
  merged ← lift (merge_nibbles ext_nibbles leaf_nibbles)
  ok (Node.leaf merged value)

unfoldable pub try_collapse_if_extension : Node → Outcome Node
try_collapse_if_extension (Node.extension nibbles child) = collapse_ext_node_if_needed nibbles child
try_collapse_if_extension node = ok node

-- A branch whose child in slot `nibble` has become `updated_child`.
unfoldable pub update_branch : Children → List ℕ → ℕ → Node → Outcome Node
update_branch children value nibble updated_child =
    if node_is_empty updated_child && leb (get_num_non_empty_children children) 2
    then (do
      other ← lift (get_other_non_empty_child_and_nibble_in_two_elem_branch children nibble)
      nibbles ← lift (from_nibble other.0)
      ok (Node.extension nibbles other.1))
    else (do
      collapsed ← try_collapse_if_extension updated_child
      updated_children ← lift (set_child children nibble collapsed)
      ok (Node.branch updated_children value))

unfoldable mutual
  pub delete_intern : Node → Nibbles → Outcome (Option (Node × List ℕ))
  delete_intern Node.empty curr_k = ok none
  delete_intern (Node.hash h) curr_k = err (TrieOpError.hash_node_delete_error h)
  delete_intern (Node.branch children value) curr_k =
      if is_empty curr_k
      then ok (some (Node.branch children [], value))
      else (lift (pop_next_nibble_front curr_k) >>= λ popped.
          delete_in_child children popped.0 popped.1 >>= λ deleted.
          map_or_none deleted
            (λ r. update_branch children value popped.0 r.0 >>= λ node. ok (some (node, r.1))))
  delete_intern (Node.extension ext_nibbles child) curr_k =
      lift (nibbles_are_identical_up_to_smallest_count ext_nibbles curr_k) >>= λ identical.
      if identical
      then (lift (truncate_n_nibbles_front_mut curr_k ext_nibbles.count) >>= λ rest.
          delete_intern child rest >>= λ deleted.
          map_or_none deleted
            (λ r. collapse_ext_node_if_needed ext_nibbles r.0 >>= λ node. ok (some (node, r.1))))
      else ok none
  delete_intern (Node.leaf nibbles value) curr_k =
      if eq_nibbles nibbles curr_k then ok (some (Node.empty, value)) else ok none

  -- Deletion in `children[i]`.
  pub delete_in_child : Children → ℕ → Nibbles → Outcome (Option (Node × List ℕ))
  delete_in_child nil i curr_k = panic
  delete_in_child (cons c cs) zero curr_k = delete_intern c curr_k
  delete_in_child (cons c cs) (suc i) curr_k = delete_in_child cs i curr_k

-- The trie afterwards, and the value deleted; where the key is not there the trie stays.
unfoldable pub trie_delete : Node → Nibbles → Outcome (Node × Option (List ℕ))
trie_delete n k = delete_intern n k >>= λ deleted. elim deleted [
  | none ↦ ok (n, none)
  | some r ↦ try_collapse_if_extension r.0 >>= λ node. ok (node, some r.1)
]
