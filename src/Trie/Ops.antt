-- ===== src/Trie/Ops.antt =====
-- `mpt_trie/src/trie_ops.rs`: insertion into a trie and reading it.
use bcw_zk_evm.Common.{ℕ, zero, suc, ◌+◌, List, [], ◌∷◌, Option, none, some, ◌==◌, if◌then◌else◌}
use bcw_zk_evm.Nibbles.{
  Nibbles, is_empty, pop_next_nibble_front, pop_nibbles_front, truncate_n_nibbles_front,
}
use bcw_zk_evm.Nibbles.Whole.{nibbles_are_identical_up_to_smallest_count}
use bcw_zk_evm.Trie.{
  Node, Children, nil, cons, ValOrHash, Outcome, ok, err, panic, TrieOpError, ◌>>=◌, lift,
  map_or_none, eq_nibbles,
}
use bcw_zk_evm.Trie.Place.{
  create_node_from_insert_val, branch_from_insert_val, leaf_from_insert_val,
  get_pre_and_postfixes_for_existing_and_new_nodes, place_branch_and_potentially_ext_prefix,
}

-- An extension or a leaf with nibbles `nibbles` that the new key leaves before its end.
unfoldable pub split_extension : Nibbles → Node → Nibbles → ValOrHash → Outcome (Option Node)
split_extension nibbles child key v = do
  info ← get_pre_and_postfixes_for_existing_and_new_nodes nibbles key
  adjusted ← lift (truncate_n_nibbles_front info.existing_postfix 1)
  let updated_existing_node = if adjusted.count == 0 then child else Node.extension adjusted child
  node ← place_branch_and_potentially_ext_prefix info updated_existing_node key v
  ok (some node)

unfoldable pub split_leaf : Nibbles → List ℕ → Nibbles → ValOrHash → Outcome (Option Node)
split_leaf nibbles value key v = do
  info ← get_pre_and_postfixes_for_existing_and_new_nodes nibbles key
  rest ← lift (truncate_n_nibbles_front nibbles (info.common_prefix.count + 1))
  node ← place_branch_and_potentially_ext_prefix info (Node.leaf rest value) key v
  ok (some node)

unfoldable mutual
  pub insert_into_trie_rec : Node → Nibbles → ValOrHash → Outcome (Option Node)
  insert_into_trie_rec Node.empty key v = ok (some (create_node_from_insert_val key v))
  insert_into_trie_rec (Node.hash h) key v = err (TrieOpError.hash_node_insert_error h)
  insert_into_trie_rec (Node.branch children value) key v =
      if key.count == 0
      then (branch_from_insert_val children v >>= λ n. ok (some n))
      else (lift (pop_next_nibble_front key) >>= λ popped.
          insert_into_child children popped.0 popped.1 v >>= λ updated.
          map_or_none updated (λ cs. ok (some (Node.branch cs value))))
  insert_into_trie_rec (Node.extension nibbles child) key v =
      get_pre_and_postfixes_for_existing_and_new_nodes nibbles key >>= λ info.
      lift (nibbles_are_identical_up_to_smallest_count nibbles key) >>= λ identical.
      if identical
      then (lift (truncate_n_nibbles_front key nibbles.count) >>= λ rest.
          insert_into_trie_rec child rest v >>= λ updated.
          map_or_none updated (λ c. ok (some (Node.extension nibbles c))))
      else split_extension nibbles child key v
  insert_into_trie_rec (Node.leaf nibbles value) key v =
      if eq_nibbles nibbles key
      then (leaf_from_insert_val nibbles v >>= λ n. ok (some n))
      else split_leaf nibbles value key v

  -- Insertion into `children[i]`, with the updated children.
  pub insert_into_child : Children → ℕ → Nibbles → ValOrHash → Outcome (Option Children)
  insert_into_child nil i key v = panic
  insert_into_child (cons c cs) zero key v =
      insert_into_trie_rec c key v >>= λ updated. map_or_none updated (λ c'. ok (some (cons c' cs)))
  insert_into_child (cons c cs) (suc i) key v = insert_into_child cs i key v >>= λ updated.
      map_or_none updated (λ cs'. ok (some (cons c cs')))

-- `insert_into_trie_rec(..)?.unwrap()`
unfoldable pub trie_insert : Node → Nibbles → ValOrHash → Outcome Node
trie_insert n key v = insert_into_trie_rec n key v >>= λ updated. lift updated

unfoldable pub trie_extend : Node → List (Nibbles × ValOrHash) → Outcome Node
trie_extend n [] = ok n
trie_extend n ((key, v) ∷ entries) = trie_insert n key v >>= λ n'. trie_extend n' entries

-- `(!value.is_empty()).then_some(value)`
unfoldable pub some_if_filled : List ℕ → Option (List ℕ)
some_if_filled [] = none
some_if_filled (b ∷ bs) = some (b ∷ bs)

unfoldable mutual
  pub trie_get_intern : Node → Nibbles → Outcome (Option (List ℕ))
  trie_get_intern Node.empty key = ok none
  trie_get_intern (Node.hash h) key = ok none
  trie_get_intern (Node.branch children value) key =
      if is_empty key
      then ok (some_if_filled value)
      else (lift (pop_next_nibble_front key) >>= λ popped. get_in_child children popped.0 popped.1)
  trie_get_intern (Node.extension nibbles child) key =
      lift (pop_nibbles_front key nibbles.count) >>= λ popped.
      lift (nibbles_are_identical_up_to_smallest_count popped.0 nibbles) >>= λ identical.
      if identical then trie_get_intern child popped.1 else ok none
  trie_get_intern (Node.leaf nibbles value) key =
      lift (nibbles_are_identical_up_to_smallest_count nibbles key) >>= λ identical.
      if identical then ok (some value) else ok none

  pub get_in_child : Children → ℕ → Nibbles → Outcome (Option (List ℕ))
  get_in_child nil i key = panic
  get_in_child (cons c cs) zero key = trie_get_intern c key
  get_in_child (cons c cs) (suc i) key = get_in_child cs i key

unfoldable pub trie_get : Node → Nibbles → Outcome (Option (List ℕ))
trie_get n key = trie_get_intern n key
