-- ===== src/Trie/Tests.antt =====
-- Tries of keys of four nibbles, and the theorems at them.
use bcw_zk_evm.Common.{some, ℕ, ◌<◌, ◌^◌, ◌≡◌, refl, List, [], ◌∷◌, arith}
use bcw_zk_evm.Nibbles.{
  Nibbles, get_nibble, is_even, truncate_n_nibbles_front_mut,
  get_min_truncate_amount_to_prevent_over_truncating, create_mask_of_1s, is_empty,
  pop_next_nibble_front, from_nibble, merge_nibbles,
}
use bcw_zk_evm.Nibbles.Value.{radix}
use bcw_zk_evm.Nibbles.ToList.{to_list}
use bcw_zk_evm.Trie.{Node, nil, cons, ValOrHash, ok, eq_nibbles, node_is_empty}
use bcw_zk_evm.Trie.Ops.{trie_get, trie_insert, trie_extend}
use bcw_zk_evm.Word.{word_mod, word_not, byte, ◌<<<◌}
use bcw_zk_evm.Nibbles.Whole.{nibbles_are_identical_up_to_smallest_count, identical_from}
use bcw_zk_evm.Trie.Delete.{
  trie_delete, delete_intern, update_branch, get_num_non_empty_children,
  get_other_non_empty_child_and_nibble_in_two_elem_branch, collapse_ext_node_if_needed,
  get_other_non_empty_child, try_collapse_if_extension,
}
use bcw_zk_evm.Trie.Spec.{get}
use bcw_zk_evm.Trie.Shape.{KeyOf, IsTrie, tree_of}
use bcw_zk_evm.Trie.Correct.{trie_get_lem, Inserted, trie_insert_lem}
use bcw_zk_evm.Trie.Extend.{HasNoHash, trie_insert_succeeds, entries, replay, trie_extend_refines}

abbrev key : ℕ → Nibbles
key n = record { count = 4; packed = n }

key-KeyOf : (n : ℕ) → n < 2 ^ 16 → KeyOf 4 (key n)
unfolding radix
key-KeyOf n h = record { counted = refl; fits = omega arith; bounded = h }

-- An extension above a branch, with a leaf and a hash.
abbrev forked : Node
forked =
    Node.extension (record { count = 2; packed = 0x12 })
      (Node.branch
        (cons Node.empty (
          cons Node.empty (
            cons Node.empty (
              cons (Node.leaf (record { count = 1; packed = 4 }) (7 ∷ [])) (
                cons Node.empty (
                  cons (Node.hash 99) (
                    cons Node.empty (
                      cons Node.empty (
                        cons Node.empty (
                          cons Node.empty (
                            cons Node.empty (
                              cons Node.empty (
                                cons Node.empty (
                                  cons Node.empty
                                    (cons Node.empty (cons Node.empty nil))))))))))))))))
        [])

forked-IsTrie : IsTrie 4 forked
unfolding radix
forked-IsTrie = (
  omega arith,
  omega arith,
  (
    omega arith,
    refl,
    (
      tt,
      (
        tt,
        (
          tt,
          (
            (refl, omega arith),
            (tt, (tt, (tt, (tt, (tt, (tt, (tt, (tt, (tt, (tt, (tt, (tt, tt)))))))))))),
          ),
        ),
      ),
    ),
  ),
)

trie_get_example : trie_get forked (key 0x1234) ≡ ok (get (tree_of forked) (to_list (key 0x1234)))
trie_get_example = trie_get_lem 4 forked (key 0x1234) forked-IsTrie (key-KeyOf 0x1234 (omega arith))

trie_insert_example :
    Inserted 4 forked
      (key 0x1236)
      (ValOrHash.val (8 ∷ []))
      (key 0x1234)
      (trie_insert forked (key 0x1236) (ValOrHash.val (8 ∷ [])))
trie_insert_example =
    trie_insert_lem 4 forked (key 0x1236) (ValOrHash.val (8 ∷ [])) (key 0x1234) forked-IsTrie
      (key-KeyOf 0x1236 (omega arith)) (key-KeyOf 0x1234 (omega arith))

abbrev single : Node
single = Node.leaf (key 0x1234) (7 ∷ [])

single-IsTrie : IsTrie 4 single
unfolding radix
single-IsTrie = (refl, omega arith)

trie_insert_succeeds_example :
    (n' : Node) × (trie_insert single (key 0x1256) (ValOrHash.val (8 ∷ [])) ≡ ok n') × HasNoHash n'
trie_insert_succeeds_example =
    trie_insert_succeeds 4 single (key 0x1256) (8 ∷ []) single-IsTrie
      (key-KeyOf 0x1256 (omega arith)) tt

-- A key is entered twice, between two others that share a prefix with it.
abbrev some_entries : List (Nibbles × List ℕ)
some_entries =
    (key 0x1234, 1 ∷ []) ∷ (key 0x1256, 2 ∷ []) ∷ (key 0x1234, 3 ∷ []) ∷ (key 0x7234, 4 ∷ []) ∷ []

trie_extend_refines_example :
    (n' : Node) × (trie_extend single (entries some_entries) ≡ ok n')
    × IsTrie 4 n'
    × HasNoHash n'
    × (trie_get n' (key 0x1234) ≡ replay (key 0x1234) (trie_get single (key 0x1234)) some_entries)
trie_extend_refines_example =
    trie_extend_refines some_entries 4 single (key 0x1234) single-IsTrie tt
      (
        key-KeyOf 0x1234 (omega arith),
        (
          key-KeyOf 0x1256 (omega arith),
          (key-KeyOf 0x1234 (omega arith), (key-KeyOf 0x7234 (omega arith), tt)),
        ),
      )
      (key-KeyOf 0x1234 (omega arith))

-- Deleting the one leaf of a branch collapses it, with the extension above it, onto the hash.
deleted :
    trie_delete forked (key 0x1234)
    ≡ ok (Node.extension (record { count = 3; packed = 0x125 }) (Node.hash 99), some (7 ∷ []))
unfolding trie_delete delete_intern nibbles_are_identical_up_to_smallest_count identical_from
    get_nibble byte is_even truncate_n_nibbles_front_mut
    get_min_truncate_amount_to_prevent_over_truncating create_mask_of_1s ◌<<<◌ is_empty
    pop_next_nibble_front word_not eq_nibbles update_branch node_is_empty get_num_non_empty_children
    get_other_non_empty_child_and_nibble_in_two_elem_branch from_nibble merge_nibbles
    collapse_ext_node_if_needed get_other_non_empty_child try_collapse_if_extension word_mod
deleted = refl
