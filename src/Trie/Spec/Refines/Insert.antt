-- ===== src/Trie/Spec/Refines/Insert.antt =====
-- Insertion into the trie does what the specification's insertion does.
use bcw_zk_evm.Common.{
  ℕ, zero, suc, ◌-◌, ◌≤◌, ◌<◌, ◌≡◌, refl, ap, ◌∙◌, List, [], ◌∷◌, false, Option, some, ◌==◌, ==_ne,
  length, drop, arith, Bool-cases, inl, inr,
}
use bcw_zk_evm.Nibbles.{truncate_n_nibbles_front_mut}
use bcw_zk_evm.Nibbles.Value.{of_list}
use bcw_zk_evm.Nibbles.Slices.{pop_front_cons, truncate_front_drop}
use bcw_zk_evm.Nibbles.Compare.{agree, nibbles_are_identical_up_to_smallest_count_lem}
use bcw_zk_evm.Nibbles.Equal.{parting}
use bcw_zk_evm.Trie.{Node, Children, ValOrHash, Outcome, ok, err, panic, ◌>>=◌, map_or_none}
use bcw_zk_evm.Trie.Place.{
  create_node_if_ins_val_not_hash, branch_from_insert_val, leaf_from_insert_val,
}
use bcw_zk_evm.Trie.Ops.{insert_into_trie_rec, insert_into_child}
use bcw_zk_evm.Trie.Spec.{
  Tree, Trees, nil, cons, nodes, children_nodes, size, HasDepth, HaveDepth, replace, insert,
  insert_at,
}
use bcw_zk_evm.Trie.Spec.Refines.{IsKey, IsKey-drop, IsKey-tail}
use bcw_zk_evm.Trie.Spec.Refines.Fork.{pre_post_lem, split_leaf_lem, split_extension_lem}
use bcw_zk_evm.Trie.Spec.Refines.Nodes.{eq_nibbles_lem, create-nodes}

-- A result of the specification as a result of the code.
abbrev pub as_node : Outcome Tree → Outcome (Option Node)
as_node r = r >>= λ t. ok (some (nodes t))

abbrev pub as_children : Outcome Trees → Outcome (Option Children)
as_children r = r >>= λ ts. ok (some (children_nodes ts))

replace-nodes :
    (v : ValOrHash) (f : List ℕ → Node) (g : List ℕ → Tree)
    → ((b : List ℕ) → f b ≡ nodes (g b))
    → (create_node_if_ins_val_not_hash v f >>= λ n. ok (some n)) ≡ as_node (replace v g)
unfolding create_node_if_ins_val_not_hash replace
replace-nodes (ValOrHash.val b) f g h = ap (λ n. ok (some n)) (h b)
replace-nodes (ValOrHash.hash x) f g h = refl

count_pos : (x : ℕ) (xs : List ℕ) → ((of_list (x ∷ xs)).count == 0) ≡ false
unfolding of_list
count_pos x xs = ==_ne (suc (length xs)) 0 (omega arith)

truncate_ext :
    (xs k : List ℕ) (d : ℕ)
    → length xs ≤ d
    → IsKey d k
    → truncate_n_nibbles_front_mut (of_list k) (of_list xs).count
      ≡ some (of_list (drop (length xs) k))
truncate_ext xs k d h key =
    ap (truncate_n_nibbles_front_mut (of_list k)) counted
    ∙ truncate_front_drop (length xs) k key.digits (omega (arith, key.counted, key.fits))
        (omega (arith, key.counted))
  where
    counted : (of_list xs).count ≡ length xs
    counted = unfold of_list in refl

-- The result of a step below, put back in its place.
module _ (w : List ℕ) where
  back_branch :
      (r : Outcome Trees)
      → (as_children r >>= λ u. map_or_none u (λ cs. ok (some (Node.branch cs w))))
        ≡ as_node (r >>= λ ts. ok (Tree.branch ts w))
  unfolding nodes
  back_branch (ok ts) = refl
  back_branch (err e) = refl
  back_branch panic = refl

module _ (xs : List ℕ) where
  back_extension :
      (r : Outcome Tree)
      → (as_node r >>= λ u. map_or_none u (λ c. ok (some (Node.extension (of_list xs) c))))
        ≡ as_node (r >>= λ t. ok (Tree.extension xs t))
  unfolding nodes
  back_extension (ok t) = refl
  back_extension (err e) = refl
  back_extension panic = refl

module _ (ts : Trees) where
  back_first :
      (r : Outcome Tree)
      → (as_node r >>= λ u. map_or_none u (λ c. ok (some (Children.cons c (children_nodes ts)))))
        ≡ as_children (r >>= λ t. ok (cons t ts))
  unfolding nodes
  back_first (ok t) = refl
  back_first (err e) = refl
  back_first panic = refl

module _ (t : Tree) where
  back_rest :
      (r : Outcome Trees)
      → (as_children r >>= λ u. map_or_none u (λ cs. ok (some (Children.cons (nodes t) cs))))
        ≡ as_children (r >>= λ ts. ok (cons t ts))
  unfolding nodes
  back_rest (ok ts) = refl
  back_rest (err e) = refl
  back_rest panic = refl

mutual
  unfolding nodes insert_into_trie_rec insert leaf_from_insert_val branch_from_insert_val

  pub insert-nodes :
      (t : Tree) (d : ℕ) (k : List ℕ) (v : ValOrHash)
      → HasDepth d t
      → IsKey d k
      → insert_into_trie_rec (nodes t) (of_list k) v ≡ as_node (insert t k v)
  insert-nodes Tree.empty d k v h key = ap (λ n. ok (some n)) (create-nodes k v)
  insert-nodes (Tree.hash x) d k v h key = refl
  insert-nodes (Tree.branch ts w) d [] v h key = absurd (omega (arith, key.counted, h.0))
  insert-nodes (Tree.branch ts w) d (x ∷ k) v h key =
      rw
        (
          count_pos x k,
          pop_front_cons x k key.digits (omega (arith, key.counted, key.fits)),
          insert_children ts x (d - 1) k v h.2 (omega (arith, h.1, key.digits.0)) (IsKey-tail key),
        )
        (back_branch w (insert_at ts x k v))
  insert-nodes (Tree.extension xs t) d k v h key =
      rw
        (
          pre_post_lem xs k h.1 key.digits (omega (arith, key.fits))
              (omega (arith, key.counted, key.fits)),
          nibbles_are_identical_up_to_smallest_count_lem xs k h.1 key.digits
              (omega (arith, key.fits)) (omega (arith, key.counted, key.fits)),
        )
        (elim (Bool-cases (agree xs k)) [
          | inl same ↦
              rw
                (
                  same,
                  truncate_ext xs k d h.0 key,
                  insert-nodes t (d - length xs) (drop (length xs) k) v h.2
                      (IsKey-drop (length xs) key h.0),
                )
                (back_extension xs (insert t (drop (length xs) k) v))
          | inr other ↦ rw (
            other,
            split_extension_lem xs k h.1 key.digits (omega (arith, key.fits))
                (omega (arith, key.counted, key.fits)) v (parting xs k other) t,
          )
        ])
  insert-nodes (Tree.leaf xs w) d k v h key =
      rw (eq_nibbles_lem xs k h.1 key.digits (omega (arith, h.0, key.counted)))
        (elim (Bool-cases (agree xs k)) [
          | inl same ↦ rw same (replace-nodes v (Node.leaf (of_list xs)) (Tree.leaf xs) (λ b. refl))
          | inr other ↦ rw (
            other,
            split_leaf_lem xs k h.1 key.digits (omega (arith, h.0, key.fits))
                (omega (arith, key.counted, key.fits)) v (parting xs k other) w,
          )
        ])

  insert_children :
      (ts : Trees) (i d : ℕ) (k : List ℕ) (v : ValOrHash)
      → HaveDepth d ts
      → i < size ts
      → IsKey d k
      → insert_into_child (children_nodes ts) i (of_list k) v ≡ as_children (insert_at ts i k v)
  insert_children nil i d k v h lt key = absurd (omega arith)
  insert_children (cons t ts) zero d k v h lt key =
      rw (insert-nodes t d k v h.0 key) (back_first ts (insert t k v))
  insert_children (cons t ts) (suc i) d k v h lt key =
      rw (insert_children ts i d k v h.1 (omega arith) key) (back_rest t (insert_at ts i k v))
