-- ===== src/Trie/Spec/Refines/Nodes.antt =====
-- Children, new nodes and the equality of keys, between the specification and the nodes.
use bcw_zk_evm.Common.{
  ℕ, zero, suc, ◌<◌, ◌≡◌, refl, ap, List, [], ◌∷◌, false, some, ==_ne, ==_refl, length, arith,
  Bool-cases, inl, inr,
}
use bcw_zk_evm.Nibbles.{is_empty}
use bcw_zk_evm.Nibbles.Value.{of_list, AreNibbles, value}
use bcw_zk_evm.Nibbles.Compare.{agree}
use bcw_zk_evm.Nibbles.Equal.{value-injective, agree_refl, agree-eq}
use bcw_zk_evm.Trie.{ValOrHash, eq_nibbles, set_child, new_branch_child_arr}
use bcw_zk_evm.Trie.Place.{create_node_from_insert_val}
use bcw_zk_evm.Trie.Spec.{Tree, Trees, nil, cons, nodes, children_nodes, size, put, blank, create}

pub eq_nibbles_lem :
    (xs ys : List ℕ)
    → AreNibbles xs
    → AreNibbles ys
    → length xs ≡ length ys
    → eq_nibbles (of_list xs) (of_list ys) ≡ agree xs ys
unfolding eq_nibbles of_list
eq_nibbles_lem xs ys hx hy e =
    rw (e, ==_refl (length ys))
      (elim (Bool-cases (agree xs ys)) [
        | inl same ↦ rw (same, agree-eq xs ys e same) (==_refl (value ys))
        | inr other ↦
            rw other
              (==_ne (value xs) (value ys) (λ v. apart other (value-injective xs ys hx hy e v)))
      ])
  where
    apart : agree xs ys ≡ false → xs ≡ ys → ⊥
    apart h p = cc (agree_refl xs, ap (agree xs) p)

pub size-put : (ts : Trees) (i : ℕ) (t : Tree) → size (put ts i t) ≡ size ts
unfolding put
size-put nil i t = refl
size-put (cons u ts) zero t = refl
size-put (cons u ts) (suc i) t = ap suc (size-put ts i t)

pub set_child-nodes :
    (ts : Trees) (i : ℕ) (t : Tree)
    → i < size ts
    → set_child (children_nodes ts) i (nodes t) ≡ some (children_nodes (put ts i t))
unfolding set_child put nodes
set_child-nodes nil i t h = absurd (omega arith)
set_child-nodes (cons u ts) zero t h = refl
set_child-nodes (cons u ts) (suc i) t h = rw (set_child-nodes ts i t (omega arith))

pub blank_nodes : new_branch_child_arr ≡ children_nodes (blank 16)
unfolding new_branch_child_arr blank nodes
blank_nodes = refl

pub size-blank : (n : ℕ) → size (blank n) ≡ n
unfolding blank
size-blank zero = refl
size-blank (suc n) = ap suc (size-blank n)

pub create-nodes :
    (k : List ℕ) (v : ValOrHash) → create_node_from_insert_val (of_list k) v ≡ nodes (create k v)
unfolding create_node_from_insert_val create nodes is_empty of_list
create-nodes k (ValOrHash.val b) = refl
create-nodes [] (ValOrHash.hash h) = refl
create-nodes (x ∷ k) (ValOrHash.hash h) = rw (==_ne (suc (length k)) 0 (omega arith))
