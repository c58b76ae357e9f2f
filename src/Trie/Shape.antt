-- ===== src/Trie/Shape.antt =====
-- The shape of a trie whose keys have a fixed number of nibbles, and the tree that it stands for.
use bcw_zk_evm.Common.{ℕ, suc, ◌-◌, ◌≤◌, ◌<◌, ◌≡◌, refl, sym, ap, ap₂, subst, ◌∙◌, length, arith}
use bcw_zk_evm.Nibbles.{Nibbles}
use bcw_zk_evm.Nibbles.Value.{radix, of_list, value-lt}
use bcw_zk_evm.Nibbles.ToList.{to_list, length-to_list, to_list-AreNibbles, of_list-to_list}
use bcw_zk_evm.Trie.{Node, Children, nil, cons}
use bcw_zk_evm.Trie.Spec.{Tree, Trees, nodes, children_nodes, size, HasDepth, HaveDepth}
use bcw_zk_evm.Trie.Spec.Refines.{IsKey}

-- A key of `d` nibbles.
pub record KeyOf (d : ℕ) (s : Nibbles) : Type 0 where
  pub counted : s.count ≡ d
  pub fits : d ≤ 64
  pub bounded : s.packed < radix s.count

abbrev pub count_children : Children → ℕ
count_children nil = 0
count_children (cons n cs) = suc (count_children cs)

-- Every path to a value has `d` nibbles, and a branch has 16 children.
abbrev mutual
  pub IsTrie : ℕ → Node → Type 0
  IsTrie d Node.empty = Unit
  IsTrie d (Node.hash h) = Unit
  IsTrie d (Node.branch cs v) = (0 < d) × (count_children cs ≡ 16) × AreTries (d - 1) cs
  IsTrie d (Node.extension s n) =
      (s.count ≤ d) × (s.packed < radix s.count) × IsTrie (d - s.count) n
  IsTrie d (Node.leaf s v) = (s.count ≡ d) × (s.packed < radix s.count)

  pub AreTries : ℕ → Children → Type 0
  AreTries d nil = Unit
  AreTries d (cons n cs) = IsTrie d n × AreTries d cs

unfoldable mutual
  pub tree_of : Node → Tree
  tree_of Node.empty = Tree.empty
  tree_of (Node.hash h) = Tree.hash h
  tree_of (Node.branch cs v) = Tree.branch (trees_of cs) v
  tree_of (Node.extension s n) = Tree.extension (to_list s) (tree_of n)
  tree_of (Node.leaf s v) = Tree.leaf (to_list s) v

  pub trees_of : Children → Trees
  trees_of nil = Trees.nil
  trees_of (cons n cs) = Trees.cons (tree_of n) (trees_of cs)

mutual
  unfolding nodes tree_of

  pub nodes-tree_of : (n : Node) (d : ℕ) → IsTrie d n → nodes (tree_of n) ≡ n
  nodes-tree_of Node.empty d h = refl
  nodes-tree_of (Node.hash x) d h = refl
  nodes-tree_of (Node.branch cs v) d h = ap (λ t. Node.branch t v) (nodes-trees_of cs (d - 1) h.2)
  nodes-tree_of (Node.extension s n) d h =
      ap₂ Node.extension (of_list-to_list s h.1) (nodes-tree_of n (d - s.count) h.2)
  nodes-tree_of (Node.leaf s v) d h = ap (λ t. Node.leaf t v) (of_list-to_list s h.1)

  nodes-trees_of : (cs : Children) (d : ℕ) → AreTries d cs → children_nodes (trees_of cs) ≡ cs
  nodes-trees_of nil d h = refl
  nodes-trees_of (cons n cs) d h = ap₂ cons (nodes-tree_of n d h.0) (nodes-trees_of cs d h.1)

size-trees_of : (cs : Children) → size (trees_of cs) ≡ count_children cs
unfolding tree_of
size-trees_of nil = refl
size-trees_of (cons n cs) = ap suc (size-trees_of cs)

mutual
  unfolding tree_of

  pub tree_of-HasDepth : (n : Node) (d : ℕ) → IsTrie d n → HasDepth d (tree_of n)
  tree_of-HasDepth Node.empty d h = tt
  tree_of-HasDepth (Node.hash x) d h = tt
  tree_of-HasDepth (Node.branch cs v) d h =
      (h.0, size-trees_of cs ∙ h.1, trees_of-HaveDepth cs (d - 1) h.2)
  tree_of-HasDepth (Node.extension s n) d h = (
    omega (arith, length-to_list s, h.0),
    to_list-AreNibbles s h.1,
    subst (λ m. HasDepth (d - m) (tree_of n)) (sym (length-to_list s))
        (tree_of-HasDepth n (d - s.count) h.2),
  )
  tree_of-HasDepth (Node.leaf s v) d h = (length-to_list s ∙ h.0, to_list-AreNibbles s h.1)

  trees_of-HaveDepth : (cs : Children) (d : ℕ) → AreTries d cs → HaveDepth d (trees_of cs)
  trees_of-HaveDepth nil d h = tt
  trees_of-HaveDepth (cons n cs) d h = (tree_of-HasDepth n d h.0, trees_of-HaveDepth cs d h.1)

count-nodes : (ts : Trees) → count_children (children_nodes ts) ≡ size ts
unfolding nodes
count-nodes Trees.nil = refl
count-nodes (Trees.cons t ts) = ap suc (count-nodes ts)

mutual
  unfolding nodes of_list

  pub nodes-IsTrie : (t : Tree) (d : ℕ) → HasDepth d t → IsTrie d (nodes t)
  nodes-IsTrie Tree.empty d h = tt
  nodes-IsTrie (Tree.hash x) d h = tt
  nodes-IsTrie (Tree.branch ts v) d h =
      (h.0, count-nodes ts ∙ h.1, children_nodes-AreTries ts (d - 1) h.2)
  nodes-IsTrie (Tree.extension xs t) d h =
      (h.0, value-lt xs h.1, nodes-IsTrie t (d - length xs) h.2)
  nodes-IsTrie (Tree.leaf xs v) d h = (h.0, value-lt xs h.1)

  children_nodes-AreTries : (ts : Trees) (d : ℕ) → HaveDepth d ts → AreTries d (children_nodes ts)
  children_nodes-AreTries Trees.nil d h = tt
  children_nodes-AreTries (Trees.cons t ts) d h =
      (nodes-IsTrie t d h.0, children_nodes-AreTries ts d h.1)

-- A key as a list.
pub to_list-IsKey : (d : ℕ) (s : Nibbles) → KeyOf d s → IsKey d (to_list s)
to_list-IsKey d s key = record {
  digits = to_list-AreNibbles s key.bounded;
  counted = length-to_list s ∙ key.counted;
  fits = key.fits;
}
