-- ===== src/Trie/Spec.antt =====
-- The specification of the trie: the same tree over lists of nibbles, where nothing can panic.
pub mod Refines
pub mod Reads
pub mod Plain
use bcw_zk_evm.Common.{
  ℕ, zero, suc, ◌-◌, ◌≤◌, ◌<◌, ◌≡◌, List, [], ◌∷◌, Bool, true, false, Option, none, some,
  if◌then◌else◌, length, take, drop,
}
use bcw_zk_evm.Nibbles.Value.{of_list, AreNibbles}
use bcw_zk_evm.Nibbles.Compare.{agree, common}
use bcw_zk_evm.Trie.{Node, Children, ValOrHash, Outcome, ok, err, panic, TrieOpError, ◌>>=◌}
use bcw_zk_evm.Trie.Ops.{some_if_filled}

mutual
  pub data Tree : Type 0 where
    empty : Tree
    hash : ℕ → Tree
    branch : Trees → List ℕ → Tree
    extension : List ℕ → Tree → Tree
    leaf : List ℕ → List ℕ → Tree

  pub data Trees : Type 0 where
    nil : Trees
    cons : Tree → Trees → Trees

-- The nodes that a tree stands for.
unfoldable mutual
  pub nodes : Tree → Node
  nodes Tree.empty = Node.empty
  nodes (Tree.hash h) = Node.hash h
  nodes (Tree.branch ts v) = Node.branch (children_nodes ts) v
  nodes (Tree.extension xs t) = Node.extension (of_list xs) (nodes t)
  nodes (Tree.leaf xs v) = Node.leaf (of_list xs) v

  pub children_nodes : Trees → Children
  children_nodes nil = Children.nil
  children_nodes (cons t ts) = Children.cons (nodes t) (children_nodes ts)

abbrev pub size : Trees → ℕ
size nil = 0
size (cons t ts) = suc (size ts)

-- Every key below has `d` nibbles: the fixed-size keys for which the trie is used.
abbrev mutual
  pub HasDepth : ℕ → Tree → Type 0
  HasDepth d Tree.empty = Unit
  HasDepth d (Tree.hash h) = Unit
  HasDepth d (Tree.branch ts v) = (0 < d) × (size ts ≡ 16) × HaveDepth (d - 1) ts
  HasDepth d (Tree.extension xs t) = (length xs ≤ d) × AreNibbles xs × HasDepth (d - length xs) t
  HasDepth d (Tree.leaf xs v) = (length xs ≡ d) × AreNibbles xs

  pub HaveDepth : ℕ → Trees → Type 0
  HaveDepth d nil = Unit
  HaveDepth d (cons t ts) = HasDepth d t × HaveDepth d ts

unfoldable mutual
  pub get : Tree → List ℕ → Option (List ℕ)
  get Tree.empty k = none
  get (Tree.hash h) k = none
  get (Tree.branch ts v) [] = some_if_filled v
  get (Tree.branch ts v) (x ∷ k) = get_at ts x k
  get (Tree.extension xs t) k = if agree xs k then get t (drop (length xs) k) else none
  get (Tree.leaf xs v) k = if agree xs k then some v else none

  pub get_at : Trees → ℕ → List ℕ → Option (List ℕ)
  get_at nil i k = none
  get_at (cons t ts) zero k = get t k
  get_at (cons t ts) (suc i) k = get_at ts i k

unfoldable pub put : Trees → ℕ → Tree → Trees
put nil i t = nil
put (cons u ts) zero t = cons t ts
put (cons u ts) (suc i) t = cons u (put ts i t)

unfoldable pub blank : ℕ → Trees
blank zero = nil
blank (suc n) = cons Tree.empty (blank n)

-- A tree with one entry.
unfoldable pub create : List ℕ → ValOrHash → Tree
create k (ValOrHash.val v) = Tree.leaf k v
create [] (ValOrHash.hash h) = Tree.hash h
create (x ∷ k) (ValOrHash.hash h) = Tree.extension (x ∷ k) (Tree.hash h)

unfoldable pub extend : List ℕ → Tree → Tree
extend [] t = t
extend (x ∷ xs) t = Tree.extension (x ∷ xs) t

-- After the nibbles `p`, two ways on: by `y` and by `z`.
unfoldable pub fork : List ℕ → ℕ → Tree → ℕ → Tree → Tree
fork p y t z u = extend p (Tree.branch (put (put (blank 16) y t) z u) [])

unfoldable pub fork_parts : List ℕ → List ℕ → List ℕ → (List ℕ → Tree) → ValOrHash → Tree
fork_parts p (y ∷ ys) (z ∷ zs) rest v = fork p y (rest ys) z (create zs v)
fork_parts p [] zs rest v = Tree.empty
fork_parts p (y ∷ ys) [] rest v = Tree.empty

-- The old entries go on by `rest` where the key `k` leaves `xs`.
unfoldable pub fork_at : List ℕ → List ℕ → (List ℕ → Tree) → ValOrHash → Tree
fork_at xs k rest v = let c = common xs k in fork_parts (take c xs) (drop c xs) (drop c k) rest v

unfoldable pub replace : ValOrHash → (List ℕ → Tree) → Outcome Tree
replace (ValOrHash.val v) f = ok (f v)
replace (ValOrHash.hash h) f = err (TrieOpError.existing_hash_node_error h)

unfoldable mutual
  pub insert : Tree → List ℕ → ValOrHash → Outcome Tree
  insert Tree.empty k v = ok (create k v)
  insert (Tree.hash h) k v = err (TrieOpError.hash_node_insert_error h)
  insert (Tree.branch ts w) [] v = replace v (Tree.branch ts)
  insert (Tree.branch ts w) (x ∷ k) v = insert_at ts x k v >>= λ ts'. ok (Tree.branch ts' w)
  insert (Tree.extension xs t) k v =
      if agree xs k
      then (insert t (drop (length xs) k) v >>= λ t'. ok (Tree.extension xs t'))
      else ok (fork_at xs k (λ rest. extend rest t) v)
  insert (Tree.leaf xs w) k v =
      if agree xs k
      then replace v (Tree.leaf xs)
      else ok (fork_at xs k (λ rest. Tree.leaf rest w) v)

  pub insert_at : Trees → ℕ → List ℕ → ValOrHash → Outcome Trees
  insert_at nil i k v = panic
  insert_at (cons t ts) zero k v = insert t k v >>= λ t'. ok (cons t' ts)
  insert_at (cons t ts) (suc i) k v = insert_at ts i k v >>= λ ts'. ok (cons t ts')
