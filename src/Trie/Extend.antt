-- ===== src/Trie/Extend.antt =====
-- Tries without hash nodes: inserting values always succeeds, and a sequence of insertions reads as
-- the sequence of updates of a finite map.
use bcw_zk_evm.Common.{
  ℕ, ◌≡◌, refl, sym, ap, subst, ◌∙◌, List, [], ◌∷◌, Option, some, if◌then◌else◌, All,
}
use bcw_zk_evm.Nibbles.{Nibbles}
use bcw_zk_evm.Nibbles.ToList.{to_list}
use bcw_zk_evm.Trie.{
  Node, Children, nil, cons, ValOrHash, Outcome, ok, err, panic, ◌>>=◌, eq_nibbles,
}
use bcw_zk_evm.Trie.Ops.{trie_get, trie_insert, trie_extend}
use bcw_zk_evm.Trie.Spec.{Tree, Trees, nodes, children_nodes, insert}
use bcw_zk_evm.Trie.Spec.Plain.{IsPlain, ArePlain, Succeeds, insert-Succeeds}
use bcw_zk_evm.Trie.Shape.{KeyOf, IsTrie, tree_of, trees_of, tree_of-HasDepth, to_list-IsKey}
use bcw_zk_evm.Trie.Correct.{Inserted, trie_insert_lem, insert_lem}

abbrev mutual
  pub HasNoHash : Node → Type 0
  HasNoHash Node.empty = Unit
  HasNoHash (Node.hash h) = ⊥
  HasNoHash (Node.branch cs v) = HaveNoHash cs
  HasNoHash (Node.extension s n) = HasNoHash n
  HasNoHash (Node.leaf s v) = Unit

  pub HaveNoHash : Children → Type 0
  HaveNoHash nil = Unit
  HaveNoHash (cons n cs) = HasNoHash n × HaveNoHash cs

mutual
  unfolding tree_of

  tree_of-IsPlain : (n : Node) → HasNoHash n → IsPlain (tree_of n)
  tree_of-IsPlain Node.empty h = tt
  tree_of-IsPlain (Node.hash x) h = h
  tree_of-IsPlain (Node.branch cs v) h = trees_of-ArePlain cs h
  tree_of-IsPlain (Node.extension s n) h = tree_of-IsPlain n h
  tree_of-IsPlain (Node.leaf s v) h = tt

  trees_of-ArePlain : (cs : Children) → HaveNoHash cs → ArePlain (trees_of cs)
  trees_of-ArePlain nil h = tt
  trees_of-ArePlain (cons n cs) h = (tree_of-IsPlain n h.0, trees_of-ArePlain cs h.1)

mutual
  unfolding nodes

  nodes-HasNoHash : (t : Tree) → IsPlain t → HasNoHash (nodes t)
  nodes-HasNoHash Tree.empty h = tt
  nodes-HasNoHash (Tree.hash x) h = h
  nodes-HasNoHash (Tree.branch ts v) h = children_nodes-HaveNoHash ts h
  nodes-HasNoHash (Tree.extension xs t) h = nodes-HasNoHash t h
  nodes-HasNoHash (Tree.leaf xs v) h = tt

  children_nodes-HaveNoHash : (ts : Trees) → ArePlain ts → HaveNoHash (children_nodes ts)
  children_nodes-HaveNoHash Trees.nil h = tt
  children_nodes-HaveNoHash (Trees.cons t ts) h =
      (nodes-HasNoHash t h.0, children_nodes-HaveNoHash ts h.1)

module _ (d : ℕ) (n : Node) (s : Nibbles) (b : List ℕ) (trie : IsTrie d n) (key : KeyOf d s)
    (plain : HasNoHash n) where
  -- In a trie of keys of a fixed number of nibbles and without hash nodes, inserting a value at such a
  -- key succeeds, and leaves no hash node.
  pub trie_insert_succeeds :
      (n' : Node) × (trie_insert n s (ValOrHash.val b) ≡ ok n') × HasNoHash n'
  trie_insert_succeeds =
      subst (λ r. (n' : Node) × (r ≡ ok n') × HasNoHash n')
        (sym (insert_lem d n s trie key (ValOrHash.val b)))
        (made (insert (tree_of n) (to_list s) (ValOrHash.val b)) (
          insert-Succeeds (tree_of n) d (to_list s) b (tree_of-HasDepth n d trie)
            (to_list-IsKey d s key) (tree_of-IsPlain n plain)))
    where
      made :
          (r : Outcome Tree)
          → Succeeds r
          → (n' : Node) × ((r >>= λ t. ok (nodes t)) ≡ ok n') × HasNoHash n'
      made (ok t) h = (nodes t, refl, nodes-HasNoHash t h)
      made (err e) h = elim h [ ]
      made panic h = elim h [ ]

-- The values entered, in order, at keys.
abbrev pub entries : List (Nibbles × List ℕ) → List (Nibbles × ValOrHash)
entries [] = []
entries ((s, b) ∷ es) = (s, ValOrHash.val b) ∷ entries es

-- What `q` reads as after the updates, where it read as `old` before.
pub replay :
    Nibbles → Outcome (Option (List ℕ)) → List (Nibbles × List ℕ) → Outcome (Option (List ℕ))
replay q old [] = old
replay q old ((s, b) ∷ es) = replay q (if eq_nibbles s q then ok (some b) else old) es

abbrev pub AreKeys : ℕ → List (Nibbles × List ℕ) → Type 0
AreKeys d = All (λ e. KeyOf d e.0)

-- Into a trie of keys of a fixed number of nibbles and without hash nodes, `trie_extend` enters values
-- at such keys with success and keeps the trie so; such a key then reads as the last value entered
-- at it, or as before where none was.
pub trie_extend_refines :
    (es : List (Nibbles × List ℕ)) (d : ℕ) (n : Node) (q : Nibbles)
    → IsTrie d n
    → HasNoHash n
    → AreKeys d es
    → KeyOf d q
    → (n' : Node) × (trie_extend n (entries es) ≡ ok n')
      × IsTrie d n'
      × HasNoHash n'
      × (trie_get n' q ≡ replay q (trie_get n q) es)
unfolding trie_extend replay
trie_extend_refines [] d n q trie plain keys other = (n, refl, trie, plain, refl)
trie_extend_refines ((s, b) ∷ es) d n q trie plain keys other =
    let (m, made, plain_m) = trie_insert_succeeds d n s b trie keys.0 plain in
    let after : Inserted d n s (ValOrHash.val b) q (ok m) =
      subst (Inserted d n s (ValOrHash.val b) q) made
        (trie_insert_lem d n s (ValOrHash.val b) q trie keys.0 other) in
    let (n', extended, trie', plain', reads) =
      trie_extend_refines es d m q after.0 plain_m keys.1 other in
    (n', rw made extended, trie', plain', reads ∙ ap (λ r. replay q r es) after.1)
