-- ===== src/Trie/Correct.antt =====
-- What `trie_insert`, `trie_extend` and `trie_get` of `mpt_trie/src/trie_ops.rs` promise, on tries
-- whose keys have a fixed number of nibbles.
use bcw_zk_evm.Common.{
  ℕ, ◌≡◌, refl, sym, ap, ap₂, ◌∙◌, Bool, true, false, some, if◌then◌else◌, length,
}
use bcw_zk_evm.Nibbles.{Nibbles}
use bcw_zk_evm.Nibbles.ToList.{to_list, length-to_list, of_list-to_list, to_list-AreNibbles}
use bcw_zk_evm.Nibbles.Compare.{agree}
use bcw_zk_evm.Trie.{Node, ValOrHash, Outcome, ok, err, panic, ◌>>=◌, lift, eq_nibbles}
use bcw_zk_evm.Trie.Ops.{trie_get, trie_get_intern, trie_insert, insert_into_trie_rec}
use bcw_zk_evm.Trie.Spec.{Tree, nodes, get, insert}
use bcw_zk_evm.Trie.Spec.Refines.{get-nodes}
use bcw_zk_evm.Trie.Spec.Refines.Nodes.{eq_nibbles_lem}
use bcw_zk_evm.Trie.Spec.Refines.Insert.{insert-nodes}
use bcw_zk_evm.Trie.Spec.Reads.{entered}
use bcw_zk_evm.Trie.Spec.Reads.Insert.{After, After-insert}
use bcw_zk_evm.Trie.Shape.{
  KeyOf, IsTrie, tree_of, nodes-tree_of, tree_of-HasDepth, nodes-IsTrie, to_list-IsKey,
}

module _ (d : ℕ) (n : Node) (s : Nibbles) (trie : IsTrie d n) (key : KeyOf d s) where
  -- In a trie of keys of a fixed number of nibbles, reading such a key never panics: it is the reading
  -- of the tree of lists that the trie stands for.
  pub trie_get_lem : trie_get n s ≡ ok (get (tree_of n) (to_list s))
  unfolding trie_get
  trie_get_lem =
      ap₂ trie_get_intern (sym (nodes-tree_of n d trie)) (sym (of_list-to_list s key.bounded))
      ∙ get-nodes (tree_of n) d (to_list s) (tree_of-HasDepth n d trie) (to_list-IsKey d s key)

  pub insert_lem :
      (v : ValOrHash) → trie_insert n s v ≡ (insert (tree_of n) (to_list s) v >>= λ t. ok (nodes t))
  unfolding trie_insert
  insert_lem v =
      ap₂ (λ m k. insert_into_trie_rec m k v >>= λ u. lift u) (sym (nodes-tree_of n d trie))
        (sym (of_list-to_list s key.bounded))
      ∙ ap (λ r. r >>= λ u. lift u)
          (insert-nodes (tree_of n) d (to_list s) v (tree_of-HasDepth n d trie)
            (to_list-IsKey d s key))
      ∙ unwrapped (insert (tree_of n) (to_list s) v)
    where
      unwrapped :
          (r : Outcome Tree)
          → ((r >>= λ t. ok (some (nodes t))) >>= λ u. lift u) ≡ (r >>= λ t. ok (nodes t))
      unwrapped (ok t) = refl
      unwrapped (err e) = refl
      unwrapped panic = refl

pub eq_nibbles-agree :
    (d : ℕ) (s q : Nibbles) → KeyOf d s → KeyOf d q → eq_nibbles s q ≡ agree (to_list s) (to_list q)
eq_nibbles-agree d s q key other =
    ap₂ eq_nibbles (sym (of_list-to_list s key.bounded)) (sym (of_list-to_list q other.bounded))
    ∙ eq_nibbles_lem (to_list s) (to_list q) (to_list-AreNibbles s key.bounded)
        (to_list-AreNibbles q other.bounded) same
  where
    same : length (to_list s) ≡ length (to_list q)
    same = length-to_list s ∙ key.counted ∙ sym (length-to_list q ∙ other.counted)

-- What an insertion of `v` at `s` leaves for the reading at `q`: another trie of the depth, in
-- which `s` alone reads anew.
abbrev pub Inserted : ℕ → Node → Nibbles → ValOrHash → Nibbles → Outcome Node → Type 0
Inserted d n s v q (ok n') =
    IsTrie d n' × (trie_get n' q ≡ (if eq_nibbles s q then ok (entered v) else trie_get n q))
Inserted d n s v q (err e) = Unit
Inserted d n s v q panic = ⊥

module _ (d : ℕ) (n : Node) (s : Nibbles) (v : ValOrHash) (q : Nibbles) (trie : IsTrie d n)
    (key : KeyOf d s) (other : KeyOf d q) where
  reads_anew :
      (t : Tree)
      → After d (to_list s) v (to_list q) (get (tree_of n) (to_list q)) (ok t)
      → trie_get (nodes t) q ≡ (if eq_nibbles s q then ok (entered v) else trie_get n q)
  reads_anew t after =
      trie_get-nodes
      ∙ ap ok after.1
      ∙ choose (agree (to_list s) (to_list q))
      ∙ ap₂ (λ b r. if b then ok (entered v) else r) (sym (eq_nibbles-agree d s q key other))
          (sym (trie_get_lem d n q trie other))
    where
      trie_get-nodes : trie_get (nodes t) q ≡ ok (get t (to_list q))
      trie_get-nodes =
          unfold trie_get in
          (ap (trie_get_intern (nodes t)) (sym (of_list-to_list q other.bounded))
            ∙ get-nodes t d (to_list q) after.0 (to_list-IsKey d q other))

      choose :
          (b : Bool)
          → ok (if b then entered v else get (tree_of n) (to_list q))
            ≡ (if b then ok (entered v) else ok (get (tree_of n) (to_list q)))
      choose true = refl
      choose false = refl

  Inserted-by :
      (r : Outcome Tree)
      → After d (to_list s) v (to_list q) (get (tree_of n) (to_list q)) r
      → Inserted d n s v q (r >>= λ t. ok (nodes t))
  Inserted-by (ok t) h = (nodes-IsTrie t d h.0, reads_anew t h)
  Inserted-by (err e) h = tt
  Inserted-by panic h = h

  -- In a trie of keys of a fixed number of nibbles, inserting at such a key never panics; where it
  -- succeeds, the trie keeps its keys' length, the key reads as the value inserted (a hash as none),
  -- and every other such key as before.
  pub trie_insert_lem : Inserted d n s v q (trie_insert n s v)
  trie_insert_lem = rw (insert_lem d n s trie key v) (
      Inserted-by (insert (tree_of n) (to_list s) v) (
        After-insert (tree_of n) d (to_list s) (to_list q) v (tree_of-HasDepth n d trie)
          (to_list-IsKey d s key) (to_list-IsKey d q other)))
