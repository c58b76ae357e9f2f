-- ===== src/Trie/Spec/Refines/Fork.antt =====
-- Splitting a leaf or an extension does what `fork_at` does in the specification.
use bcw_zk_evm.Common.{
  ℕ, zero, suc, ◌+◌, ◌≤◌, ◌<◌, ◌≡◌, refl, ap, subst, ap₂, ◌∙◌, List, [], ◌∷◌, false, some,
  if◌then◌else◌, ◌==◌, ==_ne, length, take, drop, length-drop, length-take, All-drop, arith,
}
use bcw_zk_evm.Nibbles.{truncate_n_nibbles_front_mut}
use bcw_zk_evm.Nibbles.Value.{of_list, AreNibbles}
use bcw_zk_evm.Nibbles.Access.{get_nibble_lem}
use bcw_zk_evm.Nibbles.Slices.{truncate_front_drop, split_at-take-drop, split_postfix_drop}
use bcw_zk_evm.Nibbles.Compare.{common, find_nibble_idx_different_lem}
use bcw_zk_evm.Nibbles.Equal.{common-le, Parting}
use bcw_zk_evm.Trie.{Node, ValOrHash, ok}
use bcw_zk_evm.Trie.Place.{
  ExistingAndNewNodePreAndPost, get_pre_and_postfixes_for_existing_and_new_nodes,
  place_branch_and_potentially_ext_prefix,
  check_if_existing_or_new_node_should_go_in_branch_value_field, ins_entry_into_leaf_and_nibble,
  fill_branch, both_branch_children,
}
use bcw_zk_evm.Trie.Ops.{split_leaf, split_extension}
use bcw_zk_evm.Trie.Spec.{
  Tree, nodes, children_nodes, put, blank, create, extend, fork, fork_parts, fork_at,
}
use bcw_zk_evm.Trie.Spec.Refines.Nodes.{
  size-put, set_child-nodes, blank_nodes, size-blank, create-nodes,
}

-- The parts of two sequences at the place where they differ.
abbrev parts : List ℕ → List ℕ → ExistingAndNewNodePreAndPost
parts xs k = record {
  common_prefix = of_list (take (common xs k) xs);
  existing_postfix = of_list (drop (common xs k) xs);
  new_postfix = of_list (drop (common xs k) k);
}

module _ (xs k : List ℕ) (hx : AreNibbles xs) (hk : AreNibbles k) (fx : length xs ≤ 64)
    (fk : length k ≤ 64) where
  pub pre_post_lem :
      get_pre_and_postfixes_for_existing_and_new_nodes (of_list xs) (of_list k) ≡ ok (parts xs k)
  unfolding get_pre_and_postfixes_for_existing_and_new_nodes
  pre_post_lem =
      rw
        (
          find_nibble_idx_different_lem xs k hx hk fx fk,
          split_at-take-drop (common xs k) xs hx fx (common-le xs k).0,
          split_postfix_drop (common xs k) k hk fk (common-le xs k).1,
        )
        refl

-- The branch that keeps an old node below `y` and puts the new entry below `z`.
module _ (p : List ℕ) (y z : ℕ) (ys zs k : List ℕ) (hy : AreNibbles (y ∷ ys))
    (hz : AreNibbles (z ∷ zs)) (fy : length (y ∷ ys) ≤ 64) (fz : length (z ∷ zs) ≤ 64)
    (rest : truncate_n_nibbles_front_mut (of_list k) ((of_list p).count + 1) ≡ some (of_list zs))
    (old : Tree) (v : ValOrHash) where
  abbrev info : ExistingAndNewNodePreAndPost
  info = record {
    common_prefix = of_list p;
    existing_postfix = of_list (y ∷ ys);
    new_postfix = of_list (z ∷ zs);
  }

  new : Tree
  new = create zs v

  count_pos : (x : ℕ) (xs : List ℕ) → ((of_list (x ∷ xs)).count == 0) ≡ false
  unfolding of_list
  count_pos x xs = ==_ne (suc (length xs)) 0 (omega arith)

  entry_lem : ins_entry_into_leaf_and_nibble info (of_list k) v ≡ ok (z, nodes (create zs v))
  unfolding ins_entry_into_leaf_and_nibble
  entry_lem = rw (get_nibble_lem [] z zs hz fz, rest, create-nodes zs v)

  check_lem :
      check_if_existing_or_new_node_should_go_in_branch_value_field info (nodes old) (of_list k) v
      ≡ ok (both_branch_children (y, nodes old) (z, nodes (create zs v)))
  unfolding check_if_existing_or_new_node_should_go_in_branch_value_field
  check_lem = rw (count_pos y ys, count_pos z zs, get_nibble_lem [] y ys hy fy, entry_lem)

  fill_lem :
      fill_branch (both_branch_children (y, nodes old) (z, nodes (create zs v)))
      ≡ ok (children_nodes (put (put (blank 16) y old) z (create zs v)), [])
  unfolding fill_branch
  fill_lem = rw (
    blank_nodes,
    set_child-nodes (blank 16) y old (omega (arith, size-blank 16, hy.0)),
    set_child-nodes (put (blank 16) y old) z (create zs v)
        (omega (arith, size-put (blank 16) y old, size-blank 16, hz.0)),
  )

  pub place_lem :
      place_branch_and_potentially_ext_prefix info (nodes old) (of_list k) v
      ≡ ok (nodes (fork p y old z (create zs v)))
  unfolding place_branch_and_potentially_ext_prefix
  place_lem = rw (check_lem, fill_lem) (prefixed p)
    where
      prefixed :
          (q : List ℕ)
          → ok (
              if (of_list q).count == 0
              then Node.branch (children_nodes (put (put (blank 16) y old) z (create zs v))) []
              else Node.extension
                  (of_list q)
                  (Node.branch (children_nodes (put (put (blank 16) y old) z (create zs v))) []))
            ≡ ok (nodes (fork q y old z (create zs v)))
      prefixed [] = unfold fork extend nodes of_list in refl
      prefixed (x ∷ q) = unfold fork extend nodes in rw (count_pos x q)

extend-nodes :
    (xs : List ℕ) (t : Tree)
    → (if (of_list xs).count == 0 then nodes t else Node.extension (of_list xs) (nodes t))
      ≡ nodes (extend xs t)
unfolding extend nodes of_list
extend-nodes [] t = refl
extend-nodes (x ∷ xs) t = rw (==_ne (suc (length xs)) 0 (omega arith))

pub drop-suc :
    (c : ℕ) (xs : List ℕ) {y : ℕ} {ys : List ℕ}
    → drop c xs ≡ y ∷ ys
    → (drop (suc c) xs ≡ ys) × (suc c ≤ length xs)
drop-suc zero [] h = absurd (cc)
drop-suc zero (x ∷ xs) h = (cc, omega arith)
drop-suc (suc c) [] h = absurd (cc)
drop-suc (suc c) (x ∷ xs) h = let ih = drop-suc c xs h in (ih.0, omega (arith, ih.1))

-- What is left behind the common part and one nibble.
truncate_past :
    (c : ℕ) (p xs : List ℕ) {y : ℕ} {ys : List ℕ}
    → AreNibbles xs
    → length xs ≤ 64
    → length p ≡ c
    → drop c xs ≡ y ∷ ys
    → truncate_n_nibbles_front_mut (of_list xs) ((of_list p).count + 1) ≡ some (of_list ys)
truncate_past c p xs hx fx e h =
    ap (truncate_n_nibbles_front_mut (of_list xs)) counted
    ∙ truncate_front_drop (suc c) xs hx fx (drop-suc c xs h).1
    ∙ ap (λ t. some (of_list t)) (drop-suc c xs h).0
  where
    counted : (of_list p).count + 1 ≡ suc c
    counted = unfold of_list in omega (arith, e)

module _ (xs k : List ℕ) (hx : AreNibbles xs) (hk : AreNibbles k) (fx : length xs ≤ 64)
    (fk : length k ≤ 64) (v : ValOrHash) (part : Parting xs k) where
  abbrev c : ℕ
  c = common xs k

  shared : length (take c xs) ≡ c
  shared = omega (arith, length-take c xs, common-le xs k)

  here_nibbles : AreNibbles (part.here ∷ part.here_rest)
  here_nibbles = subst AreNibbles part.left (All-drop (λ n. n < 16) c xs hx)

  there_nibbles : AreNibbles (part.there ∷ part.there_rest)
  there_nibbles = subst AreNibbles part.right (All-drop (λ n. n < 16) c k hk)

  here_fits : length (part.here ∷ part.here_rest) ≤ 64
  here_fits = omega (arith, ap length part.left, length-drop c xs)

  there_fits : length (part.there ∷ part.there_rest) ≤ 64
  there_fits = omega (arith, ap length part.right, length-drop c k)

  past_xs :
      truncate_n_nibbles_front_mut (of_list xs) ((of_list (take c xs)).count + 1)
      ≡ some (of_list part.here_rest)
  past_xs = truncate_past c (take c xs) xs hx fx shared part.left

  past_k :
      truncate_n_nibbles_front_mut (of_list k) ((of_list (take c xs)).count + 1)
      ≡ some (of_list part.there_rest)
  past_k = truncate_past c (take c xs) k hk fk shared part.right

  abbrev part_info : ExistingAndNewNodePreAndPost
  part_info = record {
    common_prefix = of_list (take c xs);
    existing_postfix = of_list (part.here ∷ part.here_rest);
    new_postfix = of_list (part.there ∷ part.there_rest);
  }

  info_lem :
      get_pre_and_postfixes_for_existing_and_new_nodes (of_list xs) (of_list k) ≡ ok part_info
  info_lem =
      pre_post_lem xs k hx hk fx fk
      ∙ ap₂
          (λ a b. ok (record {
            common_prefix = of_list (take c xs);
            existing_postfix = of_list a;
            new_postfix = of_list b;
          }))
          part.left part.right

  placed :
      (old : Tree)
      → place_branch_and_potentially_ext_prefix part_info (nodes old) (of_list k) v
        ≡ ok (nodes (fork (take c xs) part.here old part.there (create part.there_rest v)))
  placed = λ old.
      place_lem (take c xs) part.here part.there part.here_rest part.there_rest k here_nibbles
        there_nibbles here_fits there_fits past_k old v

  placed_leaf :
      (w : List ℕ)
      → place_branch_and_potentially_ext_prefix part_info
          (Node.leaf (of_list part.here_rest) w)
          (of_list k)
          v
        ≡ ok (
            nodes (
              fork
                (take c xs)
                part.here
                (Tree.leaf part.here_rest w)
                part.there
                (create part.there_rest v)))
  unfolding nodes
  placed_leaf w = placed (Tree.leaf part.here_rest w)

  fork_at_lem :
      (rest : List ℕ → Tree)
      → fork_at xs k rest v
        ≡ fork (take c xs) part.here (rest part.here_rest) part.there (create part.there_rest v)
  unfolding fork_at fork_parts
  fork_at_lem rest = rw (part.left, part.right)

  pub split_leaf_lem :
      (w : List ℕ)
      → split_leaf (of_list xs) w (of_list k) v
        ≡ ok (some (nodes (fork_at xs k (λ r. Tree.leaf r w) v)))
  unfolding split_leaf
  split_leaf_lem w = rw (info_lem, past_xs, fork_at_lem (λ r. Tree.leaf r w), placed_leaf w)

  pub split_extension_lem :
      (t : Tree)
      → split_extension (of_list xs) (nodes t) (of_list k) v
        ≡ ok (some (nodes (fork_at xs k (λ r. extend r t) v)))
  unfolding split_extension
  split_extension_lem t = rw (
    info_lem,
    truncate_front_drop 1 (part.here ∷ part.here_rest) here_nibbles here_fits (omega arith),
    extend-nodes part.here_rest t,
    fork_at_lem (λ r. extend r t),
    placed (extend part.here_rest t),
  )
