-- ===== src/Trie/Spec/Refines.antt =====
-- The trie of `trie_ops.rs` does what its specification does.
pub mod Nodes
pub mod Fork
pub mod Insert
use bcw_zk_evm.Common.{
  ℕ, zero, suc, ◌+◌, ◌-◌, ◌≤◌, ◌<◌, ◌≡◌, refl, sym, ap, ◌∙◌, List, [], ◌∷◌, Bool, true, false,
  Option, none, some, if◌then◌else◌, ◌==◌, ==_ne, length, take, drop, length-drop, length-take,
  All-take, All-drop, arith,
}
use bcw_zk_evm.Nibbles.{Nibbles, is_empty}
use bcw_zk_evm.Nibbles.Value.{of_list, AreNibbles}
use bcw_zk_evm.Nibbles.Slices.{pop_front_cons, pop_front-take-drop}
use bcw_zk_evm.Nibbles.Compare.{agree, nibbles_are_identical_up_to_smallest_count_lem}
use bcw_zk_evm.Trie.{Node, Children, Outcome, ok, err, panic, ◌>>=◌, lift}
use bcw_zk_evm.Trie.Ops.{trie_get, trie_get_intern, get_in_child}
use bcw_zk_evm.Trie.Spec.{
  Tree, Trees, nil, cons, nodes, children_nodes, size, HasDepth, HaveDepth, get, get_at,
}

-- A key of `d` nibbles.
pub record IsKey (d : ℕ) (k : List ℕ) : Type 0 where
  pub digits : AreNibbles k
  pub counted : length k ≡ d
  pub fits : d ≤ 64

pub agree-take : (xs k : List ℕ) → length xs ≤ length k → agree (take (length xs) k) xs ≡ agree xs k
unfolding agree
agree-take [] k h = refl
agree-take (x ∷ xs) [] h = absurd (omega arith)
agree-take (x ∷ xs) (y ∷ k) h = ground (arith, agree-take xs k)

pub IsKey-drop : {d : ℕ} {k : List ℕ} (n : ℕ) → IsKey d k → n ≤ d → IsKey (d - n) (drop n k)
IsKey-drop {k = k} n key h = record {
  digits = All-drop (λ m. m < 16) n k key.digits;
  counted = omega (arith, key.counted, length-drop n k);
  fits = omega (arith, key.fits);
}

pub IsKey-tail : {d : ℕ} {x : ℕ} {k : List ℕ} → IsKey d (x ∷ k) → IsKey (d - 1) k
IsKey-tail key = record {
  digits = key.digits.1;
  counted = omega (arith, key.counted);
  fits = omega (arith, key.fits);
}

pub not_empty : (x : ℕ) (k : List ℕ) → is_empty (of_list (x ∷ k)) ≡ false
unfolding is_empty of_list
not_empty x k = ==_ne (suc (length k)) 0 (omega arith)

if_ok :
    (b : Bool) {r : Outcome (Option (List ℕ))} {o : Option (List ℕ)}
    → r ≡ ok o
    → (if b then r else ok none) ≡ ok (if b then o else none)
if_ok true h = h
if_ok false h = refl

mutual
  unfolding nodes trie_get_intern get of_list is_empty

  pub get-nodes :
      (t : Tree) (d : ℕ) (k : List ℕ)
      → HasDepth d t
      → IsKey d k
      → trie_get_intern (nodes t) (of_list k) ≡ ok (get t k)
  get-nodes Tree.empty d k h key = refl
  get-nodes (Tree.hash x) d k h key = refl
  get-nodes (Tree.branch ts v) d [] h key = refl
  get-nodes (Tree.branch ts v) d (x ∷ k) h key =
      rw (not_empty x k, pop_front_cons x k key.digits (omega (arith, key.counted, key.fits)))
        (get_children ts x (d - 1) k h.2 (omega (arith, h.1, key.digits.0)) (IsKey-tail key))
  get-nodes (Tree.extension xs t) d k h key =
      rw
        (
          pop_front-take-drop (length xs) k key.digits (omega (arith, key.counted, key.fits))
              (omega (arith, key.counted)),
          nibbles_are_identical_up_to_smallest_count_lem (take (length xs) k) xs
              (All-take (λ m. m < 16) (length xs) k key.digits) h.1
              (omega (arith, length-take (length xs) k, key.counted, key.fits))
              (omega (arith, key.fits)),
          agree-take xs k (omega (arith, key.counted)),
        )
        (if_ok (agree xs k)
          (get-nodes t (d - length xs) (drop (length xs) k) h.2 (IsKey-drop (length xs) key h.0)))
  get-nodes (Tree.leaf xs v) d k h key =
      rw
        (nibbles_are_identical_up_to_smallest_count_lem xs k h.1 key.digits
          (omega (arith, key.fits)) (omega (arith, key.counted, key.fits)))
        (if_ok (agree xs k) refl)

  get_children :
      (ts : Trees) (i d : ℕ) (k : List ℕ)
      → HaveDepth d ts
      → i < size ts
      → IsKey d k
      → get_in_child (children_nodes ts) i (of_list k) ≡ ok (get_at ts i k)
  get_children nil i d k h lt key = absurd (omega arith)
  get_children (cons t ts) zero d k h lt key = get-nodes t d k h.0 key
  get_children (cons t ts) (suc i) d k h lt key = get_children ts i d k h.1 (omega arith) key
