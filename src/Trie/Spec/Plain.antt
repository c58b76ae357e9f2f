-- ===== src/Trie/Spec/Plain.antt =====
-- Without hash nodes an insertion of a value always succeeds.
use bcw_zk_evm.Common.{
  ℕ, zero, suc, ◌-◌, ◌<◌, List, [], ◌∷◌, length, take, drop, arith, Bool-cases, inl, inr,
}
use bcw_zk_evm.Nibbles.Compare.{agree, common}
use bcw_zk_evm.Trie.{ValOrHash, Outcome, ok, err, panic, ◌>>=◌}
use bcw_zk_evm.Trie.Spec.{
  Tree, Trees, nil, cons, size, put, blank, create, extend, fork, fork_parts, fork_at, replace,
  insert, insert_at, HasDepth, HaveDepth,
}
use bcw_zk_evm.Trie.Spec.Refines.{IsKey, IsKey-drop, IsKey-tail}

abbrev mutual
  pub IsPlain : Tree → Type 0
  IsPlain Tree.empty = Unit
  IsPlain (Tree.hash h) = ⊥
  IsPlain (Tree.branch ts v) = ArePlain ts
  IsPlain (Tree.extension xs t) = IsPlain t
  IsPlain (Tree.leaf xs v) = Unit

  pub ArePlain : Trees → Type 0
  ArePlain nil = Unit
  ArePlain (cons t ts) = IsPlain t × ArePlain ts

put-ArePlain : (ts : Trees) (i : ℕ) (t : Tree) → ArePlain ts → IsPlain t → ArePlain (put ts i t)
unfolding put
put-ArePlain nil i t h k = tt
put-ArePlain (cons u ts) zero t h k = (k, h.1)
put-ArePlain (cons u ts) (suc i) t h k = (h.0, put-ArePlain ts i t h.1 k)

extend-IsPlain : (xs : List ℕ) (t : Tree) → IsPlain t → IsPlain (extend xs t)
unfolding extend
extend-IsPlain [] t h = h
extend-IsPlain (x ∷ xs) t h = h

fork_parts-IsPlain :
    (p xs k : List ℕ) (rest : List ℕ → Tree) (b : List ℕ)
    → ((r : List ℕ) → IsPlain (rest r))
    → IsPlain (fork_parts p xs k rest (ValOrHash.val b))
unfolding fork_parts fork blank create
fork_parts-IsPlain p [] k rest b h = tt
fork_parts-IsPlain p (y ∷ ys) [] rest b h = tt
fork_parts-IsPlain p (y ∷ ys) (z ∷ zs) rest b h =
    extend-IsPlain p (Tree.branch (put (put (blank 16) y (rest ys)) z (Tree.leaf zs b)) []) (
      put-ArePlain (put (blank 16) y (rest ys)) z (Tree.leaf zs b)
        (put-ArePlain (blank 16) y (rest ys) (omega arith) (h ys)) tt)

-- The result is a tree without hash nodes.
abbrev pub Succeeds : Outcome Tree → Type 0
Succeeds (ok t) = IsPlain t
Succeeds (err e) = ⊥
Succeeds panic = ⊥

abbrev SucceedAll : Outcome Trees → Type 0
SucceedAll (ok ts) = ArePlain ts
SucceedAll (err e) = ⊥
SucceedAll panic = ⊥

module _ (ts : Trees) (t : Tree) (w xs : List ℕ) where
  branch_plain : (r : Outcome Trees) → SucceedAll r → Succeeds (r >>= λ us. ok (Tree.branch us w))
  branch_plain (ok us) h = h
  branch_plain (err e) h = elim h [ ]
  branch_plain panic h = elim h [ ]

  extension_plain : (r : Outcome Tree) → Succeeds r → Succeeds (r >>= λ u. ok (Tree.extension xs u))
  extension_plain (ok u) h = h
  extension_plain (err e) h = elim h [ ]
  extension_plain panic h = elim h [ ]

  first_plain :
      (r : Outcome Tree) → ArePlain ts → Succeeds r → SucceedAll (r >>= λ u. ok (cons u ts))
  first_plain (ok u) k h = (h, k)
  first_plain (err e) k h = elim h [ ]
  first_plain panic k h = elim h [ ]

  rest_plain :
      (r : Outcome Trees) → IsPlain t → SucceedAll r → SucceedAll (r >>= λ us. ok (cons t us))
  rest_plain (ok us) k h = (k, h)
  rest_plain (err e) k h = elim h [ ]
  rest_plain panic k h = elim h [ ]

mutual
  unfolding insert replace fork_at create

  pub insert-Succeeds :
      (t : Tree) (d : ℕ) (k b : List ℕ)
      → HasDepth d t
      → IsKey d k
      → IsPlain t
      → Succeeds (insert t k (ValOrHash.val b))
  insert-Succeeds Tree.empty d k b h key p = tt
  insert-Succeeds (Tree.hash x) d k b h key p = p
  insert-Succeeds (Tree.branch ts w) d [] b h key p = p
  insert-Succeeds (Tree.branch ts w) d (x ∷ k) b h key p =
      branch_plain ts Tree.empty w [] (insert_at ts x k (ValOrHash.val b)) (
        insert_at-SucceedAll ts x (d - 1) k b h.2 (omega (arith, h.1, key.digits.0))
          (IsKey-tail key) p)
  insert-Succeeds (Tree.extension xs t) d k b h key p = elim (Bool-cases (agree xs k)) [
    | inl same ↦ rw same (
        extension_plain nil Tree.empty [] xs (insert t (drop (length xs) k) (ValOrHash.val b)) (
          insert-Succeeds t (d - length xs) (drop (length xs) k) b h.2
            (IsKey-drop (length xs) key h.0) p))
    | inr differ ↦ rw differ (
        fork_parts-IsPlain (take (common xs k) xs) (drop (common xs k) xs) (drop (common xs k) k)
          (λ r. extend r t) b (λ r. extend-IsPlain r t p))
  ]
  insert-Succeeds (Tree.leaf xs w) d k b h key p = elim (Bool-cases (agree xs k)) [
    | inl same ↦ rw same tt
    | inr differ ↦ rw differ (
        fork_parts-IsPlain (take (common xs k) xs) (drop (common xs k) xs) (drop (common xs k) k)
          (λ r. Tree.leaf r w) b (λ r. tt))
  ]

  insert_at-SucceedAll :
      (ts : Trees) (i d : ℕ) (k b : List ℕ)
      → HaveDepth d ts
      → i < size ts
      → IsKey d k
      → ArePlain ts
      → SucceedAll (insert_at ts i k (ValOrHash.val b))
  insert_at-SucceedAll nil i d k b h lt key p = absurd (omega arith)
  insert_at-SucceedAll (cons t ts) zero d k b h lt key p =
      first_plain ts t [] [] (insert t k (ValOrHash.val b)) p.1
        (insert-Succeeds t d k b h.0 key p.0)
  insert_at-SucceedAll (cons t ts) (suc i) d k b h lt key p =
      rest_plain ts t [] [] (insert_at ts i k (ValOrHash.val b)) p.0
        (insert_at-SucceedAll ts i d k b h.1 (omega arith) key p.1)
