-- ===== src/Trie/Spec/Reads.antt =====
-- Reading and inserting at the nodes of the specification, one lemma for each shape.
pub mod Fork
pub mod Insert
use bcw_zk_evm.Common.{
  ℕ, zero, suc, ◌+◌, ◌-◌, ◌≤◌, ◌<◌, ◌≡◌, ◌≢◌, refl, sym, ap, subst, ◌∙◌, List, [], ◌∷◌, Bool, true,
  false, ◌&&◌, Option, none, some, if◌then◌else◌, ◌==◌, ==_ne, ==_refl, length, take, drop,
  length-drop, length-take, All-drop, All-take, arith,
}
use bcw_zk_evm.Nibbles.Value.{AreNibbles}
use bcw_zk_evm.Nibbles.Compare.{agree, common}
use bcw_zk_evm.Nibbles.Equal.{Parting, common-le, take-common, agree_refl}
use bcw_zk_evm.Trie.{ValOrHash}
use bcw_zk_evm.Trie.Spec.{
  Tree, Trees, nil, cons, size, HasDepth, HaveDepth, get, get_at, put, blank, create, extend, fork,
  fork_parts, fork_at,
}
use bcw_zk_evm.Trie.Spec.Refines.Nodes.{size-put, size-blank}
use bcw_zk_evm.Trie.Spec.Refines.Fork.{drop-suc}

-- What a key reads as once `v` is entered at it: a hash node stands for no value.
abbrev pub entered : ValOrHash → Option (List ℕ)
entered (ValOrHash.val b) = some b
entered (ValOrHash.hash h) = none

-- Two lists agree if their first parts do and their last parts do.
pub agree_cut :
    (c : ℕ) (xs q : List ℕ)
    → c ≤ length xs
    → c ≤ length q
    → agree xs q ≡ (agree (take c xs) q && agree (drop c xs) (drop c q))
unfolding agree
agree_cut zero xs q h k = refl
agree_cut (suc c) [] q h k = absurd (omega arith)
agree_cut (suc c) (x ∷ xs) [] h k = absurd (omega arith)
agree_cut (suc c) (x ∷ xs) (y ∷ q) h k = ground (arith, agree_cut c xs q)

pub get-create :
    (k q : List ℕ) (v : ValOrHash) → get (create k v) q ≡ (if agree k q then entered v else none)
unfolding get create agree
get-create k q (ValOrHash.val b) = refl
get-create [] q (ValOrHash.hash h) = refl
get-create (x ∷ k) q (ValOrHash.hash h) = ground arith

pub create-HasDepth :
    (k : List ℕ) (d : ℕ) (v : ValOrHash) → AreNibbles k → length k ≡ d → HasDepth d (create k v)
unfolding create
create-HasDepth k d (ValOrHash.val b) h e = (e, h)
create-HasDepth [] d (ValOrHash.hash x) h e = tt
create-HasDepth (y ∷ k) d (ValOrHash.hash x) h e = (omega (arith, e), h, tt)

pub get-extend :
    (xs : List ℕ) (t : Tree) (q : List ℕ)
    → get (extend xs t) q ≡ (if agree xs q then get t (drop (length xs) q) else none)
unfolding get extend agree
get-extend [] t q = refl
get-extend (x ∷ xs) t q = refl

pub extend-HasDepth :
    (xs : List ℕ) (d e : ℕ) (t : Tree)
    → AreNibbles xs
    → d ≡ length xs + e
    → HasDepth e t
    → HasDepth d (extend xs t)
unfolding extend
extend-HasDepth [] d e t hx h k = subst (λ n. HasDepth n t) (omega (arith, h)) k
extend-HasDepth (x ∷ xs) d e t hx h k =
    (omega (arith, h), hx, subst (λ n. HasDepth n t) (omega (arith, h)) k)

pub get_at-put :
    (ts : Trees) (i j : ℕ) (t : Tree) (q : List ℕ)
    → i < size ts
    → get_at (put ts i t) j q ≡ (if i == j then get t q else get_at ts j q)
unfolding get put
get_at-put nil i j t q h = absurd (omega arith)
get_at-put (cons u ts) zero zero t q h = refl
get_at-put (cons u ts) zero (suc j) t q h = rw (==_ne 0 (suc j) (omega arith))
get_at-put (cons u ts) (suc i) zero t q h = rw (==_ne (suc i) 0 (omega arith))
get_at-put (cons u ts) (suc i) (suc j) t q h = ground (arith, get_at-put ts i j t q)

get_at-blank : (n i : ℕ) (q : List ℕ) → get_at (blank n) i q ≡ none
unfolding get blank
get_at-blank zero i q = refl
get_at-blank (suc n) zero q = refl
get_at-blank (suc n) (suc i) q = get_at-blank n i q

put-HaveDepth :
    (ts : Trees) (i d : ℕ) (t : Tree) → HaveDepth d ts → HasDepth d t → HaveDepth d (put ts i t)
unfolding put
put-HaveDepth nil i d t h k = tt
put-HaveDepth (cons u ts) zero d t h k = (k, h.1)
put-HaveDepth (cons u ts) (suc i) d t h k = (h.0, put-HaveDepth ts i d t h.1 k)

blank-HaveDepth : (n d : ℕ) → HaveDepth d (blank n)
unfolding blank
blank-HaveDepth zero d = tt
blank-HaveDepth (suc n) d = (tt, blank-HaveDepth n d)

module _ (p : List ℕ) (y z : ℕ) (t u : Tree) (hy : y < 16) (hz : z < 16) where
  -- A fork reads as its first part or as its second, by the nibble behind `p`.
  pub get-fork :
      (q : List ℕ) (w : ℕ) (ws : List ℕ)
      → drop (length p) q ≡ w ∷ ws
      → get (fork p y t z u) q ≡ (
          if agree p q
          then if z == w then get u ws else if y == w then get t ws else none
          else none)
  unfolding fork get
  get-fork q w ws e = rw (
    get-extend,
    e,
    get_at-put (put (blank 16) y t) z w u ws
        (omega (arith, size-put (blank 16) y t, size-blank 16)),
    get_at-put (blank 16) y w t ws (omega (arith, size-blank 16)),
    get_at-blank 16 w ws,
  )

  pub fork-HasDepth :
      (d e : ℕ)
      → AreNibbles p
      → d ≡ length p + suc e
      → HasDepth e t
      → HasDepth e u
      → HasDepth d (fork p y t z u)
  unfolding fork
  fork-HasDepth d e hp h ht hu =
      extend-HasDepth p d (suc e) (Tree.branch (put (put (blank 16) y t) z u) []) hp h (
        omega arith,
        omega (arith, size-put (put (blank 16) y t) z u, size-put (blank 16) y t, size-blank 16),
        subst (λ n. HaveDepth n (put (put (blank 16) y t) z u)) (omega arith) below,
      )
    where
      below : HaveDepth e (put (put (blank 16) y t) z u)
      below =
          put-HaveDepth (put (blank 16) y t) z e u
            (put-HaveDepth (blank 16) y e t (blank-HaveDepth 16 e) ht) hu
