-- ===== src/Trie/Spec/Reads/Insert.antt =====
-- Insertion never panics on a trie of fixed depth, keeps the depth, and changes the reading at the
-- key alone.
use native.Mathlib.Nat.{zero-add, suc-add}
use bcw_zk_evm.Common.{
  ℕ, zero, suc, ◌+◌, ◌-◌, ◌≤◌, ◌<◌, ◌≡◌, refl, ap, ◌∙◌, List, [], ◌∷◌, true, ◌&&◌, Option, none,
  some, if◌then◌else◌, ◌==◌, ==_ne, length, take, drop, length-take, arith, Bool-cases, inl, inr,
}
use bcw_zk_evm.Nibbles.Value.{AreNibbles}
use bcw_zk_evm.Nibbles.Compare.{agree, common}
use bcw_zk_evm.Nibbles.Equal.{Parting, parting, agree-eq}
use bcw_zk_evm.Trie.{ValOrHash, Outcome, ok, err, panic, ◌>>=◌}
use bcw_zk_evm.Trie.Spec.{
  Tree, Trees, nil, cons, size, HasDepth, HaveDepth, get, get_at, extend, fork_at, replace, insert,
  insert_at,
}
use bcw_zk_evm.Trie.Spec.Refines.{IsKey, IsKey-drop, IsKey-tail, agree-take}
use bcw_zk_evm.Trie.Spec.Reads.{
  entered, agree_cut, get-create, create-HasDepth, get-extend, extend-HasDepth,
}
use bcw_zk_evm.Trie.Spec.Reads.Fork.{
  get-fork_at, fork_at-HasDepth, xs-agree, on, here_nibbles, xs_counted,
}

-- What is promised of a result `r` of entering `v` at `k`, for the reading at `q`, which was `old`.
abbrev pub After : ℕ → List ℕ → ValOrHash → List ℕ → Option (List ℕ) → Outcome Tree → Type 0
After d k v q old (ok t) = HasDepth d t × (get t q ≡ (if agree k q then entered v else old))
After d k v q old (err e) = Unit
After d k v q old panic = ⊥

-- The same of the children of a branch, for the reading at `q` below the child `j`.
abbrev AfterAt :
    ℕ → ℕ → ℕ → List ℕ → ValOrHash → ℕ → List ℕ → Option (List ℕ) → Outcome Trees → Type 0
AfterAt d n i k v j q old (ok ts) =
    HaveDepth d ts
    × (size ts ≡ n)
    × (get_at ts j q ≡ (if i == j then if agree k q then entered v else old else old))
AfterAt d n i k v j q old (err e) = Unit
AfterAt d n i k v j q old panic = ⊥

-- Each way that a step below is put back.
back_first :
    (t : Tree) (ts : Trees) (j d : ℕ) (k q : List ℕ) (v : ValOrHash) (r : Outcome Tree)
    → HaveDepth d ts
    → After d k v q (get t q) r
    → AfterAt d (suc (size ts)) 0 k v j q (get_at (cons t ts) j q) (r >>= λ t'. ok (cons t' ts))
unfolding get
back_first t ts zero d k q v (ok t') h a = ((a.0, h), refl, a.1)
back_first t ts (suc j) d k q v (ok t') h a = ((a.0, h), refl, rw (==_ne 0 (suc j) (omega arith)))
back_first t ts j d k q v (err e) h a = tt
back_first t ts j d k q v panic h a = a

back_rest :
    (t : Tree) (ts : Trees) (i j d : ℕ) (k q : List ℕ) (v : ValOrHash) (r : Outcome Trees)
    → HasDepth d t
    → AfterAt d (size ts) i k v j q (get_at ts j q) r
    → AfterAt d (suc (size ts)) (suc i) k v (suc j) q (get_at ts j q) (r >>= λ us. ok (cons t us))
unfolding get
back_rest t ts i j d k q v (ok us) h a = ((h, a.0), ap suc a.1, ground (arith, a.2))
back_rest t ts i j d k q v (err e) h a = tt
back_rest t ts i j d k q v panic h a = a

back_rest_zero :
    (t : Tree) (ts : Trees) (i d : ℕ) (k q : List ℕ) (v : ValOrHash) (r : Outcome Trees)
    → HasDepth d t
    → AfterAt d (size ts) i k v 0 q (get_at ts 0 q) r
    → AfterAt d (suc (size ts)) (suc i) k v 0 q (get t q) (r >>= λ us. ok (cons t us))
unfolding get
back_rest_zero t ts i d k q v (ok us) h a =
    ((h, a.0), ap suc a.1, rw (==_ne (suc i) 0 (omega arith)))
back_rest_zero t ts i d k q v (err e) h a = tt
back_rest_zero t ts i d k q v panic h a = a

back_branch :
    (ts : Trees) (w : List ℕ) (d x y : ℕ) (k q : List ℕ) (v : ValOrHash) (r : Outcome Trees)
    → 0 < d
    → size ts ≡ 16
    → AfterAt (d - 1) (size ts) x k v y q (get_at ts y q) r
    → After d (x ∷ k) v (y ∷ q) (get_at ts y q) (r >>= λ us. ok (Tree.branch us w))
unfolding get agree
back_branch ts w d x y k q v (ok us) pos full a = ((pos, a.1 ∙ full, a.0), ground (arith, a.2))
back_branch ts w d x y k q v (err e) pos full a = tt
back_branch ts w d x y k q v panic pos full a = a

-- A key that starts with `xs`, compared behind it.
agree_behind :
    (xs k q : List ℕ)
    → length xs ≤ length k
    → length xs ≤ length q
    → agree xs k ≡ true
    → agree k q ≡ (agree xs q && agree (drop (length xs) k) (drop (length xs) q))
agree_behind xs k q hk hq same =
    agree_cut (length xs) k q hk hq
    ∙ ap (λ t. agree t q && agree (drop (length xs) k) (drop (length xs) q)) start
  where
    start : take (length xs) k ≡ xs
    start =
        agree-eq (take (length xs) k) xs (omega (arith, length-take (length xs) k))
          (agree-take xs k hk ∙ same)

back_extension :
    (xs : List ℕ) (t : Tree) (d : ℕ) (k q : List ℕ) (v : ValOrHash) (r : Outcome Tree)
    → length xs ≤ d
    → AreNibbles xs
    → agree k q ≡ (agree xs q && agree (drop (length xs) k) (drop (length xs) q))
    → After
        (d - length xs)
        (drop (length xs) k)
        v
        (drop (length xs) q)
        (get t (drop (length xs) q))
        r
    → After d k v q
        (if agree xs q then get t (drop (length xs) q) else none)
        (r >>= λ t'. ok (Tree.extension xs t'))
unfolding get
back_extension xs t d k q v (ok t') fits hx e a = ((fits, hx, a.0), ground (arith, a.1))
back_extension xs t d k q v (err x) fits hx e a = tt
back_extension xs t d k q v panic fits hx e a = a

After-replace :
    (d : ℕ) (xs k q : List ℕ) (w : List ℕ) (v : ValOrHash)
    → AreNibbles xs
    → length xs ≡ d
    → xs ≡ k
    → After d k v q (if agree xs q then some w else none) (replace v (Tree.leaf xs))
unfolding replace get
After-replace d xs k q w (ValOrHash.val b) hx e same =
    ((e, hx), ground (arith, ap (λ t. agree t q) same))
After-replace d xs k q w (ValOrHash.hash x) hx e same = tt

-- Splitting by a new key.
drop_past :
    (n : ℕ) (q : List ℕ) {x : ℕ} {rest : List ℕ} (m : ℕ)
    → drop n q ≡ x ∷ rest
    → drop (n + suc m) q ≡ drop m rest
drop_past zero [] m h = absurd (cc)
drop_past zero (x ∷ q) {rest = r} m h =
    let tails : q ≡ r = cc in ap (λ n. drop n (x ∷ q)) (zero-add (suc m)) ∙ ap (drop m) tails
drop_past (suc n) [] m h = absurd (cc)
drop_past (suc n) (x ∷ q) m h = ap (λ l. drop l (x ∷ q)) (suc-add n (suc m)) ∙ drop_past n q m h

module _ (xs k q : List ℕ) (d : ℕ) (hx : AreNibbles xs) (fx : length xs ≤ d) (key : IsKey d k)
    (other : IsKey d q) (part : Parting xs k) (v : ValOrHash) where
  After-split_leaf :
      (w : List ℕ)
      → length xs ≡ d
      → After d k v q
          (if agree xs q then some w else none)
          (ok (fork_at xs k (λ r. Tree.leaf r w) v))
  unfolding get
  After-split_leaf w e = (
    fork_at-HasDepth xs k q d hx fx key other part v (λ r. Tree.leaf r w) below,
    rw
        (
          get-fork_at xs k q d hx fx key other part v (λ r. Tree.leaf r w),
          xs-agree xs k q d hx fx key other part v,
        )
        (ground arith),
  )
    where
      below : (l : ℕ) → d ≡ common xs k + suc l → HasDepth l (Tree.leaf part.here_rest w)
      below l h = (
        omega (arith, e, xs_counted xs k q d hx fx key other part v),
        (here_nibbles xs k q d hx fx key other part v).1,
      )

  After-split_extension :
      (t : Tree)
      → HasDepth (d - length xs) t
      → After d k v q
          (if agree xs q then get t (drop (length xs) q) else none)
          (ok (fork_at xs k (λ r. extend r t) v))
  After-split_extension t h = (
    fork_at-HasDepth xs k q d hx fx key other part v (λ r. extend r t) below,
    rw
        (
          get-fork_at xs k q d hx fx key other part v (λ r. extend r t),
          xs-agree xs k q d hx fx key other part v,
          get-extend part.here_rest t (on xs k q d hx fx key other part v).rest,
          behind,
        )
        (ground arith),
  )
    where
      whole : length xs ≡ common xs k + suc (length part.here_rest)
      whole = xs_counted xs k q d hx fx key other part v

      behind :
          drop (length xs) q
          ≡ drop (length part.here_rest) (on xs k q d hx fx key other part v).rest
      behind =
          ap (λ n. drop n q) whole
          ∙ drop_past (common xs k) q (length part.here_rest)
              (on xs k q d hx fx key other part v).split

      below : (l : ℕ) → d ≡ common xs k + suc l → HasDepth l (extend part.here_rest t)
      below l e =
          extend-HasDepth part.here_rest l (d - length xs) t
            (here_nibbles xs k q d hx fx key other part v).1 (omega (arith, whole)) h

mutual
  unfolding insert get agree

  pub After-insert :
      (t : Tree) (d : ℕ) (k q : List ℕ) (v : ValOrHash)
      → HasDepth d t
      → IsKey d k
      → IsKey d q
      → After d k v q (get t q) (insert t k v)
  After-insert Tree.empty d k q v h key other =
      (create-HasDepth k d v key.digits key.counted, get-create k q v)
  After-insert (Tree.hash x) d k q v h key other = tt
  After-insert (Tree.branch ts w) d [] q v h key other = absurd (omega (arith, key.counted, h.0))
  After-insert (Tree.branch ts w) d (x ∷ k) [] v h key other =
      absurd (omega (arith, other.counted, h.0))
  After-insert (Tree.branch ts w) d (x ∷ k) (y ∷ q) v h key other =
      back_branch ts w d x y k q v (insert_at ts x k v) h.0 h.1 (
        AfterAt-insert ts x y (d - 1) k q v h.2 (omega (arith, h.1, key.digits.0)) (IsKey-tail key)
          (IsKey-tail other))
  After-insert (Tree.extension xs t) d k q v h key other = elim (Bool-cases (agree xs k)) [
    | inl same ↦ rw same (
        back_extension xs t d k q v (insert t (drop (length xs) k) v) h.0 h.1
          (agree_behind xs k q (omega (arith, key.counted)) (omega (arith, other.counted)) same)
          (After-insert t (d - length xs) (drop (length xs) k) (drop (length xs) q) v h.2
            (IsKey-drop (length xs) key h.0) (IsKey-drop (length xs) other h.0)))
    | inr differ ↦
        rw differ (After-split_extension xs k q d h.1 h.0 key other (parting xs k differ) v t h.2)
  ]
  After-insert (Tree.leaf xs w) d k q v h key other = elim (Bool-cases (agree xs k)) [
    | inl same ↦
        rw same (
          After-replace d xs k q w v h.1 h.0 (agree-eq xs k (omega (arith, h.0, key.counted)) same))
    | inr differ ↦
        rw differ (
          After-split_leaf xs k q d h.1 (omega (arith, h.0)) key other (parting xs k differ) v w
            h.0)
  ]

  AfterAt-insert :
      (ts : Trees) (i j d : ℕ) (k q : List ℕ) (v : ValOrHash)
      → HaveDepth d ts
      → i < size ts
      → IsKey d k
      → IsKey d q
      → AfterAt d (size ts) i k v j q (get_at ts j q) (insert_at ts i k v)
  AfterAt-insert nil i j d k q v h lt key other = absurd (omega arith)
  AfterAt-insert (cons t ts) zero j d k q v h lt key other =
      back_first t ts j d k q v (insert t k v) h.1 (After-insert t d k q v h.0 key other)
  AfterAt-insert (cons t ts) (suc i) zero d k q v h lt key other =
      back_rest_zero t ts i d k q v (insert_at ts i k v) h.0
        (AfterAt-insert ts i 0 d k q v h.1 (omega arith) key other)
  AfterAt-insert (cons t ts) (suc i) (suc j) d k q v h lt key other =
      back_rest t ts i j d k q v (insert_at ts i k v) h.0
        (AfterAt-insert ts i j d k q v h.1 (omega arith) key other)
