-- ===== src/Trie/Spec/Reads/Fork.antt =====
-- Reading a tree whose leaf or extension `xs` was split by the key `k`.
use bcw_zk_evm.Common.{
  ℕ, zero, suc, ◌+◌, ◌-◌, ◌≤◌, ◌<◌, ◌≡◌, refl, ap, subst, ◌∙◌, List, [], ◌∷◌, false, ◌&&◌, none,
  if◌then◌else◌, ◌==◌, length, take, drop, length-drop, length-take, All-drop, All-take, arith,
}
use bcw_zk_evm.Nibbles.Value.{AreNibbles}
use bcw_zk_evm.Nibbles.Compare.{agree, common}
use bcw_zk_evm.Nibbles.Equal.{Parting, common-le, take-common}
use bcw_zk_evm.Trie.{ValOrHash}
use bcw_zk_evm.Trie.Spec.{Tree, HasDepth, get, create, fork_parts, fork_at}
use bcw_zk_evm.Trie.Spec.Refines.{IsKey}
use bcw_zk_evm.Trie.Spec.Refines.Fork.{drop-suc}
use bcw_zk_evm.Trie.Spec.Reads.{
  entered, agree_cut, get-create, create-HasDepth, get-fork, fork-HasDepth,
}

-- A list that goes on past `c` items.
pub record GoesOn (c : ℕ) (q : List ℕ) : Type 0 where
  pub next : ℕ
  pub rest : List ℕ
  pub split : drop c q ≡ next ∷ rest

pub goes_on : (c : ℕ) (q : List ℕ) → c < length q → GoesOn c q
goes_on c [] h = absurd (omega arith)
goes_on zero (x ∷ q) h = record { next = x; rest = q; split = refl }
goes_on (suc c) (x ∷ q) h =
    let g = goes_on c q (omega arith) in record { next = g.next; rest = g.rest; split = g.split }

module _ (xs k q : List ℕ) (d : ℕ) (hx : AreNibbles xs) (fx : length xs ≤ d) (key : IsKey d k)
    (other : IsKey d q) (part : Parting xs k) (v : ValOrHash) where
  abbrev pub c : ℕ
  c = common xs k

  abbrev pub p : List ℕ
  p = take c xs

  pub past : suc c ≤ length xs
  past = (drop-suc c xs part.left).1

  pub on : GoesOn c q
  on = goes_on c q (omega (arith, past, other.counted))

  shared : length p ≡ c
  shared = omega (arith, length-take c xs, common-le xs k)

  key-agree :
      agree k q
      ≡ (agree p q && (if part.there == on.next then agree part.there_rest on.rest else false))
  unfolding agree
  key-agree =
      agree_cut c k q (common-le xs k).1 (omega (arith, past, other.counted))
      ∙ rw (take-common xs k, part.right, on.split)

  pub xs-agree :
      agree xs q
      ≡ (agree p q && (if part.here == on.next then agree part.here_rest on.rest else false))
  unfolding agree
  xs-agree =
      agree_cut c xs q (common-le xs k).0 (omega (arith, past, other.counted))
      ∙ rw (part.left, on.split)

  pub here_nibbles : AreNibbles (part.here ∷ part.here_rest)
  here_nibbles = subst AreNibbles part.left (All-drop (λ n. n < 16) c xs hx)

  here_small : part.here < 16
  here_small = here_nibbles.0

  pub xs_counted : length xs ≡ c + suc (length part.here_rest)
  xs_counted = omega (arith, ap length part.left, length-drop c xs, past)

  there_nibbles : AreNibbles (part.there ∷ part.there_rest)
  there_nibbles = subst AreNibbles part.right (All-drop (λ n. n < 16) c k key.digits)

  there_small : part.there < 16
  there_small = there_nibbles.0

  pub get-fork_at :
      (rest : List ℕ → Tree)
      → get (fork_at xs k rest v) q ≡ (
          if agree k q
          then entered v
          else if agree p q && part.here == on.next
          then get (rest part.here_rest) on.rest
          else none)
  unfolding fork_at fork_parts
  get-fork_at rest =
      rw
        (
          part.left,
          part.right,
          get-fork p part.here part.there (rest part.here_rest) (create part.there_rest v)
              here_small there_small q on.next on.rest (ap (λ n. drop n q) shared ∙ on.split),
          get-create part.there_rest on.rest v,
          key-agree,
        )
        (ground (arith, part.differ))

  pub fork_at-HasDepth :
      (rest : List ℕ → Tree)
      → ((e : ℕ) → d ≡ c + suc e → HasDepth e (rest part.here_rest))
      → HasDepth d (fork_at xs k rest v)
  unfolding fork_at fork_parts
  fork_at-HasDepth rest h =
      rw (part.left, part.right)
        (fork-HasDepth p part.here part.there (rest part.here_rest) (create part.there_rest v)
          here_small there_small d left (All-take (λ n. n < 16) c xs hx)
          (omega (arith, shared, counted)) (h left counted)
          (create-HasDepth part.there_rest left v there_nibbles.1 (omega (arith, there_counted))))
    where
      left : ℕ
      left = d - c - 1

      counted : d ≡ c + suc left
      counted = omega (arith, past)

      there_counted : suc (length part.there_rest) ≡ d - c
      there_counted = omega (arith, ap length part.right, length-drop c k, key.counted)
