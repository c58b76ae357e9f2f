-- ===== src/Kernel/Windows/Normal.antt =====
-- The result of `replace_windows` has no window left that the closure would replace.
use bcw_zk_evm.Common.{
  ℕ, zero, suc, ◌+◌, ◌-◌, ◌≤◌, ◌<◌, List, ◌++◌, length, take, drop, window_before, Option, none,
  some, ◌≡◌, ◌∙◌, subst, inl, inr, arith, leb, Bool-cases, ap,
}
use bcw_zk_evm.Kernel.Windows.Weights.{total, Lowers, ends}
use bcw_zk_evm.Kernel.Windows.{replace_from, replace_windows, replace_from-cases}

module _ {ℓ} {A : Type ℓ} (w : ℕ) (maybe_replace : List A → Option (Option (List A))) where
  -- The closure leaves each window that begins before `start`.
  Settled : ℕ → List A → Type ℓ
  Settled start vec =
      (i : ℕ)
      → i < start
      → i + suc w ≤ length vec
      → maybe_replace (take (suc w) (drop i vec)) ≡ some none

  -- It leaves every window.
  pub IsNormal : List A → Type ℓ
  IsNormal vec =
      (i : ℕ) → i + suc w ≤ length vec → maybe_replace (take (suc w) (drop i vec)) ≡ some none

  Normalises : Option (List A) → Type ℓ
  Normalises o = (out : List A) → o ≡ some out → IsNormal out

  Settled-suc :
      (start : ℕ) (vec : List A)
      → Settled start vec
      → maybe_replace (take (suc w) (drop start vec)) ≡ some none
      → Settled (start + 1) vec
  unfolding Settled
  Settled-suc start vec settled stays i before fits = elim (Bool-cases (leb (suc i) start)) [
    | inl earlier ↦ settled i (ground arith) fits
    | inr here ↦
        let last : start ≡ i = ground arith in
        subst (λ k. maybe_replace (take (suc w) (drop k vec)) ≡ some none) last stays
  ]

  Settled-replaced :
      (start : ℕ) (vec ys : List A)
      → start ≤ length vec
      → Settled start vec
      → Settled (start - w) (take start vec ++ ys)
  unfolding Settled
  Settled-replaced start vec ys inside settled i before fits =
      ap maybe_replace (window_before start i (suc w) vec ys (omega arith) inside)
      ∙ settled i (omega arith) (omega arith)

  replace_from-IsNormal :
      (rounds start : ℕ) (vec : List A)
      → Settled start vec
      → Normalises (replace_from w maybe_replace rounds start vec)
  unfolding Settled Normalises IsNormal replace_from
  replace_from-IsNormal zero start vec settled = λ out e. absurd (ground arith)
  replace_from-IsNormal (suc rounds) start vec settled =
      replace_from-cases w maybe_replace Normalises rounds start vec
        (λ short out e. subst IsNormal (cc e) (λ i fits. settled i (omega arith) fits))
        (λ fits panics out e. absurd (ground arith))
        (λ fits stays.
          replace_from-IsNormal rounds (start + 1) vec (Settled-suc start vec settled stays))
        (λ r fits changes.
          replace_from-IsNormal rounds (start - w)
            (take start vec ++ (r ++ drop (start + suc w) vec))
            (Settled-replaced start vec (r ++ drop (start + suc w) vec) (omega arith) settled))

  returned-IsNormal :
      (rounds : ℕ) (vec out : List A)
      → replace_windows w maybe_replace rounds vec ≡ some out
      → IsNormal out
  unfolding replace_windows Normalises Settled
  returned-IsNormal rounds vec = replace_from-IsNormal rounds 0 vec (λ i h k. absurd (omega arith))

  module _ (weight : A → ℕ) (lowers : Lowers w maybe_replace weight) where
    -- Where the closure does not panic and, by some weights of the items, each replacement weighs less
    -- than its window, the loop ends: from some number of rounds on `replace_windows` returns one
    -- result, and the closure leaves every window of it.
    pub replace_windows-IsNormal :
        (vec : List A)
        → (rounds : ℕ) × (out : List A) × ((more : ℕ)
            → rounds ≤ more
            → replace_windows w maybe_replace more vec ≡ some out)
          × IsNormal out
    unfolding replace_windows
    replace_windows-IsNormal vec =
        let (rounds, out, run) =
          ends w maybe_replace weight lowers (suc (total weight vec)) (suc (length vec)) 0 vec
            (omega arith) (omega arith) in
        (rounds, out, run, returned-IsNormal rounds vec out (run rounds (omega arith)))
