-- ===== src/Kernel/Windows/Weights.antt =====
-- The loop of `replace_windows` ends wherever the replacements lower a weight, longer ones included.
use bcw_zk_evm.Common.{
  ℕ, zero, suc, ◌+◌, ◌-◌, ◌≤◌, ◌<◌, List, [], ◌∷◌, ◌++◌, length, take, drop, Option, none, some,
  some_inj, ◌≡◌, refl, sym, ap, ◌∙◌, ◌⊎◌, inl, inr, arith, leb, Bool-cases,
}
use bcw_zk_evm.Kernel.Windows.{replace_from, replace_from-cases}
use bcw_zk_evm.Kernel.Windows.Preserves.{length-window, window_of}

abbrev pub total {ℓ} : {A : Type ℓ} → (A → ℕ) → List A → ℕ
total weight [] = 0
total weight (x ∷ xs) = weight x + total weight xs

total-append {ℓ} :
    {A : Type ℓ} (weight : A → ℕ) (xs ys : List A)
    → total weight (xs ++ ys) ≡ total weight xs + total weight ys
total-append weight [] ys = omega arith
total-append weight (x ∷ xs) ys = omega (arith, total-append weight xs ys)

-- The closure does not panic on a window, and what it puts in its place weighs less.
abbrev pub Lowers {ℓ} : {A : Type ℓ} → ℕ → (List A → Option (Option (List A))) → (A → ℕ) → Type ℓ
Lowers {A = A} w maybe_replace weight =
    (window : List A)
    → length window ≡ suc w
    → (maybe_replace window ≡ some none)
      ⊎ ((replacement : List A) × (maybe_replace window ≡ some (some replacement))
          × (total weight replacement < total weight window))

module _ {ℓ} {A : Type ℓ} (w : ℕ) (maybe_replace : List A → Option (Option (List A)))
    (weight : A → ℕ) (lowers : Lowers w maybe_replace weight) where
  -- The list from which it goes on after a replacement.
  abbrev replaced : ℕ → List A → List A → List A
  replaced start vec r = take start vec ++ (r ++ drop (start + suc w) vec)

  -- From some number of rounds on the loop gives one result.
  abbrev Ends : ℕ → List A → Type ℓ
  Ends start vec =
      (rounds : ℕ) × (out : List A) × ((more : ℕ)
        → rounds ≤ more
        → replace_from w maybe_replace more start vec ≡ some out)

  no_window_left : (start : ℕ) (vec : List A) → length vec < start + suc w → Ends start vec
  no_window_left start vec short = (1, vec, run)
    where
      run : (more : ℕ) → 1 ≤ more → replace_from w maybe_replace more start vec ≡ some vec
      run zero h = absurd (omega arith)
      run (suc more) h =
          replace_from-cases w maybe_replace (λ o. o ≡ some vec) more start vec (λ _. refl)
            (λ fits _. absurd (omega arith)) (λ fits _. absurd (omega arith))
            (λ r fits _. absurd (omega arith))

  module _ (start : ℕ) (vec : List A) (fits : start + suc w ≤ length vec) where
    window_stays :
        maybe_replace (take (suc w) (drop start vec)) ≡ some none
        → Ends (start + 1) vec
        → Ends start vec
    window_stays stays (rounds, out, rest) = (suc rounds, out, run)
      where
        run :
            (more : ℕ) → suc rounds ≤ more → replace_from w maybe_replace more start vec ≡ some out
        run zero h = absurd (omega arith)
        run (suc more) h =
            replace_from-cases w maybe_replace (λ o. o ≡ some out) more start vec
              (λ short. absurd (omega arith)) (λ _ e. absurd (ground arith))
              (λ _ _. rest more (omega arith)) (λ r _ e. absurd (ground arith))

    window_changes :
        (r : List A)
        → maybe_replace (take (suc w) (drop start vec)) ≡ some (some r)
        → Ends (start - w) (replaced start vec r)
        → Ends start vec
    window_changes r changes (rounds, out, rest) = (suc rounds, out, run)
      where
        run :
            (more : ℕ) → suc rounds ≤ more → replace_from w maybe_replace more start vec ≡ some out
        run zero h = absurd (omega arith)
        run (suc more) h =
            replace_from-cases w maybe_replace (λ o. o ≡ some out) more start vec
              (λ short. absurd (omega arith)) (λ _ e. absurd (ground arith))
              (λ _ e. absurd (ground arith))
              (λ s _ e.
                let same : r ≡ s = some_inj (some_inj (sym changes ∙ e)) in
                ap (λ t. replace_from w maybe_replace more (start - w) (replaced start vec t))
                  (sym same)
                ∙ rest more (omega arith))

    total-replaced :
        (r : List A)
        → total weight r < total weight (take (suc w) (drop start vec))
        → total weight (replaced start vec r) < total weight vec
    total-replaced r less =
        let window = take (suc w) (drop start vec) in
        let tail = drop (start + suc w) vec in
        omega (
          arith,
          ap (total weight) (window_of start (suc w) vec),
          total-append weight (take start vec) (window ++ tail),
          total-append weight window tail,
          total-append weight (take start vec) (r ++ tail),
          total-append weight r tail,
        )

  -- By induction on a bound of the weight, and within it on the items left.
  pub ends :
      (heavier left start : ℕ) (vec : List A)
      → total weight vec < heavier
      → length vec < start + left
      → Ends start vec
  ends zero left start vec light bounded = absurd (omega arith)
  ends (suc heavier) zero start vec light bounded = no_window_left start vec (omega arith)
  ends (suc heavier) (suc left) start vec light bounded =
      elim (Bool-cases (leb (start + suc w) (length vec))) [
        | inr short ↦ no_window_left start vec (ground arith)
        | inl long ↦
            let fits : start + suc w ≤ length vec = ground arith in
            elim (lowers (take (suc w) (drop start vec)) (length-window start (suc w) vec fits)) [
              | inl stays ↦
                  window_stays start vec fits stays
                    (ends (suc heavier) left (start + 1) vec light (omega arith))
              | inr (r, changes, less) ↦ window_changes start vec fits r changes (
                  ends heavier (suc (length (replaced start vec r))) (start - w)
                    (replaced start vec r) (omega (arith, total-replaced start vec fits r less))
                    (omega arith))
            ]
      ]
