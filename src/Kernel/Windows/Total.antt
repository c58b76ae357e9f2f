-- ===== src/Kernel/Windows/Total.antt =====
-- The loop of `replace_windows` ends: the bound on its rounds is enough.
use native.Mathlib.Nat.{mul-le-mul_left, mul-le-mul_right, mul-add}
use bcw_zk_evm.Common.{
  All, All-append, All-take, All-drop, some_inj, subst, sym, ◌∙◌, ℕ, zero, suc, ◌+◌, ◌-◌, ◌*◌, ◌≤◌,
  ◌<◌, List, ◌++◌, length, take, drop, length-append, length-take, length-drop, Option, none, some,
  ◌≡◌, refl, ◌⊎◌, inl, inr, arith,
}
use bcw_zk_evm.Kernel.Windows.{rounds_for, replace_from, replace_windows, replace_from-cases}
use bcw_zk_evm.Kernel.Windows.Preserves.{length-window}

-- On a window of elements of `P` the closure does not panic, and what it puts in its place is
-- shorter, and of `P` again.
abbrev pub Shortens {ℓ κ} :
    {A : Type ℓ} → (A → Type κ) → ℕ → (List A → Option (Option (List A))) → Type (ℓ ⊔ κ)
Shortens {A = A} P w maybe_replace =
    (window : List A)
    → length window ≡ suc w
    → All P window
    → (maybe_replace window ≡ some none)
      ⊎ ((replacement : List A) × (maybe_replace window ≡ some (some replacement))
          × (length replacement ≤ w)
          × All P replacement)

abbrev pub Returns {ℓ} : {A : Type ℓ} → Option A → Type ℓ
Returns {A = A} o = (a : A) × (o ≡ some a)

-- It returns a list of elements of `P`.
abbrev pub ReturnsAll {ℓ κ} : {A : Type ℓ} → (A → Type κ) → Option (List A) → Type (ℓ ⊔ κ)
ReturnsAll {A = A} P o = (a : List A) × (o ≡ some a) × All P a

-- Multiplied by the same, the shorter list leaves a window's worth.
shrinks : (w l m : ℕ) → m + 1 ≤ l → suc w * m + suc w ≤ suc w * l
shrinks w l m h = omega (arith, mul-le-mul_left (suc w) h, mul-add (suc w) m 1)

module _ {ℓ κ} {A : Type ℓ} (P : A → Type κ) (w : ℕ)
    (maybe_replace : List A → Option (Option (List A)))
    (shortens : Shortens P w maybe_replace) where
  replacement_short :
      (window replacement : List A)
      → length window ≡ suc w
      → All P window
      → maybe_replace window ≡ some (some replacement)
      → (length replacement ≤ w) × All P replacement
  replacement_short window replacement h all e = elim (shortens window h all) [
    | inl stays ↦ absurd (ground arith)
    | inr (r, changes, short, kept) ↦
        let same : r ≡ replacement = some_inj (some_inj (sym changes ∙ e)) in
        subst (λ t. (length t ≤ w) × All P t) same (short, kept)
  ]

  no_panic :
      (window : List A) → length window ≡ suc w → All P window → maybe_replace window ≡ none → ⊥
  no_panic window h all e = elim (shortens window h all) [
    | inl stays ↦ ground arith
    | inr (r, changes, short, kept) ↦ ground arith
  ]

  length-replaced :
      (start : ℕ) (vec replacement : List A)
      → start + suc w ≤ length vec
      → length replacement ≤ w
      → length (take start vec ++ (replacement ++ drop (start + suc w) vec)) + 1 ≤ length vec
  length-replaced start vec r fits short = omega (
    arith,
    length-append (take start vec) (r ++ drop (start + suc w) vec),
    length-append r (drop (start + suc w) vec),
    length-take start vec,
    length-drop (start + suc w) vec,
  )

  replace_from-ReturnsAll :
      (rounds start : ℕ) (vec : List A)
      → start ≤ length vec
      → suc w * length vec < rounds + start
      → All P vec
      → ReturnsAll P (replace_from w maybe_replace rounds start vec)
  unfolding replace_from
  replace_from-ReturnsAll zero start vec inside enough all =
      absurd (omega (arith, mul-le-mul_right {m = 1} {n = suc w} (length vec) (omega arith)))
  replace_from-ReturnsAll (suc rounds) start vec inside enough all =
      let window = take (suc w) (drop start vec) in
      let part = All-take P (suc w) (drop start vec) (All-drop P start vec all) in
      replace_from-cases w maybe_replace (ReturnsAll P) rounds start vec (λ short. (vec, refl, all))
        (λ fits panics. absurd (no_panic window (length-window start (suc w) vec fits) part panics))
        (λ fits stays.
          replace_from-ReturnsAll rounds (start + 1) vec (omega arith) (omega arith) all)
        (λ r fits changes.
          let new = take start vec ++ (r ++ drop (start + suc w) vec) in
          let short =
            replacement_short window r (length-window start (suc w) vec fits) part changes in
          let lengths = length-replaced start vec r fits short.0 in
          replace_from-ReturnsAll rounds (start - w) new
            (omega (
              arith,
              length-append (take start vec) (r ++ drop (start + suc w) vec),
              length-take start vec,
            ))
            (omega (arith, shrinks w (length vec) (length new) lengths))
            (All-append P (take start vec) (r ++ drop (start + suc w) vec)
              (All-take P start vec all)
              (All-append P r (drop (start + suc w) vec) short.1
                (All-drop P (start + suc w) vec all))))

  pub replace_windows-ReturnsAll :
      (vec : List A)
      → All P vec
      → ReturnsAll P (replace_windows w maybe_replace (rounds_for w vec) vec)
  unfolding replace_windows
  replace_windows-ReturnsAll vec =
      replace_from-ReturnsAll (rounds_for w vec) 0 vec (omega arith) (omega arith)
