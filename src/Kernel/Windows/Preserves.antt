-- ===== src/Kernel/Windows/Preserves.antt =====
-- What each replacement keeps, `replace_windows` keeps.
use bcw_zk_evm.Common.{
  ℕ, zero, suc, ◌+◌, ◌-◌, ◌≤◌, List, ◌++◌, length, take, drop, take-append-drop, length-take,
  length-drop, drop-drop, Option, some, ◌≡◌, sym, subst, arith,
}
use bcw_zk_evm.Kernel.Windows.{replace_from, replace_windows, replace_from-cases}

-- A list, cut around a window.
pub window_of {ℓ} :
    {A : Type ℓ} (start n : ℕ) (vec : List A)
    → take start vec ++ (take n (drop start vec) ++ drop (start + n) vec) ≡ vec
window_of start n vec = simp (sym (drop-drop start n vec), take-append-drop)

pub length-window {ℓ} :
    {A : Type ℓ} (start n : ℕ) (vec : List A)
    → start + n ≤ length vec
    → length (take n (drop start vec)) ≡ n
length-window start n vec h = omega (arith, length-take n (drop start vec), length-drop start vec)

module _ {ℓ κ} {A : Type ℓ} (w : ℕ) (maybe_replace : List A → Option (Option (List A)))
    (Rel : List A → List A → Type κ) (Rel-refl : (xs : List A) → Rel xs xs)
    (Rel-trans : (xs ys zs : List A) → Rel xs ys → Rel ys zs → Rel xs zs)
    (Rel-replace : (xs window replacement ys : List A)
      → length window ≡ suc w
      → maybe_replace window ≡ some (some replacement)
      → Rel (xs ++ (window ++ ys)) (xs ++ (replacement ++ ys))) where
  -- The relation holds between a list and what comes of it, if anything does.
  Becomes : List A → Option (List A) → Type (ℓ ⊔ κ)
  Becomes vec o = (out : List A) → o ≡ some out → Rel vec out

  replace_from-Rel :
      (rounds start : ℕ) (vec : List A)
      → Becomes vec (replace_from w maybe_replace rounds start vec)
  unfolding Becomes replace_from
  replace_from-Rel zero start vec = λ out e. absurd (ground arith)
  replace_from-Rel (suc rounds) start vec =
      replace_from-cases w maybe_replace (Becomes vec) rounds start vec
        (λ short out e. subst (Rel vec) (cc e) (Rel-refl vec))
        (λ fits panics out e. absurd (ground arith))
        (λ fits stays. replace_from-Rel rounds (start + 1) vec)
        (λ replacement fits changes out e.
          Rel-trans vec (take start vec ++ (replacement ++ drop (start + suc w) vec)) out
            (subst (λ v. Rel v (take start vec ++ (replacement ++ drop (start + suc w) vec)))
              (window_of start (suc w) vec)
              (Rel-replace (take start vec) (take (suc w) (drop start vec)) replacement
                (drop (start + suc w) vec) (length-window start (suc w) vec fits) changes))
            (replace_from-Rel rounds (start - w)
              (take start vec ++ (replacement ++ drop (start + suc w) vec)) out e))

  pub replace_windows-Rel :
      (rounds : ℕ) (vec out : List A)
      → replace_windows w maybe_replace rounds vec ≡ some out
      → Rel vec out
  unfolding Becomes replace_windows
  replace_windows-Rel rounds vec = replace_from-Rel rounds 0 vec
