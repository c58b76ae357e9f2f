-- ===== src/Kernel/Optimizer/Shrinks.antt =====
-- What the optimizer does to the length of code, and that it ends at a fixed point.
use bcw_zk_evm.Common.{
  bound, ℕ, zero, suc, ◌+◌, ◌<◌, true, List, ◌++◌, length, length-append, Option, none, some, ◌≡◌,
  refl, ap, subst, sym, ◌∙◌, ◌⊎◌, inl, inr, arith, ◌>>=◌,
}
use bcw_zk_evm.Kernel.{Item, PushTarget}
use bcw_zk_evm.Kernel.Same.{eq_code, eq_code-length}
use bcw_zk_evm.Kernel.Windows.{rounds_for}
use bcw_zk_evm.Kernel.Windows.Preserves.{replace_windows-Rel}
use bcw_zk_evm.Kernel.Optimizer.{
  if_better, propagate_unary, propagate_binary, identity_window, no_op_jump_window,
  swapped_pushes_window, swap_commutative_window, ignored_value_window, optimize_asm_once,
  optimize_rounds, optimize_asm,
}
use bcw_zk_evm.Kernel.Optimizer.Rounds.{Keeps, once-Rel, ends}
use bcw_zk_evm.Kernel.Optimizer.Passes.{
  no_op_jump-MayReplace, swapped_pushes-MayReplace, ignored_value-MayReplace,
}
use bcw_zk_evm.Kernel.Optimizer.Algebra.{identity-MayReplace, swap_commutative-MayReplace}
use bcw_zk_evm.Kernel.Optimizer.Constants.{
  unary_window-MayReplace, propagate_binary-short, if_better-some,
}

-- The code has stayed, or has fewer items.
abbrev pub Shrinks : List Item → List Item → Type 0
Shrinks code out = (code ≡ out) ⊎ (length out < length code)

Shrinks-trans : (a b c : List Item) → Shrinks a b → Shrinks b c → Shrinks a c
Shrinks-trans a b c (inl e) (inl f) = inl (e ∙ f)
Shrinks-trans a b c (inl e) (inr k) = inr (subst (λ d. length c < length d) (sym e) k)
Shrinks-trans a b c (inr h) (inl f) = inr (subst (λ d. length d < length a) f h)
Shrinks-trans a b c (inr h) (inr k) = inr (omega arith)

-- Replacements are shorter than their windows.
abbrev pub Shorter : (List Item → Option (Option (List Item))) → Type 0
Shorter maybe_replace =
    (window new : List Item) → maybe_replace window ≡ some (some new) → length new < length window

length-window :
    (xs window new ys : List Item)
    → length new < length window
    → length (xs ++ (new ++ ys)) < length (xs ++ (window ++ ys))
length-window xs window new ys h = omega (
  arith,
  length-append xs (new ++ ys),
  length-append xs (window ++ ys),
  length-append new ys,
  length-append window ys,
)

pub pass-Shrinks :
    (w : ℕ) (maybe_replace : List Item → Option (Option (List Item)))
    → Shorter maybe_replace
    → Keeps Shrinks w maybe_replace
pass-Shrinks w maybe_replace short code =
    replace_windows-Rel w maybe_replace Shrinks (λ a. inl refl) Shrinks-trans
      (λ xs window new ys size e. inr (length-window xs window new ys (short window new e)))
      (rounds_for w code) code

-- A machine that does nothing, for what is true of the replacements on any machine.
abbrev pub idle : Item → Unit {0} → List ℕ → Option (Unit {0} × List ℕ)
idle item r s = none

abbrev pub nowhere : PushTarget → ℕ
nowhere t = 0

pub unary-Shorter : Shorter (λ window. propagate_unary window >>= if_better window)
unary-Shorter window new e = (unary_window-MayReplace nowhere idle window new e).0

module _ (shl shr : ℕ → ℕ → Option ℕ) where
  pub binary-Shorter : Shorter (λ window. propagate_binary shl shr window >>= if_better window)
  binary-Shorter window new e =
      propagate_binary-short shl shr window new
        (if_better-some window new (propagate_binary shl shr window) e)

  pub once-Shrinks :
      (code out : List Item) → optimize_asm_once shl shr code ≡ some out → Shrinks code out
  once-Shrinks =
      once-Rel shl shr Shrinks (λ a. inl refl) Shrinks-trans
        (pass-Shrinks 1 (λ window. propagate_unary window >>= if_better window) unary-Shorter)
        (pass-Shrinks 2 (λ window. propagate_binary shl shr window >>= if_better window)
          binary-Shorter)
        (pass-Shrinks 1 identity_window
          (λ window new e. (identity-MayReplace nowhere idle window new e).0))
        (pass-Shrinks 2 no_op_jump_window
          (λ window new e. (no_op_jump-MayReplace nowhere idle window new e).0))
        (pass-Shrinks 2 swapped_pushes_window
          (λ window new e. (swapped_pushes-MayReplace nowhere idle window new e).0))
        (pass-Shrinks 1 swap_commutative_window
          (λ window new e. (swap_commutative-MayReplace nowhere idle window new e).0))
        (pass-Shrinks 1 ignored_value_window
          (λ window new e. (ignored_value-MayReplace nowhere idle window new e).0))

  -- A round that is the last has changed nothing.
  unchanged : (code new : List Item) → Shrinks code new → eq_code new code ≡ true → new ≡ code
  unchanged code new (inl e) same = sym e
  unchanged code new (inr h) same = absurd (omega (arith, eq_code-length new code same))

  rounds_fixed :
      (rounds : ℕ) (code out : List Item)
      → optimize_rounds shl shr rounds code ≡ some out
      → optimize_asm_once shl shr out ≡ some out
  unfolding optimize_rounds
  rounds_fixed zero code out e = absurd (ground arith)
  rounds_fixed (suc rounds) code out e =
      let new = bound (optimize_asm_once shl shr code) _ out e in
      elim (ends (eq_code new.0 code) new.0 out (optimize_rounds shl shr rounds new.0) new.2) [
        | inl (same, last) ↦
            let stays = unchanged code new.0 (once-Shrinks code new.0 new.1) same in
            subst (λ c. optimize_asm_once shl shr c ≡ some out) (sym stays ∙ last)
              (new.1 ∙ ap some last)
        | inr more ↦ rounds_fixed rounds new.0 out more
      ]

  -- Code that `optimize_asm` returns is code that a further round of all passes leaves as it is.
  pub optimize_asm_fixed :
      (code out : List Item)
      → optimize_asm shl shr code ≡ some out
      → optimize_asm_once shl shr out ≡ some out
  unfolding optimize_asm
  optimize_asm_fixed code out e = rounds_fixed (length code + 1) code out e
