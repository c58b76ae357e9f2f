-- ===== src/Kernel/Optimizer/Total.antt =====
-- The optimizer returns on code without shifts.
use Prim.Native.String.{String}
use bcw_zk_evm.Common.{
  bound_known, All, ℕ, zero, suc, ◌+◌, ◌<◌, Bool, true, false, Bool-cases, if◌then◌else◌, List, [],
  ◌∷◌, length, Option, none, some, Option-cases, ◌≡◌, refl, ap, subst, sym, ◌∙◌, ◌⊎◌, inl, inr,
  arith, ◌>>=◌,
}
use bcw_zk_evm.Kernel.{Item, PushTarget}
use bcw_zk_evm.Kernel.Same.{eq_code, eq_code_refl}
use bcw_zk_evm.Kernel.Cost.{is_code_improved, cost_estimate, cost_estimate_item}
use bcw_zk_evm.Kernel.Windows.{replace_windows, rounds_for}
use bcw_zk_evm.Kernel.Windows.Total.{Returns, ReturnsAll, replace_windows-ReturnsAll}
use bcw_zk_evm.Kernel.Optimizer.{
  replace_windows_if_better, if_better, propagate_unary, propagate_binary, fold_binary,
  identity_window, no_op_jump_window, swapped_pushes_window, swap_commutative_window,
  ignored_value_window, constant_propagation, identity_operations, no_op_jumps,
  remove_swapped_pushes, remove_swaps_commutative, remove_ignored_values, optimize_asm_once,
  optimize_rounds, optimize_asm, ◌is◌,
}
use bcw_zk_evm.Kernel.Optimizer.Passes.{
  no_op_jump-MayReplace, swapped_pushes-MayReplace, ignored_value-MayReplace,
}
use bcw_zk_evm.Kernel.Optimizer.Algebra.{identity-MayReplace, swap_commutative-MayReplace}
use bcw_zk_evm.Kernel.Optimizer.Shrinks.{
  Shrinks, Shorter, idle, nowhere, unary-Shorter, binary-Shorter, once-Shrinks,
}
use bcw_zk_evm.Kernel.Optimizer.Answers.{
  IsShiftless, Suggests, Answers, IsTotal, if_Suggests, identity-IsTotal, no_op_jump-IsTotal,
  swapped_pushes-IsTotal, swap_commutative-IsTotal, ignored_value-IsTotal, unary-IsTotal,
}

pass-ReturnsAll :
    (w : ℕ) (maybe_replace : List Item → Option (Option (List Item)))
    → Shorter maybe_replace
    → IsTotal maybe_replace
    → (code : List Item) → All IsShiftless code
    → ReturnsAll IsShiftless (replace_windows w maybe_replace (rounds_for w code) code)
pass-ReturnsAll w maybe_replace short total =
    replace_windows-ReturnsAll IsShiftless w maybe_replace (λ window size all.
      let (found, e, fine) = total window all in
      elim (Option-cases found) [
        | inl n ↦ inl (e ∙ ap some n)
        | inr (new, n) ↦
            let f = e ∙ ap some n in
            inr (new, f, omega (arith, short window new f), subst Suggests n fine)
      ])

true-false : true ≡ false → ⊥
true-false e = ground arith

if_Returns :
    {A : Type 0} (b : Bool) (o p : Option A) → Returns o → Returns p → Returns (if b then o else p)
if_Returns true o p h k = h
if_Returns false o p h k = k

skip_Returns :
    {A : Type 0} (b : Bool) (o p : Option A) → b ≡ false → Returns p → Returns (if b then o else p)
skip_Returns b o p e h = rw e h

-- A chain returns if its parts do.
chain :
    (o : Option (List Item)) (f : List Item → Option (List Item))
    → ReturnsAll IsShiftless o
    → ((a : List Item) → All IsShiftless a → ReturnsAll IsShiftless (f a))
    → ReturnsAll IsShiftless (o >>= f)
chain o f (a, e, all) g = subst (λ p. ReturnsAll IsShiftless (p >>= f)) (sym e) (g a all)

module _ (shl shr : ℕ → ℕ → Option ℕ) where
  fold-Returns :
      (op : String) (x y : ℕ)
      → IsShiftless (Item.standard_op op)
      → Returns (fold_binary shl shr op x y)
  unfolding fold_binary
  fold-Returns op x y shiftless = known "ADD" _ (
      known "SUB" _ (
        known "MUL" _ (
          known "DIV" _ (
            known "MOD" _ (
              known "EXP" _ (
                skip_Returns (op is "SHL") _ _ shiftless.0 (
                  skip_Returns (op is "SHR") _ _ shiftless.1 (
                    known "AND" _ (
                      known "OR" _ (
                        known "XOR" _ (
                          known "LT" _
                            (known "GT" _ (known "EQ" _ (known "BYTE" _ (none, refl)))))))))))))))
    where
      known :
          (name : String) (v : Option ℕ) {rest : Option (Option ℕ)}
          → Returns rest
          → Returns (if op is name then some v else rest)
      known name v h = if_Returns (op is name) _ _ (_, refl) h

  binary-IsTotal : IsTotal (λ window. propagate_binary shl shr window >>= if_better window)
  unfolding propagate_binary if_better is_code_improved cost_estimate cost_estimate_item
  binary-IsTotal
        (Item.push (PushTarget.literal y)
          ∷ Item.push (PushTarget.literal x)
          ∷ Item.standard_op op
          ∷ [])
        all =
      go (fold_binary shl shr op x y) (fold-Returns op x y all.1.1.0)
    where
      go :
          (o : Option (Option ℕ))
          → Returns o
          → Answers (
              (o >>= λ res. some (res >>= λ r. some (Item.push (PushTarget.literal r) ∷ [])))
              >>= if_better (
                  Item.push (PushTarget.literal y)
                  ∷ Item.push (PushTarget.literal x)
                  ∷ Item.standard_op op
                  ∷ []))
      go none (a, e) = absurd (ground arith)
      go (some none) h = (none, refl, tt)
      go (some (some r)) h =
          (_, refl, if_Suggests _ (some (Item.push (PushTarget.literal r) ∷ [])) none (tt, tt) tt)
  binary-IsTotal _ all = (none, refl, tt)

  once-ReturnsAll :
      (code : List Item)
      → All IsShiftless code
      → ReturnsAll IsShiftless (optimize_asm_once shl shr code)
  unfolding optimize_asm_once constant_propagation identity_operations no_op_jumps
      remove_swapped_pushes remove_swaps_commutative remove_ignored_values replace_windows_if_better
  once-ReturnsAll code all =
      chain (constant_propagation shl shr code) _
        (chain (replace_windows_if_better 1 propagate_unary code) _
          (pass-ReturnsAll 1 _ unary-Shorter unary-IsTotal code all)
          (pass-ReturnsAll 2 _ (binary-Shorter shl shr) binary-IsTotal))
        λ code all.
          chain (identity_operations code) _
            (pass-ReturnsAll 1 identity_window
              (λ window new e. (identity-MayReplace nowhere idle window new e).0) identity-IsTotal
              code all)
            λ code all.
              chain (no_op_jumps code) _
                (pass-ReturnsAll 2 no_op_jump_window
                  (λ window new e. (no_op_jump-MayReplace nowhere idle window new e).0)
                  no_op_jump-IsTotal code all)
                λ code all.
                  chain (remove_swapped_pushes code) _
                    (pass-ReturnsAll 2 swapped_pushes_window
                      (λ window new e. (swapped_pushes-MayReplace nowhere idle window new e).0)
                      swapped_pushes-IsTotal code all)
                    λ code all.
                      chain (remove_swaps_commutative code) _
                        (pass-ReturnsAll 1 swap_commutative_window
                          (λ window new e.
                            (swap_commutative-MayReplace nowhere idle window new e).0)
                          swap_commutative-IsTotal code all)
                        (pass-ReturnsAll 1 ignored_value_window
                          (λ window new e. (ignored_value-MayReplace nowhere idle window new e).0)
                          ignored_value-IsTotal)

  rounds-Returns :
      (rounds : ℕ) (code : List Item)
      → length code < rounds
      → All IsShiftless code
      → Returns (optimize_rounds shl shr rounds code)
  unfolding optimize_rounds
  rounds-Returns zero code enough all = absurd (omega arith)
  rounds-Returns (suc rounds) code enough all =
      let (new, run, kept) = once-ReturnsAll code all in
      subst Returns (sym (bound_known (optimize_asm_once shl shr code) _ new run)) (
        go new (once-Shrinks shl shr code new run) (Bool-cases (eq_code new code))
          (λ less. rounds-Returns rounds new (omega arith) kept))
    where
      go :
          (new : List Item)
          → Shrinks code new
          → (eq_code new code ≡ true) ⊎ (eq_code new code ≡ false)
          → (length new < length code → Returns (optimize_rounds shl shr rounds new))
          → Returns (if eq_code new code then some new else optimize_rounds shl shr rounds new)
      go new shrinks (inl same) more = rw same (new, refl)
      go new (inr less) (inr other) more = rw other (more less)
      go new (inl stays) (inr other) more =
          let same : eq_code new code ≡ true =
            subst (λ c. eq_code new c ≡ true) (sym stays) (eq_code_refl new) in
          absurd (true-false (sym same ∙ other))

  -- On code without `SHL` and `SHR`, whose shifts panic on amounts of 2^64 or more, `optimize_asm`
  -- returns: no pass panics, and the rounds allowed to its loops are enough.
  pub optimize_asm-Returns :
      (code : List Item) → All IsShiftless code → Returns (optimize_asm shl shr code)
  unfolding optimize_asm
  optimize_asm-Returns code all = rounds-Returns (length code + 1) code (omega arith) all
