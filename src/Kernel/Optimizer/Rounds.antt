-- ===== src/Kernel/Optimizer/Rounds.antt =====
-- A round of the optimizer, and its loop: what every pass does to code, they do.
use bcw_zk_evm.Common.{
  bound, ℕ, zero, suc, Bool, true, false, if◌then◌else◌, List, Option, some, ◌≡◌, refl, subst, ◌⊎◌,
  inl, inr, arith, ◌>>=◌,
}
use bcw_zk_evm.Kernel.{Item}
use bcw_zk_evm.Kernel.Same.{eq_code}
use bcw_zk_evm.Kernel.Windows.{replace_windows, rounds_for}
use bcw_zk_evm.Kernel.Optimizer.{
  replace_windows_if_better, if_better, propagate_unary, propagate_binary, identity_window,
  no_op_jump_window, swapped_pushes_window, swap_commutative_window, ignored_value_window,
  constant_propagation, identity_operations, no_op_jumps, remove_swapped_pushes,
  remove_swaps_commutative, remove_ignored_values, optimize_asm_once, optimize_rounds,
}

-- The end of a round: the loop stops, or goes on.
pub ends :
    (same : Bool) (code out : List Item) (rest : Option (List Item))
    → (if same then some code else rest) ≡ some out
    → ((same ≡ true) × (code ≡ out)) ⊎ (rest ≡ some out)
ends true code out rest e = inl (refl, cc e)
ends false code out rest e = inr e

-- What a pass makes of code is related to it.
abbrev pub Keeps :
    (List Item → List Item → Type 0) → ℕ → (List Item → Option (Option (List Item))) → Type 0
Keeps Rel w maybe_replace =
    (code out : List Item)
    → replace_windows w maybe_replace (rounds_for w code) code ≡ some out
    → Rel code out

module _ (shl shr : ℕ → ℕ → Option ℕ) (Rel : List Item → List Item → Type 0)
    (Rel-refl : (a : List Item) → Rel a a)
    (Rel-trans : (a b c : List Item) → Rel a b → Rel b c → Rel a c)
    (unary : Keeps Rel 1 (λ window. propagate_unary window >>= if_better window))
    (binary : Keeps Rel 2 (λ window. propagate_binary shl shr window >>= if_better window))
    (identity : Keeps Rel 1 identity_window) (no_op_jump : Keeps Rel 2 no_op_jump_window)
    (swapped_pushes : Keeps Rel 2 swapped_pushes_window)
    (swap_commutative : Keeps Rel 1 swap_commutative_window)
    (ignored_value : Keeps Rel 1 ignored_value_window) where
  pub once-Rel : (code out : List Item) → optimize_asm_once shl shr code ≡ some out → Rel code out
  unfolding optimize_asm_once constant_propagation identity_operations no_op_jumps
      remove_swapped_pushes remove_swaps_commutative remove_ignored_values replace_windows_if_better
  once-Rel code out e =
      let a = bound (constant_propagation shl shr code) _ out e in
      let u = bound (replace_windows_if_better 1 propagate_unary code) _ a.0 a.1 in
      let b = bound (identity_operations a.0) _ out a.2 in
      let c = bound (no_op_jumps b.0) _ out b.2 in
      let d = bound (remove_swapped_pushes c.0) _ out c.2 in
      let f = bound (remove_swaps_commutative d.0) _ out d.2 in
      Rel-trans code a.0 out (Rel-trans code u.0 a.0 (unary code u.0 u.1) (binary u.0 a.0 u.2)) (
        Rel-trans a.0 b.0 out (identity a.0 b.0 b.1) (
          Rel-trans b.0 c.0 out (no_op_jump b.0 c.0 c.1) (
            Rel-trans c.0 d.0 out (swapped_pushes c.0 d.0 d.1)
              (Rel-trans d.0 f.0 out (swap_commutative d.0 f.0 f.1) (ignored_value f.0 out f.2)))))

  pub rounds-Rel :
      (rounds : ℕ) (code out : List Item)
      → optimize_rounds shl shr rounds code ≡ some out
      → Rel code out
  unfolding optimize_rounds
  rounds-Rel zero code out e = absurd (ground arith)
  rounds-Rel (suc rounds) code out e =
      let a = bound (optimize_asm_once shl shr code) _ out e in
      let first = once-Rel code a.0 a.1 in
      elim (ends (eq_code a.0 code) a.0 out (optimize_rounds shl shr rounds a.0) a.2) [
        | inl (same, last) ↦ subst (Rel code) last first
        | inr more ↦ Rel-trans code a.0 out first (rounds-Rel rounds a.0 out more)
      ]
