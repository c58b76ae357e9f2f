-- ===== src/Kernel/Optimizer/Correct.antt =====
-- `optimize_asm` keeps what the code does.
use bcw_zk_evm.Common.{
  ℕ, zero, suc, ◌+◌, List, All, length, Option, some, ◌≡◌, refl, ap, ◌∙◌, ◌⊎◌, inl, inr,
}
use bcw_zk_evm.Evm.Operation.{BinaryOperator}
use bcw_zk_evm.Evm.Arithmetic.{binary_result}
use bcw_zk_evm.Kernel.{Item, PushTarget}
use bcw_zk_evm.Kernel.Optimizer.{optimize_asm}
use bcw_zk_evm.Kernel.Optimizer.Refines.{
  IsSound, Refines, Becomes, Becomes-refl, Becomes-trans, replace_windows-Becomes,
}
use bcw_zk_evm.Kernel.Optimizer.Rounds.{rounds-Rel}
use bcw_zk_evm.Kernel.Optimizer.Passes.{
  no_op_jump-MayReplace, swapped_pushes-MayReplace, ignored_value-MayReplace,
}
use bcw_zk_evm.Kernel.Optimizer.Algebra.{identity-MayReplace, swap_commutative-MayReplace}
use bcw_zk_evm.Kernel.Optimizer.Constants.{unary_window-MayReplace, binary_window-MayReplace}
use bcw_zk_evm.Kernel.Machine.{State, running, jumping, fault, exec, exec_rounds, resume}
use bcw_zk_evm.Kernel.Machine.Words.{Words, exec-Words}

module _ {R : Type 0} (resolve : PushTarget → ℕ)
    (perform : Item → R → List ℕ → Option (R × List ℕ)) where
  -- Two codes that agree on the next passages agree on how a jump under way ends.
  resumed :
      (n : ℕ) (code out : List Item)
      → ((st : State R)
          → Words st
          → (exec_rounds resolve perform n code st ≡ fault)
            ⊎ (exec_rounds resolve perform n code st ≡ exec_rounds resolve perform n out st))
      → (st : State R) → Words st
      → (resume (exec_rounds resolve perform n code) st ≡ fault)
        ⊎ (resume (exec_rounds resolve perform n code) st
            ≡ resume (exec_rounds resolve perform n out) st)
  unfolding resume
  resumed n code out f (running m s) h = inr refl
  resumed n code out f (jumping d m s) h = f (jumping d m s) h
  resumed n code out f fault h = inr refl

  exec_rounds_agree :
      (n : ℕ) (code out : List Item)
      → Refines resolve perform code out
      → (st : State R) → Words st
      → (exec_rounds resolve perform n code st ≡ fault)
        ⊎ (exec_rounds resolve perform n code st ≡ exec_rounds resolve perform n out st)
  unfolding exec_rounds resume Refines
  exec_rounds_agree zero code out f st h = inr refl
  exec_rounds_agree (suc n) code out f st h =
      elim (resumed n code out (exec_rounds_agree n code out f) (exec resolve perform code st)
        (exec-Words resolve perform code st h)) [
          | inl e ↦ inl e
          | inr e ↦ elim (f st h) [
            | inl g ↦ inl (ap (resume (exec_rounds resolve perform n code)) g)
            | inr g ↦ inr (e ∙ ap (resume (exec_rounds resolve perform n out)) g)
          ]
        ]

module _ {R : Type 0} (resolve : PushTarget → ℕ) (perform : Item → R → List ℕ → Option (R × List ℕ))
    (shl shr : ℕ → ℕ → Option ℕ)
    (shl-agrees : (y x r : ℕ) → shl y x ≡ some r → r ≡ binary_result BinaryOperator.shl x y)
    (shr-agrees : (y x r : ℕ) → shr y x ≡ some r → r ≡ binary_result BinaryOperator.shr x y) where
  optimize_asm-Becomes :
      (code out : List Item)
      → All IsSound code
      → optimize_asm shl shr code ≡ some out
      → All IsSound out × Refines resolve perform code out
  unfolding optimize_asm
  optimize_asm-Becomes code out sound e =
      rounds-Rel shl shr (Becomes resolve perform) (Becomes-refl resolve perform)
        (Becomes-trans resolve perform)
        (replace_windows-Becomes resolve perform 1 _ (unary_window-MayReplace resolve perform))
        (replace_windows-Becomes resolve perform 2 _
          (binary_window-MayReplace resolve perform shl shr shl-agrees shr-agrees))
        (replace_windows-Becomes resolve perform 1 _ (identity-MayReplace resolve perform))
        (replace_windows-Becomes resolve perform 2 _ (no_op_jump-MayReplace resolve perform))
        (replace_windows-Becomes resolve perform 2 _ (swapped_pushes-MayReplace resolve perform))
        (replace_windows-Becomes resolve perform 1 _ (swap_commutative-MayReplace resolve perform))
        (replace_windows-Becomes resolve perform 1 _ (ignored_value-MayReplace resolve perform))
        (length code + 1) code out e sound

  -- On any machine: where the literals of a code are words and none of its operations is `BYTE`, and
  -- where shifts that do not panic are those of the processor, take the code that `optimize_asm`
  -- returns. Run for any number of passages, from any state whose stack holds words, it ends where the
  -- original code ends, unless that one faults.
  pub optimize_asm-exec_rounds :
      (code out : List Item)
      → All IsSound code
      → optimize_asm shl shr code ≡ some out
      → (n : ℕ) (st : State R) → Words st
      → (exec_rounds resolve perform n code st ≡ fault)
        ⊎ (exec_rounds resolve perform n code st ≡ exec_rounds resolve perform n out st)
  optimize_asm-exec_rounds code out sound e n =
      exec_rounds_agree resolve perform n code out (optimize_asm-Becomes code out sound e).1
