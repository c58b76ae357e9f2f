-- ===== src/Kernel/Optimizer/Passes.antt =====
-- The passes of the optimizer that drop or move pushes, copies and jumps: each replacement may stand
-- for its window.
use Prim.Native.String.{String}
use text.Mathlib.Text.{starts_with}
use text.Mathlib.TextEquality.{eq_iff}
use bcw_zk_evm.Common.{
  some_inj, ℕ, true, if◌then◌else◌, List, [], ◌∷◌, Option, none, some, ◌≡◌, refl, ◌⊎◌, inl, inr,
  arith, ◌>>=◌, get_elem?, ==_refl,
}
use bcw_zk_evm.Kernel.{Item, PushTarget}
use bcw_zk_evm.Kernel.Optimizer.{
  no_op_jump_window, is_declaration_of, swapped_pushes_window, ignored_value_window,
}
use bcw_zk_evm.Kernel.Optimizer.Refines.{Refines, MayReplace}
use bcw_zk_evm.Kernel.Machine.{
  fault, running, jumping, exec, exec_item, run_op, run_label, pushed, binary, dup_depth,
}
use bcw_zk_evm.Kernel.Machine.Results.{by_name}
use bcw_zk_evm.Kernel.Optimizer.Choice.{not_replaced, when_true, turns, only}

module _ {R : Type 0} (resolve : PushTarget → ℕ)
    (perform : Item → R → List ℕ → Option (R × List ℕ)) where
  swap_pushes :
      (x y : PushTarget)
      → Refines resolve perform
          (Item.push x ∷ Item.push y ∷ Item.standard_op "SWAP1" ∷ [])
          (Item.push y ∷ Item.push x ∷ [])
  unfolding Refines exec exec_item run_op binary
  swap_pushes x y (running m s) h = inr refl
  swap_pushes x y (jumping d m s) h = inr refl
  swap_pushes x y fault h = inr refl

  pub swapped_pushes-MayReplace :
      (window new : List Item)
      → swapped_pushes_window window ≡ some (some new)
      → MayReplace resolve perform window new
  unfolding swapped_pushes_window
  swapped_pushes-MayReplace (Item.push x ∷ Item.push y ∷ Item.standard_op op ∷ []) new e =
      only resolve perform op "SWAP1" (λ o. Item.push x ∷ Item.push y ∷ Item.standard_op o ∷ [])
        (Item.push y ∷ Item.push x ∷ []) new
        (omega arith, λ sound. ((sound.1.0, (sound.0, tt)), swap_pushes x y)) (some_inj e)
  swapped_pushes-MayReplace _ new e = not_replaced e

  drop_pushed :
      (x : PushTarget) → Refines resolve perform (Item.push x ∷ Item.standard_op "POP" ∷ []) []
  unfolding Refines exec exec_item run_op binary
  drop_pushed x (running m s) h = inr refl
  drop_pushed x (jumping d m s) h = inr refl
  drop_pushed x fault h = inr refl

  pop_copied :
      (copied : Option ℕ) (m : R) (s : List ℕ)
      → (exec_item resolve perform
            (Item.standard_op "POP")
            (elim copied [ none ↦ fault | some x ↦ running m (x ∷ s) ])
          ≡ fault)
        ⊎ (exec_item resolve perform
              (Item.standard_op "POP")
              (elim copied [ none ↦ fault | some x ↦ running m (x ∷ s) ])
            ≡ running m s)
  unfolding exec_item run_op binary
  pop_copied none m s = inl refl
  pop_copied (some x) m s = inr refl

  drop_copied :
      (op : String)
      → starts_with op "DUP" ≡ true
      → Refines resolve perform (Item.standard_op op ∷ Item.standard_op "POP" ∷ []) []
  unfolding Refines exec exec_item run_op
  drop_copied op e (running m s) h = rw e (pop_copied (dup_depth op >>= get_elem? s) m s)
  drop_copied op e (jumping d m s) h = inr refl
  drop_copied op e fault h = inr refl

  pub ignored_value-MayReplace :
      (window new : List Item)
      → ignored_value_window window ≡ some (some new)
      → MayReplace resolve perform window new
  unfolding ignored_value_window
  ignored_value-MayReplace (Item.push x ∷ Item.standard_op op ∷ []) new e =
      only resolve perform op "POP" (λ o. Item.push x ∷ Item.standard_op o ∷ []) [] new
        (omega arith, λ sound. (tt, drop_pushed x)) (some_inj e)
  ignored_value-MayReplace (Item.standard_op dup ∷ Item.standard_op op ∷ []) new e =
      by_name
        (λ o.
          o ≡ some new
          → MayReplace resolve perform (Item.standard_op dup ∷ Item.standard_op op ∷ []) new)
        op "POP" (if starts_with dup "DUP" then some [] else none) none
        (λ name f.
          let guard = when_true (starts_with dup "DUP") [] new f in
          turns resolve perform op "POP" (λ o. Item.standard_op dup ∷ Item.standard_op o ∷ []) []
            new (omega arith, λ sound. (tt, drop_copied dup guard.0)) name guard.1)
        (λ f. absurd (ground arith)) (some_inj e)
  ignored_value-MayReplace _ new e = not_replaced e

  -- A jump to the label that follows it.
  jump_next :
      (l : String) (decl : Item)
      → is_declaration_of decl l ≡ true
      → Refines resolve perform
          (Item.push (PushTarget.label l) ∷ Item.standard_op "JUMP" ∷ decl ∷ [])
          (decl ∷ [])
  unfolding is_declaration_of Refines exec exec_item run_op binary run_label
  jump_next l (Item.local_label_declaration k) e (running m s) h =
      inr (rw ((eq_iff k l).0 e, ==_refl (pushed resolve perform (PushTarget.label l))) refl)
  jump_next l (Item.global_label_declaration k) e (running m s) h =
      inr (rw ((eq_iff k l).0 e, ==_refl (pushed resolve perform (PushTarget.label l))) refl)
  jump_next l decl e (jumping d m s) h = inr refl
  jump_next l decl e fault h = inr refl
  jump_next l _ e (running m s) h = absurd (ground arith)

  pub no_op_jump-MayReplace :
      (window new : List Item)
      → no_op_jump_window window ≡ some (some new)
      → MayReplace resolve perform window new
  unfolding no_op_jump_window
  no_op_jump-MayReplace (Item.push (PushTarget.label l) ∷ Item.standard_op jump ∷ decl ∷ []) new e =
      by_name
        (λ o.
          o ≡ some new
          → MayReplace resolve perform
              (Item.push (PushTarget.label l) ∷ Item.standard_op jump ∷ decl ∷ []) new)
        jump "JUMP" (if is_declaration_of decl l then some (decl ∷ []) else none) none
        (λ name f.
          let guard = when_true (is_declaration_of decl l) (decl ∷ []) new f in
          turns resolve perform jump "JUMP"
            (λ o. Item.push (PushTarget.label l) ∷ Item.standard_op o ∷ decl ∷ []) (decl ∷ []) new
            (omega arith, λ sound. (sound.1.1, jump_next l decl guard.0)) name guard.1)
        (λ f. absurd (ground arith)) (some_inj e)
  no_op_jump-MayReplace _ new e = not_replaced e
