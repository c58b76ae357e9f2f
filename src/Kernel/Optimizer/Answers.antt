-- ===== src/Kernel/Optimizer/Answers.antt =====
-- The closures of the optimizer that do not fold two literals: they answer on every window without
-- shifts, and suggest none.
use text.Mathlib.Text.{starts_with}
use bcw_zk_evm.Common.{
  ◌==◌, All, ℕ, Bool, true, false, if◌then◌else◌, List, [], ◌∷◌, Option, none, some, ◌≡◌, refl,
  ◌>>=◌,
}
use bcw_zk_evm.Kernel.{Item, PushTarget}
use bcw_zk_evm.Kernel.Cost.{is_code_improved, cost_estimate, cost_estimate_item}
use bcw_zk_evm.Kernel.Optimizer.{
  if_better, propagate_unary, unary_result, identity_window, no_op_jump_window,
  swapped_pushes_window, swap_commutative_window, ignored_value_window, is_declaration_of,
  is_commutative, ◌is◌,
}

-- Not a shift, which panics on an amount of 2^64 or more.
abbrev pub IsShiftless : Item → Type 0
IsShiftless (Item.standard_op op) = ((op is "SHL") ≡ false) × ((op is "SHR") ≡ false)
IsShiftless _ = Unit

-- What a closure suggests, if anything, has no shifts.
abbrev pub Suggests : Option (List Item) → Type 0
Suggests none = Unit
Suggests (some new) = All IsShiftless new

-- A closure that does not panic on a window.
abbrev pub Answers : Option (Option (List Item)) → Type 0
Answers o = (found : Option (List Item)) × (o ≡ some found) × Suggests found

-- It does so on every window without shifts.
abbrev pub IsTotal : (List Item → Option (Option (List Item))) → Type 0
IsTotal maybe_replace =
    (window : List Item) → All IsShiftless window → Answers (maybe_replace window)

pub if_Suggests :
    (b : Bool) (o p : Option (List Item)) → Suggests o → Suggests p → Suggests (if b then o else p)
if_Suggests true o p h k = h
if_Suggests false o p h k = k

pub identity-IsTotal : IsTotal identity_window
unfolding identity_window
identity-IsTotal (Item.push (PushTarget.literal x) ∷ Item.standard_op op ∷ []) all = (
  _,
  refl,
  if_Suggests (op is "ADD") _ _ (if_Suggests (x == 0) _ _ tt tt) (
      if_Suggests (op is "MUL") _ _ (if_Suggests (x == 1) _ _ tt tt) (
        if_Suggests (op is "OR") _ _ (if_Suggests (x == 0) _ _ tt tt)
          (if_Suggests (op is "XOR") _ _ (if_Suggests (x == 0) _ _ tt tt) tt))),
)
identity-IsTotal _ all = (none, refl, tt)

pub no_op_jump-IsTotal : IsTotal no_op_jump_window
unfolding no_op_jump_window
no_op_jump-IsTotal (Item.push (PushTarget.label l) ∷ Item.standard_op jump ∷ decl ∷ []) all = (
  _,
  refl,
  if_Suggests (jump is "JUMP") _ _ (if_Suggests (is_declaration_of decl l) _ _ all.1.1 tt) tt,
)
no_op_jump-IsTotal _ all = (none, refl, tt)

pub swapped_pushes-IsTotal : IsTotal swapped_pushes_window
unfolding swapped_pushes_window
swapped_pushes-IsTotal (Item.push x ∷ Item.push y ∷ Item.standard_op op ∷ []) all =
    (_, refl, if_Suggests (op is "SWAP1") _ _ (tt, (tt, tt)) tt)
swapped_pushes-IsTotal _ all = (none, refl, tt)

pub swap_commutative-IsTotal : IsTotal swap_commutative_window
unfolding swap_commutative_window
swap_commutative-IsTotal (Item.standard_op swap ∷ Item.standard_op op ∷ []) all =
    (_, refl, if_Suggests (swap is "SWAP1") _ _ (if_Suggests (is_commutative op) _ _ all.1 tt) tt)
swap_commutative-IsTotal _ all = (none, refl, tt)

pub ignored_value-IsTotal : IsTotal ignored_value_window
unfolding ignored_value_window
ignored_value-IsTotal (Item.push x ∷ Item.standard_op op ∷ []) all =
    (_, refl, if_Suggests (op is "POP") _ _ tt tt)
ignored_value-IsTotal (Item.standard_op dup ∷ Item.standard_op op ∷ []) all =
    (_, refl, if_Suggests (op is "POP") _ _ (if_Suggests (starts_with dup "DUP") _ _ tt tt) tt)
ignored_value-IsTotal _ all = (none, refl, tt)

pub unary-IsTotal : IsTotal (λ window. propagate_unary window >>= if_better window)
unfolding propagate_unary if_better is_code_improved cost_estimate cost_estimate_item
unary-IsTotal (Item.push (PushTarget.literal x) ∷ Item.standard_op op ∷ []) all =
    go (unary_result op x)
  where
    go :
        (o : Option ℕ)
        → Answers (
            if_better
              (Item.push (PushTarget.literal x) ∷ Item.standard_op op ∷ [])
              (o >>= λ r. some (Item.push (PushTarget.literal r) ∷ [])))
    go none = (none, refl, tt)
    go (some r) =
        (_, refl, if_Suggests _ (some (Item.push (PushTarget.literal r) ∷ [])) none (tt, tt) tt)
unary-IsTotal _ all = (none, refl, tt)
