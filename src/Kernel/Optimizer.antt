-- ===== src/Kernel/Optimizer.antt =====
-- `evm_arithmetization/src/cpu/kernel/optimizer.rs`: the peephole optimizer of the assembler.
pub mod Refines
pub mod Choice
pub mod Passes
pub mod Algebra
pub mod Folding
pub mod Constants
pub mod Rounds
pub mod Shrinks
pub mod Answers
pub mod Total
pub mod Correct
use Prim.Native.String.{String}
use Prim.Native.Nat.{bit_xor}
use text.Mathlib.Text.{starts_with}
use text.Mathlib.Text as Text
use bcw_zk_evm.Common.{
  ℕ, zero, suc, ◌+◌, ◌-◌, ◌*◌, ◌/◌, ◌%◌, ◌^◌, Bool, true, false, ltb, ◌==◌, if◌then◌else◌, ◌||◌,
  List, [], ◌∷◌, length, Option, none, some, ◌>>=◌, bit_and, bit_or,
}
use bcw_zk_evm.Kernel.{Item, PushTarget}
use bcw_zk_evm.Kernel.Windows.{replace_windows, rounds_for}
use bcw_zk_evm.Kernel.Cost.{u256_from_bool, is_code_improved}
use bcw_zk_evm.Kernel.Same.{eq_code}

infix 50 ◌is◌
abbrev pub ◌is◌ : String → String → Bool
s is t = Text.◌==◌ s t

-- A replacement that is not cheaper is dropped; `none` is a panic.
unfoldable pub if_better : List Item → Option (List Item) → Option (Option (List Item))
unfolding is_code_improved
if_better window none = some none
if_better window (some suggestion) =
    is_code_improved window suggestion >>= λ better. some (if better then some suggestion else none)

unfoldable pub replace_windows_if_better :
    ℕ → (List Item → Option (Option (List Item))) → List Item → Option (List Item)
unfolding replace_windows if_better
replace_windows_if_better w maybe_replace code =
    replace_windows w (λ window. maybe_replace window >>= if_better window) (rounds_for w code) code

-- `matches!(f.as_str(), …)`
unfoldable pub is_commutative : String → Bool
is_commutative f =
    f is "ADD" || (f is "MUL" || (f is "AND" || (f is "OR" || (f is "XOR" || f is "EQ"))))

unfoldable pub unary_result : String → ℕ → Option ℕ
unfolding u256_from_bool
unary_result op x =
    if op is "ISZERO"
    then some (u256_from_bool (x == 0))
    else if op is "NOT"
    then some (2 ^ 256 - 1 - x)
    else none

-- The closures, on a window.
unfoldable pub propagate_unary : List Item → Option (Option (List Item))
unfolding unary_result
propagate_unary (Item.push (PushTarget.literal x) ∷ Item.standard_op op ∷ []) =
    some (unary_result op x >>= λ r. some (Item.push (PushTarget.literal r) ∷ []))
propagate_unary _ = some none

unfoldable pub identity_window : List Item → Option (Option (List Item))
identity_window (Item.push (PushTarget.literal x) ∷ Item.standard_op op ∷ []) = some (
    if op is "ADD"
    then (if x == 0 then some [] else none)
    else if op is "MUL"
    then (if x == 1 then some [] else none)
    else if op is "OR"
    then (if x == 0 then some [] else none)
    else if op is "XOR"
    then (if x == 0 then some [] else none)
    else none)
identity_window _ = some none

unfoldable pub is_declaration_of : Item → String → Bool
is_declaration_of (Item.local_label_declaration m) l = m is l
is_declaration_of (Item.global_label_declaration m) l = m is l
is_declaration_of _ l = false

unfoldable pub no_op_jump_window : List Item → Option (Option (List Item))
unfolding is_declaration_of
no_op_jump_window (Item.push (PushTarget.label l) ∷ Item.standard_op jump ∷ decl ∷ []) =
    some (
      if jump is "JUMP"
      then (if is_declaration_of decl l then some (decl ∷ []) else none)
      else none)
no_op_jump_window _ = some none

unfoldable pub swapped_pushes_window : List Item → Option (Option (List Item))
swapped_pushes_window (Item.push x ∷ Item.push y ∷ Item.standard_op swap1 ∷ []) =
    some (if swap1 is "SWAP1" then some (Item.push y ∷ Item.push x ∷ []) else none)
swapped_pushes_window _ = some none

unfoldable pub swap_commutative_window : List Item → Option (Option (List Item))
unfolding is_commutative
swap_commutative_window (Item.standard_op swap1 ∷ Item.standard_op f ∷ []) = some (
    if swap1 is "SWAP1"
    then (if is_commutative f then some (Item.standard_op f ∷ []) else none)
    else none)
swap_commutative_window _ = some none

unfoldable pub ignored_value_window : List Item → Option (Option (List Item))
ignored_value_window (Item.push x ∷ Item.standard_op pop ∷ []) =
    some (if pop is "POP" then some [] else none)
ignored_value_window (Item.standard_op dup ∷ Item.standard_op pop ∷ []) =
    some (if pop is "POP" then (if starts_with dup "DUP" then some [] else none) else none)
ignored_value_window _ = some none

unfoldable pub identity_operations : List Item → Option (List Item)
unfolding replace_windows identity_window
identity_operations code = replace_windows 1 identity_window (rounds_for 1 code) code

unfoldable pub no_op_jumps : List Item → Option (List Item)
unfolding replace_windows no_op_jump_window
no_op_jumps code = replace_windows 2 no_op_jump_window (rounds_for 2 code) code

unfoldable pub remove_swapped_pushes : List Item → Option (List Item)
unfolding replace_windows swapped_pushes_window
remove_swapped_pushes code = replace_windows 2 swapped_pushes_window (rounds_for 2 code) code

unfoldable pub remove_swaps_commutative : List Item → Option (List Item)
unfolding replace_windows swap_commutative_window
remove_swaps_commutative code = replace_windows 1 swap_commutative_window (rounds_for 1 code) code

unfoldable pub remove_ignored_values : List Item → Option (List Item)
unfolding replace_windows ignored_value_window
remove_ignored_values code = replace_windows 1 ignored_value_window (rounds_for 1 code) code

-- `<<` and `>>` of a `U256` by a `U256`: the word and then the amount, where they do not panic.
module _ (shl shr : ℕ → ℕ → Option ℕ) where
  unfoldable pub fold_binary : String → ℕ → ℕ → Option (Option ℕ)
  unfolding u256_from_bool
  fold_binary op x y =
      if op is "ADD"
      then some (some ((x + y) % 2 ^ 256))
      else if op is "SUB"
      then some (some ((x + 2 ^ 256 - y) % 2 ^ 256))
      else if op is "MUL"
      then some (some (x * y % 2 ^ 256))
      else if op is "DIV"
      then some (some (if y == 0 then 0 else x / y))
      else if op is "MOD"
      then some (some (if y == 0 then 0 else x % y))
      else if op is "EXP"
      then some (some (x ^ y % 2 ^ 256))
      else if op is "SHL"
      then (shl y x >>= λ r. some (some r))
      else if op is "SHR"
      then (shr y x >>= λ r. some (some r))
      else if op is "AND"
      then some (some (bit_and x y))
      else if op is "OR"
      then some (some (bit_or x y))
      else if op is "XOR"
      then some (some (bit_xor x y))
      else if op is "LT"
      then some (some (u256_from_bool (ltb x y)))
      else if op is "GT"
      then some (some (u256_from_bool (ltb y x)))
      else if op is "EQ"
      then some (some (u256_from_bool (x == y)))
      else if op is "BYTE"
      then some (some (if ltb x 32 then y / 2 ^ (8 * x) % 256 else 0))
      else some none

  unfoldable pub propagate_binary : List Item → Option (Option (List Item))
  unfolding fold_binary
  propagate_binary
        (Item.push (PushTarget.literal y)
          ∷ Item.push (PushTarget.literal x)
          ∷ Item.standard_op op
          ∷ []) =
      fold_binary op x y >>= λ res. some (res >>= λ r. some (Item.push (PushTarget.literal r) ∷ []))
  propagate_binary _ = some none

  unfoldable pub constant_propagation : List Item → Option (List Item)
  unfolding replace_windows_if_better propagate_unary propagate_binary
  constant_propagation code = replace_windows_if_better 1 propagate_unary code >>= λ code.
      replace_windows_if_better 2 propagate_binary code

  unfoldable pub optimize_asm_once : List Item → Option (List Item)
  unfolding constant_propagation identity_operations no_op_jumps remove_swapped_pushes
      remove_swaps_commutative remove_ignored_values
  optimize_asm_once code = constant_propagation code >>= λ code.
      identity_operations code >>= λ code. no_op_jumps code >>= λ code.
      remove_swapped_pushes code >>= λ code.
      remove_swaps_commutative code >>= λ code. remove_ignored_values code

  -- The loop until nothing changes; the first number is the rounds left.
  unfoldable pub optimize_rounds : ℕ → List Item → Option (List Item)
  unfolding optimize_asm_once eq_code
  optimize_rounds zero code = none
  optimize_rounds (suc rounds) old_code = optimize_asm_once old_code >>= λ code.
      (let rest = optimize_rounds rounds code in if eq_code code old_code then some code else rest)

  unfoldable pub optimize_asm : List Item → Option (List Item)
  unfolding optimize_rounds
  optimize_asm code = optimize_rounds (length code + 1) code
