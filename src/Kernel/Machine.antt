-- ===== src/Kernel/Machine.antt =====
-- What assembly code does to a machine: an account that does not know of the optimizer. Arithmetic is
-- that of the processor, `BinaryOperator::result` of `evm_arithmetization/src/arithmetic/mod.rs` and
-- `logic::Op::result` of `logic.rs`.
pub mod Results
pub mod Words
use Prim.Native.String.{String}
use Prim.Native.Nat.{bit_xor}
use text.Mathlib.Text.{starts_with}
use bcw_zk_evm.Common.{
  ℕ, zero, suc, ◌+◌, ◌-◌, ◌*◌, ◌%◌, ◌^◌, ◌<◌, ◌==◌, if◌then◌else◌, List, [], ◌∷◌, ◌++◌, All, map,
  get_elem?, Option, none, some, ◌>>=◌, bit_and, bit_or, ◌≡◌, refl, ap,
}
use bcw_zk_evm.Evm.Operation.{BinaryOperator, LogicOp}
use bcw_zk_evm.Evm.Arithmetic.{binary_result}
use bcw_zk_evm.Kernel.{Item, PushTarget}
use bcw_zk_evm.Kernel.Optimizer.{◌is◌}

abbrev pub IsWord : ℕ → Type 0
IsWord x = x < 2 ^ 256

-- `logic::Op::result`
unfoldable pub logic_result : LogicOp → ℕ → ℕ → ℕ
logic_result LogicOp.and a b = bit_and a b
logic_result LogicOp.or a b = bit_or a b
logic_result LogicOp.xor a b = bit_xor a b

abbrev pub equal_words : ℕ → ℕ → ℕ
equal_words x y = if x == y then 1 else 0

abbrev pub power : ℕ → ℕ → ℕ
power x y = x ^ y % 2 ^ 256

-- The operations on two words, the top of the stack first.
unfoldable pub binary : String → Option (ℕ → ℕ → ℕ)
unfolding binary_result logic_result
binary op =
    if op is "ADD"
    then some (binary_result BinaryOperator.add)
    else if op is "SUB"
    then some (binary_result BinaryOperator.sub)
    else if op is "MUL"
    then some (binary_result BinaryOperator.mul)
    else if op is "DIV"
    then some (binary_result BinaryOperator.div)
    else if op is "MOD"
    then some (binary_result BinaryOperator.modulo)
    else if op is "EXP"
    then some power
    else if op is "SHL"
    then some (binary_result BinaryOperator.shl)
    else if op is "SHR"
    then some (binary_result BinaryOperator.shr)
    else if op is "AND"
    then some (logic_result LogicOp.and)
    else if op is "OR"
    then some (logic_result LogicOp.or)
    else if op is "XOR"
    then some (logic_result LogicOp.xor)
    else if op is "LT"
    then some (binary_result BinaryOperator.lt)
    else if op is "GT"
    then some (binary_result BinaryOperator.gt)
    else if op is "EQ"
    then some equal_words
    else if op is "BYTE"
    then some (binary_result BinaryOperator.byte)
    else none

unfoldable pub unary : String → Option (ℕ → ℕ)
unary op =
    if op is "ISZERO"
    then some (λ x. if x == 0 then 1 else 0)
    else if op is "NOT"
    then some (λ x. 2 ^ 256 - 1 - x)
    else none

-- The depth that a `DUP` copies from.
unfoldable pub dup_depth : String → Option ℕ
dup_depth op =
    if op is "DUP1"
    then some 0
    else if op is "DUP2"
    then some 1
    else if op is "DUP3"
    then some 2
    else if op is "DUP4"
    then some 3
    else if op is "DUP5"
    then some 4
    else if op is "DUP6"
    then some 5
    else if op is "DUP7"
    then some 6
    else if op is "DUP8"
    then some 7
    else if op is "DUP9"
    then some 8
    else if op is "DUP10"
    then some 9
    else if op is "DUP11"
    then some 10
    else if op is "DUP12"
    then some 11
    else if op is "DUP13"
    then some 12
    else if op is "DUP14"
    then some 13
    else if op is "DUP15"
    then some 14
    else if op is "DUP16"
    then some 15
    else none

-- Between two items: running, on the way to a label, or stopped by a fault. A machine is its stack,
-- the top first, and the rest of it, `R`.
pub data State (R : Type 0) : Type 0 where
  running : R → List ℕ → State R
  jumping : ℕ → R → List ℕ → State R
  fault : State R

module _ {R : Type 0} where
  abbrev pub run_unary : (ℕ → ℕ) → R → List ℕ → State R
  run_unary f m [] = fault
  run_unary f m (x ∷ s) = running m (f x ∷ s)

  abbrev pub run_binary : (ℕ → ℕ → ℕ) → R → List ℕ → State R
  run_binary f m (x ∷ y ∷ s) = running m (f x y ∷ s)
  run_binary f m _ = fault

  abbrev pub run_dup : Option ℕ → R → List ℕ → State R
  run_dup depth m s = elim (depth >>= get_elem? s) [ none ↦ fault | some x ↦ running m (x ∷ s) ]

  abbrev pub run_swap1 : R → List ℕ → State R
  run_swap1 m (x ∷ y ∷ s) = running m (y ∷ x ∷ s)
  run_swap1 m _ = fault

  abbrev pub run_pop : R → List ℕ → State R
  run_pop m [] = fault
  run_pop m (x ∷ s) = running m s

  abbrev pub run_jump : R → List ℕ → State R
  run_jump m [] = fault
  run_jump m (d ∷ s) = jumping d m s

  abbrev pub run_jumpi : R → List ℕ → State R
  run_jumpi m (d ∷ c ∷ s) = if c == 0 then running m s else jumping d m s
  run_jumpi m _ = fault

  -- What other items leave on the stack are words.
  abbrev pub run_other : Option (R × List ℕ) → State R
  run_other none = fault
  run_other (some r) = running r.0 (map (λ x. x % 2 ^ 256) r.1)

  -- What comes after a passage: another, for a jump under way.
  unfoldable pub resume : (State R → State R) → State R → State R
  resume again (running m s) = running m s
  resume again (jumping d m s) = again (jumping d m s)
  resume again fault = fault

-- `resolve` gives labels their addresses, and `perform` does the items that this file does not.
module _ {R : Type 0} (resolve : PushTarget → ℕ)
    (perform : Item → R → List ℕ → Option (R × List ℕ)) where
  unfoldable pub pushed : PushTarget → ℕ
  pushed (PushTarget.literal x) = x % 2 ^ 256
  pushed t = resolve t % 2 ^ 256

  unfoldable pub run_op : String → R → List ℕ → State R
  unfolding binary unary dup_depth
  run_op op m s = if starts_with op "DUP" then run_dup (dup_depth op) m s else elim (binary op) [
    | some f ↦ run_binary f m s
    | none ↦ elim (unary op) [
      | some f ↦ run_unary f m s
      | none ↦
          if op is "SWAP1"
          then run_swap1 m s
          else if op is "POP"
          then run_pop m s
          else if op is "JUMP"
          then run_jump m s
          else if op is "JUMPI"
          then run_jumpi m s
          else run_other (perform (Item.standard_op op) m s)
    ]
  ]

  -- A jump lands at a label with its address.
  unfoldable pub run_label : String → State R → State R
  unfolding pushed
  run_label l (jumping d m s) =
      if pushed (PushTarget.label l) == d then running m s else jumping d m s
  run_label l (running m s) = running m s
  run_label l fault = fault

  unfoldable pub exec_item : Item → State R → State R
  unfolding run_label run_op pushed
  exec_item (Item.global_label_declaration l) st = run_label l st
  exec_item (Item.local_label_declaration l) st = run_label l st
  exec_item (Item.push t) (running m s) = running m (pushed t ∷ s)
  exec_item (Item.standard_op op) (running m s) = run_op op m s
  exec_item (Item.macro_def n ps b) (running m s) = running m s
  exec_item item (running m s) = run_other (perform item m s)
  exec_item item st = st

  -- One passage over the code; a jump backwards is left to the next.
  unfoldable pub exec : List Item → State R → State R
  unfolding exec_item
  exec [] st = st
  exec (item ∷ code) st = exec code (exec_item item st)

  -- The code run again from its start, while a jump is under way.
  unfoldable pub exec_rounds : ℕ → List Item → State R → State R
  unfolding exec resume
  exec_rounds zero code st = st
  exec_rounds (suc n) code st = resume (exec_rounds n code) (exec code st)

  pub exec-append : (xs ys : List Item) (st : State R) → exec (xs ++ ys) st ≡ exec ys (exec xs st)
  unfolding exec
  exec-append [] ys st = refl
  exec-append (x ∷ xs) ys st = exec-append xs ys (exec_item x st)
