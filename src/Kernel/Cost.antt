-- ===== src/Kernel/Cost.antt =====
-- `u256_to_trimmed_be_bytes` and `u256_from_bool` of
-- `evm_arithmetization/src/cpu/kernel/utils.rs`, and `cost_estimator.rs`.
pub mod Laws
use Prim.Native.String.{String}
use bcw_zk_evm.Common.{
  ℕ, zero, suc, ◌+◌, ◌*◌, ◌/◌, ◌%◌, ◌^◌, Bool, true, false, ltb, ◌==◌, if◌then◌else◌, List, [], ◌∷◌,
  length, Option, none, some, ◌>>=◌,
}
use bcw_zk_evm.Kernel.{Item, PushTarget}

-- `bits` of a 256-bit word: the digits it takes in base 2. The first number bounds them.
unfoldable bits_below : ℕ → ℕ → ℕ
bits_below zero x = 0
bits_below (suc n) x = let rest = bits_below n (x / 2) in if x == 0 then 0 else rest + 1

unfoldable pub bits : ℕ → ℕ
unfolding bits_below
bits x = bits_below 256 x

-- The bytes with numbers below `n`, the highest first; `byte` counts from the lowest.
unfoldable pub bytes_below : ℕ → ℕ → List ℕ
bytes_below zero x = []
bytes_below (suc n) x = x / 2 ^ (8 * n) % 256 ∷ bytes_below n x

unfoldable pub u256_to_trimmed_be_bytes : ℕ → List ℕ
unfolding bits bytes_below
u256_to_trimmed_be_bytes x = bytes_below ((bits x + 7) / 8) x

unfoldable pub u256_from_bool : Bool → ℕ
u256_from_bool true = 1
u256_from_bool false = 0

abbrev pub bytes_per_offset : ℕ
bytes_per_offset = 3

abbrev cost_estimate_standard_op : String → ℕ
cost_estimate_standard_op op = 1

abbrev cost_estimate_push : ℕ → ℕ
cost_estimate_push num_bytes = num_bytes

-- `none` is the panic on an unexpected item.
unfoldable pub cost_estimate_item : Item → Option ℕ
unfolding u256_to_trimmed_be_bytes
cost_estimate_item (Item.macro_def name params body) = some 0
cost_estimate_item (Item.global_label_declaration l) = some 0
cost_estimate_item (Item.local_label_declaration l) = some 0
cost_estimate_item (Item.push (PushTarget.literal n)) =
    some (cost_estimate_push (length (u256_to_trimmed_be_bytes n)))
cost_estimate_item (Item.push (PushTarget.label l)) = some (cost_estimate_push bytes_per_offset)
cost_estimate_item (Item.prover_input f) = some 1
cost_estimate_item (Item.standard_op op) = some (cost_estimate_standard_op op)
cost_estimate_item _ = none

unfoldable pub cost_estimate : List Item → Option ℕ
unfolding cost_estimate_item
cost_estimate [] = some 0
cost_estimate (item ∷ code) =
    cost_estimate_item item >>= λ c. cost_estimate code >>= λ cs. some (c + cs)

unfoldable pub is_code_improved : List Item → List Item → Option Bool
unfolding cost_estimate
is_code_improved before after =
    cost_estimate after >>= λ a. cost_estimate before >>= λ b. some (ltb a b)
