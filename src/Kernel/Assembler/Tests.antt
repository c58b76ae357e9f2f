-- ===== src/Kernel/Assembler/Tests.antt =====
-- Code that the assembler takes, and the theorems at it.
use Prim.Native.String.{String}
use bcw_zk_evm.Common.{ℕ, List, [], ◌∷◌, some, ◌>>=◌, ◌≡◌, ◌≢◌, ◌∙◌, true, false, refl, sym, arith}
use text.Mathlib.TextEquality.{eq_iff}
use bcw_zk_evm.Evm.Errors.{ok}
use bcw_zk_evm.Evm.Operation.{Operation, RegistersState}
use bcw_zk_evm.Evm.Decode.{decode}
use bcw_zk_evm.Kernel.{Item, PushTarget}
use bcw_zk_evm.Kernel.Cost.{u256_to_trimmed_be_bytes}
use bcw_zk_evm.Kernel.Cost.Laws.{be_value, be_value-u256_to_trimmed_be_bytes}
use bcw_zk_evm.Kernel.Optimizer.{◌is◌}
use bcw_zk_evm.Kernel.Opcodes.{get_opcode}
use bcw_zk_evm.Kernel.Opcodes.Laws.{get_opcode-decode}
use bcw_zk_evm.Kernel.Assembler.{
  Found, find_all, find_labels, assemble_file, assemble_all, assemble, look_up_label, start_of_code,
}
use bcw_zk_evm.Kernel.Assembler.Sizes.{assemble-offset}
use bcw_zk_evm.Kernel.Assembler.Labels.{look_up_label-declared}

abbrev op : String → Item
op name = Item.standard_op name

abbrev lit : ℕ → Item
lit x = Item.push (PushTarget.literal x)

distinct_names : (s t : String) → (s is t) ≡ false → ◌≢◌ {A = String} s t
distinct_names s t h e = true-false (sym ((eq_iff s t).1 e) ∙ h)
  where
    true-false : true ≡ false → ⊥
    true-false f = ground arith

be_value-trimmed_example : be_value (u256_to_trimmed_be_bytes 768) ≡ 768
be_value-trimmed_example = be_value-u256_to_trimmed_be_bytes 768 (omega arith)

-- Names are in upper case already.
abbrev same : String → String
same s = s

abbrev registers : RegistersState
registers = record {
  program_counter = 0;
  is_kernel = false;
  stack_len = 0;
  stack_top = 0;
  is_stack_top_read = false;
  check_overflow = false;
  context = 0;
  gas_used = 0;
}

add_opcode : get_opcode same "ADD" ≡ some 1
unfolding get_opcode
add_opcode = refl

get_opcode-decode_example :
    (found : Operation) × (decode (record registers { is_kernel = true }) 1 ≡ ok found)
get_opcode-decode_example =
    get_opcode-decode same "ADD" 1 registers add_opcode (distinct_names "ADD" "PANIC" refl)
      (distinct_names "ADD" "INVALID" refl)

-- A loop to a local label behind a push.
abbrev loop_file : List Item
loop_file =
    lit 300
    ∷ Item.local_label_declaration "loop"
    ∷ op "JUMPDEST"
    ∷ Item.push (PushTarget.label "loop")
    ∷ op "JUMP"
    ∷ []

abbrev loop_found : Found
loop_found = record {
  offset = 9;
  global_labels = [];
  prover_inputs = [];
  local_labels = ("loop", 3) ∷ [];
}

loop_labels : find_labels loop_file start_of_code ≡ some loop_found
unfolding find_labels
loop_labels = refl

abbrev loop_code : List ℕ
loop_code = 0x61 ∷ 1 ∷ 44 ∷ 0x5b ∷ 0x62 ∷ 0 ∷ 0 ∷ 3 ∷ 0x56 ∷ []

loop_all : find_all (loop_file ∷ []) start_of_code ≡ some (loop_found, (("loop", 3) ∷ []) ∷ [])
unfolding find_all
loop_all = refl

loop_bytes : assemble_all same (loop_file ∷ []) ((("loop", 3) ∷ []) ∷ []) [] [] ≡ some loop_code
unfolding assemble_all
loop_bytes = refl

assemble-offset_example : assemble same (loop_file ∷ []) ≡ some (loop_code, loop_found)
assemble-offset_example =
    assemble-offset same (loop_file ∷ []) (loop_found, (("loop", 3) ∷ []) ∷ []) loop_code loop_all
      loop_bytes

loop_head : assemble_file same [] [] (lit 300 ∷ []) [] ≡ some (0x61 ∷ 1 ∷ 44 ∷ [])
unfolding assemble_file
loop_head = refl

look_up_label-declared_example :
    (look_up_label "loop" (("loop", 3) ∷ []) [] >>= λ bytes. some (be_value bytes)) ≡ some 3
look_up_label-declared_example =
    look_up_label-declared same "loop" (lit 300 ∷ [])
      (op "JUMPDEST" ∷ Item.push (PushTarget.label "loop") ∷ op "JUMP" ∷ []) start_of_code
      loop_found [] [] [] (0x61 ∷ 1 ∷ 44 ∷ []) refl loop_labels loop_head
