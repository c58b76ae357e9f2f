-- ===== src/Evm/Tests.antt =====
-- The theorems on the parts of `evm_arithmetization/src` at concrete inputs.
use native.Mathlib.Nat.{pow-suc, one-le-pow}
use bcw_zk_evm.Common.{
  ℕ, ◌-◌, zero, suc, ◌+◌, ◌*◌, ◌/◌, ◌%◌, ◌^◌, ◌≤◌, ◌<◌, ◌≡◌, ◌↔◌, refl, List, [], ◌∷◌, get_elem?,
  All, true, false, some, ltb, if◌then◌else◌, arith,
}
use bcw_zk_evm.Evm.Segments.{Segment, all, bit_range}
use bcw_zk_evm.Evm.Errors.{ProgramError, MemoryError, ok, err}
use bcw_zk_evm.Evm.Operation.{Operation, BinaryOperator, RegistersState}
use bcw_zk_evm.Evm.Memory.{
  MemoryAddress, MemoryState, MemoryOp, MemoryOpKind, MemoryChannel, new_bundle, new_op, index, get,
  set, apply_ops, default,
}
use bcw_zk_evm.Evm.Memory.Fits.{IsState, default-ContextFits}
use bcw_zk_evm.Evm.Memory.Contexts.{cell, same_address}
use bcw_zk_evm.Evm.Memory.State.{get_lem, set_lem, Accepted, last_write, apply_ops_lem}
use bcw_zk_evm.Evm.Memory.Address.{IsBitLength, new_bundle_lem, new_op-ordered}
use bcw_zk_evm.Evm.Decode.{decode, get_push_opcode}
use bcw_zk_evm.Evm.Decode.Laws.{decode-user_charged, get_push_opcode-decode}
use bcw_zk_evm.Evm.Gas.{gas_to_charge}
use bcw_zk_evm.Evm.Conversions.{u256_to_h160}
use bcw_zk_evm.Evm.Conversions.Laws.{u256_to_h160_lem}
use bcw_zk_evm.Evm.Arithmetic.{submod, binary_result}
use bcw_zk_evm.Evm.Arithmetic.Laws.{submod_lem, shifts_lem}
use bcw_zk_evm.Evm.Arithmetic.Bytes.{last_bytes, be_value-last_bytes}
use bcw_zk_evm.Kernel.Cost.Laws.{be_value}

-- The number of bits, with as many halvings as are left.
unfoldable halvings : ℕ → ℕ → ℕ
halvings zero x = 0
halvings (suc left) zero = 0
halvings (suc left) (suc x) = suc (halvings left (suc x / 2))

halvings_iff : (left x w : ℕ) → x ≤ left → (halvings left x ≤ w) ↔ (x < 2 ^ w)
unfolding halvings
halvings_iff zero x w h = ground (arith, one-le-pow w 2)
halvings_iff (suc left) zero w h = ground (arith, one-le-pow w 2)
halvings_iff (suc left) (suc x) zero h = ground arith
halvings_iff (suc left) (suc x) (suc w) h =
    let (to, from) = halvings_iff left (suc x / 2) w (omega arith) in
    (
      λ k. omega (arith, to (omega arith), pow-suc 2 w),
      λ k. omega (arith, from (omega (arith, pow-suc 2 w))),
    )

abbrev bit_length : ℕ → ℕ
bit_length x = halvings x x

bit_length_iff : IsBitLength bit_length
bit_length_iff x w = halvings_iff x x w (omega arith)

default-IsState : IsState bit_length default
unfolding default
default-IsState = (default-ContextFits bit_length, tt)

abbrev stack_slot : MemoryAddress
stack_slot = record { context = 2; segment = 1; virt = 5 }

get_example : get bit_length default stack_slot ≡ some (cell default.contexts stack_slot)
get_example = get_lem bit_length default stack_slot default-IsState

stack_listed : get_elem? all 1 ≡ some Segment.stack
unfolding all
stack_listed = refl

seven_fits : bit_length 7 ≤ bit_range Segment.stack
unfolding bit_range halvings
seven_fits = omega arith

set_example :
    (st' : MemoryState) × (set bit_length default stack_slot 7 ≡ some st')
    × IsState bit_length st'
    × (get bit_length st' stack_slot ≡ (
        if same_address stack_slot stack_slot
        then some (some 7)
        else get bit_length default stack_slot))
set_example =
    set_lem bit_length default stack_slot 7 Segment.stack stack_slot default-IsState stack_listed
      seven_fits

abbrev some_ops : List MemoryOp
some_ops =
    record {
      filter = true;
      timestamp = 1;
      address = stack_slot;
      kind = MemoryOpKind.write;
      value = 9;
    }
    ∷ record {
      filter = true;
      timestamp = 2;
      address = stack_slot;
      kind = MemoryOpKind.read;
      value = 9;
    }
    ∷ record {
      filter = true;
      timestamp = 3;
      address = stack_slot;
      kind = MemoryOpKind.write;
      value = 7;
    }
    ∷ []

some_ops-Accepted : All (Accepted bit_length) some_ops
unfolding bit_range halvings
some_ops-Accepted = (
  (Segment.stack, stack_listed, omega arith),
  (tt, ((Segment.stack, stack_listed, omega arith), tt)),
)

apply_ops_example :
    (st' : MemoryState) × (apply_ops bit_length default some_ops ≡ some st')
    × IsState bit_length st'
    × (get bit_length st' stack_slot
        ≡ last_write stack_slot (get bit_length default stack_slot) some_ops)
apply_ops_example =
    apply_ops_lem bit_length default some_ops stack_slot default-IsState some_ops-Accepted

new_bundle_example : new_bundle bit_length (9 + 40 * 2 ^ 32 + 3 * 2 ^ 64) ≡ (
    if ltb 40 33
    then ok (record { context = 3; segment = 40; virt = 9 })
    else err (ProgramError.memory_error (MemoryError.segment_too_large 40)))
new_bundle_example =
    new_bundle_lem bit_length bit_length_iff 3 40 9 (omega arith) (omega arith) (omega arith)

abbrev early : MemoryOp
early = record {
  filter = true;
  timestamp = 19;
  address = stack_slot;
  kind = MemoryOpKind.write;
  value = 9;
}

abbrev late : MemoryOp
late = record {
  filter = true;
  timestamp = 20;
  address = stack_slot;
  kind = MemoryOpKind.read;
  value = 9;
}

early_made : new_op MemoryChannel.partial_channel 3 stack_slot MemoryOpKind.write 9 ≡ some early
unfolding new_op index
early_made = refl

late_made : new_op MemoryChannel.code 4 stack_slot MemoryOpKind.read 9 ≡ some late
unfolding new_op index
late_made = refl

new_op-ordered_example : early.timestamp < late.timestamp
new_op-ordered_example =
    new_op-ordered MemoryChannel.partial_channel MemoryChannel.code 3 4 stack_slot stack_slot
      MemoryOpKind.write MemoryOpKind.read 9 9 early late early_made late_made (omega arith)
      (omega arith)

abbrev user : RegistersState
user = record {
  program_counter = 0;
  is_kernel = false;
  stack_len = 0;
  stack_top = 0;
  is_stack_top_read = false;
  check_overflow = false;
  context = 1;
  gas_used = 0;
}

add_decoded : decode user 0x01 ≡ ok (Operation.binary_arithmetic BinaryOperator.add)
unfolding decode
add_decoded = refl

decode-user_example : 0 < gas_to_charge (Operation.binary_arithmetic BinaryOperator.add)
decode-user_example =
    decode-user_charged user 0x01 (Operation.binary_arithmetic BinaryOperator.add) refl
      (omega arith) add_decoded refl

get_push_opcode_example :
    (opcode : ℕ) × (get_push_opcode 32 ≡ some opcode)
    × (decode user opcode ≡ ok (Operation.push 32))
get_push_opcode_example = get_push_opcode-decode user 32 (omega arith)

u256_to_h160_example : u256_to_h160 bit_length (2 ^ 160 + 5) ≡ (
    if ltb (2 ^ 160 + 5) (2 ^ 167)
    then ok ((2 ^ 160 + 5) % 2 ^ 160)
    else err ProgramError.integer_too_large)
u256_to_h160_example = u256_to_h160_lem bit_length (2 ^ 160 + 5) bit_length_iff

submod_example : (submod 3 20 7 < 7) × ((submod 3 20 7 + 20) % 7 ≡ 3 % 7)
submod_example = submod_lem 3 20 7 (omega arith)

shifts_example :
    (binary_result BinaryOperator.shr 250 (binary_result BinaryOperator.shl 250 100)
      ≡ 100 % 2 ^ (256 - 250))
    × (binary_result BinaryOperator.shl 250 (binary_result BinaryOperator.shr 250 100)
        ≡ 100 - 100 % 2 ^ 250)
shifts_example = shifts_lem 250 100 (omega arith) (omega arith)

be_value-last_bytes_example : be_value (last_bytes 32 (2 ^ 255 + 7)) ≡ 2 ^ 255 + 7
be_value-last_bytes_example = be_value-last_bytes (2 ^ 255 + 7) (omega arith)
