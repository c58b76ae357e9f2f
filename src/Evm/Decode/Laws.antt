-- ===== src/Evm/Decode/Laws.antt =====
-- What `decode` of `evm_arithmetization/src/witness/transition.rs` promises of every opcode byte.
use bcw_zk_evm.Common.{
  ℕ, zero, suc, ◌+◌, ◌≤◌, ◌<◌, ◌≡◌, refl, sym, ap, subst, ◌∙◌, Bool, true, false, ◌&&◌, ◌||◌,
  Option, none, some, le→leb, ltb, ◌==◌, arith, inl, inr, ==_iff, Bool-cases,
}
use bcw_zk_evm.Evm.Errors.{Result, ok, err}
use bcw_zk_evm.Evm.Operation.{Operation, RegistersState}
use bcw_zk_evm.Evm.Gas.{gas_to_charge}
use bcw_zk_evm.Evm.Decode.{decode, get_push_opcode}

-- Whether a test holds at every number below `n`.
abbrev below : ℕ → (ℕ → Bool) → Bool
below zero test = true
below (suc n) test = test n && below n test

and_left : (a b : Bool) → a && b ≡ true → a ≡ true
and_left true b h = refl
and_left false b h = h

and_right : (a b : Bool) → a && b ≡ true → b ≡ true
and_right true b h = h
and_right false b h = absurd (grind arith)

false-true : false ≡ true → ⊥
false-true h = grind arith

below_lem : (n : ℕ) (test : ℕ → Bool) (i : ℕ) → below n test ≡ true → i < n → test i ≡ true
below_lem zero test i h k = absurd (omega arith)
below_lem (suc n) test i h k = elim (Bool-cases (i == n)) [
  | inl e ↦ ap test ((==_iff i n).0 e) ∙ and_left (test n) (below n test) h
  | inr e ↦ below_lem n test i (and_right (test n) (below n test) h) (ground arith)
]

-- The registers in user mode and in kernel mode.
abbrev with_mode : RegistersState → Bool → RegistersState
with_mode r m = record {
  program_counter = r.program_counter;
  is_kernel = m;
  stack_len = r.stack_len;
  stack_top = r.stack_top;
  is_stack_top_read = r.is_stack_top_read;
  check_overflow = r.check_overflow;
  context = r.context;
  gas_used = r.gas_used;
}

abbrev pub is_syscall : Operation → Bool
is_syscall (Operation.syscall n k b) = true
is_syscall o = false

charged : Result Operation → Bool
charged (ok o) = is_syscall o || ltb 0 (gas_to_charge o)
charged (err e) = true

every_byte_charged :
    (r : RegistersState) → below 256 (λ opcode. charged (decode (with_mode r false) opcode)) ≡ true
unfolding decode charged gas_to_charge
every_byte_charged r = refl

module _ (r : RegistersState) (opcode : ℕ) (o : Operation) (user : r.is_kernel ≡ false)
    (is_byte : opcode < 256) (decoded : decode r opcode ≡ ok o)
    (native : is_syscall o ≡ false) where
  -- An operation that user code decodes is charged gas, unless it is a system call: what the kernel
  -- performs free of charge is not in the reach of user code.
  pub decode-user_charged : 0 < gas_to_charge o
  unfolding charged
  decode-user_charged =
      let mode : r ≡ with_mode r false = ap (with_mode r) user in
      let passed =
        below_lem 256 (λ c. charged (decode (with_mode r false) c)) opcode (every_byte_charged r)
          is_byte in
      let tested : charged (ok o) ≡ true =
        subst (λ d. charged d ≡ true) (ap (λ q. decode q opcode) (sym mode) ∙ decoded) passed in
      let paid : ltb 0 (gas_to_charge o) ≡ true =
        subst (λ b. (b || ltb 0 (gas_to_charge o)) ≡ true) native tested in
      ground arith

push_operand : Operation → Option ℕ
push_operand (Operation.push n) = some n
push_operand o = none

pushes : Result Operation → ℕ → Bool
pushes (ok o) n = elim (push_operand o) [ some m ↦ m == n | none ↦ false ]
pushes (err e) n = false

pushes_lem : (d : Result Operation) (n : ℕ) → pushes d n ≡ true → d ≡ ok (Operation.push n)
unfolding pushes push_operand
pushes_lem (ok (Operation.push m)) n h = ap (λ k. ok (Operation.push k)) ((==_iff m n).0 h)
pushes_lem (ok Operation.iszero) n h = absurd (false-true h)
pushes_lem (ok Operation.not) n h = absurd (false-true h)
pushes_lem (ok (Operation.syscall x y z)) n h = absurd (false-true h)
pushes_lem (ok Operation.eq) n h = absurd (false-true h)
pushes_lem (ok (Operation.binary_logic x)) n h = absurd (false-true h)
pushes_lem (ok (Operation.binary_arithmetic x)) n h = absurd (false-true h)
pushes_lem (ok (Operation.ternary_arithmetic x)) n h = absurd (false-true h)
pushes_lem (ok Operation.keccak_general) n h = absurd (false-true h)
pushes_lem (ok Operation.prover_input) n h = absurd (false-true h)
pushes_lem (ok Operation.pop) n h = absurd (false-true h)
pushes_lem (ok Operation.jump) n h = absurd (false-true h)
pushes_lem (ok Operation.jumpi) n h = absurd (false-true h)
pushes_lem (ok Operation.pc) n h = absurd (false-true h)
pushes_lem (ok Operation.jumpdest) n h = absurd (false-true h)
pushes_lem (ok (Operation.dup x)) n h = absurd (false-true h)
pushes_lem (ok (Operation.swap x)) n h = absurd (false-true h)
pushes_lem (ok Operation.get_context) n h = absurd (false-true h)
pushes_lem (ok Operation.set_context) n h = absurd (false-true h)
pushes_lem (ok Operation.mload32_bytes) n h = absurd (false-true h)
pushes_lem (ok (Operation.mstore32_bytes x)) n h = absurd (false-true h)
pushes_lem (ok Operation.exit_kernel) n h = absurd (false-true h)
pushes_lem (ok Operation.mload_general) n h = absurd (false-true h)
pushes_lem (ok Operation.mstore_general) n h = absurd (false-true h)
pushes_lem (err e) n h = absurd (false-true h)

every_push : (r : RegistersState) → below 33 (λ n. pushes (decode r (0x5f + n)) n) ≡ true
unfolding decode pushes push_operand
every_push r = refl

-- For up to 32 bytes, the opcode that the assembler emits for a push is the one that decodes, in
-- either mode, to the push of that many bytes.
pub get_push_opcode-decode :
    (r : RegistersState) (n : ℕ)
    → n ≤ 32
    → (opcode : ℕ) × (get_push_opcode n ≡ some opcode) × (decode r opcode ≡ ok (Operation.push n))
unfolding get_push_opcode
get_push_opcode-decode r n h = (
  0x5f + n,
  rw (le→leb n 32 h) refl,
  pushes_lem (decode r (0x5f + n)) n
      (below_lem 33 (λ k. pushes (decode r (0x5f + k)) k) n (every_push r) (omega (arith, h))),
)
