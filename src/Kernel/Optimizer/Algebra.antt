-- ===== src/Kernel/Optimizer/Algebra.antt =====
-- The passes of the optimizer that use that an operation has a unit, or commutes.
use Prim.Native.String.{String}
use Prim.Native.Nat.{bit_xor-bitwise}
use native.Mathlib.Nat.{mul_comm}
use text.Mathlib.Text.{starts_with}
use text.Mathlib.TextEquality.{eq_iff}
use bcw_zk_evm.Common.{
  some_inj, ℕ, ◌%◌, ◌^◌, ◌==◌, ==_iff, Bool, true, false, Bool-cases, if◌then◌else◌, List, [], ◌∷◌,
  Option, none, some, ◌≡◌, refl, ap, subst, sym, inl, inr, arith, ◌||◌,
}
use bcw_zk_evm.Word.Mask.{zero-bit_or}
use bcw_zk_evm.Word.Commute.{bit_and_comm, bit_or_comm, bit_xor_comm}
use bcw_zk_evm.Evm.Operation.{BinaryOperator, LogicOp}
use bcw_zk_evm.Evm.Arithmetic.{binary_result}
use bcw_zk_evm.Kernel.{Item, PushTarget}
use bcw_zk_evm.Kernel.Optimizer.{identity_window, swap_commutative_window, is_commutative, ◌is◌}
use bcw_zk_evm.Kernel.Optimizer.Refines.{IsSound, Refines, MayReplace}
use bcw_zk_evm.Kernel.Machine.{
  fault, running, jumping, exec, exec_item, run_op, pushed, binary, IsWord, logic_result,
  equal_words,
}
use bcw_zk_evm.Kernel.Machine.Results.{by_name}
use bcw_zk_evm.Kernel.Optimizer.Choice.{not_replaced, when_true, turns}

equal_comm : (x y : ℕ) → equal_words x y ≡ equal_words y x
equal_comm x y = ground arith

by_or :
    (C : Type 0) (op name : String) (rest : Bool)
    → ((op is name) || rest) ≡ true
    → (op ≡ name → C)
    → (rest ≡ true → C)
    → C
by_or C op name rest h f g = elim (Bool-cases (op is name)) [
  | inl e ↦ f ((eq_iff op name).0 e)
  | inr e ↦ g (cc (h, e))
]

module _ {R : Type 0} (resolve : PushTarget → ℕ)
    (perform : Item → R → List ℕ → Option (R × List ℕ)) where
  -- An operation on two words that commutes does not mind a swap.
  drop_swap :
      (op : String) (f : ℕ → ℕ → ℕ)
      → starts_with op "DUP" ≡ false
      → binary op ≡ some f
      → ((x y : ℕ) → f x y ≡ f y x)
      → Refines resolve perform
          (Item.standard_op "SWAP1" ∷ Item.standard_op op ∷ [])
          (Item.standard_op op ∷ [])
  unfolding Refines exec exec_item run_op
  drop_swap op f d b c (running m []) h = inl refl
  drop_swap op f d b c (running m (x ∷ [])) h = inl refl
  drop_swap op f d b c (running m (x ∷ y ∷ s)) h =
      inr (rw (d, b) (ap (λ r. running m (r ∷ s)) (c y x)))
  drop_swap op f d b c (jumping a m s) h = inr refl
  drop_swap op f d b c fault h = inr refl

  -- An operation that gives back its second word, for a first one known in advance.
  drop_identity :
      (op : String) (x : ℕ) (f : ℕ → ℕ → ℕ)
      → starts_with op "DUP" ≡ false
      → binary op ≡ some f
      → ((y : ℕ) → IsWord y → f (x % 2 ^ 256) y ≡ y)
      → Refines resolve perform (Item.push (PushTarget.literal x) ∷ Item.standard_op op ∷ []) []
  unfolding Refines exec exec_item run_op pushed
  drop_identity op x f d b c (running m []) h = inl (rw (d, b) refl)
  drop_identity op x f d b c (running m (y ∷ s)) h =
      inr (rw (d, b) (ap (λ r. running m (r ∷ s)) (c y h.0)))
  drop_identity op x f d b c (jumping a m s) h = inr refl
  drop_identity op x f d b c fault h = inr refl

  -- The windows of `identity_operations`, the first word by its value.
  module _ (name : String) (f : ℕ → ℕ → ℕ) (unit : ℕ) (d : starts_with name "DUP" ≡ false)
      (b : binary name ≡ some f) (c : (y : ℕ) → IsWord y → f (unit % 2 ^ 256) y ≡ y) where
    identity_case :
        (x : ℕ) (op : String) (new : List Item)
        → op ≡ name
        → (if x == unit then some [] else none) ≡ some new
        → MayReplace resolve perform
            (Item.push (PushTarget.literal x) ∷ Item.standard_op op ∷ [])
            new
    identity_case x op new e g =
        let guard = when_true (x == unit) [] new g in
        turns resolve perform op name
          (λ o. Item.push (PushTarget.literal x) ∷ Item.standard_op o ∷ []) [] new
          (
            omega arith,
            λ sound. (
              tt,
              drop_identity name x f d b (
                  subst (λ u. (y : ℕ) → IsWord y → f (u % 2 ^ 256) y ≡ y)
                    (sym ((==_iff x unit).0 guard.0)) c),
            ),
          )
          e guard.1

  pub identity-MayReplace :
      (window new : List Item)
      → identity_window window ≡ some (some new)
      → MayReplace resolve perform window new
  unfolding identity_window binary binary_result logic_result
  identity-MayReplace (Item.push (PushTarget.literal x) ∷ Item.standard_op op ∷ []) new e =
      let P : Option (List Item) → Type 0 = λ o.
        o ≡ some new
        → MayReplace resolve perform (Item.push (PushTarget.literal x) ∷ Item.standard_op op ∷ [])
            new in
      by_name P op "ADD" _ _
        (identity_case "ADD" (binary_result BinaryOperator.add) 0 refl refl (λ y h. omega arith) x
          op new)
        (by_name P op "MUL" _ _
          (identity_case "MUL" (binary_result BinaryOperator.mul) 1 refl refl (λ y h. omega arith) x
            op new)
          (by_name P op "OR" _ _
            (identity_case "OR" (logic_result LogicOp.or) 0 refl refl (λ y h. zero-bit_or y) x op
              new)
            (by_name P op "XOR" _ _
              (identity_case "XOR" (logic_result LogicOp.xor) 0 refl refl
                (λ y h. bit_xor-bitwise 0 y) x op new)
              (λ f. absurd (ground arith)))))
        (some_inj e)
  identity-MayReplace _ new e = not_replaced e

  commutes :
      (op name : String) (f : ℕ → ℕ → ℕ)
      → starts_with name "DUP" ≡ false
      → binary name ≡ some f
      → ((x y : ℕ) → f x y ≡ f y x)
      → op ≡ name
      → IsSound (Item.standard_op op)
      → Refines resolve perform
          (Item.standard_op "SWAP1" ∷ Item.standard_op op ∷ [])
          (Item.standard_op op ∷ [])
  commutes op name f d b c e sound = rw e (drop_swap name f d b c)

  commutative :
      (op : String)
      → is_commutative op ≡ true
      → IsSound (Item.standard_op op)
      → Refines resolve perform
          (Item.standard_op "SWAP1" ∷ Item.standard_op op ∷ [])
          (Item.standard_op op ∷ [])
  unfolding is_commutative binary binary_result logic_result
  commutative op h sound =
      let Goal =
        Refines resolve perform (Item.standard_op "SWAP1" ∷ Item.standard_op op ∷ [])
          (Item.standard_op op ∷ []) in
      by_or Goal op "ADD" _ h
        (λ e.
          commutes op "ADD" (binary_result BinaryOperator.add) refl refl (λ x y. omega arith) e
            sound)
        (λ h.
          by_or Goal op "MUL" _ h
            (λ e.
              commutes op "MUL" (binary_result BinaryOperator.mul) refl refl
                (λ x y. ap (λ (t : ℕ). t % 2 ^ 256) (mul_comm x y)) e sound)
            (λ h.
              by_or Goal op "AND" _ h
                (λ e. commutes op "AND" (logic_result LogicOp.and) refl refl bit_and_comm e sound)
                (λ h.
                  by_or Goal op "OR" _ h
                    (λ e. commutes op "OR" (logic_result LogicOp.or) refl refl bit_or_comm e sound)
                    (λ h.
                      by_or Goal op "XOR" _ h
                        (λ e.
                          commutes op "XOR" (logic_result LogicOp.xor) refl refl bit_xor_comm e
                            sound)
                        (λ h.
                          commutes op "EQ" equal_words refl refl equal_comm ((eq_iff op "EQ").0 h)
                            sound)))))

  pub swap_commutative-MayReplace :
      (window new : List Item)
      → swap_commutative_window window ≡ some (some new)
      → MayReplace resolve perform window new
  unfolding swap_commutative_window
  swap_commutative-MayReplace (Item.standard_op swap ∷ Item.standard_op op ∷ []) new e =
      by_name
        (λ o.
          o ≡ some new
          → MayReplace resolve perform (Item.standard_op swap ∷ Item.standard_op op ∷ []) new)
        swap "SWAP1" (if is_commutative op then some (Item.standard_op op ∷ []) else none) none
        (λ name f.
          let guard = when_true (is_commutative op) (Item.standard_op op ∷ []) new f in
          turns resolve perform swap "SWAP1" (λ o. Item.standard_op o ∷ Item.standard_op op ∷ [])
            (Item.standard_op op ∷ []) new
            (omega arith, λ sound. (sound.1, commutative op guard.0 sound.1.0)) name guard.1)
        (λ f. absurd (ground arith)) (some_inj e)
  swap_commutative-MayReplace _ new e = not_replaced e
