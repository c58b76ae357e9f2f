-- ===== src/Kernel/Optimizer/Folding.antt =====
-- `constant_propagation`: a folded operation gives what the processor would compute.
use Prim.Native.String.{String}
use native.Mathlib.Nat.{mod-eq_of_lt}
use text.Mathlib.Text.{starts_with}
use bcw_zk_evm.Common.{
  some_inj, ℕ, ◌-◌, ◌%◌, ◌^◌, ◌<◌, ◌==◌, ltb, leb, lt→ltb, false, Bool-cases, List, [], ◌∷◌, Option,
  none, some, ◌≡◌, ◌≢◌, refl, ap, ap₂, subst, sym, ◌∙◌, inl, inr, arith, ◌>>=◌,
}
use bcw_zk_evm.Evm.Operation.{BinaryOperator, LogicOp}
use bcw_zk_evm.Evm.Arithmetic.{binary_result}
use bcw_zk_evm.Kernel.{Item, PushTarget}
use bcw_zk_evm.Kernel.Cost.{u256_from_bool}
use bcw_zk_evm.Kernel.Optimizer.{unary_result, fold_binary}
use bcw_zk_evm.Kernel.Optimizer.Refines.{Refines}
use bcw_zk_evm.Kernel.Optimizer.Choice.{not_replaced}
use bcw_zk_evm.Kernel.Machine.{
  fault, running, jumping, exec, exec_item, run_op, pushed, binary, unary, IsWord, logic_result,
  equal_words, power,
}
use bcw_zk_evm.Kernel.Machine.Results.{
  by_name, WordFunction, binary-WordFunction, UnaryWord, unary-UnaryWord,
}

less_word : (x y : ℕ) → binary_result BinaryOperator.lt x y ≡ u256_from_bool (ltb x y)
unfolding binary_result u256_from_bool
less_word x y = elim (Bool-cases (ltb x y)) [ inl e ↦ rw e refl | inr e ↦ rw e refl ]

equal_word : (x y : ℕ) → equal_words x y ≡ u256_from_bool (x == y)
unfolding u256_from_bool
equal_word x y = elim (Bool-cases (x == y)) [ inl e ↦ rw e refl | inr e ↦ rw e refl ]

-- The machine knows the operation, and computes `r` from the two words.
unfoldable pub Computes : String → ℕ → ℕ → ℕ → Type 0
Computes op x y r =
    (f : ℕ → ℕ → ℕ) × (starts_with op "DUP" ≡ false) × (binary op ≡ some f) × (f x y ≡ r)

module _ (shl shr : ℕ → ℕ → Option ℕ)
    (shl-agrees : (y x r : ℕ) → shl y x ≡ some r → r ≡ binary_result BinaryOperator.shl x y)
    (shr-agrees : (y x r : ℕ) → shr y x ≡ some r → r ≡ binary_result BinaryOperator.shr x y) where
  module _ (op : String) (x y r : ℕ) where
    folds :
        (name : String) (f : ℕ → ℕ → ℕ) (v : ℕ)
        → starts_with name "DUP" ≡ false
        → binary name ≡ some f
        → f x y ≡ v
        → op ≡ name
        → some (some v) ≡ some (some r)
        → Computes op x y r
    unfolding Computes
    folds name f v d b c e g =
        (f, ap (λ o. starts_with o "DUP") e ∙ d, ap binary e ∙ b, c ∙ some_inj (some_inj g))

    shifts :
        (name : String) (f : ℕ → ℕ → ℕ) (o : Option ℕ)
        → starts_with name "DUP" ≡ false
        → binary name ≡ some f
        → ((r : ℕ) → o ≡ some r → r ≡ f x y)
        → op ≡ name
        → (o >>= λ r. some (some r)) ≡ some (some r)
        → Computes op x y r
    shifts name f none d b c e g = absurd (ground arith)
    shifts name f (some v) d b c e g = folds name f v d b (sym (c v refl)) e g

    pub fold-Computes :
        ◌≢◌ {A = String} op "BYTE" → fold_binary shl shr op x y ≡ some (some r) → Computes op x y r
    unfolding fold_binary binary binary_result logic_result
    fold-Computes sound =
        let P : Option (Option ℕ) → Type 0 = λ o. o ≡ some (some r) → Computes op x y r in
        by_name P op "ADD" _ _ (folds "ADD" (binary_result BinaryOperator.add) _ refl refl refl) (
          by_name P op "SUB" _ _ (folds "SUB" (binary_result BinaryOperator.sub) _ refl refl refl) (
            by_name P op "MUL" _ _ (folds "MUL" (binary_result BinaryOperator.mul) _ refl refl refl)
              (by_name P op "DIV" _ _
                (folds "DIV" (binary_result BinaryOperator.div) _ refl refl refl)
                (by_name P op "MOD" _ _
                  (folds "MOD" (binary_result BinaryOperator.modulo) _ refl refl refl)
                  (by_name P op "EXP" _ _ (folds "EXP" power _ refl refl refl) (
                    by_name P op "SHL" _ _
                      (shifts "SHL" (binary_result BinaryOperator.shl) (shl y x) refl refl
                        (shl-agrees y x))
                      (by_name P op "SHR" _ _
                        (shifts "SHR" (binary_result BinaryOperator.shr) (shr y x) refl refl
                          (shr-agrees y x))
                        (by_name P op "AND" _ _
                          (folds "AND" (logic_result LogicOp.and) _ refl refl refl)
                          (by_name P op "OR" _ _
                            (folds "OR" (logic_result LogicOp.or) _ refl refl refl)
                            (by_name P op "XOR" _ _
                              (folds "XOR" (logic_result LogicOp.xor) _ refl refl refl)
                              (by_name P op "LT" _ _
                                (folds "LT" (binary_result BinaryOperator.lt) _ refl refl
                                  (less_word x y))
                                (by_name P op "GT" _ _
                                  (folds "GT" (binary_result BinaryOperator.gt) _ refl refl
                                    (less_word y x))
                                  (by_name P op "EQ" _ _
                                    (folds "EQ" equal_words _ refl refl (equal_word x y))
                                    (by_name P op "BYTE" _ _ (λ e f. absurd (sound e))
                                      not_replaced))))))))))))))

pub result-IsWord :
    (op : String) (x y : ℕ) (f : ℕ → ℕ → ℕ)
    → binary op ≡ some f
    → IsWord x
    → IsWord y
    → IsWord (f x y)
unfolding WordFunction
result-IsWord op x y f b h k = subst WordFunction b (binary-WordFunction op) x y h k

unary_result-IsWord :
    (op : String) (x : ℕ) (f : ℕ → ℕ) → unary op ≡ some f → IsWord x → IsWord (f x)
unfolding UnaryWord
unary_result-IsWord op x f b h = subst UnaryWord b (unary-UnaryWord op) x h

-- Reading a literal that is a word changes nothing.
reads : (x : ℕ) → IsWord x → x % 2 ^ 256 ≡ x
reads x h = mod-eq_of_lt h

module _ {R : Type 0} (resolve : PushTarget → ℕ)
    (perform : Item → R → List ℕ → Option (R × List ℕ)) where
  pub fold_run :
      (op : String) (x y r : ℕ) (f : ℕ → ℕ → ℕ)
      → starts_with op "DUP" ≡ false
      → binary op ≡ some f
      → f x y ≡ r
      → IsWord x
      → IsWord y
      → IsWord r
      → Refines resolve perform
          (Item.push (PushTarget.literal y)
            ∷ Item.push (PushTarget.literal x)
            ∷ Item.standard_op op
            ∷ [])
          (Item.push (PushTarget.literal r) ∷ [])
  unfolding Refines exec exec_item run_op pushed
  fold_run op x y r f d b c h k w (running m s) g = inr (
      rw (d, b) (ap (λ v. running m (v ∷ s)) (ap₂ f (reads x h) (reads y k) ∙ c ∙ sym (reads r w))))
  fold_run op x y r f d b c h k w (jumping a m s) g = inr refl
  fold_run op x y r f d b c h k w fault g = inr refl

  fold_unary_run :
      (op : String) (x r : ℕ) (f : ℕ → ℕ)
      → starts_with op "DUP" ≡ false
      → binary op ≡ none
      → unary op ≡ some f
      → f x ≡ r
      → IsWord x
      → IsWord r
      → Refines resolve perform
          (Item.push (PushTarget.literal x) ∷ Item.standard_op op ∷ [])
          (Item.push (PushTarget.literal r) ∷ [])
  unfolding Refines exec exec_item run_op pushed
  fold_unary_run op x r f d n b c h w (running m s) g =
      inr (rw (d, n, b) (ap (λ v. running m (v ∷ s)) (ap f (reads x h) ∙ c ∙ sym (reads r w))))
  fold_unary_run op x r f d n b c h w (jumping a m s) g = inr refl
  fold_unary_run op x r f d n b c h w fault g = inr refl

  unary_folds :
      (op name : String) (x r v : ℕ) (f : ℕ → ℕ)
      → starts_with name "DUP" ≡ false
      → binary name ≡ none
      → unary name ≡ some f
      → f x ≡ v
      → IsWord x
      → op ≡ name
      → v ≡ r
      → IsWord r
        × Refines resolve perform
            (Item.push (PushTarget.literal x) ∷ Item.standard_op op ∷ [])
            (Item.push (PushTarget.literal r) ∷ [])
  unary_folds op name x r v f d n b c h e g =
      let w : IsWord r = subst IsWord (c ∙ g) (unary_result-IsWord name x f b h) in
      (w, rw e (fold_unary_run name x r f d n b (c ∙ g) h w))

  pub unary_fold :
      (op : String) (x r : ℕ)
      → unary_result op x ≡ some r
      → IsWord x
      → IsWord r
        × Refines resolve perform
            (Item.push (PushTarget.literal x) ∷ Item.standard_op op ∷ [])
            (Item.push (PushTarget.literal r) ∷ [])
  unfolding unary_result unary binary
  unary_fold op x r e h =
      let P : Option ℕ → Type 0 = λ o.
        o ≡ some r
        → IsWord r
          × Refines resolve perform (Item.push (PushTarget.literal x) ∷ Item.standard_op op ∷ [])
              (Item.push (PushTarget.literal r) ∷ []) in
      by_name P op "ISZERO" _ _
        (λ name g.
          unary_folds op "ISZERO" x r (u256_from_bool (x == 0)) (λ x. equal_words x 0) refl refl
            refl (equal_word x 0) h name (some_inj g))
        (by_name P op "NOT" _ _
          (λ name g.
            unary_folds op "NOT" x r (2 ^ 256 - 1 - x) (λ x. 2 ^ 256 - 1 - x) refl refl refl refl h
              name (some_inj g))
          (λ g. absurd (ground arith)))
        e

-- The fold of `BYTE` counts bytes from the lowest, and the processor from the highest: for an index
-- below 32, the fold of the index `x` is the processor's result at `31 - x`.
pub fold_binary-byte :
    (shl shr : ℕ → ℕ → Option ℕ) (x y : ℕ)
    → x < 32
    → fold_binary shl shr "BYTE" x y ≡ some (some (binary_result BinaryOperator.byte (31 - x) y))
unfolding fold_binary binary_result
fold_binary-byte shl shr x y h =
    let large : leb 32 (31 - x) ≡ false = ground arith in
    let back : 31 - (31 - x) ≡ x = omega arith in rw (lt→ltb x 32 h, large, back) refl
