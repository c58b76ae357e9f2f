-- ===== src/Kernel/Optimizer/Constants.antt =====
-- The windows of `constant_propagation`: each replacement may stand for its window.
use bcw_zk_evm.Common.{
  some_inj, ℕ, ◌<◌, Bool, if◌then◌else◌, List, [], ◌∷◌, All, length, Option, none, some, ◌≡◌, refl,
  ap, subst, arith, ◌>>=◌,
}
use bcw_zk_evm.Evm.Operation.{BinaryOperator}
use bcw_zk_evm.Evm.Arithmetic.{binary_result}
use bcw_zk_evm.Kernel.{Item, PushTarget}
use bcw_zk_evm.Kernel.Cost.{is_code_improved}
use bcw_zk_evm.Kernel.Optimizer.{
  unary_result, fold_binary, propagate_unary, propagate_binary, if_better,
}
use bcw_zk_evm.Kernel.Optimizer.Refines.{IsSound, Refines, MayReplace}
use bcw_zk_evm.Kernel.Optimizer.Choice.{not_replaced, when_true}
use bcw_zk_evm.Kernel.Machine.{IsWord}
use bcw_zk_evm.Kernel.Optimizer.Folding.{
  Computes, fold-Computes, result-IsWord, fold_run, unary_fold,
}

-- What the closure proposed is what is taken.
pub if_better-some :
    (window new : List Item) (o : Option (Option (List Item)))
    → (o >>= if_better window) ≡ some (some new)
    → o ≡ some (some new)
unfolding if_better
if_better-some window new none e = absurd (ground arith)
if_better-some window new (some none) e = not_replaced e
if_better-some window new (some (some r)) e = go (is_code_improved window r) e
  where
    go :
        (o : Option Bool)
        → (o >>= λ better. some (if better then some r else none)) ≡ some (some new)
        → some (some r) ≡ some (some new)
    go none f = absurd (ground arith)
    go (some b) f = ap some (ap some (when_true b r new (some_inj f)).1)

-- A result, and the replacement that is made of it.
literal_of :
    (o : Option ℕ) (new : List Item)
    → (o >>= λ r. some (Item.push (PushTarget.literal r) ∷ [])) ≡ some new
    → (r : ℕ) × (o ≡ some r) × (Item.push (PushTarget.literal r) ∷ [] ≡ new)
literal_of none new e = absurd (ground arith)
literal_of (some r) new e = (r, refl, some_inj e)

folded :
    (o : Option (Option ℕ)) (new : List Item)
    → (o >>= λ res. some (res >>= λ r. some (Item.push (PushTarget.literal r) ∷ [])))
      ≡ some (some new)
    → (r : ℕ) × (o ≡ some (some r)) × (Item.push (PushTarget.literal r) ∷ [] ≡ new)
folded none new e = absurd (ground arith)
folded (some o) new e =
    let found = literal_of o new (some_inj e) in (found.0, ap some found.1, found.2)

pub propagate_binary-short :
    (shl shr : ℕ → ℕ → Option ℕ) (window new : List Item)
    → propagate_binary shl shr window ≡ some (some new)
    → length new < length window
unfolding propagate_binary
propagate_binary-short shl shr
      (Item.push (PushTarget.literal y)
        ∷ Item.push (PushTarget.literal x)
        ∷ Item.standard_op op
        ∷ [])
      new e =
    let found = folded (fold_binary shl shr op x y) new e in
    subst (λ c. length c < 3) found.2 (omega arith)
propagate_binary-short shl shr _ new e = not_replaced e

module _ {R : Type 0} (resolve : PushTarget → ℕ)
    (perform : Item → R → List ℕ → Option (R × List ℕ)) where
  propagate_unary-MayReplace :
      (window new : List Item)
      → propagate_unary window ≡ some (some new)
      → MayReplace resolve perform window new
  unfolding propagate_unary
  propagate_unary-MayReplace (Item.push (PushTarget.literal x) ∷ Item.standard_op op ∷ []) new e =
      let found = literal_of (unary_result op x) new (some_inj e) in
      let short : length new < 2 = subst (λ c. length c < 2) found.2 (omega arith) in
      (
        short,
        λ sound.
            let result = unary_fold resolve perform op x found.0 found.1 sound.0 in
            subst
              (λ c.
                All IsSound c
                × Refines resolve perform
                    (Item.push (PushTarget.literal x) ∷ Item.standard_op op ∷ []) c)
              found.2 ((result.0, tt), result.1),
      )
  propagate_unary-MayReplace _ new e = not_replaced e

  pub unary_window-MayReplace :
      (window new : List Item)
      → (propagate_unary window >>= if_better window) ≡ some (some new)
      → MayReplace resolve perform window new
  unary_window-MayReplace window new e =
      propagate_unary-MayReplace window new (if_better-some window new (propagate_unary window) e)

  module _ (shl shr : ℕ → ℕ → Option ℕ)
      (shl-agrees : (y x r : ℕ) → shl y x ≡ some r → r ≡ binary_result BinaryOperator.shl x y)
      (shr-agrees : (y x r : ℕ) → shr y x ≡ some r → r ≡ binary_result BinaryOperator.shr x y) where
    propagate_binary-MayReplace :
        (window new : List Item)
        → propagate_binary shl shr window ≡ some (some new)
        → MayReplace resolve perform window new
    unfolding propagate_binary Computes
    propagate_binary-MayReplace
          (Item.push (PushTarget.literal y)
            ∷ Item.push (PushTarget.literal x)
            ∷ Item.standard_op op
            ∷ [])
          new e =
        let found = folded (fold_binary shl shr op x y) new e in
        (
          propagate_binary-short shl shr
              (Item.push (PushTarget.literal y)
                ∷ Item.push (PushTarget.literal x)
                ∷ Item.standard_op op
                ∷ [])
              new e,
          λ sound.
              let by =
                fold-Computes shl shr shl-agrees shr-agrees op x y found.0 sound.1.1.0 found.1 in
              let w : IsWord found.0 =
                subst IsWord by.3 (result-IsWord op x y by.0 by.2 sound.1.0 sound.0) in
              subst
                (λ c.
                  All IsSound c
                  × Refines resolve perform
                      (Item.push (PushTarget.literal y)
                        ∷ Item.push (PushTarget.literal x)
                        ∷ Item.standard_op op
                        ∷ [])
                      c)
                found.2
                (
                  (w, tt),
                  fold_run resolve perform op x y found.0 by.0 by.1 by.2 by.3 sound.1.0 sound.0 w,
                ),
        )
    propagate_binary-MayReplace _ new e = not_replaced e

    pub binary_window-MayReplace :
        (window new : List Item)
        → (propagate_binary shl shr window >>= if_better window) ≡ some (some new)
        → MayReplace resolve perform window new
    binary_window-MayReplace window new e =
        propagate_binary-MayReplace window new
          (if_better-some window new (propagate_binary shl shr window) e)
