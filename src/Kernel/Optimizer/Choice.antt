-- ===== src/Kernel/Optimizer/Choice.antt =====
-- What a closure of the optimizer that found a name says of its window.
use Prim.Native.String.{String}
use bcw_zk_evm.Common.{
  some_inj, ℕ, Bool, true, false, if◌then◌else◌, List, Option, none, some, ◌≡◌, refl, subst, sym,
  arith,
}
use bcw_zk_evm.Kernel.{Item, PushTarget}
use bcw_zk_evm.Kernel.Optimizer.{◌is◌}
use bcw_zk_evm.Kernel.Optimizer.Refines.{MayReplace}
use bcw_zk_evm.Kernel.Machine.Results.{by_name}

pub not_replaced {ℓ κ} :
    {A : Type ℓ} {a : A} {C : Type κ} → ◌≡◌ {A = Option (Option A)} (some none) (some (some a)) → C
not_replaced e = absurd (ground arith)

-- What a guarded replacement says of its guard and of the replacement.
pub when_true :
    {A : Type 0} (b : Bool) (r new : A)
    → (if b then some r else none) ≡ some new
    → (b ≡ true) × (r ≡ new)
when_true true r new e = (refl, some_inj e)
when_true false r new e = absurd (ground arith)

module _ {R : Type 0} (resolve : PushTarget → ℕ)
    (perform : Item → R → List ℕ → Option (R × List ℕ)) where
  -- A window with an operation whose name a test has found, and what the test puts in its place.
  pub turns :
      (op name : String) (window : String → List Item) (r new : List Item)
      → MayReplace resolve perform (window name) r
      → op ≡ name
      → r ≡ new
      → MayReplace resolve perform (window op) new
  turns op name window r new g e f =
      subst (λ o. MayReplace resolve perform (window o) new) (sym e)
        (subst (MayReplace resolve perform (window name)) f g)

  -- The replacement where the test finds the name, or none.
  pub only :
      (op name : String) (window : String → List Item) (r new : List Item)
      → MayReplace resolve perform (window name) r
      → (if op is name then some r else none) ≡ some new
      → MayReplace resolve perform (window op) new
  only op name window r new g =
      by_name (λ o. o ≡ some new → MayReplace resolve perform (window op) new) op name (some r) none
        (λ e f. turns op name window r new g e (some_inj f)) (λ f. absurd (ground arith))
