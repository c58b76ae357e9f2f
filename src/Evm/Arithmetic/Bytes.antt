-- ===== src/Evm/Arithmetic/Bytes.antt =====
-- What the operator `BYTE` of `evm_arithmetization/src/arithmetic/mod.rs` reads of a word.
use native.Mathlib.Nat.{mod-eq_of_lt}
use bcw_zk_evm.Common.{
  ℕ, zero, suc, ◌-◌, ◌^◌, ◌≤◌, ◌<◌, List, [], ◌∷◌, leb, false, ◌≡◌, refl, ap, ◌∙◌, arith,
}
use bcw_zk_evm.Evm.Operation.{BinaryOperator}
use bcw_zk_evm.Evm.Arithmetic.{binary_result}
use bcw_zk_evm.Kernel.Cost.{bytes_below}
use bcw_zk_evm.Kernel.Cost.Laws.{be_value, be_value-bytes_below}

-- The bytes that it reads at the last `n` indices.
unfoldable pub last_bytes : ℕ → ℕ → List ℕ
unfolding binary_result
last_bytes zero y = []
last_bytes (suc n) y = binary_result BinaryOperator.byte (31 - n) y ∷ last_bytes n y

last_bytes_lem : (n y : ℕ) → n ≤ 32 → last_bytes n y ≡ bytes_below n y
unfolding last_bytes bytes_below binary_result
last_bytes_lem zero y h = refl
last_bytes_lem (suc n) y h =
    let inside : leb 32 (31 - n) ≡ false = ground arith in
    let place : 31 - (31 - n) ≡ n = omega arith in
    rw (inside, place, last_bytes_lem n y (omega arith)) refl

-- The bytes of a word that `BYTE` reads at the indices from 0 to 31 spell the word, the highest first.
pub be_value-last_bytes : (y : ℕ) → y < 2 ^ 256 → be_value (last_bytes 32 y) ≡ y
be_value-last_bytes y h =
    ap be_value (last_bytes_lem 32 y (omega arith)) ∙ be_value-bytes_below 32 y ∙ mod-eq_of_lt h
