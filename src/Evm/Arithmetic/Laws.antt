-- ===== src/Evm/Arithmetic/Laws.antt =====
-- What the operators of `evm_arithmetization/src/arithmetic/mod.rs` and `util.rs` compute.
use native.Mathlib.Nat.{
  add-mul, mod-lt, suc-mul, div-add-mod', one-le-pow, mul_assoc, mod-eq_of_lt,
  mul-lt-mul_of_pos_right, mul-div_left, add-mul-mod_self_right,
}
use bcw_zk_evm.Word.Mask.{pow_add}
use bcw_zk_evm.Common.{
  ℕ, zero, suc, ◌+◌, ◌-◌, ◌*◌, ◌/◌, ◌%◌, ◌^◌, ◌≤◌, ◌<◌, ◌≡◌, sym, ap, ◌∙◌, Bool-cases, inl, inr,
  ltb, lt→ltb, ==_ne, arith,
}
use bcw_zk_evm.Evm.Operation.{BinaryOperator}
use bcw_zk_evm.Evm.Arithmetic.{raise, submod, binary_result}

-- With steps enough the loop stops at or above `y`, a multiple of `m` higher.
raise_lem :
    (steps x y m : ℕ)
    → y ≤ x + steps * m
    → (k : ℕ) × (raise steps x y m ≡ x + k * m) × (y ≤ raise steps x y m)
unfolding raise
raise_lem zero x y m h = (0, omega arith, omega (arith, h))
raise_lem (suc steps) x y m h = elim (Bool-cases (ltb x y)) [
  | inl low ↦
      (let (k, raised, reached) = raise_lem steps (x + m) y m (omega (arith, suc-mul steps m, h)) in
        (suc k, rw low (omega (arith, raised, suc-mul k m)), rw low reached))
  | inr high ↦ (0, rw high (omega arith), rw high (ground arith))
]

module _ (x y m : ℕ) (h : 0 < m) where
  -- Modulo a number that is not zero, `submod` subtracts: the result is below the modulus, and adding
  -- `y` to it gives `x` again modulo it, also where `y` is the greater.
  pub submod_lem : (submod x y m < m) × ((submod x y m + y) % m ≡ x % m)
  unfolding submod
  submod_lem =
      let (k, raised, reached) = raise_lem (y / m + 1) x y m enough in
      let r = raise (y / m + 1) x y m in
      rw (==_ne m 0 (omega (arith, h))) (
        mod-lt (r - y) h,
        sym (add-mul-mod_self_right ((r - y) % m + y) ((r - y) / m) m)
            ∙ ap (λ t. t % m) (omega (arith, div-add-mod' (r - y) m, raised, reached))
            ∙ add-mul-mod_self_right x k m,
      )
    where
      enough : y ≤ x + (y / m + 1) * m
      enough = omega (arith, div-add-mod' y m, mod-lt y h, add-mul (y / m) 1 m)

-- Of a multiple, the remainder is the multiple of the remainder.
scaled_mod : (x b a : ℕ) → 0 < a → 0 < b → x * a % (b * a) ≡ x % b * a
scaled_mod x b a ha hb =
    let r = x % b in
    let q = x / b in
    let parts : x * a ≡ r * a + q * (b * a) =
      ap (λ t. t * a) (sym (div-add-mod' x b))
      ∙ add-mul (q * b) r a
      ∙ omega (arith, mul_assoc q b a) in
    ap (λ t. t % (b * a)) parts
    ∙ add-mul-mod_self_right (r * a) q (b * a)
    ∙ mod-eq_of_lt (mul-lt-mul_of_pos_right (mod-lt x hb) ha)

module _ (s x : ℕ) (small : s < 256) (word : x < 2 ^ 256) where
  -- Shifting a word by `s` bits, fewer than 256, to the left and then back leaves its lowest `256 - s`
  -- bits. Shifting it to the right and then back clears its lowest `s` bits.
  pub shifts_lem :
      (binary_result BinaryOperator.shr s (binary_result BinaryOperator.shl s x)
        ≡ x % 2 ^ (256 - s))
      × (binary_result BinaryOperator.shl s (binary_result BinaryOperator.shr s x) ≡ x - x % 2 ^ s)
  unfolding binary_result
  shifts_lem =
      let whole : 2 ^ 256 ≡ 2 ^ (256 - s) * 2 ^ s =
        ap (λ k. 2 ^ k) {x = 256} {y = s + (256 - s)} (omega arith) ∙ pow_add s (256 - s) in
      rw (lt→ltb s 256 small) (
        ap (λ t. t / 2 ^ s)
              (ap (λ m. x * 2 ^ s % m) whole
                ∙ scaled_mod x (2 ^ (256 - s)) (2 ^ s) (one-le-pow s 2 (omega arith))
                    (one-le-pow (256 - s) 2 (omega arith)))
            ∙ mul-div_left (x % 2 ^ (256 - s)) (one-le-pow s 2 (omega arith)),
        mod-eq_of_lt (omega (arith, div-add-mod' x (2 ^ s), word))
            ∙ omega (arith, div-add-mod' x (2 ^ s)),
      )

-- Addition and subtraction of words undo each other, either way round.
pub inverse_lem :
    (x y : ℕ)
    → x < 2 ^ 256
    → y < 2 ^ 256
    → (binary_result BinaryOperator.sub (binary_result BinaryOperator.add x y) y ≡ x)
      × (binary_result BinaryOperator.add (binary_result BinaryOperator.sub x y) y ≡ x)
unfolding binary_result
inverse_lem x y h k = (omega (arith, h, k), omega (arith, h, k))

-- For a divisor that is not zero, the quotient times the divisor and the remainder make up the
-- dividend, and the remainder is below the divisor.
pub div-modulo_lem :
    (x y : ℕ)
    → 0 < y
    → (binary_result BinaryOperator.div x y * y + binary_result BinaryOperator.modulo x y ≡ x)
      × (binary_result BinaryOperator.modulo x y < y)
unfolding binary_result
div-modulo_lem x y h = rw (==_ne y 0 (omega (arith, h))) (div-add-mod' x y, mod-lt x h)
