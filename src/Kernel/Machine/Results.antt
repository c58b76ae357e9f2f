-- ===== src/Kernel/Machine/Results.antt =====
-- The operations of the machine take words of 256 bits to words.
use Prim.Native.String.{String}
use native.Mathlib.Nat.{mod-lt, mod-le, div-le_self}
use text.Mathlib.TextEquality.{eq_iff}
use bcw_zk_evm.Common.{
  ℕ, ◌+◌, ◌-◌, ◌*◌, ◌/◌, ◌%◌, ◌^◌, ◌==◌, if◌then◌else◌, Option, none, some, ◌≡◌, arith, Bool, true,
  false, Bool-cases, inl, inr, ltb, leb,
}
use bcw_zk_evm.Word.Bounds.{bit_and_below, bit_or_below, bit_xor_below}
use bcw_zk_evm.Evm.Operation.{BinaryOperator}
use bcw_zk_evm.Evm.Arithmetic.{binary_result}
use bcw_zk_evm.Kernel.Optimizer.{◌is◌}
use bcw_zk_evm.Kernel.Machine.{IsWord, logic_result, binary, unary, equal_words}

-- A test on a name: where it holds, the name is known.
pub by_name {ℓ κ} :
    {A : Type ℓ} (P : A → Type κ) (op name : String) (yes no : A)
    → (op ≡ name → P yes)
    → P no
    → P (if op is name then yes else no)
by_name P op name here others h k = elim (Bool-cases (op is name)) [
  | inl e ↦ rw e (h ((eq_iff op name).0 e))
  | inr e ↦ rw e k
]

pub mod-IsWord : (x : ℕ) → IsWord (x % 2 ^ 256)
mod-IsWord x = mod-lt x (omega arith)

if-IsWord : (b : Bool) (x y : ℕ) → IsWord x → IsWord y → IsWord (if b then x else y)
if-IsWord true x y h k = h
if-IsWord false x y h k = k

-- A function that takes words to words, where there is one.
unfoldable pub WordFunction : Option (ℕ → ℕ → ℕ) → Type 0
WordFunction none = Unit
WordFunction (some f) = (x y : ℕ) → IsWord x → IsWord y → IsWord (f x y)

lt-IsWord : (a b : ℕ) → IsWord (binary_result BinaryOperator.lt a b)
unfolding binary_result
lt-IsWord a b = elim (Bool-cases (ltb a b)) [
  | inl e ↦ rw e (omega arith)
  | inr e ↦ rw e (omega arith)
]

module _ (x y : ℕ) (h : IsWord x) (k : IsWord y) where
  div-IsWord : IsWord (binary_result BinaryOperator.div x y)
  unfolding binary_result
  div-IsWord = if-IsWord (y == 0) 0 (x / y) (omega arith) (omega (arith, div-le_self x y))

  modulo-IsWord : IsWord (binary_result BinaryOperator.modulo x y)
  unfolding binary_result
  modulo-IsWord = if-IsWord (y == 0) 0 (x % y) (omega arith) (omega (arith, mod-le x y))

  shl-IsWord : IsWord (binary_result BinaryOperator.shl x y)
  unfolding binary_result
  shl-IsWord = if-IsWord (ltb x 256) (y * 2 ^ x % 2 ^ 256) 0 (mod-IsWord (y * 2 ^ x)) (omega arith)

  shr-IsWord : IsWord (binary_result BinaryOperator.shr x y)
  unfolding binary_result
  shr-IsWord =
      if-IsWord (ltb x 256) (y / 2 ^ x) 0 (omega (arith, div-le_self y (2 ^ x))) (omega arith)

  byte-IsWord : IsWord (binary_result BinaryOperator.byte x y)
  unfolding binary_result
  byte-IsWord = if-IsWord (leb 32 x) 0 (y / 2 ^ (8 * (31 - x)) % 256) (omega arith) (omega arith)

  equal-IsWord : IsWord (equal_words x y)
  equal-IsWord = if-IsWord (x == y) 1 0 (omega arith) (omega arith)

pub binary-WordFunction : (op : String) → WordFunction (binary op)
unfolding WordFunction binary logic_result
binary-WordFunction op =
    by_name WordFunction op "ADD" _ _ (λ e x y h k. mod-IsWord (x + y))
      (by_name WordFunction op "SUB" _ _ (λ e x y h k. mod-IsWord (x + 2 ^ 256 - y))
        (by_name WordFunction op "MUL" _ _ (λ e x y h k. mod-IsWord (x * y))
          (by_name WordFunction op "DIV" _ _ (λ e. div-IsWord)
            (by_name WordFunction op "MOD" _ _ (λ e. modulo-IsWord)
              (by_name WordFunction op "EXP" _ _ (λ e x y h k. mod-IsWord (x ^ y))
                (by_name WordFunction op "SHL" _ _ (λ e. shl-IsWord)
                  (by_name WordFunction op "SHR" _ _ (λ e. shr-IsWord)
                    (by_name WordFunction op "AND" _ _ (λ e. bit_and_below 256)
                      (by_name WordFunction op "OR" _ _ (λ e. bit_or_below 256)
                        (by_name WordFunction op "XOR" _ _ (λ e. bit_xor_below 256)
                          (by_name WordFunction op "LT" _ _ (λ e x y h k. lt-IsWord x y)
                            (by_name WordFunction op "GT" _ _ (λ e x y h k. lt-IsWord y x)
                              (by_name WordFunction op "EQ" _ _ (λ e. equal-IsWord)
                                (by_name WordFunction op "BYTE" _ _ (λ e. byte-IsWord)
                                  tt))))))))))))))

unfoldable pub UnaryWord : Option (ℕ → ℕ) → Type 0
UnaryWord none = Unit
UnaryWord (some f) = (x : ℕ) → IsWord x → IsWord (f x)

pub unary-UnaryWord : (op : String) → UnaryWord (unary op)
unfolding UnaryWord unary
unary-UnaryWord op =
    by_name UnaryWord op "ISZERO" _ _ (λ e x h. if-IsWord (x == 0) 1 0 (omega arith) (omega arith))
      (by_name UnaryWord op "NOT" _ _ (λ e x h. omega arith) tt)
